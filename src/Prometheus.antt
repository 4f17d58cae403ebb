-- ===== src/Prometheus.antt =====
-- The metrics endpoint (src/prometheus.rs): the text that it serves. How an `f64` is shown is given.
pub mod Format
pub mod Keys
pub mod Exposition
pub mod Server
use Prim.Native.Nat.{Ordering}
use Prim.Native.String.{◌++◌, compare}
use mathlib.Core.Option.{get_or}
use netalert.Prelude.{
  ℕ, zero, suc, ◌+◌, ◌/◌, ◌%◌, ◌==◌, ltb, if◌then◌else◌, String, String-discrete, List, [], ◌∷◌,
  ite,
}
use netalert.Prelude.Assoc.{find}
use netalert.Float.{Float}
use netalert.Config.{category_name, direction_name}
use netalert.Processor.Rates.{RateSnapshot}
use netalert.Mitigation.Text.{digit}
use netalert.Manager.{AlertStateSnapshot}
use netalert.Manager.Evaluate.{metric_name}
use netalert.Daemon.{HealthMetrics}

-- `Display` of an integer: at most `fuel` digits, in front of what is shown already. A `u64` has 20.
digits : ℕ → ℕ → String → String
digits zero n shown = shown
digits (suc fuel) n shown =
    let more = digits fuel (n / 10) (digit (n % 10) ++ shown) in
    if ltb n 10 then digit n ++ shown else more

unfoldable pub show_u64 : ℕ → String
unfolding digits
show_u64 n = digits 20 n ""

-- `writeln!` of a line that is made.
abbrev pub writeln : String → String → String
writeln out line = (out ++ line) ++ "\n"

-- A row of `METRICS`
abbrev pub Metric : Type 0 → Type 0
Metric W = String × String × (RateSnapshot W → W)

abbrev pub metrics : {W : Type 0} → List (Metric W)
metrics =
    ("netalert_bps", "Bits per second", λ s. s.bps)
    ∷ ("netalert_pps", "Packets per second", λ s. s.pps)
    ∷ ("netalert_fps", "Flows per second", λ s. s.fps)
    ∷ []

unfoldable pub render_states : String → List AlertStateSnapshot → String
render_states out [] = out
render_states out (s ∷ states) =
    render_states
      (writeln out (
        "netalert_alert_state{prefix=\""
        ++ s.prefix
        ++ "\",protocol=\""
        ++ category_name s.protocol
        ++ "\",direction=\""
        ++ direction_name s.direction
        ++ "\",metric=\""
        ++ metric_name s.metric
        ++ "\"} "
        ++ show_u64 s.state))
      states

unfoldable pub render_alert_states : String → List AlertStateSnapshot → String
render_alert_states out states =
    render_states
      (writeln
        (writeln out
          "# HELP netalert_alert_state Alert state machine position (0=normal, 1=pending, 2=firing, 3=recovering)")
        "# TYPE netalert_alert_state gauge")
      states

-- `for (source, counter) in received`
unfoldable pub render_received : String → List (String × ℕ) → String
render_received out [] = out
render_received out ((source, counter) ∷ received) =
    render_received
      (writeln out
        ("netalert_flows_received_total{source=\"" ++ source ++ "\"} " ++ show_u64 counter))
      received

module _ {W : Type 0} ⦃f : Float W⦄ (show : W → String) where
  unfoldable pub render_health : String → HealthMetrics → String
  render_health out health =
      let out1 = writeln out "# HELP netalert_flows_received_total Flows received per collector" in
      let out2 = writeln out1 "# TYPE netalert_flows_received_total counter" in
      let out3 = render_received out2 (
        ("netflow", health.flows_received_netflow) ∷ ("sflow", health.flows_received_sflow) ∷ []) in
      let out4 =
        writeln out3
          "# HELP netalert_flows_dropped_total Flows dropped because the processing channel was full" in
      let out5 = writeln out4 "# TYPE netalert_flows_dropped_total counter" in
      let out6 = writeln out5 ("netalert_flows_dropped_total " ++ show_u64 health.flows_dropped) in
      let out7 =
        writeln out6 "# HELP netalert_flow_channel_depth Flows currently queued for processing" in
      let out8 = writeln out7 "# TYPE netalert_flow_channel_depth gauge" in
      let out9 =
        writeln out8 ("netalert_flow_channel_depth " ++ show_u64 health.flow_channel_depth) in
      let out10 =
        writeln out9
          "# HELP netalert_evaluation_duration_seconds Duration of the last threshold evaluation pass" in
      let out11 = writeln out10 "# TYPE netalert_evaluation_duration_seconds gauge" in
      writeln out11 (
        "netalert_evaluation_duration_seconds "
        ++ (show (f.div (f.of_int health.evaluation_duration_micros) (f.literal 10_000_000 1))))

-- `insert` of a `BTreeSet`, kept as its sorted elements.
unfoldable pub insert_key : String → List String → List String
insert_key key [] = key ∷ []
insert_key key (k ∷ ks) =
    let rest = insert_key key ks in
    elim (compare key k) [
      | Ordering.lt ↦ key ∷ k ∷ ks
      | Ordering.eq ↦ k ∷ ks
      | Ordering.gt ↦ k ∷ rest
    ]

unfoldable pub insert_keys : List (String × String) → List String → List String
insert_keys [] set = set
insert_keys ((key, val) ∷ labels) set = insert_keys labels (insert_key key set)

-- `snapshots.iter().flat_map(|s| s.labels.keys().cloned()).collect::<BTreeSet<_>>()`
unfoldable pub collect_keys : {W : Type 0} → List (RateSnapshot W) → List String → List String
collect_keys [] set = set
collect_keys (s ∷ snapshots) set = collect_keys snapshots (insert_keys s.labels set)

-- `s.labels.get(key).map(|s| s.as_str()).unwrap_or("")`
abbrev pub label_value : List (String × String) → String → String
label_value labels key = get_or (find String-discrete key labels) ""

-- `for key in &extra_keys`
unfoldable pub render_labels : String → List String → List (String × String) → String
render_labels out [] labels = out
render_labels out (key ∷ keys) labels =
    render_labels (out ++ "," ++ key ++ "=\"" ++ (label_value labels key) ++ "\"") keys labels

module _ {W : Type 0} (show : W → String) where
  -- `for s in snapshots`
  unfoldable pub render_samples : String → Metric W → List String → List (RateSnapshot W) → String
  render_samples out (name, help, get_val) extra_keys [] = out
  render_samples out (name, help, get_val) extra_keys (s ∷ snapshots) =
      let opened =
        out
        ++ name
        ++ "{prefix=\""
        ++ s.prefix
        ++ "\",protocol=\""
        ++ category_name s.protocol
        ++ "\",direction=\""
        ++ direction_name s.direction
        ++ "\"" in
      render_samples
        (writeln (render_labels opened extra_keys s.labels) ("} " ++ (show (get_val s))))
        (name, help, get_val) extra_keys snapshots

  -- `for (name, help, get_val) in METRICS`
  unfoldable pub render_rates :
      String → List (Metric W) → List String → List (RateSnapshot W) → String
  render_rates out [] extra_keys snapshots = out
  render_rates out ((name, help, get_val) ∷ ms) extra_keys snapshots =
      let described =
        writeln (writeln out ("# HELP " ++ name ++ " " ++ help)) ("# TYPE " ++ name ++ " gauge") in
      render_rates (render_samples described (name, help, get_val) extra_keys snapshots) ms
        extra_keys snapshots

module _ {W : Type 0} ⦃f : Float W⦄ (show : W → String) where
  unfoldable pub render_metrics :
      List (RateSnapshot W) → List AlertStateSnapshot → HealthMetrics → String
  render_metrics snapshots alert_states health =
      let extra_keys = collect_keys snapshots [] in
      render_health show
        (render_alert_states (render_rates show "" metrics extra_keys snapshots) alert_states)
        health

  -- The answer to a request of a URL.
  unfoldable pub respond :
      String → List (RateSnapshot W) → List AlertStateSnapshot → HealthMetrics → String
  respond url snapshots alert_states health =
      ite (String-discrete url "/metrics") (render_metrics snapshots alert_states health)
        "# metrics available at /metrics\n"
