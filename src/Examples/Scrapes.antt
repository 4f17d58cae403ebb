-- ===== src/Examples/Scrapes.antt =====
-- The metrics endpoint (src/prometheus.rs) at concrete values.
use Prim.Native.String.{◌++◌}
use text.Mathlib.TextEquality.{eq_iff}
use netalert.Prelude.{
  map, All, false, arith, true, ℕ, ◌≡◌, ◌↔◌, refl, String, String-discrete, List, [], ◌∷◌, Memᴰ,
}
use netalert.Float.{thousandths}
use netalert.Config.{tcp, any, inbound, outbound, category_name, direction_name}
use netalert.Alert.{bps}
use netalert.Processor.Rates.{RateSnapshot}
use netalert.Manager.{AlertStateSnapshot}
use netalert.Manager.Evaluate.{metric_name}
use netalert.Daemon.{HealthMetrics, new_shared_health}
use netalert.Mitigation.Text.{digit}
use netalert.Prometheus.{
  show_u64, respond, render_states, render_received, render_labels, render_samples, render_rates,
  insert_key, insert_keys, collect_keys,
}
use netalert.Prometheus.Server.{spawn}
use netalert.Prometheus.Keys.{IsAscending, IsNamed}
use netalert.Prometheus.Format.{families}
use netalert.Prometheus.Format.Escape.{escape, is_plain, exposition, AreDistinct}
use netalert.Prometheus.Format.Labels.{IsFree, CanBeShown}
use netalert.Prometheus.Exposition.{respond-families}

abbrev core : RateSnapshot ℕ
core = record {
  prefix = "10.0.0.0/8";
  labels = ("team", "core") ∷ ("site", "ams") ∷ [];
  protocol = tcp;
  direction = inbound;
  bps = 3_040_000;
  pps = 4_250;
  fps = 750;
}

abbrev edge : RateSnapshot ℕ
edge = record core { labels = ("team", "edge") ∷ []; direction = outbound }

abbrev firing_alert : AlertStateSnapshot
firing_alert = record {
  prefix = "10.0.0.0/24";
  protocol = any;
  direction = inbound;
  metric = bps;
  state = 2;
}

abbrev counted : HealthMetrics
counted = record {
  flows_received_netflow = 10;
  flows_received_sflow = 0;
  flows_dropped = 2;
  flow_channel_depth = 7;
  evaluation_duration_micros = 1_500;
}

abbrev show_thousandths : ℕ → String
show_thousandths n = show_u64 n ++ "e-3"

team-IsFree : IsFree "team"
team-IsFree = (
  ground (arith, eq_iff "team" "prefix"),
  ground (arith, eq_iff "team" "protocol"),
  ground (arith, eq_iff "team" "direction"),
)

site-IsFree : IsFree "site"
site-IsFree = (
  ground (arith, eq_iff "site" "prefix"),
  ground (arith, eq_iff "site" "protocol"),
  ground (arith, eq_iff "site" "direction"),
)

core-CanBeShown : CanBeShown core
unfolding is_plain
core-CanBeShown = (refl, ((team-IsFree, refl), ((site-IsFree, refl), tt)))

edge-CanBeShown : CanBeShown edge
unfolding is_plain
edge-CanBeShown = (refl, ((team-IsFree, refl), tt))

respond-families_example :
    (keys : List String) × IsAscending keys
    × ((key : String) → Memᴰ key keys ↔ IsNamed key (core ∷ edge ∷ []))
    × All
        (λ family. All (λ s. AreDistinct s.labels) family.samples)
        (families show_thousandths keys (core ∷ edge ∷ []) (firing_alert ∷ []) counted)
    × (respond show_thousandths "/metrics" (core ∷ edge ∷ []) (firing_alert ∷ []) counted
        ≡ exposition
            (families show_thousandths keys (core ∷ edge ∷ []) (firing_alert ∷ []) counted))
respond-families_example =
    respond-families show_thousandths (core ∷ edge ∷ []) (firing_alert ∷ []) counted
      (core-CanBeShown, (edge-CanBeShown, tt)) (unfold is_plain in refl, tt)

key_order : collect_keys (core ∷ edge ∷ []) [] ≡ "site" ∷ "team" ∷ []
unfolding collect_keys insert_keys insert_key
key_order = refl

first_lines :
    render_rates show_thousandths ""
      (("netalert_bps", "Bits per second", λ s. s.bps) ∷ [])
      ("site" ∷ "team" ∷ [])
      (core ∷ edge ∷ [])
    ≡ "# HELP netalert_bps Bits per second\n# TYPE netalert_bps gauge\nnetalert_bps{prefix=\"10.0.0.0/8\",protocol=\"tcp\",direction=\"inbound\",site=\"ams\",team=\"core\"} 3040000e-3\nnetalert_bps{prefix=\"10.0.0.0/8\",protocol=\"tcp\",direction=\"outbound\",site=\"\",team=\"edge\"} 3040000e-3\n"
unfolding render_rates render_samples render_labels category_name direction_name String-discrete
    show_u64 digit
first_lines = refl

state_line :
    render_states "" (firing_alert ∷ [])
    ≡ "netalert_alert_state{prefix=\"10.0.0.0/24\",protocol=\"any\",direction=\"inbound\",metric=\"bps\"} 2\n"
unfolding render_states category_name direction_name metric_name show_u64 digit
state_line = refl

received_lines :
    render_received "" (("netflow", 18_446_744_073_709_551_615) ∷ ("sflow", 0) ∷ [])
    ≡ "netalert_flows_received_total{source=\"netflow\"} 18446744073709551615\nnetalert_flows_received_total{source=\"sflow\"} 0\n"
unfolding render_received show_u64 digit
received_lines = refl

-- A request of another path is pointed to the metrics.
elsewhere :
    map
      (λ r. r.body)
      (spawn {W = ℕ}
        (λ x. "")
        (λ addr. true)
        "0.0.0.0:9090"
        (record { url = "/"; snapshots = []; alert_states = []; health = new_shared_health } ∷ []))
    ≡ "# metrics available at /metrics\n" ∷ []
unfolding respond String-discrete
elsewhere = refl

-- A label value with a quote needs an escape, which the code does not write.
a_quote : is_plain "a\"b" ≡ false
unfolding is_plain
a_quote = refl

its_escape : escape "a\"b\\c\nd" ≡ "a\\\"b\\\\c\\nd"
unfolding escape
its_escape = refl
