-- ===== src/Prometheus/Format/Laws.antt =====
-- What `render_metrics` (src/prometheus.rs) writes, as printed families of samples.
use Prim.Native.String.{◌++◌}
use text.Mathlib.TextLemmas.{append_assoc, append-nil, nil-append}
use netalert.Prelude.{ℕ, ◌≡◌, sym, ap, ◌∙◌, String, List, [], ◌∷◌, ◌++◌ as list_append, map}
use netalert.Float.{Float}
use netalert.Config.{category_name, direction_name}
use netalert.Processor.Rates.{RateSnapshot}
use netalert.Manager.{AlertStateSnapshot}
use netalert.Manager.Evaluate.{metric_name}
use netalert.Daemon.{HealthMetrics}
use netalert.Prometheus.{
  Metric, metrics, show_u64, writeln, render_states, render_alert_states, render_received,
  render_health, collect_keys, label_value, render_labels, render_samples, render_rates,
  render_metrics,
}
use netalert.Prometheus.Format.{
  Family, print_more, print_sample, print_samples, help_line, type_line, print_family, print,
  rate_sample, rate_family, state_sample, state_family, received_sample, received_family, single,
  health_families, families,
}
use netalert.Prometheus.Format.Pieces.{
  one_label, four_labels, open_labels, no_label, next_label, described,
}

render_states-print :
    (states : List AlertStateSnapshot) (out : String)
    → render_states out states
      ≡ out ++ print_samples "netalert_alert_state" (map state_sample states)
unfolding render_states
render_states-print [] out = sym (append-nil out)
render_states-print (s ∷ states) out =
    render_states-print states _
    ∙ ap (λ x. x ++ print_samples "netalert_alert_state" (map state_sample states))
        (four_labels out "\"" "," "=\"" "{" "}" " " "\n" "netalert_alert_state" "prefix" s.prefix
          "protocol" (category_name s.protocol) "direction" (direction_name s.direction) "metric"
          (metric_name s.metric) (show_u64 s.state))
    ∙ append_assoc out (print_sample "netalert_alert_state" (state_sample s))
        (print_samples "netalert_alert_state" (map state_sample states))

render_received-print :
    (received : List (String × ℕ)) (out : String)
    → render_received out received
      ≡ out ++ print_samples "netalert_flows_received_total" (map received_sample received)
unfolding render_received
render_received-print [] out = sym (append-nil out)
render_received-print ((source, counter) ∷ received) out =
    render_received-print received _
    ∙ ap (λ x. x ++ print_samples "netalert_flows_received_total" (map received_sample received))
        (one_label out "\"" "," "=\"" "{" "}" " " "\n" "netalert_flows_received_total" "source"
          source (show_u64 counter))
    ∙ append_assoc out
        (print_sample "netalert_flows_received_total" (received_sample (source, counter)))
        (print_samples "netalert_flows_received_total" (map received_sample received))

render_labels-print :
    (keys : List String) (labels : List (String × String)) (out : String)
    → render_labels out keys labels
      ≡ out ++ print_more (map (λ key. (key, label_value labels key)) keys)
unfolding render_labels
render_labels-print [] labels out = sym (append-nil out)
render_labels-print (key ∷ keys) labels out =
    render_labels-print keys labels _
    ∙ next_label out "\"" "," "=\"" "{" "}" " " "\n" key (label_value labels key)
        (print_more (map (λ key. (key, label_value labels key)) keys))

-- A family: its two lines, and what its loop writes.
family-print :
    (family : Family) (body : String → String) (out : String)
    → ((o : String) → body o ≡ o ++ print_samples family.name family.samples)
    → body (writeln (writeln out (help_line family)) (type_line family))
      ≡ out ++ print_family family
family-print family body out written =
    written (writeln (writeln out (help_line family)) (type_line family))
    ∙ described out (help_line family) (type_line family) (print_samples family.name family.samples)

single-print :
    (name value out : String)
    → writeln out ((name ++ " ") ++ value)
      ≡ out ++ print_samples name (record { labels = []; value = value } ∷ [])
single-print name value out = no_label out "\"" "," "=\"" "{" "}" " " "\n" name value

module _ {W : Type 0} (show : W → String) where
  render_samples-print :
      (snapshots : List (RateSnapshot W)) (name help : String) (get_val : RateSnapshot W → W)
      (keys : List String) (out : String)
      → render_samples show out (name, help, get_val) keys snapshots
        ≡ out ++ print_samples name (map (rate_sample show get_val keys) snapshots)
  unfolding render_samples
  render_samples-print [] name help get_val keys out = sym (append-nil out)
  render_samples-print (s ∷ snapshots) name help get_val keys out =
      render_samples-print snapshots name help get_val keys _
      ∙ ap (λ x. x ++ print_samples name (map (rate_sample show get_val keys) snapshots))
          (ap (λ x. writeln x ("} " ++ show (get_val s))) (render_labels-print keys s.labels _)
            ∙ open_labels out "\"" "," "=\"" "{" "}" " " "\n" name "prefix" s.prefix "protocol"
                (category_name s.protocol) "direction" (direction_name s.direction)
                (print_more (map (λ key. (key, label_value s.labels key)) keys)) (show (get_val s)))
      ∙ append_assoc out (print_sample name (rate_sample show get_val keys s))
          (print_samples name (map (rate_sample show get_val keys) snapshots))

  render_rates-print :
      (ms : List (Metric W)) (keys : List String) (snapshots : List (RateSnapshot W)) (out : String)
      → render_rates show out ms keys snapshots
        ≡ out ++ print (map (rate_family show keys snapshots) ms)
  unfolding render_rates
  render_rates-print [] keys snapshots out = sym (append-nil out)
  render_rates-print ((name, help, get_val) ∷ ms) keys snapshots out =
      let family = rate_family show keys snapshots (name, help, get_val) in
      render_rates-print ms keys snapshots _
      ∙ ap (λ x. x ++ print (map (rate_family show keys snapshots) ms))
          (family-print family (λ o. render_samples show o (name, help, get_val) keys snapshots) out
            (render_samples-print snapshots name help get_val keys))
      ∙ append_assoc out (print_family family) (print (map (rate_family show keys snapshots) ms))

  print-append : (fs gs : List Family) → print (list_append fs gs) ≡ print fs ++ print gs
  print-append [] gs = sym (nil-append (print gs))
  print-append (family ∷ fs) gs =
      ap (λ x. print_family family ++ x) (print-append fs gs)
      ∙ sym (append_assoc (print_family family) (print fs) (print gs))

render_alert_states-print :
    (states : List AlertStateSnapshot) (out : String)
    → render_alert_states out states ≡ out ++ print_family (state_family states)
unfolding render_alert_states
render_alert_states-print states out =
    family-print (state_family states) (λ o. render_states o states) out
      (render_states-print states)

abbrev write_single : String → String → String → String → String → String
write_single name help kind value out =
    let family = single name help kind value in
    writeln (writeln (writeln out (help_line family)) (type_line family)) ((name ++ " ") ++ value)

write_single-print :
    (name help kind value out : String)
    → write_single name help kind value out ≡ out ++ print_family (single name help kind value)
write_single-print name help kind value out =
    family-print (single name help kind value) (λ o. writeln o ((name ++ " ") ++ value)) out
      (single-print name value)

abbrev single_of : String × String × String × String → Family
single_of (name, help, kind, value) = single name help kind value

abbrev write_singles : List (String × String × String × String) → String → String
write_singles [] out = out
write_singles ((name, help, kind, value) ∷ rows) out =
    write_singles rows (write_single name help kind value out)

write_singles-print :
    (rows : List (String × String × String × String)) (out : String)
    → write_singles rows out ≡ out ++ print (map single_of rows)
write_singles-print [] out = sym (append-nil out)
write_singles-print ((name, help, kind, value) ∷ rows) out =
    write_singles-print rows (write_single name help kind value out)
    ∙ ap (λ x. x ++ print (map single_of rows)) (write_single-print name help kind value out)
    ∙ append_assoc out (print_family (single name help kind value)) (print (map single_of rows))

module _ {W : Type 0} ⦃f : Float W⦄ (show : W → String) where
  render_health-print :
      (health : HealthMetrics) (out : String)
      → render_health show out health ≡ out ++ print (health_families show health)
  unfolding render_health
  render_health-print health out =
      let received =
        ("netflow", health.flows_received_netflow) ∷ ("sflow", health.flows_received_sflow) ∷ [] in
      let lasted =
        show (f.div (f.of_int health.evaluation_duration_micros) (f.literal 10_000_000 1)) in
      let rows =
        (
          "netalert_flows_dropped_total",
          "Flows dropped because the processing channel was full",
          "counter",
          show_u64 health.flows_dropped,
        )
        ∷ (
          "netalert_flow_channel_depth",
          "Flows currently queued for processing",
          "gauge",
          show_u64 health.flow_channel_depth,
        )
        ∷ (
          "netalert_evaluation_duration_seconds", "Duration of the last threshold evaluation pass",
          "gauge", lasted,
        )
        ∷ [] in
      ap (write_singles rows) (
        family-print (received_family received) (λ o. render_received o received) out
          (render_received-print received))
      ∙ write_singles-print rows (out ++ print_family (received_family received))
      ∙ append_assoc out (print_family (received_family received)) (print (map single_of rows))

  pub render_metrics-print :
      (snapshots : List (RateSnapshot W)) (states : List AlertStateSnapshot)
      (health : HealthMetrics)
      → render_metrics show snapshots states health
        ≡ print (families show (collect_keys snapshots []) snapshots states health)
  unfolding render_metrics
  render_metrics-print snapshots states health =
      let keys = collect_keys snapshots [] in
      let rates = map (rate_family show keys snapshots) metrics in
      let rest = state_family states ∷ health_families show health in
      let rates_text = render_rates show "" metrics keys snapshots in
      render_health-print health (render_alert_states rates_text states)
      ∙ ap (λ x. x ++ print (health_families show health))
          (render_alert_states-print states rates_text)
      ∙ append_assoc rates_text (print_family (state_family states))
          (print (health_families show health))
      ∙ ap (λ x. x ++ print rest)
          (render_rates-print show metrics keys snapshots "" ∙ nil-append (print rates))
      ∙ sym (print-append show rates rest)
