-- ===== src/Prometheus/Format.antt =====
-- What src/prometheus.rs serves: families of samples with labels, as data, and how they are printed,
-- each text as it is.
pub mod Pieces
pub mod Laws
pub mod Escape
pub mod Labels
use Prim.Native.String.{◌++◌}
use netalert.Prelude.{ℕ, String, List, [], ◌∷◌, ◌++◌ as list_append, map}
use netalert.Float.{Float}
use netalert.Config.{category_name, direction_name}
use netalert.Processor.Rates.{RateSnapshot}
use netalert.Manager.{AlertStateSnapshot}
use netalert.Manager.Evaluate.{metric_name}
use netalert.Daemon.{HealthMetrics}
use netalert.Prometheus.{Metric, metrics, show_u64, label_value}

pub record Sample : Type 0 where
  pub labels : List (String × String)
  pub value : String

pub record Family : Type 0 where
  pub name : String
  pub help : String
  pub kind : String
  pub samples : List Sample

abbrev pub print_more : List (String × String) → String
print_more [] = ""
print_more ((k, v) ∷ ls) = "," ++ k ++ "=\"" ++ v ++ "\"" ++ (print_more ls)

-- `{k="v",k="v"}`, or nothing
abbrev pub print_labels : List (String × String) → String
print_labels [] = ""
print_labels ((k, v) ∷ ls) = "{" ++ k ++ "=\"" ++ v ++ "\"" ++ (print_more ls) ++ "}"

abbrev pub print_sample : String → Sample → String
print_sample name s = name ++ (print_labels s.labels) ++ " " ++ s.value ++ "\n"

abbrev pub print_samples : String → List Sample → String
print_samples name [] = ""
print_samples name (s ∷ ss) = (print_sample name s) ++ (print_samples name ss)

abbrev pub help_line : Family → String
help_line family = "# HELP " ++ family.name ++ " " ++ family.help

abbrev pub type_line : Family → String
type_line family = "# TYPE " ++ family.name ++ " " ++ family.kind

abbrev pub print_family : Family → String
print_family family =
    (help_line family)
    ++ "\n"
    ++ (type_line family)
    ++ "\n"
    ++ (print_samples family.name family.samples)

abbrev pub print : List Family → String
print [] = ""
print (family ∷ families) = (print_family family) ++ (print families)

-- A rate of a key: its rule and key, and each label name with the rule's text for it or none.
abbrev pub rate_sample :
    {W : Type 0} → (W → String) → (RateSnapshot W → W) → List String → RateSnapshot W → Sample
rate_sample show get_val keys s = record {
  labels =
      ("prefix", s.prefix)
      ∷ ("protocol", category_name s.protocol)
      ∷ ("direction", direction_name s.direction)
      ∷ map (λ key. (key, label_value s.labels key)) keys;
  value = show (get_val s);
}

abbrev pub rate_family :
    {W : Type 0} → (W → String) → List String → List (RateSnapshot W) → Metric W → Family
rate_family show keys snapshots (name, help, get_val) = record {
  name = name;
  help = help;
  kind = "gauge";
  samples = map (rate_sample show get_val keys) snapshots;
}

abbrev pub state_sample : AlertStateSnapshot → Sample
state_sample s = record {
  labels =
      ("prefix", s.prefix)
      ∷ ("protocol", category_name s.protocol)
      ∷ ("direction", direction_name s.direction)
      ∷ ("metric", metric_name s.metric)
      ∷ [];
  value = show_u64 s.state;
}

abbrev pub state_family : List AlertStateSnapshot → Family
state_family states = record {
  name = "netalert_alert_state";
  help = "Alert state machine position (0=normal, 1=pending, 2=firing, 3=recovering)";
  kind = "gauge";
  samples = map state_sample states;
}

abbrev pub received_sample : String × ℕ → Sample
received_sample (source, counter) = record {
  labels = ("source", source) ∷ [];
  value = show_u64 counter;
}

abbrev pub received_family : List (String × ℕ) → Family
received_family received = record {
  name = "netalert_flows_received_total";
  help = "Flows received per collector";
  kind = "counter";
  samples = map received_sample received;
}

-- A family of one sample without labels
abbrev pub single : String → String → String → String → Family
single name help kind value = record {
  name = name;
  help = help;
  kind = kind;
  samples = record { labels = []; value = value } ∷ [];
}

abbrev pub health_families : {W : Type 0} ⦃f : Float W⦄ → (W → String) → HealthMetrics → List Family
health_families ⦃f⦄ show health =
    received_family
      (("netflow", health.flows_received_netflow) ∷ ("sflow", health.flows_received_sflow) ∷ [])
    ∷ single "netalert_flows_dropped_total" "Flows dropped because the processing channel was full"
        "counter" (show_u64 health.flows_dropped)
    ∷ single "netalert_flow_channel_depth" "Flows currently queued for processing" "gauge"
        (show_u64 health.flow_channel_depth)
    ∷ single "netalert_evaluation_duration_seconds" "Duration of the last threshold evaluation pass"
        "gauge" (show (f.div (f.of_int health.evaluation_duration_micros) (f.literal 10_000_000 1)))
    ∷ []

-- What the endpoint serves, with the names of the rules' labels.
abbrev pub families :
    {W : Type 0} ⦃f : Float W⦄
    → (W → String)
    → List String
    → List (RateSnapshot W)
    → List AlertStateSnapshot
    → HealthMetrics
    → List Family
families show keys snapshots states health =
    list_append (map (rate_family show keys snapshots) metrics)
      (state_family states ∷ health_families show health)
