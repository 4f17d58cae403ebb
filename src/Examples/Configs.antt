-- ===== src/Examples/Configs.antt =====
-- The configuration (src/config.rs) at concrete inputs.
use netalert.Prelude.{
  ℕ, ℕ_discrete, ◌≡◌, ◌↔◌, refl, String, String-discrete, [], ◌∷◌, none, some, true, All, Memᴰ,
}
use netalert.Prelude.Assoc.{find}
use netalert.Prelude.Results.{ok}
use netalert.Flow.{IpAddr-discrete, v4}
use netalert.Config.{
  Config, RuleConfig, ExporterConfig, DirectionMetrics, tcp, dns, udp, any, inbound, outbound,
  classify, from_secs, default_mitigation_update_interval,
}
use netalert.Config.Classify.{contains, Belongs, contains-classify}
use netalert.Config.Validate.{validate}
use netalert.Config.Validate.Laws.{RuleIsValid, AddressesAreFresh, validate_iff}
use netalert.Config.Exporters.{exporter_sampling_rates, find-exporter_sampling_rates}
use netalert.Examples.Addresses.{Area, ten, internet}

abbrev pub limits : DirectionMetrics ℕ
limits = record {
  metrics = record {
    bps = some (record { trigger = 8_000_000; recover = some 4_000_000 });
    pps = none;
    fps = some (record { trigger = 2_000; recover = none });
  };
}

abbrev pub rule_ten : RuleConfig ℕ Area
rule_ten = record {
  prefix = ten;
  labels = ("team", "core") ∷ [];
  alert_policy = some "fast";
  thresholds = (tcp, (inbound, limits) ∷ []) ∷ (any, (outbound, limits) ∷ []) ∷ [];
}

abbrev pub rule_internet : RuleConfig ℕ Area
rule_internet = record {
  prefix = internet;
  labels = [];
  alert_policy = none;
  thresholds = (udp, (inbound, limits) ∷ []) ∷ [];
}

abbrev pub edge : String × ExporterConfig
edge = ("edge", record { address = v4 3_232_235_521; sampling_rate = 100 })

abbrev pub two_rules : Config ℕ Area
two_rules = record {
  global = record {
    evaluation_interval = from_secs 1;
    window = from_secs 4;
    alert_script = some "/etc/netalert/alert.sh";
    capture_buffer_size = 2;
    mitigation_update_interval = default_mitigation_update_interval;
  };
  exporters = ("core", record { address = v4 3_232_235_522; sampling_rate = 1 }) ∷ edge ∷ [];
  alert_policies = ("fast", record { trigger_for = from_secs 2; recover_for = from_secs 5 }) ∷ [];
  rules = rule_ten ∷ rule_internet ∷ [];
}

pub two_rules_valid : validate two_rules ≡ ok tt
unfolding validate String-discrete IpAddr-discrete ℕ_discrete
two_rules_valid = refl

contains-classify_example : (contains (classify 17 0 53) dns ≡ true) ↔ Belongs dns 17 0 53
contains-classify_example = contains-classify dns 17 0 53

-- A rule whose only protocol has no direction has no threshold, and is accepted.
no_direction :
    validate
      (record two_rules { rules = record rule_internet { thresholds = (udp, []) ∷ [] } ∷ [] })
    ≡ ok tt
unfolding validate IpAddr-discrete ℕ_discrete
no_direction = refl

-- So is an evaluation interval of zero.
no_interval :
    validate (record two_rules { global = record two_rules.global { evaluation_interval = 0 } })
    ≡ ok tt
unfolding validate String-discrete IpAddr-discrete ℕ_discrete
no_interval = refl

validate_iff_example : (validate two_rules ≡ ok tt) ↔ (
    All (RuleIsValid two_rules.alert_policies) two_rules.rules
    × AddressesAreFresh [] two_rules.exporters)
validate_iff_example = validate_iff two_rules

find-exporter_sampling_rates_example :
    find IpAddr-discrete (v4 3_232_235_521) (exporter_sampling_rates two_rules) ≡ some 100
find-exporter_sampling_rates_example =
    find-exporter_sampling_rates two_rules edge two_rules_valid (Memᴰ.tail (Memᴰ.head refl))
