-- ===== src/Manager/Reload.antt =====
-- `AlertManager::reload_config` (src/alert.rs): the alerts of the new configuration take over the
-- states of the old ones by key.
pub mod Laws
pub mod New
pub mod Thresholds
pub mod Configured
pub mod Inherit
pub mod Orphans
use netalert.Prelude.{ℕ, String, String-discrete, List, [], ◌∷◌, ◌++◌, Option, none, some, ite}
use netalert.Prelude.Assoc.{find, put, remove}
use netalert.Net.{IpNet}
use netalert.Config.{
  ProtocolCategory, Direction, ThresholdPair, recover_value, MetricThresholds, DirectionMetrics,
  RuleConfig, AlertPolicyConfig, Config, from_secs,
}
use netalert.Alert.{AlertState, normal, AlertInstance, MetricType, bps, pps, fps}
use netalert.Manager.{AlertManager, AlertKey, AlertKey-discrete, key_of}

-- What the alerts of one rule share.
pub record RuleContext : Type 0 where
  pub prefix : String
  pub trigger_for : ℕ
  pub recover_for : ℕ
  pub mitigation_update_interval : ℕ
  pub labels : List (String × String)

-- One metric of `add_metric_alerts`; `Uuid::nil()` is 0.
abbrev pub metric_alert :
    {W : Type 0}
    → RuleContext
    → ProtocolCategory
    → Direction
    → MetricType
    → Option (ThresholdPair W)
    → List (AlertInstance W)
metric_alert c protocol direction metric none = []
metric_alert c protocol direction metric (some threshold) =
    record {
      state = normal;
      alert_id = 0;
      prefix = c.prefix;
      protocol = protocol;
      direction = direction;
      metric = metric;
      trigger_threshold = threshold.trigger;
      recover_threshold = recover_value threshold;
      trigger_for = c.trigger_for;
      recover_for = c.recover_for;
      mitigation_update_interval = c.mitigation_update_interval;
      labels = c.labels;
    }
    ∷ []

abbrev pub metric_alerts :
    {W : Type 0}
    → RuleContext
    → ProtocolCategory
    → Direction
    → MetricThresholds W
    → List (AlertInstance W)
metric_alerts c protocol direction m =
    metric_alert c protocol direction bps m.bps
    ++ (metric_alert c protocol direction pps m.pps ++ metric_alert c protocol direction fps m.fps)

direction_alerts :
    {W : Type 0}
    → RuleContext
    → ProtocolCategory
    → List (Direction × DirectionMetrics W)
    → List (AlertInstance W)
direction_alerts c protocol [] = []
direction_alerts c protocol ((direction, d) ∷ ds) =
    metric_alerts c protocol direction d.metrics ++ direction_alerts c protocol ds

pub threshold_alerts :
    {W : Type 0}
    → RuleContext
    → List (ProtocolCategory × List (Direction × DirectionMetrics W))
    → List (AlertInstance W)
threshold_alerts c [] = []
threshold_alerts c ((protocol, ds) ∷ ts) = direction_alerts c protocol ds ++ threshold_alerts c ts

-- The policy of a rule, or 10 and 20 seconds.
abbrev pub default_policy : AlertPolicyConfig
default_policy = record { trigger_for = from_secs 10; recover_for = from_secs 20 }

abbrev pub policy_of : List (String × AlertPolicyConfig) → Option String → AlertPolicyConfig
policy_of policies none = default_policy
policy_of policies (some name) = elim (find String-discrete name policies) [
  | none ↦ default_policy
  | some policy ↦ policy
]

module _ {W Net : Type 0} ⦃n : IpNet Net⦄ where
  rule_alerts : Config W Net → List (RuleConfig W Net) → List (AlertInstance W)
  rule_alerts config [] = []
  rule_alerts config (rule ∷ rules) =
      let policy = policy_of config.alert_policies rule.alert_policy in
      threshold_alerts
        (record {
          prefix = n.to_string rule.prefix;
          trigger_for = policy.trigger_for;
          recover_for = policy.recover_for;
          mitigation_update_interval = config.global.mitigation_update_interval;
          labels = rule.labels;
        })
        rule.thresholds
      ++ rule_alerts config rules

  -- The alerts of a configuration, all `normal`.
  unfoldable pub configured : Config W Net → List (AlertInstance W)
  unfolding rule_alerts threshold_alerts direction_alerts
  configured config = rule_alerts config config.rules

abbrev pub Kept : Type 0
Kept = List (AlertKey × (AlertState × ℕ))

-- `drain(..).map(…).collect()`: of two alerts with one key the later stays.
unfoldable pub collect_previous : {W : Type 0} → List (AlertInstance W) → Kept → Kept
collect_previous [] kept = kept
collect_previous (a ∷ rest) kept =
    collect_previous rest (put AlertKey-discrete (key_of a) (a.state, a.alert_id) kept)

abbrev pub restore : {W : Type 0} → AlertInstance W → Option (AlertState × ℕ) → AlertInstance W
restore a none = a
restore a (some (state, alert_id)) = record a { state = state; alert_id = alert_id }

-- `previous.remove(&key)` for each alert.
unfoldable pub carry_over : {W : Type 0} → List (AlertInstance W) → Kept → List (AlertInstance W)
carry_over [] previous = []
carry_over (a ∷ rest) previous =
    restore a (find AlertKey-discrete (key_of a) previous)
    ∷ carry_over rest (remove AlertKey-discrete (key_of a) previous)

abbrev pub or_else : {A : Type 0} → Option A → Option A → Option A
or_else none o = o
or_else (some a) o = some a

module _ {W Net : Type 0} ⦃n : IpNet Net⦄ where
  unfoldable pub reload_config : AlertManager W → Config W Net → AlertManager W
  reload_config m config = record {
    alerts = carry_over (configured config) (collect_previous m.alerts []);
    script_path = or_else config.global.alert_script m.script_path;
  }
