-- ===== src/Manager/Reload/New.antt =====
-- The alerts of a configuration (src/alert.rs) before they take over the states of the old ones.
use netalert.Prelude.{◌≡◌, refl, List, [], ◌∷◌, Option, none, some, All, All-append}
use netalert.Net.{IpNet}
use netalert.Config.{
  Config, RuleConfig, ProtocolCategory, Direction, DirectionMetrics, ThresholdPair,
}
use netalert.Alert.{normal, AlertInstance, MetricType, bps, pps, fps}
use netalert.Manager.Reload.{
  RuleContext, metric_alert, metric_alerts, direction_alerts, threshold_alerts, rule_alerts,
  configured,
}

abbrev pub IsNew : {W : Type 0} → AlertInstance W → Type 0
IsNew a = a.state ≡ normal

module _ {W : Type 0} where
  metric_alert-IsNew :
      (c : RuleContext) (protocol : ProtocolCategory) (d : Direction) (m : MetricType)
      (o : Option (ThresholdPair W))
      → All IsNew (metric_alert c protocol d m o)
  metric_alert-IsNew c protocol d m none = tt
  metric_alert-IsNew c protocol d m (some threshold) = (refl, tt)

  direction_alerts-IsNew :
      (c : RuleContext) (protocol : ProtocolCategory) (ds : List (Direction × DirectionMetrics W))
      → All IsNew (direction_alerts c protocol ds)
  unfolding direction_alerts
  direction_alerts-IsNew c protocol [] = tt
  direction_alerts-IsNew c protocol ((d, m) ∷ ds) =
      All-append IsNew (metric_alerts c protocol d m.metrics) (direction_alerts c protocol ds)
        (All-append IsNew (metric_alert c protocol d bps m.metrics.bps) _
          (metric_alert-IsNew c protocol d bps m.metrics.bps)
          (All-append IsNew (metric_alert c protocol d pps m.metrics.pps) _
            (metric_alert-IsNew c protocol d pps m.metrics.pps)
            (metric_alert-IsNew c protocol d fps m.metrics.fps)))
        (direction_alerts-IsNew c protocol ds)

  threshold_alerts-IsNew :
      (c : RuleContext) (ts : List (ProtocolCategory × List (Direction × DirectionMetrics W)))
      → All IsNew (threshold_alerts c ts)
  unfolding threshold_alerts
  threshold_alerts-IsNew c [] = tt
  threshold_alerts-IsNew c ((protocol, ds) ∷ ts) =
      All-append IsNew (direction_alerts c protocol ds) (threshold_alerts c ts)
        (direction_alerts-IsNew c protocol ds) (threshold_alerts-IsNew c ts)

module _ {W Net : Type 0} ⦃n : IpNet Net⦄ where
  rule_alerts-IsNew :
      (config : Config W Net) (rules : List (RuleConfig W Net))
      → All IsNew (rule_alerts config rules)
  unfolding rule_alerts
  rule_alerts-IsNew config [] = tt
  rule_alerts-IsNew config (rule ∷ rules) =
      All-append IsNew _ (rule_alerts config rules) (threshold_alerts-IsNew _ rule.thresholds)
        (rule_alerts-IsNew config rules)

  pub configured-IsNew : (config : Config W Net) → All IsNew (configured config)
  unfolding configured
  configured-IsNew config = rule_alerts-IsNew config config.rules
