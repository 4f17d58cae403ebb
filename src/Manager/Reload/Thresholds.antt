-- ===== src/Manager/Reload/Thresholds.antt =====
-- Which alerts the thresholds of a rule give (`add_metric_alerts` of src/alert.rs).
use mathlib.Core.List.Memᴰ.{append_left, append_right, append_cases, cases_cons}
use mathlib.Core.Option.{some-injective}
use netalert.Prelude.{
  ◌≡◌, refl, sym, ap, ◌∙◌, ◌↔◌, inl, inr, List, [], ◌∷◌, Option, none, some, arith, Memᴰ, subst,
}
use netalert.Config.{ProtocolCategory, Direction, ThresholdPair, MetricThresholds, DirectionMetrics}
use netalert.Alert.{normal, AlertInstance, MetricType, bps, pps, fps}
use netalert.Manager.Reload.{
  RuleContext, metric_alert, metric_alerts, direction_alerts, threshold_alerts,
}

-- The threshold of a metric.
abbrev pub threshold_at : {W : Type 0} → MetricType → MetricThresholds W → Option (ThresholdPair W)
threshold_at bps m = m.bps
threshold_at pps m = m.pps
threshold_at fps m = m.fps

-- The value below which an alert recovers: its own, or else that of the trigger.
abbrev recover_at : {W : Type 0} → Option W → W → W
recover_at none trigger = trigger
recover_at (some value) trigger = value

-- A new alert of a rule.
abbrev pub new_alert :
    {W : Type 0}
    → RuleContext
    → ProtocolCategory
    → Direction
    → MetricType
    → ThresholdPair W
    → AlertInstance W
new_alert c protocol direction metric threshold = record {
  state = normal;
  alert_id = 0;
  prefix = c.prefix;
  protocol = protocol;
  direction = direction;
  metric = metric;
  trigger_threshold = threshold.trigger;
  recover_threshold = recover_at threshold.recover threshold.trigger;
  trigger_for = c.trigger_for;
  recover_for = c.recover_for;
  mitigation_update_interval = c.mitigation_update_interval;
  labels = c.labels;
}

module _ {W : Type 0} (c : RuleContext) where
  -- A metric has a threshold, and the alert is the new one of it.
  unfoldable pub IsOfMetrics :
      ProtocolCategory → Direction → MetricThresholds W → AlertInstance W → Type 0
  IsOfMetrics protocol d m a =
      (metric : MetricType) × (th : ThresholdPair W) × (threshold_at metric m ≡ some th)
      × (a ≡ new_alert c protocol d metric th)

  metric_alert_iff :
      (protocol : ProtocolCategory) (d : Direction) (metric : MetricType)
      (o : Option (ThresholdPair W)) (a : AlertInstance W)
      → Memᴰ a (metric_alert c protocol d metric o)
        ↔ ((th : ThresholdPair W) × (o ≡ some th) × (a ≡ new_alert c protocol d metric th))
  metric_alert_iff protocol d metric none a =
      (λ m. elim m [ ], λ (th, e, _). absurd (ground (arith, e)))
  metric_alert_iff protocol d metric (some th) a = (
    λ m. elim m [ Memᴰ.head e ↦ (th, refl, e) | Memᴰ.tail never ↦ elim never [ ] ],
    λ (th', e, is).
        let same : th' ≡ th = sym (some-injective th th' e) in
        Memᴰ.head (is ∙ ap (new_alert c protocol d metric) same),
  )

  metric_alerts_iff :
      (protocol : ProtocolCategory) (d : Direction) (m : MetricThresholds W) (a : AlertInstance W)
      → Memᴰ a (metric_alerts c protocol d m) ↔ IsOfMetrics protocol d m a
  unfolding IsOfMetrics
  metric_alerts_iff protocol d m a = (
    λ mem. elim (append_cases (metric_alert c protocol d bps m.bps) mem) [
      | inl here ↦
          let (th, e, is) = (metric_alert_iff protocol d bps m.bps a).0 here in (bps, th, e, is)
      | inr later ↦ elim (append_cases (metric_alert c protocol d pps m.pps) later) [
        | inl here ↦
            let (th, e, is) = (metric_alert_iff protocol d pps m.pps a).0 here in (pps, th, e, is)
        | inr here ↦
            let (th, e, is) = (metric_alert_iff protocol d fps m.fps a).0 here in (fps, th, e, is)
      ]
    ],
    λ (metric, th, e, is). place metric th e is,
  )
    where
      place :
          (metric : MetricType) (th : ThresholdPair W)
          → threshold_at metric m ≡ some th
          → a ≡ new_alert c protocol d metric th
          → Memᴰ a (metric_alerts c protocol d m)
      place bps th e is = append_left _ ((metric_alert_iff protocol d bps m.bps a).1 (th, e, is))
      place pps th e is =
          append_right (metric_alert c protocol d bps m.bps)
            (append_left _ ((metric_alert_iff protocol d pps m.pps a).1 (th, e, is)))
      place fps th e is = append_right (metric_alert c protocol d bps m.bps) (
          append_right (metric_alert c protocol d pps m.pps)
            ((metric_alert_iff protocol d fps m.fps a).1 (th, e, is)))

  -- The same for a direction of the protocol.
  unfoldable pub IsOfDirections :
      ProtocolCategory → List (Direction × DirectionMetrics W) → AlertInstance W → Type 0
  IsOfDirections protocol ds a =
      (d : Direction) × (m : DirectionMetrics W) × Memᴰ (d, m) ds
      × IsOfMetrics protocol d m.metrics a

  direction_alerts_iff :
      (protocol : ProtocolCategory) (ds : List (Direction × DirectionMetrics W))
      (a : AlertInstance W)
      → Memᴰ a (direction_alerts c protocol ds) ↔ IsOfDirections protocol ds a
  unfolding direction_alerts IsOfDirections
  direction_alerts_iff protocol [] a = (λ m. elim m [ ], λ (d, m, never, _). elim never [ ])
  direction_alerts_iff protocol ((d, m) ∷ ds) a =
      let (down, up) = direction_alerts_iff protocol ds a in
      let (down', up') = metric_alerts_iff protocol d m.metrics a in
      (
        λ mem. elim (append_cases (metric_alerts c protocol d m.metrics) mem) [
          | inl here ↦ (d, m, Memᴰ.head refl, down' here)
          | inr later ↦ let (d', m', mem', of) = down later in (d', m', Memᴰ.tail mem', of)
        ],
        λ (d', m', mem, of). elim (cases_cons mem) [
          | inl e ↦ append_left _ (up' (subst (λ x. IsOfMetrics protocol x.0 x.1.metrics a) e of))
          | inr later ↦ append_right (metric_alerts c protocol d m.metrics) (up (d', m', later, of))
        ],
      )

  -- The same for a protocol of the rule.
  unfoldable pub IsOfThresholds :
      List (ProtocolCategory × List (Direction × DirectionMetrics W)) → AlertInstance W → Type 0
  IsOfThresholds ts a =
      (protocol : ProtocolCategory) × (ds : List (Direction × DirectionMetrics W)) × Memᴰ
        (protocol, ds) ts
      × IsOfDirections protocol ds a

  pub threshold_alerts_iff :
      (ts : List (ProtocolCategory × List (Direction × DirectionMetrics W))) (a : AlertInstance W)
      → Memᴰ a (threshold_alerts c ts) ↔ IsOfThresholds ts a
  unfolding threshold_alerts IsOfThresholds
  threshold_alerts_iff [] a = (λ m. elim m [ ], λ (p, ds, never, _). elim never [ ])
  threshold_alerts_iff ((protocol, ds) ∷ ts) a =
      let (down, up) = threshold_alerts_iff ts a in
      let (down', up') = direction_alerts_iff protocol ds a in
      (
        λ mem. elim (append_cases (direction_alerts c protocol ds) mem) [
          | inl here ↦ (protocol, ds, Memᴰ.head refl, down' here)
          | inr later ↦ let (p', ds', mem', of) = down later in (p', ds', Memᴰ.tail mem', of)
        ],
        λ (p', ds', mem, of). elim (cases_cons mem) [
          | inl e ↦ append_left _ (up' (subst (λ x. IsOfDirections x.0 x.1 a) e of))
          | inr later ↦ append_right (direction_alerts c protocol ds) (up (p', ds', later, of))
        ],
      )
