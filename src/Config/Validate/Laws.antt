-- ===== src/Config/Validate/Laws.antt =====
-- Which configurations `Config::validate` (src/config.rs) accepts.
use netalert.Prelude.{
  ℕ, ◌+◌, ◌≡◌, ◌≢◌, ◌↔◌, ◌⊎◌, inl, inr, refl, String, String-discrete, List, [], ◌∷◌, Option, none,
  some, arith, All, false, Option-cases,
}
use netalert.Prelude.Assoc.{find}
use netalert.Prelude.Results.{ok, >>=-eq-ok}
use netalert.Flow.{IpAddr}
use netalert.Config.{
  Config, RuleConfig, DirectionMetrics, MetricThresholds, ExporterConfig, AlertPolicyConfig,
  ProtocolCategory, Direction,
}
use netalert.Config.Validate.{
  validate, validate_policy, validate_metrics, validate_directions, validate_protocols,
  validate_thresholds, validate_rules, validate_exporters, mem_addr,
}

-- A rule without a policy, or with one that is defined.
abbrev pub PolicyIsKnown : List (String × AlertPolicyConfig) → Option String → Type 0
PolicyIsKnown policies none = Unit
PolicyIsKnown policies (some name) =
    (p : AlertPolicyConfig) × (find String-discrete name policies ≡ some p)

abbrev pub HasMetric : {W : Type 0} → MetricThresholds W → Type 0
HasMetric m = (m.bps ≢ none) ⊎ ((m.pps ≢ none) ⊎ (m.fps ≢ none))

abbrev pub ThresholdsAreSet :
    {W : Type 0} → List (ProtocolCategory × List (Direction × DirectionMetrics W)) → Type 0
ThresholdsAreSet ts = All (λ t. All (λ d. HasMetric d.1.metrics) t.1) ts

pub record RuleIsValid {W Net : Type 0} (policies : List (String × AlertPolicyConfig))
    (r : RuleConfig W Net) : Type 0 where
  pub policy : PolicyIsKnown policies r.alert_policy
  pub has_protocol : r.thresholds ≢ []
  pub thresholds_set : ThresholdsAreSet r.thresholds

-- The exporters have addresses of their own, and none of the `seen`.
abbrev pub AddressesAreFresh : List IpAddr → List (String × ExporterConfig) → Type 0
AddressesAreFresh seen [] = Unit
AddressesAreFresh seen (e ∷ es) =
    All (λ a. e.1.address ≢ a) seen × AddressesAreFresh (e.1.address ∷ seen) es

validate_policy_iff :
    {Net : Type 0} (policies : List (String × AlertPolicyConfig)) (idx : ℕ) (prefix : Net)
    (o : Option String)
    → (validate_policy policies idx prefix o ≡ ok tt) ↔ PolicyIsKnown policies o
unfolding validate_policy
validate_policy_iff policies idx prefix none = (λ h. tt, λ h. refl)
validate_policy_iff policies idx prefix (some name) =
    elim (Option-cases (find String-discrete name policies)) [
      | inl e ↦ (λ h. ground arith, λ h. ground arith)
      | inr (p, e) ↦ (λ h. (p, e), λ h. ground arith)
    ]

module _ {W Net : Type 0} where
  validate_metrics_iff :
      (idx : ℕ) (prefix : Net) (p : ProtocolCategory) (d : Direction) (m : MetricThresholds W)
      → (validate_metrics idx prefix p d m.bps m.pps m.fps ≡ ok tt) ↔ HasMetric m
  unfolding validate_metrics
  validate_metrics_iff idx prefix p d m = (λ h. ground arith, λ h. ground arith)

  validate_directions_iff :
      (idx : ℕ) (prefix : Net) (p : ProtocolCategory) (ds : List (Direction × DirectionMetrics W))
      → (validate_directions idx prefix p ds ≡ ok tt) ↔ All (λ d. HasMetric d.1.metrics) ds
  unfolding validate_directions
  validate_directions_iff idx prefix p [] = (λ h. tt, λ h. refl)
  validate_directions_iff idx prefix p (d ∷ ds) = (
    λ h. ground (
      arith,
      (validate_metrics_iff idx prefix p d.0 d.1.metrics).0,
      (validate_directions_iff idx prefix p ds).0,
    ),
    λ h. ground (
      arith,
      (validate_metrics_iff idx prefix p d.0 d.1.metrics).1 h.0,
      (validate_directions_iff idx prefix p ds).1 h.1,
    ),
  )

  validate_protocols_iff :
      (idx : ℕ) (prefix : Net)
      (ts : List (ProtocolCategory × List (Direction × DirectionMetrics W)))
      → (validate_protocols idx prefix ts ≡ ok tt) ↔ ThresholdsAreSet ts
  unfolding validate_protocols
  validate_protocols_iff idx prefix [] = (λ h. tt, λ h. refl)
  validate_protocols_iff idx prefix (t ∷ ts) = (
    λ h. ground (
      arith,
      (validate_directions_iff idx prefix t.0 t.1).0,
      (validate_protocols_iff idx prefix ts).0,
    ),
    λ h. ground (
      arith,
      (validate_directions_iff idx prefix t.0 t.1).1 h.0,
      (validate_protocols_iff idx prefix ts).1 h.1,
    ),
  )

  validate_thresholds_iff :
      (idx : ℕ) (prefix : Net)
      (ts : List (ProtocolCategory × List (Direction × DirectionMetrics W)))
      → (validate_thresholds idx prefix ts ≡ ok tt) ↔ ((ts ≢ []) × ThresholdsAreSet ts)
  unfolding validate_thresholds
  validate_thresholds_iff idx prefix [] = (λ h. ground arith, λ h. ground arith)
  validate_thresholds_iff idx prefix (t ∷ ts) = (
    λ h. (λ e. cc, (validate_protocols_iff idx prefix (t ∷ ts)).0 h),
    λ h. (validate_protocols_iff idx prefix (t ∷ ts)).1 h.1,
  )

  -- The two checks of one rule.
  rule_iff :
      (policies : List (String × AlertPolicyConfig)) (idx : ℕ) (r : RuleConfig W Net)
      → ((validate_policy policies idx r.prefix r.alert_policy ≡ ok tt)
          × (validate_thresholds idx r.prefix r.thresholds ≡ ok tt))
        ↔ RuleIsValid policies r
  rule_iff policies idx r =
      let p = validate_policy_iff policies idx r.prefix r.alert_policy in
      let t = validate_thresholds_iff idx r.prefix r.thresholds in
      (
        λ h. record { policy = p.0 h.0; has_protocol = (t.0 h.1).0; thresholds_set = (t.0 h.1).1 },
        λ v. (p.1 v.policy, t.1 (v.has_protocol, v.thresholds_set)),
      )

  validate_rules_iff :
      (policies : List (String × AlertPolicyConfig)) (idx : ℕ) (rs : List (RuleConfig W Net))
      → (validate_rules policies idx rs ≡ ok tt) ↔ All (RuleIsValid policies) rs
  unfolding validate_rules
  validate_rules_iff policies idx [] = (λ h. tt, λ h. refl)
  validate_rules_iff policies idx (r ∷ rs) =
      let rest = validate_rules_iff policies (idx + 1) rs in
      (
        λ h.
            let (u, p, k) = >>=-eq-ok (validate_policy policies idx r.prefix r.alert_policy) _ h in
            let (v, t, l) = >>=-eq-ok (validate_thresholds idx r.prefix r.thresholds) _ k in
            ((rule_iff policies idx r).0 (p, t), rest.0 l),
        λ h. let (p, t) = (rule_iff policies idx r).1 h.0 in rw (p, t) (rest.1 h.1),
      )

mem_addr_iff : (a : IpAddr) (seen : List IpAddr) → (mem_addr a seen ≡ false) ↔ All (λ b. a ≢ b) seen
unfolding mem_addr
mem_addr_iff a [] = (λ h. tt, λ h. refl)
mem_addr_iff a (b ∷ seen) =
    (λ h. ground (arith, (mem_addr_iff a seen).0), λ h. ground (arith, (mem_addr_iff a seen).1 h.1))

validate_exporters_iff :
    {Net : Type 0} (seen : List IpAddr) (es : List (String × ExporterConfig))
    → (validate_exporters {Net = Net} seen es ≡ ok tt) ↔ AddressesAreFresh seen es
unfolding validate_exporters
validate_exporters_iff seen [] = (λ h. tt, λ h. refl)
validate_exporters_iff {Net} seen (e ∷ es) = (
  λ h. ground (
    arith,
    (mem_addr_iff e.1.address seen).0,
    (validate_exporters_iff {Net = Net} (e.1.address ∷ seen) es).0,
  ),
  λ h. ground (
    arith,
    (mem_addr_iff e.1.address seen).1 h.0,
    (validate_exporters_iff {Net = Net} (e.1.address ∷ seen) es).1 h.1,
  ),
)

-- A configuration is accepted exactly when every rule's policy is defined, the thresholds of every
-- rule name at least one protocol, every direction named under a protocol of a rule has a metric, and
-- no two exporters share an address. A protocol may name no direction.
pub validate_iff :
    {W Net : Type 0} (c : Config W Net)
    → (validate c ≡ ok tt)
      ↔ (All (RuleIsValid c.alert_policies) c.rules × AddressesAreFresh [] c.exporters)
unfolding validate
validate_iff {W} {Net} c =
    let rules = validate_rules_iff c.alert_policies 0 c.rules in
    let exporters = validate_exporters_iff {Net = Net} [] c.exporters in
    (
      λ h.
          let (u, r, k) = >>=-eq-ok (validate_rules c.alert_policies 0 c.rules) _ h in
          (rules.0 r, exporters.0 k),
      λ h. rw (rules.1 h.0) (exporters.1 h.1),
    )
