-- ===== src/Manager/Reload/Configured.antt =====
-- Which alerts a configuration has (src/alert.rs), told from its rules.
use mathlib.Core.List.Memᴰ.{append_left, append_right, append_cases, cases_cons, of_map}
use netalert.Prelude.{
  ◌≡◌, refl, sym, ◌∙◌, ◌↔◌, inl, inr, List, [], ◌∷◌, Option, none, some, arith, Memᴰ, Memᴰ-map,
  subst, String, String-discrete, ◌⊎◌, Option-cases,
}
use netalert.Net.{IpNet}
use netalert.Prelude.Assoc.{find}
use netalert.Config.{RuleConfig, AlertPolicyConfig, Config}
use netalert.Alert.{AlertInstance}
use netalert.Manager.Reload.{
  RuleContext, threshold_alerts, policy_of, rule_alerts, configured, collect_previous,
  reload_config,
}
use netalert.Manager.Reload.Laws.{KeysAreDistinct, restored, alerts-reload_config}
use netalert.Manager.Reload.Inherit.{latest, inherit, restored-inherit}
use netalert.Manager.{AlertManager, key_of}
use netalert.Manager.Reload.Thresholds.{
  IsOfMetrics, IsOfDirections, IsOfThresholds, threshold_alerts_iff,
}

-- The default times: 10 seconds above the threshold, and 20 below.
abbrev pub IsDefault : AlertPolicyConfig → Type 0
IsDefault policy = (policy.trigger_for ≡ 10_000_000_000) × (policy.recover_for ≡ 20_000_000_000)

-- The times of the policy that a rule names, if it names one that the configuration has, and else
-- the default ones.
abbrev pub IsPolicyOf :
    List (String × AlertPolicyConfig) → Option String → AlertPolicyConfig → Type 0
IsPolicyOf policies none policy = IsDefault policy
IsPolicyOf policies (some name) policy =
    (find String-discrete name policies ≡ some policy)
    ⊎ ((find String-discrete name policies ≡ none) × IsDefault policy)

policy_of-IsPolicyOf :
    (policies : List (String × AlertPolicyConfig)) (o : Option String)
    → IsPolicyOf policies o (policy_of policies o)
policy_of-IsPolicyOf policies none = (refl, refl)
policy_of-IsPolicyOf policies (some name) =
    elim (Option-cases (find String-discrete name policies)) [
      | inl e ↦ inr (e, (rw (policy_of, e) refl, rw (policy_of, e) refl))
      | inr (policy, e) ↦ inl (e ∙ rw (policy_of, e) refl)
    ]

-- No other policy is one of the rule.
IsPolicyOf-unique :
    (policies : List (String × AlertPolicyConfig)) (o : Option String) (policy : AlertPolicyConfig)
    → IsPolicyOf policies o policy
    → policy ≡ policy_of policies o
IsPolicyOf-unique policies none policy h = ground (arith, h)
IsPolicyOf-unique policies (some name) policy (inl e) = ground (arith, e)
IsPolicyOf-unique policies (some name) policy (inr (e, h)) = ground (arith, e, h)

-- What the alerts of a rule share: its prefix and labels, the times of a policy, and the update
-- interval of the configuration.
abbrev pub context_of :
    {W Net : Type 0} ⦃n : IpNet Net⦄
    → Config W Net
    → RuleConfig W Net
    → AlertPolicyConfig
    → RuleContext
context_of ⦃n⦄ config rule policy = record {
  prefix = n.to_string rule.prefix;
  trigger_for = policy.trigger_for;
  recover_for = policy.recover_for;
  mitigation_update_interval = config.global.mitigation_update_interval;
  labels = rule.labels;
}

-- Some rule has a threshold for the alert, with the times of the rule's policy.
unfoldable pub IsOfRules :
    {W Net : Type 0} ⦃n : IpNet Net⦄
    → Config W Net
    → List (RuleConfig W Net)
    → AlertInstance W
    → Type 0
unfolding IsOfThresholds IsOfDirections IsOfMetrics
IsOfRules {W} {Net} config rules a =
    (rule : RuleConfig W Net) × Memᴰ rule rules
    × (policy : AlertPolicyConfig) × IsPolicyOf config.alert_policies rule.alert_policy policy
    × IsOfThresholds (context_of config rule policy) rule.thresholds a

module _ {W Net : Type 0} ⦃n : IpNet Net⦄ where
  rule_alerts_iff :
      (config : Config W Net) (rules : List (RuleConfig W Net)) (a : AlertInstance W)
      → Memᴰ a (rule_alerts config rules) ↔ IsOfRules config rules a
  unfolding rule_alerts IsOfRules
  rule_alerts_iff config [] a = (λ m. elim m [ ], λ (rule, never, _, _, _). elim never [ ])
  rule_alerts_iff config (rule ∷ rules) a =
      let own = policy_of config.alert_policies rule.alert_policy in
      let (down, up) = rule_alerts_iff config rules a in
      let (down', up') = threshold_alerts_iff (context_of config rule own) rule.thresholds a in
      (
        λ mem.
            elim (append_cases (threshold_alerts (context_of config rule own) rule.thresholds)
              mem) [
                | inl here ↦ (
                  rule,
                  Memᴰ.head refl,
                  own,
                  policy_of-IsPolicyOf config.alert_policies rule.alert_policy,
                  down' here,
                )
                | inr later ↦
                    let (rule', mem', policy, is, of) = down later in
                    (rule', Memᴰ.tail mem', policy, is, of)
              ],
        λ (rule', mem, policy, is, of). elim (cases_cons mem) [
          | inl e ↦
              let same = IsPolicyOf-unique config.alert_policies rule'.alert_policy policy is in
              append_left _ (
                up' (
                  subst
                    (λ x.
                      IsOfThresholds
                        (context_of config x (policy_of config.alert_policies x.alert_policy))
                        x.thresholds a)
                    e
                    (subst (λ x. IsOfThresholds (context_of config rule' x) rule'.thresholds a) same
                      of)))
          | inr later ↦
              append_right (threshold_alerts (context_of config rule own) rule.thresholds)
                (up (rule', later, policy, is, of))
        ],
      )

  -- After a reload to a configuration whose alerts have keys of their own, an alert is there if and
  -- only if some rule has a threshold for its protocol, direction and metric, and it is the alert
  -- of this threshold: with the prefix and the labels of the rule, the trigger value of the threshold
  -- and its recover value or else the trigger value again, the times of the policy that the rule
  -- names or else 10 and 20 seconds, and the update interval of the configuration, and with the state
  -- and the id of the last of the old alerts that has its key, if there is one, and else new.
  pub reload_config_iff :
      (m : AlertManager W) (config : Config W Net) (b : AlertInstance W)
      → KeysAreDistinct (configured {W = W} config)
      → Memᴰ b (reload_config m config).alerts ↔ (
          (a : AlertInstance W) × IsOfRules config config.rules a
          × (b ≡ inherit (latest (key_of a) m.alerts) a))
  unfolding configured
  reload_config_iff m config b distinct =
      let kept = collect_previous m.alerts [] in
      let is = alerts-reload_config m config distinct in
      (
        λ mem.
            let (a, here, e) = of_map (restored kept) (configured config) (subst (Memᴰ b) is mem) in
            (
              a,
              (rule_alerts_iff config config.rules a).0 here,
              sym e ∙ restored-inherit m.alerts a,
            ),
        λ (a, of, e).
            subst (λ x. Memᴰ x (reload_config m config).alerts)
              (restored-inherit m.alerts a ∙ sym e)
              (subst (Memᴰ (restored kept a)) (sym is)
                (Memᴰ-map (restored kept) ((rule_alerts_iff config config.rules a).1 of))),
      )
