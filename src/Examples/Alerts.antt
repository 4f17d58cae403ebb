-- ===== src/Examples/Alerts.antt =====
-- The alert machine and a reload of the alerts at concrete inputs.
use netalert.Prelude.{
  ℕ, ◌-◌, ◌≤◌, ◌≡◌, refl, arith, String-discrete, List, [], ◌∷◌, none, some, Memᴰ, All, ◌↔◌, ◌≢◌,
}
use netalert.Float.{thousandths, thousandths-IsOrdered}
use netalert.Config.{Config, tcp, inbound, from_secs}
use netalert.Alert.{AlertInstance, fire, normal, firing, bps, Tick, evaluate, evaluated, actions}
use netalert.Alert.Held.{
  NotBelowTrigger, BelowRecover, HeldSince, evaluate-fire_held, evaluate-resolve_held,
}
use netalert.Alert.Phase.{phase, is_active, phase-actions}
use netalert.Manager.{AlertManager, AlertKey-discrete, key_of}
use netalert.Manager.Reload.Configured.{IsOfRules, reload_config_iff}
use netalert.Manager.Reload.Inherit.{latest, inherit}
use netalert.Manager.Reload.Orphans.{orphaned, unclaimed}
use netalert.Manager.Reload.Orphans.Laws.{orphaned_iff}
use netalert.Manager.Reload.{configured, collect_previous, reload_config}
use netalert.Manager.Reload.Laws.{reload_config_keeps, KeysAreDistinct}
use netalert.Examples.Addresses.{Area, areas}
use netalert.Examples.Configs.{two_rules, rule_internet}

abbrev pub quiet : AlertInstance ℕ
quiet = record {
  state = normal;
  alert_id = 0;
  prefix = "10.0.0.0/8";
  protocol = tcp;
  direction = inbound;
  metric = bps;
  trigger_threshold = 8_000_000;
  recover_threshold = 4_000_000;
  trigger_for = from_secs 2;
  recover_for = from_secs 5;
  mitigation_update_interval = from_secs 30;
  labels = ("team", "core") ∷ [];
}

abbrev tick : ℕ → ℕ → Tick ℕ
tick rate at = record { rate = rate; now = from_secs at }

-- An attack from second 11 on, which ends before second 14.
abbrev attack : List (Tick ℕ)
attack = tick 9_000_000 12 ∷ tick 9_000_000 11 ∷ tick 1 10 ∷ []

abbrev calm : List (Tick ℕ)
calm = tick 100 16 ∷ tick 100 14 ∷ tick 9_000_000 13 ∷ attack

evaluate-fire_held_example :
    (since : ℕ) × (from_secs 2 ≤ from_secs 13 - since)
    × NotBelowTrigger quiet 8_500_000
    × HeldSince (NotBelowTrigger quiet) since attack
evaluate-fire_held_example =
    evaluate-fire_held thousandths-IsOrdered quiet attack 8_500_000 (from_secs 13) refl
      (unfold evaluate evaluated in refl)

evaluate-resolve_held_example :
    (since : ℕ) × (from_secs 5 ≤ from_secs 19 - since)
    × BelowRecover quiet 50
    × HeldSince (BelowRecover quiet) since calm
evaluate-resolve_held_example =
    evaluate-resolve_held thousandths-IsOrdered quiet calm 50 (from_secs 19) refl
      (unfold evaluate evaluated in refl)

phase-actions_example : phase (actions quiet calm) ≡ some (is_active (evaluated quiet calm).state)
phase-actions_example = phase-actions quiet calm refl

-- The script was called, and the attack is not over.
actions-calm : actions quiet calm ≡ fire ∷ []
unfolding actions evaluate evaluated
actions-calm = refl

abbrev pub loud : AlertInstance ℕ
loud = record quiet { state = firing 0; alert_id = 77 }

abbrev pub manager : AlertManager ℕ
manager = record { alerts = loud ∷ []; script_path = none }

pub configured-KeysAreDistinct : KeysAreDistinct (configured {W = ℕ} two_rules)
unfolding configured
configured-KeysAreDistinct = grind arith

reload_config_iff_example : Memᴰ loud (reload_config manager two_rules).alerts ↔ (
    (a : AlertInstance ℕ) × IsOfRules two_rules two_rules.rules a
    × (loud ≡ inherit (latest (key_of a) (loud ∷ [])) a))
reload_config_iff_example = reload_config_iff manager two_rules loud configured-KeysAreDistinct

quiet-configured : Memᴰ quiet (configured {W = ℕ} two_rules)
unfolding configured String-discrete
quiet-configured = Memᴰ.head refl

reload_config_keeps_example : Memᴰ loud (reload_config manager two_rules).alerts
reload_config_keeps_example =
    reload_config_keeps manager two_rules loud quiet (tt, tt) configured-KeysAreDistinct
      (Memᴰ.head refl) quiet-configured refl

-- A configuration without the rule of `loud`.
abbrev one_rule : Config ℕ Area
one_rule = record two_rules { rules = rule_internet ∷ [] }

orphaned_iff_example : Memᴰ (key_of loud) (orphaned manager one_rule) ↔ (
    (a : AlertInstance ℕ) × Memᴰ a manager.alerts
    × (key_of a ≡ key_of loud)
    × (a.state ≢ normal)
    × All (λ b. key_of b ≢ key_of loud) (configured {W = ℕ} one_rule))
orphaned_iff_example = orphaned_iff manager one_rule (key_of loud) (tt, tt)

warned : orphaned manager one_rule ≡ key_of loud ∷ []
unfolding orphaned unclaimed configured collect_previous AlertKey-discrete String-discrete
warned = refl
