-- ===== src/Examples/Payloads.antt =====
-- The payloads of an alert (src/alert.rs) through concrete evaluations and reloads.
use netalert.Prelude.{Memᴰ, arith, ℕ, ◌≡◌, refl, List, [], ◌∷◌, none, map, String-discrete}
use netalert.Float.{thousandths, thousandths-IsOrdered}
use netalert.Config.{tcp, inbound, from_secs, ProtocolCategory-discrete, Direction-discrete}
use netalert.Processor.Rates.{RateSnapshot}
use netalert.Alert.{fire, resolve, evaluate, MetricType-discrete}
use netalert.Manager.{AlertManager, AlertKey-discrete, find_rate, new}
use netalert.Manager.Reload.{configured, collect_previous, carry_over, reload_config}
use netalert.Manager.Evaluate
use netalert.Manager.Evaluate.{build_payload, evaluate_alerts}
use netalert.Manager.Notice.Response.{Reports, managed-Reports_attack, managed-Reports_recovery}
use netalert.Manager.Episodes.{Event, tick, reload, managed}
use netalert.Examples.Addresses.{Area, areas, AreaTable}
use netalert.Examples.Alerts.{quiet, loud, manager}
use netalert.Examples.Configs.{two_rules}
use netalert.Examples.Flows.{counted}
use netalert.Examples.Rules.{in_order, text_of}

abbrev measured : ℕ → RateSnapshot ℕ
measured bps = record {
  prefix = "10.0.0.0/8";
  labels = [];
  protocol = tcp;
  direction = inbound;
  bps = bps;
  pps = 1;
  fps = 1;
}

abbrev tick_at : ℕ → ℕ → ℕ → Event ℕ Area Area AreaTable
tick_at bps at ids = tick (measured bps ∷ []) counted (from_secs at) ids

-- An attack that is reported at second 13 and 44, with a reload in between, and is over at second
-- 51.
abbrev events : List (Event ℕ Area Area AreaTable)
events =
    tick_at 100 51 9
    ∷ tick_at 100 45 9
    ∷ tick_at 9_000_000 44 9
    ∷ reload two_rules
    ∷ tick_at 9_000_000 13 8
    ∷ tick_at 9_000_000 11 7
    ∷ reload two_rules
    ∷ []

-- The trigger, an update and the resolve, newest first.
ids_sent :
    map (λ p. p.alert_id) (managed in_order text_of (λ n. n) (new {W = ℕ} none) events).1
    ≡ 8 ∷ 8 ∷ 8 ∷ []
unfolding managed Evaluate.evaluate evaluate_alerts reload_config carry_over configured evaluate
    collect_previous AlertKey-discrete String-discrete find_rate ProtocolCategory-discrete
    Direction-discrete MetricType-discrete build_payload
ids_sent = refl

abbrev quiet_manager : AlertManager ℕ
quiet_manager = record { alerts = quiet ∷ []; script_path = none }

managed-Reports_attack_example :
    Reports quiet fire
      (managed in_order text_of
        (λ n. n)
        quiet_manager
        (tick_at 9_000_000 13 8 ∷ tick_at 9_000_000 11 7 ∷ [])).1
unfolding find_rate String-discrete ProtocolCategory-discrete Direction-discrete
managed-Reports_attack_example =
    managed-Reports_attack in_order text_of (λ n. n) thousandths-IsOrdered quiet_manager quiet
      (measured 9_000_000 ∷ []) (measured 9_000_000 ∷ []) counted counted (from_secs 11)
      (from_secs 13) 7 8 [] (Memᴰ.head refl) refl tt (refl, (refl, tt)) (omega arith)

managed-Reports_recovery_example :
    Reports loud resolve
      (managed in_order text_of (λ n. n) manager (tick_at 5 8 8 ∷ tick_at 6 3 7 ∷ [])).1
unfolding find_rate String-discrete ProtocolCategory-discrete Direction-discrete
managed-Reports_recovery_example =
    managed-Reports_recovery in_order text_of (λ n. n) thousandths-IsOrdered manager loud 0
      (measured 6 ∷ []) (measured 5 ∷ []) counted counted (from_secs 3) (from_secs 8) 7 8 []
      (Memᴰ.head refl) refl tt (refl, (refl, tt)) (omega arith)
