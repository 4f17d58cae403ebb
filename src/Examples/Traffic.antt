-- ===== src/Examples/Traffic.antt =====
-- What is told of an alert (src/alert.rs) after the concrete calls of the processor.
use netalert.Prelude.{
  ℕ, ◌≡◌, ◌↔◌, refl, arith, [], ◌∷◌, none, some, List, Memᴰ, map, String-discrete,
}
use netalert.Float.{thousandths}
use netalert.RingBuffer
use netalert.RingBuffer.Window.{rates_within}
use netalert.Config.{from_secs}
use netalert.Processor.{FlowProcessor}
use netalert.Processor.Rates.{RateSnapshot, compute_all_rates}
use netalert.Processor.Reload.{reload_config, reload_rules, from_config}
use netalert.Processor.History.{called, samples_of}
use netalert.Processor.Report.{pick}
use netalert.Alert.{AlertInstance, AlertAction, fire, pending, bps}
use netalert.Manager.{AlertManager}
use netalert.Manager.Evaluate.{evaluate}
use netalert.Manager.Notice.{IsDue, notice, notice_of, IsCalledFor}
use netalert.Manager.Notice.Laws.{evaluate_notifies}
use netalert.Manager.Notice.Traffic.{evaluate-called}
use netalert.Examples.Addresses.{
  Area, Area-discrete, lies_in, area_table-laws, AreaTable, areas, area_parser, area_table,
}
use netalert.Examples.Alerts.{quiet}
use netalert.Examples.Configs.{two_rules}
use netalert.Examples.Flows.{counted, first_processor, loaded, loaded_ok, rule_before}
use netalert.Examples.Histories.{calls, tcp_in, first_rule, fresh, own_prefix, on_time, in_order}
use netalert.Examples.Rules

abbrev waiting : AlertInstance ℕ
waiting = record quiet { state = pending (from_secs 100) }

abbrev watched : AlertManager ℕ
watched = record { alerts = waiting ∷ []; script_path = none }

abbrev rate_seen : ℕ
rate_seen = pick bps (rates_within 4 103 (samples_of lies_in rule_before.network tcp_in calls))

evaluate-called_example :
    (p' : FlowProcessor Area Area AreaTable) × (ss : List (RateSnapshot ℕ)) × (called loaded calls
      ≡ some p')
    × (compute_all_rates p' 103 ≡ some ss)
    × ((o : AlertAction)
        → IsDue waiting rate_seen (from_secs 103) o
          ↔ Memᴰ (notice_of waiting o rate_seen) (
              map notice
                (evaluate Rules.in_order Rules.text_of
                  (λ k. k)
                  Rules.no_json
                  watched
                  ss
                  p'
                  (from_secs 103)
                  5).2))
unfolding reload_config reload_rules from_config String-discrete
evaluate-called_example =
    evaluate-called Area-discrete lies_in area_table-laws Rules.in_order Rules.text_of (λ k. k)
      first_processor loaded two_rules calls 0 rule_before (RingBuffer.new 4) 103 Rules.no_json
      watched (from_secs 103) 5 waiting loaded_ok first_rule fresh own_prefix (omega arith)
      (omega arith) on_time in_order (tt, tt) (Memᴰ.head refl) refl

evaluate_notifies_example :
    Memᴰ (notice_of waiting fire 0) (
      map notice
        (evaluate Rules.in_order Rules.text_of (λ k. k) Rules.no_json watched [] counted 103 5).2)
    ↔ IsCalledFor [] 103 watched.alerts (notice_of waiting fire 0)
evaluate_notifies_example =
    evaluate_notifies Rules.in_order Rules.text_of (λ k. k) Rules.no_json watched [] counted 103 5
      (notice_of waiting fire 0)
