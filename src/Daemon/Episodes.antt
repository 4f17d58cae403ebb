-- ===== src/Daemon/Episodes.antt =====
-- The payloads that the ticker of src/main.rs sends through a run of all tasks.
mod Steps
pub mod Laws
use netalert.Prelude.{
  ℕ, ◌≡◌, refl, sym, ap, ◌∙◌, String, List, [], ◌∷◌, ◌++◌, Option, none, some, ◌>>=◌, arith, All,
  subst, Option-cases, ltb, Bool-cases, inl, inr, length,
}
use netalert.Prelude.Results.{Result, ok, err}
use netalert.Float.{Float}
use netalert.Net.{IpNet, IpNetwork, NetworkTable}
use netalert.Flow.{IpAddr, FlowRecord, CommonFlow, from_common_flow}
use netalert.Config.{Config}
use netalert.Config.Validate.{ConfigError, load}
use netalert.Processor.{FlowProcessor, process_flow}
use netalert.Processor.Reload as ProcessorReload
use netalert.Processor.Reload.{ProcessorError}
use netalert.Processor.Rates.{RateSnapshot, compute_all_rates}
use netalert.Mitigation.Search.{Groups}
use netalert.Manager.Reload.{configured}
use netalert.Manager.Reload.Laws.{KeysAreDistinct}
use netalert.Manager.Evaluate as Evaluation
use netalert.Manager.Evaluate.{AlertPayload}
use netalert.Manager.Episodes.{Topic, about, AreEpisodes}
use netalert.Manager.Episodes.Ticks.{InStep, evaluate-InStep}
use netalert.Manager.Episodes.Reloads.{reload_config-InStep}
use netalert.Manager.{new}
use netalert.Daemon.Start.{Args, main, serves, initial}
use netalert.Daemon.Start.Laws.{main_serves_inv, start_with_inv}
use netalert.Daemon.{
  Daemon, Collector, ReloadStage, idle, processor_next, alerts_next, channel_capacity,
  override_rate, count_received, try_send, receive, take_from, take, process_held, process,
  begin_reload, continue_reload, evaluated_with, tick, Event, on_receive, on_take, on_process,
  on_tick, on_reload, on_reload_step, step, run,
}

module _ {W Net : Type 0} ⦃n : IpNet Net⦄ where
  -- A configuration that is loaded gives its alerts keys of their own.
  abbrev pub LoadsDistinct : Event W Net → Type 0
  LoadsDistinct (on_reload (ok config)) = KeysAreDistinct (configured {W = W} config)
  LoadsDistinct _ = Unit

module _ {W Net Network Table : Type 0} ⦃f : Float W⦄ ⦃n : IpNet Net⦄ ⦃w : IpNetwork Network⦄
    ⦃t : NetworkTable Table Network⦄ (order : Groups → Groups) (show : IpAddr → String)
    (new_v4 : ℕ → ℕ) (to_json : AlertPayload W → Option String) where
  -- The payloads of an evaluation with the rates, if they were computed.
  abbrev pub sends_with :
      ℕ → Daemon W Net Network Table → Option (List (RateSnapshot W)) → List (AlertPayload W)
  sends_with now d none = []
  sends_with now d (some snapshots) =
      (Evaluation.evaluate order show new_v4 to_json d.alert_manager snapshots d.processor now
        d.ids).2

  -- The payloads of a step, which only the ticker has.
  abbrev pub sends : Event W Net → Daemon W Net Network Table → List (AlertPayload W)
  sends (on_tick current_time now micros) d =
      sends_with now d (compute_all_rates d.processor current_time)
  sends _ d = []

  -- The payloads of a run, those of the newest tick first, after those before it.
  unfoldable pub run_sends :
      List (Event W Net)
      → Daemon W Net Network Table
      → List (AlertPayload W)
      → List (AlertPayload W)
  run_sends [] d ps = ps
  run_sends (e ∷ es) d ps =
      let now = sends e d ++ ps in
      elim (step order show new_v4 to_json e d) [ none ↦ ps | some d' ↦ run_sends es d' now ]
