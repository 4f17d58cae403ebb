-- ===== src/Daemon/Safety.antt =====
-- Panics in a run of the daemon (src/main.rs).
use netalert.Prelude.{
  ℕ, ◌≤◌, ◌<◌, ◌≡◌, refl, sym, inl, inr, List, [], ◌∷◌, ◌++◌, Option, none, some, Bool, true, false,
  ◌+u64◌, String, ltb, if◌then◌else◌, length, length-append, All, arith, Option-cases, subst,
}
use netalert.Prelude.Results.{Result, ok, err}
use netalert.Float.{Float}
use netalert.Net.{IpNet, IpNetwork, NetworkTable, TableLaws}
use netalert.Flow.{IpAddr, CommonFlow, FlowRecord, from_common_flow}
use netalert.Config.{Config}
use netalert.Processor.{FlowProcessor}
use netalert.Processor.Reload as ProcessorReload
use netalert.Processor.Reload.{ProcessorError, window_of, reload_rules}
use netalert.Processor.Reload.Laws.{
  reload_config-IsSafe, reload_config_error, window_of-pos, reload_config-window_secs,
}
use netalert.Processor.Rates.{compute_all_rates}
use netalert.Processor.Safety.{IsSafe}
use netalert.Mitigation.Search.{Groups}
use netalert.Config.Validate.{ConfigError}
use netalert.Manager.Evaluate.{AlertPayload, evaluate}
use netalert.Daemon.{
  Collector, Daemon, Event, on_receive, on_take, on_process, on_tick, on_reload, on_reload_step,
  ReloadStage, idle, processor_next, alerts_next, begin_reload, continue_reload, channel_capacity,
  count_received, override_rate, take, take_from, receive, process, process_held, evaluated_with,
  tick, step, run, try_send,
}
use netalert.Processor.Ready.{process_flow-IsReady, all_rates_total}
use netalert.Daemon.Ready.{evaluate_alerts-IsReady}

from_common_flow_total :
    (flow : CommonFlow) (ns : ℕ)
    → flow.time_received_ns ≡ some ns
    → (r : FlowRecord) × (from_common_flow flow ≡ some r)
unfolding from_common_flow
from_common_flow_total flow ns stamped = elim (Option-cases (from_common_flow flow)) [
  | inl e ↦ absurd (ground (arith, e, stamped))
  | inr (r, e) ↦ (r, e)
]

-- What stays true of the daemon.
pub record IsSound {W Net Network Table : Type 0} ⦃t : NetworkTable Table Network⦄
    (d : Daemon W Net Network Table) : Type 0 where
  pub safe : IsSafe d.processor
  pub window : 0 < d.processor.window_secs
  pub queue : length d.channel ≤ channel_capacity

-- The collector library stamps every flow with its time of arrival.
abbrev pub HasTime : {W Net : Type 0} → Event W Net → Type 0
HasTime (on_receive collector flow) = (ns : ℕ) × (flow.time_received_ns ≡ some ns)
HasTime _ = Unit

module _ {W Net Network Table : Type 0} ⦃t : NetworkTable Table Network⦄ where
  try_send-IsSound :
      (flow : FlowRecord) (d : Daemon W Net Network Table) → IsSound d → IsSound (try_send flow d)
  try_send-IsSound flow d h = go (ltb (length d.channel) channel_capacity) refl
    where
      go :
          (b : Bool)
          → ltb (length d.channel) channel_capacity ≡ b
          → IsSound (
              if b then record d { channel = d.channel ++ (flow ∷ []) } else record d {
                health = record d.health { flows_dropped = d.health.flows_dropped +u64 1 };
              })
      go true e = record {
        safe = h.safe;
        window = h.window;
        queue =
            let short : length d.channel < channel_capacity = ground (arith, e) in
            omega (arith, short, length-append d.channel (flow ∷ []));
      }
      go false e = record { safe = h.safe; window = h.window; queue = h.queue }

  receive-IsSound :
      (c : Collector) (flow : CommonFlow) (d : Daemon W Net Network Table) (ns : ℕ)
      → flow.time_received_ns ≡ some ns
      → IsSound d
      → (d' : Daemon W Net Network Table) × (receive c flow d ≡ some d') × IsSound d'
  unfolding receive
  receive-IsSound c flow d ns stamped h =
      let (parsed, done) = from_common_flow_total flow ns stamped in
      let sent = override_rate d.exporter_rates flow.sampler_address parsed in
      let counted = record d { health = count_received c d.health } in
      (
        try_send sent counted,
        rw done refl,
        try_send-IsSound sent counted
            (record { safe = h.safe; window = h.window; queue = h.queue }),
      )

  take-IsSound : (d : Daemon W Net Network Table) → IsSound d → IsSound (take d)
  unfolding take
  take-IsSound d h = go d.in_hand d.channel h.queue
    where
      go :
          (o : Option FlowRecord) (queue : List FlowRecord)
          → length queue ≤ channel_capacity
          → IsSound (take_from o queue d)
      go (some flow) queue le = h
      go none [] le = h
      go none (flow ∷ rest) le = record {
        safe = h.safe;
        window = h.window;
        queue = omega (arith, le);
      }

  process-IsSound :
      (d : Daemon W Net Network Table)
      → IsSound d
      → (d' : Daemon W Net Network Table) × (process d ≡ some d') × IsSound d'
  unfolding process
  process-IsSound d h = go d.in_hand
    where
      go :
          (o : Option FlowRecord)
          → (d' : Daemon W Net Network Table) × (process_held o d ≡ some d') × IsSound d'
      go none = (d, refl, h)
      go (some flow) =
          let (p, done, ready) = process_flow-IsReady d.processor flow (h.safe, h.window) in
          (
            record d { processor = p; in_hand = none },
            rw done refl,
            record { safe = ready.0; window = ready.1; queue = h.queue },
          )

module _ {W Net Network Table : Type 0} ⦃n : IpNet Net⦄ ⦃w : IpNetwork Network⦄
    ⦃t : NetworkTable Table Network⦄ (dec : Discrete Network) (contains : Network → IpAddr → Bool)
    (laws : TableLaws t dec contains) where
  begin_reload-IsSound :
      (outcome : Result (ConfigError Net) (Config W Net)) (stage : ReloadStage W Net)
      (d : Daemon W Net Network Table)
      → IsSound d
      → IsSound (begin_reload outcome stage d)
  begin_reload-IsSound (err e) stage d h = h
  begin_reload-IsSound (ok c) idle d h = record {
    safe = h.safe;
    window = h.window;
    queue = h.queue;
  }
  begin_reload-IsSound (ok c) (processor_next _) d h = h
  begin_reload-IsSound (ok c) (alerts_next _) d h = h

  continue_reload-IsSound :
      (stage : ReloadStage W Net) (d : Daemon W Net Network Table)
      → IsSound d
      → IsSound (continue_reload stage d)
  continue_reload-IsSound idle d h = h
  continue_reload-IsSound (alerts_next c) d h = record {
    safe = h.safe;
    window = h.window;
    queue = h.queue;
  }
  continue_reload-IsSound (processor_next c) d h =
      go (ProcessorReload.reload_config d.processor c).0
        (ProcessorReload.reload_config d.processor c).1 refl
    where
      go :
          (p : FlowProcessor Net Network Table) (o : Result (ProcessorError Net) (Unit {0}))
          → ProcessorReload.reload_config d.processor c ≡ (p, o)
          → IsSound (elim o as (λ x. Daemon W Net Network Table) [
            | err e ↦ record d { processor = p; reloading = idle }
            | ok _ ↦ record d { processor = p; reloading = alerts_next c }
          ])
      go p (err e) made =
          let same = reload_config_error d.processor p c made in
          record {
            safe = subst IsSafe (sym same) h.safe;
            window = rw same h.window;
            queue = h.queue;
          }
      go p (ok _) made = record {
        safe =
            reload_config-IsSafe dec contains laws d.processor p c made
              (window_of-pos d.processor c h.window);
        window =
            rw (reload_config-window_secs d.processor p c made)
              (window_of-pos d.processor c h.window);
        queue = h.queue;
      }

module _ {W Net Network Table : Type 0} ⦃f : Float W⦄ ⦃n : IpNet Net⦄
    ⦃t : NetworkTable Table Network⦄ (order : Groups → Groups) (show : IpAddr → String)
    (new_v4 : ℕ → ℕ) (to_json : AlertPayload W → Option String) where
  tick-IsSound :
      (current_time now micros : ℕ) (d : Daemon W Net Network Table)
      → IsSound d
      → (d' : Daemon W Net Network Table) × (tick order show new_v4 to_json current_time now micros
            d
          ≡ some d')
        × IsSound d'
  unfolding tick compute_all_rates evaluate
  tick-IsSound current_time now micros d h =
      let (snapshots, rated) =
        all_rates_total {W = W} d.processor.rules current_time h.safe.rules_safe in
      let ready =
        evaluate_alerts-IsReady order show new_v4 snapshots now d.alert_manager.alerts
          (record { processor = d.processor; drained = []; ids = d.ids }) (h.safe, h.window) in
      (
        evaluated_with order show new_v4 to_json now micros d snapshots,
        rw rated refl,
        record { safe = ready.0; window = ready.1; queue = h.queue },
      )

module _ {W Net Network Table : Type 0} ⦃f : Float W⦄ ⦃n : IpNet Net⦄ ⦃w : IpNetwork Network⦄
    ⦃t : NetworkTable Table Network⦄ (order : Groups → Groups) (show : IpAddr → String)
    (new_v4 : ℕ → ℕ) (to_json : AlertPayload W → Option String) (dec : Discrete Network)
    (contains : Network → IpAddr → Bool) (laws : TableLaws t dec contains) where
  step-IsSound :
      (e : Event W Net) (d : Daemon W Net Network Table)
      → HasTime e
      → IsSound d
      → (d' : Daemon W Net Network Table) × (step order show new_v4 to_json e d ≡ some d')
        × IsSound d'
  unfolding step
  step-IsSound (on_receive c flow) d (ns, stamped) h = receive-IsSound c flow d ns stamped h
  step-IsSound on_take d time h = (take d, refl, take-IsSound d h)
  step-IsSound on_process d time h = process-IsSound d h
  step-IsSound (on_tick current_time now micros) d time h =
      tick-IsSound order show new_v4 to_json current_time now micros d h
  step-IsSound (on_reload outcome) d time h = (
    begin_reload outcome d.reloading d,
    refl,
    begin_reload-IsSound dec contains laws outcome d.reloading d h,
  )
  step-IsSound on_reload_step d time h = (
    continue_reload d.reloading d,
    refl,
    continue_reload-IsSound dec contains laws d.reloading d h,
  )

  -- A daemon that starts sound, with a window of at least a second, never panics, whatever flows
  -- arrive, however its tasks interleave, and whichever configurations it reloads, if the collector
  -- stamps every flow with a time: every series of steps goes through, and afterwards the processor
  -- is safe, its window has at least a second, and the channel holds at most 10,000 flows.
  pub run_total :
      (es : List (Event W Net)) (d : Daemon W Net Network Table)
      → All HasTime es
      → IsSound d
      → (d' : Daemon W Net Network Table) × (run order show new_v4 to_json es d ≡ some d')
        × IsSound d'
  unfolding run
  run_total [] d times h = (d, refl, h)
  run_total (e ∷ es) d times h =
      let (d₁, first, h₁) = step-IsSound e d times.0 h in
      let (d', rest, h') = run_total es d₁ times.1 h₁ in (d', rw first rest, h')
