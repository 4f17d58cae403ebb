-- ===== src/Daemon.antt =====
-- The tasks of src/main.rs over their shared state: one step of a receiver, of the flow task, of the
-- ticker, or of a reload. Steps take the locks one after another, so a run is a list of steps; `none`
-- is a panic.
pub mod Ready
pub mod Safety
pub mod Accounting
pub mod Start
pub mod Episodes
pub mod Receivers
use netalert.Prelude.{
  ℕ, ◌+◌, ◌+u64◌, List, [], ◌∷◌, ◌++◌, Option, none, some, ◌>>=◌, String, ltb, if◌then◌else◌,
  length,
}
use netalert.Prelude.Assoc.{find}
use netalert.Prelude.Results.{Result, ok, err}
use netalert.Float.{Float}
use netalert.Net.{IpNet, IpNetwork, NetworkTable}
use netalert.Flow.{IpAddr, IpAddr-discrete, CommonFlow, FlowRecord, from_common_flow}
use netalert.Config.{Config}
use netalert.Config.Validate.{ConfigError}
use netalert.Config.Exporters.{exporter_sampling_rates}
use netalert.Processor.{FlowProcessor, process_flow}
use netalert.Processor.Reload as ProcessorReload
use netalert.Processor.Rates.{RateSnapshot, compute_all_rates}
use netalert.Mitigation.Search.{Groups}
use netalert.Manager.{AlertManager, AlertStateSnapshot, state_snapshots}
use netalert.Manager.Reload as AlertReload
use netalert.Manager.Evaluate as Evaluation
use netalert.Manager.Evaluate.{AlertPayload}

-- `HealthMetrics` of src/prometheus.rs; the counters wrap at 2 ^ 64.
pub record HealthMetrics : Type 0 where
  pub flows_received_netflow : ℕ
  pub flows_received_sflow : ℕ
  pub flows_dropped : ℕ
  pub flow_channel_depth : ℕ
  pub evaluation_duration_micros : ℕ

abbrev pub new_shared_health : HealthMetrics
new_shared_health = record {
  flows_received_netflow = 0;
  flows_received_sflow = 0;
  flows_dropped = 0;
  flow_channel_depth = 0;
  evaluation_duration_micros = 0;
}

-- `AnyFlowReader`, by its kind
pub data Collector : Type 0 where
  netflow sflow : Collector

-- `mpsc::channel::<FlowRecord>(10000)`
abbrev pub channel_capacity : ℕ
channel_capacity = 10_000

-- Where `reload_config` of src/main.rs stands: it changes the sampling rates, the processor and the
-- alerts one after another, each under a lock of its own.
pub data ReloadStage (W Net : Type 0) : Type 0 where
  idle : ReloadStage W Net
  processor_next : Config W Net → ReloadStage W Net
  alerts_next : Config W Net → ReloadStage W Net

-- What the tasks share. `in_hand` is the flow that the flow task has received and not processed;
-- `ids` counts the random ids that have been drawn.
pub record Daemon (W Net Network Table : Type 0) : Type 0 where
  pub exporter_rates : List (IpAddr × ℕ)
  pub alert_manager : AlertManager W
  pub processor : FlowProcessor Net Network Table
  pub channel : List FlowRecord
  pub in_hand : Option FlowRecord
  pub shared_snapshots : List (RateSnapshot W)
  pub shared_alert_states : List AlertStateSnapshot
  pub health : HealthMetrics
  pub ids : ℕ
  pub reloading : ReloadStage W Net

abbrev pub count_received : Collector → HealthMetrics → HealthMetrics
count_received netflow h = record h { flows_received_netflow = h.flows_received_netflow +u64 1 }
count_received sflow h = record h { flows_received_sflow = h.flows_received_sflow +u64 1 }

-- The exporter's sampling rate, if there is one for the sampler.
abbrev pub override_rate : List (IpAddr × ℕ) → Option IpAddr → FlowRecord → FlowRecord
override_rate rates none flow = flow
override_rate rates (some src_addr) flow = elim (find IpAddr-discrete src_addr rates) [
  | none ↦ flow
  | some rate ↦ record flow { sampling_rate = rate }
]

module _ {W Net Network Table : Type 0} where
  -- `tx.try_send(flow)`, while the flow task holds the receiver.
  abbrev pub try_send : FlowRecord → Daemon W Net Network Table → Daemon W Net Network Table
  try_send flow d =
      if ltb (length d.channel) channel_capacity
      then record d { channel = d.channel ++ (flow ∷ []) }
      else record d { health = record d.health { flows_dropped = d.health.flows_dropped +u64 1 } }

  -- One flow of `run_receiver_loop`.
  unfoldable pub receive :
      Collector → CommonFlow → Daemon W Net Network Table → Option (Daemon W Net Network Table)
  receive collector common_flow d = do
    flow ← from_common_flow common_flow
    some (
        try_send (override_rate d.exporter_rates common_flow.sampler_address flow)
          (record d { health = count_received collector d.health }))

  -- `rx.recv()` of `run_flow_processor`, and the depth that it stores; without a flow it waits.
  abbrev pub take_from :
      Option FlowRecord → List FlowRecord → Daemon W Net Network Table → Daemon W Net Network Table
  take_from none (flow ∷ rest) d = record d {
    channel = rest;
    in_hand = some flow;
    health = record d.health { flow_channel_depth = length rest };
  }
  take_from _ _ d = d

  unfoldable pub take : Daemon W Net Network Table → Daemon W Net Network Table
  take d = take_from d.in_hand d.channel d

module _ {W Net Network Table : Type 0} ⦃t : NetworkTable Table Network⦄ where
  -- The flow task under the write lock.
  abbrev pub process_held :
      Option FlowRecord → Daemon W Net Network Table → Option (Daemon W Net Network Table)
  process_held none d = some d
  process_held (some flow) d = do
    processor ← process_flow d.processor flow
    some (record d { processor = processor; in_hand = none })

  unfoldable pub process : Daemon W Net Network Table → Option (Daemon W Net Network Table)
  process d = process_held d.in_hand d

module _ {W Net Network Table : Type 0} ⦃n : IpNet Net⦄ ⦃w : IpNetwork Network⦄
    ⦃t : NetworkTable Table Network⦄ where
  -- The start of a reload, with the outcome of `Config::load`. Signals are handled one by one: there
  -- is no start while a reload is on its way.
  abbrev pub begin_reload :
      Result (ConfigError Net) (Config W Net)
      → ReloadStage W Net
      → Daemon W Net Network Table
      → Daemon W Net Network Table
  begin_reload (ok new_config) idle d = record d {
    exporter_rates = exporter_sampling_rates new_config;
    reloading = processor_next new_config;
  }
  begin_reload _ _ d = d

  -- The next lock of a reload; where the processor refuses the configuration, the new sampling rates
  -- stay.
  abbrev pub continue_reload :
      ReloadStage W Net → Daemon W Net Network Table → Daemon W Net Network Table
  continue_reload idle d = d
  continue_reload (processor_next new_config) d =
      let (processor, outcome) = ProcessorReload.reload_config d.processor new_config in
      elim outcome [
        | err e ↦ record d { processor = processor; reloading = idle }
        | ok _ ↦ record d { processor = processor; reloading = alerts_next new_config }
      ]
  continue_reload (alerts_next new_config) d = record d {
    alert_manager = AlertReload.reload_config d.alert_manager new_config;
    reloading = idle;
  }

module _ {W Net Network Table : Type 0} ⦃f : Float W⦄ ⦃n : IpNet Net⦄ (order : Groups → Groups)
    (show : IpAddr → String) (new_v4 : ℕ → ℕ) (to_json : AlertPayload W → Option String) where
  -- The alerts after the rates, and what the ticker publishes.
  abbrev pub evaluated_with :
      ℕ → ℕ → Daemon W Net Network Table → List (RateSnapshot W) → Daemon W Net Network Table
  evaluated_with now micros d snapshots =
      let (am, s, _, _) =
        Evaluation.evaluate order show new_v4 to_json d.alert_manager snapshots d.processor now
          d.ids in
      record d {
        alert_manager = am;
        processor = s.processor;
        ids = s.ids;
        shared_snapshots = snapshots;
        shared_alert_states = state_snapshots am.alerts;
        health = record d.health { evaluation_duration_micros = micros };
      }

  -- One round of `run_ticker`, at a time of each clock.
  unfoldable pub tick : ℕ → ℕ → ℕ → Daemon W Net Network Table → Option (Daemon W Net Network Table)
  tick current_time now micros d = do
    snapshots ← compute_all_rates d.processor current_time
    some (evaluated_with now micros d snapshots)

-- What happens next.
pub data Event (W Net : Type 0) : Type 0 where
  on_receive : Collector → CommonFlow → Event W Net
  on_take : Event W Net
  on_process : Event W Net
  on_tick : ℕ → ℕ → ℕ → Event W Net
  on_reload : Result (ConfigError Net) (Config W Net) → Event W Net
  on_reload_step : Event W Net

module _ {W Net Network Table : Type 0} ⦃f : Float W⦄ ⦃n : IpNet Net⦄ ⦃w : IpNetwork Network⦄
    ⦃t : NetworkTable Table Network⦄ (order : Groups → Groups) (show : IpAddr → String)
    (new_v4 : ℕ → ℕ) (to_json : AlertPayload W → Option String) where
  unfoldable pub step :
      Event W Net → Daemon W Net Network Table → Option (Daemon W Net Network Table)
  step (on_receive collector common_flow) d = receive collector common_flow d
  step on_take d = some (take d)
  step on_process d = process d
  step (on_tick current_time now micros) d =
      tick order show new_v4 to_json current_time now micros d
  step (on_reload outcome) d = some (begin_reload outcome d.reloading d)
  step on_reload_step d = some (continue_reload d.reloading d)

  unfoldable pub run :
      List (Event W Net) → Daemon W Net Network Table → Option (Daemon W Net Network Table)
  run [] d = some d
  run (e ∷ es) d = step e d >>= run es

  -- The tasks from their start: `run_ticker` makes its interval, with the library's `interval`, before
  -- its loop.
  unfoldable pub run_tasks :
      {Interval : Type 0}
      → (ℕ → Option Interval)
      → ℕ
      → List (Event W Net)
      → Daemon W Net Network Table
      → Option (Daemon W Net Network Table)
  run_tasks interval evaluation_interval es d = do ticker ← interval evaluation_interval; run es d
