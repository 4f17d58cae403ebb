-- ===== src/Daemon/Episodes/Steps.antt =====
-- The payloads about one alert, through one step of a task of src/main.rs.
use netalert.Prelude.{
  ℕ, ◌≡◌, sym, String, List, [], ◌∷◌, ◌++◌, Option, none, some, arith, subst, Option-cases, ltb,
  Bool-cases, inl, inr, length,
}
use netalert.Prelude.Results.{Result, ok, err}
use netalert.Float.{Float}
use netalert.Net.{IpNet, IpNetwork, NetworkTable}
use netalert.Flow.{IpAddr, FlowRecord, CommonFlow, from_common_flow}
use netalert.Config.{Config}
use netalert.Config.Validate.{ConfigError}
use netalert.Processor.{FlowProcessor, process_flow}
use netalert.Processor.Reload as ProcessorReload
use netalert.Processor.Reload.{ProcessorError}
use netalert.Processor.Rates.{compute_all_rates}
use netalert.Mitigation.Search.{Groups}
use netalert.Manager.Reload.{configured}
use netalert.Manager.Reload.Laws.{KeysAreDistinct}
use netalert.Manager.Evaluate.{AlertPayload}
use netalert.Manager.Episodes.{Topic, about}
use netalert.Manager.Episodes.Ticks.{InStep, evaluate-InStep}
use netalert.Manager.Episodes.Reloads.{reload_config-InStep}
use netalert.Daemon.{
  Daemon, Collector, ReloadStage, idle, processor_next, alerts_next, channel_capacity,
  override_rate, count_received, try_send, receive, take_from, take, process_held, process,
  begin_reload, continue_reload, evaluated_with, tick, Event, on_receive, on_take, on_process,
  on_tick, on_reload, on_reload_step, step,
}
use netalert.Daemon.Episodes.{LoadsDistinct, sends_with, sends}

module _ {W Net : Type 0} ⦃n : IpNet Net⦄ where
  abbrev pub StageIsDistinct : ReloadStage W Net → Type 0
  StageIsDistinct idle = Unit
  StageIsDistinct (processor_next config) = KeysAreDistinct (configured {W = W} config)
  StageIsDistinct (alerts_next config) = KeysAreDistinct (configured {W = W} config)

  -- The alerts of the daemon and the payloads of the topic so far.
  abbrev pub IsInStep :
      {Network Table : Type 0} → Topic → Daemon W Net Network Table → List (AlertPayload W) → Type 0
  IsInStep t d ps = InStep t d.alert_manager.alerts (about t ps) × StageIsDistinct d.reloading

module _ {W Net Network Table : Type 0} ⦃n : IpNet Net⦄ where
  try_send-IsInStep :
      (topic : Topic) (flow : FlowRecord) (d : Daemon W Net Network Table)
      (ps : List (AlertPayload W))
      → IsInStep topic d ps
      → IsInStep topic (try_send flow d) ps
  try_send-IsInStep topic flow d ps h =
      elim (Bool-cases (ltb (length d.channel) channel_capacity)) [
        | inl e ↦ rw e h
        | inr e ↦ rw e h
      ]

module _ {W Net Network Table : Type 0} ⦃f : Float W⦄ ⦃n : IpNet Net⦄ ⦃w : IpNetwork Network⦄
    ⦃t : NetworkTable Table Network⦄ (order : Groups → Groups) (show : IpAddr → String)
    (new_v4 : ℕ → ℕ) (to_json : AlertPayload W → Option String) where
  receive-IsInStep :
      (topic : Topic) (c : Collector) (flow : CommonFlow) (d d' : Daemon W Net Network Table)
      (ps : List (AlertPayload W))
      → IsInStep topic d ps
      → receive c flow d ≡ some d'
      → IsInStep topic d' ps
  unfolding receive
  receive-IsInStep topic c flow d d' ps h e = elim (Option-cases (from_common_flow flow)) [
    | inl failed ↦ absurd (ground (arith, failed, e))
    | inr (r, made) ↦
        let counted : Daemon W Net Network Table = record d {
          health = count_received c d.health;
        } in
        let sent = override_rate d.exporter_rates flow.sampler_address r in
        let done : try_send sent counted ≡ d' = ground (arith, made, e) in
        subst (λ x. IsInStep topic x ps) done (try_send-IsInStep topic sent counted ps h)
  ]

  take_from-IsInStep :
      (topic : Topic) (held : Option FlowRecord) (channel : List FlowRecord)
      (d : Daemon W Net Network Table) (ps : List (AlertPayload W))
      → IsInStep topic d ps
      → IsInStep topic (take_from held channel d) ps
  take_from-IsInStep topic none [] d ps h = h
  take_from-IsInStep topic none (flow ∷ rest) d ps h = h
  take_from-IsInStep topic (some flow) channel d ps h = h

  process_held-IsInStep :
      (topic : Topic) (held : Option FlowRecord) (d d' : Daemon W Net Network Table)
      (ps : List (AlertPayload W))
      → IsInStep topic d ps
      → process_held held d ≡ some d'
      → IsInStep topic d' ps
  process_held-IsInStep topic none d d' ps h e =
      let same : d ≡ d' = ground (arith, e) in subst (λ x. IsInStep topic x ps) same h
  process_held-IsInStep topic (some flow) d d' ps h e =
      elim (Option-cases (process_flow d.processor flow)) [
        | inl failed ↦ absurd (ground (arith, failed, e))
        | inr (p, made) ↦
            let next : Daemon W Net Network Table = record d { processor = p; in_hand = none } in
            let done : next ≡ d' = ground (arith, made, e) in
            subst (λ x. IsInStep topic x ps) done h
      ]

  begin_reload-IsInStep :
      (topic : Topic) (outcome : Result (ConfigError Net) (Config W Net))
      (stage : ReloadStage W Net) (d : Daemon W Net Network Table) (ps : List (AlertPayload W))
      → LoadsDistinct (on_reload outcome)
      → IsInStep topic d ps
      → IsInStep topic (begin_reload outcome stage d) ps
  begin_reload-IsInStep topic (ok config) idle d ps distinct h = (h.0, distinct)
  begin_reload-IsInStep topic (ok config) (processor_next c) d ps distinct h = h
  begin_reload-IsInStep topic (ok config) (alerts_next c) d ps distinct h = h
  begin_reload-IsInStep topic (err e) stage d ps distinct h = h

  continue_reload-IsInStep :
      (topic : Topic) (stage : ReloadStage W Net) (d : Daemon W Net Network Table)
      (ps : List (AlertPayload W))
      → InStep topic d.alert_manager.alerts (about topic ps)
      → StageIsDistinct stage
      → StageIsDistinct d.reloading
      → IsInStep topic (continue_reload stage d) ps
  continue_reload-IsInStep topic idle d ps h distinct own = (h, own)
  continue_reload-IsInStep topic (alerts_next c) d ps h distinct own =
      (reload_config-InStep topic d.alert_manager c (about topic ps) distinct h, tt)
  continue_reload-IsInStep topic (processor_next c) d ps h distinct own =
      go (ProcessorReload.reload_config d.processor c).0
        (ProcessorReload.reload_config d.processor c).1
    where
      go :
          (p : FlowProcessor Net Network Table) (o : Result (ProcessorError Net) (Unit {0}))
          → IsInStep topic
              (elim o as (λ x. Daemon W Net Network Table) [
                | err e ↦ record d { processor = p; reloading = idle }
                | ok _ ↦ record d { processor = p; reloading = alerts_next c }
              ])
              ps
      go p (err e) = (h, tt)
      go p (ok _) = (h, distinct)

  tick-IsInStep :
      (topic : Topic) (current_time now micros : ℕ) (d d' : Daemon W Net Network Table)
      (ps : List (AlertPayload W))
      → IsInStep topic d ps
      → tick order show new_v4 to_json current_time now micros d ≡ some d'
      → IsInStep topic d'
          (sends order show new_v4 to_json (on_tick current_time now micros) d ++ ps)
  unfolding tick
  tick-IsInStep topic current_time now micros d d' ps h e =
      elim (Option-cases (compute_all_rates {W = W} d.processor current_time)) [
        | inl failed ↦ absurd (ground (arith, failed, e))
        | inr (snapshots, made) ↦
            let done : evaluated_with order show new_v4 to_json now micros d snapshots ≡ d' =
              ground (arith, made, e) in
            subst (λ o. IsInStep topic d' (sends_with order show new_v4 to_json now d o ++ ps))
              (sym made)
              (subst
                (λ x.
                  IsInStep topic x
                    (sends_with order show new_v4 to_json now d (some snapshots) ++ ps))
                done
                (
                  evaluate-InStep order show new_v4 topic to_json d.alert_manager snapshots
                      d.processor now d.ids ps h.0,
                  h.1,
                ))
      ]

  pub step-IsInStep :
      (topic : Topic) (e : Event W Net) (d d' : Daemon W Net Network Table)
      (ps : List (AlertPayload W))
      → LoadsDistinct e
      → IsInStep topic d ps
      → step order show new_v4 to_json e d ≡ some d'
      → IsInStep topic d' (sends order show new_v4 to_json e d ++ ps)
  unfolding step
  step-IsInStep topic (on_receive c flow) d d' ps distinct h e =
      receive-IsInStep topic c flow d d' ps h e
  step-IsInStep topic on_take d d' ps distinct h e =
      let same : take d ≡ d' = ground (arith, e) in
      subst (λ x. IsInStep topic x ps) same
        (unfold take in take_from-IsInStep topic d.in_hand d.channel d ps h)
  step-IsInStep topic on_process d d' ps distinct h e =
      process_held-IsInStep topic d.in_hand d d' ps h (unfold process in e)
  step-IsInStep topic (on_tick current_time now micros) d d' ps distinct h e =
      tick-IsInStep topic current_time now micros d d' ps h e
  step-IsInStep topic (on_reload outcome) d d' ps distinct h e =
      let same : begin_reload outcome d.reloading d ≡ d' = ground (arith, e) in
      subst (λ x. IsInStep topic x ps) same
        (begin_reload-IsInStep topic outcome d.reloading d ps distinct h)
  step-IsInStep topic on_reload_step d d' ps distinct h e =
      let same : continue_reload d.reloading d ≡ d' = ground (arith, e) in
      subst (λ x. IsInStep topic x ps) same
        (continue_reload-IsInStep topic d.reloading d ps h.0 h.1 h.1)
