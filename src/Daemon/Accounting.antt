-- ===== src/Daemon/Accounting.antt =====
-- The flow counters of the daemon (src/main.rs).
use netalert.Prelude.{
  ℕ, ◌+◌, ◌%◌, ◌^◌, ◌≡◌, refl, subst, inl, inr, List, [], ◌∷◌, Option, none, some, >>=-eq-some,
  String, length, length-append, arith, ltb, Bool-cases,
}
use netalert.Prelude.Results.{Result, ok, err}
use netalert.Float.{Float}
use netalert.Net.{IpNet, IpNetwork, NetworkTable}
use netalert.Flow.{IpAddr, CommonFlow, FlowRecord, from_common_flow}
use netalert.Config.{Config}
use netalert.Config.Validate.{ConfigError}
use netalert.Mitigation.Search.{Groups}
use netalert.Processor.{process_flow}
use netalert.Processor.Rates.{compute_all_rates}
use netalert.Manager.Evaluate.{AlertPayload}
use netalert.Daemon.{
  Collector, netflow, sflow, Daemon, Event, on_receive, on_take, on_process, on_tick, on_reload,
  on_reload_step, ReloadStage, idle, processor_next, alerts_next, begin_reload, continue_reload,
  channel_capacity, count_received, override_rate, try_send, take_from, take, receive, process,
  process_held, evaluated_with, tick, step, run,
}

abbrev pub held : Option FlowRecord → ℕ
held none = 0
held (some flow) = 1

-- Up to the wrap of the counters at 2 ^ 64, the flows received are those dropped, those in the
-- channel, the one in hand, and `n` more.
abbrev pub IsBalanced : {W Net Network Table : Type 0} → Daemon W Net Network Table → ℕ → Type 0
IsBalanced d n =
    (d.health.flows_received_netflow + d.health.flows_received_sflow) % 2 ^ 64
    ≡ (d.health.flows_dropped + length d.channel + held d.in_hand + n) % 2 ^ 64

-- How many flows a step processes.
abbrev pub handles : {W Net Network Table : Type 0} → Event W Net → Daemon W Net Network Table → ℕ
handles on_process d = held d.in_hand
handles _ d = 0

-- The daemon that a step returns.
IsBalanced-some :
    {W Net Network Table : Type 0} (d d' : Daemon W Net Network Table) (n : ℕ)
    → some d ≡ some d'
    → IsBalanced d n
    → IsBalanced d' n
IsBalanced-some d d' n e h =
    let same : d ≡ d' = ground (arith, e) in subst (λ x. IsBalanced x n) same h

module _ {W Net Network Table : Type 0} where
  try_send-IsBalanced :
      (c : Collector) (flow : FlowRecord) (d : Daemon W Net Network Table) (n : ℕ)
      → IsBalanced d n
      → IsBalanced (try_send flow (record d { health = count_received c d.health })) n
  try_send-IsBalanced netflow flow d n h =
      elim (Bool-cases (ltb (length d.channel) channel_capacity)) [
        | inl e ↦ rw e (omega (arith, h, length-append d.channel (flow ∷ [])))
        | inr e ↦ rw e (omega (arith, h))
      ]
  try_send-IsBalanced sflow flow d n h =
      elim (Bool-cases (ltb (length d.channel) channel_capacity)) [
        | inl e ↦ rw e (omega (arith, h, length-append d.channel (flow ∷ [])))
        | inr e ↦ rw e (omega (arith, h))
      ]

  receive-IsBalanced :
      (c : Collector) (flow : CommonFlow) (d d' : Daemon W Net Network Table) (n : ℕ)
      → receive c flow d ≡ some d'
      → IsBalanced d n
      → IsBalanced d' n
  unfolding receive
  receive-IsBalanced c flow d d' n made h =
      let (parsed, done, e) =
        >>=-eq-some (from_common_flow flow)
          (λ r. some (
            try_send (override_rate d.exporter_rates flow.sampler_address r)
              (record d { health = count_received c d.health })))
          made in
      IsBalanced-some _ d' n e
        (try_send-IsBalanced c (override_rate d.exporter_rates flow.sampler_address parsed) d n h)

  take-IsBalanced :
      (d : Daemon W Net Network Table) (n : ℕ) → IsBalanced d n → IsBalanced (take d) n
  unfolding take
  take-IsBalanced d n h = go d.in_hand d.channel h
    where
      go :
          (o : Option FlowRecord) (queue : List FlowRecord)
          → (d.health.flows_received_netflow + d.health.flows_received_sflow) % 2 ^ 64
            ≡ (d.health.flows_dropped + length queue + held o + n) % 2 ^ 64
          → IsBalanced (take_from o queue (record d { in_hand = o; channel = queue })) n
      go (some flow) queue h = h
      go none [] h = h
      go none (flow ∷ rest) h = omega (arith, h)

module _ {W Net Network Table : Type 0} ⦃t : NetworkTable Table Network⦄ where
  process-IsBalanced :
      (d d' : Daemon W Net Network Table) (n : ℕ)
      → process d ≡ some d'
      → IsBalanced d n
      → IsBalanced d' (n + held d.in_hand)
  unfolding process
  process-IsBalanced d d' n made h = go d.in_hand refl made h
    where
      go :
          (o : Option FlowRecord)
          → d.in_hand ≡ o
          → process_held o d ≡ some d'
          → (d.health.flows_received_netflow + d.health.flows_received_sflow) % 2 ^ 64
            ≡ (d.health.flows_dropped + length d.channel + held o + n) % 2 ^ 64
          → IsBalanced d' (n + held o)
      go none e made h = IsBalanced-some _ d' (n + 0) made (rw e (omega (arith, h)))
      go (some flow) e₀ made h =
          let (p, done, e) =
            >>=-eq-some (process_flow d.processor flow)
              (λ processor. some (record d { processor = processor; in_hand = none })) made in
          IsBalanced-some _ d' (n + 1) e (omega (arith, h))

module _ {W Net Network Table : Type 0} ⦃n : IpNet Net⦄ ⦃w : IpNetwork Network⦄
    ⦃t : NetworkTable Table Network⦄ where
  begin_reload-IsBalanced :
      (outcome : Result (ConfigError Net) (Config W Net)) (stage : ReloadStage W Net)
      (d : Daemon W Net Network Table) (k : ℕ)
      → IsBalanced d k
      → IsBalanced (begin_reload outcome stage d) k
  begin_reload-IsBalanced (err e) stage d k h = h
  begin_reload-IsBalanced (ok c) idle d k h = h
  begin_reload-IsBalanced (ok c) (processor_next _) d k h = h
  begin_reload-IsBalanced (ok c) (alerts_next _) d k h = h

  continue_reload-IsBalanced :
      (stage : ReloadStage W Net) (d : Daemon W Net Network Table) (k : ℕ)
      → IsBalanced d k
      → IsBalanced (continue_reload stage d) k
  continue_reload-IsBalanced idle d k h = h
  continue_reload-IsBalanced (processor_next c) d k h = ground (arith, h)
  continue_reload-IsBalanced (alerts_next c) d k h = h

module _ {W Net Network Table : Type 0} ⦃f : Float W⦄ ⦃n : IpNet Net⦄ ⦃w : IpNetwork Network⦄
    ⦃t : NetworkTable Table Network⦄ (order : Groups → Groups) (show : IpAddr → String)
    (new_v4 : ℕ → ℕ) (to_json : AlertPayload W → Option String) where
  step-IsBalanced :
      (e : Event W Net) (d d' : Daemon W Net Network Table) (k : ℕ)
      → step order show new_v4 to_json e d ≡ some d'
      → IsBalanced d k
      → IsBalanced d' (k + handles e d)
  unfolding step tick
  step-IsBalanced (on_receive c flow) d d' k made h =
      omega (arith, receive-IsBalanced c flow d d' k made h)
  step-IsBalanced on_take d d' k made h =
      IsBalanced-some _ d' (k + 0) made (omega (arith, take-IsBalanced d k h))
  step-IsBalanced on_process d d' k made h = process-IsBalanced d d' k made h
  step-IsBalanced (on_tick current_time now micros) d d' k made h =
      let (snapshots, rated, e) =
        >>=-eq-some (compute_all_rates d.processor current_time)
          (λ snapshots. some (evaluated_with order show new_v4 to_json now micros d snapshots))
          made in
      IsBalanced-some _ d' (k + 0) e (omega (arith, h))
  step-IsBalanced (on_reload outcome) d d' k made h =
      IsBalanced-some _ d' (k + 0) made
        (omega (arith, begin_reload-IsBalanced outcome d.reloading d k h))
  step-IsBalanced on_reload_step d d' k made h =
      IsBalanced-some _ d' (k + 0) made
        (omega (arith, continue_reload-IsBalanced d.reloading d k h))

  -- How many flows a run processes.
  abbrev pub handled : List (Event W Net) → Daemon W Net Network Table → ℕ
  handled [] d = 0
  handled (e ∷ es) d =
      handles e d
      + (elim (step order show new_v4 to_json e d) [ none ↦ 0 | some d' ↦ handled es d' ])

  -- No flow is lost unnoticed: if the flows received are, up to the wrap of the 64-bit counters,
  -- those dropped, those in the channel, the one in hand and `k` more, then after every run that
  -- does not panic they are those dropped, those in the channel, the one in hand, and `k` more than
  -- the run has processed.
  pub run-IsBalanced :
      (es : List (Event W Net)) (d d' : Daemon W Net Network Table) (k : ℕ)
      → run order show new_v4 to_json es d ≡ some d'
      → IsBalanced d k
      → IsBalanced d' (k + handled es d)
  unfolding run
  run-IsBalanced [] d d' k made h = IsBalanced-some _ d' (k + 0) made (omega (arith, h))
  run-IsBalanced (e ∷ es) d d' k made h =
      let (d₁, first, rest) =
        >>=-eq-some (step order show new_v4 to_json e d) (run order show new_v4 to_json es) made in
      let ih = run-IsBalanced es d₁ d' (k + handles e d) rest (step-IsBalanced e d d₁ k first h) in
      rw first (omega (arith, ih))
