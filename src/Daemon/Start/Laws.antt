-- ===== src/Daemon/Start/Laws.antt =====
-- Which configurations the daemon starts with, and what holds from then on (src/main.rs).
use netalert.Prelude.{
  ℕ, ◌/◌, ◌<◌, ◌≡◌, ◌↔◌, refl, sym, ap, subst, String, List, Option, some, Bool, false, All, arith,
}
use netalert.Prelude.Results.{Result, ok, err}
use netalert.Float.{Float}
use netalert.Net.{IpNet, IpNetwork, NetworkTable, TableLaws}
use netalert.Flow.{IpAddr}
use netalert.Config.{Config}
use netalert.Config.Validate.{ConfigError, load}
use netalert.Processor
use netalert.Processor.{FlowProcessor}
use netalert.Processor.Reload.{ProcessorError, reload_config, window_of}
use netalert.Processor.Reload.Laws.{reload_config-IsSafe, window_of-pos, reload_config-window_secs}
use netalert.Processor.Reload.Accepts.{HasNetwork, reload_config_accepts}
use netalert.Mitigation.Search.{Groups}
use netalert.Manager.Evaluate.{AlertPayload}
use netalert.Daemon.{Daemon, Event, run_tasks}
use netalert.Daemon.Safety.{IsSound, HasTime, run_total}
use netalert.Daemon.Accounting.{IsBalanced, handled, run-IsBalanced}
use netalert.Daemon.Start.{
  Args, Startup, failed_to_reload, serves, initial, start_with, check_config, start_after, main,
}

ok_inj : {E A : Type 0} {a b : A} → ◌≡◌ {A = Result E A} (ok a) (ok b) → a ≡ b
ok_inj h = ground (arith, h)

module _ {W Net Network Table : Type 0} ⦃n : IpNet Net⦄ ⦃w : IpNetwork Network⦄
    ⦃t : NetworkTable Table Network⦄ where
  serves_inj : {d d' : Daemon W Net Network Table} → serves d ≡ serves d' → d ≡ d'
  serves_inj h = ground (arith, h)

  start_with_ok :
      (config : Config W Net) (p : FlowProcessor Net Network Table)
      → reload_config (Processor.new (config.global.window / 1_000_000_000)) config ≡ (p, ok tt)
      → start_with config ≡ serves (initial config p)
  unfolding start_with
  start_with_ok config p made =
      ap
        (λ r. elim r.1 as (λ x. Startup W Net Network Table) [
          | err e ↦ failed_to_reload e
          | ok _ ↦ serves (initial config r.0)
        ])
        made

  pub start_with_inv :
      (config : Config W Net) (d : Daemon W Net Network Table)
      → start_with config ≡ serves d
      → (p : FlowProcessor Net Network Table) × (reload_config
            (Processor.new (config.global.window / 1_000_000_000))
            config
          ≡ (p, ok tt))
        × (initial config p ≡ d)
  unfolding start_with
  start_with_inv config d done =
      go (reload_config first config).0 (reload_config first config).1 refl done
    where
      first : FlowProcessor Net Network Table
      first = Processor.new (config.global.window / 1_000_000_000)

      go :
          (p : FlowProcessor Net Network Table) (o : Result (ProcessorError Net) (Unit {0}))
          → reload_config first config ≡ (p, o)
          → elim o as (λ x. Startup W Net Network Table) [
            | err e ↦ failed_to_reload e
            | ok _ ↦ serves (initial config p)
          ]
            ≡ serves d
          → (p : FlowProcessor Net Network Table) × (reload_config first config ≡ (p, ok tt))
            × (initial config p ≡ d)
      go p (err e) made h = absurd (ground (arith, h))
      go p (ok _) made h = (p, made, serves_inj h)

  start_after_serves_iff :
      (loaded : Result (ConfigError Net) (Config W Net))
      → ((d : Daemon W Net Network Table) × (start_after loaded ≡ serves d))
        ↔ ((config : Config W Net) × (loaded ≡ ok config) × All (HasNetwork w) config.rules)
  unfolding start_after
  start_after_serves_iff (err e) =
      (λ (d, h). absurd (ground (arith, h)), λ (c, h, all). absurd (ground (arith, h)))
  start_after_serves_iff (ok config) =
      let first : FlowProcessor Net Network Table =
        Processor.new (config.global.window / 1_000_000_000) in
      (
        λ (d, h).
            let (p, made, _) = start_with_inv config d h in
            (config, refl, (reload_config_accepts first config).0 (p, made)),
        λ (c, same, all).
            let all' = subst (λ x. All (HasNetwork w) x.rules) (sym (ok_inj same)) all in
            let (p, made) = (reload_config_accepts first config).1 all' in
            (initial config p, start_with_ok config p made),
      )

  pub main_serves_inv :
      (read_to_string : String → Option String) (from_str : String → Option (Config W Net))
      (args : Args) (config : Config W Net) (d : Daemon W Net Network Table)
      → load read_to_string from_str args.config ≡ ok config
      → main read_to_string from_str args ≡ serves d
      → start_with config ≡ serves d
  unfolding main check_config start_after
  main_serves_inv read_to_string from_str args config d loaded serving =
      ground (arith, loaded, serving)

  -- Without `--check-config`, the daemon comes to serve just if the configuration is read, parsed
  -- and valid, and the second address library parses the prefix of each rule.
  pub main_serves_iff :
      (read_to_string : String → Option String) (from_str : String → Option (Config W Net))
      (args : Args)
      → args.check_config ≡ false
      → ((d : Daemon W Net Network Table) × (main read_to_string from_str args ≡ serves d)) ↔ (
          (config : Config W Net) × (load read_to_string from_str args.config ≡ ok config)
          × All (HasNetwork w) config.rules)
  unfolding main
  main_serves_iff read_to_string from_str args serving =
      let loaded = load read_to_string from_str args.config in
      let same : main read_to_string from_str args ≡ start_after loaded = rw serving refl in
      subst
        (λ x.
          ((d : Daemon W Net Network Table) × (x ≡ serves d))
          ↔ ((config : Config W Net) × (loaded ≡ ok config) × All (HasNetwork w) config.rules))
        (sym same) (start_after_serves_iff loaded)

module _ {W Net Network Table : Type 0} ⦃f : Float W⦄ ⦃n : IpNet Net⦄ ⦃w : IpNetwork Network⦄
    ⦃t : NetworkTable Table Network⦄ (dec : Discrete Network) (contains : Network → IpAddr → Bool)
    (laws : TableLaws t dec contains) where
  main-IsSound :
      (config : Config W Net) (d : Daemon W Net Network Table)
      → 0 < config.global.window / 1_000_000_000
      → start_with config ≡ serves d
      → IsSound d
  main-IsSound config d pos done =
      let first : FlowProcessor Net Network Table =
        Processor.new (config.global.window / 1_000_000_000) in
      let (p, made, same) = start_with_inv config d done in
      let started : 0 < window_of first config =
        window_of-pos first config (unfold Processor.new in pos) in
      subst IsSound same (record {
        safe = reload_config-IsSafe dec contains laws first p config made started;
        window = rw (reload_config-window_secs first p config made) started;
        queue = omega arith;
      })

  -- A daemon that serves a configuration whose window is a second or more and whose evaluation
  -- interval is not zero never panics (memory taken as unbounded), whatever flows arrive, however its
  -- tasks interleave, and whichever configurations it reloads, if the table keeps its documented
  -- laws, if the collector stamps every flow with a time, and if the
  -- library's interval is made for every period above zero: the ticker gets its interval, every run
  -- goes through, the processor stays safe and the channel bounded, and, up to the wrap of the
  -- counters, the flows received are those dropped, in the channel, in hand, and processed by the
  -- run.
  pub main-run :
      {Interval : Type 0} (interval : ℕ → Option Interval) (order : Groups → Groups)
      (show : IpAddr → String) (new_v4 : ℕ → ℕ) (to_json : AlertPayload W → Option String)
      (read_to_string : String → Option String) (from_str : String → Option (Config W Net))
      (args : Args) (config : Config W Net) (d : Daemon W Net Network Table)
      (es : List (Event W Net))
      → ((period : ℕ) → 0 < period → (i : Interval) × (interval period ≡ some i))
      → load read_to_string from_str args.config ≡ ok config
      → 0 < config.global.window / 1_000_000_000
      → 0 < config.global.evaluation_interval
      → main read_to_string from_str args ≡ serves d
      → All HasTime es
      → (d' : Daemon W Net Network Table) × (run_tasks order show new_v4 to_json interval
            config.global.evaluation_interval es d
          ≡ some d')
        × IsSound d'
        × IsBalanced d' (handled order show new_v4 to_json es d)
  unfolding run_tasks
  main-run interval order show new_v4 to_json read_to_string from_str args config d es made_for
        loaded pos often serving times =
      let (i, ticks) = made_for config.global.evaluation_interval often in
      let done = main_serves_inv read_to_string from_str args config d loaded serving in
      let (p, made, same) = start_with_inv config d done in
      let (d', ran, sound) =
        run_total order show new_v4 to_json dec contains laws es d times
          (main-IsSound config d pos done) in
      (
        d',
        rw ticks ran,
        sound,
        omega (
          arith,
          run-IsBalanced order show new_v4 to_json es d d' 0 ran
              (subst (λ x. IsBalanced x 0) same refl),
        ),
      )
