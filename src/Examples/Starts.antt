-- ===== src/Examples/Starts.antt =====
-- The start of the daemon at a concrete configuration.
use netalert.Prelude.{
  ℕ, ◌≡◌, ◌↔◌, refl, arith, String, String-discrete, Option, some, none, zero, suc, ◌<◌, false,
  true, All, map, ◌∷◌, [], ℕ_discrete,
}
use netalert.Prelude.Results.{ok}
use netalert.Float.{thousandths}
use netalert.Flow.{IpAddr-discrete}
use netalert.Config.{Config, from_secs}
use netalert.Config.Validate.{load, validate}
use netalert.Processor
use netalert.Processor.Reload.{reload_config, reload_rules, from_config}
use netalert.Processor.Reload.Accepts.{HasNetwork}
use netalert.Daemon.{Daemon, run, run_tasks, netflow}
use netalert.Daemon.Safety.{IsSound}
use netalert.Daemon.Accounting.{IsBalanced, handled}
use netalert.Daemon.Start.{Args, serves, initial, main, start_after, start_with}
use netalert.Daemon.Start.Laws.{main_serves_iff, main-run}
use netalert.Daemon.Episodes.{run_sends}
use netalert.Daemon.Episodes.Laws.{main-AreEpisodes}
use netalert.Manager.Episodes.{topic_of, about, AreEpisodes}
use netalert.Examples.Alerts.{quiet, configured-KeysAreDistinct}
use netalert.Examples.Addresses.{
  Area, Area-discrete, areas, area_parser, AreaTable, area_table, area_table-laws, lies_in,
}
use netalert.Examples.Configs.{two_rules}
use netalert.Examples.Flows.{loaded}
use netalert.Examples.Rules.{in_order, text_of, no_json}
use netalert.Daemon.Receivers.{arrives, read_fails, reading, addr_of, run_receiver}
use netalert.Daemon.Receivers.Laws.{in_time, steps_of, run_receiver-reading}
use netalert.Prometheus.{show_u64}
use netalert.Mitigation.Text.{digit}
use netalert.Examples.Runs.{arrived, started, started-IsSound, steps, steps-HasTime}

abbrev default_args : Args
default_args = record {
  config = "config.yaml";
  netflow_port = 2_055;
  sflow_port = 6_343;
  bind_addr = "0.0.0.0";
  log_level = "info";
  metrics_addr = "0.0.0.0:9090";
  check_config = false;
}

-- A file system with any text in the file, and a parser that reads it as the configuration.
abbrev one_file : String → Option String
one_file path = some "rules: []"

abbrev one_config : String → Option (Config ℕ Area)
one_config content = some two_rules

loads : load one_file one_config "config.yaml" ≡ ok two_rules
unfolding load validate String-discrete IpAddr-discrete ℕ_discrete
loads = refl

starts : main one_file one_config default_args ≡ serves (initial two_rules loaded)
unfolding main start_after start_with load validate String-discrete IpAddr-discrete ℕ_discrete
    reload_config reload_rules from_config Processor.new
starts = refl

main_serves_iff_example :
    ((d : Daemon ℕ Area Area AreaTable) × (main one_file one_config default_args ≡ serves d)) ↔ (
      (config : Config ℕ Area) × (load one_file one_config "config.yaml" ≡ ok config)
      × All (HasNetwork area_parser) config.rules)
main_serves_iff_example = main_serves_iff one_file one_config default_args refl

-- An interval library that refuses a period of zero.
abbrev every : ℕ → Option ℕ
every zero = none
every (suc n) = some (suc n)

every_starts : (period : ℕ) → 0 < period → (i : ℕ) × (every period ≡ some i)
every_starts zero h = absurd (omega arith)
every_starts (suc n) h = (suc n, refl)

main-run_example :
    (d' : Daemon ℕ Area Area AreaTable) × (run_tasks in_order text_of
        (λ n. n)
        no_json
        every
        (from_secs 1)
        steps
        (initial two_rules loaded)
      ≡ some d')
    × IsSound d'
    × IsBalanced d' (handled in_order text_of (λ n. n) no_json steps (initial two_rules loaded))
main-run_example =
    main-run Area-discrete lies_in area_table-laws every in_order text_of (λ n. n) no_json one_file
      one_config default_args two_rules (initial two_rules loaded) steps every_starts loads
      (omega arith) (omega arith) starts steps-HasTime

main-AreEpisodes_example : AreEpisodes (
    about
      (topic_of quiet)
      (run_sends in_order text_of (λ n. n) no_json steps (initial two_rules loaded) []))
main-AreEpisodes_example =
    main-AreEpisodes in_order text_of (λ n. n) no_json one_file one_config default_args two_rules
      (initial two_rules loaded) (topic_of quiet) steps loads starts configured-KeysAreDistinct
      (tt, (tt, (tt, (tt, (tt, (configured-KeysAreDistinct, (tt, (tt, (tt, tt)))))))))

run_receiver-reading_example :
    (d' : Daemon ℕ Area Area AreaTable) × (run_receiver
        (λ s. true)
        netflow
        default_args
        (map in_time (arrives arrived ∷ read_fails ∷ arrives arrived ∷ []))
        started
      ≡ some (d', reading))
    × (run in_order text_of
          (λ n. n)
          no_json
          (steps_of netflow (arrives arrived ∷ read_fails ∷ arrives arrived ∷ []))
          started
        ≡ some d')
    × IsSound d'
run_receiver-reading_example =
    run_receiver-reading in_order text_of (λ n. n) no_json Area-discrete lies_in area_table-laws
      (λ s. true) netflow default_args (arrives arrived ∷ read_fails ∷ arrives arrived ∷ []) started
      refl ((100_000_000_000, refl), (tt, ((100_000_000_000, refl), tt))) started-IsSound

netflow_addr : addr_of netflow default_args ≡ "0.0.0.0:2055"
unfolding show_u64 digit
netflow_addr = refl
