-- ===== src/Examples/Runs.antt =====
-- A run of the daemon at concrete steps.
use netalert.Prelude.{
  ℕ, ◌+◌, ◌<◌, ◌≡◌, refl, arith, String-discrete, List, [], ◌∷◌, none, some, All,
}
use mathlib.Core.Option.{get_or}
use netalert.Prelude.Results.{ok}
use netalert.Float.{thousandths}
use netalert.Flow.{CommonFlow, v4}
use netalert.Config.Exporters.{exporter_sampling_rates}
use netalert.Processor.Reload.{reload_config, reload_rules, from_config}
use netalert.Daemon.{
  Daemon, netflow, new_shared_health, Event, on_receive, on_take, on_process, on_tick, on_reload,
  on_reload_step, idle, run,
}
use netalert.Daemon.Safety.{IsSound, HasTime, run_total}
use netalert.Daemon.Accounting.{IsBalanced, handled, run-IsBalanced}
use netalert.Examples.Addresses.{
  Area, Area-discrete, areas, area_parser, AreaTable, area_table, area_table-laws, lies_in,
}
use netalert.Examples.Configs.{two_rules}
use netalert.Examples.Alerts.{manager}
use netalert.Examples.Flows.{loaded, loaded-IsSafe}
use netalert.Examples.Rules.{in_order, text_of, no_json}

abbrev pub arrived : CommonFlow
arrived = record {
  time_received_ns = some 100_000_000_000;
  src_addr = some (v4 3_405_803_783);
  dst_addr = some (v4 167_772_161);
  src_port = some 40_000;
  dst_port = some 443;
  proto = some 6;
  tcp_flags = some 2;
  bytes = 60;
  packets = 1;
  sampling_rate = none;
  sampler_address = some (v4 3_232_235_521);
}

abbrev pub started : Daemon ℕ Area Area AreaTable
started = record {
  exporter_rates = exporter_sampling_rates two_rules;
  alert_manager = manager;
  processor = loaded;
  channel = [];
  in_hand = none;
  shared_snapshots = [];
  shared_alert_states = [];
  health = new_shared_health;
  ids = 0;
  reloading = idle;
}

abbrev pub steps : List (Event ℕ Area)
steps =
    on_receive netflow arrived
    ∷ on_take
    ∷ on_receive netflow arrived
    ∷ on_process
    ∷ on_tick 101 31_000_000_000 250
    ∷ on_reload (ok two_rules)
    ∷ on_receive netflow arrived
    ∷ on_reload_step
    ∷ on_reload_step
    ∷ []

loaded-window_secs : 0 < loaded.window_secs
unfolding reload_config reload_rules from_config String-discrete
loaded-window_secs = omega arith

pub started-IsSound : IsSound started
started-IsSound = record { safe = loaded-IsSafe; window = loaded-window_secs; queue = omega arith }

pub steps-HasTime : All HasTime steps
steps-HasTime = (
  (100_000_000_000, refl),
  (tt, ((100_000_000_000, refl), (tt, (tt, (tt, ((100_000_000_000, refl), (tt, (tt, tt)))))))),
)

abbrev stopped : Daemon ℕ Area Area AreaTable
stopped = get_or (run in_order text_of (λ n. n) no_json steps started) started

stopped_ok : run in_order text_of (λ n. n) no_json steps started ≡ some stopped
stopped_ok =
    let (d', done, sound) =
      run_total in_order text_of (λ n. n) no_json Area-discrete lies_in area_table-laws steps
        started steps-HasTime started-IsSound in
    ground (arith, done)

run-IsBalanced_example :
    IsBalanced stopped (0 + handled in_order text_of (λ n. n) no_json steps started)
run-IsBalanced_example =
    run-IsBalanced in_order text_of (λ n. n) no_json steps started stopped 0 stopped_ok refl
