-- ===== src/Daemon/Start.antt =====
-- The start of the daemon: `main` of src/main.rs up to its tasks, over the file system and the YAML
-- parser.
pub mod Laws
use netalert.Prelude.{ℕ, ◌/◌, String, List, [], Option, none, Bool, if◌then◌else◌, length}
use netalert.Prelude.Results.{Result, ok, err}
use netalert.Net.{IpNet, IpNetwork, NetworkTable}
use netalert.Config.{Config}
use netalert.Config.Validate.{ConfigError, load}
use netalert.Config.Exporters.{exporter_sampling_rates}
use netalert.Processor
use netalert.Processor.{FlowProcessor}
use netalert.Processor.Reload as ProcessorReload
use netalert.Processor.Reload.{ProcessorError}
use netalert.Manager
use netalert.Manager.Reload as AlertReload
use netalert.Daemon.{Daemon, new_shared_health, idle}

pub record Args : Type 0 where
  pub config : String
  pub netflow_port : ℕ
  pub sflow_port : ℕ
  pub bind_addr : String
  pub log_level : String
  pub metrics_addr : String
  pub check_config : Bool

-- How `main` goes on: `--check-config` prints the sizes of the configuration or exits with 1, and the
-- daemon returns an error or serves.
pub data Startup (W Net Network Table : Type 0) : Type 0 where
  config_ok : ℕ → ℕ → ℕ → Startup W Net Network Table
  check_failed : ConfigError Net → Startup W Net Network Table
  failed_to_load : ConfigError Net → Startup W Net Network Table
  failed_to_reload : ProcessorError Net → Startup W Net Network Table
  serves : Daemon W Net Network Table → Startup W Net Network Table

module _ {W Net Network Table : Type 0} ⦃n : IpNet Net⦄ ⦃w : IpNetwork Network⦄
    ⦃t : NetworkTable Table Network⦄ where
  -- The shared state before the tasks start, with the processor.
  abbrev pub initial : Config W Net → FlowProcessor Net Network Table → Daemon W Net Network Table
  initial config processor = record {
    exporter_rates = exporter_sampling_rates config;
    alert_manager = AlertReload.reload_config (Manager.new config.global.alert_script) config;
    processor = processor;
    channel = [];
    in_hand = none;
    shared_snapshots = [];
    shared_alert_states = [];
    health = new_shared_health;
    ids = 0;
    reloading = idle;
  }

  -- `main` with a configuration.
  unfoldable pub start_with : Config W Net → Startup W Net Network Table
  start_with config =
      let window_secs = config.global.window / 1_000_000_000 in
      let (processor, outcome) = ProcessorReload.reload_config (Processor.new window_secs) config in
      elim outcome [ err e ↦ failed_to_reload e | ok _ ↦ serves (initial config processor) ]

  unfoldable pub check_config :
      Result (ConfigError Net) (Config W Net) → Startup W Net Network Table
  check_config (ok config) =
      config_ok (length config.rules) (length config.alert_policies) (length config.exporters)
  check_config (err e) = check_failed e

  unfoldable pub start_after : Result (ConfigError Net) (Config W Net) → Startup W Net Network Table
  start_after (ok config) = start_with config
  start_after (err e) = failed_to_load e

  unfoldable pub main :
      (String → Option String)
      → (String → Option (Config W Net))
      → Args
      → Startup W Net Network Table
  main read_to_string from_str args =
      let loaded = load read_to_string from_str args.config in
      if args.check_config then check_config loaded else start_after loaded
