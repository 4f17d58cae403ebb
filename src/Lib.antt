-- ===== src/Lib.antt =====
-- NetAlert, a daemon that watches NetFlow and sFlow records for attacks.
--
-- The program. Receivers turn datagrams into flow records (src/flow.rs). The flow processor
-- (src/processor.rs) finds the rules whose prefix holds one end of a flow, by a prefix table, and
-- adds the flow to the ring buffers (src/ring_buffer.rs) of the rule's categories and direction,
-- and to the rule's capture buffer. On every tick the alert manager (src/alert.rs) compares the
-- rates of the ring buffers with the thresholds of the configuration (src/config.rs), advances the
-- state machine of each alert, and for an alert that fires hands the captured flows to the
-- analysis (src/mitigation.rs), which suggests BGP Flow Spec rules for the script's payload.
-- The tasks of src/main.rs run these parts over a channel and locks.
--
-- The files.
--   Prelude: names of the libraries, Boolean tests, 64-bit words, association lists, results,
--     the order of texts.
--   Float: f64 as an interface. Net: the libraries ipnet, ip_network and ip_network_table as
--     interfaces, with the documented laws of the prefix table.
--   RingBuffer: RingBuffer and Bucket of src/ring_buffer.rs. RingBuffer/Sums: the sums of its
--     loop; RingBuffer/History, Window and Exact: histories of flows.
--   Flow: src/flow.rs.
--   Config: the types of src/config.rs and ProtocolCategory::classify; Config/Validate:
--     Config::validate and Config::load; Config/Exporters: Config::exporter_sampling_rates.
--   Processor: FlowProcessor::process_flow and what it calls; Processor/Reload:
--     ProcessedRule::from_config and FlowProcessor::reload_config; Processor/Capture:
--     drain_captured_flows; Processor/Rates: compute_all_rates. Processor/Route, Update, Safety,
--     Reload/Table, Reload/Rules, Reload/Laws, Reload/Accepts and Capture/Laws hold proofs.
--     Processor/History: the calls between two reloads, and the flows that count for a key
--     of a rule; Processor/Report: the rate that find_rate of src/alert.rs returns of the
--     snapshots. Ready, History/Steps, History/Laws, History/Total, Report/Rules and
--     Report/Laws hold proofs.
--   Mitigation: FieldSet, Candidate and GroupKey; Mitigation/Text: names and prefixes;
--     Mitigation/Narrow: compute_destination_prefix; Mitigation/Search: find_best_candidate;
--     Mitigation/Analyze: analyze_flows. Fields, Decode, Narrow/Laws, Narrow/Within,
--     Narrow/Bytes, Narrow/Order, Search/Laws, Search/Best, Search/Totals, Analyze/Rounds,
--     Analyze/Laws and Analyze/Within hold proofs.
--   Alert: AlertInstance::evaluate; Alert/Held, Phase and Response hold proofs.
--   Manager: AlertManager, its snapshots and find_rate; Manager/Reload: reload_config and
--     add_metric_alerts; Manager/Reload/Orphans: the warnings of reload_config; Manager/Evaluate:
--     AlertManager::evaluate. Manager/Episodes: series of evaluations and reloads, and the payloads
--     that are about one alert; Manager/Notice: what an alert is due for, and what a payload tells.
--     Manager/Script: the task of execute_script, and when and how it ends. Reload/Laws,
--     Reload/New, Reload/Thresholds, Reload/Inherit, Reload/Configured, Evaluate/Laws, Notice/Laws,
--     Notice/Traffic, Notice/Response and the files below Reload/Orphans and Episodes hold proofs.
--   Daemon: the shared state of src/main.rs and the steps of its tasks: receive is one round of
--     run_receiver_loop, take and process are run_flow_processor, tick is one round of run_ticker's
--     loop, run_tasks also makes the interval that it waits on,
--     begin_reload and continue_reload are reload_config; HealthMetrics of src/prometheus.rs.
--     Daemon/Start: main up to its tasks, and --check-config; Daemon/Receivers: the two receivers
--     as tasks; Daemon/Episodes: the payloads of a run. Daemon/Ready, Safety, Accounting,
--     Start/Laws, Receivers/Laws and the files below Daemon/Episodes hold proofs.
--   Prometheus: render_metrics of src/prometheus.rs and the answer to a request;
--     Prometheus/Format: families of samples as data and their printer; Format/Escape: the escapes
--     of a label value in the text format; Prometheus/Keys: the names of the labels;
--     Prometheus/Server: spawn. Format/Pieces, Format/Laws, Format/Labels and Exposition hold proofs.
--   Examples: an instance of the address libraries, and the theorems at concrete inputs.
--
-- The correspondence. A struct is a record and an enum a data type with the same names. A method on
-- `&mut self` returns the new value; a panic is `none`, an error is `err`. A number is a natural
-- number; sums and products of `u64` wrap at 2 ^ 64, as in a release build. Time is nanoseconds,
-- except in the ring buffer, where it is seconds. A hash map is a list of entries without order of
-- its own: where the code's result depends on the iteration order, the order is the list's or the
-- parameter `order`. The random ids, the JSON serializer, the texts of an address and of an f64, the
-- file system, the YAML parser and the library's interval are parameters.
--
-- Interleavings. A task of the daemon holds a lock while it changes what the lock guards, so a run is
-- a list of steps in any order. The flow task has two, since it takes the lock after it has received
-- a flow. A reload has three, since the rates, the processor and the alerts have locks of their own.
-- The health counters are atomic and change with the step that they count. The ticker publishes the
-- rates and the alert states under a lock each, after the evaluation: the model takes this as one
-- step with the evaluation, and no theorem is about a scrape between the two.
--
-- Bounds and fuel. Loops over lists are structural. The loop of `compute_destination_prefix` is on
-- 32 or 128 rounds, since every round lengthens the prefix by a bit; the loop of
-- `analyze_flows` has the ten rounds of the code; a `u64` is shown with at most 20 digits.
--
-- Not modelled. The parser of the command line, the sockets, the signals and the runtime of
-- src/main.rs, the HTTP server of the metrics endpoint (src/prometheus.rs) and its locks, the clock
-- (src/utils.rs), which are libraries or the operating system, and log lines, but for the warnings
-- of a reload. What a child process does is given to the model of the task that runs it; the tasks
-- of several payloads run side by side, so nothing is said of the order in which their scripts act.
-- Memory is unbounded: the model has no panic where a configured window or capture buffer is larger
-- than a vector can be (src/processor.rs, src/ring_buffer.rs).
pub mod Prelude
pub mod Float
pub mod Net
pub mod RingBuffer
pub mod Flow
pub mod Config
pub mod Processor
pub mod Mitigation
pub mod Alert
pub mod Manager
pub mod Daemon
pub mod Prometheus
pub mod Examples
