-- ===== src/Processor/Reload.antt =====
-- `ProcessedRule::from_config` and `FlowProcessor::reload_config` (src/processor.rs).
pub mod Rules
pub mod Laws
pub mod Table
pub mod Accepts
use netalert.Prelude.{ℕ, suc, ◌+◌, ◌/◌, List, [], ◌∷◌, ◌++◌, Option, none, some, ltb, if◌then◌else◌}
use netalert.Prelude.Assoc.{put}
use netalert.Prelude.Results.{Result, ok, err, ◌>>=◌}
use netalert.Net.{IpNet, IpNetwork, NetworkTable}
use netalert.RingBuffer
use netalert.RingBuffer.{RingBuffer}
use netalert.Config.{ProtocolCategory, Direction, DirectionMetrics, RuleConfig, Config}
use netalert.Processor.{BufferKey, BufferKey-discrete, ProcessedRule, FlowProcessor}

-- "Invalid prefix {}: {}"
pub data ProcessorError (Net : Type 0) : Type 0 where
  invalid_prefix : Net → ProcessorError Net

-- The loops of `ProcessedRule::from_config` over protocols and directions.
direction_buffers :
    {W : Type 0}
    → ProtocolCategory
    → List (Direction × W)
    → ℕ
    → List (BufferKey × RingBuffer)
    → List (BufferKey × RingBuffer)
direction_buffers protocol [] window_secs buffers = buffers
direction_buffers protocol ((direction, _) ∷ ds) window_secs buffers =
    direction_buffers protocol ds window_secs (
      put BufferKey-discrete (record { protocol = protocol; direction = direction })
        (RingBuffer.new window_secs) buffers)

threshold_buffers :
    {W : Type 0}
    → List (ProtocolCategory × List (Direction × W))
    → ℕ
    → List (BufferKey × RingBuffer)
    → List (BufferKey × RingBuffer)
threshold_buffers [] window_secs buffers = buffers
threshold_buffers ((protocol, ds) ∷ ts) window_secs buffers =
    threshold_buffers ts window_secs (direction_buffers protocol ds window_secs buffers)

module _ {Net Network : Type 0} ⦃n : IpNet Net⦄ ⦃w : IpNetwork Network⦄ where
  unfoldable pub from_config :
      {W : Type 0}
      → RuleConfig W Net
      → ℕ
      → ℕ
      → Result (ProcessorError Net) (ProcessedRule Net Network)
  unfolding threshold_buffers direction_buffers
  from_config config window_secs capture_buffer_size = elim (w.parse (n.to_string config.prefix)) [
    | none ↦ err (invalid_prefix config.prefix)
    | some network ↦ ok (record {
      prefix = config.prefix;
      network = network;
      labels = config.labels;
      buffers = threshold_buffers config.thresholds window_secs [];
      capture_buffer = [];
      capture_buffer_size = capture_buffer_size;
    })
  ]

module _ {Network Table : Type 0} ⦃t : NetworkTable Table Network⦄ where
  -- The entry of a rule in the prefix table: one list of indices for each network.
  abbrev pub add_index : Table → Network → ℕ → Table
  add_index table network idx = elim (t.exact_match table network) [
    | none ↦ t.insert table network (idx ∷ [])
    | some existing ↦ t.insert table network (existing ++ (idx ∷ []))
  ]

module _ {Net Network Table : Type 0} ⦃n : IpNet Net⦄ ⦃w : IpNetwork Network⦄
    ⦃t : NetworkTable Table Network⦄ where
  -- `for (idx, rule_config) in config.rules.iter().enumerate()`; `?` returns an error early.
  unfoldable pub reload_rules :
      {W : Type 0}
      → ℕ
      → ℕ
      → ℕ
      → List (RuleConfig W Net)
      → Table
      → Result (ProcessorError Net) (List (ProcessedRule Net Network) × Table)
  reload_rules idx window size [] table = ok ([], table)
  reload_rules idx window size (c ∷ cs) table = from_config c window size >>= λ processed.
      reload_rules (idx + 1) window size cs (add_index table processed.network idx) >>= λ done.
      ok (processed ∷ done.0, done.1)

  -- `config.global.window.as_secs()`, or the window of before where this is 0.
  abbrev pub window_of : {W : Type 0} → FlowProcessor Net Network Table → Config W Net → ℕ
  window_of p config =
      let window_secs = config.global.window / 1_000_000_000 in
      if ltb 0 window_secs then window_secs else p.window_secs

  unfoldable pub reload_config :
      {W : Type 0}
      → FlowProcessor Net Network Table
      → Config W Net
      → FlowProcessor Net Network Table × Result (ProcessorError Net) (Unit {0})
  reload_config p config =
      elim (reload_rules 0 (window_of p config) config.global.capture_buffer_size config.rules
        t.empty) [
          | err e ↦ (p, err e)
          | ok (new_rules, new_table) ↦ (
            record {
              rules = new_rules;
              prefix_table = new_table;
              window_secs = window_of p config;
            },
            ok tt,
          )
        ]
