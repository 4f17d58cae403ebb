-- ===== src/Processor.antt =====
-- src/processor.rs: the rules with their buffers, and what a flow does to them. A method that
-- changes `self` returns the new processor; `none` is a panic.
pub mod Reload
pub mod Route
pub mod Safety
pub mod Update
pub mod Capture
pub mod Rates
pub mod Ready
pub mod History
pub mod Report
use netalert.Prelude.{
  ℕ, suc, ◌+◌, ◌/◌, String, String-discrete, List, [], ◌∷◌, ◌++◌, map, Option, none, some, ◌>>=◌,
  Bool, true, false, ite, ltb, leb, if◌then◌else◌, length, get_elem?, set, ℕ_discrete,
}
use netalert.Prelude.Assoc.{find, put}
use netalert.Net.{NetworkTable}
use netalert.Flow.{IpAddr, FlowRecord, sampled_bytes, sampled_packets}
use netalert.RingBuffer
use netalert.RingBuffer.{RingBuffer}
use netalert.Config.{
  ProtocolCategory, ProtocolCategory-discrete, Direction, Direction-discrete, inbound, outbound,
  classify, DirectionMetrics, RuleConfig, Config,
}

pub record BufferKey : Type 0 where
  pub protocol : ProtocolCategory
  pub direction : Direction

unfoldable pub BufferKey-discrete : Discrete BufferKey
BufferKey-discrete = hlevel (ProtocolCategory-discrete, Direction-discrete)

pub record CapturedFlow : Type 0 where
  pub flow : FlowRecord
  pub direction : Direction

pub record ProcessedRule (Net Network : Type 0) : Type 0 where
  pub prefix : Net
  pub network : Network
  pub labels : List (String × String)
  pub buffers : List (BufferKey × RingBuffer)
  pub capture_buffer : List CapturedFlow
  pub capture_buffer_size : ℕ

pub record FlowProcessor (Net Network Table : Type 0) : Type 0 where
  pub rules : List (ProcessedRule Net Network)
  pub prefix_table : Table
  pub window_secs : ℕ

-- `rule.buffers.keys().any(|k| k.direction == direction)`
abbrev pub has_direction : Direction → List (BufferKey × RingBuffer) → Bool
has_direction direction [] = false
has_direction direction ((k, b) ∷ bs) =
    ite (Direction-discrete k.direction direction) true (has_direction direction bs)

-- `pop_front`; nothing happens to an empty queue.
abbrev pub pop_front : {A : Type 0} → List A → List A
pop_front [] = []
pop_front (x ∷ xs) = xs

-- The circular capture buffer: the oldest flow makes room.
unfoldable pub capture : ℕ → CapturedFlow → List CapturedFlow → List CapturedFlow
capture size flow buffer =
    (if leb size (length buffer) then pop_front buffer else buffer) ++ (flow ∷ [])

-- `for &protocol in &protocol_cats`
unfoldable pub update_buffers :
    List ProtocolCategory
    → Direction
    → FlowRecord
    → List (BufferKey × RingBuffer)
    → Option (List (BufferKey × RingBuffer))
update_buffers [] direction flow buffers = some buffers
update_buffers (protocol ∷ cats) direction flow buffers =
    let key : BufferKey = record { protocol = protocol; direction = direction } in
    let found : Option RingBuffer = find BufferKey-discrete key buffers in
    elim found [
      | none ↦ update_buffers cats direction flow buffers
      | some buffer ↦ do
        buffer' ←
            RingBuffer.add_instant_flow buffer flow.time_received (sampled_bytes flow)
              (sampled_packets flow)
        update_buffers cats direction flow (put BufferKey-discrete key buffer' buffers)
    ]

-- `contains` of a list of indices
abbrev pub has_index : ℕ → List ℕ → Bool
has_index i [] = false
has_index i (j ∷ js) = ite (ℕ_discrete j i) true (has_index i js)

-- The rules of one side that the other side does not match, with the direction.
abbrev pub one_sided : Direction → List ℕ → List ℕ → List (ℕ × Direction)
one_sided direction other [] = []
one_sided direction other (i ∷ is) =
    let rest = one_sided direction other is in
    if has_index i other then rest else (i, direction) ∷ rest

-- The updates of a flow: `Inbound` where only the destination matches, then `Outbound`.
unfoldable pub updates_of : List ℕ → List ℕ → List (ℕ × Direction)
updates_of src_rules dst_rules =
    one_sided inbound src_rules dst_rules ++ one_sided outbound dst_rules src_rules

module _ {Net Network : Type 0} where
  -- One round of the distribution, at the rule that the index names.
  unfoldable pub update_rule :
      FlowRecord → Direction → ProcessedRule Net Network → Option (ProcessedRule Net Network)
  update_rule flow direction rule =
      if has_direction direction rule.buffers
      then (update_buffers (classify flow.protocol flow.tcp_flags flow.dst_port) direction flow
            rule.buffers
          >>= λ buffers. some (record rule {
            buffers = buffers;
            capture_buffer =
                capture rule.capture_buffer_size (record { flow = flow; direction = direction })
                  rule.capture_buffer;
          }))
      else some rule

  -- `for (rule_idx, direction) in updates`; an index out of range panics.
  unfoldable pub distribute :
      FlowRecord
      → List (ℕ × Direction)
      → List (ProcessedRule Net Network)
      → Option (List (ProcessedRule Net Network))
  distribute flow [] rules = some rules
  distribute flow ((i, direction) ∷ updates) rules = do
    rule ← get_elem? rules i
    rule' ← update_rule flow direction rule
    distribute flow updates (set rules i rule')

-- `flat_map` of the indices
abbrev pub indices : {Network : Type 0} → List (Network × List ℕ) → List ℕ
indices [] = []
indices ((_, is) ∷ ms) = is ++ indices ms

module _ {Net Network Table : Type 0} ⦃t : NetworkTable Table Network⦄ where
  unfoldable pub new : ℕ → FlowProcessor Net Network Table
  new window_secs = record { rules = []; prefix_table = t.empty; window_secs = window_secs }

  abbrev pub matching_rules : FlowProcessor Net Network Table → IpAddr → List ℕ
  matching_rules p ip = indices (t.matches p.prefix_table ip)

  unfoldable pub process_flow :
      FlowProcessor Net Network Table → FlowRecord → Option (FlowProcessor Net Network Table)
  process_flow p flow = do
    rules ←
        distribute flow (updates_of (matching_rules p flow.src_ip) (matching_rules p flow.dst_ip))
          p.rules
    some (record p { rules = rules })
