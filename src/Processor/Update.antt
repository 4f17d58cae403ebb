-- ===== src/Processor/Update.antt =====
-- What a flow does to the ring buffers of one rule (`process_flow` in src/processor.rs).
use netalert.Prelude.{
  ℕ, ◌≡◌, refl, List, [], ◌∷◌, Option, none, some, ◌>>=◌, Bool, false, ite, if◌then◌else◌, arith,
  Bool-cases, Option-cases, >>=-eq-some, ◌⊎◌, inl, inr,
}
use netalert.Prelude.Assoc.{find, put, find-put}
use netalert.Flow.{FlowRecord, sampled_bytes, sampled_packets}
use netalert.RingBuffer.{RingBuffer, add_instant_flow}
use netalert.Config.{
  ProtocolCategory, ProtocolCategory-discrete, Direction, Direction-discrete, classify,
}
use netalert.Config.Classify.{contains}
use netalert.Processor.{
  BufferKey, BufferKey-discrete, ProcessedRule, capture, update_buffers, update_rule, has_direction,
}

-- No category is listed twice.
abbrev pub IsDistinct : List ProtocolCategory → Type 0
IsDistinct [] = Unit
IsDistinct (c ∷ cs) = (contains cs c ≡ false) × IsDistinct cs

pub classify-IsDistinct : (protocol flags port : ℕ) → IsDistinct (classify protocol flags port)
unfolding classify contains ProtocolCategory-discrete
classify-IsDistinct protocol flags port = ground arith

-- A ring after the flow.
abbrev pub add_flow : FlowRecord → RingBuffer → Option RingBuffer
add_flow flow ring =
    add_instant_flow ring flow.time_received (sampled_bytes flow) (sampled_packets flow)

-- Whether a flow of these categories and this direction counts for a key.
abbrev pub is_due : List ProtocolCategory → Direction → BufferKey → Bool
is_due cats d key = ite (Direction-discrete key.direction d) (contains cats key.protocol) false

abbrev pub key_of : ProtocolCategory → Direction → BufferKey
key_of c d = record { protocol = c; direction = d }

-- One category of the loop.
update_buffers_step :
    (c : ProtocolCategory) (cs : List ProtocolCategory) (d : Direction) (flow : FlowRecord)
    (m m' : List (BufferKey × RingBuffer))
    → update_buffers (c ∷ cs) d flow m ≡ some m'
    → ((find BufferKey-discrete (key_of c d) m ≡ none) × (update_buffers cs d flow m ≡ some m'))
      ⊎ ((b : RingBuffer) × (b' : RingBuffer) × (find BufferKey-discrete (key_of c d) m ≡ some b)
          × (add_flow flow b ≡ some b')
          × (update_buffers cs d flow (put BufferKey-discrete (key_of c d) b' m) ≡ some m'))
unfolding update_buffers
update_buffers_step c cs d flow m m' h =
    elim (Option-cases (find BufferKey-discrete (key_of c d) m)) [
      | inl e ↦ inl (e, ground arith)
      | inr (b, e) ↦
          let (b', added, rest) =
            >>=-eq-some (add_flow flow b)
              (λ b'. update_buffers cs d flow (put BufferKey-discrete (key_of c d) b' m)) {b = m'}
              (ground arith) in
          inr (b, b', e, added, rest)
    ]

find-update_buffers_lem :
    (cats : List ProtocolCategory) (d : Direction) (flow : FlowRecord)
    (m m' : List (BufferKey × RingBuffer)) (key : BufferKey)
    → IsDistinct cats
    → update_buffers cats d flow m ≡ some m'
    → find BufferKey-discrete key m' ≡ (
        if is_due cats d key
        then (find BufferKey-discrete key m >>= add_flow flow)
        else find BufferKey-discrete key m)
unfolding contains
find-update_buffers_lem [] d flow m m' key distinct h = unfold update_buffers in ground arith
find-update_buffers_lem (c ∷ cs) d flow m m' key distinct h =
    elim (update_buffers_step c cs d flow m m' h) [
      | inl (absent, rest) ↦
          ground (arith, find-update_buffers_lem cs d flow m m' key distinct.1 rest)
      | inr (b, b', found, added, rest) ↦ ground (
        arith,
        find-update_buffers_lem cs d flow (put BufferKey-discrete (key_of c d) b' m) m' key
            distinct.1 rest,
        find-put BufferKey-discrete (key_of c d) key b' m,
      )
    ]

-- A rule that watches no key of a direction has no buffer for it.
find-has_direction :
    (d : Direction) (key : BufferKey) (m : List (BufferKey × RingBuffer))
    → has_direction d m ≡ false
    → key.direction ≡ d
    → find BufferKey-discrete key m ≡ none
find-has_direction d key [] h e = refl
find-has_direction d key (b ∷ m) h e = ground (arith, find-has_direction d key m)

module _ {Net Network : Type 0} where
  -- One update of a rule by a flow: a buffer receives the flow exactly if its key has the direction
  -- and one of the flow's categories, and else stays as it was; the flow is captured exactly if
  -- the rule watches the direction; nothing else of the rule changes.
  pub update_rule_lem :
      (flow : FlowRecord) (d : Direction) (rule rule' : ProcessedRule Net Network)
      → update_rule flow d rule ≡ some rule'
      → ((key : BufferKey)
          → find BufferKey-discrete key rule'.buffers ≡ (
              if is_due (classify flow.protocol flow.tcp_flags flow.dst_port) d key
              then (find BufferKey-discrete key rule.buffers >>= add_flow flow)
              else find BufferKey-discrete key rule.buffers))
        × (rule' ≡ record rule {
          buffers = rule'.buffers;
          capture_buffer =
              if has_direction d rule.buffers
              then capture rule.capture_buffer_size
                  (record { flow = flow; direction = d })
                  rule.capture_buffer
              else rule.capture_buffer;
        })
  unfolding update_rule
  update_rule_lem flow d rule rule' h =
      let cats = classify flow.protocol flow.tcp_flags flow.dst_port in
      elim (Bool-cases (has_direction d rule.buffers)) [
        | inl watched ↦
            let (m, done, made) =
              >>=-eq-some (update_buffers cats d flow rule.buffers)
                (λ m. some (record rule {
                  buffers = m;
                  capture_buffer =
                      capture rule.capture_buffer_size (record { flow = flow; direction = d })
                        rule.capture_buffer;
                }))
                {b = rule'} (ground arith) in
            (
              λ key. ground (
                arith,
                find-update_buffers_lem cats d flow rule.buffers m key
                    (classify-IsDistinct flow.protocol flow.tcp_flags flow.dst_port) done,
              ),
              ground arith,
            )
        | inr unwatched ↦
            (λ key. ground (arith, find-has_direction d key rule.buffers unwatched), ground arith)
      ]
