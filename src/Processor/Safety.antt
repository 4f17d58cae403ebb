-- ===== src/Processor/Safety.antt =====
-- Panics and bounds of `process_flow` (src/processor.rs).
use netalert.Prelude.{
  ℕ, ◌≤◌, ◌<◌, ◌≡◌, refl, ◌∙◌, inl, inr, List, [], ◌∷◌, some, arith, set, get_elem?_total,
  length-set, length, count, Bool-cases, Option-cases, All, All-append, All-set, All-get_elem?,
}
use netalert.Prelude.Assoc.{find, put, All-put, All-find}
use netalert.Net.{NetworkTable}
use netalert.Flow.{IpAddr, FlowRecord, sampled_bytes, sampled_packets}
use netalert.RingBuffer.{RingBuffer}
use netalert.RingBuffer.Sums.{add_instant_flow_total}
use netalert.Config.{ProtocolCategory, Direction, classify, inbound, outbound}
use netalert.Processor.{
  BufferKey, BufferKey-discrete, CapturedFlow, ProcessedRule, FlowProcessor, has_index, one_sided,
  updates_of, capture, update_buffers, update_rule, distribute, has_direction, matching_rules,
  process_flow,
}
use netalert.Processor.Update.{key_of}
use netalert.Processor.Capture.Laws.{capacity, length-capture-le}

-- A ring has a bucket: its window is not 0 seconds.
abbrev pub HasBuckets : BufferKey × RingBuffer → Type 0
HasBuckets e = 0 < length e.1.buckets

pub record RuleIsSafe {Net Network : Type 0} (r : ProcessedRule Net Network) : Type 0 where
  pub rings : All HasBuckets r.buffers
  pub captured : length r.capture_buffer ≤ capacity r.capture_buffer_size

-- The invariant of the processor.
pub record IsSafe {Net Network Table : Type 0} ⦃t : NetworkTable Table Network⦄
    (p : FlowProcessor Net Network Table) : Type 0 where
  pub in_range : (ip : IpAddr) (i : ℕ) → length p.rules ≤ i → count i (matching_rules p ip) ≡ 0
  pub once : (ip : IpAddr) (i : ℕ) → count i (matching_rules p ip) ≤ 1
  pub rules_safe : All RuleIsSafe p.rules

update_buffers_total :
    (cats : List ProtocolCategory) (d : Direction) (flow : FlowRecord)
    (m : List (BufferKey × RingBuffer))
    → All HasBuckets m
    → (m' : List (BufferKey × RingBuffer)) × (update_buffers cats d flow m ≡ some m')
      × All HasBuckets m'
unfolding update_buffers
update_buffers_total [] d flow m h = (m, refl, h)
update_buffers_total (c ∷ cs) d flow m h =
    elim (Option-cases (find BufferKey-discrete (key_of c d) m)) [
      | inl e ↦
          let (m', done, safe) = update_buffers_total cs d flow m h in
          (m', rw (update_buffers, e) done, safe)
      | inr (b, e) ↦
          let (b', added, len) =
            add_instant_flow_total b flow.time_received (sampled_bytes flow) (sampled_packets flow)
              (All-find BufferKey-discrete HasBuckets (key_of c d) b m h e) in
          let pos : 0 < length b.buckets =
            All-find BufferKey-discrete HasBuckets (key_of c d) b m h e in
          let (m', done, safe) =
            update_buffers_total cs d flow (put BufferKey-discrete (key_of c d) b' m)
              (All-put BufferKey-discrete HasBuckets (key_of c d) b' m (λ k. omega arith) h) in
          (m', rw (update_buffers, e, added) done, safe)
    ]

module _ {Net Network : Type 0} where
  update_rule_total :
      (flow : FlowRecord) (d : Direction) (r : ProcessedRule Net Network)
      → RuleIsSafe r
      → (r' : ProcessedRule Net Network) × (update_rule flow d r ≡ some r') × RuleIsSafe r'
  unfolding update_rule
  update_rule_total flow d r safe = elim (Bool-cases (has_direction d r.buffers)) [
    | inl watched ↦
        let (m, done, rings) =
          update_buffers_total (classify flow.protocol flow.tcp_flags flow.dst_port) d flow
            r.buffers safe.rings in
        let c : CapturedFlow = record { flow = flow; direction = d } in
        (
          record r {
            buffers = m;
            capture_buffer = capture r.capture_buffer_size c r.capture_buffer;
          },
          rw (watched, done),
          record {
            rings = rings;
            captured = length-capture-le r.capture_buffer_size c r.capture_buffer safe.captured;
          },
        )
    | inr unwatched ↦ (r, rw unwatched, safe)
  ]

  distribute_total :
      (flow : FlowRecord) (us : List (ℕ × Direction)) (rs : List (ProcessedRule Net Network))
      → All (λ u. u.0 < length rs) us
      → All RuleIsSafe rs
      → (rs' : List (ProcessedRule Net Network)) × (distribute flow us rs ≡ some rs')
        × (length rs' ≡ length rs)
        × All RuleIsSafe rs'
  unfolding distribute
  distribute_total flow [] rs range safe = (rs, refl, refl, safe)
  distribute_total flow ((i, d) ∷ us) rs range safe =
      let (r, at) = get_elem?_total rs i range.0 in
      let (r', made, safe') = update_rule_total flow d r (All-get_elem? RuleIsSafe rs i safe at) in
      let (rs', done, len, all) =
        distribute_total flow us (set rs i r') (rw (length-set rs i r') range.1)
          (All-set RuleIsSafe rs i r' safe safe') in
      (rs', rw (at, made) done, len ∙ length-set rs i r', all)

All-below : (n : ℕ) (is : List ℕ) → ((i : ℕ) → n ≤ i → count i is ≡ 0) → All (λ i. i < n) is
All-below n [] h = tt
All-below n (j ∷ is) h = (ground (arith, h j), All-below n is (λ i le. ground (arith, h i le)))

All-one_sided :
    (n : ℕ) (d : Direction) (other is : List ℕ)
    → All (λ i. i < n) is
    → All (λ u. u.0 < n) (one_sided d other is)
All-one_sided n d other [] h = tt
All-one_sided n d other (i ∷ is) h = elim (Bool-cases (has_index i other)) [
  | inl e ↦ rw e (All-one_sided n d other is h.1)
  | inr e ↦ rw e (h.0, All-one_sided n d other is h.1)
]

module _ {Net Network Table : Type 0} ⦃t : NetworkTable Table Network⦄ where
  -- A flow is processed without a panic, and the processor stays safe: the prefix table names
  -- rules that exist, once, no ring is empty, and no capture buffer exceeds its capacity.
  pub process_flow_total :
      (p : FlowProcessor Net Network Table) (flow : FlowRecord)
      → IsSafe p
      → (p' : FlowProcessor Net Network Table) × (process_flow p flow ≡ some p') × IsSafe p'
  unfolding process_flow updates_of
  process_flow_total p flow safe =
      let src = matching_rules p flow.src_ip in
      let dst = matching_rules p flow.dst_ip in
      let n : ℕ = length p.rules in
      let (rs, done, len, all) =
        distribute_total flow (updates_of src dst) p.rules
          (All-append (λ u. u.0 < n) (one_sided inbound src dst) (one_sided outbound dst src)
            (All-one_sided n inbound src dst (All-below n dst (safe.in_range flow.dst_ip)))
            (All-one_sided n outbound dst src (All-below n src (safe.in_range flow.src_ip))))
          safe.rules_safe in
      (
        record p { rules = rs },
        rw done,
        record {
          in_range = λ ip i le. safe.in_range ip i (omega arith);
          once = safe.once;
          rules_safe = all;
        },
      )
