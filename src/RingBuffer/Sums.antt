-- ===== src/RingBuffer/Sums.antt =====
-- What the loop of `compute_rates` (src/ring_buffer.rs) reads from a buffer: for each second of the
-- window, the bucket that carries this second, if there is one.
use netalert.Prelude.{
  ℕ, zero, suc, ◌+◌, ◌-◌, ◌%◌, ◌<◌, ◌≡◌, refl, sym, ◌∙◌, Option, none, some, if_neg, ℕ_discrete,
  ◌==◌, if◌then◌else◌, length, get_elem?, set, ◌+u64◌, u64, arith, get_elem?_total,
  get_elem?-set_self, get_elem?-set_ne, length-set, u64-add_left,
}
use netalert.RingBuffer.{
  Bucket, RingBuffer, Totals, reset, bump, add_bucket, add_instant_flow, sum_buckets, empty_bucket,
}

-- One of the four numbers that a bucket and the totals carry, with what an added flow is worth.
pub record Counter : Type 0 where
  pub field : Bucket → ℕ
  pub total : Totals → ℕ
  pub amount : ℕ → ℕ → ℕ
  pub field-empty : field empty_bucket ≡ 0
  pub field-reset : (b : Bucket) (t : ℕ) → field (reset b t) ≡ 0
  pub field-bump : (b : Bucket) (x y : ℕ) → field (bump b x y) ≡ field b +u64 amount x y
  pub total-add :
      (t : ℕ) (b : Bucket) (s : Totals)
      → total (add_bucket t b s) ≡ (if b.timestamp == t then total s +u64 field b else total s)

pub total_bytes-add_bucket :
    (t : ℕ) (b : Bucket) (s : Totals)
    → (add_bucket t b s).total_bytes
      ≡ (if b.timestamp == t then s.total_bytes +u64 b.bytes else s.total_bytes)
total_bytes-add_bucket t b s = ground arith

abbrev pub bytes_counter : Counter
bytes_counter = record {
  field = λ b. b.bytes;
  total = λ s. s.total_bytes;
  amount = λ x y. x;
  field-empty = refl;
  field-reset = λ b t. refl;
  field-bump = λ b x y. refl;
  total-add = total_bytes-add_bucket;
}

pub total_packets-add_bucket :
    (t : ℕ) (b : Bucket) (s : Totals)
    → (add_bucket t b s).total_packets
      ≡ (if b.timestamp == t then s.total_packets +u64 b.packets else s.total_packets)
total_packets-add_bucket t b s = ground arith

abbrev pub packets_counter : Counter
packets_counter = record {
  field = λ b. b.packets;
  total = λ s. s.total_packets;
  amount = λ x y. y;
  field-empty = refl;
  field-reset = λ b t. refl;
  field-bump = λ b x y. refl;
  total-add = total_packets-add_bucket;
}

pub total_flows-add_bucket :
    (t : ℕ) (b : Bucket) (s : Totals)
    → (add_bucket t b s).total_flows
      ≡ (if b.timestamp == t then s.total_flows +u64 b.flows else s.total_flows)
total_flows-add_bucket t b s = ground arith

abbrev pub flows_counter : Counter
flows_counter = record {
  field = λ b. b.flows;
  total = λ s. s.total_flows;
  amount = λ x y. 1;
  field-empty = refl;
  field-reset = λ b t. refl;
  field-bump = λ b x y. refl;
  total-add = total_flows-add_bucket;
}

-- The bucket in the slot of a second.
abbrev pub slot : RingBuffer → ℕ → Option Bucket
slot r t = get_elem? r.buckets (t % length r.buckets)

abbrev pub share_of : (Bucket → ℕ) → ℕ → Option Bucket → ℕ
share_of field t none = 0
share_of field t (some b) = if b.timestamp == t then field b else 0

-- `g i + g (i + 1) + …`, `n` terms.
abbrev pub sum_from : (ℕ → ℕ) → ℕ → ℕ → ℕ
sum_from g i zero = 0
sum_from g i (suc n) = g i + sum_from g (i + 1) n

pub slot_total :
    (r : RingBuffer) (t : ℕ) → 0 < length r.buckets → (b : Bucket) × (slot r t ≡ some b)
slot_total r t h = get_elem?_total r.buckets (t % length r.buckets) (omega arith)

-- A flow is added to a buffer of any length but 0, without a panic.
pub add_instant_flow_total :
    (r : RingBuffer) (t x y : ℕ)
    → 0 < length r.buckets
    → (s : RingBuffer) × (add_instant_flow r t x y ≡ some s) × (length s.buckets ≡ length r.buckets)
unfolding add_instant_flow
add_instant_flow_total r t x y h =
    let (b, e) = slot_total r t h in
    let c : Bucket = bump (if b.timestamp == t then b else reset b t) x y in
    (
      record { buckets = set r.buckets (t % length r.buckets) c },
      rw (if_neg (ℕ_discrete (length r.buckets) 0) (omega arith), e),
      length-set r.buckets (t % length r.buckets) c,
    )

-- What an added flow does to the slot of a second.
pub slot-add :
    (r s : RingBuffer) (e x y t : ℕ)
    → 0 < length r.buckets
    → add_instant_flow r e x y ≡ some s
    → (b : Bucket) × (slot r e ≡ some b)
      × (slot s t ≡ (
          if e % length r.buckets == t % length r.buckets
          then some (bump (if b.timestamp == e then b else reset b e) x y)
          else slot r t))
unfolding add_instant_flow
slot-add r s e x y t h added =
    let (b, found) = slot_total r e h in
    let i : ℕ = e % length r.buckets in
    let j : ℕ = t % length r.buckets in
    let c : Bucket = bump (if b.timestamp == e then b else reset b e) x y in
    (
      b,
      found,
      ground (
        arith,
        get_elem?-set_self r.buckets i c,
        get_elem?-set_ne r.buckets i j c,
        length-set r.buckets i c,
      ),
    )

-- One round of the loop.
pub sum_buckets_step :
    (r : RingBuffer) (now i left : ℕ) (s : Totals)
    → 0 < length r.buckets
    → (b : Bucket) × (slot r (now - i) ≡ some b)
      × (sum_buckets r now i (suc left) s
          ≡ sum_buckets r now (i + 1) left (add_bucket (now - i) b s))
unfolding sum_buckets
sum_buckets_step r now i left s pos =
    let (b, found) = slot_total r (now - i) pos in
    (b, found, rw (if_neg (ℕ_discrete (length r.buckets) 0) (omega arith), found))

-- The loop reads a buffer of any length but 0 without a panic.
pub sum_buckets_total :
    (r : RingBuffer) (now i left : ℕ) (s : Totals)
    → 0 < length r.buckets
    → (s' : Totals) × (sum_buckets r now i left s ≡ some s')
sum_buckets_total r now i zero s pos = (s, unfold sum_buckets in refl)
sum_buckets_total r now i (suc left) s pos =
    let (b, found, rest) = sum_buckets_step r now i left s pos in
    let (s', done) = sum_buckets_total r now (i + 1) left (add_bucket (now - i) b s) pos in
    (s', rest ∙ done)

module _ (c : Counter) where
  abbrev pub share : RingBuffer → ℕ → ℕ
  share r t = share_of c.field t (slot r t)

  pub share-add :
      (r s : RingBuffer) (e x y t : ℕ)
      → 0 < length r.buckets
      → add_instant_flow r e x y ≡ some s
      → share s t ≡ (
          if e == t
          then share r t +u64 c.amount x y
          else (if e % length r.buckets == t % length r.buckets then 0 else share r t))
  share-add r s e x y t h added =
      let (b, found, after) = slot-add r s e x y t h added in
      ground (arith, c.field-bump b x y, c.field-bump (reset b e) x y, c.field-reset b e)

  pub total-sum_buckets :
      (r : RingBuffer) (now i left : ℕ) (s s' : Totals) (n : ℕ)
      → 0 < length r.buckets
      → sum_buckets r now i left s ≡ some s'
      → c.total s ≡ u64 n
      → c.total s' ≡ u64 (n + sum_from (λ k. share r (now - k)) i left)
  total-sum_buckets r now i zero s s' n pos h e = unfold sum_buckets in ground arith
  total-sum_buckets r now i (suc left) s s' n pos h e =
      let (b, found, rest) = sum_buckets_step r now i left s pos in
      let ih =
        total-sum_buckets r now (i + 1) left (add_bucket (now - i) b s) s' (n + share r (now - i))
          pos (sym rest ∙ h)
          (ground (arith, c.total-add (now - i) b s, u64-add_left n (c.field b))) in
      omega (arith, ih)

-- Whether the slot of a second carries it: 1 or 0.
abbrev pub stamped : RingBuffer → ℕ → ℕ
stamped r t = share_of (λ b. 1) t (slot r t)

pub stamped-add :
    (r s : RingBuffer) (e x y t : ℕ)
    → 0 < length r.buckets
    → add_instant_flow r e x y ≡ some s
    → stamped s t ≡ (
        if e == t
        then 1
        else (if e % length r.buckets == t % length r.buckets then 0 else stamped r t))
stamped-add r s e x y t h added =
    let (b, found, after) = slot-add r s e x y t h added in ground arith

pub valid_buckets-sum_buckets :
    (r : RingBuffer) (now i left : ℕ) (s s' : Totals)
    → 0 < length r.buckets
    → sum_buckets r now i left s ≡ some s'
    → s'.valid_buckets ≡ s.valid_buckets + sum_from (λ k. stamped r (now - k)) i left
valid_buckets-sum_buckets r now i zero s s' pos h = unfold sum_buckets in ground arith
valid_buckets-sum_buckets r now i (suc left) s s' pos h =
    let (b, found, rest) = sum_buckets_step r now i left s pos in
    let ih =
      valid_buckets-sum_buckets r now (i + 1) left (add_bucket (now - i) b s) s' pos
        (sym rest ∙ h) in
    ground arith
