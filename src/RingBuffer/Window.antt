-- ===== src/RingBuffer/Window.antt =====
-- `RingBuffer::compute_rates` (src/ring_buffer.rs) against the history of the flows added.
use netalert.Prelude.{
  ℕ, zero, suc, ◌+◌, ◌-◌, ◌<◌, ◌≤◌, ◌≡◌, refl, ap, List, [], ◌∷◌, some, ◌>>=◌, ◌==◌, ltb, leb, ◌&&◌,
  if◌then◌else◌, length, u64, arith,
}
use netalert.Float.{Float}
use netalert.RingBuffer.{RingBuffer, Totals, no_totals, sum_buckets, rates_of_totals, compute_rates}
use netalert.RingBuffer.Sums.{
  Counter, bytes_counter, packets_counter, flows_counter, share, stamped, sum_from,
  total-sum_buckets, valid_buckets-sum_buckets, sum_buckets_total,
}
use netalert.RingBuffer.History.{
  Sample, recorded, recorded_total, amount_at, amount_within, InOrder, NotAfter, share-recorded,
  stamped-recorded,
}

sum_from-add :
    (f g : ℕ → ℕ) (i n : ℕ) → sum_from (λ k. f k + g k) i n ≡ sum_from f i n + sum_from g i n
sum_from-add f g i zero = refl
sum_from-add f g i (suc n) = omega (arith, sum_from-add f g (i + 1) n)

-- One flow is met at one second of the window, if it lies there.
sum_from_point :
    (now t a i n : ℕ)
    → t ≤ now
    → i + n ≤ now
    → sum_from (λ k. if t == now - k then a else 0) i n
      ≡ (if leb i (now - t) && ltb (now - t) (i + n) then a else 0)
sum_from_point now t a i zero le fits = ground arith
sum_from_point now t a i (suc n) le fits =
    ground (arith, sum_from_point now t a (i + 1) n le (omega arith))

sum_from-u64 :
    (f g : ℕ → ℕ) (now i n : ℕ)
    → i + n ≤ now
    → ((k : ℕ) → k < now → i ≤ k → k < i + n → f k ≡ u64 (g k))
    → u64 (sum_from f i n) ≡ u64 (sum_from g i n)
sum_from-u64 f g now i zero fits h = refl
sum_from-u64 f g now i (suc n) fits h = omega (
  arith,
  h i (omega arith) (omega arith) (omega arith),
  sum_from-u64 f g now (i + 1) n (omega arith) (λ k a b c. h k a (omega arith) (omega arith)),
)

sum_from-eq-zero :
    (f g : ℕ → ℕ) (i n : ℕ)
    → ((k : ℕ) → i ≤ k → k < i + n → f k ≡ (if g k == 0 then 0 else 1))
    → (sum_from f i n == 0) ≡ (sum_from g i n == 0)
sum_from-eq-zero f g i zero h = refl
sum_from-eq-zero f g i (suc n) h = ground (
  arith,
  h i (omega arith) (omega arith),
  sum_from-eq-zero f g (i + 1) n (λ k a b. h k (omega arith) (omega arith)),
)

-- Second by second or flow by flow, the window holds the same.
amount_within-sum_from :
    (c : Counter) (w now : ℕ) (h : List Sample)
    → w ≤ now
    → NotAfter now h
    → sum_from (λ k. amount_at c (now - k) h) 0 w ≡ amount_within c w now h
amount_within-sum_from c w now [] le past = zeros 0 w
  where
    zeros : (i n : ℕ) → sum_from (λ k. 0) i n ≡ 0
    zeros i zero = refl
    zeros i (suc n) = omega (arith, zeros (i + 1) n)
amount_within-sum_from c w now (e ∷ h) le past =
    let a : ℕ = c.amount e.bytes e.packets in
    ground (
      arith,
      sum_from-add (λ k. if e.timestamp == now - k then a else 0) (λ k. amount_at c (now - k) h) 0
          w,
      sum_from_point now e.timestamp a 0 w,
      amount_within-sum_from c w now h,
    )

-- The rates that the history promises: bits, packets and flows of the last `w` seconds, over `w`.
abbrev pub rates_within : {W : Type 0} ⦃f : Float W⦄ → ℕ → ℕ → List Sample → W × W × W
rates_within ⦃f⦄ w now h =
    if amount_within flows_counter w now h == 0
    then (f.literal 0 1, f.literal 0 1, f.literal 0 1)
    else (
      f.div (f.mul (f.of_int (u64 (amount_within bytes_counter w now h))) (f.literal 80 1))
          (f.of_int w),
      f.div (f.of_int (u64 (amount_within packets_counter w now h))) (f.of_int w),
      f.div (f.of_int (u64 (amount_within flows_counter w now h))) (f.of_int w),
    )

module _ (w now : ℕ) (h : List Sample) (pos : 0 < w) (le : w ≤ now) (past : NotAfter now h)
    (order : InOrder w h) (r : RingBuffer) (done : recorded w h ≡ some r)
    (len : length r.buckets ≡ w) (s : Totals)
    (summed : sum_buckets r now 0 (length r.buckets) no_totals ≡ some s) where
  total-within : (c : Counter) → c.total no_totals ≡ 0 → c.total s ≡ u64 (amount_within c w now h)
  total-within c start = omega (
    arith,
    total-sum_buckets c r now 0 (length r.buckets) no_totals s 0 (omega arith) summed (omega arith),
    sum_from-u64 (λ k. share c r (now - k)) (λ k. amount_at c (now - k) h) now 0 w (omega arith)
        (λ k a b d. share-recorded c w now (now - k) h r pos (omega arith) past order done),
    amount_within-sum_from c w now h le past,
    ap (sum_from (λ k. share c r (now - k)) 0) len,
  )

  valid-within : (s.valid_buckets == 0) ≡ (amount_within flows_counter w now h == 0)
  valid-within = ground (
    arith,
    valid_buckets-sum_buckets r now 0 (length r.buckets) no_totals s (omega arith) summed,
    sum_from-eq-zero (λ k. stamped r (now - k)) (λ k. amount_at flows_counter (now - k) h) 0 w
        (λ k a b.
          stamped-recorded w now (now - k) h r pos (omega arith) (omega arith) past order done),
    amount_within-sum_from flows_counter w now h le past,
    ap (sum_from (λ k. stamped r (now - k)) 0) len,
  )

module _ {W : Type 0} ⦃f : Float W⦄ where
  -- For a window `w` of at least a second, a clock that has run for `w` seconds, and a history in
  -- which no flow lies after `now` and none arrived a whole window late: a new buffer of `w` seconds
  -- records the history without a panic, and `compute_rates` then gives the 64-bit sums of bytes
  -- (times 8), packets and flows whose timestamp lies in the last `w` seconds, each divided by `w`,
  -- and three zeros if there is none.
  pub compute_rates-recorded :
      (w now : ℕ) (h : List Sample)
      → 0 < w
      → w ≤ now
      → NotAfter now h
      → InOrder w h
      → (recorded w h >>= λ r. compute_rates {W = W} r now) ≡ some (rates_within w now h)
  unfolding compute_rates rates_of_totals
  compute_rates-recorded w now h pos le past order =
      let (r, done, len) = recorded_total w h pos in
      let (s, summed) = sum_buckets_total r now 0 (length r.buckets) no_totals (omega arith) in
      rw (done, summed)
        (ground (
          arith,
          len,
          valid-within w now h pos le past order r done len s summed,
          total-within w now h pos le past order r done len s summed bytes_counter refl,
          total-within w now h pos le past order r done len s summed packets_counter refl,
          total-within w now h pos le past order r done len s summed flows_counter refl,
        ))
