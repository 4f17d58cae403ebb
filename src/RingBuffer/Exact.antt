-- ===== src/RingBuffer/Exact.antt =====
-- The 64-bit sums of `RingBuffer::compute_rates` (src/ring_buffer.rs) and their wrap.
use netalert.Prelude.{
  ℕ, ◌*◌, ◌^◌, ◌<◌, ◌≤◌, ◌≡◌, ◌∙◌, List, [], ◌∷◌, some, ◌>>=◌, ◌==◌, if◌then◌else◌, length, arith,
  All, All-of_Memᴰ,
}
use native.Mathlib.Nat.{suc-mul}
use netalert.Float.{Float}
use netalert.RingBuffer.{compute_rates}
use netalert.RingBuffer.Sums.{Counter, bytes_counter, packets_counter, flows_counter}
use netalert.RingBuffer.History.{Sample, recorded, amount_within, InOrder, NotAfter}
use netalert.RingBuffer.Window.{compute_rates-recorded}

amount_within-le :
    (c : Counter) (w now most : ℕ) (h : List Sample)
    → All (λ e. c.amount e.bytes e.packets ≤ most) h
    → amount_within c w now h ≤ length h * most
amount_within-le c w now most [] all = omega arith
amount_within-le c w now most (e ∷ h) all =
    rw (suc-mul (length h) most) (ground (arith, amount_within-le c w now most h all.1, all.0))

-- The rates of the last `w` seconds, with sums that do not wrap.
abbrev pub exact_rates : {W : Type 0} ⦃f : Float W⦄ → ℕ → ℕ → List Sample → W × W × W
exact_rates ⦃f⦄ w now h =
    if amount_within flows_counter w now h == 0
    then (f.literal 0 1, f.literal 0 1, f.literal 0 1)
    else (
      f.div (f.mul (f.of_int (amount_within bytes_counter w now h)) (f.literal 80 1)) (f.of_int w),
      f.div (f.of_int (amount_within packets_counter w now h)) (f.of_int w),
      f.div (f.of_int (amount_within flows_counter w now h)) (f.of_int w),
    )

module _ {W : Type 0} ⦃f : Float W⦄ where
  -- For a window `w` of at least a second, a clock that has run for `w` seconds (`w ≤ now`), and a
  -- history in which no flow is later than `now` and none arrived a whole window late: if some number
  -- of at least 1 bounds the bytes and the packets of every flow, and the number of flows times it is
  -- under 2 ^ 64, then no sum wraps, and a new buffer of `w` seconds that has recorded the history
  -- gives the rates of the true sums over the last `w` seconds.
  pub compute_rates_exact :
      (w now most : ℕ) (h : List Sample)
      → 0 < w
      → w ≤ now
      → NotAfter now h
      → InOrder w h
      → 1 ≤ most
      → All (λ e. e.bytes ≤ most) h
      → All (λ e. e.packets ≤ most) h
      → length h * most < 2 ^ 64
      → (recorded w h >>= λ r. compute_rates {W = W} r now) ≡ some (exact_rates w now h)
  compute_rates_exact w now most h pos le past order one bytes packets small =
      compute_rates-recorded w now h pos le past order
      ∙ ground (
        arith,
        amount_within-le bytes_counter w now most h bytes,
        amount_within-le packets_counter w now most h packets,
        amount_within-le flows_counter w now most h (All-of_Memᴰ (λ e. 1 ≤ most) h (λ e m. one)),
      )
