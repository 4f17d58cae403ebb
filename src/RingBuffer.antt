-- ===== src/RingBuffer.antt =====
-- src/ring_buffer.rs: a sliding window of one-second buckets. A method that changes `self` returns
-- the new buffer; `none` is a panic (`% 0`, or an index out of range).
pub mod Sums
pub mod History
pub mod Window
pub mod Exact
use netalert.Prelude.{
  ℕ, zero, suc, ◌+◌, ◌-◌, ◌%◌, List, Option, none, some, ◌>>=◌, ite, ℕ_discrete, ◌==◌,
  if◌then◌else◌, length, get_elem?, set, replicate, ◌+u64◌,
}
use netalert.Float.{Float}

pub record Bucket : Type 0 where
  pub timestamp : ℕ
  pub bytes : ℕ
  pub packets : ℕ
  pub flows : ℕ

-- `Bucket::default()`
abbrev pub empty_bucket : Bucket
empty_bucket = record { timestamp = 0; bytes = 0; packets = 0; flows = 0 }

abbrev pub reset : Bucket → ℕ → Bucket
reset b timestamp = record b { timestamp = timestamp; bytes = 0; packets = 0; flows = 0 }

pub record RingBuffer : Type 0 where
  pub buckets : List Bucket

unfoldable pub new : ℕ → RingBuffer
new window_secs = record { buckets = replicate window_secs empty_bucket }

-- The remainder by zero panics.
abbrev pub bucket_index : RingBuffer → ℕ → Option ℕ
bucket_index r timestamp =
    ite (ℕ_discrete (length r.buckets) 0) none (some (timestamp % length r.buckets))

-- The index stands for the `&mut Bucket`, which the caller writes through.
abbrev pub get_or_reset_bucket : RingBuffer → ℕ → Option (ℕ × Bucket)
get_or_reset_bucket r timestamp = do
  idx ← bucket_index r timestamp
  bucket ← get_elem? r.buckets idx
  some (idx, if bucket.timestamp == timestamp then bucket else reset bucket timestamp)

abbrev pub bump : Bucket → ℕ → ℕ → Bucket
bump bucket bytes packets = record bucket {
  bytes = bucket.bytes +u64 bytes;
  packets = bucket.packets +u64 packets;
  flows = bucket.flows +u64 1;
}

unfoldable pub add_instant_flow : RingBuffer → ℕ → ℕ → ℕ → Option RingBuffer
add_instant_flow r timestamp bytes packets = do
  (idx, bucket) ← get_or_reset_bucket r timestamp
  some (record { buckets = set r.buckets idx (bump bucket bytes packets) })

-- The four accumulators of `compute_rates`.
pub record Totals : Type 0 where
  pub total_bytes : ℕ
  pub total_packets : ℕ
  pub total_flows : ℕ
  pub valid_buckets : ℕ

abbrev pub no_totals : Totals
no_totals = record { total_bytes = 0; total_packets = 0; total_flows = 0; valid_buckets = 0 }

-- One round of the loop, at the time that it looks for.
abbrev pub add_bucket : ℕ → Bucket → Totals → Totals
add_bucket t bucket s =
    if bucket.timestamp == t
    then record {
      total_bytes = s.total_bytes +u64 bucket.bytes;
      total_packets = s.total_packets +u64 bucket.packets;
      total_flows = s.total_flows +u64 bucket.flows;
      valid_buckets = s.valid_buckets + 1;
    }
    else s

-- `for i in 0..window`, with the rounds that are left; `saturating_sub` is `-`.
unfoldable pub sum_buckets : RingBuffer → ℕ → ℕ → ℕ → Totals → Option Totals
sum_buckets r current_time i zero s = some s
sum_buckets r current_time i (suc left) s = do
  idx ← bucket_index r (current_time - i)
  bucket ← get_elem? r.buckets idx
  sum_buckets r current_time (i + 1) left (add_bucket (current_time - i) bucket s)

module _ {W : Type 0} ⦃f : Float W⦄ where
  -- The end of `compute_rates`: bits, packets and flows per second of the whole window.
  unfoldable pub rates_of_totals : ℕ → Totals → W × W × W
  rates_of_totals window s =
      if s.valid_buckets == 0 then (f.literal 0 1, f.literal 0 1, f.literal 0 1) else (
        f.div (f.mul (f.of_int s.total_bytes) (f.literal 80 1)) (f.of_int window),
        f.div (f.of_int s.total_packets) (f.of_int window),
        f.div (f.of_int s.total_flows) (f.of_int window),
      )

  unfoldable pub compute_rates : RingBuffer → ℕ → Option (W × W × W)
  compute_rates r current_time = do
    s ← sum_buckets r current_time 0 (length r.buckets) no_totals
    some (rates_of_totals (length r.buckets) s)
