-- ===== src/Examples/Buffers.antt =====
-- The ring buffer at concrete histories.
use netalert.Prelude.{ℕ, ◌≡◌, refl, arith, List, [], ◌∷◌, some, ◌>>=◌}
use netalert.Float.{thousandths}
use netalert.RingBuffer.{compute_rates}
use netalert.RingBuffer.History.{Sample, recorded}
use netalert.RingBuffer.Window.{rates_within, compute_rates-recorded}
use netalert.RingBuffer.Exact.{exact_rates, compute_rates_exact}

-- Three flows in a window of 4 seconds, newest first; the second one arrived late, and the oldest
-- shares the slot of the newest.
abbrev arrivals : List Sample
arrivals =
    record { timestamp = 104; bytes = 1000; packets = 10 }
    ∷ record { timestamp = 102; bytes = 500; packets = 5 }
    ∷ record { timestamp = 103; bytes = 20; packets = 2 }
    ∷ record { timestamp = 100; bytes = 7; packets = 1 }
    ∷ []

compute_rates-recorded_example :
    (recorded 4 arrivals >>= λ r. compute_rates {W = ℕ} r 105) ≡ some (rates_within 4 105 arrivals)
compute_rates-recorded_example =
    compute_rates-recorded 4 105 arrivals (omega arith) (omega arith) (ground arith) (ground arith)

compute_rates_exact_example :
    (recorded 4 arrivals >>= λ r. compute_rates {W = ℕ} r 105) ≡ some (exact_rates 4 105 arrivals)
compute_rates_exact_example =
    compute_rates_exact 4 105 1_000 arrivals (omega arith) (omega arith) (ground arith)
      (ground arith) (omega arith) (ground arith) (ground arith) (omega arith)

-- 1,520 bytes and 17 packets of 3 flows.
rates_arrivals : rates_within {W = ℕ} 4 105 arrivals ≡ (3_040_000, 4_250, 750)
rates_arrivals = refl
