-- ===== src/Processor/Rates.antt =====
-- `FlowProcessor::compute_all_rates` (src/processor.rs).
use netalert.Prelude.{ℕ, String, List, [], ◌∷◌, ◌++◌, Option, some, ◌>>=◌}
use netalert.Float.{Float}
use netalert.Net.{IpNet}
use netalert.Config.{ProtocolCategory, Direction}
use netalert.RingBuffer
use netalert.RingBuffer.{RingBuffer}
use netalert.Processor.{BufferKey, ProcessedRule, FlowProcessor}

pub record RateSnapshot (W : Type 0) : Type 0 where
  pub prefix : String
  pub labels : List (String × String)
  pub protocol : ProtocolCategory
  pub direction : Direction
  pub bps : W
  pub pps : W
  pub fps : W

module _ {W Net Network : Type 0} ⦃f : Float W⦄ ⦃n : IpNet Net⦄ where
  -- The snapshots of one rule's buffers.
  unfoldable pub buffer_rates :
      ProcessedRule Net Network → ℕ → List (BufferKey × RingBuffer) → Option (List (RateSnapshot W))
  buffer_rates rule current_time [] = some []
  buffer_rates rule current_time ((key, buffer) ∷ bs) = do
    (bps, pps, fps) ← RingBuffer.compute_rates {W = W} buffer current_time
    rest ← buffer_rates rule current_time bs
    some (
        record {
          prefix = n.to_string rule.prefix;
          labels = rule.labels;
          protocol = key.protocol;
          direction = key.direction;
          bps = bps;
          pps = pps;
          fps = fps;
        }
        ∷ rest)

  unfoldable pub all_rates : List (ProcessedRule Net Network) → ℕ → Option (List (RateSnapshot W))
  all_rates [] current_time = some []
  all_rates (rule ∷ rules) current_time = do
    here ← buffer_rates rule current_time rule.buffers
    rest ← all_rates rules current_time
    some (here ++ rest)

module _ {W Net Network Table : Type 0} ⦃f : Float W⦄ ⦃n : IpNet Net⦄ where
  unfoldable pub compute_all_rates :
      FlowProcessor Net Network Table → ℕ → Option (List (RateSnapshot W))
  compute_all_rates p current_time = all_rates p.rules current_time
