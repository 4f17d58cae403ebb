-- ===== src/Daemon/Receivers/Laws.antt =====
-- The loop of a receiver (src/main.rs) and the steps of the daemon.
use netalert.Prelude.{
  ℕ, ◌≡◌, String, List, [], ◌∷◌, Option, none, some, ◌>>=◌, Bool, true, false, arith, All, map,
}
use netalert.Float.{Float}
use netalert.Net.{IpNet, IpNetwork, NetworkTable, TableLaws}
use netalert.Flow.{IpAddr}
use netalert.Mitigation.Search.{Groups}
use netalert.Manager.Evaluate.{AlertPayload}
use netalert.Daemon.{Daemon, Collector, receive, Event, on_receive, step, run}
use netalert.Daemon.Safety.{IsSound, HasTime, run_total}
use netalert.Daemon.Start.{Args}
use netalert.Daemon.Receivers.{
  Read, arrives, read_fails, Round, reading, addr_of, run_receiver_loop, run_receiver,
}

-- The steps for what was read.
abbrev pub steps_of : {W Net : Type 0} → Collector → List Read → List (Event W Net)
steps_of collector [] = []
steps_of collector (arrives flow ∷ rest) = on_receive collector flow ∷ steps_of collector rest
steps_of collector (read_fails ∷ rest) = steps_of collector rest

-- A round while the flow task lives, which holds the other end of the channel.
abbrev pub in_time : Read → Round
in_time read = (read, false)

-- Every flow that is read has a time.
abbrev pub IsStamped : Read → Type 0
IsStamped (arrives flow) = (ns : ℕ) × (flow.time_received_ns ≡ some ns)
IsStamped read_fails = Unit

steps_of-HasTime :
    (W Net : Type 0) (collector : Collector) (reads : List Read)
    → All IsStamped reads
    → All HasTime (steps_of {W = W} {Net = Net} collector reads)
steps_of-HasTime W Net collector [] h = tt
steps_of-HasTime W Net collector (arrives flow ∷ rest) h =
    (h.0, steps_of-HasTime W Net collector rest h.1)
steps_of-HasTime W Net collector (read_fails ∷ rest) h = steps_of-HasTime W Net collector rest h.1

module _ {W Net Network Table : Type 0} ⦃f : Float W⦄ ⦃n : IpNet Net⦄ ⦃w : IpNetwork Network⦄
    ⦃t : NetworkTable Table Network⦄ (order : Groups → Groups) (show : IpAddr → String)
    (new_v4 : ℕ → ℕ) (to_json : AlertPayload W → Option String) where
  run_receiver_loop-run :
      (collector : Collector) (reads : List Read) (d d' : Daemon W Net Network Table)
      → run order show new_v4 to_json (steps_of collector reads) d ≡ some d'
      → run_receiver_loop collector (map in_time reads) d ≡ some (d', reading)
  unfolding run_receiver_loop run step
  run_receiver_loop-run collector [] d d' h = ground (arith, h)
  run_receiver_loop-run collector (read_fails ∷ rest) d d' h =
      run_receiver_loop-run collector rest d d' h
  run_receiver_loop-run collector (arrives flow ∷ rest) d d' h =
      go (receive collector flow d) (λ e. run_receiver_loop-run collector rest e d') h
    where
      go :
          (o : Option (Daemon W Net Network Table))
          → ((e : Daemon W Net Network Table)
              → run order show new_v4 to_json (steps_of collector rest) e ≡ some d'
              → run_receiver_loop collector (map in_time rest) e ≡ some (d', reading))
          → (o >>= run order show new_v4 to_json (steps_of collector rest)) ≡ some d'
          → (o >>= run_receiver_loop collector (map in_time rest)) ≡ some (d', reading)
      go none later h = absurd (cc)
      go (some e) later h = later e h

module _ {W Net Network Table : Type 0} ⦃f : Float W⦄ ⦃n : IpNet Net⦄ ⦃w : IpNetwork Network⦄
    ⦃t : NetworkTable Table Network⦄ (order : Groups → Groups) (show : IpAddr → String)
    (new_v4 : ℕ → ℕ) (to_json : AlertPayload W → Option String) (dec : Discrete Network)
    (contains : Network → IpAddr → Bool) (laws : TableLaws t dec contains) where
  -- A receiver never stops by itself. If it can bind its address, the daemon is sound, the collector
  -- stamps every flow with a time, and the flow task lives, so that the channel is open, then
  -- whatever is read the receiver does not panic and reads on; it has done the receive steps for
  -- the flows that it read, in order, and nothing for the reads that failed; and the daemon is sound.
  pub run_receiver-reading :
      (bind : String → Bool) (collector : Collector) (args : Args) (reads : List Read)
      (d : Daemon W Net Network Table)
      → bind (addr_of collector args) ≡ true
      → All IsStamped reads
      → IsSound d
      → (d' : Daemon W Net Network Table) × (run_receiver bind collector args (map in_time reads) d
          ≡ some (d', reading))
        × (run order show new_v4 to_json (steps_of collector reads) d ≡ some d')
        × IsSound d'
  unfolding run_receiver
  run_receiver-reading bind collector args reads d bound stamped sound =
      let (d', done, sound') =
        run_total order show new_v4 to_json dec contains laws (steps_of collector reads) d
          (steps_of-HasTime W Net collector reads stamped) sound in
      (
        d',
        rw bound (run_receiver_loop-run order show new_v4 to_json collector reads d d' done),
        done,
        sound',
      )
