-- ===== src/Daemon/Receivers.antt =====
-- The receivers of src/main.rs: `run_netflow_receiver`, `run_sflow_receiver` and the loop that they
-- share, over the outcomes of `bind` and of `AnyFlowReader::read`.
pub mod Laws
use netalert.Prelude.{
  ℕ, String, List, [], ◌∷◌, Option, some, ◌>>=◌, Bool, true, false, if◌then◌else◌,
}
use Prim.Native.String.{◌++◌}
use netalert.Flow.{CommonFlow, FlowRecord, from_common_flow}
use netalert.Prometheus.{show_u64}
use netalert.Daemon.{Daemon, Collector, netflow, sflow, count_received, receive}
use netalert.Daemon.Start.{Args}

-- `reader.read().await`
pub data Read : Type 0 where
  arrives : CommonFlow → Read
  read_fails : Read

-- A round of the loop: what is read, and whether the flow channel has been closed by then.
abbrev pub Round : Type 0
Round = Read × Bool

-- Where a receiver stands: it could not bind its address, it reads on, or it found the channel
-- closed and returned.
pub data ReceiverState : Type 0 where
  bind_failed reading stopped : ReceiverState

-- `format!("{}:{}", args.bind_addr, port)`
abbrev pub port_of : Collector → Args → ℕ
port_of netflow args = args.netflow_port
port_of sflow args = args.sflow_port

abbrev pub addr_of : Collector → Args → String
addr_of collector args = args.bind_addr ++ (":" ++ show_u64 (port_of collector args))

module _ {W Net Network Table : Type 0} where
  -- A flow that finds the channel closed is counted, and the loop returns.
  abbrev pub receive_closed :
      Collector
      → CommonFlow
      → Daemon W Net Network Table
      → Option (Daemon W Net Network Table × ReceiverState)
  receive_closed collector common_flow d = do
    flow ← from_common_flow common_flow
    some (record d { health = count_received collector d.health }, stopped)

  -- `none` is a panic.
  unfoldable pub run_receiver_loop :
      Collector
      → List Round
      → Daemon W Net Network Table
      → Option (Daemon W Net Network Table × ReceiverState)
  run_receiver_loop collector [] d = some (d, reading)
  run_receiver_loop collector ((read_fails, closed) ∷ rest) d = run_receiver_loop collector rest d
  run_receiver_loop collector ((arrives flow, true) ∷ rest) d = receive_closed collector flow d
  run_receiver_loop collector ((arrives flow, false) ∷ rest) d =
      receive collector flow d >>= run_receiver_loop collector rest

  unfoldable pub run_receiver :
      (String → Bool)
      → Collector
      → Args
      → List Round
      → Daemon W Net Network Table
      → Option (Daemon W Net Network Table × ReceiverState)
  run_receiver bind collector args rounds d =
      if bind (addr_of collector args)
      then run_receiver_loop collector rounds d
      else some (d, bind_failed)
