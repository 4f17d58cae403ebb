-- ===== src/Processor/History.antt =====
-- The processor (src/processor.rs) against the history of the calls of it: what each ring buffer
-- holds after any series of flows and drains.
pub mod Steps
pub mod Laws
pub mod Total
use netalert.Prelude.{
  ℕ, zero, suc, ◌≤◌, ◌<◌, ◌≡◌, refl, sym, ap, subst, ◌∙◌, ◌⊎◌, inl, inr, List, [], ◌∷◌, Option,
  none, some, ◌>>=◌, >>=-eq-some, Bool, true, false, not, ◌&&◌, String, String-discrete, ite,
  if◌then◌else◌, arith, length, length-set, get_elem?, set, lt_of_get_elem?, get_elem?_total, count,
  Bool-cases, Option-cases,
}
use netalert.Prelude.Assoc.{find}
use netalert.Prelude.Results.{ok}
use netalert.Net.{IpNet, IpNetwork, NetworkTable, TableLaws}
use netalert.Flow.{IpAddr, FlowRecord, sampled_bytes, sampled_packets}
use netalert.RingBuffer.{RingBuffer}
use netalert.RingBuffer
use netalert.RingBuffer.History.{Sample, recorded}
use netalert.Config.{Config, Direction, Direction-discrete, inbound, outbound, classify}
use netalert.Config.Classify.{contains}
use netalert.Processor.{
  BufferKey, BufferKey-discrete, ProcessedRule, FlowProcessor, matching_rules, process_flow,
  distribute, updates_of, update_rule,
}
use netalert.Processor.Capture.{retain_other, drain_rules, drain_captured_flows}
use netalert.Processor.Reload.{reload_config, window_of}
use netalert.Processor.Reload.Table.{holds, count-matching_rules}
use netalert.Processor.Route.{route, routed, get_elem?-process_flow}
use netalert.Processor.Update.{add_flow, is_due, update_rule_lem}

-- What the daemon does with the processor between two reloads.
pub data Call : Type 0 where
  processes : FlowRecord → Call
  drains : String → Direction → Call

-- The processor after the calls, newest first.
abbrev pub called :
    {Net Network Table : Type 0} ⦃n : IpNet Net⦄ ⦃t : NetworkTable Table Network⦄
    → FlowProcessor Net Network Table
    → List Call
    → Option (FlowProcessor Net Network Table)
called p [] = some p
called p (processes flow ∷ h) = called p h >>= λ q. process_flow q flow
called p (drains prefix d ∷ h) = called p h >>= λ q. some (drain_captured_flows q prefix d).0

-- A flow goes in one direction if just its one end is inside.
abbrev pub crosses : Bool → Bool → Direction → Bool
crosses from_inside to_inside inbound = to_inside && not from_inside
crosses from_inside to_inside outbound = from_inside && not to_inside

-- Whether a flow counts for a key of a rule with this network.
abbrev pub concerns :
    {Network : Type 0} → (Network → IpAddr → Bool) → Network → BufferKey → FlowRecord → Bool
concerns includes network key flow =
    crosses (includes network flow.src_ip) (includes network flow.dst_ip) key.direction
    && contains (classify flow.protocol flow.tcp_flags flow.dst_port) key.protocol

abbrev pub sample_of : FlowRecord → Sample
sample_of flow = record {
  timestamp = flow.time_received;
  bytes = sampled_bytes flow;
  packets = sampled_packets flow;
}

-- The history of a key: the flows that count for it.
abbrev pub samples_of :
    {Network : Type 0} → (Network → IpAddr → Bool) → Network → BufferKey → List Call → List Sample
samples_of includes network key [] = []
samples_of includes network key (drains prefix d ∷ h) = samples_of includes network key h
samples_of includes network key (processes flow ∷ h) =
    let rest = samples_of includes network key h in
    if concerns includes network key flow then sample_of flow ∷ rest else rest
