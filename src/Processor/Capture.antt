-- ===== src/Processor/Capture.antt =====
-- `FlowProcessor::drain_captured_flows` (src/processor.rs).
pub mod Laws
use netalert.Prelude.{ℕ, String, String-discrete, List, [], ◌∷◌, ◌++◌, ite}
use netalert.Net.{IpNet}
use netalert.Flow.{FlowRecord}
use netalert.Config.{Direction, Direction-discrete}
use netalert.Processor.{CapturedFlow, ProcessedRule, FlowProcessor}

-- The flows of one direction, and the buffer without them.
abbrev pub flows_towards : Direction → List CapturedFlow → List FlowRecord
flows_towards direction [] = []
flows_towards direction (c ∷ cs) =
    let rest = flows_towards direction cs in
    ite (Direction-discrete c.direction direction) (c.flow ∷ rest) rest

abbrev pub retain_other : Direction → List CapturedFlow → List CapturedFlow
retain_other direction [] = []
retain_other direction (c ∷ cs) =
    let rest = retain_other direction cs in
    ite (Direction-discrete c.direction direction) rest (c ∷ rest)

module _ {Net Network : Type 0} ⦃n : IpNet Net⦄ where
  -- The loop of `drain_captured_flows`: the flows, and the rules without them.
  unfoldable pub drain_rules :
      String
      → Direction
      → List (ProcessedRule Net Network)
      → List FlowRecord × List (ProcessedRule Net Network)
  drain_rules prefix direction [] = ([], [])
  drain_rules prefix direction (r ∷ rs) =
      let (flows, rest) = drain_rules prefix direction rs in
      ite (String-discrete (n.to_string r.prefix) prefix)
        (
          flows_towards direction r.capture_buffer ++ flows,
          record r { capture_buffer = retain_other direction r.capture_buffer } ∷ rest,
        )
        (flows, r ∷ rest)

module _ {Net Network Table : Type 0} ⦃n : IpNet Net⦄ where
  unfoldable pub drain_captured_flows :
      FlowProcessor Net Network Table
      → String
      → Direction
      → FlowProcessor Net Network Table × List FlowRecord
  drain_captured_flows p prefix direction =
      let (flows, rules) = drain_rules prefix direction p.rules in
      (record p { rules = rules }, flows)
