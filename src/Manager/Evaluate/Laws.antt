-- ===== src/Manager/Evaluate/Laws.antt =====
-- One evaluation of all alerts (src/alert.rs) against an evaluation that drains no capture buffer.
use netalert.Prelude.{ℕ, String, List, [], ◌∷◌, ◌++◌, Option, none, some}
use netalert.Prelude.Assoc.{find}
use netalert.Float.{Float}
use netalert.Net.{IpNet}
use netalert.Flow.{IpAddr, FlowRecord}
use netalert.Processor.{FlowProcessor}
use netalert.Processor.Capture.{drain_captured_flows}
use netalert.Processor.Rates.{RateSnapshot}
use netalert.Mitigation.{MitigationRule}
use netalert.Mitigation.Search.{Groups}
use netalert.Alert
use netalert.Alert.{AlertInstance, AlertAction, resolve}
use netalert.Manager.{find_rate}
use netalert.Manager.Evaluate.{
  AlertPayload, DrainKey, DrainKey-discrete, drain_key, Loop, suggest, identify, build_payload,
  action_name, evaluate,
}

module _ {Net Network Table : Type 0} ⦃n : IpNet Net⦄ where
  -- The flows of a key that the processor has captured.
  abbrev pub captured : FlowProcessor Net Network Table → DrainKey → List FlowRecord
  captured p key = (drain_captured_flows p key.prefix key.direction).1

  -- The flows that the loop would give an alert of this key.
  abbrev available : Loop Net Network Table → DrainKey → List FlowRecord
  available s key = elim (find DrainKey-discrete key s.drained) [
    | none ↦ captured s.processor key
    | some flows ↦ flows
  ]

module _ {W Net Network Table : Type 0} ⦃f : Float W⦄ ⦃n : IpNet Net⦄ (order : Groups → Groups)
    (show : IpAddr → String) (new_v4 : ℕ → ℕ) where
  -- An evaluation that looks at the capture buffers, and empties none.
  abbrev pub peek :
      FlowProcessor Net Network Table → AlertAction → AlertInstance W → W → List MitigationRule
  peek p resolve a rate = []
  peek p _ a rate = suggest Net order show a rate (captured p (drain_key a))

  abbrev pub act_by_peeking :
      FlowProcessor Net Network Table
      → Option AlertAction
      → AlertInstance W
      → W
      → ℕ
      → AlertInstance W × ℕ × List (AlertPayload W)
  act_by_peeking p none a rate ids = (a, ids, [])
  act_by_peeking p (some action) a rate ids =
      let (a', ids') = identify new_v4 action ids a in
      (a', ids', build_payload a' rate (action_name action) (peek p action a' rate) ∷ [])

  unfoldable pub evaluate_by_peeking :
      FlowProcessor Net Network Table
      → List (RateSnapshot W)
      → ℕ
      → List (AlertInstance W)
      → ℕ
      → List (AlertInstance W) × ℕ × List (AlertPayload W)
  evaluate_by_peeking p snapshots now [] ids = ([], ids, [])
  evaluate_by_peeking p snapshots now (a ∷ rest) ids =
      let rate = find_rate (f.literal 0 1) snapshots a.prefix a.protocol a.direction a.metric in
      let (b, action) = Alert.evaluate a rate now in
      let (b', ids', payloads) = act_by_peeking p action b rate ids in
      let (rest', ids'', more) = evaluate_by_peeking p snapshots now rest ids' in
      (b' ∷ rest', ids'', payloads ++ more)
