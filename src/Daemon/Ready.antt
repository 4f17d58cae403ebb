-- ===== src/Daemon/Ready.antt =====
-- What one evaluation of the alerts (src/alert.rs) needs of the processor and keeps.
use netalert.Prelude.{ℕ, ◌+◌, List, [], ◌∷◌, Option, none, some, String}
use netalert.Prelude.Assoc.{find, put}
use netalert.Float.{Float}
use netalert.Net.{IpNet, NetworkTable}
use netalert.Flow.{IpAddr, FlowRecord}
use netalert.Processor.Capture.{drain_captured_flows}
use netalert.Processor.Rates.{RateSnapshot}
use netalert.Processor.Ready.{IsReady, drain_captured_flows-IsReady}
use netalert.Mitigation.Search.{Groups}
use netalert.Alert
use netalert.Alert.{AlertInstance, AlertAction, fire, update, resolve}
use netalert.Manager.{find_rate}
use netalert.Manager.Evaluate.{DrainKey, DrainKey-discrete, Loop, drain_once, act, evaluate_alerts}

module _ {Net Network Table : Type 0} ⦃n : IpNet Net⦄ ⦃t : NetworkTable Table Network⦄ where
  drained-IsReady :
      (s : Loop Net Network Table) (key : DrainKey) (o : Option (List FlowRecord))
      → IsReady s.processor
      → IsReady
          (elim o as (λ x. Loop Net Network Table × List FlowRecord) [
            | some flows ↦ (s, flows)
            | none ↦
                let (p, flows) = drain_captured_flows s.processor key.prefix key.direction in
                (
                  record s { processor = p; drained = put DrainKey-discrete key flows s.drained },
                  flows,
                )
          ]).0.processor
  drained-IsReady s key (some flows) h = h
  drained-IsReady s key none h = drain_captured_flows-IsReady s.processor key.prefix key.direction h

  drain_once-IsReady :
      (s : Loop Net Network Table) (key : DrainKey)
      → IsReady s.processor
      → IsReady (drain_once s key).0.processor
  unfolding drain_once
  drain_once-IsReady s key h = drained-IsReady s key (find DrainKey-discrete key s.drained) h

module _ {W Net Network Table : Type 0} ⦃f : Float W⦄ ⦃n : IpNet Net⦄
    ⦃t : NetworkTable Table Network⦄ (order : Groups → Groups) (show : IpAddr → String)
    (new_v4 : ℕ → ℕ) where
  act-IsReady :
      (o : Option AlertAction) (a : AlertInstance W) (rate : W) (s : Loop Net Network Table)
      → IsReady s.processor
      → IsReady (act order show new_v4 o a rate s).1.processor
  act-IsReady none a rate s h = h
  act-IsReady (some fire) a rate s h = drain_once-IsReady (record s { ids = s.ids + 1 }) _ h
  act-IsReady (some update) a rate s h = drain_once-IsReady s _ h
  act-IsReady (some resolve) a rate s h = h

  pub evaluate_alerts-IsReady :
      (snapshots : List (RateSnapshot W)) (now : ℕ) (alerts : List (AlertInstance W))
      (s : Loop Net Network Table)
      → IsReady s.processor
      → IsReady (evaluate_alerts order show new_v4 snapshots now alerts s).1.processor
  unfolding evaluate_alerts
  evaluate_alerts-IsReady snapshots now [] s h = h
  evaluate_alerts-IsReady snapshots now (a ∷ rest) s h =
      let rate = find_rate (f.literal 0 1) snapshots a.prefix a.protocol a.direction a.metric in
      let b = (Alert.evaluate a rate now).0 in
      let action = (Alert.evaluate a rate now).1 in
      evaluate_alerts-IsReady snapshots now rest (act order show new_v4 action b rate s).1
        (act-IsReady action b rate s h)
