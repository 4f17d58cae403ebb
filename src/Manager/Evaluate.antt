-- ===== src/Manager/Evaluate.antt =====
-- `AlertManager::evaluate` (src/alert.rs): one evaluation of all alerts against the rates, with the
-- captured flows of the processor. `new_v4` gives the random ids in the order in which they are
-- drawn, and `to_json` is the serializer.
pub mod Laws
use netalert.Prelude.{
  ℕ, suc, ◌+◌, String, String-discrete, List, [], ◌∷◌, ◌++◌, Option, none, some, Bool, true, false,
  ite, if◌then◌else◌,
}
use netalert.Prelude.Assoc.{find, put}
use netalert.Float.{Float}
use netalert.Net.{IpNet}
use netalert.Flow.{IpAddr, FlowRecord}
use netalert.Config.{ProtocolCategory, Direction, Direction-discrete, direction_name, category_name}
use netalert.Processor.{FlowProcessor}
use netalert.Processor.Capture.{drain_captured_flows}
use netalert.Processor.Rates.{RateSnapshot}
use netalert.Mitigation.{MitigationRule}
use netalert.Mitigation.Search.{Groups}
use netalert.Mitigation.Analyze.{analyze_flows}
use netalert.Alert
use netalert.Alert.{AlertInstance, AlertAction, fire, update, resolve, MetricType, bps, pps, fps}
use netalert.Manager.{AlertManager, find_rate}

pub record AlertPayload (W : Type 0) : Type 0 where
  pub alert_id : ℕ
  pub action : String
  pub prefix : String
  pub protocol : String
  pub direction : String
  pub metric : String
  pub value : W
  pub threshold : W
  pub labels : List (String × String)
  pub mitigation_rules : List MitigationRule

-- `strum::Display` of `MetricType`
unfoldable pub metric_name : MetricType → String
metric_name bps = "bps"
metric_name pps = "pps"
metric_name fps = "fps"

abbrev pub action_name : AlertAction → String
action_name fire = "trigger"
action_name update = "update"
action_name resolve = "resolve"

unfoldable pub build_payload :
    {W : Type 0} → AlertInstance W → W → String → List MitigationRule → AlertPayload W
build_payload a value action mitigation_rules = record {
  alert_id = a.alert_id;
  action = action;
  prefix = a.prefix;
  protocol = category_name a.protocol;
  direction = direction_name a.direction;
  metric = metric_name a.metric;
  value = value;
  threshold =
      ite (String-discrete action "trigger") a.trigger_threshold
        (ite (String-discrete action "update") a.trigger_threshold a.recover_threshold);
  labels = a.labels;
  mitigation_rules = mitigation_rules;
}

-- `(prefix, direction)`
pub record DrainKey : Type 0 where
  pub prefix : String
  pub direction : Direction

unfoldable pub DrainKey-discrete : Discrete DrainKey
DrainKey-discrete = hlevel (String-discrete, Direction-discrete)

abbrev pub drain_key : {W : Type 0} → AlertInstance W → DrainKey
drain_key a = record { prefix = a.prefix; direction = a.direction }

-- What the loop changes beside the alerts: the processor, the flows drained in this tick, and how
-- many ids have been drawn.
pub record Loop (Net Network Table : Type 0) : Type 0 where
  pub processor : FlowProcessor Net Network Table
  pub drained : List (DrainKey × List FlowRecord)
  pub ids : ℕ

module _ {Net Network Table : Type 0} ⦃n : IpNet Net⦄ where
  -- `drained.entry(key).or_insert_with(|| processor.drain_captured_flows(…))`
  unfoldable pub drain_once :
      Loop Net Network Table → DrainKey → Loop Net Network Table × List FlowRecord
  drain_once s key = elim (find DrainKey-discrete key s.drained) [
    | some flows ↦ (s, flows)
    | none ↦
        let (p, flows) = drain_captured_flows s.processor key.prefix key.direction in
        (record s { processor = p; drained = put DrainKey-discrete key flows s.drained }, flows)
  ]

module _ {W : Type 0} (Net : Type 0) ⦃f : Float W⦄ ⦃n : IpNet Net⦄ (order : Groups → Groups)
    (show : IpAddr → String) where
  -- The rules for the flows of an alert.
  unfoldable pub suggest : AlertInstance W → W → List FlowRecord → List MitigationRule
  suggest a rate [] = []
  suggest a rate (flow ∷ flows) = elim (n.parse a.prefix) [
    | none ↦ []
    | some prefix ↦
        analyze_flows order show (flow ∷ flows) prefix a.direction a.protocol rate
          a.trigger_threshold
  ]

-- The texts that the script is run with, if there is one.
abbrev pub script_calls :
    {W : Type 0}
    → (AlertPayload W → Option String)
    → Option String
    → List (AlertPayload W)
    → List (String × String)
script_calls to_json none payloads = []
script_calls to_json (some path) [] = []
script_calls to_json (some path) (p ∷ ps) =
    let rest = script_calls to_json (some path) ps in
    elim (to_json p) [ none ↦ rest | some json ↦ (path, json) ∷ rest ]

-- Fire takes a new id.
abbrev pub identify :
    {W : Type 0} → (ℕ → ℕ) → AlertAction → ℕ → AlertInstance W → AlertInstance W × ℕ
identify new_v4 fire ids a = (record a { alert_id = new_v4 ids }, ids + 1)
identify new_v4 _ ids a = (a, ids)

module _ {W Net Network Table : Type 0} ⦃f : Float W⦄ ⦃n : IpNet Net⦄ (order : Groups → Groups)
    (show : IpAddr → String) (new_v4 : ℕ → ℕ) where
  -- The mitigation rules of an action, which may drain the capture buffers.
  abbrev pub rules_for :
      AlertAction
      → AlertInstance W
      → W
      → Loop Net Network Table
      → Loop Net Network Table × List MitigationRule
  rules_for resolve a rate s = (s, [])
  rules_for _ a rate s =
      let (s', flows) = drain_once s (drain_key a) in (s', suggest Net order show a rate flows)

  -- The body of the loop after `alert.evaluate`.
  abbrev pub act :
      Option AlertAction
      → AlertInstance W
      → W
      → Loop Net Network Table
      → AlertInstance W × Loop Net Network Table × List (AlertPayload W)
  act none a rate s = (a, s, [])
  act (some action) a rate s =
      let (a', ids) = identify new_v4 action s.ids a in
      let (s', rules) = rules_for action a' rate (record s { ids = ids }) in
      (a', s', build_payload a' rate (action_name action) rules ∷ [])

  -- One round of the loop, at the rate of the alert.
  abbrev pub evaluate_alert :
      AlertInstance W
      → W
      → ℕ
      → Loop Net Network Table
      → AlertInstance W × Loop Net Network Table × List (AlertPayload W)
  evaluate_alert a rate now s = let (b, action) = Alert.evaluate a rate now in act action b rate s

  -- `for alert in &mut self.alerts`
  unfoldable pub evaluate_alerts :
      List (RateSnapshot W)
      → ℕ
      → List (AlertInstance W)
      → Loop Net Network Table
      → List (AlertInstance W) × Loop Net Network Table × List (AlertPayload W)
  evaluate_alerts snapshots now [] s = ([], s, [])
  evaluate_alerts snapshots now (a ∷ rest) s =
      let rate = find_rate (f.literal 0 1) snapshots a.prefix a.protocol a.direction a.metric in
      let (b', s', payloads) = evaluate_alert a rate now s in
      let (rest', s'', more) = evaluate_alerts snapshots now rest s' in
      (b' ∷ rest', s'', payloads ++ more)

  -- The manager, the processor and the count of ids after the tick; the payloads, and the calls of
  -- the script.
  unfoldable pub evaluate :
      (AlertPayload W → Option String)
      → AlertManager W
      → List (RateSnapshot W)
      → FlowProcessor Net Network Table
      → ℕ
      → ℕ
      → AlertManager W × Loop Net Network Table × List (AlertPayload W) × List (String × String)
  evaluate to_json m snapshots processor now ids =
      let (alerts, s, payloads) =
        evaluate_alerts snapshots now m.alerts
          (record { processor = processor; drained = []; ids = ids }) in
      (record m { alerts = alerts }, s, payloads, script_calls to_json m.script_path payloads)
