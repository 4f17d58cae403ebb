-- ===== src/Manager.antt =====
-- `AlertManager` of src/alert.rs: the alerts of a configuration, and one evaluation of them all.
pub mod Reload
pub mod Evaluate
pub mod Episodes
pub mod Notice
pub mod Script
use netalert.Prelude.{
  ℕ, suc, ◌+◌, String, String-discrete, List, [], ◌∷◌, ◌++◌, Option, none, some, ◌&&◌, Bool, true,
  false, ite,
}
use netalert.Config.{ProtocolCategory, ProtocolCategory-discrete, Direction, Direction-discrete}
use netalert.Alert.{
  AlertState, normal, pending, firing, recovering, AlertInstance, MetricType, MetricType-discrete,
  bps, pps, fps,
}
use netalert.Processor.Rates.{RateSnapshot}

pub record AlertManager (W : Type 0) : Type 0 where
  pub alerts : List (AlertInstance W)
  pub script_path : Option String

abbrev pub new : {W : Type 0} → Option String → AlertManager W
new script_path = record { alerts = []; script_path = script_path }

-- `(prefix, protocol, direction, metric)`
pub record AlertKey : Type 0 where
  pub prefix : String
  pub protocol : ProtocolCategory
  pub direction : Direction
  pub metric : MetricType

unfoldable pub AlertKey-discrete : Discrete AlertKey
AlertKey-discrete =
    hlevel (String-discrete, ProtocolCategory-discrete, Direction-discrete, MetricType-discrete)

abbrev pub key_of : {W : Type 0} → AlertInstance W → AlertKey
key_of a = record {
  prefix = a.prefix;
  protocol = a.protocol;
  direction = a.direction;
  metric = a.metric;
}

pub record AlertStateSnapshot : Type 0 where
  pub prefix : String
  pub protocol : ProtocolCategory
  pub direction : Direction
  pub metric : MetricType
  pub state : ℕ

abbrev pub state_number : AlertState → ℕ
state_number normal = 0
state_number (pending since) = 1
state_number (firing last_update) = 2
state_number (recovering since) = 3

unfoldable pub state_snapshots : {W : Type 0} → List (AlertInstance W) → List AlertStateSnapshot
state_snapshots [] = []
state_snapshots (a ∷ rest) =
    record {
      prefix = a.prefix;
      protocol = a.protocol;
      direction = a.direction;
      metric = a.metric;
      state = state_number a.state;
    }
    ∷ state_snapshots rest

abbrev pub rate_of : {W : Type 0} → MetricType → RateSnapshot W → W
rate_of bps s = s.bps
rate_of pps s = s.pps
rate_of fps s = s.fps

-- `find_rate`: the first snapshot of the key, or `zero`, which is 0.0.
unfoldable pub find_rate :
    {W : Type 0}
    → W
    → List (RateSnapshot W)
    → String
    → ProtocolCategory
    → Direction
    → MetricType
    → W
find_rate zero [] prefix protocol direction metric = zero
find_rate zero (s ∷ ss) prefix protocol direction metric =
    let rest = find_rate zero ss prefix protocol direction metric in
    ite (String-discrete s.prefix prefix)
      (ite (ProtocolCategory-discrete s.protocol protocol)
        (ite (Direction-discrete s.direction direction) (rate_of metric s) rest) rest)
      rest
