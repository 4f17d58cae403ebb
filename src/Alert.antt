-- ===== src/Alert.antt =====
-- The alert instances of src/alert.rs: the state machine of one alert. `Instant`s and `Duration`s
-- are nanoseconds, and `duration_since` stops at 0, as it does in std. An id is the 128 bits of the
-- `Uuid`.
pub mod Held
pub mod Phase
pub mod Response
use netalert.Prelude.{
  ℕ, ◌-◌, String, List, [], ◌∷◌, Option, none, some, Bool, true, false, if◌then◌else◌, leb,
}
use netalert.Float.{Float}
use netalert.Config.{ProtocolCategory, Direction}

pub data AlertState : Type 0 where
  normal : AlertState
  pending : ℕ → AlertState
  firing : ℕ → AlertState
  recovering : ℕ → AlertState

pub data MetricType : Type 0 where
  bps pps fps : MetricType

unfoldable pub MetricType-discrete : Discrete MetricType
MetricType-discrete = hlevel

pub record AlertInstance (W : Type 0) : Type 0 where
  pub state : AlertState
  pub alert_id : ℕ
  pub prefix : String
  pub protocol : ProtocolCategory
  pub direction : Direction
  pub metric : MetricType
  pub trigger_threshold : W
  pub recover_threshold : W
  pub trigger_for : ℕ
  pub recover_for : ℕ
  pub mitigation_update_interval : ℕ
  pub labels : List (String × String)

pub data AlertAction : Type 0 where
  fire update resolve : AlertAction

-- `now.duration_since(earlier) >= limit`
abbrev pub elapsed : ℕ → ℕ → ℕ → Bool
elapsed now earlier limit = leb limit (now - earlier)

module _ {W : Type 0} ⦃f : Float W⦄ where
  -- The `match` of `AlertInstance::evaluate`: the next state and the action.
  abbrev pub advance : AlertInstance W → AlertState → W → ℕ → AlertState × Option AlertAction
  advance a normal rate now = (if f.ge rate a.trigger_threshold then pending now else normal, none)
  advance a (pending since) rate now =
      if f.lt rate a.trigger_threshold
      then (normal, none)
      else if elapsed now since a.trigger_for
      then (firing now, some fire)
      else (pending since, none)
  advance a (firing last_update) rate now =
      if f.lt rate a.recover_threshold
      then (recovering now, none)
      else if elapsed now last_update a.mitigation_update_interval
      then (firing now, some update)
      else (firing last_update, none)
  advance a (recovering since) rate now =
      if f.ge rate a.recover_threshold
      then (firing now, none)
      else if elapsed now since a.recover_for
      then (normal, some resolve)
      else (recovering since, none)

  unfoldable pub evaluate : AlertInstance W → W → ℕ → AlertInstance W × Option AlertAction
  evaluate a current_rate now =
      let (s, action) = advance a a.state current_rate now in (record a { state = s }, action)

-- What an evaluation adds to the actions before it.
abbrev pub emit : Option AlertAction → List AlertAction → List AlertAction
emit none actions = actions
emit (some action) actions = action ∷ actions

-- One evaluation: the rate that was measured, and when.
pub record Tick (W : Type 0) : Type 0 where
  pub rate : W
  pub now : ℕ

module _ {W : Type 0} ⦃f : Float W⦄ where
  -- An alert after a history of evaluations, newest first.
  unfoldable pub evaluated : AlertInstance W → List (Tick W) → AlertInstance W
  evaluated a [] = a
  evaluated a (k ∷ h) = (evaluate (evaluated a h) k.rate k.now).0

  -- The actions that the history called for, newest first.
  unfoldable pub actions : AlertInstance W → List (Tick W) → List AlertAction
  actions a [] = []
  actions a (k ∷ h) = emit (evaluate (evaluated a h) k.rate k.now).1 (actions a h)
