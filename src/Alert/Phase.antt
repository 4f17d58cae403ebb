-- ===== src/Alert/Phase.antt =====
-- The protocol that the alert script sees (src/alert.rs): what an outside observer may conclude
-- from the sequence of `trigger`, `update` and `resolve` calls of one alert.
use netalert.Prelude.{ℕ, ◌≡◌, List, [], ◌∷◌, Option, none, some, ◌>>=◌, Bool, true, false, arith}
use netalert.Float.{Float}
use netalert.Alert.{
  AlertState, normal, firing, recovering, AlertInstance, AlertAction, fire, update, resolve, Tick,
  advance, evaluate, evaluated, actions, emit,
}

-- The observer's automaton: whether a mitigation is up, `none` after a call out of turn.
abbrev pub observe : AlertAction → Bool → Option Bool
observe fire false = some true
observe update true = some true
observe resolve true = some false
observe _ _ = none

-- The actions are given newest first.
abbrev pub phase : List AlertAction → Option Bool
phase [] = some false
phase (action ∷ earlier) = phase earlier >>= observe action

-- The states in which the script has been told of the alert.
abbrev pub is_active : AlertState → Bool
is_active (firing last_update) = true
is_active (recovering since) = true
is_active _ = false

module _ {W : Type 0} ⦃f : Float W⦄ where
  advance-observe :
      (a : AlertInstance W) (s : AlertState) (rate : W) (now : ℕ) (earlier : List AlertAction)
      → phase earlier ≡ some (is_active s)
      → phase (emit (advance a s rate now).1 earlier) ≡ some (is_active (advance a s rate now).0)
  advance-observe a normal rate now earlier h = ground arith
  advance-observe a _ rate now earlier h = ground arith

  -- From `normal`, every history of evaluations calls the script in turn: `fire` only when no
  -- mitigation is up, `update` and `resolve` only when one is. And one is up exactly in the states
  -- `firing` and `recovering`.
  pub phase-actions :
      (a : AlertInstance W) (h : List (Tick W))
      → a.state ≡ normal
      → phase (actions a h) ≡ some (is_active (evaluated a h).state)
  unfolding actions evaluated evaluate
  phase-actions a [] start = rw start
  phase-actions a (k ∷ h) start =
      advance-observe (evaluated a h) (evaluated a h).state k.rate k.now (actions a h)
        (phase-actions a h start)
