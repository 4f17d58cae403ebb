-- ===== src/Alert/Held.antt =====
-- Hysteresis of `AlertInstance::evaluate` (src/alert.rs): for how long a condition has held.
use netalert.Prelude.{
  ℕ, ◌-◌, ◌≤◌, ◌≡◌, refl, sym, List, [], ◌∷◌, some, true, false, arith, ◌∙◌, ◌⊎◌, inl, inr,
}
use netalert.Float.{Float, IsOrdered}
use netalert.Alert.{
  AlertState, normal, pending, firing, recovering, AlertInstance, fire, resolve, Tick, advance,
  evaluate, evaluated,
}

-- The rates of the last evaluations satisfied `P`, without a gap, from the one at `since` on.
pub data HeldSince {W : Type 0} (P : W → Type 0) (since : ℕ) : List (Tick W) → Type 0 where
  from : {k : Tick W} {h : List (Tick W)} → k.now ≡ since → P k.rate → HeldSince P since (k ∷ h)
  still :
      {k : Tick W} {h : List (Tick W)} → P k.rate → HeldSince P since h → HeldSince P since (k ∷ h)

module _ {W : Type 0} ⦃f : Float W⦄ where
  -- The state alone, for the thresholds of one alert.
  abbrev pub state_after : AlertInstance W → List (Tick W) → AlertState
  state_after a [] = a.state
  state_after a (k ∷ h) = (advance a (state_after a h) k.rate k.now).0

  -- An evaluation changes the state and nothing else.
  pub evaluated-eq-state_after :
      (a : AlertInstance W) (h : List (Tick W))
      → evaluated a h ≡ record a { state = state_after a h }
  unfolding evaluated evaluate
  evaluated-eq-state_after a [] = refl
  evaluated-eq-state_after a (k ∷ h) = rw (evaluated-eq-state_after a h)

  abbrev pub NotBelowTrigger : AlertInstance W → W → Type 0
  NotBelowTrigger a rate = f.lt rate a.trigger_threshold ≡ false

  abbrev pub BelowRecover : AlertInstance W → W → Type 0
  BelowRecover a rate = f.ge rate a.recover_threshold ≡ false

  -- How an evaluation comes to, or stays in, the two waiting states.
  pending_from :
      (a : AlertInstance W) (s : AlertState) (rate : W) (now t : ℕ)
      → (advance a s rate now).0 ≡ pending t
      → ((now ≡ t) × (f.ge rate a.trigger_threshold ≡ true))
        ⊎ ((s ≡ pending t) × NotBelowTrigger a rate)
  pending_from a normal rate now t e = ground arith
  pending_from a _ rate now t e = ground arith

  recovering_from :
      (a : AlertInstance W) (s : AlertState) (rate : W) (now t : ℕ)
      → (advance a s rate now).0 ≡ recovering t
      → ((now ≡ t) × (f.lt rate a.recover_threshold ≡ true))
        ⊎ ((s ≡ recovering t) × BelowRecover a rate)
  recovering_from a normal rate now t e = ground arith
  recovering_from a _ rate now t e = ground arith

  pending_held :
      (o : IsOrdered W) (a : AlertInstance W) (h : List (Tick W)) (t : ℕ)
      → a.state ≡ normal
      → state_after a h ≡ pending t
      → HeldSince (NotBelowTrigger a) t h
  pending_held o a [] t start e = absurd (cc)
  pending_held o a (k ∷ h) t start e = elim (pending_from a (state_after a h) k.rate k.now t e) [
    | inl (at, above) ↦ from at (o.not-lt_of_ge _ _ above)
    | inr (before, above) ↦ still above (pending_held o a h t start before)
  ]

  recovering_held :
      (o : IsOrdered W) (a : AlertInstance W) (h : List (Tick W)) (t : ℕ)
      → a.state ≡ normal
      → state_after a h ≡ recovering t
      → HeldSince (BelowRecover a) t h
  recovering_held o a [] t start e = absurd (cc)
  recovering_held o a (k ∷ h) t start e =
      elim (recovering_from a (state_after a h) k.rate k.now t e) [
        | inl (at, below) ↦ from at (o.not-ge_of_lt _ _ below)
        | inr (before, below) ↦ still below (recovering_held o a h t start before)
      ]

  -- When an evaluation asks for `fire`.
  fire_from :
      (a : AlertInstance W) (s : AlertState) (rate : W) (now : ℕ)
      → (advance a s rate now).1 ≡ some fire
      → (since : ℕ) × (s ≡ pending since) × NotBelowTrigger a rate × (a.trigger_for ≤ now - since)
  fire_from a normal rate now h = absurd (ground arith)
  fire_from a (pending since) rate now h = (since, ground arith, ground arith, ground arith)
  fire_from a (firing last_update) rate now h = absurd (ground arith)
  fire_from a (recovering since) rate now h = absurd (ground arith)

  resolve_from :
      (a : AlertInstance W) (s : AlertState) (rate : W) (now : ℕ)
      → (advance a s rate now).1 ≡ some resolve
      → (since : ℕ) × (s ≡ recovering since) × BelowRecover a rate × (a.recover_for ≤ now - since)
  resolve_from a normal rate now h = absurd (ground arith)
  resolve_from a (pending since) rate now h = absurd (ground arith)
  resolve_from a (firing last_update) rate now h = absurd (ground arith)
  resolve_from a (recovering since) rate now h = (since, ground arith, ground arith, ground arith)

  pub action_after :
      (a : AlertInstance W) (h : List (Tick W)) (rate : W) (now : ℕ)
      → (evaluate (evaluated a h) rate now).1 ≡ (advance a (state_after a h) rate now).1
  unfolding evaluate
  action_after a h rate now = rw (evaluated-eq-state_after a h)

  -- If an alert that started in `normal` fires, then the rate was not below the trigger threshold
  -- at this evaluation nor at any evaluation since some earlier one, which lies back at least
  -- `trigger_for`.
  pub evaluate-fire_held :
      (o : IsOrdered W) (a : AlertInstance W) (h : List (Tick W)) (rate : W) (now : ℕ)
      → a.state ≡ normal
      → (evaluate (evaluated a h) rate now).1 ≡ some fire
      → (since : ℕ) × (a.trigger_for ≤ now - since)
        × NotBelowTrigger a rate
        × HeldSince (NotBelowTrigger a) since h
  evaluate-fire_held o a h rate now start fired =
      let (since, at, above, long) =
        fire_from a (state_after a h) rate now (sym (action_after a h rate now) ∙ fired) in
      (since, long, above, pending_held o a h since start at)

  -- If an alert that started in `normal` resolves, then the rate was below the recover threshold
  -- at this evaluation and at every evaluation since some earlier one, which lies back at least
  -- `recover_for`.
  pub evaluate-resolve_held :
      (o : IsOrdered W) (a : AlertInstance W) (h : List (Tick W)) (rate : W) (now : ℕ)
      → a.state ≡ normal
      → (evaluate (evaluated a h) rate now).1 ≡ some resolve
      → (since : ℕ) × (a.recover_for ≤ now - since)
        × BelowRecover a rate
        × HeldSince (BelowRecover a) since h
  evaluate-resolve_held o a h rate now start resolved =
      let (since, at, below, long) =
        resolve_from a (state_after a h) rate now (sym (action_after a h rate now) ∙ resolved) in
      (since, long, below, recovering_held o a h since start at)
