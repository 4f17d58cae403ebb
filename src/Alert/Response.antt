-- ===== src/Alert/Response.antt =====
-- How soon `AlertInstance::evaluate` (src/alert.rs) answers a rate that stays high or low.
use netalert.Prelude.{
  ℕ, ◌-◌, ◌≤◌, ◌≡◌, refl, List, [], ◌∷◌, Option, none, some, true, arith, All, Memᴰ, ◌∙◌, ◌⊎◌, inl,
  inr,
}
use netalert.Float.{Float, IsOrdered}
use netalert.Alert.{
  AlertState, normal, pending, firing, recovering, AlertInstance, AlertAction, fire, resolve, Tick,
  advance, evaluate, evaluated, actions, emit,
}
use netalert.Alert.Held.{state_after, action_after}

-- The time of the first evaluation, or `now` if there was none.
abbrev pub first : {W : Type 0} → ℕ → List (Tick W) → ℕ
first now [] = now
first now (k ∷ h) = first k.now h

module _ {W : Type 0} ⦃f : Float W⦄ where
  abbrev pub AtTrigger : AlertInstance W → W → Type 0
  AtTrigger a rate = f.ge rate a.trigger_threshold ≡ true

  abbrev pub BelowRecovery : AlertInstance W → W → Type 0
  BelowRecovery a rate = f.lt rate a.recover_threshold ≡ true

  emitted :
      (a : AlertInstance W) (k : Tick W) (h : List (Tick W)) (action : AlertAction)
      → (advance a (state_after a h) k.rate k.now).1 ≡ some action
      → Memᴰ action (actions a (k ∷ h))
  unfolding actions
  emitted a k h action e = rw (action_after a h k.rate k.now ∙ e) (Memᴰ.head refl)

  emitted_before :
      (a : AlertInstance W) (k : Tick W) (h : List (Tick W)) (action : AlertAction)
      → Memᴰ action (actions a h)
      → Memᴰ action (actions a (k ∷ h))
  unfolding actions
  emitted_before a k h action m = later (evaluate (evaluated a h) k.rate k.now).1
    where
      later : (o : Option AlertAction) → Memᴰ action (emit o (actions a h))
      later none = m
      later (some b) = Memᴰ.tail m

  -- One evaluation of a high rate, before the alert has fired.
  advance-pending :
      (o : IsOrdered W) (a : AlertInstance W) (s : AlertState) (t : ℕ) (rate : W) (now : ℕ)
      → s ≡ pending t
      → AtTrigger a rate
      → ((advance a s rate now).0 ≡ pending t) ⊎ ((advance a s rate now).1 ≡ some fire)
  advance-pending o a s t rate now e high =
      ground (arith, o.not-lt_of_ge rate a.trigger_threshold high)

  fires_at :
      (o : IsOrdered W) (a : AlertInstance W) (s : AlertState) (t : ℕ) (rate : W) (now : ℕ)
      → s ≡ pending t
      → AtTrigger a rate
      → a.trigger_for ≤ now - t
      → (advance a s rate now).1 ≡ some fire
  fires_at o a s t rate now e high long =
      ground (arith, o.not-lt_of_ge rate a.trigger_threshold high)

  waiting :
      (o : IsOrdered W) (a : AlertInstance W) (k : Tick W) (h : List (Tick W))
      → a.state ≡ normal
      → All (λ j. AtTrigger a j.rate) (k ∷ h)
      → (state_after a (k ∷ h) ≡ pending (first k.now h)) ⊎ Memᴰ fire (actions a (k ∷ h))
  waiting o a k [] start high = inl (rw (start, high.0))
  waiting o a k (j ∷ h) start high = elim (waiting o a j h start high.1) [
    | inr m ↦ inr (emitted_before a k (j ∷ h) fire m)
    | inl e ↦
        elim (advance-pending o a (state_after a (j ∷ h)) (first j.now h) k.rate k.now e high.0) [
          | inl s ↦ inl s
          | inr m ↦ inr (emitted a k (j ∷ h) fire m)
        ]
  ]

  -- If an alert starts in `normal` and the rate reaches the trigger threshold at every evaluation,
  -- then it has fired by the first evaluation after the first one that comes at least
  -- `trigger_for` later.
  pub fires_in_time :
      (o : IsOrdered W) (a : AlertInstance W) (k j : Tick W) (h : List (Tick W))
      → a.state ≡ normal
      → All (λ i. AtTrigger a i.rate) (k ∷ j ∷ h)
      → a.trigger_for ≤ k.now - first j.now h
      → Memᴰ fire (actions a (k ∷ j ∷ h))
  fires_in_time o a k j h start high long = elim (waiting o a j h start high.1) [
    | inr m ↦ emitted_before a k (j ∷ h) fire m
    | inl e ↦
        emitted a k (j ∷ h) fire
          (fires_at o a (state_after a (j ∷ h)) (first j.now h) k.rate k.now e high.0 long)
  ]

  -- The same for a rate that stays low once the alert is firing.
  advance-recovering :
      (o : IsOrdered W) (a : AlertInstance W) (s : AlertState) (t : ℕ) (rate : W) (now : ℕ)
      → s ≡ recovering t
      → BelowRecovery a rate
      → ((advance a s rate now).0 ≡ recovering t) ⊎ ((advance a s rate now).1 ≡ some resolve)
  advance-recovering o a s t rate now e low =
      ground (arith, o.not-ge_of_lt rate a.recover_threshold low)

  resolves_at :
      (o : IsOrdered W) (a : AlertInstance W) (s : AlertState) (t : ℕ) (rate : W) (now : ℕ)
      → s ≡ recovering t
      → BelowRecovery a rate
      → a.recover_for ≤ now - t
      → (advance a s rate now).1 ≡ some resolve
  resolves_at o a s t rate now e low long =
      ground (arith, o.not-ge_of_lt rate a.recover_threshold low)

  subsiding :
      (o : IsOrdered W) (a : AlertInstance W) (u : ℕ) (k : Tick W) (h : List (Tick W))
      → a.state ≡ firing u
      → All (λ j. BelowRecovery a j.rate) (k ∷ h)
      → (state_after a (k ∷ h) ≡ recovering (first k.now h)) ⊎ Memᴰ resolve (actions a (k ∷ h))
  subsiding o a u k [] start low = inl (ground arith)
  subsiding o a u k (j ∷ h) start low = elim (subsiding o a u j h start low.1) [
    | inr m ↦ inr (emitted_before a k (j ∷ h) resolve m)
    | inl e ↦
        elim (advance-recovering o a (state_after a (j ∷ h)) (first j.now h) k.rate k.now e low.0) [
          | inl s ↦ inl s
          | inr m ↦ inr (emitted a k (j ∷ h) resolve m)
        ]
  ]

  -- If an alert is firing and the rate is below the recover threshold at every evaluation, then it
  -- has resolved by the first evaluation after the first one that comes at least `recover_for`
  -- later.
  pub resolves_in_time :
      (o : IsOrdered W) (a : AlertInstance W) (u : ℕ) (k j : Tick W) (h : List (Tick W))
      → a.state ≡ firing u
      → All (λ i. BelowRecovery a i.rate) (k ∷ j ∷ h)
      → a.recover_for ≤ k.now - first j.now h
      → Memᴰ resolve (actions a (k ∷ j ∷ h))
  resolves_in_time o a u k j h start low long = elim (subsiding o a u j h start low.1) [
    | inr m ↦ emitted_before a k (j ∷ h) resolve m
    | inl e ↦
        emitted a k (j ∷ h) resolve
          (resolves_at o a (state_after a (j ∷ h)) (first j.now h) k.rate k.now e low.0 long)
  ]
