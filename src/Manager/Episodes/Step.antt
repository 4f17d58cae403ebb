-- ===== src/Manager/Episodes/Step.antt =====
-- One alert and its payloads so far (src/alert.rs): an evaluation, and the alerts of other topics.
use netalert.Prelude.{
  ite, if_pos, true, false, String-discrete, ℕ, ◌≡◌, ◌≢◌, refl, sym, ◌⊎◌, inl, inr, String, List,
  [], ◌∷◌, ◌++◌, Option, none, some, arith, Bool-cases,
}
use netalert.Float.{Float}
use netalert.Net.{IpNet}
use netalert.Flow.{IpAddr}
use netalert.Mitigation.Search.{Groups}
use netalert.Alert
use netalert.Alert.{
  AlertState, normal, pending, firing, recovering, AlertInstance, AlertAction, fire, update,
  resolve, advance, elapsed,
}
use netalert.Manager.Evaluate.{AlertPayload, Loop, act, action_name, build_payload}
use netalert.Manager.Episodes.{AreEpisodes}

-- An alert that has not fired, or is over.
abbrev pub IsQuiet : AlertState → Type 0
IsQuiet s = (s ≡ normal) ⊎ ((since : ℕ) × (s ≡ pending since))

-- The last payload opened or continued an episode with this id.
abbrev pub IsOpen : {W : Type 0} → ℕ → List (AlertPayload W) → Type 0
IsOpen id [] = ⊥
IsOpen id (p ∷ ps) = (p.alert_id ≡ id) × (p.action ≢ "resolve")

abbrev pub Follows : {W : Type 0} → AlertState → ℕ → List (AlertPayload W) → Type 0
Follows s id ps = IsQuiet s ⊎ IsOpen id ps

-- The action and the state after an evaluation of an alert that follows its payloads.
abbrev pub Continues :
    {W : Type 0} → Option AlertAction → AlertState → ℕ → List (AlertPayload W) → Type 0
Continues (some fire) s id ps = Unit
Continues (some update) s id ps = IsOpen id ps
Continues (some resolve) s id ps = IsOpen id ps × (s ≡ normal)
Continues none s id ps = Follows s id ps

module _ {W : Type 0} ⦃f : Float W⦄ where
  advance-Continues :
      (a : AlertInstance W) (s : AlertState) (rate : W) (now : ℕ) (ps : List (AlertPayload W))
      → Follows s a.alert_id ps
      → Continues (advance a s rate now).1 (advance a s rate now).0 a.alert_id ps
  advance-Continues a normal rate now ps h = elim (Bool-cases (f.ge rate a.trigger_threshold)) [
    | inl e ↦ inl (inr (now, rw e refl))
    | inr e ↦ inl (inl (rw e refl))
  ]
  advance-Continues a (pending since) rate now ps h =
      elim (Bool-cases (f.lt rate a.trigger_threshold)) [
        | inl e ↦ rw e (inl (inl refl))
        | inr e ↦ elim (Bool-cases (elapsed now since a.trigger_for)) [
          | inl held ↦ rw (e, held) tt
          | inr held ↦ rw (e, held) (inl (inr (since, refl)))
        ]
      ]
  advance-Continues a (firing last) rate now ps (inl (inl e)) = absurd (ground (arith, e))
  advance-Continues a (firing last) rate now ps (inl (inr (_, e))) = absurd (ground (arith, e))
  advance-Continues a (firing last) rate now ps (inr going) =
      elim (Bool-cases (f.lt rate a.recover_threshold)) [
        | inl e ↦ rw e (inr going)
        | inr e ↦ elim (Bool-cases (elapsed now last a.mitigation_update_interval)) [
          | inl held ↦ rw (e, held) going
          | inr held ↦ rw (e, held) (inr going)
        ]
      ]
  advance-Continues a (recovering since) rate now ps (inl (inl e)) = absurd (ground (arith, e))
  advance-Continues a (recovering since) rate now ps (inl (inr (_, e))) = absurd (ground (arith, e))
  advance-Continues a (recovering since) rate now ps (inr going) =
      elim (Bool-cases (f.ge rate a.recover_threshold)) [
        | inl e ↦ rw e (inr going)
        | inr e ↦ elim (Bool-cases (elapsed now since a.recover_for)) [
          | inl held ↦ rw (e, held) (going, refl)
          | inr held ↦ rw (e, held) (inr going)
        ]
      ]

  pub evaluate-Continues :
      (a : AlertInstance W) (rate : W) (now : ℕ) (ps : List (AlertPayload W))
      → Follows a.state a.alert_id ps
      → let (b, action) = Alert.evaluate a rate now in Continues action b.state b.alert_id ps
  unfolding Alert.evaluate
  evaluate-Continues a rate now ps h = advance-Continues a a.state rate now ps h

-- A text that is not "resolve".
text-resolve :
    (action : String)
    → ite (String-discrete action "resolve") true false ≡ false
    → action ≢ "resolve"
text-resolve action other e = elim (String-discrete action "resolve") [
  | yes same ↦
      absurd (ground (arith, other, rw (if_pos (String-discrete action "resolve") same) at other))
  | no differ ↦ differ e
]

trigger-resolve : action_name fire ≢ action_name resolve
unfolding String-discrete
trigger-resolve = text-resolve (action_name fire) refl

update-resolve : action_name update ≢ action_name resolve
unfolding String-discrete
update-resolve = text-resolve (action_name update) refl

module _ {W Net Network Table : Type 0} ⦃f : Float W⦄ ⦃n : IpNet Net⦄ (order : Groups → Groups)
    (show : IpAddr → String) (new_v4 : ℕ → ℕ) where
  pub act-AreEpisodes :
      (o : Option AlertAction) (b : AlertInstance W) (rate : W) (s : Loop Net Network Table)
      (ps : List (AlertPayload W))
      → Continues o b.state b.alert_id ps
      → AreEpisodes ps
      → let (b', _, new) = act order show new_v4 o b rate s in
        Follows b'.state b'.alert_id (new ++ ps) × AreEpisodes (new ++ ps)
  unfolding build_payload
  act-AreEpisodes none b rate s ps next h = (next, h)
  act-AreEpisodes (some fire) b rate s [] next h = (inr (refl, trigger-resolve), refl)
  act-AreEpisodes (some fire) b rate s (p ∷ ps) next h =
      (inr (refl, trigger-resolve), (λ other. absurd (other refl), h))
  act-AreEpisodes (some update) b rate s [] next h = elim next [ ]
  act-AreEpisodes (some update) b rate s (p ∷ ps) (same, more) h =
      (inr (refl, update-resolve), (λ other. (sym same, more), h))
  act-AreEpisodes (some resolve) b rate s [] next h = elim next.0 [ ]
  act-AreEpisodes (some resolve) b rate s (p ∷ ps) ((same, more), over) h =
      (inl (inl over), (λ other. (sym same, more), h))
