-- ===== src/Manager/Notice/Laws.antt =====
-- The payloads of an evaluation (src/alert.rs) and the alerts that are due.
use mathlib.Core.List.Memᴰ.{not-nil, append_left, append_right, append_cases, of_map}
use netalert.Prelude.{
  ℕ, ◌≡◌, refl, sym, ap, ◌∙◌, inl, inr, String, String-discrete, List, [], ◌∷◌, Option, none, some,
  arith, Bool-cases, Option-cases, true, Memᴰ, Memᴰ-map, map, ◌↔◌, subst,
}
use netalert.Float.{Float}
use netalert.Net.{IpNet}
use netalert.Flow.{IpAddr}
use netalert.Processor.{FlowProcessor}
use netalert.Processor.Rates.{RateSnapshot}
use netalert.Mitigation.Search.{Groups}
use netalert.Alert
use netalert.Alert.{
  AlertState, normal, pending, firing, recovering, AlertInstance, AlertAction, fire, update,
  resolve, advance, elapsed,
}
use netalert.Manager.{AlertManager}
use netalert.Manager.Evaluate.{
  AlertPayload, Loop, act, evaluate_alert, evaluate_alerts, evaluate, build_payload,
}
use netalert.Manager.Notice.{
  IsDue, triggers, updates, resolves, Notice, notice, notice_of, rate_for, IsCalledFor,
}

module _ {W : Type 0} ⦃f : Float W⦄ where
  advance-IsDue :
      (a : AlertInstance W) (s : AlertState) (rate : W) (now : ℕ) (o : AlertAction)
      → a.state ≡ s
      → (advance a s rate now).1 ≡ some o
      → IsDue a rate now o
  advance-IsDue a normal rate now o at e = absurd (cc)
  advance-IsDue a (pending since) rate now o at e =
      elim (Bool-cases (f.lt rate a.trigger_threshold)) [
        | inl low ↦ absurd (ground (arith, low, e))
        | inr high ↦ elim (Bool-cases (elapsed now since a.trigger_for)) [
          | inr early ↦ absurd (ground (arith, high, early, e))
          | inl held ↦
              subst (IsDue a rate now) (ground (arith, high, held, e))
                (triggers since at high (ground (arith, held)))
        ]
      ]
  advance-IsDue a (firing last) rate now o at e =
      elim (Bool-cases (f.lt rate a.recover_threshold)) [
        | inl low ↦ absurd (ground (arith, low, e))
        | inr high ↦ elim (Bool-cases (elapsed now last a.mitigation_update_interval)) [
          | inr early ↦ absurd (ground (arith, high, early, e))
          | inl held ↦
              subst (IsDue a rate now) (ground (arith, high, held, e))
                (updates last at high (ground (arith, held)))
        ]
      ]
  advance-IsDue a (recovering since) rate now o at e =
      elim (Bool-cases (f.ge rate a.recover_threshold)) [
        | inl high ↦ absurd (ground (arith, high, e))
        | inr low ↦ elim (Bool-cases (elapsed now since a.recover_for)) [
          | inr early ↦ absurd (ground (arith, low, early, e))
          | inl held ↦
              subst (IsDue a rate now) (ground (arith, low, held, e))
                (resolves since at low (ground (arith, held)))
        ]
      ]

  evaluate-due :
      (a : AlertInstance W) (rate : W) (now : ℕ) (o : AlertAction)
      → IsDue a rate now o
      → (Alert.evaluate a rate now).1 ≡ some o
  unfolding Alert.evaluate
  evaluate-due a rate now fire (triggers since at high held) =
      let held' : elapsed now since a.trigger_for ≡ true = ground (arith, held) in
      rw (at, high, held') refl
  evaluate-due a rate now update (updates last at high held) =
      let held' : elapsed now last a.mitigation_update_interval ≡ true = ground (arith, held) in
      rw (at, high, held') refl
  evaluate-due a rate now resolve (resolves since at low held) =
      let held' : elapsed now since a.recover_for ≡ true = ground (arith, held) in
      rw (at, low, held') refl

  -- The state and the id of an alert are not told.
  evaluated-notice_of :
      (p : AlertPayload W) (a : AlertInstance W) (o : AlertAction) (rate : W) (now : ℕ)
      → notice p ≡ notice_of (Alert.evaluate a rate now).0 o rate
      → (notice p ≡ notice_of a o rate)
  unfolding Alert.evaluate
  evaluated-notice_of p a fire rate now h = h
  evaluated-notice_of p a update rate now h = h
  evaluated-notice_of p a resolve rate now h = h

only : {A : Type 0} (p q : A) → Memᴰ p (q ∷ []) → p ≡ q
only p q (Memᴰ.head e) = e
only p q (Memᴰ.tail m) = elim m [ ]

module _ {W Net Network Table : Type 0} ⦃f : Float W⦄ ⦃n : IpNet Net⦄ (order : Groups → Groups)
    (show : IpAddr → String) (new_v4 : ℕ → ℕ) where
  -- An action sends one payload.
  act-notice :
      (o : AlertAction) (b : AlertInstance W) (rate : W) (s : Loop Net Network Table)
      → (p : AlertPayload W) × ((act order show new_v4 (some o) b rate s).2 ≡ p ∷ [])
        × (notice p ≡ notice_of b o rate)
  unfolding build_payload String-discrete
  act-notice fire b rate s = (_, refl, refl)
  act-notice update b rate s = (_, refl, refl)
  act-notice resolve b rate s = (_, refl, refl)

  evaluate_alert-quiet :
      (a : AlertInstance W) (rate : W) (now : ℕ) (s : Loop Net Network Table)
      → (Alert.evaluate a rate now).1 ≡ none
      → (evaluate_alert order show new_v4 a rate now s).2 ≡ []
  evaluate_alert-quiet a rate now s e =
      ap (λ o. (act order show new_v4 o (Alert.evaluate a rate now).0 rate s).2) e

  pub evaluate_alert-one :
      (a : AlertInstance W) (rate : W) (now : ℕ) (s : Loop Net Network Table) (o : AlertAction)
      → (Alert.evaluate a rate now).1 ≡ some o
      → (p : AlertPayload W) × ((evaluate_alert order show new_v4 a rate now s).2 ≡ p ∷ [])
        × (notice p ≡ notice_of a o rate)
  evaluate_alert-one a rate now s o e =
      let b = (Alert.evaluate a rate now).0 in
      let (p, sent, tells) = act-notice o b rate s in
      (
        p,
        ap (λ o. (act order show new_v4 o b rate s).2) e ∙ sent,
        evaluated-notice_of p a o rate now tells,
      )

  evaluate_alert_sound :
      (p : AlertPayload W) (a : AlertInstance W) (rate : W) (now : ℕ) (s : Loop Net Network Table)
      → Memᴰ p (evaluate_alert order show new_v4 a rate now s).2
      → (o : AlertAction) × IsDue a rate now o × (notice p ≡ notice_of a o rate)
  unfolding Alert.evaluate
  evaluate_alert_sound p a rate now s m = elim (Option-cases (Alert.evaluate a rate now).1) [
    | inl e ↦ absurd (not-nil (subst (Memᴰ p) (evaluate_alert-quiet a rate now s e) m))
    | inr (o, e) ↦
        let (q, sent, tells) = evaluate_alert-one a rate now s o e in
        let same : p ≡ q = only p q (subst (Memᴰ p) sent m) in
        (
          o,
          advance-IsDue a a.state rate now o refl e,
          subst (λ x. notice x ≡ notice_of a o rate) (sym same) tells,
        )
  ]

  evaluate_alerts_sound :
      (p : AlertPayload W) (snapshots : List (RateSnapshot W)) (now : ℕ)
      (alerts : List (AlertInstance W)) (s : Loop Net Network Table)
      → Memᴰ p (evaluate_alerts order show new_v4 snapshots now alerts s).2
      → IsCalledFor snapshots now alerts (notice p)
  unfolding evaluate_alerts
  evaluate_alerts_sound p snapshots now [] s m = elim m [ ]
  evaluate_alerts_sound p snapshots now (a ∷ rest) s m =
      let rate = rate_for snapshots a in
      let (_, s', sent) = evaluate_alert order show new_v4 a rate now s in
      elim (append_cases sent m) [
        | inl here ↦
            let (o, due, tells) = evaluate_alert_sound p a rate now s here in
            (a, o, Memᴰ.head refl, due, tells)
        | inr later ↦
            let (b, o, mem, due, tells) = evaluate_alerts_sound p snapshots now rest s' later in
            (b, o, Memᴰ.tail mem, due, tells)
      ]

  evaluate_alerts_complete :
      (a : AlertInstance W) (o : AlertAction) (snapshots : List (RateSnapshot W)) (now : ℕ)
      (alerts : List (AlertInstance W)) (s : Loop Net Network Table)
      → Memᴰ a alerts
      → IsDue a (rate_for snapshots a) now o
      → (p : AlertPayload W) × Memᴰ p (evaluate_alerts order show new_v4 snapshots now alerts s).2
        × (notice p ≡ notice_of a o (rate_for snapshots a))
  unfolding evaluate_alerts
  evaluate_alerts_complete a o snapshots now [] s m due = elim m [ ]
  evaluate_alerts_complete a o snapshots now (b ∷ rest) s (Memᴰ.head e) due =
      let (p, sent, tells) = evaluate_alert-one b (rate_for snapshots b) now s o (
        evaluate-due b (rate_for snapshots b) now o
          (subst (λ x. IsDue x (rate_for snapshots x) now o) e due)) in
      (
        p,
        append_left _ (subst (Memᴰ p) (sym sent) (Memᴰ.head refl)),
        subst (λ x. notice p ≡ notice_of x o (rate_for snapshots x)) (sym e) tells,
      )
  evaluate_alerts_complete a o snapshots now (b ∷ rest) s (Memᴰ.tail m) due =
      let (_, s', sent) = evaluate_alert order show new_v4 b (rate_for snapshots b) now s in
      let (p, mem, tells) = evaluate_alerts_complete a o snapshots now rest s' m due in
      (p, append_right sent mem, tells)

  -- An evaluation notifies of exactly what is due. Something is told by a payload of it if and only
  -- if some alert of the manager is due for it: it tells the prefix, protocol, direction, metric and
  -- labels of that alert, its rate in the snapshots, and the threshold of the action. An alert is
  -- due to trigger when it has been pending for `trigger_for` and its rate is not below the trigger
  -- threshold, to update when its last update is an update interval ago and the rate is not below
  -- the recover threshold, and to resolve when it has been recovering for `recover_for` and the rate
  -- does not reach the recover threshold.
  pub evaluate_notifies :
      (to_json : AlertPayload W → Option String) (m : AlertManager W)
      (snapshots : List (RateSnapshot W)) (processor : FlowProcessor Net Network Table)
      (now ids : ℕ) (x : Notice W)
      → Memᴰ x (map notice (evaluate order show new_v4 to_json m snapshots processor now ids).2)
        ↔ IsCalledFor snapshots now m.alerts x
  unfolding evaluate
  evaluate_notifies to_json m snapshots processor now ids x = (
    λ told.
        let (p, mem, e) = of_map notice _ told in
        subst (IsCalledFor snapshots now m.alerts) e
          (evaluate_alerts_sound p snapshots now m.alerts _ mem),
    λ (a, o, mem, due, e).
        let s : Loop Net Network Table = record {
          processor = processor;
          drained = [];
          ids = ids;
        } in
        let (p, sent, tells) = evaluate_alerts_complete a o snapshots now m.alerts s mem due in
        let payloads = (evaluate_alerts order show new_v4 snapshots now m.alerts s).2 in
        subst (λ y. Memᴰ y (map notice payloads)) (tells ∙ sym e) (Memᴰ-map notice sent),
  )
