-- ===== src/Manager/Notice/Response.antt =====
-- An attack that lasts (src/alert.rs): the payloads of a series of evaluations without a reload.
use mathlib.Core.List.Memᴰ.{append_left, append_right}
use netalert.Prelude.{
  ℕ, ◌-◌, ◌≤◌, ◌≡◌, refl, sym, ap, ◌∙◌, String, List, [], ◌∷◌, Option, none, some, All, Memᴰ, subst,
  ◌⊎◌, inl, inr,
}
use netalert.Float.{Float, IsOrdered}
use netalert.Net.{IpNet}
use netalert.Flow.{IpAddr}
use netalert.Processor.{FlowProcessor}
use netalert.Processor.Rates.{RateSnapshot}
use netalert.Mitigation.Search.{Groups}
use netalert.Alert
use netalert.Alert.{
  AlertState, normal, firing, AlertInstance, AlertAction, fire, update, resolve, Tick, advance,
  actions, emit,
}
use netalert.Alert.Held.{state_after, action_after}
use netalert.Alert.Response.{first, AtTrigger, BelowRecovery, fires_in_time, resolves_in_time}
use netalert.Manager.{AlertManager}
use netalert.Manager.Evaluate.{
  AlertPayload, Loop, act, action_name, evaluate_alert, evaluate_alerts, evaluate,
}
use netalert.Manager.Episodes.{topic_of, topic, Event, tick, reload, managed}
use netalert.Manager.Notice.{rate_for}
use netalert.Manager.Notice.Laws.{evaluate_alert-one}

-- What an alert is evaluated with.
abbrev pub rounds_of :
    {W Net Network Table : Type 0} ⦃f : Float W⦄
    → AlertInstance W
    → List (Event W Net Network Table)
    → List (Tick W)
rounds_of a [] = []
rounds_of a (tick snapshots processor now ids ∷ h) =
    record { rate = rate_for snapshots a; now = now } ∷ rounds_of a h
rounds_of a (reload config ∷ h) = rounds_of a h

abbrev pub HasNoReload : {W Net Network Table : Type 0} → List (Event W Net Network Table) → Type 0
HasNoReload [] = Unit
HasNoReload (tick _ _ _ _ ∷ h) = HasNoReload h
HasNoReload (reload _ ∷ h) = ⊥

-- Some payload reports the action of the alert.
abbrev pub Reports : {W : Type 0} → AlertInstance W → AlertAction → List (AlertPayload W) → Type 0
Reports {W} a o ps =
    (p : AlertPayload W) × Memᴰ p ps × (topic p ≡ topic_of a) × (p.action ≡ action_name o)

-- The alert in another state, with another id.
abbrev at : {W : Type 0} → AlertInstance W → AlertState → ℕ → AlertInstance W
at a s id = record a { state = s; alert_id = id }

emit-cases :
    (o o' : Option AlertAction) (x : AlertAction) (before : List AlertAction)
    → o ≡ o'
    → Memᴰ x (emit o before)
    → (o' ≡ some x) ⊎ Memᴰ x before
emit-cases none o' x before e m = inr m
emit-cases (some y) o' x before e (Memᴰ.head p) = inl (sym e ∙ ap some (sym p))
emit-cases (some y) o' x before e (Memᴰ.tail m) = inr m

module _ {W Net Network Table : Type 0} ⦃f : Float W⦄ ⦃n : IpNet Net⦄ (order : Groups → Groups)
    (show : IpAddr → String) (new_v4 : ℕ → ℕ) where
  act-at :
      (o : Option AlertAction) (a : AlertInstance W) (s : AlertState) (id : ℕ) (rate : W)
      (l : Loop Net Network Table)
      → (id' : ℕ) × ((act order show new_v4 o (at a s id) rate l).0 ≡ at a s id')
  act-at none a s id rate l = (id, refl)
  act-at (some fire) a s id rate l = (new_v4 l.ids, refl)
  act-at (some update) a s id rate l = (id, refl)
  act-at (some resolve) a s id rate l = (id, refl)

  evaluate_alert-at :
      (a : AlertInstance W) (s : AlertState) (id : ℕ) (rate : W) (now : ℕ)
      (l : Loop Net Network Table)
      → (id' : ℕ) × ((evaluate_alert order show new_v4 (at a s id) rate now l).0
          ≡ at a (advance a s rate now).0 id')
  unfolding Alert.evaluate
  evaluate_alert-at a s id rate now l =
      act-at (advance a s rate now).1 a (advance a s rate now).0 id rate l

  evaluate_alert-Reports :
      (a : AlertInstance W) (s : AlertState) (id : ℕ) (rate : W) (now : ℕ)
      (l : Loop Net Network Table) (o : AlertAction)
      → (advance a s rate now).1 ≡ some o
      → Reports a o (evaluate_alert order show new_v4 (at a s id) rate now l).2
  unfolding Alert.evaluate
  evaluate_alert-Reports a s id rate now l o e =
      let (p, sent, told) = evaluate_alert-one order show new_v4 (at a s id) rate now l o e in
      (
        p,
        subst (Memᴰ p) (sym sent) (Memᴰ.head refl),
        ap (λ x. x.about) told,
        ap (λ x. x.action) told,
      )

  -- An alert of the loop comes to its round.
  evaluate_alerts-mem :
      (b : AlertInstance W) (snapshots : List (RateSnapshot W)) (now : ℕ)
      (alerts : List (AlertInstance W)) (l : Loop Net Network Table)
      → Memᴰ b alerts
      → (l' : Loop Net Network Table) × Memᴰ
          (evaluate_alert order show new_v4 b (rate_for snapshots b) now l').0
          (evaluate_alerts order show new_v4 snapshots now alerts l).0
        × ((p : AlertPayload W)
            → Memᴰ p (evaluate_alert order show new_v4 b (rate_for snapshots b) now l').2
            → Memᴰ p (evaluate_alerts order show new_v4 snapshots now alerts l).2)
  unfolding evaluate_alerts
  evaluate_alerts-mem b snapshots now [] l m = elim m [ ]
  evaluate_alerts-mem b snapshots now (c ∷ rest) l (Memᴰ.head e) = (
    l,
    Memᴰ.head (ap (λ x. (evaluate_alert order show new_v4 x (rate_for snapshots x) now l).0) e),
    λ p m. append_left _ (
        subst (λ x. Memᴰ p (evaluate_alert order show new_v4 x (rate_for snapshots x) now l).2) e
          m),
  )
  evaluate_alerts-mem b snapshots now (c ∷ rest) l (Memᴰ.tail m) =
      let (_, next, sent) = evaluate_alert order show new_v4 c (rate_for snapshots c) now l in
      let (l', mem, reported) = evaluate_alerts-mem b snapshots now rest next m in
      (l', Memᴰ.tail mem, λ p m'. append_right sent (reported p m'))

  managed-Reports :
      (m : AlertManager W) (a : AlertInstance W) (h : List (Event W Net Network Table))
      → HasNoReload h
      → Memᴰ a m.alerts
      → let (m', sent) = managed order show new_v4 m h in
        (id : ℕ) × Memᴰ (at a (state_after a (rounds_of a h)) id) m'.alerts
        × ((o : AlertAction) → Memᴰ o (actions a (rounds_of a h)) → Reports a o sent)
  unfolding managed actions evaluate
  managed-Reports m a [] quiet mem = (a.alert_id, mem, λ o never. elim never [ ])
  managed-Reports m a (reload config ∷ h) quiet mem = elim quiet [ ]
  managed-Reports m a (tick snapshots processor now ids ∷ h) quiet mem =
      let (m', sent) = managed order show new_v4 m h in
      let (id, here, before) = managed-Reports m a h quiet mem in
      let s = state_after a (rounds_of a h) in
      let rate = rate_for snapshots a in
      let l : Loop Net Network Table = record { processor = processor; drained = []; ids = ids } in
      let (l', mem', reported) = evaluate_alerts-mem (at a s id) snapshots now m'.alerts l here in
      let (id', is) = evaluate_alert-at a s id rate now l' in
      let new = (evaluate_alerts order show new_v4 snapshots now m'.alerts l).2 in
      (
        id',
        subst (λ x. Memᴰ x (evaluate_alerts order show new_v4 snapshots now m'.alerts l).0) is mem',
        λ o acted.
            elim (emit-cases _ (advance a s rate now).1 o (actions a (rounds_of a h))
              (action_after a (rounds_of a h) rate now) acted) [
                | inl e ↦
                    let (p, found, about, says) = evaluate_alert-Reports a s id rate now l' o e in
                    (p, append_left sent (reported p found), about, says)
                | inr old ↦
                    let (p, found, about, says) = before o old in
                    (p, append_right new found, about, says)
              ],
      )

  -- An attack that lasts is reported. If an alert of the manager starts in Normal, and through a
  -- series of evaluations without a reload the rate that the snapshots have for it reaches its
  -- trigger threshold every time, then by the first evaluation after the first one that comes at
  -- least `trigger_for` later a trigger about its prefix, protocol, direction and metric has been
  -- sent, whatever the other alerts do.
  pub managed-Reports_attack :
      (ordered : IsOrdered W) (m : AlertManager W) (a : AlertInstance W)
      (snapshots snapshots' : List (RateSnapshot W))
      (processor processor' : FlowProcessor Net Network Table) (now now' ids ids' : ℕ)
      (h : List (Event W Net Network Table))
      → Memᴰ a m.alerts
      → a.state ≡ normal
      → HasNoReload h
      → let events = tick snapshots' processor' now' ids' ∷ tick snapshots processor now ids ∷ h in
        All (λ k. AtTrigger a k.rate) (rounds_of a events)
        → a.trigger_for ≤ now' - first now (rounds_of a h)
        → Reports a fire (managed order show new_v4 m events).1
  managed-Reports_attack ordered m a snapshots snapshots' processor processor' now now' ids ids' h
        mem start quiet high long =
      let (_, _, reports) =
        managed-Reports m a
          (tick snapshots' processor' now' ids' ∷ tick snapshots processor now ids ∷ h) quiet mem in
      reports fire (
        fires_in_time ordered a (record { rate = rate_for snapshots' a; now = now' })
          (record { rate = rate_for snapshots a; now = now }) (rounds_of a h) start high long)

  -- The end of an attack is reported. If an alert of the manager is firing, and through a series of
  -- evaluations without a reload the rate that the snapshots have for it is below its recover
  -- threshold every time, then by the first evaluation after the first one that comes at least
  -- `recover_for` later a resolve about its prefix, protocol, direction and metric has been sent,
  -- whatever the other alerts do.
  pub managed-Reports_recovery :
      (ordered : IsOrdered W) (m : AlertManager W) (a : AlertInstance W) (since : ℕ)
      (snapshots snapshots' : List (RateSnapshot W))
      (processor processor' : FlowProcessor Net Network Table) (now now' ids ids' : ℕ)
      (h : List (Event W Net Network Table))
      → Memᴰ a m.alerts
      → a.state ≡ firing since
      → HasNoReload h
      → let events = tick snapshots' processor' now' ids' ∷ tick snapshots processor now ids ∷ h in
        All (λ k. BelowRecovery a k.rate) (rounds_of a events)
        → a.recover_for ≤ now' - first now (rounds_of a h)
        → Reports a resolve (managed order show new_v4 m events).1
  managed-Reports_recovery ordered m a since snapshots snapshots' processor processor' now now' ids
        ids' h mem start quiet low long =
      let (_, _, reports) =
        managed-Reports m a
          (tick snapshots' processor' now' ids' ∷ tick snapshots processor now ids ∷ h) quiet mem in
      reports resolve (
        resolves_in_time ordered a since (record { rate = rate_for snapshots' a; now = now' })
          (record { rate = rate_for snapshots a; now = now }) (rounds_of a h) start low long)
