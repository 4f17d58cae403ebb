-- ===== src/Manager/Reload/Orphans/Laws.antt =====
-- Which alerts the warnings of a reload name (src/alert.rs).
use mathlib.Core.List.Memᴰ.{cases_cons}
use netalert.Prelude.{
  ℕ, ◌≡◌, ◌≢◌, refl, sym, ap, ◌∙◌, ◌↔◌, ◌⊎◌, inl, inr, List, [], ◌∷◌, none, All, Memᴰ, subst,
  if_neg,
}
use netalert.Prelude.Assoc.{find, put, find-put, remove}
use netalert.Net.{IpNet}
use netalert.Config.{Config}
use netalert.Alert.{AlertState, normal, AlertInstance}
use netalert.Manager.{AlertManager, AlertKey, AlertKey-discrete, key_of}
use netalert.Manager.Reload.{Kept, configured, collect_previous}
use netalert.Manager.Reload.Laws.{KeysAreDistinct}
use netalert.Manager.Reload.Orphans.{unclaimed, orphaned}
use netalert.Manager.Reload.Orphans.Entries.{
  Entry, Memᴰ-remove, Memᴰ-put, is_normal_iff, Memᴰ-active,
}

module _ {W : Type 0} where
  Memᴰ-unclaimed :
      (xs : List (AlertInstance W)) (e : Entry) (m : Kept)
      → Memᴰ e (unclaimed xs m) ↔ (Memᴰ e m × All (λ a. key_of a ≢ e.0) xs)
  unfolding unclaimed
  Memᴰ-unclaimed [] e m = (λ x. (x, tt), λ x. x.0)
  Memᴰ-unclaimed (a ∷ xs) e m =
      let (down, up) = Memᴰ-unclaimed xs e (remove AlertKey-discrete (key_of a) m) in
      let (down', up') = Memᴰ-remove (key_of a) e m in
      (
        λ x. let (mem, others) = down x in let (mem', other) = down' mem in (mem', (other, others)),
        λ x. up (up' (x.0, x.1.0), x.1.1),
      )

  still_fresh :
      (a : AlertInstance W) (xs : List (AlertInstance W)) (kept : Kept)
      → All (λ b. key_of a ≢ key_of b) xs
      → All (λ b. find AlertKey-discrete (key_of b) kept ≡ none) xs
      → All
          (λ b.
            find AlertKey-discrete
              (key_of b)
              (put AlertKey-discrete (key_of a) (a.state, a.alert_id) kept)
            ≡ none)
          xs
  still_fresh a [] kept h fresh = tt
  still_fresh a (b ∷ xs) kept h fresh = (
    find-put AlertKey-discrete (key_of a) (key_of b) (a.state, a.alert_id) kept
        ∙ (if_neg (AlertKey-discrete (key_of a) (key_of b)) h.0 _ _ ∙ fresh.0),
    still_fresh a xs kept h.1 fresh.1,
  )

  fresh_at_first :
      (xs : List (AlertInstance W))
      → All (λ a. find {V = AlertState × ℕ} AlertKey-discrete (key_of a) [] ≡ none) xs
  fresh_at_first [] = tt
  fresh_at_first (a ∷ xs) = (refl, fresh_at_first xs)

  -- What is kept of an alert.
  abbrev entry_of : AlertInstance W → Entry
  entry_of a = (key_of a, (a.state, a.alert_id))

  Memᴰ-collect_previous :
      (xs : List (AlertInstance W)) (e : Entry) (kept : Kept)
      → KeysAreDistinct xs
      → All (λ a. find AlertKey-discrete (key_of a) kept ≡ none) xs
      → Memᴰ e (collect_previous xs kept)
        ↔ (Memᴰ e kept ⊎ ((a : AlertInstance W) × Memᴰ a xs × (e ≡ entry_of a)))
  unfolding collect_previous
  Memᴰ-collect_previous [] e kept h fresh =
      (λ x. inl x, λ x. elim x [ inl mem ↦ mem | inr (a, never, _) ↦ elim never [ ] ])
  Memᴰ-collect_previous (a ∷ xs) e kept h fresh =
      let v : AlertState × ℕ = (a.state, a.alert_id) in
      let (down, up) =
        Memᴰ-collect_previous xs e (put AlertKey-discrete (key_of a) v kept) h.1
          (still_fresh a xs kept h.0 fresh.1) in
      let (down', up') = Memᴰ-put (key_of a) v e kept fresh.0 in
      (
        λ x. elim (down x) [
          | inl mem ↦ elim (down' mem) [
            | inl before ↦ inl before
            | inr p ↦ inr (a, Memᴰ.head refl, p)
          ]
          | inr (b, mem, p) ↦ inr (b, Memᴰ.tail mem, p)
        ],
        λ x. elim x [
          | inl before ↦ up (inl (up' (inl before)))
          | inr (b, mem, p) ↦ elim (cases_cons mem) [
            | inl same ↦ up (inl (up' (inr (p ∙ ap entry_of same))))
            | inr later ↦ up (inr (b, later, p))
          ]
        ],
      )

module _ {W Net : Type 0} ⦃n : IpNet Net⦄ where
  -- If the keys of the old alerts are distinct, a reload warns of exactly the keys that an alert
  -- outside Normal has and that no configured alert has, so of every alert that it drops while it is
  -- active.
  pub orphaned_iff :
      (m : AlertManager W) (config : Config W Net) (k : AlertKey)
      → KeysAreDistinct m.alerts
      → Memᴰ k (orphaned m config) ↔ (
          (a : AlertInstance W) × Memᴰ a m.alerts
          × (key_of a ≡ k)
          × (a.state ≢ normal)
          × All (λ b. key_of b ≢ k) (configured {W = W} config))
  unfolding orphaned
  orphaned_iff m config k distinct =
      let previous = collect_previous m.alerts [] in
      let alerts = configured {W = W} config in
      (
        λ x.
            let (s, id, left, busy) = (Memᴰ-active k (unclaimed alerts previous)).0 x in
            let (kept, others) = (Memᴰ-unclaimed alerts (k, (s, id)) previous).0 left in
            elim ((Memᴰ-collect_previous m.alerts (k, (s, id)) [] distinct
                (fresh_at_first m.alerts)).0
              kept) [
                | inl never ↦ elim never [ ]
                | inr (a, mem, e) ↦ (
                  a,
                  mem,
                  sym (ap (λ y. y.0) e),
                  subst (λ y. y ≢ normal) (ap (λ y. y.1.0) e) ((is_normal_iff s).0 busy),
                  others,
                )
              ],
        λ (a, mem, e, busy, others).
            let same : (k, (a.state, a.alert_id)) ≡ entry_of a =
              ap (λ y. (y, (a.state, a.alert_id))) (sym e) in
            (Memᴰ-active k (unclaimed alerts previous)).1 (
              a.state,
              a.alert_id,
              (Memᴰ-unclaimed alerts (k, (a.state, a.alert_id)) previous).1 (
                (Memᴰ-collect_previous m.alerts (k, (a.state, a.alert_id)) [] distinct
                      (fresh_at_first m.alerts)).1
                    (inr (a, mem, same)),
                others,
              ),
              (is_normal_iff a.state).1 busy,
            ),
      )
