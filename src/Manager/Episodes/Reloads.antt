-- ===== src/Manager/Episodes/Reloads.antt =====
-- A reload of the alerts (src/alert.rs), seen by the alerts of one topic.
use netalert.Prelude.{
  ℕ, ◌≡◌, ◌≢◌, refl, sym, ap, ◌∙◌, inl, inr, List, [], ◌∷◌, some, All, map, subst, Option-cases,
  if_pos, if_neg,
}
use netalert.Prelude.Assoc.{find, put, find-put}
use netalert.Net.{IpNet}
use netalert.Config.{Config, category_name, direction_name}
use netalert.Alert.{AlertState, AlertInstance}
use netalert.Manager.{AlertManager, AlertKey, AlertKey-discrete, key_of}
use netalert.Manager.Evaluate.{AlertPayload, metric_name}
use netalert.Manager.Reload.{Kept, configured, collect_previous, reload_config}
use netalert.Manager.Reload.New.{IsNew, configured-IsNew}
use netalert.Manager.Reload.Laws.{KeysAreDistinct, restored, alerts-reload_config}
use netalert.Manager.Episodes.{Topic, topic_of}
use netalert.Manager.Episodes.Step.{Follows}
use netalert.Manager.Episodes.Topics.{topic_of_inj}
use netalert.Manager.Episodes.Ticks.{Absent, Once, FollowsOf, InStep}

abbrev key_topic : AlertKey → Topic
key_topic k = record {
  prefix = k.prefix;
  protocol = category_name k.protocol;
  direction = direction_name k.direction;
  metric = metric_name k.metric;
}

module _ {W : Type 0} where
  -- What is kept for a key is of an alert with that key.
  find-collect_previous_from :
      (P : AlertState × ℕ → Type 0) (k : AlertKey) (xs : List (AlertInstance W)) (kept : Kept)
      → ((v : AlertState × ℕ) → find AlertKey-discrete k kept ≡ some v → P v)
      → All (λ a. key_of a ≡ k → P (a.state, a.alert_id)) xs
      → (v : AlertState × ℕ) → find AlertKey-discrete k (collect_previous xs kept) ≡ some v
      → P v
  unfolding collect_previous
  find-collect_previous_from P k [] kept before all v e = before v e
  find-collect_previous_from P k (a ∷ xs) kept before all v e =
      find-collect_previous_from P k xs
        (put AlertKey-discrete (key_of a) (a.state, a.alert_id) kept)
        (λ w found. elim (AlertKey-discrete (key_of a) k) [
          | yes same ↦
              let v_is : some (a.state, a.alert_id) ≡ some w =
                sym (if_pos (AlertKey-discrete (key_of a) k) same _ _)
                ∙ (sym (find-put AlertKey-discrete (key_of a) k (a.state, a.alert_id) kept)
                    ∙ found) in
              subst P (cc) (all.0 same)
          | no differ ↦ before w (
              sym (if_neg (AlertKey-discrete (key_of a) k) differ _ _)
              ∙ (sym (find-put AlertKey-discrete (key_of a) k (a.state, a.alert_id) kept) ∙ found))
        ])
        all.1 v e

  KeysAreDistinct-Absent :
      (t : Topic) (a : AlertInstance W) (xs : List (AlertInstance W))
      → topic_of a ≡ t
      → All (λ b. key_of a ≢ key_of b) xs
      → Absent t xs
  KeysAreDistinct-Absent t a [] e h = tt
  KeysAreDistinct-Absent t a (b ∷ xs) e h =
      (λ e'. h.0 (topic_of_inj a b (e ∙ sym e')), KeysAreDistinct-Absent t a xs e h.1)

  KeysAreDistinct-Once : (t : Topic) (xs : List (AlertInstance W)) → KeysAreDistinct xs → Once t xs
  KeysAreDistinct-Once t [] h = tt
  KeysAreDistinct-Once t (a ∷ xs) h =
      (λ e. KeysAreDistinct-Absent t a xs e h.0, KeysAreDistinct-Once t xs h.1)

  -- The restored alerts have the keys of the configured.
  topic_of-restored : (kept : Kept) (a : AlertInstance W) → topic_of (restored kept a) ≡ topic_of a
  topic_of-restored kept a = elim (Option-cases (find AlertKey-discrete (key_of a) kept)) [
    | inl e ↦ rw e refl
    | inr (v, e) ↦ rw e refl
  ]

  Absent-restored :
      (t : Topic) (kept : Kept) (xs : List (AlertInstance W))
      → Absent t xs
      → Absent t (map (restored kept) xs)
  Absent-restored t kept [] h = tt
  Absent-restored t kept (a ∷ xs) h =
      (λ e. h.0 (sym (topic_of-restored kept a) ∙ e), Absent-restored t kept xs h.1)

  Once-restored :
      (t : Topic) (kept : Kept) (xs : List (AlertInstance W))
      → Once t xs
      → Once t (map (restored kept) xs)
  Once-restored t kept [] h = tt
  Once-restored t kept (a ∷ xs) h = (
    λ e. Absent-restored t kept xs (h.0 (sym (topic_of-restored kept a) ∙ e)),
    Once-restored t kept xs h.1,
  )

  key_of-topic_of :
      (t : Topic) (ps : List (AlertPayload W)) (b : AlertInstance W) (xs : List (AlertInstance W))
      → topic_of b ≡ t
      → All (FollowsOf t ps) xs
      → All (λ a. key_of a ≡ key_of b → Follows a.state a.alert_id ps) xs
  key_of-topic_of t ps b [] e h = tt
  key_of-topic_of t ps b (a ∷ xs) e h =
      (λ same. h.0 (ap key_topic same ∙ e), key_of-topic_of t ps b xs e h.1)

  -- A configured alert follows the payloads: it is new, or takes over an alert that does.
  restored-FollowsOf :
      (t : Topic) (ps : List (AlertPayload W)) (old : List (AlertInstance W)) (b : AlertInstance W)
      → All (FollowsOf t ps) old
      → IsNew b
      → FollowsOf t ps (restored (collect_previous old []) b)
  restored-FollowsOf t ps old b h new e =
      elim (Option-cases (find AlertKey-discrete (key_of b) (collect_previous old []))) [
        | inl gone ↦ rw gone (inl (inl new))
        | inr (v, found) ↦ rw found (
            find-collect_previous_from (λ v. Follows v.0 v.1 ps) (key_of b) old []
              (λ w e'. absurd (cc))
              (key_of-topic_of t ps b old (sym (topic_of-restored (collect_previous old []) b) ∙ e)
                h)
              v found)
      ]

  map-restored-FollowsOf :
      (t : Topic) (ps : List (AlertPayload W)) (old xs : List (AlertInstance W))
      → All (FollowsOf t ps) old
      → All IsNew xs
      → All (FollowsOf t ps) (map (restored (collect_previous old [])) xs)
  map-restored-FollowsOf t ps old [] h new = tt
  map-restored-FollowsOf t ps old (b ∷ xs) h new =
      (restored-FollowsOf t ps old b h new.0, map-restored-FollowsOf t ps old xs h new.1)

pub reload_config-InStep :
    {W Net : Type 0} ⦃n : IpNet Net⦄ (t : Topic) (m : AlertManager W) (config : Config W Net)
    (ps : List (AlertPayload W))
    → KeysAreDistinct (configured {W = W} config)
    → InStep t m.alerts ps
    → InStep t (reload_config m config).alerts ps
reload_config-InStep t m config ps distinct (once, follows, episodes) =
    subst (λ xs. InStep t xs ps) (sym (alerts-reload_config m config distinct))
      (
        Once-restored t (collect_previous m.alerts []) (configured config)
            (KeysAreDistinct-Once t (configured config) distinct),
        map-restored-FollowsOf t ps m.alerts (configured config) follows (configured-IsNew config),
        episodes,
      )
