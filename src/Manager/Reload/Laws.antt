-- ===== src/Manager/Reload/Laws.antt =====
-- What a reload promises of the alerts (src/alert.rs).
use netalert.Prelude.{
  ◌≡◌, ◌≢◌, refl, sym, ap, ap₂, ◌∙◌, List, [], ◌∷◌, some, arith, All, Memᴰ, Memᴰ-map, map, subst,
}
use netalert.Prelude.Assoc.{find, put, remove, find-put, find-remove}
use netalert.Net.{IpNet}
use netalert.Config.{Config}
use netalert.Alert.{AlertInstance}
use netalert.Manager.{AlertManager, AlertKey, AlertKey-discrete, key_of}
use netalert.Manager.Reload.{Kept, configured, collect_previous, restore, carry_over, reload_config}

-- No two alerts of the list have one key.
abbrev pub KeysAreDistinct : {W : Type 0} → List (AlertInstance W) → Type 0
KeysAreDistinct [] = Unit
KeysAreDistinct (a ∷ rest) = All (λ b. key_of a ≢ key_of b) rest × KeysAreDistinct rest

module _ {W : Type 0} where
  find-collect_previous_other :
      (k : AlertKey) (rest : List (AlertInstance W)) (kept : Kept)
      → All (λ b. k ≢ key_of b) rest
      → find AlertKey-discrete k (collect_previous rest kept) ≡ find AlertKey-discrete k kept
  unfolding collect_previous
  find-collect_previous_other k [] kept h = refl
  find-collect_previous_other k (a ∷ rest) kept h = ground (
    arith,
    find-collect_previous_other k rest (put AlertKey-discrete (key_of a) (a.state, a.alert_id) kept)
        h.1,
    find-put AlertKey-discrete (key_of a) k (a.state, a.alert_id) kept,
  )

  find-collect_previous :
      (a : AlertInstance W) (rest : List (AlertInstance W)) (kept : Kept)
      → KeysAreDistinct rest
      → Memᴰ a rest
      → find AlertKey-discrete (key_of a) (collect_previous rest kept) ≡ some (a.state, a.alert_id)
  unfolding collect_previous
  find-collect_previous a [] kept h m = elim m [ ]
  find-collect_previous a (b ∷ rest) kept h (Memᴰ.head e) = ground (
    arith,
    e,
    find-collect_previous_other (key_of b) rest
        (put AlertKey-discrete (key_of b) (b.state, b.alert_id) kept) h.0,
    find-put AlertKey-discrete (key_of b) (key_of b) (b.state, b.alert_id) kept,
  )
  find-collect_previous a (b ∷ rest) kept h (Memᴰ.tail m) =
      find-collect_previous a rest (put AlertKey-discrete (key_of b) (b.state, b.alert_id) kept) h.1
        m

  -- The two maps say the same of the alerts' keys.
  abbrev Agree : List (AlertInstance W) → Kept → Kept → Type 0
  Agree rest m n =
      All (λ a. find AlertKey-discrete (key_of a) m ≡ find AlertKey-discrete (key_of a) n) rest

  Agree-remove :
      (k : AlertKey) (rest : List (AlertInstance W)) (m n : Kept)
      → All (λ b. k ≢ key_of b) rest
      → Agree rest m n
      → Agree rest (remove AlertKey-discrete k m) n
  Agree-remove k [] m n h g = tt
  Agree-remove k (a ∷ rest) m n h g = (
    ground (arith, find-remove AlertKey-discrete k (key_of a) m),
    Agree-remove k rest m n h.1 g.1,
  )

  carry_over-map :
      (rest : List (AlertInstance W)) (m n : Kept)
      → KeysAreDistinct rest
      → Agree rest m n
      → carry_over rest m ≡ map (λ a. restore a (find AlertKey-discrete (key_of a) n)) rest
  unfolding carry_over
  carry_over-map [] m n h g = refl
  carry_over-map (a ∷ rest) m n h g = ap₂ ◌∷◌ (ap (restore a) g.0) (
      carry_over-map rest (remove AlertKey-discrete (key_of a) m) n h.1
        (Agree-remove (key_of a) rest m n h.0 g.1))

all-Agree : {W : Type 0} (rest : List (AlertInstance W)) (m : Kept) → Agree rest m m
all-Agree [] m = tt
all-Agree (a ∷ rest) m = (refl, all-Agree rest m)

-- An alert as the kept states leave it.
abbrev pub restored : {W : Type 0} → Kept → AlertInstance W → AlertInstance W
restored kept a = restore a (find AlertKey-discrete (key_of a) kept)

module _ {W Net : Type 0} ⦃n : IpNet Net⦄ where
  -- After a reload to a configuration whose alerts have keys of their own, the alerts are the
  -- configured ones, in order, with their configured thresholds and times, where each takes over
  -- the state and the id that are kept for its key, if there are any, and else is new.
  pub alerts-reload_config :
      (m : AlertManager W) (config : Config W Net)
      → KeysAreDistinct (configured {W = W} config)
      → (reload_config m config).alerts
        ≡ map (restored (collect_previous m.alerts [])) (configured config)
  unfolding reload_config
  alerts-reload_config m config h =
      carry_over-map (configured config) (collect_previous m.alerts [])
        (collect_previous m.alerts []) h
        (all-Agree (configured config) (collect_previous m.alerts []))

  -- A firing alert is not lost: if the keys of the old alerts are distinct, and those of the
  -- configured ones too, then a configured alert with the key of an old one is there after the
  -- reload, with the state and the id of the old one.
  pub reload_config_keeps :
      (m : AlertManager W) (config : Config W Net) (old new : AlertInstance W)
      → KeysAreDistinct m.alerts
      → KeysAreDistinct (configured {W = W} config)
      → Memᴰ old m.alerts
      → Memᴰ new (configured {W = W} config)
      → key_of old ≡ key_of new
      → Memᴰ
          (record new { state = old.state; alert_id = old.alert_id })
          (reload_config m config).alerts
  reload_config_keeps m config old new distinct distinct' mem mem' same =
      let kept : find AlertKey-discrete (key_of new) (collect_previous m.alerts [])
          ≡ some (old.state, old.alert_id) =
        sym (ap (λ k. find AlertKey-discrete k (collect_previous m.alerts [])) same)
        ∙ find-collect_previous old m.alerts [] distinct mem in
      subst (Memᴰ (record new { state = old.state; alert_id = old.alert_id }))
        (sym (alerts-reload_config m config distinct'))
        (subst
          (λ (a : AlertInstance W).
            Memᴰ a (map (restored (collect_previous m.alerts [])) (configured config)))
          (ap (restore new) kept) (Memᴰ-map (restored (collect_previous m.alerts [])) mem'))
