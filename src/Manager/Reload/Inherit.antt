-- ===== src/Manager/Reload/Inherit.antt =====
-- What a configured alert takes over from the old ones (`reload_config` of src/alert.rs), told without
-- the map of the kept states.
use netalert.Prelude.{◌≡◌, refl, ap, ◌∙◌, List, [], ◌∷◌, Option, none, some, ite, arith, ℕ}
use netalert.Prelude.Assoc.{find, put, find-put}
use netalert.Alert.{AlertState, AlertInstance}
use netalert.Manager.{AlertKey, AlertKey-discrete, key_of}
use netalert.Manager.Reload.{Kept, collect_previous, restore}
use netalert.Manager.Reload.Laws.{restored}

module _ {W : Type 0} where
  -- The one, if there is one, and else the other
  abbrev first_of : Option (AlertInstance W) → Option (AlertInstance W) → Option (AlertInstance W)
  first_of (some a) o = some a
  first_of none o = o

  -- The last alert of the list that has the key
  abbrev pub latest : AlertKey → List (AlertInstance W) → Option (AlertInstance W)
  latest k [] = none
  latest k (a ∷ rest) =
      first_of (latest k rest) (ite (AlertKey-discrete (key_of a) k) (some a) none)

  -- The alert with the state and the id of an old one
  abbrev pub inherit : Option (AlertInstance W) → AlertInstance W → AlertInstance W
  inherit none a = a
  inherit (some old) a = record a { state = old.state; alert_id = old.alert_id }

  abbrev entry_of : Option (AlertInstance W) → Option (AlertState × ℕ) → Option (AlertState × ℕ)
  entry_of none kept = kept
  entry_of (some old) kept = some (old.state, old.alert_id)

  entry_of_first :
      (k : AlertKey) (a : AlertInstance W) (o : Option (AlertInstance W))
      (kept : Option (AlertState × ℕ))
      → entry_of o (ite (AlertKey-discrete (key_of a) k) (some (a.state, a.alert_id)) kept)
        ≡ entry_of (first_of o (ite (AlertKey-discrete (key_of a) k) (some a) none)) kept
  entry_of_first k a none kept = ground arith
  entry_of_first k a (some b) kept = refl

  find-collect_previous-latest :
      (k : AlertKey) (xs : List (AlertInstance W)) (kept : Kept)
      → find AlertKey-discrete k (collect_previous xs kept)
        ≡ entry_of (latest k xs) (find AlertKey-discrete k kept)
  unfolding collect_previous
  find-collect_previous-latest k [] kept = refl
  find-collect_previous-latest k (a ∷ rest) kept =
      find-collect_previous-latest k rest
        (put AlertKey-discrete (key_of a) (a.state, a.alert_id) kept)
      ∙ ap (entry_of (latest k rest))
          (find-put AlertKey-discrete (key_of a) k (a.state, a.alert_id) kept)
      ∙ entry_of_first k a (latest k rest) (find AlertKey-discrete k kept)

  restore-entry_of :
      (a : AlertInstance W) (o : Option (AlertInstance W))
      → restore a (entry_of o none) ≡ inherit o a
  restore-entry_of a none = refl
  restore-entry_of a (some old) = refl

  pub restored-inherit :
      (old : List (AlertInstance W)) (a : AlertInstance W)
      → restored (collect_previous old []) a ≡ inherit (latest (key_of a) old) a
  restored-inherit old a =
      ap (restore a) (find-collect_previous-latest (key_of a) old [])
      ∙ restore-entry_of a (latest (key_of a) old)
