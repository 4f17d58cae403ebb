-- ===== src/Manager/Reload/Orphans.antt =====
-- The warnings at the end of `AlertManager::reload_config` (src/alert.rs): the alerts that a reload
-- drops while they are active.
mod Entries
pub mod Laws
use netalert.Prelude.{ℕ, List, [], ◌∷◌, Bool, true, false, if◌then◌else◌}
use netalert.Prelude.Assoc.{remove}
use netalert.Net.{IpNet}
use netalert.Config.{Config}
use netalert.Alert.{AlertState, normal, pending, firing, recovering, AlertInstance}
use netalert.Manager.{AlertManager, AlertKey, AlertKey-discrete, key_of}
use netalert.Manager.Reload.{Kept, configured, collect_previous}

-- `matches!(state, AlertState::Normal)`
abbrev pub is_normal : AlertState → Bool
is_normal normal = true
is_normal _ = false

-- What the new alerts leave of the kept states.
unfoldable pub unclaimed : {W : Type 0} → List (AlertInstance W) → Kept → Kept
unclaimed [] previous = previous
unclaimed (a ∷ rest) previous = unclaimed rest (remove AlertKey-discrete (key_of a) previous)

-- The keys of the active ones.
abbrev pub active : Kept → List AlertKey
active [] = []
active ((key, (state, alert_id)) ∷ previous) =
    let rest = active previous in if is_normal state then rest else key ∷ rest

-- The alerts that the reload warns of.
unfoldable pub orphaned :
    {W Net : Type 0} ⦃n : IpNet Net⦄ → AlertManager W → Config W Net → List AlertKey
orphaned {W} m config =
    active (unclaimed (configured {W = W} config) (collect_previous m.alerts []))
