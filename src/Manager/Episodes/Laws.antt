-- ===== src/Manager/Episodes/Laws.antt =====
-- The payloads of a topic through the evaluations and the reloads (src/alert.rs).
use netalert.Prelude.{ℕ, String, none, List, [], ◌∷◌, Option}
use netalert.Float.{Float}
use netalert.Net.{IpNet}
use netalert.Flow.{IpAddr}
use netalert.Mitigation.Search.{Groups}
use netalert.Manager.{new}
use netalert.Manager.Episodes.{
  Topic, Event, tick, reload, ReloadsAreDistinct, about, AreEpisodes, managed,
}
use netalert.Manager.Episodes.Ticks.{InStep, evaluate-InStep}
use netalert.Manager.Episodes.Reloads.{reload_config-InStep}

module _ {W Net Network Table : Type 0} ⦃f : Float W⦄ ⦃n : IpNet Net⦄ (order : Groups → Groups)
    (show : IpAddr → String) (new_v4 : ℕ → ℕ) where
  managed-InStep :
      (t : Topic) (script : Option String) (h : List (Event W Net Network Table))
      → ReloadsAreDistinct {W = W} h
      → let (m, sent) = managed order show new_v4 (new {W = W} script) h in
        InStep t m.alerts (about t sent)
  unfolding managed
  managed-InStep t script [] distinct = (tt, tt, tt)
  managed-InStep t script (tick snapshots processor now ids ∷ h) distinct =
      let (m, sent) = managed order show new_v4 (new {W = W} script) h in
      evaluate-InStep order show new_v4 t (λ p. none) m snapshots processor now ids sent
        (managed-InStep t script h distinct)
  managed-InStep t script (reload config ∷ h) distinct =
      let (m, sent) = managed order show new_v4 (new {W = W} script) h in
      reload_config-InStep t m config (about t sent) distinct.0
        (managed-InStep t script h distinct.1)

  -- From a manager without alerts, through any series of evaluations, whatever the rates, the
  -- processors, the times and the ids, and of reloads, each to a configuration whose alerts have
  -- keys of their own: the payloads that the script can tell to be about one alert (of one prefix,
  -- protocol, direction and metric) fall into episodes. The first is a trigger; and every update
  -- and resolve has the id of the payload before it, so that of the last trigger, and does not
  -- follow on a resolve.
  managed-AreEpisodes :
      (t : Topic) (script : Option String) (h : List (Event W Net Network Table))
      → ReloadsAreDistinct {W = W} h
      → AreEpisodes (about t (managed order show new_v4 (new {W = W} script) h).1)
  managed-AreEpisodes t script h distinct = (managed-InStep t script h distinct).2
