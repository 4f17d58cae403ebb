-- ===== src/Daemon/Episodes/Laws.antt =====
-- The payloads of a run of all tasks of src/main.rs that are about one alert.
use netalert.Prelude.{ℕ, ◌≡◌, refl, String, List, [], ◌∷◌, ◌++◌, Option, none, some, All, subst}
use netalert.Prelude.Results.{ok}
use netalert.Float.{Float}
use netalert.Net.{IpNet, IpNetwork, NetworkTable}
use netalert.Flow.{IpAddr}
use netalert.Config.{Config}
use netalert.Config.Validate.{load}
use netalert.Mitigation.Search.{Groups}
use netalert.Manager.Reload.{configured}
use netalert.Manager.Reload.Laws.{KeysAreDistinct}
use netalert.Manager.Evaluate.{AlertPayload}
use netalert.Manager.Episodes.{Topic, about, AreEpisodes}
use netalert.Manager.Episodes.Reloads.{reload_config-InStep}
use netalert.Manager.{new}
use netalert.Daemon.Start.{Args, main, serves, initial}
use netalert.Daemon.Start.Laws.{main_serves_inv, start_with_inv}
use netalert.Daemon.{Daemon, Event, step}
use netalert.Daemon.Episodes.{LoadsDistinct, sends, run_sends}
use netalert.Daemon.Episodes.Steps.{IsInStep, step-IsInStep}

module _ {W Net Network Table : Type 0} ⦃f : Float W⦄ ⦃n : IpNet Net⦄ ⦃w : IpNetwork Network⦄
    ⦃t : NetworkTable Table Network⦄ (order : Groups → Groups) (show : IpAddr → String)
    (new_v4 : ℕ → ℕ) (to_json : AlertPayload W → Option String) where
  run_sends-AreEpisodes :
      (topic : Topic) (es : List (Event W Net)) (d : Daemon W Net Network Table)
      (ps : List (AlertPayload W))
      → All LoadsDistinct es
      → IsInStep topic d ps
      → AreEpisodes (about topic (run_sends order show new_v4 to_json es d ps))
  unfolding run_sends
  run_sends-AreEpisodes topic [] d ps distinct h = h.0.2
  run_sends-AreEpisodes topic (e ∷ es) d ps distinct h =
      go (step order show new_v4 to_json e d) refl (λ d' at.
        run_sends-AreEpisodes topic es d' (sends order show new_v4 to_json e d ++ ps) distinct.1 at)
    where
      go :
          (o : Option (Daemon W Net Network Table))
          → step order show new_v4 to_json e d ≡ o
          → ((d' : Daemon W Net Network Table)
              → IsInStep topic d' (sends order show new_v4 to_json e d ++ ps)
              → AreEpisodes (
                  about topic (
                    run_sends order show new_v4 to_json es d'
                      (sends order show new_v4 to_json e d ++ ps))))
          → AreEpisodes (
              about topic (elim o as (λ x. List (AlertPayload W)) [
                | none ↦ ps
                | some d' ↦
                    run_sends order show new_v4 to_json es d'
                      (sends order show new_v4 to_json e d ++ ps)
              ]))
      go none failed later = h.0.2
      go (some d') done later =
          later d' (step-IsInStep order show new_v4 to_json topic e d d' ps distinct.0 h done)

  -- What the script is told of one alert of the daemon. If the configuration that the daemon starts
  -- with, and every one that it reloads, gives its alerts keys of their own, then through any series
  -- of steps of the receivers, the flow task, the ticker and the reloads, up to a panic if there is
  -- one, the payloads of the ticker that are about one prefix, protocol, direction and metric fall
  -- into episodes: the first is a trigger, and every update and resolve has the id of the payload
  -- before it, so that of the last trigger, and does not follow on a resolve.
  pub main-AreEpisodes :
      (read_to_string : String → Option String) (from_str : String → Option (Config W Net))
      (args : Args) (config : Config W Net) (d : Daemon W Net Network Table) (topic : Topic)
      (es : List (Event W Net))
      → load read_to_string from_str args.config ≡ ok config
      → main read_to_string from_str args ≡ serves d
      → KeysAreDistinct (configured {W = W} config)
      → All LoadsDistinct es
      → AreEpisodes (about topic (run_sends order show new_v4 to_json es d []))
  main-AreEpisodes read_to_string from_str args config d topic es loaded serving first distinct =
      let done = main_serves_inv read_to_string from_str args config d loaded serving in
      let (p, made, same) = start_with_inv config d done in
      let started : IsInStep topic (initial config p) [] = (
        reload_config-InStep topic (new {W = W} config.global.alert_script) config [] first
            (tt, tt, tt),
        tt,
      ) in
      run_sends-AreEpisodes topic es d [] distinct (subst (λ x. IsInStep topic x []) same started)
