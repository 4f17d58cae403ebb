-- ===== src/Manager/Episodes.antt =====
-- The payloads of one alert through the evaluations and the reloads of the manager (src/alert.rs),
-- told apart by the texts that the script can see.
mod Step
pub mod Topics
pub mod Ticks
pub mod Reloads
pub mod Laws
use netalert.Prelude.{ℕ, ◌≡◌, ◌≢◌, String, String-discrete, List, [], ◌∷◌, ◌++◌, none, ite}
use netalert.Float.{Float}
use netalert.Net.{IpNet}
use netalert.Flow.{IpAddr}
use netalert.Config.{Config, category_name, direction_name}
use netalert.Processor.{FlowProcessor}
use netalert.Processor.Rates.{RateSnapshot}
use netalert.Mitigation.Search.{Groups}
use netalert.Alert.{AlertInstance}
use netalert.Manager.{AlertManager}
use netalert.Manager.Evaluate.{AlertPayload, metric_name, evaluate}
use netalert.Manager.Reload.{configured, reload_config}
use netalert.Manager.Reload.Laws.{KeysAreDistinct}

-- What a payload says of the alert that sent it.
pub record Topic : Type 0 where
  pub prefix : String
  pub protocol : String
  pub direction : String
  pub metric : String

unfoldable pub Topic-discrete : Discrete Topic
Topic-discrete = hlevel (String-discrete)

abbrev pub topic_of : {W : Type 0} → AlertInstance W → Topic
topic_of a = record {
  prefix = a.prefix;
  protocol = category_name a.protocol;
  direction = direction_name a.direction;
  metric = metric_name a.metric;
}

abbrev pub topic : {W : Type 0} → AlertPayload W → Topic
topic p = record {
  prefix = p.prefix;
  protocol = p.protocol;
  direction = p.direction;
  metric = p.metric;
}

-- The payloads of one topic, in order.
abbrev pub about : {W : Type 0} → Topic → List (AlertPayload W) → List (AlertPayload W)
about t [] = []
about t (p ∷ ps) = let rest = about t ps in ite (Topic-discrete (topic p) t) (p ∷ rest) rest

-- The payloads, newest first, are episodes: the first of all is a trigger, and each that is no
-- trigger has the id of the one before it, which is no resolve.
abbrev pub AreEpisodes : {W : Type 0} → List (AlertPayload W) → Type 0
AreEpisodes [] = Unit
AreEpisodes (p ∷ []) = p.action ≡ "trigger"
AreEpisodes (p ∷ q ∷ ps) =
    (p.action ≢ "trigger" → (p.alert_id ≡ q.alert_id) × (q.action ≢ "resolve"))
    × AreEpisodes (q ∷ ps)

-- What happens to the manager: an evaluation, with the rates, the processor, the time and the count
-- of ids of that moment, or a reload.
pub data Event (W Net Network Table : Type 0) : Type 0 where
  tick : List (RateSnapshot W) → FlowProcessor Net Network Table → ℕ → ℕ → Event W Net Network Table
  reload : Config W Net → Event W Net Network Table

-- The configurations give their alerts keys of their own.
abbrev pub ReloadsAreDistinct :
    {W Net Network Table : Type 0} ⦃n : IpNet Net⦄ → List (Event W Net Network Table) → Type 0
ReloadsAreDistinct [] = Unit
ReloadsAreDistinct (tick _ _ _ _ ∷ h) = ReloadsAreDistinct h
ReloadsAreDistinct {W} (reload config ∷ h) =
    KeysAreDistinct (configured {W = W} config) × ReloadsAreDistinct h

module _ {W Net Network Table : Type 0} ⦃f : Float W⦄ ⦃n : IpNet Net⦄ (order : Groups → Groups)
    (show : IpAddr → String) (new_v4 : ℕ → ℕ) where
  abbrev pub happen :
      AlertManager W → Event W Net Network Table → AlertManager W × List (AlertPayload W)
  happen m (tick snapshots processor now ids) =
      let (m', _, payloads, _) =
        evaluate order show new_v4 (λ p. none) m snapshots processor now ids in
      (m', payloads)
  happen m (reload config) = (reload_config m config, [])

  -- The manager after the events, newest first, and what it sent, that of the newest event first.
  unfoldable pub managed :
      AlertManager W → List (Event W Net Network Table) → AlertManager W × List (AlertPayload W)
  managed m [] = (m, [])
  managed m (e ∷ h) =
      let (m', sent) = managed m h in let (m'', payloads) = happen m' e in (m'', payloads ++ sent)
