-- ===== src/Prometheus/Server.antt =====
-- The thread of the metrics endpoint: `spawn` of src/prometheus.rs, over the outcome of binding the
-- address and the requests that come in, each with what the shared state holds at that moment.
use netalert.Prelude.{String, List, [], ◌∷◌, Bool, if◌then◌else◌}
use netalert.Float.{Float}
use netalert.Processor.Rates.{RateSnapshot}
use netalert.Manager.{AlertStateSnapshot}
use netalert.Daemon.{HealthMetrics}
use netalert.Prometheus.{respond}

pub record Request (W : Type 0) : Type 0 where
  pub url : String
  pub snapshots : List (RateSnapshot W)
  pub alert_states : List AlertStateSnapshot
  pub health : HealthMetrics

pub record Response : Type 0 where
  pub body : String
  pub content_type : String

module _ {W : Type 0} ⦃f : Float W⦄ (show : W → String) where
  abbrev pub answer : Request W → Response
  answer r = record {
    body = respond show r.url r.snapshots r.alert_states r.health;
    content_type = "text/plain; version=0.0.4; charset=utf-8";
  }

  abbrev pub serve : List (Request W) → List Response
  serve [] = []
  serve (r ∷ rest) = answer r ∷ serve rest

  -- Without its address the thread returns, and nobody is answered.
  abbrev pub spawn : (String → Bool) → String → List (Request W) → List Response
  spawn bind addr requests = if bind addr then serve requests else []
