-- ===== src/Manager/Episodes/Ticks.antt =====
-- One evaluation of all alerts (src/alert.rs), seen by the alerts of one topic.
use netalert.Prelude.{
  Option, ℕ, ◌≡◌, ◌≢◌, refl, sym, ap, ◌∙◌, String, List, [], ◌∷◌, ◌++◌, append-nil, All, subst,
}
use netalert.Float.{Float}
use netalert.Net.{IpNet}
use netalert.Flow.{IpAddr}
use netalert.Processor.{FlowProcessor}
use netalert.Processor.Rates.{RateSnapshot}
use netalert.Mitigation.Search.{Groups}
use netalert.Alert
use netalert.Alert.{AlertInstance, AlertAction}
use netalert.Manager.{AlertManager, find_rate}
use netalert.Manager.Evaluate.{AlertPayload, Loop, evaluate_alert, evaluate_alerts, evaluate}
use netalert.Manager.Episodes.{Topic, Topic-discrete, topic_of, about, AreEpisodes}
use netalert.Manager.Episodes.Step.{Follows, evaluate-Continues, act-AreEpisodes}
use netalert.Manager.Episodes.Topics.{about-append, topic_of-act, about-act, about-act_other}

-- No alert is about the topic.
abbrev pub Absent : {W : Type 0} → Topic → List (AlertInstance W) → Type 0
Absent t xs = All (λ a. topic_of a ≢ t) xs

-- At most one alert is.
abbrev pub Once : {W : Type 0} → Topic → List (AlertInstance W) → Type 0
Once t [] = Unit
Once t (a ∷ rest) = (topic_of a ≡ t → Absent t rest) × Once t rest

abbrev pub FollowsOf : {W : Type 0} → Topic → List (AlertPayload W) → AlertInstance W → Type 0
FollowsOf t ps a = topic_of a ≡ t → Follows a.state a.alert_id ps

-- The alerts of the topic, and its payloads so far.
abbrev pub InStep : {W : Type 0} → Topic → List (AlertInstance W) → List (AlertPayload W) → Type 0
InStep t xs ps = Once t xs × All (FollowsOf t ps) xs × AreEpisodes ps

module _ {W : Type 0} where
  pub Absent-FollowsOf :
      (t : Topic) (ps : List (AlertPayload W)) (xs : List (AlertInstance W))
      → Absent t xs
      → All (FollowsOf t ps) xs
  Absent-FollowsOf t ps [] h = tt
  Absent-FollowsOf t ps (a ∷ xs) h = (λ e. absurd (h.0 e), Absent-FollowsOf t ps xs h.1)

  Absent-Once : (t : Topic) (xs : List (AlertInstance W)) → Absent t xs → Once t xs
  Absent-Once t [] h = tt
  Absent-Once t (a ∷ xs) h = (λ e. h.1, Absent-Once t xs h.1)

module _ {W Net Network Table : Type 0} ⦃f : Float W⦄ ⦃n : IpNet Net⦄ (order : Groups → Groups)
    (show : IpAddr → String) (new_v4 : ℕ → ℕ) where
  topic_of-evaluate_alert :
      (a : AlertInstance W) (rate : W) (now : ℕ) (s : Loop Net Network Table)
      → topic_of (evaluate_alert order show new_v4 a rate now s).0 ≡ topic_of a
  unfolding Alert.evaluate
  topic_of-evaluate_alert a rate now s =
      let (b, o) = Alert.evaluate a rate now in topic_of-act order show new_v4 o b rate s

  about-evaluate_alert_other :
      (t : Topic) (a : AlertInstance W) (rate : W) (now : ℕ) (s : Loop Net Network Table)
      → topic_of a ≢ t
      → about t (evaluate_alert order show new_v4 a rate now s).2 ≡ []
  unfolding Alert.evaluate
  about-evaluate_alert_other t a rate now s other =
      let (b, o) = Alert.evaluate a rate now in about-act_other order show new_v4 t o b rate s other

  -- The payloads of the other alerts are about other topics.
  evaluate_alerts_other :
      (t : Topic) (snapshots : List (RateSnapshot W)) (now : ℕ) (xs : List (AlertInstance W))
      (s : Loop Net Network Table)
      → Absent t xs
      → let (xs', _, new) = evaluate_alerts order show new_v4 snapshots now xs s in
        Absent t xs' × (about t new ≡ [])
  unfolding evaluate_alerts
  evaluate_alerts_other t snapshots now [] s h = (tt, refl)
  evaluate_alerts_other t snapshots now (a ∷ rest) s h =
      let rate = find_rate (f.literal 0 1) snapshots a.prefix a.protocol a.direction a.metric in
      let (b, s', sent) = evaluate_alert order show new_v4 a rate now s in
      let more = (evaluate_alerts order show new_v4 snapshots now rest s').2 in
      let (absent, silent) = evaluate_alerts_other t snapshots now rest s' h.1 in
      (
        (λ e. h.0 (sym (topic_of-evaluate_alert a rate now s) ∙ e), absent),
        about-append t sent more
            ∙ (ap (λ ps. ps ++ about t more) (about-evaluate_alert_other t a rate now s h.0)
                ∙ silent),
      )

  -- An evaluation of one alert of the topic.
  evaluate_alert-InStep :
      (t : Topic) (a : AlertInstance W) (rate : W) (now : ℕ) (s : Loop Net Network Table)
      (ps : List (AlertPayload W))
      → topic_of a ≡ t
      → Follows a.state a.alert_id ps
      → AreEpisodes ps
      → let (b, _, new) = evaluate_alert order show new_v4 a rate now s in
        (about t new ≡ new) × Follows b.state b.alert_id (new ++ ps) × AreEpisodes (new ++ ps)
  unfolding Alert.evaluate
  evaluate_alert-InStep t a rate now s ps e h episodes =
      let (b, o) = Alert.evaluate a rate now in
      let (still, now_on) =
        act-AreEpisodes order show new_v4 o b rate s ps (evaluate-Continues a rate now ps h)
          episodes in
      (about-act order show new_v4 t o b rate s e, still, now_on)

  evaluate_alerts-InStep :
      (t : Topic) (snapshots : List (RateSnapshot W)) (now : ℕ) (xs : List (AlertInstance W))
      (s : Loop Net Network Table) (ps : List (AlertPayload W))
      → InStep t xs ps
      → let (xs', _, new) = evaluate_alerts order show new_v4 snapshots now xs s in
        InStep t xs' (about t new ++ ps)
  unfolding evaluate_alerts
  evaluate_alerts-InStep t snapshots now [] s ps h = h
  evaluate_alerts-InStep t snapshots now (a ∷ rest) s ps (once, follows, episodes) =
      let rate = find_rate (f.literal 0 1) snapshots a.prefix a.protocol a.direction a.metric in
      let (b, s', sent) = evaluate_alert order show new_v4 a rate now s in
      let (rest', _, more) = evaluate_alerts order show new_v4 snapshots now rest s' in
      let kept = topic_of-evaluate_alert a rate now s in
      elim (Topic-discrete (topic_of a) t) [
        | yes e ↦
            let (absent, silent) = evaluate_alerts_other t snapshots now rest s' (once.0 e) in
            let (mine, still, now_on) =
              evaluate_alert-InStep t a rate now s ps e (follows.0 e) episodes in
            let new : about t (sent ++ more) ≡ sent =
              about-append t sent more
              ∙ (ap (λ qs. about t sent ++ qs) silent ∙ (append-nil (about t sent) ∙ mine)) in
            subst (λ qs. InStep t (b ∷ rest') (qs ++ ps)) (sym new)
              (
                (λ _. absent, Absent-Once t rest' absent),
                (λ _. still, Absent-FollowsOf t (sent ++ ps) rest' absent),
                now_on,
              )
        | no other ↦
            let (once', follows', now_on) =
              evaluate_alerts-InStep t snapshots now rest s' ps (once.1, follows.1, episodes) in
            let new : about t (sent ++ more) ≡ about t more =
              about-append t sent more
              ∙ ap (λ qs. qs ++ about t more) (about-evaluate_alert_other t a rate now s other) in
            subst (λ qs. InStep t (b ∷ rest') (qs ++ ps)) (sym new)
              (
                (λ e. absurd (other (sym kept ∙ e)), once'),
                (λ e. absurd (other (sym kept ∙ e)), follows'),
                now_on,
              )
      ]

  pub evaluate-InStep :
      (t : Topic) (to_json : AlertPayload W → Option String) (m : AlertManager W)
      (snapshots : List (RateSnapshot W)) (processor : FlowProcessor Net Network Table)
      (now ids : ℕ) (ps : List (AlertPayload W))
      → InStep t m.alerts (about t ps)
      → let (m', _, new, _) = evaluate order show new_v4 to_json m snapshots processor now ids in
        InStep t m'.alerts (about t (new ++ ps))
  unfolding evaluate
  evaluate-InStep t to_json m snapshots processor now ids ps h =
      let s : Loop Net Network Table = record { processor = processor; drained = []; ids = ids } in
      let (alerts, _, new) = evaluate_alerts order show new_v4 snapshots now m.alerts s in
      subst (InStep t alerts) (sym (about-append t new ps))
        (evaluate_alerts-InStep t snapshots now m.alerts s (about t ps) h)
