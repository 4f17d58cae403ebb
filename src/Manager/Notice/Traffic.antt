-- ===== src/Manager/Notice/Traffic.antt =====
-- What an evaluation tells of an alert (src/alert.rs) and the flows that the processor was given
-- (src/processor.rs).
use netalert.Prelude.{
  ℕ, ◌≤◌, ◌<◌, ◌≡◌, ◌≢◌, refl, sym, ap, subst, ◌∙◌, ◌↔◌, String, String-discrete, List, [], ◌∷◌,
  Option, some, Bool, Memᴰ, map, get_elem?, All-Memᴰ,
}
use netalert.Prelude.Assoc.{find}
use netalert.Prelude.Results.{ok}
use netalert.Float.{Float}
use netalert.Net.{IpNet, IpNetwork, NetworkTable, TableLaws}
use netalert.Flow.{IpAddr}
use netalert.RingBuffer.{RingBuffer}
use netalert.RingBuffer.History.{NotAfter, InOrder}
use netalert.RingBuffer.Window.{rates_within}
use netalert.Config.{Config}
use netalert.Processor.{BufferKey, BufferKey-discrete, ProcessedRule, FlowProcessor}
use netalert.Processor.Rates.{RateSnapshot, compute_all_rates}
use netalert.Processor.Reload.{reload_config, window_of}
use netalert.Processor.History.{Call, called, samples_of}
use netalert.Processor.Report.{pick, HasOwnPrefix}
use netalert.Processor.Report.Laws.{find_rate-called}
use netalert.Mitigation.Search.{Groups}
use netalert.Alert.{AlertInstance, AlertAction, fire, update, resolve}
use netalert.Manager.{AlertManager, key_of, find_rate}
use netalert.Manager.Reload.Laws.{KeysAreDistinct}
use netalert.Manager.Evaluate.{AlertPayload, action_name, evaluate}
use netalert.Manager.Episodes.Topics.{topic_of_inj, name_inj}
use netalert.Manager.Notice.{IsDue, notice, notice_of, rate_for}
use netalert.Manager.Notice.Laws.{evaluate_notifies}

abbrev action_names : List (String × AlertAction)
action_names = ("trigger", fire) ∷ ("update", update) ∷ ("resolve", resolve) ∷ []

find-action_name : (o : AlertAction) → find String-discrete (action_name o) action_names ≡ some o
unfolding String-discrete
find-action_name fire = refl
find-action_name update = refl
find-action_name resolve = refl

-- The flows that an alert of a rule counts.
abbrev pub buffer_of : {W : Type 0} → AlertInstance W → BufferKey
buffer_of a = record { protocol = a.protocol; direction = a.direction }

module _ {W : Type 0} where
  -- Of alerts with keys of their own, two of one key are one alert.
  KeysAreDistinct-eq :
      (xs : List (AlertInstance W)) (a b : AlertInstance W)
      → KeysAreDistinct xs
      → Memᴰ a xs
      → Memᴰ b xs
      → key_of a ≡ key_of b
      → a ≡ b
  KeysAreDistinct-eq [] a b h m m' e = elim m [ ]
  KeysAreDistinct-eq (x ∷ xs) a b h (Memᴰ.head p) (Memᴰ.head q) e = p ∙ sym q
  KeysAreDistinct-eq (x ∷ xs) a b h (Memᴰ.head p) (Memᴰ.tail m') e =
      absurd (All-Memᴰ (λ c. key_of x ≢ key_of c) xs m' h.0 (sym (ap key_of p) ∙ e))
  KeysAreDistinct-eq (x ∷ xs) a b h (Memᴰ.tail m) (Memᴰ.head q) e =
      absurd (All-Memᴰ (λ c. key_of x ≢ key_of c) xs m h.0 (sym (ap key_of q) ∙ sym e))
  KeysAreDistinct-eq (x ∷ xs) a b h (Memᴰ.tail m) (Memᴰ.tail m') e =
      KeysAreDistinct-eq xs a b h.1 m m' e

module _ {W Net Network Table : Type 0} ⦃f : Float W⦄ ⦃n : IpNet Net⦄ (order : Groups → Groups)
    (show : IpAddr → String) (new_v4 : ℕ → ℕ) where
  -- An evaluation tells what an alert is due for, and of it nothing else.
  evaluate_tells :
      (to_json : AlertPayload W → Option String) (m : AlertManager W)
      (snapshots : List (RateSnapshot W)) (processor : FlowProcessor Net Network Table)
      (now ids : ℕ) (a : AlertInstance W) (o : AlertAction)
      → KeysAreDistinct m.alerts
      → Memᴰ a m.alerts
      → let rate = rate_for snapshots a in
        IsDue a rate now o
        ↔ Memᴰ
            (notice_of a o rate)
            (map notice (evaluate order show new_v4 to_json m snapshots processor now ids).2)
  evaluate_tells to_json m snapshots processor now ids a o distinct mem =
      let rate = rate_for snapshots a in
      let (sound, complete) =
        evaluate_notifies order show new_v4 to_json m snapshots processor now ids
          (notice_of a o rate) in
      (
        λ due. complete (a, o, mem, due, refl),
        λ told.
            let (b, o', mem', due, e) = sound told in
            let key : key_of a ≡ key_of b = topic_of_inj a b (ap (λ x. x.about) e) in
            let same : a ≡ b = KeysAreDistinct-eq m.alerts a b distinct mem mem' key in
            let action : o ≡ o' =
              name_inj action_name action_names find-action_name o o' (ap (λ x. x.action) e) in
            subst (λ p. IsDue a (rate_for snapshots a) now p) (sym action)
              (subst (λ x. IsDue x (rate_for snapshots x) now o') (sym same) due),
      )

module _ {W Net Network Table : Type 0} ⦃f : Float W⦄ ⦃n : IpNet Net⦄ ⦃w : IpNetwork Network⦄
    ⦃t : NetworkTable Table Network⦄ (dec : Discrete Network) (includes : Network → IpAddr → Bool)
    (laws : TableLaws t dec includes) (order : Groups → Groups) (show : IpAddr → String)
    (new_v4 : ℕ → ℕ) where
  -- From the flows to the script. After a reload with a window of at least a second, any series of
  -- flows and drains goes through, and the rates are computed. If the manager has alerts with keys
  -- of their own, one of them for a rule whose prefix no other rule has, then the evaluation with
  -- these rates sends a payload with an action about this alert if and only if the alert is due for
  -- the action at the rate of exactly the flows that count for the rule, with the protocol and the
  -- direction of the alert, and lie in the last `window` seconds; and that rate is the value in the
  -- payload. No flow is later than `now`, none arrived a whole window late, and `now` is not below
  -- the window.
  pub evaluate-called :
      (p₀ p : FlowProcessor Net Network Table) (config : Config W Net) (h : List Call) (i : ℕ)
      (r : ProcessedRule Net Network) (ring : RingBuffer) (now : ℕ)
      (to_json : AlertPayload W → Option String) (m : AlertManager W) (instant ids : ℕ)
      (a : AlertInstance W)
      → reload_config p₀ config ≡ (p, ok tt)
      → get_elem? p.rules i ≡ some r
      → find BufferKey-discrete (buffer_of a) r.buffers ≡ some ring
      → HasOwnPrefix p.rules i (n.to_string r.prefix)
      → 0 < window_of p₀ config
      → window_of p₀ config ≤ now
      → NotAfter now (samples_of includes r.network (buffer_of a) h)
      → InOrder (window_of p₀ config) (samples_of includes r.network (buffer_of a) h)
      → KeysAreDistinct m.alerts
      → Memᴰ a m.alerts
      → a.prefix ≡ n.to_string r.prefix
      → let rate = pick {W = W} a.metric (
          rates_within (window_of p₀ config) now (samples_of includes r.network (buffer_of a) h)) in
        (p' : FlowProcessor Net Network Table) × (ss : List (RateSnapshot W)) × (called p h
          ≡ some p')
        × (compute_all_rates p' now ≡ some ss)
        × ((o : AlertAction)
            → IsDue a rate instant o
              ↔ Memᴰ
                  (notice_of a o rate)
                  (map notice (evaluate order show new_v4 to_json m ss p' instant ids).2))
  evaluate-called p₀ p config h i r ring now to_json m instant ids a made at found own pos le past
        ordered distinct mem prefix =
      let (p', ss, done, computed, is) =
        find_rate-called dec includes laws p₀ p config h i r (buffer_of a) ring now (f.literal 0 1)
          a.metric made at found own pos le past ordered in
      let rate_is : rate_for ss a
          ≡ pick a.metric (
              rates_within (window_of p₀ config) now
                (samples_of includes r.network (buffer_of a) h)) =
        ap (λ s. find_rate (f.literal 0 1) ss s a.protocol a.direction a.metric) prefix ∙ is in
      (
        p',
        ss,
        done,
        computed,
        λ o.
            subst
              (λ v.
                IsDue a v instant o
                ↔ Memᴰ (notice_of a o v)
                    (map notice (evaluate order show new_v4 to_json m ss p' instant ids).2))
              rate_is
              (evaluate_tells order show new_v4 to_json m ss p' instant ids a o distinct mem),
      )
