-- ===== src/Manager/Notice.antt =====
-- Which payloads an evaluation sends (src/alert.rs), told from the alerts as they are before it.
pub mod Laws
pub mod Traffic
pub mod Response
use netalert.Prelude.{ℕ, ◌-◌, ◌≤◌, ◌≡◌, false, List, Memᴰ, String}
use netalert.Float.{Float}
use netalert.Alert.{
  normal, pending, firing, recovering, AlertInstance, AlertAction, fire, update, resolve,
}
use netalert.Processor.Rates.{RateSnapshot}
use netalert.Manager.{find_rate}
use netalert.Manager.Evaluate.{AlertPayload, action_name}
use netalert.Manager.Episodes.{Topic, topic_of, topic}

-- The action that an alert is due for at this rate and time.
pub data IsDue {W : Type 0} ⦃f : Float W⦄ (a : AlertInstance W) (rate : W) (now : ℕ)
    : AlertAction → Type 0 where
  triggers :
      (since : ℕ)
      → a.state ≡ pending since
      → f.lt rate a.trigger_threshold ≡ false
      → a.trigger_for ≤ now - since
      → IsDue a rate now fire
  updates :
      (last_update : ℕ)
      → a.state ≡ firing last_update
      → f.lt rate a.recover_threshold ≡ false
      → a.mitigation_update_interval ≤ now - last_update
      → IsDue a rate now update
  resolves :
      (since : ℕ)
      → a.state ≡ recovering since
      → f.ge rate a.recover_threshold ≡ false
      → a.recover_for ≤ now - since
      → IsDue a rate now resolve

-- The threshold that the payload of an action names.
abbrev pub threshold_of : {W : Type 0} → AlertAction → AlertInstance W → W
threshold_of resolve a = a.recover_threshold
threshold_of _ a = a.trigger_threshold

-- What a payload says, beside its id and the rules.
pub record Notice (W : Type 0) : Type 0 where
  pub about : Topic
  pub action : String
  pub value : W
  pub threshold : W
  pub labels : List (String × String)

abbrev pub notice : {W : Type 0} → AlertPayload W → Notice W
notice p = record {
  about = topic p;
  action = p.action;
  value = p.value;
  threshold = p.threshold;
  labels = p.labels;
}

-- What is to be said of an alert that is due at a rate.
abbrev pub notice_of : {W : Type 0} → AlertInstance W → AlertAction → W → Notice W
notice_of a action rate = record {
  about = topic_of a;
  action = action_name action;
  value = rate;
  threshold = threshold_of action a;
  labels = a.labels;
}

-- The rate of an alert.
abbrev pub rate_for : {W : Type 0} ⦃f : Float W⦄ → List (RateSnapshot W) → AlertInstance W → W
rate_for ⦃f⦄ snapshots a =
    find_rate (f.literal 0 1) snapshots a.prefix a.protocol a.direction a.metric

-- Some alert is due for the notice.
abbrev pub IsCalledFor :
    {W : Type 0} ⦃f : Float W⦄
    → List (RateSnapshot W)
    → ℕ
    → List (AlertInstance W)
    → Notice W
    → Type 0
IsCalledFor {W} snapshots now alerts x =
    (a : AlertInstance W) × (action : AlertAction) × Memᴰ a alerts
    × IsDue a (rate_for snapshots a) now action
    × (x ≡ notice_of a action (rate_for snapshots a))
