-- ===== src/Processor/Report.antt =====
-- The rates that an alert is evaluated with (`compute_all_rates` in src/processor.rs and `find_rate`
-- in src/alert.rs): the snapshots of a rule, key by key.
pub mod Rules
pub mod Laws
use netalert.Prelude.{
  ℕ, zero, suc, ◌+◌, ◌≤◌, ◌<◌, ◌≡◌, ◌≢◌, refl, sym, ap, subst, ◌∙◌, inl, inr, List, [], ◌∷◌, ◌++◌,
  Option, none, some, ◌>>=◌, >>=-eq-some, Bool, String, String-discrete, ite, if_pos, if_neg, arith,
  length, get_elem?, All,
}
use netalert.Prelude.Assoc.{find}
use netalert.Prelude.Results.{ok}
use mathlib.Core.Option
use netalert.Float.{Float}
use netalert.Net.{IpNet, IpNetwork, NetworkTable, TableLaws}
use netalert.Flow.{IpAddr}
use netalert.RingBuffer.{RingBuffer, compute_rates}
use netalert.RingBuffer.History.{Sample, recorded, NotAfter, InOrder}
use netalert.RingBuffer.Window.{rates_within, compute_rates-recorded}
use netalert.Config.{Config, ProtocolCategory-discrete, Direction-discrete}
use netalert.Alert.{MetricType, bps, pps, fps}
use netalert.Processor.{BufferKey, BufferKey-discrete, ProcessedRule, FlowProcessor}
use netalert.Processor.Rates.{RateSnapshot, buffer_rates, all_rates, compute_all_rates}
use netalert.Processor.Reload.{reload_config, window_of}
use netalert.Processor.History.{Call, called, samples_of}
use netalert.Processor.History.Steps.{IsSameRule}
use netalert.Manager.{find_rate, rate_of}

-- The rate of a metric among the three of a buffer.
abbrev pub pick : {W : Type 0} → MetricType → W × W × W → W
pick bps (b, p, f) = b
pick pps (b, p, f) = p
pick fps (b, p, f) = f

-- A key is compared part by part.
pub ite-BufferKey :
    {A : Type 0} (k key : BufferKey) (x y : A)
    → ite
        (ProtocolCategory-discrete k.protocol key.protocol)
        (ite (Direction-discrete k.direction key.direction) x y)
        y
      ≡ ite (BufferKey-discrete k key) x y
ite-BufferKey k key x y = elim (ProtocolCategory-discrete k.protocol key.protocol) [
  | no n ↦
      rw (if_neg (ProtocolCategory-discrete k.protocol key.protocol) n)
        (rw (if_neg (BufferKey-discrete k key) (λ e. n (ap (λ x. x.protocol) e))) refl)
  | yes p ↦ elim (Direction-discrete k.direction key.direction) [
    | no n ↦ rw (if_pos (ProtocolCategory-discrete k.protocol key.protocol) p) (
        rw (if_neg (Direction-discrete k.direction key.direction) n)
          (rw (if_neg (BufferKey-discrete k key) (λ e. n (ap (λ x. x.direction) e))) refl))
    | yes d ↦
        let e : k ≡ key = ground (arith, p, d) in
        rw (if_pos (ProtocolCategory-discrete k.protocol key.protocol) p) (
          rw (if_pos (Direction-discrete k.direction key.direction) d)
            (rw (if_pos (BufferKey-discrete k key) e) refl))
  ]
]

module _ {W : Type 0} where
  abbrev pub rates_of : RateSnapshot W → W × W × W
  rates_of s = (s.bps, s.pps, s.fps)

  -- `find_rate` in two steps.
  abbrev pub find_snapshot : List (RateSnapshot W) → String → BufferKey → Option (RateSnapshot W)
  find_snapshot [] prefix key = none
  find_snapshot (s ∷ ss) prefix key =
      let rest = find_snapshot ss prefix key in
      ite (String-discrete s.prefix prefix)
        (ite (ProtocolCategory-discrete s.protocol key.protocol)
          (ite (Direction-discrete s.direction key.direction) (some s) rest) rest)
        rest

  pub find_snapshot-append :
      (ss more : List (RateSnapshot W)) (prefix : String) (key : BufferKey)
      → find_snapshot (ss ++ more) prefix key ≡ elim (find_snapshot ss prefix key) [
        | none ↦ find_snapshot more prefix key
        | some s ↦ some s
      ]
  find_snapshot-append [] more prefix key = refl
  find_snapshot-append (s ∷ ss) more prefix key =
      ground (arith, find_snapshot-append ss more prefix key)

  pub find_rate-find_snapshot :
      (default : W) (ss : List (RateSnapshot W)) (prefix : String) (key : BufferKey)
      (m : MetricType)
      → find_rate default ss prefix key.protocol key.direction m
        ≡ elim (find_snapshot ss prefix key) [ none ↦ default | some s ↦ rate_of m s ]
  unfolding find_rate
  find_rate-find_snapshot default [] prefix key m = refl
  find_rate-find_snapshot default (s ∷ ss) prefix key m =
      ground (arith, find_rate-find_snapshot default ss prefix key m)

module _ {Net Network : Type 0} ⦃n : IpNet Net⦄ where
  -- No other rule has the prefix of rule `i`.
  abbrev pub HasOwnPrefix : List (ProcessedRule Net Network) → ℕ → String → Type 0
  HasOwnPrefix rules i prefix =
      (j : ℕ) (s : ProcessedRule Net Network)
      → get_elem? rules j ≡ some s
      → n.to_string s.prefix ≡ prefix
      → j ≡ i

module _ {W Net Network : Type 0} ⦃f : Float W⦄ ⦃n : IpNet Net⦄ where
  abbrev pub snapshot_of : ProcessedRule Net Network → BufferKey → W × W × W → RateSnapshot W
  snapshot_of rule key rates = record {
    prefix = n.to_string rule.prefix;
    labels = rule.labels;
    protocol = key.protocol;
    direction = key.direction;
    bps = rates.0;
    pps = rates.1;
    fps = rates.2;
  }
