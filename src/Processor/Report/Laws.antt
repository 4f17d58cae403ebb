-- ===== src/Processor/Report/Laws.antt =====
-- The rate that an alert is evaluated with, against the history of the flows (src/processor.rs and
-- `find_rate` in src/alert.rs).
use netalert.Prelude.{
  ℕ, ◌≤◌, ◌<◌, ◌≡◌, sym, ap, subst, ◌∙◌, String, List, Option, none, some, ◌>>=◌, Bool, arith,
  length, get_elem?, lt_of_get_elem?, get_elem?_total,
}
use netalert.Prelude.Assoc.{find}
use netalert.Prelude.Results.{ok}
use mathlib.Core.Option
use netalert.Float.{Float}
use netalert.Net.{IpNet, IpNetwork, NetworkTable, TableLaws}
use netalert.Flow.{IpAddr}
use netalert.RingBuffer.{RingBuffer, compute_rates}
use netalert.RingBuffer.History.{NotAfter, InOrder}
use netalert.RingBuffer.Window.{rates_within, compute_rates-recorded}
use netalert.Config.{Config}
use netalert.Alert.{MetricType, bps, pps, fps}
use netalert.Processor.{BufferKey, BufferKey-discrete, ProcessedRule, FlowProcessor}
use netalert.Processor.Rates.{RateSnapshot, compute_all_rates}
use netalert.Processor.Reload.{reload_config, window_of}
use netalert.Processor.History.{Call, called, samples_of}
use netalert.Processor.Ready.{all_rates_total}
use netalert.Processor.History.Total.{reload_config-called_total}
use netalert.Processor.History.Laws.{
  called-shape, called-HasRecorded, reload_config-Finds, reload_config-HasRecorded,
}
use netalert.Processor.Report.{pick, HasOwnPrefix, rates_of, find_snapshot, find_rate-find_snapshot}
use netalert.Processor.Report.Rules.{find_snapshot-all_rates}
use netalert.Manager.{find_rate, rate_of}

rate_of-pick :
    {W : Type 0} (default : W) (o : Option (RateSnapshot W)) (rates : W × W × W) (m : MetricType)
    → Option.map rates_of o ≡ some rates
    → elim o [ none ↦ default | some s ↦ rate_of m s ] ≡ pick m rates
rate_of-pick default none rates m h = absurd (cc)
rate_of-pick default (some s) rates bps h = ground (arith, h)
rate_of-pick default (some s) rates pps h = ground (arith, h)
rate_of-pick default (some s) rates fps h = ground (arith, h)

module _ {W Net Network Table : Type 0} ⦃f : Float W⦄ ⦃n : IpNet Net⦄ ⦃w : IpNetwork Network⦄
    ⦃t : NetworkTable Table Network⦄ (dec : Discrete Network) (includes : Network → IpAddr → Bool)
    (laws : TableLaws t dec includes) where
  -- The calls leave a rule the only one with its prefix.
  called-HasOwnPrefix :
      (p₀ p p' : FlowProcessor Net Network Table) (config : Config W Net) (h : List Call) (i : ℕ)
      (prefix : String)
      → reload_config p₀ config ≡ (p, ok tt)
      → called p h ≡ some p'
      → HasOwnPrefix p.rules i prefix
      → HasOwnPrefix p'.rules i prefix
  called-HasOwnPrefix p₀ p p' config h i prefix made done own j s at same =
      let below : j < length p.rules =
        subst (λ x. j < x) (called-shape includes p p' h done).1 (lt_of_get_elem? p'.rules j at) in
      let (s₀, at₀) = get_elem?_total p.rules j below in
      let (s₁, at₁, same₁, _) =
        called-HasRecorded includes p p' h j s₀ (window_of p₀ config)
          (reload_config-Finds dec includes laws p₀ p config j s₀ made at₀) at₀ done in
      let is : s₁ ≡ s = ground (arith, at, at₁) in
      own j s₀ at₀ (ap n.to_string (sym same₁.0 ∙ ap (λ x. x.prefix) is) ∙ same)

  find_rate-reported :
      (p₀ p p' : FlowProcessor Net Network Table) (config : Config W Net) (h : List Call) (i : ℕ)
      (r : ProcessedRule Net Network) (key : BufferKey) (ring : RingBuffer) (now : ℕ)
      (ss : List (RateSnapshot W)) (default : W) (m : MetricType)
      → reload_config p₀ config ≡ (p, ok tt)
      → called p h ≡ some p'
      → get_elem? p.rules i ≡ some r
      → find BufferKey-discrete key r.buffers ≡ some ring
      → HasOwnPrefix p.rules i (n.to_string r.prefix)
      → 0 < window_of p₀ config
      → window_of p₀ config ≤ now
      → NotAfter now (samples_of includes r.network key h)
      → InOrder (window_of p₀ config) (samples_of includes r.network key h)
      → compute_all_rates p' now ≡ some ss
      → find_rate default ss (n.to_string r.prefix) key.protocol key.direction m
        ≡ pick m (rates_within (window_of p₀ config) now (samples_of includes r.network key h))
  unfolding compute_all_rates
  find_rate-reported p₀ p p' config h i r key ring now ss default m made done at found own pos le
        past order computed =
      let (r', at', same, holds) =
        reload_config-HasRecorded dec includes laws p₀ p p' config h i r key ring made done at
          found in
      let window = window_of p₀ config in
      let samples = samples_of includes r.network key h in
      let own' = called-HasOwnPrefix p₀ p p' config h i (n.to_string r.prefix) made done own in
      let prefix' : n.to_string r'.prefix ≡ n.to_string r.prefix = ap n.to_string same.0 in
      let rated =
        subst
          (λ x.
            Option.map rates_of (find_snapshot ss x key)
            ≡ (find BufferKey-discrete key r'.buffers >>= λ b. compute_rates b now))
          prefix'
          (find_snapshot-all_rates p'.rules now ss i r' key
            (subst (HasOwnPrefix p'.rules i) (sym prefix') own') at' computed) in
      find_rate-find_snapshot default ss (n.to_string r.prefix) key m
      ∙ rate_of-pick default (find_snapshot ss (n.to_string r.prefix) key)
          (rates_within window now samples) m
          (rated
            ∙ ap (λ o. o >>= λ b. compute_rates b now) holds
            ∙ compute_rates-recorded window now samples pos le past order)

  -- After a reload with a window of at least a second, any series of flows and drains goes through,
  -- and the rates are computed; the rate that an alert then reads for a rule whose prefix no other
  -- rule has, for a category and a direction of it and a metric, is the 64-bit sum of the bytes
  -- (times 8), packets or flows of exactly the flows that count for the rule and lie in the last
  -- `window` seconds, divided by the window, or zero if none does, provided that the clock has run
  -- for a whole window (`window ≤ now`), that no flow is later than `now`, and that none arrived a
  -- whole window late.
  pub find_rate-called :
      (p₀ p : FlowProcessor Net Network Table) (config : Config W Net) (h : List Call) (i : ℕ)
      (r : ProcessedRule Net Network) (key : BufferKey) (ring : RingBuffer) (now : ℕ) (default : W)
      (m : MetricType)
      → reload_config p₀ config ≡ (p, ok tt)
      → get_elem? p.rules i ≡ some r
      → find BufferKey-discrete key r.buffers ≡ some ring
      → HasOwnPrefix p.rules i (n.to_string r.prefix)
      → 0 < window_of p₀ config
      → window_of p₀ config ≤ now
      → NotAfter now (samples_of includes r.network key h)
      → InOrder (window_of p₀ config) (samples_of includes r.network key h)
      → (p' : FlowProcessor Net Network Table) × (ss : List (RateSnapshot W)) × (called p h
          ≡ some p')
        × (compute_all_rates p' now ≡ some ss)
        × (find_rate default ss (n.to_string r.prefix) key.protocol key.direction m
            ≡ pick m (rates_within (window_of p₀ config) now (samples_of includes r.network key h)))
  unfolding compute_all_rates
  find_rate-called p₀ p config h i r key ring now default m made at found own pos le past order =
      let (p', done, ready) = reload_config-called_total dec includes laws p₀ p config h made pos in
      let (ss, computed) = all_rates_total {W = W} p'.rules now ready.0.rules_safe in
      (
        p',
        ss,
        done,
        computed,
        find_rate-reported p₀ p p' config h i r key ring now ss default m made done at found own pos
            le past order computed,
      )
