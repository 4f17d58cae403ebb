-- ===== src/Processor/Reload/Laws.antt =====
-- What a reload leaves of the processor (src/processor.rs).
use netalert.Prelude.{
  ℕ, ◌≤◌, ◌<◌, ◌≡◌, Option, none, some, Bool, arith, get_elem?, length-replicate, get_elem?-eq-none,
  ◌∙◌,
}
use netalert.Prelude.Results.{ok, err}
use netalert.Net.{IpNet, IpNetwork, NetworkTable, TableLaws}
use netalert.Flow.{IpAddr}
use netalert.RingBuffer
use netalert.RingBuffer.{RingBuffer, empty_bucket}
use netalert.Config.{Config, RuleConfig}
use netalert.Processor.{ProcessedRule, FlowProcessor}
use netalert.Processor.Reload.{ProcessorError, from_config, window_of, reload_config}
use netalert.Processor.Reload.Rules.{from_config-All, reload_config-All}
use netalert.Processor.Reload.Table.{holds, count-matching_rules}
use netalert.Processor.Safety.{HasBuckets, RuleIsSafe, IsSafe}

holds-le :
    {Net Network : Type 0} (contains : Network → IpAddr → Bool) (ip : IpAddr)
    (o : Option (ProcessedRule Net Network))
    → holds contains ip o ≤ 1
holds-le contains ip none = omega arith
holds-le contains ip (some r) = ground arith

module _ {Net Network : Type 0} ⦃n : IpNet Net⦄ ⦃w : IpNetwork Network⦄ where
  from_config-RuleIsSafe :
      {W : Type 0} (c : RuleConfig W Net) (window size : ℕ) (r : ProcessedRule Net Network)
      → 0 < window
      → from_config c window size ≡ ok r
      → RuleIsSafe r
  unfolding RingBuffer.new
  from_config-RuleIsSafe c window size r pos h =
      let (rings, empty) =
        from_config-All HasBuckets c window size r
          (λ k. omega (arith, length-replicate window empty_bucket)) h in
      record { rings = rings; captured = rw empty (omega arith) }

module _ {Net Network Table : Type 0} ⦃n : IpNet Net⦄ ⦃w : IpNetwork Network⦄
    ⦃t : NetworkTable Table Network⦄ where
  -- A reload that fails changes nothing.
  pub reload_config_error :
      {W : Type 0} (p p' : FlowProcessor Net Network Table) (config : Config W Net)
      {e : ProcessorError Net}
      → reload_config p config ≡ (p', err e)
      → p' ≡ p
  unfolding reload_config
  reload_config_error p p' config h = ground arith

  -- A reload that succeeds leaves a processor that is safe for every flow, if the new window, or
  -- the old one where the new is under a second, has at least one second.
  pub reload_config-IsSafe :
      (dec : Discrete Network) (contains : Network → IpAddr → Bool)
      (laws : TableLaws t dec contains) {W : Type 0} (p p' : FlowProcessor Net Network Table)
      (config : Config W Net)
      → reload_config p config ≡ (p', ok tt)
      → 0 < window_of p config
      → IsSafe p'
  reload_config-IsSafe dec contains laws p p' config h pos = record {
    in_range = λ ip i le.
        count-matching_rules dec contains laws p p' config ip i h
        ∙ (rw (get_elem?-eq-none p'.rules i le));
    once = λ ip i. omega (
      arith,
      count-matching_rules dec contains laws p p' config ip i h,
      holds-le contains ip (get_elem? p'.rules i),
    );
    rules_safe =
        reload_config-All RuleIsSafe p p' config
          (λ c r made.
            from_config-RuleIsSafe c (window_of p config) config.global.capture_buffer_size r pos
              made)
          h;
  }

  -- The new window is the configured one or the old one: it has a second.
  pub window_of-pos :
      {W : Type 0} (p : FlowProcessor Net Network Table) (c : Config W Net)
      → 0 < p.window_secs
      → 0 < window_of p c
  window_of-pos p c h = ground (arith, h)

  pub reload_config-window_secs :
      {W : Type 0} (p p' : FlowProcessor Net Network Table) (c : Config W Net)
      → reload_config p c ≡ (p', ok tt)
      → p'.window_secs ≡ window_of p c
  unfolding reload_config
  reload_config-window_secs p p' c made = ground (arith, made)
