-- ===== src/Processor/History/Laws.antt =====
-- What a processor holds after a reload and any series of calls (src/processor.rs).
use netalert.Prelude.{
  ℕ, ◌≡◌, refl, sym, ap, subst, ◌∙◌, List, [], ◌∷◌, some, >>=-eq-some, Bool, arith, length,
  get_elem?, All, All-get_elem?,
}
use netalert.Prelude.Assoc.{find, All-find}
use netalert.Prelude.Results.{ok}
use netalert.Net.{IpNet, IpNetwork, NetworkTable, TableLaws}
use netalert.Flow.{IpAddr}
use netalert.RingBuffer.{RingBuffer}
use netalert.RingBuffer
use netalert.RingBuffer.History.{recorded}
use netalert.Config.{Config}
use netalert.Processor.{BufferKey, BufferKey-discrete, ProcessedRule, FlowProcessor, process_flow}
use netalert.Processor.Capture.{drain_captured_flows}
use netalert.Processor.Reload.{reload_config, window_of}
use netalert.Processor.Reload.Rules.{from_config-All, reload_config-All}
use netalert.Processor.Reload.Table.{holds, count-matching_rules}
use netalert.Processor.History.{Call, processes, drains, called, samples_of}
use netalert.Processor.History.Steps.{
  IsSameRule, IsSameRule-trans, process_flow-shape, drain_captured_flows-shape,
  get_elem?-drain_captured_flows, Finds, process_flow-step,
}

module _ {Net Network Table : Type 0} ⦃n : IpNet Net⦄ ⦃w : IpNetwork Network⦄
    ⦃t : NetworkTable Table Network⦄ (includes : Network → IpAddr → Bool) where
  -- A rule after the calls: it is the same, and each of its buffers that were new has recorded the
  -- flows that count for its key.
  abbrev pub HasRecorded :
      FlowProcessor Net Network Table → ℕ → ProcessedRule Net Network → ℕ → List Call → Type 0
  HasRecorded p' i r window h =
      (r' : ProcessedRule Net Network) × (get_elem? p'.rules i ≡ some r')
      × IsSameRule r r'
      × ((key : BufferKey)
          → find BufferKey-discrete key r.buffers ≡ some (RingBuffer.new window)
          → find BufferKey-discrete key r'.buffers
            ≡ recorded window (samples_of includes r.network key h))

  -- No call changes the prefix table or the number of rules.
  pub called-shape :
      (p p' : FlowProcessor Net Network Table) (h : List Call)
      → called p h ≡ some p'
      → (p'.prefix_table ≡ p.prefix_table) × (length p'.rules ≡ length p.rules)
  called-shape p p' [] done = (ground (arith, done), ground (arith, done))
  called-shape p p' (processes flow ∷ h) done =
      let (q, before, now) = >>=-eq-some (called p h) (λ q. process_flow q flow) done in
      let (table, len) = called-shape p q h before in
      let (table', len') = process_flow-shape q p' flow now in (table' ∙ table, len' ∙ len)
  called-shape p p' (drains prefix d ∷ h) done =
      let (q, before, now) =
        >>=-eq-some (called p h) (λ q. some (drain_captured_flows q prefix d).0) done in
      let (table, len) = called-shape p q h before in
      let (table', len') = drain_captured_flows-shape q prefix d in
      let drained : (drain_captured_flows q prefix d).0 ≡ p' = ground (arith, now) in
      (
        sym (ap (λ x. x.prefix_table) drained) ∙ table' ∙ table,
        sym (ap (λ x. length x.rules) drained) ∙ len' ∙ len,
      )

  pub called-HasRecorded :
      (p p' : FlowProcessor Net Network Table) (h : List Call) (i : ℕ)
      (r : ProcessedRule Net Network) (window : ℕ)
      → Finds includes p i r.network
      → get_elem? p.rules i ≡ some r
      → called p h ≡ some p'
      → HasRecorded p' i r window h
  unfolding recorded
  called-HasRecorded p p' [] i r window finds at done =
      let same : p ≡ p' = ground (arith, done) in
      subst (λ x. HasRecorded x i r window []) same (r, at, (refl, refl, refl), λ key fresh. fresh)
  called-HasRecorded p p' (processes flow ∷ h) i r window finds at done =
      let (q, before, now) = >>=-eq-some (called p h) (λ q. process_flow q flow) done in
      let (table, len) = called-shape p q h before in
      let (r₁, at₁, same₁, holds₁) = called-HasRecorded p q h i r window finds at before in
      let (r₂, at₂, same₂, counts) =
        process_flow-step includes q p' flow i r₁ (λ ip. ground (arith, finds ip, table, same₁.1))
          at₁ now in
      (
        r₂,
        at₂,
        IsSameRule-trans r r₁ r₂ same₁ same₂,
        λ key fresh. ground (arith, counts key, holds₁ key fresh, same₁.1),
      )
  called-HasRecorded p p' (drains prefix d ∷ h) i r window finds at done =
      let (q, before, now) =
        >>=-eq-some (called p h) (λ q. some (drain_captured_flows q prefix d).0) done in
      let (r₁, at₁, same₁, holds₁) = called-HasRecorded p q h i r window finds at before in
      let (r₂, at₂, same₂, buffers) = get_elem?-drain_captured_flows q prefix d i r₁ at₁ in
      let drained : (drain_captured_flows q prefix d).0 ≡ p' = ground (arith, now) in
      subst (λ x. HasRecorded x i r window (drains prefix d ∷ h)) drained
        (
          r₂,
          at₂,
          IsSameRule-trans r r₁ r₂ same₁ same₂,
          λ key fresh. ap (find BufferKey-discrete key) buffers ∙ holds₁ key fresh,
        )

module _ {W Net Network Table : Type 0} ⦃n : IpNet Net⦄ ⦃w : IpNetwork Network⦄
    ⦃t : NetworkTable Table Network⦄ (dec : Discrete Network) (includes : Network → IpAddr → Bool)
    (laws : TableLaws t dec includes) where
  pub reload_config-Finds :
      (p p' : FlowProcessor Net Network Table) (config : Config W Net) (i : ℕ)
      (r : ProcessedRule Net Network)
      → reload_config p config ≡ (p', ok tt)
      → get_elem? p'.rules i ≡ some r
      → Finds includes p' i r.network
  reload_config-Finds p p' config i r made at ip =
      count-matching_rules dec includes laws p p' config ip i made ∙ ap (holds includes ip) at

  -- Every buffer is new after a reload.
  reload_config_fresh :
      (p p' : FlowProcessor Net Network Table) (config : Config W Net) (i : ℕ)
      (r : ProcessedRule Net Network) (key : BufferKey) (ring : RingBuffer)
      → reload_config p config ≡ (p', ok tt)
      → get_elem? p'.rules i ≡ some r
      → find BufferKey-discrete key r.buffers ≡ some ring
      → ring ≡ RingBuffer.new (window_of p config)
  reload_config_fresh p p' config i r key ring made at found =
      All-find BufferKey-discrete IsNew key ring r.buffers
        (All-get_elem? (λ s. All IsNew s.buffers) p'.rules i
          (reload_config-All (λ s. All IsNew s.buffers) p p' config
            (λ c s done.
              (from_config-All IsNew c (window_of p config) config.global.capture_buffer_size s
                (λ k. refl) done).0)
            made)
          at)
        found
    where
      IsNew : BufferKey × RingBuffer → Type 0
      IsNew e = e.1 ≡ RingBuffer.new (window_of p config)

  pub reload_config-HasRecorded :
      (p₀ p p' : FlowProcessor Net Network Table) (config : Config W Net) (h : List Call) (i : ℕ)
      (r : ProcessedRule Net Network) (key : BufferKey) (ring : RingBuffer)
      → reload_config p₀ config ≡ (p, ok tt)
      → called p h ≡ some p'
      → get_elem? p.rules i ≡ some r
      → find BufferKey-discrete key r.buffers ≡ some ring
      → (r' : ProcessedRule Net Network) × (get_elem? p'.rules i ≡ some r')
        × IsSameRule r r'
        × (find BufferKey-discrete key r'.buffers
            ≡ recorded (window_of p₀ config) (samples_of includes r.network key h))
  reload_config-HasRecorded p₀ p p' config h i r key ring made done at found =
      let (r', at', same, holds') =
        called-HasRecorded includes p p' h i r (window_of p₀ config)
          (reload_config-Finds p₀ p config i r made at) at done in
      (
        r',
        at',
        same,
        holds' key (found ∙ ap some (reload_config_fresh p₀ p config i r key ring made at found)),
      )
