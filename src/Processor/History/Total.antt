-- ===== src/Processor/History/Total.antt =====
-- Panics in a series of calls of the processor (src/processor.rs).
use netalert.Prelude.{ℕ, ◌<◌, ◌≡◌, refl, List, [], ◌∷◌, some, Bool, get_elem?}
use netalert.Prelude.Assoc.{find}
use netalert.Prelude.Results.{ok}
use netalert.Net.{IpNet, IpNetwork, NetworkTable, TableLaws}
use netalert.Flow.{IpAddr}
use netalert.RingBuffer.{RingBuffer}
use netalert.RingBuffer.History.{recorded}
use netalert.Config.{Config}
use netalert.Processor.{BufferKey, BufferKey-discrete, ProcessedRule, FlowProcessor}
use netalert.Processor.Reload.{reload_config, window_of}
use netalert.Processor.Reload.Laws.{reload_config-IsSafe, reload_config-window_secs}
use netalert.Processor.Capture.{drain_captured_flows}
use netalert.Processor.Ready.{IsReady, process_flow-IsReady, drain_captured_flows-IsReady}
use netalert.Processor.History.{Call, processes, drains, called, samples_of}
use netalert.Processor.History.Steps.{IsSameRule}
use netalert.Processor.History.Laws.{reload_config-HasRecorded}

module _ {Net Network Table : Type 0} ⦃n : IpNet Net⦄ ⦃t : NetworkTable Table Network⦄ where
  pub called_total :
      (p : FlowProcessor Net Network Table) (h : List Call)
      → IsReady p
      → (p' : FlowProcessor Net Network Table) × (called p h ≡ some p') × IsReady p'
  called_total p [] ready = (p, refl, ready)
  called_total p (processes flow ∷ h) ready =
      let (q, before, ready_q) = called_total p h ready in
      let (p', now, ready') = process_flow-IsReady q flow ready_q in (p', rw before now, ready')
  called_total p (drains prefix d ∷ h) ready =
      let (q, before, ready_q) = called_total p h ready in
      (
        (drain_captured_flows q prefix d).0,
        rw before refl,
        drain_captured_flows-IsReady q prefix d ready_q,
      )

module _ {W Net Network Table : Type 0} ⦃n : IpNet Net⦄ ⦃w : IpNetwork Network⦄
    ⦃t : NetworkTable Table Network⦄ (dec : Discrete Network) (includes : Network → IpAddr → Bool)
    (laws : TableLaws t dec includes) where
  pub reload_config-called_total :
      (p₀ p : FlowProcessor Net Network Table) (config : Config W Net) (h : List Call)
      → reload_config p₀ config ≡ (p, ok tt)
      → 0 < window_of p₀ config
      → (p' : FlowProcessor Net Network Table) × (called p h ≡ some p') × IsReady p'
  reload_config-called_total p₀ p config h made pos = called_total p h (
    reload_config-IsSafe dec includes laws p₀ p config made pos,
    rw (reload_config-window_secs p₀ p config made) pos,
  )

  -- After a reload with a window of at least a second, any series of flows and drains goes through,
  -- and then the buffer of a rule's category and direction is a new one that has recorded, in order,
  -- exactly the flows of that category with just their one end in the rule's network, as the
  -- direction says; the rule keeps its place, prefix, network and labels.
  pub reload_config-called :
      (p₀ p : FlowProcessor Net Network Table) (config : Config W Net) (h : List Call) (i : ℕ)
      (r : ProcessedRule Net Network) (key : BufferKey) (ring : RingBuffer)
      → reload_config p₀ config ≡ (p, ok tt)
      → get_elem? p.rules i ≡ some r
      → find BufferKey-discrete key r.buffers ≡ some ring
      → 0 < window_of p₀ config
      → (p' : FlowProcessor Net Network Table) × (r' : ProcessedRule Net Network) × (called p h
          ≡ some p')
        × (get_elem? p'.rules i ≡ some r')
        × IsSameRule r r'
        × (find BufferKey-discrete key r'.buffers
            ≡ recorded (window_of p₀ config) (samples_of includes r.network key h))
  reload_config-called p₀ p config h i r key ring made at found pos =
      let (p', done, ready) = reload_config-called_total p₀ p config h made pos in
      let (r', at', same, holds) =
        reload_config-HasRecorded dec includes laws p₀ p p' config h i r key ring made done at
          found in
      (p', r', done, at', same, holds)
