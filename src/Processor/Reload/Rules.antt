-- ===== src/Processor/Reload/Rules.antt =====
-- What holds of every rule that a reload makes (src/processor.rs).
use netalert.Prelude.{ℕ, ◌+◌, ◌≡◌, sym, subst, inl, inr, List, [], ◌∷◌, arith, All}
use netalert.Prelude.Assoc.{put, All-put}
use netalert.Prelude.Results.{ok, ◌>>=◌, >>=-ok_inv, Result-cases}
use netalert.Net.{IpNet, IpNetwork, NetworkTable}
use netalert.RingBuffer
use netalert.RingBuffer.{RingBuffer}
use netalert.Config.{Config, RuleConfig, ProtocolCategory, Direction}
use netalert.Processor.{BufferKey, BufferKey-discrete, ProcessedRule, FlowProcessor}
use netalert.Processor.Reload.{
  direction_buffers, threshold_buffers, from_config, add_index, reload_rules, window_of,
  reload_config,
}

-- Every buffer of a rule is new.
module _ {W : Type 0} (P : BufferKey × RingBuffer → Type 0) (w : ℕ)
    (new : (k : BufferKey) → P (k, RingBuffer.new w)) where
  direction_buffers-All :
      (c : ProtocolCategory) (ds : List (Direction × W)) (m : List (BufferKey × RingBuffer))
      → All P m
      → All P (direction_buffers c ds w m)
  unfolding direction_buffers
  direction_buffers-All c [] m h = h
  direction_buffers-All c ((d, _) ∷ ds) m h =
      let key : BufferKey = record { protocol = c; direction = d } in
      direction_buffers-All c ds (put BufferKey-discrete key (RingBuffer.new w) m)
        (All-put BufferKey-discrete P key (RingBuffer.new w) m new h)

  threshold_buffers-All :
      (ts : List (ProtocolCategory × List (Direction × W))) (m : List (BufferKey × RingBuffer))
      → All P m
      → All P (threshold_buffers ts w m)
  unfolding threshold_buffers
  threshold_buffers-All [] m h = h
  threshold_buffers-All ((c, ds) ∷ ts) m h =
      threshold_buffers-All ts (direction_buffers c ds w m) (direction_buffers-All c ds m h)

module _ {W Net Network : Type 0} ⦃n : IpNet Net⦄ ⦃w : IpNetwork Network⦄ where
  -- Every buffer of a new rule is new, and nothing is captured.
  pub from_config-All :
      (P : BufferKey × RingBuffer → Type 0) (c : RuleConfig W Net) (window size : ℕ)
      (r : ProcessedRule Net Network)
      → ((k : BufferKey) → P (k, RingBuffer.new window))
      → from_config c window size ≡ ok r
      → All P r.buffers × (r.capture_buffer ≡ [])
  unfolding from_config
  from_config-All P c window size r new h =
      ground (arith, h, threshold_buffers-All P window new c.thresholds [] tt)

module _ {W Net Network Table : Type 0} ⦃n : IpNet Net⦄ ⦃w : IpNetwork Network⦄
    ⦃t : NetworkTable Table Network⦄ where
  -- The rules that a reload makes are the configured ones, in order.
  reload_rules_cons :
      (idx window size : ℕ) (c : RuleConfig W Net) (cs : List (RuleConfig W Net)) (table : Table)
      (rs : List (ProcessedRule Net Network)) (table' : Table)
      → reload_rules idx window size (c ∷ cs) table ≡ ok (rs, table')
      → (r : ProcessedRule Net Network) × (rest : List (ProcessedRule Net Network)) × (from_config c
            window size
          ≡ ok r)
        × (reload_rules (idx + 1) window size cs (add_index table r.network idx)
            ≡ ok (rest, table'))
        × (rs ≡ r ∷ rest)
  unfolding reload_rules
  reload_rules_cons idx window size c cs table rs table' h =
      let (r, made, h') =
        >>=-ok_inv (from_config c window size)
          (λ r. reload_rules (idx + 1) window size cs (add_index table r.network idx) >>= λ done.
            ok (r ∷ done.0, done.1))
          h in
      let (done, rest, e) =
        >>=-ok_inv (reload_rules (idx + 1) window size cs (add_index table r.network idx))
          (λ done. ok (r ∷ done.0, done.1)) h' in
      (r, done.0, made, ground (arith, rest), ground arith)

  module _ (P : ProcessedRule Net Network → Type 0) (window size : ℕ)
      (each : (c : RuleConfig W Net) (r : ProcessedRule Net Network)
        → from_config c window size ≡ ok r
        → P r) where
    reload_rules-All :
        (idx : ℕ) (cs : List (RuleConfig W Net)) (table : Table)
        (rs : List (ProcessedRule Net Network)) (table' : Table)
        → reload_rules idx window size cs table ≡ ok (rs, table')
        → All P rs
    reload_rules-All idx [] table rs table' h =
        let e : [] ≡ rs = unfold reload_rules in ground arith in subst (All P) e tt
    reload_rules-All idx (c ∷ cs) table rs table' h =
        let (r, rest, made, done, e) = reload_rules_cons idx window size c cs table rs table' h in
        subst (All P) (sym e) (
          each c r made,
          reload_rules-All (idx + 1) cs (add_index table r.network idx) rest table' done,
        )

  -- What holds of every rule made from a rule of a configuration holds after the reload.
  pub reload_config-All :
      (P : ProcessedRule Net Network → Type 0) (p p' : FlowProcessor Net Network Table)
      (config : Config W Net)
      → ((c : RuleConfig W Net) (r : ProcessedRule Net Network)
          → from_config c (window_of p config) config.global.capture_buffer_size ≡ ok r
          → P r)
      → reload_config p config ≡ (p', ok tt)
      → All P p'.rules
  reload_config-All P p p' config each h =
      let window = window_of p config in
      let size = config.global.capture_buffer_size in
      elim (Result-cases (reload_rules {Network = Network} 0 window size config.rules t.empty)) [
        | inl (done, e) ↦
            let same : done.0 ≡ p'.rules = unfold reload_config in ground arith in
            subst (All P) same (
              reload_rules-All P window size each 0 config.rules t.empty done.0 done.1
                (ground (arith, e)))
        | inr (x, e) ↦ absurd (unfold reload_config in ground arith)
      ]
