-- ===== src/Processor/Ready.antt =====
-- Flows, drains and rates of the processor (src/processor.rs), and its panics.
use netalert.Prelude.{
  ℕ, suc, ◌≤◌, ◌<◌, ◌≡◌, refl, List, [], ◌∷◌, ◌++◌, some, >>=-eq-some, String, ite, length, All,
  arith, String-discrete,
}
use netalert.Float.{Float}
use netalert.Net.{IpNet, NetworkTable}
use netalert.Flow.{FlowRecord}
use netalert.RingBuffer.{RingBuffer, compute_rates, rates_of_totals, no_totals}
use netalert.RingBuffer.Sums.{sum_buckets_total}
use netalert.Config.{Direction}
use netalert.Processor.{
  BufferKey, CapturedFlow, ProcessedRule, FlowProcessor, process_flow, distribute, updates_of,
  matching_rules,
}
use netalert.Processor.Capture.{flows_towards, retain_other, drain_rules, drain_captured_flows}
use netalert.Processor.Rates.{RateSnapshot, buffer_rates, all_rates}
use netalert.Processor.Safety.{HasBuckets, RuleIsSafe, IsSafe, process_flow_total}

length-retain_other-le :
    (d : Direction) (cs : List CapturedFlow) → length (retain_other d cs) ≤ length cs
length-retain_other-le d [] = omega arith
length-retain_other-le d (c ∷ cs) = ground (arith, length-retain_other-le d cs)

module _ {Net Network : Type 0} ⦃n : IpNet Net⦄ where
  drain_rules-RuleIsSafe :
      (prefix : String) (d : Direction) (rs : List (ProcessedRule Net Network))
      → All RuleIsSafe rs
      → All RuleIsSafe (drain_rules prefix d rs).1
        × (length (drain_rules prefix d rs).1 ≡ length rs)
  unfolding drain_rules
  drain_rules-RuleIsSafe prefix d [] h = (tt, refl)
  drain_rules-RuleIsSafe prefix d (r ∷ rs) h =
      let (safe, len) = drain_rules-RuleIsSafe prefix d rs h.1 in
      let r' = record r { capture_buffer = retain_other d r.capture_buffer } in
      let rest = (drain_rules prefix d rs).1 in
      let flows = (drain_rules prefix d rs).0 in
      let Out = List FlowRecord × List (ProcessedRule Net Network) in
      let taken : Out = (flows_towards d r.capture_buffer ++ flows, r' ∷ rest) in
      let left : Out = (flows, r ∷ rest) in
      elim (String-discrete (n.to_string r.prefix) prefix)
        as (λ x.
          All RuleIsSafe (ite {C = Out} x taken left).1
          × (length (ite {C = Out} x taken left).1 ≡ suc (length rs))) [
            | yes e ↦ (
              (
                record {
                  rings = h.0.rings;
                  captured = omega (arith, length-retain_other-le d r.capture_buffer, h.0.captured);
                },
                safe,
              ),
              omega (arith, len),
            )
            | no e ↦ ((h.0, safe), omega (arith, len))
          ]

module _ {Net Network Table : Type 0} ⦃n : IpNet Net⦄ ⦃t : NetworkTable Table Network⦄ where
  pub drain_captured_flows-IsSafe :
      (p : FlowProcessor Net Network Table) (prefix : String) (d : Direction)
      → IsSafe p
      → IsSafe (drain_captured_flows p prefix d).0
  unfolding drain_captured_flows
  drain_captured_flows-IsSafe p prefix d h =
      let (safe, len) = drain_rules-RuleIsSafe prefix d p.rules h.rules_safe in
      record {
        in_range = λ ip i le. h.in_range ip i (omega arith);
        once = h.once;
        rules_safe = safe;
      }

compute_rates_total :
    {W : Type 0} ⦃f : Float W⦄ (b : RingBuffer) (now : ℕ)
    → 0 < length b.buckets
    → (rates : W × W × W) × (compute_rates {W = W} b now ≡ some rates)
unfolding compute_rates
compute_rates_total ⦃f⦄ b now pos =
    let (s, done) = sum_buckets_total b now 0 (length b.buckets) no_totals pos in
    (rates_of_totals (length b.buckets) s, rw done refl)

module _ {W Net Network : Type 0} ⦃f : Float W⦄ ⦃n : IpNet Net⦄ where
  buffer_rates_total :
      (rule : ProcessedRule Net Network) (now : ℕ) (bs : List (BufferKey × RingBuffer))
      → All HasBuckets bs
      → (out : List (RateSnapshot W)) × (buffer_rates rule now bs ≡ some out)
  unfolding buffer_rates
  buffer_rates_total rule now [] h = ([], refl)
  buffer_rates_total rule now ((key, b) ∷ bs) h =
      let (rates, here) = compute_rates_total {W = W} b now h.0 in
      let (rest, more) = buffer_rates_total rule now bs h.1 in
      (
        record {
          prefix = n.to_string rule.prefix;
          labels = rule.labels;
          protocol = key.protocol;
          direction = key.direction;
          bps = rates.0;
          pps = rates.1;
          fps = rates.2;
        }
            ∷ rest,
        rw (here, more) refl,
      )

  pub all_rates_total :
      (rules : List (ProcessedRule Net Network)) (now : ℕ)
      → All RuleIsSafe rules
      → (out : List (RateSnapshot W)) × (all_rates rules now ≡ some out)
  unfolding all_rates
  all_rates_total [] now h = ([], refl)
  all_rates_total (r ∷ rs) now h =
      let (here, made) = buffer_rates_total r now r.buffers h.0.rings in
      let (rest, more) = all_rates_total rs now h.1 in (here ++ rest, rw (made, more) refl)

module _ {Net Network Table : Type 0} ⦃t : NetworkTable Table Network⦄ where
  -- What the ticker needs of the processor, and keeps.
  abbrev pub IsReady : FlowProcessor Net Network Table → Type 0
  IsReady p = IsSafe p × (0 < p.window_secs)

  process_flow-window_secs :
      (p p' : FlowProcessor Net Network Table) (flow : FlowRecord)
      → process_flow p flow ≡ some p'
      → p'.window_secs ≡ p.window_secs
  unfolding process_flow
  process_flow-window_secs p p' flow h =
      let (rs, made, e) =
        >>=-eq-some
          (distribute flow
            (updates_of (matching_rules p flow.src_ip) (matching_rules p flow.dst_ip)) p.rules)
          (λ rules. some (record p { rules = rules })) h in
      ground (arith, e)

  pub process_flow-IsReady :
      (p : FlowProcessor Net Network Table) (flow : FlowRecord)
      → IsReady p
      → (p' : FlowProcessor Net Network Table) × (process_flow p flow ≡ some p') × IsReady p'
  process_flow-IsReady p flow h =
      let (p', done, safe) = process_flow_total p flow h.0 in
      (p', done, (safe, rw (process_flow-window_secs p p' flow done) h.1))

module _ {Net Network Table : Type 0} ⦃n : IpNet Net⦄ ⦃t : NetworkTable Table Network⦄ where
  pub drain_captured_flows-IsReady :
      (p : FlowProcessor Net Network Table) (prefix : String) (d : Direction)
      → IsReady p
      → IsReady (drain_captured_flows p prefix d).0
  drain_captured_flows-IsReady p prefix d h =
      (drain_captured_flows-IsSafe p prefix d h.0, unfold drain_captured_flows in h.1)
