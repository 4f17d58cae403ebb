-- ===== src/Processor/History/Steps.antt =====
-- One flow or one drain, rule by rule (src/processor.rs).
use netalert.Prelude.{
  ℕ, zero, suc, ◌≤◌, ◌≡◌, refl, subst, ◌∙◌, ◌⊎◌, inl, inr, List, [], ◌∷◌, Option, none, some, ◌>>=◌,
  >>=-eq-some, Bool, true, false, ◌&&◌, String, String-discrete, if◌then◌else◌, arith, length,
  length-set, get_elem?, set, lt_of_get_elem?, get_elem?_total, count,
}
use netalert.Prelude.Assoc.{find}
use netalert.Net.{IpNet, IpNetwork, NetworkTable}
use netalert.Flow.{IpAddr, FlowRecord}
use netalert.RingBuffer.{RingBuffer}
use netalert.Config.{Direction, Direction-discrete, inbound, outbound, classify}
use netalert.Config.Classify.{contains}
use netalert.Processor.{
  BufferKey, BufferKey-discrete, ProcessedRule, FlowProcessor, matching_rules, process_flow,
  distribute, updates_of, update_rule,
}
use netalert.Processor.Capture.{retain_other, drain_rules, drain_captured_flows}
use netalert.Processor.Route.{route, routed, get_elem?-process_flow}
use netalert.Processor.Update.{add_flow, is_due, update_rule_lem}
use netalert.Processor.History.{crosses, concerns}

length-distribute :
    {Net Network : Type 0} (flow : FlowRecord) (us : List (ℕ × Direction))
    (rules rules' : List (ProcessedRule Net Network))
    → distribute flow us rules ≡ some rules'
    → length rules' ≡ length rules
unfolding distribute
length-distribute flow [] rules rules' h = ground (arith, h)
length-distribute flow ((j, d) ∷ us) rules rules' h =
    let (rule, at, h') =
      >>=-eq-some (get_elem? rules j)
        (λ rule. update_rule flow d rule >>= λ rule'. distribute flow us (set rules j rule'))
        {b = rules'} h in
    let (rule', made, rest) =
      >>=-eq-some (update_rule flow d rule) (λ rule'. distribute flow us (set rules j rule'))
        {b = rules'} h' in
    length-distribute flow us (set rules j rule') rules' rest ∙ length-set rules j rule'

module _ {Net Network Table : Type 0} ⦃t : NetworkTable Table Network⦄ where
  pub process_flow-shape :
      (p p' : FlowProcessor Net Network Table) (flow : FlowRecord)
      → process_flow p flow ≡ some p'
      → (p'.prefix_table ≡ p.prefix_table) × (length p'.rules ≡ length p.rules)
  unfolding process_flow
  process_flow-shape p p' flow h =
      let us = updates_of (matching_rules p flow.src_ip) (matching_rules p flow.dst_ip) in
      let (rs, made, e) =
        >>=-eq-some (distribute flow us p.rules) (λ rules. some (record p { rules = rules })) h in
      (ground (arith, e), ground (arith, e, length-distribute flow us p.rules rs made))

-- The direction of a flow makes it count for a key.
abbrev is_due_on : FlowRecord → Option Direction → BufferKey → Bool
is_due_on flow none key = false
is_due_on flow (some d) key = is_due (classify flow.protocol flow.tcp_flags flow.dst_port) d key

-- What a flow leaves of a ring buffer.
abbrev pub Counts :
    FlowRecord
    → Bool
    → BufferKey
    → List (BufferKey × RingBuffer)
    → List (BufferKey × RingBuffer)
    → Type 0
Counts flow due key m m' = find BufferKey-discrete key m' ≡ (
    if due
    then (find BufferKey-discrete key m >>= add_flow flow)
    else find BufferKey-discrete key m)

abbrev pub inside : Bool → ℕ
inside b = if b then 1 else 0

Direction-cases : (d : Direction) → (d ≡ inbound) ⊎ (d ≡ outbound)
Direction-cases inbound = inl refl
Direction-cases outbound = inr refl

inside-le : (b : Bool) → inside b ≤ 1
inside-le true = omega arith
inside-le false = omega arith

is_due_on-crosses :
    (flow : FlowRecord) (key : BufferKey) (src dst : Bool)
    → is_due_on flow (route (inside src) (inside dst)) key ≡ (
        crosses src dst key.direction
        && contains (classify flow.protocol flow.tcp_flags flow.dst_port) key.protocol)
unfolding Direction-discrete
is_due_on-crosses flow key src dst = elim (Direction-cases key.direction) [
  | inl e ↦ rw e (at_inbound src dst)
  | inr e ↦ rw e (at_outbound src dst)
]
  where
    at_inbound :
        (src dst : Bool)
        → is_due_on flow (route (inside src) (inside dst)) (record key { direction = inbound }) ≡ (
            crosses src dst inbound
            && contains (classify flow.protocol flow.tcp_flags flow.dst_port) key.protocol)
    at_inbound true true = refl
    at_inbound true false = refl
    at_inbound false true = refl
    at_inbound false false = refl

    at_outbound :
        (src dst : Bool)
        → is_due_on flow (route (inside src) (inside dst)) (record key { direction = outbound }) ≡ (
            crosses src dst outbound
            && contains (classify flow.protocol flow.tcp_flags flow.dst_port) key.protocol)
    at_outbound true true = refl
    at_outbound true false = refl
    at_outbound false true = refl
    at_outbound false false = refl

module _ {Net Network : Type 0} where
  -- What no call changes of a rule.
  abbrev pub IsSameRule : ProcessedRule Net Network → ProcessedRule Net Network → Type 0
  IsSameRule r r' = (r'.prefix ≡ r.prefix) × (r'.network ≡ r.network) × (r'.labels ≡ r.labels)

  pub IsSameRule-trans :
      (r r' r'' : ProcessedRule Net Network)
      → IsSameRule r r'
      → IsSameRule r' r''
      → IsSameRule r r''
  IsSameRule-trans r r' r'' h g = (g.0 ∙ h.0, g.1 ∙ h.1, g.2 ∙ h.2)

  routed-Counts :
      (flow : FlowRecord) (o : Option Direction) (r r' : ProcessedRule Net Network)
      → routed flow o r ≡ some r'
      → IsSameRule r r'
        × ((key : BufferKey) → Counts flow (is_due_on flow o key) key r.buffers r'.buffers)
  routed-Counts flow none r r' h =
      let same : r ≡ r' = ground (arith, h) in
      subst (λ x. IsSameRule r x × ((key : BufferKey) → Counts flow false key r.buffers x.buffers))
        same ((refl, refl, refl), λ key. refl)
  routed-Counts flow (some d) r r' h =
      let (counts, shape) = update_rule_lem flow d r r' h in (ground (arith, shape), counts)

  get_elem?-drain_rules :
      ⦃n : IpNet Net⦄ (prefix : String) (d : Direction) (rules : List (ProcessedRule Net Network))
      (i : ℕ) (r : ProcessedRule Net Network)
      → get_elem? rules i ≡ some r
      → (r' : ProcessedRule Net Network) × (get_elem? (drain_rules prefix d rules).1 i ≡ some r')
        × IsSameRule r r'
        × (r'.buffers ≡ r.buffers)
  unfolding drain_rules
  get_elem?-drain_rules prefix d [] i r h = absurd (cc)
  get_elem?-drain_rules ⦃n⦄ prefix d (rule ∷ rules) zero r h =
      elim (String-discrete (n.to_string rule.prefix) prefix) [
        | yes e ↦ (
          record r { capture_buffer = retain_other d r.capture_buffer },
          ground (arith, h, e),
          (refl, refl, refl),
          refl,
        )
        | no e ↦ (r, ground (arith, h, e), (refl, refl, refl), refl)
      ]
  get_elem?-drain_rules ⦃n⦄ prefix d (rule ∷ rules) (suc i) r h =
      let (r', at, same, buffers) = get_elem?-drain_rules prefix d rules i r h in
      (r', ground (arith, at), same, buffers)

  length-drain_rules :
      ⦃n : IpNet Net⦄ (prefix : String) (d : Direction) (rules : List (ProcessedRule Net Network))
      → length (drain_rules prefix d rules).1 ≡ length rules
  unfolding drain_rules
  length-drain_rules prefix d [] = refl
  length-drain_rules prefix d (rule ∷ rules) = ground (arith, length-drain_rules prefix d rules)

module _ {Net Network Table : Type 0} ⦃n : IpNet Net⦄ where
  pub drain_captured_flows-shape :
      (p : FlowProcessor Net Network Table) (prefix : String) (d : Direction)
      → let q = (drain_captured_flows p prefix d).0 in
        (q.prefix_table ≡ p.prefix_table) × (length q.rules ≡ length p.rules)
  unfolding drain_captured_flows
  drain_captured_flows-shape p prefix d = (refl, length-drain_rules prefix d p.rules)

  pub get_elem?-drain_captured_flows :
      (p : FlowProcessor Net Network Table) (prefix : String) (d : Direction) (i : ℕ)
      (r : ProcessedRule Net Network)
      → get_elem? p.rules i ≡ some r
      → (r' : ProcessedRule Net Network) × (get_elem? (drain_captured_flows p prefix d).0.rules i
          ≡ some r')
        × IsSameRule r r'
        × (r'.buffers ≡ r.buffers)
  unfolding drain_captured_flows
  get_elem?-drain_captured_flows p prefix d i r at = get_elem?-drain_rules prefix d p.rules i r at

module _ {Net Network Table : Type 0} ⦃n : IpNet Net⦄ ⦃w : IpNetwork Network⦄
    ⦃t : NetworkTable Table Network⦄ (includes : Network → IpAddr → Bool) where
  -- What the prefix table of a processor says of its rule `i`.
  abbrev pub Finds : FlowProcessor Net Network Table → ℕ → Network → Type 0
  Finds p i network = (ip : IpAddr) → count i (matching_rules p ip) ≡ inside (includes network ip)

  pub process_flow-step :
      (p p' : FlowProcessor Net Network Table) (flow : FlowRecord) (i : ℕ)
      (r : ProcessedRule Net Network)
      → Finds p i r.network
      → get_elem? p.rules i ≡ some r
      → process_flow p flow ≡ some p'
      → (r' : ProcessedRule Net Network) × (get_elem? p'.rules i ≡ some r')
        × IsSameRule r r'
        × ((key : BufferKey)
            → Counts flow (concerns includes r.network key flow) key r.buffers r'.buffers)
  process_flow-step p p' flow i r finds at h =
      let src = includes r.network flow.src_ip in
      let dst = includes r.network flow.dst_ip in
      let (same_table, same_length) = process_flow-shape p p' flow h in
      let (r', at') = get_elem?_total p'.rules i (rw same_length (lt_of_get_elem? p.rules i at)) in
      let e =
        get_elem?-process_flow p p' flow i (rw (finds flow.src_ip) (inside-le src))
          (rw (finds flow.dst_ip) (inside-le dst)) h in
      let routes : routed flow (route (inside src) (inside dst)) r ≡ some r' =
        ground (arith, at, at', e, finds flow.src_ip, finds flow.dst_ip) in
      let (same, counts) = routed-Counts flow (route (inside src) (inside dst)) r r' routes in
      (
        r',
        at',
        same,
        λ key.
            subst (λ b. Counts flow b key r.buffers r'.buffers) (is_due_on-crosses flow key src dst)
              (counts key),
      )
