-- ===== src/Mitigation/Analyze/Laws.antt =====
-- What `analyze_flows` (src/mitigation.rs) promises of its rules.
use netalert.Prelude.{
  ℕ, zero, suc, ◌+◌, ◌≤◌, ◌<◌, ◌≡◌, refl, sym, ◌⊎◌, inl, inr, String, List, [], ◌∷◌, ◌++◌, Option,
  none, some, true, false, arith, All, All-Memᴰ, Memᴰ, length, length-append, subst,
}
use netalert.Float.{Float}
use netalert.Net.{IpNet}
use netalert.Flow.{IpAddr, FlowRecord}
use netalert.Config.{
  Direction, ProtocolCategory, tcp, udp, icmp, gre, esp, tcp_syn, dns, https, any,
}
use netalert.Mitigation.{
  MitigationRule, Candidate, matches, all_combinations, has, protocol_bit, dst_port_bit, GroupKey,
  total_bytes,
}
use netalert.Mitigation.Text.{proto_number, protocol_name}
use netalert.Mitigation.Fields.{
  matches-from_flow, all_combinations-protocol, all_combinations-dst_port, from_flow-protocol,
  from_flow-dst_port,
}
use netalert.Mitigation.Search.{Groups, find_best_candidate}
use netalert.Mitigation.Search.Laws.{find_best_candidate_lem}
use netalert.Mitigation.Analyze.{
  Analysis, forced_fields, exclude_fields, blanket, is_some, unmatched, build_rule, choose, rounds,
  max_rules, prefilter, analyze_flows, protocols_of, destination_ports_of,
}
use netalert.Mitigation.Analyze.Rounds.{found_by, rounds-cases, rounds-All}

-- A list holds the forced value and no other, if there is one.
abbrev pub Carries : {A : Type 0} → Option A → List A → Type 0
Carries none xs = Unit
Carries (some x) xs = xs ≡ x ∷ []

-- The protocol that a rule against an attack of a category names
abbrev pub protocol_against : ProtocolCategory → Option String
protocol_against tcp = some "tcp"
protocol_against udp = some "udp"
protocol_against icmp = some "icmp"
protocol_against gre = some "gre"
protocol_against esp = some "esp"
protocol_against tcp_syn = some "tcp"
protocol_against dns = none
protocol_against https = some "tcp"
protocol_against any = none

-- The destination port that it names
abbrev pub port_against : ProtocolCategory → Option ℕ
port_against dns = some 53
port_against https = some 443
port_against _ = none

-- A rule carries the protocol and the port of a category.
abbrev pub CarriesForced : ProtocolCategory → MitigationRule → Type 0
CarriesForced c r =
    Carries (protocol_against c) r.protocols × Carries (port_against c) r.destination_ports

forced_fields_lem : (c : ProtocolCategory) → forced_fields c ≡ (protocol_against c, port_against c)
unfolding proto_number protocol_name
forced_fields_lem tcp = refl
forced_fields_lem dns = refl
forced_fields_lem https = refl
forced_fields_lem _ = refl

-- A candidate leaves the forced fields alone.
abbrev LeavesForced : ProtocolCategory → Candidate → Type 0
LeavesForced filter c =
    (is_some (forced_fields filter).0 ≡ true → c.protocol ≡ none)
    × (is_some (forced_fields filter).1 ≡ true → c.dst_port ≡ none)

module _ {W : Type 0} ⦃f : Float W⦄ (order : Groups → Groups)
    (lists : (m : Groups) (i : GroupKey) (w : ℕ × ℕ) → Memᴰ (i, w) (order m) → Memᴰ (i, w) m) where
  without_protocol :
      (flows : List FlowRecord) (ratio : W) (exclude : ℕ) (c : Candidate)
      → All (λ fs. has fs protocol_bit ≡ false) (all_combinations exclude)
      → find_best_candidate order flows ratio exclude ≡ some c
      → c.protocol ≡ none
  without_protocol flows ratio exclude c out h =
      let (key, bytes, m, (flow, mem, e), made, large) =
        find_best_candidate_lem order lists flows ratio exclude c h in
      ground (
        arith,
        from_flow-protocol flow c.fields key (All-Memᴰ (λ fs. has fs protocol_bit ≡ false) _ m out)
            e,
      )

  without_dst_port :
      (flows : List FlowRecord) (ratio : W) (exclude : ℕ) (c : Candidate)
      → All (λ fs. has fs dst_port_bit ≡ false) (all_combinations exclude)
      → find_best_candidate order flows ratio exclude ≡ some c
      → c.dst_port ≡ none
  without_dst_port flows ratio exclude c out h =
      let (key, bytes, m, (flow, mem, e), made, large) =
        find_best_candidate_lem order lists flows ratio exclude c h in
      ground (
        arith,
        from_flow-dst_port flow c.fields key (All-Memᴰ (λ fs. has fs dst_port_bit ≡ false) _ m out)
            e,
      )

  found-LeavesForced :
      (filter : ProtocolCategory) (flows : List FlowRecord) (ratio : W) (c : Candidate)
      → find_best_candidate order flows ratio (exclude_fields (forced_fields filter)) ≡ some c
      → LeavesForced filter c
  unfolding proto_number
  found-LeavesForced any flows ratio c h = (λ e. cc, λ e. cc)
  found-LeavesForced dns flows ratio c h =
      (λ e. cc, λ e. without_dst_port flows ratio 2 c all_combinations-dst_port.0 h)
  found-LeavesForced https flows ratio c h = (
    λ e. without_protocol flows ratio 10 c all_combinations-protocol.1 h,
    λ e. without_dst_port flows ratio 10 c all_combinations-dst_port.1 h,
  )
  found-LeavesForced _ flows ratio c h =
      (λ e. without_protocol flows ratio 8 c all_combinations-protocol.0 h, λ e. cc)

  choose-cases :
      {Net : Type 0} (a : Analysis W Net) (o : Option Candidate) (rules : List MitigationRule)
      (c : Candidate)
      → choose a o rules ≡ some c
      → (o ≡ some c) ⊎ (c ≡ blanket)
  choose-cases a (some d) rules c h = inl h
  choose-cases a none [] c h = ground arith
  choose-cases a none (r ∷ rules) c h = absurd (cc)

protocols_of-Carries :
    (proto : Option ℕ) (o : Option String)
    → (is_some o ≡ true → proto ≡ none)
    → Carries o (protocols_of proto o)
protocols_of-Carries proto none k = tt
protocols_of-Carries proto (some p) k = rw (k refl)

destination_ports_of-Carries :
    (port o : Option ℕ) → (is_some o ≡ true → port ≡ none) → Carries o (destination_ports_of port o)
destination_ports_of-Carries port none k = tt
destination_ports_of-Carries port (some p) k = rw (k refl)

build_rule-CarriesForced :
    {W Net : Type 0} ⦃f : Float W⦄ ⦃n : IpNet Net⦄ (show : IpAddr → String) (a : Analysis W Net)
    (c : Candidate) (remaining : List FlowRecord)
    → LeavesForced a.filter c
    → CarriesForced a.filter (build_rule show a c remaining)
unfolding build_rule
build_rule-CarriesForced show a c remaining h =
    let r = build_rule show a c remaining in
    subst (λ forced. Carries forced.0 r.protocols × Carries forced.1 r.destination_ports)
      (forced_fields_lem a.filter)
      (
        protocols_of-Carries c.protocol (forced_fields a.filter).0 h.0,
        destination_ports_of-Carries c.dst_port (forced_fields a.filter).1 h.1,
      )

-- Every flow has flags of one byte.
abbrev pub AreBytes : List FlowRecord → Type 0
AreBytes flows = All (λ f. f.tcp_flags < 256) flows

unmatched-AreBytes :
    (c : Candidate) (flows : List FlowRecord) → AreBytes flows → AreBytes (unmatched c flows)
unfolding unmatched
unmatched-AreBytes c [] h = tt
unmatched-AreBytes c (f ∷ fs) h = ground (arith, unmatched-AreBytes c fs h.1)

length-unmatched-le :
    (c : Candidate) (flows : List FlowRecord) → length (unmatched c flows) ≤ length flows
unfolding unmatched
length-unmatched-le c [] = omega arith
length-unmatched-le c (f ∷ fs) = ground (arith, length-unmatched-le c fs)

-- A flow that the candidate matches is gone.
length-unmatched-lt :
    (c : Candidate) (flows : List FlowRecord) (flow : FlowRecord)
    → Memᴰ flow flows
    → matches c flow ≡ true
    → length (unmatched c flows) < length flows
unfolding unmatched
length-unmatched-lt c [] flow m h = elim m [ ]
length-unmatched-lt c (f ∷ fs) flow (Memᴰ.head e) h =
    let g : matches c f ≡ true = subst (λ x. matches c x ≡ true) e h in
    rw g (omega (arith, length-unmatched-le c fs))
length-unmatched-lt c (f ∷ fs) flow (Memᴰ.tail m) h =
    ground (arith, length-unmatched-lt c fs flow m h)

matches-blanket : (flow : FlowRecord) → matches blanket flow ≡ true
unfolding matches
matches-blanket flow = refl

module _ {W Net : Type 0} ⦃f : Float W⦄ ⦃n : IpNet Net⦄ (order : Groups → Groups)
    (lists : (m : Groups) (i : GroupKey) (w : ℕ × ℕ) → Memᴰ (i, w) (order m) → Memᴰ (i, w) m)
    (show : IpAddr → String) where
  -- The candidate of a round leaves the forced fields alone.
  choice-LeavesForced :
      (a : Analysis W Net) (remaining : List FlowRecord) (rules : List MitigationRule)
      (c : Candidate)
      → choose a (found_by order show a remaining) rules ≡ some c
      → LeavesForced a.filter c
  choice-LeavesForced a remaining rules c e =
      elim (choose-cases order lists a (found_by order show a remaining) rules c e) [
        | inl found ↦ found-LeavesForced order lists a.filter remaining (f.literal 1 1) c found
        | inr e ↦ subst (LeavesForced a.filter) (sym e) (λ k. refl, λ k. refl)
      ]

  -- The candidate of a round matches a flow.
  choice_matches :
      (a : Analysis W Net) (flow : FlowRecord) (flows : List FlowRecord)
      (rules : List MitigationRule) (c : Candidate)
      → AreBytes (flow ∷ flows)
      → choose a (found_by order show a (flow ∷ flows)) rules ≡ some c
      → length (unmatched c (flow ∷ flows)) < length (flow ∷ flows)
  choice_matches a flow flows rules c bytes e =
      elim (choose-cases order lists a (found_by order show a (flow ∷ flows)) rules c e) [
        | inl found ↦
            let (key, share, m, (g, mem, of), made, large) =
              find_best_candidate_lem order lists (flow ∷ flows) (f.literal 1 1)
                (exclude_fields (forced_fields a.filter)) c found in
            length-unmatched-lt c (flow ∷ flows) g mem (
              subst (λ d. matches d g ≡ true) (sym made)
                (matches-from_flow g c.fields key (All-Memᴰ (λ x. x.tcp_flags < 256) _ mem bytes)
                  of))
        | inr e ↦
            subst (λ d. length (unmatched d (flow ∷ flows)) < length (flow ∷ flows)) (sym e)
              (length-unmatched-lt blanket (flow ∷ flows) flow (Memᴰ.head refl)
                (matches-blanket flow))
      ]

  length-rounds :
      (a : Analysis W Net) (left : ℕ) (remaining : List FlowRecord) (rules : List MitigationRule)
      → AreBytes remaining
      → (length (rounds order show a left remaining rules) ≤ length rules + left)
        × (length (rounds order show a left remaining rules) ≤ length rules + length remaining)
  length-rounds a zero remaining rules bytes = unfold rounds in omega arith
  length-rounds a (suc left) [] rules bytes = unfold rounds in omega arith
  length-rounds a (suc left) (flow ∷ flows) rules bytes =
      elim (rounds-cases order show a left flow flows rules) [
        | inl e ↦ ground arith
        | inr (c, chosen, e) ↦
            let rule = build_rule show a c (flow ∷ flows) in
            let ih =
              length-rounds a left (unmatched c (flow ∷ flows)) (rules ++ (rule ∷ []))
                (unmatched-AreBytes c (flow ∷ flows) bytes) in
            let shorter = choice_matches a flow flows rules c bytes chosen in
            rw e (omega (arith, ih, shorter, length-append rules (rule ∷ [])))
      ]

  -- Every rule of an analysis names the protocol of the alert's category and no other, and the
  -- destination port of the category and no other, if the category has one: tcp for TCP, SYN floods
  -- and HTTPS, udp, icmp, gre and esp for the categories of these names, port 53 for DNS and port 443
  -- for HTTPS. For DNS the protocol is not fixed, for the other categories the port is not, and for
  -- Any neither is.
  pub analyze_flows-CarriesForced :
      (flows : List FlowRecord) (prefix : Net) (d : Direction) (filter : ProtocolCategory)
      (rate threshold : W)
      → All (CarriesForced filter) (analyze_flows order show flows prefix d filter rate threshold)
  unfolding analyze_flows
  analyze_flows-CarriesForced flows prefix d filter rate threshold =
      let a : Analysis W Net = record {
        dest_prefix = prefix;
        direction = d;
        filter = filter;
        current_rate = rate;
        threshold = threshold;
        total = total_bytes (prefilter filter flows);
      } in
      rounds-All order show (CarriesForced filter) a max_rules (prefilter filter flows) []
        (λ c g gs rules chosen.
          build_rule-CarriesForced show a c (g ∷ gs)
            (choice-LeavesForced a (g ∷ gs) rules c chosen))
        tt

  -- If every flow of the category has flags of one byte, then an analysis makes at most ten rules,
  -- and at most as many as there are flows of the category.
  pub length-analyze_flows :
      (flows : List FlowRecord) (prefix : Net) (d : Direction) (filter : ProtocolCategory)
      (rate threshold : W)
      → AreBytes (prefilter filter flows)
      → let rules = analyze_flows order show flows prefix d filter rate threshold in
        (length rules ≤ 10) × (length rules ≤ length (prefilter filter flows))
  unfolding analyze_flows
  length-analyze_flows flows prefix d filter rate threshold bytes =
      let bounds =
        length-rounds
          (record {
            dest_prefix = prefix;
            direction = d;
            filter = filter;
            current_rate = rate;
            threshold = threshold;
            total = total_bytes (prefilter filter flows);
          })
          max_rules (prefilter filter flows) [] bytes in
      omega (arith, bounds)
