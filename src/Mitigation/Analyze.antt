-- ===== src/Mitigation/Analyze.antt =====
-- `analyze_flows` (src/mitigation.rs). `order` is the iteration order of the hash maps, and `show`
-- the text of an address.
pub mod Rounds
pub mod Laws
pub mod Within
use netalert.Prelude.{
  ℕ, zero, suc, ◌+◌, String, List, [], ◌∷◌, ◌++◌, Option, none, some, Bool, true, false, not, ◌&&◌,
  ◌||◌, ◌==◌, ltb, ite, if◌then◌else◌,
}
use mathlib.Core.Option.{get_or}
use mathlib.Core.Option
use netalert.Float.{Float}
use netalert.Net.{IpNet}
use netalert.Flow.{IpAddr, FlowRecord}
use netalert.Config.{
  Direction, inbound, outbound, ProtocolCategory, ProtocolCategory-discrete, tcp_syn, dns, https,
  any, classify,
}
use netalert.Config.Classify.{contains}
use netalert.Mitigation.{
  MitigationRule, Candidate, matches, total_bytes, protocol_bit, dst_port_bit,
}
use netalert.Mitigation.Text.{proto_number, protocol_name, tcp_flag_names, host_prefix}
use netalert.Mitigation.Narrow.{compute_destination_prefix}
use netalert.Mitigation.Search.{Groups, find_best_candidate}

-- The pre-filter by the alert's category.
unfoldable pub of_category : ProtocolCategory → List FlowRecord → List FlowRecord
of_category c [] = []
of_category c (f ∷ fs) =
    let rest = of_category c fs in
    if contains (classify f.protocol f.tcp_flags f.dst_port) c then f ∷ rest else rest

abbrev pub prefilter : ProtocolCategory → List FlowRecord → List FlowRecord
prefilter c flows = ite (ProtocolCategory-discrete c any) flows (of_category c flows)

-- `forced_protocol` and `forced_dst_port`
abbrev pub forced_fields : ProtocolCategory → Option String × Option ℕ
forced_fields any = (none, none)
forced_fields tcp_syn = (some "tcp", none)
forced_fields dns = (none, some 53)
forced_fields https = (some "tcp", some 443)
forced_fields other =
    (if proto_number other == 0 then none else some (protocol_name (proto_number other)), none)

abbrev pub is_some : {A : Type 0} → Option A → Bool
is_some none = false
is_some (some a) = true

-- The bits are disjoint: `|=` is a sum.
abbrev pub exclude_fields : Option String × Option ℕ → ℕ
exclude_fields forced =
    (if is_some forced.0 then protocol_bit else 0) + (if is_some forced.1 then dst_port_bit else 0)

abbrev pub blanket : Candidate
blanket = record {
  fields = 0;
  src_ip = none;
  dst_port = none;
  src_port = none;
  protocol = none;
  tcp_flags = none;
}

abbrev pub nonzero_port : ℕ → List ℕ
nonzero_port port = if port == 0 then [] else port ∷ []

abbrev pub destination_ports_of : Option ℕ → Option ℕ → List ℕ
destination_ports_of (some port) forced = nonzero_port port
destination_ports_of none (some port) = port ∷ []
destination_ports_of none none = []

abbrev pub source_ports_of : Option ℕ → List ℕ
source_ports_of (some port) = nonzero_port port
source_ports_of none = []

abbrev pub protocols_of : Option ℕ → Option String → List String
protocols_of (some proto) forced = protocol_name proto ∷ []
protocols_of none (some forced) = forced ∷ []
protocols_of none none = []

-- For TcpSyn alerts the syn flag is always there.
abbrev pub flags_of : ProtocolCategory → Option ℕ → List String
flags_of filter flags =
    let names = get_or (Option.map tcp_flag_names flags) [] in
    ite (ProtocolCategory-discrete filter tcp_syn)
      (elim names [ [] ↦ "syn" ∷ [] | x ∷ xs ↦ x ∷ xs ]) names

-- Source and destination prefix of the rule, by direction.
abbrev pub prefixes_of : Direction → Option String → String → String → Option String × String
prefixes_of inbound source narrowed whole = (source, narrowed)
prefixes_of outbound source narrowed whole = (some narrowed, get_or source whole)

-- `remaining.retain(|flow| !candidate.matches(flow))`
unfoldable pub unmatched : Candidate → List FlowRecord → List FlowRecord
unmatched c [] = []
unmatched c (f ∷ fs) = let rest = unmatched c fs in if matches c f then rest else f ∷ rest

-- `MAX_RULES`
abbrev pub max_rules : ℕ
max_rules = 10

-- What stays fixed over the rounds.
pub record Analysis (W Net : Type 0) : Type 0 where
  pub dest_prefix : Net
  pub direction : Direction
  pub filter : ProtocolCategory
  pub current_rate : W
  pub threshold : W
  pub total : ℕ

module _ {W Net : Type 0} ⦃f : Float W⦄ ⦃n : IpNet Net⦄ (show : IpAddr → String) where
  -- The rule built from a candidate.
  unfoldable pub build_rule : Analysis W Net → Candidate → List FlowRecord → MitigationRule
  build_rule a c remaining =
      let narrowed =
        n.to_string
          (compute_destination_prefix remaining a.direction a.dest_prefix (f.literal 8 1)) in
      let (rule_src, rule_dst) =
        prefixes_of a.direction (Option.map (host_prefix show) c.src_ip) narrowed
          (n.to_string a.dest_prefix) in
      let forced = forced_fields a.filter in
      record {
        source_prefix = rule_src;
        destination_prefix = rule_dst;
        destination_ports = destination_ports_of c.dst_port forced.1;
        source_ports = source_ports_of c.src_port;
        protocols = protocols_of c.protocol forced.0;
        tcp_flags = flags_of a.filter c.tcp_flags;
      }

module _ {W Net : Type 0} ⦃f : Float W⦄ where
  -- The estimate of what the rules so far leave is below the threshold.
  abbrev pub is_enough : Analysis W Net → List FlowRecord → Bool
  is_enough a remaining =
      ltb 0 a.total
      && (f.gt a.threshold (f.literal 0 1)
          && f.lt
              (f.mul a.current_rate (f.div (f.of_int (total_bytes remaining)) (f.of_int a.total)))
              a.threshold)

  -- The `match` on `find_best_candidate`: `none` breaks the loop.
  abbrev pub choose : Analysis W Net → Option Candidate → List MitigationRule → Option Candidate
  choose a (some c) rules = some c
  choose a none [] =
      if is_some (forced_fields a.filter).0 || is_some (forced_fields a.filter).1
      then some blanket
      else none
  choose a none (r ∷ rules) = none

module _ {W Net : Type 0} ⦃f : Float W⦄ ⦃n : IpNet Net⦄ (order : Groups → Groups)
    (show : IpAddr → String) where
  -- `for _ in 0..MAX_RULES`, with the rounds that are left.
  unfoldable pub rounds :
      Analysis W Net → ℕ → List FlowRecord → List MitigationRule → List MitigationRule
  rounds a zero remaining rules = rules
  rounds a (suc left) [] rules = rules
  rounds a (suc left) (flow ∷ flows) rules =
      let remaining = flow ∷ flows in
      let go_on : List MitigationRule =
        elim (choose a
          (find_best_candidate order remaining (f.literal 1 1)
            (exclude_fields (forced_fields a.filter)))
          rules) [
            | none ↦ rules
            | some c ↦
                rounds a left (unmatched c remaining)
                  (rules ++ (build_rule show a c remaining ∷ []))
          ] in
      if is_enough a remaining then rules else go_on

  unfoldable pub analyze_flows :
      List FlowRecord → Net → Direction → ProtocolCategory → W → W → List MitigationRule
  analyze_flows flows dest_prefix direction filter current_rate threshold =
      let filtered = prefilter filter flows in
      rounds
        (record {
          dest_prefix = dest_prefix;
          direction = direction;
          filter = filter;
          current_rate = current_rate;
          threshold = threshold;
          total = total_bytes filtered;
        })
        max_rules filtered []
