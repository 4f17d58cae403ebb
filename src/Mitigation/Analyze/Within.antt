-- ===== src/Mitigation/Analyze/Within.antt =====
-- The rules of `analyze_flows` (src/mitigation.rs) and the prefix of the alert.
use netalert.Prelude.{◌≡◌, refl, String, List, [], ◌∷◌, some, true, All}
use netalert.Float.{Float}
use netalert.Net.{IpNet}
use netalert.Flow.{IpAddr, FlowRecord}
use netalert.Config.{Direction, inbound, outbound, ProtocolCategory}
use netalert.Mitigation.{MitigationRule, Candidate}
use netalert.Mitigation.Narrow.{compute_destination_prefix}
use netalert.Mitigation.Narrow.Within.{ContainmentLaws, compute_destination_prefix-contains}
use netalert.Mitigation.Search.{Groups}
use netalert.Mitigation.Analyze.{Analysis, build_rule, prefilter, max_rules, analyze_flows}
use netalert.Mitigation.Analyze.Rounds.{rounds-All}

-- All addresses of the network lie in the prefix.
abbrev pub IsInside : {Net : Type 0} ⦃n : IpNet Net⦄ → Net → Net → Type 0
IsInside ⦃n⦄ prefix net = (ip : IpAddr) → n.contains net ip ≡ true → n.contains prefix ip ≡ true

-- The victim of a rule, or for an outbound alert its source, is a network inside the prefix.
abbrev pub StaysInside : {Net : Type 0} ⦃n : IpNet Net⦄ → Net → Direction → MitigationRule → Type 0
StaysInside {Net} ⦃n⦄ prefix inbound rule =
    (net : Net) × (rule.destination_prefix ≡ n.to_string net) × IsInside prefix net
StaysInside {Net} ⦃n⦄ prefix outbound rule =
    (net : Net) × (rule.source_prefix ≡ some (n.to_string net)) × IsInside prefix net

module _ {W Net : Type 0} ⦃f : Float W⦄ ⦃n : IpNet Net⦄ (laws : ContainmentLaws Net)
    (show : IpAddr → String) where
  build_rule-StaysInside :
      (a : Analysis W Net) (d : Direction) (c : Candidate) (remaining : List FlowRecord)
      → a.direction ≡ d
      → StaysInside a.dest_prefix d (build_rule show a c remaining)
  unfolding build_rule
  build_rule-StaysInside a inbound c remaining e = (
    compute_destination_prefix remaining a.direction a.dest_prefix (f.literal 8 1),
    rw e refl,
    compute_destination_prefix-contains laws remaining a.direction a.dest_prefix (f.literal 8 1),
  )
  build_rule-StaysInside a outbound c remaining e = (
    compute_destination_prefix remaining a.direction a.dest_prefix (f.literal 8 1),
    rw e refl,
    compute_destination_prefix-contains laws remaining a.direction a.dest_prefix (f.literal 8 1),
  )

  -- Every rule of an analysis of inbound traffic has as its destination the text of a network with
  -- no address outside the rule's prefix; for outbound traffic, the source is such a network.
  pub analyze_flows-StaysInside :
      (order : Groups → Groups) (flows : List FlowRecord) (prefix : Net) (d : Direction)
      (filter : ProtocolCategory) (rate threshold : W)
      → All (StaysInside prefix d) (analyze_flows order show flows prefix d filter rate threshold)
  unfolding analyze_flows
  analyze_flows-StaysInside order flows prefix d filter rate threshold =
      rounds-All order show (StaysInside prefix d) _ max_rules (prefilter filter flows) []
        (λ c flow rest rules chosen. build_rule-StaysInside _ d c (flow ∷ rest) refl) tt
