-- ===== src/Examples/Searches.antt =====
-- The search for a candidate (src/mitigation.rs), and the names in a rule, at concrete inputs.
use netalert.Prelude.{ℕ, ℕ_discrete, ◌≡◌, refl, arith, List, [], ◌∷◌, none, some, false, Memᴰ, u64}
use netalert.Prelude.Assoc.{find}
use netalert.Float.{thousandths, thousandths-IsRanked}
use netalert.Flow.{v4, IpAddr-discrete, FlowRecord, sampled_bytes, sampled_packets}
use netalert.Mitigation.{
  Candidate, GroupKey, GroupKey-discrete, from_flow, all_combinations, total_bytes,
}
use netalert.Mitigation.Search.{coverage, score, group_flows, find_best_candidate}
use netalert.Mitigation.Search.Best.{IsEligible, IsMade, find_best_candidate-IsBest}
use netalert.Mitigation.Search.Totals.{of_key, sum_of, find-group_flows}
use netalert.Mitigation.Text.{protocol_name, tcp_flag_names}
use netalert.Mitigation.Decode.{
  protocol_of, protocol_of-protocol_name, flags_of, flags_of-tcp_flag_names,
}
use netalert.Examples.Flows.{syn}
use netalert.Examples.Rules.{in_order}

-- One flow of 6,000 bytes and one of 12,000 from another source.
abbrev two_sources : List FlowRecord
two_sources = syn ∷ record syn { src_ip = v4 3_405_803_784; bytes = 120 } ∷ []

abbrev from_source : ℕ → GroupKey
from_source ip = record {
  src_ip = some (v4 ip);
  dst_port = none;
  src_port = none;
  protocol = none;
  tcp_flags = none;
}

-- The second source has two thirds of the bytes; only the field of the source is allowed.
second_source-IsEligible :
    IsEligible {W = ℕ} in_order two_sources 100
      (all_combinations 30)
      1
      (from_source 3_405_803_784, (12_000, 100))
unfolding all_combinations group_flows from_flow sampled_bytes sampled_packets GroupKey-discrete
    IpAddr-discrete ℕ_discrete
second_source-IsEligible = (Memᴰ.head refl, Memᴰ.tail (Memᴰ.head refl), refl)

find_best_candidate-IsBest_example :
    (c : Candidate) × (s : ℕ) × (find_best_candidate {W = ℕ} in_order two_sources 100 30 ≡ some c)
    × IsMade {W = ℕ} in_order two_sources 100 (all_combinations 30) (c, s)
    × ((fields' : ℕ) (g' : GroupKey × (ℕ × ℕ))
        → IsEligible {W = ℕ} in_order two_sources 100 (all_combinations 30) fields' g'
        → thousandths.gt (score (coverage (total_bytes two_sources) g'.1.0) fields') s ≡ false)
find_best_candidate-IsBest_example =
    find_best_candidate-IsBest thousandths-IsRanked in_order two_sources 100 30 1
      (from_source 3_405_803_784, (12_000, 100)) (unfold sampled_bytes in refl)
      second_source-IsEligible

find-group_flows_example :
    find GroupKey-discrete (from_source 3_405_803_784) (group_flows 1 two_sources [])
    ≡ elim (of_key 1 (from_source 3_405_803_784) two_sources) [
      | [] ↦ none
      | f ∷ fs ↦ some (u64 (sum_of sampled_bytes (f ∷ fs)), u64 (sum_of sampled_packets (f ∷ fs)))
    ]
find-group_flows_example = find-group_flows 1 (from_source 3_405_803_784) two_sources

protocol_of-protocol_name_example : protocol_of (protocol_name 58) ≡ 58
protocol_of-protocol_name_example = protocol_of-protocol_name 58 (omega arith)

flags_of-tcp_flag_names_example : flags_of (tcp_flag_names 0xD2) ≡ 18
flags_of-tcp_flag_names_example = flags_of-tcp_flag_names 0xD2 (omega arith)
