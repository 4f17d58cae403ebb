-- ===== src/Examples/Rules.antt =====
-- The mitigation rules and the evaluation of all alerts at concrete inputs.
use netalert.Prelude.{
  ℕ, ◌≤◌, ◌≡◌, refl, arith, String, List, [], ◌∷◌, Option, none, some, All, length,
}
use mathlib.Core.Option.{get_or}
use netalert.Float.{thousandths}
use netalert.Flow.{IpAddr, FlowRecord, sampled_bytes}
use netalert.Config.{tcp, https, inbound, classify, ProtocolCategory-discrete}
use netalert.Config.Classify.{contains}
use netalert.Mitigation.{Candidate, GroupKey, from_flow, all_combinations}
use netalert.Mitigation.Search.{
  Groups, candidate_of, find_best_candidate, best_fields, best_group, group_flows,
}
use netalert.Mitigation.Analyze.{analyze_flows, prefilter, of_category}
use netalert.Mitigation.Analyze.Laws.{
  AreBytes, CarriesForced, analyze_flows-CarriesForced, length-analyze_flows,
}
use netalert.Processor.Rates.{RateSnapshot}
use netalert.Manager.Evaluate.{AlertPayload}
use netalert.Examples.Addresses.{Area, ten, areas}
use netalert.Examples.Flows.{syn}

abbrev pub in_order : Groups → Groups
in_order groups = groups

abbrev pub text_of : IpAddr → String
text_of ip = "203.0.113.7"

abbrev flood : List FlowRecord
flood = syn ∷ record syn { src_port = 40_001 } ∷ record syn { src_port = 40_002 } ∷ []

-- The key of the destination port and the protocol.
abbrev syn_key : GroupKey
syn_key = record {
  src_ip = none;
  dst_port = some 443;
  src_port = none;
  protocol = some 6;
  tcp_flags = none;
}

abbrev found : Candidate
found = get_or (find_best_candidate {W = ℕ} in_order (syn ∷ []) 100 30) (candidate_of 0 syn_key)

found_ok : find_best_candidate {W = ℕ} in_order (syn ∷ []) 100 30 ≡ some found
unfolding find_best_candidate best_fields best_group group_flows all_combinations from_flow
    sampled_bytes
found_ok = refl

analyze_flows-CarriesForced_example : All (CarriesForced https) (
    analyze_flows {W = ℕ} {Net = Area} in_order text_of flood ten inbound https 9_000_000 8_000_000)
analyze_flows-CarriesForced_example =
    analyze_flows-CarriesForced in_order (λ m i w h. h) text_of flood ten inbound https 9_000_000
      8_000_000

flood-AreBytes : AreBytes (prefilter tcp flood)
unfolding ProtocolCategory-discrete of_category contains classify
flood-AreBytes = (omega arith, (omega arith, (omega arith, tt)))

length-analyze_flows_example :
    let rules =
      analyze_flows {W = ℕ} {Net = Area} in_order text_of flood ten inbound tcp 9_000_000
        8_000_000 in
    (length rules ≤ 10) × (length rules ≤ length (prefilter tcp flood))
length-analyze_flows_example =
    length-analyze_flows in_order (λ m i w h. h) text_of flood ten inbound tcp 9_000_000 8_000_000
      flood-AreBytes

abbrev snapshot : RateSnapshot ℕ
snapshot = record {
  prefix = "10.0.0.0/8";
  labels = [];
  protocol = tcp;
  direction = inbound;
  bps = 9_000_000;
  pps = 3_000;
  fps = 1_000;
}

abbrev pub no_json : AlertPayload ℕ → Option String
no_json payload = none
