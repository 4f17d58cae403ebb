-- ===== src/Mitigation/Search.antt =====
-- `find_best_candidate` (src/mitigation.rs). A `HashMap` of std is iterated in an order of its own
-- for each map: `order` gives the entries of a map in this order.
pub mod Laws
pub mod Best
pub mod Totals
use netalert.Prelude.{
  ℕ, zero, suc, ◌+◌, List, [], ◌∷◌, Option, none, some, Bool, true, false, ◌==◌, if◌then◌else◌,
  ◌+u64◌, map,
}
use mathlib.Core.Option.{get_or}
use netalert.Prelude.Assoc.{find, put}
use netalert.Float.{Float}
use netalert.Flow.{FlowRecord, sampled_bytes, sampled_packets}
use netalert.Mitigation.{
  Candidate, GroupKey, GroupKey-discrete, from_flow, all_combinations, count_ones, total_bytes,
}

abbrev pub Groups : Type 0
Groups = List (GroupKey × (ℕ × ℕ))

abbrev pub add_group : GroupKey → FlowRecord → Groups → Groups
add_group key flow groups =
    let entry = get_or (find GroupKey-discrete key groups) (0, 0) in
    put GroupKey-discrete key (entry.0 +u64 sampled_bytes flow, entry.1 +u64 sampled_packets flow)
      groups

-- The flows, grouped by the values of the fields; bytes and packets of each group.
unfoldable pub group_flows : ℕ → List FlowRecord → Groups → Groups
group_flows fields [] groups = groups
group_flows fields (flow ∷ flows) groups =
    group_flows fields flows
      (elim (from_flow flow fields) [ none ↦ groups | some key ↦ add_group key flow groups ])

abbrev pub candidate_of : ℕ → GroupKey → Candidate
candidate_of fields key = record {
  fields = fields;
  src_ip = key.src_ip;
  dst_port = key.dst_port;
  src_port = key.src_port;
  protocol = key.protocol;
  tcp_flags = key.tcp_flags;
}

module _ {W : Type 0} ⦃f : Float W⦄ where
  abbrev pub coverage : ℕ → ℕ → W
  coverage total bytes = f.div (f.of_int bytes) (f.of_int total)

  -- `coverage * (1.0 + 0.5 * field_count)`
  abbrev pub score : W → ℕ → W
  score cover fields =
      f.mul cover (f.add (f.literal 10 1) (f.mul (f.literal 5 1) (f.of_int (count_ones fields))))

  -- Whether a score replaces the best so far.
  abbrev pub improves : W → Option (Candidate × W) → Bool
  improves s none = true
  improves s (some (_, best)) = f.gt s best

  -- One group: too small, or a candidate.
  abbrev pub consider :
      W → ℕ → ℕ → GroupKey × (ℕ × ℕ) → Option (Candidate × W) → Option (Candidate × W)
  consider min_ratio total fields (key, (bytes, packets)) best =
      let cover = coverage total bytes in
      let s = score cover fields in
      if f.lt cover min_ratio
      then best
      else if improves s best
      then some (candidate_of fields key, s)
      else best

  unfoldable pub best_group : W → ℕ → ℕ → Groups → Option (Candidate × W) → Option (Candidate × W)
  best_group min_ratio total fields [] best = best
  best_group min_ratio total fields (g ∷ groups) best =
      best_group min_ratio total fields groups (consider min_ratio total fields g best)

  module _ (order : Groups → Groups) where
    -- `for fields in &field_sets`
    unfoldable pub best_fields :
        W → ℕ → List FlowRecord → List ℕ → Option (Candidate × W) → Option (Candidate × W)
    best_fields min_ratio total flows [] best = best
    best_fields min_ratio total flows (fields ∷ field_sets) best =
        best_fields min_ratio total flows field_sets
          (best_group min_ratio total fields (order (group_flows fields flows [])) best)

    unfoldable pub find_best_candidate : List FlowRecord → W → ℕ → Option Candidate
    find_best_candidate [] min_ratio exclude_fields = none
    find_best_candidate (flow ∷ flows) min_ratio exclude_fields =
        let total = total_bytes (flow ∷ flows) in
        if total == 0
        then none
        else elim (best_fields min_ratio total (flow ∷ flows) (all_combinations exclude_fields)
            none) [ none ↦ none | some (c, _) ↦ some c ]
