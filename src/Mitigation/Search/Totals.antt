-- ===== src/Mitigation/Search/Totals.antt =====
-- The groups of `find_best_candidate` (src/mitigation.rs): what each holds.
use mathlib.Core.Option.{get_or}
use netalert.Prelude.{
  ℕ, ◌+◌, ◌≡◌, refl, ◌∙◌, List, [], ◌∷◌, Option, none, some, ◌+u64◌, u64, u64-add_left, ite, arith,
}
use netalert.Prelude.Assoc.{find, find-put}
use netalert.Flow.{FlowRecord, sampled_bytes, sampled_packets}
use netalert.Mitigation.{GroupKey, GroupKey-discrete, from_flow}
use netalert.Mitigation.Search.{Groups, add_group, group_flows}

abbrev keep : Option GroupKey → GroupKey → FlowRecord → List FlowRecord → List FlowRecord
keep none key flow flows = flows
keep (some k) key flow flows = ite (GroupKey-discrete k key) (flow ∷ flows) flows

-- The flows that have the key.
abbrev pub of_key : ℕ → GroupKey → List FlowRecord → List FlowRecord
of_key fields key [] = []
of_key fields key (flow ∷ flows) = keep (from_flow flow fields) key flow (of_key fields key flows)

-- A sum that does not wrap.
abbrev pub sum_of : (FlowRecord → ℕ) → List FlowRecord → ℕ
sum_of measure [] = 0
sum_of measure (flow ∷ flows) = measure flow + sum_of measure flows

abbrev tally : Option (ℕ × ℕ) → List FlowRecord → Option (ℕ × ℕ)
tally o [] = o
tally o (flow ∷ flows) =
    let entry = get_or o (0, 0) in
    tally (some (entry.0 +u64 sampled_bytes flow, entry.1 +u64 sampled_packets flow)) flows

find-add_group :
    (key k : GroupKey) (flow : FlowRecord) (groups : Groups)
    → find GroupKey-discrete key (add_group k flow groups)
      ≡ ite
          (GroupKey-discrete k key)
          (tally (find GroupKey-discrete k groups) (flow ∷ []))
          (find GroupKey-discrete key groups)
find-add_group key k flow groups =
    let entry = get_or (find GroupKey-discrete k groups) (0, 0) in
    find-put GroupKey-discrete k key
      (entry.0 +u64 sampled_bytes flow, entry.1 +u64 sampled_packets flow) groups

find-group_flows-tally :
    (fields : ℕ) (key : GroupKey) (flows : List FlowRecord) (groups : Groups)
    → find GroupKey-discrete key (group_flows fields flows groups)
      ≡ tally (find GroupKey-discrete key groups) (of_key fields key flows)
unfolding group_flows
find-group_flows-tally fields key [] groups = refl
find-group_flows-tally fields key (flow ∷ flows) groups =
    go (from_flow flow fields) (find-group_flows-tally fields key flows)
  where
    go :
        (o : Option GroupKey)
        → ((gs : Groups)
            → find GroupKey-discrete key (group_flows fields flows gs)
              ≡ tally (find GroupKey-discrete key gs) (of_key fields key flows))
        → find GroupKey-discrete key
            (group_flows fields flows (elim o [ none ↦ groups | some k ↦ add_group k flow groups ]))
          ≡ tally (find GroupKey-discrete key groups) (keep o key flow (of_key fields key flows))
    go none later = later groups
    go (some k) later = later (add_group k flow groups) ∙ elim (GroupKey-discrete k key) [
      | yes same ↦ ground (arith, same, find-add_group key k flow groups)
      | no other ↦ ground (arith, other, find-add_group key k flow groups)
    ]

tally-sum :
    (a b : ℕ) (flows : List FlowRecord)
    → tally (some (u64 a, u64 b)) flows
      ≡ some (u64 (a + sum_of sampled_bytes flows), u64 (b + sum_of sampled_packets flows))
tally-sum a b [] = ground arith
tally-sum a b (flow ∷ flows) =
    rw (u64-add_left a (sampled_bytes flow), u64-add_left b (sampled_packets flow))
      (ground (arith, tally-sum (a + sampled_bytes flow) (b + sampled_packets flow) flows))

-- Under every field set, the group of a key holds the sums, up to the wrap at 2 ^ 64, of the bytes
-- and of the packets of exactly the flows that have the key, and there is no group of a key that no
-- flow has.
pub find-group_flows :
    (fields : ℕ) (key : GroupKey) (flows : List FlowRecord)
    → find GroupKey-discrete key (group_flows fields flows []) ≡ elim (of_key fields key flows) [
      | [] ↦ none
      | f ∷ fs ↦ some (u64 (sum_of sampled_bytes (f ∷ fs)), u64 (sum_of sampled_packets (f ∷ fs)))
    ]
find-group_flows fields key flows =
    find-group_flows-tally fields key flows [] ∙ total (of_key fields key flows)
  where
    total :
        (fs : List FlowRecord)
        → tally none fs ≡ elim fs [
          | [] ↦ none
          | f ∷ fs ↦
              some (u64 (sum_of sampled_bytes (f ∷ fs)), u64 (sum_of sampled_packets (f ∷ fs)))
        ]
    total [] = refl
    total (f ∷ fs) = tally-sum 0 0 (f ∷ fs) ∙ ground arith
