-- ===== src/Mitigation/Fields.antt =====
-- The keys by which flows are grouped (`GroupKey::from_flow`, `Candidate::matches` and `FieldSet` in
-- src/mitigation.rs).
use Prim.Native.Nat.{bit_and}
use netalert.Prelude.{
  ℕ, zero, suc, ◌<◌, ◌≡◌, refl, none, some, Bool, true, false, ◌&&◌, ◌==◌, arith, All,
}
use netalert.Flow.{FlowRecord}
use netalert.Mitigation.{
  GroupKey, matches, from_flow, has, all_combinations, protocol_bit, dst_port_bit,
}
use netalert.Mitigation.Search.{candidate_of}

all_below : ℕ → (ℕ → Bool) → Bool
all_below zero p = true
all_below (suc n) p = p n && all_below n p

all_below_lem : (n : ℕ) (p : ℕ → Bool) (x : ℕ) → all_below n p ≡ true → x < n → p x ≡ true
unfolding all_below
all_below_lem zero p x h lt = absurd (omega arith)
all_below_lem (suc n) p x h lt = ground (arith, all_below_lem n p x)

bit_and_table : all_below 256 (λ x. bit_and x x == x) ≡ true
unfolding all_below
bit_and_table = refl

bit_and_self : (x : ℕ) → x < 256 → (bit_and x x == x) ≡ true
bit_and_self x h = all_below_lem 256 (λ x. bit_and x x == x) x bit_and_table h

-- A flow matches the candidate of its own key, whatever the fields.
pub matches-from_flow :
    (flow : FlowRecord) (fields : ℕ) (key : GroupKey)
    → flow.tcp_flags < 256
    → from_flow flow fields ≡ some key
    → matches (candidate_of fields key) flow ≡ true
unfolding matches from_flow
matches-from_flow flow fields key byte h = ground (arith, bit_and_self flow.tcp_flags byte)

-- Fields that are excluded are in no combination.
pub all_combinations-protocol :
    All (λ fs. has fs protocol_bit ≡ false) (all_combinations 8)
    × All (λ fs. has fs protocol_bit ≡ false) (all_combinations 10)
unfolding all_combinations
all_combinations-protocol = ground arith

pub all_combinations-dst_port :
    All (λ fs. has fs dst_port_bit ≡ false) (all_combinations 2)
    × All (λ fs. has fs dst_port_bit ≡ false) (all_combinations 10)
unfolding all_combinations
all_combinations-dst_port = ground arith

pub from_flow-protocol :
    (flow : FlowRecord) (fields : ℕ) (key : GroupKey)
    → has fields protocol_bit ≡ false
    → from_flow flow fields ≡ some key
    → key.protocol ≡ none
unfolding from_flow
from_flow-protocol flow fields key out h = ground arith

pub from_flow-dst_port :
    (flow : FlowRecord) (fields : ℕ) (key : GroupKey)
    → has fields dst_port_bit ≡ false
    → from_flow flow fields ≡ some key
    → key.dst_port ≡ none
unfolding from_flow
from_flow-dst_port flow fields key out h = ground arith
