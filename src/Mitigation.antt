-- ===== src/Mitigation.antt =====
-- src/mitigation.rs: the building blocks of the search for BGP Flow Spec rules.
pub mod Text
pub mod Narrow
pub mod Search
pub mod Analyze
pub mod Fields
pub mod Decode
use Prim.Native.Nat.{bit_and}
use netalert.Prelude.{
  ℕ, zero, suc, ◌+◌, ◌-◌, ◌/◌, ◌%◌, ◌^◌, String, List, [], ◌∷◌, ◌++◌, Option, none, some, Bool,
  true, false, not, ◌&&◌, ite, ◌==◌, leb, if◌then◌else◌, ℕ_discrete, ◌+u64◌,
}
use netalert.Flow.{IpAddr, IpAddr-discrete, FlowRecord, sampled_bytes}

pub record MitigationRule : Type 0 where
  pub source_prefix : Option String
  pub destination_prefix : String
  pub destination_ports : List ℕ
  pub source_ports : List ℕ
  pub protocols : List String
  pub tcp_flags : List String

-- `FieldSet(u8)`: the bits of the fields that a rule constrains.
abbrev pub src_ip_bit : ℕ
src_ip_bit = 1

abbrev pub dst_port_bit : ℕ
dst_port_bit = 2

abbrev pub src_port_bit : ℕ
src_port_bit = 4

abbrev pub protocol_bit : ℕ
protocol_bit = 8

abbrev pub tcp_flags_bit : ℕ
tcp_flags_bit = 16

-- `count_ones` of a `u8`
unfoldable pub count_ones : ℕ → ℕ
count_ones n =
    n % 2 + n / 2 % 2 + n / 4 % 2 + n / 8 % 2 + n / 16 % 2 + n / 32 % 2 + n / 64 % 2 + n / 128 % 2

abbrev pub has : ℕ → ℕ → Bool
has fields flag = not (bit_and fields flag == 0)

-- `!mask` of a `u8`
abbrev pub complement : ℕ → ℕ
complement mask = 255 - mask

-- `for bits in 1u8..=0b11111`, from the last value down, in front of those found.
subsets : ℕ → ℕ → List ℕ → List ℕ
subsets available zero found = found
subsets available (suc bits) found =
    subsets available bits
      (if bit_and (suc bits) (complement available) == 0 then suc bits ∷ found else found)

-- `sort_by_key(count)`, which is stable: an element goes behind its equals.
insert_by_count : ℕ → List ℕ → List ℕ
insert_by_count x [] = x ∷ []
insert_by_count x (y ∷ ys) =
    if leb (count_ones x) (count_ones y) then x ∷ y ∷ ys else y ∷ insert_by_count x ys

sort_by_count : List ℕ → List ℕ
sort_by_count [] = []
sort_by_count (x ∷ xs) = insert_by_count x (sort_by_count xs)

unfoldable pub all_combinations : ℕ → List ℕ
unfolding subsets insert_by_count sort_by_count count_ones
all_combinations exclude_mask = sort_by_count (subsets (bit_and (complement exclude_mask) 31) 31 [])

pub record Candidate : Type 0 where
  pub fields : ℕ
  pub src_ip : Option IpAddr
  pub dst_port : Option ℕ
  pub src_port : Option ℕ
  pub protocol : Option ℕ
  pub tcp_flags : Option ℕ

-- `if let Some(v) = self.f && flow.f != v { return false; }`
abbrev pub agrees : {A : Type 0} → Discrete A → Option A → A → Bool
agrees dec none value = true
agrees dec (some v) value = ite (dec value v) true false

-- The flags of the flow must hold those of the candidate.
abbrev pub holds_flags : Option ℕ → ℕ → Bool
holds_flags none value = true
holds_flags (some flags) value = bit_and value flags == flags

unfoldable pub matches : Candidate → FlowRecord → Bool
matches c flow =
    agrees IpAddr-discrete c.src_ip flow.src_ip
    && (agrees ℕ_discrete c.dst_port flow.dst_port
        && (agrees ℕ_discrete c.src_port flow.src_port
            && (agrees ℕ_discrete c.protocol flow.protocol
                && holds_flags c.tcp_flags flow.tcp_flags)))

pub record GroupKey : Type 0 where
  pub src_ip : Option IpAddr
  pub dst_port : Option ℕ
  pub src_port : Option ℕ
  pub protocol : Option ℕ
  pub tcp_flags : Option ℕ

unfoldable pub GroupKey-discrete : Discrete GroupKey
GroupKey-discrete = hlevel (ℕ_discrete, IpAddr-discrete)

abbrev pub when : {A : Type 0} → Bool → A → Option A
when b v = if b then some v else none

unfoldable pub from_flow : FlowRecord → ℕ → Option GroupKey
from_flow flow fields =
    if has fields tcp_flags_bit && flow.tcp_flags == 0
    then none
    else if has fields protocol_bit && flow.protocol == 0
    then none
    else if has fields dst_port_bit && flow.dst_port == 0
    then none
    else if has fields src_port_bit && flow.src_port == 0
    then none
    else some (record {
      src_ip = when (has fields src_ip_bit) flow.src_ip;
      dst_port = when (has fields dst_port_bit) flow.dst_port;
      src_port = when (has fields src_port_bit) flow.src_port;
      protocol = when (has fields protocol_bit) flow.protocol;
      tcp_flags = when (has fields tcp_flags_bit) flow.tcp_flags;
    })

-- `flows.iter().map(|f| f.sampled_bytes()).sum()`
abbrev pub total_bytes : List FlowRecord → ℕ
total_bytes [] = 0
total_bytes (f ∷ fs) = sampled_bytes f +u64 total_bytes fs
