-- ===== src/Examples/Halves.antt =====
-- The narrowing of a destination at a concrete flow, with the IPv4 internet and its halves.
use netalert.Prelude.{
  ℕ, ◌/◌, ◌^◌, ◌≡◌, refl, if◌then◌else◌, List, [], ◌∷◌, Option, none, some, Bool, true, false, ◌==◌,
  Memᴰ, All,
}
use netalert.Float.{thousandths}
use netalert.Net.{IpNet}
use netalert.Flow.{IpAddr, v4, v6, FlowRecord}
use netalert.Config.{inbound, tcp}
use netalert.Mitigation.Narrow.{compute_destination_prefix}
use netalert.Mitigation.Narrow.Order.{compute_destination_prefix-Permᴰ}
use netalert.Mitigation.Narrow.Within.{ContainmentLaws}
use netalert.Mitigation.Search.{Groups}
use netalert.Mitigation.Analyze.{analyze_flows}
use netalert.Mitigation.Analyze.Within.{StaysInside, analyze_flows-StaysInside}
use mathlib.Core.List.{Permᴰ}
use netalert.Examples.Flows.{syn}

data Block : Type 0 where
  whole low high : Block

abbrev in_block : Block → IpAddr → Bool
in_block whole (v4 a) = true
in_block low (v4 a) = a / 2 ^ 31 == 0
in_block high (v4 a) = a / 2 ^ 31 == 1
in_block _ (v6 a) = false

abbrev bits_of : Block → ℕ
bits_of whole = 0
bits_of _ = 1

abbrev halves_of : Block → ℕ → Option (List Block)
halves_of whole len = if len == 1 then some (low ∷ high ∷ []) else none
halves_of _ _ = none

instance abbrev blocks : IpNet Block
blocks = record {
  to_string = λ b. "block";
  parse = λ s. none;
  is_v4 = λ b. true;
  prefix_len = bits_of;
  trunc = λ b. b;
  subnets = halves_of;
  contains = in_block;
}

abbrev low_flow : FlowRecord
low_flow = record syn { dst_ip = v4 7; bytes = 3 }

compute_destination_prefix-Permᴰ_example :
    compute_destination_prefix {W = ℕ} (syn ∷ low_flow ∷ []) inbound whole 800
    ≡ compute_destination_prefix {W = ℕ} (low_flow ∷ syn ∷ []) inbound whole 800
compute_destination_prefix-Permᴰ_example =
    compute_destination_prefix-Permᴰ inbound whole 800 (Permᴰ.swap refl refl)

contains-halves_of :
    (net child : Block) (len : ℕ) (children : List Block) (ip : IpAddr)
    → halves_of net len ≡ some children
    → Memᴰ child children
    → in_block child ip ≡ true
    → in_block net ip ≡ true
contains-halves_of low child len children ip e m h = absurd (cc)
contains-halves_of high child len children ip e m h = absurd (cc)
contains-halves_of whole child len children (v4 a) e m h = refl
contains-halves_of whole low len children (v6 a) e m h = h
contains-halves_of whole high len children (v6 a) e m h = h
contains-halves_of whole whole len children (v6 a) e m h = h

blocks-contain : ContainmentLaws Block
blocks-contain = record { contains-trunc = λ net ip. refl; contains-subnets = contains-halves_of }

abbrev in_order : Groups → Groups
in_order groups = groups

analyze_flows-StaysInside_example : All (StaysInside whole inbound) (
    analyze_flows {W = ℕ} in_order
      (λ ip. "203.0.113.7")
      (syn ∷ [])
      whole
      inbound
      tcp
      9_000_000
      8_000_000)
analyze_flows-StaysInside_example =
    analyze_flows-StaysInside blocks-contain (λ ip. "203.0.113.7") in_order (syn ∷ []) whole inbound
      tcp 9_000_000 8_000_000
