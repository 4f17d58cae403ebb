-- ===== src/Mitigation/Narrow.antt =====
-- `compute_destination_prefix` (src/mitigation.rs): the descent in the binary tree of prefixes.
pub mod Laws
pub mod Within
pub mod Bytes
pub mod Order
use netalert.Prelude.{
  ℕ, zero, suc, List, [], ◌∷◌, Option, none, some, Bool, ltb, ◌==◌, if◌then◌else◌, ◌+u64◌,
}
use mathlib.Core.Option.{get_or}
use netalert.Prelude.Assoc.{find, put}
use netalert.Float.{Float}
use netalert.Net.{IpNet}
use netalert.Flow.{IpAddr, IpAddr-discrete, FlowRecord, sampled_bytes}
use netalert.Config.{Direction, inbound, outbound}
use netalert.Mitigation.{total_bytes}

-- The end of a flow that lies in the rule's prefix.
abbrev pub end_of : Direction → FlowRecord → IpAddr
end_of inbound flow = flow.dst_ip
end_of outbound flow = flow.src_ip

-- `*counts.entry(ip).or_insert(0) += flow.sampled_bytes()`, for every flow.
unfoldable pub count_bytes : Direction → List FlowRecord → List (IpAddr × ℕ) → List (IpAddr × ℕ)
count_bytes direction [] counts = counts
count_bytes direction (flow ∷ flows) counts =
    let ip = end_of direction flow in
    count_bytes direction flows (
      put IpAddr-discrete ip (get_or (find IpAddr-discrete ip counts) 0 +u64 sampled_bytes flow)
        counts)

-- `max_by_key`, which prefers the later of two equals.
unfoldable pub max_by_key : {A : Type 0} → A × ℕ → List (A × ℕ) → A × ℕ
max_by_key best [] = best
max_by_key best (c ∷ cs) = max_by_key (if ltb c.1 best.1 then best else c) cs

-- `bytes as f64 / total_bytes as f64 >= dominant_ratio`
abbrev pub dominates : {W : Type 0} ⦃f : Float W⦄ → W → ℕ → ℕ → Bool
dominates ⦃f⦄ ratio total bytes = f.ge (f.div (f.of_int bytes) (f.of_int total)) ratio

module _ {Net : Type 0} ⦃n : IpNet Net⦄ where
  -- The bytes of the addresses in a network.
  unfoldable pub bytes_in : List (IpAddr × ℕ) → Net → ℕ
  bytes_in [] child = 0
  bytes_in ((ip, bytes) ∷ counts) child =
      let rest = bytes_in counts child in if n.contains child ip then bytes +u64 rest else rest

  abbrev pub weigh : List (IpAddr × ℕ) → List Net → List (Net × ℕ)
  weigh counts [] = []
  weigh counts (child ∷ children) = (child, bytes_in counts child) ∷ weigh counts children

  abbrev pub busiest : List (Net × ℕ) → Option (Net × ℕ)
  busiest [] = none
  busiest (c ∷ cs) = some (max_by_key c cs)

  abbrev pub max_len : Net → ℕ
  max_len prefix = if n.is_v4 prefix then 32 else 128

  module _ {W : Type 0} ⦃f : Float W⦄ where
    -- The guard of the `while` and its body: the half to descend into, `none` to stop.
    unfoldable pub descend : List (IpAddr × ℕ) → ℕ → W → ℕ → Net → Option Net
    descend counts total ratio longest current =
        if ltb (n.prefix_len current) longest
        then elim (n.subnets current (suc (n.prefix_len current))) [
          | none ↦ none
          | some children ↦ elim (busiest (weigh counts children)) [
            | none ↦ none
            | some (child, bytes) ↦ if dominates ratio total bytes then some child else none
          ]
        ]
        else none

    -- The `while` loop, on fuel.
    unfoldable pub narrow : ℕ → List (IpAddr × ℕ) → ℕ → W → ℕ → Net → Net
    narrow zero counts total ratio longest current = current
    narrow (suc fuel) counts total ratio longest current =
        elim (descend counts total ratio longest current) [
          | none ↦ current
          | some child ↦ narrow fuel counts total ratio longest child
        ]

    -- Every round lengthens the prefix: `max_len` rounds are enough.
    unfoldable pub compute_destination_prefix : List FlowRecord → Direction → Net → W → Net
    compute_destination_prefix flows direction prefix dominant_ratio =
        if total_bytes flows == 0
        then prefix
        else narrow (max_len prefix) (count_bytes direction flows []) (total_bytes flows)
            dominant_ratio (max_len prefix) (n.trunc prefix)
