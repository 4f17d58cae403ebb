-- ===== src/Mitigation/Narrow/Order.antt =====
-- `compute_destination_prefix` (src/mitigation.rs) and the order of the flows.
use mathlib.Core.List.{Permᴰ}
use netalert.Prelude.{
  ℕ, zero, suc, ◌≡◌, refl, sym, ap, ap₂, ◌∙◌, List, [], ◌∷◌, arith, ◌==◌, if◌then◌else◌, u64,
  Option-cases, inl, inr,
}
use netalert.Float.{Float}
use netalert.Net.{IpNet}
use netalert.Flow.{IpAddr, FlowRecord}
use netalert.Config.{Direction}
use netalert.Mitigation.{total_bytes}
use netalert.Mitigation.Narrow.{
  count_bytes, bytes_in, weigh, max_len, descend, narrow, compute_destination_prefix,
}
use netalert.Mitigation.Narrow.Bytes.{bytes_in-counted, bytes_toward-Permᴰ, total_bytes-Permᴰ}

-- Two counts that no network tells apart.
abbrev Same : (Net : Type 0) → ⦃n : IpNet Net⦄ → List (IpAddr × ℕ) → List (IpAddr × ℕ) → Type 0
Same Net c c' = (net : Net) → bytes_in c net ≡ bytes_in c' net

module _ {Net : Type 0} ⦃n : IpNet Net⦄ where
  weigh-Same :
      (c c' : List (IpAddr × ℕ)) (children : List Net)
      → Same Net c c'
      → weigh c children ≡ weigh c' children
  weigh-Same c c' [] h = refl
  weigh-Same c c' (child ∷ children) h =
      ap₂ (λ b ws. (child, b) ∷ ws) (h child) (weigh-Same c c' children h)

module _ {W Net : Type 0} ⦃f : Float W⦄ ⦃n : IpNet Net⦄ where
  descend-Same :
      (c c' : List (IpAddr × ℕ)) (total : ℕ) (ratio : W) (longest : ℕ) (current : Net)
      → Same Net c c'
      → descend c total ratio longest current ≡ descend c' total ratio longest current
  unfolding descend
  descend-Same c c' total ratio longest current h =
      elim (Option-cases (n.subnets current (suc (n.prefix_len current)))) [
        | inl e ↦ rw e refl
        | inr (children, e) ↦ rw (e, weigh-Same c c' children h) refl
      ]

  narrow-Same :
      (fuel : ℕ) (c c' : List (IpAddr × ℕ)) (total : ℕ) (ratio : W) (longest : ℕ) (current : Net)
      → Same Net c c'
      → narrow fuel c total ratio longest current ≡ narrow fuel c' total ratio longest current
  unfolding narrow
  narrow-Same zero c c' total ratio longest current h = refl
  narrow-Same (suc fuel) c c' total ratio longest current h =
      let next = descend-Same c c' total ratio longest current h in
      elim (Option-cases (descend c' total ratio longest current)) [
        | inl e ↦ ground (arith, next, e)
        | inr (child, e) ↦
            ground (arith, next, e, narrow-Same fuel c c' total ratio longest child h)
      ]

  -- The destination prefix does not depend on the order in which the flows were captured: two lists
  -- of flows of which one is a permutation of the other have the same one, although they fill the
  -- hash map of the counts in another order.
  pub compute_destination_prefix-Permᴰ :
      {flows flows' : List FlowRecord} (d : Direction) (prefix : Net) (ratio : W)
      → Permᴰ flows flows'
      → compute_destination_prefix flows d prefix ratio
        ≡ compute_destination_prefix flows' d prefix ratio
  unfolding compute_destination_prefix
  compute_destination_prefix-Permᴰ {flows} {flows'} d prefix ratio p =
      let same : Same Net (count_bytes d flows []) (count_bytes d flows' []) = λ net.
        bytes_in-counted d flows net
        ∙ (ap u64 (bytes_toward-Permᴰ d net p) ∙ sym (bytes_in-counted d flows' net)) in
      rw (total_bytes-Permᴰ p) (
        ap (λ r. if total_bytes flows' == 0 then prefix else r)
          (narrow-Same (max_len prefix) (count_bytes d flows []) (count_bytes d flows' [])
            (total_bytes flows') ratio (max_len prefix) (n.trunc prefix) same))
