-- ===== src/Mitigation/Narrow/Within.antt =====
-- The network of `compute_destination_prefix` (src/mitigation.rs) and the prefix of the rule.
use netalert.Prelude.{
  ℕ, zero, suc, ◌≡◌, sym, subst, ◌∙◌, inl, inr, List, [], some, true, ◌==◌, arith, Memᴰ,
  Option-cases, Bool-cases,
}
use netalert.Float.{Float}
use netalert.Net.{IpNet}
use netalert.Flow.{IpAddr, FlowRecord}
use netalert.Config.{Direction}
use netalert.Mitigation.{total_bytes}
use netalert.Mitigation.Narrow.{
  count_bytes, weigh, busiest, max_len, descend, narrow, compute_destination_prefix,
}
use netalert.Mitigation.Narrow.Laws.{weigh-Memᴰ, busiest-Memᴰ}

-- `trunc` keeps the addresses of a network, and its subnets have no others.
pub record ContainmentLaws (Net : Type 0) ⦃n : IpNet Net⦄ : Type 0 where
  pub contains-trunc : (net : Net) (ip : IpAddr) → n.contains (n.trunc net) ip ≡ n.contains net ip
  pub contains-subnets :
      (net child : Net) (len : ℕ) (children : List Net) (ip : IpAddr)
      → n.subnets net len ≡ some children
      → Memᴰ child children
      → n.contains child ip ≡ true
      → n.contains net ip ≡ true

module _ {W Net : Type 0} ⦃f : Float W⦄ ⦃n : IpNet Net⦄ (laws : ContainmentLaws Net) where
  descend-Memᴰ :
      (counts : List (IpAddr × ℕ)) (total : ℕ) (ratio : W) (longest : ℕ) (current child : Net)
      → descend counts total ratio longest current ≡ some child
      → (children : List Net) × (n.subnets current (suc (n.prefix_len current)) ≡ some children)
        × Memᴰ child children
  unfolding descend
  descend-Memᴰ counts total ratio longest current child h =
      elim (Option-cases (n.subnets current (suc (n.prefix_len current)))) [
        | inl e ↦ absurd (ground (arith, h, e))
        | inr (children, e) ↦ elim (Option-cases (busiest (weigh counts children))) [
          | inl e' ↦ absurd (ground (arith, h, e, e'))
          | inr (w, e') ↦
              let (mem, _) =
                weigh-Memᴰ counts children w (busiest-Memᴰ (weigh counts children) w e') in
              let taken : w.0 ≡ child = ground (arith, h, e, e') in
              (children, e, subst (λ x. Memᴰ x children) taken mem)
        ]
      ]

  narrow-contains :
      (fuel : ℕ) (counts : List (IpAddr × ℕ)) (total : ℕ) (ratio : W) (longest : ℕ) (current : Net)
      (ip : IpAddr)
      → n.contains (narrow fuel counts total ratio longest current) ip ≡ true
      → n.contains current ip ≡ true
  unfolding narrow
  narrow-contains zero counts total ratio longest current ip h = h
  narrow-contains (suc fuel) counts total ratio longest current ip h =
      elim (Option-cases (descend counts total ratio longest current)) [
        | inl e ↦ rw (narrow, e) at h
        | inr (child, e) ↦
            let (children, made, mem) = descend-Memᴰ counts total ratio longest current child e in
            laws.contains-subnets current child (suc (n.prefix_len current)) children ip made mem
              (narrow-contains fuel counts total ratio longest child ip (rw (narrow, e) at h))
      ]

  -- The prefix that a rule names as its destination has no address outside the prefix that the
  -- descent starts from, whatever the flows and the required share.
  pub compute_destination_prefix-contains :
      (flows : List FlowRecord) (d : Direction) (prefix : Net) (ratio : W) (ip : IpAddr)
      → n.contains (compute_destination_prefix flows d prefix ratio) ip ≡ true
      → n.contains prefix ip ≡ true
  unfolding compute_destination_prefix
  compute_destination_prefix-contains flows d prefix ratio ip h =
      elim (Bool-cases (total_bytes flows == 0)) [
        | inl e ↦ rw (compute_destination_prefix, e) at h
        | inr e ↦
            sym (laws.contains-trunc prefix ip)
            ∙ narrow-contains (max_len prefix) (count_bytes d flows []) (total_bytes flows) ratio
                (max_len prefix) (n.trunc prefix) ip (rw (compute_destination_prefix, e) at h)
      ]
