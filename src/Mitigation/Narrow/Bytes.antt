-- ===== src/Mitigation/Narrow/Bytes.antt =====
-- The bytes of the flows that the counts of `compute_destination_prefix` (src/mitigation.rs) give a
-- network.
use mathlib.Core.Option.{get_or}
use mathlib.Core.List.{Permᴰ}
use netalert.Prelude.{
  ℕ, ◌+◌, ◌≡◌, refl, sym, ap, ap₂, ◌∙◌, List, [], ◌∷◌, arith, ◌+u64◌, u64, Bool, true, false,
  Bool-cases, inl, inr,
}
use netalert.Prelude.Assoc.{find, put}
use netalert.Net.{IpNet}
use netalert.Flow.{IpAddr, IpAddr-discrete, FlowRecord, sampled_bytes}
use netalert.Config.{Direction}
use netalert.Mitigation.{total_bytes}
use netalert.Mitigation.Narrow.{end_of, count_bytes, bytes_in}

-- What a flow adds to a network that has its end, or not.
abbrev share : Bool → ℕ → ℕ
share true bytes = bytes
share false bytes = 0

module _ {Net : Type 0} ⦃n : IpNet Net⦄ where
  -- The bytes of the flows with an end in the network, in a sum that does not wrap.
  unfoldable pub bytes_toward : Direction → List FlowRecord → Net → ℕ
  bytes_toward d [] net = 0
  bytes_toward d (flow ∷ flows) net =
      share (n.contains net (end_of d flow)) (sampled_bytes flow) + bytes_toward d flows net

  u64-bytes_in :
      (counts : List (IpAddr × ℕ)) (net : Net) → u64 (bytes_in counts net) ≡ bytes_in counts net
  unfolding bytes_in
  u64-bytes_in [] net = refl
  u64-bytes_in ((ip, bytes) ∷ counts) net = elim (Bool-cases (n.contains net ip)) [
    | inl e ↦ rw e (omega arith)
    | inr e ↦ rw e (u64-bytes_in counts net)
  ]

  bytes_in-put :
      (ip : IpAddr) (x : ℕ) (counts : List (IpAddr × ℕ)) (net : Net)
      → bytes_in
          (put IpAddr-discrete ip (get_or (find IpAddr-discrete ip counts) 0 +u64 x) counts)
          net
        ≡ u64 (bytes_in counts net + share (n.contains net ip) x)
  unfolding bytes_in
  bytes_in-put ip x [] net = ground arith
  bytes_in-put ip x ((j, bytes) ∷ counts) net = elim (IpAddr-discrete j ip) [
    | yes same ↦ ground (arith, same, u64-bytes_in counts net, ap (n.contains net) same)
    | no differ ↦ ground (arith, bytes_in-put ip x counts net)
  ]

  bytes_in-count_bytes :
      (d : Direction) (flows : List FlowRecord) (counts : List (IpAddr × ℕ)) (net : Net)
      → bytes_in (count_bytes d flows counts) net
        ≡ u64 (bytes_in counts net + bytes_toward d flows net)
  unfolding count_bytes bytes_toward
  bytes_in-count_bytes d [] counts net = sym (ap u64 (omega arith) ∙ u64-bytes_in counts net)
  bytes_in-count_bytes d (flow ∷ flows) counts net =
      bytes_in-count_bytes d flows _ net
      ∙ (ap (λ b. u64 (b + bytes_toward d flows net))
            (bytes_in-put (end_of d flow) (sampled_bytes flow) counts net)
          ∙ omega arith)

  pub bytes_in-counted :
      (d : Direction) (flows : List FlowRecord) (net : Net)
      → bytes_in (count_bytes d flows []) net ≡ u64 (bytes_toward d flows net)
  unfolding bytes_in
  bytes_in-counted d flows net = bytes_in-count_bytes d flows [] net ∙ ap u64 (omega arith)

  pub bytes_toward-Permᴰ :
      (d : Direction) {flows flows' : List FlowRecord} (net : Net)
      → Permᴰ flows flows'
      → bytes_toward d flows net ≡ bytes_toward d flows' net
  unfolding bytes_toward
  bytes_toward-Permᴰ d net Permᴰ.nil = refl
  bytes_toward-Permᴰ d net (Permᴰ.cons e p) =
      ap₂ ◌+◌ (ap (λ flow. share (n.contains net (end_of d flow)) (sampled_bytes flow)) e)
        (bytes_toward-Permᴰ d net p)
  bytes_toward-Permᴰ d net (Permᴰ.swap {a} {b} {a'} {b'} {l} e e') =
      let measure =
        λ (flow : FlowRecord). share (n.contains net (end_of d flow)) (sampled_bytes flow) in
      omega (arith, ap measure e, ap measure e')
  bytes_toward-Permᴰ d net (Permᴰ.trans p q) =
      bytes_toward-Permᴰ d net p ∙ bytes_toward-Permᴰ d net q

pub total_bytes-Permᴰ :
    {flows flows' : List FlowRecord} → Permᴰ flows flows' → total_bytes flows ≡ total_bytes flows'
total_bytes-Permᴰ Permᴰ.nil = refl
total_bytes-Permᴰ (Permᴰ.cons e p) = ap₂ ◌+u64◌ (ap sampled_bytes e) (total_bytes-Permᴰ p)
total_bytes-Permᴰ (Permᴰ.swap e e') = omega (arith, ap sampled_bytes e, ap sampled_bytes e')
total_bytes-Permᴰ (Permᴰ.trans p q) = total_bytes-Permᴰ p ∙ total_bytes-Permᴰ q
