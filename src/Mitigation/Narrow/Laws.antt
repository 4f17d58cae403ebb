-- ===== src/Mitigation/Narrow/Laws.antt =====
-- Where the descent of `compute_destination_prefix` (src/mitigation.rs) ends.
use netalert.Prelude.{
  ℕ, ◌≡◌, refl, sym, subst, ◌⊎◌, inl, inr, List, [], ◌∷◌, none, some, true, ltb, arith, Memᴰ,
  Bool-cases,
}
use netalert.Float.{Float}
use netalert.Net.{IpNet}
use netalert.Flow.{IpAddr}
use netalert.Mitigation.Narrow.{bytes_in, max_by_key, weigh, busiest, dominates, descend}

-- `subnets` gives networks of the length that is asked for.
pub record SubnetLaws (Net : Type 0) ⦃n : IpNet Net⦄ : Type 0 where
  pub prefix_len-subnets :
      (net child : Net) (len : ℕ) (children : List Net)
      → n.subnets net len ≡ some children
      → Memᴰ child children
      → n.prefix_len child ≡ len

skip_one : {A : Type 0} {x y z : A} {xs : List A} → Memᴰ x (y ∷ xs) → Memᴰ x (y ∷ z ∷ xs)
skip_one (Memᴰ.head e) = Memᴰ.head e
skip_one (Memᴰ.tail m) = Memᴰ.tail (Memᴰ.tail m)

max_by_key-Memᴰ :
    {A : Type 0} (best : A × ℕ) (cs : List (A × ℕ)) → Memᴰ (max_by_key best cs) (best ∷ cs)
unfolding max_by_key
max_by_key-Memᴰ best [] = Memᴰ.head refl
max_by_key-Memᴰ best (c ∷ cs) = elim (Bool-cases (ltb c.1 best.1)) [
  | inl e ↦ rw e (skip_one (max_by_key-Memᴰ best cs))
  | inr e ↦ rw e (Memᴰ.tail (max_by_key-Memᴰ c cs))
]

module _ {Net : Type 0} ⦃n : IpNet Net⦄ where
  pub weigh-Memᴰ :
      (counts : List (IpAddr × ℕ)) (children : List Net) (w : Net × ℕ)
      → Memᴰ w (weigh counts children)
      → Memᴰ w.0 children × (w.1 ≡ bytes_in counts w.0)
  weigh-Memᴰ counts [] w m = elim m [ ]
  weigh-Memᴰ counts (c ∷ cs) w (Memᴰ.head e) =
      subst (λ (x : Net × ℕ). Memᴰ x.0 (c ∷ cs) × (x.1 ≡ bytes_in counts x.0)) (sym e)
        (Memᴰ.head refl, refl)
  weigh-Memᴰ counts (c ∷ cs) w (Memᴰ.tail m) =
      let (mem, e) = weigh-Memᴰ counts cs w m in (Memᴰ.tail mem, e)

  pub busiest-Memᴰ : (ws : List (Net × ℕ)) (w : Net × ℕ) → busiest ws ≡ some w → Memᴰ w ws
  busiest-Memᴰ [] w h = absurd (cc)
  busiest-Memᴰ (c ∷ cs) w h =
      let e : max_by_key c cs ≡ w = ground (arith, h) in
      subst (λ x. Memᴰ x (c ∷ cs)) e (max_by_key-Memᴰ c cs)

  module _ {W : Type 0} ⦃f : Float W⦄ (laws : SubnetLaws Net) where
    -- The descent has come to an end, and is where it began or at a dominant network.
    abbrev EndsAt : List (IpAddr × ℕ) → ℕ → W → ℕ → Net → Net → Type 0
    EndsAt counts total ratio longest current r =
        (descend counts total ratio longest r ≡ none)
        × ((r ≡ current) ⊎ (dominates ratio total (bytes_in counts r) ≡ true))
