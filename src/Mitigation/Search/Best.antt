-- ===== src/Mitigation/Search/Best.antt =====
-- The candidate of `find_best_candidate` (src/mitigation.rs) against all others.
use netalert.Prelude.{
  ℕ, ◌==◌, ◌≡◌, refl, sym, ◌∙◌, inl, inr, List, [], ◌∷◌, Option, none, some, false, arith, Memᴰ,
  Option-cases, subst,
}
use netalert.Float.{Float, IsRanked}
use netalert.Flow.{FlowRecord}
use netalert.Mitigation.{Candidate, GroupKey, all_combinations, total_bytes}
use netalert.Mitigation.Search.{
  Groups, group_flows, candidate_of, coverage, score, improves, consider, best_group, best_fields,
  find_best_candidate,
}
use netalert.Mitigation.Search.Laws.{consider-cases}

some_inj : {A : Type 0} {a b : A} → some a ≡ some b → a ≡ b
some_inj h = ground (arith, h)

module _ {W : Type 0} ⦃f : Float W⦄ (ranked : IsRanked W) (min_ratio : W) (total : ℕ) where
  abbrev score_of : ℕ → GroupKey × (ℕ × ℕ) → W
  score_of fields g = score (coverage total g.1.0) fields

  abbrev IsLarge : GroupKey × (ℕ × ℕ) → Type 0
  IsLarge g = f.lt (coverage total g.1.0) min_ratio ≡ false

  -- A score that does not improve on the best so far does not improve on a later one.
  improves-consider :
      (s : W) (fields : ℕ) (g : GroupKey × (ℕ × ℕ)) (best : Option (Candidate × W))
      → improves s best ≡ false
      → improves s (consider min_ratio total fields g best) ≡ false
  improves-consider s fields g none h = absurd (cc)
  improves-consider s fields g (some (c, b)) h =
      ground (arith, ranked.not-gt_of_gt s b (score_of fields g))

  improves-considered :
      (fields : ℕ) (g : GroupKey × (ℕ × ℕ)) (best : Option (Candidate × W))
      → IsLarge g
      → improves (score_of fields g) (consider min_ratio total fields g best) ≡ false
  improves-considered fields g none large = ground (arith, ranked.not-gt_self (score_of fields g))
  improves-considered fields g (some (c, b)) large =
      ground (arith, ranked.not-gt_self (score_of fields g))

  improves-best_group :
      (s : W) (fields : ℕ) (groups : Groups) (best : Option (Candidate × W))
      → improves s best ≡ false
      → improves s (best_group min_ratio total fields groups best) ≡ false
  unfolding best_group
  improves-best_group s fields [] best h = h
  improves-best_group s fields (g ∷ groups) best h =
      improves-best_group s fields groups (consider min_ratio total fields g best)
        (improves-consider s fields g best h)

  improves-grouped :
      (fields : ℕ) (groups : Groups) (g : GroupKey × (ℕ × ℕ)) (best : Option (Candidate × W))
      → Memᴰ g groups
      → IsLarge g
      → improves (score_of fields g) (best_group min_ratio total fields groups best) ≡ false
  unfolding best_group
  improves-grouped fields [] g best m large = elim m [ ]
  improves-grouped fields (i ∷ groups) g best (Memᴰ.head e) large =
      improves-best_group (score_of fields g) fields groups (consider min_ratio total fields i best)
        (subst (λ x. improves (score_of fields g) (consider min_ratio total fields x best) ≡ false)
          e (improves-considered fields g best large))
  improves-grouped fields (i ∷ groups) g best (Memᴰ.tail m) large =
      improves-grouped fields groups g (consider min_ratio total fields i best) m large

  module _ (order : Groups → Groups) (flows : List FlowRecord) where
    improves-best_fields :
        (s : W) (field_sets : List ℕ) (best : Option (Candidate × W))
        → improves s best ≡ false
        → improves s (best_fields order min_ratio total flows field_sets best) ≡ false
    unfolding best_fields
    improves-best_fields s [] best h = h
    improves-best_fields s (fields ∷ field_sets) best h =
        let groups = order (group_flows fields flows []) in
        improves-best_fields s field_sets (best_group min_ratio total fields groups best)
          (improves-best_group s fields groups best h)

    improves-searched :
        (fields : ℕ) (field_sets : List ℕ) (g : GroupKey × (ℕ × ℕ)) (best : Option (Candidate × W))
        → Memᴰ fields field_sets
        → Memᴰ g (order (group_flows fields flows []))
        → IsLarge g
        → improves (score_of fields g) (best_fields order min_ratio total flows field_sets best)
          ≡ false
    unfolding best_fields
    improves-searched fields [] g best at m large = elim at [ ]
    improves-searched fields (x ∷ field_sets) g best (Memᴰ.head e) m large =
        improves-best_fields (score_of fields g) field_sets
          (best_group min_ratio total x (order (group_flows x flows [])) best)
          (subst
            (λ y.
              improves (score_of fields g)
                (best_group min_ratio total y (order (group_flows y flows [])) best)
              ≡ false)
            e (improves-grouped fields (order (group_flows fields flows [])) g best m large))
    improves-searched fields (x ∷ field_sets) g best (Memᴰ.tail at) m large =
        improves-searched fields field_sets g
          (best_group min_ratio total x (order (group_flows x flows [])) best) at m large

module _ {W : Type 0} ⦃f : Float W⦄ (order : Groups → Groups) (flows : List FlowRecord)
    (min_ratio : W) where
  -- A group of the flows under a field set that may be used, with the required share of the bytes.
  abbrev pub IsEligible : List ℕ → ℕ → GroupKey × (ℕ × ℕ) → Type 0
  IsEligible field_sets fields g =
      Memᴰ fields field_sets
      × Memᴰ g (order (group_flows fields flows []))
      × (f.lt (coverage (total_bytes flows) g.1.0) min_ratio ≡ false)

  -- A candidate and its score, made of an eligible group.
  abbrev pub IsMade : List ℕ → Candidate × W → Type 0
  IsMade field_sets best =
      (fields : ℕ) × (g : GroupKey × (ℕ × ℕ)) × IsEligible field_sets fields g
      × (best ≡ (candidate_of fields g.0, score (coverage (total_bytes flows) g.1.0) fields))

  abbrev AllMade : List ℕ → Option (Candidate × W) → Type 0
  AllMade field_sets best = (b : Candidate × W) → best ≡ some b → IsMade field_sets b

  best_group-AllMade :
      (fields : ℕ) (field_sets : List ℕ) (groups : Groups) (best : Option (Candidate × W))
      → Memᴰ fields field_sets
      → ((g : GroupKey × (ℕ × ℕ)) → Memᴰ g groups → Memᴰ g (order (group_flows fields flows [])))
      → AllMade field_sets best
      → AllMade field_sets (best_group min_ratio (total_bytes flows) fields groups best)
  unfolding best_group
  best_group-AllMade fields field_sets [] best at sub made = made
  best_group-AllMade fields field_sets (g ∷ groups) best at sub made =
      best_group-AllMade fields field_sets groups
        (consider min_ratio (total_bytes flows) fields g best) at (λ x m. sub x (Memᴰ.tail m))
        (λ b e. elim (consider-cases min_ratio (total_bytes flows) fields g best) [
          | inl same ↦ made b (sym same ∙ e)
          | inr (large, new) ↦
              (fields, g, (at, sub g (Memᴰ.head refl), large), some_inj (sym e ∙ new))
        ])

  best_fields-AllMade :
      (all field_sets : List ℕ) (best : Option (Candidate × W))
      → ((x : ℕ) → Memᴰ x field_sets → Memᴰ x all)
      → AllMade all best
      → AllMade all (best_fields order min_ratio (total_bytes flows) flows field_sets best)
  unfolding best_fields
  best_fields-AllMade all [] best sub made = made
  best_fields-AllMade all (fields ∷ field_sets) best sub made =
      best_fields-AllMade all field_sets
        (best_group min_ratio (total_bytes flows) fields (order (group_flows fields flows [])) best)
        (λ x m. sub x (Memᴰ.tail m))
        (best_group-AllMade fields all (order (group_flows fields flows [])) best
          (sub fields (Memᴰ.head refl)) (λ g m. m) made)

module _ {W : Type 0} ⦃f : Float W⦄ (ranked : IsRanked W) (order : Groups → Groups) where
  -- If some group of the flows, under an allowed field set, has the required share of a total of
  -- bytes that is not 0, then a candidate is found; it is made of such a group, and no such group
  -- has a greater score than it.
  pub find_best_candidate-IsBest :
      (flows : List FlowRecord) (min_ratio : W) (exclude fields : ℕ) (g : GroupKey × (ℕ × ℕ))
      → (total_bytes flows == 0) ≡ false
      → IsEligible order flows min_ratio (all_combinations exclude) fields g
      → (c : Candidate) × (s : W) × (find_best_candidate order flows min_ratio exclude ≡ some c)
        × IsMade order flows min_ratio (all_combinations exclude) (c, s)
        × ((fields' : ℕ) (g' : GroupKey × (ℕ × ℕ))
            → IsEligible order flows min_ratio (all_combinations exclude) fields' g'
            → f.gt (score (coverage (total_bytes flows) g'.1.0) fields') s ≡ false)
  unfolding find_best_candidate
  find_best_candidate-IsBest [] min_ratio exclude fields g some_bytes eligible =
      absurd (ground (arith, some_bytes))
  find_best_candidate-IsBest (flow ∷ flows) min_ratio exclude fields g some_bytes eligible =
      let total = total_bytes (flow ∷ flows) in
      let sets = all_combinations exclude in
      let found = best_fields order min_ratio total (flow ∷ flows) sets none in
      elim (Option-cases found) [
        | inl e ↦
            let (at, m, large) = eligible in
            absurd (
              ground (
                arith,
                e,
                improves-searched ranked min_ratio total order (flow ∷ flows) fields sets g none at
                    m large,
              ))
        | inr (b, e) ↦ (
          b.0,
          b.1,
          rw (some_bytes, e) refl,
          best_fields-AllMade order (flow ∷ flows) min_ratio sets sets none (λ x m. m)
              (λ d no_best. absurd (cc)) b e,
          λ fields' g' (at, m, large). ground (
            arith,
            e,
            improves-searched ranked min_ratio total order (flow ∷ flows) fields' sets g' none at m
                large,
          ),
        )
      ]
