-- ===== src/Mitigation/Search/Laws.antt =====
-- What `find_best_candidate` (src/mitigation.rs) promises of its answer.
use netalert.Prelude.{
  ℕ, ◌≡◌, refl, sym, ap, ◌∙◌, ◌⊎◌, inl, inr, List, [], ◌∷◌, Option, none, some, false, arith, Memᴰ,
  Option-cases, if_pos, if_neg, subst,
}
use netalert.Prelude.Assoc.{put}
use netalert.Float.{Float}
use netalert.Flow.{FlowRecord}
use netalert.Mitigation.{
  Candidate, GroupKey, GroupKey-discrete, from_flow, all_combinations, total_bytes,
}
use netalert.Mitigation.Search.{
  Groups, add_group, group_flows, candidate_of, coverage, score, consider, best_group, best_fields,
  find_best_candidate,
}

-- A key that a flow of the list has.
abbrev pub IsKeyOf : ℕ → List FlowRecord → GroupKey → Type 0
IsKeyOf fields flows key =
    (flow : FlowRecord) × Memᴰ flow flows × (from_flow flow fields ≡ some key)

-- A key of a map after an insertion is the new one or an old one.
put_key :
    (k j : GroupKey) (v u : ℕ × ℕ) (m : Groups)
    → Memᴰ (j, u) (put GroupKey-discrete k v m)
    → (j ≡ k) ⊎ ((w : ℕ × ℕ) × Memᴰ (j, w) m)
put_key k j v u [] (Memᴰ.head e) = inl (ap (λ x. x.0) e)
put_key k j v u [] (Memᴰ.tail m) = elim m [ ]
put_key k j v u ((i, w) ∷ m) h = elim (GroupKey-discrete i k) [
  | yes e ↦ same (rw (if_pos (GroupKey-discrete i k) e) at h)
  | no e ↦ other (put_key k j v u m) (rw (if_neg (GroupKey-discrete i k) e) at h)
]
  where
    same : Memᴰ (j, u) ((i, v) ∷ m) → (j ≡ k) ⊎ ((x : ℕ × ℕ) × Memᴰ (j, x) ((i, w) ∷ m))
    same (Memᴰ.head e) = inr (w, Memᴰ.head (ap (λ x. (x.0, w)) e))
    same (Memᴰ.tail n) = inr (u, Memᴰ.tail n)

    other :
        (Memᴰ (j, u) (put GroupKey-discrete k v m) → (j ≡ k) ⊎ ((x : ℕ × ℕ) × Memᴰ (j, x) m))
        → Memᴰ (j, u) ((i, w) ∷ put GroupKey-discrete k v m)
        → (j ≡ k) ⊎ ((x : ℕ × ℕ) × Memᴰ (j, x) ((i, w) ∷ m))
    other ih (Memᴰ.head e) = inr (u, Memᴰ.head e)
    other ih (Memᴰ.tail n) = elim (ih n) [ inl e ↦ inl e | inr (x, l) ↦ inr (x, Memᴰ.tail l) ]

-- Every group is of the key of some flow.
group_flows-IsKeyOf :
    (fields : ℕ) (all flows : List FlowRecord) (groups : Groups) (j : GroupKey) (u : ℕ × ℕ)
    → ((flow : FlowRecord) → Memᴰ flow flows → Memᴰ flow all)
    → ((i : GroupKey) (w : ℕ × ℕ) → Memᴰ (i, w) groups → IsKeyOf fields all i)
    → Memᴰ (j, u) (group_flows fields flows groups)
    → IsKeyOf fields all j
unfolding group_flows
group_flows-IsKeyOf fields all [] groups j u sub old m = old j u m
group_flows-IsKeyOf fields all (flow ∷ flows) groups j u sub old m =
    elim (Option-cases (from_flow flow fields)) [
      | inl e ↦
          group_flows-IsKeyOf fields all flows groups j u (λ x n. sub x (Memᴰ.tail n)) old
            (rw (e, group_flows) at m)
      | inr (key, e) ↦
          group_flows-IsKeyOf fields all flows (add_group key flow groups) j u
            (λ x n. sub x (Memᴰ.tail n))
            (λ i w n. elim (put_key key i _ w groups n) [
              | inl same ↦ (flow, sub flow (Memᴰ.head refl), e ∙ ap some (sym same))
              | inr (x, l) ↦ old i x l
            ])
            (rw (e, group_flows) at m)
    ]

module _ {W : Type 0} ⦃f : Float W⦄ where
  -- A candidate that was considered: of a field set and a group large enough, with its score.
  abbrev Considered : W → ℕ → List FlowRecord → List ℕ → Candidate → W → Type 0
  Considered min_ratio total flows field_sets c s =
      (key : GroupKey) × (bytes : ℕ) × Memᴰ c.fields field_sets
      × IsKeyOf c.fields flows key
      × (c ≡ candidate_of c.fields key)
      × (f.lt (coverage total bytes) min_ratio ≡ false)
      × (s ≡ score (coverage total bytes) c.fields)

  abbrev BestIs : W → ℕ → List FlowRecord → List ℕ → Option (Candidate × W) → Type 0
  BestIs min_ratio total flows field_sets best =
      (c : Candidate) (s : W) → best ≡ some (c, s) → Considered min_ratio total flows field_sets c s

  -- What one group makes of the best so far.
  pub consider-cases :
      (min_ratio : W) (total fields : ℕ) (g : GroupKey × (ℕ × ℕ)) (best : Option (Candidate × W))
      → (consider min_ratio total fields g best ≡ best)
        ⊎ ((f.lt (coverage total g.1.0) min_ratio ≡ false)
            × (consider min_ratio total fields g best
                ≡ some (candidate_of fields g.0, score (coverage total g.1.0) fields)))
  consider-cases min_ratio total fields g best = ground arith

  best_group-BestIs :
      (min_ratio : W) (total fields : ℕ) (flows : List FlowRecord) (field_sets : List ℕ)
      (groups : Groups) (best : Option (Candidate × W))
      → Memᴰ fields field_sets
      → ((i : GroupKey) (w : ℕ × ℕ) → Memᴰ (i, w) groups → IsKeyOf fields flows i)
      → BestIs min_ratio total flows field_sets best
      → BestIs min_ratio total flows field_sets (best_group min_ratio total fields groups best)
  unfolding best_group
  best_group-BestIs min_ratio total fields flows field_sets [] best m keys h = h
  best_group-BestIs min_ratio total fields flows field_sets (g ∷ groups) best m keys h =
      best_group-BestIs min_ratio total fields flows field_sets groups
        (consider min_ratio total fields g best) m (λ i w n. keys i w (Memᴰ.tail n))
        (λ c s e. elim (consider-cases min_ratio total fields g best) [
          | inl same ↦ h c s (sym same ∙ e)
          | inr (large, new) ↦
              let same : ◌≡◌ {A = Candidate × W}
                  (candidate_of fields g.0, score (coverage total g.1.0) fields) (c, s) =
                ground arith in
              subst (λ (p : Candidate × W). Considered min_ratio total flows field_sets p.0 p.1)
                same (g.0, g.1.0, m, keys g.0 g.1 (Memᴰ.head refl), refl, large, refl)
        ])

  module _ (order : Groups → Groups)
      (lists : (m : Groups) (i : GroupKey) (w : ℕ × ℕ)
        → Memᴰ (i, w) (order m)
        → Memᴰ (i, w) m) where
    best_fields-BestIs :
        (min_ratio : W) (total : ℕ) (flows : List FlowRecord) (all field_sets : List ℕ)
        (best : Option (Candidate × W))
        → ((x : ℕ) → Memᴰ x field_sets → Memᴰ x all)
        → BestIs min_ratio total flows all best
        → BestIs min_ratio total flows all (best_fields order min_ratio total flows field_sets best)
    unfolding best_fields
    best_fields-BestIs min_ratio total flows all [] best sub h = h
    best_fields-BestIs min_ratio total flows all (fields ∷ field_sets) best sub h =
        best_fields-BestIs min_ratio total flows all field_sets
          (best_group min_ratio total fields (order (group_flows fields flows [])) best)
          (λ x n. sub x (Memᴰ.tail n))
          (best_group-BestIs min_ratio total fields flows all (order (group_flows fields flows []))
            best (sub fields (Memᴰ.head refl))
            (λ i w n.
              group_flows-IsKeyOf fields flows flows [] i w (λ x k. k) (λ j u k. elim k [ ])
                (lists (group_flows fields flows []) i w n))
            h)

    -- The candidate that is found constrains one of the allowed field sets, its values are those
    -- of a captured flow, and the share of its group is not below the required ratio.
    pub find_best_candidate_lem :
        (flows : List FlowRecord) (min_ratio : W) (exclude : ℕ) (c : Candidate)
        → find_best_candidate order flows min_ratio exclude ≡ some c
        → (key : GroupKey) × (bytes : ℕ) × Memᴰ c.fields (all_combinations exclude)
          × IsKeyOf c.fields flows key
          × (c ≡ candidate_of c.fields key)
          × (f.lt (coverage (total_bytes flows) bytes) min_ratio ≡ false)
    unfolding find_best_candidate
    find_best_candidate_lem [] min_ratio exclude c h = absurd (ground arith)
    find_best_candidate_lem (flow ∷ flows) min_ratio exclude c h =
        let total = total_bytes (flow ∷ flows) in
        let found =
          best_fields order min_ratio total (flow ∷ flows) (all_combinations exclude) none in
        elim (Option-cases found) [
          | inl e ↦ absurd (ground arith)
          | inr (b, e) ↦
              let (key, bytes, m, is_key, made, large, s) =
                best_fields-BestIs min_ratio total (flow ∷ flows) (all_combinations exclude)
                  (all_combinations exclude) none (λ x k. k) (λ d s none_some. absurd (cc)) c b.1
                  (ground arith) in
              (key, bytes, m, is_key, made, large)
        ]
