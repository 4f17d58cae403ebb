-- ===== src/Prometheus/Keys.antt =====
-- The names of the labels that the rates carry (src/prometheus.rs).
use Prim.Native.Nat.{Ordering}
use Prim.Native.String.{compare}
use text.Mathlib.TextEquality.{path_by_compare}
use netalert.Prelude.{
  ◌≡◌, ◌↔◌, ◌⊎◌, inl, inr, refl, sym, subst, ◌∙◌, String, List, [], ◌∷◌, Memᴰ, All, map,
}
use netalert.Prelude.Texts.{compare_swap, compare_trans}
use netalert.Processor.Rates.{RateSnapshot}
use netalert.Prometheus.{insert_key, insert_keys, collect_keys}

-- Every text comes before all later ones; so none stands twice.
abbrev pub IsAscending : List String → Type 0
IsAscending [] = Unit
IsAscending (k ∷ ks) = All (λ j. compare k j ≡ Ordering.lt) ks × IsAscending ks

-- The label is one of the labels.
abbrev pub Names : String → List (String × String) → Type 0
Names key labels = Memᴰ key (map (λ e. e.0) labels)

Ordering-cases : (o : Ordering) → (o ≡ Ordering.lt) ⊎ ((o ≡ Ordering.eq) ⊎ (o ≡ Ordering.gt))
Ordering-cases Ordering.lt = inl refl
Ordering-cases Ordering.eq = inr (inl refl)
Ordering-cases Ordering.gt = inr (inr refl)

insert_key_cases :
    (key k : String) (ks : List String)
    → ((compare key k ≡ Ordering.lt) × (insert_key key (k ∷ ks) ≡ key ∷ k ∷ ks))
      ⊎ (((key ≡ k) × (insert_key key (k ∷ ks) ≡ k ∷ ks))
          ⊎ ((compare k key ≡ Ordering.lt) × (insert_key key (k ∷ ks) ≡ k ∷ insert_key key ks)))
unfolding insert_key
insert_key_cases key k ks = elim (Ordering-cases (compare key k)) [
  | inl e ↦ inl (e, rw (insert_key, e) refl)
  | inr (inl e) ↦ inr (inl (path_by_compare key k e, rw (insert_key, e) refl))
  | inr (inr e) ↦ inr (inr (compare_swap key k e, rw (insert_key, e) refl))
]

All-insert_key :
    (P : String → Type 0) (key : String) (ks : List String)
    → P key
    → All P ks
    → All P (insert_key key ks)
unfolding insert_key
All-insert_key P key [] p all = (p, tt)
All-insert_key P key (k ∷ ks) p all = elim (insert_key_cases key k ks) [
  | inl (_, e) ↦ subst (All P) (sym e) (p, all)
  | inr (inl (_, e)) ↦ subst (All P) (sym e) all
  | inr (inr (_, e)) ↦ subst (All P) (sym e) (all.0, All-insert_key P key ks p all.1)
]

All-compare_trans :
    (k j : String) (ks : List String)
    → compare k j ≡ Ordering.lt
    → All (λ i. compare j i ≡ Ordering.lt) ks
    → All (λ i. compare k i ≡ Ordering.lt) ks
All-compare_trans k j [] h all = tt
All-compare_trans k j (i ∷ ks) h all =
    (compare_trans k j i h all.0, All-compare_trans k j ks h all.1)

insert_key-IsAscending :
    (key : String) (ks : List String) → IsAscending ks → IsAscending (insert_key key ks)
unfolding insert_key
insert_key-IsAscending key [] h = (tt, tt)
insert_key-IsAscending key (k ∷ ks) h = elim (insert_key_cases key k ks) [
  | inl (before, e) ↦ subst IsAscending (sym e) ((before, All-compare_trans key k ks before h.0), h)
  | inr (inl (_, e)) ↦ subst IsAscending (sym e) h
  | inr (inr (after, e)) ↦ subst IsAscending (sym e) (
    All-insert_key (λ j. compare k j ≡ Ordering.lt) key ks after h.0,
    insert_key-IsAscending key ks h.1,
  )
]

-- A member of the list with one more element.
Memᴰ_cons : {A : Type 0} {j k : A} {ks : List A} → Memᴰ j (k ∷ ks) → (j ≡ k) ⊎ Memᴰ j ks
Memᴰ_cons (Memᴰ.head e) = inl e
Memᴰ_cons (Memᴰ.tail m) = inr m

of_insert_key :
    (key j : String) (ks : List String) → Memᴰ j (insert_key key ks) → (j ≡ key) ⊎ Memᴰ j ks
unfolding insert_key
of_insert_key key j [] m = Memᴰ_cons m
of_insert_key key j (k ∷ ks) m = elim (insert_key_cases key k ks) [
  | inl (_, e) ↦ Memᴰ_cons (subst (Memᴰ j) e m)
  | inr (inl (_, e)) ↦ inr (subst (Memᴰ j) e m)
  | inr (inr (_, e)) ↦ elim (Memᴰ_cons (subst (Memᴰ j) e m)) [
    | inl here ↦ inr (Memᴰ.head here)
    | inr there ↦ elim (of_insert_key key j ks there) [
      | inl same ↦ inl same
      | inr old ↦ inr (Memᴰ.tail old)
    ]
  ]
]

to_insert_key :
    (key j : String) (ks : List String) → (j ≡ key) ⊎ Memᴰ j ks → Memᴰ j (insert_key key ks)
unfolding insert_key
to_insert_key key j [] (inl same) = Memᴰ.head same
to_insert_key key j [] (inr m) = elim m [ ]
to_insert_key key j (k ∷ ks) h = elim (insert_key_cases key k ks) [
  | inl (_, e) ↦
      subst (Memᴰ j) (sym e) (elim h [ inl same ↦ Memᴰ.head same | inr old ↦ Memᴰ.tail old ])
  | inr (inl (here, e)) ↦
      subst (Memᴰ j) (sym e) (elim h [ inl same ↦ Memᴰ.head (same ∙ here) | inr old ↦ old ])
  | inr (inr (_, e)) ↦ subst (Memᴰ j) (sym e) (elim h [
    | inl same ↦ Memᴰ.tail (to_insert_key key j ks (inl same))
    | inr old ↦ elim (Memᴰ_cons old) [
      | inl here ↦ Memᴰ.head here
      | inr there ↦ Memᴰ.tail (to_insert_key key j ks (inr there))
    ]
  ])
]

insert_keys-IsAscending :
    (labels : List (String × String)) (ks : List String)
    → IsAscending ks
    → IsAscending (insert_keys labels ks)
unfolding insert_keys
insert_keys-IsAscending [] ks h = h
insert_keys-IsAscending ((key, val) ∷ labels) ks h =
    insert_keys-IsAscending labels (insert_key key ks) (insert_key-IsAscending key ks h)

insert_keys-mem :
    (labels : List (String × String)) (ks : List String) (j : String)
    → Memᴰ j (insert_keys labels ks) ↔ (Names j labels ⊎ Memᴰ j ks)
unfolding insert_keys
insert_keys-mem [] ks j = (λ m. inr m, λ h. elim h [ inl m ↦ elim m [ ] | inr m ↦ m ])
insert_keys-mem ((key, val) ∷ labels) ks j =
    let rest = insert_keys-mem labels (insert_key key ks) j in
    (
      λ m. elim (rest.0 m) [
        | inl later ↦ inl (Memᴰ.tail later)
        | inr new ↦ elim (of_insert_key key j ks new) [
          | inl same ↦ inl (Memᴰ.head same)
          | inr old ↦ inr old
        ]
      ],
      λ h. rest.1 (elim h [
        | inl named ↦ elim (Memᴰ_cons named) [
          | inl same ↦ inr (to_insert_key key j ks (inl same))
          | inr later ↦ inl later
        ]
        | inr old ↦ inr (to_insert_key key j ks (inr old))
      ]),
    )

module _ {W : Type 0} where
  -- Some rate has a label of the name.
  abbrev pub IsNamed : String → List (RateSnapshot W) → Type 0
  IsNamed key snapshots = (s : RateSnapshot W) × Memᴰ s snapshots × Names key s.labels

  pub collect_keys-mem :
      (snapshots : List (RateSnapshot W)) (ks : List String) (j : String)
      → Memᴰ j (collect_keys snapshots ks) ↔ (IsNamed j snapshots ⊎ Memᴰ j ks)
  unfolding collect_keys
  collect_keys-mem [] ks j = (λ m. inr m, λ h. elim h [ inl (s, m, _) ↦ elim m [ ] | inr m ↦ m ])
  collect_keys-mem (s ∷ snapshots) ks j =
      let rest = collect_keys-mem snapshots (insert_keys s.labels ks) j in
      let here = insert_keys-mem s.labels ks j in
      (
        λ m. elim (rest.0 m) [
          | inl (s', at, named) ↦ inl (s', Memᴰ.tail at, named)
          | inr new ↦ elim (here.0 new) [
            | inl named ↦ inl (s, Memᴰ.head refl, named)
            | inr old ↦ inr old
          ]
        ],
        λ h. rest.1 (elim h [
          | inl (s', at, named) ↦ elim (Memᴰ_cons at) [
            | inl same ↦ inr (here.1 (inl (subst (λ x. Names j x.labels) same named)))
            | inr later ↦ inl (s', later, named)
          ]
          | inr old ↦ inr (here.1 (inr old))
        ]),
      )

  pub collect_keys-IsAscending :
      (snapshots : List (RateSnapshot W)) (ks : List String)
      → IsAscending ks
      → IsAscending (collect_keys snapshots ks)
  unfolding collect_keys
  collect_keys-IsAscending [] ks h = h
  collect_keys-IsAscending (s ∷ snapshots) ks h =
      collect_keys-IsAscending snapshots (insert_keys s.labels ks)
        (insert_keys-IsAscending s.labels ks h)
