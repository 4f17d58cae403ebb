-- ===== src/Manager/Reload/Orphans/Entries.antt =====
-- The entries of the map that a reload keeps of the old alerts (src/alert.rs).
use mathlib.Core.List.Memᴰ.{cases_cons}
use netalert.Prelude.{
  ℕ, ◌≡◌, ◌≢◌, refl, sym, ap, ◌∙◌, ◌↔◌, ◌⊎◌, inl, inr, [], ◌∷◌, none, some, arith, false, Memᴰ,
  if_pos, if_neg, Bool-cases,
}
use netalert.Prelude.Assoc.{find, put, remove}
use netalert.Alert.{AlertState, normal, pending, firing, recovering}
use netalert.Manager.{AlertKey, AlertKey-discrete}
use netalert.Manager.Reload.{Kept}
use netalert.Manager.Reload.Orphans.{is_normal, active}

abbrev pub Entry : Type 0
Entry = AlertKey × (AlertState × ℕ)

pub Memᴰ-remove :
    (k : AlertKey) (e : Entry) (m : Kept)
    → Memᴰ e (remove AlertKey-discrete k m) ↔ (Memᴰ e m × (k ≢ e.0))
Memᴰ-remove k e [] = (λ x. elim x [ ], λ x. elim x.0 [ ])
Memᴰ-remove k e ((j, v) ∷ m) = elim (AlertKey-discrete j k) [
  | yes same ↦ rw (if_pos (AlertKey-discrete j k) same) (
    λ x. let (mem, other) = (Memᴰ-remove k e m).0 x in (Memᴰ.tail mem, other),
    λ (mem, other). elim (cases_cons mem) [
      | inl p ↦ absurd (other (sym same ∙ sym (ap (λ y. y.0) p)))
      | inr later ↦ (Memᴰ-remove k e m).1 (later, other)
    ],
  )
  | no differ ↦ rw (if_neg (AlertKey-discrete j k) differ) (
    λ x. elim (cases_cons x) [
      | inl p ↦ (Memᴰ.head p, λ q. differ (sym (ap (λ y. y.0) p) ∙ sym q))
      | inr later ↦ let (mem, other) = (Memᴰ-remove k e m).0 later in (Memᴰ.tail mem, other)
    ],
    λ (mem, other). elim (cases_cons mem) [
      | inl p ↦ Memᴰ.head p
      | inr later ↦ Memᴰ.tail ((Memᴰ-remove k e m).1 (later, other))
    ],
  )
]

pub Memᴰ-put :
    (k : AlertKey) (v : AlertState × ℕ) (e : Entry) (m : Kept)
    → find AlertKey-discrete k m ≡ none
    → Memᴰ e (put AlertKey-discrete k v m) ↔ (Memᴰ e m ⊎ (e ≡ (k, v)))
Memᴰ-put k v e [] fresh = (
  λ x. elim (cases_cons x) [ inl p ↦ inr p | inr never ↦ elim never [ ] ],
  λ x. elim x [ inl never ↦ elim never [ ] | inr p ↦ Memᴰ.head p ],
)
Memᴰ-put k v e ((j, w) ∷ m) fresh = elim (AlertKey-discrete j k) [
  | yes same ↦
      let found : find AlertKey-discrete k ((j, w) ∷ m) ≡ some w =
        if_pos (AlertKey-discrete j k) same _ _ in
      absurd (ground (arith, found, fresh))
  | no differ ↦
      let fresh' : find AlertKey-discrete k m ≡ none =
        sym (if_neg (AlertKey-discrete j k) differ _ _) ∙ fresh in
      let (down, up) = Memᴰ-put k v e m fresh' in
      rw (if_neg (AlertKey-discrete j k) differ) (
        λ x. elim (cases_cons x) [
          | inl p ↦ inl (Memᴰ.head p)
          | inr later ↦ elim (down later) [ inl mem ↦ inl (Memᴰ.tail mem) | inr p ↦ inr p ]
        ],
        λ x. elim x [
          | inl mem ↦ elim (cases_cons mem) [
            | inl p ↦ Memᴰ.head p
            | inr later ↦ Memᴰ.tail (up (inl later))
          ]
          | inr p ↦ Memᴰ.tail (up (inr p))
        ],
      )
]

pub is_normal_iff : (s : AlertState) → (is_normal s ≡ false) ↔ (s ≢ normal)
is_normal_iff normal = (λ h. absurd (cc), λ h. absurd (h refl))
is_normal_iff (pending since) = (λ h e. absurd (ground (arith, e)), λ h. refl)
is_normal_iff (firing last) = (λ h e. absurd (ground (arith, e)), λ h. refl)
is_normal_iff (recovering since) = (λ h e. absurd (ground (arith, e)), λ h. refl)

pub Memᴰ-active :
    (k : AlertKey) (m : Kept)
    → Memᴰ k (active m)
      ↔ ((s : AlertState) × (id : ℕ) × Memᴰ (k, (s, id)) m × (is_normal s ≡ false))
Memᴰ-active k [] = (λ x. elim x [ ], λ x. elim x.2 [ ])
Memᴰ-active k ((j, (s, id)) ∷ m) =
    let (down, up) = Memᴰ-active k m in
    elim (Bool-cases (is_normal s)) [
      | inl quiet ↦ rw quiet (
        λ x. let (s', id', mem, busy) = down x in (s', id', Memᴰ.tail mem, busy),
        λ (s', id', mem, busy). elim (cases_cons mem) [
          | inl p ↦ absurd (ground (arith, quiet, busy, ap (λ y. y.1.0) p))
          | inr later ↦ up (s', id', later, busy)
        ],
      )
      | inr busy ↦ rw busy (
        λ x. elim (cases_cons x) [
          | inl p ↦ (s, id, Memᴰ.head (ap (λ y. (y, (s, id))) p), busy)
          | inr later ↦ let (s', id', mem, busy') = down later in (s', id', Memᴰ.tail mem, busy')
        ],
        λ (s', id', mem, busy'). elim (cases_cons mem) [
          | inl p ↦ Memᴰ.head (ap (λ y. y.0) p)
          | inr later ↦ Memᴰ.tail (up (s', id', later, busy'))
        ],
      )
    ]
