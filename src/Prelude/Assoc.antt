-- ===== src/Prelude/Assoc.antt =====
-- Hash maps as association lists in their iteration order, over the library's `lookup`.
use mathlib.Core.Path.{◌≡◌, refl, subst}
use mathlib.Core.Logic.{ite, if_pos, if_neg}
use mathlib.Core.Option.{Option, none, some}
use mathlib.Core.List.{List, [], ◌∷◌}
use netalert.Prelude.Lists.{All}
use native.Mathlib.Omega.{arith}

module _ {K V : Type 0} (dec : Discrete K) where
  -- `get`
  abbrev pub find : K → List (K × V) → Option V
  find k [] = none
  find k ((j, v) ∷ m) = ite (dec j k) (some v) (find k m)

  -- `insert`: a present key keeps its place and takes the new value.
  abbrev pub put : K → V → List (K × V) → List (K × V)
  put k v [] = (k, v) ∷ []
  put k v ((j, w) ∷ m) = ite (dec j k) ((j, v) ∷ m) ((j, w) ∷ put k v m)

  -- `remove`: the map without the key.
  abbrev pub remove : K → List (K × V) → List (K × V)
  remove k [] = []
  remove k ((j, w) ∷ m) = ite (dec j k) (remove k m) ((j, w) ∷ remove k m)

  pub find-put :
      (k j : K) (v : V) (m : List (K × V)) → find j (put k v m) ≡ ite (dec k j) (some v) (find j m)
  find-put k j v [] = refl
  find-put k j v ((i, w) ∷ m) = ground (arith, find-put k j v m)

  pub find-remove :
      (k j : K) (m : List (K × V)) → find j (remove k m) ≡ ite (dec k j) none (find j m)
  find-remove k j [] = ground arith
  find-remove k j ((i, w) ∷ m) = ground (arith, find-remove k j m)

  pub All-put :
      (P : K × V → Type 0) (k : K) (v : V) (m : List (K × V))
      → ((j : K) → P (j, v))
      → All P m
      → All P (put k v m)
  All-put P k v [] new h = (new k, tt)
  All-put P k v ((j, w) ∷ m) new h = elim (dec j k) [
    | yes e ↦ rw (if_pos (dec j k) e) (new j, h.1)
    | no e ↦ rw (if_neg (dec j k) e) (h.0, All-put P k v m new h.1)
  ]

  pub All-find :
      (P : K × V → Type 0) (k : K) (v : V) (m : List (K × V))
      → All P m
      → find k m ≡ some v
      → P (k, v)
  All-find P k v [] h e = absurd (cc)
  All-find P k v ((j, w) ∷ m) h e = elim (dec j k) [
    | yes same ↦ subst P (ground (arith, same, rw (if_pos (dec j k) same) at e)) h.0
    | no other ↦ All-find P k v m h.1 (rw (if_neg (dec j k) other) at e)
  ]
