-- ===== src/Prelude/Texts.antt =====
-- The order of texts: `cmp` of Rust's `str`.
use Prim.Native.Nat.{ℕ, Ordering, compare as compare_ℕ}
use Prim.Native.Char.{code}
use Prim.Native.String.{String, [], ◌∷◌, then, compare}
use Prim.Native.String.compare
use mathlib.Core.Path.{◌≡◌, sym, ◌∙◌}
use mathlib.Core.Logic.{◌⊎◌}
use native.Mathlib.Omega.{arith}

then_swap :
    (m n : ℕ) (o o' : Ordering)
    → (o ≡ Ordering.gt → o' ≡ Ordering.lt)
    → then (compare_ℕ m n) o ≡ Ordering.gt
    → then (compare_ℕ n m) o' ≡ Ordering.lt
then_swap m n o o' swap h = ground arith

then_lt :
    (m n : ℕ) (o : Ordering)
    → then (compare_ℕ m n) o ≡ Ordering.lt
    → (compare_ℕ m n ≡ Ordering.lt) ⊎ ((m ≡ n) × (o ≡ Ordering.lt))
then_lt m n o h = ground arith

then_trans :
    (m n k : ℕ) (o o' o'' : Ordering)
    → (o ≡ Ordering.lt → o' ≡ Ordering.lt → o'' ≡ Ordering.lt)
    → then (compare_ℕ m n) o ≡ Ordering.lt
    → then (compare_ℕ n k) o' ≡ Ordering.lt
    → then (compare_ℕ m k) o'' ≡ Ordering.lt
then_trans m n k o o' o'' trans h g = ground arith

pub compare_swap : (s t : String) → compare s t ≡ Ordering.gt → compare t s ≡ Ordering.lt
compare_swap [] [] h = absurd (ground (arith, h, compare.nil-nil))
compare_swap [] (d ∷ t) h = absurd (ground (arith, h, compare.nil-cons d t))
compare_swap (c ∷ s) [] h = compare.nil-cons c s
compare_swap (c ∷ s) (d ∷ t) h =
    compare.cons-cons d c t s
    ∙ then_swap (code c) (code d) (compare s t) (compare t s) (compare_swap s t)
        (sym (compare.cons-cons c d s t) ∙ h)

pub compare_trans :
    (s t u : String)
    → compare s t ≡ Ordering.lt
    → compare t u ≡ Ordering.lt
    → compare s u ≡ Ordering.lt
compare_trans [] [] u h g = absurd (ground (arith, h, compare.nil-nil))
compare_trans (c ∷ s) [] u h g = absurd (ground (arith, h, compare.cons-nil c s))
compare_trans s (d ∷ t) [] h g = absurd (ground (arith, g, compare.cons-nil d t))
compare_trans [] (d ∷ t) (e ∷ u) h g = compare.nil-cons e u
compare_trans (c ∷ s) (d ∷ t) (e ∷ u) h g =
    compare.cons-cons c e s u
    ∙ then_trans (code c) (code d) (code e) (compare s t) (compare t u) (compare s u)
        (compare_trans s t u) (sym (compare.cons-cons c d s t) ∙ h)
        (sym (compare.cons-cons d e t u) ∙ g)
