-- ===== src/Prelude/Results.antt =====
-- `Result`: a value, or an error that a `bail!` or a `?` returns early.
use mathlib.Core.Path.{◌≡◌, refl}
use mathlib.Core.Logic.{◌⊎◌, inl, inr}

pub data Result (E A : Type 0) : Type 0 where
  ok : A → Result E A
  err : E → Result E A

infixl 5 ◌>>=◌ ◌>>◌
abbrev pub ◌>>=◌ : {E A B : Type 0} → Result E A → (A → Result E B) → Result E B
ok a >>= f = f a
err e >>= f = err e

abbrev pub ◌>>◌ : {E B : Type 0} → Result E (Unit {0}) → Result E B → Result E B
m >> k = m >>= λ _. k

-- Inversion of a chain that succeeded: a step that returns nothing, and the rest.
pub >>=-eq-ok :
    {E B : Type 0} (m : Result E (Unit {0})) (k : Unit {0} → Result E B) {b : B}
    → (m >>= k) ≡ ok b
    → (u : Unit {0}) × (m ≡ ok tt) × (k tt ≡ ok b)
>>=-eq-ok (ok u) k h = (u, refl, h)
>>=-eq-ok (err e) k h = absurd (cc)

-- The same for a step with a value.
pub >>=-ok_inv :
    {E A B : Type 0} (m : Result E A) (k : A → Result E B) {b : B}
    → (m >>= k) ≡ ok b
    → (a : A) × (m ≡ ok a) × (k a ≡ ok b)
>>=-ok_inv (ok a) k h = (a, refl, h)
>>=-ok_inv (err e) k h = absurd (cc)

pub Result-cases :
    {E A : Type 0} (m : Result E A) → ((a : A) × (m ≡ ok a)) ⊎ ((e : E) × (m ≡ err e))
Result-cases (ok a) = inl (a, refl)
Result-cases (err e) = inr (e, refl)
