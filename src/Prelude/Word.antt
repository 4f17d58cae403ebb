-- ===== src/Prelude/Word.antt =====
-- Unsigned machine words: a release build wraps on overflow.
use Prim.Native.Nat.{ℕ, ◌+◌, ◌*◌, ◌%◌, ◌^◌}
use mathlib.Core.Path.{◌≡◌}
use native.Mathlib.Omega.{arith}

-- `as u64`, and what is left of a sum or a product that does not fit.
abbrev pub u64 : ℕ → ℕ
u64 n = n % 2 ^ 64

infixl 65 ◌+u64◌
abbrev pub ◌+u64◌ : ℕ → ℕ → ℕ
a +u64 b = u64 (a + b)

infixl 70 ◌*u64◌
abbrev pub ◌*u64◌ : ℕ → ℕ → ℕ
a *u64 b = u64 (a * b)

-- A wrapped sum of sums is the sum, wrapped once.
pub u64-add : (a b : ℕ) → u64 a +u64 u64 b ≡ u64 (a + b)
u64-add a b = omega arith

pub u64-add_left : (a b : ℕ) → u64 a +u64 b ≡ u64 (a + b)
u64-add_left a b = omega arith
