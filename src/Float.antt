-- ===== src/Float.antt =====
-- The `f64` arithmetic that the daemon uses, as an interface: `as f64`, decimal literals, three
-- operations and three comparisons.
use netalert.Prelude.{ℕ, Bool, true, false, ◌≡◌, ◌*◌, ◌/◌, ◌^◌, ◌+◌, ltb, leb, arith}

pub record Float (W : Type 0) : Type 0 where
  -- `n as f64`
  pub of_int : ℕ → W
  -- the literal that stands for `m / 10 ^ k`
  pub literal : ℕ → ℕ → W
  pub add : W → W → W
  pub mul : W → W → W
  pub div : W → W → W
  pub lt : W → W → Bool
  pub gt : W → W → Bool
  pub ge : W → W → Bool

-- Two facts of IEEE 754 comparison, which hold of NaN too: every test on it is false.
pub record IsOrdered (W : Type 0) ⦃f : Float W⦄ : Type 0 where
  pub not-lt_of_ge : (x y : W) → f.ge x y ≡ true → f.lt x y ≡ false
  pub not-ge_of_lt : (x y : W) → f.lt x y ≡ true → f.ge x y ≡ false

-- Two facts of the comparison that finds a greatest element, which hold of NaN too.
pub record IsRanked (W : Type 0) ⦃f : Float W⦄ : Type 0 where
  pub not-gt_self : (x : W) → f.gt x x ≡ false
  pub not-gt_of_gt : (x y z : W) → f.gt x y ≡ false → f.gt z y ≡ true → f.gt x z ≡ false

-- The interface can be met: whole thousandths.
instance abbrev pub thousandths : Float ℕ
thousandths = record {
  of_int = λ n. n * 1000;
  literal = λ m k. m * 1000 / 10 ^ k;
  add = λ a b. a + b;
  mul = λ a b. a * b / 1000;
  div = λ a b. a * 1000 / b;
  lt = ltb;
  gt = λ a b. ltb b a;
  ge = λ a b. leb b a;
}

pub thousandths-IsOrdered : IsOrdered ℕ
thousandths-IsOrdered = record {
  not-lt_of_ge = λ x y h. ground arith;
  not-ge_of_lt = λ x y h. ground arith;
}

pub thousandths-IsRanked : IsRanked ℕ
thousandths-IsRanked = record {
  not-gt_self = λ x. ground arith;
  not-gt_of_gt = λ x y z h g. ground arith;
}
