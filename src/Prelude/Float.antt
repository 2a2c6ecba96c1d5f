-- ===== src/Prelude/Float.antt =====
-- The float64 operations that the program uses, as an interface: its finite values, Go's
-- conversions, and what IEEE 754 arithmetic with rounding to nearest guarantees of them.
use mathlib.Core.Path.{◌≡◌}
use mathlib.Core.Bool.{Bool, true, false}
use vgate_manager.Prelude.Int.{ℤ, pos, ◌≤ℤ◌, ◌<ℤ◌}

pub record Float64 : Type 1 where
  pub Num : Type 0
  -- `float64(n)`
  pub of_int : ℤ → Num
  pub add : Num → Num → Num
  pub mul : Num → Num → Num
  pub div : Num → Num → Num
  pub lt : Num → Num → Bool
  -- `int64(math.Floor(x))` and `int64(math.Round(x))`
  pub floor_int : Num → ℤ
  pub round_int : Num → ℤ

pub record IsIeee (f : Float64) : Type 1 where
  pub le : f.Num → f.Num → Type 0
  pub le_refl : (x : f.Num) → le x x
  pub lt-le : (x y : f.Num) → f.lt x y ≡ true → le x y
  pub not-lt-le : (x y : f.Num) → f.lt x y ≡ false → le y x
  pub of_int-le : (m n : ℤ) → m ≤ℤ n → le (f.of_int m) (f.of_int n)
  pub mul-le : (x y z : f.Num) → le (f.of_int (pos 0)) z → le x y → le (f.mul z x) (f.mul z y)
  pub div-le : (x y z : f.Num) → le (f.of_int (pos 0)) z → le x y → le (f.div x z) (f.div y z)
  pub mul_zero : (x : f.Num) → f.mul x (f.of_int (pos 0)) ≡ f.of_int (pos 0)
  pub mul_one : (x : f.Num) → f.mul x (f.of_int (pos 1)) ≡ x
  pub zero_div : (n : ℤ) → pos 0 <ℤ n → f.div (f.of_int (pos 0)) (f.of_int n) ≡ f.of_int (pos 0)
  pub floor-le : (x y : f.Num) → le x y → f.floor_int x ≤ℤ f.floor_int y
  pub round-le : (x y : f.Num) → le x y → f.round_int x ≤ℤ f.round_int y
  -- Integers of up to 53 bits are exact.
  pub floor-of_int : (n : ℤ) → pos 0 ≤ℤ n → n ≤ℤ pos 9007199254740992 → f.floor_int (f.of_int n) ≡ n
  pub round-of_int : (n : ℤ) → pos 0 ≤ℤ n → n ≤ℤ pos 9007199254740992 → f.round_int (f.of_int n) ≡ n
  -- The two rounding errors of a product that is divided again vanish, for integers of 50 bits.
  pub round-div-mul :
      (n t : ℤ)
      → pos 0 ≤ℤ n
      → n ≤ℤ pos 1125899906842624
      → pos 0 <ℤ t
      → f.round_int (f.div (f.mul (f.of_int n) (f.of_int t)) (f.of_int t)) ≡ n
