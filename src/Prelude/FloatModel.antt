-- ===== src/Prelude/FloatModel.antt =====
-- The interface of `Float` can be met: integers with their floor division do.
use mathlib.Core.Path.{◌≡◌, refl, ap}
use Prim.Native.Nat.{ℕ, zero, suc, ◌*◌, ◌/◌, ◌≤◌}
use native.Mathlib.Omega.{arith}
use native.Mathlib.Nat.{mul-le-mul_left, mul-div_cancel}
use vgate_manager.Prelude.Int.{ℤ, pos, negsuc, ◌+ℤ◌, ◌*ℤ◌, ◌≤ℤ◌, ◌<ℤ◌, ltb_ℤ}
use vgate_manager.Prelude.Float.{Float64, IsIeee}

-- Division rounded down; by what is not positive, 0.
abbrev pub floor_div : ℤ → ℤ → ℤ
floor_div a (negsuc n) = pos 0
floor_div a (pos zero) = pos 0
floor_div (pos m) (pos (suc n)) = pos (m / suc n)
floor_div (negsuc m) (pos (suc n)) = negsuc (m / suc n)

abbrev pub integers : Float64
integers = record {
  Num = ℤ;
  of_int = λ n. n;
  add = λ a b. a +ℤ b;
  mul = λ a b. a *ℤ b;
  div = floor_div;
  lt = ltb_ℤ;
  floor_int = λ n. n;
  round_int = λ n. n;
}

mul_pos : (m n : ℕ) → pos m *ℤ pos n ≡ pos (m * n)
unfolding ◌*ℤ◌
mul_pos m n = ground arith

mul-le : (x y z : ℤ) → pos 0 ≤ℤ z → x ≤ℤ y → z *ℤ x ≤ℤ z *ℤ y
unfolding ◌*ℤ◌
mul-le x y (negsuc n) h k = absurd (omega arith)
mul-le (pos x) (pos y) (pos n) h k =
    let xy : x ≤ y = omega arith in
    rw (mul_pos n x, mul_pos n y) (omega (arith, mul-le-mul_left n xy))
mul-le (pos x) (negsuc y) (pos n) h k = absurd (omega arith)
mul-le (negsuc x) (pos y) (pos n) h k = grind arith
mul-le (negsuc x) (negsuc y) (pos n) h k =
    let yx : suc y ≤ suc x = omega arith in ground (arith, mul-le-mul_left n yx)

div-le : (x y z : ℤ) → pos 0 ≤ℤ z → x ≤ℤ y → floor_div x z ≤ℤ floor_div y z
div-le x y (negsuc n) h k = omega arith
div-le x y (pos zero) h k = omega arith
div-le (pos x) (pos y) (pos (suc n)) h k = grind arith
div-le (pos x) (negsuc y) (pos (suc n)) h k = absurd (omega arith)
div-le (negsuc x) (pos y) (pos (suc n)) h k = omega arith
div-le (negsuc x) (negsuc y) (pos (suc n)) h k = grind arith

mul_zero : (x : ℤ) → x *ℤ pos 0 ≡ pos 0
unfolding ◌*ℤ◌
mul_zero (pos n) = ground arith
mul_zero (negsuc n) = ground arith

mul_one : (x : ℤ) → x *ℤ pos 1 ≡ x
unfolding ◌*ℤ◌
mul_one (pos n) = ground arith
mul_one (negsuc n) = ground arith

zero_div : (n : ℤ) → pos 0 <ℤ n → floor_div (pos 0) n ≡ pos 0
zero_div (negsuc n) h = refl
zero_div (pos zero) h = refl
zero_div (pos (suc n)) h = ground arith

div-mul : (n t : ℤ) → pos 0 ≤ℤ n → pos 0 <ℤ t → floor_div (n *ℤ t) t ≡ n
unfolding ◌*ℤ◌
div-mul n (negsuc t) h k = absurd (omega arith)
div-mul n (pos zero) h k = absurd (omega arith)
div-mul (negsuc n) (pos (suc t)) h k = absurd (omega arith)
div-mul (pos n) (pos (suc t)) h k = rw (mul_pos n (suc t)) (ap pos (mul-div_cancel n (omega arith)))

pub integers-IsIeee : IsIeee integers
integers-IsIeee = record {
  le = λ a b. a ≤ℤ b;
  le_refl = λ x. omega arith;
  lt-le = λ x y h. ground arith;
  not-lt-le = λ x y h. ground arith;
  of_int-le = λ m n h. h;
  mul-le = mul-le;
  div-le = div-le;
  mul_zero = mul_zero;
  mul_one = mul_one;
  zero_div = zero_div;
  floor-le = λ x y h. h;
  round-le = λ x y h. h;
  floor-of_int = λ n h k. refl;
  round-of_int = λ n h k. refl;
  round-div-mul = λ n t h k p. div-mul n t h p;
}
