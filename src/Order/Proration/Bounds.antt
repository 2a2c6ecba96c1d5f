-- ===== src/Order/Proration/Bounds.antt =====
-- The bounds of a proration: what a plan has left, and what a reset keeps.
use vgate_manager.Prelude.{◌≡◌, false, arith, Bool-cases, inl, inr, leb_ℤ, if◌then◌else◌}
use vgate_manager.Prelude.Int.{
  ℤ, pos, ◌+ℤ◌, ◌-ℤ◌, ◌≤ℤ◌, ◌<ℤ◌, Fits, add64, sub64, add64_lem, sub64_nonneg, int_laws,
}
use vgate_manager.Prelude.Float.{Float64, IsIeee}
use vgate_manager.Model.Time.{Time}
use vgate_manager.Model.User.{User}
use vgate_manager.Order.Proration.{
  lacks_value, clamp_share, share_left, compute_remaining_value, package_preserving_reset,
}

module _ (f : Float64) (laws : IsIeee f) where
  open laws use {
    le, le_refl, lt-le, not-lt-le, of_int-le, mul-le, div-le, mul_zero, mul_one, zero_div, floor-le,
    round-le, floor-of_int, round-of_int, round-div-mul,
  }

  clamp_share-bounds :
      (rem : f.Num)
      → le (f.of_int (pos 0)) (clamp_share f rem) × le (clamp_share f rem) (f.of_int (pos 1))
  unfolding clamp_share
  clamp_share-bounds rem = elim (Bool-cases (f.lt rem (f.of_int (pos 0)))) [
    | inl t ↦ rw t (clamped (f.of_int (pos 0)) (le_refl (f.of_int (pos 0))))
    | inr u ↦ rw u (clamped rem (not-lt-le rem (f.of_int (pos 0)) u))
  ]
    where
      zero-le-one : le (f.of_int (pos 0)) (f.of_int (pos 1))
      zero-le-one = of_int-le (pos 0) (pos 1) (omega arith)

      clamped :
          (low : f.Num)
          → le (f.of_int (pos 0)) low
          → le (f.of_int (pos 0)) (if f.lt (f.of_int (pos 1)) low then f.of_int (pos 1) else low)
            × le (if f.lt (f.of_int (pos 1)) low then f.of_int (pos 1) else low) (f.of_int (pos 1))
      clamped low h = elim (Bool-cases (f.lt (f.of_int (pos 1)) low)) [
        | inl t ↦ rw t (zero-le-one, le_refl (f.of_int (pos 1)))
        | inr u ↦ rw u (h, not-lt-le (f.of_int (pos 1)) low u)
      ]

  -- What a plan has left lies between nothing and the amount that was paid for it, if that is not
  -- negative and at most 2^53 cents.
  pub compute_remaining_value-bounds :
      (user : User) (now later : Time)
      → pos 0 ≤ℤ user.current_plan_paid_cents
      → user.current_plan_paid_cents ≤ℤ pos 9007199254740992
      → (pos 0 ≤ℤ compute_remaining_value f user now later)
        × (compute_remaining_value f user now later ≤ℤ user.current_plan_paid_cents)
  unfolding compute_remaining_value
  compute_remaining_value-bounds user now later n small =
      elim (Bool-cases (lacks_value f user now)) [
        | inl t ↦ rw t (omega arith, n)
        | inr u ↦ rw u held
      ]
    where
      share : f.Num
      share = clamp_share f (share_left f user.expire_at later user.current_plan_duration_days)

      paid : f.Num
      paid = f.of_int user.current_plan_paid_cents

      zero-le-paid : le (f.of_int (pos 0)) paid
      zero-le-paid = of_int-le (pos 0) user.current_plan_paid_cents n

      held :
          (pos 0 ≤ℤ f.floor_int (f.mul paid share))
          × (f.floor_int (f.mul paid share) ≤ℤ user.current_plan_paid_cents)
      held =
          let (low, high) =
            clamp_share-bounds
              (share_left f user.expire_at later user.current_plan_duration_days) in
          let above = floor-le _ _ (mul-le (f.of_int (pos 0)) share paid zero-le-paid low) in
          let below = floor-le _ _ (mul-le share (f.of_int (pos 1)) paid zero-le-paid high) in
          (
            rw (mul_zero paid, floor-of_int (pos 0) (omega arith) (omega arith)) at above,
            rw (mul_one paid, floor-of_int user.current_plan_paid_cents n small) at below,
          )

  -- The upload that a reset keeps of the bytes that packages were charged.
  kept_share-bounds :
      (up total pkg : ℤ)
      → pos 0 ≤ℤ up
      → up ≤ℤ total
      → pos 0 <ℤ total
      → pos 0 ≤ℤ pkg
      → pkg ≤ℤ pos 1125899906842624
      → let kept = f.round_int (f.div (f.mul (f.of_int pkg) (f.of_int up)) (f.of_int total)) in
        (pos 0 ≤ℤ kept) × (kept ≤ℤ pkg)
  kept_share-bounds up total pkg nu less pt np small =
      let zero = f.of_int (pos 0) in
      let scale : (x y : f.Num)
          → le x y
          → f.round_int (f.div (f.mul (f.of_int pkg) x) (f.of_int total))
            ≤ℤ f.round_int (f.div (f.mul (f.of_int pkg) y) (f.of_int total)) =
        λ x y h. round-le _ _ (
          div-le _ _ (f.of_int total) (of_int-le (pos 0) total (omega arith))
            (mul-le x y (f.of_int pkg) (of_int-le (pos 0) pkg np) h)) in
      let above = scale zero (f.of_int up) (of_int-le (pos 0) up nu) in
      let below = scale (f.of_int up) (f.of_int total) (of_int-le up total less) in
      (
        rw
            (
              mul_zero (f.of_int pkg),
              zero_div total pt,
              round-of_int (pos 0) (omega arith) (omega arith),
            )
            at above,
        rw (round-div-mul pkg total np small pt) at below,
      )

  -- A reset of counters that are not negative, not both zero, and whose sum does not overflow, keeps
  -- exactly the bytes that packages were charged, in two counters that are not negative, if those
  -- bytes are not negative and at most 2^50.
  pub package_preserving_reset_lem :
      (up down pkg : ℤ)
      → pos 0 ≤ℤ up
      → pos 0 ≤ℤ down
      → Fits (up +ℤ down)
      → pos 0 <ℤ up +ℤ down
      → pos 0 ≤ℤ pkg
      → pkg ≤ℤ pos 1125899906842624
      → (pos 0 ≤ℤ (package_preserving_reset f up down pkg).0)
        × (pos 0 ≤ℤ (package_preserving_reset f up down pkg).1)
        × ((package_preserving_reset f up down pkg).0 +ℤ (package_preserving_reset f up down pkg).1
            ≡ pkg)
  unfolding package_preserving_reset
  package_preserving_reset_lem up down pkg nu nd ft pt np small =
      let total : add64 up down ≡ up +ℤ down = add64_lem up down ft in
      let more : leb_ℤ (up +ℤ down) (pos 0) ≡ false = ground arith in
      rw (total, more)
        (elim (Bool-cases (leb_ℤ pkg (pos 0))) [
          | inl t ↦
              let z : pos 0 ≡ pkg = ground arith in
              rw t (omega arith, omega arith, rw (← z) (omega int_laws))
          | inr u ↦
              let kept =
                f.round_int (f.div (f.mul (f.of_int pkg) (f.of_int up)) (f.of_int (up +ℤ down))) in
              let (low, high) =
                kept_share-bounds up (up +ℤ down) pkg nu (omega int_laws) pt np small in
              let exact : sub64 pkg kept ≡ pkg -ℤ kept =
                sub64_nonneg pkg kept (ground arith, ground arith) (ground arith, ground arith) np
                  low in
              rw u (low, rw exact (omega int_laws), rw exact (omega int_laws))
        ])
