-- ===== src/Order/Proration.antt =====
-- The remaining value of a plan (`computeRemainingValue` of order.go), and the reset that keeps
-- what was charged to packages (`packagePreservingReset` of user.go).
pub mod Bounds
use vgate_manager.Prelude.{
  suc, ◌/◌, ◌%◌, Bool, not, ◌||◌, Option, none, some, ◌==◌, ltb_ℤ, leb_ℤ, if◌then◌else◌,
}
use vgate_manager.Prelude.Int.{ℤ, pos, negsuc, ◌-ℤ◌, add64, sub64}
use vgate_manager.Prelude.Float.{Float64}
use vgate_manager.Model.Time.{Time, is_after}
use vgate_manager.Model.User.{User}

-- `t.Sub(u)`, which stops at the longest and the shortest duration
abbrev pub between : Time → Time → ℤ
between t u =
    let d = t -ℤ u in
    if ltb_ℤ (pos 9223372036854775807) d
    then pos 9223372036854775807
    else if ltb_ℤ d (negsuc 9223372036854775807)
    then negsuc 9223372036854775807
    else d

-- The quotient and the remainder of Go's `/` and `%` by a second, which round towards zero.
abbrev pub whole_seconds : ℤ → ℤ
whole_seconds (pos n) = pos (n / 1000000000)
whole_seconds (negsuc n) = pos 0 -ℤ pos (suc n / 1000000000)

abbrev pub nanoseconds : ℤ → ℤ
nanoseconds (pos n) = pos (n % 1000000000)
nanoseconds (negsuc n) = pos 0 -ℤ pos (suc n % 1000000000)

module _ (f : Float64) where
  open f use {Num, of_int, add, mul, div, lt, floor_int, round_int}

  -- `d.Seconds()`
  pub seconds : ℤ → Num
  seconds d =
      add (of_int (whole_seconds d)) (div (of_int (nanoseconds d)) (of_int (pos 1000000000)))

  -- Whether the user has no plan whose value could remain.
  abbrev pub lacks_value : User → Time → Bool
  lacks_value user now =
      user.current_product_id == ""
      || not (is_after user.expire_at now)
      || leb_ℤ user.current_plan_duration_days (pos 0)
      || leb_ℤ user.current_plan_paid_cents (pos 0)

  -- The share of the period that is left, held between 0 and 1.
  pub clamp_share : Num → Num
  clamp_share rem =
      let low = if lt rem (of_int (pos 0)) then of_int (pos 0) else rem in
      if lt (of_int (pos 1)) low then of_int (pos 1) else low

  abbrev pub share_left : Option Time → Time → ℤ → Num
  share_left none now days = of_int (pos 0)
  share_left (some t) now days =
      div (seconds (between t now)) (mul (of_int days) (of_int (pos 86400)))

  -- `now` is the first reading of the clock and `later` the second.
  unfoldable pub compute_remaining_value : User → Time → Time → ℤ
  unfolding clamp_share seconds
  compute_remaining_value user now later =
      if lacks_value user now
      then pos 0
      else floor_int (
          mul (of_int user.current_plan_paid_cents)
            (clamp_share (share_left user.expire_at later user.current_plan_duration_days)))

  -- `packagePreservingReset`: the new up and down totals.
  unfoldable pub package_preserving_reset : ℤ → ℤ → ℤ → ℤ × ℤ
  package_preserving_reset up down pkg_used =
      let total = add64 up down in
      if leb_ℤ total (pos 0) || leb_ℤ pkg_used (pos 0)
      then (pos 0, pos 0)
      else let new_up = round_int (div (mul (of_int pkg_used) (of_int up)) (of_int total)) in
        (new_up, sub64 pkg_used new_up)
