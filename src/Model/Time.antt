-- ===== src/Model/Time.antt =====
-- Instants, in nanoseconds since the epoch, and the arithmetic of Go's `time` package on them, in
-- a zone whose days have 24 hours.
use vgate_manager.Prelude.{Bool, Option, none, some, false, ltb_ℤ}
use vgate_manager.Prelude.Int.{ℤ, pos, ◌+ℤ◌, ◌*ℤ◌}

abbrev pub Time : Type 0
Time = ℤ

-- `time.Hour` and `24 * time.Hour`
abbrev pub hour : ℤ
hour = pos 3600000000000

abbrev pub day : ℤ
day = pos 86400000000000

-- `t.After(u)`
abbrev pub after : Time → Time → Bool
after t u = ltb_ℤ u t

-- `p != nil && p.After(u)`
abbrev pub is_after : Option Time → Time → Bool
is_after none u = false
is_after (some t) u = after t u

-- `t.AddDate(0, 0, n)`
unfoldable pub add_days : Time → ℤ → Time
add_days t n = t +ℤ n *ℤ day
