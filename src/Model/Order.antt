-- ===== src/Model/Order.antt =====
-- internal/model/order.go: an order and its states.
use vgate_manager.Prelude.{String, Bool, true, false, Option}
use vgate_manager.Prelude.Int.{ℤ}
use vgate_manager.Model.Time.{Time}

-- `OrderStatus*`
pub data Status : Type 0 where
  pending paid closed : Status

-- `OrderKind*`; any other text is `other`
pub data Kind : Type 0 where
  plan traffic other : Kind

abbrev pub is_pending : Status → Bool
is_pending pending = true
is_pending _ = false

abbrev pub is_closed : Status → Bool
is_closed closed = true
is_closed _ = false

pub record Order : Type 0 where
  pub id : String
  pub user_id : String
  pub kind : Kind
  pub plan_id : String
  pub plan_price_id : String
  pub period : String
  pub duration_days : ℤ
  pub traffic_package_id : String
  pub amount : ℤ
  pub plan_price_cents : ℤ
  pub status : Status
  pub platform : String
  pub extend_from_old_expiry : Bool
  pub out_trade_no : String
  pub trade_no : String
  pub paid_at : Option Time
  pub expired_at : Option Time

-- The row that `Create` writes, which it also hands back in its argument: gorm takes a field's
-- `default` where the value is zero, and `extend_from_old_expiry` has the default true.
abbrev pub as_created : Order → Order
as_created o = record o { extend_from_old_expiry = true }
