-- ===== src/Model/User.antt =====
-- internal/model/user.go: the columns of a user that the modelled services read or write.
use vgate_manager.Prelude.{String, Bool, Option, ltb_ℤ, if◌then◌else◌}
use vgate_manager.Prelude.Int.{ℤ, pos, negsuc, add64, sub64}
use vgate_manager.Model.Time.{Time}

pub record User : Type 0 where
  pub id : String
  pub credential : String
  pub current_product_id : String
  pub email : String
  pub username : Option String
  pub password_hash : Option String
  pub sub_token : String
  pub level : ℤ
  pub expire_at : Option Time
  pub quota_bytes : ℤ
  pub traffic_quota_bytes : ℤ
  pub package_used_bytes : ℤ
  pub quota_reset_enabled : Bool
  pub balance_cents : ℤ
  pub current_plan_paid_cents : ℤ
  pub current_plan_duration_days : ℤ
  pub speed_limit_up_bps : ℤ
  pub speed_limit_down_bps : ℤ
  pub up_total : ℤ
  pub down_total : ℤ
  pub last_traffic_at : Option Time
  pub enabled : Bool
  pub email_verified : Bool
  pub max_invites : ℤ

-- `User.EffectiveQuotaBytes`
pub effective_quota_bytes : User → ℤ
effective_quota_bytes u =
    if ltb_ℤ u.quota_bytes (pos 0) then negsuc 0 else add64 u.quota_bytes u.traffic_quota_bytes

-- `User.BaseUsedBytes`
unfoldable pub base_used_bytes : User → ℤ
base_used_bytes u =
    let used = sub64 (add64 u.up_total u.down_total) u.package_used_bytes in
    if ltb_ℤ used (pos 0) then pos 0 else used
