-- ===== src/Model/Grant.antt =====
-- internal/model/traffic_grant.go and balance.go: what a user was given, and the wallet's ledger.
use vgate_manager.Prelude.{String, ltb_ℤ, if◌then◌else◌}
use vgate_manager.Prelude.Int.{ℤ, pos, sub64}
use vgate_manager.Model.Time.{Time}

-- `GrantSource*`
pub data Source : Type 0 where
  traffic_package redemption : Source

pub record TrafficGrant : Type 0 where
  pub id : String
  pub user_id : String
  pub source : Source
  pub source_id : String
  pub name : String
  pub quota_bytes : ℤ
  pub used_bytes : ℤ
  pub granted_at : Time

-- `TrafficGrant.RemainingBytes`
unfoldable pub remaining_bytes : TrafficGrant → ℤ
remaining_bytes g = let r = sub64 g.quota_bytes g.used_bytes in if ltb_ℤ r (pos 0) then pos 0 else r

-- `BalanceType*`
pub data Direction : Type 0 where
  credit debit : Direction

-- `BalanceReason*`
pub data Reason : Type 0 where
  plan_change_refund purchase admin_adjust refund : Reason

pub record BalanceTransaction : Type 0 where
  pub id : String
  pub user_id : String
  pub direction : Direction
  pub amount_cents : ℤ
  pub reason : Reason
  pub ref_order_id : String
  pub balance_after : ℤ
