-- ===== src/Model/Code.antt =====
-- internal/model/redemption_code.go and invite_code.go: codes with a number of uses.
use vgate_manager.Prelude.{
  String, Bool, true, false, Option, none, some, ltb_ℤ, leb_ℤ, if◌then◌else◌,
}
use vgate_manager.Prelude.Int.{ℤ, pos, sub64}
use vgate_manager.Model.Time.{Time, after}

-- `RedeemType*`; any other text is `other`
pub data RedeemType : Type 0 where
  traffic duration plan other : RedeemType

pub record RedemptionCode : Type 0 where
  pub id : String
  pub code : String
  pub type : RedeemType
  pub max_uses : ℤ
  pub used_count : ℤ
  pub expires_at : Option Time
  pub quota_bytes : ℤ
  pub duration_days : ℤ
  pub plan_id : String

pub record RedemptionRecord : Type 0 where
  pub id : String
  pub code_id : String
  pub user_id : String
  pub type : RedeemType
  pub redeemed_at : Time

pub record InviteCode : Type 0 where
  pub id : String
  pub code : String
  pub created_by_user_id : Option String
  pub max_uses : ℤ
  pub used_count : ℤ
  pub expires_at : Option Time

-- `RedemptionCode.Remaining`
unfoldable pub remaining_redemptions : RedemptionCode → ℤ
remaining_redemptions c =
    let r = sub64 c.max_uses c.used_count in if ltb_ℤ r (pos 0) then pos 0 else r

-- `InviteCode.Remaining`
unfoldable pub remaining_invites : InviteCode → ℤ
remaining_invites c = let r = sub64 c.max_uses c.used_count in if ltb_ℤ r (pos 0) then pos 0 else r

-- `expiresAt != nil && now.After(*expiresAt)`
abbrev pub is_past : Option Time → Time → Bool
is_past none now = false
is_past (some t) now = after now t

-- `RedemptionCode.Exhausted`
unfoldable pub exhausted_redemption : RedemptionCode → Time → Bool
unfolding remaining_redemptions
exhausted_redemption c now =
    if leb_ℤ (remaining_redemptions c) (pos 0) then true else is_past c.expires_at now

-- `InviteCode.Exhausted`
unfoldable pub exhausted_invite : InviteCode → Time → Bool
unfolding remaining_invites
exhausted_invite c now =
    if leb_ℤ (remaining_invites c) (pos 0) then true else is_past c.expires_at now
