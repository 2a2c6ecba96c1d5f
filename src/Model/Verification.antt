-- ===== src/Model/Verification.antt =====
-- internal/model/email_verification.go: the tokens that prove an address.
use vgate_manager.Prelude.{String, Bool, true, false, not, ◌&&◌, Option, none, some}
use vgate_manager.Model.Time.{Time, after}

-- `purpose` is "register" in every row that the modelled code writes.
pub record EmailVerification : Type 0 where
  pub id : String
  pub user_id : String
  pub email : String
  pub token : String
  pub purpose : String
  pub expires_at : Time
  pub consumed_at : Option Time

abbrev pub consumed : EmailVerification → Bool
consumed v = elim v.consumed_at [ none ↦ false | some _ ↦ true ]

abbrev pub expired : EmailVerification → Time → Bool
expired v now = after now v.expires_at

unfoldable pub valid : EmailVerification → Time → Bool
valid v now = not (consumed v) && not (expired v now)
