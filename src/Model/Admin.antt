-- ===== src/Model/Admin.antt =====
-- internal/model/admin.go and refresh_token.go: the accounts of administrators and their sessions.
use vgate_manager.Prelude.{ℕ, String, Bool, Option, List}
use vgate_manager.Prelude.Int.{ℤ}
use vgate_manager.Db.Action.{Action}
use vgate_manager.Model.Time.{Time}

pub record Admin : Type 0 where
  pub id : ℕ
  pub username : String
  pub password_hash : String
  pub role : String
  pub telegram_id : ℤ
  pub telegram_bind_token : String
  pub telegram_bind_expires_at : Option Time

pub record RefreshToken : Type 0 where
  pub id : String
  pub admin_id : ℕ
  pub expires_at : Time
  pub revoked : Bool

-- The tables of the administrators.
pub record Office : Type 0 where
  pub admins : List Admin
  pub refresh_tokens : List RefreshToken

abbrev pub Of : Type 0 → Type 0
Of A = Action Office A
