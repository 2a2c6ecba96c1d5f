-- ===== src/Invite.antt =====
-- internal/service/invite.go: codes that sponsor a registration, within a user's quota.
pub mod Quota
pub mod Uses
use vgate_manager.Prelude.{
  String, Bool, ◌&&◌, ◌||◌, Option, none, some, true, false, List, [], ◌∷◌, ◌==◌, eqb, ltb_ℤ, leb_ℤ,
  eqb_ℤ, if◌then◌else◌,
}
use vgate_manager.Prelude.Int.{ℤ, pos, ◌+ℤ◌, add64}
use vgate_manager.Db.Table.{first, insert, update, delete, count}
use vgate_manager.Db.Action.{
  record_not_found, invite_disabled, invite_quota_exceeded, invite_required, invalid_invite,
  invite_exhausted, invite_changed, invite_not_deletable, pure, gets, require, create, ◌>>=◌, ◌>>◌,
  fail_if, modify,
}
use vgate_manager.Model.Time.{Time}
use vgate_manager.Model.User.{User}
use vgate_manager.Model.Code.{InviteCode, exhausted_invite}
use vgate_manager.Model.Database.{Database, Db, user_by_id, exists}

-- `effectiveQuota`; the default is `GetInviteDefaultUserQuota` of the system configuration.
unfoldable pub effective_quota : ℤ → User → ℤ
effective_quota default_quota user =
    if ltb_ℤ (pos 0) user.max_invites then user.max_invites else default_quota

-- `created_by_user_id = ?`
abbrev pub owned_by : String → InviteCode → Bool
owned_by user_id c = elim c.created_by_user_id [ none ↦ false | some v ↦ v == user_id ]

-- The sum of a column over a user's codes.
unfoldable pub sum_of : (InviteCode → ℤ) → String → List InviteCode → ℤ
sum_of column user_id [] = pos 0
sum_of column user_id (c ∷ l) =
    (if owned_by user_id c then column c else pos 0) +ℤ sum_of column user_id l

-- `UsedCount`
abbrev pub used_count : String → Db ℤ
used_count user_id = gets (λ db. sum_of (λ (c : InviteCode). c.used_count) user_id db.invite_codes)

-- `IssuedCapacity`
abbrev pub issued_capacity : String → Db ℤ
issued_capacity user_id =
    gets (λ db. sum_of (λ (c : InviteCode). c.max_uses) user_id db.invite_codes)

-- `InviteStatus` and `Status`
pub invite_status : ℤ → String → Db (ℤ × ℤ)
invite_status default_quota user_id = do
  user ← require record_not_found (λ db. user_by_id user_id db.users)
  used ← used_count user_id
  pure (used, effective_quota default_quota user)

pub status : ℤ → String → Db (ℤ × ℤ × ℤ)
status default_quota user_id = do
  user ← require record_not_found (λ db. user_by_id user_id db.users)
  used ← used_count user_id
  issued ← issued_capacity user_id
  pure (used, issued, effective_quota default_quota user)

-- `create`; the row's id and text are those that are drawn.
abbrev pub create_invite : InviteCode → Db InviteCode
create_invite c =
    create (λ db. exists (λ (d : InviteCode). d.id == c.id || d.code == c.code) db.invite_codes)
      (λ db. record db { invite_codes = insert c db.invite_codes })
    >> pure c

abbrev pub new_invite : String → String → Option String → ℤ → Option Time → InviteCode
new_invite id code owner max_uses expires_at = record {
  id = id;
  code = code;
  created_by_user_id = owner;
  max_uses = max_uses;
  used_count = pos 0;
  expires_at = expires_at;
}

-- `if maxUses < 1 { maxUses = 1 }`
abbrev pub at_least_one : ℤ → ℤ
at_least_one n = if ltb_ℤ n (pos 1) then pos 1 else n

-- `CreateForUser`, from the read of the user on.
abbrev pub create_within : ℤ → String → String → String → ℤ → Option Time → User → Db InviteCode
create_within default_quota id code user_id max_uses expires_at user = do
  let quota = effective_quota default_quota user
  fail_if (leb_ℤ quota (pos 0)) invite_disabled
  issued ← issued_capacity user_id
  fail_if (ltb_ℤ quota (add64 issued max_uses)) invite_quota_exceeded
  create_invite (new_invite id code (some user_id) max_uses expires_at)

unfoldable pub create_for_user : ℤ → String → String → String → ℤ → Option Time → Db InviteCode
create_for_user default_quota id code user_id max_uses expires_at =
    require record_not_found (λ db. user_by_id user_id db.users)
    >>= create_within default_quota id code user_id (at_least_one max_uses) expires_at

-- `CreateForAdmin`
pub create_for_admin : String → String → ℤ → Option Time → Db InviteCode
create_for_admin id code max_uses expires_at =
    create_invite (new_invite id code none (at_least_one max_uses) expires_at)

-- `DeleteAdmin` and `DeleteOwned`
pub delete_invite : String → Db Unit
delete_invite id =
    modify
      λ db. record db { invite_codes = delete (λ (c : InviteCode). c.id == id) db.invite_codes }

pub delete_owned : String → String → Db Unit
delete_owned id user_id = do
  affected ← gets (λ db.
      count (λ (c : InviteCode). c.id == id && owned_by user_id c && eqb_ℤ c.used_count (pos 0))
        db.invite_codes)
  modify λ db. record db {
    invite_codes =
        delete (λ (c : InviteCode). c.id == id && owned_by user_id c && eqb_ℤ c.used_count (pos 0))
          db.invite_codes;
  }
  fail_if (eqb affected 0) invite_not_deletable

abbrev pub invite_by_text : String → Database → Option InviteCode
invite_by_text text db = first (λ (c : InviteCode). c.code == text) db.invite_codes

abbrev pub with_uses : ℤ → InviteCode → InviteCode
with_uses n c = record c { used_count = n }

-- The reads of `ValidateAndConsume`, and its update, which are two statements outside a transaction.
unfoldable pub validate : Time → String → Db InviteCode
validate now raw_code = do
  fail_if (raw_code == "") invite_required
  code ← require invalid_invite (invite_by_text raw_code)
  fail_if (exhausted_invite code now) invite_exhausted
  pure code

unfoldable pub consume_invite : InviteCode → Db InviteCode
consume_invite code = do
  affected ← gets (λ db. count (λ (c : InviteCode). c.id == code.id) db.invite_codes)
  modify λ db. record db {
    invite_codes =
        update (λ (c : InviteCode). c.id == code.id) (with_uses (add64 code.used_count (pos 1)))
          db.invite_codes;
  }
  fail_if (eqb affected 0) invite_changed
  pure (with_uses (add64 code.used_count (pos 1)) code)

unfoldable pub validate_and_consume : Time → String → Db InviteCode
validate_and_consume now raw_code = validate now raw_code >>= consume_invite
