-- ===== src/Tests/Signup.antt =====
-- Examples: registrations with the invite code of the shop, and the proof of an address.
use vgate_manager.Prelude.{◌≡◌, refl, true, false, not, none, some, [], ◌∷◌, ◌==◌}
use vgate_manager.Prelude.Int.{pos, add64, sub64, wrap, ◌-ℤ◌, ◌+ℤ◌}
use vgate_manager.Db.Table.{first, count, any, insert, update}
use vgate_manager.Db.Action.{ok}
use vgate_manager.Model.User.{User}
use vgate_manager.Model.Code.{InviteCode, exhausted_invite}
use vgate_manager.Model.Verification.{EmailVerification, valid}
use vgate_manager.Model.Database.{Database}
use vgate_manager.Invite.{invite_by_text, validate_and_consume, validate, consume_invite}
use vgate_manager.Registration.{
  UserCrypto, Settings, Draw, Registered, register_user, user_login, verify_email, new_user,
}
use vgate_manager.Registration.Refused.{invite_by_text-register_user}
use vgate_manager.Registration.Created.{IsOnlyAccount, register_user-IsOnlyAccount}
use vgate_manager.Registration.Verified.{Proves, verify_email_twice, verify_email-Proves}
use vgate_manager.Tests.{shop}

abbrev crypto : UserCrypto
crypto = record {
  hash_password = some;
  compare_hash = λ a b. a == b;
  sign_user = λ u _. some u.id;
  normalize = λ e. e;
}

abbrev settings : Settings
settings = record {
  email_suffixes = ok [];
  register_enabled = true;
  require_invite = true;
  require_email_verify = true;
  policy = λ p. not (p == "weak");
  invite_default_quota = pos 3;
  trial_enabled = false;
  trial_quota_bytes = pos 0;
  trial_duration_days = pos 0;
  access_ttl = pos 3600;
}

abbrev draw : Draw
draw = record {
  now = pos 10;
  user_id = "bob";
  credential = "vless-bob";
  sub_token = "sub-bob";
  verification_id = "v1";
  verification_token = "proof";
}

abbrev friend : InviteCode
friend = record {
  id = "invite-1";
  code = "FRIEND";
  created_by_user_id = some "alice";
  max_uses = pos 2;
  used_count = pos 0;
  expires_at = none;
}

friend_found : invite_by_text "FRIEND" shop ≡ some friend
unfolding first
friend_found = refl

friend_is_usable : exhausted_invite friend (pos 10) ≡ false
unfolding exhausted_invite sub64 wrap ◌-ℤ◌
friend_is_usable = refl

invite_by_text-register_user_example :
    invite_by_text "FRIEND"
      (register_user crypto settings draw "bob" "bob@example.org" "weak" "FRIEND" shop).1
    ≡ some (record friend { used_count = add64 (pos 0) (pos 1) })
invite_by_text-register_user_example =
    invite_by_text-register_user crypto settings draw "bob" "bob@example.org" "weak" "FRIEND" []
      shop friend refl refl refl refl refl friend_found friend_is_usable

abbrev bob : User
bob = new_user crypto settings draw "bob" "bob@example.org" "strong"

abbrev joined : Database
joined = (register_user crypto settings draw "bob" "bob@example.org" "strong" "FRIEND" shop).1

abbrev session : Registered
session = record { user = bob; token = "bob"; exp = pos 3610; is_waiting = true }

bob_joins :
    register_user crypto settings draw "bob" "bob@example.org" "strong" "FRIEND" shop
    ≡ (ok session, joined)
unfolding register_user validate_and_consume validate first exhausted_invite sub64 wrap ◌-ℤ◌
    consume_invite count any user_login add64 ◌+ℤ◌ insert update
bob_joins = refl

register_user-IsOnlyAccount_example :
    IsOnlyAccount crypto settings draw "bob@example.org" bob joined
register_user-IsOnlyAccount_example =
    register_user-IsOnlyAccount crypto settings draw "bob" "bob@example.org" "strong" "FRIEND" shop
      joined bob_joins

abbrev proof : EmailVerification
proof = record {
  id = "v1";
  user_id = "bob";
  email = "bob@example.org";
  token = "proof";
  purpose = "register";
  expires_at = pos 86400000000010;
  consumed_at = none;
}

abbrev disabled_bob : User
disabled_bob = record bob { enabled = false }

abbrev suspended : Database
suspended = record shop { users = disabled_bob ∷ []; email_verifications = proof ∷ [] }

abbrev proved : Database
proved = (verify_email (pos 20) "proof" suspended).1

bob_is_proved : verify_email (pos 20) "proof" suspended ≡ (ok tt, proved)
unfolding verify_email first valid
bob_is_proved = refl

verify_email_twice_example : verify_email (pos 99) "proof" proved ≡ (ok tt, proved)
verify_email_twice_example =
    verify_email_twice (pos 20) (pos 99) "proof" suspended proved bob_is_proved

verify_email-Proves_example :
    Proves (pos 20) "proof" suspended (verify_email (pos 20) "proof" suspended)
verify_email-Proves_example = verify_email-Proves (pos 20) "proof" suspended
