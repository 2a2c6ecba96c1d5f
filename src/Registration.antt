-- ===== src/Registration.antt =====
-- The users' part of `AuthService` of internal/service/auth.go: registration, login and the proof of an
-- address. Password hashes and signed tokens are made by libraries, which `UserCrypto` stands for; the
-- settings are what SystemConfigService returns.
pub mod Refused
pub mod Verified
pub mod Created
use Prim.Native.Char.{code}
use vgate_manager.Prelude.{
  ℕ, String, Bool, true, false, not, ◌&&◌, ◌||◌, Option, none, some, List, [], ◌∷◌, ◌==◌, eqb, ltb,
  ltb_ℤ, if◌then◌else◌,
}
use vgate_manager.Prelude.Int.{ℤ, pos, ◌+ℤ◌, ◌*ℤ◌, wrap}
use vgate_manager.Db.Table.{first, count, any, insert, update}
use vgate_manager.Db.Rows.{contains}
use vgate_manager.Db.Action.{
  Result, ok, err, Action, weak_password, hash_failed, sign_failed, invite_required,
  invalid_credentials, email_not_allowed, registration_disabled, username_taken, email_taken,
  no_password, user_disabled, verification_required, invalid_verification, user_not_found,
  verification_expired, pure, gets, lift, require, create, ◌>>=◌, ◌>>◌, fail_if, modify,
}
use vgate_manager.Model.Time.{Time, day}
use vgate_manager.Model.User.{User}
use vgate_manager.Model.Verification.{EmailVerification, consumed, valid}
use vgate_manager.Model.Database.{Database, Db, user_by_id, update_user}
use vgate_manager.Invite.{validate_and_consume}

-- bcrypt, the signing of an access token that expires at an instant, and `ToLower(TrimSpace(...))`.
pub record UserCrypto : Type 0 where
  pub hash_password : String → Option String
  pub compare_hash : String → String → Bool
  pub sign_user : User → Time → Option String
  pub normalize : String → String

-- The settings.
pub record Settings : Type 0 where
  pub email_suffixes : Result (List String)
  pub register_enabled : Bool
  pub require_invite : Bool
  pub require_email_verify : Bool
  pub policy : String → Bool
  pub invite_default_quota : ℤ
  pub trial_enabled : Bool
  pub trial_quota_bytes : ℤ
  pub trial_duration_days : ℤ
  pub access_ttl : ℤ

-- What a call brings: its clock, and the ids and tokens that it draws.
pub record Draw : Type 0 where
  pub now : Time
  pub user_id : String
  pub credential : String
  pub sub_token : String
  pub verification_id : String
  pub verification_token : String

-- What a registration returns.
pub record Registered : Type 0 where
  pub user : User
  pub token : String
  pub exp : Time
  pub is_waiting : Bool

-- What stands after the last '@' of a text, if there is one.
unfoldable pub after_at : String → Option String
after_at String.[] = none
after_at (String.◌∷◌ c s) =
    let rest = after_at s in
    elim rest [ some t ↦ some t | none ↦ (if eqb (code c) b'@' then some s else none) ]

abbrev pub domain : String → String
domain s = elim (after_at s) [ none ↦ s | some t ↦ t ]

abbrev pub user_by_email : String → Database → Option User
user_by_email email db = first (λ (u : User). u.email == email) db.users

abbrev pub has_name : String → User → Bool
has_name name u = elim u.username [ none ↦ false | some n ↦ n == name ]

abbrev pub same_name : User → User → Bool
same_name u v = elim v.username [ none ↦ false | some n ↦ has_name n u ]

-- A unique column of a new row is taken.
abbrev pub user_clash : User → Database → Bool
user_clash v db =
    any
      (λ (u : User).
        u.id == v.id
        || u.credential == v.credential
        || u.email == v.email
        || same_name u v
        || u.sub_token == v.sub_token)
      db.users

abbrev pub with_user : User → Database → Database
with_user u db = record db { users = insert u db.users }

abbrev pub verification_clash : EmailVerification → Database → Bool
verification_clash v db =
    any (λ (w : EmailVerification). w.id == v.id || w.token == v.token) db.email_verifications

abbrev pub with_verification : EmailVerification → Database → Database
with_verification v db = record db { email_verifications = insert v db.email_verifications }

abbrev pub new_verification : Draw → String → String → EmailVerification
new_verification d user_id email = record {
  id = d.verification_id;
  user_id = user_id;
  email = email;
  token = d.verification_token;
  purpose = "register";
  expires_at = d.now +ℤ day;
  consumed_at = none;
}

abbrev pub update_verifications :
    (EmailVerification → Bool) → (EmailVerification → EmailVerification) → Database → Database
update_verifications p f db = record db { email_verifications = update p f db.email_verifications }

abbrev pub consumed_now : Time → EmailVerification → EmailVerification
consumed_now now v = record v { consumed_at = some now }

abbrev pub verified : User → User
verified u = record u { enabled = true; email_verified = true }

abbrev pub verification_by_token : String → Database → Option EmailVerification
verification_by_token token db =
    first (λ (v : EmailVerification). v.token == token) db.email_verifications

-- The updates of `VerifyEmail`, for an account that is not verified.
abbrev pub redeem_token : Time → EmailVerification → User → Db Unit
redeem_token now v u = do
  fail_if (not (valid v now)) verification_expired
  modify (update_user u.id verified)
  modify (update_verifications (λ w. w.id == v.id) (consumed_now now))

abbrev pub verify_user : Time → EmailVerification → User → Db Unit
verify_user now v u db = elim u.email_verified [
  | true ↦ (ok tt, db)
  | false ↦ redeem_token now v u db
]

abbrev pub verify_loaded : Time → EmailVerification → Db Unit
verify_loaded now v =
    require user_not_found (λ db. user_by_id v.user_id db.users) >>= verify_user now v

-- `VerifyEmail`
unfoldable pub verify_email : Time → String → Db Unit
verify_email now token = do
  fail_if (token == "") verification_required
  require invalid_verification (verification_by_token token) >>= verify_loaded now

module _ (c : UserCrypto) (s : Settings) where
  abbrev pub sign_in : Time → User → Db (String × Time × ℤ)
  sign_in now u = do
    token ← require sign_failed (λ _. c.sign_user u (now +ℤ s.access_ttl))
    pure (token, now +ℤ s.access_ttl, u.level)

  abbrev pub login_checked : Time → String → User → String → Db (String × Time × ℤ)
  login_checked now password u hash = do
    fail_if (not (c.compare_hash hash password)) invalid_credentials
    fail_if (not u.enabled) user_disabled
    sign_in now u

  abbrev pub login_loaded : Time → String → User → Db (String × Time × ℤ)
  login_loaded now password u =
      require no_password (λ _. u.password_hash) >>= login_checked now password u

  -- `UserLogin`
  unfoldable pub user_login : Time → String → String → Db (String × Time × ℤ)
  user_login now email password =
      require invalid_credentials (user_by_email (c.normalize email)) >>= login_loaded now password

  module _ (d : Draw) where
    -- The trial of a new user.
    abbrev pub with_trial : User → User
    with_trial u =
        if s.trial_enabled && ltb_ℤ (pos 0) s.trial_quota_bytes
        then record u {
          quota_bytes = s.trial_quota_bytes;
          quota_reset_enabled = false;
          expire_at =
              if ltb_ℤ (pos 0) s.trial_duration_days
              then some (d.now +ℤ wrap (s.trial_duration_days *ℤ day))
              else u.expire_at;
        }
        else u

    abbrev pub plain_user : String → String → String → User
    plain_user username email hash = record {
      id = d.user_id;
      credential = d.credential;
      current_product_id = "";
      email = email;
      username = some username;
      password_hash = some hash;
      sub_token = d.sub_token;
      level = pos 0;
      expire_at = none;
      quota_bytes = pos 0;
      traffic_quota_bytes = pos 0;
      package_used_bytes = pos 0;
      quota_reset_enabled = false;
      balance_cents = pos 0;
      current_plan_paid_cents = pos 0;
      current_plan_duration_days = pos 0;
      speed_limit_up_bps = pos 0;
      speed_limit_down_bps = pos 0;
      up_total = pos 0;
      down_total = pos 0;
      last_traffic_at = none;
      enabled = true;
      email_verified = not s.require_email_verify;
      max_invites = s.invite_default_quota;
    }

    abbrev pub new_user : String → String → String → User
    new_user username email hash = with_trial (plain_user username email hash)

    -- The verification token of a pending account.
    abbrev pub issue_verification : User → Db Unit
    issue_verification u db = elim s.require_email_verify [
      | false ↦ (ok tt, db)
      | true ↦
          create (verification_clash (new_verification d u.id u.email))
            (with_verification (new_verification d u.id u.email)) db
    ]

    abbrev pub session_of : User → String × Time × ℤ → Registered
    session_of u x = record {
      user = u;
      token = x.0;
      exp = x.1;
      is_waiting = s.require_email_verify;
    }

    abbrev pub first_session : String → User → Db Registered
    first_session password u = user_login d.now u.email password >>= λ x. pure (session_of u x)

    abbrev pub complete_account : String → User → Db Registered
    complete_account password u = do issue_verification u; first_session password u

    abbrev pub create_account : String → String → String → String → Db Registered
    create_account username email password hash = do
      create (user_clash (new_user username email hash)) (with_user (new_user username email hash))
      complete_account password (new_user username email hash)

    abbrev pub hash_account : String → String → String → Db Registered
    hash_account username email password =
        require hash_failed (λ _. c.hash_password password)
        >>= create_account username email password

    abbrev pub check_email : String → String → String → Db Registered
    check_email username email password = do
      emails ← gets (λ db. count (λ (u : User). u.email == email) db.users)
      fail_if (ltb 0 emails) email_taken
      hash_account username email password

    -- What follows the gate of the invite codes.
    abbrev pub check_name : String → String → String → Db Registered
    check_name username email password = do
      names ← gets (λ db. count (has_name username) db.users)
      fail_if (ltb 0 names) username_taken
      check_email username email password

    abbrev pub admit_account : String → String → String → Db Registered
    admit_account username email password = do
      fail_if (not (s.policy password)) weak_password
      check_name username email password

    abbrev pub consume_code : String → Db Unit
    consume_code invite_code = do
      fail_if (invite_code == "") invite_required
      used ← validate_and_consume d.now invite_code
      pure tt

    abbrev pub pass_invite : String → Db Unit
    pass_invite invite_code db = elim s.require_invite [
      | false ↦ (ok tt, db)
      | true ↦ consume_code invite_code db
    ]

    abbrev pub is_refused_domain : String → List String → Bool
    is_refused_domain email [] = false
    is_refused_domain email (a ∷ l) = not (contains (domain email) (a ∷ l))

    abbrev pub pass_gate : String → String → String → String → Db Registered
    pass_gate username email password invite_code = do
      pass_invite invite_code
      admit_account username email password

    abbrev pub register_gated : String → String → String → String → Db Registered
    register_gated username email password invite_code = do
      fail_if (not s.register_enabled) registration_disabled
      pass_gate username email password invite_code

    abbrev pub check_domain : String → String → String → String → List String → Db Registered
    check_domain username email password invite_code suffixes = do
      fail_if (is_refused_domain email suffixes) email_not_allowed
      register_gated username email password invite_code

    abbrev pub register_normal : String → String → String → String → Db Registered
    register_normal username email password invite_code =
        lift s.email_suffixes >>= check_domain username email password invite_code

    -- `RegisterUser`
    unfoldable pub register_user : String → String → String → String → Db Registered
    register_user username email = register_normal username (c.normalize email)

    abbrev pub reissue : User → Db Unit
    reissue u = do
      modify (
          update_verifications
            (λ v. v.user_id == u.id && v.purpose == "register" && not (consumed v))
            (consumed_now d.now))
      create (verification_clash (new_verification d u.id u.email))
          (with_verification (new_verification d u.id u.email))

    abbrev pub is_unverified : String → User → Bool
    is_unverified email u = u.email == email && not u.email_verified

    -- `ResendVerification`, up to the email
    unfoldable pub resend_verification : String → Db Unit
    resend_verification email db =
        if s.require_email_verify
        then (elim (first (is_unverified (c.normalize email)) db.users) [
          | none ↦ (ok tt, db)
          | some u ↦ reissue u db
        ])
        else (ok tt, db)
