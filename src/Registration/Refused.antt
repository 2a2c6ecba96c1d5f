-- ===== src/Registration/Refused.antt =====
-- An attempt to register spends a use of its invite code, also where it is refused after that.
use vgate_manager.Prelude.{
  ◌≡◌, refl, sym, ap, ◌∙◌, String, true, false, not, List, some, ◌==◌, arith, ltb,
}
use vgate_manager.Prelude.Int.{pos, add64}
use vgate_manager.Db.Table.{count, first}
use vgate_manager.Db.Action.{
  Result, ok, weak_password, username_taken, email_taken, hash_failed, require-cases, fail_if-cases,
  create-cases, bind-cases,
}
use vgate_manager.Model.User.{User}
use vgate_manager.Model.Code.{InviteCode, exhausted_invite}
use vgate_manager.Model.Database.{Database}
use vgate_manager.Invite.{validate_and_consume, validate, consume_invite, invite_by_text}
use vgate_manager.Invite.Uses.{consume_invite-succeeds, used_count-consume_invite}
use vgate_manager.Registration.{
  UserCrypto, Settings, Draw, Registered, register_user, admit_account, check_name, check_email,
  hash_account, create_account, complete_account, first_session, session_of, issue_verification,
  user_login, user_clash, with_user, new_user, has_name, is_refused_domain,
}

module _ (c : UserCrypto) (s : Settings) (d : Draw) where
  invites-user_login :
      (email password : String) (db : Database)
      → (user_login c s d.now email password db).1.invite_codes ≡ db.invite_codes
  unfolding user_login
  invites-user_login email password db = ground arith

  invites-issue_verification :
      (u : User) (db : Database) → (issue_verification c s d u db).1.invite_codes ≡ db.invite_codes
  invites-issue_verification u db = ground arith

  -- The table of the invite codes is the same afterwards.
  abbrev Kept : List InviteCode → Result Registered × Database → Type 0
  Kept l x = x.1.invite_codes ≡ l

  complete_account-Kept :
      (password : String) (u : User) (db : Database)
      → Kept db.invite_codes (complete_account c s d password u db)
  complete_account-Kept password u db =
      bind-cases (Kept db.invite_codes) (issue_verification c s d u)
        (λ _. first_session c s d password u) db
        (λ _ t e.
          let same = sym (ap (λ x. x.1.invite_codes) e) ∙ invites-issue_verification u db in
          bind-cases (Kept db.invite_codes) (user_login c s d.now u.email password)
            (λ x y. (ok (session_of c s d u x), y)) t
            (λ _ t' k.
              sym (ap (λ x. x.1.invite_codes) k) ∙ invites-user_login u.email password t ∙ same)
            (λ _ t' k.
              sym (ap (λ x. x.1.invite_codes) k) ∙ invites-user_login u.email password t ∙ same))
        (λ _ t e. sym (ap (λ x. x.1.invite_codes) e) ∙ invites-issue_verification u db)

  check_email-Kept :
      (username email password : String) (db : Database)
      → Kept db.invite_codes (check_email c s d username email password db)
  check_email-Kept username email password db =
      fail_if-cases (Kept db.invite_codes) (ltb 0 (count (λ (u : User). u.email == email) db.users))
        email_taken (hash_account c s d username email password) db
        (λ _.
          require-cases (Kept db.invite_codes) hash_failed (λ _. c.hash_password password)
            (create_account c s d username email password) db
            (λ hash _.
              let u = new_user c s d username email hash in
              create-cases (Kept db.invite_codes) (user_clash u) (with_user u)
                (complete_account c s d password u) db
                (λ _. complete_account-Kept password u (with_user u db)) (λ _. refl))
            (λ _. refl))
        (λ _. refl)

  admit_account-Kept :
      (username email password : String) (db : Database)
      → Kept db.invite_codes (admit_account c s d username email password db)
  admit_account-Kept username email password db =
      fail_if-cases (Kept db.invite_codes) (not (s.policy password)) weak_password
        (check_name c s d username email password) db
        (λ _.
          fail_if-cases (Kept db.invite_codes) (ltb 0 (count (has_name username) db.users))
            username_taken (check_email c s d username email password) db
            (λ _. check_email-Kept username email password db) (λ _. refl))
        (λ _. refl)

  consume_usable :
      (code : String) (db : Database) (i : InviteCode)
      → (code == "") ≡ false
      → invite_by_text code db ≡ some i
      → exhausted_invite i d.now ≡ false
      → validate_and_consume d.now code db ≡ consume_invite i db
  unfolding validate_and_consume validate
  consume_usable code db i named k usable = ground arith

  register_gated :
      (username email password code : String) (suffixes : List String) (db db' : Database)
      {i : InviteCode}
      → s.email_suffixes ≡ ok suffixes
      → is_refused_domain c s d (c.normalize email) suffixes ≡ false
      → s.register_enabled ≡ true
      → s.require_invite ≡ true
      → (code == "") ≡ false
      → validate_and_consume d.now code db ≡ (ok i, db')
      → register_user c s d username email password code db
        ≡ admit_account c s d username (c.normalize email) password db'
  unfolding register_user
  register_gated username email password code suffixes db db' a ok_domain on required named h =
      ground arith

  -- Where invite codes are required, every attempt to register with a code that is usable spends
  -- exactly one of its uses, if registration is on and the address is of an allowed domain: whether it
  -- then succeeds, or is refused for its password, its name or its address.
  pub invite_by_text-register_user :
      (username email password code : String) (suffixes : List String) (db : Database)
      (i : InviteCode)
      → s.email_suffixes ≡ ok suffixes
      → is_refused_domain c s d (c.normalize email) suffixes ≡ false
      → s.register_enabled ≡ true
      → s.require_invite ≡ true
      → (code == "") ≡ false
      → invite_by_text code db ≡ some i
      → exhausted_invite i d.now ≡ false
      → invite_by_text code (register_user c s d username email password code db).1
        ≡ some (record i { used_count = add64 i.used_count (pos 1) })
  invite_by_text-register_user username email password code suffixes db i a ok_domain on required
        named k usable =
      let done = consume_invite-succeeds code i i db k refl in
      let after = (consume_invite i db).1 in
      let run =
        register_gated username email password code suffixes db after a ok_domain on required named
          (consume_usable code db i named k usable ∙ done) in
      let same = admit_account-Kept username (c.normalize email) password after in
      let seen = used_count-consume_invite code i i db k refl done in
      ap (λ x. invite_by_text code x.1) run
      ∙ ap (λ l. first (λ (e : InviteCode). e.code == code) l) same
      ∙ seen
