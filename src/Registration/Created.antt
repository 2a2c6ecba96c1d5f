-- ===== src/Registration/Created.antt =====
-- The account that a registration creates.
use mathlib.Core.Path.{subst}
use vgate_manager.Prelude.{
  ◌≡◌, refl, ap, String, true, not, ◌&&◌, some, ◌==◌, arith, eq_refl, sym, ◌∙◌, Bool-cases, inl,
  inr, ltb, ltb_ℤ,
}
use vgate_manager.Prelude.Int.{pos}
use vgate_manager.Db.Table.{first, first-insert, first-none, count, count-insert}
use vgate_manager.Db.Action.{
  Result, ok, err, lift-cases, fail_if-cases, require-cases, create-cases, bind-cases,
  weak_password, hash_failed, username_taken, email_taken, registration_disabled, email_not_allowed,
  pure,
}
use vgate_manager.Model.Time.{Time}
use vgate_manager.Model.User.{User}
use vgate_manager.Model.Database.{Database}
use vgate_manager.Registration.{
  UserCrypto, Settings, Draw, Registered, user_by_email, user_clash, with_user, has_name,
  user_login, new_user, issue_verification, session_of, first_session, complete_account,
  create_account, hash_account, check_email, check_name, admit_account, pass_invite, pass_gate,
  register_gated, check_domain, is_refused_domain, register_normal, register_user,
}

module _ (c : UserCrypto) (s : Settings) (d : Draw) where
  -- The account is the one row with its address, and is verified unless the settings ask for a proof.
  abbrev pub IsOnlyAccount : String → User → Database → Type 0
  IsOnlyAccount email u db =
      (count (λ (v : User). v.email == email) db.users ≡ 1)
      × (user_by_email email db ≡ some u)
      × (u.email_verified ≡ not s.require_email_verify)

  abbrev pub Created : String → Result Registered × Database → Type 0
  Created email (ok r, db) = IsOnlyAccount email r.user db
  Created email (err _, _) = Unit

  user_login-same :
      (now : Time) (email password : String) (db : Database)
      → (user_login c s now email password db).1 ≡ db
  unfolding user_login
  user_login-same now email password db = ground arith

  issue_verification-users :
      (u : User) (db : Database) → (issue_verification c s d u db).1.users ≡ db.users
  issue_verification-users u db = ground arith

  first_session-Created :
      (email password : String) (u : User) (db : Database)
      → IsOnlyAccount email u db
      → Created email (first_session c s d password u db)
  first_session-Created email password u db h =
      bind-cases (Created email) (user_login c s d.now u.email password)
        (λ x. pure (session_of c s d u x)) db
        (λ x t e.
          subst (IsOnlyAccount email u)
            (sym (user_login-same d.now u.email password db) ∙ ap (λ y. y.1) e) h)
        (λ _ _ _. tt)

  complete_account-Created :
      (email password : String) (u : User) (db : Database)
      → IsOnlyAccount email u db
      → Created email (complete_account c s d password u db)
  complete_account-Created email password u db h =
      bind-cases (Created email) (issue_verification c s d u) (λ _. first_session c s d password u)
        db
        (λ x t e.
          let users : t.users ≡ db.users =
            sym (ap (λ y. y.1.users) e) ∙ issue_verification-users u db in
          first_session-Created email password u t (
            subst
              (λ l.
                (count (λ (v : User). v.email == email) l ≡ 1)
                × (first (λ (v : User). v.email == email) l ≡ some u)
                × (u.email_verified ≡ not s.require_email_verify))
              (sym users) h))
        (λ _ _ _. tt)

  new_user-verified :
      (username email hash : String)
      → ((new_user c s d username email hash).email_verified ≡ not s.require_email_verify)
        × ((new_user c s d username email hash).email ≡ email)
  new_user-verified username email hash =
      elim (Bool-cases (s.trial_enabled && ltb_ℤ (pos 0) s.trial_quota_bytes)) [
        | inl t ↦ rw t (refl, refl)
        | inr n ↦ rw n (refl, refl)
      ]

  with_user-IsOnlyAccount :
      (email : String) (u : User) (db : Database)
      → u.email ≡ email
      → count (λ (v : User). v.email == email) db.users ≡ 0
      → u.email_verified ≡ not s.require_email_verify
      → IsOnlyAccount email u (with_user u db)
  with_user-IsOnlyAccount email u db same none_yet proof =
      let q = λ (v : User). v.email == email in
      let key : q u ≡ true = rw same (eq_refl email) in
      let absent = first-none q db.users none_yet in
      (
        count-insert q u db.users ∙ rw (none_yet, key) refl,
        first-insert q u db.users ∙ rw (absent, key) refl,
        proof,
      )

  create_account-Created :
      (username email password hash : String) (db : Database)
      → count (λ (v : User). v.email == email) db.users ≡ 0
      → Created email (create_account c s d username email password hash db)
  create_account-Created username email password hash db none_yet =
      let u = new_user c s d username email hash in
      let (proof, same) = new_user-verified username email hash in
      create-cases (Created email) (user_clash u) (with_user u) (complete_account c s d password u)
        db
        (λ _.
          complete_account-Created email password u (with_user u db)
            (with_user-IsOnlyAccount email u db same none_yet proof))
        (λ _. tt)

  check_email-Created :
      (username email password : String) (db : Database)
      → Created email (check_email c s d username email password db)
  check_email-Created username email password db =
      fail_if-cases (Created email) (ltb 0 (count (λ (u : User). u.email == email) db.users))
        email_taken (hash_account c s d username email password) db
        (λ free.
          require-cases (Created email) hash_failed (λ _. c.hash_password password)
            (create_account c s d username email password) db
            (λ hash _. create_account-Created username email password hash db (ground arith))
            (λ _. tt))
        (λ _. tt)

  admit_account-Created :
      (username email password : String) (db : Database)
      → Created email (admit_account c s d username email password db)
  admit_account-Created username email password db =
      fail_if-cases (Created email) (not (s.policy password)) weak_password
        (check_name c s d username email password) db
        (λ _.
          fail_if-cases (Created email) (ltb 0 (count (has_name username) db.users)) username_taken
            (check_email c s d username email password) db
            (λ _. check_email-Created username email password db) (λ _. tt))
        (λ _. tt)

  register_normal-Created :
      (username email password code : String) (db : Database)
      → Created email (register_normal c s d username email password code db)
  register_normal-Created username email password code db =
      lift-cases (Created email) s.email_suffixes (check_domain c s d username email password code)
        db
        (λ suffixes _.
          fail_if-cases (Created email) (is_refused_domain c s d email suffixes) email_not_allowed
            (register_gated c s d username email password code) db
            (λ _.
              fail_if-cases (Created email) (not s.register_enabled) registration_disabled
                (pass_gate c s d username email password code) db
                (λ _.
                  bind-cases (Created email) (pass_invite c s d code)
                    (λ _. admit_account c s d username email password) db
                    (λ _ t _. admit_account-Created username email password t) (λ _ _ _. tt))
                (λ _. tt))
            (λ _. tt))
        (λ _ _. tt)

  -- A registration that succeeds has created the one account with its normalized address, and that is
  -- verified exactly if the settings do not ask for a proof of the address.
  pub register_user-IsOnlyAccount :
      (username email password code : String) (db db' : Database) {r : Registered}
      → register_user c s d username email password code db ≡ (ok r, db')
      → IsOnlyAccount (c.normalize email) r.user db'
  unfolding register_user
  register_user-IsOnlyAccount username email password code db db' h =
      subst (Created (c.normalize email)) h
        (register_normal-Created username (c.normalize email) password code db)
