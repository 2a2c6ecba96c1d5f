-- ===== src/Registration/Verified.antt =====
-- The proof of an address.
use mathlib.Core.Option
use mathlib.Core.Path.{subst}
use vgate_manager.Prelude.{
  ◌≡◌, refl, String, true, false, not, none, some, ltb_ℤ, ◌==◌, arith, eq_refl, sym, ◌∙◌,
  Bool-cases, Option-cases, inl, inr, if◌then◌else◌,
}
use vgate_manager.Db.Table.{first-update}
use vgate_manager.Db.Action.{
  Result, ok, err, fail_if-cases, require-cases, require, ◌>>=◌, verification_required,
  invalid_verification, user_not_found, verification_expired,
}
use vgate_manager.Model.Time.{Time}
use vgate_manager.Model.User.{User}
use vgate_manager.Model.Verification.{EmailVerification, valid}
use vgate_manager.Model.Database.{Database, user_by_id, update_user}
use vgate_manager.Registration.{
  verify_email, verification_by_token, verified, consumed_now, update_verifications, verify_loaded,
  verify_user,
}

-- The tables after the updates.
abbrev pub redeemed : Time → EmailVerification → User → Database → Database
redeemed now v u db =
    update_verifications (λ w. w.id == v.id) (consumed_now now) (update_user u.id verified db)

-- What a call that succeeds has found and done.
verify_email_inversion :
    (now : Time) (token : String) (db db' : Database)
    → verify_email now token db ≡ (ok tt, db')
    → (v : EmailVerification) × (u : User) × (verification_by_token token db ≡ some v)
      × (user_by_id v.user_id db.users ≡ some u)
      × ((token == "") ≡ false)
      × (db' ≡ (if u.email_verified then db else redeemed now v u db))
unfolding verify_email
verify_email_inversion now token db db' h = elim (Bool-cases (token == "")) [
  | inl e ↦ absurd (ground arith)
  | inr named ↦ elim (Option-cases (verification_by_token token db)) [
    | inl n ↦ absurd (ground arith)
    | inr (v, kv) ↦ elim (Option-cases (user_by_id v.user_id db.users)) [
      | inl n ↦ absurd (ground arith)
      | inr (u, ku) ↦ (v, u, kv, ku, named, written v u kv ku named)
    ]
  ]
]
  where
    written :
        (v : EmailVerification) (u : User)
        → verification_by_token token db ≡ some v
        → user_by_id v.user_id db.users ≡ some u
        → (token == "") ≡ false
        → db' ≡ (if u.email_verified then db else redeemed now v u db)
    written v u kv ku named = elim (Bool-cases u.email_verified) [
      | inl t ↦ ground arith
      | inr n ↦ elim (Bool-cases (valid v now)) [
        | inl t ↦ ground arith
        | inr e ↦ absurd (ground arith)
      ]
    ]

-- A token whose account is verified is taken again, and nothing is written.
verify_email_again :
    (later : Time) (token : String) (db : Database) (v : EmailVerification) (u : User)
    → verification_by_token token db ≡ some v
    → user_by_id v.user_id db.users ≡ some u
    → u.email_verified ≡ true
    → (token == "") ≡ false
    → verify_email later token db ≡ (ok tt, db)
unfolding verify_email
verify_email_again later token db v u kv ku t named = ground arith

token-redeemed :
    (now : Time) (token : String) (v : EmailVerification) (u : User) (db : Database)
    → verification_by_token token db ≡ some v
    → verification_by_token token (redeemed now v u db) ≡ some (consumed_now now v)
token-redeemed now token v u db k =
    first-update (λ (w : EmailVerification). w.token == token)
      (λ (w : EmailVerification). w.id == v.id) (consumed_now now) db.email_verifications
      (λ _ _. refl)
    ∙ rw (k, eq_refl v.id) refl

user-redeemed :
    (now : Time) (id : String) (v : EmailVerification) (u : User) (db : Database)
    → user_by_id id db.users ≡ some u
    → user_by_id id (redeemed now v u db).users ≡ some (verified u)
user-redeemed now id v u db k =
    first-update (λ (w : User). w.id == id) (λ (w : User). w.id == u.id) verified db.users
      (λ _ _. refl)
    ∙ rw (k, eq_refl u.id) refl

-- A token that was taken once may be sent again at any time: the call succeeds and changes nothing.
pub verify_email_twice :
    (now later : Time) (token : String) (db db' : Database)
    → verify_email now token db ≡ (ok tt, db')
    → verify_email later token db' ≡ (ok tt, db')
verify_email_twice now later token db db' h =
    let (v, u, kv, ku, named, w) = verify_email_inversion now token db db' h in
    elim (Bool-cases u.email_verified) [
      | inl t ↦
          let same : db' ≡ db = rw t at w in
          subst (λ x. verify_email later token x ≡ (ok tt, x)) (sym same)
            (verify_email_again later token db v u kv ku t named)
      | inr n ↦
          let same : db' ≡ redeemed now v u db = rw n at w in
          subst (λ x. verify_email later token x ≡ (ok tt, x)) (sym same)
            (verify_email_again later token (redeemed now v u db) (consumed_now now v) (verified u)
              (token-redeemed now token v u db kv) (user-redeemed now v.user_id v u db ku) refl
              named)
    ]

-- What the proof of an address has done: the token was neither used nor out of time, its account is
-- verified and enabled, also where an admin has disabled it, and the token is used up.
pub record Proved (now : Time) (token : String) (v : EmailVerification) (u : User)
    (db db' : Database) : Type 0 where
  pub unused : v.consumed_at ≡ none
  pub in_time : ltb_ℤ v.expires_at now ≡ false
  pub accounts :
      (k : String)
      → user_by_id k db'.users
        ≡ Option.map
            (λ w. if w.id == u.id then record w { enabled = true; email_verified = true } else w)
            (user_by_id k db.users)
  pub used_up : verification_by_token token db' ≡ some (record v { consumed_at = some now })

abbrev pub Proves : Time → String → Database → Result (Unit {0}) × Database → Type 0
Proves now token db (ok _, db') =
    (v : EmailVerification) × (u : User) × (verification_by_token token db ≡ some v)
    × (user_by_id v.user_id db.users ≡ some u)
    × (if u.email_verified then db' ≡ db else Proved now token v u db db')
Proves now token db (err _, db') = db' ≡ db

redeemed-Proved :
    (now : Time) (token : String) (v : EmailVerification) (u : User) (db : Database)
    → verification_by_token token db ≡ some v
    → valid v now ≡ true
    → Proved now token v u db (redeemed now v u db)
unfolding valid
redeemed-Proved now token v u db kv good = record {
  unused = elim (Option-cases v.consumed_at) [ inl n ↦ n | inr (t, e) ↦ absurd (ground arith) ];
  in_time = ground arith;
  accounts = λ k.
      first-update (λ (w : User). w.id == k) (λ (w : User). w.id == u.id) verified db.users
        (λ _ _. refl);
  used_up = token-redeemed now token v u db kv;
}

-- A call that fails changes nothing. One that succeeds has found the token and its account: where that
-- was verified already nothing changes; and else the token was neither used nor out of time, the
-- account is verified, and enabled, also where an admin has disabled it, no other account changes, and
-- the token is used up.
pub verify_email-Proves :
    (now : Time) (token : String) (db : Database) → Proves now token db (verify_email now token db)
unfolding verify_email
verify_email-Proves now token db =
    fail_if-cases P (token == "") verification_required
      (require invalid_verification (verification_by_token token) >>= verify_loaded now) db
      (λ _.
        require-cases P invalid_verification (verification_by_token token) (verify_loaded now) db
          (λ v kv.
            require-cases P user_not_found (λ d. user_by_id v.user_id d.users) (verify_user now v)
              db (λ u ku. settled v u kv ku) (λ _. refl))
          (λ _. refl))
      (λ _. refl)
  where
    P : Result (Unit {0}) × Database → Type 0
    P = Proves now token db

    settled :
        (v : EmailVerification) (u : User)
        → verification_by_token token db ≡ some v
        → user_by_id v.user_id db.users ≡ some u
        → P (verify_user now v u db)
    settled v u kv ku = elim (Bool-cases u.email_verified) [
      | inl t ↦ rw t (v, u, kv, ku, rw t refl)
      | inr n ↦ rw n (
          fail_if-cases P (not (valid v now)) verification_expired
            (λ d. (ok tt, redeemed now v u d)) db
            (λ good.
              let proved = redeemed-Proved now token v u db kv (ground arith) in
              let done = redeemed now v u db in
              (
                v,
                u,
                kv,
                ku,
                subst (λ b. if b then done ≡ db else Proved now token v u db done) (sym n) proved,
              ))
            (λ _. refl))
    ]
