-- ===== src/Admin/Sessions.antt =====
-- A change of password ends the sessions of the account, and no other.
use mathlib.Core.Option
use mathlib.Core.Path.{subst}
use vgate_manager.Prelude.{
  ℕ, ◌≡◌, refl, ap, ◌∙◌, String, true, not, some, ◌==◌, arith, eqb, Bool-cases, inl, inr,
  if◌then◌else◌,
}
use vgate_manager.Db.Table.{first, update, first-update}
use vgate_manager.Db.Action.{
  Result, ok, err, record_not_found, invalid_credentials, weak_password, hash_failed,
  refresh_token_expired, OnSuccess, require-cases, fail_if-cases, ◌>>=◌,
}
use vgate_manager.Model.Admin.{RefreshToken, Office}
use vgate_manager.Admin.{
  Crypto, Session, admin_by_id, revoke, hashed, rotate, change_checked, change_loaded,
  change_own_admin_password, token_by_id, refresh_admin,
}

module _ (c : Crypto) (d : Session) where
  abbrev Revoked : ℕ → Office → Result (Unit {0}) × Office → Type 0
  Revoked id s x =
      x.1.refresh_tokens ≡ update (λ (t : RefreshToken). eqb t.admin_id id) revoke s.refresh_tokens

  change-Revoked :
      (id : ℕ) (old_pwd new_pwd : String) (s : Office)
      → OnSuccess (Revoked id s) (change_own_admin_password c d id old_pwd new_pwd s)
  unfolding change_own_admin_password
  change-Revoked id old_pwd new_pwd s =
      require-cases (OnSuccess (Revoked id s)) record_not_found (admin_by_id id)
        (change_loaded c d id old_pwd new_pwd) s
        (λ a _.
          fail_if-cases (OnSuccess (Revoked id s)) (not (c.compare_hash a.password_hash old_pwd))
            invalid_credentials (change_checked c d id new_pwd) s
            (λ _.
              fail_if-cases (OnSuccess (Revoked id s)) (not (c.policy new_pwd)) weak_password
                (hashed c d new_pwd >>= rotate c d id) s
                (λ _.
                  require-cases (OnSuccess (Revoked id s)) hash_failed
                    (λ _. c.hash_password new_pwd) (rotate c d id) s (λ _ _. refl) (λ _. tt))
                (λ _. tt))
            (λ _. tt))
        (λ _. tt)

  revoked_token :
      (token : String) (s : Office) (r : RefreshToken)
      → r.revoked ≡ true
      → token_by_id c d token s ≡ some r
      → refresh_admin c d token s ≡ (err refresh_token_expired, s)
  unfolding refresh_admin
  revoked_token token s r e row = ground arith

  -- After an account's change of its own password, no refresh token that the account had is good for a
  -- new access token, and the tokens of other accounts are as they were.
  pub refresh_admin-change_own_admin_password :
      (id : ℕ) (old_pwd new_pwd token : String) (s s' : Office) (t : RefreshToken)
      → change_own_admin_password c d id old_pwd new_pwd s ≡ (ok tt, s')
      → token_by_id c d token s ≡ some t
      → if eqb t.admin_id id
        then refresh_admin c d token s' ≡ (err refresh_token_expired, s')
        else token_by_id c d token s' ≡ some t
  refresh_admin-change_own_admin_password id old_pwd new_pwd token s s' t done found =
      let kept : Revoked id s (ok tt, s') =
        subst (OnSuccess (Revoked id s)) done (change-Revoked id old_pwd new_pwd s) in
      let row : token_by_id c d token s' ≡ some (if eqb t.admin_id id then revoke t else t) =
        ap (first (λ (r : RefreshToken). r.id == token)) kept
        ∙ first-update (λ (r : RefreshToken). r.id == token) (λ r. eqb r.admin_id id) revoke
            s.refresh_tokens (λ _ _. refl)
        ∙ ap (Option.map (λ (r : RefreshToken). if eqb r.admin_id id then revoke r else r)) found in
      elim (Bool-cases (eqb t.admin_id id)) [
        | inl e ↦ rw e (revoked_token token s' (revoke t) refl (rw e at row))
        | inr n ↦ rw n (rw n at row)
      ]
