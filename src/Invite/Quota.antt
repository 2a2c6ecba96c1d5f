-- ===== src/Invite/Quota.antt =====
-- What a user may issue is bounded by the quota, and a registration uses a code within its limit.
use mathlib.Core.Path.{subst}
use vgate_manager.Prelude.{
  ◌≡◌, refl, String, Bool, false, Option, some, List, [], ◌∷◌, arith, ◌==◌, eq_refl, ltb_ℤ, leb_ℤ,
  if◌then◌else◌, ◌||◌,
}
use vgate_manager.Prelude.Int.{ℤ, pos, ◌+ℤ◌, ◌≤ℤ◌, Fits, add64, add64_lem, int_laws}
use vgate_manager.Db.Table.{insert}
use vgate_manager.Db.Action.{
  Result, ok, OnSuccess, require-cases, fail_if-cases, create-cases, pure, ◌>>=◌, ◌>>◌, fail_if,
  record_not_found, invite_disabled, invite_quota_exceeded,
}
use vgate_manager.Model.Time.{Time}
use vgate_manager.Model.User.{User}
use vgate_manager.Model.Code.{InviteCode}
use vgate_manager.Model.Database.{Database, user_by_id, exists}
use vgate_manager.Invite.{
  issued_capacity, effective_quota, owned_by, sum_of, create_within, create_invite, new_invite,
  at_least_one, create_for_user,
}

-- The capacity that a user has issued.
abbrev pub issued : String → Database → ℤ
issued user_id db = sum_of (λ (c : InviteCode). c.max_uses) user_id db.invite_codes

sum_of-insert :
    (column : InviteCode → ℤ) (v : String) (c : InviteCode) (l : List InviteCode)
    → sum_of column v (insert c l) ≡ sum_of column v l +ℤ (if owned_by v c then column c else pos 0)
unfolding sum_of insert
sum_of-insert column v c [] = omega int_laws
sum_of-insert column v c (x ∷ l) = rw (sum_of-insert column v c l) (omega int_laws)

-- What a code that is minted for a user has done to what the users have issued.
pub record Issued (default_quota : ℤ) (user_id : String) (amount : ℤ) (db db' : Database)
    : Type 0 where
  pub total : issued user_id db' ≡ issued user_id db +ℤ amount
  pub others : (v : String) → (user_id == v) ≡ false → issued v db' ≡ issued v db
  pub within :
      (u : User)
      → user_by_id user_id db.users ≡ some u
      → issued user_id db' ≤ℤ effective_quota default_quota u

-- A code that a user mints is within the quota, and counts for this user only, if what was issued
-- and the new limit do not overflow.
pub create_for_user-Issued :
    (default_quota : ℤ) (id code user_id : String) (max_uses : ℤ) (expires_at : Option Time)
    (db : Database) {db' : Database} {c : InviteCode}
    → Fits (issued user_id db +ℤ at_least_one max_uses)
    → create_for_user default_quota id code user_id max_uses expires_at db ≡ (ok c, db')
    → Issued default_quota user_id (at_least_one max_uses) db db'
unfolding create_for_user
create_for_user-Issued default_quota id code user_id max_uses expires_at db {db'} {c} fits h =
    subst (OnSuccess Q) h (
      require-cases (OnSuccess Q) record_not_found (λ d. user_by_id user_id d.users)
        (create_within default_quota id code user_id (at_least_one max_uses) expires_at) db
        (λ u e. minted u e) (λ _. tt))
  where
    amount : ℤ
    amount = at_least_one max_uses

    row : InviteCode
    row = new_invite id code (some user_id) amount expires_at

    Q : Result InviteCode × Database → Type 0
    Q x = Issued default_quota user_id amount db x.1

    added :
        (u : User)
        → user_by_id user_id db.users ≡ some u
        → ltb_ℤ (effective_quota default_quota u) (add64 (issued user_id db) amount) ≡ false
        → Issued default_quota user_id amount db
            (record db { invite_codes = insert row db.invite_codes })
    added u e room = record {
      total =
          rw
            (
              sum_of-insert (λ (c : InviteCode). c.max_uses) user_id row db.invite_codes,
              eq_refl user_id,
            )
            refl;
      others = λ v ne.
          rw (sum_of-insert (λ (c : InviteCode). c.max_uses) v row db.invite_codes, ne)
            (omega int_laws);
      within = λ u' e'.
          let exact : add64 (issued user_id db) amount ≡ issued user_id db +ℤ amount =
            add64_lem (issued user_id db) amount fits in
          let enough = rw exact at room in
          let bound : issued user_id db +ℤ amount ≤ℤ effective_quota default_quota u =
            ground arith in
          let same : u ≡ u' = ground arith in
          subst
            (λ w.
              issued user_id (record db { invite_codes = insert row db.invite_codes })
              ≤ℤ effective_quota default_quota w)
            same
            (rw
              (
                sum_of-insert (λ (c : InviteCode). c.max_uses) user_id row db.invite_codes,
                eq_refl user_id,
              )
              bound);
    }

    minted :
        (u : User)
        → user_by_id user_id db.users ≡ some u
        → OnSuccess Q (create_within default_quota id code user_id amount expires_at u db)
    minted u e =
        let quota = effective_quota default_quota u in
        let clash : Database → Bool =
          λ d. exists (λ (d : InviteCode). d.id == row.id || d.code == row.code) d.invite_codes in
        let add : Database → Database =
          λ d. record d { invite_codes = insert row d.invite_codes } in
        fail_if-cases (OnSuccess Q) (leb_ℤ quota (pos 0)) invite_disabled
          (issued_capacity user_id >>= λ total.
            fail_if (ltb_ℤ quota (add64 total amount)) invite_quota_exceeded >> create_invite row)
          db
          (λ _.
            fail_if-cases (OnSuccess Q) (ltb_ℤ quota (add64 (issued user_id db) amount))
              invite_quota_exceeded (create_invite row) db
              (λ room.
                create-cases (OnSuccess Q) clash add (pure row) db (λ _. added u e room) (λ _. tt))
              (λ _. tt))
          (λ _. tt)
