-- ===== src/Redemption/Once.antt =====
-- A user redeems a code once, and each redemption is counted up to the limit.
use mathlib.Core.Path.{subst}
use vgate_manager.Prelude.{
  ◌≡◌, ◌≤◌, ◌⊎◌, refl, String, false, Option, some, arith, ◌==◌, eq_refl, Bool-cases, inl, inr,
}
use vgate_manager.Prelude.Int.{
  ℤ, pos, ◌+ℤ◌, ◌-ℤ◌, ◌≤ℤ◌, ◌<ℤ◌, Fits, add64, sub64, add64_lem, sub64_nonneg, int_laws,
}
use vgate_manager.Prelude.Float.{Float64}
use vgate_manager.Db.Table.{count, first-update, count-insert}
use vgate_manager.Db.Action.{
  Result, ok, err, bind-cases, bind_err, code_exhausted, already_redeemed, OnSuccess,
}
use vgate_manager.Model.Time.{Time}
use vgate_manager.Model.Product.{Plan}
use vgate_manager.Model.Code.{
  RedemptionCode, RedemptionRecord, exhausted_redemption, remaining_redemptions,
}
use vgate_manager.Model.Database.{Database}
use vgate_manager.Order.Defs.{Env}
use vgate_manager.Redemption.{
  record_of, with_used, redeem_commit, code_by_text, redeemed_by, redeem_check, redeem,
}
use vgate_manager.Redemption.Commit.{
  Checked, Checking, redeem_check-Checking, Committed, redeem_commit-Committed,
}

-- A redemption that succeeds has passed the check and committed.
redeemed :
    (f : Float64) (env : Env) (record_id user_id raw_code : String) (db : Database) {db' : Database}
    {r : RedemptionRecord}
    → redeem f env record_id user_id raw_code db ≡ (ok r, db')
    → (c : RedemptionCode) × Checked env.now user_id raw_code db c
      × Committed f env record_id user_id c db db'
unfolding redeem
redeemed f env record_id user_id raw_code db {db'} {r} h = subst P h (
    bind-cases P (redeem_check env.now user_id raw_code) (redeem_commit f env record_id user_id) db
      (λ a t e.
        let q : Checking env.now user_id raw_code db (ok a, t) =
          subst (Checking env.now user_id raw_code db) e
            (redeem_check-Checking env.now user_id raw_code db) in
        of_commit a t q)
      (λ _ _ _. tt))
  where
    P : Result RedemptionRecord × Database → Type 0
    P x =
        OnSuccess
          (λ y.
            (c : RedemptionCode) × Checked env.now user_id raw_code db c
            × Committed f env record_id user_id c db y.1)
          x

    of_commit :
        (a : RedemptionCode × Option Plan) (t : Database)
        → Checking env.now user_id raw_code db (ok a, t)
        → P (redeem_commit f env record_id user_id a t)
    of_commit (c, p) t (checked, same) =
        rw same (go (redeem_commit f env record_id user_id (c, p) db) refl)
      where
        go :
            (x : Result RedemptionRecord × Database)
            → redeem_commit f env record_id user_id (c, p) db ≡ x
            → P x
        go (ok _, u) e = (c, checked, redeem_commit-Committed f env record_id user_id c p db e)
        go (err _, _) e = tt

-- The code as it is found after its commit.
code_by_text-Committed :
    (f : Float64) (env : Env) (record_id user_id raw_code : String) (c : RedemptionCode)
    (db db' : Database)
    → code_by_text raw_code db ≡ some c
    → Committed f env record_id user_id c db db'
    → code_by_text raw_code db' ≡ some (record c { used_count = add64 c.used_count (pos 1) })
code_by_text-Committed f env record_id user_id raw_code c db db' e w =
    rw
      (
        w.codes,
        first-update (λ (d : RedemptionCode). d.code == raw_code)
            (λ (d : RedemptionCode). d.id == c.id) (with_used f env (add64 c.used_count (pos 1)))
            db.redemption_codes (λ _ _. refl),
        e,
      )
      (rw (eq_refl c.id) refl)

pub next-Fits : (n m : ℤ) → pos 0 ≤ℤ n → n +ℤ pos 1 ≤ℤ m → Fits m → Fits (n +ℤ pos 1)
unfolding ◌+ℤ◌
next-Fits n m p l f = ground arith

-- A code that is not exhausted has a use left, and its count can be raised.
use_left :
    (c : RedemptionCode) (now : Time)
    → pos 0 ≤ℤ c.used_count
    → pos 0 ≤ℤ c.max_uses
    → Fits c.used_count
    → Fits c.max_uses
    → exhausted_redemption c now ≡ false
    → (c.used_count +ℤ pos 1 ≤ℤ c.max_uses) × (add64 c.used_count (pos 1) ≡ c.used_count +ℤ pos 1)
unfolding exhausted_redemption remaining_redemptions
use_left c now nu nm fu fm usable =
    let left : sub64 c.max_uses c.used_count ≡ c.max_uses -ℤ c.used_count =
      sub64_nonneg c.max_uses c.used_count fm fu nm nu in
    let less : pos 0 <ℤ sub64 c.max_uses c.used_count = ground arith in
    let less' = rw left at less in
    let room : c.used_count +ℤ pos 1 ≤ℤ c.max_uses = omega int_laws in
    (room, add64_lem c.used_count (pos 1) (next-Fits c.used_count c.max_uses nu room fm))

-- A redemption that succeeds finds the code with a use left, and raises its count by one, to at
-- most the limit, if the count and the limit are int64 values that are not negative.
pub redeem-used_count :
    (f : Float64) (env : Env) (record_id user_id raw_code : String) (db : Database) {db' : Database}
    {r : RedemptionRecord}
    → ((c : RedemptionCode)
        → code_by_text raw_code db ≡ some c
        → (pos 0 ≤ℤ c.used_count) × (pos 0 ≤ℤ c.max_uses) × Fits c.used_count × Fits c.max_uses)
    → redeem f env record_id user_id raw_code db ≡ (ok r, db')
    → (c : RedemptionCode) × (code_by_text raw_code db ≡ some c)
      × (code_by_text raw_code db' ≡ some (record c { used_count = c.used_count +ℤ pos 1 }))
      × (c.used_count +ℤ pos 1 ≤ℤ c.max_uses)
redeem-used_count f env record_id user_id raw_code db {db'} {r} valid h =
    let (c, checked, done) = redeemed f env record_id user_id raw_code db h in
    let (nu, nm, fu, fm) = valid c checked.found in
    let (room, exact) = use_left c env.now nu nm fu fm checked.usable in
    (
      c,
      checked.found,
      subst (λ n. code_by_text raw_code db' ≡ some (record c { used_count = n })) exact
          (code_by_text-Committed f env record_id user_id raw_code c db db' checked.found done),
      room,
    )

-- The record of a commit is one of its user and its code.
redeemed_by-Committed :
    (f : Float64) (env : Env) (record_id user_id : String) (c : RedemptionCode) (db db' : Database)
    → Committed f env record_id user_id c db db'
    → 1 ≤ count (redeemed_by user_id c) db'.redemption_records
redeemed_by-Committed f env record_id user_id c db db' w =
    rw
      (
        w.records,
        count-insert (redeemed_by user_id c) (record_of f env record_id user_id c)
            db.redemption_records,
        eq_refl c.id,
        eq_refl user_id,
      )
      (omega arith)

-- What a user is told who redeems a code again.
abbrev pub Refused : Database → Result RedemptionRecord × Database → Type 0
Refused db x = (x ≡ (err code_exhausted, db)) ⊎ (x ≡ (err already_redeemed, db))

-- After a redemption, the same user's redemption of the same code, at any time, is refused and
-- changes nothing.
pub redeem_twice :
    (f : Float64) (env later : Env) (record_id next_id user_id raw_code : String) (db : Database)
    {db' : Database} {r : RedemptionRecord}
    → redeem f env record_id user_id raw_code db ≡ (ok r, db')
    → Refused db' (redeem f later next_id user_id raw_code db')
unfolding redeem redeem_check
redeem_twice f env later record_id next_id user_id raw_code db {db'} {r} h =
    let (c, checked, done) = redeemed f env record_id user_id raw_code db h in
    let there =
      code_by_text-Committed f env record_id user_id raw_code c db db' checked.found done in
    let some_record = redeemed_by-Committed f env record_id user_id c db db' done in
    elim (refused (record c { used_count = add64 c.used_count (pos 1) }) there checked.given
      some_record) [
        | inl e ↦ inl (
            bind_err (redeem_check later.now user_id raw_code)
              (redeem_commit f later next_id user_id) db' e)
        | inr e ↦ inr (
            bind_err (redeem_check later.now user_id raw_code)
              (redeem_commit f later next_id user_id) db' e)
      ]
  where
    refused :
        (c : RedemptionCode)
        → code_by_text raw_code db' ≡ some c
        → (raw_code == "") ≡ false
        → 1 ≤ count (redeemed_by user_id c) db'.redemption_records
        → (redeem_check later.now user_id raw_code db' ≡ (err code_exhausted, db'))
          ⊎ (redeem_check later.now user_id raw_code db' ≡ (err already_redeemed, db'))
    refused c e given n = elim (Bool-cases (exhausted_redemption c later.now)) [
      | inl t ↦ inl (ground arith)
      | inr u ↦ inr (ground arith)
    ]
