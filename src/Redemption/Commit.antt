-- ===== src/Redemption/Commit.antt =====
-- The two parts of `Redeem`: what its check has found, and what its commit has written.
use mathlib.Core.Path.{subst}
use vgate_manager.Prelude.{
  ◌≡◌, refl, sym, ap, ◌∙◌, String, false, Option, none, some, arith, ◌==◌, ltb, eqb, ◌&&◌, ◌||◌,
  Bool-cases, Option-cases, inl, inr,
}
use vgate_manager.Prelude.Int.{pos, add64}
use vgate_manager.Prelude.Float.{Float64}
use vgate_manager.Db.Table.{insert, update, count}
use vgate_manager.Db.Action.{
  Result, ok, err, OnSuccess, on_success, transaction_ok, pure, require, ◌>>=◌, ◌>>◌, bind-cases,
  require-cases, create-cases, fail_if-cases, code_exhausted, already_redeemed, record_not_found,
  invalid_code, gets, fail_if,
}
use vgate_manager.Model.User.{User}
use vgate_manager.Model.Product.{Plan}
use vgate_manager.Model.Time.{Time}
use vgate_manager.Model.Code.{
  RedeemType, traffic, duration, plan, other, RedemptionCode, RedemptionRecord,
  exhausted_redemption,
}
use vgate_manager.Model.Database.{Database, Db, user_by_id, exists}
use vgate_manager.Plan.{load_enabled_plan, plan_by_id}
use vgate_manager.Order.Defs.{Env}
use vgate_manager.Order.Effect.{apply_plan_effect}
use vgate_manager.Redemption.{
  benefit_of, apply_benefit, record_of, create_record, with_used, consume, redeem_for,
  redeem_commit, resolve_plan, code_by_text, redeemed_by, redeem_check,
}

module _ (f : Float64) (env : Env) where
  codes-benefit_of :
      (k : RedeemType) (u : User) (c : RedemptionCode) (p : Option Plan) (db : Database)
      → (benefit_of f env k u c p db).1.redemption_codes ≡ db.redemption_codes
  unfolding apply_plan_effect
  codes-benefit_of traffic u c p db = ground arith
  codes-benefit_of duration u c p db = refl
  codes-benefit_of plan u c none db = refl
  codes-benefit_of plan u c (some p) db = refl
  codes-benefit_of other u c p db = refl

  records-benefit_of :
      (k : RedeemType) (u : User) (c : RedemptionCode) (p : Option Plan) (db : Database)
      → (benefit_of f env k u c p db).1.redemption_records ≡ db.redemption_records
  unfolding apply_plan_effect
  records-benefit_of traffic u c p db = ground arith
  records-benefit_of duration u c p db = refl
  records-benefit_of plan u c none db = refl
  records-benefit_of plan u c (some p) db = refl
  records-benefit_of other u c p db = refl

  -- What a redemption that is committed has written: one record, and the count that was read plus
  -- one, in a row that was there.
  pub record Committed (record_id user_id : String) (c : RedemptionCode) (db db' : Database)
      : Type 0 where
    pub records :
        db'.redemption_records ≡ insert (record_of f env record_id user_id c) db.redemption_records
    pub codes :
        db'.redemption_codes
        ≡ update
            (λ (d : RedemptionCode). d.id == c.id)
            (with_used f env (add64 c.used_count (pos 1)))
            db.redemption_codes
    pub row : eqb (count (λ (d : RedemptionCode). d.id == c.id) db.redemption_codes) 0 ≡ false

  -- The update of the code's row succeeds if there is one.
  consumed : RedemptionCode → Database → Database
  consumed c db = record db {
    redemption_codes =
        update (λ (d : RedemptionCode). d.id == c.id) (with_used f env (add64 c.used_count (pos 1)))
          db.redemption_codes;
  }

  consume_lem :
      (c : RedemptionCode) (db : Database)
      → OnSuccess
          (λ x.
            (x.1 ≡ consumed c db)
            × (eqb (count (λ (d : RedemptionCode). d.id == c.id) db.redemption_codes) 0 ≡ false))
          (consume f env c db)
  unfolding consumed
  consume_lem c db =
      elim (Bool-cases (eqb (count (λ (d : RedemptionCode). d.id == c.id) db.redemption_codes) 0)) [
        | inl t ↦ rw t tt
        | inr u ↦ rw u (refl, refl)
      ]

  -- The record and the count, after the benefit was applied.
  record_and_consume :
      (record_id user_id : String) (c : RedemptionCode) (db t : Database)
      → t.redemption_codes ≡ db.redemption_codes
      → t.redemption_records ≡ db.redemption_records
      → OnSuccess
          (λ x. Committed record_id user_id c db x.1)
          ((create_record f env (record_of f env record_id user_id c)
              >> (consume f env c >> pure (record_of f env record_id user_id c)))
            t)
  unfolding consumed
  record_and_consume record_id user_id c db t same_codes same_records =
      let S : Result RedemptionRecord × Database → Type 0 =
        OnSuccess (λ x. Committed record_id user_id c db x.1) in
      let r = record_of f env record_id user_id c in
      let written : Database = record t { redemption_records = insert r t.redemption_records } in
      create-cases S
        (λ d.
          exists
            (λ (s : RedemptionRecord).
              s.id == r.id || (s.code_id == r.code_id && s.user_id == r.user_id))
            d.redemption_records)
        (λ d. record d { redemption_records = insert r d.redemption_records })
        (consume f env c >> pure r) t
        (λ _.
          bind-cases S (consume f env c) (λ _. pure r) written
            (λ _ x e.
              let (here, row) =
                subst
                  (OnSuccess (λ y.
                    (y.1 ≡ consumed c written)
                    × (eqb (count (λ (d : RedemptionCode). d.id == c.id) written.redemption_codes) 0
                        ≡ false)))
                  e (consume_lem c written) in
              record {
                records = ap (λ d. d.redemption_records) here ∙ ap (insert r) same_records;
                codes =
                    ap (λ d. d.redemption_codes) here
                    ∙ ap
                        (update (λ (d : RedemptionCode). d.id == c.id)
                          (with_used f env (add64 c.used_count (pos 1))))
                        same_codes;
                row =
                    ap (λ l. eqb (count (λ (d : RedemptionCode). d.id == c.id) l) 0)
                      (sym same_codes)
                    ∙ row;
              })
            (λ _ _ _. tt))
        (λ _. tt)

  redeem_for-Committed :
      (record_id user_id : String) (c : RedemptionCode) (p : Option Plan) (u : User) (db : Database)
      → OnSuccess
          (λ x. Committed record_id user_id c db x.1)
          (redeem_for f env record_id user_id c p u db)
  unfolding apply_benefit
  redeem_for-Committed record_id user_id c p u db =
      let r = record_of f env record_id user_id c in
      bind-cases (OnSuccess (λ x. Committed record_id user_id c db x.1))
        (benefit_of f env c.type u c p) (λ _. create_record f env r >> (consume f env c >> pure r))
        db
        (λ _ t e.
          record_and_consume record_id user_id c db t
            (ap (λ x. x.1.redemption_codes) (sym e) ∙ codes-benefit_of c.type u c p db)
            (ap (λ x. x.1.redemption_records) (sym e) ∙ records-benefit_of c.type u c p db))
        (λ _ _ _. tt)

  redeem_commit_lem :
      (record_id user_id : String) (c : RedemptionCode) (p : Option Plan) (db : Database)
      → OnSuccess
          (λ x. Committed record_id user_id c db x.1)
          (redeem_commit f env record_id user_id (c, p) db)
  unfolding redeem_commit
  redeem_commit_lem record_id user_id c p db =
      let S : Result RedemptionRecord × Database → Type 0 =
        OnSuccess (λ x. Committed record_id user_id c db x.1) in
      let m =
        require record_not_found (λ d. user_by_id user_id d.users)
        >>= redeem_for f env record_id user_id c p in
      transaction_ok S m db
        (on_success S (m db) λ _ _ e. subst S e (
          require-cases S record_not_found (λ d. user_by_id user_id d.users)
            (redeem_for f env record_id user_id c p) db
            (λ u _. redeem_for-Committed record_id user_id c p u db) (λ _. tt)))
        (λ _. tt)

  -- A commit that succeeds, whatever has happened since the code was read.
  pub redeem_commit-Committed :
      (record_id user_id : String) (c : RedemptionCode) (p : Option Plan) (db : Database)
      {db' : Database} {r : RedemptionRecord}
      → redeem_commit f env record_id user_id (c, p) db ≡ (ok r, db')
      → Committed record_id user_id c db db'
  redeem_commit-Committed record_id user_id c p db {db'} {r} h =
      subst (OnSuccess (λ x. Committed record_id user_id c db x.1)) h
        (redeem_commit_lem record_id user_id c p db)

-- What the check of a redemption that goes on to its commit has found.
pub record Checked (now : Time) (user_id raw_code : String) (db : Database) (c : RedemptionCode)
    : Type 0 where
  pub given : (raw_code == "") ≡ false
  pub found : code_by_text raw_code db ≡ some c
  pub usable : exhausted_redemption c now ≡ false
  pub unused : count (redeemed_by user_id c) db.redemption_records ≡ 0

resolve_plan_reads :
    (k : RedeemType) (c : RedemptionCode) (db : Database) → (resolve_plan k c db).1 ≡ db
unfolding load_enabled_plan
resolve_plan_reads plan c db = elim (Option-cases (plan_by_id c.plan_id db)) [
  | inl n ↦ ground arith
  | inr (p, e) ↦ ground arith
]
resolve_plan_reads traffic c db = refl
resolve_plan_reads duration c db = refl
resolve_plan_reads other c db = refl

abbrev pub Checking :
    Time → String → String → Database → Result (RedemptionCode × Option Plan) × Database → Type 0
Checking now user_id raw_code db (ok (c, _), t) = Checked now user_id raw_code db c × (t ≡ db)
Checking now user_id raw_code db (err _, t) = t ≡ db

pub redeem_check-Checking :
    (now : Time) (user_id raw_code : String) (db : Database)
    → Checking now user_id raw_code db (redeem_check now user_id raw_code db)
unfolding redeem_check
redeem_check-Checking now user_id raw_code db =
    fail_if-cases C (raw_code == "") invalid_code
      (require invalid_code (code_by_text raw_code) >>= usable) db
      (λ given.
        require-cases C invalid_code (code_by_text raw_code) usable db (λ c e. of_usable given c e)
          (λ _. refl))
      (λ _. refl)
  where
    C : Result (RedemptionCode × Option Plan) × Database → Type 0
    C = Checking now user_id raw_code db

    resolve : RedemptionCode → Db (RedemptionCode × Option Plan)
    resolve c = resolve_plan c.type c >>= λ p. pure (c, p)

    unused : RedemptionCode → Db (RedemptionCode × Option Plan)
    unused c = gets (λ d. count (redeemed_by user_id c) d.redemption_records) >>= λ n.
        fail_if (ltb 0 n) already_redeemed >> resolve c

    usable : RedemptionCode → Db (RedemptionCode × Option Plan)
    usable c = fail_if (exhausted_redemption c now) code_exhausted >> unused c

    of_usable :
        (raw_code == "") ≡ false
        → (c : RedemptionCode) → code_by_text raw_code db ≡ some c
        → C (usable c db)
    of_usable given c e =
        fail_if-cases C (exhausted_redemption c now) code_exhausted (unused c) db
          (λ fresh.
            fail_if-cases C (ltb 0 (count (redeemed_by user_id c) db.redemption_records))
              already_redeemed (resolve c) db
              (λ none.
                bind-cases C (resolve_plan c.type c) (λ p. pure (c, p)) db
                  (λ _ t k. (
                    record { given = given; found = e; usable = fresh; unused = ground arith },
                    ap (λ x. x.1) (sym k) ∙ resolve_plan_reads c.type c db,
                  ))
                  (λ _ t k. ap (λ x. x.1) (sym k) ∙ resolve_plan_reads c.type c db))
              (λ _. refl))
          (λ _. refl)
