-- ===== src/Redemption/Race.antt =====
-- Two redemptions of a code whose checks have both read it before either is committed.
use mathlib.Core.Option
use vgate_manager.Prelude.{◌≡◌, refl, ◌∙◌, String, Bool, some, arith, ◌==◌, eq_refl, ◌+◌}
use vgate_manager.Prelude.Int.{pos, add64}
use vgate_manager.Prelude.Float.{Float64}
use vgate_manager.Db.Table.{count, first-update, count-insert}
use vgate_manager.Db.Action.{ok}
use vgate_manager.Model.Product.{Plan}
use vgate_manager.Model.Code.{RedemptionCode, RedemptionRecord}
use vgate_manager.Model.Database.{Database}
use vgate_manager.Order.Defs.{Env}
use vgate_manager.Redemption.{with_used, record_of, redeem_commit, code_by_text}
use vgate_manager.Redemption.Commit.{Committed, redeem_commit-Committed}

-- The records of a code.
abbrev pub of_code : RedemptionCode → RedemptionRecord → Bool
of_code c r = r.code_id == c.id

module _ (f : Float64) (env : Env) (record_id user_id : String) (c : RedemptionCode)
    (db db' : Database) (w : Committed f env record_id user_id c db db') where
  -- A commit adds one record of the code,
  count-Committed :
      count (of_code c) db'.redemption_records ≡ count (of_code c) db.redemption_records + 1
  count-Committed =
      rw
        (
          w.records,
          count-insert (of_code c) (record_of f env record_id user_id c) db.redemption_records,
          eq_refl c.id,
        )
        (omega arith)

  -- and writes the count that was read plus one, whatever the row has now.
  used_count-Committed :
      (raw_code : String) (d : RedemptionCode)
      → code_by_text raw_code db ≡ some d
      → d.id ≡ c.id
      → code_by_text raw_code db' ≡ some (record d { used_count = add64 c.used_count (pos 1) })
  used_count-Committed raw_code d e same =
      rw
        (
          w.codes,
          first-update (λ (d : RedemptionCode). d.code == raw_code)
              (λ (d : RedemptionCode). d.id == c.id) (with_used f env (add64 c.used_count (pos 1)))
              db.redemption_codes (λ _ _. refl),
          e,
        )
        (rw (same, eq_refl c.id) refl)

-- Two redemptions that have read the same row of a code, and are then committed one after the other,
-- add two records of it, but its count is the one that was read plus one.
pub redeem_commit_race :
    (f : Float64) (env env' : Env) (id id' user_id user_id' raw_code : String) (c : RedemptionCode)
    (p p' : Option.Option Plan) (db : Database) {db1 db2 : Database} {r r' : RedemptionRecord}
    → code_by_text raw_code db ≡ some c
    → redeem_commit f env id user_id (c, p) db ≡ (ok r, db1)
    → redeem_commit f env' id' user_id' (c, p') db1 ≡ (ok r', db2)
    → (count (of_code c) db2.redemption_records ≡ count (of_code c) db.redemption_records + 2)
      × (code_by_text raw_code db2 ≡ some (record c { used_count = add64 c.used_count (pos 1) }))
redeem_commit_race f env env' id id' user_id user_id' raw_code c p p' db {db1} {db2} e h k =
    let one = redeem_commit-Committed f env id user_id c p db h in
    let two = redeem_commit-Committed f env' id' user_id' c p' db1 k in
    let first_count = count-Committed f env id user_id c db db1 one in
    let next_count = count-Committed f env' id' user_id' c db1 db2 two in
    (
      next_count ∙ omega (arith, first_count),
      used_count-Committed f env' id' user_id' c db1 db2 two raw_code
          (record c { used_count = add64 c.used_count (pos 1) })
          (used_count-Committed f env id user_id c db db1 one raw_code c e refl) refl,
    )
