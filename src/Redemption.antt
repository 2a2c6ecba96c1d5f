-- ===== src/Redemption.antt =====
-- internal/service/redemption.go: codes that admins hand out, and what a user gets for one.
pub mod Commit
pub mod Once
pub mod Race
use vgate_manager.Prelude.{
  ℕ, zero, suc, String, Bool, true, false, not, ◌&&◌, ◌||◌, Option, none, some, List, [], ◌∷◌, ◌==◌,
  ltb, eqb, ltb_ℤ, leb_ℤ, if◌then◌else◌,
}
use vgate_manager.Prelude.Int.{ℤ, pos, add64}
use vgate_manager.Prelude.Float.{Float64}
use vgate_manager.Db.Table.{first, insert, update, delete, count}
use vgate_manager.Db.Action.{
  Error, ok, err, record_not_found, invalid_code, code_exhausted, already_redeemed,
  invalid_redeem_type, code_changed, bad_parameter, plan_not_found, duplicated_key, pure, fail,
  gets, require, create, transaction, ◌>>=◌, ◌>>◌, fail_if, modify,
}
use vgate_manager.Model.Time.{Time, add_days}
use vgate_manager.Model.User.{User}
use vgate_manager.Model.Product.{Plan, PlanPriceEntry}
use vgate_manager.Model.Grant.{Source}
use vgate_manager.Model.Code.{
  RedeemType, traffic, duration, plan, other, RedemptionCode, RedemptionRecord,
  exhausted_redemption,
}
use vgate_manager.Model.Database.{Database, Db, user_by_id, update_user, exists}
use vgate_manager.Plan.{load_enabled_plan}
use vgate_manager.Order.Defs.{Env}
use vgate_manager.Order.Effect.{default_base, create_grant, apply_plan_effect}

-- `validRedeemType`
abbrev pub valid_redeem_type : RedeemType → Bool
valid_redeem_type other = false
valid_redeem_type _ = true

-- `AdminGenerateRedemptionRequest`
pub record Request : Type 0 where
  pub type : RedeemType
  pub max_uses : ℤ
  pub quota_bytes : ℤ
  pub duration_days : ℤ
  pub plan_id : String
  pub expires_at : Option Time

-- The check of the parameter that the type needs.
abbrev check_request : RedeemType → Request → Db Unit
check_request traffic req = fail_if (leb_ℤ req.quota_bytes (pos 0)) bad_parameter
check_request duration req = fail_if (leb_ℤ req.duration_days (pos 0)) bad_parameter
check_request plan req = do
  fail_if (req.plan_id == "") bad_parameter
  load_enabled_plan req.plan_id
  pure tt
check_request other req = pure tt

-- `buildCode`
pub build_code : String → String → Request → RedemptionCode
build_code id code req = record {
  id = id;
  code = code;
  type = req.type;
  max_uses = req.max_uses;
  used_count = pos 0;
  expires_at = req.expires_at;
  quota_bytes = req.quota_bytes;
  duration_days = req.duration_days;
  plan_id = req.plan_id;
}

create_code : RedemptionCode → Db Unit
create_code c =
    create
      (λ db. exists (λ (d : RedemptionCode). d.id == c.id || d.code == c.code) db.redemption_codes)
      (λ db. record db { redemption_codes = insert c db.redemption_codes })

-- The attempts to create a code, of which `n` are left: each takes the next of the texts drawn.
pub attempt_code : ℕ → RedemptionCode → (ℕ → String) → Error → Db RedemptionCode
unfolding create_code
attempt_code zero c texts last db = (err last, db)
attempt_code (suc n) c texts last db =
    let next = record c { code = texts n } in
    let (r, t) = create_code next db in
    elim r [ ok _ ↦ (ok next, t) | err e ↦ attempt_code n c texts e t ]

-- The loop that mints `n` codes: `ids n` and `texts n` are what is drawn for one of them.
mint : Request → (ℕ → String) → (ℕ → ℕ → String) → ℕ → Db (List RedemptionCode)
unfolding attempt_code build_code
mint req ids texts zero = pure []
mint req ids texts (suc n) = do
  code ← attempt_code 5 (build_code (ids n) "" req) (texts n) duplicated_key
  codes ← mint req ids texts n
  pure (code ∷ codes)

-- `BatchGenerate`
pub batch_generate : Request → ℕ → (ℕ → String) → (ℕ → ℕ → String) → Db (List RedemptionCode)
unfolding mint
batch_generate req amount ids texts = do
  fail_if (not (valid_redeem_type req.type)) invalid_redeem_type
  let more = record req { max_uses = if ltb_ℤ req.max_uses (pos 1) then pos 1 else req.max_uses }
  check_request req.type more
  mint more ids texts (if ltb amount 1 then 1 else amount)

-- `planDurationDays`: the longest enabled period.
pub longest_period : ℤ → List PlanPriceEntry → ℤ
longest_period best [] = best
longest_period best (p ∷ l) =
    longest_period (if p.enabled && ltb_ℤ best p.duration_days then p.duration_days else best) l

unfoldable pub plan_duration_days : Plan → ℤ
unfolding longest_period
plan_duration_days p =
    let best = longest_period (pos 0) p.prices in if leb_ℤ best (pos 0) then pos 30 else best

-- `DeleteAdmin`
pub delete_redemption : String → Db Unit
delete_redemption id = modify λ db. record db {
  redemption_codes = delete (λ (c : RedemptionCode). c.id == id) db.redemption_codes;
}

module _ (f : Float64) (env : Env) where
  -- `applyBenefit`, for a code of a given type; the message to the user is not modelled.
  abbrev pub benefit_of : RedeemType → User → RedemptionCode → Option Plan → Db Unit
  benefit_of traffic user code pl = do
    modify (
        update_user user.id λ _. record user {
          traffic_quota_bytes = add64 user.traffic_quota_bytes code.quota_bytes;
          quota_reset_enabled = false;
        })
    create_grant (record {
      id = env.grant_id;
      user_id = user.id;
      source = Source.redemption;
      source_id = code.id;
      name = code.code;
      quota_bytes = code.quota_bytes;
      used_bytes = pos 0;
      granted_at = env.now;
    })
  benefit_of duration user code pl = modify (
      update_user user.id λ _. record user {
        expire_at = some (add_days (default_base user.expire_at env.now) code.duration_days);
        enabled = true;
      })
  benefit_of plan user code none = fail plan_not_found
  benefit_of plan user code (some p) =
      apply_plan_effect f env user p (plan_duration_days p) (pos 0)
        (default_base user.expire_at env.now)
  benefit_of other user code pl = fail invalid_redeem_type

  unfoldable pub apply_benefit : User → RedemptionCode → Option Plan → Db Unit
  apply_benefit user code pl = benefit_of code.type user code pl

  abbrev pub record_of : String → String → RedemptionCode → RedemptionRecord
  record_of id user_id code = record {
    id = id;
    code_id = code.id;
    user_id = user_id;
    type = code.type;
    redeemed_at = env.now;
  }

  -- `tx.Create(rec)`: a user has one record of a code at most.
  abbrev pub create_record : RedemptionRecord → Db Unit
  create_record r =
      create
        (λ db.
          exists
            (λ (s : RedemptionRecord).
              s.id == r.id || (s.code_id == r.code_id && s.user_id == r.user_id))
            db.redemption_records)
        (λ db. record db { redemption_records = insert r db.redemption_records })

  abbrev pub with_used : ℤ → RedemptionCode → RedemptionCode
  with_used n c = record c { used_count = n }

  -- The update of the code's row: it writes what was read before, plus one.
  abbrev pub consume : RedemptionCode → Db Unit
  consume code = do
    affected ← gets (λ db. count (λ (c : RedemptionCode). c.id == code.id) db.redemption_codes)
    modify λ db. record db {
      redemption_codes =
          update (λ (c : RedemptionCode). c.id == code.id)
            (with_used (add64 code.used_count (pos 1))) db.redemption_codes;
    }
    fail_if (eqb affected 0) code_changed

  -- The transaction of `Redeem`, for the code and the plan that were read before it.
  abbrev pub redeem_for :
      String → String → RedemptionCode → Option Plan → User → Db RedemptionRecord
  redeem_for record_id user_id code pl user = do
    apply_benefit user code pl
    create_record (record_of record_id user_id code)
    consume code
    pure (record_of record_id user_id code)

  unfoldable pub redeem_commit :
      String → String → RedemptionCode × Option Plan → Db RedemptionRecord
  redeem_commit record_id user_id (code, pl) = transaction (
      require record_not_found (λ db. user_by_id user_id db.users)
      >>= redeem_for record_id user_id code pl)

-- The plan of a code of type plan.
abbrev pub resolve_plan : RedeemType → RedemptionCode → Db (Option Plan)
resolve_plan plan code = do p ← load_enabled_plan code.plan_id; pure (some p)
resolve_plan _ code = pure none

abbrev pub code_by_text : String → Database → Option RedemptionCode
code_by_text text db = first (λ (c : RedemptionCode). c.code == text) db.redemption_codes

abbrev pub redeemed_by : String → RedemptionCode → RedemptionRecord → Bool
redeemed_by user_id code r = r.code_id == code.id && r.user_id == user_id

-- What `Redeem` reads before its transaction.
unfoldable pub redeem_check : Time → String → String → Db (RedemptionCode × Option Plan)
redeem_check now user_id raw_code = do
  fail_if (raw_code == "") invalid_code
  code ← require invalid_code (code_by_text raw_code)
  fail_if (exhausted_redemption code now) code_exhausted
  dup ← gets (λ db. count (redeemed_by user_id code) db.redemption_records)
  fail_if (ltb 0 dup) already_redeemed
  p ← resolve_plan code.type code
  pure (code, p)

-- `Redeem`; `record_id` is the id that is drawn for the record.
unfoldable pub redeem : Float64 → Env → String → String → String → Db RedemptionRecord
redeem f env record_id user_id raw_code = do
  found ← redeem_check env.now user_id raw_code
  redeem_commit f env record_id user_id found
