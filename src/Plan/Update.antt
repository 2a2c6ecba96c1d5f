-- ===== src/Plan/Update.antt =====
-- What `PlanService.Update` changes: the plan, and the users who are on it.
use mathlib.Core.Option
use vgate_manager.Prelude.{
  ◌≡◌, refl, ap, ◌∙◌, String, true, false, some, none, arith, ◌==◌, eq_iff, eq_refl, Bool-cases,
  Option-cases, inl, inr, if◌then◌else◌,
}
use vgate_manager.Db.Table.{first-holds, first-insert, first-update, insert, update}
use vgate_manager.Db.Action.{ok}
use vgate_manager.Model.User.{User}
use vgate_manager.Model.Product.{Plan}
use vgate_manager.Model.Database.{Database, user_by_id}
use vgate_manager.Plan.{plan_by_id, save_plan, update_plan, with_speed}

pub record Updated (p : Plan) (db db' : Database) : Type 0 where
  pub plans : (k : String) → plan_by_id k db' ≡ (if k == p.id then some p else plan_by_id k db)
  pub users :
      (v : String)
      → user_by_id v db'.users
        ≡ Option.map
            (λ u.
              if u.current_product_id == p.id
              then record u {
                speed_limit_up_bps = p.speed_limit_up_bps;
                speed_limit_down_bps = p.speed_limit_down_bps;
              }
              else u)
            (user_by_id v db.users)

inserted :
    (p : Plan) (db : Database) (k : String)
    → plan_by_id p.id db ≡ none
    → (elim (plan_by_id k db) [ some b ↦ some b | none ↦ (if p.id == k then some p else none) ])
      ≡ (if k == p.id then some p else plan_by_id k db)
inserted p db k n = elim (Bool-cases (k == p.id)) [
  | inl t ↦
      let same : k ≡ p.id = (eq_iff k p.id).0 t in
      let absent : plan_by_id k db ≡ none = ap (λ x. plan_by_id x db) same ∙ n in
      let turn : (p.id == k) ≡ true = rw same (eq_refl p.id) in rw (absent, t, turn) refl
  | inr f ↦
      let turn : (p.id == k) ≡ false = ground (arith, eq_iff p.id k, eq_iff k p.id) in
      elim (Option-cases (plan_by_id k db)) [
        | inl m ↦ rw (m, f, turn) refl
        | inr (a, m) ↦ rw (m, f) refl
      ]
]

replaced :
    (p : Plan) (db : Database) (k : String) (q : Plan)
    → plan_by_id p.id db ≡ some q
    → Option.map (λ a. if a.id == p.id then p else a) (plan_by_id k db)
      ≡ (if k == p.id then some p else plan_by_id k db)
replaced p db k q e = elim (Bool-cases (k == p.id)) [
  | inl t ↦
      let same : k ≡ p.id = (eq_iff k p.id).0 t in
      let found : plan_by_id k db ≡ some q = ap (λ x. plan_by_id x db) same ∙ e in
      let key = first-holds (λ (a : Plan). a.id == p.id) db.plans e in rw (found, t, key) refl
  | inr f ↦ elim (Option-cases (plan_by_id k db)) [
    | inl m ↦ rw (m, f) refl
    | inr (a, m) ↦
        let same : a.id ≡ k =
          (eq_iff a.id k).0 (first-holds (λ (b : Plan). b.id == k) db.plans m) in
        let apart : (a.id == p.id) ≡ false = ap (λ x. x == p.id) same ∙ f in rw (m, f, apart) refl
  ]
]

users-save_plan : (p : Plan) (db : Database) → (save_plan p db).users ≡ db.users
unfolding save_plan
users-save_plan p db = ground arith

plan_by_id-save_plan :
    (p : Plan) (db : Database) (k : String)
    → plan_by_id k (save_plan p db) ≡ (if k == p.id then some p else plan_by_id k db)
unfolding save_plan
plan_by_id-save_plan p db k = elim (Option-cases (plan_by_id p.id db)) [
  | inl n ↦
      let run : save_plan p db ≡ record db { plans = insert p db.plans } = ground arith in
      ap (plan_by_id k) run ∙ first-insert (λ (q : Plan). q.id == k) p db.plans ∙ inserted p db k n
  | inr (q, e) ↦
      let run : save_plan p db
          ≡ record db { plans = update (λ (q : Plan). q.id == p.id) (λ _. p) db.plans } =
        ground arith in
      ap (plan_by_id k) run
      ∙ first-update (λ (q : Plan). q.id == k) (λ (q : Plan). q.id == p.id) (λ _. p) db.plans
          (λ a t. ground (arith, eq_iff a.id p.id))
      ∙ replaced p db k q e
]

-- An update of a plan, or of one that is not there yet, succeeds: the plan is stored as it was sent
-- and no other is touched, and of the users exactly those who are on it get its speed limits, and
-- nothing else of them changes.
pub update_plan-Updated :
    (p : Plan) (db : Database) → ((update_plan p db).0 ≡ ok tt) × Updated p db (update_plan p db).1
unfolding update_plan
update_plan-Updated p db = (
  refl,
  record {
    plans = λ k. plan_by_id-save_plan p db k;
    users = λ v.
        ap
          (λ l. user_by_id v (update (λ (u : User). u.current_product_id == p.id) (with_speed p) l))
          (users-save_plan p db)
        ∙ first-update (λ (u : User). u.id == v) (λ (u : User). u.current_product_id == p.id)
            (with_speed p) db.users (λ _ _. refl);
  },
)
