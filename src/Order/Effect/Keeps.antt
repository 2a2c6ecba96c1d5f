-- ===== src/Order/Effect/Keeps.antt =====
-- What the two ways of granting an order leave alone, `applyOrderEffect` leaves alone.
use vgate_manager.Prelude.{◌≡◌, refl, sym, ap, ◌∙◌, arith, some, if◌then◌else◌}
use vgate_manager.Prelude.Int.{ℤ}
use vgate_manager.Prelude.Float.{Float64}
use vgate_manager.Db.Action.{bind-cases, require-cases, record_not_found}
use vgate_manager.Model.User.{User}
use vgate_manager.Model.Product.{Plan, TrafficPackage}
use vgate_manager.Model.Order.{Order, Kind, traffic}
use vgate_manager.Model.Time.{Time}
use vgate_manager.Model.Database.{Database, user_by_id}
use vgate_manager.Balance.Posting.{self_found}
use vgate_manager.Plan.{plan_by_id, package_by_id}
use vgate_manager.Order.Defs.{Env}
use vgate_manager.Order.Effect.{
  apply_plan_effect, apply_traffic_effect, paid_cents_of, default_base, plan_effect, effect_of,
  apply_order_effect,
}

pub paid_cents_of_reads :
    (f : Float64) (env : Env) (o : Order) (db : Database) → (paid_cents_of f env o db).1 ≡ db
unfolding paid_cents_of
paid_cents_of_reads f env o db = ground arith

module _ (f : Float64) (env : Env) {B : Type 0} (view : Database → B)
    (plan_keeps : (u : User) (p : Plan) (days paid_cents : ℤ) (base : Time) (db : Database)
      → user_by_id u.id db.users ≡ some u
      → view (apply_plan_effect f env u p days paid_cents base db).1 ≡ view db)
    (traffic_keeps : (u : User) (p : TrafficPackage) (db : Database)
      → user_by_id u.id db.users ≡ some u
      → view (apply_traffic_effect f env u p db).1 ≡ view db) where
  module _ (o : Order) (u : User) (db : Database) (found : user_by_id u.id db.users ≡ some u) where
    keeps-plan_effect : (p : Plan) → view (plan_effect f env o u p db).1 ≡ view db
    keeps-plan_effect p =
        let base : Time =
          if o.extend_from_old_expiry then default_base u.expire_at env.now else env.now in
        bind-cases (λ x. view x.1 ≡ view db) (paid_cents_of f env o)
          (λ c. apply_plan_effect f env u p o.duration_days c base) db
          (λ c t e.
            let same : t ≡ db = ap (λ x. x.1) (sym e) ∙ paid_cents_of_reads f env o db in
            rw same (plan_keeps u p o.duration_days c base db found))
          (λ _ t e. ap view (ap (λ x. x.1) (sym e) ∙ paid_cents_of_reads f env o db))

    keeps-effect_of : (k : Kind) → view (effect_of f env k o u db).1 ≡ view db
    keeps-effect_of traffic =
        require-cases (λ x. view x.1 ≡ view db) record_not_found
          (package_by_id o.traffic_package_id) (apply_traffic_effect f env u) db
          (λ p _. traffic_keeps u p db found) (λ _. refl)
    keeps-effect_of _ =
        require-cases (λ x. view x.1 ≡ view db) record_not_found (plan_by_id o.plan_id)
          (plan_effect f env o u) db (λ p _. keeps-plan_effect p) (λ _. refl)

  pub keeps-apply_order_effect :
      (o : Order) (db : Database) → view (apply_order_effect f env o db).1 ≡ view db
  unfolding apply_order_effect
  keeps-apply_order_effect o db =
      require-cases (λ x. view x.1 ≡ view db) record_not_found (λ db. user_by_id o.user_id db.users)
        (effect_of f env o.kind o) db
        (λ u e. keeps-effect_of o u db (self_found o.user_id db.users e) o.kind) (λ _. refl)
