-- ===== src/Order/Effect/Free.antt =====
-- An order without a price is taken for one from before prices were recorded.
use mathlib.Core.Path.{subst}
use vgate_manager.Prelude.{◌≡◌, refl, sym, true, none, ◌==◌, arith, leb_ℤ, if◌then◌else◌}
use vgate_manager.Prelude.Int.{pos}
use vgate_manager.Prelude.Float.{Float64}
use vgate_manager.Db.Table.{first}
use vgate_manager.Db.Action.{err, require-cases, record_not_found, bind_err}
use vgate_manager.Model.User.{User}
use vgate_manager.Model.Product.{PlanPrice}
use vgate_manager.Model.Order.{Order, plan}
use vgate_manager.Model.Database.{Database, user_by_id}
use vgate_manager.Plan.{plan_by_id}
use vgate_manager.Order.Defs.{Env}
use vgate_manager.Order.Effect.{
  apply_plan_effect, default_base, paid_cents_of, plan_effect, effect_of, apply_order_effect,
}

module _ (f : Float64) (env : Env) (o : Order) (db : Database)
    (free : leb_ℤ o.plan_price_cents (pos 0) ≡ true)
    (no_row : first (λ (p : PlanPrice). p.id == o.plan_price_id) db.plan_prices ≡ none) where
  no_price : paid_cents_of f env o db ≡ (err record_not_found, db)
  unfolding paid_cents_of
  no_price = ground arith

  no_effect : (u : User) → effect_of f env plan o u db ≡ (err record_not_found, db)
  no_effect u =
      require-cases (λ x. x ≡ (err record_not_found, db)) record_not_found (plan_by_id o.plan_id)
        (plan_effect f env o u) db
        (λ p _.
          bind_err (paid_cents_of f env o)
            (λ c.
              apply_plan_effect f env u p o.duration_days c
                (if o.extend_from_old_expiry then default_base u.expire_at env.now else env.now))
            db no_price)
        (λ _. refl)

  -- The grant of a plan order with no price and no row of the old price table fails and changes
  -- nothing, whoever the user and whatever the plan is.
  pub apply_order_effect-free :
      o.kind ≡ plan → apply_order_effect f env o db ≡ (err record_not_found, db)
  unfolding apply_order_effect
  apply_order_effect-free k =
      require-cases (λ x. x ≡ (err record_not_found, db)) record_not_found
        (λ d. user_by_id o.user_id d.users) (effect_of f env o.kind o) db
        (λ u _.
          subst (λ j. effect_of f env j o u db ≡ (err record_not_found, db)) (sym k) (no_effect u))
        (λ _. refl)
