-- ===== src/Order/Effect.antt =====
-- What a paid order gives to its user: `defaultBase`, `applyPlanEffect`, `applyTrafficEffect` and
-- `applyOrderEffect` of internal/service/order.go.
pub mod Keeps
pub mod Free
use vgate_manager.Prelude.{Option, none, some, ◌==◌, leb_ℤ, if◌then◌else◌}
use vgate_manager.Prelude.Int.{ℤ, pos, add64}
use vgate_manager.Prelude.Float.{Float64}
use vgate_manager.Db.Table.{insert}
use vgate_manager.Db.Action.{ok, record_not_found, pure, require, create, ◌>>=◌, ◌>>◌, modify}
use vgate_manager.Model.Time.{Time, after, add_days}
use vgate_manager.Model.User.{User}
use vgate_manager.Model.Product.{Plan, TrafficPackage}
use vgate_manager.Model.Order.{Order, Kind, traffic}
use vgate_manager.Model.Grant.{TrafficGrant, Source}
use vgate_manager.Model.Database.{Db, user_by_id, update_user, exists}
use vgate_manager.Plan.{plan_by_id, package_by_id, load_plan_price_legacy}
use vgate_manager.Order.Defs.{Env}
use vgate_manager.Order.Proration.{package_preserving_reset}

-- `defaultBase`: the later of now and the expiry.
unfoldable pub default_base : Option Time → Time → Time
default_base none now = now
default_base (some t) now = if after t now then t else now

-- `tx.Create(grant)`
abbrev pub create_grant : TrafficGrant → Db Unit
create_grant g =
    create (λ db. exists (λ (h : TrafficGrant). h.id == g.id) db.grants)
      (λ db. record db { grants = insert g db.grants })

module _ (f : Float64) (env : Env) where
  -- The columns that `applyPlanEffect` writes.
  unfoldable pub with_plan : Plan → ℤ → ℤ → Time → ℤ × ℤ → User → User
  with_plan plan days paid_cents base (new_up, new_down) u = record u {
    expire_at = some (add_days base days);
    quota_bytes = plan.quota_bytes;
    up_total = new_up;
    down_total = new_down;
    level = plan.level;
    speed_limit_up_bps = plan.speed_limit_up_bps;
    speed_limit_down_bps = plan.speed_limit_down_bps;
    current_product_id = plan.id;
    current_plan_paid_cents = paid_cents;
    current_plan_duration_days = days;
  }

  unfoldable pub apply_plan_effect : User → Plan → ℤ → ℤ → Time → Db Unit
  apply_plan_effect user plan days paid_cents base = modify (
      update_user user.id (
        with_plan plan days paid_cents base
          (package_preserving_reset f user.up_total user.down_total user.package_used_bytes)))

  unfoldable pub apply_traffic_effect : User → TrafficPackage → Db Unit
  apply_traffic_effect user pkg = do
    modify (
        update_user user.id
          λ _. record user { traffic_quota_bytes = add64 user.traffic_quota_bytes pkg.quota_bytes })
    create_grant (record {
      id = env.grant_id;
      user_id = user.id;
      source = Source.traffic_package;
      source_id = pkg.id;
      name = pkg.name;
      quota_bytes = pkg.quota_bytes;
      used_bytes = pos 0;
      granted_at = env.now;
    })

  -- The price that is recorded for proration; an order from before the column was added has 0
  -- there, and names a row of `plan_prices`.
  unfoldable pub paid_cents_of : Order → Db ℤ
  paid_cents_of order db =
      if leb_ℤ order.plan_price_cents (pos 0)
      then (load_plan_price_legacy order.plan_price_id >>= λ p. pure p.price) db
      else (ok order.plan_price_cents, db)

  -- The plan branch of `applyOrderEffect`, once the plan is loaded.
  abbrev pub plan_effect : Order → User → Plan → Db Unit
  plan_effect order user plan = do
    paid_cents ← paid_cents_of order
    let base = if order.extend_from_old_expiry then default_base user.expire_at env.now else env.now
    apply_plan_effect user plan order.duration_days paid_cents base

  -- The `switch order.Kind` of `applyOrderEffect`.
  abbrev pub effect_of : Kind → Order → User → Db Unit
  effect_of traffic order user = do
    pkg ← require record_not_found (package_by_id order.traffic_package_id)
    apply_traffic_effect user pkg
  effect_of _ order user = do
    plan ← require record_not_found (plan_by_id order.plan_id)
    plan_effect order user plan

  unfoldable pub apply_order_effect : Order → Db Unit
  apply_order_effect order = do
    user ← require record_not_found (λ db. user_by_id order.user_id db.users)
    effect_of order.kind order user
