-- ===== src/Tests/Orders.antt =====
-- Examples: the one pending order of a user, and the payment that settles it once.
use vgate_manager.Prelude.{◌≡◌, refl, true, false, arith}
use vgate_manager.Prelude.FloatModel.{integers}
use vgate_manager.Db.Table.{count, first, update}
use vgate_manager.Db.Action.{ok}
use vgate_manager.Model.Order.{Kind}
use vgate_manager.Model.Database.{Database}
use vgate_manager.Order.Checkout.{Params, create_for}
use vgate_manager.Order.States.{mark_paid}
use vgate_manager.Order.Pending.{OnePending}
use vgate_manager.Order.Pending.Steps.{here, next, buy, Reach-OnePending}
use vgate_manager.Order.Settlement.{mark_paid_twice}
use vgate_manager.Order.Effect.{
  apply_order_effect, apply_plan_effect, paid_cents_of, default_base, with_plan,
}
use vgate_manager.Order.Proration.{package_preserving_reset}
use vgate_manager.Tests.{shop, waiting, env, gateways}

shop-OnePending : OnePending shop
unfolding count
shop-OnePending v = ground arith

waiting-OnePending : OnePending waiting
unfolding count
waiting-OnePending v = ground arith

abbrev params : Params
params = record {
  kind = Kind.plan;
  plan_id = "pro";
  plan_price_id = "month";
  traffic_package_id = "";
  platform = "";
}

abbrev bought : Database
bought = (create_for integers gateways env "alice" params false shop).1

-- A purchase, and then another one that the first stops.
Reach-OnePending_example :
    OnePending (create_for integers gateways env "alice" params true bought).1
Reach-OnePending_example =
    Reach-OnePending integers gateways
      (next (next here (buy env "alice" params false shop)) (buy env "alice" params true bought))
      shop-OnePending

abbrev settled_shop : Database
settled_shop = (mark_paid integers env "trade-1" "gw-1" "alipay" waiting).1

settled_once : mark_paid integers env "trade-1" "gw-1" "alipay" waiting ≡ (ok tt, settled_shop)
unfolding mark_paid count first update apply_order_effect apply_plan_effect paid_cents_of
    default_base with_plan package_preserving_reset
settled_once = refl

mark_paid_twice_example :
    mark_paid integers env "trade-1" "gw-2" "wechat" settled_shop ≡ (ok tt, settled_shop)
mark_paid_twice_example =
    mark_paid_twice integers env env "trade-1" "gw-1" "gw-2" "alipay" "wechat" waiting settled_once
