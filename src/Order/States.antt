-- ===== src/Order/States.antt =====
-- The states of an order after its creation: `markPaid`, `Reconcile`, `Get`, `CloseMine`, `PayMine`,
-- `AdminUpdateStatus` and `CloseExpired` of internal/service/order.go.
use vgate_manager.Prelude.{ℕ, String, Bool, true, false, not, ◌&&◌, none, some, ◌==◌, eqb}
use vgate_manager.Prelude.Float.{Float64}
use vgate_manager.Db.Table.{update, count}
use vgate_manager.Db.Action.{
  Result, ok, record_not_found, order_not_pending, pure, lift, gets, require, transaction, ◌>>=◌,
  ◌>>◌, fail_if, modify,
}
use vgate_manager.Model.Time.{Time, after}
use vgate_manager.Model.Order.{Order, Kind, traffic, Status, paid, closed, is_pending, is_closed}
use vgate_manager.Model.Database.{Database, Db}
use vgate_manager.Plan.{get_plan, get_package}
use vgate_manager.Order.Defs.{Env, Gateways, Directive, order_by_id, order_by_trade}
use vgate_manager.Order.Effect.{apply_order_effect}

-- `UPDATE orders SET ... WHERE p`
abbrev pub update_orders : (Order → Bool) → (Order → Order) → Database → Database
update_orders p f db = record db { orders = update p f db.orders }

abbrev pub to_paid : String → String → Time → Order → Order
to_paid trade_no platform now o = record o {
  status = paid;
  trade_no = trade_no;
  platform = platform;
  paid_at = some now;
}

abbrev pub to_closed : Order → Order
to_closed o = record o { status = closed }

-- `out_trade_no = ? AND status = 'pending'`
abbrev pub awaits : String → Order → Bool
awaits out_trade_no o = o.out_trade_no == out_trade_no && is_pending o.status

module _ (f : Float64) (env : Env) where
  -- What follows the update of `markPaid`, once it has changed a row.
  abbrev pub grant_paid : String → Db Unit
  grant_paid out_trade_no = do
    order ← require record_not_found (order_by_trade out_trade_no)
    apply_order_effect f env order

  -- The transaction of `markPaid`: no row awaits the payment, or it is settled and granted.
  abbrev pub settle_notified : String → String → String → Db Unit
  settle_notified out_trade_no trade_no platform = do
    affected ← gets (λ db. count (awaits out_trade_no) db.orders)
    modify (update_orders (awaits out_trade_no) (to_paid trade_no platform env.now))
    λ db. elim (eqb affected 0) [ true ↦ (ok tt, db) | false ↦ grant_paid out_trade_no db ]

  unfoldable pub mark_paid : String → String → String → Db Unit
  mark_paid out_trade_no trade_no platform =
      transaction (settle_notified out_trade_no trade_no platform)

  -- `Reconcile`, from what the provider's `VerifyNotify` returned: the order's number, the
  -- gateway's number, and whether it was paid. The alert is sent to the bot and changes no row.
  unfoldable pub reconcile : String → Result (String × String × Bool) → Db Unit
  reconcile platform verified = do
    (out_trade_no, trade_no, was_paid) ← lift verified
    λ db. elim was_paid [ true ↦ mark_paid out_trade_no trade_no platform db | false ↦ (ok tt, db) ]

  -- `MarkApplePaid`
  pub mark_apple_paid : String → String → Db Unit
  mark_apple_paid out_trade_no trade_no = mark_paid out_trade_no trade_no "apple"

  -- The update of `AdminUpdateStatus` to "paid"; `manual` is "manual:" with the admin's id.
  abbrev pub admin_pay : String → String → Db Unit
  admin_pay id manual = do
    affected ← gets (λ db. count (λ (o : Order). o.id == id && is_pending o.status) db.orders)
    modify
        (update_orders (λ o. o.id == id && is_pending o.status) (to_paid manual "manual" env.now))
    fail_if (eqb affected 0) order_not_pending
    order ← require record_not_found (order_by_id id)
    apply_order_effect f env order

  -- The transaction of `AdminUpdateStatus`, from the order that it read. The order that is
  -- returned is that one, with the columns that were written.
  abbrev pub admin_settle : String → Status → String → Order → Db Order
  admin_settle id status manual updated = do
    fail_if (not (is_pending updated.status)) order_not_pending
    λ db. elim (is_closed status) [
      | true ↦ (modify (update_orders (λ o. o.id == id) to_closed) >> pure (to_closed updated)) db
      | false ↦ (admin_pay id manual >> pure (to_paid manual "manual" env.now updated)) db
    ]

  unfoldable pub admin_update_status : String → Status → String → Db Order
  admin_update_status id status manual =
      transaction (require record_not_found (order_by_id id) >>= admin_settle id status manual)

-- `Get`, which hides another user's order
unfoldable pub get_order : String → String → Db Order
get_order id user_id = do
  order ← require record_not_found (order_by_id id)
  fail_if (not (order.user_id == user_id)) record_not_found
  pure order

-- `AdminGet`
pub admin_get : String → Db Order
admin_get id = require record_not_found (order_by_id id)

unfoldable pub close_mine : String → String → Db Unit
close_mine id user_id = do
  order ← get_order id user_id
  fail_if (not (is_pending order.status)) order_not_pending
  modify (update_orders (λ o. o.id == id) to_closed)

-- The product of an order must still exist for its payment page to be made again.
abbrev require_product : Kind → Order → Db Unit
require_product traffic order = get_package order.traffic_package_id >> pure tt
require_product _ order = get_plan order.plan_id >> pure tt

unfoldable pub pay_mine : Gateways → String → String → Db (Order × Directive)
pay_mine g id user_id = do
  order ← get_order id user_id
  fail_if (not (is_pending order.status)) order_not_pending
  require_product order.kind order
  directive ← lift (g.pay order)
  pure (order, directive)

-- `status = 'pending' AND expired_at IS NOT NULL AND expired_at < now`
abbrev pub is_overdue : Time → Order → Bool
is_overdue now o = is_pending o.status && elim o.expired_at [ none ↦ false | some t ↦ after now t ]

unfoldable pub close_expired : Time → Db ℕ
close_expired now = do
  affected ← gets (λ db. count (is_overdue now) db.orders)
  modify (update_orders (is_overdue now) to_closed)
  pure affected
