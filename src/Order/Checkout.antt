-- ===== src/Order/Checkout.antt =====
-- `createFor` of internal/service/order.go, its callers `Create` and `AdminCreate`, and the part
-- that it shares with a plan change: what the wallet covers of an amount.
pub mod Quote
pub mod Keeps
use vgate_manager.Prelude.{
  String, Bool, true, false, not, ◌&&◌, ◌||◌, none, some, ◌==◌, ltb, ltb_ℤ, eqb_ℤ, min_ℤ,
  if◌then◌else◌,
}
use vgate_manager.Prelude.Int.{ℤ, pos, ◌+ℤ◌, sub64}
use vgate_manager.Prelude.Float.{Float64}
use vgate_manager.Db.Table.{insert, count}
use vgate_manager.Db.Action.{
  Result, ok, err, record_not_found, pending_order_exists, email_not_verified, no_active_plan,
  invalid_order_kind, platform_not_available, pure, fail, lift, gets, require, create, transaction,
  ◌>>=◌, ◌>>◌, fail_if,
}
use vgate_manager.Model.Time.{is_after}
use vgate_manager.Model.User.{User}
use vgate_manager.Model.Product.{Plan, PlanPriceEntry, TrafficPackage}
use vgate_manager.Model.Order.{Order, Kind, plan, traffic, other, Status, is_pending}
use vgate_manager.Model.Grant.{purchase}
use vgate_manager.Model.Database.{Db, user_by_id, exists}
use vgate_manager.Balance.{debit}
use vgate_manager.Plan.{get_plan, load_plan_price, load_enabled}
use vgate_manager.Order.Defs.{Env, Gateways, Directive, order_timeout, is_open, when}
use vgate_manager.Order.Effect.{apply_order_effect}

-- `CreateOrderParams`
pub record Params : Type 0 where
  pub kind : Kind
  pub plan_id : String
  pub plan_price_id : String
  pub traffic_package_id : String
  pub platform : String

-- `tx.Create(order)` of an order whose columns with a default are filled (`as_created`): `id` is the
-- primary key, and `out_trade_no` has a unique index.
abbrev pub create_order : Order → Db Unit
create_order o =
    create
      (λ db. exists (λ (p : Order). p.id == o.id || p.out_trade_no == o.out_trade_no) db.orders)
      (λ db. record db { orders = insert o db.orders })

-- What the wallet covers of an amount: nothing, unless the balance is positive.
unfoldable pub wallet_share : ℤ → ℤ → ℤ
wallet_share balance gross = if ltb_ℤ (pos 0) balance then min_ℤ balance gross else pos 0

-- The debit of a share, if it is positive; the result is the balance that is left, or 0.
unfoldable pub debit_share : Env → String → ℤ → String → Db ℤ
debit_share env user_id used ref db =
    if ltb_ℤ (pos 0) used then debit env.debit_id user_id used purchase ref db else (ok (pos 0), db)

-- The product of a plan order, and its price.
abbrev pub with_price : Order → String → PlanPriceEntry → Order
with_price order plan_id price = record order {
  plan_id = plan_id;
  period = price.period;
  duration_days = price.duration_days;
  amount = price.price;
  plan_price_cents = price.price;
}

-- The product of a traffic order, and its price.
abbrev pub with_package : Order → TrafficPackage → Order
with_package order pkg = record order { traffic_package_id = pkg.id; amount = pkg.price }

-- The plan case of the `switch p.Kind`, once the plan is loaded. A plan that is off the shelf may
-- be bought by an admin, and renewed by its owner where the plan allows that.
abbrev pub plan_quote_of : Order → User → Params → Bool → Plan → Db Order
plan_quote_of order user p is_admin pl = do
  let allow = is_admin || (pl.allow_renew_off_shelf && user.current_product_id == p.plan_id)
  price ← load_plan_price p.plan_id p.plan_price_id allow
  pure (with_price order p.plan_id price)

module _ (g : Gateways) where
  unfoldable pub choose_platform : String → Result String
  choose_platform platform =
      if platform == "" then ok g.default_platform else elim (g.is_available platform) [
        | ok true ↦ ok platform
        | ok false ↦ err platform_not_available
        | err e ↦ err e
      ]

  -- The gateway step, for an order that the wallet has not paid. What the wallet has paid is reported
  -- only where there was a debit.
  unfoldable pub collect : Order → ℤ → ℤ → Result (Order × Directive)
  collect created used remaining =
      let wallet_used = if ltb_ℤ (pos 0) used then used else pos 0 in
      if is_pending created.status
      then elim (g.pay created) [
        | ok d ↦ ok (
          created,
          record d { wallet_used_cents = wallet_used; wallet_remaining_cents = remaining },
        )
        | err e ↦ err e
      ]
      else ok (
        created,
        record {
          mode = "";
          url = "";
          wallet_used_cents = wallet_used;
          wallet_remaining_cents = remaining;
        },
      )

module _ (env : Env) where
  -- The order before its product is known.
  abbrev pub draft : String → Kind → String → Order
  draft user_id kind platform = record {
    id = env.order_id;
    user_id = user_id;
    kind = kind;
    plan_id = "";
    plan_price_id = "";
    period = "";
    duration_days = pos 0;
    traffic_package_id = "";
    amount = pos 0;
    plan_price_cents = pos 0;
    status = Status.pending;
    platform = platform;
    extend_from_old_expiry = true;
    out_trade_no = env.out_trade_no;
    trade_no = "";
    paid_at = none;
    expired_at = some (env.now +ℤ order_timeout);
  }

  -- The order as it is written once the wallet has covered `used` of its gross amount.
  abbrev pub settled : Order → ℤ → Order
  settled order used =
      if eqb_ℤ used order.amount
      then record order { status = Status.paid; platform = "balance"; paid_at = some env.now }
      else record order { amount = sub64 order.amount used }

  -- The `switch p.Kind` of `createFor`.
  abbrev pub quote_kind : Kind → Order → User → Params → Bool → Db Order
  quote_kind plan order user p is_admin = do
    pl ← get_plan p.plan_id
    plan_quote_of order user p is_admin pl
  quote_kind traffic order user p is_admin = do
    fail_if (user.current_product_id == "" || not (is_after user.expire_at env.now)) no_active_plan
    pkg ← load_enabled p.traffic_package_id
    pure (with_package order pkg)
  quote_kind other order user p is_admin = fail invalid_order_kind

  unfoldable pub quote : Order → User → Params → Bool → Db Order
  quote order user p is_admin = quote_kind p.kind order user p is_admin

module _ (f : Float64) (env : Env) where
  -- The rest of that transaction, once the wallet was debited.
  unfoldable pub place : Order → ℤ → ℤ → Db (Order × ℤ × ℤ)
  place order used remaining = do
    create_order (settled env order used)
    when (eqb_ℤ used order.amount) (apply_order_effect f env (settled env order used))
    pure (settled env order used, used, remaining)

  -- What follows the read of the user in that transaction.
  abbrev pub draw_and_place : Order → User → Db (Order × ℤ × ℤ)
  draw_and_place order u = do
    let used = wallet_share u.balance_cents order.amount
    remaining ← debit_share env order.user_id used order.id
    place order used remaining

  -- The transaction of `createFor`: the written order, what the wallet paid and what it has left.
  unfoldable pub pay_from_wallet : Order → Db (Order × ℤ × ℤ)
  pay_from_wallet order =
      require record_not_found (λ db. user_by_id order.user_id db.users) >>= draw_and_place order

module _ (f : Float64) (g : Gateways) (env : Env) where
  -- From the quote on.
  abbrev pub check_out : Order → User → Params → Bool → Db (Order × Directive)
  check_out order user p is_admin = do
    order ← quote env order user p is_admin
    paid ← transaction (pay_from_wallet f env order)
    lift (collect g paid.0 paid.1 paid.2)

  -- From the read of the user on.
  abbrev pub admit : Params → Bool → User → Db (Order × Directive)
  admit p is_admin user = do
    fail_if (not is_admin && not user.email_verified) email_not_verified
    platform ← lift (choose_platform g p.platform)
    check_out (draft env user.id p.kind platform) user p is_admin

  unfoldable pub create_for : String → Params → Bool → Db (Order × Directive)
  create_for user_id p is_admin = do
    open_orders ← gets (λ db. count (is_open user_id) db.orders)
    fail_if (ltb 0 open_orders) pending_order_exists
    user ← require record_not_found (λ db. user_by_id user_id db.users)
    admit p is_admin user

  -- `Create` and `AdminCreate`
  abbrev pub create_own : String → Params → Db (Order × Directive)
  create_own user_id p = create_for user_id p false

  abbrev pub admin_create : String → Params → Db (Order × Directive)
  admin_create target_user_id p = create_for target_user_id p true
