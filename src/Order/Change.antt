-- ===== src/Order/Change.antt =====
-- `ChangePlan`, `applyPlanSwitch` and `PreviewChangePlan` of internal/service/order.go.
use vgate_manager.Prelude.{
  String, Bool, true, false, not, ◌&&◌, Option, none, some, ◌==◌, ltb, ltb_ℤ, eqb_ℤ, if◌then◌else◌,
}
use vgate_manager.Prelude.Int.{ℤ, pos, ◌+ℤ◌, sub64}
use vgate_manager.Prelude.Float.{Float64}
use vgate_manager.Db.Table.{count}
use vgate_manager.Db.Action.{
  Result, ok, err, record_not_found, pending_order_exists, email_not_verified, pure, lift, gets,
  require, transaction, ◌>>=◌, ◌>>◌, fail_if,
}
use vgate_manager.Model.Time.{is_after}
use vgate_manager.Model.User.{User}
use vgate_manager.Model.Product.{Plan, PlanPriceEntry}
use vgate_manager.Model.Order.{Order, Kind, Status, is_pending, as_created}
use vgate_manager.Model.Grant.{plan_change_refund}
use vgate_manager.Model.Database.{Db, user_by_id}
use vgate_manager.Balance.{credit}
use vgate_manager.Plan.{get_plan, load_plan_price}
use vgate_manager.Order.Defs.{Env, Gateways, Directive, order_timeout, is_open, when}
use vgate_manager.Order.Proration.{compute_remaining_value}
use vgate_manager.Order.Effect.{apply_plan_effect}
use vgate_manager.Order.Checkout.{Params, create_order, wallet_share, debit_share, create_for}

-- `ChangePlanResult`
pub record ChangePlanResult : Type 0 where
  pub order : Option Order
  pub pay_url : String
  pub pay_mode : String
  pub paid : Bool
  pub credit_cents : ℤ
  pub net_charge_cents : ℤ
  pub immediate : Bool
  pub wallet_used_cents : ℤ
  pub wallet_remaining_cents : ℤ

module _ (f : Float64) (g : Gateways) (env : Env) where
  -- `computeRemainingValue(loadUserForProration(...))`: a user who is not found has no plan.
  abbrev pub remaining_of : Option User → ℤ
  remaining_of none = pos 0
  remaining_of (some u) = compute_remaining_value f u env.now env.now

  -- The order of a switch that is handed to `Create`, once the wallet has covered `used` of its price.
  abbrev pub new_switch : String → Plan → PlanPriceEntry → String → ℤ → Order
  new_switch user_id plan entry platform used =
      let full = eqb_ℤ used entry.price in
      record {
        id = env.order_id;
        user_id = user_id;
        kind = Kind.plan;
        plan_id = plan.id;
        plan_price_id = "";
        period = entry.period;
        duration_days = entry.duration_days;
        traffic_package_id = "";
        amount = if full then entry.price else sub64 entry.price used;
        plan_price_cents = entry.price;
        status = if full then Status.paid else Status.pending;
        platform = if full then "balance" else platform;
        extend_from_old_expiry = false;
        out_trade_no = env.out_trade_no;
        trade_no = "";
        paid_at = if full then some env.now else none;
        expired_at = some (env.now +ℤ order_timeout);
      }

  -- The order as it is created.
  abbrev pub switch_order : String → Plan → PlanPriceEntry → String → ℤ → Order
  switch_order user_id plan entry platform used =
      as_created (new_switch user_id plan entry platform used)

  -- The credit of the remaining value, if there is any.
  unfoldable pub refund_old : String → ℤ → Db Unit
  refund_old user_id remaining db =
      if ltb_ℤ (pos 0) remaining
      then (credit env.credit_id user_id remaining plan_change_refund "" >> pure tt) db
      else (ok tt, db)

  -- The transaction of `applyPlanSwitch`, from its end: once the wallet was debited, once the user
  -- was read, and from its beginning.
  abbrev pub place_switch :
      String → Plan → PlanPriceEntry → String → User → ℤ → ℤ → Db (Order × ℤ × ℤ)
  place_switch user_id plan entry platform u used left = do
    create_order (switch_order user_id plan entry platform used)
    when (eqb_ℤ used entry.price)
        (apply_plan_effect f env u plan entry.duration_days entry.price env.now)
    pure (switch_order user_id plan entry platform used, used, left)

  abbrev pub draw_switch : String → Plan → PlanPriceEntry → String → User → Db (Order × ℤ × ℤ)
  draw_switch user_id plan entry platform u = do
    let used = wallet_share u.balance_cents entry.price
    left ← debit_share env user_id used ""
    place_switch user_id plan entry platform u used left

  unfoldable pub switch_in_wallet : String → Plan → PlanPriceEntry → String → ℤ → Db (Order × ℤ × ℤ)
  switch_in_wallet user_id plan entry platform remaining = do
    refund_old user_id remaining
    u ← require record_not_found (λ db. user_by_id user_id db.users)
    draw_switch user_id plan entry platform u

  -- The gateway step of `applyPlanSwitch`.
  unfoldable pub present : ℤ → ℤ → Order × ℤ × ℤ → Result ChangePlanResult
  present remaining net (order, used, left) =
      let result : String → String → ChangePlanResult = λ url mode. record {
        order = some order;
        pay_url = url;
        pay_mode = mode;
        paid = not (is_pending order.status);
        credit_cents = remaining;
        net_charge_cents = net;
        immediate = true;
        wallet_used_cents = used;
        wallet_remaining_cents = left;
      } in
      if is_pending order.status
      then elim (g.pay order) [ ok d ↦ ok (result d.url d.mode) | err e ↦ err e ]
      else ok (result "" "")

  unfoldable pub apply_plan_switch : String → Plan → PlanPriceEntry → String → Db ChangePlanResult
  apply_plan_switch user_id plan entry platform = do
    let chosen = if platform == "" then g.default_platform else platform
    remaining ← gets (λ db. remaining_of (user_by_id user_id db.users))
    switched ← transaction (switch_in_wallet user_id plan entry chosen remaining)
    lift (present remaining (sub64 entry.price remaining) switched)

  -- The parameters and the result of a fresh purchase or a renewal, which goes through `Create`.
  abbrev pub purchase_params : String → PlanPriceEntry → String → Params
  purchase_params plan_id entry platform = record {
    kind = Kind.plan;
    plan_id = plan_id;
    plan_price_id = entry.period;
    traffic_package_id = "";
    platform = platform;
  }

  abbrev pub purchase_result : PlanPriceEntry → Order × Directive → ChangePlanResult
  purchase_result entry made = record {
    order = some made.0;
    pay_url = made.1.url;
    pay_mode = made.1.mode;
    paid = not (is_pending made.0.status);
    credit_cents = pos 0;
    net_charge_cents = entry.price;
    immediate = true;
    wallet_used_cents = made.1.wallet_used_cents;
    wallet_remaining_cents = made.1.wallet_remaining_cents;
  }

  unfoldable pub purchase_plan : String → String → PlanPriceEntry → String → Db ChangePlanResult
  purchase_plan user_id plan_id entry platform = do
    made ← create_for f g env user_id (purchase_params plan_id entry platform) false
    pure (purchase_result entry made)

  -- Whether the user has an active plan other than `plan_id`.
  abbrev pub is_cross : User → String → Bool
  is_cross user plan_id =
      (not (user.current_product_id == "") && is_after user.expire_at env.now)
      && not (user.current_product_id == plan_id)

  -- `ChangePlan`, from its end: once the price is loaded, the plan is loaded, no order is open,
  -- the address is verified, and the user is read.
  abbrev pub change_at :
      String → String → String → User → Plan → PlanPriceEntry → Db ChangePlanResult
  change_at user_id plan_id platform user plan price db = elim (is_cross user plan_id) [
    | true ↦ apply_plan_switch user_id plan price platform db
    | false ↦ purchase_plan user_id plan_id price platform db
  ]

  abbrev pub change_to : String → String → String → String → User → Plan → Db ChangePlanResult
  change_to user_id plan_id plan_price_id platform user plan = do
    price ← load_plan_price plan_id plan_price_id (user.current_product_id == plan_id)
    change_at user_id plan_id platform user plan price

  abbrev pub change_priced : String → String → String → String → User → Db ChangePlanResult
  change_priced user_id plan_id plan_price_id platform user = do
    plan ← get_plan plan_id
    change_to user_id plan_id plan_price_id platform user plan

  abbrev pub change_unless_open : String → String → String → String → User → Db ChangePlanResult
  change_unless_open user_id plan_id plan_price_id platform user = do
    open_orders ← gets (λ db. count (is_open user_id) db.orders)
    fail_if (ltb 0 open_orders) pending_order_exists
    change_priced user_id plan_id plan_price_id platform user

  abbrev pub change_from : String → String → String → String → User → Db ChangePlanResult
  change_from user_id plan_id plan_price_id platform user = do
    fail_if (not user.email_verified) email_not_verified
    change_unless_open user_id plan_id plan_price_id platform user

  unfoldable pub change_plan : String → String → String → String → Db ChangePlanResult
  change_plan user_id plan_id plan_price_id platform = do
    user ← require record_not_found (λ db. user_by_id user_id db.users)
    change_from user_id plan_id plan_price_id platform user

  unfoldable pub preview_change_plan : String → String → String → Db ChangePlanResult
  preview_change_plan user_id plan_id plan_price_id = do
    user ← require record_not_found (λ db. user_by_id user_id db.users)
    fail_if (not user.email_verified) email_not_verified
    price ← load_plan_price plan_id plan_price_id (user.current_product_id == plan_id)
    let remaining = compute_remaining_value f user env.now env.now
    pure (record {
      order = none;
      pay_url = "";
      pay_mode = "";
      paid = false;
      credit_cents = remaining;
      net_charge_cents = sub64 price.price remaining;
      immediate = true;
      wallet_used_cents = pos 0;
      wallet_remaining_cents = pos 0;
    })
