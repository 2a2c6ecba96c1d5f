-- ===== src/Tests/Money.antt =====
-- Examples: wallets, prices and proration.
use vgate_manager.Prelude.{ℕ, [], ◌∷◌, ◌≡◌, refl, false, some, arith}
use vgate_manager.Model.Database.{user_by_id}
use vgate_manager.Prelude.Int.{ℤ, pos, negsuc, ◌+ℤ◌, ◌-ℤ◌, ◌≤ℤ◌, ◌<ℤ◌, Fits}
use vgate_manager.Prelude.FloatModel.{integers, integers-IsIeee}
use vgate_manager.Db.Table.{count, first}
use vgate_manager.Db.Action.{ok, transaction}
use vgate_manager.Model.Order.{Kind}
use vgate_manager.Model.User.{User}
use vgate_manager.Quota.{IsReset, reset_due_quotas, reset_due_quotas_lem}
use vgate_manager.Order.Closing.{CloseMine, Swept, close_mine-CloseMine, close_expired-Swept}
use vgate_manager.Model.Database.{Database}
use vgate_manager.Balance.{adjust}
use vgate_manager.Balance.Posting.{balance_of}
use vgate_manager.Balance.Audit.{IsSound, Adjusted, adjust-Adjusted, adjust_outcome, verdict}
use vgate_manager.Plan.{load_plan_price, plan_by_id}
use vgate_manager.Plan.Pricing.{Chosen, load_plan_price-Chosen}
use vgate_manager.Order.Proration.{compute_remaining_value, package_preserving_reset}
use vgate_manager.Order.Proration.Bounds.{
  compute_remaining_value-bounds, package_preserving_reset_lem,
}
use vgate_manager.Order.Checkout.{Params, create_for, pay_from_wallet}
use vgate_manager.Order.Change.{switch_in_wallet}
use vgate_manager.Order.Money.{SameMoney, mark_paid-SameMoney}
use vgate_manager.Order.States.{mark_paid, close_mine, close_expired}
use vgate_manager.Order.Wallet.Purchase.{Paying, pay_from_wallet-Paying, create_for-IsSound}
use vgate_manager.Order.Wallet.Switch.{Switching, switch_in_wallet-Switching}
use vgate_manager.Tests.{alice, monthly, pro, order_of, shop, waiting, env, gateways, shop-IsSound}

alice_has : balance_of "alice" shop ≡ some (pos 500)
unfolding balance_of first
alice_has = refl

abbrev params : Params
params = record {
  kind = Kind.plan;
  plan_id = "pro";
  plan_price_id = "month";
  traffic_package_id = "";
  platform = "";
}

pay_from_wallet-Paying_example :
    Paying
      (order_of (pos 800))
      (pos 500)
      shop
      (transaction (pay_from_wallet integers env (order_of (pos 800))) shop)
pay_from_wallet-Paying_example =
    pay_from_wallet-Paying integers env (order_of (pos 800)) (pos 500) shop shop-IsSound alice_has
      refl (omega arith) (omega arith, omega arith)

room : Fits (pos 500 +ℤ pos 100)
unfolding ◌+ℤ◌
room = (omega arith, omega arith)

switch_in_wallet-Switching_example : Switching "alice" (pos 500) (pos 100) (pos 800) shop (
    transaction
      (switch_in_wallet integers gateways env "alice" pro monthly "alipay" (pos 100))
      shop)
switch_in_wallet-Switching_example =
    switch_in_wallet-Switching integers gateways env "alice" pro monthly "alipay" (pos 500)
      (pos 100) shop shop-IsSound alice_has (omega arith) room (omega arith)
      (omega arith, omega arith)

create_for-IsSound_example : IsSound (create_for integers gateways env "alice" params false shop).1
create_for-IsSound_example =
    create_for-IsSound integers env gateways "alice" params false shop shop-IsSound

mark_paid-SameMoney_example :
    SameMoney waiting (mark_paid integers env "trade-1" "gw-1" "alipay" waiting).1
mark_paid-SameMoney_example = mark_paid-SameMoney integers env "trade-1" "gw-1" "alipay" waiting

-- The wallet has paid 500 of the 800 cents of the order that waits.
close_mine-CloseMine_example :
    CloseMine "order-1" "alice" waiting (close_mine "order-1" "alice" waiting)
close_mine-CloseMine_example = close_mine-CloseMine "order-1" "alice" waiting

close_expired_closes : (close_expired (pos 9000000000000) waiting).0 ≡ ok 1
unfolding close_expired count
close_expired_closes = refl

close_expired-Swept_example :
    (n : ℕ) × ((close_expired (pos 9000000000000) waiting).0 ≡ ok n)
    × Swept (pos 9000000000000) waiting n (close_expired (pos 9000000000000) waiting).1
close_expired-Swept_example = close_expired-Swept (pos 9000000000000) waiting

taken-Fits : Fits (pos 0 -ℤ negsuc 199)
unfolding ◌-ℤ◌
taken-Fits = (omega arith, omega arith)

left-Fits : (old : ℤ) → balance_of "alice" shop ≡ some old → Fits (old +ℤ negsuc 199)
unfolding balance_of first ◌+ℤ◌
left-Fits old h = ground arith

adjust-Adjusted_example :
    Adjusted "alice" (negsuc 199) shop (adjust "row-9" "alice" (negsuc 199) shop)
adjust-Adjusted_example =
    adjust-Adjusted "row-9" "alice" (negsuc 199) shop shop-IsSound (omega arith, omega arith)
      taken-Fits left-Fits

abbrev too_much : ℤ
too_much = negsuc 599

too_much-Fits : Fits (pos 0 -ℤ too_much)
unfolding ◌-ℤ◌
too_much-Fits = (omega arith, omega arith)

adjust_outcome_example : (adjust "row-9" "alice" too_much shop).0 ≡ verdict (pos 500) too_much
unfolding first
adjust_outcome_example =
    adjust_outcome "row-9" "alice" (pos 500) shop alice_has refl too_much (omega arith)
      too_much-Fits

pro_found : plan_by_id "pro" shop ≡ some pro
unfolding first
pro_found = refl

load_plan_price-Chosen_example :
    Chosen "month" pro.prices (load_plan_price "pro" "month" false shop).0
load_plan_price-Chosen_example = load_plan_price-Chosen "pro" "month" false shop pro pro_found

compute_remaining_value-bounds_example :
    (pos 0 ≤ℤ compute_remaining_value integers alice (pos 0) (pos 0))
    × (compute_remaining_value integers alice (pos 0) (pos 0) ≤ℤ pos 300)
compute_remaining_value-bounds_example =
    compute_remaining_value-bounds integers integers-IsIeee alice (pos 0) (pos 0) (omega arith)
      (omega arith)

counters_fit : Fits (pos 30 +ℤ pos 10)
unfolding ◌+ℤ◌
counters_fit = (omega arith, omega arith)

counters_positive : pos 0 <ℤ (pos 30 +ℤ pos 10)
unfolding ◌+ℤ◌
counters_positive = omega arith

package_preserving_reset_example :
    (pos 0 ≤ℤ (package_preserving_reset integers (pos 30) (pos 10) (pos 7)).0)
    × (pos 0 ≤ℤ (package_preserving_reset integers (pos 30) (pos 10) (pos 7)).1)
    × ((package_preserving_reset integers (pos 30) (pos 10) (pos 7)).0
          +ℤ (package_preserving_reset integers (pos 30) (pos 10) (pos 7)).1
        ≡ pos 7)
package_preserving_reset_example =
    package_preserving_reset_lem integers integers-IsIeee (pos 30) (pos 10) (pos 7) (omega arith)
      (omega arith) counters_fit counters_positive (omega arith) (omega arith)

alice_found : user_by_id "alice" shop.users ≡ some alice
unfolding first
alice_found = refl

-- A user of whose traffic packages were charged 10 bytes.
abbrev charged : User
charged = record alice { package_used_bytes = pos 10 }

abbrev charged_shop : Database
charged_shop = record shop { users = charged ∷ [] }

charged_found : user_by_id "alice" charged_shop.users ≡ some charged
unfolding first
charged_found = refl

reset_due_quotas_example :
    (w : User) × (user_by_id "alice" (reset_due_quotas integers charged_shop).1.users ≡ some w)
    × IsReset integers charged w
reset_due_quotas_example =
    reset_due_quotas_lem integers integers-IsIeee "alice" charged_shop charged charged_found
      (omega arith) (omega arith) counters_fit counters_positive (omega arith) (omega arith)
