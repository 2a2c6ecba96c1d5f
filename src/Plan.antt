-- ===== src/Plan.antt =====
-- internal/service/plan.go and traffic_package.go: the catalogue, and the price of a purchase.
pub mod Update
pub mod Pricing
use vgate_manager.Prelude.{
  String, Bool, true, false, not, ◌&&◌, Option, none, some, List, [], ◌∷◌, ltb_ℤ, if◌then◌else◌,
  ◌==◌,
}
use vgate_manager.Prelude.Int.{ℤ, pos}
use vgate_manager.Db.Table.{first, insert, update, delete}
use vgate_manager.Db.Action.{
  plan_not_found, plan_not_available, price_not_available, no_enabled_prices, package_not_available,
  record_not_found, Error, ok, err, pure, lift, require, create, transaction, Result, ◌>>=◌, ◌>>◌,
  fail_if, modify,
}
use vgate_manager.Model.User.{User}
use vgate_manager.Model.Product.{Plan, PlanPriceEntry, PlanPrice, TrafficPackage}
use vgate_manager.Model.Database.{Database, Db, exists}

abbrev pub plan_by_id : String → Database → Option Plan
plan_by_id id db = first (λ (p : Plan). p.id == id) db.plans

abbrev pub package_by_id : String → Database → Option TrafficPackage
package_by_id id db = first (λ (p : TrafficPackage). p.id == id) db.packages

-- `PlanService.Get`
abbrev pub get_plan : String → Db Plan
get_plan id = require record_not_found (plan_by_id id)

unfoldable pub load_enabled_plan : String → Db Plan
load_enabled_plan id = do
  plan ← get_plan id
  fail_if (not plan.enabled) plan_not_available
  pure plan

-- The loop over the prices for a given period.
pub price_for_period : String → List PlanPriceEntry → Option PlanPriceEntry
price_for_period period [] = none
price_for_period period (pr ∷ l) =
    if pr.period == period && pr.enabled then some pr else price_for_period period l

-- The loop for no period: the first enabled price of the lowest `sort`.
pub best_price : Option PlanPriceEntry → ℤ → List PlanPriceEntry → Option PlanPriceEntry
best_price best best_sort [] = best
best_price none best_sort (pr ∷ l) =
    best_price (if pr.enabled then some pr else none) (if pr.enabled then pr.sort else best_sort) l
best_price (some b) best_sort (pr ∷ l) =
    let better = pr.enabled && ltb_ℤ pr.sort best_sort in
    best_price (some (if better then pr else b)) (if better then pr.sort else best_sort) l

abbrev or_error {ℓ} : {A : Type ℓ} → Error → Option A → Result A
or_error e none = err e
or_error e (some a) = ok a

-- The choice of `loadPlanPrice` among the prices of a plan.
unfoldable pub choose_price : String → List PlanPriceEntry → Result PlanPriceEntry
unfolding price_for_period best_price
choose_price period prices =
    if period == ""
    then or_error no_enabled_prices (best_price none (pos 0) prices)
    else or_error price_not_available (price_for_period period prices)

unfoldable pub load_plan_price : String → String → Bool → Db PlanPriceEntry
load_plan_price plan_id period allow_disabled = do
  plan ← require plan_not_found (plan_by_id plan_id)
  fail_if (not plan.enabled && not allow_disabled) plan_not_available
  lift (choose_price period plan.prices)

-- `loadPlanPriceLegacy`
abbrev pub load_plan_price_legacy : String → Db PlanPrice
load_plan_price_legacy id =
    require record_not_found (λ db. first (λ (p : PlanPrice). p.id == id) db.plan_prices)

-- `PlanService.Create`; `fresh_id` is what `util.NewPlanID` returns.
pub create_plan : String → Plan → Db Unit
create_plan fresh_id plan =
    let p = record plan { id = if plan.id == "" then fresh_id else plan.id } in
    create (λ db. exists (λ (q : Plan). q.id == p.id) db.plans)
      (λ db. record db { plans = insert p db.plans })

-- `tx.Save(p)`: a row with this key is replaced; where there is none the plan is inserted.
unfoldable pub save_plan : Plan → Database → Database
save_plan p db =
    if exists (λ (q : Plan). q.id == p.id) db.plans
    then record db { plans = update (λ (q : Plan). q.id == p.id) (λ _. p) db.plans }
    else record db { plans = insert p db.plans }

abbrev pub with_speed : Plan → User → User
with_speed p u = record u {
  speed_limit_up_bps = p.speed_limit_up_bps;
  speed_limit_down_bps = p.speed_limit_down_bps;
}

-- `PlanService.Update`: the plan's speed limits are handed on to the users who are on it.
unfoldable pub update_plan : Plan → Db Unit
update_plan p = transaction (do
  modify (save_plan p)
  modify λ db. record db {
    users = update (λ (u : User). u.current_product_id == p.id) (with_speed p) db.users;
  })

-- `PlanService.Delete`
pub delete_plan : String → Db Unit
delete_plan id = modify λ db. record db { plans = delete (λ (q : Plan). q.id == id) db.plans }

-- `TrafficPackageService.Get`
abbrev pub get_package : String → Db TrafficPackage
get_package id = require record_not_found (package_by_id id)

-- `TrafficPackageService.loadEnabled`
unfoldable pub load_enabled : String → Db TrafficPackage
load_enabled id = do pkg ← get_package id; fail_if (not pkg.enabled) package_not_available; pure pkg

-- The row that a `Create` writes: gorm takes a field's `default` where the value is zero, so that
-- `enabled`, which has the default true, is true in every new row.
abbrev pub new_package : TrafficPackage → TrafficPackage
new_package p = record p { enabled = true }

-- `TrafficPackageService.Create`; `fresh_id` is what `util.NewTrafficPackageID` returns.
unfoldable pub create_package : String → TrafficPackage → Db Unit
create_package fresh_id pkg =
    let p = new_package (record pkg { id = if pkg.id == "" then fresh_id else pkg.id }) in
    create (λ db. exists (λ (q : TrafficPackage). q.id == p.id) db.packages)
      (λ db. record db { packages = insert p db.packages })

-- `TrafficPackageService.Update`
pub update_package : TrafficPackage → Db Unit
update_package p = modify λ db.
    if exists (λ (q : TrafficPackage). q.id == p.id) db.packages
    then record db { packages = update (λ (q : TrafficPackage). q.id == p.id) (λ _. p) db.packages }
    else record db { packages = insert p db.packages }

-- `TrafficPackageService.Delete`
pub delete_package : String → Db Unit
delete_package id =
    modify λ db. record db { packages = delete (λ (q : TrafficPackage). q.id == id) db.packages }
