-- ===== src/Model/Product.antt =====
-- internal/model/plan.go, plan_price.go and traffic_package.go: what is sold.
use vgate_manager.Prelude.{String, Bool, List, ◌==◌, if◌then◌else◌}
use vgate_manager.Prelude.Int.{ℤ, pos}

-- An element of the JSON column `plans.prices`.
pub record PlanPriceEntry : Type 0 where
  pub period : String
  pub price : ℤ
  pub duration_days : ℤ
  pub sort : ℤ
  pub enabled : Bool

pub record Plan : Type 0 where
  pub id : String
  pub name : String
  pub level : ℤ
  pub quota_bytes : ℤ
  pub speed_limit_up_bps : ℤ
  pub speed_limit_down_bps : ℤ
  pub enabled : Bool
  pub allow_renew_off_shelf : Bool
  pub prices : List PlanPriceEntry

-- A row of the table `plan_prices`, which only old orders name.
pub record PlanPrice : Type 0 where
  pub id : String
  pub plan_id : String
  pub period : String
  pub price : ℤ
  pub duration_days : ℤ

pub record TrafficPackage : Type 0 where
  pub id : String
  pub name : String
  pub price : ℤ
  pub quota_bytes : ℤ
  pub enabled : Bool

-- `DefaultDurationForPeriod`
pub default_duration_for_period : String → ℤ
default_duration_for_period period =
    if period == "quarter"
    then pos 90
    else if period == "half_year"
    then pos 180
    else if period == "year"
    then pos 365
    else pos 30
