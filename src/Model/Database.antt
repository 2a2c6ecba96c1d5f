-- ===== src/Model/Database.antt =====
-- The tables that the modelled services share.
use vgate_manager.Prelude.{String, Bool, true, false, Option, none, some, List, [], ◌==◌}
use vgate_manager.Db.Table.{first, update}
use vgate_manager.Db.Action.{Action}
use vgate_manager.Model.User.{User}
use vgate_manager.Model.Product.{Plan, PlanPrice, TrafficPackage}
use vgate_manager.Model.Order.{Order}
use vgate_manager.Model.Grant.{TrafficGrant, BalanceTransaction}
use vgate_manager.Model.Verification.{EmailVerification}
use vgate_manager.Model.Code.{RedemptionCode, RedemptionRecord, InviteCode}

pub record Database : Type 0 where
  pub users : List User
  pub plans : List Plan
  pub plan_prices : List PlanPrice
  pub packages : List TrafficPackage
  pub orders : List Order
  pub grants : List TrafficGrant
  pub balance_transactions : List BalanceTransaction
  pub redemption_codes : List RedemptionCode
  pub redemption_records : List RedemptionRecord
  pub invite_codes : List InviteCode
  pub email_verifications : List EmailVerification

abbrev pub empty : Database
empty = record {
  users = [];
  plans = [];
  plan_prices = [];
  packages = [];
  orders = [];
  grants = [];
  balance_transactions = [];
  redemption_codes = [];
  redemption_records = [];
  invite_codes = [];
  email_verifications = [];
}

abbrev pub Db : Type 0 → Type 0
Db A = Action Database A

-- `tx.First(&user, "id = ?", id)`
abbrev pub user_by_id : String → List User → Option User
user_by_id id = first (λ u. u.id == id)

-- `tx.Model(&user).Updates(...)`, which names the row by its primary key
abbrev pub update_user : String → (User → User) → Database → Database
update_user id f db = record db { users = update (λ u. u.id == id) f db.users }

-- Whether a row that `q` matches exists.
abbrev pub exists : {A : Type 0} → (A → Bool) → List A → Bool
exists q l = elim (first q l) [ some _ ↦ true | none ↦ false ]
