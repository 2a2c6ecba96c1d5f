-- ===== src/Order/Defs.antt =====
-- Shared by the parts of internal/service/order.go: what a call brings with it from outside (its
-- clock and the ids that it draws), the payment gateways, and the rows that it reads.
use vgate_manager.Prelude.{◌≡◌, refl, String, Bool, true, false, Option, ◌==◌, ◌&&◌}
use vgate_manager.Prelude.Int.{ℤ, pos}
use vgate_manager.Db.Table.{first}
use vgate_manager.Db.Action.{Result, ok, ◌>>◌}
use vgate_manager.Model.Time.{Time}
use vgate_manager.Model.Order.{Order, is_pending}
use vgate_manager.Model.Database.{Database, Db}

-- The instant at which a call runs, and what `util.New...ID` and `util.RandomToken` return in it.
pub record Env : Type 0 where
  pub now : Time
  pub order_id : String
  pub out_trade_no : String
  pub credit_id : String
  pub debit_id : String
  pub grant_id : String

-- `payment.PayDirective`; `kind` is the mode of the gateway
pub record Directive : Type 0 where
  pub mode : String
  pub url : String
  pub wallet_used_cents : ℤ
  pub wallet_remaining_cents : ℤ

-- What the service asks of `payment.Registry` and of the provider that it returns. `pay` is
-- `payments.Get(order.Platform)` followed by `PayURL`.
pub record Gateways : Type 0 where
  pub default_platform : String
  pub is_available : String → Result Bool
  pub pay : Order → Result Directive

-- `orderTimeout`, 30 minutes
abbrev pub order_timeout : ℤ
order_timeout = pos 1800000000000

-- The pending orders of a user, which `createFor` and `ChangePlan` count.
abbrev pub is_open : String → Order → Bool
is_open user_id o = o.user_id == user_id && is_pending o.status

abbrev pub order_by_id : String → Database → Option Order
order_by_id id db = first (λ (o : Order). o.id == id) db.orders

abbrev pub order_by_trade : String → Database → Option Order
order_by_trade out_trade_no db = first (λ (o : Order). o.out_trade_no == out_trade_no) db.orders

-- `if c { m }`
abbrev pub when : Bool → Db Unit → Db Unit
when c m db = elim c [ true ↦ m db | false ↦ (ok tt, db) ]

pub when-cases :
    {B : Type 0} (P : Result B × Database → Type 0) (c : Bool) (m : Db Unit) (k : Db B)
    (db : Database)
    → (c ≡ true → P ((m >> k) db))
    → (c ≡ false → P (k db))
    → P ((when c m >> k) db)
when-cases P true m k db run skip = run refl
when-cases P false m k db run skip = skip refl
