-- ===== src/Tests.antt =====
-- A small shop for the examples: one user with a wallet of 500 cents, two plans, a code of each kind.
pub mod Orders
pub mod Money
pub mod Codes
pub mod Fleet
pub mod Admins
pub mod Shop
pub mod Signup
use vgate_manager.Prelude.{
  ◌≡◌, refl, String, Bool, true, false, none, some, [], ◌∷◌, arith, ◌==◌, Bool-cases, inl, inr,
  if◌then◌else◌,
}
use vgate_manager.Prelude.Int.{ℤ, pos, ◌+ℤ◌}
use vgate_manager.Db.Table.{first}
use vgate_manager.Db.Action.{ok}
use vgate_manager.Model.User.{User}
use vgate_manager.Model.Product.{Plan, PlanPriceEntry}
use vgate_manager.Model.Order.{Order, Kind, Status}
use vgate_manager.Model.Grant.{BalanceTransaction, Direction, admin_adjust}
use vgate_manager.Model.Code.{RedemptionCode, RedeemType, InviteCode}
use vgate_manager.Model.Database.{Database, empty}
use vgate_manager.Balance.Posting.{balance_of, ledger_sum}
use vgate_manager.Balance.Audit.{IsSound}
use vgate_manager.Order.Defs.{Env, Gateways}

abbrev pub alice : User
alice = record {
  id = "alice";
  credential = "";
  current_product_id = "basic";
  email = "alice@example.org";
  username = some "alice";
  password_hash = some "secret";
  sub_token = "sub-alice";
  level = pos 0;
  expire_at = some (pos 864000000000000);
  quota_bytes = pos 1000;
  traffic_quota_bytes = pos 0;
  package_used_bytes = pos 0;
  quota_reset_enabled = true;
  balance_cents = pos 500;
  current_plan_paid_cents = pos 300;
  current_plan_duration_days = pos 30;
  speed_limit_up_bps = pos 0;
  speed_limit_down_bps = pos 0;
  up_total = pos 30;
  down_total = pos 10;
  last_traffic_at = none;
  enabled = true;
  email_verified = true;
  max_invites = pos 5;
}

abbrev pub monthly : PlanPriceEntry
monthly = record {
  period = "month";
  price = pos 800;
  duration_days = pos 30;
  sort = pos 0;
  enabled = true;
}

abbrev plan_of : String → Plan
plan_of id = record {
  id = id;
  name = id;
  level = pos 1;
  quota_bytes = pos 2000;
  speed_limit_up_bps = pos 0;
  speed_limit_down_bps = pos 0;
  enabled = true;
  allow_renew_off_shelf = false;
  prices = monthly ∷ [];
}

abbrev pub pro : Plan
pro = plan_of "pro"

abbrev pub order_of : ℤ → Order
order_of amount = record {
  id = "order-1";
  user_id = "alice";
  kind = Kind.plan;
  plan_id = "pro";
  plan_price_id = "";
  period = "month";
  duration_days = pos 30;
  traffic_package_id = "";
  amount = amount;
  plan_price_cents = pos 800;
  status = Status.pending;
  platform = "alipay";
  extend_from_old_expiry = true;
  out_trade_no = "trade-1";
  trade_no = "";
  paid_at = none;
  expired_at = some (pos 1800000000000);
}

abbrev pub shop : Database
shop = record empty {
  users = alice ∷ [];
  plans = plan_of "basic" ∷ pro ∷ [];
  balance_transactions =
      record {
        id = "row-0";
        user_id = "alice";
        direction = Direction.credit;
        amount_cents = pos 500;
        reason = admin_adjust;
        ref_order_id = "";
        balance_after = pos 500;
      }
      ∷ [];
  redemption_codes =
      record {
        id = "code-1";
        code = "GIFT";
        type = RedeemType.duration;
        max_uses = pos 3;
        used_count = pos 0;
        expires_at = none;
        quota_bytes = pos 0;
        duration_days = pos 7;
        plan_id = "";
      }
      ∷ [];
  invite_codes =
      record {
        id = "invite-1";
        code = "FRIEND";
        created_by_user_id = some "alice";
        max_uses = pos 2;
        used_count = pos 0;
        expires_at = none;
      }
      ∷ [];
}

abbrev pub waiting : Database
waiting = record shop { orders = order_of (pos 300) ∷ [] }

abbrev pub env : Env
env = record {
  now = pos 0;
  order_id = "order-1";
  out_trade_no = "trade-1";
  credit_id = "row-1";
  debit_id = "row-2";
  grant_id = "grant-1";
}

abbrev pub gateways : Gateways
gateways = record {
  default_platform = "alipay";
  is_available = λ _. ok true;
  pay = λ _. ok (record {
    mode = "qr";
    url = "u";
    wallet_used_cents = pos 0;
    wallet_remaining_cents = pos 0;
  });
}

pub shop-IsSound : IsSound shop
unfolding balance_of ledger_sum first ◌+ℤ◌
shop-IsSound = record {
  audited =
      λ v b h. elim (Bool-cases ("alice" == v)) [ inl t ↦ ground arith | inr u ↦ ground arith ];
  solvent =
      λ v b h. elim (Bool-cases ("alice" == v)) [ inl t ↦ ground arith | inr u ↦ ground arith ];
  fits = λ v b h. elim (Bool-cases ("alice" == v)) [ inl t ↦ ground arith | inr u ↦ ground arith ];
}
