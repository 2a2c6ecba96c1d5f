-- ===== src/Balance.antt =====
-- internal/service/balance.go: the wallet of a user and its append-only ledger.
pub mod Posting
pub mod Audit
use vgate_manager.Prelude.{String, leb_ℤ, ltb_ℤ, eqb_ℤ, if◌then◌else◌, ◌==◌}
use vgate_manager.Prelude.Int.{ℤ, pos, add64, sub64}
use vgate_manager.Db.Table.{insert}
use vgate_manager.Db.Action.{
  credit_not_positive, debit_not_positive, insufficient_balance, zero_adjustment, record_not_found,
  pure, require, create, transaction, ◌>>=◌, ◌>>◌, fail_if, modify,
}
use vgate_manager.Model.Grant.{BalanceTransaction, Direction, Reason, admin_adjust}
use vgate_manager.Model.Database.{Database, Db, user_by_id, update_user, exists}

-- `tx.Create(row)`
abbrev pub append_row : BalanceTransaction → Db Unit
append_row row =
    create (λ db. exists (λ (r : BalanceTransaction). r.id == row.id) db.balance_transactions)
      (λ db. record db { balance_transactions = insert row db.balance_transactions })

-- `id` is what `util.NewBalanceTxID` returns.
unfoldable pub credit : String → String → ℤ → Reason → String → Db ℤ
credit id user_id amount reason ref_order_id = do
  fail_if (leb_ℤ amount (pos 0)) credit_not_positive
  user ← require record_not_found (λ db. user_by_id user_id db.users)
  let new_bal = add64 user.balance_cents amount
  modify (update_user user.id (λ u. record u { balance_cents = new_bal }))
  append_row (record {
    id = id;
    user_id = user_id;
    direction = Direction.credit;
    amount_cents = amount;
    reason = reason;
    ref_order_id = ref_order_id;
    balance_after = new_bal;
  })
  pure new_bal

unfoldable pub debit : String → String → ℤ → Reason → String → Db ℤ
debit id user_id amount reason ref_order_id = do
  fail_if (leb_ℤ amount (pos 0)) debit_not_positive
  user ← require record_not_found (λ db. user_by_id user_id db.users)
  fail_if (ltb_ℤ user.balance_cents amount) insufficient_balance
  let new_bal = sub64 user.balance_cents amount
  modify (update_user user.id (λ u. record u { balance_cents = new_bal }))
  append_row (record {
    id = id;
    user_id = user_id;
    direction = Direction.debit;
    amount_cents = amount;
    reason = reason;
    ref_order_id = ref_order_id;
    balance_after = new_bal;
  })
  pure new_bal

pub get_balance : String → Db ℤ
get_balance user_id = do
  user ← require record_not_found (λ (db : Database). user_by_id user_id db.users)
  pure user.balance_cents

-- `AdminAdjust`
unfoldable pub adjust : String → String → ℤ → Db Unit
adjust id user_id delta = do
  fail_if (eqb_ℤ delta (pos 0)) zero_adjustment
  transaction (
      (if ltb_ℤ (pos 0) delta
        then credit id user_id delta admin_adjust ""
        else debit id user_id (sub64 (pos 0) delta) admin_adjust "")
      >> pure tt)
