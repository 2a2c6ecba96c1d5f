-- ===== src/Order/Settlement.antt =====
-- A payment notification settles an order once: `markPaid` is idempotent.
use mathlib.Core.Path.{subst}
use vgate_manager.Prelude.{◌≡◌, sym, ap, ◌∙◌, String, true, arith, eqb}
use vgate_manager.Prelude.Float.{Float64}
use vgate_manager.Db.Table.{count, update_none, count-update_zero}
use vgate_manager.Db.Action.{ok, err, Result, transaction-cases}
use vgate_manager.Model.Database.{Database}
use vgate_manager.Order.Defs.{Env}
use vgate_manager.Order.States.{mark_paid, settle_notified, awaits, to_paid}
use vgate_manager.Order.Pending.{orders-settle_notified}

-- What a transaction makes of the result of its body.
abbrev undo : Database → Result (Unit {0}) × Database → Result (Unit {0}) × Database
undo db (r, t) = elim r [ ok a ↦ (ok a, t) | err e ↦ (err e, db) ]

module _ (f : Float64) (env : Env) where
  settle_notified_none :
      (out_trade_no trade_no platform : String) (db : Database)
      → count (awaits out_trade_no) db.orders ≡ 0
      → settle_notified f env out_trade_no trade_no platform db ≡ (ok tt, db)
  settle_notified_none out_trade_no trade_no platform db none =
      let same =
        update_none (awaits out_trade_no) (to_paid trade_no platform env.now) db.orders none in
      let t : eqb (count (awaits out_trade_no) db.orders) 0 ≡ true = ap (λ n. eqb n 0) none in
      rw t (ap (λ l. (ok tt, record db { orders = l })) same)

  -- A notification for a number that no pending order has is acknowledged and changes nothing: the
  -- order is paid, or closed, or not there.
  pub mark_paid_settled :
      (out_trade_no trade_no platform : String) (db : Database)
      → count (awaits out_trade_no) db.orders ≡ 0
      → mark_paid f env out_trade_no trade_no platform db ≡ (ok tt, db)
  unfolding mark_paid
  mark_paid_settled out_trade_no trade_no platform db none =
      ap (undo db) (settle_notified_none out_trade_no trade_no platform db none)

  -- After a notification that was processed, no order awaits it.
  mark_paid-awaits :
      (out_trade_no trade_no platform : String) (db : Database) {db' : Database}
      → mark_paid f env out_trade_no trade_no platform db ≡ (ok tt, db')
      → count (awaits out_trade_no) db'.orders ≡ 0
  unfolding mark_paid
  mark_paid-awaits out_trade_no trade_no platform db {db'} h = subst P h (
      transaction-cases P (settle_notified f env out_trade_no trade_no platform) db
        (λ _ t e.
          rw
            (ap (λ x. x.1.orders) (sym e)
              ∙ orders-settle_notified f env out_trade_no trade_no platform db)
            (count-update_zero (awaits out_trade_no) (to_paid trade_no platform env.now) db.orders
              (λ o _. ground arith)))
        (λ _ _ _. tt))
    where
      P : Result (Unit {0}) × Database → Type 0
      P (ok _, t) = count (awaits out_trade_no) t.orders ≡ 0
      P (err _, _) = Unit

-- However often a payment is notified, and whenever, only the first notification that is processed
-- changes anything.
pub mark_paid_twice :
    (f : Float64) (env later : Env) (out_trade_no trade_no again platform other : String)
    (db : Database) {db' : Database}
    → mark_paid f env out_trade_no trade_no platform db ≡ (ok tt, db')
    → mark_paid f later out_trade_no again other db' ≡ (ok tt, db')
mark_paid_twice f env later out_trade_no trade_no again platform other db {db'} h =
    mark_paid_settled f later out_trade_no again other db'
      (mark_paid-awaits f env out_trade_no trade_no platform db h)
