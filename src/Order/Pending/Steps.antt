-- ===== src/Order/Pending/Steps.antt =====
-- All that users, admins, payment providers and the clock do to the orders, in any order.
use vgate_manager.Prelude.{String, Bool}
use vgate_manager.Prelude.Float.{Float64}
use vgate_manager.Model.Time.{Time}
use vgate_manager.Model.Order.{Status}
use vgate_manager.Model.Database.{Database}
use vgate_manager.Order.Defs.{Env, Gateways}
use vgate_manager.Order.Checkout.{Params, create_for}
use vgate_manager.Order.Change.{change_plan}
use vgate_manager.Order.States.{mark_paid, admin_update_status, close_mine, close_expired}
use vgate_manager.Order.Pending.{
  OnePending, mark_paid-OnePending, admin_update_status-OnePending, close_mine-OnePending,
  close_expired-OnePending,
}
use vgate_manager.Order.Pending.Creation.{create_for-OnePending, change_plan-OnePending}

module _ (f : Float64) (g : Gateways) where
  -- A call on the orders, which may also fail; each has its own clock and ids.
  pub data Step : Database → Database → Type 0 where
    buy :
        (env : Env) (user_id : String) (p : Params) (is_admin : Bool) (db : Database)
        → Step db (create_for f g env user_id p is_admin db).1
    switch :
        (env : Env) (user_id plan_id plan_price_id platform : String) (db : Database)
        → Step db (change_plan f g env user_id plan_id plan_price_id platform db).1
    notify :
        (env : Env) (out_trade_no trade_no platform : String) (db : Database)
        → Step db (mark_paid f env out_trade_no trade_no platform db).1
    administer :
        (env : Env) (id manual : String) (status : Status) (db : Database)
        → Step db (admin_update_status f env id status manual db).1
    withdraw : (id user_id : String) (db : Database) → Step db (close_mine id user_id db).1
    expire : (now : Time) (db : Database) → Step db (close_expired now db).1

  pub data Reach (db : Database) : Database → Type 0 where
    here : Reach db db
    next : {t u : Database} → Reach db t → Step t u → Reach db u

  Step-OnePending : {t u : Database} → Step t u → OnePending t → OnePending u
  Step-OnePending (buy env v p a db) h = create_for-OnePending f g env v p a db h
  Step-OnePending (switch env v p e w db) h = change_plan-OnePending f g env v p e w db h
  Step-OnePending (notify env o t w db) h = mark_paid-OnePending f env o t w db h
  Step-OnePending (administer env i m s db) h = admin_update_status-OnePending f env i m s db h
  Step-OnePending (withdraw i v db) h = close_mine-OnePending i v db h
  Step-OnePending (expire now db) h = close_expired-OnePending now db h

  -- Whatever purchases, plan changes, payments, updates by admins and closes there are, in any order
  -- and with failures among them, every user has at most one pending order, if this held at the start.
  pub Reach-OnePending : {s t : Database} → Reach s t → OnePending s → OnePending t
  Reach-OnePending here h = h
  Reach-OnePending (next r st) h = Step-OnePending st (Reach-OnePending r h)
