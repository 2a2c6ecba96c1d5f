-- ===== src/Order/Pending.antt =====
-- A user has at most one pending order: the operations on existing orders keep it so. The child
-- `Creation` is about those that create one.
pub mod Creation
pub mod Steps
use vgate_manager.Prelude.{
  ℕ, ◌≡◌, ◌≤◌, refl, String, Bool, true, false, Option, none, some, arith, ◌==◌, sym, ap, ◌∙◌, eqb,
  ltb_ℤ, leb_ℤ, Bool-cases, Option-cases, inl, inr, List, ◌⊎◌, if◌then◌else◌, ◌&&◌, not,
}
use native.Mathlib.Nat.{le_trans}
use vgate_manager.Prelude.Int.{ℤ, pos}
use vgate_manager.Prelude.Float.{Float64}
use vgate_manager.Db.Table.{count, insert, update, count-insert, count-update-le}
use vgate_manager.Db.Action.{
  Result, ok, err, ◌>>=◌, bind-cases, require, require-cases, record_not_found, transaction_keeps,
  pure, ◌>>◌,
}
use vgate_manager.Model.User.{User}
use vgate_manager.Model.Product.{Plan, TrafficPackage}
use vgate_manager.Model.Order.{Order, Kind, plan, traffic, other, is_pending, is_closed, Status}
use vgate_manager.Model.Grant.{Reason, BalanceTransaction, TrafficGrant}
use vgate_manager.Model.Time.{Time}
use vgate_manager.Model.Database.{Database, Db, user_by_id}
use vgate_manager.Balance.{credit, debit}
use vgate_manager.Plan.{plan_by_id, package_by_id}
use vgate_manager.Order.Defs.{Env, is_open, order_by_trade, order_by_id}
use vgate_manager.Order.Effect.{
  apply_plan_effect, apply_traffic_effect, paid_cents_of, default_base, plan_effect, effect_of,
  apply_order_effect,
}
use vgate_manager.Order.Effect.Keeps.{keeps-apply_order_effect}
use vgate_manager.Order.States.{
  mark_paid, close_mine, close_expired, admin_update_status, admin_settle, admin_pay, awaits,
  settle_notified, grant_paid, to_paid, to_closed, update_orders, get_order, is_overdue,
}

-- What an action leaves alone: the orders.
abbrev pub KeepsOrders : {A : Type 0} → Db A → Type 0
KeepsOrders m = (db : Database) → (m db).1.orders ≡ db.orders

pub orders-debit :
    (id user_id : String) (amount : ℤ) (reason : Reason) (ref : String)
    → KeepsOrders (debit id user_id amount reason ref)
unfolding debit
orders-debit id user_id amount reason ref db = elim (Option-cases (user_by_id user_id db.users)) [
  | inl n ↦ ground arith
  | inr (u, s) ↦ ground arith
]

pub orders-credit :
    (id user_id : String) (amount : ℤ) (reason : Reason) (ref : String)
    → KeepsOrders (credit id user_id amount reason ref)
unfolding credit
orders-credit id user_id amount reason ref db = elim (Option-cases (user_by_id user_id db.users)) [
  | inl n ↦ ground arith
  | inr (u, s) ↦ ground arith
]

module _ (f : Float64) (env : Env) where
  pub orders-traffic_effect :
      (u : User) (p : TrafficPackage) → KeepsOrders (apply_traffic_effect f env u p)
  unfolding apply_traffic_effect
  orders-traffic_effect u p db = ground arith

  pub orders-plan_effect :
      (u : User) (p : Plan) (days paid_cents : ℤ) (base : Time)
      → KeepsOrders (apply_plan_effect f env u p days paid_cents base)
  unfolding apply_plan_effect
  orders-plan_effect u p days paid_cents base db = refl

  pub orders-apply_order_effect : (o : Order) → KeepsOrders (apply_order_effect f env o)
  orders-apply_order_effect o db =
      keeps-apply_order_effect f env (λ d. d.orders)
        (λ u p days c base d _. orders-plan_effect u p days c base d)
        (λ u p d _. orders-traffic_effect u p d) o db

-- No user has two pending orders.
abbrev pub AtMostOne : List Order → Type 0
AtMostOne l = (v : String) → count (is_open v) l ≤ 1

abbrev pub OnePending : Database → Type 0
OnePending db = AtMostOne db.orders

-- An update that opens no order keeps the property.
pub AtMostOne-update :
    (p : Order → Bool) (f : Order → Order) (l l' : List Order)
    → l' ≡ update p f l
    → ((o : Order) → is_pending (f o).status ≡ false)
    → AtMostOne l
    → AtMostOne l'
AtMostOne-update p f l l' e shut h v =
    rw e (le_trans (count-update-le (is_open v) p f l (λ o _ t. ground (arith, shut o))) (h v))

module _ (f : Float64) (env : Env) where
  orders-grant_paid : (out_trade_no : String) → KeepsOrders (grant_paid f env out_trade_no)
  orders-grant_paid out_trade_no db =
      require-cases (λ x. x.1.orders ≡ db.orders) record_not_found (order_by_trade out_trade_no)
        (apply_order_effect f env) db (λ o _. orders-apply_order_effect f env o db) (λ _. refl)

  pub orders-settle_notified :
      (out_trade_no trade_no platform : String) (db : Database)
      → (settle_notified f env out_trade_no trade_no platform db).1.orders
        ≡ update (awaits out_trade_no) (to_paid trade_no platform env.now) db.orders
  orders-settle_notified out_trade_no trade_no platform db =
      elim (Bool-cases (eqb (count (awaits out_trade_no) db.orders) 0)) [
        | inl t ↦ rw t refl
        | inr u ↦ rw u (
            orders-grant_paid out_trade_no
              (update_orders (awaits out_trade_no) (to_paid trade_no platform env.now) db))
      ]

  -- A payment, whichever order it names, and however it ends, leaves every user with at most one
  -- pending order if every user had at most one before.
  pub mark_paid-OnePending :
      (out_trade_no trade_no platform : String) (db : Database)
      → OnePending db
      → OnePending (mark_paid f env out_trade_no trade_no platform db).1
  unfolding mark_paid
  mark_paid-OnePending out_trade_no trade_no platform db h =
      transaction_keeps OnePending (settle_notified f env out_trade_no trade_no platform) db h (
        AtMostOne-update (awaits out_trade_no) (to_paid trade_no platform env.now) db.orders _
          (orders-settle_notified out_trade_no trade_no platform db) (λ _. refl) h)

  module _ (id manual : String) where
    abbrev payable : Order → Bool
    payable o = o.id == id && is_pending o.status

    orders-admin_pay :
        (db : Database)
        → (admin_pay f env id manual db).1.orders
          ≡ update payable (to_paid manual "manual" env.now) db.orders
    orders-admin_pay db =
        let db' = update_orders payable (to_paid manual "manual" env.now) db in
        elim (Bool-cases (eqb (count payable db.orders) 0)) [
          | inl t ↦ rw t refl
          | inr u ↦ rw u (
              require-cases (λ x. x.1.orders ≡ db'.orders) record_not_found (order_by_id id)
                (apply_order_effect f env) db' (λ o _. orders-apply_order_effect f env o db')
                (λ _. refl))
        ]

    admin_settle-OnePending :
        (status : Status) (o : Order) (db : Database)
        → OnePending db
        → OnePending (admin_settle f env id status manual o db).1
    admin_settle-OnePending status o db h = elim (Bool-cases (not (is_pending o.status))) [
      | inl t ↦ rw t h
      | inr u ↦ rw u (elim (Bool-cases (is_closed status)) [
        | inl t ↦ rw t (AtMostOne-update (λ p. p.id == id) to_closed db.orders _ refl (λ _. refl) h)
        | inr w ↦ rw w (
            bind-cases (λ x. OnePending x.1) (admin_pay f env id manual)
              (λ _. pure (to_paid manual "manual" env.now o)) db
              (λ _ t e. paid_up t (ap (λ x. x.1.orders) (sym e)))
              (λ _ t e. paid_up t (ap (λ x. x.1.orders) (sym e))))
      ])
    ]
      where
        paid_up : (t : Database) → t.orders ≡ (admin_pay f env id manual db).1.orders → OnePending t
        paid_up t e =
            AtMostOne-update payable (to_paid manual "manual" env.now) db.orders t.orders
              (e ∙ orders-admin_pay db) (λ _. refl) h

    -- An admin's update of an order's status, and however it ends, leaves every user with at most one
    -- pending order if every user had at most one before.
    pub admin_update_status-OnePending :
        (status : Status) (db : Database)
        → OnePending db
        → OnePending (admin_update_status f env id status manual db).1
    unfolding admin_update_status
    admin_update_status-OnePending status db h =
        transaction_keeps OnePending
          (require record_not_found (order_by_id id) >>= admin_settle f env id status manual) db h
          (require-cases (λ x. OnePending x.1) record_not_found (order_by_id id)
            (admin_settle f env id status manual) db (λ o _. admin_settle-OnePending status o db h)
            (λ _. h))

-- A user's close changes no order, or closes the one.
pub orders-close_mine :
    (id user_id : String) (db : Database)
    → ((close_mine id user_id db).1.orders ≡ db.orders)
      ⊎ ((close_mine id user_id db).1.orders ≡ update (λ o. o.id == id) to_closed db.orders)
unfolding close_mine get_order
orders-close_mine id user_id db = elim (Option-cases (order_by_id id db)) [
  | inl n ↦ inl (ground arith)
  | inr (o, e) ↦ elim (Bool-cases (o.user_id == user_id && is_pending o.status)) [
    | inl t ↦ inr (ground arith)
    | inr u ↦ inl (ground arith)
  ]
]

-- A user's close of an order, and also one that is refused, leaves every user with at most one
-- pending order if every user had at most one before.
pub close_mine-OnePending :
    (id user_id : String) (db : Database) → OnePending db → OnePending (close_mine id user_id db).1
close_mine-OnePending id user_id db h = elim (orders-close_mine id user_id db) [
  | inl e ↦ λ v. rw e (h v)
  | inr e ↦ AtMostOne-update (λ o. o.id == id) to_closed db.orders _ e (λ _. refl) h
]

-- The close of the overdue orders leaves every user with at most one pending order if every user
-- had at most one before.
pub close_expired-OnePending :
    (now : Time) (db : Database) → OnePending db → OnePending (close_expired now db).1
unfolding close_expired
close_expired-OnePending now db h =
    AtMostOne-update (is_overdue now) to_closed db.orders _ refl (λ _. refl) h
