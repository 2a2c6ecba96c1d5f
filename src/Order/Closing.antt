-- ===== src/Order/Closing.antt =====
-- Which orders a close reaches: a user's own pending order, or the pending orders whose time is over;
-- and that a close gives nothing back of what the wallet has paid.
use mathlib.Core.Option
use mathlib.Core.Path.{subst}
use vgate_manager.Prelude.{
  ℕ, ◌≡◌, refl, sym, String, Bool, true, false, ◌&&◌, none, some, arith, ltb_ℤ, ◌==◌, Bool-cases,
  Option-cases, inl, inr, if◌then◌else◌,
}
use vgate_manager.Db.Table.{first-update, count, update, update_none, count-update_zero}
use vgate_manager.Db.Action.{Result, ok, err, record_not_found, order_not_pending}
use vgate_manager.Model.Time.{Time}
use vgate_manager.Model.Order.{Order, closed, is_pending}
use vgate_manager.Model.Database.{Database}
use vgate_manager.Order.Defs.{order_by_id}
use vgate_manager.Order.Money.{SameMoney, orders-SameMoney}
use vgate_manager.Order.States.{
  close_mine, close_expired, get_order, is_overdue, update_orders, to_closed,
}

-- The orders for which `p` holds are closed, and nothing else of any order is changed.
abbrev pub Closes : (Order → Bool) → Database → Database → Type 0
Closes p db db' =
    (k : String)
    → order_by_id k db'
      ≡ Option.map (λ o. if p o then record o { status = closed } else o) (order_by_id k db)

-- A user may close the order.
abbrev pub may_close : String → Order → Bool
may_close user_id o = o.user_id == user_id && is_pending o.status

-- A user's close has found an order that the user may close and has closed it, or has found none and
-- changed nothing.
abbrev pub CloseMine : String → String → Database → Result (Unit {0}) × Database → Type 0
CloseMine id user_id db (ok _, db') =
    (o : Order) × (order_by_id id db ≡ some o)
    × (may_close user_id o ≡ true)
    × Closes (λ p. p.id == id) db db'
    × SameMoney db db'
CloseMine id user_id db (err _, db') =
    (db' ≡ db) × (elim (order_by_id id db) [ none ↦ false | some o ↦ may_close user_id o ] ≡ false)

-- A user closes exactly an own order that is pending: the close succeeds where the order is one, and
-- else changes nothing. No other order is touched, and no balance and no ledger row, so that nothing
-- is given back of an order that the wallet has paid in part.
pub close_mine-CloseMine :
    (id user_id : String) (db : Database) → CloseMine id user_id db (close_mine id user_id db)
unfolding close_mine get_order
close_mine-CloseMine id user_id db = elim (Option-cases (order_by_id id db)) [
  | inl n ↦
      let run : close_mine id user_id db ≡ (err record_not_found, db) = ground arith in
      subst (CloseMine id user_id db) (sym run) (refl, ground arith)
  | inr (o, e) ↦ elim (Bool-cases (may_close user_id o)) [
    | inl t ↦
        let after = update_orders (λ p. p.id == id) to_closed db in
        let run : close_mine id user_id db ≡ (ok tt, after) = ground arith in
        subst (CloseMine id user_id db) (sym run) (
          o,
          e,
          t,
          λ k.
              first-update (λ (p : Order). p.id == k) (λ (p : Order). p.id == id) to_closed
                db.orders (λ _ _. refl),
          orders-SameMoney _ db,
        )
    | inr f ↦ elim (Bool-cases (o.user_id == user_id)) [
      | inl own ↦
          let run : close_mine id user_id db ≡ (err order_not_pending, db) = ground arith in
          subst (CloseMine id user_id db) (sym run) (refl, ground arith)
      | inr other ↦
          let run : close_mine id user_id db ≡ (err record_not_found, db) = ground arith in
          subst (CloseMine id user_id db) (sym run) (refl, ground arith)
    ]
  ]
]

-- The order is pending and its time is over.
abbrev pub has_lapsed : Time → Order → Bool
has_lapsed now o =
    is_pending o.status && (elim o.expired_at [ none ↦ false | some t ↦ ltb_ℤ t now ])

pub record Swept (now : Time) (db : Database) (n : ℕ) (db' : Database) : Type 0 where
  pub closes : Closes (has_lapsed now) db db'
  pub counted : n ≡ count (has_lapsed now) db.orders
  pub none_left : count (has_lapsed now) db'.orders ≡ 0
  pub again : close_expired now db' ≡ (ok 0, db')
  pub money : SameMoney db db'

-- The sweep closes exactly the pending orders whose time is over and returns their number; none is
-- left, so that a second sweep at that time changes nothing; and no balance and no ledger row changes,
-- so that nothing is given back of an order that a wallet has paid in part.
pub close_expired-Swept :
    (now : Time) (db : Database)
    → (n : ℕ) × ((close_expired now db).0 ≡ ok n) × Swept now db n (close_expired now db).1
unfolding close_expired
close_expired-Swept now db =
    let left = count-update_zero (is_overdue now) to_closed db.orders (λ o _. ground arith) in
    let same =
      update_none (is_overdue now) to_closed (update (is_overdue now) to_closed db.orders) left in
    (
      count (is_overdue now) db.orders,
      refl,
      record {
        closes = λ k.
            first-update (λ (p : Order). p.id == k) (is_overdue now) to_closed db.orders
              (λ _ _. refl);
        counted = refl;
        none_left = left;
        again = λ i. (ok (left i), record db { orders = same i });
        money = orders-SameMoney _ db;
      },
    )
