-- ===== src/Order/Money.antt =====
-- The operations on an existing order leave the wallets and their ledger alone.
use mathlib.Core.Option
use mathlib.Core.Path.{subst}
use vgate_manager.Prelude.{
  ◌≡◌, refl, ap, ◌∙◌, String, Bool, Option, some, List, arith, ◌==◌, eq_iff, eqb, Bool-cases,
  Option-cases, inl, inr, ◌&&◌, not,
}
use vgate_manager.Prelude.Int.{ℤ, add64}
use vgate_manager.Prelude.Float.{Float64}
use vgate_manager.Db.Table.{update, count}
use vgate_manager.Db.Action.{
  pure, require, ◌>>=◌, bind-cases, require-cases, transaction_keeps, record_not_found,
}
use vgate_manager.Model.User.{User}
use vgate_manager.Model.Product.{Plan, TrafficPackage}
use vgate_manager.Model.Order.{Order, Status, is_pending, is_closed}
use vgate_manager.Model.Time.{Time}
use vgate_manager.Model.Database.{Database, user_by_id}
use vgate_manager.Balance.Posting.{balance_of, user_by_id-update, id-user_by_id}
use vgate_manager.Order.Defs.{Env, order_by_id, order_by_trade}
use vgate_manager.Order.Effect.{
  apply_plan_effect, apply_traffic_effect, with_plan, apply_order_effect,
}
use vgate_manager.Order.Effect.Keeps.{keeps-apply_order_effect}
use vgate_manager.Order.States.{
  mark_paid, admin_update_status, admin_settle, admin_pay, awaits, settle_notified, to_paid,
  update_orders,
}

-- The same balances and the same ledger.
pub record SameMoney (db db' : Database) : Type 0 where
  pub balances : (v : String) → balance_of v db' ≡ balance_of v db
  pub ledger : db'.balance_transactions ≡ db.balance_transactions

pub SameMoney-refl : (db : Database) → SameMoney db db
SameMoney-refl db = record { balances = λ v. refl; ledger = refl }

-- An update of the orders is none of the wallets.
pub orders-SameMoney : (l : List Order) (db : Database) → SameMoney db (record db { orders = l })
unfolding balance_of
orders-SameMoney l db = record { balances = λ v. refl; ledger = refl }

pub SameMoney-trans : (a b c : Database) → SameMoney a b → SameMoney b c → SameMoney a c
SameMoney-trans a b c p q = record {
  balances = λ v. q.balances v ∙ p.balances v;
  ledger = q.ledger ∙ p.ledger;
}

-- An update of the row of a user that keeps the row's key and balance.
balance_of-update :
    (v : String) (u : User) (g : User → User) (db : Database)
    → user_by_id u.id db.users ≡ some u
    → ((w : User) → w.id ≡ u.id → (g w).id ≡ u.id)
    → (g u).balance_cents ≡ u.balance_cents
    → balance_of v (record db { users = update (λ w. w.id == u.id) g db.users }) ≡ balance_of v db
unfolding balance_of
balance_of-update v u g db found key money =
    rw (user_by_id-update v u.id g db.users key) (elim (Option-cases (user_by_id v db.users)) [
      | inl n ↦ rw n refl
      | inr (w, s) ↦ rw s (elim (Bool-cases (w.id == u.id)) [
        | inl t ↦
            let there : w.id ≡ u.id = (eq_iff w.id u.id).0 t in
            let here : w.id ≡ v = id-user_by_id v db.users s in
            rw t (ground (arith, money, here, there))
        | inr n ↦ rw n refl
      ])
    ])

-- An update that keeps the key and the balance of every row it may meet.
balance_of-update_rows :
    (v k : String) (g : User → User) (db : Database)
    → ((w : User) → w.id ≡ k → (g w).id ≡ k)
    → ((w : User) → (g w).balance_cents ≡ w.balance_cents)
    → balance_of v (record db { users = update (λ w. w.id == k) g db.users }) ≡ balance_of v db
unfolding balance_of
balance_of-update_rows v k g db key money =
    rw (user_by_id-update v k g db.users key) (elim (Option-cases (user_by_id v db.users)) [
      | inl n ↦ rw n refl
      | inr (w, s) ↦ rw s (ground (arith, money w))
    ])

module _ (f : Float64) (env : Env) where
  balance_of-plan_effect :
      (v : String) (u : User) (p : Plan) (days paid_cents : ℤ) (base : Time) (db : Database)
      → balance_of v (apply_plan_effect f env u p days paid_cents base db).1 ≡ balance_of v db
  unfolding apply_plan_effect with_plan
  balance_of-plan_effect v u p days paid_cents base db =
      balance_of-update_rows v u.id _ db (λ _ e. e) (λ _. refl)

  abbrev more_traffic : User → TrafficPackage → User
  more_traffic u p = record u { traffic_quota_bytes = add64 u.traffic_quota_bytes p.quota_bytes }

  users-traffic_effect :
      (u : User) (p : TrafficPackage) (db : Database)
      → (apply_traffic_effect f env u p db).1.users
        ≡ update (λ w. w.id == u.id) (λ _. more_traffic u p) db.users
  unfolding apply_traffic_effect
  users-traffic_effect u p db = ground arith

  balance_of-traffic_effect :
      (v : String) (u : User) (p : TrafficPackage) (db : Database)
      → user_by_id u.id db.users ≡ some u
      → balance_of v (apply_traffic_effect f env u p db).1 ≡ balance_of v db
  unfolding apply_traffic_effect balance_of
  balance_of-traffic_effect v u p db found =
      ap (λ l. Option.map (λ (w : User). w.balance_cents) (user_by_id v l))
        (users-traffic_effect u p db)
      ∙ balance_of-update v u (λ _. more_traffic u p) db found (λ _ _. refl) refl

  ledger-plan_effect :
      (u : User) (p : Plan) (days paid_cents : ℤ) (base : Time) (db : Database)
      → (apply_plan_effect f env u p days paid_cents base db).1.balance_transactions
        ≡ db.balance_transactions
  unfolding apply_plan_effect
  ledger-plan_effect u p days paid_cents base db = refl

  ledger-traffic_effect :
      (u : User) (p : TrafficPackage) (db : Database)
      → (apply_traffic_effect f env u p db).1.balance_transactions ≡ db.balance_transactions
  unfolding apply_traffic_effect
  ledger-traffic_effect u p db = ground arith

  pub apply_plan_effect-SameMoney :
      (u : User) (p : Plan) (days paid_cents : ℤ) (base : Time) (db : Database)
      → SameMoney db (apply_plan_effect f env u p days paid_cents base db).1
  apply_plan_effect-SameMoney u p days paid_cents base db = record {
    balances = λ v. balance_of-plan_effect v u p days paid_cents base db;
    ledger = ledger-plan_effect u p days paid_cents base db;
  }

  -- Whatever an order grants, and also where it cannot, no wallet changes.
  pub apply_order_effect-SameMoney :
      (o : Order) (db : Database) → SameMoney db (apply_order_effect f env o db).1
  apply_order_effect-SameMoney o db = record {
    balances = λ v.
        keeps-apply_order_effect f env (balance_of v)
          (λ u p d c b t _. balance_of-plan_effect v u p d c b t)
          (λ u p t e. balance_of-traffic_effect v u p t e) o db;
    ledger =
        keeps-apply_order_effect f env (λ t. t.balance_transactions)
          (λ u p d c b t _. ledger-plan_effect u p d c b t) (λ u p t _. ledger-traffic_effect u p t)
          o db;
  }

  -- An update of the orders, then the grant of one of them.
  granted-SameMoney :
      (read : Database → Option Order) (p : Order → Bool) (g : Order → Order) (db : Database)
      → SameMoney db
          ((require record_not_found read >>= apply_order_effect f env) (update_orders p g db)).1
  granted-SameMoney read p g db =
      require-cases (λ x. SameMoney db x.1) record_not_found read (apply_order_effect f env)
        (update_orders p g db)
        (λ o _.
          SameMoney-trans db (update_orders p g db) _ (orders-SameMoney (update p g db.orders) db)
            (apply_order_effect-SameMoney o (update_orders p g db)))
        (λ _. orders-SameMoney (update p g db.orders) db)

  -- A payment notification, however it ends, changes no balance and no ledger row.
  pub mark_paid-SameMoney :
      (out_trade_no trade_no platform : String) (db : Database)
      → SameMoney db (mark_paid f env out_trade_no trade_no platform db).1
  unfolding mark_paid
  mark_paid-SameMoney out_trade_no trade_no platform db =
      transaction_keeps (SameMoney db) (settle_notified f env out_trade_no trade_no platform) db
        (SameMoney-refl db)
        (elim (Bool-cases (eqb (count (awaits out_trade_no) db.orders) 0)) [
          | inl t ↦ rw t (orders-SameMoney _ db)
          | inr n ↦ rw n (
              granted-SameMoney (order_by_trade out_trade_no) (awaits out_trade_no)
                (to_paid trade_no platform env.now) db)
        ])

  -- What an admin's update of an order does to it, once it is read.
  admin_settle-SameMoney :
      (id manual : String) (status : Status) (o : Order) (db : Database)
      → SameMoney db (admin_settle f env id status manual o db).1
  admin_settle-SameMoney id manual status o db = elim (Bool-cases (not (is_pending o.status))) [
    | inl t ↦ rw t (SameMoney-refl db)
    | inr u ↦ rw u (elim (Bool-cases (is_closed status)) [
      | inl t ↦ rw t (orders-SameMoney _ db)
      | inr w ↦ rw w (
          bind-cases (λ x. SameMoney db x.1) (admin_pay f env id manual)
            (λ _. pure (to_paid manual "manual" env.now o)) db
            (λ _ t e. subst (λ x. SameMoney db x.1) e paid_up)
            (λ _ t e. subst (λ x. SameMoney db x.1) e paid_up))
    ])
  ]
    where
      paid_up : SameMoney db (admin_pay f env id manual db).1
      paid_up =
          elim (Bool-cases
            (eqb (count (λ (p : Order). p.id == id && is_pending p.status) db.orders) 0)) [
              | inl t ↦ rw t (orders-SameMoney _ db)
              | inr n ↦ rw n (
                  granted-SameMoney (order_by_id id) (λ p. p.id == id && is_pending p.status)
                    (to_paid manual "manual" env.now) db)
            ]

  -- An admin's update of an order's status, however it ends, changes no balance and no ledger row.
  pub admin_update_status-SameMoney :
      (id manual : String) (status : Status) (db : Database)
      → SameMoney db (admin_update_status f env id status manual db).1
  unfolding admin_update_status
  admin_update_status-SameMoney id manual status db =
      transaction_keeps (SameMoney db)
        (require record_not_found (order_by_id id) >>= admin_settle f env id status manual) db
        (SameMoney-refl db)
        (require-cases (λ x. SameMoney db x.1) record_not_found (order_by_id id)
          (admin_settle f env id status manual) db
          (λ o _. admin_settle-SameMoney id manual status o db) (λ _. SameMoney-refl db))
