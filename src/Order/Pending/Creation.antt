-- ===== src/Order/Pending/Creation.antt =====
-- `createFor` and `ChangePlan` create a pending order only for a user who has none.
use vgate_manager.Prelude.{
  ◌≡◌, refl, sym, ap, ◌∙◌, String, Bool, List, arith, ◌==◌, eq_iff, eqb_ℤ, ltb_ℤ, Bool-cases, inl,
  inr, ◌||◌,
}
use vgate_manager.Prelude.Int.{ℤ, pos}
use vgate_manager.Prelude.Float.{Float64}
use vgate_manager.Db.Table.{count, insert, count-insert}
use vgate_manager.Db.Action.{
  pure, ◌>>=◌, ◌>>◌, bind-cases, transaction_keeps, create-cases, require, require-cases,
  record_not_found,
}
use vgate_manager.Model.User.{User}
use vgate_manager.Model.Product.{Plan, PlanPriceEntry}
use vgate_manager.Model.Order.{Order}
use vgate_manager.Model.Grant.{purchase, plan_change_refund}
use vgate_manager.Model.Database.{Database, Db, user_by_id, exists}
use vgate_manager.Balance.{credit}
use vgate_manager.Order.Defs.{Env, Gateways, is_open, when, when-cases}
use vgate_manager.Order.Effect.{apply_order_effect, apply_plan_effect}
use vgate_manager.Order.Checkout.{
  Params, wallet_share, debit_share, settled, place, draw_and_place, pay_from_wallet, create_order,
  create_for,
}
use vgate_manager.Order.Checkout.Keeps.{create_for_keeps, change_plan_keeps}
use vgate_manager.Order.Change.{
  refund_old, switch_order, place_switch, draw_switch, switch_in_wallet, remaining_of, change_plan,
}
use vgate_manager.Order.Pending.{
  AtMostOne, OnePending, orders-debit, orders-credit, orders-apply_order_effect, orders-plan_effect,
}

AtMostOne-insert :
    (o : Order) (l : List Order)
    → count (is_open o.user_id) l ≡ 0
    → AtMostOne l
    → AtMostOne (insert o l)
AtMostOne-insert o l none_open h v = elim (Bool-cases (is_open v o)) [
  | inl t ↦
      let same : o.user_id ≡ v = (eq_iff o.user_id v).0 (ground arith) in
      rw (count-insert (is_open v) o l, t, ← same) (omega (arith, none_open))
  | inr u ↦ rw (count-insert (is_open v) o l, u) (omega (arith, h v))
]

module _ (env : Env) where
  user_id-settled : (o : Order) (used : ℤ) → (settled env o used).user_id ≡ o.user_id
  user_id-settled o used = ground arith

  orders-debit_share :
      (user_id : String) (used : ℤ) (ref : String) (db : Database)
      → (debit_share env user_id used ref db).1.orders ≡ db.orders
  unfolding debit_share
  orders-debit_share user_id used ref db = elim (Bool-cases (ltb_ℤ (pos 0) used)) [
    | inl t ↦ rw t (orders-debit env.debit_id user_id used purchase ref db)
    | inr u ↦ rw u refl
  ]

-- An order that is written for a user without one, and what runs after it, leaves the rest.
create_order-OnePending :
    {B : Type 0} (o : Order) (k : Db B) (db : Database)
    → count (is_open o.user_id) db.orders ≡ 0
    → OnePending db
    → ((t : Database) → (k t).1.orders ≡ t.orders)
    → OnePending ((create_order o >> k) db).1
create_order-OnePending o k db none_open h keeps =
    create-cases (λ x. OnePending x.1)
      (λ d. exists (λ (p : Order). p.id == o.id || p.out_trade_no == o.out_trade_no) d.orders)
      (λ d. record d { orders = insert o d.orders }) k db
      (λ _.
        let t = record db { orders = insert o db.orders } in
        λ v. rw (keeps t) (AtMostOne-insert o db.orders none_open h v))
      (λ _. h)

module _ (f : Float64) (env : Env) where
  orders-when_effect :
      {B : Type 0} (c : Bool) (o : Order) (b : B) (db : Database)
      → ((when c (apply_order_effect f env o) >> pure b) db).1.orders ≡ db.orders
  orders-when_effect c o b db =
      when-cases (λ x. x.1.orders ≡ db.orders) c (apply_order_effect f env o) (pure b) db
        (λ _.
          bind-cases (λ x. x.1.orders ≡ db.orders) (apply_order_effect f env o) (λ _. pure b) db
            (λ _ t e. ap (λ x. x.1.orders) (sym e) ∙ orders-apply_order_effect f env o db)
            (λ _ t e. ap (λ x. x.1.orders) (sym e) ∙ orders-apply_order_effect f env o db))
        (λ _. refl)

  place-OnePending :
      (o : Order) (used remaining : ℤ) (db : Database)
      → count (is_open o.user_id) db.orders ≡ 0
      → OnePending db
      → OnePending (place f env o used remaining db).1
  unfolding place
  place-OnePending o used remaining db none_open h =
      let s = settled env o used in
      create_order-OnePending s
        (when (eqb_ℤ used o.amount) (apply_order_effect f env s) >> pure (s, used, remaining)) db
        (rw (user_id-settled env o used) none_open) h
        (orders-when_effect (eqb_ℤ used o.amount) s (s, used, remaining))

  pay_from_wallet-OnePending :
      (o : Order) (db : Database)
      → count (is_open o.user_id) db.orders ≡ 0
      → OnePending db
      → OnePending (pay_from_wallet f env o db).1
  unfolding pay_from_wallet
  pay_from_wallet-OnePending o db none_open h =
      require-cases (λ x. OnePending x.1) record_not_found (λ d. user_by_id o.user_id d.users)
        (draw_and_place f env o) db
        (λ u _.
          let used = wallet_share u.balance_cents o.amount in
          bind-cases (λ x. OnePending x.1) (debit_share env o.user_id used o.id)
            (λ remaining. place f env o used remaining) db
            (λ remaining t e.
              let same : t.orders ≡ db.orders =
                ap (λ x. x.1.orders) (sym e) ∙ orders-debit_share env o.user_id used o.id db in
              place-OnePending o used remaining t (rw same none_open) (λ v. rw same (h v)))
            (λ _ t e.
              let same : t.orders ≡ db.orders =
                ap (λ x. x.1.orders) (sym e) ∙ orders-debit_share env o.user_id used o.id db in
              λ v. rw same (h v)))
        (λ _. h)

module _ (f : Float64) (g : Gateways) (env : Env) where
  orders-refund_old :
      (user_id : String) (remaining : ℤ) (db : Database)
      → (refund_old f g env user_id remaining db).1.orders ≡ db.orders
  unfolding refund_old
  orders-refund_old user_id remaining db = elim (Bool-cases (ltb_ℤ (pos 0) remaining)) [
    | inl t ↦ rw t (
        bind-cases (λ x. x.1.orders ≡ db.orders)
          (credit env.credit_id user_id remaining plan_change_refund "") (λ _. pure tt) db
          (λ _ t e.
            ap (λ x. x.1.orders) (sym e)
            ∙ orders-credit env.credit_id user_id remaining plan_change_refund "" db)
          (λ _ t e.
            ap (λ x. x.1.orders) (sym e)
            ∙ orders-credit env.credit_id user_id remaining plan_change_refund "" db))
    | inr u ↦ rw u refl
  ]

  orders-when_plan_effect :
      {B : Type 0} (c : Bool) (u : User) (pl : Plan) (days paid_cents : ℤ) (b : B) (db : Database)
      → ((when c (apply_plan_effect f env u pl days paid_cents env.now) >> pure b) db).1.orders
        ≡ db.orders
  orders-when_plan_effect c u pl days paid_cents b db =
      when-cases (λ x. x.1.orders ≡ db.orders) c
        (apply_plan_effect f env u pl days paid_cents env.now) (pure b) db
        (λ _.
          bind-cases (λ x. x.1.orders ≡ db.orders)
            (apply_plan_effect f env u pl days paid_cents env.now) (λ _. pure b) db
            (λ _ t e.
              ap (λ x. x.1.orders) (sym e)
              ∙ orders-plan_effect f env u pl days paid_cents env.now db)
            (λ _ t e.
              ap (λ x. x.1.orders) (sym e)
              ∙ orders-plan_effect f env u pl days paid_cents env.now db))
        (λ _. refl)

  module _ (user_id : String) (pl : Plan) (entry : PlanPriceEntry) (platform : String) where
    draw_switch-OnePending :
        (u : User) (db : Database)
        → count (is_open user_id) db.orders ≡ 0
        → OnePending db
        → OnePending (draw_switch f g env user_id pl entry platform u db).1
    draw_switch-OnePending u db none_open h =
        let used = wallet_share u.balance_cents entry.price in
        let o = switch_order f g env user_id pl entry platform used in
        let same = orders-debit_share env user_id used "" db in
        bind-cases (λ x. OnePending x.1) (debit_share env user_id used "")
          (λ left. place_switch f g env user_id pl entry platform u used left) db
          (λ left t e.
            let here : t.orders ≡ db.orders = ap (λ x. x.1.orders) (sym e) ∙ same in
            create_order-OnePending o
              (when (eqb_ℤ used entry.price)
                  (apply_plan_effect f env u pl entry.duration_days entry.price env.now)
                >> pure (o, used, left))
              t (rw here none_open) (λ v. rw here (h v))
              (orders-when_plan_effect (eqb_ℤ used entry.price) u pl entry.duration_days entry.price
                (o, used, left)))
          (λ _ t e.
            let here : t.orders ≡ db.orders = ap (λ x. x.1.orders) (sym e) ∙ same in
            λ v. rw here (h v))

    switch_in_wallet-OnePending :
        (remaining : ℤ) (db : Database)
        → count (is_open user_id) db.orders ≡ 0
        → OnePending db
        → OnePending (switch_in_wallet f g env user_id pl entry platform remaining db).1
    unfolding switch_in_wallet
    switch_in_wallet-OnePending remaining db none_open h =
        let same = orders-refund_old user_id remaining db in
        bind-cases (λ x. OnePending x.1) (refund_old f g env user_id remaining)
          (λ _.
            require record_not_found (λ d. user_by_id user_id d.users)
            >>= draw_switch f g env user_id pl entry platform)
          db
          (λ _ t e.
            let here : t.orders ≡ db.orders = ap (λ x. x.1.orders) (sym e) ∙ same in
            require-cases (λ x. OnePending x.1) record_not_found (λ d. user_by_id user_id d.users)
              (draw_switch f g env user_id pl entry platform) t
              (λ u _. draw_switch-OnePending u t (rw here none_open) (λ v. rw here (h v)))
              (λ _ v. rw here (h v)))
          (λ _ t e.
            let here : t.orders ≡ db.orders = ap (λ x. x.1.orders) (sym e) ∙ same in
            λ v. rw here (h v))

  -- A purchase, by the user or by an admin, and however it ends, leaves every user with at most
  -- one pending order if every user had at most one before.
  pub create_for-OnePending :
      (user_id : String) (p : Params) (is_admin : Bool) (db : Database)
      → OnePending db
      → OnePending (create_for f g env user_id p is_admin db).1
  create_for-OnePending user_id p is_admin db h =
      create_for_keeps f g env db OnePending h
        (λ o none_open.
          transaction_keeps OnePending (pay_from_wallet f env o) db h
            (pay_from_wallet-OnePending f env o db none_open h))
        user_id p is_admin

  -- A change of plan, and however it ends, leaves every user with at most one pending order if
  -- every user had at most one before.
  pub change_plan-OnePending :
      (user_id plan_id plan_price_id platform : String) (db : Database)
      → OnePending db
      → OnePending (change_plan f g env user_id plan_id plan_price_id platform db).1
  change_plan-OnePending user_id plan_id plan_price_id platform db h =
      change_plan_keeps f g env db OnePending h
        (λ o none_open.
          transaction_keeps OnePending (pay_from_wallet f env o) db h
            (pay_from_wallet-OnePending f env o db none_open h))
        user_id
        (λ pl entry chosen none_open.
          let remaining = remaining_of f g env (user_by_id user_id db.users) in
          transaction_keeps OnePending (switch_in_wallet f g env user_id pl entry chosen remaining)
            db h (switch_in_wallet-OnePending user_id pl entry chosen remaining db none_open h))
        plan_id plan_price_id platform
