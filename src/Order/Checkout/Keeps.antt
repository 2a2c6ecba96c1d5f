-- ===== src/Order/Checkout/Keeps.antt =====
-- `createFor` and `ChangePlan` write in their transactions only: what these keep, they keep.
use mathlib.Core.Path.{subst}
use vgate_manager.Prelude.{
  ◌≡◌, sym, ap, ◌∙◌, String, Bool, false, Option, ◌==◌, ltb, Bool-cases, inl, inr, ◌&&◌, not, arith,
  if◌then◌else◌,
}
use vgate_manager.Prelude.Int.{sub64}
use vgate_manager.Prelude.Float.{Float64}
use vgate_manager.Db.Table.{count}
use vgate_manager.Db.Action.{
  ok, err, pure, lift, require, transaction, ◌>>=◌, bind-cases, lift-cases, require-cases,
  fail_if-cases, record_not_found, email_not_verified, pending_order_exists,
}
use vgate_manager.Model.User.{User}
use vgate_manager.Model.Product.{Plan, PlanPriceEntry}
use vgate_manager.Model.Order.{Order}
use vgate_manager.Model.Database.{Database, Db, user_by_id}
use vgate_manager.Plan.{load_plan_price, plan_by_id}
use vgate_manager.Balance.Posting.{id-user_by_id}
use vgate_manager.Order.Defs.{Env, Gateways, Directive, is_open}
use vgate_manager.Order.Checkout.{
  Params, pay_from_wallet, quote, draft, choose_platform, collect, check_out, admit, create_for,
}
use vgate_manager.Order.Checkout.Quote.{IsQuote, quote-IsQuote, load_plan_price_reads}
use vgate_manager.Order.Change.{
  remaining_of, switch_in_wallet, present, apply_plan_switch, purchase_plan, is_cross, change_plan,
  purchase_params, purchase_result, change_from, change_unless_open, change_priced, change_to,
  change_at,
}

module _ (f : Float64) (g : Gateways) (env : Env) (db : Database) (Q : Database → Type 0)
    (before : Q db) where
  module _
      (paid : (o : Order)
        → count (is_open o.user_id) db.orders ≡ 0
        → Q (transaction (pay_from_wallet f env o) db).1) where
    check_out_keeps :
        (order : Order) (u : User) (p : Params) (is_admin : Bool)
        → count (is_open order.user_id) db.orders ≡ 0
        → Q (check_out f g env order u p is_admin db).1
    check_out_keeps order u p is_admin none_open =
        bind-cases (λ x. Q x.1) (quote env order u p is_admin) sell db
          (λ o t e.
            let q : IsQuote order db (ok o, t) =
              subst (IsQuote order db) e (quote-IsQuote env order u p is_admin db) in
            rw q.1 (sold o (rw q.0.user_id none_open)))
          (λ c t e.
            let q : IsQuote order db (err c, t) =
              subst (IsQuote order db) e (quote-IsQuote env order u p is_admin db) in
            rw q before)
      where
        sell : Order → Db (Order × Directive)
        sell o =
            transaction (pay_from_wallet f env o) >>= λ done. lift (collect g done.0 done.1 done.2)

        sold : (o : Order) → count (is_open o.user_id) db.orders ≡ 0 → Q (sell o db).1
        sold o none =
            let kept = paid o none in
            bind-cases (λ x. Q x.1) (transaction (pay_from_wallet f env o))
              (λ done. lift (collect g done.0 done.1 done.2)) db
              (λ _ t e. subst (λ x. Q x.1) e kept) (λ _ t e. subst (λ x. Q x.1) e kept)

    admit_keeps :
        (u : User) (p : Params) (is_admin : Bool)
        → count (is_open u.id) db.orders ≡ 0
        → Q (admit f g env p is_admin u db).1
    admit_keeps u p is_admin none_open =
        let next : String → Db (Order × Directive) =
          λ platform. check_out f g env (draft env u.id p.kind platform) u p is_admin in
        fail_if-cases (λ x. Q x.1) (not is_admin && not u.email_verified) email_not_verified
          (lift (choose_platform g p.platform) >>= next) db
          (λ _.
            lift-cases (λ x. Q x.1) (choose_platform g p.platform) next db
              (λ platform _.
                check_out_keeps (draft env u.id p.kind platform) u p is_admin none_open)
              (λ _ _. before))
          (λ _. before)

    pub create_for_keeps :
        (user_id : String) (p : Params) (is_admin : Bool)
        → Q (create_for f g env user_id p is_admin db).1
    unfolding create_for
    create_for_keeps user_id p is_admin =
        let read : Database → Option User = λ d. user_by_id user_id d.users in
        fail_if-cases (λ x. Q x.1) (ltb 0 (count (is_open user_id) db.orders)) pending_order_exists
          (require record_not_found read >>= admit f g env p is_admin) db
          (λ free.
            require-cases (λ x. Q x.1) record_not_found read (admit f g env p is_admin) db
              (λ u e.
                admit_keeps u p is_admin (rw (id-user_by_id user_id db.users e) (ground arith)))
              (λ _. before))
          (λ _. before)

    module _ (user_id : String)
        (switched : (pl : Plan) (entry : PlanPriceEntry) (platform : String)
          → count (is_open user_id) db.orders ≡ 0
          → Q
              (transaction
                (switch_in_wallet f g env user_id pl entry platform
                  (remaining_of f g env (user_by_id user_id db.users)))
                db).1) where
      apply_plan_switch_keeps :
          (pl : Plan) (entry : PlanPriceEntry) (platform : String)
          → count (is_open user_id) db.orders ≡ 0
          → Q (apply_plan_switch f g env user_id pl entry platform db).1
      unfolding apply_plan_switch
      apply_plan_switch_keeps pl entry platform none_open =
          let remaining = remaining_of f g env (user_by_id user_id db.users) in
          let chosen = if platform == "" then g.default_platform else platform in
          let m = transaction (switch_in_wallet f g env user_id pl entry chosen remaining) in
          let kept = switched pl entry chosen none_open in
          bind-cases (λ x. Q x.1) m
            (λ done. lift (present f g env remaining (sub64 entry.price remaining) done)) db
            (λ _ t e. subst (λ x. Q x.1) e kept) (λ _ t e. subst (λ x. Q x.1) e kept)

      purchase_plan_keeps :
          (plan_id : String) (entry : PlanPriceEntry) (platform : String)
          → Q (purchase_plan f g env user_id plan_id entry platform db).1
      unfolding purchase_plan
      purchase_plan_keeps plan_id entry platform =
          bind-cases (λ x. Q x.1)
            (create_for f g env user_id (purchase_params f g env plan_id entry platform) false)
            (λ made. pure (purchase_result f g env entry made)) db
            (λ _ t e.
              subst (λ x. Q x.1) e
                (create_for_keeps user_id (purchase_params f g env plan_id entry platform) false))
            (λ _ t e.
              subst (λ x. Q x.1) e
                (create_for_keeps user_id (purchase_params f g env plan_id entry platform) false))

      pub change_plan_keeps :
          (plan_id plan_price_id platform : String)
          → Q (change_plan f g env user_id plan_id plan_price_id platform db).1
      unfolding change_plan
      change_plan_keeps plan_id plan_price_id platform =
          require-cases (λ x. Q x.1) record_not_found (λ d. user_by_id user_id d.users)
            (change_from f g env user_id plan_id plan_price_id platform) db
            (λ u _.
              fail_if-cases (λ x. Q x.1) (not u.email_verified) email_not_verified
                (change_unless_open f g env user_id plan_id plan_price_id platform u) db
                (λ _.
                  fail_if-cases (λ x. Q x.1) (ltb 0 (count (is_open user_id) db.orders))
                    pending_order_exists
                    (change_priced f g env user_id plan_id plan_price_id platform u) db
                    (λ free.
                      require-cases (λ x. Q x.1) record_not_found (plan_by_id plan_id)
                        (change_to f g env user_id plan_id plan_price_id platform u) db
                        (λ pl _. to_keeps u pl (ground arith)) (λ _. before))
                    (λ _. before))
                (λ _. before))
            (λ _. before)
        where
          to_keeps :
              (u : User) (pl : Plan)
              → count (is_open user_id) db.orders ≡ 0
              → Q (change_to f g env user_id plan_id plan_price_id platform u pl db).1
          to_keeps u pl none_open =
              let allow = u.current_product_id == plan_id in
              bind-cases (λ x. Q x.1) (load_plan_price plan_id plan_price_id allow)
                (change_at f g env user_id plan_id platform u pl) db
                (λ price t e.
                  let same : t ≡ db =
                    ap (λ x. x.1) (sym e) ∙ load_plan_price_reads plan_id plan_price_id allow db in
                  rw same (elim (Bool-cases (is_cross f g env u plan_id)) [
                    | inl c ↦
                        rw (change_at, c) (apply_plan_switch_keeps pl price platform none_open)
                    | inr c ↦ rw (change_at, c) (purchase_plan_keeps plan_id price platform)
                  ]))
                (λ _ t e.
                  rw (ap (λ x. x.1) (sym e) ∙ load_plan_price_reads plan_id plan_price_id allow db)
                    before)
