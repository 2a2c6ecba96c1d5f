-- ===== src/Order/Wallet/Switch.antt =====
-- A change of plan gives back the value that the old plan has left, and charges the new price.
use mathlib.Core.Path.{subst}
use vgate_manager.Prelude.{
  ◌≡◌, refl, sym, ap, ◌∙◌, String, true, false, some, arith, ltb_ℤ, eqb_ℤ, eq_refl, Bool-cases, inl,
  inr, ◌⊎◌,
}
use vgate_manager.Prelude.Int.{
  ℤ, pos, add64, add64_lem, ◌+ℤ◌, ◌-ℤ◌, ◌≤ℤ◌, ◌<ℤ◌, Fits, sub64, sub64_nonneg, int_laws,
}
use vgate_manager.Prelude.Float.{Float64}
use vgate_manager.Db.Action.{
  transaction, transaction_ok, on_success, OnSuccess, ok, err, Result, pure, ◌>>=◌, bind-cases,
  require, require-cases, record_not_found,
}
use vgate_manager.Model.User.{User}
use vgate_manager.Model.Product.{Plan, PlanPriceEntry}
use vgate_manager.Model.Order.{Order, Status}
use vgate_manager.Model.Grant.{plan_change_refund}
use vgate_manager.Model.Database.{Database, user_by_id}
use vgate_manager.Balance.{credit}
use vgate_manager.Balance.Posting.{balance_of, credit_inversion, credit-Posted, balance_of_found}
use vgate_manager.Balance.Audit.{IsSound, credit-IsSound}
use vgate_manager.Order.Defs.{Env, Gateways}
use vgate_manager.Order.Effect.{apply_plan_effect}
use vgate_manager.Order.Money.{apply_plan_effect-SameMoney}
use vgate_manager.Order.Checkout.{wallet_share, debit_share}
use vgate_manager.Order.Wallet.{
  Moved, Moved-SameMoney, debit_share-Drawn, wallet_share-bounds, wallet_share_partial,
  placed-SameMoney,
}
use vgate_manager.Order.Change.{
  refund_old, switch_order, place_switch, draw_switch, switch_in_wallet,
}

-- What a switch that succeeds has done to a wallet of `old` cents, which got back `remaining`: the
-- new plan is paid if the wallet then covered its price, and else its order awaits exactly the rest. A
-- payment of it is to extend the old period.
pub record Switched (user_id : String) (old remaining price : ℤ) (db : Database) (o : Order)
    (used : ℤ) (db' : Database) : Type 0 where
  pub split :
      ((o.status ≡ Status.paid) × (used ≡ price))
      ⊎ ((o.status ≡ Status.pending)
          × (used ≡ old +ℤ remaining)
          × (o.amount +ℤ used ≡ price)
          × (pos 0 <ℤ o.amount))
  pub moved : Moved user_id ((old +ℤ remaining) -ℤ used) db db'
  pub extends : o.extend_from_old_expiry ≡ true

abbrev pub Switching : String → ℤ → ℤ → ℤ → Database → Result (Order × ℤ × ℤ) × Database → Type 0
Switching user_id old remaining price db (ok (o, used, _), db') =
    Switched user_id old remaining price db o used db'
Switching user_id old remaining price db (err _, db') = db' ≡ db

credit-Moved :
    (id user_id : String) (old amount : ℤ) (db : Database) {db' : Database} {b : ℤ}
    → IsSound db
    → balance_of user_id db ≡ some old
    → Fits (old +ℤ amount)
    → credit id user_id amount plan_change_refund "" db ≡ (ok b, db')
    → Moved user_id (old +ℤ amount) db db'
credit-Moved id user_id old amount db {db'} {b} w s fr h =
    let (u, found, p, e, _) = credit_inversion id user_id amount plan_change_refund "" db h in
    let own = balance_of_found user_id db found in
    let same : u.balance_cents ≡ old = ground arith in
    let posting = credit-Posted id user_id amount plan_change_refund "" db h in
    let exact : b ≡ old +ℤ amount = e ∙ ap (λ x. add64 x amount) same ∙ add64_lem old amount fr in
    let only : (x : ℤ) → balance_of user_id db ≡ some x → Fits (x +ℤ amount) =
      λ x k. let sx : old ≡ x = ground arith in subst (λ y. Fits (y +ℤ amount)) sx fr in
    record {
      balance = ground (arith, posting.balances user_id, eq_refl user_id);
      others = λ v ne. ground (arith, posting.balances v);
      sound = credit-IsSound id user_id amount plan_change_refund "" db w only h;
    }

Moved-trans :
    (user_id : String) (b c : ℤ) (x y z : Database)
    → Moved user_id b x y
    → Moved user_id c y z
    → Moved user_id c x z
Moved-trans user_id b c x y z p q = record {
  balance = q.balance;
  others = λ v ne. q.others v ne ∙ p.others v ne;
  sound = q.sound;
}

module _ (f : Float64) (g : Gateways) (env : Env) (user_id : String) where
  -- The refund of the remaining value.
  refund_old-Moved :
      (old remaining : ℤ) (db : Database)
      → IsSound db
      → balance_of user_id db ≡ some old
      → pos 0 ≤ℤ remaining
      → Fits (old +ℤ remaining)
      → OnSuccess
          (λ x. Moved user_id (old +ℤ remaining) db x.1)
          (refund_old f g env user_id remaining db)
  unfolding refund_old
  refund_old-Moved old remaining db w s n fr = elim (Bool-cases (ltb_ℤ (pos 0) remaining)) [
    | inl t ↦ rw t (
        bind-cases (OnSuccess (λ x. Moved user_id (old +ℤ remaining) db x.1))
          (credit env.credit_id user_id remaining plan_change_refund "") (λ _. pure tt) db
          (λ _ _ h. credit-Moved env.credit_id user_id old remaining db w s fr h) (λ _ _ _. tt))
    | inr u ↦
        let zero : remaining ≡ pos 0 = ground arith in
        rw u (record {
          balance = s ∙ ap some (rw zero (omega int_laws));
          others = λ v _. refl;
          sound = w;
        })
  ]

  module _ (pl : Plan) (entry : PlanPriceEntry) (platform : String) where
    switch_full :
        (used : ℤ)
        → eqb_ℤ used entry.price ≡ true
        → ((switch_order f g env user_id pl entry platform used).status ≡ Status.paid)
          × (used ≡ entry.price)
    switch_full used t = (rw t refl, ground arith)

    switch_partial :
        (used : ℤ)
        → eqb_ℤ used entry.price ≡ false
        → pos 0 ≤ℤ used
        → used <ℤ entry.price
        → Fits entry.price
        → ((switch_order f g env user_id pl entry platform used).status ≡ Status.pending)
          × ((switch_order f g env user_id pl entry platform used).amount +ℤ used ≡ entry.price)
          × (pos 0 <ℤ (switch_order f g env user_id pl entry platform used).amount)
    switch_partial used u n l fp =
        let exact : sub64 entry.price used ≡ entry.price -ℤ used =
          sub64_nonneg entry.price used fp (ground arith, ground arith) (omega arith) n in
        (rw u refl, rw (u, exact) (omega int_laws), rw (u, exact) (omega int_laws))

    draw_switch-Switching :
        (old remaining : ℤ) (u : User) (db t : Database)
        → Moved user_id (old +ℤ remaining) db t
        → u.balance_cents ≡ old +ℤ remaining
        → pos 0 ≤ℤ entry.price
        → Fits entry.price
        → OnSuccess
            (Switching user_id old remaining entry.price db)
            (draw_switch f g env user_id pl entry platform u t)
    draw_switch-Switching old remaining u db t m same n fp =
        let now = old +ℤ remaining in
        let used = wallet_share u.balance_cents entry.price in
        let o = switch_order f g env user_id pl entry platform used in
        let S : Result (Order × ℤ × ℤ) × Database → Type 0 =
          OnSuccess (Switching user_id old remaining entry.price db) in
        let own : balance_of user_id t ≡ some u.balance_cents = m.balance ∙ ap some (sym same) in
        let n' = m.sound.solvent user_id u.balance_cents own in
        let (b0, b1, b2) = wallet_share-bounds u.balance_cents entry.price n' n in
        bind-cases S (debit_share env user_id used "")
          (λ left. place_switch f g env user_id pl entry platform u used left) t
          (λ left s e.
            let d = debit_share-Drawn env user_id "" u.balance_cents used t m.sound own b0 e in
            on_success (Switching user_id old remaining entry.price db)
              (place_switch f g env user_id pl entry platform u used left s)
              λ a s' h.
                let (same_a, kept) =
                  placed-SameMoney o
                    (apply_plan_effect f env u pl entry.duration_days entry.price env.now)
                    (eqb_ℤ used entry.price) (o, used, left) s
                    (λ x.
                      apply_plan_effect-SameMoney f env u pl entry.duration_days entry.price env.now
                        x)
                    h in
                subst (λ x. Switched user_id old remaining entry.price db x.0 x.1 s') same_a
                  (record {
                    split = elim (Bool-cases (eqb_ℤ used entry.price)) [
                      | inl full ↦ inl (switch_full used full)
                      | inr part ↦
                          let (all, less) =
                            wallet_share_partial u.balance_cents entry.price n' part in
                          let (st, sum, rest) = switch_partial used part b0 (less n) fp in
                          inr (st, all ∙ same, sum, rest)
                    ];
                    moved = Moved-trans user_id now (now -ℤ used) db t s' m (
                        subst (λ b. Moved user_id (b -ℤ used) t s') same
                          (Moved-SameMoney user_id (u.balance_cents -ℤ used) t s s' d kept));
                    extends = refl;
                  }))
          (λ _ _ _. tt)

    -- A switch out of a wallet of sound books, to a price that is an int64 and not negative, with a
    -- remaining value that is not negative and does not overflow the wallet, fails and changes nothing,
    -- or gives the remaining value to the wallet and takes what the two can pay: the new order is paid
    -- if that is the price, and else awaits exactly the rest, and is marked to extend the old period;
    -- no other wallet changes, and the books stay sound.
    pub switch_in_wallet-Switching :
        (old remaining : ℤ) (db : Database)
        → IsSound db
        → balance_of user_id db ≡ some old
        → pos 0 ≤ℤ remaining
        → Fits (old +ℤ remaining)
        → pos 0 ≤ℤ entry.price
        → Fits entry.price
        → Switching user_id old remaining entry.price db
            (transaction (switch_in_wallet f g env user_id pl entry platform remaining) db)
    unfolding switch_in_wallet
    switch_in_wallet-Switching old remaining db w s n fr np fp =
        let S : Result (Order × ℤ × ℤ) × Database → Type 0 =
          OnSuccess (Switching user_id old remaining entry.price db) in
        transaction_ok (Switching user_id old remaining entry.price db)
          (switch_in_wallet f g env user_id pl entry platform remaining) db
          (bind-cases S (refund_old f g env user_id remaining)
            (λ _.
              require record_not_found (λ d. user_by_id user_id d.users)
              >>= draw_switch f g env user_id pl entry platform)
            db
            (λ _ t e.
              let m : Moved user_id (old +ℤ remaining) db t =
                subst (OnSuccess (λ x. Moved user_id (old +ℤ remaining) db x.1)) e
                  (refund_old-Moved old remaining db w s n fr) in
              require-cases S record_not_found (λ d. user_by_id user_id d.users)
                (draw_switch f g env user_id pl entry platform) t
                (λ u k.
                  let own = balance_of_found user_id t k in
                  let here = m.balance in
                  let same : u.balance_cents ≡ old +ℤ remaining = ground arith in
                  draw_switch-Switching old remaining u db t m same np fp)
                (λ _. tt))
            (λ _ _ _. tt))
          (λ _. refl)
