-- ===== src/Order/Wallet/Purchase.antt =====
-- A purchase takes from the wallet what it can pay of the price, and no more.
use mathlib.Core.Path.{subst}
use vgate_manager.Prelude.{
  ◌≡◌, refl, ◌∙◌, String, Bool, true, false, some, arith, ltb_ℤ, eqb_ℤ, Bool-cases, inl, inr, ◌⊎◌,
}
use vgate_manager.Prelude.Int.{ℤ, pos, ◌+ℤ◌, ◌-ℤ◌, ◌≤ℤ◌, ◌<ℤ◌, Fits, sub64, sub64_nonneg, int_laws}
use vgate_manager.Prelude.Float.{Float64}
use vgate_manager.Db.Action.{
  transaction, transaction_ok, on_success, OnSuccess, ok, err, Result, bind-cases, require-cases,
  record_not_found,
}
use vgate_manager.Model.User.{User}
use vgate_manager.Model.Order.{Order, Status}
use vgate_manager.Model.Grant.{purchase}
use vgate_manager.Model.Database.{Database, user_by_id}
use vgate_manager.Balance.{debit}
use vgate_manager.Balance.Posting.{balance_of, balance_of_found}
use vgate_manager.Balance.Audit.{IsSound, debit-IsSound}
use vgate_manager.Order.Defs.{Env, Gateways}
use vgate_manager.Order.Effect.{apply_order_effect}
use vgate_manager.Order.Money.{apply_order_effect-SameMoney}
use vgate_manager.Order.Checkout.{
  Params, wallet_share, debit_share, settled, place, draw_and_place, pay_from_wallet, create_for,
}
use vgate_manager.Order.Checkout.Keeps.{create_for_keeps}
use vgate_manager.Order.Wallet.{
  Drawn, Moved-SameMoney, debit_share-Drawn, wallet_share-bounds, wallet_share_partial,
  placed-SameMoney, SameMoney-IsSound,
}

-- What a purchase that the wallet has settled, in whole or in part, has done: the order is paid if
-- the wallet covered its price, and else awaits the rest, for which the whole balance was drawn.
pub record WalletPaid (order : Order) (old : ℤ) (db : Database) (o : Order) (used : ℤ)
    (db' : Database) : Type 0 where
  pub split :
      ((o.status ≡ Status.paid) × (used ≡ order.amount))
      ⊎ ((o.status ≡ Status.pending)
          × (used ≡ old)
          × (o.amount +ℤ used ≡ order.amount)
          × (pos 0 <ℤ o.amount))
  pub bounded : (pos 0 ≤ℤ used) × (used ≤ℤ old)
  pub drawn : Drawn order.user_id old used db db'

abbrev pub Paying : Order → ℤ → Database → Result (Order × ℤ × ℤ) × Database → Type 0
Paying order old db (ok (o, used, _), db') = WalletPaid order old db o used db'
Paying order old db (err _, db') = db' ≡ db

module _ (env : Env) (order : Order) (used : ℤ) where
  pub settled_full :
      eqb_ℤ used order.amount ≡ true
      → ((settled env order used).status ≡ Status.paid) × (used ≡ order.amount)
  settled_full t = (rw t refl, ground arith)

  pub settled_partial :
      eqb_ℤ used order.amount ≡ false
      → pos 0 ≤ℤ used
      → used <ℤ order.amount
      → Fits order.amount
      → ((settled env order used).status ≡ order.status)
        × ((settled env order used).amount +ℤ used ≡ order.amount)
        × (pos 0 <ℤ (settled env order used).amount)
  settled_partial u n l fa =
      let exact : sub64 order.amount used ≡ order.amount -ℤ used =
        sub64_nonneg order.amount used fa (ground arith, ground arith) (omega arith) n in
      (rw u refl, rw (u, exact) (omega int_laws), rw (u, exact) (omega int_laws))

module _ (f : Float64) (env : Env) where
  -- The rest of the purchase, for the balance that was read.
  draw_and_place-Paying :
      (order : Order) (u : User) (db : Database)
      → IsSound db
      → balance_of order.user_id db ≡ some u.balance_cents
      → order.status ≡ Status.pending
      → pos 0 ≤ℤ order.amount
      → Fits order.amount
      → OnSuccess (Paying order u.balance_cents db) (draw_and_place f env order u db)
  unfolding place
  draw_and_place-Paying order u db w s open_now g fg =
      let old = u.balance_cents in
      let used = wallet_share old order.amount in
      let o = settled env order used in
      let n = w.solvent order.user_id old s in
      let (b0, b1, b2) = wallet_share-bounds old order.amount n g in
      let S = OnSuccess (Paying order old db) in
      bind-cases S (debit_share env order.user_id used order.id)
        (λ left. place f env order used left) db
        (λ left t e.
          let d = debit_share-Drawn env order.user_id order.id old used db w s b0 e in
          on_success (Paying order old db) (place f env order used left t) λ a s' h.
            let (same_a, kept) =
              placed-SameMoney o (apply_order_effect f env o) (eqb_ℤ used order.amount)
                (o, used, left) t (apply_order_effect-SameMoney f env o) h in
            subst (λ x. WalletPaid order old db x.0 x.1 s') same_a
              (record {
                split = elim (Bool-cases (eqb_ℤ used order.amount)) [
                  | inl full ↦ inl (settled_full env order used full)
                  | inr part ↦
                      let (all, less) = wallet_share_partial old order.amount n part in
                      let (st, sum, rest) = settled_partial env order used part b0 (less g) fg in
                      inr (st ∙ open_now, all, sum, rest)
                ];
                bounded = (b0, b1);
                drawn = Moved-SameMoney order.user_id (old -ℤ used) db t s' d kept;
              }))
        (λ _ _ _. tt)

  -- The purchase of a pending order with a price that is an int64 and not negative, out of a wallet of
  -- sound books, fails and changes nothing, or takes what the wallet can pay and no more: the order is
  -- paid if that is the price, and else awaits exactly the rest of it; no other wallet changes, and
  -- the books stay sound.
  pub pay_from_wallet-Paying :
      (order : Order) (old : ℤ) (db : Database)
      → IsSound db
      → balance_of order.user_id db ≡ some old
      → order.status ≡ Status.pending
      → pos 0 ≤ℤ order.amount
      → Fits order.amount
      → Paying order old db (transaction (pay_from_wallet f env order) db)
  unfolding pay_from_wallet
  pay_from_wallet-Paying order old db w s open_now g fg =
      transaction_ok (Paying order old db) (pay_from_wallet f env order) db
        (require-cases (OnSuccess (Paying order old db)) record_not_found
          (λ d. user_by_id order.user_id d.users) (draw_and_place f env order) db
          (λ u e.
            let own = balance_of_found order.user_id db e in
            let same : u.balance_cents ≡ old = ground arith in
            subst (λ b. OnSuccess (Paying order b db) (draw_and_place f env order u db)) same
              (draw_and_place-Paying order u db w own open_now g fg))
          (λ _. tt))
        (λ _. refl)

-- The share of a sound wallet is an int64, if there is one to draw.
pub wallet_share-Fits :
    (balance gross : ℤ)
    → Fits balance
    → pos 0 <ℤ wallet_share balance gross
    → Fits (wallet_share balance gross)
unfolding wallet_share
wallet_share-Fits balance gross fb p = ground arith

-- A draw leaves the books sound.
pub debit_share-IsSound :
    (env : Env) (user_id ref : String) (used : ℤ) (db : Database)
    → IsSound db
    → (pos 0 <ℤ used → Fits used)
    → OnSuccess (λ x. IsSound x.1) (debit_share env user_id used ref db)
unfolding debit_share
debit_share-IsSound env user_id ref used db w fu = elim (Bool-cases (ltb_ℤ (pos 0) used)) [
  | inl t ↦ rw t (
      on_success (λ x. IsSound x.1) (debit env.debit_id user_id used purchase ref db)
        (λ _ _ h. debit-IsSound env.debit_id user_id used purchase ref db w (fu (ground arith)) h))
  | inr u ↦ rw u w
]

module _ (f : Float64) (env : Env) where
  draw_and_place-IsSound :
      (order : Order) (u : User) (db : Database)
      → IsSound db
      → Fits u.balance_cents
      → OnSuccess (λ x. IsSound x.1) (draw_and_place f env order u db)
  unfolding place
  draw_and_place-IsSound order u db w fb =
      let used = wallet_share u.balance_cents order.amount in
      let S : Result (Order × ℤ × ℤ) × Database → Type 0 = OnSuccess (λ x. IsSound x.1) in
      bind-cases S (debit_share env order.user_id used order.id)
        (λ left. place f env order used left) db
        (λ left t e.
          let sound : IsSound t = subst (OnSuccess (λ x. IsSound x.1)) e (
            debit_share-IsSound env order.user_id order.id used db w
              (wallet_share-Fits u.balance_cents order.amount fb)) in
          on_success (λ x. IsSound x.1) (place f env order used left t)
            λ a s' h.
              SameMoney-IsSound t s'
                (placed-SameMoney (settled env order used)
                  (apply_order_effect f env (settled env order used)) (eqb_ℤ used order.amount)
                  (settled env order used, used, left) t
                  (apply_order_effect-SameMoney f env (settled env order used)) h).1
                sound)
        (λ _ _ _. tt)

  pub pay_from_wallet-IsSound :
      (order : Order) (db : Database)
      → IsSound db
      → IsSound (transaction (pay_from_wallet f env order) db).1
  unfolding pay_from_wallet
  pay_from_wallet-IsSound order db w =
      transaction_ok (λ x. IsSound x.1) (pay_from_wallet f env order) db
        (require-cases (OnSuccess (λ x. IsSound x.1)) record_not_found
          (λ d. user_by_id order.user_id d.users) (draw_and_place f env order) db
          (λ u e.
            draw_and_place-IsSound order u db w
              (w.fits order.user_id u.balance_cents (balance_of_found order.user_id db e)))
          (λ _. tt))
        (λ _. w)

  -- A purchase, by the user or by an admin, and however it ends, leaves sound books sound.
  pub create_for-IsSound :
      (g : Gateways) (user_id : String) (p : Params) (is_admin : Bool) (db : Database)
      → IsSound db
      → IsSound (create_for f g env user_id p is_admin db).1
  create_for-IsSound g user_id p is_admin db w =
      create_for_keeps f g env db IsSound w (λ o _. pay_from_wallet-IsSound o db w) user_id p
        is_admin
