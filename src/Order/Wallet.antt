-- ===== src/Order/Wallet.antt =====
-- What a draw on the wallet does to the balances, and that the grant of an order does nothing to them.
pub mod Purchase
pub mod Switch
use mathlib.Core.Path.{subst}
use vgate_manager.Prelude.{
  ◌≡◌, refl, sym, ap, ◌∙◌, String, Bool, true, false, some, arith, ltb_ℤ, eqb_ℤ, eq_refl,
  Bool-cases, Option-cases, inl, inr, if◌then◌else◌, ◌⊎◌, ◌==◌, ◌||◌,
}
use vgate_manager.Prelude.Int.{
  ℤ, pos, ◌+ℤ◌, ◌-ℤ◌, ◌≤ℤ◌, ◌<ℤ◌, Fits, sub64, sub64_nonneg, int_laws, min_ℤ, -ℤ_parts, eq_of_parts,
}
use vgate_manager.Prelude.Float.{Float64}
use vgate_manager.Db.Table.{count, insert}
use vgate_manager.Db.Action.{
  transaction, transaction_ok, on_success, OnSuccess, Error, ok, err, Error, Result, pure, ◌>>=◌,
  ◌>>◌, bind-cases, create-cases, require, require-cases, record_not_found,
}
use vgate_manager.Model.User.{User}
use vgate_manager.Model.Product.{Plan, PlanPriceEntry}
use vgate_manager.Model.Order.{Order, Status, is_pending}
use vgate_manager.Model.Grant.{Reason, purchase, plan_change_refund}
use vgate_manager.Model.Database.{Database, Db, user_by_id, exists}
use vgate_manager.Balance.{credit, debit}
use vgate_manager.Balance.Posting.{
  ledger_sum, balance_of, debit_inversion, debit-Posted, balance_of_found,
}
use vgate_manager.Balance.Audit.{IsSound, debit-IsSound, credit-IsSound}
use vgate_manager.Order.Defs.{Env, Gateways, when, when-cases}
use vgate_manager.Order.Effect.{apply_order_effect}
use vgate_manager.Order.Money.{
  SameMoney, SameMoney-trans, orders-SameMoney, apply_order_effect-SameMoney,
}
use vgate_manager.Order.Checkout.{
  Params, wallet_share, debit_share, settled, place, draw_and_place, pay_from_wallet, create_order,
  create_for,
}
use vgate_manager.Order.Checkout.Keeps.{create_for_keeps, change_plan_keeps}

pub SameMoney-IsSound : (db db' : Database) → SameMoney db db' → IsSound db → IsSound db'
SameMoney-IsSound db db' same w = record {
  audited =
      λ v b h. w.audited v b (sym (same.balances v) ∙ h) ∙ ap (ledger_sum v) (sym same.ledger);
  solvent = λ v b h. w.solvent v b (sym (same.balances v) ∙ h);
  fits = λ v b h. w.fits v b (sym (same.balances v) ∙ h);
}

-- Between nothing and the balance, and never more than the price.
pub wallet_share-bounds :
    (balance gross : ℤ)
    → pos 0 ≤ℤ balance
    → pos 0 ≤ℤ gross
    → (pos 0 ≤ℤ wallet_share balance gross)
      × (wallet_share balance gross ≤ℤ balance)
      × (wallet_share balance gross ≤ℤ gross)
unfolding wallet_share
wallet_share-bounds balance gross b g = ground arith

-- The user's balance became `b`, and nothing else moved.
pub record Moved (user_id : String) (b : ℤ) (db db' : Database) : Type 0 where
  pub balance : balance_of user_id db' ≡ some b
  pub others : (v : String) → (user_id == v) ≡ false → balance_of v db' ≡ balance_of v db
  pub sound : IsSound db'

abbrev pub Drawn : String → ℤ → ℤ → Database → Database → Type 0
Drawn user_id old used db db' = Moved user_id (old -ℤ used) db db'

-- The debit of a user's wallet.
debit-Drawn :
    (id user_id ref : String) (old used : ℤ) (db : Database) {db' : Database} {left : ℤ}
    → IsSound db
    → balance_of user_id db ≡ some old
    → debit id user_id used purchase ref db ≡ (ok left, db')
    → Drawn user_id old used db db'
debit-Drawn id user_id ref old used db {db'} {left} w s h =
    let (u, found, p, q, e, _) = debit_inversion id user_id used purchase ref db h in
    let own = balance_of_found user_id db found in
    let same : u.balance_cents ≡ old = ground arith in
    let n = w.solvent user_id old s in
    let q' : used ≤ℤ old = subst (λ b. used ≤ℤ b) same q in
    let fu : Fits used = let fo = w.fits user_id old s in (ground arith, ground arith) in
    let posting = debit-Posted id user_id used purchase ref db h in
    let exact : left ≡ old -ℤ used =
      e
      ∙ ap (λ b. sub64 b used) same
      ∙ sub64_nonneg old used (w.fits user_id old s) fu n (omega arith) in
    record {
      balance = ground (arith, posting.balances user_id, eq_refl user_id);
      others = λ v ne. ground (arith, posting.balances v);
      sound = debit-IsSound id user_id used purchase ref db w fu h;
    }

module _ (env : Env) where
  pub debit_share-Drawn :
      (user_id ref : String) (old used : ℤ) (db : Database) {db' : Database} {left : ℤ}
      → IsSound db
      → balance_of user_id db ≡ some old
      → pos 0 ≤ℤ used
      → debit_share env user_id used ref db ≡ (ok left, db')
      → Drawn user_id old used db db'
  unfolding debit_share
  debit_share-Drawn user_id ref old used db {db'} {left} w s n h =
      elim (Bool-cases (ltb_ℤ (pos 0) used)) [
        | inl t ↦ debit-Drawn env.debit_id user_id ref old used db w s (rw t at h)
        | inr u ↦
            let same : db ≡ db' = ap (λ x. x.1) (rw u at h) in
            let zero : used ≡ pos 0 = ground arith in
            subst (λ t. Drawn user_id old used db t) same
              (record {
                balance = s ∙ ap some (rw zero (omega int_laws));
                others = λ v _. refl;
                sound = w;
              })
      ]

-- A share that is not the whole price is the whole balance.
pub wallet_share_partial :
    (old gross : ℤ)
    → pos 0 ≤ℤ old
    → eqb_ℤ (wallet_share old gross) gross ≡ false
    → (wallet_share old gross ≡ old) × (pos 0 ≤ℤ gross → wallet_share old gross <ℤ gross)
unfolding wallet_share
wallet_share_partial old gross n u = (ground arith, λ g. ground arith)

pub Moved-SameMoney :
    (user_id : String) (b : ℤ) (x y z : Database)
    → Moved user_id b x y
    → SameMoney y z
    → Moved user_id b x z
Moved-SameMoney user_id b x y z d same = record {
  balance = same.balances user_id ∙ d.balance;
  others = λ v ne. same.balances v ∙ d.others v ne;
  sound = SameMoney-IsSound y z same d.sound;
}

abbrev pub Placed : {B : Type 0} → B → Database → Result B × Database → Type 0
Placed b d (ok a, s) = (b ≡ a) × SameMoney d s
Placed b d (err _, s) = Unit

-- After the order is written, its grant moves no money.
pub placed-SameMoney :
    {B : Type 0} (o : Order) (m : Db Unit) (c : Bool) (b : B) (db : Database)
    → ((t : Database) → SameMoney t (m t).1)
    → {b' : B} {db' : Database} → (create_order o >> (when c m >> pure b)) db ≡ (ok b', db')
    → (b ≡ b') × SameMoney db db'
placed-SameMoney {B} o m c b db keeps {b'} {db'} h = subst (Placed b db) h (
    create-cases (Placed b db)
      (λ d. exists (λ (p : Order). p.id == o.id || p.out_trade_no == o.out_trade_no) d.orders)
      (λ d. record d { orders = insert o d.orders }) (when c m >> pure b) db
      (λ _.
        let t = record db { orders = insert o db.orders } in
        when-cases (Placed b db) c m (pure b) t
          (λ _.
            bind-cases (Placed b db) m (λ _. pure b) t
              (λ _ s e. (
                refl,
                SameMoney-trans db t s (orders-SameMoney (insert o db.orders) db)
                    (subst (λ x. SameMoney t x.1) e (keeps t)),
              ))
              (λ _ _ _. tt))
          (λ _. (refl, orders-SameMoney (insert o db.orders) db)))
      (λ _. tt))
