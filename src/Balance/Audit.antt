-- ===== src/Balance/Audit.antt =====
-- The books stay sound: the ledger accounts for the balances under every operation of balance.go.
use mathlib.Core.Path.{subst}
use vgate_manager.Prelude.{
  ◌≡◌, refl, String, some, arith, ◌==◌, eq_iff, Bool, Bool-cases, Option-cases, if◌then◌else◌, inl,
  inr, ◌∙◌, ltb_ℤ, leb_ℤ, eqb_ℤ, false, eq_refl,
}
use vgate_manager.Prelude.Int.{
  ℤ, pos, ◌+ℤ◌, ◌-ℤ◌, ◌≤ℤ◌, Fits, add64, sub64, sub64_lem, add64_lem, sub64_nonneg, -ℤ-Fits,
  int_laws, -ℤ_parts, +ℤ_parts,
}
use vgate_manager.Db.Action.{
  Result, ok, err, Result-cases, transaction, transaction-cases, zero_adjustment,
  insufficient_balance, credit_not_positive, debit_not_positive, pure, ◌>>◌,
}
use vgate_manager.Model.Grant.{BalanceTransaction, Reason, admin_adjust}
use vgate_manager.Model.Database.{Database, Db, exists, user_by_id}
use vgate_manager.Balance.{credit, debit, adjust}
use vgate_manager.Balance.Posting.{
  balance_of, owned, Posted, credit_inversion, debit_inversion, credit-Posted, debit-Posted,
  balance_of_found,
}

-- Every balance is what the ledger says, is not negative, and is an int64.
pub record IsSound (db : Database) : Type 0 where
  pub audited : (v : String) (b : ℤ) → balance_of v db ≡ some b → b ≡ owned v db
  pub solvent : (v : String) (b : ℤ) → balance_of v db ≡ some b → pos 0 ≤ℤ b
  pub fits : (v : String) (b : ℤ) → balance_of v db ≡ some b → Fits b

-- A posting that moves the balance by the amount of its row keeps the books sound.
pub Posted-IsSound :
    (user_id : String) (old b amount : ℤ) (db db' : Database)
    → IsSound db
    → Posted user_id b amount db db'
    → balance_of user_id db ≡ some old
    → b ≡ old +ℤ amount
    → pos 0 ≤ℤ b
    → Fits b
    → IsSound db'
Posted-IsSound user_id old b amount db db' w p s e n f = record {
  audited = λ v c h. elim (Bool-cases (user_id == v)) [
    | inl t ↦
        let there : balance_of v db ≡ some old =
          subst (λ j. balance_of j db ≡ some old) ((eq_iff user_id v).0 t) s in
        ground (arith, p.balances v, p.ledger v, w.audited v old there)
    | inr g ↦
        let same : c ≡ owned v db = ground (arith, p.balances v, w.audited v c) in
        rw (p.ledger v, g, same) (omega int_laws)
  ];
  solvent = λ v c h. ground (arith, p.balances v, w.solvent v c);
  fits = λ v c h. ground (arith, p.balances v, w.fits v c);
}

pub credit-IsSound :
    (id user_id : String) (amount : ℤ) (reason : Reason) (ref : String) (db : Database)
    {db' : Database} {b : ℤ}
    → IsSound db
    → ((old : ℤ) → balance_of user_id db ≡ some old → Fits (old +ℤ amount))
    → credit id user_id amount reason ref db ≡ (ok b, db')
    → IsSound db'
credit-IsSound id user_id amount reason ref db {db'} {b} w room h =
    let (u, s, p, e, _) = credit_inversion id user_id amount reason ref db h in
    let old = balance_of_found user_id db s in
    let exact = e ∙ add64_lem u.balance_cents amount (room u.balance_cents old) in
    Posted-IsSound user_id u.balance_cents b amount db db' w
      (credit-Posted id user_id amount reason ref db h) old exact
      (rw exact (omega (int_laws, w.solvent user_id u.balance_cents old)))
      (rw exact (room u.balance_cents old))

pub debit-IsSound :
    (id user_id : String) (amount : ℤ) (reason : Reason) (ref : String) (db : Database)
    {db' : Database} {b : ℤ}
    → IsSound db
    → Fits amount
    → debit id user_id amount reason ref db ≡ (ok b, db')
    → IsSound db'
debit-IsSound id user_id amount reason ref db {db'} {b} w fa h =
    let (u, s, p, q, e, _) = debit_inversion id user_id amount reason ref db h in
    let old = balance_of_found user_id db s in
    let n = w.solvent user_id u.balance_cents old in
    let f = w.fits user_id u.balance_cents old in
    let exact = e ∙ sub64_nonneg u.balance_cents amount f fa n (omega arith) in
    Posted-IsSound user_id u.balance_cents b (pos 0 -ℤ amount) db db' w
      (debit-Posted id user_id amount reason ref db h) old (rw exact (omega int_laws))
      (rw exact (omega int_laws)) (rw exact (-ℤ-Fits u.balance_cents amount f fa n (omega arith)))

-- What an adjustment of a user's wallet by `delta` has done: it failed and changed nothing, or it
-- moved this balance, and no other, by `delta`.
abbrev pub Adjusted : String → ℤ → Database → Result (Unit {0}) × Database → Type 0
Adjusted user_id delta db (ok _, db') =
    (old : ℤ) × (balance_of user_id db ≡ some old)
    × (balance_of user_id db' ≡ some (old +ℤ delta))
    × ((v : String) → (user_id == v) ≡ false → balance_of v db' ≡ balance_of v db)
    × IsSound db'
Adjusted user_id delta db (err e, db') = db' ≡ db

module _ (user_id : String) (delta : ℤ) (db : Database) (w : IsSound db) where
  -- A transaction of one posting by `delta` to the user's balance.
  posting-Adjusted :
      (m : Db ℤ)
      → ((b : ℤ) (db' : Database)
          → m db ≡ (ok b, db')
          → (old : ℤ) × (balance_of user_id db ≡ some old)
            × (b ≡ old +ℤ delta)
            × Posted user_id b delta db db'
            × IsSound db')
      → Adjusted user_id delta db (transaction (m >> pure tt) db)
  posting-Adjusted m k =
      transaction-cases (Adjusted user_id delta db) (m >> pure tt) db
        (λ _ db' e. elim (Result-cases (m db).0) [
          | inl (b, g) ↦
              let ran : m db ≡ (ok b, db') = ground arith in
              let (old, s, exact, p, sound) = k b db' ran in
              (
                old,
                s,
                ground (arith, p.balances user_id, eq_refl user_id),
                λ v ne. ground (arith, p.balances v),
                sound,
              )
          | inr (c, g) ↦ ground arith
        ])
        (λ _ _ _. refl)

  module _ (id : String) (fd : Fits delta) where
    credit-Adjusted :
        ((old : ℤ) → balance_of user_id db ≡ some old → Fits (old +ℤ delta))
        → Adjusted user_id delta db
            (transaction (credit id user_id delta admin_adjust "" >> pure tt) db)
    credit-Adjusted room = posting-Adjusted (credit id user_id delta admin_adjust "") λ b db' h.
        let (u, s, _, e, _) = credit_inversion id user_id delta admin_adjust "" db h in
        let old = balance_of_found user_id db s in
        (
          u.balance_cents,
          old,
          e ∙ add64_lem u.balance_cents delta (room u.balance_cents old),
          credit-Posted id user_id delta admin_adjust "" db h,
          credit-IsSound id user_id delta admin_adjust "" db w room h,
        )

    debit-Adjusted :
        delta ≤ℤ pos 0
        → Fits (pos 0 -ℤ delta)
        → Adjusted user_id delta db
            (transaction (debit id user_id (sub64 (pos 0) delta) admin_adjust "" >> pure tt) db)
    debit-Adjusted neg fn =
        posting-Adjusted (debit id user_id (sub64 (pos 0) delta) admin_adjust "") λ b db' h.
          let amount = pos 0 -ℤ delta in
          let flip : sub64 (pos 0) delta ≡ amount = sub64_lem (pos 0) delta fn in
          let h' : debit id user_id amount admin_adjust "" db ≡ (ok b, db') = rw flip at h in
          let (u, s, _, q, e, _) = debit_inversion id user_id amount admin_adjust "" db h' in
          let old = balance_of_found user_id db s in
          let n = w.solvent user_id u.balance_cents old in
          let exact =
            e
            ∙ sub64_nonneg u.balance_cents amount (w.fits user_id u.balance_cents old) fn n
                (omega int_laws) in
          let back : pos 0 -ℤ amount ≡ delta = omega int_laws in
          (
            u.balance_cents,
            old,
            exact ∙ omega int_laws,
            rw back at (debit-Posted id user_id amount admin_adjust "" db h'),
            debit-IsSound id user_id amount admin_adjust "" db w fn h',
          )

-- An admin's adjustment of a database with sound books, by an amount that is an int64 with its
-- negation and does not overflow the balance, fails and changes nothing, or moves the one balance by
-- exactly the amount, no other, and leaves the books sound.
pub adjust-Adjusted :
    (id user_id : String) (delta : ℤ) (db : Database)
    → IsSound db
    → Fits delta
    → Fits (pos 0 -ℤ delta)
    → ((old : ℤ) → balance_of user_id db ≡ some old → Fits (old +ℤ delta))
    → Adjusted user_id delta db (adjust id user_id delta db)
unfolding adjust
adjust-Adjusted id user_id delta db w fd fn room = elim (Bool-cases (eqb_ℤ delta (pos 0))) [
  | inl z ↦ rw z refl
  | inr nz ↦ rw nz (elim (Bool-cases (ltb_ℤ (pos 0) delta)) [
    | inl p ↦ rw p (credit-Adjusted user_id delta db w id fd room)
    | inr n ↦ rw n (debit-Adjusted user_id delta db w id fd (ground arith) fn)
  ])
]

-- How the adjustment of a known user's balance `old` ends, if the new ledger id is fresh.
abbrev pub verdict : ℤ → ℤ → Result (Unit {0})
verdict old delta =
    if eqb_ℤ delta (pos 0)
    then err zero_adjustment
    else if ltb_ℤ (old +ℤ delta) (pos 0)
    then err insufficient_balance
    else ok tt

-- Whether a ledger row with this id exists.
abbrev pub is_used : String → Database → Bool
is_used id db = exists (λ (r : BalanceTransaction). r.id == id) db.balance_transactions

-- How a posting to a known user's balance ends, if the new ledger id is fresh.
module _ (id user_id : String) (old : ℤ) (db : Database) (s : balance_of user_id db ≡ some old)
    (fresh : is_used id db ≡ false) where
  pub credit_outcome :
      (amount : ℤ) (reason : Reason) (ref : String)
      → (credit id user_id amount reason ref db).0
        ≡ (if leb_ℤ amount (pos 0) then err credit_not_positive else ok (add64 old amount))
  unfolding credit balance_of
  credit_outcome amount reason ref = elim (Option-cases (user_by_id user_id db.users)) [
    | inl g ↦ ground arith
    | inr (u, g) ↦ ground arith
  ]

  pub debit_outcome :
      (amount : ℤ) (reason : Reason) (ref : String)
      → (debit id user_id amount reason ref db).0 ≡ (
          if leb_ℤ amount (pos 0)
          then err debit_not_positive
          else if ltb_ℤ old amount
          then err insufficient_balance
          else ok (sub64 old amount))
  unfolding debit balance_of
  debit_outcome amount reason ref = elim (Option-cases (user_by_id user_id db.users)) [
    | inl g ↦ ground arith
    | inr (u, g) ↦ ground arith
  ]

  -- An adjustment of a known user with a balance that is not negative, by an amount whose negation is
  -- an int64, and with a fresh ledger id, is refused exactly if it is zero or would overdraw the
  -- wallet.
  pub adjust_outcome :
      (delta : ℤ)
      → pos 0 ≤ℤ old
      → Fits (pos 0 -ℤ delta)
      → (adjust id user_id delta db).0 ≡ verdict old delta
  unfolding adjust
  adjust_outcome delta n fn = elim (Bool-cases (eqb_ℤ delta (pos 0))) [
    | inl z ↦ rw z refl
    | inr nz ↦ elim (Bool-cases (ltb_ℤ (pos 0) delta)) [
      | inl p ↦
          rw (nz, p) (ground (arith, +ℤ_parts old delta, credit_outcome delta admin_adjust ""))
      | inr q ↦
          rw (nz, q, sub64_lem (pos 0) delta fn)
            (ground (
              arith,
              -ℤ_parts (pos 0) delta,
              +ℤ_parts old delta,
              debit_outcome (pos 0 -ℤ delta) admin_adjust "",
            ))
    ]
  ]
