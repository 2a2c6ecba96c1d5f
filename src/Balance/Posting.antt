-- ===== src/Balance/Posting.antt =====
-- The ledger accounts for the balances: what each operation of balance.go does to a user's
-- balance and to the sum of the ledger rows.
use mathlib.Core.Option
use mathlib.Core.Path.{subst}
use vgate_manager.Prelude.{
  ◌≡◌, refl, sym, String, Option, some, List, [], ◌∷◌, arith, ◌==◌, eq_iff, if◌then◌else◌,
  Option-cases, Bool-cases, inl, inr,
}
use vgate_manager.Prelude.Int.{ℤ, pos, ◌+ℤ◌, ◌-ℤ◌, ◌≤ℤ◌, ◌<ℤ◌, add64, sub64, int_laws}
use vgate_manager.Db.Table.{insert, update, first-update, first-holds}
use vgate_manager.Db.Action.{ok}
use vgate_manager.Model.User.{User}
use vgate_manager.Model.Grant.{BalanceTransaction, Direction, Reason}
use vgate_manager.Model.Database.{Database, user_by_id}
use vgate_manager.Balance.{credit, debit}

-- The amount of a ledger row with its sign.
abbrev pub signed : BalanceTransaction → ℤ
signed r = elim r.direction [
  | Direction.credit ↦ r.amount_cents
  | Direction.debit ↦ pos 0 -ℤ r.amount_cents
]

-- What the ledger says that a user owns.
unfoldable pub ledger_sum : String → List BalanceTransaction → ℤ
ledger_sum v [] = pos 0
ledger_sum v (r ∷ l) = (if r.user_id == v then signed r else pos 0) +ℤ ledger_sum v l

pub ledger_sum-insert :
    (v : String) (r : BalanceTransaction) (l : List BalanceTransaction)
    → ledger_sum v (insert r l) ≡ ledger_sum v l +ℤ (if r.user_id == v then signed r else pos 0)
unfolding ledger_sum insert
ledger_sum-insert v r [] = omega int_laws
ledger_sum-insert v r (x ∷ l) = rw (ledger_sum-insert v r l) (omega int_laws)

-- An update of one user that keeps the key, as a lookup sees it.
pub user_by_id-update :
    (v k : String) (f : User → User) (l : List User)
    → ((u : User) → u.id ≡ k → (f u).id ≡ k)
    → user_by_id v (update (λ u. u.id == k) f l)
      ≡ Option.map (λ u. if u.id == k then f u else u) (user_by_id v l)
user_by_id-update v k f l same =
    first-update (λ u. u.id == v) (λ u. u.id == k) f l
      λ u t. let e = (eq_iff u.id k).0 t in rw (same u e, e)

pub id-user_by_id : (v : String) (l : List User) {u : User} → user_by_id v l ≡ some u → u.id ≡ v
id-user_by_id v l {u} h = (eq_iff u.id v).0 (first-holds (λ u. u.id == v) l h)

-- A user that was found is found under its own key.
pub self_found :
    (v : String) (l : List User) {u : User} → user_by_id v l ≡ some u → user_by_id u.id l ≡ some u
self_found v l {u} h = subst (λ j. user_by_id j l ≡ some u) (sym (id-user_by_id v l h)) h

unfoldable pub balance_of : String → Database → Option ℤ
balance_of v db = Option.map (λ u. u.balance_cents) (user_by_id v db.users)

abbrev pub owned : String → Database → ℤ
owned v db = ledger_sum v db.balance_transactions

-- A user's balance became `b` and one row of `amount` was appended; no other user is touched.
pub record Posted (user_id : String) (b amount : ℤ) (db db' : Database) : Type 0 where
  pub balances :
      (v : String) → balance_of v db' ≡ (if user_id == v then some b else balance_of v db)
  pub ledger : (v : String) → owned v db' ≡ owned v db +ℤ (if user_id == v then amount else pos 0)

abbrev set_balance : ℤ → User → User
set_balance b u = record u { balance_cents = b }

balances : String → List User → Option ℤ
balances v l = Option.map (λ u. u.balance_cents) (user_by_id v l)

-- The lookup of a user with a key that equals another.
found_at :
    {v k : String} (l : List User) {u : User}
    → k ≡ v
    → user_by_id k l ≡ some u
    → user_by_id v l ≡ some u
found_at l {u} e h = subst (λ j. user_by_id j l ≡ some u) e h

balances-update :
    (v k : String) (b : ℤ) (l : List User) {u : User}
    → user_by_id k l ≡ some u
    → balances v (update (λ w. w.id == k) (set_balance b) l)
      ≡ (if k == v then some b else balances v l)
unfolding balances
balances-update v k b l {u} h = elim (Bool-cases (k == v)) [
  | inl t ↦
      rw (user_by_id-update v k (set_balance b) l (λ _ e. e), found_at l ((eq_iff k v).0 t) h, t)
        (ground (arith, id-user_by_id k l h, eq_iff u.id k))
  | inr f ↦
      rw (user_by_id-update v k (set_balance b) l (λ _ e. e), f)
        (elim (Option-cases (user_by_id v l)) [
          | inl n ↦ rw n
          | inr (w, s) ↦ rw s (ground (arith, id-user_by_id v l s, eq_iff w.id k, eq_iff k v))
        ])
]

-- The database after a row was posted for the user `u`.
abbrev pub posted : User → ℤ → BalanceTransaction → Database → Database
posted u b row db = record db {
  users = update (λ w. w.id == u.id) (set_balance b) db.users;
  balance_transactions = insert row db.balance_transactions;
}

abbrev row_of : String → String → Direction → ℤ → Reason → String → ℤ → BalanceTransaction
row_of id user_id direction amount reason ref b = record {
  id = id;
  user_id = user_id;
  direction = direction;
  amount_cents = amount;
  reason = reason;
  ref_order_id = ref;
  balance_after = b;
}

-- What a credit that succeeds has read and done.
pub credit_inversion :
    (id user_id : String) (amount : ℤ) (reason : Reason) (ref : String) (db : Database)
    {db' : Database} {b : ℤ}
    → credit id user_id amount reason ref db ≡ (ok b, db')
    → (u : User) × (user_by_id user_id db.users ≡ some u)
      × (pos 0 <ℤ amount)
      × (b ≡ add64 u.balance_cents amount)
      × (db' ≡ posted u b (row_of id user_id Direction.credit amount reason ref b) db)
unfolding credit
credit_inversion id user_id amount reason ref db h =
    elim (Option-cases (user_by_id user_id db.users)) [
      | inl n ↦ ground arith
      | inr (u, s) ↦ (u, s, ground arith, ground arith, ground arith)
    ]

pub debit_inversion :
    (id user_id : String) (amount : ℤ) (reason : Reason) (ref : String) (db : Database)
    {db' : Database} {b : ℤ}
    → debit id user_id amount reason ref db ≡ (ok b, db')
    → (u : User) × (user_by_id user_id db.users ≡ some u)
      × (pos 0 <ℤ amount)
      × (amount ≤ℤ u.balance_cents)
      × (b ≡ sub64 u.balance_cents amount)
      × (db' ≡ posted u b (row_of id user_id Direction.debit amount reason ref b) db)
unfolding debit
debit_inversion id user_id amount reason ref db h =
    elim (Option-cases (user_by_id user_id db.users)) [
      | inl n ↦ ground arith
      | inr (u, s) ↦ (u, s, ground arith, ground arith, ground arith, ground arith)
    ]

posted-Posted :
    (user_id : String) (u : User) (b : ℤ) (r : BalanceTransaction) (db : Database)
    → user_by_id user_id db.users ≡ some u
    → r.user_id ≡ user_id
    → Posted user_id b (signed r) db (posted u b r db)
unfolding balance_of balances
posted-Posted user_id u b r db s e = record {
  balances = λ v. rw (id-user_by_id user_id db.users s) (balances-update v user_id b db.users s);
  ledger = λ v. rw (← e) (ledger_sum-insert v r db.balance_transactions);
}

pub credit-Posted :
    (id user_id : String) (amount : ℤ) (reason : Reason) (ref : String) (db : Database)
    {db' : Database} {b : ℤ}
    → credit id user_id amount reason ref db ≡ (ok b, db')
    → Posted user_id b amount db db'
credit-Posted id user_id amount reason ref db {db'} {b} h =
    let (u, s, _, _, e) = credit_inversion id user_id amount reason ref db h in
    rw e
      (posted-Posted user_id u b (row_of id user_id Direction.credit amount reason ref b) db s refl)

pub debit-Posted :
    (id user_id : String) (amount : ℤ) (reason : Reason) (ref : String) (db : Database)
    {db' : Database} {b : ℤ}
    → debit id user_id amount reason ref db ≡ (ok b, db')
    → Posted user_id b (pos 0 -ℤ amount) db db'
debit-Posted id user_id amount reason ref db {db'} {b} h =
    let (u, s, _, _, _, e) = debit_inversion id user_id amount reason ref db h in
    rw e
      (posted-Posted user_id u b (row_of id user_id Direction.debit amount reason ref b) db s refl)

pub balance_of_found :
    (v : String) (db : Database) {u : User}
    → user_by_id v db.users ≡ some u
    → balance_of v db ≡ some u.balance_cents
unfolding balance_of
balance_of_found v db s = rw s
