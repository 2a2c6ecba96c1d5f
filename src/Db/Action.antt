-- ===== src/Db/Action.antt =====
-- A service method as an action on a state: the state that a failed action reached is kept, as
-- statements outside a transaction are, and a transaction gives back the state it began in.
use mathlib.Core.Path.{subst}
use vgate_manager.Prelude.{◌≡◌, refl, ap, ◌⊎◌, inl, inr, Bool, true, false, Option, none, some}

-- The errors that the services return, named for their texts.
pub data Error : Type 0 where
  -- gorm.ErrRecordNotFound, and a violated unique index
  record_not_found duplicated_key : Error
  -- order.go
  pending_order_exists order_not_pending invalid_order_kind email_not_verified no_active_plan :
      Error
  platform_not_available : Error
  -- balance.go
  credit_not_positive debit_not_positive insufficient_balance zero_adjustment : Error
  -- plan.go and traffic_package.go
  plan_not_found plan_not_available price_not_available no_enabled_prices package_not_available :
      Error
  -- redemption.go
  invalid_code code_exhausted already_redeemed invalid_redeem_type code_changed bad_parameter :
      Error
  -- invite.go
  invite_disabled invite_quota_exceeded invite_required invalid_invite invite_exhausted : Error
  invite_changed invite_not_deletable : Error
  -- ticket.go
  bad_transition : Error
  -- auth.go
  invalid_role last_super_admin own_account invalid_credentials weak_password : Error
  invalid_refresh_token refresh_token_expired hash_failed sign_failed : Error
  email_not_allowed registration_disabled username_taken email_taken no_password user_disabled :
      Error
  verification_required invalid_verification user_not_found verification_expired : Error
  -- node.go
  parent_not_found nested_parent own_parent has_children invalid_node name_taken sid_taken : Error
  no_free_sid : Error
  -- an error of a payment gateway
  gateway : Error

pub data Result {ℓ} (A : Type ℓ) : Type ℓ where
  ok : A → Result A
  err : Error → Result A

abbrev pub Action : Type 0 → Type 0 → Type 0
Action S A = S → Result A × S

-- `tx.Create`: a row that violates a unique index is refused.
abbrev pub create : {S : Type 0} → (S → Bool) → (S → S) → Action S (Unit {0})
create clash add s = elim (clash s) [ true ↦ (err duplicated_key, s) | false ↦ (ok tt, add s) ]

module _ {S A : Type 0} where
  abbrev pub pure : A → Action S A
  pure a s = (ok a, s)

  abbrev pub fail : Error → Action S A
  fail e s = (err e, s)

  abbrev pub gets : (S → A) → Action S A
  gets f s = (ok (f s), s)

  abbrev pub lift : Result A → Action S A
  lift r s = (r, s)

  -- `First`: the row, or an error where there is none.
  abbrev pub require : Error → (S → Option A) → Action S A
  require e f s = elim (f s) [ some a ↦ (ok a, s) | none ↦ (err e, s) ]

  -- `db.Transaction`: an error rolls back.
  abbrev pub transaction : Action S A → Action S A
  transaction m s = let (r, t) = m s in elim r [ ok a ↦ (ok a, t) | err e ↦ (err e, s) ]

infixl 5 ◌>>=◌ ◌>>◌
abbrev pub ◌>>=◌ : {S A B : Type 0} → Action S A → (A → Action S B) → Action S B
◌>>=◌ m f s = let (r, t) = m s in elim r [ ok a ↦ f a t | err e ↦ (err e, t) ]

abbrev pub ◌>>◌ : {S A B : Type 0} → Action S A → Action S B → Action S B
m >> k = m >>= λ _. k

abbrev pub fail_if : {S : Type 0} → Bool → Error → Action S (Unit {0})
fail_if c e s = elim c [ true ↦ (err e, s) | false ↦ (ok tt, s) ]

abbrev pub modify : {S : Type 0} → (S → S) → Action S (Unit {0})
modify f s = (ok tt, f s)

pub Result-cases {ℓ} :
    {A : Type ℓ} (r : Result A) → ((a : A) × (r ≡ ok a)) ⊎ ((e : Error) × (r ≡ err e))
Result-cases (ok a) = inl (a, refl)
Result-cases (err e) = inr (e, refl)

-- A property of what a sequence or a transaction returns, from its cases.
module _ {S A B : Type 0} where
  pub bind-cases :
      (P : Result B × S → Type 0) (m : Action S A) (f : A → Action S B) (s : S)
      → ((a : A) (t : S) → m s ≡ (ok a, t) → P (f a t))
      → ((e : Error) (t : S) → m s ≡ (err e, t) → P (err e, t))
      → P ((m >>= f) s)
  bind-cases P m f s good bad = go (m s).0 refl
    where
      go :
          (r : Result A)
          → (m s).0 ≡ r
          → P (elim r [ ok a ↦ f a (m s).1 | err e ↦ (err e, (m s).1) ])
      go (ok a) e = good a (m s).1 (λ i. (e i, (m s).1))
      go (err c) e = bad c (m s).1 (λ i. (e i, (m s).1))

module _ {S A : Type 0} where
  pub transaction-cases :
      (P : Result A × S → Type 0) (m : Action S A) (s : S)
      → ((a : A) (t : S) → m s ≡ (ok a, t) → P (ok a, t))
      → ((e : Error) (t : S) → m s ≡ (err e, t) → P (err e, s))
      → P (transaction m s)
  transaction-cases P m s good bad = go (m s).0 refl
    where
      go : (r : Result A) → (m s).0 ≡ r → P (elim r [ ok a ↦ (ok a, (m s).1) | err e ↦ (err e, s) ])
      go (ok a) e = good a (m s).1 (λ i. (e i, (m s).1))
      go (err c) e = bad c (m s).1 (λ i. (e i, (m s).1))

module _ {S A B : Type 0} where
  pub require-cases :
      (P : Result B × S → Type 0) (e : Error) (f : S → Option A) (k : A → Action S B) (s : S)
      → ((a : A) → f s ≡ some a → P (k a s))
      → (f s ≡ none → P (err e, s))
      → P ((require e f >>= k) s)
  require-cases P e f k s found missing = go (f s) refl
    where
      go :
          (o : Option A)
          → f s ≡ o
          → P (
              let (r, t) =
                (let x : Result A × S = elim o [ some a ↦ (ok a, s) | none ↦ (err e, s) ] in x) in
              elim r [ ok a ↦ k a t | err c ↦ (err c, t) ])
      go none h = missing h
      go (some a) h = found a h

module _ {S B : Type 0} where
  pub fail_if-cases :
      (P : Result B × S → Type 0) (c : Bool) (e : Error) (k : Action S B) (s : S)
      → (c ≡ false → P (k s))
      → (c ≡ true → P (err e, s))
      → P ((fail_if c e >> k) s)
  fail_if-cases P c e k s pass stop = go c refl
    where
      go :
          (b : Bool)
          → c ≡ b
          → P (
              let (r, t) =
                (let x : Result (Unit {0}) × S = elim b [
                  | true ↦ (err e, s)
                  | false ↦ (ok tt, s)
                ] in
                  x) in
              elim r [ ok a ↦ k t | err d ↦ (err d, t) ])
      go true h = stop h
      go false h = pass h

module _ {S B : Type 0} where
  pub create-cases :
      (P : Result B × S → Type 0) (clash : S → Bool) (add : S → S) (k : Action S B) (s : S)
      → (clash s ≡ false → P (k (add s)))
      → (clash s ≡ true → P (err duplicated_key, s))
      → P ((create clash add >> k) s)
  create-cases P clash add k s made refused = go (clash s) refl
    where
      go :
          (b : Bool)
          → clash s ≡ b
          → P (
              let (r, t) =
                (let x : Result (Unit {0}) × S = elim b [
                  | true ↦ (err duplicated_key, s)
                  | false ↦ (ok tt, add s)
                ] in
                  x) in
              elim r [ ok a ↦ k t | err d ↦ (err d, t) ])
      go true h = refused h
      go false h = made h

  -- A result that was read off before: the state is the one at hand.
  pub lift-cases :
      {A : Type 0} (P : Result B × S → Type 0) (r : Result A) (k : A → Action S B) (s : S)
      → ((a : A) → r ≡ ok a → P (k a s))
      → ((e : Error) → r ≡ err e → P (err e, s))
      → P ((lift r >>= k) s)
  lift-cases P (ok a) k s good bad = good a refl
  lift-cases P (err e) k s good bad = bad e refl

module _ {S A : Type 0} (Q : S → Type 0) (m : Action S A) (s : S) where
  -- What holds before a transaction and after its body holds after it.
  pub transaction_keeps : Q s → Q (m s).1 → Q (transaction m s).1
  transaction_keeps before behind =
      transaction-cases (λ x. Q x.1) m s (λ _ t e. subst (λ x. Q x.1) e behind) (λ _ _ _. before)

-- A property of a result that says nothing of an error.
abbrev pub OnSuccess : {S A : Type 0} → (Result A × S → Type 0) → Result A × S → Type 0
OnSuccess P (ok a, s) = P (ok a, s)
OnSuccess P (err _, _) = Unit

-- A transaction whose body is right where it succeeds, and that may fail in the state it began in.
pub transaction_ok :
    {S A : Type 0} (P : Result A × S → Type 0) (m : Action S A) (s : S)
    → OnSuccess P (m s)
    → ((e : Error) → P (err e, s))
    → P (transaction m s)
transaction_ok P m s good bad =
    transaction-cases P m s (λ _ _ e. subst (OnSuccess P) e good) (λ c _ _. bad c)

-- The same, from what the result is where it succeeds.
pub on_success :
    {S A : Type 0} (P : Result A × S → Type 0) (x : Result A × S)
    → ((a : A) (t : S) → x ≡ (ok a, t) → P (ok a, t))
    → OnSuccess P x
on_success P (ok a, t) k = k a t refl
on_success P (err _, t) k = tt

-- An error ends a sequence.
pub bind_err :
    {S A B : Type 0} (m : Action S A) (k : A → Action S B) (s : S) {t : S} {e : Error}
    → m s ≡ (err e, t)
    → (m >>= k) s ≡ (err e, t)
bind_err m k s h = ap (λ x. elim x.0 [ ok a ↦ k a x.1 | err c ↦ (err c, x.1) ]) h

pub OnSuccess-map :
    {S A : Type 0} (P Q : Result A × S → Type 0) (x : Result A × S)
    → ((a : A) (t : S) → P (ok a, t) → Q (ok a, t))
    → OnSuccess P x
    → OnSuccess Q x
OnSuccess-map P Q (ok a, t) k p = k a t p
OnSuccess-map P Q (err _, t) k p = tt
