-- ===== src/Db/Table.antt =====
-- A database table as the list of its rows, with the statements that GORM issues: the first row
-- of a WHERE clause, a COUNT, an UPDATE, a DELETE, and the insertion of a row.
use mathlib.Core.Option
use vgate_manager.Prelude.{
  ℕ, suc, ◌+◌, ◌≤◌, ◌≡◌, refl, inl, inr, Bool, true, false, Option, none, some, List, [], ◌∷◌, ◌++◌,
  arith, ◌||◌, if◌then◌else◌, Bool-cases,
}

module _ {ℓ} {A : Type ℓ} where
  unfoldable pub first : (A → Bool) → List A → Option A
  first q [] = none
  first q (a ∷ l) = if q a then some a else first q l

  unfoldable pub count : (A → Bool) → List A → ℕ
  count q [] = 0
  count q (a ∷ l) = if q a then suc (count q l) else count q l

  unfoldable pub update : (A → Bool) → (A → A) → List A → List A
  update p f [] = []
  update p f (a ∷ l) = (if p a then f a else a) ∷ update p f l

  unfoldable pub delete : (A → Bool) → List A → List A
  delete p [] = []
  delete p (a ∷ l) = if p a then delete p l else a ∷ delete p l

  -- `Find`: the rows of a WHERE clause.
  unfoldable pub find_all : (A → Bool) → List A → List A
  find_all p [] = []
  find_all p (a ∷ l) = let rest = find_all p l in if p a then a ∷ rest else rest

  -- `EXISTS (SELECT 1 ... WHERE p)`
  unfoldable pub any : (A → Bool) → List A → Bool
  any p [] = false
  any p (a ∷ l) = p a || any p l

  -- A new row is listed last.
  unfoldable pub insert : A → List A → List A
  insert a l = l ++ a ∷ []

  pub first-holds : (q : A → Bool) (l : List A) {a : A} → first q l ≡ some a → q a ≡ true
  unfolding first
  first-holds q [] h = ground arith
  first-holds q (b ∷ l) {a} h = elim (Bool-cases (q b)) [
    | inl t ↦ ground arith
    | inr f ↦ first-holds q l (rw f at h)
  ]

  pub first-insert :
      (q : A → Bool) (a : A) (l : List A)
      → first q (insert a l)
        ≡ (elim (first q l) [ some b ↦ some b | none ↦ (if q a then some a else none) ])
  unfolding first insert
  first-insert q a [] = ground arith
  first-insert q a (b ∷ l) = ground (arith, first-insert q a l)

  pub count-insert :
      (q : A → Bool) (a : A) (l : List A)
      → count q (insert a l) ≡ count q l + (if q a then 1 else 0)
  unfolding count insert
  count-insert q a [] = ground arith
  count-insert q a (b ∷ l) = ground (arith, count-insert q a l)

  pub first-update :
      (q p : A → Bool) (f : A → A) (l : List A)
      → ((a : A) → p a ≡ true → q (f a) ≡ q a)
      → first q (update p f l) ≡ Option.map (λ a. if p a then f a else a) (first q l)
  unfolding first update
  first-update q p f [] same = refl
  first-update q p f (a ∷ l) same = ground (arith, same a, first-update q p f l same)

  -- An update that makes no row match leaves at most as many that do.
  pub count-update-le :
      (q p : A → Bool) (f : A → A) (l : List A)
      → ((a : A) → p a ≡ true → q (f a) ≡ true → q a ≡ true)
      → count q (update p f l) ≤ count q l
  unfolding count update
  count-update-le q p f [] h = omega arith
  count-update-le q p f (a ∷ l) h = ground (arith, h a, count-update-le q p f l h)

  pub count-update_same :
      (q p : A → Bool) (f : A → A) (l : List A)
      → ((a : A) → p a ≡ true → q (f a) ≡ q a)
      → count q (update p f l) ≡ count q l
  unfolding count update
  count-update_same q p f [] h = refl
  count-update_same q p f (a ∷ l) h = ground (arith, h a, count-update_same q p f l h)

  -- An UPDATE that matches no row changes nothing.
  pub update_none : (p : A → Bool) (f : A → A) (l : List A) → count p l ≡ 0 → update p f l ≡ l
  unfolding count update
  update_none p f [] h = refl
  update_none p f (a ∷ l) h = ground (arith, update_none p f l)

  pub count-delete-le : (q p : A → Bool) (l : List A) → count q (delete p l) ≤ count q l
  unfolding count delete
  count-delete-le q p [] = omega arith
  count-delete-le q p (a ∷ l) = ground (arith, count-delete-le q p l)

  pub first-none : (q : A → Bool) (l : List A) → count q l ≡ 0 → first q l ≡ none
  unfolding count first
  first-none q [] h = refl
  first-none q (a ∷ l) h = ground (arith, first-none q l)

  -- After an UPDATE that takes every row it matches out of a WHERE clause, none is left in it.
  pub count-update_zero :
      (q : A → Bool) (f : A → A) (l : List A)
      → ((a : A) → q a ≡ true → q (f a) ≡ false)
      → count q (update q f l) ≡ 0
  unfolding count update
  count-update_zero q f [] h = refl
  count-update_zero q f (a ∷ l) h = ground (arith, h a, count-update_zero q f l h)
