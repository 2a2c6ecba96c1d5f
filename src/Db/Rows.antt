-- ===== src/Db/Rows.antt =====
-- What holds of all the rows of a table, tables with distinct keys, and the laws of their queries.
use vgate_manager.Prelude.{
  ◌≡◌, refl, ◌∙◌, String, Bool, true, false, ◌&&◌, ◌||◌, List, [], ◌∷◌, some, ◌==◌, arith, eq_iff,
  eq_refl, Bool-cases, inl, inr, if◌then◌else◌,
}
use vgate_manager.Db.Table.{first, find_all, any, insert, update, delete}

and_false : (x y : Bool) → ((x && false) || y) ≡ y
and_false true y = refl
and_false false y = refl

module _ {ℓ} {A : Type ℓ} where
  abbrev pub All {κ} : (A → Type κ) → List A → Type κ
  All P [] = Unit
  All P (a ∷ l) = P a × All P l

  -- No two rows have the same key.
  abbrev pub DistinctBy : (A → String) → List A → Type 0
  DistinctBy key [] = Unit
  DistinctBy key (a ∷ l) = All (λ b. (key b == key a) ≡ false) l × DistinctBy key l

  pub All-zip {κ μ ν} :
      {P : A → Type κ} {Q : A → Type μ} {R : A → Type ν} (l : List A)
      → ((a : A) → P a → Q a → R a)
      → All P l
      → All Q l
      → All R l
  All-zip [] f p q = tt
  All-zip (a ∷ l) f p q = (f a p.0 q.0, All-zip l f p.1 q.1)

  pub find_all-congr :
      (p q : A → Bool) (l : List A) → All (λ a. p a ≡ q a) l → find_all p l ≡ find_all q l
  unfolding find_all
  find_all-congr p q [] h = refl
  find_all-congr p q (a ∷ l) h = rw (h.0, find_all-congr p q l h.1) refl

  any_none : (p : A → Bool) (l : List A) → All (λ a. p a ≡ false) l → any p l ≡ false
  unfolding any
  any_none p [] h = refl
  any_none p (a ∷ l) h = rw (h.0, any_none p l h.1) refl

  pub any-or : (p q : A → Bool) (l : List A) → any (λ a. p a || q a) l ≡ (any p l || any q l)
  unfolding any
  any-or p q [] = refl
  any-or p q (a ∷ l) = ground (arith, any-or p q l)

  -- Among rows with distinct keys, the test on the row with a row's key is the test on that row.
  pub any-keyed :
      (key : A → String) (p : A → Bool) (l : List A)
      → DistinctBy key l
      → All (λ a. any (λ b. p b && (key b == key a)) l ≡ p a) l
  unfolding any
  any-keyed key p [] d = tt
  any-keyed key p (g ∷ l) d = (
    rw
        (
          eq_refl (key g),
          any_none (λ b. p b && (key b == key g)) l (All-zip l (λ b n _. ground arith) d.0 d.0),
        )
        (ground arith),
    All-zip l
        (λ a n ih.
          let apart : (key g == key a) ≡ false =
            ground (arith, eq_iff (key g) (key a), eq_iff (key a) (key g)) in
          rw apart (and_false (p g) _ ∙ ih))
        d.0 (any-keyed key p l d.1),
  )

  pub first-find_all :
      (p q : A → Bool) (l : List A)
      → ((a : A) → q a ≡ true → p a ≡ true)
      → first q (find_all p l) ≡ first q l
  unfolding first find_all
  first-find_all p q [] h = refl
  first-find_all p q (a ∷ l) h = ground (arith, h a, first-find_all p q l h)

  pub any_never : (p : A → Bool) (l : List A) → ((a : A) → p a ≡ false) → any p l ≡ false
  unfolding any
  any_never p [] h = refl
  any_never p (a ∷ l) h = rw (h a, any_never p l h) refl

  pub any-find_all : (p q : A → Bool) (l : List A) → any p (find_all q l) ≡ any (λ a. q a && p a) l
  unfolding any find_all
  any-find_all p q [] = refl
  any-find_all p q (a ∷ l) = elim (Bool-cases (q a)) [
    | inl t ↦ rw (t, any-find_all p q l) refl
    | inr n ↦ rw (n, any-find_all p q l) refl
  ]

  pub any_mono :
      (p q : A → Bool) (l : List A)
      → ((a : A) → p a ≡ true → q a ≡ true)
      → any p l ≡ true
      → any q l ≡ true
  unfolding any
  any_mono p q [] h t = t
  any_mono p q (a ∷ l) h t = ground (arith, h a, any_mono p q l h)

  -- A row that was found is there.
  pub any-first :
      (q p : A → Bool) (l : List A) (a : A) → first q l ≡ some a → p a ≡ true → any p l ≡ true
  unfolding first any
  any-first q p [] a e t = ground arith
  any-first q p (b ∷ l) a e t = ground (arith, any-first q p l a)

  pub any-insert : (p : A → Bool) (a : A) (l : List A) → any p (insert a l) ≡ (any p l || p a)
  unfolding any insert
  any-insert p a [] = ground arith
  any-insert p a (b ∷ l) = ground (arith, any-insert p a l)

  -- What is deleted is found no more, and all else is.
  pub any-delete :
      (p q : A → Bool) (l : List A) → any p (delete q l) ≡ any (λ a. if q a then false else p a) l
  unfolding any delete
  any-delete p q [] = refl
  any-delete p q (a ∷ l) = ground (arith, any-delete p q l)

  pub any-update_mono :
      (q p : A → Bool) (f : A → A) (l : List A)
      → ((a : A) → p a ≡ true → q a ≡ true → q (f a) ≡ true)
      → any q l ≡ true
      → any q (update p f l) ≡ true
  unfolding any update
  any-update_mono q p f [] h t = t
  any-update_mono q p f (a ∷ l) h t = ground (arith, h a, any-update_mono q p f l h)

  pub All-insert {κ} : (P : A → Type κ) (a : A) (l : List A) → P a → All P l → All P (insert a l)
  unfolding insert
  All-insert P a [] p h = (p, tt)
  All-insert P a (b ∷ l) p h = (h.0, All-insert P a l p h.1)

  pub All-update {κ μ} :
      (P : A → Type κ) (Q : A → Type μ) (p : A → Bool) (f : A → A) (l : List A)
      → ((a : A) → P a → p a ≡ true → Q (f a))
      → ((a : A) → P a → p a ≡ false → Q a)
      → All P l
      → All Q (update p f l)
  unfolding update
  All-update P Q p f [] g k h = tt
  All-update P Q p f (a ∷ l) g k h = elim (Bool-cases (p a)) [
    | inl t ↦ rw t (g a h.0 t, All-update P Q p f l g k h.1)
    | inr n ↦ rw n (k a h.0 n, All-update P Q p f l g k h.1)
  ]

  pub All-delete {κ μ} :
      (P : A → Type κ) (Q : A → Type μ) (p : A → Bool) (l : List A)
      → ((a : A) → P a → p a ≡ false → Q a)
      → All P l
      → All Q (delete p l)
  unfolding delete
  All-delete P Q p [] k h = tt
  All-delete P Q p (a ∷ l) k h = elim (Bool-cases (p a)) [
    | inl t ↦ rw t (All-delete P Q p l k h.1)
    | inr n ↦ rw n (k a h.0 n, All-delete P Q p l k h.1)
  ]

  pub All-any-false : (p : A → Bool) (l : List A) → any p l ≡ false → All (λ a. p a ≡ false) l
  unfolding any
  All-any-false p [] h = tt
  All-any-false p (a ∷ l) h = (ground arith, All-any-false p l (ground arith))

  pub any-delete_keep :
      (p q : A → Bool) (l : List A)
      → ((a : A) → p a ≡ true → q a ≡ false)
      → any p l ≡ true
      → any p (delete q l) ≡ true
  unfolding any delete
  any-delete_keep p q [] h t = t
  any-delete_keep p q (a ∷ l) h t = ground (arith, h a, any-delete_keep p q l h)

  pub any-congr : (p q : A → Bool) (l : List A) → ((a : A) → p a ≡ q a) → any p l ≡ any q l
  unfolding any
  any-congr p q [] h = refl
  any-congr p q (a ∷ l) h = rw (h a, any-congr p q l h) refl

-- `slices.Contains`, and membership in a map that is used as a set.
unfoldable pub contains : String → List String → Bool
contains a = any (λ b. b == a)

pub contains-cons :
    (a b : String) (l : List String) → contains a (b ∷ l) ≡ ((b == a) || contains a l)
unfolding contains any
contains-cons a b l = refl
