-- ===== src/Db/Counts.antt =====
-- How updates and deletions change the number of rows that a test selects.
use vgate_manager.Prelude.{
  ◌+◌, ◌≤◌, ◌≡◌, refl, Bool, true, false, ◌&&◌, List, [], ◌∷◌, some, arith, Bool-cases, inl, inr,
}
use vgate_manager.Db.Table.{first, count, any, update, delete}

module _ {ℓ} {A : Type ℓ} where
  pub count-update_loss :
      (q p : A → Bool) (f : A → A) (l : List A)
      → count q l ≤ count q (update p f l) + count (λ a. p a && q a) l
  unfolding count update
  count-update_loss q p f [] = omega arith
  count-update_loss q p f (a ∷ l) = ground (arith, count-update_loss q p f l)

  pub count-delete_loss :
      (q p : A → Bool) (l : List A) → count q l ≤ count q (delete p l) + count (λ a. p a && q a) l
  unfolding count delete
  count-delete_loss q p [] = omega arith
  count-delete_loss q p (a ∷ l) = ground (arith, count-delete_loss q p l)

  -- An update into the selected rows loses none.
  pub count-update_gain :
      (q p : A → Bool) (f : A → A) (l : List A)
      → ((a : A) → p a ≡ true → q (f a) ≡ true)
      → count q l ≤ count q (update p f l)
  unfolding count update
  count-update_gain q p f [] h = omega arith
  count-update_gain q p f (a ∷ l) h = ground (arith, h a, count-update_gain q p f l h)

  pub count-and-le : (p q : A → Bool) (l : List A) → count (λ a. p a && q a) l ≤ count p l
  unfolding count
  count-and-le p q [] = omega arith
  count-and-le p q (a ∷ l) = ground (arith, count-and-le p q l)

  -- The only row that is selected fails the test, so none does.
  pub count-and_first :
      (p q : A → Bool) (l : List A) (a : A)
      → first p l ≡ some a
      → count p l ≤ 1
      → q a ≡ false
      → count (λ b. p b && q b) l ≡ 0
  unfolding first count
  count-and_first p q [] a e one n = refl
  count-and_first p q (b ∷ l) a e one n = elim (Bool-cases (p b)) [
    | inl t ↦ ground (arith, count-and-le p q l)
    | inr m ↦ ground (arith, count-and_first p q l a)
  ]

  pub count-any : (p : A → Bool) (l : List A) → any p l ≡ false → count p l ≡ 0
  unfolding any count
  count-any p [] h = refl
  count-any p (a ∷ l) h = ground (arith, count-any p l)

  pub count-positive : (p : A → Bool) (l : List A) → any p l ≡ true → 1 ≤ count p l
  unfolding any count
  count-positive p [] h = absurd (ground arith)
  count-positive p (a ∷ l) h = ground (arith, count-positive p l)

  pub count-le_of :
      (p q : A → Bool) (l : List A) → ((a : A) → p a ≡ true → q a ≡ true) → count p l ≤ count q l
  unfolding count
  count-le_of p q [] h = omega arith
  count-le_of p q (a ∷ l) h = ground (arith, h a, count-le_of p q l h)
