-- ===== src/Db/Keyed.antt =====
-- Tables whose rows have distinct keys: what is found, inserted and updated in them.
use mathlib.Core.Path.{subst}
use vgate_manager.Prelude.{
  ◌≡◌, refl, String, Bool, true, false, List, [], ◌∷◌, none, some, ◌==◌, arith, eq_iff, eq_refl,
  Bool-cases, inl, inr,
}
use vgate_manager.Db.Table.{first, insert, update}
use vgate_manager.Db.Rows.{All, DistinctBy, All-update, All-insert}

module _ {ℓ} {A : Type ℓ} where
  -- Two updates of the same rows are one.
  pub update-update :
      (p : A → Bool) (f g : A → A) (l : List A)
      → ((a : A) → p a ≡ true → p (f a) ≡ true)
      → update p g (update p f l) ≡ update p (λ a. g (f a)) l
  unfolding update
  update-update p f g [] h = refl
  update-update p f g (a ∷ l) h = ground (arith, h a, update-update p f g l h)

  pub All-first {κ} :
      (P : A → Type κ) (q : A → Bool) (l : List A) (a : A) → All P l → first q l ≡ some a → P a
  unfolding first
  All-first P q [] a h e = absurd (ground arith)
  All-first P q (b ∷ l) a h e = elim (Bool-cases (q b)) [
    | inl t ↦ let same : b ≡ a = ground arith in subst P same h.0
    | inr n ↦ All-first P q l a h.1 (rw n at e)
  ]

  -- In a table with distinct keys a row that is found is found under its key.
  pub first-keyed :
      (key : A → String) (q : A → Bool) (l : List A) (a : A)
      → DistinctBy key l
      → first q l ≡ some a
      → first (λ b. key b == key a) l ≡ some a
  unfolding first
  first-keyed key q [] a d e = absurd (ground arith)
  first-keyed key q (b ∷ l) a d e = elim (Bool-cases (q b)) [
    | inl t ↦ let same : b ≡ a = ground arith in rw (← same, eq_refl (key b)) refl
    | inr n ↦
        let rest : first q l ≡ some a = rw n at e in
        let apart : (key a == key b) ≡ false =
          All-first (λ c. (key c == key b) ≡ false) q l a d.0 rest in
        let other : (key b == key a) ≡ false =
          ground (arith, eq_iff (key a) (key b), eq_iff (key b) (key a)) in
        rw other (first-keyed key q l a d.1 rest)
  ]

  -- An update that keeps the keys keeps them distinct.
  pub DistinctBy-update :
      (key : A → String) (p : A → Bool) (f : A → A) (l : List A)
      → ((a : A) → key (f a) ≡ key a)
      → DistinctBy key l
      → DistinctBy key (update p f l)
  unfolding update
  DistinctBy-update key p f [] same d = tt
  DistinctBy-update key p f (a ∷ l) same d =
      let apart : All (λ b. (key b == key a) ≡ false) (update p f l) =
        All-update (λ b. (key b == key a) ≡ false) (λ b. (key b == key a) ≡ false) p f l
          (λ b n _. rw (same b) n) (λ b n _. n) d.0 in
      let rest = DistinctBy-update key p f l same d.1 in
      elim (Bool-cases (p a)) [ inl t ↦ rw (t, same a) (apart, rest) | inr n ↦ rw n (apart, rest) ]

  pub DistinctBy-insert :
      (key : A → String) (a : A) (l : List A)
      → first (λ b. key b == key a) l ≡ none
      → DistinctBy key l
      → DistinctBy key (insert a l)
  unfolding first insert
  DistinctBy-insert key a [] n d = (tt, tt)
  DistinctBy-insert key a (b ∷ l) n d = elim (Bool-cases (key b == key a)) [
    | inl t ↦ absurd (ground arith)
    | inr m ↦
        let other : (key a == key b) ≡ false =
          ground (arith, eq_iff (key a) (key b), eq_iff (key b) (key a)) in
        (
          All-insert (λ c. (key c == key b) ≡ false) a l other d.0,
          DistinctBy-insert key a l (rw m at n) d.1,
        )
  ]
