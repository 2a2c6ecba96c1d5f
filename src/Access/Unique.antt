-- ===== src/Access/Unique.antt =====
-- `uniqueStrings` of internal/service/user.go: the entries of a list, each once.
use vgate_manager.Prelude.{
  ◌≡◌, refl, ap, ◌∙◌, String, true, false, not, ◌&&◌, List, [], ◌∷◌, ◌==◌, arith, eq_iff,
  Bool-cases, inl, inr,
}
use vgate_manager.Db.Table.{any}
use vgate_manager.Db.Rows.{All, DistinctBy, All-zip, contains, contains-cons}
use vgate_manager.Access.{unique_from, unique_strings}

contains-unique_from :
    (a : String) (seen l : List String)
    → contains a (unique_from seen l) ≡ (contains a l && not (contains a seen))
unfolding unique_from
contains-unique_from a seen [] = unfold contains any in refl
contains-unique_from a seen (s ∷ l) =
    let here = contains-cons a s l in
    elim (Bool-cases (s == a)) [
      | inl e ↦
          let same = ap (λ x. contains x seen) ((eq_iff s a).0 e) in
          ground (
            arith,
            here,
            same,
            contains-unique_from a seen l,
            contains-unique_from a (s ∷ seen) l,
            contains-cons a s seen,
            contains-cons a s (unique_from (s ∷ seen) l),
          )
      | inr n ↦ ground (
        arith,
        here,
        contains-unique_from a seen l,
        contains-unique_from a (s ∷ seen) l,
        contains-cons a s seen,
        contains-cons a s (unique_from (s ∷ seen) l),
      )
    ]

seen_entry :
    (s : String) (seen l : List String)
    → contains s seen ≡ true
    → unique_from seen (s ∷ l) ≡ unique_from seen l
unfolding unique_from
seen_entry s seen l t = ground arith

new_entry :
    (s : String) (seen l : List String)
    → contains s seen ≡ false
    → unique_from seen (s ∷ l) ≡ s ∷ unique_from (s ∷ seen) l
unfolding unique_from
new_entry s seen l n = ground arith

-- What the list has is not what was seen before.
unique_from-new : (seen l : List String) → All (λ b. contains b seen ≡ false) (unique_from seen l)
unique_from-new seen [] = unfold unique_from in tt
unique_from-new seen (s ∷ l) = elim (Bool-cases (contains s seen)) [
  | inl t ↦ rw (seen_entry s seen l t) (unique_from-new seen l)
  | inr n ↦ rw (new_entry s seen l n) (
    n,
    All-zip (unique_from (s ∷ seen) l) (λ b h _. ground (arith, contains-cons b s seen))
        (unique_from-new (s ∷ seen) l) (unique_from-new (s ∷ seen) l),
  )
]

unique_from-DistinctBy : (seen l : List String) → DistinctBy (λ s. s) (unique_from seen l)
unique_from-DistinctBy seen [] = unfold unique_from in tt
unique_from-DistinctBy seen (s ∷ l) = elim (Bool-cases (contains s seen)) [
  | inl t ↦ rw (seen_entry s seen l t) (unique_from-DistinctBy seen l)
  | inr n ↦ rw (new_entry s seen l n) (
    All-zip (unique_from (s ∷ seen) l)
        (λ b h _. ground (arith, contains-cons b s seen, eq_iff b s, eq_iff s b))
        (unique_from-new (s ∷ seen) l) (unique_from-new (s ∷ seen) l),
    unique_from-DistinctBy (s ∷ seen) l,
  )
]

-- The result has the entries of the list and no others, each of them once.
pub unique_strings_lem :
    (l : List String)
    → ((a : String) → contains a (unique_strings l) ≡ contains a l)
      × DistinctBy (λ (s : String). s) (unique_strings l)
unfolding unique_strings
unique_strings_lem l = (
  λ a. contains-unique_from a [] l ∙ unfold contains any in ground arith,
  unique_from-DistinctBy [] l,
)
