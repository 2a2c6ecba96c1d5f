-- ===== src/Traffic/Grants/Charge.antt =====
-- The charge to the rows of the table is the reference on the user's grants, and what it adds up to.
use mathlib.Core.Path.{subst}
use vgate_manager.Prelude.{
  ◌⊎◌, ◌≡◌, refl, ap, ◌∙◌, String, List, [], ◌∷◌, arith, eq_refl, ltb_ℤ, leb_ℤ, min_ℤ, Bool-cases,
  inl, inr,
}
use vgate_manager.Prelude.Int.{
  ℤ, pos, ◌+ℤ◌, ◌-ℤ◌, ◌≤ℤ◌, ◌<ℤ◌, Fits, add64, sub64, add64_lem, sub64_nonneg, int_laws,
  min_ℤ-cases, -ℤ_parts,
}
use vgate_manager.Db.Table.{update}
use vgate_manager.Db.Rows.{All}
use vgate_manager.Model.Grant.{TrafficGrant, remaining_bytes}
use vgate_manager.Traffic.Grants.{grants_of, room_from, with_used, add_used, charge, fill}
use vgate_manager.Traffic.Grants.Rows.{
  Differs, Distinct, Apart, grants_of-add_used, Distinct-add_used, add_used_absent, All-sym,
}

-- A grant is used up to its quota at most.
abbrev pub IsWithin : TrafficGrant → Type 0
IsWithin g = (pos 0 ≤ℤ g.used_bytes) × (g.used_bytes ≤ℤ g.quota_bytes) × Fits g.quota_bytes

abbrev pub sum_used : List TrafficGrant → ℤ
sum_used [] = pos 0
sum_used (g ∷ l) = g.used_bytes +ℤ sum_used l

abbrev pub sum_quota : List TrafficGrant → ℤ
sum_quota [] = pos 0
sum_quota (g ∷ l) = g.quota_bytes +ℤ sum_quota l

-- What the grants have left, without overflow.
abbrev pub sum_left : List TrafficGrant → ℤ
sum_left [] = pos 0
sum_left (g ∷ l) = (g.quota_bytes -ℤ g.used_bytes) +ℤ sum_left l

pub remaining_bytes_lem :
    (g : TrafficGrant) → IsWithin g → remaining_bytes g ≡ g.quota_bytes -ℤ g.used_bytes
unfolding remaining_bytes
remaining_bytes_lem g h =
    let e : sub64 g.quota_bytes g.used_bytes ≡ g.quota_bytes -ℤ g.used_bytes =
      sub64_nonneg g.quota_bytes g.used_bytes h.2 (ground arith) (omega arith) h.0 in
    rw e (ground (arith, -ℤ_parts g.quota_bytes g.used_bytes))

pub sum_left_nonneg : (l : List TrafficGrant) → All IsWithin l → pos 0 ≤ℤ sum_left l
sum_left_nonneg [] h = omega arith
sum_left_nonneg (g ∷ l) h = omega (int_laws, sum_left_nonneg l h.1)

pub Fits-below : (a b : ℤ) → pos 0 ≤ℤ a → a ≤ℤ b → Fits b → Fits a
Fits-below a b p q f = ground arith

pub room_from_lem :
    (acc : ℤ) (l : List TrafficGrant)
    → pos 0 ≤ℤ acc
    → All IsWithin l
    → Fits (acc +ℤ sum_left l)
    → room_from acc l ≡ acc +ℤ sum_left l
unfolding room_from
room_from_lem acc [] p h f = omega int_laws
room_from_lem acc (g ∷ l) p h f =
    let left = g.quota_bytes -ℤ g.used_bytes in
    let rest : pos 0 ≤ℤ sum_left l = sum_left_nonneg l h.1 in
    let e : add64 acc left ≡ acc +ℤ left = add64_lem acc left (
      Fits-below (acc +ℤ left) (acc +ℤ (left +ℤ sum_left l)) (omega int_laws) (omega int_laws) f) in
    let regroup : acc +ℤ left +ℤ sum_left l ≡ acc +ℤ (left +ℤ sum_left l) = omega int_laws in
    rw (remaining_bytes_lem g h.0, e)
      (room_from_lem (acc +ℤ left) l (omega int_laws) h.1 (rw regroup f) ∙ regroup)

-- What a charge of `n` bytes takes of a grant.
take_facts :
    (g : TrafficGrant) (n : ℤ)
    → IsWithin g
    → pos 0 ≤ℤ n
    → (pos 0 ≤ℤ min_ℤ (remaining_bytes g) n)
      × (min_ℤ (remaining_bytes g) n ≤ℤ n)
      × (min_ℤ (remaining_bytes g) n ≤ℤ g.quota_bytes -ℤ g.used_bytes)
      × ((rest : ℤ)
          → pos 0 ≤ℤ rest
          → n ≤ℤ (g.quota_bytes -ℤ g.used_bytes) +ℤ rest
          → n -ℤ min_ℤ (remaining_bytes g) n ≤ℤ rest)
take_facts g n h p =
    rw (remaining_bytes_lem g h) (elim (min_ℤ-cases (g.quota_bytes -ℤ g.used_bytes) n) [
      | inl m ↦ rw m.0 (omega int_laws, m.1, omega int_laws, λ rest q b. omega int_laws)
      | inr m ↦ rw m.0 (p, omega int_laws, m.1, λ rest q b. omega int_laws)
    ])

-- A charge of nothing.
pub fill_zero : (l : List TrafficGrant) → All IsWithin l → fill (pos 0) l ≡ l
unfolding fill
fill_zero [] h = refl
fill_zero (g ∷ l) h =
    let take : min_ℤ (remaining_bytes g) (pos 0) ≡ pos 0 =
      rw (remaining_bytes_lem g h.0) (elim (min_ℤ-cases (g.quota_bytes -ℤ g.used_bytes) (pos 0)) [
        | inl m ↦ m.0 ∙ omega int_laws
        | inr m ↦ m.0
      ]) in
    let used : g.used_bytes +ℤ pos 0 ≡ g.used_bytes = omega int_laws in
    let none_left : pos 0 -ℤ pos 0 ≡ pos 0 = omega int_laws in
    rw (take, none_left, used, fill_zero l h.1) refl

-- The loop stops, takes from the grant, or passes it by, whatever the table is.
charge_step :
    (n : ℤ) (g : TrafficGrant) (gs : List TrafficGrant)
    → ((n ≤ℤ pos 0) × ((table : List TrafficGrant) → charge n (g ∷ gs) table ≡ (n, table)))
      ⊎ (((pos 0 <ℤ min_ℤ (remaining_bytes g) n)
            × ((table : List TrafficGrant)
                → charge n (g ∷ gs) table
                  ≡ charge
                      (sub64 n (min_ℤ (remaining_bytes g) n))
                      gs
                      (add_used g.id (min_ℤ (remaining_bytes g) n) table)))
          ⊎ ((min_ℤ (remaining_bytes g) n ≤ℤ pos 0)
              × ((table : List TrafficGrant) → charge n (g ∷ gs) table ≡ charge n gs table)))
unfolding charge
charge_step n g gs = elim (Bool-cases (leb_ℤ n (pos 0))) [
  | inl t ↦ inl (ground arith, λ table. rw (t, charge) refl)
  | inr f ↦ elim (Bool-cases (ltb_ℤ (pos 0) (min_ℤ (remaining_bytes g) n))) [
    | inl u ↦ inr (inl (ground arith, λ table. rw (f, charge, u) refl))
    | inr u ↦ inr (inr (ground arith, λ table. rw (f, charge, u) refl))
  ]
]

-- A row that the loop does not name is kept.
charge-cons :
    (n : ℤ) (h : TrafficGrant) (gs table : List TrafficGrant)
    → All (λ g. Differs g h) gs
    → charge n gs (h ∷ table) ≡ ((charge n gs table).0, h ∷ (charge n gs table).1)
unfolding add_used update
charge-cons n h [] table a = unfold charge in refl
charge-cons n h (g ∷ gs) table a = elim (charge_step n g gs) [
  | inl e ↦ rw (e.1 (h ∷ table), e.1 table) refl
  | inr (inl e) ↦
      rw (e.1 (h ∷ table), e.1 table, a.0)
        (charge-cons (sub64 n (min_ℤ (remaining_bytes g) n)) h gs
          (add_used g.id (min_ℤ (remaining_bytes g) n) table) a.1)
  | inr (inr e) ↦ rw (e.1 (h ∷ table), e.1 table) (charge-cons n h gs table a.1)
]

pub charge-left : (n : ℤ) (gs t w : List TrafficGrant) → (charge n gs t).0 ≡ (charge n gs w).0
charge-left n [] t w = unfold charge in refl
charge-left n (g ∷ gs) t w = elim (charge_step n g gs) [
  | inl e ↦ rw (e.1 t, e.1 w) refl
  | inr (inl e) ↦
      rw (e.1 t, e.1 w)
        (charge-left (sub64 n (min_ℤ (remaining_bytes g) n)) gs
          (add_used g.id (min_ℤ (remaining_bytes g) n) t)
          (add_used g.id (min_ℤ (remaining_bytes g) n) w))
  | inr (inr e) ↦ rw (e.1 t, e.1 w) (charge-left n gs t w)
]

pub grants_of-charge :
    (v : String) (n : ℤ) (gs table : List TrafficGrant)
    → grants_of v (charge n gs table).1 ≡ (charge n gs (grants_of v table)).1
grants_of-charge v n [] table = unfold charge in refl
grants_of-charge v n (g ∷ gs) table = elim (charge_step n g gs) [
  | inl e ↦ rw (e.1 table, e.1 (grants_of v table)) refl
  | inr (inl e) ↦
      rw (e.1 table, e.1 (grants_of v table))
        (grants_of-charge v (sub64 n (min_ℤ (remaining_bytes g) n)) gs
            (add_used g.id (min_ℤ (remaining_bytes g) n) table)
          ∙ ap (λ l. (charge (sub64 n (min_ℤ (remaining_bytes g) n)) gs l).1)
              (grants_of-add_used v g.id (min_ℤ (remaining_bytes g) n) table))
  | inr (inr e) ↦ rw (e.1 table, e.1 (grants_of v table)) (grants_of-charge v n gs table)
]

pub charge_absent : (n : ℤ) (gs xs : List TrafficGrant) → Apart gs xs → (charge n gs xs).1 ≡ xs
charge_absent n [] xs a = unfold charge in refl
charge_absent n (g ∷ gs) xs a = elim (charge_step n g gs) [
  | inl e ↦ rw (e.1 xs) refl
  | inr (inl e) ↦
      rw (e.1 xs, add_used_absent g (min_ℤ (remaining_bytes g) n) xs a.0)
        (charge_absent (sub64 n (min_ℤ (remaining_bytes g) n)) gs xs a.1)
  | inr (inr e) ↦ rw (e.1 xs) (charge_absent n gs xs a.1)
]

pub Distinct-charge :
    (n : ℤ) (gs table : List TrafficGrant) → Distinct table → Distinct (charge n gs table).1
Distinct-charge n [] table d = unfold charge in d
Distinct-charge n (g ∷ gs) table d = elim (charge_step n g gs) [
  | inl e ↦ rw (e.1 table) d
  | inr (inl e) ↦ rw (e.1 table) (
      Distinct-charge (sub64 n (min_ℤ (remaining_bytes g) n)) gs
        (add_used g.id (min_ℤ (remaining_bytes g) n) table)
        (Distinct-add_used g.id (min_ℤ (remaining_bytes g) n) table d))
  | inr (inr e) ↦ rw (e.1 table) (Distinct-charge n gs table d)
]

add_used_head :
    (g : TrafficGrant) (take : ℤ) (l : List TrafficGrant)
    → All (Differs g) l
    → add_used g.id take (g ∷ l) ≡ with_used take g ∷ l
unfolding add_used update
add_used_head g take l a = rw (eq_refl g.id, add_used_absent g take l a) refl

-- On the rows themselves, the loop is the reference.
pub charge-fill :
    (n : ℤ) (l : List TrafficGrant)
    → pos 0 ≤ℤ n
    → Fits n
    → n ≤ℤ sum_left l
    → All IsWithin l
    → Distinct l
    → charge n l l ≡ (pos 0, fill n l)
unfolding fill
charge-fill n [] p f b h d = let e : n ≡ pos 0 = omega int_laws in unfold charge in rw e refl
charge-fill n (g ∷ gs) p f b h d =
    let take = (min_ℤ (remaining_bytes g) n) in
    let (low, at_most, room, rest) = take_facts g n h.0 p in
    let keep : n -ℤ take ≤ℤ sum_left gs = rest (sum_left gs) (sum_left_nonneg gs h.1) b in
    elim (charge_step n g gs) [
      | inl e ↦
          let zero : n ≡ pos 0 = omega int_laws in
          e.1 (g ∷ gs) ∙ rw (zero, fill_zero (g ∷ gs) h) refl
      | inr (inl e) ↦
          let left : sub64 n take ≡ n -ℤ take =
            sub64_nonneg n take f (Fits-below take n low at_most f) p low in
          let go : charge (n -ℤ take) gs gs ≡ (pos 0, fill (n -ℤ take) gs) =
            charge-fill (n -ℤ take) gs (omega int_laws)
              (Fits-below (n -ℤ take) n (omega int_laws) (omega int_laws) f) keep h.1 d.1 in
          rw
            (
              e.1 (g ∷ gs),
              left,
              add_used_head g take gs d.0,
              charge-cons (n -ℤ take) (with_used take g) gs gs (All-sym g gs d.0),
              go,
            )
            refl
      | inr (inr e) ↦
          let zero : take ≡ pos 0 = omega int_laws in
          let used : g.used_bytes +ℤ pos 0 ≡ g.used_bytes = omega int_laws in
          let all : n -ℤ pos 0 ≡ n = omega int_laws in
          rw
            (
              e.1 (g ∷ gs),
              charge-cons n g gs gs (All-sym g gs d.0),
              charge-fill n gs p f
                  (subst (λ x. x ≤ℤ sum_left gs) (ap (λ x. n -ℤ x) zero ∙ all) keep) h.1 d.1,
              zero,
              used,
              all,
            )
            refl
    ]

-- What the reference does to the sums, and to each grant.
pub sum_used-fill :
    (n : ℤ) (l : List TrafficGrant)
    → pos 0 ≤ℤ n
    → n ≤ℤ sum_left l
    → All IsWithin l
    → sum_used (fill n l) ≡ sum_used l +ℤ n
unfolding fill
sum_used-fill n [] p b h = omega int_laws
sum_used-fill n (g ∷ gs) p b h =
    let (low, at_most, room, rest) = take_facts g n h.0 p in
    let keep = rest (sum_left gs) (sum_left_nonneg gs h.1) b in
    rw (sum_used-fill (n -ℤ min_ℤ (remaining_bytes g) n) gs (omega int_laws) keep h.1)
      (omega int_laws)

pub sum_quota-fill : (n : ℤ) (l : List TrafficGrant) → sum_quota (fill n l) ≡ sum_quota l
unfolding fill
sum_quota-fill n [] = refl
sum_quota-fill n (g ∷ gs) =
    ap (λ s. g.quota_bytes +ℤ s) (sum_quota-fill (n -ℤ min_ℤ (remaining_bytes g) n) gs)

pub fill-IsWithin :
    (n : ℤ) (l : List TrafficGrant) → pos 0 ≤ℤ n → All IsWithin l → All IsWithin (fill n l)
unfolding fill
fill-IsWithin n [] p h = tt
fill-IsWithin n (g ∷ gs) p h =
    let (low, at_most, room, rest) = take_facts g n h.0 p in
    (
      (omega int_laws, omega int_laws, h.0.2),
      fill-IsWithin (n -ℤ min_ℤ (remaining_bytes g) n) gs (omega int_laws) h.1,
    )

pub sum_left-le : (l : List TrafficGrant) → All IsWithin l → sum_left l ≤ℤ sum_quota l
sum_left-le [] h = omega arith
sum_left-le (g ∷ l) h = omega (int_laws, sum_left-le l h.1)
