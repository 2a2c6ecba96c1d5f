-- ===== src/Traffic/Grants/Rows.antt =====
-- The rows of a user among the grants: their keys, and what an update of the table does to them.
use vgate_manager.Prelude.{
  ◌≡◌, refl, String, false, List, [], ◌∷◌, ◌==◌, arith, leb_ℤ, Bool-cases, inl, inr, eq_iff,
  if◌then◌else◌,
}
use vgate_manager.Prelude.Int.{ℤ}
use vgate_manager.Db.Table.{update}
use vgate_manager.Db.Rows.{All}
use vgate_manager.Model.Grant.{TrafficGrant}
use vgate_manager.Traffic.Grants.{file_grant, grants_of, with_used, add_used}

-- Two rows have different keys.
abbrev pub Differs : TrafficGrant → TrafficGrant → Type 0
Differs g h = (h.id == g.id) ≡ false

-- The keys of a list are distinct.
abbrev pub Distinct : List TrafficGrant → Type 0
Distinct [] = Unit
Distinct (g ∷ l) = All (Differs g) l × Distinct l

-- No key of the one list is one of the other.
abbrev pub Apart : List TrafficGrant → List TrafficGrant → Type 0
Apart [] ys = Unit
Apart (g ∷ l) ys = All (Differs g) ys × Apart l ys

pub All-file_grant :
    (P : TrafficGrant → Type 0) (g : TrafficGrant) (l : List TrafficGrant)
    → P g
    → All P l
    → All P (file_grant g l)
unfolding file_grant
All-file_grant P g [] p h = (p, tt)
All-file_grant P g (k ∷ l) p h = elim (Bool-cases (leb_ℤ g.granted_at k.granted_at)) [
  | inl t ↦ rw t (p, h)
  | inr f ↦ rw f (h.0, All-file_grant P g l p h.1)
]

pub All-grants_of :
    (P : TrafficGrant → Type 0) (v : String) (l : List TrafficGrant)
    → All P l
    → All P (grants_of v l)
unfolding grants_of
All-grants_of P v [] h = tt
All-grants_of P v (g ∷ l) h = elim (Bool-cases (g.user_id == v)) [
  | inl t ↦ rw t (All-file_grant P g (grants_of v l) h.0 (All-grants_of P v l h.1))
  | inr f ↦ rw f (All-grants_of P v l h.1)
]

Differs-sym : (g h : TrafficGrant) → Differs g h → Differs h g
Differs-sym g h d = elim (Bool-cases (g.id == h.id)) [
  | inl t ↦ ground (arith, eq_iff g.id h.id, eq_iff h.id g.id)
  | inr f ↦ f
]

pub All-sym :
    (g : TrafficGrant) (l : List TrafficGrant) → All (Differs g) l → All (λ h. Differs h g) l
All-sym g [] h = tt
All-sym g (k ∷ l) h = (Differs-sym g k h.0, All-sym g l h.1)

Distinct-file_grant :
    (g : TrafficGrant) (l : List TrafficGrant)
    → All (Differs g) l
    → Distinct l
    → Distinct (file_grant g l)
unfolding file_grant
Distinct-file_grant g [] a d = (tt, tt)
Distinct-file_grant g (k ∷ l) a d = elim (Bool-cases (leb_ℤ g.granted_at k.granted_at)) [
  | inl t ↦ rw t (a, d)
  | inr f ↦
      rw f
        (All-file_grant (Differs k) g l (Differs-sym g k a.0) d.0, Distinct-file_grant g l a.1 d.1)
]

pub Distinct-grants_of :
    (v : String) (l : List TrafficGrant) → Distinct l → Distinct (grants_of v l)
unfolding grants_of
Distinct-grants_of v [] d = tt
Distinct-grants_of v (g ∷ l) d = elim (Bool-cases (g.user_id == v)) [
  | inl t ↦ rw t (
      Distinct-file_grant g (grants_of v l) (All-grants_of (Differs g) v l d.0)
        (Distinct-grants_of v l d.1))
  | inr f ↦ rw f (Distinct-grants_of v l d.1)
]

Apart-file_left :
    (g : TrafficGrant) (l ys : List TrafficGrant)
    → All (Differs g) ys
    → Apart l ys
    → Apart (file_grant g l) ys
unfolding file_grant
Apart-file_left g [] ys a h = (a, tt)
Apart-file_left g (k ∷ l) ys a h = elim (Bool-cases (leb_ℤ g.granted_at k.granted_at)) [
  | inl t ↦ rw t (a, h)
  | inr f ↦ rw f (h.0, Apart-file_left g l ys a h.1)
]

Apart-file_right :
    (g : TrafficGrant) (l ys : List TrafficGrant)
    → All (λ h. Differs h g) l
    → Apart l ys
    → Apart l (file_grant g ys)
Apart-file_right g [] ys a h = tt
Apart-file_right g (k ∷ l) ys a h =
    (All-file_grant (Differs k) g ys a.0 h.0, Apart-file_right g l ys a.1 h.1)

-- The rows of two users have different keys.
pub Apart-grants_of :
    (v w : String) (l : List TrafficGrant)
    → (v == w) ≡ false
    → Distinct l
    → Apart (grants_of v l) (grants_of w l)
unfolding grants_of
Apart-grants_of v w [] n d = tt
Apart-grants_of v w (g ∷ l) n d = elim (Bool-cases (g.user_id == v)) [
  | inl t ↦
      let f : (g.user_id == w) ≡ false =
        ground (arith, eq_iff g.user_id v, eq_iff g.user_id w, eq_iff v w) in
      rw (t, f)
        (Apart-file_left g (grants_of v l) (grants_of w l) (All-grants_of (Differs g) w l d.0)
          (Apart-grants_of v w l n d.1))
  | inr f ↦ elim (Bool-cases (g.user_id == w)) [
    | inl t ↦
        rw (f, t)
          (Apart-file_right g (grants_of v l) (grants_of w l)
            (All-grants_of (λ h. Differs h g) v l (All-sym g l d.0)) (Apart-grants_of v w l n d.1))
    | inr e ↦ rw (f, e) (Apart-grants_of v w l n d.1)
  ]
]

-- A charge moves no row, to no other user and to no other time.
file_grant-add_used :
    (id : String) (take : ℤ) (g : TrafficGrant) (l : List TrafficGrant)
    → file_grant (if g.id == id then with_used take g else g) (add_used id take l)
      ≡ add_used id take (file_grant g l)
unfolding file_grant add_used update
file_grant-add_used id take g [] = refl
file_grant-add_used id take g (k ∷ l) = ground (arith, file_grant-add_used id take g l)

pub grants_of-add_used :
    (v id : String) (take : ℤ) (l : List TrafficGrant)
    → grants_of v (add_used id take l) ≡ add_used id take (grants_of v l)
unfolding grants_of add_used update
grants_of-add_used v id take [] = refl
grants_of-add_used v id take (g ∷ l) =
    ground (arith, file_grant-add_used id take g (grants_of v l), grants_of-add_used v id take l)

All-add_used :
    (k g : TrafficGrant) (id : String) (take : ℤ) (l : List TrafficGrant)
    → k.id ≡ g.id
    → All (Differs g) l
    → All (Differs k) (add_used id take l)
unfolding add_used update
All-add_used k g id take [] e a = tt
All-add_used k g id take (h ∷ l) e a = (ground arith, All-add_used k g id take l e a.1)

pub Distinct-add_used :
    (id : String) (take : ℤ) (l : List TrafficGrant) → Distinct l → Distinct (add_used id take l)
unfolding add_used update
Distinct-add_used id take [] d = tt
Distinct-add_used id take (g ∷ l) d = (
  All-add_used (if g.id == id then with_used take g else g) g id take l (ground arith) d.0,
  Distinct-add_used id take l d.1,
)

-- A charge to a key that the list does not have changes nothing in it.
pub add_used_absent :
    (g : TrafficGrant) (take : ℤ) (l : List TrafficGrant)
    → All (Differs g) l
    → add_used g.id take l ≡ l
unfolding add_used update
add_used_absent g take [] a = refl
add_used_absent g take (h ∷ l) a = rw (a.0, add_used_absent g take l a.1) refl
