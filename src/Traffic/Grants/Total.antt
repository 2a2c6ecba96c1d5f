-- ===== src/Traffic/Grants/Total.antt =====
-- What a report of a user's bytes does to the grants: how much it charges, and to which of them.
use mathlib.Core.Path.{subst}
use vgate_manager.Prelude.{
  ◌⊎◌, ◌≡◌, refl, sym, ap, ◌∙◌, String, false, List, [], ◌∷◌, ◌==◌, arith, ltb_ℤ, min_ℤ, Bool-cases,
  inl, inr, if◌then◌else◌,
}
use vgate_manager.Prelude.Int.{
  ℤ, pos, ◌+ℤ◌, ◌-ℤ◌, ◌≤ℤ◌, ◌<ℤ◌, Fits, sub64, sub64_nonneg, int_laws, min_ℤ-cases,
}
use vgate_manager.Db.Rows.{All}
use vgate_manager.Model.Grant.{TrafficGrant}
use vgate_manager.Traffic.Grants.{grants_of, room_from, charge, charge_grants, fill}
use vgate_manager.Traffic.Grants.Rows.{Distinct, Distinct-grants_of, Apart-grants_of}
use vgate_manager.Traffic.Grants.Charge.{
  IsWithin, sum_quota, sum_left, sum_left_nonneg, sum_left-le, room_from_lem, Fits-below, fill_zero,
  remaining_bytes_lem, charge-fill, charge-left, grants_of-charge, charge_absent, Distinct-charge,
}

-- How much of `delta` bytes the grants bear that have `total` bytes left.
abbrev pub borne : ℤ → ℤ → ℤ
borne delta total = if ltb_ℤ (pos 0) delta then min_ℤ delta total else pos 0

-- Rows before and after a charge: each is full, or those behind it are as they were.
abbrev pub IsFifo : List TrafficGrant → List TrafficGrant → Type 0
IsFifo (g ∷ l) (h ∷ m) = ((h.used_bytes ≡ h.quota_bytes) ⊎ (m ≡ l)) × IsFifo l m
IsFifo _ _ = Unit

fill-IsFifo : (n : ℤ) (l : List TrafficGrant) → pos 0 ≤ℤ n → All IsWithin l → IsFifo l (fill n l)
unfolding fill
fill-IsFifo n [] p h = tt
fill-IsFifo n (g ∷ gs) p h = rw (remaining_bytes_lem g h.0) (
    let left = g.quota_bytes -ℤ g.used_bytes in
    elim (min_ℤ-cases left n) [
      | inl m ↦ rw m.0 (inl (omega int_laws), fill-IsFifo (n -ℤ left) gs (omega int_laws) h.1)
      | inr m ↦
          let zero : n -ℤ n ≡ pos 0 = omega int_laws in
          rw (m.0, zero) (inr (fill_zero gs h.1), fill-IsFifo (pos 0) gs (omega arith) h.1)
    ])

min_bounds :
    (delta total : ℤ)
    → pos 0 <ℤ delta
    → pos 0 ≤ℤ total
    → (pos 0 ≤ℤ min_ℤ delta total) × (min_ℤ delta total ≤ℤ total)
min_bounds delta total q p = elim (min_ℤ-cases delta total) [
  | inl m ↦ rw m.0 (omega arith, m.1)
  | inr m ↦ rw m.0 (p, omega arith)
]

pub borne_bounds :
    (delta total : ℤ) → pos 0 ≤ℤ total → (pos 0 ≤ℤ borne delta total) × (borne delta total ≤ℤ total)
borne_bounds delta total p = elim (Bool-cases (ltb_ℤ (pos 0) delta)) [
  | inl t ↦ rw t (min_bounds delta total (ground arith) p)
  | inr f ↦ rw f (omega arith, p)
]

-- What the charge of `delta` bytes of the user `v` is, and what it makes of the table.
abbrev pub ChargedAs : String → ℤ → List TrafficGrant → ℤ × List TrafficGrant → Type 0
ChargedAs v delta table (consumed, after) =
    let rows = grants_of v table in
    (consumed ≡ borne delta (sum_left rows))
    × (grants_of v after ≡ fill consumed rows)
    × IsFifo rows (grants_of v after)
    × ((w : String) → (v == w) ≡ false → grants_of w after ≡ grants_of w table)
    × Distinct after

module _ (v : String) (delta : ℤ) (table : List TrafficGrant) (d : Distinct table)
    (h : All IsWithin (grants_of v table)) (f : Fits (sum_quota (grants_of v table))) where
  abbrev rows : List TrafficGrant
  rows = grants_of v table

  room_from-rows : room_from (pos 0) rows ≡ sum_left rows
  room_from-rows =
      let e : pos 0 +ℤ sum_left rows ≡ sum_left rows = omega int_laws in
      room_from_lem (pos 0) rows (omega arith) h (
        rw e (
          Fits-below (sum_left rows) (sum_quota rows) (sum_left_nonneg rows h) (sum_left-le rows h)
            f))
      ∙ e

  -- Nothing is charged.
  charged_nothing : borne delta (sum_left rows) ≡ pos 0 → ChargedAs v delta table (pos 0, table)
  charged_nothing e = (
    sym e,
    sym (fill_zero rows h),
    subst (IsFifo rows) (fill_zero rows h) (fill-IsFifo (pos 0) rows (omega arith) h),
    λ _ _. refl,
    d,
  )

  charged_some :
      (n : ℤ)
      → pos 0 <ℤ n
      → n ≤ℤ sum_left rows
      → borne delta (sum_left rows) ≡ n
      → ChargedAs v delta table (sub64 n (charge n rows table).0, (charge n rows table).1)
  charged_some n p b e =
      let fits : Fits n =
        Fits-below n (sum_quota rows) (omega arith) (omega (arith, sum_left-le rows h)) f in
      let run : charge n rows rows ≡ (pos 0, fill n rows) =
        charge-fill n rows (omega arith) fits b h (Distinct-grants_of v table d) in
      let none_left : (charge n rows table).0 ≡ pos 0 =
        charge-left n rows table rows ∙ ap (λ x. x.0) run in
      let all : sub64 n (charge n rows table).0 ≡ n =
        ap (sub64 n) none_left
        ∙ sub64_nonneg n (pos 0) fits (omega arith) (omega arith) (omega arith)
        ∙ omega int_laws in
      let after : grants_of v (charge n rows table).1 ≡ fill n rows =
        grants_of-charge v n rows table ∙ ap (λ x. x.1) run in
      (
        all ∙ sym e,
        after ∙ ap (λ k. fill k rows) (sym all),
        subst (IsFifo rows) (sym after) (fill-IsFifo n rows (omega arith) h),
        λ w apart.
            grants_of-charge w n rows table
            ∙ charge_absent n rows (grants_of w table) (Apart-grants_of v w table apart d),
        Distinct-charge n rows table d,
      )

  -- A report of `delta` bytes of a user charges the user's grants for what they bear, which is all of
  -- it as far as they have bytes left; the user's grants become those of the reference, which fills up
  -- each grant before the next, the oldest first; the grants of other users are untouched, and keys
  -- stay distinct. The keys of the grants are distinct, the user's grants are used within their
  -- quotas, and the quotas add up to an int64.
  pub charge_grants-fill : ChargedAs v delta table (charge_grants v delta table)
  charge_grants-fill =
      let n = min_ℤ delta (sum_left rows) in
      elim (Bool-cases (ltb_ℤ (pos 0) delta)) [
        | inr e ↦
            let same : charge_grants v delta table ≡ (pos 0, table) =
              unfold charge_grants in rw e refl in
            subst (ChargedAs v delta table) (sym same) (charged_nothing (rw e refl))
        | inl t ↦
            let (low, at_most) =
              min_bounds delta (sum_left rows) (ground arith) (sum_left_nonneg rows h) in
            elim (Bool-cases (ltb_ℤ (pos 0) n)) [
              | inl e ↦
                  let run : charge_grants v delta table
                      ≡ (sub64 n (charge n rows table).0, (charge n rows table).1) =
                    unfold charge_grants in rw (t, room_from-rows, e) refl in
                  subst (ChargedAs v delta table) (sym run)
                    (charged_some n (ground arith) at_most (rw t refl))
              | inr e ↦
                  let zero : n ≡ pos 0 = ground arith in
                  let same : charge_grants v delta table ≡ (pos 0, table) =
                    unfold charge_grants in rw (t, room_from-rows, e) refl in
                  subst (ChargedAs v delta table) (sym same) (charged_nothing (rw t zero))
            ]
      ]
