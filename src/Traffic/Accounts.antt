-- ===== src/Traffic/Accounts.antt =====
-- What users are recorded to have used of their grants is what the grants record, through reports.
use mathlib.Core.Path.{subst}
use vgate_manager.Prelude.{
  ◌≡◌, refl, sym, ap, ◌∙◌, String, true, false, ◌&&◌, some, List, [], ◌∷◌, ◌==◌, arith, eq_iff,
  eqb_ℤ, Bool-cases, Option-cases, inl, inr, if◌then◌else◌,
}
use vgate_manager.Prelude.Int.{ℤ, pos, ◌+ℤ◌, ◌≤ℤ◌, Fits, add64}
use vgate_manager.Prelude.Float.{Float64}
use vgate_manager.Db.Table.{update, first-holds, first-update}
use vgate_manager.Model.Time.{Time}
use vgate_manager.Model.User.{User}
use vgate_manager.Db.Rows.{All}
use vgate_manager.Model.Grant.{TrafficGrant}
use vgate_manager.Model.Database.{user_by_id}
use vgate_manager.Model.Fleet.{Fleet}
use vgate_manager.Traffic.{
  UserTraffic, Batch, resolve_traffic_node, multiplier_of, reported_user, report_user, bill_user,
  with_traffic, scaled, report_one, report_all, report_traffic,
}
use vgate_manager.Traffic.Grants.{grants_of, charge_grants}
use vgate_manager.Traffic.Grants.Rows.{Distinct}
use vgate_manager.Traffic.Grants.Charge.{
  IsWithin, sum_used, sum_quota, sum_left, sum_left_nonneg, sum_used-fill, sum_quota-fill,
  fill-IsWithin,
}
use vgate_manager.Traffic.Grants.Total.{borne_bounds, charge_grants-fill}

-- The user's grants are used within their quotas, and the quotas add up to an int64.
abbrev pub IsStocked : List TrafficGrant → Type 0
IsStocked l = All IsWithin l × Fits (sum_quota l)

-- The keys of the grants are distinct, each user's grants are stocked, and a user's
-- `package_used_bytes` is what the user's grants are used.
pub record IsAccounted (users : List User) (grants : List TrafficGrant) : Type 0 where
  pub distinct : Distinct grants
  pub stocked : (v : String) → IsStocked (grants_of v grants)
  pub accounted :
      (v : String) (u : User)
      → user_by_id v users ≡ some u
      → u.package_used_bytes ≡ sum_used (grants_of v grants)

module _ (f : Float64) (trim lower : String → String) where
  module _ (now : Time) (v : String) (up down : ℤ) (users : List User) (grants : List TrafficGrant)
      (h : IsAccounted users grants) where
    abbrev rows : List TrafficGrant
    rows = grants_of v grants

    abbrev outcome : ℤ × List TrafficGrant
    outcome = charge_grants v (add64 up down) grants

    abbrev billed : List User
    billed = update (λ u. u.id == v) (with_traffic f trim lower now up down outcome.0) users

    charge_fits : (pos 0 ≤ℤ outcome.0) × (outcome.0 ≤ℤ sum_left rows)
    charge_fits =
        let (within, fits) = h.stocked v in
        let (e, _, _, _, _) = charge_grants-fill v (add64 up down) grants h.distinct within fits in
        rw e (borne_bounds (add64 up down) (sum_left rows) (sum_left_nonneg rows within))

    -- The grants of any user afterwards.
    bill-IsStocked : (w : String) → IsStocked (grants_of w outcome.1)
    bill-IsStocked w =
        let (within, fits) = h.stocked v in
        let (_, own, _, others, _) =
          charge_grants-fill v (add64 up down) grants h.distinct within fits in
        elim (Bool-cases (v == w)) [
          | inl t ↦
              subst (λ x. IsStocked (grants_of x outcome.1)) ((eq_iff v w).0 t)
                (subst IsStocked (sym own) (
                  fill-IsWithin outcome.0 rows charge_fits.0 within,
                  rw (sum_quota-fill outcome.0 rows) fits,
                ))
          | inr n ↦ subst IsStocked (sym (others w n)) (h.stocked w)
        ]

    sum_used-own : sum_used (grants_of v outcome.1) ≡ sum_used rows +ℤ outcome.0
    sum_used-own =
        let (within, fits) = h.stocked v in
        let (_, own, _, _, _) =
          charge_grants-fill v (add64 up down) grants h.distinct within fits in
        ap sum_used own ∙ sum_used-fill outcome.0 rows charge_fits.0 charge_fits.1 within

    found_before :
        (w : String) (u : User)
        → user_by_id w billed ≡ some u
        → (o : User) × (user_by_id w users ≡ some o)
          × (u ≡ (if o.id == v then with_traffic f trim lower now up down outcome.0 o else o))
    found_before w u e =
        let g = with_traffic f trim lower now up down outcome.0 in
        let law = first-update (λ (o : User). o.id == w) (λ o. o.id == v) g users (λ _ _. refl) in
        elim (Option-cases (user_by_id w users)) [
          | inl n ↦ ground (arith, law)
          | inr (o, s) ↦ (o, s, ground (arith, law))
        ]

    bill-accounted :
        (w : String) (u : User)
        → user_by_id w billed ≡ some u
        → u.package_used_bytes ≡ sum_used (grants_of w outcome.1)
    bill-accounted w u e =
        let (within, fits) = h.stocked v in
        let (_, _, _, others, _) =
          charge_grants-fill v (add64 up down) grants h.distinct within fits in
        let (o, s, e') = found_before w u e in
        let key = (eq_iff o.id w).0 (first-holds (λ (x : User). x.id == w) users s) in
        elim (Bool-cases (v == w)) [
          | inl t ↦
              let vw = (eq_iff v w).0 t in
              let ov : (o.id == v) ≡ true = (eq_iff o.id v).1 (key ∙ sym vw) in
              ap (λ x. x.package_used_bytes) e'
              ∙ rw ov (
                  ap (λ x. x +ℤ outcome.0)
                    (h.accounted w o s ∙ ap (λ x. sum_used (grants_of x grants)) (sym vw)))
              ∙ sym sum_used-own
              ∙ ap (λ x. sum_used (grants_of x outcome.1)) vw
          | inr n ↦
              let ov : (o.id == v) ≡ false = ground (arith, eq_iff o.id v, eq_iff v w) in
              ap (λ x. x.package_used_bytes) e'
              ∙ rw ov (h.accounted w o s)
              ∙ ap sum_used (sym (others w n))
        ]

    bill-IsAccounted : IsAccounted billed outcome.1
    bill-IsAccounted = record {
      distinct =
          (charge_grants-fill v (add64 up down) grants h.distinct (h.stocked v).0
            (h.stocked v).1).4;
      stocked = bill-IsStocked;
      accounted = bill-accounted;
    }

  abbrev pub Accounted : Fleet f → Type 0
  Accounted fl = IsAccounted fl.users fl.grants

  report_one-Accounted :
      (now : Time) (node_id : String) (d : UserTraffic) (fl : Fleet f) (b : Batch f trim lower)
      → Accounted fl
      → Accounted (report_one f trim lower now node_id d (fl, b)).0
  report_one-Accounted now node_id d fl b h =
      elim (Bool-cases (eqb_ℤ d.up (pos 0) && eqb_ℤ d.down (pos 0))) [
        | inl t ↦
            let e : report_one f trim lower now node_id d (fl, b) ≡ (fl, b) =
              unfold report_one in ground arith in
            subst (λ x. Accounted x.0) (sym e) h
        | inr n ↦
            let target = resolve_traffic_node f trim lower fl.nodes node_id d.node_id in
            let found = multiplier_of f trim lower fl.nodes target b.mults in
            let known : Batch f trim lower = record b { mults = found.1 } in
            elim (Option-cases (reported_user f trim lower d fl.users)) [
              | inl m ↦
                  let e : report_one f trim lower now node_id d (fl, b) ≡ (fl, known) =
                    unfold report_one in ground arith in
                  subst (λ x. Accounted x.0) (sym e) h
              | inr (u, s) ↦
                  let e : report_one f trim lower now node_id d (fl, b)
                      ≡ report_user f trim lower now target found.0 d u (fl, known) =
                    unfold report_one in ground arith in
                  subst (λ x. Accounted x.0) (sym e)
                    (unfold bill_user in
                      bill-IsAccounted now u.id (scaled f trim lower d.up found.0)
                        (scaled f trim lower d.down found.0) fl.users fl.grants h)
            ]
      ]

  report_all-Accounted :
      (now : Time) (node_id : String) (ds : List UserTraffic) (fl : Fleet f)
      (b : Batch f trim lower)
      → Accounted fl
      → Accounted (report_all f trim lower now node_id ds (fl, b)).0
  unfolding report_all
  report_all-Accounted now node_id [] fl b h = h
  report_all-Accounted now node_id (d ∷ ds) fl b h =
      report_all-Accounted now node_id ds (report_one f trim lower now node_id d (fl, b)).0
        (report_one f trim lower now node_id d (fl, b)).1
        (report_one-Accounted now node_id d fl b h)

  -- A report of a node, whatever entries it has, leaves the users' `package_used_bytes` equal to what
  -- their grants are used, the grants within their quotas, and the keys of the grants distinct, if
  -- all this held before.
  pub report_traffic-Accounted :
      (now : Time) (node_id : String) (deltas : List UserTraffic) (fl : Fleet f)
      → Accounted fl
      → Accounted (report_traffic f trim lower now node_id deltas fl)
  unfolding report_traffic
  report_traffic-Accounted now node_id deltas fl h =
      report_all-Accounted now node_id deltas fl (record { mults = []; stats = [] }) h
