-- ===== src/Quota.antt =====
-- `ResetDueQuotas` of internal/service/user.go: the monthly reset of what users have used.
use vgate_manager.Prelude.{
  ℕ, ◌≡◌, refl, ◌∙◌, String, Bool, ◌&&◌, some, ◌==◌, arith, ltb_ℤ, Bool-cases, inl, inr,
  if◌then◌else◌,
}
use vgate_manager.Prelude.Int.{
  ℤ, pos, ◌+ℤ◌, ◌≤ℤ◌, ◌<ℤ◌, Fits, add64, sub64, add64_lem, sub64_nonneg, int_laws,
}
use vgate_manager.Prelude.Float.{Float64, IsIeee}
use vgate_manager.Db.Table.{update, count, first-update}
use vgate_manager.Db.Action.{pure, gets, modify, ◌>>=◌, ◌>>◌}
use vgate_manager.Model.User.{User, base_used_bytes}
use vgate_manager.Model.Database.{Database, Db, user_by_id}
use vgate_manager.Order.Proration.{package_preserving_reset}
use vgate_manager.Order.Proration.Bounds.{package_preserving_reset_lem}

-- `quota_reset_enabled = true AND quota_bytes > 0`
abbrev pub is_due : User → Bool
is_due u = u.quota_reset_enabled && ltb_ℤ (pos 0) u.quota_bytes

module _ (f : Float64) where
  -- The columns that the reset writes.
  abbrev pub with_reset : User → User
  with_reset u =
      let (new_up, new_down) =
        package_preserving_reset f u.up_total u.down_total u.package_used_bytes in
      record u { up_total = new_up; down_total = new_down }

  -- The result is the number of users that were reset. The loop updates each row that was found, by
  -- its key; the keys are unique.
  unfoldable pub reset_due_quotas : Db ℕ
  reset_due_quotas = do
    n ← gets (λ db. count is_due db.users)
    modify λ db. record db { users = update is_due with_reset db.users }
    pure n

  -- The row of a user after the reset.
  found_reset :
      (v : String) (db : Database) (u : User)
      → user_by_id v db.users ≡ some u
      → user_by_id v (reset_due_quotas db).1.users ≡ some (if is_due u then with_reset u else u)
  unfolding reset_due_quotas
  found_reset v db u h =
      rw (first-update (λ u. u.id == v) is_due with_reset db.users (λ _ _. refl), h) refl

  -- What is left of the counters is what packages were charged.
  base_used_bytes-reset :
      (u : User) (up down : ℤ)
      → pos 0 ≤ℤ u.package_used_bytes
      → u.package_used_bytes ≤ℤ pos 1125899906842624
      → up +ℤ down ≡ u.package_used_bytes
      → base_used_bytes (record u { up_total = up; down_total = down }) ≡ pos 0
  unfolding base_used_bytes
  base_used_bytes-reset u up down np small sum =
      let pkg = u.package_used_bytes in
      let fits : Fits pkg = (ground arith, ground arith) in
      let total : add64 up down ≡ pkg = add64_lem up down (rw sum fits) ∙ sum in
      let zero : sub64 pkg pkg ≡ pos 0 = sub64_nonneg pkg pkg fits fits np np ∙ omega int_laws in
      rw (total, zero) refl

  -- What a reset leaves of a user: two counters that are not negative and add up to exactly the bytes
  -- that packages were charged, so that nothing of the base quota is used, and all else as it was.
  pub record IsReset (u w : User) : Type 0 where
    pub up : pos 0 ≤ℤ w.up_total
    pub down : pos 0 ≤ℤ w.down_total
    pub package_bytes : w.up_total +ℤ w.down_total ≡ u.package_used_bytes
    pub base_bytes : base_used_bytes w ≡ pos 0
    pub else_same : w ≡ record u { up_total = w.up_total; down_total = w.down_total }

  -- After the reset the two counters of a due user add up to exactly the bytes that packages were
  -- charged, so that nothing of the base quota is used, and nothing else of the user changes, if the
  -- counters are not negative and do not overflow, not both zero, and the package bytes are not
  -- negative and at most 2^50; a user that is not due is untouched.
  pub reset_due_quotas_lem :
      IsIeee f
      → (v : String) (db : Database) (u : User) → user_by_id v db.users ≡ some u
      → pos 0 ≤ℤ u.up_total
      → pos 0 ≤ℤ u.down_total
      → Fits (u.up_total +ℤ u.down_total)
      → pos 0 <ℤ u.up_total +ℤ u.down_total
      → pos 0 ≤ℤ u.package_used_bytes
      → u.package_used_bytes ≤ℤ pos 1125899906842624
      → (w : User) × (user_by_id v (reset_due_quotas db).1.users ≡ some w)
        × (if is_due u then IsReset u w else w ≡ u)
  reset_due_quotas_lem laws v db u h nu nd ft pt np small = elim (Bool-cases (is_due u)) [
    | inl t ↦
        let (up, down, sum) =
          package_preserving_reset_lem f laws u.up_total u.down_total u.package_used_bytes nu nd ft
            pt np small in
        (
          with_reset u,
          rw t at (found_reset v db u h),
          rw t (record {
            up = up;
            down = down;
            package_bytes = sum;
            base_bytes = base_used_bytes-reset u _ _ np small sum;
            else_same = refl;
          }),
        )
    | inr n ↦ (u, rw n at (found_reset v db u h), rw n refl)
  ]
