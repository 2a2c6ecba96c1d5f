-- ===== src/Invite/Uses.antt =====
-- The uses of an invite code: one at a time they stay within the limit, and two at once count as one.
use mathlib.Core.Path.{subst}
use vgate_manager.Prelude.{
  ◌≡◌, refl, sym, ap, ◌∙◌, String, true, false, some, arith, ◌==◌, eq_refl, eqb, Bool-cases, inl,
  inr,
}
use vgate_manager.Prelude.Int.{
  pos, ◌+ℤ◌, ◌-ℤ◌, ◌≤ℤ◌, ◌<ℤ◌, Fits, add64, sub64, add64_lem, sub64_nonneg, int_laws,
}
use vgate_manager.Db.Table.{any, update, count, first-update}
use vgate_manager.Db.Rows.{any-first}
use vgate_manager.Db.Counts.{count-positive}
use vgate_manager.Db.Action.{
  Result, ok, err, bind-cases, require-cases, fail_if-cases, require, pure, ◌>>=◌, ◌>>◌, fail_if,
  invalid_invite, invite_required, invite_exhausted,
}
use vgate_manager.Model.Time.{Time}
use vgate_manager.Model.Code.{InviteCode, exhausted_invite, remaining_invites}
use vgate_manager.Model.Database.{Database, Db}
use vgate_manager.Redemption.Once.{next-Fits}
use vgate_manager.Invite.{invite_by_text, with_uses, validate, consume_invite, validate_and_consume}

-- What an update that found its row has written.
consume_invite-writes :
    (c : InviteCode) (db : Database) {db' : Database} {d : InviteCode}
    → consume_invite c db ≡ (ok d, db')
    → (db'.invite_codes
        ≡ update
            (λ (e : InviteCode). e.id == c.id)
            (with_uses (add64 c.used_count (pos 1)))
            db.invite_codes)
      × (d ≡ with_uses (add64 c.used_count (pos 1)) c)
unfolding consume_invite
consume_invite-writes c db {db'} {d} h =
    elim (Bool-cases (eqb (count (λ (e : InviteCode). e.id == c.id) db.invite_codes) 0)) [
      | inl t ↦ absurd (ground arith)
      | inr u ↦ let g = rw u at h in (sym (ap (λ x. x.1.invite_codes) g), ground arith)
    ]

-- An update writes the count that was read plus one, whatever the row has now.
pub used_count-consume_invite :
    (raw_code : String) (c e : InviteCode) (db : Database) {db' : Database} {d : InviteCode}
    → invite_by_text raw_code db ≡ some e
    → e.id ≡ c.id
    → consume_invite c db ≡ (ok d, db')
    → invite_by_text raw_code db' ≡ some (with_uses (add64 c.used_count (pos 1)) e)
used_count-consume_invite raw_code c e db k same h =
    rw
      (
        (consume_invite-writes c db h).0,
        first-update (λ (d : InviteCode). d.code == raw_code) (λ (d : InviteCode). d.id == c.id)
            (with_uses (add64 c.used_count (pos 1))) db.invite_codes (λ _ _. refl),
        k,
      )
      (rw (same, eq_refl c.id) refl)

-- The row with the key of a code that was read is still there: its update succeeds.
pub consume_invite-succeeds :
    (raw_code : String) (c e : InviteCode) (db : Database)
    → invite_by_text raw_code db ≡ some e
    → e.id ≡ c.id
    → consume_invite c db ≡ (ok (with_uses (add64 c.used_count (pos 1)) c), (consume_invite c db).1)
unfolding consume_invite
consume_invite-succeeds raw_code c e db k same =
    let there : any (λ (d : InviteCode). d.id == c.id) db.invite_codes ≡ true =
      any-first (λ (d : InviteCode). d.code == raw_code) (λ d. d.id == c.id) db.invite_codes e k
        (rw same (eq_refl c.id)) in
    elim (Bool-cases (eqb (count (λ (d : InviteCode). d.id == c.id) db.invite_codes) 0)) [
      | inl t ↦
          let some_row = count-positive (λ (d : InviteCode). d.id == c.id) db.invite_codes there in
          absurd (ground arith)
      | inr n ↦ ground arith
    ]

-- Two registrations that have both read the row of a code, and then update it one after the other,
-- both succeed, and both return the count that was read plus one, which is also the count of the row
-- after the two.
pub consume_invite_race :
    (raw_code : String) (c : InviteCode) (db : Database)
    → invite_by_text raw_code db ≡ some c
    → let once = record c { used_count = add64 c.used_count (pos 1) } in
      ((consume_invite c db).0 ≡ ok once)
      × ((consume_invite c (consume_invite c db).1).0 ≡ ok once)
      × (invite_by_text raw_code (consume_invite c (consume_invite c db).1).1 ≡ some once)
consume_invite_race raw_code c db e =
    let once = with_uses (add64 c.used_count (pos 1)) c in
    let db1 = (consume_invite c db).1 in
    let first_use = consume_invite-succeeds raw_code c c db e refl in
    let found = used_count-consume_invite raw_code c c db e refl first_use in
    let next_use = consume_invite-succeeds raw_code c once db1 found refl in
    (
      ap (λ x. x.0) first_use,
      ap (λ x. x.0) next_use,
      used_count-consume_invite raw_code c once db1 found refl next_use,
    )

-- A code that is not exhausted has a use left, and its count can be raised.
use_left :
    (c : InviteCode) (now : Time)
    → pos 0 ≤ℤ c.used_count
    → pos 0 ≤ℤ c.max_uses
    → Fits c.used_count
    → Fits c.max_uses
    → exhausted_invite c now ≡ false
    → (c.used_count +ℤ pos 1 ≤ℤ c.max_uses) × (add64 c.used_count (pos 1) ≡ c.used_count +ℤ pos 1)
unfolding exhausted_invite remaining_invites
use_left c now nu nm fu fm usable =
    let left : sub64 c.max_uses c.used_count ≡ c.max_uses -ℤ c.used_count =
      sub64_nonneg c.max_uses c.used_count fm fu nm nu in
    let less : pos 0 <ℤ sub64 c.max_uses c.used_count = ground arith in
    let less' = rw left at less in
    let room : c.used_count +ℤ pos 1 ≤ℤ c.max_uses = omega int_laws in
    (room, add64_lem c.used_count (pos 1) (next-Fits c.used_count c.max_uses nu room fm))

abbrev Validated : Time → String → Database → Result InviteCode × Database → Type 0
Validated now raw_code db (ok c, t) =
    (invite_by_text raw_code db ≡ some c) × (exhausted_invite c now ≡ false) × (t ≡ db)
Validated now raw_code db (err _, t) = Unit

validate-Validated :
    (now : Time) (raw_code : String) (db : Database)
    → Validated now raw_code db (validate now raw_code db)
unfolding validate
validate-Validated now raw_code db =
    fail_if-cases (Validated now raw_code db) (raw_code == "") invite_required
      (require invalid_invite (invite_by_text raw_code) >>= usable) db
      (λ _.
        require-cases (Validated now raw_code db) invalid_invite (invite_by_text raw_code) usable db
          (λ c e.
            fail_if-cases (Validated now raw_code db) (exhausted_invite c now) invite_exhausted
              (pure c) db (λ u. (e, u, refl)) (λ _. tt))
          (λ _. tt))
      (λ _. tt)
  where
    usable : InviteCode → Db InviteCode
    usable c = fail_if (exhausted_invite c now) invite_exhausted >> pure c

-- What a use of a code has done: its row had a use left, and its count is raised by one.
pub record Used (raw_code : String) (db : Database) (c : InviteCode) (db' : Database) : Type 0 where
  pub before : InviteCode
  pub found : invite_by_text raw_code db ≡ some before
  pub raised : c ≡ record before { used_count = before.used_count +ℤ pos 1 }
  pub stored : invite_by_text raw_code db' ≡ some c
  pub within : c.used_count ≤ℤ c.max_uses

-- A registration's use of a code that succeeds finds it with a use left, and raises its count by one,
-- to at most the limit, if the count and the limit are int64 values that are not negative.
pub validate_and_consume-Used :
    (now : Time) (raw_code : String) (db : Database) {db' : Database} {d : InviteCode}
    → ((c : InviteCode)
        → invite_by_text raw_code db ≡ some c
        → (pos 0 ≤ℤ c.used_count) × (pos 0 ≤ℤ c.max_uses) × Fits c.used_count × Fits c.max_uses)
    → validate_and_consume now raw_code db ≡ (ok d, db')
    → Used raw_code db d db'
unfolding validate_and_consume
validate_and_consume-Used now raw_code db {db'} {d} valid h = subst P h (
    bind-cases P (validate now raw_code) consume_invite db
      (λ c t e.
        let q : Validated now raw_code db (ok c, t) =
          subst (Validated now raw_code db) e (validate-Validated now raw_code db) in
        rw q.2 (of_update c q.0 q.1))
      (λ _ _ _. tt))
  where
    P : Result InviteCode × Database → Type 0
    P (ok c, t) = Used raw_code db c t
    P (err _, _) = Unit

    of_update :
        (c : InviteCode)
        → invite_by_text raw_code db ≡ some c
        → exhausted_invite c now ≡ false
        → P (consume_invite c db)
    of_update c e u = go (consume_invite c db) refl
      where
        go : (x : Result InviteCode × Database) → consume_invite c db ≡ x → P x
        go (err _, _) k = tt
        go (ok r, t) k =
            let (nu, nm, fu, fm) = valid c e in
            let (room, exact) = use_left c now nu nm fu fm u in
            let raised : r ≡ record c { used_count = c.used_count +ℤ pos 1 } =
              (consume_invite-writes c db k).1 ∙ ap (λ n. record c { used_count = n }) exact in
            let kept = used_count-consume_invite raw_code c c db e refl k in
            record {
              before = c;
              found = e;
              raised = raised;
              stored = kept ∙ ap some (sym (consume_invite-writes c db k).1);
              within = rw raised room;
            }
