-- ===== src/Admin/Managed.antt =====
-- The accounts as a table: no two have the same id, and one is a super admin.
use vgate_manager.Prelude.{
  ℕ, ◌+◌, ◌≤◌, ◌≡◌, ◌⊎◌, ap, Bool, true, false, ◌&&◌, ◌||◌, some, List, ◌==◌, arith, eqb,
  Bool-cases, inl, inr,
}
use vgate_manager.Db.Table.{
  count, insert, update, delete, count-insert, count-update_same, count-delete-le,
}
use vgate_manager.Db.Counts.{
  count-update_loss, count-delete_loss, count-update_gain, count-and-le, count-and_first, count-any,
  count-le_of,
}
use vgate_manager.Model.Admin.{Admin, Office}
use vgate_manager.Admin.{is_super, admin_by_id, is_taken, is_last_super}

-- No two accounts have the same id, and one is a super admin.
pub record IsManaged (l : List Admin) : Type 0 where
  pub keyed : (i : ℕ) → count (λ (a : Admin). eqb a.id i) l ≤ 1
  pub managed : 1 ≤ count is_super l

pub update_same-IsManaged :
    (p : Admin → Bool) (g : Admin → Admin) (l : List Admin)
    → ((a : Admin) → (g a).id ≡ a.id)
    → ((a : Admin) → (g a).role ≡ a.role)
    → IsManaged l
    → IsManaged (update p g l)
update_same-IsManaged p g l same_id same_role h = record {
  keyed = λ i.
      rw
        (count-update_same (λ (a : Admin). eqb a.id i) p g l (λ a _. ap (λ x. eqb x i) (same_id a)))
        (h.keyed i);
  managed =
      rw (count-update_same is_super p g l (λ a _. ap (λ x. x == "super_admin") (same_role a)))
        h.managed;
}

pub insert-IsManaged :
    (a : Admin) (s : Office)
    → is_taken a s ≡ false
    → IsManaged s.admins
    → IsManaged (insert a s.admins)
insert-IsManaged a s free h = record {
  keyed = λ i. elim (Bool-cases (eqb a.id i)) [
    | inl t ↦
        let e : a.id ≡ i = ground arith in
        let none_yet : count (λ (b : Admin). eqb b.id i) s.admins ≤ 0 = omega (
          arith,
          count-le_of (λ (b : Admin). eqb b.id i)
              (λ (b : Admin). eqb b.id a.id || b.username == a.username) s.admins
              (λ b q. ground arith),
          count-any (λ (b : Admin). eqb b.id a.id || b.username == a.username) s.admins free,
        ) in
        ground (arith, count-insert (λ (b : Admin). eqb b.id i) a s.admins)
    | inr n ↦ ground (arith, count-insert (λ (b : Admin). eqb b.id i) a s.admins, h.keyed i)
  ];
  managed = omega (arith, count-insert is_super a s.admins, h.managed);
}

-- The guard leaves a super admin beside the account.
pub spared :
    (a : Admin) (s : Office)
    → admin_by_id a.id s ≡ some a
    → is_last_super a s ≡ false
    → IsManaged s.admins
    → count (λ (b : Admin). eqb b.id a.id && is_super b) s.admins + 1 ≤ count is_super s.admins
spared a s found free h =
    let mine = λ (b : Admin). eqb b.id a.id in
    elim (Bool-cases (is_super a)) [
      | inl t ↦
          let two : 2 ≤ count is_super s.admins = ground arith in
          omega (arith, count-and-le mine is_super s.admins, h.keyed a.id, two)
      | inr n ↦
          omega (arith, count-and_first mine is_super s.admins a found (h.keyed a.id) n, h.managed)
    ]

-- A deletion that the guard lets pass.
pub delete-IsManaged :
    (a : Admin) (s : Office)
    → admin_by_id a.id s ≡ some a
    → is_last_super a s ≡ false
    → IsManaged s.admins
    → IsManaged (delete (λ (b : Admin). eqb b.id a.id) s.admins)
delete-IsManaged a s found free h =
    let mine = λ (b : Admin). eqb b.id a.id in
    record {
      keyed =
          λ i. omega (arith, count-delete-le (λ (b : Admin). eqb b.id i) mine s.admins, h.keyed i);
      managed = omega (arith, count-delete_loss is_super mine s.admins, spared a s found free h);
    }

pub save-IsManaged :
    (a b : Admin) (s : Office)
    → admin_by_id a.id s ≡ some a
    → b.id ≡ a.id
    → ((is_super b ≡ true) ⊎ (is_last_super a s ≡ false))
    → IsManaged s.admins
    → IsManaged (update (λ (x : Admin). eqb x.id b.id) (λ _. b) s.admins)
save-IsManaged a b s found same free h =
    let mine = λ (x : Admin). eqb x.id b.id in
    record {
      keyed = λ i.
          rw
            (count-update_same (λ (x : Admin). eqb x.id i) mine (λ _. b) s.admins
              (λ x t. ground arith))
            (h.keyed i);
      managed = elim free [
        | inl t ↦
            omega (arith, count-update_gain is_super mine (λ _. b) s.admins (λ _ _. t), h.managed)
        | inr g ↦
            let loss : count (λ (x : Admin). mine x && is_super x) s.admins + 1
                ≤ count is_super s.admins =
              rw same (spared a s found g h) in
            omega (arith, count-update_loss is_super mine (λ _. b) s.admins, loss)
      ];
    }

abbrev pub Managed : Office → Type 0
Managed s = IsManaged s.admins
