-- ===== src/Admin/Supers.antt =====
-- Management is never locked out: whatever is done to the accounts, a super admin remains.
use mathlib.Core.Path.{subst}
use vgate_manager.Prelude.{
  ℕ, ◌≤◌, ◌≡◌, ◌⊎◌, refl, sym, ap, ◌∙◌, String, Bool, true, false, not, ◌&&◌, some, ◌==◌, arith,
  eqb, eqb_ℤ, Bool-cases, Option-cases, inl, inr, if◌then◌else◌,
}
use vgate_manager.Prelude.Int.{ℤ, pos, ◌+ℤ◌}
use vgate_manager.Db.Table.{first-holds, count}
use vgate_manager.Db.Counts.{count-le_of}
use vgate_manager.Db.Action.{
  ok, pure, ◌>>◌, record_not_found, invalid_role, own_account, last_super_admin,
  invalid_credentials, weak_password, hash_failed, require, ◌>>=◌, require-cases, fail_if-cases,
  create-cases,
}
use vgate_manager.Model.Admin.{Admin, Office}
use vgate_manager.Admin.{
  Crypto, Session, is_super, admin_by_id, is_taken, with_admin, update_admins, new_admin,
  create_admin_row, name_clash, saved, changed, store_changed, demotes_last, drop_admin,
  is_last_super, hashed, update_guarded, create_hashed, change_loaded, open_session, login_as,
  admin_by_name, token_clash, with_chat, set_admin_telegram, update_loaded, update_admin,
  delete_loaded, delete_admin, bootstrap_admin, role_or_admin, create_admin, store_hash,
  update_admin_password, rotate, change_checked, change_own_admin_password, issue_admin_token,
  issue_refresh_token, admin_login, valid_admin_role,
}
use vgate_manager.Admin.Managed.{
  IsManaged, update_same-IsManaged, insert-IsManaged, delete-IsManaged, save-IsManaged, Managed,
}

-- The account that a lookup finds has the key.
found_key :
    (id : ℕ) (s : Office) (a : Admin) → admin_by_id id s ≡ some a → admin_by_id a.id s ≡ some a
found_key id s a e =
    let t = first-holds (λ (b : Admin). eqb b.id id) s.admins e in
    let key : a.id ≡ id = ground arith in ap (λ i. admin_by_id i s) key ∙ e

-- What is saved where the guard lets it pass is a super admin, or the account is spared.
raised :
    (username role : String) (a : Admin) (s : Office)
    → demotes_last role a s ≡ false
    → (is_super (changed username role a) ≡ true) ⊎ (is_last_super a s ≡ false)
raised username role a s free = elim (Bool-cases (is_last_super a s)) [
  | inr n ↦ inr n
  | inl t ↦ inl (ground arith)
]

update_admin-Managed :
    (id : ℕ) (username role : String) (s : Office)
    → Managed s
    → Managed (update_admin id username role s).1
unfolding update_admin
update_admin-Managed id username role s h =
    require-cases (λ x. Managed x.1) record_not_found (admin_by_id id) (update_loaded username role)
      s
      (λ a e.
        fail_if-cases (λ x. Managed x.1) (not (role == "") && not (valid_admin_role role))
          invalid_role (update_guarded username role a) s
          (λ _.
            fail_if-cases (λ x. Managed x.1) (demotes_last role a s) last_super_admin
              (store_changed username role a) s
              (λ free.
                create-cases (λ x. Managed x.1) (name_clash (changed username role a))
                  (saved (changed username role a)) (pure (changed username role a)) s
                  (λ _.
                    save-IsManaged a (changed username role a) s (found_key id s a e) (ground arith)
                      (raised username role a s free) h)
                  (λ _. h))
              (λ _. h))
          (λ _. h))
      (λ _. h)

delete_admin-Managed :
    (id current_id : ℕ) (s : Office) → Managed s → Managed (delete_admin id current_id s).1
unfolding delete_admin
delete_admin-Managed id current_id s h =
    fail_if-cases (λ x. Managed x.1) (eqb id current_id) own_account
      (require record_not_found (admin_by_id id) >>= delete_loaded) s
      (λ _.
        require-cases (λ x. Managed x.1) record_not_found (admin_by_id id) delete_loaded s
          (λ a e.
            fail_if-cases (λ x. Managed x.1) (is_last_super a s) last_super_admin (drop_admin a) s
              (λ n. delete-IsManaged a s (found_key id s a e) n h) (λ _. h))
          (λ _. h))
      (λ _. h)

chat-Managed :
    (p : Admin → Bool) (chat : ℤ) (s : Office)
    → Managed s
    → Managed (update_admins p (with_chat chat) s)
chat-Managed p chat s h =
    update_same-IsManaged p (with_chat chat) s.admins (λ _. refl) (λ _. refl) h

set_admin_telegram-Managed :
    (id : ℕ) (chat : ℤ) (s : Office) → Managed s → Managed (set_admin_telegram id chat s).1
unfolding set_admin_telegram
set_admin_telegram-Managed id chat s h =
    let others = λ (a : Admin). eqb_ℤ a.telegram_id chat && not (eqb a.id id) in
    let freed = if eqb_ℤ chat (pos 0) then s else update_admins others (with_chat (pos 0)) s in
    let kept : Managed freed = elim (Bool-cases (eqb_ℤ chat (pos 0))) [
      | inl t ↦ rw t h
      | inr n ↦ rw n (chat-Managed others (pos 0) s h)
    ] in
    chat-Managed (λ a. eqb a.id id) chat freed kept

module _ (c : Crypto) (d : Session) where
  create_row-Managed :
      {B : Type 0} (a : Admin) (b : B) (s : Office)
      → Managed s
      → Managed ((create_admin_row a >> pure b) s).1
  create_row-Managed a b s h =
      create-cases (λ x. Managed x.1) (is_taken a) (with_admin a) (pure b) s
        (λ free. insert-IsManaged a s free h) (λ _. h)

  create_admin-Managed :
      (username password role : String) (s : Office)
      → Managed s
      → Managed (create_admin c d username password role s).1
  unfolding create_admin
  create_admin-Managed username password role s h =
      fail_if-cases (λ x. Managed x.1) (not (valid_admin_role (role_or_admin c d role)))
        invalid_role (hashed c d password >>= create_hashed c d username (role_or_admin c d role)) s
        (λ _.
          require-cases (λ x. Managed x.1) hash_failed (λ _. c.hash_password password)
            (create_hashed c d username (role_or_admin c d role)) s
            (λ hash _.
              create_row-Managed (new_admin d.admin_id username hash (role_or_admin c d role))
                (new_admin d.admin_id username hash (role_or_admin c d role)) s h)
            (λ _. h))
        (λ _. h)

  bootstrap_admin-Managed :
      (username password : String) (s : Office)
      → Managed s
      → Managed (bootstrap_admin c d username password s).1
  unfolding bootstrap_admin
  bootstrap_admin-Managed username password s h =
      let some_one : 1 ≤ count (λ _. true) s.admins =
        omega (arith, count-le_of is_super (λ _. true) s.admins (λ _ _. refl), h.managed) in
      let no : eqb (count (λ _. true) s.admins) 0 ≡ false = ground arith in
      let same : bootstrap_admin c d username password s ≡ (ok "", s) = ground arith in
      subst (λ x. Managed x.1) (sym same) h

  hash-Managed :
      (id : ℕ) (hash : String) (s : Office)
      → Managed s
      → Managed (update_admins (λ a. eqb a.id id) (λ a. record a { password_hash = hash }) s)
  hash-Managed id hash s h =
      update_same-IsManaged (λ a. eqb a.id id) (λ a. record a { password_hash = hash }) s.admins
        (λ _. refl) (λ _. refl) h

  update_admin_password-Managed :
      (id : ℕ) (password : String) (s : Office)
      → Managed s
      → Managed (update_admin_password c d id password s).1
  unfolding update_admin_password
  update_admin_password-Managed id password s h =
      require-cases (λ x. Managed x.1) hash_failed (λ _. c.hash_password password)
        (store_hash c d id) s
        (λ hash _. elim (Bool-cases (eqb (count (λ (a : Admin). eqb a.id id) s.admins) 0)) [
          | inl t ↦ rw t (hash-Managed id hash s h)
          | inr n ↦ rw n (hash-Managed id hash s h)
        ])
        (λ _. h)

  change_own_admin_password-Managed :
      (id : ℕ) (old_pwd new_pwd : String) (s : Office)
      → Managed s
      → Managed (change_own_admin_password c d id old_pwd new_pwd s).1
  unfolding change_own_admin_password
  change_own_admin_password-Managed id old_pwd new_pwd s h =
      require-cases (λ x. Managed x.1) record_not_found (admin_by_id id)
        (change_loaded c d id old_pwd new_pwd) s
        (λ a _.
          fail_if-cases (λ x. Managed x.1) (not (c.compare_hash a.password_hash old_pwd))
            invalid_credentials (change_checked c d id new_pwd) s
            (λ _.
              fail_if-cases (λ x. Managed x.1) (not (c.policy new_pwd)) weak_password
                (hashed c d new_pwd >>= rotate c d id) s
                (λ _.
                  require-cases (λ x. Managed x.1) hash_failed (λ _. c.hash_password new_pwd)
                    (rotate c d id) s (λ hash _. hash-Managed id hash s h) (λ _. h))
                (λ _. h))
            (λ _. h))
        (λ _. h)

  admins-open_session : (a : Admin) (s : Office) → (open_session c d a s).1.admins ≡ s.admins
  unfolding issue_admin_token issue_refresh_token
  admins-open_session a s = elim (Option-cases (c.sign_admin a (d.now +ℤ d.access_ttl))) [
    | inl n ↦ ground arith
    | inr (token, e) ↦ elim (Bool-cases (token_clash c d s)) [
      | inl t ↦ ground arith
      | inr n ↦ ground arith
    ]
  ]

  admin_login-Managed :
      (username password : String) (s : Office)
      → Managed s
      → Managed (admin_login c d username password s).1
  unfolding admin_login
  admin_login-Managed username password s h =
      require-cases (λ x. Managed x.1) invalid_credentials (admin_by_name c d username)
        (login_as c d password) s
        (λ a _.
          fail_if-cases (λ x. Managed x.1) (not (c.compare_hash a.password_hash password))
            invalid_credentials (open_session c d a) s
            (λ _. subst IsManaged (sym (admins-open_session a s)) h) (λ _. h))
        (λ _. h)

-- What administrators, and the start of the program, do to the accounts.
pub data Step : Office → Office → Type 0 where
  bootstrap :
      (c : Crypto) (d : Session) (username password : String) (s : Office)
      → Step s (bootstrap_admin c d username password s).1
  create :
      (c : Crypto) (d : Session) (username password role : String) (s : Office)
      → Step s (create_admin c d username password role s).1
  set_password :
      (c : Crypto) (d : Session) (id : ℕ) (password : String) (s : Office)
      → Step s (update_admin_password c d id password s).1
  change_password :
      (c : Crypto) (d : Session) (id : ℕ) (old_pwd new_pwd : String) (s : Office)
      → Step s (change_own_admin_password c d id old_pwd new_pwd s).1
  log_in :
      (c : Crypto) (d : Session) (username password : String) (s : Office)
      → Step s (admin_login c d username password s).1
  edit : (id : ℕ) (username role : String) (s : Office) → Step s (update_admin id username role s).1
  remove : (id current_id : ℕ) (s : Office) → Step s (delete_admin id current_id s).1
  link : (id : ℕ) (chat : ℤ) (s : Office) → Step s (set_admin_telegram id chat s).1

pub data Reach (s : Office) : Office → Type 0 where
  here : Reach s s
  next : {t u : Office} → Reach s t → Step t u → Reach s u

Step-Managed : {t u : Office} → Step t u → Managed t → Managed u
Step-Managed (bootstrap c d n p s) h = bootstrap_admin-Managed c d n p s h
Step-Managed (create c d n p r s) h = create_admin-Managed c d n p r s h
Step-Managed (set_password c d i p s) h = update_admin_password-Managed c d i p s h
Step-Managed (change_password c d i o n s) h = change_own_admin_password-Managed c d i o n s h
Step-Managed (log_in c d n p s) h = admin_login-Managed c d n p s h
Step-Managed (edit i n r s) h = update_admin-Managed i n r s h
Step-Managed (remove i o s) h = delete_admin-Managed i o s h
Step-Managed (link i x s) h = set_admin_telegram-Managed i x s h

-- Whatever administrators do, in any order and with failures among it, a super admin remains and ids
-- stay distinct, if both held at the start.
pub Reach-Managed : {s t : Office} → Reach s t → Managed s → Managed t
Reach-Managed here h = h
Reach-Managed (next r st) h = Step-Managed st (Reach-Managed r h)
