-- ===== src/Admin.antt =====
-- The administrators' part of `AuthService` of internal/service/auth.go. Password hashes and signed
-- tokens are made by libraries, which the interface `Crypto` stands for.
pub mod Managed
pub mod Supers
pub mod Sessions
pub mod Chats
use vgate_manager.Prelude.{
  ℕ, String, Bool, true, false, not, ◌&&◌, ◌||◌, Option, none, some, ◌==◌, eqb, leb, eqb_ℤ,
  if◌then◌else◌,
}
use vgate_manager.Prelude.Int.{ℤ, pos, ◌+ℤ◌}
use vgate_manager.Db.Table.{first, count, any, insert, update, delete}
use vgate_manager.Db.Action.{
  Result, ok, err, Action, record_not_found, duplicated_key, invalid_role, last_super_admin,
  own_account, invalid_credentials, weak_password, invalid_refresh_token, refresh_token_expired,
  hash_failed, sign_failed, pure, fail, gets, require, create, ◌>>=◌, ◌>>◌, fail_if, modify,
}
use vgate_manager.Model.Time.{Time, after}
use vgate_manager.Model.Admin.{Admin, RefreshToken, Office, Of}

-- bcrypt, the signing of an access token that expires at an instant, and the password policy that is
-- configured. bcrypt refuses some passwords, and signing may fail.
pub record Crypto : Type 0 where
  pub hash_password : String → Option String
  pub compare_hash : String → String → Bool
  pub sign_admin : Admin → Time → Option String
  pub policy : String → Bool

-- What a call brings: its clock, the ids and tokens that it draws, and the lives of tokens.
pub record Session : Type 0 where
  pub now : Time
  pub admin_id : ℕ
  pub random : String
  pub refresh_id : String
  pub access_ttl : ℤ
  pub refresh_ttl : ℤ

abbrev pub is_super : Admin → Bool
is_super a = a.role == "super_admin"

abbrev pub admin_by_id : ℕ → Office → Option Admin
admin_by_id id s = first (λ (a : Admin). eqb a.id id) s.admins

-- `validAdminRole`
unfoldable pub valid_admin_role : String → Bool
valid_admin_role role = role == "super_admin" || role == "admin"

-- The id or the name of a new account is taken.
abbrev pub is_taken : Admin → Office → Bool
is_taken a s = any (λ (b : Admin). eqb b.id a.id || b.username == a.username) s.admins

abbrev pub with_admin : Admin → Office → Office
with_admin a s = record s { admins = insert a s.admins }

-- `UPDATE admins SET ... WHERE id = ?`
abbrev pub update_admins : (Admin → Bool) → (Admin → Admin) → Office → Office
update_admins p f s = record s { admins = update p f s.admins }

abbrev pub new_admin : ℕ → String → String → String → Admin
new_admin id username hash role = record {
  id = id;
  username = username;
  password_hash = hash;
  role = role;
  telegram_id = pos 0;
  telegram_bind_token = "";
  telegram_bind_expires_at = none;
}

abbrev pub create_admin_row : Admin → Of Unit
create_admin_row a = create (is_taken a) (with_admin a)

-- `Save`: the name may be another account's.
abbrev pub name_clash : Admin → Office → Bool
name_clash a s = any (λ (b : Admin). not (eqb b.id a.id) && b.username == a.username) s.admins

abbrev pub saved : Admin → Office → Office
saved a = update_admins (λ b. eqb b.id a.id) (λ _. a)

abbrev pub save_admin : Admin → Of Unit
save_admin a = create (name_clash a) (saved a)

-- `role = 'super_admin'`, counted
abbrev pub super_count : Office → ℕ
super_count s = count is_super s.admins

-- A clash of a demotion or a deletion with the last super admin.
abbrev pub is_last_super : Admin → Office → Bool
is_last_super a s = is_super a && leb (super_count s) 1

-- `UPDATE refresh_tokens SET revoked = true WHERE admin_id = ?`
abbrev pub revoke : RefreshToken → RefreshToken
revoke t = record t { revoked = true }

abbrev pub revoke_all : ℕ → Office → Office
revoke_all id s = record s {
  refresh_tokens = update (λ (t : RefreshToken). eqb t.admin_id id) revoke s.refresh_tokens;
}

-- The chat of an account, with the bind token cleared.
abbrev pub with_chat : ℤ → Admin → Admin
with_chat chat a = record a {
  telegram_id = chat;
  telegram_bind_token = "";
  telegram_bind_expires_at = none;
}

unfoldable pub get_admin : ℕ → Of Admin
get_admin id = require record_not_found (admin_by_id id)

unfoldable pub get_admin_by_telegram_id : ℤ → Of Admin
get_admin_by_telegram_id chat = do
  fail_if (eqb_ℤ chat (pos 0)) record_not_found
  require record_not_found (λ s. first (λ (a : Admin). eqb_ℤ a.telegram_id chat) s.admins)

unfoldable pub set_admin_telegram : ℕ → ℤ → Of Unit
set_admin_telegram admin_id chat = do
  modify λ s.
      if eqb_ℤ chat (pos 0)
      then s
      else update_admins (λ a. eqb_ℤ a.telegram_id chat && not (eqb a.id admin_id))
          (with_chat (pos 0)) s
  modify (update_admins (λ a. eqb a.id admin_id) (with_chat chat))

-- The role of an account that is updated; an empty text leaves it.
abbrev pub with_role : String → Admin → Admin
with_role role a = if role == "" then a else record a { role = role }

abbrev pub with_username : String → Admin → Admin
with_username username a = if username == "" then a else record a { username = username }

-- What `UpdateAdmin` saves of the account that it loaded.
abbrev pub changed : String → String → Admin → Admin
changed username role a = with_username username (with_role role a)

abbrev pub store_changed : String → String → Admin → Of Admin
store_changed username role a = do
  save_admin (changed username role a)
  pure (changed username role a)

-- The role is changed to a lower one, of the last super admin.
abbrev pub demotes_last : String → Admin → Office → Bool
demotes_last role a s = not (role == "") && not (role == "super_admin") && is_last_super a s

abbrev pub update_guarded : String → String → Admin → Of Admin
update_guarded username role a = do
  last ← gets (demotes_last role a)
  fail_if last last_super_admin
  store_changed username role a

abbrev pub update_loaded : String → String → Admin → Of Admin
update_loaded username role a = do
  fail_if (not (role == "") && not (valid_admin_role role)) invalid_role
  update_guarded username role a

unfoldable pub update_admin : ℕ → String → String → Of Admin
update_admin id username role =
    require record_not_found (admin_by_id id) >>= update_loaded username role

abbrev pub drop_admin : Admin → Of Unit
drop_admin a = modify λ s. record s { admins = delete (λ (b : Admin). eqb b.id a.id) s.admins }

abbrev pub delete_loaded : Admin → Of Unit
delete_loaded a = do last ← gets (is_last_super a); fail_if last last_super_admin; drop_admin a

unfoldable pub delete_admin : ℕ → ℕ → Of Unit
delete_admin id current_id = do
  fail_if (eqb id current_id) own_account
  require record_not_found (admin_by_id id) >>= delete_loaded

module _ (c : Crypto) (d : Session) where
  abbrev pub hashed : String → Of String
  hashed password = require hash_failed (λ _. c.hash_password password)

  -- `BootstrapAdmin`, where there is no account yet.
  abbrev pub create_first : String → String → Of String
  create_first username password = do
    hash ← hashed password
    create_admin_row (new_admin d.admin_id username hash "super_admin")
    pure password

  unfoldable pub bootstrap_admin : String → String → Of String
  bootstrap_admin username password s = elim (eqb (count (λ _. true) s.admins) 0) [
    | false ↦ (ok "", s)
    | true ↦ create_first username (if password == "" then d.random else password) s
  ]

  abbrev pub role_or_admin : String → String
  role_or_admin role = if role == "" then "admin" else role

  abbrev pub create_hashed : String → String → String → Of Admin
  create_hashed username role hash = do
    create_admin_row (new_admin d.admin_id username hash role)
    pure (new_admin d.admin_id username hash role)

  unfoldable pub create_admin : String → String → String → Of Admin
  create_admin username password role = do
    fail_if (not (valid_admin_role (role_or_admin role))) invalid_role
    hashed password >>= create_hashed username (role_or_admin role)

  -- An update that finds no row is an error.
  abbrev pub store_hash : ℕ → String → Of Unit
  store_hash id hash = do
    affected ← gets (λ s. count (λ (a : Admin). eqb a.id id) s.admins)
    modify (update_admins (λ a. eqb a.id id) (λ a. record a { password_hash = hash }))
    fail_if (eqb affected 0) record_not_found

  unfoldable pub update_admin_password : ℕ → String → Of Unit
  update_admin_password id password = hashed password >>= store_hash id

  -- The new hash of an account that may change its password, and the end of its sessions.
  abbrev pub rotate : ℕ → String → Of Unit
  rotate id hash = do
    modify (update_admins (λ a. eqb a.id id) (λ a. record a { password_hash = hash }))
    modify (revoke_all id)

  abbrev pub change_checked : ℕ → String → Of Unit
  change_checked id new_pwd = do
    fail_if (not (c.policy new_pwd)) weak_password
    hashed new_pwd >>= rotate id

  abbrev pub change_loaded : ℕ → String → String → Admin → Of Unit
  change_loaded id old_pwd new_pwd a = do
    fail_if (not (c.compare_hash a.password_hash old_pwd)) invalid_credentials
    change_checked id new_pwd

  unfoldable pub change_own_admin_password : ℕ → String → String → Of Unit
  change_own_admin_password id old_pwd new_pwd =
      require record_not_found (admin_by_id id) >>= change_loaded id old_pwd new_pwd

  -- `issueAdminToken`: the token and its end.
  unfoldable pub issue_admin_token : Admin → Of (String × Time)
  issue_admin_token a = do
    token ← require sign_failed (λ _. c.sign_admin a (d.now +ℤ d.access_ttl))
    pure (token, d.now +ℤ d.access_ttl)

  abbrev pub new_token : ℕ → RefreshToken
  new_token admin_id = record {
    id = d.refresh_id;
    admin_id = admin_id;
    expires_at = d.now +ℤ d.refresh_ttl;
    revoked = false;
  }

  abbrev pub token_clash : Office → Bool
  token_clash s = any (λ (t : RefreshToken). t.id == d.refresh_id) s.refresh_tokens

  abbrev pub with_token : RefreshToken → Office → Office
  with_token t s = record s { refresh_tokens = insert t s.refresh_tokens }

  -- `issueRefreshToken`
  unfoldable pub issue_refresh_token : ℕ → Of String
  issue_refresh_token admin_id = do
    create token_clash (with_token (new_token admin_id))
    pure d.refresh_id

  -- `AdminLogin`, once the password is right.
  abbrev pub open_session : Admin → Of (String × String × Time)
  open_session a = do
    (token, ends) ← issue_admin_token a
    refresh ← issue_refresh_token a.id
    pure (token, refresh, ends)

  abbrev pub login_as : String → Admin → Of (String × String × Time)
  login_as password a = do
    fail_if (not (c.compare_hash a.password_hash password)) invalid_credentials
    open_session a

  abbrev pub admin_by_name : String → Office → Option Admin
  admin_by_name username s = first (λ (a : Admin). a.username == username) s.admins

  unfoldable pub admin_login : String → String → Of (String × String × Time)
  admin_login username password =
      require invalid_credentials (admin_by_name username) >>= login_as password

  -- `RefreshAdmin`, from the token that it found.
  abbrev pub refresh_with : RefreshToken → Of (String × Time)
  refresh_with t = do
    fail_if (t.revoked || after d.now t.expires_at) refresh_token_expired
    a ← require record_not_found (admin_by_id t.admin_id)
    issue_admin_token a

  abbrev pub token_by_id : String → Office → Option RefreshToken
  token_by_id id s = first (λ (t : RefreshToken). t.id == id) s.refresh_tokens

  unfoldable pub refresh_admin : String → Of (String × Time)
  refresh_admin token = require invalid_refresh_token (token_by_id token) >>= refresh_with
