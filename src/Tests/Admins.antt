-- ===== src/Tests/Admins.antt =====
-- Examples: the accounts of administrators.
use vgate_manager.Prelude.{ℕ, ◌≡◌, refl, true, false, some, [], ◌∷◌, ◌==◌, arith}
use vgate_manager.Prelude.Int.{pos}
use vgate_manager.Db.Table.{first, count, update}
use vgate_manager.Db.Action.{ok, err, refresh_token_expired}
use vgate_manager.Model.Admin.{Admin, RefreshToken, Office}
use vgate_manager.Admin.{
  Crypto, Session, new_admin, update_admin, delete_admin, set_admin_telegram,
  get_admin_by_telegram_id, change_own_admin_password, refresh_admin, with_chat,
}
use vgate_manager.Admin.Managed.{Managed}
use vgate_manager.Admin.Supers.{here, next, edit, remove, Reach-Managed}
use vgate_manager.Admin.Sessions.{refresh_admin-change_own_admin_password}
use vgate_manager.Admin.Chats.{get_admin_by_telegram_id-set_admin_telegram}

abbrev crypto : Crypto
crypto = record {
  hash_password = λ p. some p;
  compare_hash = λ h p. h == p;
  sign_admin = λ a t. some a.username;
  policy = λ _. true;
}

abbrev session : Session
session = record {
  now = pos 1000;
  admin_id = 3;
  random = "random";
  refresh_id = "refresh";
  access_ttl = pos 10;
  refresh_ttl = pos 100;
}

abbrev root : Admin
root = new_admin 1 "root" "secret" "super_admin"

abbrev helper : Admin
helper = new_admin 2 "helper" "word" "super_admin"

abbrev token : RefreshToken
token = record { id = "t1"; admin_id = 1; expires_at = pos 5000; revoked = false }

abbrev office : Office
office = record { admins = root ∷ helper ∷ []; refresh_tokens = token ∷ [] }

office-Managed : Managed office
unfolding count
office-Managed = record { keyed = λ i. ground arith; managed = omega arith }

-- A demotion, and then an attempt to delete the super admin who is left.
abbrev after_edit : Office
after_edit = (update_admin 2 "" "admin" office).1

Reach-Managed_example : Managed (delete_admin 1 2 after_edit).1
Reach-Managed_example =
    Reach-Managed (next (next here (edit 2 "" "admin" office)) (remove 1 2 after_edit))
      office-Managed

abbrev changed_office : Office
changed_office = record {
  admins = record root { password_hash = "new" } ∷ helper ∷ [];
  refresh_tokens = record token { revoked = true } ∷ [];
}

changes : change_own_admin_password crypto session 1 "secret" "new" office ≡ (ok tt, changed_office)
unfolding change_own_admin_password first update
changes = refl

has_token : first (λ (t : RefreshToken). t.id == "t1") office.refresh_tokens ≡ some token
unfolding first
has_token = refl

refresh_admin-change_own_admin_password_example :
    refresh_admin crypto session "t1" changed_office ≡ (err refresh_token_expired, changed_office)
refresh_admin-change_own_admin_password_example =
    refresh_admin-change_own_admin_password crypto session 1 "secret" "new" "t1" office
      changed_office token changes has_token

-- The chat moves from the one account to the other.
abbrev linked_office : Office
linked_office = (set_admin_telegram 1 (pos 7) office).1

abbrev helper_with_chat : Admin
helper_with_chat = with_chat (pos 7) helper

chat_found :
    get_admin_by_telegram_id (pos 7) (set_admin_telegram 2 (pos 7) linked_office).1
    ≡ (ok helper_with_chat, (set_admin_telegram 2 (pos 7) linked_office).1)
unfolding get_admin_by_telegram_id set_admin_telegram first update
chat_found = refl

get_admin_by_telegram_id-set_admin_telegram_example : ◌≡◌ {A = ℕ} 2 2
get_admin_by_telegram_id-set_admin_telegram_example =
    get_admin_by_telegram_id-set_admin_telegram 2 (pos 7) linked_office helper_with_chat chat_found
