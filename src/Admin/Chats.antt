-- ===== src/Admin/Chats.antt =====
-- A Telegram chat answers for one administrator.
use vgate_manager.Prelude.{
  ℕ, ◌≡◌, refl, sym, ap, ◌∙◌, false, not, ◌&&◌, some, List, [], ◌∷◌, arith, eqb, eqb_ℤ, Bool-cases,
  Option-cases, inl, inr,
}
use vgate_manager.Prelude.Int.{ℤ, pos}
use vgate_manager.Db.Table.{first, update}
use vgate_manager.Db.Rows.{All}
use vgate_manager.Db.Action.{ok}
use vgate_manager.Model.Admin.{Admin, Office}
use vgate_manager.Admin.{with_chat, set_admin_telegram, get_admin_by_telegram_id}

-- Every account with the chat is the one with the id.
abbrev pub Only : ℤ → ℕ → List Admin → Type 0
Only chat id = All (λ (a : Admin). (eqb_ℤ a.telegram_id chat && not (eqb a.id id)) ≡ false)

freed :
    (chat : ℤ) (id : ℕ) (l : List Admin)
    → eqb_ℤ chat (pos 0) ≡ false
    → Only chat id
        (update (λ a. eqb_ℤ a.telegram_id chat && not (eqb a.id id)) (with_chat (pos 0)) l)
unfolding update
freed chat id [] n = tt
freed chat id (a ∷ l) n = (ground arith, freed chat id l n)

linked :
    (chat : ℤ) (id : ℕ) (l : List Admin)
    → Only chat id l
    → Only chat id (update (λ a. eqb a.id id) (with_chat chat) l)
unfolding update
linked chat id [] h = tt
linked chat id (a ∷ l) h = (ground arith, linked chat id l h.1)

found-Only :
    (chat : ℤ) (id : ℕ) (l : List Admin) (a : Admin)
    → Only chat id l
    → first (λ (b : Admin). eqb_ℤ b.telegram_id chat) l ≡ some a
    → a.id ≡ id
unfolding first
found-Only chat id [] a h e = ground arith
found-Only chat id (b ∷ l) a h e = elim (Bool-cases (eqb_ℤ b.telegram_id chat)) [
  | inl t ↦ ground arith
  | inr n ↦ found-Only chat id l a h.1 (rw n at e)
]

found_row :
    (chat : ℤ) (s : Office) (a : Admin)
    → get_admin_by_telegram_id chat s ≡ (ok a, s)
    → (eqb_ℤ chat (pos 0) ≡ false)
      × (first (λ (b : Admin). eqb_ℤ b.telegram_id chat) s.admins ≡ some a)
unfolding get_admin_by_telegram_id
found_row chat s a e = elim (Bool-cases (eqb_ℤ chat (pos 0))) [
  | inl t ↦ absurd (ground arith)
  | inr n ↦ elim (Option-cases (first (λ (b : Admin). eqb_ℤ b.telegram_id chat) s.admins)) [
    | inl m ↦ absurd (ground arith)
    | inr (b, q) ↦ (n, ground arith)
  ]
]

-- After a chat is linked to an account, and whatever accounts it was linked to before, a lookup of
-- the chat finds no other account.
pub get_admin_by_telegram_id-set_admin_telegram :
    (id : ℕ) (chat : ℤ) (s : Office) (a : Admin)
    → get_admin_by_telegram_id chat (set_admin_telegram id chat s).1
      ≡ (ok a, (set_admin_telegram id chat s).1)
    → a.id ≡ id
get_admin_by_telegram_id-set_admin_telegram id chat s a e =
    let (n, row) = found_row chat (set_admin_telegram id chat s).1 a e in
    let others = λ (b : Admin). eqb_ℤ b.telegram_id chat && not (eqb b.id id) in
    let rows : (set_admin_telegram id chat s).1.admins
        ≡ update (λ b. eqb b.id id) (with_chat chat) (update others (with_chat (pos 0)) s.admins) =
      unfold set_admin_telegram in rw n refl in
    found-Only chat id _ a (linked chat id _ (freed chat id s.admins n))
      (ap (first (λ (b : Admin). eqb_ℤ b.telegram_id chat)) (sym rows) ∙ row)
