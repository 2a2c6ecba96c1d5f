-- ===== src/Ticket/Unread.antt =====
-- What a view of a ticket does to the marks, and to what counts as unread.
use vgate_manager.Prelude.{
  ◌≡◌, refl, ap, ◌∙◌, String, true, ◌&&◌, Option, some, none, List, arith, ◌==◌, eq_refl,
  Option-cases, inl, inr, ltb_ℤ,
}
use vgate_manager.Db.Table.{first, first-holds, first-insert, first-update, insert, update}
use vgate_manager.Db.Action.{Result, ok, err, require-cases, record_not_found}
use vgate_manager.Model.Time.{Time}
use vgate_manager.Ticket.{
  Ticket, Message, Desk, ReadState, ticket_of, is_mark, new_mark, zero_time, mark_read, last_read,
  is_from_admin, is_unread_for_user, show_ticket, get_for_user,
}

is_mark-new_mark :
    (now : Time) (r : Option String) (id : String) → is_mark r id (new_mark now r id) ≡ true
is_mark-new_mark now none id = rw (eq_refl id) refl
is_mark-new_mark now (some v) id = rw (eq_refl id, eq_refl v) refl

is_mark-read :
    (now : Time) (r : Option String) (id : String) (s : ReadState)
    → is_mark r id (record s { last_read_at = now }) ≡ is_mark r id s
is_mark-read now none id s = refl
is_mark-read now (some v) id s = refl

read_at : Option ReadState → Time
read_at o = elim o [ none ↦ zero_time | some s ↦ s.last_read_at ]

-- After a view, the recipient has last read the ticket at the time of the view.
last_read-mark_read :
    (now : Time) (r : Option String) (id : String) (desk : Desk)
    → last_read r id (mark_read now r id desk) ≡ now
unfolding mark_read read_at
last_read-mark_read now r id desk = elim (Option-cases (first (is_mark r id) desk.read_states)) [
  | inl n ↦
      let after = record desk { read_states = insert (new_mark now r id) desk.read_states } in
      let run : mark_read now r id desk ≡ after = ground arith in
      let found : first (is_mark r id) after.read_states ≡ some (new_mark now r id) =
        first-insert (is_mark r id) (new_mark now r id) desk.read_states
        ∙ rw (n, is_mark-new_mark now r id) refl in
      ap (last_read r id) run ∙ ap read_at found
  | inr (s, e) ↦
      let mark = λ (s : ReadState). record s { last_read_at = now } in
      let after = record desk { read_states = update (is_mark r id) mark desk.read_states } in
      let run : mark_read now r id desk ≡ after = ground arith in
      let found : first (is_mark r id) after.read_states ≡ some (mark s) =
        first-update (is_mark r id) (is_mark r id) mark desk.read_states
          (λ s _. is_mark-read now r id s)
        ∙ rw (e, first-holds (is_mark r id) desk.read_states e) refl in
      ap (last_read r id) run ∙ ap read_at found
]

-- A view that succeeds has found a ticket of the user; afterwards it counts as unread only if an admin
-- wrote last and its last change is later than the view.
abbrev pub Viewed : Time → String → String → Desk → Result (Ticket × List Message) × Desk → Type 0
Viewed now user_id ticket_id desk (ok (t, _), desk') =
    (ticket_of user_id ticket_id desk ≡ some t)
    × (is_unread_for_user user_id desk' t
        ≡ (t.user_id == user_id && is_from_admin t.last_sender && ltb_ℤ now t.updated_at))
Viewed now user_id ticket_id desk (err _, desk') = desk' ≡ desk

-- A user's view that succeeds has found a ticket of the user, which afterwards counts as unread exactly
-- if an admin wrote last and its last change is later than the view; one that fails changes nothing.
pub get_for_user-Viewed :
    (now : Time) (user_id ticket_id : String) (desk : Desk)
    → Viewed now user_id ticket_id desk (get_for_user now user_id ticket_id desk)
unfolding get_for_user is_unread_for_user
get_for_user-Viewed now user_id ticket_id desk =
    require-cases (Viewed now user_id ticket_id desk) record_not_found (ticket_of user_id ticket_id)
      (show_ticket now (some user_id)) desk
      (λ t e. (
        e,
        ap (λ x. t.user_id == user_id && is_from_admin t.last_sender && ltb_ℤ x t.updated_at)
            (last_read-mark_read now (some user_id) t.id desk),
      ))
      (λ _. refl)
