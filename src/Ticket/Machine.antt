-- ===== src/Ticket/Machine.antt =====
-- The status machine of the tickets, and an admin's change of a status.
use mathlib.Core.Option
use mathlib.Core.Path.{subst}
use vgate_manager.Prelude.{
  ◌≡◌, refl, sym, ap, ◌∙◌, String, true, some, arith, ◌==◌, eq_iff, Bool-cases, inl, inr,
  if◌then◌else◌,
}
use vgate_manager.Db.Table.{first, update, first-holds, first-update}
use vgate_manager.Ticket.{
  TicketStatus, opened, in_progress, resolved, closed, other, after_user, after_admin,
  validate_transition, Ticket, Desk, Draw, ticket_by_id,
}

-- The machine allows the status that a reply is to leave behind.
pub after_user-allowed : (s : TicketStatus) → validate_transition s (after_user s) ≡ true
unfolding validate_transition
after_user-allowed opened = refl
after_user-allowed in_progress = refl
after_user-allowed resolved = refl
after_user-allowed closed = refl
after_user-allowed other = refl

pub after_admin-allowed : (s : TicketStatus) → validate_transition s (after_admin s) ≡ true
unfolding validate_transition
after_admin-allowed opened = refl
after_admin-allowed in_progress = refl
after_admin-allowed resolved = refl
after_admin-allowed closed = refl
after_admin-allowed other = refl

pub same_status-allowed : (s : TicketStatus) → validate_transition s s ≡ true
unfolding validate_transition
same_status-allowed opened = refl
same_status-allowed in_progress = refl
same_status-allowed resolved = refl
same_status-allowed closed = refl
same_status-allowed other = refl

-- The ticket that has a key has one afterwards, in a status that the machine allows.
abbrev pub Moves : Desk → Desk → Type 0
Moves desk desk' =
    (id : String) (t : Ticket)
    → ticket_by_id id desk ≡ some t
    → (t' : Ticket) × (ticket_by_id id desk' ≡ some t')
      × (validate_transition t.status t'.status ≡ true)

pub Moves-refl : (desk : Desk) → Moves desk desk
Moves-refl desk id t e = (t, e, same_status-allowed t.status)

-- A ticket that was found is found under its own key.
pub self_found :
    (id : String) (desk : Desk) {t : Ticket}
    → ticket_by_id id desk ≡ some t
    → ticket_by_id t.id desk ≡ some t
self_found id desk {t} e =
    let same : t.id ≡ id =
      (eq_iff t.id id).0 (first-holds (λ (u : Ticket). u.id == id) desk.tickets e) in
    subst (λ k. ticket_by_id k desk ≡ some t) (sym same) e

-- An update of the ticket `k` to the status that `g` gives, as a lookup sees it.
pub write_ticket-Moves :
    (d : Draw) (k : String) (t : Ticket) (g : Ticket → Ticket) (desk desk' : Desk)
    → desk'.tickets ≡ update (λ (u : Ticket). u.id == k) g desk.tickets
    → ticket_by_id k desk ≡ some t
    → ((u : Ticket) → (g u).id ≡ u.id)
    → validate_transition t.status (g t).status ≡ true
    → Moves desk desk'
write_ticket-Moves d k t g desk desk' w e key fine id u h =
    let seen : ticket_by_id id desk'
        ≡ Option.map (λ u. if u.id == k then g u else u) (ticket_by_id id desk) =
      ap (first (λ (u : Ticket). u.id == id)) w
      ∙ first-update (λ (u : Ticket). u.id == id) (λ (u : Ticket). u.id == k) g desk.tickets
          (λ u _. rw (key u) refl) in
    elim (Bool-cases (u.id == k)) [
      | inl b ↦
          let there : u.id ≡ k = (eq_iff u.id k).0 b in
          let here : u.id ≡ id =
            (eq_iff u.id id).0 (first-holds (λ (u : Ticket). u.id == id) desk.tickets h) in
          let same : t ≡ u = ground arith in (g u, rw (seen, h, b) refl, rw (← same) fine)
      | inr b ↦ (u, rw (seen, h, b) refl, same_status-allowed u.status)
    ]
