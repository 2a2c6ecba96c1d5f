-- ===== src/Ticket/Replies.antt =====
-- What a reply leaves behind.
use vgate_manager.Prelude.{
  ◌≡◌, refl, ap, ◌∙◌, String, Bool, true, false, ◌&&◌, Option, some, arith, ◌==◌, eq_refl,
  Bool-cases, inl, inr, if◌then◌else◌,
}
use vgate_manager.Db.Table.{first, insert, update, first-update}
use vgate_manager.Db.Rows.{DistinctBy}
use vgate_manager.Db.Keyed.{update-update, first-keyed}
use vgate_manager.Db.Action.{
  Result, ok, err, require, ◌>>=◌, require-cases, fail_if-cases, create-cases, record_not_found,
  bad_parameter,
}
use vgate_manager.Ticket.{
  TicketStatus, opened, in_progress, resolved, closed, other, after_user, after_admin, same_status,
  Sender, Ticket, Desk, Draw, message_clash, with_message, ticket_by_id, ticket_of, with_sender,
  with_status, write_ticket, new_message, finish_reply, append_message, reply_of_user,
  reply_of_admin, add_user_message, add_admin_message,
}
use vgate_manager.Ticket.Machine.{self_found}

-- No two tickets have the same id.
abbrev pub Keyed : Desk → Type 0
Keyed desk = DistinctBy (λ (t : Ticket). t.id) desk.tickets

pub eq_same_status : (a b : TicketStatus) → same_status a b ≡ true → a ≡ b
eq_same_status opened b h = ground arith
eq_same_status in_progress b h = ground arith
eq_same_status resolved b h = ground arith
eq_same_status closed b h = ground arith
eq_same_status other b h = ground arith

module _ (trim : String → String) (d : Draw) where
  -- The row of a ticket after a reply; `same` tells that the status stays.
  abbrev pub reply_row : Bool → Sender → TicketStatus → Ticket → Ticket
  reply_row same sender next u = record u {
    status = if same then u.status else next;
    last_sender = sender;
    updated_at = d.now;
  }

  abbrev touched : Sender → Ticket → Desk → Desk
  touched sender t = write_ticket d t.id (with_sender sender)

  tickets-touched :
      (same : Bool) (sender : Sender) (next : TicketStatus) (t : Ticket) (desk : Desk)
      → (if same
          then touched sender t desk
          else write_ticket d t.id (with_status next) (touched sender t desk)).tickets
        ≡ update (λ (u : Ticket). u.id == t.id) (reply_row same sender next) desk.tickets
  tickets-touched true sender next t desk = refl
  tickets-touched false sender next t desk =
      update-update (λ (u : Ticket). u.id == t.id)
        (λ u. record (with_sender sender u) { updated_at = d.now })
        (λ u. record (with_status next u) { updated_at = d.now }) desk.tickets (λ _ k. k)

  pub tickets-finish_reply :
      (sender : Sender) (next : TicketStatus) (t : Ticket) (desk : Desk)
      → (finish_reply trim d sender next t desk).1.tickets
        ≡ update
            (λ (u : Ticket). u.id == t.id)
            (reply_row (same_status t.status next) sender next)
            desk.tickets
  tickets-finish_reply sender next t desk =
      tickets-touched (same_status t.status next) sender next t desk

  messages-finish_reply :
      (sender : Sender) (next : TicketStatus) (t : Ticket) (desk : Desk)
      → (finish_reply trim d sender next t desk).1.messages ≡ desk.messages
  messages-finish_reply sender next t desk = ground arith

  reply_row-status :
      (t : Ticket) (sender : Sender) (next : TicketStatus)
      → reply_row (same_status t.status next) sender next t
        ≡ record t { status = next; last_sender = sender; updated_at = d.now }
  reply_row-status t sender next = elim (Bool-cases (same_status t.status next)) [
    | inl s ↦
        let same : t.status ≡ next = eq_same_status t.status next s in
        rw s (ap (λ x. record t { status = x; last_sender = sender; updated_at = d.now }) same)
    | inr n ↦ rw n refl
  ]

  -- A reply to a ticket is stored, and the ticket that is returned is the one that is stored: it is in
  -- the status `next`, and it names who wrote last and when.
  pub record Answered (sender : Sender) (next : TicketStatus) (sender_id content : String)
      (t : Ticket) (desk : Desk) (t' : Ticket) (desk' : Desk) : Type 0 where
    pub returned : t' ≡ record t { status = next; last_sender = sender; updated_at = d.now }
    pub stored : ticket_by_id t.id desk' ≡ some t'
    pub message :
        desk'.messages ≡ insert (new_message trim d sender sender_id t.id content) desk.messages

  abbrev pub Answers :
      (Desk → Option Ticket)
      → Sender
      → (TicketStatus → TicketStatus)
      → String
      → String
      → Desk
      → Result Ticket × Desk
      → Type 0
  Answers read sender next sender_id content desk (ok t', desk') =
      (t : Ticket) × (read desk ≡ some t)
      × (same_status (next t.status) closed ≡ false)
      × Answered sender (next t.status) sender_id content t desk t' desk'
  Answers read sender next sender_id content desk (err _, desk') = desk' ≡ desk

  finish_reply-Answered :
      (sender : Sender) (next : TicketStatus) (sender_id content : String) (t : Ticket)
      (desk : Desk)
      → ticket_by_id t.id desk ≡ some t
      → let posted = with_message (new_message trim d sender sender_id t.id content) desk in
        Answered sender next sender_id content t desk
          (record t { status = next; last_sender = sender; updated_at = d.now })
          (finish_reply trim d sender next t posted).1
  finish_reply-Answered sender next sender_id content t desk e =
      let posted = with_message (new_message trim d sender sender_id t.id content) desk in
      let row = reply_row (same_status t.status next) sender next in
      record {
        returned = refl;
        stored =
            ap (first (λ (u : Ticket). u.id == t.id)) (tickets-finish_reply sender next t posted)
            ∙ first-update (λ (u : Ticket). u.id == t.id) (λ (u : Ticket). u.id == t.id) row
                desk.tickets (λ _ _. refl)
            ∙ rw (e, eq_refl t.id) (ap some (reply_row-status t sender next));
        message = messages-finish_reply sender next t posted;
      }

  append_message-Answers :
      (read : Desk → Option Ticket) (sender : Sender) (next : TicketStatus → TicketStatus)
      (sender_id content : String) (t : Ticket) (desk : Desk)
      → read desk ≡ some t
      → ticket_by_id t.id desk ≡ some t
      → same_status (next t.status) closed ≡ false
      → Answers read sender next sender_id content desk
          (append_message trim d sender sender_id content (next t.status) t desk)
  append_message-Answers read sender next sender_id content t desk found e not_closed =
      let m = new_message trim d sender sender_id t.id content in
      create-cases (Answers read sender next sender_id content desk) (message_clash m)
        (with_message m) (finish_reply trim d sender (next t.status) t) desk
        (λ _. (
          t,
          found,
          not_closed,
          finish_reply-Answered sender (next t.status) sender_id content t desk e,
        ))
        (λ _. refl)

  after_user_open : (s : TicketStatus) → same_status (after_user s) closed ≡ false
  after_user_open opened = refl
  after_user_open in_progress = refl
  after_user_open resolved = refl
  after_user_open closed = refl
  after_user_open other = refl

  after_admin_open : (s : TicketStatus) → same_status (after_admin s) closed ≡ false
  after_admin_open opened = refl
  after_admin_open in_progress = refl
  after_admin_open resolved = refl
  after_admin_open closed = refl
  after_admin_open other = refl

  -- A ticket that a user finds is found by its key.
  pub own_found :
      (user_id ticket_id : String) (desk : Desk) (t : Ticket)
      → Keyed desk
      → ticket_of user_id ticket_id desk ≡ some t
      → ticket_by_id t.id desk ≡ some t
  own_found user_id ticket_id desk t d e =
      first-keyed (λ (u : Ticket). u.id) (λ (u : Ticket). u.id == ticket_id && u.user_id == user_id)
        desk.tickets t d e

  add_user_message-Answers :
      (user_id ticket_id content : String) (desk : Desk)
      → Keyed desk
      → Answers
          (ticket_of user_id ticket_id)
          Sender.user
          after_user
          user_id
          content
          desk
          (add_user_message trim d user_id ticket_id content desk)
  unfolding add_user_message
  add_user_message-Answers user_id ticket_id content desk keyed =
      let P = Answers (ticket_of user_id ticket_id) Sender.user after_user user_id content desk in
      fail_if-cases P (trim content == "") bad_parameter
        (require record_not_found (ticket_of user_id ticket_id)
          >>= reply_of_user trim d user_id content)
        desk
        (λ _.
          require-cases P record_not_found (ticket_of user_id ticket_id)
            (reply_of_user trim d user_id content) desk
            (λ t e.
              append_message-Answers (ticket_of user_id ticket_id) Sender.user after_user user_id
                content t desk e (own_found user_id ticket_id desk t keyed e)
                (after_user_open t.status))
            (λ _. refl))
        (λ _. refl)

  add_admin_message-Answers :
      (admin_id ticket_id content : String) (desk : Desk)
      → Answers
          (ticket_by_id ticket_id)
          Sender.admin
          after_admin
          admin_id
          content
          desk
          (add_admin_message trim d admin_id ticket_id content desk)
  unfolding add_admin_message
  add_admin_message-Answers admin_id ticket_id content desk =
      let P = Answers (ticket_by_id ticket_id) Sender.admin after_admin admin_id content desk in
      fail_if-cases P (trim content == "") bad_parameter
        (require record_not_found (ticket_by_id ticket_id)
          >>= reply_of_admin trim d admin_id content)
        desk
        (λ _.
          require-cases P record_not_found (ticket_by_id ticket_id)
            (reply_of_admin trim d admin_id content) desk
            (λ t e.
              append_message-Answers (ticket_by_id ticket_id) Sender.admin after_admin admin_id
                content t desk e (self_found ticket_id desk e) (after_admin_open t.status))
            (λ _. refl))
        (λ _. refl)

  -- A reply that fails changes nothing. One that succeeds has found the ticket, of a user's own or, for
  -- an admin, any; it stores the message, and leaves the ticket that it returns: not closed, in the
  -- status that the status before it asks for, with the author's side as the last sender. No two
  -- tickets have the same id.
  pub reply-Answers :
      (author_id ticket_id content : String) (desk : Desk)
      → Keyed desk
      → Answers
          (ticket_of author_id ticket_id)
          Sender.user
          after_user
          author_id
          content
          desk
          (add_user_message trim d author_id ticket_id content desk)
        × Answers
            (ticket_by_id ticket_id)
            Sender.admin
            after_admin
            author_id
            content
            desk
            (add_admin_message trim d author_id ticket_id content desk)
  reply-Answers author_id ticket_id content desk keyed = (
    add_user_message-Answers author_id ticket_id content desk keyed,
    add_admin_message-Answers author_id ticket_id content desk,
  )
