-- ===== src/Ticket/Steps.antt =====
-- Every operation on the tickets moves them along the status machine.
use mathlib.Core.Path.{subst}
use vgate_manager.Prelude.{
  ◌≡◌, refl, sym, ap, ◌∙◌, String, true, false, not, List, some, none, Option, arith, ◌==◌,
  Bool-cases, Option-cases, inl, inr,
}
use vgate_manager.Db.Table.{first, first-insert}
use vgate_manager.Db.Rows.{DistinctBy}
use vgate_manager.Db.Keyed.{DistinctBy-update, DistinctBy-insert}
use vgate_manager.Db.Action.{
  Result, ok, require, ◌>>=◌, require-cases, fail_if-cases, create-cases, bind-cases,
  record_not_found, bad_parameter, bad_transition, pure,
}
use vgate_manager.Model.Time.{Time}
use vgate_manager.Ticket.{
  TicketStatus, closed, after_user, after_admin, same_status, validate_transition, valid_status,
  Sender, Priority, Notify, blank, nowhere, email, telegram, other, Ticket, Message, Desk, Draw,
  ticket_by_id, ticket_of, with_status, write_ticket, new_message, finish_reply, message_clash,
  with_message, ticket_clash, with_ticket, append_message, reply_of_user, reply_of_admin,
  add_user_message, add_admin_message, set_status, close_ticket, close_read, change_status,
  open_ticket, open_checked, post_new, post_ticket, new_ticket, first_message,
  resolve_notify_method, get_for_user, get_for_admin, show_ticket, mark_read,
}
use vgate_manager.Ticket.Machine.{
  Moves, Moves-refl, self_found, write_ticket-Moves, after_user-allowed, after_admin-allowed,
  same_status-allowed,
}
use vgate_manager.Ticket.Replies.{Keyed, reply_row, tickets-finish_reply, own_found}

-- The tickets keep distinct ids, and each has moved along the machine, if at all.
abbrev pub Advances : Desk → Desk → Type 0
Advances desk desk' = Moves desk desk' × Keyed desk'

module _ (trim : String → String) (d : Draw) where
  row-allowed :
      (sender : Sender) (t : Ticket) (next : TicketStatus)
      → validate_transition t.status next ≡ true
      → validate_transition t.status
          (reply_row trim d (same_status t.status next) sender next t).status
        ≡ true
  row-allowed sender t next fine = elim (Bool-cases (same_status t.status next)) [
    | inl s ↦ rw s (same_status-allowed t.status)
    | inr n ↦ rw n fine
  ]

  append_message-Advances :
      (sender : Sender) (sender_id content : String) (next : TicketStatus) (t : Ticket)
      (desk : Desk)
      → Keyed desk
      → ticket_by_id t.id desk ≡ some t
      → validate_transition t.status next ≡ true
      → Advances desk (append_message trim d sender sender_id content next t desk).1
  append_message-Advances sender sender_id content next t desk keyed e fine =
      let m = new_message trim d sender sender_id t.id content in
      let posted = with_message m desk in
      let row = reply_row trim d (same_status t.status next) sender next in
      let tickets = tickets-finish_reply trim d sender next t posted in
      create-cases (λ x. Advances desk x.1) (message_clash m) (with_message m)
        (finish_reply trim d sender next t) desk
        (λ _. (
          write_ticket-Moves d t.id t row desk (finish_reply trim d sender next t posted).1 tickets
              e (λ _. refl) (row-allowed sender t next fine),
          subst (DistinctBy (λ (u : Ticket). u.id)) (sym tickets) (
              DistinctBy-update (λ (u : Ticket). u.id) (λ (u : Ticket). u.id == t.id) row
                desk.tickets (λ _. refl) keyed),
        ))
        (λ _. (Moves-refl desk, keyed))

  add_user_message-Advances :
      (user_id ticket_id content : String) (desk : Desk)
      → Keyed desk
      → Advances desk (add_user_message trim d user_id ticket_id content desk).1
  unfolding add_user_message
  add_user_message-Advances user_id ticket_id content desk keyed =
      let P = λ (x : Result Ticket × Desk). Advances desk x.1 in
      fail_if-cases P (trim content == "") bad_parameter
        (require record_not_found (ticket_of user_id ticket_id)
          >>= reply_of_user trim d user_id content)
        desk
        (λ _.
          require-cases P record_not_found (ticket_of user_id ticket_id)
            (reply_of_user trim d user_id content) desk
            (λ t e.
              append_message-Advances Sender.user user_id content (after_user t.status) t desk keyed
                (own_found trim d user_id ticket_id desk t keyed e) (after_user-allowed t.status))
            (λ _. (Moves-refl desk, keyed)))
        (λ _. (Moves-refl desk, keyed))

  add_admin_message-Advances :
      (admin_id ticket_id content : String) (desk : Desk)
      → Keyed desk
      → Advances desk (add_admin_message trim d admin_id ticket_id content desk).1
  unfolding add_admin_message
  add_admin_message-Advances admin_id ticket_id content desk keyed =
      let P = λ (x : Result Ticket × Desk). Advances desk x.1 in
      fail_if-cases P (trim content == "") bad_parameter
        (require record_not_found (ticket_by_id ticket_id)
          >>= reply_of_admin trim d admin_id content)
        desk
        (λ _.
          require-cases P record_not_found (ticket_by_id ticket_id)
            (reply_of_admin trim d admin_id content) desk
            (λ t e.
              append_message-Advances Sender.admin admin_id content (after_admin t.status) t desk
                keyed (self_found ticket_id desk e) (after_admin-allowed t.status))
            (λ _. (Moves-refl desk, keyed)))
        (λ _. (Moves-refl desk, keyed))

  -- The write of a status that the machine allows.
  write_status-Advances :
      (t : Ticket) (s : TicketStatus) (desk : Desk)
      → Keyed desk
      → ticket_by_id t.id desk ≡ some t
      → validate_transition t.status s ≡ true
      → Advances desk (write_ticket d t.id (with_status s) desk)
  write_status-Advances t s desk keyed e fine =
      let g = λ (u : Ticket). record (with_status s u) { updated_at = d.now } in
      (
        write_ticket-Moves d t.id t g desk (write_ticket d t.id (with_status s) desk) refl e
            (λ _. refl) fine,
        DistinctBy-update (λ (u : Ticket). u.id) (λ (u : Ticket). u.id == t.id) g desk.tickets
            (λ _. refl) keyed,
      )

  change_status-Advances :
      (status : TicketStatus) (t : Ticket) (desk : Desk)
      → Keyed desk
      → ticket_by_id t.id desk ≡ some t
      → Advances desk (change_status d status t desk).1
  change_status-Advances status t desk keyed e =
      fail_if-cases (λ (x : Result Ticket × Desk). Advances desk x.1)
        (not (validate_transition t.status status)) bad_transition
        (λ x. (
          ok (record t { status = status; updated_at = d.now }),
          write_ticket d t.id (with_status status) x,
        ))
        desk (λ fine. write_status-Advances t status desk keyed e (ground arith))
        (λ _. (Moves-refl desk, keyed))

  set_status-Advances :
      (ticket_id : String) (status : TicketStatus) (desk : Desk)
      → Keyed desk
      → Advances desk (set_status d ticket_id status desk).1
  unfolding set_status
  set_status-Advances ticket_id status desk keyed =
      let P = λ (x : Result Ticket × Desk). Advances desk x.1 in
      fail_if-cases P (not (valid_status status)) bad_parameter
        (require record_not_found (ticket_by_id ticket_id) >>= change_status d status) desk
        (λ _.
          require-cases P record_not_found (ticket_by_id ticket_id) (change_status d status) desk
            (λ t e. change_status-Advances status t desk keyed (self_found ticket_id desk e))
            (λ _. (Moves-refl desk, keyed)))
        (λ _. (Moves-refl desk, keyed))

  close_ticket-Advances :
      (user_id ticket_id : String) (desk : Desk)
      → Keyed desk
      → Advances desk (close_ticket d user_id ticket_id desk).1
  unfolding close_ticket
  close_ticket-Advances user_id ticket_id desk keyed =
      let P = λ (x : Result Ticket × Desk). Advances desk x.1 in
      require-cases P record_not_found (ticket_of user_id ticket_id) (close_read d) desk
        (λ t e. elim (Bool-cases (same_status t.status closed)) [
          | inl s ↦
              let run : close_read d t desk ≡ (ok t, desk) = ground arith in
              subst P (sym run) (Moves-refl desk, keyed)
          | inr n ↦
              let run : close_read d t desk ≡ change_status d closed t desk = ground arith in
              subst P (sym run) (
                change_status-Advances closed t desk keyed
                  (own_found trim d user_id ticket_id desk t keyed e))
        ])
        (λ _. (Moves-refl desk, keyed))

  with_ticket-Advances :
      (t : Ticket) (desk : Desk)
      → Keyed desk
      → ticket_clash t desk ≡ false
      → Advances desk (with_ticket t desk)
  with_ticket-Advances t desk keyed free =
      let absent : ticket_by_id t.id desk ≡ none = elim (Option-cases (ticket_by_id t.id desk)) [
        | inl n ↦ n
        | inr (u, e) ↦ absurd (ground arith)
      ] in
      (
        λ id u e. (
          u,
          first-insert (λ (v : Ticket). v.id == id) t desk.tickets ∙ rw e refl,
          same_status-allowed u.status,
        ),
        DistinctBy-insert (λ (v : Ticket). v.id) t desk.tickets absent keyed,
      )

  desk-resolve_notify_method :
      (user_id : String) (n : Notify) (desk : Desk)
      → (resolve_notify_method user_id n desk).1 ≡ desk
  unfolding resolve_notify_method
  desk-resolve_notify_method user_id blank desk = ground arith
  desk-resolve_notify_method user_id nowhere desk = refl
  desk-resolve_notify_method user_id email desk = refl
  desk-resolve_notify_method user_id telegram desk = refl
  desk-resolve_notify_method user_id other desk = refl

  first_message-Advances :
      (content : String) (t : Ticket) (desk start : Desk)
      → Advances start desk
      → Advances start (first_message trim d content t desk).1
  first_message-Advances content t desk start a =
      let m = new_message trim d Sender.user t.user_id d.ticket_id content in
      create-cases (λ (x : Result Ticket × Desk). Advances start x.1) (message_clash m)
        (with_message m) (pure t) desk (λ _. a) (λ _. a)

  open_ticket-Advances :
      (user_id subject content : String) (priority : Priority) (n : Notify) (desk : Desk)
      → Keyed desk
      → Advances desk (open_ticket trim d user_id subject content priority n desk).1
  unfolding open_ticket
  open_ticket-Advances user_id subject content priority n desk keyed =
      let P = λ (x : Result Ticket × Desk). Advances desk x.1 in
      let stay : Advances desk desk = (Moves-refl desk, keyed) in
      fail_if-cases P (trim subject == "") bad_parameter
        (open_checked trim d user_id subject content priority n) desk
        (λ _.
          fail_if-cases P (trim content == "") bad_parameter
            (resolve_notify_method user_id n >>= post_new trim d user_id subject content priority)
            desk
            (λ _.
              bind-cases P (resolve_notify_method user_id n)
                (post_new trim d user_id subject content priority) desk
                (λ notify x e.
                  let same = sym (ap (λ y. y.1) e) ∙ desk-resolve_notify_method user_id n desk in
                  let t = new_ticket trim d user_id (trim subject) priority notify in
                  subst (λ y. Advances desk (post_ticket trim d content t y).1) (sym same)
                    (create-cases P (ticket_clash t) (with_ticket t)
                      (first_message trim d content t) desk
                      (λ free.
                        first_message-Advances content t (with_ticket t desk) desk
                          (with_ticket-Advances t desk keyed free))
                      (λ _. stay)))
                (λ _ x e.
                  subst (Advances desk)
                    (sym (sym (ap (λ y. y.1) e) ∙ desk-resolve_notify_method user_id n desk)) stay))
            (λ _. stay))
        (λ _. stay)

-- The tickets of a desk that shows one are the same.
tickets-mark_read :
    (now : Time) (r : Option String) (id : String) (desk : Desk)
    → (mark_read now r id desk).tickets ≡ desk.tickets
unfolding mark_read
tickets-mark_read now r id desk = ground arith

mark_read-Advances :
    (now : Time) (r : Option String) (id : String) (desk : Desk)
    → Keyed desk
    → Advances desk (mark_read now r id desk)
mark_read-Advances now r id desk keyed =
    let same = sym (tickets-mark_read now r id desk) in
    subst
      (λ l.
        ((k : String) (t : Ticket)
          → ticket_by_id k desk ≡ some t
          → (t' : Ticket) × (first (λ (u : Ticket). u.id == k) l ≡ some t')
            × (validate_transition t.status t'.status ≡ true))
        × DistinctBy (λ (u : Ticket). u.id) l)
      same (Moves-refl desk, keyed)

get_for_user-Advances :
    (now : Time) (user_id ticket_id : String) (desk : Desk)
    → Keyed desk
    → Advances desk (get_for_user now user_id ticket_id desk).1
unfolding get_for_user
get_for_user-Advances now user_id ticket_id desk keyed =
    require-cases (λ (x : Result (Ticket × List Message) × Desk). Advances desk x.1)
      record_not_found (ticket_of user_id ticket_id) (show_ticket now (some user_id)) desk
      (λ t _. mark_read-Advances now (some user_id) t.id desk keyed) (λ _. (Moves-refl desk, keyed))

get_for_admin-Advances :
    (now : Time) (ticket_id : String) (desk : Desk)
    → Keyed desk
    → Advances desk (get_for_admin now ticket_id desk).1
unfolding get_for_admin
get_for_admin-Advances now ticket_id desk keyed =
    require-cases (λ (x : Result (Ticket × List Message) × Desk). Advances desk x.1)
      record_not_found (ticket_by_id ticket_id) (show_ticket now none) desk
      (λ t _. mark_read-Advances now none t.id desk keyed) (λ _. (Moves-refl desk, keyed))

module _ (trim : String → String) where
  -- A call on the tickets, which may also fail; each has its own clock and ids.
  pub data Step : Desk → Desk → Type 0 where
    post :
        (d : Draw) (user_id subject content : String) (priority : Priority) (n : Notify)
        (desk : Desk)
        → Step desk (open_ticket trim d user_id subject content priority n desk).1
    reply :
        (d : Draw) (user_id ticket_id content : String) (desk : Desk)
        → Step desk (add_user_message trim d user_id ticket_id content desk).1
    respond :
        (d : Draw) (admin_id ticket_id content : String) (desk : Desk)
        → Step desk (add_admin_message trim d admin_id ticket_id content desk).1
    change :
        (d : Draw) (ticket_id : String) (status : TicketStatus) (desk : Desk)
        → Step desk (set_status d ticket_id status desk).1
    close :
        (d : Draw) (user_id ticket_id : String) (desk : Desk)
        → Step desk (close_ticket d user_id ticket_id desk).1
    view :
        (now : Time) (user_id ticket_id : String) (desk : Desk)
        → Step desk (get_for_user now user_id ticket_id desk).1
    inspect :
        (now : Time) (ticket_id : String) (desk : Desk)
        → Step desk (get_for_admin now ticket_id desk).1

  -- Whatever users and admins do to the tickets, failures included, every ticket stays, in its status
  -- or in one that the status machine allows after it, and ids stay distinct, if they were.
  pub Step-Advances : {desk desk' : Desk} → Step desk desk' → Keyed desk → Advances desk desk'
  Step-Advances (post d v s c p n desk) h = open_ticket-Advances trim d v s c p n desk h
  Step-Advances (reply d v i c desk) h = add_user_message-Advances trim d v i c desk h
  Step-Advances (respond d v i c desk) h = add_admin_message-Advances trim d v i c desk h
  Step-Advances (change d i s desk) h = set_status-Advances trim d i s desk h
  Step-Advances (close d v i desk) h = close_ticket-Advances trim d v i desk h
  Step-Advances (view now v i desk) h = get_for_user-Advances now v i desk h
  Step-Advances (inspect now i desk) h = get_for_admin-Advances now i desk h
