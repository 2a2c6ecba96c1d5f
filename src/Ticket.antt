-- ===== src/Ticket.antt =====
-- internal/service/ticket.go and internal/model/ticket.go: support tickets, their status machine and
-- the marks of what was read. Notifications are not modelled.
pub mod Machine
pub mod Replies
pub mod Steps
pub mod Unread
use vgate_manager.Prelude.{
  ℕ, String, Bool, true, false, not, ◌&&◌, ◌||◌, Option, none, some, List, [], ◌∷◌, ◌==◌, ltb_ℤ,
  eqb_ℤ, if◌then◌else◌,
}
use vgate_manager.Prelude.Int.{ℤ, pos, negsuc}
use vgate_manager.Db.Table.{first, find_all, insert, update, count}
use vgate_manager.Db.Action.{
  Error, Result, ok, err, Action, record_not_found, bad_parameter, bad_transition, pure, fail, gets,
  lift, require, create, ◌>>=◌, ◌>>◌, fail_if, modify,
}
use vgate_manager.Model.Time.{Time, after}

-- `TicketStatus*`, `TicketPriority*`, `TicketSender*` and `TicketNotify*`; any other text is `other`
pub data TicketStatus : Type 0 where
  opened in_progress resolved closed other : TicketStatus

pub data Priority : Type 0 where
  low normal high urgent other : Priority

pub data Sender : Type 0 where
  user admin : Sender

pub data Notify : Type 0 where
  blank nowhere email telegram other : Notify

pub record Ticket : Type 0 where
  pub id : String
  pub user_id : String
  pub subject : String
  pub priority : Priority
  pub status : TicketStatus
  pub notify_method : Notify
  pub last_sender : Sender
  pub updated_at : Time

pub record Message : Type 0 where
  pub id : String
  pub ticket_id : String
  pub sender : Sender
  pub sender_id : String
  pub content : String

-- `TicketReadState`; the recipient is a user, or all admins
pub record ReadState : Type 0 where
  pub ticket_id : String
  pub recipient : Option String
  pub last_read_at : Time

-- The columns of a user that tickets read.
pub record Owner : Type 0 where
  pub id : String
  pub telegram_id : ℤ

pub record Desk : Type 0 where
  pub owners : List Owner
  pub tickets : List Ticket
  pub messages : List Message
  pub read_states : List ReadState

abbrev pub Tk : Type 0 → Type 0
Tk A = Action Desk A

abbrev pub normalize_priority : Priority → Priority
normalize_priority other = Priority.normal
normalize_priority p = p

abbrev pub same_status : TicketStatus → TicketStatus → Bool
same_status opened opened = true
same_status in_progress in_progress = true
same_status resolved resolved = true
same_status closed closed = true
same_status other other = true
same_status _ _ = false

abbrev pub valid_status : TicketStatus → Bool
valid_status other = false
valid_status _ = true

-- The table of `validateTransition`.
abbrev pub allowed : TicketStatus → List TicketStatus
allowed opened = TicketStatus.in_progress ∷ TicketStatus.resolved ∷ TicketStatus.closed ∷ []
allowed in_progress = TicketStatus.resolved ∷ TicketStatus.closed ∷ []
allowed resolved = TicketStatus.in_progress ∷ TicketStatus.closed ∷ []
allowed closed = TicketStatus.in_progress ∷ []
allowed other = []

abbrev pub is_listed : TicketStatus → List TicketStatus → Bool
is_listed to [] = false
is_listed to (next ∷ l) = if same_status next to then true else is_listed to l

unfoldable pub validate_transition : TicketStatus → TicketStatus → Bool
validate_transition from to = same_status from to || is_listed to (allowed from)

-- `resolveNotifyMethod`
unfoldable pub resolve_notify_method : String → Notify → Tk Notify
resolve_notify_method user_id blank = do
  u ← require record_not_found (λ desk. first (λ (o : Owner). o.id == user_id) desk.owners)
  pure (if eqb_ℤ u.telegram_id (pos 0) then Notify.nowhere else Notify.telegram)
resolve_notify_method user_id other = fail bad_parameter
resolve_notify_method user_id method = pure method

abbrev pub ticket_by_id : String → Desk → Option Ticket
ticket_by_id id desk = first (λ (t : Ticket). t.id == id) desk.tickets

-- `id = ? AND user_id = ?`
abbrev pub ticket_of : String → String → Desk → Option Ticket
ticket_of user_id id desk = first (λ (t : Ticket). t.id == id && t.user_id == user_id) desk.tickets

-- What a call brings: its clock, and the ids that it draws.
pub record Draw : Type 0 where
  pub now : Time
  pub ticket_id : String
  pub message_id : String

-- An update of a ticket, named by its key, which also stamps `updated_at`.
abbrev pub write_ticket : Draw → String → (Ticket → Ticket) → Desk → Desk
write_ticket d id g desk = record desk {
  tickets =
      update (λ (t : Ticket). t.id == id) (λ t. record (g t) { updated_at = d.now }) desk.tickets;
}

abbrev pub with_status : TicketStatus → Ticket → Ticket
with_status s t = record t { status = s }

abbrev pub with_sender : Sender → Ticket → Ticket
with_sender s t = record t { last_sender = s }

-- The key of a new row is taken.
abbrev pub message_clash : Message → Desk → Bool
message_clash m desk = elim (first (λ (n : Message). n.id == m.id) desk.messages) [
  | some _ ↦ true
  | none ↦ false
]

abbrev pub ticket_clash : Ticket → Desk → Bool
ticket_clash t desk = elim (first (λ (u : Ticket). u.id == t.id) desk.tickets) [
  | some _ ↦ true
  | none ↦ false
]

abbrev pub with_message : Message → Desk → Desk
with_message m desk = record desk { messages = insert m desk.messages }

abbrev pub with_ticket : Ticket → Desk → Desk
with_ticket t desk = record desk { tickets = insert t desk.tickets }

-- `tx.Create(msg)`
abbrev pub create_message : Message → Tk Unit
create_message m = create (message_clash m) (with_message m)

abbrev pub create_ticket : Ticket → Tk Unit
create_ticket t = create (ticket_clash t) (with_ticket t)

-- The status that a message leaves behind.
abbrev pub after_user : TicketStatus → TicketStatus
after_user resolved = TicketStatus.in_progress
after_user closed = TicketStatus.in_progress
after_user s = s

abbrev pub after_admin : TicketStatus → TicketStatus
after_admin opened = TicketStatus.in_progress
after_admin resolved = TicketStatus.in_progress
after_admin closed = TicketStatus.in_progress
after_admin s = s

-- `trim` is `strings.TrimSpace`
module _ (trim : String → String) (d : Draw) where
  abbrev pub new_ticket : String → String → Priority → Notify → Ticket
  new_ticket user_id subject priority notify = record {
    id = d.ticket_id;
    user_id = user_id;
    subject = subject;
    priority = normalize_priority priority;
    status = TicketStatus.opened;
    notify_method = notify;
    last_sender = Sender.user;
    updated_at = d.now;
  }

  abbrev pub new_message : Sender → String → String → String → Message
  new_message sender sender_id ticket_id content = record {
    id = d.message_id;
    ticket_id = ticket_id;
    sender = sender;
    sender_id = sender_id;
    content = trim content;
  }

  -- `tx.Create(t)`, and the first message.
  abbrev pub first_message : String → Ticket → Tk Ticket
  first_message content t = do
    create_message (new_message Sender.user t.user_id d.ticket_id content)
    pure t

  abbrev pub post_ticket : String → Ticket → Tk Ticket
  post_ticket content t = do create_ticket t; first_message content t

  abbrev pub post_new : String → String → String → Priority → Notify → Tk Ticket
  post_new user_id subject content priority notify =
      post_ticket content (new_ticket user_id (trim subject) priority notify)

  abbrev pub open_checked : String → String → String → Priority → Notify → Tk Ticket
  open_checked user_id subject content priority notify_method = do
    fail_if (trim content == "") bad_parameter
    resolve_notify_method user_id notify_method >>= post_new user_id subject content priority

  unfoldable pub open_ticket : String → String → String → Priority → Notify → Tk Ticket
  open_ticket user_id subject content priority notify_method = do
    fail_if (trim subject == "") bad_parameter
    open_checked user_id subject content priority notify_method

  -- `touchActivity`, and the status update that is made where the status changes.
  abbrev pub finish_reply : Sender → TicketStatus → Ticket → Tk Ticket
  finish_reply sender next t = do
    modify (write_ticket d t.id (with_sender sender))
    modify λ desk.
        if same_status t.status next then desk else write_ticket d t.id (with_status next) desk
    pure (record t { status = next; last_sender = sender; updated_at = d.now })

  abbrev pub append_message : Sender → String → String → TicketStatus → Ticket → Tk Ticket
  append_message sender sender_id content next t = do
    create_message (new_message sender sender_id t.id content)
    finish_reply sender next t

  abbrev pub reply_of_user : String → String → Ticket → Tk Ticket
  reply_of_user user_id content t =
      append_message Sender.user user_id content (after_user t.status) t

  abbrev pub reply_of_admin : String → String → Ticket → Tk Ticket
  reply_of_admin admin_id content t =
      append_message Sender.admin admin_id content (after_admin t.status) t

  unfoldable pub add_user_message : String → String → String → Tk Ticket
  add_user_message user_id ticket_id content = do
    fail_if (trim content == "") bad_parameter
    require record_not_found (ticket_of user_id ticket_id) >>= reply_of_user user_id content

  unfoldable pub add_admin_message : String → String → String → Tk Ticket
  add_admin_message admin_id ticket_id content = do
    fail_if (trim content == "") bad_parameter
    require record_not_found (ticket_by_id ticket_id) >>= reply_of_admin admin_id content

abbrev pub change_status : Draw → TicketStatus → Ticket → Tk Ticket
change_status d status t = do
  fail_if (not (validate_transition t.status status)) bad_transition
  modify (write_ticket d t.id (with_status status))
  pure (record t { status = status; updated_at = d.now })

unfoldable pub set_status : Draw → String → TicketStatus → Tk Ticket
set_status d ticket_id status = do
  fail_if (not (valid_status status)) bad_parameter
  require record_not_found (ticket_by_id ticket_id) >>= change_status d status

-- `Close`, of a ticket that was read
abbrev pub close_read : Draw → Ticket → Tk Ticket
close_read d t desk = elim (same_status t.status closed) [
  | true ↦ (ok t, desk)
  | false ↦ change_status d closed t desk
]

unfoldable pub close_ticket : Draw → String → String → Tk Ticket
close_ticket d user_id ticket_id =
    require record_not_found (ticket_of user_id ticket_id) >>= close_read d

-- The mark of a recipient on a ticket.
abbrev pub is_mark : Option String → String → ReadState → Bool
is_mark none ticket_id r =
    r.ticket_id == ticket_id && (elim r.recipient [ none ↦ true | some _ ↦ false ])
is_mark (some user_id) ticket_id r =
    r.ticket_id == ticket_id && (elim r.recipient [ none ↦ false | some v ↦ v == user_id ])

abbrev pub new_mark : Time → Option String → String → ReadState
new_mark now recipient ticket_id = record {
  ticket_id = ticket_id;
  recipient = recipient;
  last_read_at = now;
}

-- `markRead`
unfoldable pub mark_read : Time → Option String → String → Desk → Desk
mark_read now recipient ticket_id desk =
    elim (first (is_mark recipient ticket_id) desk.read_states) [
      | none ↦ record desk {
        read_states = insert (new_mark now recipient ticket_id) desk.read_states;
      }
      | some _ ↦ record desk {
        read_states =
            update (is_mark recipient ticket_id) (λ r. record r { last_read_at = now })
              desk.read_states;
      }
    ]

-- What `GetForUser` and `GetForAdmin` do with a ticket that was read.
abbrev pub show_ticket : Time → Option String → Ticket → Tk (Ticket × List Message)
show_ticket now recipient t = do
  messages ← gets (λ desk. find_all (λ (m : Message). m.ticket_id == t.id) desk.messages)
  modify (mark_read now recipient t.id)
  pure (t, messages)

unfoldable pub get_for_user : Time → String → String → Tk (Ticket × List Message)
get_for_user now user_id ticket_id =
    require record_not_found (ticket_of user_id ticket_id) >>= show_ticket now (some user_id)

unfoldable pub get_for_admin : Time → String → Tk (Ticket × List Message)
get_for_admin now ticket_id =
    require record_not_found (ticket_by_id ticket_id) >>= show_ticket now none

-- `time.Time{}`, in nanoseconds from the start of 1970
abbrev pub zero_time : Time
zero_time = negsuc 62135596799999999999

-- `COALESCE(r.last_read_at, ...)` of the joined row.
abbrev pub last_read : Option String → String → Desk → Time
last_read recipient ticket_id desk = elim (first (is_mark recipient ticket_id) desk.read_states) [
  | none ↦ zero_time
  | some r ↦ r.last_read_at
]

abbrev pub is_from_admin : Sender → Bool
is_from_admin admin = true
is_from_admin user = false

unfoldable pub is_unread_for_user : String → Desk → Ticket → Bool
is_unread_for_user user_id desk t =
    t.user_id == user_id
    && is_from_admin t.last_sender
    && after t.updated_at (last_read (some user_id) t.id desk)

unfoldable pub is_unread_for_admin : Desk → Ticket → Bool
is_unread_for_admin desk t =
    not (is_from_admin t.last_sender) && after t.updated_at (last_read none t.id desk)

-- `UnreadCountForUser` and `UnreadCountForAdmin`
unfoldable pub unread_count_for_user : String → Desk → ℕ
unread_count_for_user user_id desk = count (is_unread_for_user user_id desk) desk.tickets

unfoldable pub unread_count_for_admin : Desk → ℕ
unread_count_for_admin desk = count (is_unread_for_admin desk) desk.tickets
