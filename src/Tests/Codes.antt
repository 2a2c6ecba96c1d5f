-- ===== src/Tests/Codes.antt =====
-- Examples: redemption codes, invite codes and tickets.
use vgate_manager.Prelude.{String, ◌≡◌, refl, none, some, [], ◌∷◌, arith, ◌+◌}
use vgate_manager.Prelude.Int.{pos, ◌+ℤ◌, ◌≤ℤ◌, Fits, add64, sub64, wrap, ◌-ℤ◌}
use vgate_manager.Prelude.FloatModel.{integers}
use vgate_manager.Db.Table.{first, insert, update, count}
use vgate_manager.Db.Action.{ok}
use vgate_manager.Model.Code.{
  RedemptionCode, RedemptionRecord, RedeemType, InviteCode, exhausted_redemption, exhausted_invite,
}
use vgate_manager.Model.Database.{Database}
use vgate_manager.Order.Effect.{default_base}
use vgate_manager.Redemption.{redeem, redeem_check, redeem_commit, apply_benefit, code_by_text}
use vgate_manager.Redemption.Once.{Refused, redeem_twice, redeem-used_count}
use vgate_manager.Redemption.Race.{of_code, redeem_commit_race}
use vgate_manager.Invite.{
  create_for_user, effective_quota, sum_of, invite_by_text, validate, consume_invite,
  validate_and_consume,
}
use vgate_manager.Invite.Quota.{Issued, create_for_user-Issued}
use vgate_manager.Invite.Uses.{Used, validate_and_consume-Used, consume_invite_race}
use vgate_manager.Ticket.{
  TicketStatus, Desk, Draw, Priority, Notify, Sender, after_user, after_admin,
}
use vgate_manager.Ticket.{
  ticket_by_id, ticket_of, add_user_message, add_admin_message, close_ticket,
}
use vgate_manager.Ticket.Replies.{Keyed, Answers, reply-Answers}
use vgate_manager.Ticket.{get_for_user}
use vgate_manager.Ticket.Unread.{Viewed, get_for_user-Viewed}
use vgate_manager.Ticket.Steps.{Advances, close, Step-Advances}
use vgate_manager.Plan.{update_plan}
use vgate_manager.Plan.Update.{Updated, update_plan-Updated}
use vgate_manager.Tests.{alice, pro, shop, env}

abbrev gift : RedemptionCode
gift = record {
  id = "code-1";
  code = "GIFT";
  type = RedeemType.duration;
  max_uses = pos 3;
  used_count = pos 0;
  expires_at = none;
  quota_bytes = pos 0;
  duration_days = pos 7;
  plan_id = "";
}

gift_found : code_by_text "GIFT" shop ≡ some gift
unfolding first
gift_found = refl

abbrev gift_record : RedemptionRecord
gift_record = record {
  id = "rec-1";
  code_id = "code-1";
  user_id = "alice";
  type = RedeemType.duration;
  redeemed_at = pos 0;
}

abbrev after_gift : Database
after_gift = (redeem integers env "rec-1" "alice" "GIFT" shop).1

gift_redeemed : redeem integers env "rec-1" "alice" "GIFT" shop ≡ (ok gift_record, after_gift)
unfolding redeem redeem_check redeem_commit apply_benefit first insert update count default_base
    exhausted_redemption sub64 wrap add64 ◌+ℤ◌ ◌-ℤ◌
gift_redeemed = refl

gift_valid :
    (c : RedemptionCode)
    → code_by_text "GIFT" shop ≡ some c
    → (pos 0 ≤ℤ c.used_count) × (pos 0 ≤ℤ c.max_uses) × Fits c.used_count × Fits c.max_uses
unfolding first
gift_valid c h = ground arith

redeem-used_count_example :
    (c : RedemptionCode) × (code_by_text "GIFT" shop ≡ some c)
    × (code_by_text "GIFT" after_gift ≡ some (record c { used_count = c.used_count +ℤ pos 1 }))
    × (c.used_count +ℤ pos 1 ≤ℤ c.max_uses)
redeem-used_count_example =
    redeem-used_count integers env "rec-1" "alice" "GIFT" shop gift_valid gift_redeemed

redeem_twice_example : Refused after_gift (redeem integers env "rec-2" "alice" "GIFT" after_gift)
redeem_twice_example =
    redeem_twice integers env env "rec-1" "rec-2" "alice" "GIFT" shop gift_redeemed

-- A shop with a second user.
abbrev pair : Database
pair = record shop { users = alice ∷ record alice { id = "bob" } ∷ [] }

abbrev last_gift : RedemptionCode
last_gift = record gift { max_uses = pos 1 }

abbrev pair_one : Database
pair_one = record pair { redemption_codes = last_gift ∷ [] }

last_found : code_by_text "GIFT" pair_one ≡ some last_gift
unfolding first
last_found = refl

abbrev once : Database
once = (redeem_commit integers env "rec-1" "alice" (last_gift, none) pair_one).1

abbrev both : Database
both = (redeem_commit integers env "rec-2" "bob" (last_gift, none) once).1

abbrev bob_record : RedemptionRecord
bob_record = record gift_record { id = "rec-2"; user_id = "bob" }

first_commit :
    redeem_commit integers env "rec-1" "alice" (last_gift, none) pair_one ≡ (ok gift_record, once)
unfolding redeem_commit apply_benefit first insert update count default_base
first_commit = refl

next_commit :
    redeem_commit integers env "rec-2" "bob" (last_gift, none) once ≡ (ok bob_record, both)
unfolding redeem_commit apply_benefit first insert update count default_base
next_commit = refl

redeem_commit_race_example :
    (count (of_code last_gift) both.redemption_records
      ≡ count (of_code last_gift) pair_one.redemption_records + 2)
    × (code_by_text "GIFT" both ≡ some (record last_gift { used_count = add64 (pos 0) (pos 1) }))
redeem_commit_race_example =
    redeem_commit_race integers env env "rec-1" "rec-2" "alice" "bob" "GIFT" last_gift none none
      pair_one last_found first_commit next_commit

abbrev friend : InviteCode
friend = record {
  id = "invite-1";
  code = "FRIEND";
  created_by_user_id = some "alice";
  max_uses = pos 2;
  used_count = pos 0;
  expires_at = none;
}

friend_found : invite_by_text "FRIEND" shop ≡ some friend
unfolding first
friend_found = refl

abbrev raised_once : InviteCode
raised_once = record friend { used_count = add64 (pos 0) (pos 1) }

consume_invite_race_example :
    ((consume_invite friend shop).0 ≡ ok raised_once)
    × ((consume_invite friend (consume_invite friend shop).1).0 ≡ ok raised_once)
    × (invite_by_text "FRIEND" (consume_invite friend (consume_invite friend shop).1).1
        ≡ some raised_once)
consume_invite_race_example = consume_invite_race "FRIEND" friend shop friend_found

abbrev used : Database
used = (validate_and_consume (pos 0) "FRIEND" shop).1

friend-used :
    validate_and_consume (pos 0) "FRIEND" shop
    ≡ (ok (record friend { used_count = add64 (pos 0) (pos 1) }), used)
unfolding validate_and_consume validate consume_invite first update count exhausted_invite sub64
    wrap ◌-ℤ◌
friend-used = refl

friend_valid :
    (c : InviteCode)
    → invite_by_text "FRIEND" shop ≡ some c
    → (pos 0 ≤ℤ c.used_count) × (pos 0 ≤ℤ c.max_uses) × Fits c.used_count × Fits c.max_uses
unfolding first
friend_valid c h = ground arith

validate_and_consume-Used_example :
    Used "FRIEND" shop (record friend { used_count = add64 (pos 0) (pos 1) }) used
validate_and_consume-Used_example =
    validate_and_consume-Used (pos 0) "FRIEND" shop friend_valid friend-used

abbrev minted : Database
minted = (create_for_user (pos 3) "invite-2" "NEW" "alice" (pos 3) none shop).1

abbrev new_code : InviteCode
new_code = record friend { id = "invite-2"; code = "NEW"; max_uses = pos 3 }

mint_within :
    create_for_user (pos 3) "invite-2" "NEW" "alice" (pos 3) none shop ≡ (ok new_code, minted)
unfolding create_for_user effective_quota sum_of first insert add64 wrap ◌+ℤ◌
mint_within = refl

mint-Fits : Fits (sum_of (λ (c : InviteCode). c.max_uses) "alice" shop.invite_codes +ℤ pos 3)
unfolding sum_of ◌+ℤ◌
mint-Fits = (omega arith, omega arith)

create_for_user-Issued_example : Issued (pos 3) "alice" (pos 3) shop minted
create_for_user-Issued_example =
    create_for_user-Issued (pos 3) "invite-2" "NEW" "alice" (pos 3) none shop mint-Fits mint_within

-- Of a quota of 5, of which 2 are issued, a request for the greatest int64 is granted.
abbrev unbounded : Database
unbounded = (create_for_user (pos 3) "invite-2" "NEW" "alice" (pos 9223372036854775807) none shop).1

overflow_is_granted :
    create_for_user (pos 3) "invite-2" "NEW" "alice" (pos 9223372036854775807) none shop
    ≡ (ok (record new_code { max_uses = pos 9223372036854775807 }), unbounded)
unfolding create_for_user effective_quota sum_of first insert add64 wrap ◌+ℤ◌
overflow_is_granted = refl

abbrev desk : Desk
desk = record {
  owners = [];
  tickets =
      record {
        id = "t-1";
        user_id = "alice";
        subject = "s";
        priority = Priority.normal;
        status = TicketStatus.resolved;
        notify_method = Notify.nowhere;
        last_sender = Sender.admin;
        updated_at = pos 0;
      }
      ∷ [];
  messages = [];
  read_states = [];
}

abbrev draw : Draw
draw = record { now = pos 5; ticket_id = "t-2"; message_id = "m-1" }

desk-Keyed : Keyed desk
desk-Keyed = (tt, tt)

abbrev plain : String → String
plain t = t

reply-Answers_example :
    Answers plain draw
      (ticket_of "alice" "t-1")
      Sender.user
      after_user
      "alice"
      "again"
      desk
      (add_user_message plain draw "alice" "t-1" "again" desk)
    × Answers plain draw
        (ticket_by_id "t-1")
        Sender.admin
        after_admin
        "alice"
        "again"
        desk
        (add_admin_message plain draw "alice" "t-1" "again" desk)
reply-Answers_example = reply-Answers plain draw "alice" "t-1" "again" desk desk-Keyed

get_for_user-Viewed_example :
    Viewed (pos 7) "alice" "t-1" desk (get_for_user (pos 7) "alice" "t-1" desk)
get_for_user-Viewed_example = get_for_user-Viewed (pos 7) "alice" "t-1" desk

Step-Advances_example : Advances desk (close_ticket draw "alice" "t-1" desk).1
Step-Advances_example = Step-Advances plain (close draw "alice" "t-1" desk) desk-Keyed

update_plan-Updated_example :
    ((update_plan pro shop).0 ≡ ok tt) × Updated pro shop (update_plan pro shop).1
update_plan-Updated_example = update_plan-Updated pro shop
