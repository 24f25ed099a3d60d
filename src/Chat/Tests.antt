-- ===== src/Chat/Tests.antt =====
-- Concrete chats of two members.
use garba_partner.Chat.Send.Apart.{block_tx-stops_send}
use garba_partner.Chat.Send.Restricted.{apply_sanction-stops_send}
use garba_partner.Chat.Send.Once.{send-again}
use garba_partner.Chat.Reading.Totals.{unread_total-unread_count, all_between}
use garba_partner.Connections.Single.{OnePerPair}
use garba_partner.Chat.Reading.Read.{mark_read-read}
use garba_partner.Api.{match_not_active, ErrorCode, ok, err}
use garba_partner.Connections.Model.{MatchStatus, Match}
use garba_partner.Table.{update_where, sum_by, find_one}
use garba_partner.Members.Model.{spam, SanctionType, UserStatus, Sanction, Account}
use garba_partner.Chat.Reading.{
  is_listed, is_message_of, unread_count, unread_total, is_unread_in, mark_read,
}
use garba_partner.Chat.Model.{is_chat_of, is_sent, Message, Patterns, Db}
use garba_partner.Chat.Reading.Forward.{mark_read-NoMoreUnread, NoMoreUnread}
use garba_partner.Connections.Blocks.{block_tx}
use garba_partner.Members.Sanctions.{new_sanction, SanctionInput, Applied, apply_sanction}
use garba_partner.Chat.Send.{new_message_row, SendMessage, send_tx, send}
use garba_partner.Prelude.{◌==◌, ℕ, ◌≡◌, refl, true, false, none, some, [], ◌∷◌, arith, inr, filter}
use garba_partner.Connections.Model as Pairs
use garba_partner.Members.Model as Rows

abbrev partner : ℕ → Account
partner id = record {
  id = id;
  phone_hash = none;
  status = UserStatus.active;
  chat_restricted_at = none;
  last_active_at = none;
}

abbrev pair : Match
pair = record {
  id = 5;
  user_a_id = 1;
  user_b_id = 2;
  interest_id = 3;
  event_id = none;
  status = MatchStatus.active;
  ended_at = none;
  ended_by_user_id = none;
  ended_by_admin_id = none;
  last_message_at = none;
  user_a_last_read_at = none;
  user_b_last_read_at = none;
}

abbrev pairs : Pairs.Db
pairs = record {
  users = [];
  preferences = [];
  profiles = [];
  events = [];
  attendances = [];
  interests = [];
  matches = pair ∷ [];
  blocks = [];
  signals = [];
  next_id = 20;
}

abbrev rows : Rows.Db
rows = record {
  accounts = partner 1 ∷ partner 2 ∷ [];
  sessions = [];
  sanctions = [];
  connections = pairs;
  audit = [];
  notices = [];
  next_id = 20;
}

abbrev start : Db
start = record { members = rows; messages = []; pushes = []; hits = λ key. [] }

abbrev plain : Patterns
plain = record { looks_like_contact_details = λ t. false; looks_like_money_request = λ t. false }

abbrev hello : SendMessage
hello = record { client_message_id = 70; body = 104 ∷ 105 ∷ [] }

abbrev hello_row : Message
hello_row = new_message_row plain 20 1 5 hello 1000

abbrev greeted : Db
greeted = (send plain 1 5 hello 1000 start).1

hello_sent :
    (send plain 1 5 hello 1000 start).0 ≡ ok (record { message = hello_row; created = true })
unfolding send find_one update_where sum_by
hello_sent = refl

send-again_example :
    send plain 1 5 (record hello { body = 63 ∷ [] }) 2000 greeted
    ≡ (ok (record { message = hello_row; created = false }), greeted)
send-again_example =
    send-again plain 1 5 hello 1000 (record { message = hello_row; created = true }) start
      hello_sent (63 ∷ []) 2000

pairs-OnePerPair : OnePerPair pairs
unfolding sum_by
pairs-OnePerPair = record { one_pending = λ a b. omega arith; one_active = λ p. ground arith }

abbrev apart_pair : Match
apart_pair = record pair {
  status = MatchStatus.blocked;
  ended_at = some 1500;
  ended_by_user_id = some 2;
}

still_there :
    find_one (is_chat_of 1 5) (block_tx 2 1 1500 greeted.members.connections).1.matches
    ≡ some (record apart_pair { last_message_at = some 1000 })
unfolding block_tx find_one update_where sum_by send
still_there = refl

greeted-OnePerPair : OnePerPair greeted.members.connections
unfolding sum_by send find_one update_where
greeted-OnePerPair = record { one_pending = λ a b. omega arith; one_active = λ p. ground arith }

abbrev after_block : Db
after_block = record greeted {
  members = record (greeted.members) {
    connections = (block_tx 2 1 1500 greeted.members.connections).1;
  };
}

block_tx-stops_send_example :
    send_tx plain 1 5 (record hello { client_message_id = 71 }) 1600 after_block
    ≡ (err match_not_active, after_block)
block_tx-stops_send_example =
    block_tx-stops_send 2 1 1500 greeted greeted-OnePerPair plain 1 5
      (record apart_pair { last_message_at = some 1000 }) (record hello { client_message_id = 71 })
      1600 still_there (inr (refl, refl))

abbrev restriction : SanctionInput
restriction = record {
  user_id = 1;
  type = SanctionType.chat_restriction;
  reason_code = spam;
  note = "links";
  report_id = none;
  duration_days = none;
  reuse_active = false;
}

abbrev restriction_row : Sanction
restriction_row = new_sanction 20 3 restriction 500

abbrev restricted : Applied
restricted = record {
  sanction = some restriction_row;
  created = true;
  effects = record {
    user_id = 1;
    disconnected = false;
    ended_matches = [];
    notify = some Rows.SafetyNotificationKind.chat_restricted;
  };
}

restricted_now : (apply_sanction 3 restriction 500 start.members).0 ≡ ok restricted
unfolding apply_sanction find_one
restricted_now = refl

unused : find_one (is_sent 1 70) start.messages ≡ none
unfolding find_one
unused = refl

abbrev under_restriction : Db
under_restriction = record start { members = (apply_sanction 3 restriction 500 start.members).1 }

apply_sanction-stops_send_example :
    send plain 1 5 hello 1000 under_restriction ≡ (err ErrorCode.chat_restricted, under_restriction)
apply_sanction-stops_send_example =
    apply_sanction-stops_send 3 restriction 500 start restricted restricted_now refl refl plain 5
      hello 1000 unused

-- 2 reads the greeting
hello_read : (mark_read 2 5 20 greeted).0 ≡ ok 1000
unfolding mark_read send find_one update_where sum_by
hello_read = refl

greeted_pair :
    find_one (λ n. n.id == 5) greeted.members.connections.matches
    ≡ some (record pair { last_message_at = some 1000 })
unfolding send find_one update_where sum_by
greeted_pair = refl

mark_read-NoMoreUnread_example :
    NoMoreUnread 2 5
      (record pair { last_message_at = some 1000 })
      greeted
      (mark_read 2 5 20 greeted).1
mark_read-NoMoreUnread_example =
    mark_read-NoMoreUnread 2 5 20 greeted 1000 hello_read 2 5
      (record pair { last_message_at = some 1000 }) greeted_pair

abbrev read_pair : Match
read_pair = record pair { last_message_at = some 1000; user_b_last_read_at = some 1000 }

greeting_found : find_one (is_message_of 20 5) greeted.messages ≡ some hello_row
unfolding send find_one update_where sum_by
greeting_found = refl

read_row :
    find_one (is_chat_of 2 5) (mark_read 2 5 20 greeted).1.members.connections.matches
    ≡ some read_pair
unfolding mark_read send find_one update_where sum_by
read_row = refl

mark_read-read_example : is_unread_in 2 read_pair hello_row ≡ false
mark_read-read_example =
    mark_read-read 2 5 20 greeted 1000 hello_read hello_row read_pair hello_row greeting_found
      read_row (omega arith)

greeted_between : all_between greeted.members.connections.matches greeted.messages ≡ true
unfolding send find_one update_where sum_by
greeted_between = refl

unread_total-unread_count_example :
    unread_total 2 greeted
    ≡ sum_by
        (λ m. unread_count 2 m greeted)
        (filter (is_listed 2 greeted) greeted.members.connections.matches)
unread_total-unread_count_example = unread_total-unread_count 2 greeted greeted_between

one_unread : unread_total 2 greeted ≡ 1
unfolding unread_total send find_one update_where sum_by
one_unread = refl
