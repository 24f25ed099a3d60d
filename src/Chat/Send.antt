-- ===== src/Chat/Send.antt =====
-- `send` (apps/api/src/modules/chat/chat.service.ts). The clock is read once. The transaction,
-- `send_tx`, stands alone, so that it can be asked of any database, whatever committed between
-- the first check and the lock on the pair.
pub mod Restricted
pub mod Apart
pub mod Once
use garba_partner.Api.{rate_limited, conflict, err, transaction, and_then, ok, Handler, Result}
use garba_partner.Table.{find_one, update_where}
use garba_partner.Limiter.{retry_after_seconds, take_hit}
use garba_partner.Chat.Model.{scanned, is_sent, new_message, message_new, Patterns, Message, Db}
use garba_partner.Chat.Rules.{allowed, Allowed, Chat, assert_can_send, authorize}
use garba_partner.Connections.Model.{Match}
use garba_partner.Prelude.{
  List, ℕ, String, Bool, true, false, not, ◌&&◌, ◌||◌, Option, none, some, ltb, ◌==◌, if◌then◌else◌,
  is_some, ◌∷◌, [], ◌++◌, ◌+◌, ◌*◌,
}

abbrev pub messages_per_minute : ℕ
messages_per_minute = 30

pub record SendMessage : Type 0 where
  pub client_message_id : ℕ
  pub body : List ℕ

pub record Sent : Type 0 where
  pub message : Message
  pub created : Bool

abbrev pub new_message_row : Patterns → ℕ → ℕ → ℕ → SendMessage → ℕ → Message
new_message_row patterns id user_id match_id input now = record {
  id = id;
  match_id = match_id;
  sender_id = user_id;
  client_message_id = input.client_message_id;
  body = input.body;
  contains_contact_info = patterns.looks_like_contact_details input.body;
  contains_money_request = patterns.looks_like_money_request input.body;
  created_at = now;
}

with_last_message : ℕ → Match → Match
with_last_message at m = record m { last_message_at = some at }

-- The new row, and `match.update({ lastMessageAt })`.
store : Message → Db → Db
unfolding with_last_message
store row db =
    let members = db.members in
    let connections = members.connections in
    record db {
      messages = db.messages ++ row ∷ [];
      members = record members {
        connections = record connections {
          matches =
              update_where (λ m. m.id == row.match_id) (with_last_message row.created_at)
                connections.matches;
        };
        next_id = members.next_id + 1;
      };
    }

-- A message with this id that is there is the answer, if it is of this chat.
reuse_message : Message → ℕ → Result Sent
reuse_message row match_id =
    if not (row.match_id == match_id)
    then err conflict
    else ok (record { message = row; created = false })

-- `findOrCreate` and what follows it.
find_or_store : Option Message → Patterns → ℕ → ℕ → SendMessage → ℕ → Handler Db Sent
unfolding store reuse_message
find_or_store (some row) patterns user_id match_id input now db = (reuse_message row match_id, db)
find_or_store none patterns user_id match_id input now db =
    let row = new_message_row patterns db.members.next_id user_id match_id input now in
    (ok (record { message = row; created = true }), store row db)

store_in : Chat → Patterns → ℕ → ℕ → SendMessage → ℕ → Handler Db Sent
unfolding find_or_store
store_in chat patterns user_id match_id input now db =
    find_or_store (find_one (is_sent user_id input.client_message_id) db.messages) patterns user_id
      match_id input now db

unfoldable pub send_tx : Patterns → ℕ → ℕ → SendMessage → ℕ → Handler Db Sent
unfolding store_in authorize assert_can_send
send_tx patterns user_id match_id input now = transaction (λ db.
    and_then (authorize user_id match_id db, db)
      (λ chat db'.
        and_then (assert_can_send user_id db', db')
          (λ _ db''. store_in chat patterns user_id match_id input now db'')))

-- One of the sender's turns, or the error, for which the limiter is asked when to come back.
unfoldable pub take_turn : ℕ → ℕ → Handler Db Allowed
unfolding take_hit retry_after_seconds
take_turn user_id now db =
    let (taken, hits) = take_hit messages_per_minute (60 * 1000) now now user_id db.hits in
    let (seconds, asked) = retry_after_seconds (60 * 1000) now now user_id hits in
    if taken
    then (ok allowed, record db { hits = hits })
    else (err rate_limited, record db { hits = asked })

deliver : ℕ → ℕ → Sent → Db → Db
deliver user_id partner_id sent db =
    if sent.created
    then record db {
      pushes =
          db.pushes
          ++ message_new partner_id sent.message.id
            ∷ message_new user_id sent.message.id
            ∷ new_message partner_id user_id sent.message.match_id
            ∷ scanned sent.message.id
            ∷ [];
    }
    else db

send_new : Patterns → ℕ → ℕ → SendMessage → ℕ → Handler Db Sent
unfolding assert_can_send take_turn authorize send_tx deliver
send_new patterns user_id match_id input now db =
    and_then (assert_can_send user_id db, db)
      (λ _ db'. and_then (take_turn user_id now db') (λ _ asked.
        and_then (authorize user_id match_id asked, asked)
          (λ first turn.
            and_then (send_tx patterns user_id match_id input now turn)
              (λ sent stored. (ok sent, deliver user_id first.partner_id sent stored)))))

send_or_retry : Option Message → Patterns → ℕ → ℕ → SendMessage → ℕ → Handler Db Sent
unfolding reuse_message send_new
send_or_retry (some row) patterns user_id match_id input now db = (reuse_message row match_id, db)
send_or_retry none patterns user_id match_id input now db =
    send_new patterns user_id match_id input now db

unfoldable pub send : Patterns → ℕ → ℕ → SendMessage → ℕ → Handler Db Sent
unfolding send_or_retry
send patterns user_id match_id input now db =
    send_or_retry (find_one (is_sent user_id input.client_message_id) db.messages) patterns user_id
      match_id input now db
