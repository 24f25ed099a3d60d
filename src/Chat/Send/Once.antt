-- ===== src/Chat/Send/Once.antt =====
-- A message sent again (apps/api/src/modules/chat/chat.service.ts).
use garba_partner.Chat.Rules.{authorize, assert_can_send}
use garba_partner.Limiter.{take_hit}
use garba_partner.Table.{find_one-append, find_one}
use garba_partner.Api.{transaction-committed, and_then-Continued, and_then, Handler, ok}
use garba_partner.Chat.Model.{is_sent, Patterns, Db, Message}
use garba_partner.Chat.Send.{
  deliver, messages_per_minute, send_or_retry, send_new, send, take_turn, new_message_row, store,
  Sent, store_in, send_tx, SendMessage, reuse_message, find_or_store,
}
use garba_partner.Prelude.{
  List, ◌*◌, ℕ, ◌≡◌, refl, true, false, Option, none, some, ◌==◌, ==_refl, Bool-cases, Option-cases,
  inl, inr,
}

-- The message of an answer is the one stored under its sender and its id, in this chat.
pub record Stored (user_id match_id : ℕ) (input : SendMessage) (sent : Sent) (db : Db)
    : Type 0 where
  pub found : find_one (is_sent user_id input.client_message_id) db.messages ≡ some sent.message
  pub here : (sent.message.match_id == match_id) ≡ true

reuse_message-Stored :
    (row : Message) (user_id match_id : ℕ) (input : SendMessage) (sent : Sent) (db : Db)
    → find_one (is_sent user_id input.client_message_id) db.messages ≡ some row
    → reuse_message row match_id ≡ ok sent
    → Stored user_id match_id input sent db
unfolding reuse_message
reuse_message-Stored row user_id match_id input sent db found h =
    elim (Bool-cases (row.match_id == match_id)) [
      | inr e ↦ absurd (let h' = rw e at h in cc)
      | inl e ↦
          let same : ok (record { message = row; created = false }) ≡ ok sent = rw e at h in
          let message : row ≡ sent.message = cc in
          record { found = rw (← message) found; here = rw (← message) e }
    ]

find_or_store-Stored :
    (patterns : Patterns) (user_id match_id : ℕ) (input : SendMessage) (now : ℕ) (sent : Sent)
    (db : Db) (before : Option Message)
    → find_one (is_sent user_id input.client_message_id) db.messages ≡ before
    → (find_or_store before patterns user_id match_id input now db).0 ≡ ok sent
    → Stored user_id match_id input sent
        (find_or_store before patterns user_id match_id input now db).1
unfolding find_or_store store
find_or_store-Stored patterns user_id match_id input now sent db (some row) found h =
    reuse_message-Stored row user_id match_id input sent db found h
find_or_store-Stored patterns user_id match_id input now sent db none found h =
    let row = new_message_row patterns db.members.next_id user_id match_id input now in
    let message : row ≡ sent.message = cc in
    rw (← message) (record {
      found =
          find_one-append (is_sent user_id input.client_message_id) db.messages row found
            (rw (==_refl user_id, ==_refl input.client_message_id) refl);
      here = ==_refl match_id;
    })

pub send_tx-Stored :
    (patterns : Patterns) (user_id match_id : ℕ) (input : SendMessage) (now : ℕ) (sent : Sent)
    (db : Db)
    → (send_tx patterns user_id match_id input now db).0 ≡ ok sent
    → Stored user_id match_id input sent (send_tx patterns user_id match_id input now db).1
unfolding send_tx store_in
send_tx-Stored patterns user_id match_id input now sent db h =
    let body : Handler Db Sent = λ db.
      and_then (authorize user_id match_id db, db)
        (λ chat db'.
          and_then (assert_can_send user_id db', db')
            (λ _ db''. store_in chat patterns user_id match_id input now db'')) in
    let committed = transaction-committed body db sent h in
    let first = and_then-Continued (authorize user_id match_id db, db) _ sent (rw committed at h) in
    let second =
      and_then-Continued (assert_can_send user_id db, db) _ sent
        (rw (committed, first.same) at h) in
    rw (committed, first.same, second.same)
      (find_or_store-Stored patterns user_id match_id input now sent db
        (find_one (is_sent user_id input.client_message_id) db.messages) refl
        (rw (committed, first.same, second.same) at h))

take_turn-messages :
    (user_id now : ℕ) (db : Db) → (take_turn user_id now db).1.messages ≡ db.messages
unfolding take_turn
take_turn-messages user_id now db =
    elim (Bool-cases (take_hit messages_per_minute (60 * 1000) now now user_id db.hits).0) [
      | inl e ↦ rw e refl
      | inr e ↦ rw e refl
    ]

deliver-messages :
    (user_id partner_id : ℕ) (sent : Sent) (db : Db)
    → (deliver user_id partner_id sent db).messages ≡ db.messages
unfolding deliver
deliver-messages user_id partner_id sent db = elim (Bool-cases sent.created) [
  | inl e ↦ rw e refl
  | inr e ↦ rw e refl
]

deliver-Stored :
    (user_id partner_id match_id : ℕ) (input : SendMessage) (sent : Sent) (db : Db)
    → Stored user_id match_id input sent db
    → Stored user_id match_id input sent (deliver user_id partner_id sent db)
deliver-Stored user_id partner_id match_id input sent db stored = record {
  found = rw (deliver-messages user_id partner_id sent db) stored.found;
  here = stored.here;
}

send_new-Stored :
    (patterns : Patterns) (user_id match_id : ℕ) (input : SendMessage) (now : ℕ) (sent : Sent)
    (db : Db)
    → (send_new patterns user_id match_id input now db).0 ≡ ok sent
    → Stored user_id match_id input sent (send_new patterns user_id match_id input now db).1
unfolding send_new
send_new-Stored patterns user_id match_id input now sent db h =
    let first = and_then-Continued (assert_can_send user_id db, db) _ sent h in
    let second = and_then-Continued (take_turn user_id now db) _ sent (rw first.same at h) in
    let turn = (take_turn user_id now db).1 in
    let third =
      and_then-Continued (authorize user_id match_id turn, turn) _ sent
        (rw (first.same, second.same) at h) in
    let fourth =
      and_then-Continued (send_tx patterns user_id match_id input now turn) _ sent
        (rw (first.same, second.same, third.same) at h) in
    let answer : ok fourth.value ≡ ok sent =
      rw (first.same, second.same, third.same, fourth.same) at h in
    let same : fourth.value ≡ sent = cc in
    rw (first.same, second.same, third.same, fourth.same, same)
      (deliver-Stored user_id third.value.partner_id match_id input sent
        (send_tx patterns user_id match_id input now turn).1
        (send_tx-Stored patterns user_id match_id input now sent turn (rw same at fourth.first)))

pub send-Stored :
    (patterns : Patterns) (user_id match_id : ℕ) (input : SendMessage) (now : ℕ) (sent : Sent)
    (db : Db)
    → (send patterns user_id match_id input now db).0 ≡ ok sent
    → Stored user_id match_id input sent (send patterns user_id match_id input now db).1
unfolding send send_or_retry
send-Stored patterns user_id match_id input now sent db h =
    elim (Option-cases (find_one (is_sent user_id input.client_message_id) db.messages)) [
      | inl e ↦ rw e (send_new-Stored patterns user_id match_id input now sent db (rw e at h))
      | inr (row, e) ↦ rw e (reuse_message-Stored row user_id match_id input sent db e (rw e at h))
    ]

-- A message that was sent is sent once: a retry with the same message id in the same chat, at any
-- time and whatever its text, answers with the same message, says that it is not new, and leaves the
-- database as it is, the sender's turns included.
pub send-again :
    (patterns : Patterns) (user_id match_id : ℕ) (input : SendMessage) (now : ℕ) (sent : Sent)
    (db : Db)
    → (send patterns user_id match_id input now db).0 ≡ ok sent
    → (body : List ℕ) (later : ℕ)
    → send patterns user_id match_id
        (record input { body = body })
        later
        (send patterns user_id match_id input now db).1
      ≡ (
        ok (record { message = sent.message; created = false }),
        (send patterns user_id match_id input now db).1,
      )
unfolding send send_or_retry reuse_message
send-again patterns user_id match_id input now sent db h body later =
    let stored = send-Stored patterns user_id match_id input now sent db h in
    rw (stored.found, stored.here) refl
