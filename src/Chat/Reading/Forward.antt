-- ===== src/Chat/Reading/Forward.antt =====
-- Read positions only move forward (apps/api/src/modules/chat/chat.service.ts).
use garba_partner.Api.{and_then-Continued, ok}
use garba_partner.Chat.Rules.{authorize, Chat}
use garba_partner.Table.{update_where, sum_by-le, find_one-update, find_one, touch, one_if}
use garba_partner.Chat.Model.{Db, Message}
use garba_partner.Connections.Model.{Match}
use garba_partner.Chat.Reading.{
  is_message_of, unread_count, move_read, mark_read, is_unread_in, moved_to, greatest, read_at_of,
  is_after,
}
use garba_partner.Prelude.{
  ℕ, ◌≡◌, ◌≤◌, refl, Bool, true, false, Option, none, some, ◌==◌, Bool-cases, Option-cases, inl,
  inr, arith,
}

is_after-greatest :
    (was : Option ℕ) (at created_at : ℕ)
    → is_after (some (greatest was at)) created_at ≡ true
    → is_after was created_at ≡ true
is_after-greatest none at created_at h = refl
is_after-greatest (some was) at created_at h = ground arith

is_after-moved :
    (is_user_a : Bool) (at user_id : ℕ) (m : Match) (created_at : ℕ)
    → is_after (read_at_of user_id (moved_to is_user_a at m)) created_at ≡ true
    → is_after (read_at_of user_id m) created_at ≡ true
is_after-moved true at user_id m created_at h = elim (Bool-cases (m.user_a_id == user_id)) [
  | inl e ↦ rw e (is_after-greatest m.user_a_last_read_at at created_at (rw e at h))
  | inr e ↦ rw e (rw e at h)
]
is_after-moved false at user_id m created_at h = elim (Bool-cases (m.user_a_id == user_id)) [
  | inl e ↦ rw e (rw e at h)
  | inr e ↦ rw e (is_after-greatest m.user_b_last_read_at at created_at (rw e at h))
]

unread-moved :
    (is_user_a : Bool) (match_id at user_id : ℕ) (m : Match) (x : Message)
    → one_if (is_unread_in user_id (touch (λ n. n.id == match_id) (moved_to is_user_a at) m)) x
      ≤ one_if (is_unread_in user_id m) x
unread-moved is_user_a match_id at user_id m x = ground arith

-- What a successful `mark_read` moved, and to which message.
pub record Moved (user_id match_id last_read_message_id : ℕ) (db : Db) : Type 0 where
  pub chat : Chat
  pub message : Message
  pub authorized : authorize user_id match_id db ≡ ok chat
  pub found : find_one (is_message_of last_read_message_id match_id) db.messages ≡ some message
  pub matches :
      (mark_read user_id match_id last_read_message_id db).1.members.connections.matches
      ≡ update_where
          (λ m. m.id == match_id)
          (moved_to chat.is_user_a message.created_at)
          db.members.connections.matches
  pub messages : (mark_read user_id match_id last_read_message_id db).1.messages ≡ db.messages

pub mark_read-Moved :
    (user_id match_id last_read_message_id : ℕ) (db : Db) (at : ℕ)
    → (mark_read user_id match_id last_read_message_id db).0 ≡ ok at
    → Moved user_id match_id last_read_message_id db
unfolding mark_read move_read
mark_read-Moved user_id match_id last_read_message_id db at h =
    let first = and_then-Continued (authorize user_id match_id db, db) _ at h in
    elim (Option-cases (find_one (is_message_of last_read_message_id match_id) db.messages)) [
      | inl e ↦ absurd (let h' = rw (first.same, e) at h in cc)
      | inr (message, e) ↦ record {
        chat = first.value;
        message = message;
        authorized = first.first;
        found = e;
        matches = rw (first.same, e) refl;
        messages = rw (first.same, e) refl;
      }
    ]

-- The row of a match afterwards, and no more unread in it than before.
pub record NoMoreUnread (user_id id : ℕ) (before : Match) (db after : Db) : Type 0 where
  pub row : Match
  pub found : find_one (λ n. n.id == id) after.members.connections.matches ≡ some row
  pub fewer : unread_count user_id row after ≤ unread_count user_id before db

keeps_match :
    (match_id id : ℕ) (is_user_a : Bool) (at : ℕ) (m : Match)
    → ((touch (λ n. n.id == match_id) (moved_to is_user_a at) m).id == id) ≡ (m.id == id)
keeps_match match_id id is_user_a at m = ground arith

-- A `mark_read` that succeeds raises no unread count: in every match, for every member, no more
-- messages count as unread than before.
pub mark_read-NoMoreUnread :
    (user_id match_id last_read_message_id : ℕ) (db : Db) (at : ℕ)
    → (mark_read user_id match_id last_read_message_id db).0 ≡ ok at
    → (member id : ℕ) (m : Match)
    → find_one (λ n. n.id == id) db.members.connections.matches ≡ some m
    → NoMoreUnread member id m db (mark_read user_id match_id last_read_message_id db).1
mark_read-NoMoreUnread user_id match_id last_read_message_id db at h member id m found =
    let moved = mark_read-Moved user_id match_id last_read_message_id db at h in
    let change = moved_to moved.chat.is_user_a moved.message.created_at in
    let row = touch (λ n. n.id == match_id) change m in
    record {
      row = row;
      found =
          rw
            (
              moved.matches,
              find_one-update (λ n. n.id == id) (λ n. n.id == match_id) change
                  db.members.connections.matches
                  (keeps_match match_id id moved.chat.is_user_a moved.message.created_at),
              found,
            )
            refl;
      fewer = rw moved.messages (
          sum_by-le (one_if (is_unread_in member row)) (one_if (is_unread_in member m)) db.messages
            (unread-moved moved.chat.is_user_a match_id moved.message.created_at member m));
    }
