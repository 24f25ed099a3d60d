-- ===== src/Chat/Reading/Read.antt =====
-- What a reader has read (apps/api/src/modules/chat/chat.service.ts).
use garba_partner.Chat.Rules.Granted.{authorize-Granted}
use garba_partner.Chat.Reading.Forward.{mark_read-Moved}
use garba_partner.Api.{ok}
use garba_partner.Table.{find_one-update, find_one-holds, find_one, touch}
use garba_partner.Connections.Model.{Match}
use garba_partner.Chat.Reading.{
  is_unread_in, is_message_of, moved_to, read_at_of, mark_read, greatest, is_after,
}
use garba_partner.Chat.Model.{Message, is_chat_of, Db}
use garba_partner.Prelude.{
  ◌∙◌, ℕ, ◌≡◌, ◌≤◌, refl, Bool, true, false, Option, none, some, ◌==◌, Bool-cases, inl, inr, arith,
  sym,
}

greatest-reached :
    (was : Option ℕ) (at created_at : ℕ)
    → created_at ≤ at
    → is_after (some (greatest was at)) created_at ≡ false
greatest-reached none at created_at h = ground arith
greatest-reached (some was) at created_at h = ground arith

moved-read :
    (user_id at : ℕ) (m : Match) (created_at : ℕ)
    → created_at ≤ at
    → is_after (read_at_of user_id (moved_to (m.user_a_id == user_id) at m)) created_at ≡ false
moved-read user_id at m created_at h = elim (Bool-cases (m.user_a_id == user_id)) [
  | inl e ↦ rw (e, e) (greatest-reached m.user_a_last_read_at at created_at h)
  | inr e ↦ rw (e, e) (greatest-reached m.user_b_last_read_at at created_at h)
]

keeps_chat :
    (user_id match_id : ℕ) (is_user_a : Bool) (at : ℕ) (m : Match)
    → is_chat_of user_id match_id (touch (λ n. n.id == match_id) (moved_to is_user_a at) m)
      ≡ is_chat_of user_id match_id m
keeps_chat user_id match_id is_user_a at m = ground arith

-- After a `mark_read` that succeeds, no message of the chat that is as old as the message named or
-- older counts as unread for the reader.
pub mark_read-read :
    (user_id match_id last_read_message_id : ℕ) (db : Db) (at : ℕ)
    → (mark_read user_id match_id last_read_message_id db).0 ≡ ok at
    → (message : Message) (row : Match) (x : Message)
    → find_one (is_message_of last_read_message_id match_id) db.messages ≡ some message
    → find_one
        (is_chat_of user_id match_id)
        (mark_read user_id match_id last_read_message_id db).1.members.connections.matches
      ≡ some row
    → x.created_at ≤ message.created_at
    → is_unread_in user_id row x ≡ false
mark_read-read user_id match_id last_read_message_id db at h message row x is_message is_row older =
    let moved = mark_read-Moved user_id match_id last_read_message_id db at h in
    let granted = authorize-Granted user_id match_id moved.chat db moved.authorized in
    let m = moved.chat.chat in
    let named : some moved.message ≡ some message = sym moved.found ∙ is_message in
    let same : moved.message ≡ message = cc in
    let own =
      find_one-holds (is_chat_of user_id match_id) db.members.connections.matches granted.found in
    let here : (m.id == match_id) ≡ true = ground (arith, own) in
    let after : find_one (is_chat_of user_id match_id)
          (mark_read user_id match_id last_read_message_id db).1.members.connections.matches
        ≡ some (moved_to moved.chat.is_user_a moved.message.created_at m) =
      rw
        (
          moved.matches,
          find_one-update (is_chat_of user_id match_id) (λ n. n.id == match_id)
              (moved_to moved.chat.is_user_a moved.message.created_at)
              db.members.connections.matches
              (keeps_chat user_id match_id moved.chat.is_user_a moved.message.created_at),
          granted.found,
          here,
        )
        refl in
    let one : moved_to moved.chat.is_user_a moved.message.created_at m ≡ row =
      let both = sym after ∙ is_row in cc in
    let found : moved_to (m.user_a_id == user_id) message.created_at m ≡ row =
      rw (same, granted.side) at one in
    let read = moved-read user_id message.created_at m x.created_at older in
    let reached : is_after (read_at_of user_id row) x.created_at ≡ false = rw found at read in
    ground (arith, reached)
