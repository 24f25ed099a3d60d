-- ===== src/Chat/Reading.antt =====
-- Unread messages and read positions (apps/api/src/modules/chat/chat.service.ts). A time of `null`
-- is before every other.
pub mod Totals
pub mod Read
pub mod Forward
use garba_partner.Pagination.Orders.{newest_first, Cursor}
use garba_partner.Pagination.{Page, page}
use garba_partner.Table.{update_where, find_one, count_where, sum_by}
use garba_partner.Api.{map_result, Result, ok, not_found, err, and_then, Handler}
use garba_partner.Connections.Blocks.{is_blocked_either_way}
use garba_partner.Chat.Model.{
  cursor_of, chat_notifications_read, message_read, has_member, Message, Db,
}
use garba_partner.Connections.Model.{is_active, Match}
use garba_partner.Chat.Rules.{partner_of, can_talk, Chat, authorize}
use garba_partner.Prelude.{
  or_else, ℕ, String, Bool, true, false, not, ◌&&◌, ◌||◌, Option, none, some, ltb, ◌==◌,
  if◌then◌else◌, is_some, min, filter, ◌∷◌, [], ◌++◌, ◌+◌, ◌*◌, max,
}

-- `created_at > COALESCE(read_at, '-infinity')`
abbrev pub is_after : Option ℕ → ℕ → Bool
is_after none created_at = true
is_after (some at) created_at = ltb at created_at

abbrev pub read_at_of : ℕ → Match → Option ℕ
read_at_of user_id m =
    if m.user_a_id == user_id then m.user_a_last_read_at else m.user_b_last_read_at

-- `GREATEST(COALESCE(column, '-infinity'), :readAt)`
abbrev pub greatest : Option ℕ → ℕ → ℕ
greatest none at = at
greatest (some read) at = max read at

abbrev pub moved_to : Bool → ℕ → Match → Match
moved_to is_user_a at m =
    if is_user_a
    then record m { user_a_last_read_at = some (greatest m.user_a_last_read_at at) }
    else record m { user_b_last_read_at = some (greatest m.user_b_last_read_at at) }

abbrev pub is_message_of : ℕ → ℕ → Message → Bool
is_message_of id match_id x = x.id == id && x.match_id == match_id

-- `RETURNING column AS last_read_at`, of the row updated
returned_read_at : Option Match → Bool → ℕ → ℕ
returned_read_at none is_user_a at = at
returned_read_at (some m) is_user_a at =
    or_else (if is_user_a then m.user_a_last_read_at else m.user_b_last_read_at) at

move_read : Option Message → Chat → ℕ → ℕ → Handler Db ℕ
unfolding returned_read_at
move_read none chat user_id match_id db = (err not_found, db)
move_read (some message) chat user_id match_id db =
    let members = db.members in
    let connections = members.connections in
    let matches =
      update_where (λ m. m.id == match_id) (moved_to chat.is_user_a message.created_at)
        connections.matches in
    let at =
      returned_read_at (find_one (λ m. m.id == match_id) matches) chat.is_user_a
        message.created_at in
    (
      ok at,
      record db {
        members = record members { connections = record connections { matches = matches } };
        pushes =
            db.pushes
            ++ message_read chat.partner_id match_id user_id at
              ∷ chat_notifications_read user_id match_id
              ∷ [];
      },
    )

unfoldable pub mark_read : ℕ → ℕ → ℕ → Handler Db ℕ
unfolding authorize move_read
mark_read user_id match_id last_read_message_id db =
    and_then (authorize user_id match_id db, db)
      (λ chat db'.
        move_read (find_one (is_message_of last_read_message_id match_id) db'.messages) chat user_id
          match_id db')

-- A message that counts as unread in a row of the list of chats.
abbrev pub is_unread_in : ℕ → Match → Message → Bool
is_unread_in user_id m x =
    x.match_id == m.id
    && not (x.sender_id == user_id)
    && is_after (read_at_of user_id m) x.created_at

abbrev pub unread_count : ℕ → Match → Db → ℕ
unread_count user_id m db = count_where (is_unread_in user_id m) db.messages

-- The rows of `chatRows`, before their order and limit.
abbrev pub is_listed : ℕ → Db → Match → Bool
is_listed user_id db m =
    has_member user_id m && is_active m.status && can_talk user_id (partner_of user_id m) db

-- One pair of a message and its match that `unreadTotal` counts.
abbrev pub is_counted : ℕ → Db → Match → Message → Bool
is_counted user_id db m x =
    has_member user_id m
    && is_active m.status
    && is_unread_in user_id m x
    && can_talk user_id x.sender_id db

-- The join of messages with their matches.
unfoldable pub unread_total : ℕ → Db → ℕ
unfolding is_blocked_either_way
unread_total user_id db =
    sum_by (λ x. count_where (λ m. is_counted user_id db m x) db.members.connections.matches)
      db.messages

abbrev pub messages_page_size_default : ℕ
messages_page_size_default = 30

abbrev pub messages_page_size_max : ℕ
messages_page_size_max = 100

-- A page of the messages of a chat, newest first, from a cursor that was decoded.
unfoldable pub messages :
    ℕ → ℕ → Option ℕ → Option Cursor → Db → Result (Page newest_first cursor_of)
unfolding authorize page
messages user_id match_id limit cursor db =
    map_result
      (λ chat.
        page newest_first cursor_of
          (min (max (or_else limit messages_page_size_default) 1) messages_page_size_max) cursor
          (filter (λ m. m.match_id == match_id) db.messages))
      (authorize user_id match_id db)
