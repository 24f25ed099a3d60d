-- ===== src/Chat/Model.antt =====
-- The messages, beside the rows of the members, and what is pushed to open apps
-- (apps/api/src/models/message.model.ts, apps/api/src/realtime/hub.ts).
use garba_partner.Prelude.{ℕ, Bool, List, ◌==◌, ◌&&◌, ◌||◌}
use garba_partner.Limiter.{Hits}
use garba_partner.Connections.Model.{Match}
use garba_partner.Pagination.Orders.{Cursor}
use garba_partner.Members.Model as Rows

pub record Message : Type 0 where
  pub id : ℕ
  pub match_id : ℕ
  pub sender_id : ℕ
  pub client_message_id : ℕ
  pub body : List ℕ
  pub contains_contact_info : Bool
  pub contains_money_request : Bool
  pub created_at : ℕ

-- Pushes and notices after a commit; `scanned` is the call of the suspicious-activity detector.
pub data Push : Type 0 where
  message_new : (user_id message_id : ℕ) → Push
  message_read : (user_id match_id reader_id at : ℕ) → Push
  new_message : (user_id actor_id match_id : ℕ) → Push
  scanned : (message_id : ℕ) → Push
  chat_notifications_read : (user_id match_id : ℕ) → Push

-- `hits` is the state of the hub's message limiter, in memory.
pub record Db : Type 0 where
  pub members : Rows.Db
  pub messages : List Message
  pub pushes : List Push
  pub hits : Hits

-- Bodies are lists of code units. What they are searched for, by regular expressions:
pub record Patterns : Type 0 where
  pub looks_like_contact_details : List ℕ → Bool
  pub looks_like_money_request : List ℕ → Bool

abbrev pub has_member : ℕ → Match → Bool
has_member user_id m = m.user_a_id == user_id || m.user_b_id == user_id

abbrev pub is_chat_of : ℕ → ℕ → Match → Bool
is_chat_of user_id match_id m = m.id == match_id && has_member user_id m

abbrev pub is_sent : ℕ → ℕ → Message → Bool
is_sent sender_id client_message_id x =
    x.sender_id == sender_id && x.client_message_id == client_message_id

abbrev pub cursor_of : Message → Cursor
cursor_of m = record { at = m.created_at; id = m.id }
