-- ===== src/Chat/Rules.antt =====
-- Who may read and send in a chat (apps/api/src/modules/chat/chat.service.ts).
pub mod Granted
pub mod Refused
use garba_partner.Api.{match_not_active, chat_restricted, not_found, err, ok, Result}
use garba_partner.Table.{find_one}
use garba_partner.Connections.Model.{is_active, Match}
use garba_partner.Connections.Blocks.{is_blocked_either_way}
use garba_partner.Members.Model.{is_active_status, is_account, Account}
use garba_partner.Chat.Model.{is_chat_of, Db}
use garba_partner.Prelude.{
  ℕ, Bool, true, false, not, ◌&&◌, ◌||◌, Option, none, some, ltb, ◌==◌, if◌then◌else◌, is_some,
}

-- The answer of a check.
pub data Allowed : Type 0 where
  allowed : Allowed

restriction_of : Option Account → Result Allowed
restriction_of none = ok allowed
restriction_of (some sender) =
    if is_some sender.chat_restricted_at then err chat_restricted else ok allowed

unfoldable pub assert_can_send : ℕ → Db → Result Allowed
unfolding restriction_of
assert_can_send user_id db = restriction_of (find_one (is_account user_id) db.members.accounts)

pub record Chat : Type 0 where
  pub chat : Match
  pub partner_id : ℕ
  pub is_user_a : Bool

abbrev pub partner_of : ℕ → Match → ℕ
partner_of user_id m = if m.user_a_id == user_id then m.user_b_id else m.user_a_id

abbrev pub is_active_account : ℕ → Account → Bool
is_active_account id a = is_account id a && is_active_status a.status

abbrev pub can_talk : ℕ → ℕ → Db → Bool
can_talk user_id partner_id db =
    is_some (find_one (is_active_account partner_id) db.members.accounts)
    && not (is_blocked_either_way user_id partner_id db.members.connections)

authorize_match : Option Match → ℕ → Db → Result Chat
authorize_match none user_id db = err not_found
authorize_match (some m) user_id db =
    if not (is_active m.status) || not (can_talk user_id (partner_of user_id m) db)
    then err match_not_active
    else ok
        (record { chat = m; partner_id = partner_of user_id m; is_user_a = m.user_a_id == user_id })

-- Runs on every call, and again inside the transaction of a send.
unfoldable pub authorize : ℕ → ℕ → Db → Result Chat
unfolding authorize_match is_blocked_either_way
authorize user_id match_id db =
    authorize_match (find_one (is_chat_of user_id match_id) db.members.connections.matches) user_id
      db
