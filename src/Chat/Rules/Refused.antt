-- ===== src/Chat/Rules/Refused.antt =====
-- When the rules of a chat refuse (apps/api/src/modules/chat/chat.service.ts).
use garba_partner.Api.{chat_restricted, match_not_active, err}
use garba_partner.Connections.Blocks.{is_blocked_either_way}
use garba_partner.Table.{find_one}
use garba_partner.Chat.Model.{is_chat_of, Db}
use garba_partner.Members.Model.{is_account, Account}
use garba_partner.Connections.Model.{is_active, Match}
use garba_partner.Chat.Rules.{
  partner_of, authorize_match, restriction_of, assert_can_send, authorize,
}
use garba_partner.Prelude.{is_some, ℕ, ◌≡◌, refl, true, some, Bool-cases, inl, inr, arith}

-- Of two members between whom there is a block, neither can talk to the other.
pub blocked-refused :
    (user_id match_id : ℕ) (m : Match) (db : Db)
    → find_one (is_chat_of user_id match_id) db.members.connections.matches ≡ some m
    → is_blocked_either_way user_id (partner_of user_id m) db.members.connections ≡ true
    → authorize user_id match_id db ≡ err match_not_active
unfolding authorize authorize_match
blocked-refused user_id match_id m db found blocked = elim (Bool-cases (is_active m.status)) [
  | inl a ↦ rw (found, a, blocked) (ground arith)
  | inr a ↦ rw (found, a) refl
]

pub restricted-refused :
    (user : Account) (user_id : ℕ) (db : Db)
    → find_one (is_account user_id) db.members.accounts ≡ some user
    → is_some user.chat_restricted_at ≡ true
    → assert_can_send user_id db ≡ err chat_restricted
unfolding assert_can_send restriction_of
restricted-refused user user_id db found restricted = rw (found, restricted) refl
