-- ===== src/Chat/Send/Restricted.antt =====
-- Sending under a chat restriction (apps/api/src/modules/safety/sanctions.ts,
-- apps/api/src/modules/chat/chat.service.ts).
use garba_partner.Chat.Rules.Refused.{restricted-refused}
use garba_partner.Members.Sanctions.Restricted.{impose-restricted}
use garba_partner.Members.Sanctions.Out.{apply_sanction-Imposed}
use garba_partner.Table.{find_one}
use garba_partner.Members.Model.{chat_restriction}
use garba_partner.Api.{chat_restricted, err, ok}
use garba_partner.Chat.Model.{is_sent, Patterns, Db}
use garba_partner.Members.Sanctions.{with_chat_restriction, apply_sanction, Applied, SanctionInput}
use garba_partner.Chat.Send.{SendMessage, send_new, send_or_retry, send}
use garba_partner.Prelude.{ℕ, ◌≡◌, refl, true, none, some}
use garba_partner.Table.{find_one}

-- After a chat restriction that `applySanction` newly imposes, the member sends no new message: every
-- `send` whose message id the member has not used is refused as restricted, in any chat and at any
-- time, and changes nothing, the member's turns included.
pub apply_sanction-stops_send :
    (admin_id : ℕ) (input : SanctionInput) (now : ℕ) (db : Db) (a : Applied)
    → (apply_sanction admin_id input now db.members).0 ≡ ok a
    → a.created ≡ true
    → input.type ≡ chat_restriction
    → (patterns : Patterns) (match_id : ℕ) (message : SendMessage) (later : ℕ)
    → find_one (is_sent input.user_id message.client_message_id) db.messages ≡ none
    → let after = record db { members = (apply_sanction admin_id input now db.members).1 } in
      send patterns input.user_id match_id message later after ≡ (err chat_restricted, after)
unfolding send send_or_retry send_new
apply_sanction-stops_send admin_id input now db a h new restriction patterns match_id message later
      unused =
    let i = apply_sanction-Imposed admin_id input now db.members a h new in
    let after = record db { members = (apply_sanction admin_id input now db.members).1 } in
    let found = impose-restricted i.user admin_id input now db.members restriction i.found in
    let refused =
      restricted-refused (with_chat_restriction (some now) i.user) input.user_id after
        (rw i.imposed found) refl in
    rw (unused, refused) refl
