-- ===== src/Chat/Send/Apart.antt =====
-- Sending after a block or a restriction of the sender
-- (apps/api/src/modules/chat/chat.service.ts, apps/api/src/modules/safety/blocks.service.ts).
use garba_partner.Chat.Rules.Refused.{blocked-refused}
use garba_partner.Chat.Rules.{partner_of, authorize}
use garba_partner.Connections.Blocks.Apart.{block_tx-Apart}
use garba_partner.Connections.Blocks.{block_tx}
use garba_partner.Table.{find_one}
use garba_partner.Api.{match_not_active, err, ErrorCode}
use garba_partner.Connections.Model.{Match}
use garba_partner.Connections.Single.{OnePerPair}
use garba_partner.Chat.Send.{SendMessage, send_tx}
use garba_partner.Chat.Model.{is_chat_of, Patterns, Db}
use garba_partner.Prelude.{ℕ, ◌≡◌, refl, some, inl, inr, ◌⊎◌}

-- What a message is refused with leaves everything stored as it was.
refused_tx :
    (patterns : Patterns) (user_id match_id : ℕ) (input : SendMessage) (now : ℕ) (e : ErrorCode)
    (db : Db)
    → authorize user_id match_id db ≡ err e
    → send_tx patterns user_id match_id input now db ≡ (err e, db)
unfolding send_tx
refused_tx patterns user_id match_id input now e db h = rw h refl

-- A block that commits before the transaction of a send wins, whatever the send found before: where
-- every pair of members has at most one pending interest and one active match, after the block no
-- transaction of a send between the two, in either direction, stores anything, and the answer is
-- that the match is not active.
pub block_tx-stops_send :
    (blocker target now : ℕ) (db : Db)
    → OnePerPair db.members.connections
    → (patterns : Patterns) (user_id match_id : ℕ) (m : Match) (input : SendMessage) (later : ℕ)
    → find_one
        (is_chat_of user_id match_id)
        (block_tx blocker target now db.members.connections).1.matches
      ≡ some m
    → ((user_id ≡ blocker) × (partner_of user_id m ≡ target))
      ⊎ ((user_id ≡ target) × (partner_of user_id m ≡ blocker))
    → let after = record db {
      members = record (db.members) {
        connections = (block_tx blocker target now db.members.connections).1;
      };
    } in
      send_tx patterns user_id match_id input later after ≡ (err match_not_active, after)
block_tx-stops_send blocker target now db one patterns user_id match_id m input later found
      between =
    let apart = block_tx-Apart blocker target now db.members.connections one in
    let after = record db {
      members = record (db.members) {
        connections = (block_tx blocker target now db.members.connections).1;
      };
    } in
    refused_tx patterns user_id match_id input later match_not_active after (
      blocked-refused user_id match_id m after found (elim between [
        | inl (u, p) ↦ rw (p, u) apart.blocked
        | inr (u, p) ↦ rw (p, u) apart.blocked_back
      ]))
