-- ===== src/Moderation/Evidence.antt =====
-- The messages that a report keeps (apps/api/src/modules/safety/reports.service.ts). The texts of times
-- are in the order of the times.
use garba_partner.Pagination.{order_by, is_past}
use garba_partner.Pagination.Orders.{newest_first}
use garba_partner.Table.{find_one, sort_by, update_where}
use garba_partner.Api.{validation_error, not_found, map_result, ok, err, Result}
use garba_partner.Moderation.Model.{SenderRole, EvidenceMessage}
use garba_partner.Connections.Model.{Match}
use garba_partner.Chat.Model.{cursor_of, has_member, Message}
use garba_partner.Prelude.{
  ℕ, Bool, true, false, not, ◌||◌, Option, none, some, List, [], ◌∷◌, ◌++◌, ◌==◌, map, filter, any,
  take, if◌then◌else◌,
}
use garba_partner.Chat.Model as Talk

abbrev pub report_message_context : ℕ
report_message_context = 10

abbrev pub reverse : {A : Type 0} → List A → List A
reverse [] = []
reverse (x ∷ xs) = reverse xs ++ x ∷ []

pub record ChatEvidence : Type 0 where
  pub match_id : ℕ
  pub messages : List EvidenceMessage

abbrev snapshot : ℕ → Bool → Message → EvidenceMessage
snapshot reporter_id reported m = record {
  id = m.id;
  sender_role = if m.sender_id == reporter_id then SenderRole.reporter else SenderRole.reported;
  body = m.body;
  created_at = m.created_at;
  reported = reported;
  contains_contact_info = m.contains_contact_info;
}

abbrev earlier : Message → List Message → List Message
earlier m messages = take report_message_context (
    filter (is_past newest_first cursor_of (some (cursor_of m)))
      (order_by newest_first cursor_of (filter (λ x. x.match_id == m.match_id) messages)))

evidence_in : Option Match → Message → ℕ → ℕ → Talk.Db → Result ChatEvidence
evidence_in none message reporter_id reported_user_id chat = err not_found
evidence_in (some m) message reporter_id reported_user_id chat =
    if not (has_member reporter_id m)
    then err not_found
    else if not (message.sender_id == reported_user_id)
    then err validation_error
    else ok (record {
      match_id = m.id;
      messages =
          map (snapshot reporter_id false) (reverse (earlier message chat.messages))
          ++ snapshot reporter_id true message ∷ [];
    })

evidence_of : Option Message → ℕ → ℕ → Talk.Db → Result ChatEvidence
unfolding evidence_in
evidence_of none reporter_id reported_user_id chat = err not_found
evidence_of (some message) reporter_id reported_user_id chat =
    evidence_in (find_one (λ m. m.id == message.match_id) chat.members.connections.matches) message
      reporter_id reported_user_id chat

-- `messageEvidence`, where a message is named
unfoldable pub message_evidence : Option ℕ → ℕ → ℕ → Talk.Db → Result (Option ChatEvidence)
unfolding evidence_of
message_evidence none reporter_id reported_user_id chat = ok none
message_evidence (some id) reporter_id reported_user_id chat =
    map_result some
      (evidence_of (find_one (λ m. m.id == id) chat.messages) reporter_id reported_user_id chat)

abbrev also_reported : Bool → EvidenceMessage → EvidenceMessage
also_reported reported m = record m { reported = m.reported || reported }

merge_message : List EvidenceMessage → EvidenceMessage → List EvidenceMessage
merge_message current m =
    if any (λ x. x.id == m.id) current
    then update_where (λ x. x.id == m.id) (also_reported m.reported) current
    else current ++ m ∷ []

merge_all : List EvidenceMessage → List EvidenceMessage → List EvidenceMessage
unfolding merge_message
merge_all current [] = current
merge_all current (m ∷ ms) = merge_all (merge_message current m) ms

unfoldable pub merge_messages : List EvidenceMessage → List EvidenceMessage → List EvidenceMessage
unfolding merge_all
merge_messages current added = sort_by (λ m. m.created_at) (merge_all current added)
