-- ===== src/Moderation/Suspicious.antt =====
-- What the detector does after a message (apps/api/src/modules/safety/suspicious-activity.service.ts). Of
-- two detections at once the loser of the unique index does nothing; one after the other, the second
-- refreshes the signals. The detection after blocks is not here: blocks have no times in this database.
use garba_partner.Moderation.Evidence.{reverse}
use garba_partner.Pagination.Orders.{newest_first}
use garba_partner.Moderation.Resolve.{is_report}
use garba_partner.Text.{same_text}
use garba_partner.Pagination.{order_by}
use garba_partner.Members.Model.{ReportReason}
use garba_partner.Table.{find_one, update_where}
use garba_partner.Moderation.Create.{profile_of, priority_of, hide_for}
use garba_partner.Chat.Model.{cursor_of, Message}
use garba_partner.Moderation.Model.{
  auto_hidden, suspicious, with_connections, connections_of, opened, is_undecided, SenderRole,
  money_requests, is_by_member, EvidenceMessage, system, repeated_messages, Signals, Db, Report,
  Trigger,
}
use garba_partner.Prelude.{
  ℕ, Bool, true, false, not, ◌&&◌, ◌||◌, Option, none, some, List, [], ◌∷◌, ◌++◌, ◌==◌, ◌+◌, ◌*◌,
  ltb, map, filter, any, take, length, if◌then◌else◌, is_some,
}
use garba_partner.Moderation.Model.{frequently_blocked}
use garba_partner.Connections.Model.{HiddenReason}

abbrev pub suspicious_money_messages : ℕ
suspicious_money_messages = 3

abbrev pub suspicious_money_window_hours : ℕ
suspicious_money_window_hours = 24

abbrev pub suspicious_repeated_message_chats : ℕ
suspicious_repeated_message_chats = 4

abbrev pub suspicious_repeated_window_hours : ℕ
suspicious_repeated_window_hours = 1

abbrev pub suspicious_repeated_min_length : ℕ
suspicious_repeated_min_length = 20

abbrev pub evidence_messages : ℕ
evidence_messages = 5

abbrev pub hour_ms : ℕ
hour_ms = 60 * 60 * 1000

pub record Detection : Type 0 where
  pub user_id : ℕ
  pub trigger : Trigger
  pub reason : ReportReason
  pub counts : List ℕ
  pub hide : Bool
  pub messages : List EvidenceMessage

abbrev pub same_trigger : Trigger → Trigger → Bool
same_trigger money_requests money_requests = true
same_trigger repeated_messages repeated_messages = true
same_trigger frequently_blocked frequently_blocked = true
same_trigger _ _ = false

abbrev pub has_trigger : Trigger → Option Trigger → Bool
has_trigger t none = false
has_trigger t (some u) = same_trigger u t

-- The report of the system that is in the queue already.
abbrev pub is_open_detection : ℕ → Trigger → Report → Bool
is_open_detection user_id t r =
    r.reported_user_id == user_id
    && not (is_by_member r.source)
    && is_undecided r.status
    && has_trigger t r.evidence.trigger

abbrev signals_of : Detection → ℕ → Signals
signals_of d now = record { counts = d.counts; last_detected_at = now }

abbrev pub refreshed : Detection → ℕ → Report → Report
refreshed d now r =
    let evidence = r.evidence in
    record r { evidence = record evidence { signals = some (signals_of d now) } }

abbrev pub system_report : ℕ → Detection → ℕ → Db → Report
system_report id d now db = record {
  id = id;
  source = system;
  reporter_id = none;
  reported_user_id = d.user_id;
  reason = d.reason;
  priority = priority_of d.reason;
  details = none;
  evidence = record {
    profile = profile_of d.user_id db;
    trigger = some d.trigger;
    signals = some (signals_of d now);
    messages = some d.messages;
  };
  status = opened;
  assigned_admin_id = none;
  resolution_action = none;
  resolution_note = none;
  resolved_by_admin_id = none;
  resolved_at = none;
  message_id = none;
  match_id = none;
  created_at = now;
}

-- The new report, the member out of discovery where the detection hides, and the safety log.
unfoldable pub open_report : Detection → ℕ → Db → Db
unfolding hide_for
open_report d now db =
    let report = system_report db.next_id d now db in
    let (reason, pairs) =
      hide_for d.hide d.user_id HiddenReason.suspicious_activity (connections_of db) in
    let filed =
      with_connections pairs
        (record db { reports = db.reports ++ report ∷ []; next_id = db.next_id + 1 }) in
    let flagged = suspicious d.user_id report.id d.trigger (is_some reason) ∷ [] in
    record filed {
      events =
          filed.events
          ++ (if is_some reason
              then flagged ++ auto_hidden d.user_id report.id HiddenReason.suspicious_activity ∷ []
              else flagged);
    }

unfoldable pub flag_found : Option Report → Detection → ℕ → Db → Db
unfolding open_report
flag_found (some r) d now db = record db {
  reports = update_where (is_report r.id) (refreshed d now) db.reports;
}
flag_found none d now db = open_report d now db

unfoldable pub flag : Detection → ℕ → Db → Db
unfolding flag_found
flag d now db = flag_found (find_one (is_open_detection d.user_id d.trigger) db.reports) d now db

-- `new Set(...).size`, `count(distinct ...)`
distinct : List ℕ → List ℕ → ℕ
distinct seen [] = 0
distinct seen (x ∷ xs) =
    let known = distinct seen xs in
    let new = distinct (x ∷ seen) xs in if any (λ s. s == x) seen then known else new + 1

abbrev is_money_request : ℕ → ℕ → Message → Bool
is_money_request sender_id now m =
    m.sender_id == sender_id
    && m.contains_money_request
    && ltb now (m.created_at + suspicious_money_window_hours * hour_ms)

abbrev own_snapshot : Message → EvidenceMessage
own_snapshot m = record {
  id = m.id;
  sender_role = SenderRole.reported;
  body = m.body;
  created_at = m.created_at;
  reported = true;
  contains_contact_info = m.contains_contact_info;
}

abbrev flagged_of : ℕ → ℕ → List Message → List Message
flagged_of sender_id now messages =
    take 50 (order_by newest_first cursor_of (filter (is_money_request sender_id now) messages))

unfoldable pub money_requests_of : Message → ℕ → Db → Option Detection
unfolding distinct
money_requests_of message now db =
    let flagged = flagged_of message.sender_id now db.chat.messages in
    if not message.contains_money_request || ltb (length flagged) suspicious_money_messages
    then none
    else some (record {
      user_id = message.sender_id;
      trigger = money_requests;
      reason = ReportReason.asking_for_money;
      counts =
          length flagged
          ∷ distinct [] (map (λ m. m.match_id) flagged)
          ∷ suspicious_money_window_hours
          ∷ [];
      hide = true;
      messages = map own_snapshot (reverse (take evidence_messages flagged));
    })

abbrev is_repeat : Message → ℕ → Message → Bool
is_repeat message now m =
    m.sender_id == message.sender_id
    && same_text m.body message.body
    && ltb now (m.created_at + suspicious_repeated_window_hours * hour_ms)

unfoldable pub repeated_messages_of : Message → ℕ → Db → Option Detection
unfolding distinct
repeated_messages_of message now db =
    let chats =
      distinct [] (map (λ m. m.match_id) (filter (is_repeat message now) db.chat.messages)) in
    if ltb (length message.body) suspicious_repeated_min_length
      || ltb chats suspicious_repeated_message_chats
    then none
    else some (record {
      user_id = message.sender_id;
      trigger = repeated_messages;
      reason = ReportReason.spam;
      counts = chats ∷ suspicious_repeated_window_hours ∷ [];
      hide = true;
      messages = own_snapshot message ∷ [];
    })

unfoldable pub flag_if : Option Detection → ℕ → Db → Db
unfolding flag
flag_if none now db = db
flag_if (some d) now db = flag d now db

unfoldable pub after_message : Message → ℕ → Db → Db
unfolding flag_if money_requests_of repeated_messages_of
after_message message now db =
    let first = flag_if (money_requests_of message now db) now db in
    flag_if (repeated_messages_of message now first) now first
