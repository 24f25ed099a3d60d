-- ===== src/Moderation/Create.antt =====
-- `create`: a member reports another (apps/api/src/modules/safety/reports.service.ts). The clock is read
-- once.
pub mod Apart
use garba_partner.Table.{count_where, update_where, find_one}
use garba_partner.Connections.Interests.{day_ms}
use garba_partner.Connections.Blocks.{with_block}
use garba_partner.Moderation.Model.{
  SafetyEvent, report_limit_reached, opened, auto_hidden, member, report_created, with_connections,
  connections_of, is_by_member, EvidenceMessage, is_undecided, Db, Report,
}
use garba_partner.Members.Sanctions.{hide_from_discovery}
use garba_partner.Moderation.Evidence.{merge_messages, message_evidence, ChatEvidence}
use garba_partner.Members.Model.{is_account, ReportReason}
use garba_partner.Connections.Model.{report_threshold, MatchStatus, p0_report, HiddenReason}
use garba_partner.Api.{
  rate_limited, not_found, ok, validation_error, err, and_then, transaction, Handler,
}
use garba_partner.Connections.Pairs.{emit_match_ended, end_connections, Ending}
use garba_partner.Prelude.{
  ℕ, String, Bool, true, false, not, ◌&&◌, ◌||◌, Option, none, some, List, [], ◌∷◌, ◌++◌, ◌==◌, ◌+◌,
  ◌*◌, ltb, leb, map, filter, any, length, or_else, if◌then◌else◌, is_some,
}
use garba_partner.Connections.Model as Pairs

abbrev pub reports_per_day : ℕ
reports_per_day = 10

abbrev pub auto_hide_report_threshold : ℕ
auto_hide_report_threshold = 3

abbrev pub auto_hide_window_days : ℕ
auto_hide_window_days = 7

-- `REPORT_PRIORITY_BY_REASON`
abbrev pub priority_of : ReportReason → ℕ
priority_of ReportReason.threatening_behavior = 0
priority_of ReportReason.underage = 0
priority_of ReportReason.harassment = 1
priority_of ReportReason.asking_for_money = 1
priority_of ReportReason.inappropriate_behavior = 1
priority_of ReportReason.impersonation = 1
priority_of ReportReason.fake_profile = 2
priority_of ReportReason.spam = 2
priority_of ReportReason.other = 2

pub record ReportInput : Type 0 where
  pub reported_user_id : ℕ
  pub reason : ReportReason
  pub details : Option String
  pub message_id : Option ℕ
  pub also_block : Option Bool

pub record Created : Type 0 where
  pub report_id : ℕ
  pub already_reported : Bool
  pub blocked : Bool

pub record Outcome : Type 0 where
  pub report_id : ℕ
  pub already_reported : Bool
  pub blocked : Bool
  pub hidden_reason : Option HiddenReason
  pub ended_match_id : Option ℕ

abbrev pub is_from : ℕ → Report → Bool
is_from reporter_id r = elim r.reporter_id [ none ↦ false | some id ↦ id == reporter_id ]

abbrev pub is_recent_from : ℕ → ℕ → Report → Bool
is_recent_from reporter_id now r = is_from reporter_id r && ltb now (r.created_at + day_ms)

abbrev pub is_open_between : ℕ → ℕ → Report → Bool
is_open_between reporter_id reported_user_id r =
    is_from reporter_id r && r.reported_user_id == reported_user_id && is_undecided r.status

-- The snapshot of the profile, if there is one.
abbrev pub profile_of : ℕ → Db → Option (Option ℕ)
profile_of user_id db = elim (find_one (λ p. p.user_id == user_id) (connections_of db).profiles) [
  | none ↦ none
  | some p ↦ some p.image_public_id
]

abbrev match_of : Option ChatEvidence → Option ℕ
match_of none = none
match_of (some chat) = some chat.match_id

abbrev messages_of : Option ChatEvidence → Option (List EvidenceMessage)
messages_of none = none
messages_of (some chat) = some chat.messages

abbrev pub new_report : ℕ → ℕ → ReportInput → Option ChatEvidence → ℕ → Db → Report
new_report id reporter_id input chat now db = record {
  id = id;
  source = member;
  reporter_id = some reporter_id;
  reported_user_id = input.reported_user_id;
  reason = input.reason;
  priority = priority_of input.reason;
  details = input.details;
  evidence = record {
    profile = profile_of input.reported_user_id db;
    trigger = none;
    signals = none;
    messages = messages_of chat;
  };
  status = opened;
  assigned_admin_id = none;
  resolution_action = none;
  resolution_note = none;
  resolved_by_admin_id = none;
  resolved_at = none;
  message_id = input.message_id;
  match_id = match_of chat;
  created_at = now;
}

abbrev first_of : Option ℕ → Option ℕ → Option ℕ
first_of none b = b
first_of (some a) b = some a

-- The newly reported message joins the evidence of the open report.
unfoldable pub with_chat : Option ℕ → ChatEvidence → Report → Report
with_chat message_id chat r =
    let evidence = r.evidence in
    record r {
      message_id = first_of r.message_id message_id;
      match_id = first_of r.match_id (some chat.match_id);
      evidence = record evidence {
        messages = some (merge_messages (or_else evidence.messages []) chat.messages);
      };
    }

-- The report that is open already, or a new one, and its id.
unfoldable pub file_report : Option Report → ℕ → ReportInput → Option ChatEvidence → ℕ → Db → ℕ × Db
unfolding with_chat
file_report (some r) reporter_id input none now db = (r.id, db)
file_report (some r) reporter_id input (some chat) now db = (
  r.id,
  record db {
    reports = update_where (λ x. x.id == r.id) (with_chat input.message_id chat) db.reports;
  },
)
file_report none reporter_id input chat now db = (
  db.next_id,
  record db {
    reports = db.reports ++ new_report db.next_id reporter_id input chat now db ∷ [];
    next_id = db.next_id + 1;
  },
)

abbrev by_report : ℕ → Bool → Ending
by_report reporter_id blocked = record {
  status = if blocked then MatchStatus.blocked else MatchStatus.closed;
  user_id = some reporter_id;
  admin_id = none;
}

abbrev blocked_if : Bool → ℕ → ℕ → Pairs.Db → Pairs.Db
blocked_if blocked reporter_id reported_user_id pairs =
    if blocked then (with_block reporter_id reported_user_id pairs).1 else pairs

-- The block, and the end of all that runs between the two.
unfoldable pub separate : Bool → ℕ → ℕ → ℕ → Pairs.Db → Option ℕ × Pairs.Db
unfolding end_connections with_block
separate blocked reporter_id reported_user_id now pairs =
    end_connections reporter_id reported_user_id (by_report reporter_id blocked) now
      (blocked_if blocked reporter_id reported_user_id pairs)

abbrev is_recent_about : ℕ → ℕ → Report → Bool
is_recent_about user_id now r =
    r.reported_user_id == user_id
    && is_by_member r.source
    && ltb now (r.created_at + auto_hide_window_days * day_ms)

-- `count(distinct reporter_id)`; `null` does not count.
distinct_reporters : List ℕ → List Report → ℕ
distinct_reporters seen [] = 0
distinct_reporters seen (r ∷ rs) = elim r.reporter_id [
  | none ↦ distinct_reporters seen rs
  | some id ↦
      let known = distinct_reporters seen rs in
      let new = distinct_reporters (id ∷ seen) rs in
      if any (λ s. s == id) seen then known else new + 1
]

unfoldable pub hide_for : Bool → ℕ → HiddenReason → Pairs.Db → Option HiddenReason × Pairs.Db
unfolding hide_from_discovery
hide_for wanted user_id reason pairs =
    let (changed, hidden) = hide_from_discovery user_id reason pairs in
    if wanted then (if changed then some reason else none, hidden) else (none, pairs)

-- What a new report does to the visibility of the member.
unfoldable pub auto_hide : ReportInput → ℕ → List Report → Pairs.Db → Option HiddenReason × Pairs.Db
unfolding hide_for distinct_reporters
auto_hide input now reports pairs =
    if priority_of input.reason == 0
    then hide_for true input.reported_user_id p0_report pairs
    else hide_for
        (leb auto_hide_report_threshold
          (distinct_reporters [] (filter (is_recent_about input.reported_user_id now) reports)))
        input.reported_user_id report_threshold pairs

-- `removeNotificationsBetween` is not part of this model's database.
unfoldable pub file_and_separate :
    Option Report → Option ChatEvidence → ℕ → ReportInput → ℕ → Db → Outcome × Db
unfolding file_report separate auto_hide
file_and_separate existing chat reporter_id input now db =
    let (report_id, filed) = file_report existing reporter_id input chat now db in
    let blocked = or_else input.also_block true in
    let (ended, apart) =
      separate blocked reporter_id input.reported_user_id now (connections_of filed) in
    let (hidden_reason, hidden) =
      if is_some existing then (none, apart) else auto_hide input now filed.reports apart in
    (
      record {
        report_id = report_id;
        already_reported = is_some existing;
        blocked = blocked;
        hidden_reason = hidden_reason;
        ended_match_id = ended;
      },
      with_connections hidden filed,
    )

unfoldable pub create_tx : ℕ → ReportInput → ℕ → Handler Db Outcome
unfolding file_and_separate message_evidence
create_tx reporter_id input now = transaction (λ db.
    and_then (message_evidence input.message_id reporter_id input.reported_user_id db.chat, db)
      (λ chat db'.
        let existing = find_one (is_open_between reporter_id input.reported_user_id) db'.reports in
        let (outcome, done) = file_and_separate existing chat reporter_id input now db' in
        (ok outcome, done)))

unfoldable pub log_outcome : Outcome → ℕ → ReportInput → Db → Db
log_outcome outcome reporter_id input db =
    let created =
      if outcome.already_reported
      then []
      else report_created input.reported_user_id outcome.report_id reporter_id
          (priority_of input.reason)
        ∷ [] in
    let hidden : List SafetyEvent = elim outcome.hidden_reason [
      | none ↦ []
      | some reason ↦ auto_hidden input.reported_user_id outcome.report_id reason ∷ []
    ] in
    record db { events = db.events ++ (created ++ hidden) }

-- After the commit: open apps are told of the match that ended, and the safety log is written.
unfoldable pub announce : Outcome → ℕ → ReportInput → Db → Created × Db
unfolding log_outcome emit_match_ended
announce outcome reporter_id input db = (
  record {
    report_id = outcome.report_id;
    already_reported = outcome.already_reported;
    blocked = outcome.blocked;
  },
  log_outcome outcome reporter_id input (
      with_connections
        (emit_match_ended outcome.ended_match_id reporter_id input.reported_user_id
          (connections_of db))
        db),
)

unfoldable pub create : ℕ → ReportInput → ℕ → Handler Db Created
unfolding create_tx announce
create reporter_id input now db =
    let recent = count_where (is_recent_from reporter_id now) db.reports in
    if reporter_id == input.reported_user_id
    then (err validation_error, db)
    else if not (is_some (find_one (is_account input.reported_user_id) db.chat.members.accounts))
    then (err not_found, db)
    else if leb reports_per_day recent
    then (
      err rate_limited,
      record db { events = db.events ++ report_limit_reached reporter_id recent ∷ [] },
    )
    else and_then (create_tx reporter_id input now db) (λ outcome done.
      let (answer, told) = announce outcome reporter_id input done in (ok answer, told))
