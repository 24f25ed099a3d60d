-- ===== src/Moderation/Resolve.antt =====
-- What moderators do with a report: assign, open the conversation, resolve
-- (apps/api/src/modules/admin/reports/admin-reports.service.ts). The audit entries have not all of
-- their metadata.
use garba_partner.Members.Model.{SanctionType}
use garba_partner.Pagination.Orders.{queue_order, newest_first, oldest_first, QueueCursor}
use garba_partner.Moderation.Evidence.{reverse}
use garba_partner.Table.{update_where, find_one}
use garba_partner.Members.Sanctions.{Applied}
use garba_partner.Api.{
  map_result, and_then, not_found, conflict, ok, transaction, validation_error, err, Handler,
}
use garba_partner.Pagination.{Page, order_by, page}
use garba_partner.Members.Lifting.{apply_sanction_effects}
use garba_partner.Members.Sanctions.{SanctionInput, apply_sanction}
use garba_partner.Connections.Model.{User, Match}
use garba_partner.Chat.Model.{cursor_of, Message}
use garba_partner.Moderation.Model.{
  conversation_view, is_opened, is_in_review, with_connections, ReportAction, resolved, in_review,
  is_undecided, connections_of, dismissed, ReportResolutionAction, Db, Report,
}
use garba_partner.Prelude.{
  ℕ, String, Bool, true, false, not, ◌&&◌, ◌||◌, Option, none, some, List, [], ◌∷◌, ◌++◌, ◌==◌, ◌+◌,
  leb, ltb, filter, take, if◌then◌else◌, is_some,
}
use garba_partner.Members.Model as Rows

-- `SANCTION_BY_ACTION`
abbrev pub sanction_by_action : ReportResolutionAction → Option SanctionType
sanction_by_action ReportResolutionAction.dismiss = none
sanction_by_action ReportResolutionAction.warn = some SanctionType.warning
sanction_by_action ReportResolutionAction.restrict_chat = some SanctionType.chat_restriction
sanction_by_action ReportResolutionAction.suspend = some SanctionType.suspension
sanction_by_action ReportResolutionAction.ban = some SanctionType.ban

abbrev pub is_report : ℕ → Report → Bool
is_report id r = r.id == id

abbrev pub taken : ℕ → Report → Report
taken admin_id r = record r { status = in_review; assigned_admin_id = some admin_id }

unfoldable pub assign_found : Option Report → ℕ → ℕ → Handler Db ℕ
assign_found none admin_id report_id db = (err not_found, db)
assign_found (some r) admin_id report_id db =
    if not (is_undecided r.status) then (err conflict, db) else (
      ok report_id,
      record db {
        reports = update_where (is_report report_id) (taken admin_id) db.reports;
        audit = db.audit ++ ReportAction.assign admin_id report_id ∷ [];
      },
    )

-- The detail that the endpoint then reads changes nothing.
unfoldable pub assign : ℕ → ℕ → Handler Db ℕ
unfolding assign_found
assign admin_id report_id db =
    assign_found (find_one (is_report report_id) db.reports) admin_id report_id db

abbrev reviewer_of : ℕ → Report → Option ℕ
reviewer_of admin_id r = elim r.assigned_admin_id [ none ↦ some admin_id | some id ↦ some id ]

abbrev pub reviewed : ℕ → Report → Report
reviewed admin_id r = record r { status = in_review; assigned_admin_id = reviewer_of admin_id r }

abbrev admin_conversation_window : ℕ
admin_conversation_window = 25

abbrev in_match : ℕ → Message → Bool
in_match match_id m = m.match_id == match_id

-- `createdAt <= pivot.createdAt`; without a pivot there is no condition.
abbrev not_after : Option Message → Message → Bool
not_after none m = true
not_after (some pivot) m = leb m.created_at pivot.created_at

abbrev before_pivot : ℕ → Option Message → List Message → List Message
before_pivot match_id pivot messages = take (admin_conversation_window + 1) (
    order_by newest_first cursor_of
      (filter (λ m. in_match match_id m && not_after pivot m) messages))

abbrev after_pivot : ℕ → Option Message → List Message → List Message
after_pivot match_id none messages = []
after_pivot match_id (some pivot) messages = take admin_conversation_window (
    order_by oldest_first cursor_of
      (filter (λ m. in_match match_id m && ltb pivot.created_at m.created_at) messages))

abbrev pivot_of : Report → ℕ → List Message → Option Message
pivot_of r match_id messages = elim r.message_id [
  | none ↦ none
  | some id ↦ find_one (λ m. m.id == id && in_match match_id m) messages
]

abbrev conversation_of : Report → ℕ → List Message → List Message
conversation_of r match_id messages =
    let pivot = pivot_of r match_id messages in
    reverse (before_pivot match_id pivot messages) ++ after_pivot match_id pivot messages

unfoldable pub view_match : Option Match → Report → ℕ → ℕ → Handler Db (List Message)
view_match none r admin_id report_id db = (err not_found, db)
view_match (some m) r admin_id report_id db = (
  ok (conversation_of r m.id db.chat.messages),
  record db {
    reports =
        if is_opened r.status || not (is_some r.assigned_admin_id)
        then update_where (is_report report_id) (reviewed admin_id) db.reports
        else db.reports;
    audit = db.audit ++ conversation_view admin_id report_id m.id ∷ [];
  },
)

unfoldable pub view_report : Option ℕ → Report → ℕ → ℕ → Handler Db (List Message)
unfolding view_match
view_report none r admin_id report_id db = (err conflict, db)
view_report (some match_id) r admin_id report_id db =
    if not (is_undecided r.status)
    then (err conflict, db)
    else view_match (find_one (λ m. m.id == match_id) db.chat.members.connections.matches) r
        admin_id report_id db

unfoldable pub view_found : Option Report → ℕ → ℕ → Handler Db (List Message)
unfolding view_report
view_found none admin_id report_id db = (err not_found, db)
view_found (some r) admin_id report_id db = view_report r.match_id r admin_id report_id db

unfoldable pub conversation : ℕ → ℕ → Handler Db (List Message)
unfolding view_found
conversation admin_id report_id db =
    view_found (find_one (is_report report_id) db.reports) admin_id report_id db

pub record ResolveInput : Type 0 where
  pub action : ReportResolutionAction
  pub note : String
  pub clear_auto_hide : Bool
  pub duration_days : Option ℕ

abbrev pub is_ban_action : ReportResolutionAction → Bool
is_ban_action ReportResolutionAction.ban = true
is_ban_action _ = false

abbrev is_dismiss : ReportResolutionAction → Bool
is_dismiss ReportResolutionAction.dismiss = true
is_dismiss _ = false

abbrev pub is_mild : ReportResolutionAction → Bool
is_mild ReportResolutionAction.dismiss = true
is_mild ReportResolutionAction.warn = true
is_mild _ = false

abbrev pub decided : ℕ → ResolveInput → ℕ → Report → Report
decided admin_id input now r = record r {
  status = if is_dismiss input.action then dismissed else resolved;
  resolution_action = some input.action;
  resolution_note = some input.note;
  resolved_by_admin_id = some admin_id;
  resolved_at = some now;
  assigned_admin_id = reviewer_of admin_id r;
}

abbrev sanction_input : Report → SanctionType → ResolveInput → SanctionInput
sanction_input r type input = record {
  user_id = r.reported_user_id;
  type = type;
  reason_code = r.reason;
  note = input.note;
  report_id = some r.id;
  duration_days = input.duration_days;
  reuse_active = true;
}

abbrev with_members : Rows.Db → Db → Db
with_members members db =
    let chat = db.chat in record db { chat = record chat { members = members } }

-- The sanction of the action, if it has one.
unfoldable pub sanction_for :
    Option SanctionType → Report → ℕ → ResolveInput → ℕ → Handler Db (Option Applied)
unfolding apply_sanction
sanction_for none r admin_id input now db = (ok none, db)
sanction_for (some type) r admin_id input now db =
    let (applied, members) =
      apply_sanction admin_id (sanction_input r type input) now db.chat.members in
    (map_result some applied, with_members members db)

abbrev visible : User → User
visible u = record u { hidden_from_discovery = false; hidden_reason = none }

unfoldable pub clear_hide : Bool → ℕ → Db → Db
clear_hide wanted user_id db =
    let pairs = connections_of db in
    if wanted
    then with_connections
        (record pairs { users = update_where (λ u. u.id == user_id) visible pairs.users }) db
    else db

unfoldable pub decide : Report → ℕ → ResolveInput → ℕ → Db → Db
unfolding clear_hide
decide r admin_id input now db =
    let cleared =
      clear_hide (input.clear_auto_hide && is_mild input.action) r.reported_user_id db in
    record cleared {
      reports = update_where (is_report r.id) (decided admin_id input now) cleared.reports;
      audit = cleared.audit ++ ReportAction.resolve admin_id r.id input.action ∷ [];
    }

unfoldable pub resolve_found : Option Report → ℕ → ResolveInput → ℕ → Handler Db (Option Applied)
unfolding sanction_for decide
resolve_found none admin_id input now db = (err not_found, db)
resolve_found (some r) admin_id input now db =
    if not (is_undecided r.status) || (is_ban_action input.action && not (is_in_review r.status))
    then (err conflict, db)
    else and_then (sanction_for (sanction_by_action input.action) r admin_id input now db)
        (λ applied db'. (ok applied, decide r admin_id input now db'))

unfoldable pub resolve_tx : ℕ → ℕ → ResolveInput → ℕ → Handler Db (Option Applied)
unfolding resolve_found
resolve_tx admin_id report_id input now =
    transaction
      (λ db. resolve_found (find_one (is_report report_id) db.reports) admin_id input now db)

abbrev pub lasts : ReportResolutionAction → Bool
lasts ReportResolutionAction.suspend = true
lasts ReportResolutionAction.restrict_chat = true
lasts _ = false

unfoldable pub take_effect : Option Applied → Db → Db
unfolding apply_sanction_effects
take_effect none db = db
take_effect (some applied) db =
    with_members (apply_sanction_effects applied.effects db.chat.members) db

unfoldable pub resolve : ℕ → ℕ → ResolveInput → ℕ → Handler Db ℕ
unfolding resolve_tx take_effect
resolve admin_id report_id input now db =
    if is_some input.duration_days && not (lasts input.action)
    then (err validation_error, db)
    else and_then (resolve_tx admin_id report_id input now db)
        (λ applied db'. (ok report_id, take_effect applied db'))

-- The queue: most urgent, then oldest.
abbrev pub queue_cursor : Report → QueueCursor
queue_cursor r = record { priority = r.priority; at = r.created_at; id = r.id }

abbrev is_wanted : Option ℕ → Report → Bool
is_wanted none r = is_undecided r.status
is_wanted (some priority) r = is_undecided r.status && r.priority == priority

-- `list` without the filters by status, reason and source.
unfoldable pub queue : ℕ → Option ℕ → Option QueueCursor → Db → Page queue_order queue_cursor
unfolding page
queue limit priority cursor db =
    page queue_order queue_cursor limit cursor (filter (is_wanted priority) db.reports)
