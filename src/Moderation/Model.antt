-- ===== src/Moderation/Model.antt =====
-- Reports, their evidence, and the safety log (apps/api/src/models/report.model.ts).
use garba_partner.Connections.Model.{HiddenReason}
use garba_partner.Members.Model.{ReportReason}
use garba_partner.Prelude.{ℕ, String, Bool, true, false, Option, List}
use garba_partner.Connections.Model as Pairs
use garba_partner.Chat.Model as Talk

-- `opened` is the status 'open'.
pub data ReportStatus : Type 0 where
  opened in_review resolved dismissed : ReportStatus

pub data ReportSource : Type 0 where
  member system : ReportSource

pub data ReportResolutionAction : Type 0 where
  dismiss warn restrict_chat suspend ban : ReportResolutionAction

pub data Trigger : Type 0 where
  money_requests repeated_messages frequently_blocked : Trigger

pub data SenderRole : Type 0 where
  reporter reported : SenderRole

pub record EvidenceMessage : Type 0 where
  pub id : ℕ
  pub sender_role : SenderRole
  pub body : List ℕ
  pub created_at : ℕ
  pub reported : Bool
  pub contains_contact_info : Bool

-- Of the signals the counts, and when the detection was last made; of the profile the image.
pub record Signals : Type 0 where
  pub counts : List ℕ
  pub last_detected_at : ℕ

pub record Evidence : Type 0 where
  pub profile : Option (Option ℕ)
  pub trigger : Option Trigger
  pub signals : Option Signals
  pub messages : Option (List EvidenceMessage)

pub record Report : Type 0 where
  pub id : ℕ
  pub source : ReportSource
  pub reporter_id : Option ℕ
  pub reported_user_id : ℕ
  pub reason : ReportReason
  pub priority : ℕ
  pub details : Option String
  pub evidence : Evidence
  pub status : ReportStatus
  pub assigned_admin_id : Option ℕ
  pub resolution_action : Option ReportResolutionAction
  pub resolution_note : Option String
  pub resolved_by_admin_id : Option ℕ
  pub resolved_at : Option ℕ
  pub message_id : Option ℕ
  pub match_id : Option ℕ
  pub created_at : ℕ

pub data SafetyEvent : Type 0 where
  report_limit_reached : (user_id recent : ℕ) → SafetyEvent
  report_created : (user_id report_id reporter_id priority : ℕ) → SafetyEvent
  auto_hidden : (user_id report_id : ℕ) → HiddenReason → SafetyEvent
  suspicious : (user_id report_id : ℕ) → Trigger → (hidden : Bool) → SafetyEvent

-- The entries of the admin audit log about reports.
pub data ReportAction : Type 0 where
  assign : (admin_id report_id : ℕ) → ReportAction
  conversation_view : (admin_id report_id match_id : ℕ) → ReportAction
  resolve : (admin_id report_id : ℕ) → ReportResolutionAction → ReportAction

-- Notices to reporters are not here: nothing reads them back.
pub record Db : Type 0 where
  pub chat : Talk.Db
  pub reports : List Report
  pub events : List SafetyEvent
  pub audit : List ReportAction
  pub next_id : ℕ

-- `['open', 'in_review']`
abbrev pub is_undecided : ReportStatus → Bool
is_undecided opened = true
is_undecided in_review = true
is_undecided _ = false

abbrev pub is_in_review : ReportStatus → Bool
is_in_review in_review = true
is_in_review _ = false

abbrev pub is_opened : ReportStatus → Bool
is_opened opened = true
is_opened _ = false

abbrev pub is_by_member : ReportSource → Bool
is_by_member member = true
is_by_member system = false

abbrev pub connections_of : Db → Pairs.Db
connections_of db = db.chat.members.connections

abbrev pub with_connections : Pairs.Db → Db → Db
with_connections connections db =
    let chat = db.chat in
    let members = chat.members in
    record db { chat = record chat { members = record members { connections = connections } } }
