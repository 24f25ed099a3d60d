-- ===== src/Members/Model.antt =====
-- The rows that sign-in and sanctions read and write (apps/api/src/models: user, user-session,
-- user-sanction), beside those of Connections. The columns of `users` stand in two rows: those
-- that discovery and interests read in `Connections.Model.User`, the others in `Account`.
use garba_partner.Prelude.{ℕ, String, Bool, true, false, not, ◌&&◌, Option, List, is_some, ◌==◌}
use garba_partner.Connections.Model

pub data UserStatus : Type 0 where
  active suspended banned pending_deletion : UserStatus

pub data SessionRevokeReason : Type 0 where
  logout logout_all reuse_detected sanction deletion : SessionRevokeReason

pub data SanctionType : Type 0 where
  warning chat_restriction suspension ban : SanctionType

pub data ReportReason : Type 0 where
  fake_profile harassment spam asking_for_money inappropriate_behavior : ReportReason
  threatening_behavior impersonation underage other : ReportReason

pub data SafetyNotificationKind : Type 0 where
  warning_issued chat_restricted account_suspended restriction_lifted : SafetyNotificationKind
  report_reviewed : SafetyNotificationKind

pub record Account : Type 0 where
  pub id : ℕ
  pub phone_hash : Option ℕ
  pub status : UserStatus
  pub chat_restricted_at : Option ℕ
  pub last_active_at : Option ℕ

-- Hashes are numbers.
pub record Session : Type 0 where
  pub id : ℕ
  pub user_id : ℕ
  pub refresh_token_hash : ℕ
  pub previous_refresh_token_hash : Option ℕ
  pub rotated_at : Option ℕ
  pub user_agent : Option (List ℕ)
  pub ip_hash : Option ℕ
  pub last_used_at : ℕ
  pub expires_at : ℕ
  pub revoked_at : Option ℕ
  pub revoked_reason : Option SessionRevokeReason

pub record Sanction : Type 0 where
  pub id : ℕ
  pub user_id : ℕ
  pub type : SanctionType
  pub reason_code : ReportReason
  pub note : String
  pub report_id : Option ℕ
  pub starts_at : ℕ
  pub ends_at : Option ℕ
  pub created_by_admin_id : ℕ
  pub revoked_at : Option ℕ
  pub revoked_by_admin_id : Option ℕ
  pub revoke_reason : Option String
  pub expired_at : Option ℕ

pub data AdminAction : Type 0 where
  warn restrict_chat suspend ban_user lift_chat_restriction reactivate unban : AdminAction

-- An entry of the admin audit log about a member.
pub record AuditEntry : Type 0 where
  pub admin_id : ℕ
  pub action : AdminAction
  pub user_id : ℕ
  pub sanction_ids : List ℕ
  pub reason : String
  pub from : UserStatus
  pub matches_ended : ℕ
  pub cancelled_interests : ℕ

-- What a member is told of a sanction, and whose sockets are closed.
pub data Notice : Type 0 where
  safety : (user_id : ℕ) → SafetyNotificationKind → Notice
  disconnect : (user_id : ℕ) → Notice

pub record Db : Type 0 where
  pub accounts : List Account
  pub sessions : List Session
  pub sanctions : List Sanction
  pub connections : Model.Db
  pub audit : List AuditEntry
  pub notices : List Notice
  pub next_id : ℕ

abbrev pub is_account : ℕ → Account → Bool
is_account id a = a.id == id

abbrev pub is_active_status : UserStatus → Bool
is_active_status active = true
is_active_status _ = false

abbrev pub is_suspended : UserStatus → Bool
is_suspended suspended = true
is_suspended _ = false

abbrev pub is_banned : UserStatus → Bool
is_banned banned = true
is_banned _ = false

abbrev pub is_pending_deletion : UserStatus → Bool
is_pending_deletion pending_deletion = true
is_pending_deletion _ = false

abbrev pub is_warning : SanctionType → Bool
is_warning warning = true
is_warning _ = false

abbrev pub same_type : SanctionType → SanctionType → Bool
same_type warning warning = true
same_type chat_restriction chat_restriction = true
same_type suspension suspension = true
same_type ban ban = true
same_type _ _ = false

-- `revokedAt: null`
abbrev pub is_live : Session → Bool
is_live s = not (is_some s.revoked_at)

-- `ACTIVE_WHERE`
abbrev pub is_in_force : Sanction → Bool
is_in_force s = not (is_some s.revoked_at) && not (is_some s.expired_at)
