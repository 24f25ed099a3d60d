-- ===== src/Members/Sanctions.antt =====
-- `applySanction`, `liftSanction`, `expireSanctions` and what they share
-- (apps/api/src/modules/safety/sanctions.ts). Within one transaction the clock is read once.
pub mod Restricted
pub mod Out
pub mod Single
use garba_partner.Prelude.{
  ℕ, ◌+◌, ◌*◌, String, Bool, true, false, not, ◌&&◌, ◌||◌, Option, none, some, List, [], ◌∷◌, ◌++◌,
  map, leb, ◌==◌, if◌then◌else◌, is_some, or_else, take, filter, length,
}
use garba_partner.Table.{find_one, update_where, sort_by}
use garba_partner.Api.{Result, ok, err, Handler, transaction, not_found, conflict, validation_error}
use garba_partner.Connections.Model
use garba_partner.Connections.Pairs.{
  emit_match_ended, cancel_pending_interests_of, end_all_matches_of,
}
use garba_partner.Connections.Interests.{day_ms}
use garba_partner.Members.Model.{
  UserStatus, active, suspended, banned, SessionRevokeReason, SanctionType, warning,
  chat_restriction, suspension, ban, ReportReason, SafetyNotificationKind, warning_issued,
  chat_restricted, account_suspended, Account, Session, Sanction, AdminAction, AuditEntry, Notice,
  safety, disconnect, Db, is_account, is_active_status, is_suspended, is_banned,
  is_pending_deletion, is_warning, same_type, is_live, is_in_force,
}

abbrev pub with_status : UserStatus → Account → Account
with_status status a = record a { status = status }

abbrev pub is_live_of : ℕ → Session → Bool
is_live_of user_id s = s.user_id == user_id && is_live s

abbrev pub revoked_session : SessionRevokeReason → ℕ → Session → Session
revoked_session reason now s = record s { revoked_at = some now; revoked_reason = some reason }

unfoldable pub set_account_status : ℕ → UserStatus → ℕ → Db → Db
set_account_status user_id status now db =
    let changed = record db {
      accounts = update_where (is_account user_id) (with_status status) db.accounts;
    } in
    if is_active_status status then changed else record changed {
      sessions =
          update_where (is_live_of user_id) (revoked_session SessionRevokeReason.sanction now)
            db.sessions;
    }

abbrev pub is_hideable : ℕ → Model.User → Bool
is_hideable user_id u = u.id == user_id && not u.hidden_from_discovery

abbrev pub hidden_for : Model.HiddenReason → Model.User → Model.User
hidden_for reason u = record u { hidden_from_discovery = true; hidden_reason = some reason }

-- `hideFromDiscovery`: whether the flag changed.
unfoldable pub hide_from_discovery : ℕ → Model.HiddenReason → Model.Db → Bool × Model.Db
hide_from_discovery user_id reason db = (
  is_some (find_one (is_hideable user_id) db.users),
  record db { users = update_where (is_hideable user_id) (hidden_for reason) db.users },
)

pub record SanctionInput : Type 0 where
  pub user_id : ℕ
  pub type : SanctionType
  pub reason_code : ReportReason
  pub note : String
  pub report_id : Option ℕ
  pub duration_days : Option ℕ
  pub reuse_active : Bool

pub record Effects : Type 0 where
  pub user_id : ℕ
  pub disconnected : Bool
  pub ended_matches : List (ℕ × ℕ)
  pub notify : Option SafetyNotificationKind

pub record Applied : Type 0 where
  pub sanction : Option Sanction
  pub created : Bool
  pub effects : Effects

abbrev pub no_effects : ℕ → Effects
no_effects user_id = record {
  user_id = user_id;
  disconnected = false;
  ended_matches = [];
  notify = none;
}

abbrev pub is_sanction_of : ℕ → SanctionType → Sanction → Bool
is_sanction_of user_id type s = s.user_id == user_id && same_type s.type type && is_in_force s

-- What the account says of a sanction of this type; there is nothing to see of a warning.
abbrev pub shows : SanctionType → Account → Bool
shows warning a = false
shows chat_restriction a = is_some a.chat_restricted_at
shows suspension a = is_suspended a.status
shows ban a = is_banned a.status

-- `input.durationDays ? ... : null`, for which 0 is no duration
abbrev pub ends_of : Option ℕ → ℕ → Option ℕ
ends_of none now = none
ends_of (some days) now = if days == 0 then none else some (now + days * day_ms)

abbrev pub new_sanction : ℕ → ℕ → SanctionInput → ℕ → Sanction
new_sanction id admin_id input now = record {
  id = id;
  user_id = input.user_id;
  type = input.type;
  reason_code = input.reason_code;
  note = input.note;
  report_id = input.report_id;
  starts_at = now;
  ends_at = ends_of input.duration_days now;
  created_by_admin_id = admin_id;
  revoked_at = none;
  revoked_by_admin_id = none;
  revoke_reason = none;
  expired_at = none;
}

abbrev pub revoked_sanction : ℕ → String → ℕ → Sanction → Sanction
revoked_sanction admin_id reason now s = record s {
  revoked_at = some now;
  revoked_by_admin_id = some admin_id;
  revoke_reason = some reason;
}

abbrev pub with_chat_restriction : Option ℕ → Account → Account
with_chat_restriction at a = record a { chat_restricted_at = at }

unfoldable pub revoke_sanctions : ℕ → SanctionType → ℕ → String → ℕ → Db → Db
revoke_sanctions user_id type admin_id reason now db = record db {
  sanctions =
      update_where (is_sanction_of user_id type) (revoked_sanction admin_id reason now)
        db.sanctions;
}

ban_effects : ℕ → ℕ → ℕ → Db → (Effects × ℕ) × Db
unfolding revoke_sanctions set_account_status end_all_matches_of cancel_pending_interests_of
ban_effects user_id admin_id now db =
    let revoked = revoke_sanctions user_id suspension admin_id "Superseded by a ban." now db in
    let out = set_account_status user_id banned now revoked in
    let (ended, without_matches) = end_all_matches_of user_id admin_id now out.connections in
    let (cancelled, alone) = cancel_pending_interests_of user_id now without_matches in
    (
      (
        record { user_id = user_id; disconnected = true; ended_matches = ended; notify = none },
        cancelled,
      ),
      record out { connections = alone },
    )

-- The `switch` on the type: the effects, and how many interests were cancelled.
effects_of : SanctionType → ℕ → ℕ → ℕ → Db → (Effects × ℕ) × Db
unfolding ban_effects set_account_status
effects_of warning user_id admin_id now db =
    ((record (no_effects user_id) { notify = some warning_issued }, 0), db)
effects_of chat_restriction user_id admin_id now db = (
  (record (no_effects user_id) { notify = some chat_restricted }, 0),
  record db {
    accounts = update_where (is_account user_id) (with_chat_restriction (some now)) db.accounts;
  },
)
effects_of suspension user_id admin_id now db = (
  (record (no_effects user_id) { disconnected = true; notify = some account_suspended }, 0),
  set_account_status user_id suspended now db,
)
effects_of ban user_id admin_id now db = ban_effects user_id admin_id now db

audit_action : SanctionType → AdminAction
audit_action warning = AdminAction.warn
audit_action chat_restriction = AdminAction.restrict_chat
audit_action suspension = AdminAction.suspend
audit_action ban = AdminAction.ban_user

-- The new row, its effects, and the audit entry.
unfoldable pub impose : Account → ℕ → SanctionInput → ℕ → Db → Result Applied × Db
unfolding effects_of audit_action
impose user admin_id input now db =
    let row = new_sanction db.next_id admin_id input now in
    let recorded = record db { sanctions = db.sanctions ++ row ∷ []; next_id = db.next_id + 1 } in
    let ((effects, cancelled), db') = effects_of input.type input.user_id admin_id now recorded in
    let entry : AuditEntry = record {
      admin_id = admin_id;
      action = audit_action input.type;
      user_id = input.user_id;
      sanction_ids = row.id ∷ [];
      reason = input.note;
      from = user.status;
      matches_ended = length effects.ended_matches;
      cancelled_interests = cancelled;
    } in
    (
      ok (record { sanction = some row; created = true; effects = effects }),
      record db' { audit = db'.audit ++ entry ∷ [] },
    )

impose_or_reuse : Option Sanction → Account → ℕ → SanctionInput → ℕ → Db → Result Applied × Db
unfolding impose
impose_or_reuse existing user admin_id input now db =
    if not (is_warning input.type) && (is_some existing || shows input.type user)
    then (if not input.reuse_active then (err conflict, db) else (
      ok (record { sanction = existing; created = false; effects = no_effects input.user_id }),
      db,
    ))
    else impose user admin_id input now db

sanction_user : Option Account → ℕ → SanctionInput → ℕ → Db → Result Applied × Db
unfolding impose_or_reuse
sanction_user none admin_id input now db = (err not_found, db)
sanction_user (some user) admin_id input now db =
    if is_pending_deletion user.status || (is_banned user.status && not (same_type input.type ban))
    then (err conflict, db)
    else impose_or_reuse (find_one (is_sanction_of input.user_id input.type) db.sanctions) user
        admin_id input now db

-- Only suspensions and chat restrictions can have a duration.
abbrev takes_duration : SanctionType → Bool
takes_duration suspension = true
takes_duration chat_restriction = true
takes_duration _ = false

-- Runs in the caller's transaction.
unfoldable pub apply_sanction : ℕ → SanctionInput → ℕ → Handler Db Applied
unfolding sanction_user
apply_sanction admin_id input now db =
    if is_some input.duration_days && not (takes_duration input.type)
    then (err validation_error, db)
    else sanction_user (find_one (is_account input.user_id) db.accounts) admin_id input now db
