-- ===== src/Members/Lifting.antt =====
-- `liftSanction`, `applySanctionEffects` and the job `expireSanctions`
-- (apps/api/src/modules/safety/sanctions.ts). Within one transaction the clock is read once; the
-- rows that other processes hold locked are a parameter of the job.
pub mod Single
pub mod Job
use garba_partner.Prelude.{
  ℕ, String, Bool, true, false, not, ◌&&◌, Option, none, some, List, [], ◌∷◌, ◌++◌, map, leb, ◌==◌,
  if◌then◌else◌, is_some, or_else, take, filter,
}
use garba_partner.Table.{find_one, update_where, sort_by}
use garba_partner.Api.{Result, ok, err, Handler, not_found, conflict}
use garba_partner.Connections.Pairs.{emit_match_ended}
use garba_partner.Members.Model.{
  active, suspended, SanctionType, Account, Sanction, AdminAction, AuditEntry, Notice, safety,
  disconnect, Db, is_account, is_suspended, is_in_force,
}
use garba_partner.Members.Sanctions.{
  with_status, set_account_status, Effects, is_sanction_of, shows, with_chat_restriction,
  revoke_sanctions,
}

-- `Exclude<SanctionType, 'warning'>`
pub data LiftableSanction : Type 0 where
  chat_restriction suspension ban : LiftableSanction

abbrev pub type_of : LiftableSanction → SanctionType
type_of chat_restriction = SanctionType.chat_restriction
type_of suspension = SanctionType.suspension
type_of ban = SanctionType.ban

lift_action : LiftableSanction → AdminAction
lift_action chat_restriction = AdminAction.lift_chat_restriction
lift_action suspension = AdminAction.reactivate
lift_action ban = AdminAction.unban

restored : LiftableSanction → ℕ → ℕ → Db → Db
unfolding set_account_status
restored chat_restriction user_id now db = record db {
  accounts = update_where (is_account user_id) (with_chat_restriction none) db.accounts;
}
restored suspension user_id now db = set_account_status user_id active now db
restored ban user_id now db = set_account_status user_id active now db

lift_of : Option Account → ℕ → ℕ → LiftableSanction → String → ℕ → Db → Result (Unit {0}) × Db
unfolding restored revoke_sanctions lift_action
lift_of none admin_id user_id type reason now db = (err not_found, db)
lift_of (some user) admin_id user_id type reason now db =
    let db' =
      revoke_sanctions user_id (type_of type) admin_id reason now (restored type user_id now db) in
    let entry : AuditEntry = record {
      admin_id = admin_id;
      action = lift_action type;
      user_id = user_id;
      sanction_ids = map (λ s. s.id) (filter (is_sanction_of user_id (type_of type)) db.sanctions);
      reason = reason;
      from = user.status;
      matches_ended = 0;
      cancelled_interests = 0;
    } in
    if not (shows (type_of type) user)
    then (err conflict, db)
    else (ok tt, record db' { audit = db'.audit ++ entry ∷ [] })

-- Runs in the caller's transaction.
unfoldable pub lift_sanction : ℕ → ℕ → LiftableSanction → String → ℕ → Handler Db (Unit {0})
unfolding lift_of
lift_sanction admin_id user_id type reason now db =
    lift_of (find_one (is_account user_id) db.accounts) admin_id user_id type reason now db

-- After the commit: ended chats close, sockets disconnect, the member is told.
close_chats : ℕ → List (ℕ × ℕ) → Db → Db
unfolding emit_match_ended
close_chats user_id [] db = db
close_chats user_id ((match_id, partner_id) ∷ rest) db =
    close_chats user_id rest (record db {
      connections = emit_match_ended (some match_id) user_id partner_id db.connections;
    })

tell : Option Notice → Db → Db
tell none db = db
tell (some n) db = record db { notices = db.notices ++ n ∷ [] }

unfoldable pub apply_sanction_effects : Effects → Db → Db
unfolding close_chats tell
apply_sanction_effects effects db =
    tell (elim effects.notify [ none ↦ none | some kind ↦ some (safety effects.user_id kind) ])
      (tell (if effects.disconnected then some (disconnect effects.user_id) else none)
        (close_chats effects.user_id effects.ended_matches db))

abbrev pub is_over : ℕ → Option ℕ → Bool
is_over now none = false
is_over now (some at) = leb at now

abbrev pub is_due : ℕ → Sanction → Bool
is_due now s = is_over now s.ends_at && is_in_force s

abbrev pub expired_sanction : ℕ → Sanction → Sanction
expired_sanction now s = record s { expired_at = some now }

abbrev pub is_suspended_account : ℕ → Account → Bool
is_suspended_account id a = is_account id a && is_suspended a.status

-- A suspended account becomes active again only while it is still suspended.
unfoldable pub freed : Sanction → List Account → List Account
freed s accounts = elim s.type [
  | SanctionType.warning ↦ accounts
  | SanctionType.chat_restriction ↦
      update_where (is_account s.user_id) (with_chat_restriction none) accounts
  | SanctionType.suspension ↦
      update_where (is_suspended_account s.user_id) (with_status active) accounts
  | SanctionType.ban ↦ accounts
]

unfoldable pub expire_sanction : ℕ → Sanction → Db → Db
unfolding freed
expire_sanction now s db = record db {
  sanctions = update_where (λ r. r.id == s.id) (expired_sanction now) db.sanctions;
  accounts = freed s db.accounts;
}

expire_each : ℕ → List Sanction → Db → Db
unfolding expire_sanction
expire_each now [] db = db
expire_each now (s ∷ ss) db = expire_each now ss (expire_sanction now s db)

-- At most 200 rows, the earliest ends first; `held` are the rows that `SKIP LOCKED` leaves out.
unfoldable pub due_sanctions : ℕ → (ℕ → Bool) → Db → List Sanction
unfolding sort_by
due_sanctions now held db = take 200 (
    sort_by (λ s. or_else s.ends_at 0) (filter (λ s. is_due now s && not (held s.id)) db.sanctions))

unfoldable pub expire_sanctions : ℕ → (ℕ → Bool) → Db → List Sanction × Db
unfolding due_sanctions expire_each
expire_sanctions now held db = let due = due_sanctions now held db in (due, expire_each now due db)
