-- ===== src/Members/Sessions.antt =====
-- Sign-in, the rotation of refresh tokens and the check of a session on every request
-- (apps/api/src/modules/auth/auth.service.ts, apps/api/src/middlewares/authenticate.ts). The
-- verified phone, the random tokens and their hashes, and the claims of an access token come from
-- other code: they are arguments.
pub mod SignedOut
pub mod Tokens
use garba_partner.Prelude.{
  ℕ, ◌+◌, ◌-◌, ◌*◌, Bool, true, false, not, ◌&&◌, ◌||◌, Option, none, some, List, [], ◌∷◌, ◌++◌,
  ltb, leb, ◌==◌, if◌then◌else◌, is_some, or_else, take,
}
use garba_partner.Table.{find_one, update_where}
use garba_partner.Api.{
  Result, ok, err, Handler, transaction, and_then, account_banned, refresh_invalid, unauthenticated,
}
use garba_partner.Connections.Interests.{day_ms}
use garba_partner.Members.Model.{
  UserStatus, active, SessionRevokeReason, sanction, reuse_detected, Account, Session, Db,
  is_account, is_banned, is_active_status, is_live,
}
use garba_partner.Members.Sanctions.{revoked_session, is_live_of}

abbrev pub refresh_reuse_grace_seconds : ℕ
refresh_reuse_grace_seconds = 15

-- The request: the address already hashed.
pub record ClientContext : Type 0 where
  pub ip_hash : ℕ
  pub user_agent : Option (List ℕ)

abbrev truncate_user_agent : Option (List ℕ) → Option (List ℕ)
truncate_user_agent none = none
truncate_user_agent (some []) = none
truncate_user_agent (some (c ∷ cs)) = some (take 255 (c ∷ cs))

pub record Issued : Type 0 where
  pub user_id : ℕ
  pub session_id : ℕ
  pub expires_at : ℕ

abbrev pub new_session : ℕ → ℕ → ℕ → ClientContext → ℕ → ℕ → Session
new_session id user_id token_hash client expires_at now = record {
  id = id;
  user_id = user_id;
  refresh_token_hash = token_hash;
  previous_refresh_token_hash = none;
  rotated_at = none;
  user_agent = truncate_user_agent client.user_agent;
  ip_hash = some client.ip_hash;
  last_used_at = now;
  expires_at = expires_at;
  revoked_at = none;
  revoked_reason = none;
}

unfoldable pub create_session : ℕ → ℕ → ℕ → ClientContext → ℕ → Db → Issued × Db
create_session ttl_days user_id token_hash client now db =
    let expires_at = now + ttl_days * day_ms in
    (
      record { user_id = user_id; session_id = db.next_id; expires_at = expires_at },
      record db {
        sessions =
            db.sessions ++ new_session db.next_id user_id token_hash client expires_at now ∷ [];
        next_id = db.next_id + 1;
      },
    )

abbrev pub has_phone : ℕ → Account → Bool
has_phone hash a = elim a.phone_hash [ none ↦ false | some h ↦ h == hash ]

abbrev new_account : ℕ → ℕ → Account
new_account id phone_hash = record {
  id = id;
  phone_hash = some phone_hash;
  status = active;
  chat_restricted_at = none;
  last_active_at = none;
}

abbrev pub seen : ℕ → Account → Account
seen now a = record a { last_active_at = some now }

sign_in : Account → ℕ → ℕ → ClientContext → ℕ → Db → Result Issued × Db
unfolding create_session
sign_in user ttl_days token_hash client now db =
    let (issued, db') =
      create_session ttl_days user.id token_hash client now
        (record db { accounts = update_where (is_account user.id) (seen now) db.accounts }) in
    if is_banned user.status then (err account_banned, db) else (ok issued, db')

sign_in_or_up : Option Account → ℕ → ℕ → ℕ → ClientContext → ℕ → Db → Result Issued × Db
unfolding sign_in
sign_in_or_up (some user) phone_hash ttl_days token_hash client now db =
    sign_in user ttl_days token_hash client now db
sign_in_or_up none phone_hash ttl_days token_hash client now db =
    let user = new_account db.next_id phone_hash in
    sign_in user ttl_days token_hash client now
      (record db { accounts = db.accounts ++ user ∷ []; next_id = db.next_id + 1 })

-- `loginWithPhoneToken` for a phone that the provider has verified.
unfoldable pub login : ℕ → ℕ → ℕ → ClientContext → ℕ → Handler Db Issued
unfolding sign_in_or_up
login phone_hash ttl_days token_hash client now db =
    sign_in_or_up (find_one (has_phone phone_hash) db.accounts) phone_hash ttl_days token_hash
      client now db

pub data RefreshOutcome : Type 0 where
  success : Issued → RefreshOutcome
  invalid : RefreshOutcome
  reused : (session_id : ℕ) → RefreshOutcome

abbrev pub has_token : ℕ → Session → Bool
has_token hash s = s.refresh_token_hash == hash

abbrev pub had_token : ℕ → Session → Bool
had_token hash s =
    elim s.previous_refresh_token_hash [ none ↦ false | some h ↦ h == hash ] && is_live s

abbrev pub is_session : ℕ → Session → Bool
is_session id s = s.id == id

abbrev pub rotated : ℕ → ℕ → ClientContext → ℕ → Session → Session
rotated old next client now s = record s {
  refresh_token_hash = next;
  previous_refresh_token_hash = some old;
  rotated_at = some now;
  last_used_at = now;
  user_agent = truncate_user_agent client.user_agent;
  ip_hash = some client.ip_hash;
}

-- At most one write per hour.
abbrev pub is_idle : ℕ → Account → Bool
is_idle now a = elim a.last_active_at [ none ↦ true | some at ↦ ltb at (now - 60 * 60 * 1000) ]

abbrev pub revoke_session : ℕ → SessionRevokeReason → ℕ → Db → Db
revoke_session id reason now db = record db {
  sessions = update_where (is_session id) (revoked_session reason now) db.sessions;
}

refresh_user : Option Account → Session → ℕ → ℕ → ClientContext → ℕ → Db → RefreshOutcome × Db
refresh_user none s old next client now db = (invalid, revoke_session s.id sanction now db)
refresh_user (some user) s old next client now db =
    if is_banned user.status then (invalid, revoke_session s.id sanction now db) else (
      success (record { user_id = user.id; session_id = s.id; expires_at = s.expires_at }),
      record db {
        sessions = update_where (is_session s.id) (rotated old next client now) db.sessions;
        accounts = update_where (λ a. is_account user.id a && is_idle now a) (seen now) db.accounts;
      },
    )

-- The grace is for two tabs that refresh at once. Without a rotation time the source takes 0.
refresh_reused : Option Session → ℕ → Db → RefreshOutcome × Db
refresh_reused none now db = (invalid, db)
refresh_reused (some s) now db =
    if leb (now - or_else s.rotated_at 0) (refresh_reuse_grace_seconds * 1000)
    then (invalid, db)
    else (reused s.id, revoke_session s.id reuse_detected now db)

refresh_found : Option Session → ℕ → ℕ → ClientContext → ℕ → Db → RefreshOutcome × Db
unfolding refresh_user refresh_reused
refresh_found (some s) old next client now db =
    if is_some s.revoked_at || leb s.expires_at now
    then (invalid, db)
    else refresh_user (find_one (is_account s.user_id) db.accounts) s old next client now db
refresh_found none old next client now db =
    refresh_reused (find_one (had_token old) db.sessions) now db

unfoldable pub refresh_tx : ℕ → ℕ → ClientContext → ℕ → Db → RefreshOutcome × Db
unfolding refresh_found
refresh_tx old next client now db =
    refresh_found (find_one (has_token old) db.sessions) old next client now db

refresh_answer : RefreshOutcome → Result Issued
refresh_answer (success issued) = ok issued
refresh_answer invalid = err refresh_invalid
refresh_answer (reused id) = err refresh_invalid

-- `old` is the hash of the token presented and `next` that of the random token that replaces it.
-- The revocation of a reused session is committed although the request fails.
unfoldable pub refresh : ℕ → ℕ → ClientContext → ℕ → Handler Db Issued
unfolding refresh_tx refresh_answer
refresh old next client now db =
    let (outcome, db') = refresh_tx old next client now db in (refresh_answer outcome, db')

abbrev pub is_own_live : ℕ → ℕ → Session → Bool
is_own_live user_id id s = s.id == id && s.user_id == user_id && is_live s

unfoldable pub logout : ℕ → ℕ → Bool → ℕ → Db → Db
logout user_id session_id all_devices now db = record db {
  sessions =
      if all_devices
      then update_where (is_live_of user_id) (revoked_session SessionRevokeReason.logout_all now)
          db.sessions
      else update_where (is_own_live user_id session_id)
          (revoked_session SessionRevokeReason.logout now) db.sessions;
}

abbrev pub is_usable : ℕ → ℕ → ℕ → Session → Bool
is_usable user_id session_id now s = is_own_live user_id session_id s && ltb now s.expires_at

pub record MemberAuthContext : Type 0 where
  pub user_id : ℕ
  pub session_id : ℕ
  pub status : UserStatus

admit : Option Session → Option Account → Result (Option MemberAuthContext)
admit none user = ok none
admit (some s) none = ok none
admit (some s) (some user) =
    if is_banned user.status
    then err account_banned
    else ok (some (record { user_id = user.id; session_id = s.id; status = user.status }))

-- `resolveMember`, for the claims of a token that verified: `ok none` is no member.
unfoldable pub authenticate : ℕ → ℕ → ℕ → Db → Result (Option MemberAuthContext)
unfolding admit
authenticate user_id session_id now db =
    admit (find_one (is_usable user_id session_id now) db.sessions)
      (find_one (is_account user_id) db.accounts)

-- `isMemberSessionActive`: for every event of a socket.
unfoldable pub is_member_session_active : ℕ → ℕ → ℕ → Db → Bool
is_member_session_active user_id session_id now db =
    is_some (find_one (is_usable user_id session_id now) db.sessions)
    && is_some (find_one (λ a. is_account user_id a && is_active_status a.status) db.accounts)
