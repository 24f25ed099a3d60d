-- ===== src/Members/Tests.antt =====
-- Concrete runs of sign-in, sanctions and the expiry job.
use garba_partner.Members.Sessions.Tokens.{refresh-reuse, refresh-once}
use garba_partner.Members.Lifting.Job.{expire_sanctions-keeps_status, expire_sanctions-none_due}
use garba_partner.Api.{ok, refresh_invalid, err}
use garba_partner.Members.Lifting.{expire_sanctions, is_due}
use garba_partner.Members.Sessions.SignedOut.{apply_sanction-SignedOut, SignedOut}
use garba_partner.Members.Sanctions.Out.{apply_sanction-BannedOut, BannedOut}
use garba_partner.Members.Sanctions.Single.{OneInForce}
use garba_partner.Members.Sessions.{
  had_token, seen, has_token, new_session, rotated, login, ClientContext, refresh,
}
use garba_partner.Table.{update_where, find_one, sum_by, count_where}
use garba_partner.Members.Sanctions.{new_sanction, apply_sanction, SanctionInput}
use garba_partner.Members.Model.{
  is_account, active, spam, Account, Session, Db, SanctionType, Sanction,
}
use garba_partner.Members.Lifting.Single.{serve_all-OneInForce, serve_all, Request, Timed}
use garba_partner.Prelude.{
  filter, length, ◌≡◌, ◌≤◌, refl, true, false, none, some, [], ◌∷◌, arith, inr, List,
}
use garba_partner.Connections.Model as Pairs

abbrev no_pairs : Pairs.Db
no_pairs = record {
  users = [];
  preferences = [];
  profiles = [];
  events = [];
  attendances = [];
  interests = [];
  matches = [];
  blocks = [];
  signals = [];
  next_id = 1;
}

abbrev dancer : Account
dancer = record {
  id = 1;
  phone_hash = some 77;
  status = active;
  chat_restricted_at = none;
  last_active_at = none;
}

abbrev phone : ClientContext
phone = record { ip_hash = 9; user_agent = none }

abbrev empty : Db
empty = record {
  accounts = dancer ∷ [];
  sessions = [];
  sanctions = [];
  connections = no_pairs;
  audit = [];
  notices = [];
  next_id = 10;
}

-- signed in with the token 500
abbrev signed_in : Db
signed_in = (login 77 30 500 phone 1000 empty).1

signed_in_found :
    (login 77 30 500 phone 1000 empty).0
    ≡ ok (record { user_id = 1; session_id = 10; expires_at = 2592001000 })
unfolding login find_one
signed_in_found = refl

abbrev input_of : SanctionType → SanctionInput
input_of type = record {
  user_id = 1;
  type = type;
  reason_code = spam;
  note = "seen";
  report_id = none;
  duration_days = none;
  reuse_active = false;
}

abbrev banned_row : Sanction
banned_row = new_sanction 11 3 (input_of SanctionType.ban) 2000

ban_created :
    (apply_sanction 3 (input_of SanctionType.ban) 2000 signed_in).0
    ≡ ok (record {
      sanction = some banned_row;
      created = true;
      effects = record { user_id = 1; disconnected = true; ended_matches = []; notify = none };
    })
unfolding apply_sanction find_one login update_where sum_by
ban_created = refl

apply_sanction-BannedOut_example :
    BannedOut 1 (apply_sanction 3 (input_of SanctionType.ban) 2000 signed_in).1
apply_sanction-BannedOut_example =
    apply_sanction-BannedOut 3 (input_of SanctionType.ban) 2000 signed_in
      (record {
        sanction = some banned_row;
        created = true;
        effects = record { user_id = 1; disconnected = true; ended_matches = []; notify = none };
      })
      ban_created refl refl

apply_sanction-SignedOut_example :
    SignedOut 1 (apply_sanction 3 (input_of SanctionType.ban) 2000 signed_in).1
apply_sanction-SignedOut_example =
    apply_sanction-SignedOut 3 (input_of SanctionType.ban) 2000 signed_in
      (record {
        sanction = some banned_row;
        created = true;
        effects = record { user_id = 1; disconnected = true; ended_matches = []; notify = none };
      })
      ban_created refl (inr refl)

-- a suspension of a day, its end by the job, and a ban
abbrev for_a_day : SanctionInput
for_a_day = record (input_of SanctionType.suspension) { duration_days = some 1 }

abbrev moderation : List Timed
moderation =
    record { now = 2000; request = Request.apply 3 for_a_day }
    ∷ record { now = 90000000; request = Request.expire (λ id. false) }
    ∷ record { now = 90000001; request = Request.apply 3 (input_of SanctionType.ban) }
    ∷ []

signed_in-OneInForce : OneInForce signed_in.sanctions
unfolding login sum_by find_one
signed_in-OneInForce = record { single = λ u t serious. omega arith }

serve_all-OneInForce_example : OneInForce (serve_all moderation signed_in).sanctions
serve_all-OneInForce_example = serve_all-OneInForce moderation signed_in signed_in-OneInForce

abbrev suspended_day : Db
suspended_day = (apply_sanction 3 for_a_day 2000 signed_in).1

few_due : length (filter (is_due 90000000) suspended_day.sanctions) ≤ 200
unfolding apply_sanction find_one login update_where sum_by
few_due = omega arith

expire_sanctions-none_due_example :
    count_where
      (is_due 90000000)
      (expire_sanctions 90000000 (λ id. false) suspended_day).1.sanctions
    ≡ 0
expire_sanctions-none_due_example =
    expire_sanctions-none_due 90000000 (λ id. false) suspended_day (λ id. refl) few_due

signed_in_account : find_one (is_account 1) signed_in.accounts ≡ some (seen 1000 dancer)
unfolding login find_one update_where
signed_in_account = refl

expire_sanctions-keeps_status_example :
    (after : Account) × (find_one
        (is_account 1)
        (expire_sanctions 90000000 (λ id. false) signed_in).1.accounts
      ≡ some after)
    × (after.status ≡ active)
expire_sanctions-keeps_status_example =
    expire_sanctions-keeps_status 90000000 (λ id. false) signed_in 1 (seen 1000 dancer)
      signed_in_account refl

-- the token 500 is exchanged for 501
abbrev rotated_once : Db
rotated_once = (refresh 500 501 phone 5000 signed_in).1

rotation :
    (refresh 500 501 phone 5000 signed_in).0
    ≡ ok (record { user_id = 1; session_id = 10; expires_at = 2592001000 })
unfolding refresh login find_one update_where
rotation = refl

one_holder : count_where (has_token 500) signed_in.sessions ≤ 1
unfolding login sum_by find_one
one_holder = omega arith

refresh-once_example : (refresh 500 502 phone 6000 rotated_once).0 ≡ err refresh_invalid
refresh-once_example =
    refresh-once 500 501 phone 5000 signed_in
      (record { user_id = 1; session_id = 10; expires_at = 2592001000 }) rotation refl one_holder
      502 phone 6000

abbrev session : Session
session = rotated 500 501 phone 5000 (new_session 10 1 500 phone 2592001000 1000)

gone : find_one (has_token 500) rotated_once.sessions ≡ none
unfolding refresh login find_one update_where
gone = refl

rotated_away : find_one (had_token 500) rotated_once.sessions ≡ some session
unfolding refresh login find_one update_where
rotated_away = refl

current : find_one (has_token 501) rotated_once.sessions ≡ some session
unfolding refresh login find_one update_where
current = refl

-- a minute later the old token comes back
refresh-reuse_example :
    (refresh 501 503 phone 70000 (refresh 500 502 phone 65000 rotated_once).1).0
    ≡ err refresh_invalid
refresh-reuse_example =
    refresh-reuse 500 502 phone 65000 rotated_once session gone rotated_away refl 501 session
      current refl 503 phone 70000
