-- ===== src/Moderation/Tests.antt =====
-- Concrete reports.
use garba_partner.Api.{ok}
use garba_partner.Moderation.Requests.Decided.{serve_all-decided, serve_all-Sound}
use garba_partner.Pagination.{order_by}
use garba_partner.Moderation.Create.Apart.{create_tx-Unconnected}
use garba_partner.Connections.Single.{OnePerPair}
use garba_partner.Members.Model.{ReportReason, UserStatus, Account}
use garba_partner.Chat.Model.{Message}
use garba_partner.Moderation.Requests.Automatic.{serve-SameMembers, SameMembers}
use garba_partner.Connections.Pairs.Endings.{Unconnected}
use garba_partner.Table.{update_where, find_one, sum_by}
use garba_partner.Moderation.Resolve.{is_report, ResolveInput}
use garba_partner.Moderation.Create.{ReportInput, create_tx}
use garba_partner.Moderation.Requests.{serve_all, serve, Request, Timed}
use garba_partner.Connections.Model.{MatchStatus, User, Match}
use garba_partner.Moderation.Requests.Change.{filed, Change-Sound, reports_of, Sound}
use garba_partner.Moderation.Model.{
  dismissed, ReportSource, ReportResolutionAction, connections_of, Report, Db,
}
use garba_partner.Prelude.{ℕ, ◌≡◌, refl, false, none, some, [], ◌∷◌, arith, List}
use garba_partner.Connections.Model as Pairs
use garba_partner.Members.Model as Rows
use garba_partner.Chat.Model as Talk

abbrev person : ℕ → Account
person id = record {
  id = id;
  phone_hash = none;
  status = UserStatus.active;
  chat_restricted_at = none;
  last_active_at = none;
}

abbrev listed : ℕ → User
listed id = record {
  id = id;
  hidden_from_discovery = false;
  hidden_reason = none;
  interactions_restricted_at = none;
}

abbrev matched : Match
matched = record {
  id = 5;
  user_a_id = 1;
  user_b_id = 2;
  interest_id = 3;
  event_id = none;
  status = MatchStatus.active;
  ended_at = none;
  ended_by_user_id = none;
  ended_by_admin_id = none;
  last_message_at = none;
  user_a_last_read_at = none;
  user_b_last_read_at = none;
}

abbrev pairs : Pairs.Db
pairs = record {
  users = listed 1 ∷ listed 2 ∷ [];
  preferences = [];
  profiles = [];
  events = [];
  attendances = [];
  interests = [];
  matches = matched ∷ [];
  blocks = [];
  signals = [];
  next_id = 20;
}

abbrev rows : Rows.Db
rows = record {
  accounts = person 1 ∷ person 2 ∷ [];
  sessions = [];
  sanctions = [];
  connections = pairs;
  audit = [];
  notices = [];
  next_id = 20;
}

-- the message that 1 reports
abbrev insult : Message
insult = record {
  id = 8;
  match_id = 5;
  sender_id = 2;
  client_message_id = 1;
  body = 120 ∷ [];
  contains_contact_info = false;
  contains_money_request = false;
  created_at = 900;
}

abbrev talk : Talk.Db
talk = record { members = rows; messages = insult ∷ []; pushes = []; hits = λ key. [] }

abbrev start : Db
start = record { chat = talk; reports = []; events = []; audit = []; next_id = 30 }

abbrev complaint : ReportInput
complaint = record {
  reported_user_id = 2;
  reason = ReportReason.threatening_behavior;
  details = none;
  message_id = some 8;
  also_block = some false;
}

pairs-OnePerPair : OnePerPair pairs
unfolding sum_by
pairs-OnePerPair = record { one_pending = λ a b. omega arith; one_active = λ p. ground arith }

complaint_filed :
    (create_tx 1 complaint 1000 start).0
    ≡ ok (record {
      report_id = 30;
      already_reported = false;
      blocked = false;
      hidden_reason = some Pairs.HiddenReason.p0_report;
      ended_match_id = some 5;
    })
unfolding create_tx find_one update_where order_by sum_by
complaint_filed = refl

create_tx-Unconnected_example :
    Unconnected 1 2 (connections_of (create_tx 1 complaint 1000 start).1)
create_tx-Unconnected_example =
    create_tx-Unconnected 1 complaint 1000 start
      (record {
        report_id = 30;
        already_reported = false;
        blocked = false;
        hidden_reason = some Pairs.HiddenReason.p0_report;
        ended_match_id = some 5;
      })
      pairs-OnePerPair complaint_filed

abbrev ban_2 : ResolveInput
ban_2 = record {
  action = ReportResolutionAction.ban;
  note = "threats";
  clear_auto_hide = false;
  duration_days = none;
}

-- a report, its review and a ban, and a report after it
abbrev review : List Timed
review =
    record { request = Request.create 1 complaint; now = 1000 }
    ∷ record { request = Request.assign 3 30; now = 2000 }
    ∷ record { request = Request.resolve 3 30 ban_2; now = 3000 }
    ∷ record { request = Request.create 1 complaint; now = 4000 }
    ∷ []

start-Sound : Sound (reports_of start)
unfolding find_one sum_by
start-Sound = record {
  keyed = record { by_key = λ p x h. absurd (cc); free = λ n h. refl };
  one_open = λ a b. omega arith;
}

serve_all-Sound_example : Sound (reports_of (serve_all review start))
serve_all-Sound_example = serve_all-Sound review start start-Sound

-- A report that was dismissed.
abbrev closed_report : Report
closed_report = record {
  id = 7;
  source = ReportSource.member;
  reporter_id = some 1;
  reported_user_id = 2;
  reason = ReportReason.spam;
  priority = 2;
  details = none;
  evidence = record { profile = none; trigger = none; signals = none; messages = none };
  status = dismissed;
  assigned_admin_id = some 3;
  resolution_action = some ReportResolutionAction.dismiss;
  resolution_note = some "nothing";
  resolved_by_admin_id = some 3;
  resolved_at = some 500;
  message_id = none;
  match_id = none;
  created_at = 400;
}

abbrev with_closed : Db
with_closed = record start { reports = closed_report ∷ []; next_id = 8 }

none_yet : Sound (record { rows = []; next_id = 7 })
unfolding find_one sum_by
none_yet = record {
  keyed = record { by_key = λ p x h. absurd (cc); free = λ n h. refl };
  one_open = λ a b. omega arith;
}

with_closed-Sound : Sound (reports_of with_closed)
unfolding find_one
with_closed-Sound =
    Change-Sound (filed (record { rows = []; next_id = 7 }) 0 0 closed_report refl (λ c d h. refl))
      none_yet

closed_found : find_one (is_report 7) with_closed.reports ≡ some closed_report
unfolding find_one
closed_found = refl

serve_all-decided_example :
    find_one (is_report 7) (serve_all review with_closed).reports ≡ some closed_report
serve_all-decided_example =
    serve_all-decided review with_closed with_closed-Sound 7 closed_report closed_found refl

serve-SameMembers_example : SameMembers start (serve (Request.create 1 complaint) 1000 start)
serve-SameMembers_example = serve-SameMembers (Request.create 1 complaint) 1000 start refl
