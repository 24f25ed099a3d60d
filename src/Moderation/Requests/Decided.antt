-- ===== src/Moderation/Requests/Decided.antt =====
-- Reports over a sequence of requests (apps/api/src/modules/safety/reports.service.ts,
-- apps/api/src/modules/admin/reports/admin-reports.service.ts).
use garba_partner.Moderation.Requests.Reviews.{resolve-Change, conversation-Change, assign-Change}
use garba_partner.Moderation.Requests.Filings.{flag_if-Change, create-Change}
use garba_partner.Moderation.Requests.{Request, Timed, serve, serve_all}
use garba_partner.Table.{find_one}
use garba_partner.Moderation.Model.{is_undecided, Db, Report}
use garba_partner.Moderation.Requests.Change.{
  then_change, one_change, Changes-decided, Changes, Changes-Sound, Change-Sound, Sound, reports_of,
}
use garba_partner.Moderation.Resolve.{decided, is_report}
use garba_partner.Prelude.{ℕ, ◌≡◌, false, some, List, [], ◌∷◌}
use garba_partner.Moderation.Suspicious.{
  repeated_messages_of, money_requests_of, flag_if, after_message,
}

serve-Changes :
    (r : Request) (now : ℕ) (db : Db)
    → Sound (reports_of db)
    → Changes (reports_of db) (reports_of (serve r now db))
unfolding serve after_message
serve-Changes (Request.create reporter_id input) now db sound =
    one_change (create-Change reporter_id input now db sound)
serve-Changes (Request.assign admin_id report_id) now db sound =
    one_change (assign-Change admin_id report_id db sound)
serve-Changes (Request.conversation admin_id report_id) now db sound =
    one_change (conversation-Change admin_id report_id db sound)
serve-Changes (Request.resolve admin_id report_id input) now db sound =
    one_change (resolve-Change admin_id report_id input now db sound)
serve-Changes (Request.after_message message) now db sound =
    let first = flag_if (money_requests_of message now db) now db in
    let step = flag_if-Change (money_requests_of message now db) now db sound in
    then_change step (
      one_change (
        flag_if-Change (repeated_messages_of message now first) now first
          (Change-Sound step sound)))

-- Whatever reports are made and whatever moderators do with them, in any order, a member never has
-- more than one undecided report about another, and no two reports have one id, where it was so before.
pub serve_all-Sound :
    (ts : List Timed) (db : Db) → Sound (reports_of db) → Sound (reports_of (serve_all ts db))
unfolding serve_all
serve_all-Sound [] db sound = sound
serve_all-Sound (t ∷ ts) db sound =
    serve_all-Sound ts (serve t.request t.now db)
      (Changes-Sound (serve-Changes t.request t.now db sound) sound)

-- A decision is final: a report that is resolved or dismissed is found the same, its action, its note
-- and its evidence included, after any requests, in any order, where the reports have keys and a
-- member had at most one undecided report about another.
pub serve_all-decided :
    (ts : List Timed) (db : Db)
    → Sound (reports_of db)
    → (id : ℕ) (r : Report) → find_one (is_report id) db.reports ≡ some r
    → is_undecided r.status ≡ false
    → find_one (is_report id) (serve_all ts db).reports ≡ some r
unfolding serve_all
serve_all-decided [] db sound id r found decided = found
serve_all-decided (t ∷ ts) db sound id r found decided =
    let steps = serve-Changes t.request t.now db sound in
    serve_all-decided ts (serve t.request t.now db) (Changes-Sound steps sound) id r
      (Changes-decided steps id r found decided) decided
