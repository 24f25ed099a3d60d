-- ===== src/Moderation/Requests.antt =====
-- Every request that writes reports (apps/api/src/modules/safety/reports.service.ts,
-- apps/api/src/modules/safety/suspicious-activity.service.ts,
-- apps/api/src/modules/admin/reports/admin-reports.service.ts).
pub mod Reviews
pub mod Filings
pub mod Decided
pub mod Automatic
pub mod Change
use garba_partner.Chat.Model.{Message}
use garba_partner.Moderation.Resolve.{ResolveInput}
use garba_partner.Moderation.Model.{Db}
use garba_partner.Moderation.Create.{ReportInput}
use garba_partner.Prelude.{ℕ, List, [], ◌∷◌}
use garba_partner.Moderation.Create
use garba_partner.Moderation.Resolve
use garba_partner.Moderation.Suspicious

pub data Request : Type 0 where
  create : (reporter_id : ℕ) → ReportInput → Request
  assign : (admin_id report_id : ℕ) → Request
  conversation : (admin_id report_id : ℕ) → Request
  resolve : (admin_id report_id : ℕ) → ResolveInput → Request
  after_message : Message → Request

pub record Timed : Type 0 where
  pub request : Request
  pub now : ℕ

unfoldable pub serve : Request → ℕ → Db → Db
serve (Request.create reporter_id input) now db = (Create.create reporter_id input now db).1
serve (Request.assign admin_id report_id) now db = (Resolve.assign admin_id report_id db).1
serve (Request.conversation admin_id report_id) now db =
    (Resolve.conversation admin_id report_id db).1
serve (Request.resolve admin_id report_id input) now db =
    (Resolve.resolve admin_id report_id input now db).1
serve (Request.after_message message) now db = Suspicious.after_message message now db

unfoldable pub serve_all : List Timed → Db → Db
unfolding serve
serve_all [] db = db
serve_all (t ∷ ts) db = serve_all ts (serve t.request t.now db)
