-- ===== src/Moderation/Requests/Reviews.antt =====
-- What moderators do to the table of reports
-- (apps/api/src/modules/admin/reports/admin-reports.service.ts).
use garba_partner.Api.{
  and_then-keeps, transaction-undone, err, Result-cases, ErrorCode, and_then-Continued,
  transaction-committed, Handler, ok,
}
use garba_partner.Members.Sanctions.{Applied}
use garba_partner.Table.{find_one-holds, update_where, find_one}
use garba_partner.Members.Model.{SanctionType}
use garba_partner.Connections.Model.{Match}
use garba_partner.Moderation.Model.{is_opened, is_in_review, is_undecided, Db, Report}
use garba_partner.Moderation.Requests.Change.{keyed_touch, same, Change, Sound, reports_of, Reports}
use garba_partner.Moderation.Resolve.{
  lasts, resolve, take_effect, view_report, taken, view_found, reviewed, assign_found, conversation,
  assign,
}
use garba_partner.Moderation.Resolve.{
  sanction_by_action, is_ban_action, is_mild, decided, is_report, resolve_found, clear_hide,
  sanction_for, view_match, resolve_tx, ResolveInput, decide,
}
use garba_partner.Prelude.{
  ℕ, ◌≡◌, refl, ap, ◌∙◌, true, not, ◌&&◌, ◌||◌, Option, none, some, ◌==◌, Bool-cases, Option-cases,
  inl, inr, arith, is_some,
}

pub assign-Change :
    (admin_id report_id : ℕ) (db : Db)
    → Sound (reports_of db)
    → Change (reports_of db) (reports_of (assign admin_id report_id db).1)
unfolding assign assign_found
assign-Change admin_id report_id db sound =
    elim (Option-cases (find_one (is_report report_id) db.reports)) [
      | inl e ↦ rw e (same (reports_of db))
      | inr (r, e) ↦ elim (Bool-cases (is_undecided r.status)) [
        | inr d ↦ rw (e, d) (same (reports_of db))
        | inl d ↦
            rw (e, d)
              (keyed_touch (reports_of db) report_id (taken admin_id) r sound e d (λ x. refl)
                (λ x a b h k. ground (arith, h, k)))
      ]
    ]

view_match-Change :
    (m : Option Match) (r : Report) (admin_id report_id : ℕ) (db : Db)
    → Sound (reports_of db)
    → find_one (is_report report_id) db.reports ≡ some r
    → is_undecided r.status ≡ true
    → Change (reports_of db) (reports_of (view_match m r admin_id report_id db).1)
unfolding view_match
view_match-Change none r admin_id report_id db sound found undecided = same (reports_of db)
view_match-Change (some m) r admin_id report_id db sound found undecided =
    elim (Bool-cases (is_opened r.status || not (is_some r.assigned_admin_id))) [
      | inr e ↦ rw e (same (reports_of db))
      | inl e ↦ rw e (
          keyed_touch (reports_of db) report_id (reviewed admin_id) r sound found undecided
            (λ x. refl) (λ x a b h k. ground (arith, h, k)))
    ]

view_report-Change :
    (at : Option ℕ) (r : Report) (admin_id report_id : ℕ) (db : Db)
    → Sound (reports_of db)
    → find_one (is_report report_id) db.reports ≡ some r
    → Change (reports_of db) (reports_of (view_report at r admin_id report_id db).1)
unfolding view_report
view_report-Change none r admin_id report_id db sound found = same (reports_of db)
view_report-Change (some match_id) r admin_id report_id db sound found =
    elim (Bool-cases (is_undecided r.status)) [
      | inr d ↦ rw d (same (reports_of db))
      | inl d ↦ rw d (
          view_match-Change (find_one (λ n. n.id == match_id) db.chat.members.connections.matches) r
            admin_id report_id db sound found d)
    ]

pub conversation-Change :
    (admin_id report_id : ℕ) (db : Db)
    → Sound (reports_of db)
    → Change (reports_of db) (reports_of (conversation admin_id report_id db).1)
unfolding conversation view_found
conversation-Change admin_id report_id db sound =
    elim (Option-cases (find_one (is_report report_id) db.reports)) [
      | inl e ↦ rw e (same (reports_of db))
      | inr (r, e) ↦ rw e (view_report-Change r.match_id r admin_id report_id db sound e)
    ]

decide-reports :
    (r : Report) (admin_id : ℕ) (input : ResolveInput) (now : ℕ) (db : Db)
    → reports_of (decide r admin_id input now db) ≡ record {
      rows = update_where (is_report r.id) (decided admin_id input now) db.reports;
      next_id = db.next_id;
    }
unfolding decide clear_hide
decide-reports r admin_id input now db =
    elim (Bool-cases (input.clear_auto_hide && is_mild input.action)) [
      | inl e ↦ rw e refl
      | inr e ↦ rw e refl
    ]

sanction_for-reports :
    (type : Option SanctionType) (r : Report) (admin_id : ℕ) (input : ResolveInput) (now : ℕ)
    (db : Db)
    → reports_of (sanction_for type r admin_id input now db).1 ≡ reports_of db
unfolding sanction_for
sanction_for-reports none r admin_id input now db = refl
sanction_for-reports (some type) r admin_id input now db = refl

-- A resolution that succeeds decides the report that was found undecided.
pub record Resolved (admin_id report_id : ℕ) (input : ResolveInput) (now : ℕ) (db : Db)
    : Type 0 where
  pub report : Report
  pub found : find_one (is_report report_id) db.reports ≡ some report
  pub undecided : is_undecided report.status ≡ true
  pub reviewed : is_ban_action input.action ≡ true → is_in_review report.status ≡ true
  pub rows : reports_of (resolve_tx admin_id report_id input now db).1 ≡ record {
    rows = update_where (is_report report.id) (decided admin_id input now) db.reports;
    next_id = db.next_id;
  }

pub resolve_tx-Resolved :
    (admin_id report_id : ℕ) (input : ResolveInput) (now : ℕ) (db : Db) (applied : Option Applied)
    → (resolve_tx admin_id report_id input now db).0 ≡ ok applied
    → Resolved admin_id report_id input now db
unfolding resolve_tx resolve_found
resolve_tx-Resolved admin_id report_id input now db applied h =
    let body : Handler Db (Option Applied) =
      λ db. resolve_found (find_one (is_report report_id) db.reports) admin_id input now db in
    let committed = transaction-committed body db applied h in
    elim (Option-cases (find_one (is_report report_id) db.reports)) [
      | inl e ↦ absurd (let h' = rw e at h in cc)
      | inr (r, e) ↦
          elim (Bool-cases (
            not (is_undecided r.status)
            || (is_ban_action input.action && not (is_in_review r.status)))) [
              | inl d ↦ absurd (let h' = rw (e, d) at h in cc)
              | inr d ↦
                  let step =
                    sanction_for (sanction_by_action input.action) r admin_id input now db in
                  let next =
                    and_then-Continued step (λ a db'. (ok a, decide r admin_id input now db'))
                      applied (rw (committed, e, d) at h) in
                  record {
                    report = r;
                    found = e;
                    undecided = ground (arith, d);
                    reviewed = λ ban. ground (arith, d, ban);
                    rows =
                        rw (committed, e, d, next.same)
                          (decide-reports r admin_id input now step.1
                            ∙ ap
                                (λ (s : Reports). record {
                                  rows =
                                      update_where (is_report r.id) (decided admin_id input now)
                                        s.rows;
                                  next_id = s.next_id;
                                })
                                (sanction_for-reports (sanction_by_action input.action) r admin_id
                                  input now db));
                  }
            ]
    ]

take_effect-reports :
    (applied : Option Applied) (db : Db) → reports_of (take_effect applied db) ≡ reports_of db
unfolding take_effect
take_effect-reports none db = refl
take_effect-reports (some a) db = refl

resolve_tx-undone :
    (admin_id report_id : ℕ) (input : ResolveInput) (now : ℕ) (db : Db) (e : ErrorCode)
    → (resolve_tx admin_id report_id input now db).0 ≡ err e
    → (resolve_tx admin_id report_id input now db).1 ≡ db
unfolding resolve_tx
resolve_tx-undone admin_id report_id input now db e h =
    transaction-undone
      (λ db'. resolve_found (find_one (is_report report_id) db'.reports) admin_id input now db') db
      e h

resolve_tx-Change :
    (admin_id report_id : ℕ) (input : ResolveInput) (now : ℕ) (db : Db)
    → Sound (reports_of db)
    → Change (reports_of db) (reports_of (resolve_tx admin_id report_id input now db).1)
resolve_tx-Change admin_id report_id input now db sound =
    elim (Result-cases (resolve_tx admin_id report_id input now db).0) [
      | inr (e, failed) ↦
          rw (resolve_tx-undone admin_id report_id input now db e failed) (same (reports_of db))
      | inl (applied, h) ↦
          let r = resolve_tx-Resolved admin_id report_id input now db applied h in
          let own = find_one-holds (is_report report_id) db.reports r.found in
          let key : r.report.id ≡ report_id = ground (arith, own) in
          let found : find_one (is_report r.report.id) db.reports ≡ some r.report =
            ap (λ k. find_one (is_report k) db.reports) key ∙ r.found in
          rw r.rows (
            keyed_touch (reports_of db) r.report.id (decided admin_id input now) r.report sound
              found r.undecided (λ x. refl) (λ x a b h k. ground (arith, h, k)))
    ]

pub resolve-Change :
    (admin_id report_id : ℕ) (input : ResolveInput) (now : ℕ) (db : Db)
    → Sound (reports_of db)
    → Change (reports_of db) (reports_of (resolve admin_id report_id input now db).1)
unfolding resolve
resolve-Change admin_id report_id input now db sound =
    elim (Bool-cases (is_some input.duration_days && not (lasts input.action))) [
      | inl e ↦ rw e (same (reports_of db))
      | inr e ↦ rw e (
          and_then-keeps (λ db'. Change (reports_of db) (reports_of db'))
            (resolve_tx admin_id report_id input now db)
            (λ applied db'. (ok report_id, take_effect applied db'))
            (resolve_tx-Change admin_id report_id input now db sound)
            (λ applied db' step. rw (take_effect-reports applied db') step))
    ]
