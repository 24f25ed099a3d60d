-- ===== src/Moderation/Requests/Filings.antt =====
-- What reports and detections do to the table of reports (apps/api/src/modules/safety/reports.service.ts,
-- apps/api/src/modules/safety/suspicious-activity.service.ts).
use garba_partner.Moderation.Evidence.{ChatEvidence, message_evidence}
use garba_partner.Moderation.Create.{
  is_recent_from, reports_per_day, new_report, ReportInput, log_outcome, file_and_separate,
  with_chat, create_tx, announce, file_report, create, is_open_between,
}
use garba_partner.Api.{and_then-keeps, Result-cases, ok}
use garba_partner.Table.{count_where, find_one-holds, find_one}
use garba_partner.Members.Model.{is_account}
use garba_partner.Moderation.Model.{Db, Report}
use garba_partner.Moderation.Requests.Change.{keyed_touch, filed, same, Change, Sound, reports_of}
use garba_partner.Prelude.{
  ℕ, ◌≡◌, refl, Option, none, some, ◌==◌, Bool-cases, Option-cases, inl, inr, arith, is_some, leb,
}
use garba_partner.Moderation.Suspicious.{
  refreshed, system_report, is_open_detection, open_report, flag_found, Detection, flag, flag_if,
}

file_report-Change :
    (existing : Option Report) (reporter_id : ℕ) (input : ReportInput) (chat : Option ChatEvidence)
    (now : ℕ) (db : Db)
    → Sound (reports_of db)
    → find_one (is_open_between reporter_id input.reported_user_id) db.reports ≡ existing
    → Change (reports_of db) (reports_of (file_report existing reporter_id input chat now db).1)
unfolding file_report with_chat
file_report-Change (some r) reporter_id input none now db sound found = same (reports_of db)
file_report-Change (some r) reporter_id input (some chat) now db sound found =
    let own =
      find_one-holds (is_open_between reporter_id input.reported_user_id) db.reports found in
    keyed_touch (reports_of db) r.id (with_chat input.message_id chat) r sound
      (sound.keyed.by_key (is_open_between reporter_id input.reported_user_id) r found)
      (ground (arith, own)) (λ x. refl) (λ x a b h k. k)
file_report-Change none reporter_id input chat now db sound found =
    let r = new_report db.next_id reporter_id input chat now db in
    filed (reports_of db) reporter_id input.reported_user_id r refl (λ c d hit.
      let reporter : reporter_id ≡ c = ground (arith, hit) in
      let reported : input.reported_user_id ≡ d = ground (arith, hit) in
      rw (← reporter, ← reported) found)

create_tx-Change :
    (reporter_id : ℕ) (input : ReportInput) (now : ℕ) (db : Db)
    → Sound (reports_of db)
    → Change (reports_of db) (reports_of (create_tx reporter_id input now db).1)
unfolding create_tx file_and_separate
create_tx-Change reporter_id input now db sound =
    elim (Result-cases
      (message_evidence input.message_id reporter_id input.reported_user_id db.chat)) [
        | inr (e, refused) ↦ rw refused (same (reports_of db))
        | inl (chat, found) ↦ rw found (
            file_report-Change
              (find_one (is_open_between reporter_id input.reported_user_id) db.reports) reporter_id
              input chat now db sound refl)
      ]

pub create-Change :
    (reporter_id : ℕ) (input : ReportInput) (now : ℕ) (db : Db)
    → Sound (reports_of db)
    → Change (reports_of db) (reports_of (create reporter_id input now db).1)
unfolding create announce log_outcome
create-Change reporter_id input now db sound =
    elim (Bool-cases (reporter_id == input.reported_user_id)) [
      | inl e ↦ rw e (same (reports_of db))
      | inr e ↦
          elim (Bool-cases
            (is_some (find_one (is_account input.reported_user_id) db.chat.members.accounts))) [
              | inr a ↦ rw (e, a) (same (reports_of db))
              | inl a ↦
                  elim (Bool-cases (
                    leb reports_per_day
                      (count_where (is_recent_from reporter_id now) db.reports))) [
                        | inl l ↦ rw (e, a, l) (same (reports_of db))
                        | inr l ↦
                            rw (e, a, l)
                              (and_then-keeps (λ db'. Change (reports_of db) (reports_of db'))
                                (create_tx reporter_id input now db)
                                (λ outcome done.
                                  let (answer, told) = announce outcome reporter_id input done in
                                  (ok answer, told))
                                (create_tx-Change reporter_id input now db sound)
                                (λ outcome done step. step))
                      ]
            ]
    ]

flag-Change :
    (d : Detection) (now : ℕ) (db : Db)
    → Sound (reports_of db)
    → Change (reports_of db) (reports_of (flag d now db))
unfolding flag flag_found open_report
flag-Change d now db sound =
    elim (Option-cases (find_one (is_open_detection d.user_id d.trigger) db.reports)) [
      | inl e ↦ rw e (
          filed (reports_of db) 0 0 (system_report db.next_id d now db) refl
            (λ a b hit. absurd (cc)))
      | inr (r, e) ↦
          let own = find_one-holds (is_open_detection d.user_id d.trigger) db.reports e in
          rw e (
            keyed_touch (reports_of db) r.id (refreshed d now) r sound
              (sound.keyed.by_key (is_open_detection d.user_id d.trigger) r e) (ground (arith, own))
              (λ x. refl) (λ x a b h k. k))
    ]

pub flag_if-Change :
    (d : Option Detection) (now : ℕ) (db : Db)
    → Sound (reports_of db)
    → Change (reports_of db) (reports_of (flag_if d now db))
unfolding flag_if
flag_if-Change none now db sound = same (reports_of db)
flag_if-Change (some d) now db sound = flag-Change d now db sound
