-- ===== src/Moderation/Requests/Automatic.antt =====
-- Who changes accounts, sanctions and sessions (apps/api/src/modules/safety/reports.service.ts,
-- apps/api/src/modules/safety/suspicious-activity.service.ts).
use garba_partner.Members.Model.{is_account}
use garba_partner.Table.{count_where, find_one}
use garba_partner.Moderation.Evidence.{message_evidence, ChatEvidence}
use garba_partner.Api.{ok, and_then-keeps, Result-cases}
use garba_partner.Moderation.Create.{
  is_recent_from, reports_per_day, is_open_between, log_outcome, ReportInput, announce, file_report,
  create_tx, create, file_and_separate,
}
use garba_partner.Moderation.Model.{Report, Db}
use garba_partner.Moderation.Requests.{serve, Request}
use garba_partner.Prelude.{
  ℕ, ◌≡◌, refl, ◌∙◌, Bool, true, false, Option, none, some, ◌==◌, Bool-cases, Option-cases, inl,
  inr, is_some, leb,
}
use garba_partner.Moderation.Suspicious.{
  is_open_detection, Detection, open_report, repeated_messages_of, flag_found, money_requests_of,
  flag, flag_if, after_message,
}

-- The same accounts, sanctions and sessions.
pub record SameMembers (before after : Db) : Type 0 where
  pub accounts : after.chat.members.accounts ≡ before.chat.members.accounts
  pub sanctions : after.chat.members.sanctions ≡ before.chat.members.sanctions
  pub sessions : after.chat.members.sessions ≡ before.chat.members.sessions

same_members : (db : Db) → SameMembers db db
same_members db = record { accounts = refl; sanctions = refl; sessions = refl }

SameMembers-trans : (a b c : Db) → SameMembers a b → SameMembers b c → SameMembers a c
SameMembers-trans a b c h k = record {
  accounts = k.accounts ∙ h.accounts;
  sanctions = k.sanctions ∙ h.sanctions;
  sessions = k.sessions ∙ h.sessions;
}

file_and_separate-SameMembers :
    (existing : Option Report) (chat : Option ChatEvidence) (reporter_id : ℕ) (input : ReportInput)
    (now : ℕ) (db : Db)
    → SameMembers db (file_and_separate existing chat reporter_id input now db).1
unfolding file_and_separate file_report
file_and_separate-SameMembers (some r) none reporter_id input now db = record {
  accounts = refl;
  sanctions = refl;
  sessions = refl;
}
file_and_separate-SameMembers (some r) (some chat) reporter_id input now db = record {
  accounts = refl;
  sanctions = refl;
  sessions = refl;
}
file_and_separate-SameMembers none chat reporter_id input now db = record {
  accounts = refl;
  sanctions = refl;
  sessions = refl;
}

create_tx-SameMembers :
    (reporter_id : ℕ) (input : ReportInput) (now : ℕ) (db : Db)
    → SameMembers db (create_tx reporter_id input now db).1
unfolding create_tx
create_tx-SameMembers reporter_id input now db =
    elim (Result-cases
      (message_evidence input.message_id reporter_id input.reported_user_id db.chat)) [
        | inr (e, refused) ↦ rw refused (same_members db)
        | inl (chat, found) ↦ rw found (
            file_and_separate-SameMembers
              (find_one (is_open_between reporter_id input.reported_user_id) db.reports) chat
              reporter_id input now db)
      ]

create-SameMembers :
    (reporter_id : ℕ) (input : ReportInput) (now : ℕ) (db : Db)
    → SameMembers db (create reporter_id input now db).1
unfolding create announce log_outcome
create-SameMembers reporter_id input now db =
    elim (Bool-cases (reporter_id == input.reported_user_id)) [
      | inl e ↦ rw e (same_members db)
      | inr e ↦
          elim (Bool-cases
            (is_some (find_one (is_account input.reported_user_id) db.chat.members.accounts))) [
              | inr a ↦ rw (e, a) (same_members db)
              | inl a ↦
                  elim (Bool-cases (
                    leb reports_per_day
                      (count_where (is_recent_from reporter_id now) db.reports))) [
                        | inl l ↦
                            rw (e, a, l)
                              (record { accounts = refl; sanctions = refl; sessions = refl })
                        | inr l ↦
                            rw (e, a, l)
                              (and_then-keeps (SameMembers db) (create_tx reporter_id input now db)
                                (λ outcome done.
                                  let (answer, told) = announce outcome reporter_id input done in
                                  (ok answer, told))
                                (create_tx-SameMembers reporter_id input now db)
                                (λ outcome done kept. record {
                                  accounts = kept.accounts;
                                  sanctions = kept.sanctions;
                                  sessions = kept.sessions;
                                }))
                      ]
            ]
    ]

flag_if-SameMembers : (d : Option Detection) (now : ℕ) (db : Db) → SameMembers db (flag_if d now db)
unfolding flag_if flag flag_found open_report
flag_if-SameMembers none now db = same_members db
flag_if-SameMembers (some d) now db =
    elim (Option-cases (find_one (is_open_detection d.user_id d.trigger) db.reports)) [
      | inl e ↦ rw e (record { accounts = refl; sanctions = refl; sessions = refl })
      | inr (r, e) ↦ rw e (record { accounts = refl; sanctions = refl; sessions = refl })
    ]

abbrev pub is_automatic : Request → Bool
is_automatic (Request.create reporter_id input) = true
is_automatic (Request.after_message message) = true
is_automatic _ = false

-- The platform sanctions nobody on its own: neither a report by a member, of whatever priority, nor
-- what the detector makes of a message changes the status of any account, any sanction or any
-- session.
pub serve-SameMembers :
    (r : Request) (now : ℕ) (db : Db) → is_automatic r ≡ true → SameMembers db (serve r now db)
unfolding serve after_message
serve-SameMembers (Request.create reporter_id input) now db auto =
    create-SameMembers reporter_id input now db
serve-SameMembers (Request.after_message message) now db auto =
    let first = flag_if (money_requests_of message now db) now db in
    SameMembers-trans db first (flag_if (repeated_messages_of message now first) now first)
      (flag_if-SameMembers (money_requests_of message now db) now db)
      (flag_if-SameMembers (repeated_messages_of message now first) now first)
serve-SameMembers (Request.assign admin_id report_id) now db auto = absurd (cc)
serve-SameMembers (Request.conversation admin_id report_id) now db auto = absurd (cc)
serve-SameMembers (Request.resolve admin_id report_id input) now db auto = absurd (cc)
