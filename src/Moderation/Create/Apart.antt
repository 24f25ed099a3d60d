-- ===== src/Moderation/Create/Apart.antt =====
-- What a report leaves between the two members, and what of the reported member's account
-- (apps/api/src/modules/safety/reports.service.ts).
use garba_partner.Table.{find_one}
use garba_partner.Api.{Result-cases, ok}
use garba_partner.Moderation.Evidence.{message_evidence, ChatEvidence}
use garba_partner.Connections.Blocks.Apart.{with_block-OnePerPair}
use garba_partner.Members.Sanctions.{hide_from_discovery}
use garba_partner.Moderation.Model.{connections_of, Db, Report}
use garba_partner.Connections.Model.{report_threshold, p0_report, HiddenReason, is_active}
use garba_partner.Connections.Single.{OnePerPair}
use garba_partner.Moderation.Create.{
  is_open_between, is_recent_about, distinct_reporters, auto_hide_report_threshold, Outcome,
  priority_of, by_report, ReportInput, blocked_if, separate, auto_hide, create_tx, file_report,
  file_and_separate, hide_for,
}
use garba_partner.Connections.Pairs.Endings.{end_connections-Unconnected, Unconnected}
use garba_partner.Prelude.{
  ℕ, ◌≡◌, refl, Bool, true, false, Option, none, some, List, [], ◌==◌, leb, or_else, filter,
  is_some, Bool-cases, inl, inr,
}
use garba_partner.Connections.Model as Pairs

blocked_if-OnePerPair :
    (blocked : Bool) (a b : ℕ) (pairs : Pairs.Db)
    → OnePerPair pairs
    → OnePerPair (blocked_if blocked a b pairs)
blocked_if-OnePerPair true a b pairs one = with_block-OnePerPair a b pairs one
blocked_if-OnePerPair false a b pairs one = one

final_status :
    (reporter_id : ℕ) (blocked : Bool) → is_active (by_report reporter_id blocked).status ≡ false
final_status reporter_id true = refl
final_status reporter_id false = refl

separate-Unconnected :
    (blocked : Bool) (a b now : ℕ) (pairs : Pairs.Db)
    → OnePerPair pairs
    → Unconnected a b (separate blocked a b now pairs).1
unfolding separate
separate-Unconnected blocked a b now pairs one =
    end_connections-Unconnected a b (by_report a blocked) now (blocked_if blocked a b pairs)
      (final_status a blocked) (blocked_if-OnePerPair blocked a b pairs one)

-- A change of the members' visibility only.
record SamePairs (before after : Pairs.Db) : Type 0 where
  matches : after.matches ≡ before.matches
  interests : after.interests ≡ before.interests

hide_for-SamePairs :
    (wanted : Bool) (user_id : ℕ) (reason : HiddenReason) (pairs : Pairs.Db)
    → SamePairs pairs (hide_for wanted user_id reason pairs).1
unfolding hide_for hide_from_discovery
hide_for-SamePairs true user_id reason pairs = record { matches = refl; interests = refl }
hide_for-SamePairs false user_id reason pairs = record { matches = refl; interests = refl }

auto_hide-SamePairs :
    (input : ReportInput) (now : ℕ) (reports : List Report) (pairs : Pairs.Db)
    → SamePairs pairs (auto_hide input now reports pairs).1
unfolding auto_hide
auto_hide-SamePairs input now reports pairs = elim (Bool-cases (priority_of input.reason == 0)) [
  | inl e ↦ rw e (hide_for-SamePairs true input.reported_user_id p0_report pairs)
  | inr e ↦ rw e (
      hide_for-SamePairs
        (leb auto_hide_report_threshold
          (distinct_reporters [] (filter (is_recent_about input.reported_user_id now) reports)))
        input.reported_user_id report_threshold pairs)
]

SamePairs-Unconnected :
    (a b : ℕ) (before after : Pairs.Db)
    → SamePairs before after
    → Unconnected a b before
    → Unconnected a b after
SamePairs-Unconnected a b before after same un = record {
  no_interest = rw same.interests un.no_interest;
  no_match = rw same.matches un.no_match;
}

file_report-connections :
    (existing : Option Report) (reporter_id : ℕ) (input : ReportInput) (chat : Option ChatEvidence)
    (now : ℕ) (db : Db)
    → (file_report existing reporter_id input chat now db).1.chat ≡ db.chat
unfolding file_report
file_report-connections (some r) reporter_id input none now db = refl
file_report-connections (some r) reporter_id input (some chat) now db = refl
file_report-connections none reporter_id input chat now db = refl

file_and_separate-Unconnected :
    (existing : Option Report) (chat : Option ChatEvidence) (reporter_id : ℕ) (input : ReportInput)
    (now : ℕ) (db : Db)
    → OnePerPair (connections_of db)
    → Unconnected reporter_id input.reported_user_id
        (connections_of (file_and_separate existing chat reporter_id input now db).1)
unfolding file_and_separate
file_and_separate-Unconnected existing chat reporter_id input now db one =
    let filed = (file_report existing reporter_id input chat now db).1 in
    let blocked = or_else input.also_block true in
    let apart =
      (separate blocked reporter_id input.reported_user_id now (connections_of filed)).1 in
    let un =
      separate-Unconnected blocked reporter_id input.reported_user_id now (connections_of filed)
        (rw (connections_of, file_report-connections existing reporter_id input chat now db) one) in
    elim (Bool-cases (is_some existing)) [
      | inl e ↦ rw e un
      | inr e ↦ rw e (
          SamePairs-Unconnected reporter_id input.reported_user_id apart
            (auto_hide input now filed.reports apart).1
            (auto_hide-SamePairs input now filed.reports apart) un)
    ]

-- Where every pair of members has at most one pending interest and one active match, the transaction
-- of a report that succeeds leaves no pending interest between the two, in either direction, and no
-- active match of theirs, whether or not the reporter also blocks, and also when the report had been
-- made before.
pub create_tx-Unconnected :
    (reporter_id : ℕ) (input : ReportInput) (now : ℕ) (db : Db) (outcome : Outcome)
    → OnePerPair (connections_of db)
    → (create_tx reporter_id input now db).0 ≡ ok outcome
    → Unconnected reporter_id input.reported_user_id
        (connections_of (create_tx reporter_id input now db).1)
unfolding create_tx
create_tx-Unconnected reporter_id input now db outcome one h =
    elim (Result-cases
      (message_evidence input.message_id reporter_id input.reported_user_id db.chat)) [
        | inr (e, refused) ↦ absurd (let h' = rw refused at h in cc)
        | inl (chat, found) ↦ rw found (
            file_and_separate-Unconnected
              (find_one (is_open_between reporter_id input.reported_user_id) db.reports) chat
              reporter_id input now db one)
      ]
