-- ===== src/Connections/Steps.antt =====
-- The committed steps that change interests and matches, in any interleaving of the handlers of
-- apps/api/src/modules/interests and apps/api/src/modules/safety/blocks.service.ts: each transaction is
-- one step, and so is each update that a handler makes outside of one.
use garba_partner.Prelude.{ℕ, refl, Option, ◌==◌, Bool-cases, inl, inr}
use garba_partner.Api.{transaction, transaction-keeps}
use garba_partner.Table.{count_where}
use garba_partner.Connections.Model.{Db, expired, cancelled, declined, withdrawn}
use garba_partner.Connections.Pairs.{cancel_pending_interests_of, end_all_matches_of}
use garba_partner.Connections.Single.{OnePerPair, OnePending-answer, OneActive-end}
use garba_partner.Connections.Interests.Send.{send_tx}
use garba_partner.Connections.Interests.Send.Single.{send_tx-OnePerPair}
use garba_partner.Connections.Interests.Answers.{
  sender, receiver, accept_tx, answer_pending, reject, withdraw,
}
use garba_partner.Connections.Interests.Answers.Single.{
  answer_pending-OnePerPair, accept_tx-OnePerPair, respond-OnePerPair,
}
use garba_partner.Connections.Matches.{unmatch_tx}
use garba_partner.Connections.Matches.Single.{unmatch_tx-OnePerPair}
use garba_partner.Connections.Blocks.{block_tx, unblock, is_block}
use garba_partner.Connections.Blocks.Apart.{block_tx-OnePerPair}

pub data Step : Db → Db → Type 0 where
  step_send :
      (user_id other : ℕ) (event_id : Option ℕ) (now : ℕ) (db : Db)
      → Step db (send_tx user_id other event_id now db).1
  step_accept :
      (user_id other interest_id now : ℕ) (db : Db)
      → Step db (accept_tx user_id other interest_id now db).1
  step_lapse : (interest_id now : ℕ) (db : Db) → Step db (answer_pending interest_id expired now db)
  step_void :
      (interest_id now : ℕ) (db : Db) → Step db (answer_pending interest_id cancelled now db)
  step_reject :
      (user_id interest_id now : ℕ) (db : Db) → Step db (reject user_id interest_id now db).1
  step_withdraw :
      (user_id interest_id now : ℕ) (db : Db) → Step db (withdraw user_id interest_id now db).1
  step_unmatch :
      (user_id match_id now : ℕ) (db : Db)
      → Step db (transaction (unmatch_tx user_id match_id now) db).1
  step_block : (blocker target now : ℕ) (db : Db) → Step db (block_tx blocker target now db).1
  step_unblock : (blocker target : ℕ) (db : Db) → Step db (unblock blocker target db).1
  step_cancel_of :
      (user_id now : ℕ) (db : Db) → Step db (cancel_pending_interests_of user_id now db).1
  step_end_all :
      (user_id admin_id now : ℕ) (db : Db) → Step db (end_all_matches_of user_id admin_id now db).1

pub data Run : Db → Db → Type 0 where
  here : {db : Db} → Run db db
  next : {db db' db'' : Db} → Step db db' → Run db' db'' → Run db db''

pub unblock-OnePerPair :
    (blocker target : ℕ) (db : Db) → OnePerPair db → OnePerPair (unblock blocker target db).1
unfolding unblock
unblock-OnePerPair blocker target db one =
    elim (Bool-cases (count_where (is_block blocker target) db.blocks == 0)) [
      | inl e ↦ rw e (record { one_pending = one.one_pending; one_active = one.one_active })
      | inr e ↦ rw e (record { one_pending = one.one_pending; one_active = one.one_active })
    ]

Step-OnePerPair : {db db' : Db} → Step db db' → OnePerPair db → OnePerPair db'
unfolding reject withdraw cancel_pending_interests_of end_all_matches_of
Step-OnePerPair (step_send s r e now db) one = send_tx-OnePerPair s r e now db one
Step-OnePerPair (step_accept u s i now db) one = accept_tx-OnePerPair u s i now db one
Step-OnePerPair (step_lapse i now db) one = answer_pending-OnePerPair i expired now db refl one
Step-OnePerPair (step_void i now db) one = answer_pending-OnePerPair i cancelled now db refl one
Step-OnePerPair (step_reject u i now db) one =
    respond-OnePerPair receiver declined u i now db refl one
Step-OnePerPair (step_withdraw u i now db) one =
    respond-OnePerPair sender withdrawn u i now db refl one
Step-OnePerPair (step_unmatch u m now db) one =
    transaction-keeps OnePerPair (unmatch_tx u m now) db one (unmatch_tx-OnePerPair u m now db one)
Step-OnePerPair (step_block b t now db) one = block_tx-OnePerPair b t now db one
Step-OnePerPair (step_unblock b t db) one = unblock-OnePerPair b t db one
Step-OnePerPair (step_cancel_of u now db) one = record {
  one_pending = OnePending-answer cancelled now _ db.interests refl one.one_pending;
  one_active = one.one_active;
}
Step-OnePerPair (step_end_all u a now db) one = record {
  one_pending = one.one_pending;
  one_active = OneActive-end _ _ db.matches (λ x. refl) one.one_active;
}

-- After any sequence of committed steps of the interest, match and block handlers, any two members
-- have at most one pending interest between them, whichever of them sent it, and at most one active
-- match, where that held of every two members before.
pub Run-OnePerPair : {db db' : Db} → Run db db' → OnePerPair db → OnePerPair db'
Run-OnePerPair here one = one
Run-OnePerPair (next s r) one = Run-OnePerPair r (Step-OnePerPair s one)
