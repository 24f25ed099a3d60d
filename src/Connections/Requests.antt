-- ===== src/Connections/Requests.antt =====
-- Every request that changes interests, matches or blocks, one after another
-- (apps/api/src/modules/interests and apps/api/src/modules/safety/blocks.service.ts).
use garba_partner.Prelude.{ℕ, refl, Option, List, [], ◌∷◌, Bool}
use garba_partner.Connections.Model.{Db, declined, withdrawn}
use garba_partner.Connections.Single.{OnePerPair}
use garba_partner.Connections.Interests.Send
use garba_partner.Connections.Interests.Send.Single.{send-OnePerPair}
use garba_partner.Connections.Interests.Answers
use garba_partner.Connections.Interests.Answers.{Role}
use garba_partner.Connections.Interests.Answers.Single.{accept-OnePerPair, respond-OnePerPair}
use garba_partner.Connections.Matches
use garba_partner.Connections.Matches.Single.{unmatch-OnePerPair}
use garba_partner.Connections.Blocks
use garba_partner.Connections.Blocks.Apart.{block-OnePerPair}
use garba_partner.Connections.Steps.{unblock-OnePerPair}

pub data Request : Type 0 where
  send : (user_id receiver_id : ℕ) → (event_id : Option ℕ) → Request
  accept : (user_id interest_id : ℕ) → Request
  reject : (user_id interest_id : ℕ) → Request
  withdraw : (user_id interest_id : ℕ) → Request
  unmatch : (user_id match_id : ℕ) → Request
  block : (user_id target_id : ℕ) → Request
  unblock : (user_id target_id : ℕ) → Request

-- A request at a moment, with the answers that discovery gives during it.
pub record Timed : Type 0 where
  pub now : ℕ
  pub is_eligible : ℕ → ℕ → Db → Bool
  pub request : Request

unfoldable pub serve : ℕ → (ℕ → ℕ → Db → Bool) → Request → Db → Db
serve now eligible (send user_id other event_id) db =
    (Send.send eligible user_id other event_id now db).1
serve now eligible (accept user_id id) db = (Answers.accept eligible user_id id now db).1
serve now eligible (reject user_id id) db = (Answers.reject user_id id now db).1
serve now eligible (withdraw user_id id) db = (Answers.withdraw user_id id now db).1
serve now eligible (unmatch user_id id) db = (Matches.unmatch user_id id now db).1
serve now eligible (block user_id other) db = (Blocks.block user_id other now db).1
serve now eligible (unblock user_id other) db = (Blocks.unblock user_id other db).1

unfoldable pub serve_all : List Timed → Db → Db
unfolding serve
serve_all [] db = db
serve_all (t ∷ ts) db = serve_all ts (serve t.now t.is_eligible t.request db)

serve-OnePerPair :
    (now : ℕ) (eligible : ℕ → ℕ → Db → Bool) (request : Request) (db : Db)
    → OnePerPair db
    → OnePerPair (serve now eligible request db)
unfolding serve Answers.reject Answers.withdraw
serve-OnePerPair now eligible (send u o e) db one = send-OnePerPair eligible u o e now db one
serve-OnePerPair now eligible (accept u i) db one = accept-OnePerPair eligible u i now db one
serve-OnePerPair now eligible (reject u i) db one =
    respond-OnePerPair Role.receiver declined u i now db refl one
serve-OnePerPair now eligible (withdraw u i) db one =
    respond-OnePerPair Role.sender withdrawn u i now db refl one
serve-OnePerPair now eligible (unmatch u m) db one = unmatch-OnePerPair u m now db one
serve-OnePerPair now eligible (block u o) db one = block-OnePerPair u o now db one
serve-OnePerPair now eligible (unblock u o) db one = unblock-OnePerPair u o db one

-- After any list of requests of members to send, accept, reject or withdraw interests, to unmatch,
-- block or unblock, at any times and with any answers of discovery, any two members have at most one
-- pending interest between them, whichever of them sent it, and at most one active match, where that
-- held of every two members before.
pub serve_all-OnePerPair :
    (ts : List Timed) (db : Db) → OnePerPair db → OnePerPair (serve_all ts db)
unfolding serve_all
serve_all-OnePerPair [] db one = one
serve_all-OnePerPair (t ∷ ts) db one =
    serve_all-OnePerPair ts (serve t.now t.is_eligible t.request db)
      (serve-OnePerPair t.now t.is_eligible t.request db one)
