-- ===== src/Connections/Tests.antt =====
-- Concrete runs of interests, matches and blocks between three members.
use garba_partner.Prelude.{List, ℕ, ◌≡◌, refl, true, false, none, some, [], ◌∷◌, arith}
use garba_partner.Api.{ok, err, user_unavailable}
use garba_partner.Table.{find_one, update_where, sum_by}
use garba_partner.Connections.Model.{Db, User}
use garba_partner.Connections.Single.{OnePerPair}
use garba_partner.Connections.Interests.Send.{send_tx, send}
use garba_partner.Connections.Interests.Send.Single.{send_tx-OnePerPair}
use garba_partner.Connections.Interests.Answers.{accept_tx}
use garba_partner.Connections.Blocks.{block_tx}
use garba_partner.Connections.Blocks.Apart.{Apart, block_tx-Apart}
use garba_partner.Connections.Requests.{Request, Timed, serve_all, serve_all-OnePerPair}
use garba_partner.Connections.Steps.{here, next, step_send, step_accept, step_block, Run-OnePerPair}

abbrev member : ℕ → User
member id = record {
  id = id;
  hidden_from_discovery = false;
  hidden_reason = none;
  interactions_restricted_at = none;
}

abbrev garba_night : Db
garba_night = record {
  users = member 1 ∷ member 2 ∷ member 3 ∷ [];
  preferences = record { user_id = 1; discovery_enabled = true } ∷ [];
  profiles = record { user_id = 1; image_public_id = some 5 } ∷ [];
  events = [];
  attendances = [];
  interests = [];
  matches = [];
  blocks = [];
  signals = [];
  next_id = 10;
}

garba_night-OnePerPair : OnePerPair garba_night
unfolding sum_by
garba_night-OnePerPair = record { one_pending = λ a b. omega arith; one_active = λ p. omega arith }

-- 1 is interested in 2, and 2 in 1: a match
abbrev asked : Db
asked = (send_tx 1 2 none 100 garba_night).1

abbrev both_asked : Db
both_asked = (send_tx 2 1 none 200 asked).1

both_asked_match :
    (send_tx 2 1 none 200 asked).0
    ≡ ok (record { interest_id = 10; match_id = some 11; already_sent = false })
unfolding send_tx find_one update_where sum_by
both_asked_match = refl

sent_through :
    (send (λ a b db. true) 1 2 none 100 garba_night).0
    ≡ ok (record { interest_id = 10; match_id = none; already_sent = false })
unfolding send find_one update_where sum_by
sent_through = refl

not_eligible : (send (λ a b db. false) 1 2 none 100 garba_night).0 ≡ err user_unavailable
unfolding send find_one update_where sum_by
not_eligible = refl

asked-OnePerPair : OnePerPair asked
asked-OnePerPair = send_tx-OnePerPair 1 2 none 100 garba_night garba_night-OnePerPair

both_asked-OnePerPair : OnePerPair both_asked
both_asked-OnePerPair = send_tx-OnePerPair 2 1 none 200 asked asked-OnePerPair

block_tx-Apart_example : Apart 2 1 (block_tx 2 1 300 both_asked).1
block_tx-Apart_example = block_tx-Apart 2 1 300 both_asked both_asked-OnePerPair

Run-OnePerPair_example : OnePerPair (block_tx 2 1 300 (accept_tx 2 1 10 200 asked).1).1
Run-OnePerPair_example =
    Run-OnePerPair
      (next (step_send 1 2 none 100 garba_night) (
        next (step_accept 2 1 10 200 asked)
          (next (step_block 2 1 300 (accept_tx 2 1 10 200 asked).1) here)))
      garba_night-OnePerPair

-- mutual interest, a block and another try
abbrev garba_requests : List Timed
garba_requests =
    record { now = 100; is_eligible = λ a b db. true; request = Request.send 1 2 none }
    ∷ record { now = 200; is_eligible = λ a b db. true; request = Request.accept 2 10 }
    ∷ record { now = 300; is_eligible = λ a b db. true; request = Request.block 2 1 }
    ∷ record { now = 400; is_eligible = λ a b db. false; request = Request.send 1 2 none }
    ∷ []

serve_all-OnePerPair_example : OnePerPair (serve_all garba_requests garba_night)
serve_all-OnePerPair_example =
    serve_all-OnePerPair garba_requests garba_night garba_night-OnePerPair
