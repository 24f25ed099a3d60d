-- ===== src/Connections/Interests/Answers.antt =====
-- `accept`, `reject` and `withdraw` (apps/api/src/modules/interests/interests.service.ts).
-- Whether two members are eligible for one another, `discovery.isEligible`, is a parameter.
pub mod Single
use garba_partner.Prelude.{
  ℕ, ◌+◌, Bool, true, false, not, ◌&&◌, Option, none, some, [], ◌∷◌, ◌++◌, ltb, leb, ◌==◌,
  if◌then◌else◌, is_some,
}
use garba_partner.Table.{find_one, update_where, count_where}
use garba_partner.Api.{
  Result, ok, err, Handler, and_then, transaction, not_found, user_unavailable,
  interest_not_pending,
}
use garba_partner.Connections.Model.{
  Interest, InterestStatus, accepted, declined, withdrawn, cancelled, expired, Match,
  interest_accepted, Db, is_pending,
}
use garba_partner.Connections.Pairs.{canonical_pair, is_active_pair, answered}
use garba_partner.Connections.Interests.{assert_can_interact, new_match, signal}

-- The transaction of `accept`: the interest again under its lock, then the match.
pub record Accepted : Type 0 where
  pub match_id : ℕ
  pub is_new : Bool

accept_match : Option Match → Interest → ℕ → ℕ → Db → Result Accepted × Db
unfolding canonical_pair
accept_match (some existing) locked user_id sender db =
    (ok (record { match_id = existing.id; is_new = false }), db)
accept_match none locked user_id sender db = (
  ok (record { match_id = db.next_id; is_new = true }),
  record db {
    matches =
        db.matches
        ++ new_match db.next_id (canonical_pair user_id sender) locked.id locked.event_id ∷ [];
    next_id = db.next_id + 1;
  },
)

accept_locked : Option Interest → ℕ → ℕ → ℕ → Db → Result Accepted × Db
unfolding accept_match canonical_pair
accept_locked none user_id sender now db = (err interest_not_pending, db)
accept_locked (some locked) user_id sender now db =
    if not (is_pending locked.status)
    then (err interest_not_pending, db)
    else accept_match (find_one (is_active_pair (canonical_pair user_id sender)) db.matches) locked
        user_id sender
        (record db {
          interests = update_where (λ i. i.id == locked.id) (answered accepted now) db.interests;
        })

unfoldable pub accept_tx : ℕ → ℕ → ℕ → ℕ → Handler Db Accepted
unfolding accept_locked
accept_tx user_id sender interest_id now =
    transaction
      (λ db. accept_locked (find_one (λ i. i.id == interest_id) db.interests) user_id sender now db)

-- `PartnerInterest.update({ status, respondedAt }, { where: { id, status: 'pending' } })`
abbrev pub answer_pending : ℕ → InterestStatus → ℕ → Db → Db
answer_pending interest_id status now db = record db {
  interests =
      update_where (λ i. i.id == interest_id && is_pending i.status) (answered status now)
        db.interests;
}

after_accept : ℕ → Interest → Accepted → Db → Db
after_accept user_id interest done db =
    if done.is_new
    then signal (interest_accepted interest.sender_id user_id interest.id done.match_id) db
    else db

module _ (is_eligible : ℕ → ℕ → Db → Bool) where
  accept_found : Interest → ℕ → ℕ → Handler Db Accepted
  unfolding assert_can_interact accept_tx after_accept
  accept_found interest user_id now db =
      if not (is_pending interest.status)
      then (err interest_not_pending, db)
      else elim (assert_can_interact user_id db) [
        | err e ↦ (err e, db)
        | ok u ↦
            if leb interest.expires_at now
            then (err interest_not_pending, answer_pending interest.id expired now db)
            else if not (is_eligible user_id interest.sender_id db)
            then (err user_unavailable, answer_pending interest.id cancelled now db)
            else and_then (accept_tx user_id interest.sender_id interest.id now db)
                (λ done db'. (ok done, after_accept user_id interest done db'))
      ]

  accept_of : Option Interest → ℕ → ℕ → Handler Db Accepted
  unfolding accept_found
  accept_of none user_id now db = (err not_found, db)
  accept_of (some interest) user_id now db = accept_found interest user_id now db

  unfoldable pub accept : ℕ → ℕ → ℕ → Handler Db Accepted
  unfolding accept_of
  accept user_id interest_id now db =
      accept_of (find_one (λ i. i.id == interest_id && i.receiver_id == user_id) db.interests)
        user_id now db

pub data Role : Type 0 where
  sender receiver : Role

abbrev pub holds_role : Role → ℕ → Interest → Bool
holds_role sender user_id i = i.sender_id == user_id
holds_role receiver user_id i = i.receiver_id == user_id

abbrev pub is_open_answer : Role → ℕ → ℕ → ℕ → Interest → Bool
is_open_answer role user_id interest_id now i =
    i.id == interest_id && holds_role role user_id i && is_pending i.status && ltb now i.expires_at

unfoldable pub respond : Role → InterestStatus → ℕ → ℕ → ℕ → Handler Db (Unit {0})
respond role status user_id interest_id now db =
    let test = is_open_answer role user_id interest_id now in
    if not (is_some (find_one (λ i. i.id == interest_id && holds_role role user_id i) db.interests))
    then (err not_found, db)
    else if count_where test db.interests == 0
    then (err interest_not_pending, db)
    else (ok tt, record db { interests = update_where test (answered status now) db.interests })

unfoldable pub reject : ℕ → ℕ → ℕ → Handler Db (Unit {0})
unfolding respond
reject = respond receiver declined

unfoldable pub withdraw : ℕ → ℕ → ℕ → Handler Db (Unit {0})
unfolding respond
withdraw = respond sender withdrawn
