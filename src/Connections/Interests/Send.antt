-- ===== src/Connections/Interests/Send.antt =====
-- `send` (apps/api/src/modules/interests/interests.service.ts). Whether two members are eligible
-- for one another, `discovery.isEligible`, is a parameter.
pub mod Single
use garba_partner.Prelude.{
  ℕ, ◌+◌, ◌-◌, ◌*◌, Bool, true, false, not, ◌&&◌, Option, none, some, [], ◌∷◌, ◌++◌, ltb, leb, ◌==◌,
  if◌then◌else◌, is_some,
}
use garba_partner.Table.{find_one, update_where, count_where}
use garba_partner.Api.{
  Result, ok, err, Handler, and_then, transaction, validation_error, onboarding_required,
  discovery_disabled, interest_limit_reached, user_unavailable, already_matched,
}
use garba_partner.Connections.Model.{
  Preference, Profile, Interest, InterestStatus, accepted, expired, Match, match_created,
  interest_received, limit_reached, Db,
}
use garba_partner.Connections.Pairs.{canonical_pair, pending_between, is_active_pair, answered}
use garba_partner.Connections.Interests.{
  day_ms, interests_per_day, interest_expiry_days, assert_can_interact, assert_shared_event,
  new_match, signal,
}

-- Stale pending interests between the pair become `expired`.
abbrev pub expire_stale : ℕ → ℕ → ℕ → Db → Db
expire_stale a b now db = record db {
  interests =
      update_where (λ i. pending_between a b i && leb i.expires_at now) (answered expired now)
        db.interests;
}

pub record SendOutcome : Type 0 where
  pub interest_id : ℕ
  pub match_id : Option ℕ
  pub already_sent : Bool

abbrev new_interest : ℕ → ℕ → ℕ → Option ℕ → ℕ → Interest
new_interest id sender_id receiver_id event_id now = record {
  id = id;
  sender_id = sender_id;
  receiver_id = receiver_id;
  event_id = event_id;
  status = InterestStatus.pending;
  created_at = now;
  expires_at = now + interest_expiry_days * day_ms;
  responded_at = none;
}

-- `a ?? b` of two nullable values
abbrev first_of_two : Option ℕ → Option ℕ → Option ℕ
first_of_two none b = b
first_of_two (some a) b = some a

-- With no active match: what becomes of the pending interest, if any.
send_pending : Option Interest → ℕ → ℕ → Option ℕ → ℕ → Db → Result SendOutcome × Db
unfolding canonical_pair
send_pending none sender receiver event_id now db = (
  ok (record { interest_id = db.next_id; match_id = none; already_sent = false }),
  record db {
    interests = db.interests ++ new_interest db.next_id sender receiver event_id now ∷ [];
    next_id = db.next_id + 1;
  },
)
send_pending (some pending) sender receiver event_id now db =
    if pending.sender_id == sender
    then (ok (record { interest_id = pending.id; match_id = none; already_sent = true }), db)
    else (
      ok (record { interest_id = pending.id; match_id = some db.next_id; already_sent = false }),
      record db {
        interests = update_where (λ i. i.id == pending.id) (answered accepted now) db.interests;
        matches =
            db.matches
            ++ new_match db.next_id (canonical_pair sender receiver) pending.id
                (first_of_two pending.event_id event_id)
              ∷ [];
        next_id = db.next_id + 1;
      },
    )

send_active : Option Match → ℕ → ℕ → Option ℕ → ℕ → Db → Result SendOutcome × Db
unfolding send_pending
send_active (some m) sender receiver event_id now db = (err already_matched, db)
send_active none sender receiver event_id now db =
    send_pending (find_one (pending_between sender receiver) db.interests) sender receiver event_id
      now db

send_body : ℕ → ℕ → Option ℕ → ℕ → Handler Db SendOutcome
unfolding send_active canonical_pair
send_body sender receiver event_id now db =
    let fresh = expire_stale sender receiver now db in
    send_active (find_one (is_active_pair (canonical_pair sender receiver)) fresh.matches) sender
      receiver event_id now fresh

-- The transaction of `send`, under the lock of the pair.
unfoldable pub send_tx : ℕ → ℕ → Option ℕ → ℕ → Handler Db SendOutcome
unfolding send_body
send_tx sender receiver event_id now = transaction (send_body sender receiver event_id now)

-- After the commit: a match is told to both, an interest to the receiver, a repeat to nobody.
after_send : ℕ → ℕ → SendOutcome → Db → Db
after_send sender receiver outcome db = if outcome.already_sent then db else elim outcome.match_id [
  | some id ↦
      signal (match_created sender receiver id) (signal (match_created receiver sender id) db)
  | none ↦ signal (interest_received receiver sender outcome.interest_id) db
]

has_image : Option Profile → Bool
has_image none = false
has_image (some p) = is_some p.image_public_id

is_discoverable : Option Preference → Bool
is_discoverable none = false
is_discoverable (some p) = p.discovery_enabled

unfoldable pub sent_today : ℕ → ℕ → Db → ℕ
sent_today sender now db =
    count_where (λ i. i.sender_id == sender && ltb (now - day_ms) i.created_at) db.interests

check_event : ℕ → ℕ → Option ℕ → ℕ → Db → Result (Unit {0})
unfolding assert_shared_event
check_event a b none now db = ok tt
check_event a b (some id) now db = assert_shared_event a b id now db

module _ (is_eligible : ℕ → ℕ → Db → Bool) where
  send_allowed : ℕ → ℕ → Option ℕ → ℕ → Handler Db SendOutcome
  unfolding check_event send_tx after_send
  send_allowed sender receiver event_id now db =
      if not (is_eligible sender receiver db)
      then (err user_unavailable, db)
      else elim (check_event sender receiver event_id now db) [
        | err e ↦ (err e, db)
        | ok u ↦
            and_then (send_tx sender receiver event_id now db)
              (λ outcome db'. (ok outcome, after_send sender receiver outcome db'))
      ]

  unfoldable pub send : ℕ → ℕ → Option ℕ → ℕ → Handler Db SendOutcome
  unfolding send_allowed assert_can_interact sent_today has_image is_discoverable
  send sender receiver event_id now db =
      if receiver == sender
      then (err validation_error, db)
      else elim (assert_can_interact sender db) [
        | err e ↦ (err e, db)
        | ok u ↦
            if not (has_image (find_one (λ p. p.user_id == sender) db.profiles))
            then (err onboarding_required, db)
            else if not (is_discoverable (find_one (λ p. p.user_id == sender) db.preferences))
            then (err discovery_disabled, db)
            else if leb interests_per_day (sent_today sender now db)
            then (
              err interest_limit_reached,
              signal (limit_reached sender (sent_today sender now db)) db,
            )
            else send_allowed sender receiver event_id now db
      ]
