-- ===== src/Connections/Interests.antt =====
-- What `send` and `accept` of the interests service share
-- (apps/api/src/modules/interests/interests.service.ts): the limits, the checks of a member and of an
-- event, a new match.
pub mod Send
pub mod Answers
use garba_partner.Prelude.{
  ℕ, ◌+◌, ◌-◌, ◌*◌, Bool, true, false, not, ◌&&◌, ◌||◌, Option, none, some, List, [], ◌∷◌, ◌++◌,
  ltb, leb, ◌==◌, if◌then◌else◌, is_some,
}
use garba_partner.Table.{find_one, update_where, count_where}
use garba_partner.Api.{
  Result, ok, err, Handler, and_then, transaction, unauthenticated, not_found, validation_error,
  interactions_restricted, onboarding_required, discovery_disabled, interest_limit_reached,
  user_unavailable, already_matched, interest_not_pending,
}
use garba_partner.Connections.Model.{
  User, Preference, Profile, Interest, InterestStatus, accepted, declined, withdrawn, cancelled,
  expired, Match, MatchStatus, Signal, match_created, interest_received, interest_accepted,
  limit_reached, Db, is_pending,
}
use garba_partner.Connections.Pairs.{
  Pair, canonical_pair, pending_between, is_active_pair, answered,
}

abbrev pub day_ms : ℕ
day_ms = 24 * 60 * 60 * 1000

abbrev pub interests_per_day : ℕ
interests_per_day = 25

abbrev pub interest_expiry_days : ℕ
interest_expiry_days = 14

check_user : Option User → Result (Unit {0})
check_user none = err unauthenticated
check_user (some u) =
    if u.hidden_from_discovery || is_some u.interactions_restricted_at
    then err interactions_restricted
    else ok tt

unfoldable pub assert_can_interact : ℕ → Db → Result (Unit {0})
unfolding check_user
assert_can_interact user_id db = check_user (find_one (λ u. u.id == user_id) db.users)

-- An event can be mentioned only if both look for a partner at it, and it has not ended.
unfoldable pub assert_shared_event : ℕ → ℕ → ℕ → ℕ → Db → Result (Unit {0})
assert_shared_event a b event_id now db =
    let open_event =
      find_one (λ e. e.id == event_id && e.is_published && ltb now e.ends_at) db.events in
    let both =
      count_where
        (λ t. t.event_id == event_id && (t.user_id == a || t.user_id == b) && t.looking_for_partner)
        db.attendances in
    if not (is_some open_event) || ltb both 2 then err validation_error else ok tt

abbrev pub new_match : ℕ → Pair → ℕ → Option ℕ → Match
new_match id pair interest_id event_id = record {
  id = id;
  user_a_id = pair.user_a_id;
  user_b_id = pair.user_b_id;
  interest_id = interest_id;
  event_id = event_id;
  status = MatchStatus.active;
  ended_at = none;
  ended_by_user_id = none;
  ended_by_admin_id = none;
  last_message_at = none;
  user_a_last_read_at = none;
  user_b_last_read_at = none;
}

abbrev pub signal : Signal → Db → Db
signal s db = record db { signals = db.signals ++ s ∷ [] }
