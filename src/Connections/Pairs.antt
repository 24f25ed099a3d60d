-- ===== src/Connections/Pairs.antt =====
-- What concerns an unordered pair of members
-- (apps/api/src/modules/interests/connections.ts, `canonicalPair` of apps/api/src/models/match.model.ts).
pub mod Endings
use garba_partner.Prelude.{
  ℕ, Bool, ◌&&◌, ◌||◌, Option, none, some, List, [], ◌∷◌, ◌++◌, map, ltb, ◌==◌, if◌then◌else◌,
  filter, any,
}
use garba_partner.Table.{find_one, update_where, count_where}
use garba_partner.Connections.Model.{
  Interest, InterestStatus, cancelled, Match, MatchStatus, match_ended, Db, is_pending, is_active,
}

pub record Pair : Type 0 where
  pub user_a_id : ℕ
  pub user_b_id : ℕ

unfoldable pub canonical_pair : ℕ → ℕ → Pair
canonical_pair x y =
    if ltb x y
    then record { user_a_id = x; user_b_id = y }
    else record { user_a_id = y; user_b_id = x }

-- pending interests between two members, in either direction
abbrev pub pending_between : ℕ → ℕ → Interest → Bool
pending_between a b i =
    is_pending i.status
    && (i.sender_id == a && i.receiver_id == b || i.sender_id == b && i.receiver_id == a)

abbrev pub is_active_pair : Pair → Match → Bool
is_active_pair pair m =
    m.user_a_id == pair.user_a_id && m.user_b_id == pair.user_b_id && is_active m.status

-- `update({ status, respondedAt })`
abbrev pub answered : InterestStatus → ℕ → Interest → Interest
answered status now i = record i { status = status; responded_at = some now }

pub record Ending : Type 0 where
  pub status : MatchStatus
  pub user_id : Option ℕ
  pub admin_id : Option ℕ

abbrev pub ended : Ending → ℕ → Match → Match
ended ending now m = record m {
  status = ending.status;
  ended_at = some now;
  ended_by_user_id = ending.user_id;
  ended_by_admin_id = ending.admin_id;
}

abbrev pub cancel_between : ℕ → ℕ → ℕ → Db → Db
cancel_between a b now db = record db {
  interests = update_where (pending_between a b) (answered cancelled now) db.interests;
}

end_found : Option Match → Ending → ℕ → Db → Option ℕ × Db
end_found none ending now db = (none, db)
end_found (some active) ending now db = (
  some active.id,
  record db { matches = update_where (λ m. m.id == active.id) (ended ending now) db.matches },
)

-- Ends everything between two members: the pending interests and the active match, whose id it
-- returns.
unfoldable pub end_connections : ℕ → ℕ → Ending → ℕ → Db → Option ℕ × Db
unfolding end_found canonical_pair
end_connections a b ending now db =
    end_found (find_one (is_active_pair (canonical_pair a b)) db.matches) ending now
      (cancel_between a b now db)

unfoldable pub emit_match_ended : Option ℕ → ℕ → ℕ → Db → Db
emit_match_ended none a b db = db
emit_match_ended (some id) a b db = record db {
  signals = db.signals ++ match_ended a id ∷ match_ended b id ∷ [];
}

abbrev pub pending_of : ℕ → Interest → Bool
pending_of user_id i = is_pending i.status && (i.sender_id == user_id || i.receiver_id == user_id)

unfoldable pub cancel_pending_interests_of : ℕ → ℕ → Db → ℕ × Db
cancel_pending_interests_of user_id now db = (
  count_where (pending_of user_id) db.interests,
  record db { interests = update_where (pending_of user_id) (answered cancelled now) db.interests },
)

abbrev pub active_of : ℕ → Match → Bool
active_of user_id m = is_active m.status && (m.user_a_id == user_id || m.user_b_id == user_id)

-- the update names `endedByAdminId` and leaves `endedByUserId` alone
abbrev pub closed_by : ℕ → ℕ → Match → Match
closed_by admin_id now m = record m {
  status = MatchStatus.closed;
  ended_at = some now;
  ended_by_admin_id = some admin_id;
}

-- Ends every active match of a member: the ids, each with the other member.
unfoldable pub end_all_matches_of : ℕ → ℕ → ℕ → Db → List (ℕ × ℕ) × Db
end_all_matches_of user_id admin_id now db =
    let found = filter (active_of user_id) db.matches in
    (
      map (λ m. (m.id, if m.user_a_id == user_id then m.user_b_id else m.user_a_id)) found,
      record db {
        matches =
            update_where (λ m. any (λ f. f.id == m.id) found) (closed_by admin_id now) db.matches;
      },
    )
