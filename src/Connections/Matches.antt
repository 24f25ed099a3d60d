-- ===== src/Connections/Matches.antt =====
-- `unmatch` (apps/api/src/modules/interests/matches.service.ts).
pub mod Single
use garba_partner.Prelude.{
  ℕ, Bool, true, false, not, ◌&&◌, ◌||◌, Option, none, some, ◌==◌, if◌then◌else◌,
}
use garba_partner.Table.{find_one, update_where, count_where}
use garba_partner.Api.{ok, err, Handler, and_then, transaction, not_found}
use garba_partner.Connections.Model.{Match, MatchStatus, Db, is_active, is_unmatched}
use garba_partner.Connections.Pairs.{emit_match_ended}

abbrev pub is_live : ℕ → Match → Bool
is_live match_id m = m.id == match_id && is_active m.status

-- the update names `endedByUserId` and leaves `endedByAdminId` alone
abbrev pub unmatched_by : ℕ → ℕ → Match → Match
unmatched_by user_id now m = record m {
  status = MatchStatus.unmatched;
  ended_at = some now;
  ended_by_user_id = some user_id;
}

was_unmatched : Option Match → Bool
was_unmatched none = false
was_unmatched (some m) = is_unmatched m.status

-- Whether this call ended the match; a match that ended another way cannot be unmatched.
unfoldable pub unmatch_tx : ℕ → ℕ → ℕ → Handler Db Bool
unfolding was_unmatched
unmatch_tx user_id match_id now db =
    if not (count_where (is_live match_id) db.matches == 0)
    then (
      ok true,
      record db { matches = update_where (is_live match_id) (unmatched_by user_id now) db.matches },
    )
    else if was_unmatched (find_one (λ m. m.id == match_id) db.matches)
    then (ok false, db)
    else (err not_found, db)

after_unmatch : Match → Bool → Db → Db
unfolding emit_match_ended
after_unmatch m true db = emit_match_ended (some m.id) m.user_a_id m.user_b_id db
after_unmatch m false db = db

unmatch_found : Option Match → ℕ → ℕ → ℕ → Handler Db (Unit {0})
unfolding unmatch_tx after_unmatch
unmatch_found none user_id match_id now db = (err not_found, db)
unmatch_found (some m) user_id match_id now db =
    and_then (transaction (unmatch_tx user_id match_id now) db)
      (λ done db'. (ok tt, after_unmatch m done db'))

unfoldable pub unmatch : ℕ → ℕ → ℕ → Handler Db (Unit {0})
unfolding unmatch_found
unmatch user_id match_id now db =
    unmatch_found
      (find_one (λ m. m.id == match_id && (m.user_a_id == user_id || m.user_b_id == user_id))
        db.matches)
      user_id match_id now db
