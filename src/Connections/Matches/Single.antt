-- ===== src/Connections/Matches/Single.antt =====
-- `unmatch` and the rule of one active match for each pair
-- (apps/api/src/modules/interests/matches.service.ts).
use garba_partner.Prelude.{
  ◌||◌, true, false, ◌&&◌, Option-cases, Bool, ℕ, refl, Bool-cases, inl, inr, ◌==◌,
}
use garba_partner.Api.{ok, transaction, transaction-keeps, and_then-keeps}
use garba_partner.Table.{find_one, count_where}
use garba_partner.Connections.Model.{Match, Db}
use garba_partner.Connections.Single.{OnePerPair, OneActive-end}
use garba_partner.Connections.Matches.{
  unmatch_found, after_unmatch, unmatch, unmatch_tx, is_live, was_unmatched,
}

pub unmatch_tx-OnePerPair :
    (user_id match_id now : ℕ) (db : Db)
    → OnePerPair db
    → OnePerPair (unmatch_tx user_id match_id now db).1
unfolding unmatch_tx
unmatch_tx-OnePerPair user_id match_id now db one =
    elim (Bool-cases (count_where (is_live match_id) db.matches == 0)) [
      | inl e ↦ elim (Bool-cases (was_unmatched (find_one (λ m. m.id == match_id) db.matches))) [
        | inl u ↦ rw (e, u) one
        | inr u ↦ rw (e, u) one
      ]
      | inr e ↦ rw e (record {
        one_pending = one.one_pending;
        one_active = OneActive-end _ _ db.matches (λ x. refl) one.one_active;
      })
    ]

after_unmatch-OnePerPair :
    (m : Match) (done : Bool) (db : Db) → OnePerPair db → OnePerPair (after_unmatch m done db)
unfolding after_unmatch
after_unmatch-OnePerPair m true db one = record {
  one_pending = one.one_pending;
  one_active = one.one_active;
}
after_unmatch-OnePerPair m false db one = one

pub unmatch-OnePerPair :
    (user_id match_id now : ℕ) (db : Db)
    → OnePerPair db
    → OnePerPair (unmatch user_id match_id now db).1
unfolding unmatch unmatch_found
unmatch-OnePerPair user_id match_id now db one =
    elim (Option-cases (
      find_one (λ m. m.id == match_id && (m.user_a_id == user_id || m.user_b_id == user_id))
        db.matches)) [
          | inl miss ↦ rw miss one
          | inr (m, found) ↦ rw found (
              and_then-keeps OnePerPair (transaction (unmatch_tx user_id match_id now) db)
                (λ done db'. (ok tt, after_unmatch m done db'))
                (transaction-keeps OnePerPair (unmatch_tx user_id match_id now) db one
                  (unmatch_tx-OnePerPair user_id match_id now db one))
                (λ done db' one'. after_unmatch-OnePerPair m done db' one'))
        ]
