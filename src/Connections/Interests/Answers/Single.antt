-- ===== src/Connections/Interests/Answers/Single.antt =====
-- `accept`, `reject` and `withdraw` and the rule of one pending interest and one active match for
-- each pair (apps/api/src/modules/interests/interests.service.ts).
use garba_partner.Prelude.{
  leb, Bool, ◌&&◌, false, ℕ, ◌==◌, is_some, ◌≡◌, refl, Option, none, some, Bool-cases, inl, inr,
}
use garba_partner.Api.{ok, Result-cases, and_then-keeps, transaction-keeps}
use garba_partner.Table.{find_one, count_where}
use garba_partner.Connections.Model.{
  expired, cancelled, Db, Match, Interest, InterestStatus, is_pending,
}
use garba_partner.Connections.Interests.{assert_can_interact}
use garba_partner.Connections.Pairs.{is_active_pair, canonical_pair}
use garba_partner.Connections.Single.{OnePerPair, OnePending-answer, OneActive-insert}
use garba_partner.Connections.Interests.Answers.{
  accept_of, accept_found, accept, Accepted, answer_pending, after_accept, accept_match,
  accept_locked, accept_tx, Role, respond, holds_role, is_open_answer,
}

accept_match-OnePerPair :
    (found : Option Match) (locked : Interest) (user_id sender : ℕ) (db : Db)
    → find_one (is_active_pair (canonical_pair user_id sender)) db.matches ≡ found
    → OnePerPair db
    → OnePerPair (accept_match found locked user_id sender db).1
unfolding accept_match
accept_match-OnePerPair (some m) locked user_id sender db hit one = one
accept_match-OnePerPair none locked user_id sender db free one = record {
  one_pending = one.one_pending;
  one_active =
      OneActive-insert (canonical_pair user_id sender) _ db.matches refl refl free one.one_active;
}

accept_locked-OnePerPair :
    (found : Option Interest) (user_id sender now : ℕ) (db : Db)
    → OnePerPair db
    → OnePerPair (accept_locked found user_id sender now db).1
unfolding accept_locked
accept_locked-OnePerPair none user_id sender now db one = one
accept_locked-OnePerPair (some locked) user_id sender now db one =
    elim (Bool-cases (is_pending locked.status)) [
      | inl e ↦ rw e (
          accept_match-OnePerPair _ locked user_id sender _ refl (record {
            one_pending = OnePending-answer _ now _ db.interests refl one.one_pending;
            one_active = one.one_active;
          }))
      | inr e ↦ rw e one
    ]

-- Accepting an interest leaves at most one pending interest and one active match between any two
-- members, where there was at most one before.
pub accept_tx-OnePerPair :
    (user_id sender interest_id now : ℕ) (db : Db)
    → OnePerPair db
    → OnePerPair (accept_tx user_id sender interest_id now db).1
unfolding accept_tx
accept_tx-OnePerPair user_id sender interest_id now db one =
    transaction-keeps OnePerPair
      (λ db. accept_locked (find_one (λ i. i.id == interest_id) db.interests) user_id sender now db)
      db one
      (accept_locked-OnePerPair (find_one (λ i. i.id == interest_id) db.interests) user_id sender
        now db one)

pub respond-OnePerPair :
    (role : Role) (status : InterestStatus) (user_id interest_id now : ℕ) (db : Db)
    → is_pending status ≡ false
    → OnePerPair db
    → OnePerPair (respond role status user_id interest_id now db).1
unfolding respond
respond-OnePerPair role status user_id interest_id now db final one =
    elim (Bool-cases
      (is_some (find_one (λ i. i.id == interest_id && holds_role role user_id i) db.interests))) [
        | inl e ↦
            elim (Bool-cases
              (count_where (is_open_answer role user_id interest_id now) db.interests == 0)) [
                | inl z ↦ rw (e, z) one
                | inr z ↦
                    rw (e, z)
                      (record {
                        one_pending =
                            OnePending-answer status now _ db.interests final one.one_pending;
                        one_active = one.one_active;
                      })
              ]
        | inr e ↦ rw e one
      ]

pub answer_pending-OnePerPair :
    (interest_id : ℕ) (status : InterestStatus) (now : ℕ) (db : Db)
    → is_pending status ≡ false
    → OnePerPair db
    → OnePerPair (answer_pending interest_id status now db)
answer_pending-OnePerPair interest_id status now db final one = record {
  one_pending = OnePending-answer status now _ db.interests final one.one_pending;
  one_active = one.one_active;
}

after_accept-OnePerPair :
    (user_id : ℕ) (interest : Interest) (done : Accepted) (db : Db)
    → OnePerPair db
    → OnePerPair (after_accept user_id interest done db)
unfolding after_accept
after_accept-OnePerPair user_id interest done db one = elim (Bool-cases done.is_new) [
  | inl e ↦ rw e (record { one_pending = one.one_pending; one_active = one.one_active })
  | inr e ↦ rw e one
]

module _ (is_eligible : ℕ → ℕ → Db → Bool) where
  accept_found-OnePerPair :
      (interest : Interest) (user_id now : ℕ) (db : Db)
      → OnePerPair db
      → OnePerPair (accept_found is_eligible interest user_id now db).1
  unfolding accept_found
  accept_found-OnePerPair interest user_id now db one =
      elim (Bool-cases (is_pending interest.status)) [
        | inr p ↦ rw p one
        | inl p ↦ elim (Result-cases (assert_can_interact user_id db)) [
          | inr (code, c) ↦ rw (p, c) one
          | inl (u, c) ↦ elim (Bool-cases (leb interest.expires_at now)) [
            | inl l ↦ rw (p, c, l) (answer_pending-OnePerPair interest.id expired now db refl one)
            | inr l ↦ elim (Bool-cases (is_eligible user_id interest.sender_id db)) [
              | inr e ↦
                  rw (p, c, l, e) (answer_pending-OnePerPair interest.id cancelled now db refl one)
              | inl e ↦
                  rw (p, c, l, e)
                    (and_then-keeps OnePerPair
                      (accept_tx user_id interest.sender_id interest.id now db)
                      (λ done db'. (ok done, after_accept user_id interest done db'))
                      (accept_tx-OnePerPair user_id interest.sender_id interest.id now db one)
                      (λ done db' one'. after_accept-OnePerPair user_id interest done db' one'))
            ]
          ]
        ]
      ]

  accept_of-OnePerPair :
      (found : Option Interest) (user_id now : ℕ) (db : Db)
      → OnePerPair db
      → OnePerPair (accept_of is_eligible found user_id now db).1
  unfolding accept_of
  accept_of-OnePerPair none user_id now db one = one
  accept_of-OnePerPair (some interest) user_id now db one =
      accept_found-OnePerPair interest user_id now db one

  pub accept-OnePerPair :
      (user_id interest_id now : ℕ) (db : Db)
      → OnePerPair db
      → OnePerPair (accept is_eligible user_id interest_id now db).1
  unfolding accept
  accept-OnePerPair user_id interest_id now db one = accept_of-OnePerPair _ user_id now db one
