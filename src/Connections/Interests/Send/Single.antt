-- ===== src/Connections/Interests/Send/Single.antt =====
-- `send` and the rule of one pending interest and one active match for each pair
-- (apps/api/src/modules/interests/interests.service.ts).
use garba_partner.Connections.Interests.{assert_can_interact, interests_per_day}
use garba_partner.Prelude.{
  leb, Option-cases, Bool, ℕ, ◌≡◌, refl, Option, none, some, Bool-cases, inl, inr, ◌==◌,
}
use garba_partner.Api.{ok, and_then-keeps, Result-cases, transaction-keeps}
use garba_partner.Table.{find_one}
use garba_partner.Connections.Model.{Db, Match, Interest}
use garba_partner.Connections.Pairs.{pending_between, is_active_pair, canonical_pair}
use garba_partner.Connections.Single.{
  OnePerPair, OnePending-answer, OnePending-insert, OneActive-insert,
}
use garba_partner.Connections.Interests.Send.{
  send_allowed, check_event, has_image, is_discoverable, sent_today, SendOutcome, send, after_send,
  send_pending, send_active, send_body, send_tx,
}

send_pending-OnePerPair :
    (found : Option Interest) (sender receiver : ℕ) (event_id : Option ℕ) (now : ℕ) (db : Db)
    → find_one (pending_between sender receiver) db.interests ≡ found
    → find_one (is_active_pair (canonical_pair sender receiver)) db.matches ≡ none
    → OnePerPair db
    → OnePerPair (send_pending found sender receiver event_id now db).1
unfolding send_pending
send_pending-OnePerPair none sender receiver event_id now db miss free one = record {
  one_pending = OnePending-insert _ db.interests miss one.one_pending;
  one_active = one.one_active;
}
send_pending-OnePerPair (some i) sender receiver event_id now db hit free one =
    elim (Bool-cases (i.sender_id == sender)) [
      | inl e ↦ rw e one
      | inr e ↦ rw e (record {
        one_pending = OnePending-answer _ now _ db.interests refl one.one_pending;
        one_active =
            OneActive-insert (canonical_pair sender receiver) _ db.matches refl refl free
              one.one_active;
      })
    ]

send_active-OnePerPair :
    (found : Option Match) (sender receiver : ℕ) (event_id : Option ℕ) (now : ℕ) (db : Db)
    → find_one (is_active_pair (canonical_pair sender receiver)) db.matches ≡ found
    → OnePerPair db
    → OnePerPair (send_active found sender receiver event_id now db).1
unfolding send_active
send_active-OnePerPair (some m) sender receiver event_id now db hit one = one
send_active-OnePerPair none sender receiver event_id now db free one =
    send_pending-OnePerPair _ sender receiver event_id now db refl free one

send_body-OnePerPair :
    (sender receiver : ℕ) (event_id : Option ℕ) (now : ℕ) (db : Db)
    → OnePerPair db
    → OnePerPair (send_body sender receiver event_id now db).1
unfolding send_body
send_body-OnePerPair sender receiver event_id now db one =
    send_active-OnePerPair _ sender receiver event_id now _ refl (record {
      one_pending = OnePending-answer _ now _ db.interests refl one.one_pending;
      one_active = one.one_active;
    })

-- Sending an interest leaves at most one pending interest and one active match between any two
-- members, in whichever directions they were sent, where there was at most one before.
pub send_tx-OnePerPair :
    (sender receiver : ℕ) (event_id : Option ℕ) (now : ℕ) (db : Db)
    → OnePerPair db
    → OnePerPair (send_tx sender receiver event_id now db).1
unfolding send_tx
send_tx-OnePerPair sender receiver event_id now db one =
    transaction-keeps OnePerPair (send_body sender receiver event_id now) db one
      (send_body-OnePerPair sender receiver event_id now db one)

after_send-OnePerPair :
    (sender receiver : ℕ) (outcome : SendOutcome) (db : Db)
    → OnePerPair db
    → OnePerPair (after_send sender receiver outcome db)
unfolding after_send
after_send-OnePerPair sender receiver outcome db one = elim (Bool-cases outcome.already_sent) [
  | inl e ↦ rw e one
  | inr e ↦ elim (Option-cases outcome.match_id) [
    | inl m ↦ rw (e, m) (record { one_pending = one.one_pending; one_active = one.one_active })
    | inr (id, m) ↦
        rw (e, m) (record { one_pending = one.one_pending; one_active = one.one_active })
  ]
]

module _ (is_eligible : ℕ → ℕ → Db → Bool) where
  send_allowed-OnePerPair :
      (sender receiver : ℕ) (event_id : Option ℕ) (now : ℕ) (db : Db)
      → OnePerPair db
      → OnePerPair (send_allowed is_eligible sender receiver event_id now db).1
  unfolding send_allowed
  send_allowed-OnePerPair sender receiver event_id now db one =
      elim (Bool-cases (is_eligible sender receiver db)) [
        | inl e ↦ elim (Result-cases (check_event sender receiver event_id now db)) [
          | inl (u, c) ↦
              rw (e, c)
                (and_then-keeps OnePerPair (send_tx sender receiver event_id now db)
                  (λ outcome db'. (ok outcome, after_send sender receiver outcome db'))
                  (send_tx-OnePerPair sender receiver event_id now db one)
                  (λ outcome db' one'. after_send-OnePerPair sender receiver outcome db' one'))
          | inr (code, c) ↦ rw (e, c) one
        ]
        | inr e ↦ rw e one
      ]

  pub send-OnePerPair :
      (sender receiver : ℕ) (event_id : Option ℕ) (now : ℕ) (db : Db)
      → OnePerPair db
      → OnePerPair (send is_eligible sender receiver event_id now db).1
  unfolding send
  send-OnePerPair sender receiver event_id now db one = elim (Bool-cases (receiver == sender)) [
    | inl e ↦ rw e one
    | inr e ↦ elim (Result-cases (assert_can_interact sender db)) [
      | inr (code, c) ↦ rw (e, c) one
      | inl (u, c) ↦
          elim (Bool-cases (has_image (find_one (λ p. p.user_id == sender) db.profiles))) [
            | inr i ↦ rw (e, c, i) one
            | inl i ↦
                elim (Bool-cases
                  (is_discoverable (find_one (λ p. p.user_id == sender) db.preferences))) [
                    | inr d ↦ rw (e, c, i, d) one
                    | inl d ↦ elim (Bool-cases (leb interests_per_day (sent_today sender now db))) [
                      | inl l ↦
                          rw (e, c, i, d, l)
                            (record { one_pending = one.one_pending; one_active = one.one_active })
                      | inr l ↦
                          rw (e, c, i, d, l)
                            (send_allowed-OnePerPair sender receiver event_id now db one)
                    ]
                  ]
          ]
    ]
  ]
