-- ===== src/Members/Sessions/Tokens.antt =====
-- The rotation of refresh tokens, and a token presented again
-- (apps/api/src/modules/auth/auth.service.ts).
use garba_partner.Members.Sanctions.{revoked_session}
use garba_partner.Members.Sessions.SignedOut.{count-none}
use garba_partner.Api.{refresh_invalid, err, ok}
use garba_partner.Members.Model.{
  reuse_detected, SessionRevokeReason, Db, is_banned, is_account, is_live, Session,
}
use garba_partner.Table.{
  find_one-update, touch, one_if, sum_by-update_le, count_where, update_where, sum_by, find_one,
}
use garba_partner.Members.Sessions.{
  revoke_session, refresh_reuse_grace_seconds, had_token, rotated, is_session, refresh_answer,
  refresh_reused, has_token, refresh_user, Issued, refresh_found, refresh_tx, refresh,
  ClientContext,
}
use garba_partner.Prelude.{
  List, Bool, ℕ, ◌≡◌, refl, ◌≤◌, ◌-◌, Bool-cases, Option-cases, inl, inr, arith, true, false, ◌||◌,
  some, none, ◌∷◌, [], ◌*◌, is_some, or_else, leb, ltb, ==_refl, ◌==◌,
}

-- The row that is found is the only one that passes, so that an update of its key leaves none.
count-sole :
    {A : Type 0} (key : A → ℕ) (p : A → Bool) (f : A → A) (xs : List A) (s : A)
    → find_one p xs ≡ some s
    → count_where p xs ≤ 1
    → ((x : A) → p (f x) ≡ false)
    → count_where p (update_where (λ x. key x == key s) f xs) ≡ 0
unfolding find_one sum_by update_where
count-sole key p f [] s found sole clears = absurd (cc)
count-sole key p f (x ∷ xs) s found sole clears = elim (Bool-cases (p x)) [
  | inl e ↦
      let same : x ≡ s = ground (arith, found, e) in
      let rest : count_where p xs ≡ 0 = ground (arith, sole, e) in
      let le =
        sum_by-update_le (one_if p) (one_if p) (λ y. key y == key s) f xs
          (λ y. ground (arith, clears y)) in
      rw (same, ==_refl (key s), clears s) (omega (arith, rest, le))
  | inr e ↦
      let rest =
        count-sole key p f xs s (ground (arith, found, e)) (ground (arith, sole, e)) clears in
      elim (Bool-cases (key x == key s)) [
        | inl k ↦ rw (k, clears x) (omega (arith, rest))
        | inr k ↦ rw (k, e) (omega (arith, rest))
      ]
]

-- Whatever becomes of a token that is no session's current one, the answer is the error.
unknown-refused :
    (old next : ℕ) (client : ClientContext) (now : ℕ) (db : Db)
    → find_one (has_token old) db.sessions ≡ none
    → (refresh old next client now db).0 ≡ err refresh_invalid
unfolding refresh refresh_tx refresh_found refresh_reused refresh_answer
unknown-refused old next client now db h =
    elim (Option-cases (find_one (had_token old) db.sessions)) [
      | inl e ↦ rw (h, e) refl
      | inr (s, e) ↦
          elim (Bool-cases
            (leb (now - or_else s.rotated_at 0) (refresh_reuse_grace_seconds * 1000))) [
              | inl g ↦ rw (h, e, g) refl
              | inr g ↦ rw (h, e, g) refl
            ]
    ]

-- A refresh that succeeded rotated the session whose token was presented.
record Refreshed (old next : ℕ) (client : ClientContext) (now : ℕ) (db : Db) : Type 0 where
  session : Session
  found : find_one (has_token old) db.sessions ≡ some session
  live : is_live session ≡ true
  current : ltb now session.expires_at ≡ true
  sessions :
      (refresh old next client now db).1.sessions
      ≡ update_where (is_session session.id) (rotated old next client now) db.sessions

refresh-Refreshed :
    (old next : ℕ) (client : ClientContext) (now : ℕ) (db : Db) (i : Issued)
    → (refresh old next client now db).0 ≡ ok i
    → Refreshed old next client now db
unfolding refresh refresh_tx refresh_found refresh_user refresh_answer
refresh-Refreshed old next client now db i h =
    elim (Option-cases (find_one (has_token old) db.sessions)) [
      | inl e ↦
          let refused = unknown-refused old next client now db e in
          absurd (let h' = h in unfold refresh in cc)
      | inr (s, e) ↦ elim (Bool-cases (is_some s.revoked_at || leb s.expires_at now)) [
        | inl d ↦ absurd (let h' = rw (e, d) at h in cc)
        | inr d ↦ elim (Option-cases (find_one (is_account s.user_id) db.accounts)) [
          | inl m ↦ absurd (let h' = rw (e, d, m) at h in cc)
          | inr (user, m) ↦ elim (Bool-cases (is_banned user.status)) [
            | inl b ↦ absurd (let h' = rw (e, d, m, b) at h in cc)
            | inr b ↦ record {
              session = s;
              found = e;
              live = ground (arith, d);
              current = ground (arith, d);
              sessions = rw (e, d, m, b) refl;
            }
          ]
        ]
      ]
    ]

-- A refresh token is good once: where `next` is another token than `old` and `old` is the current
-- token of one session at most, a second refresh with `old` after one that succeeded is refused,
-- whoever asks and whenever.
pub refresh-once :
    (old next : ℕ) (client : ClientContext) (now : ℕ) (db : Db) (i : Issued)
    → (refresh old next client now db).0 ≡ ok i
    → (next == old) ≡ false
    → count_where (has_token old) db.sessions ≤ 1
    → (next' : ℕ) (client' : ClientContext) (later : ℕ)
    → (refresh old next' client' later (refresh old next client now db).1).0 ≡ err refresh_invalid
refresh-once old next client now db i h fresh sole next' client' later =
    let r = refresh-Refreshed old next client now db i h in
    let gone : count_where (has_token old) (refresh old next client now db).1.sessions ≡ 0 =
      rw r.sessions (
        count-sole (λ s. s.id) (has_token old) (rotated old next client now) db.sessions r.session
          r.found sole (λ s. fresh)) in
    unknown-refused old next' client' later (refresh old next client now db).1
      (count-none (has_token old) (refresh old next client now db).1.sessions gone)

-- A token of a revoked session is refused.
revoked-refused :
    (token next : ℕ) (client : ClientContext) (now : ℕ) (db : Db) (s : Session)
    → find_one (has_token token) db.sessions ≡ some s
    → is_live s ≡ false
    → (refresh token next client now db).0 ≡ err refresh_invalid
unfolding refresh refresh_tx refresh_found refresh_answer
revoked-refused token next client now db s found dead =
    let revoked : is_some s.revoked_at ≡ true = ground (arith, dead) in rw (found, revoked) refl

reuse-revoked :
    (old next : ℕ) (client : ClientContext) (now : ℕ) (db : Db) (s : Session)
    → find_one (has_token old) db.sessions ≡ none
    → find_one (had_token old) db.sessions ≡ some s
    → leb (now - or_else s.rotated_at 0) (refresh_reuse_grace_seconds * 1000) ≡ false
    → (refresh old next client now db).1 ≡ revoke_session s.id reuse_detected now db
unfolding refresh refresh_tx refresh_found refresh_reused
reuse-revoked old next client now db s unknown had late = rw (unknown, had, late) refl

keeps_token :
    (token id : ℕ) (reason : SessionRevokeReason) (now : ℕ) (s : Session)
    → has_token token (touch (is_session id) (revoked_session reason now) s) ≡ has_token token s
keeps_token token id reason now s = elim (Bool-cases (is_session id s)) [
  | inl e ↦ rw e refl
  | inr e ↦ rw e refl
]

-- A token that was rotated away and comes back more than `refresh_reuse_grace_seconds` after the
-- rotation ends the session: from then on the token that replaced it, and any other of that session,
-- is refused too.
pub refresh-reuse :
    (old next : ℕ) (client : ClientContext) (now : ℕ) (db : Db) (s : Session)
    → find_one (has_token old) db.sessions ≡ none
    → find_one (had_token old) db.sessions ≡ some s
    → leb (now - or_else s.rotated_at 0) (refresh_reuse_grace_seconds * 1000) ≡ false
    → (token : ℕ) (t : Session) → find_one (has_token token) db.sessions ≡ some t
    → is_session s.id t ≡ true
    → (next' : ℕ) (client' : ClientContext) (later : ℕ)
    → (refresh token next' client' later (refresh old next client now db).1).0 ≡ err refresh_invalid
refresh-reuse old next client now db s unknown had late token t current same next' client' later =
    let ended = revoke_session s.id reuse_detected now db in
    let found : find_one (has_token token) ended.sessions
        ≡ some (revoked_session reuse_detected now t) =
      rw
        (
          find_one-update (has_token token) (is_session s.id) (revoked_session reuse_detected now)
              db.sessions (keeps_token token s.id reuse_detected now),
          current,
          same,
        )
        refl in
    rw (reuse-revoked old next client now db s unknown had late) (
      revoked-refused token next' client' later ended (revoked_session reuse_detected now t) found
        refl)
