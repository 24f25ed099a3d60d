-- ===== src/Members/Sessions/SignedOut.antt =====
-- A member none of whose sessions is live, after a suspension or a ban
-- (apps/api/src/modules/safety/sanctions.ts, apps/api/src/middlewares/authenticate.ts).
use garba_partner.Members.Sanctions.Out.{
  apply_sanction-BannedOut, suspend-no_session, apply_sanction-Imposed,
}
use garba_partner.Members.Model.{suspension, ban}
use garba_partner.Api.{ok}
use garba_partner.Members.Model.{Db, Session}
use garba_partner.Table.{sum_by-le, count_where, find_one, one_if, sum_by}
use garba_partner.Members.Sessions.{is_usable, is_member_session_active, admit, authenticate}
use garba_partner.Members.Sanctions.{apply_sanction, is_live_of, Applied, SanctionInput}
use garba_partner.Prelude.{
  ◌⊎◌, Bool, List, ℕ, ◌≡◌, refl, ◌≤◌, Bool-cases, inl, inr, arith, true, false, none, ◌∷◌, [],
}

pub count-none :
    {A : Type 0} (p : A → Bool) (xs : List A) → count_where p xs ≡ 0 → find_one p xs ≡ none
unfolding sum_by find_one
count-none p [] h = refl
count-none p (x ∷ xs) h = elim (Bool-cases (p x)) [
  | inl e ↦ absurd (ground (arith, h, e))
  | inr e ↦ rw e (count-none p xs (ground (arith, h, e)))
]

usable_is_live :
    (user_id session_id now : ℕ) (s : Session)
    → one_if (is_usable user_id session_id now) s ≤ one_if (is_live_of user_id) s
usable_is_live user_id session_id now s = ground arith

no_session-unusable :
    (user_id session_id now : ℕ) (xs : List Session)
    → count_where (is_live_of user_id) xs ≡ 0
    → find_one (is_usable user_id session_id now) xs ≡ none
no_session-unusable user_id session_id now xs h = count-none (is_usable user_id session_id now) xs (
    omega (
      arith,
      h,
      sum_by-le (one_if (is_usable user_id session_id now)) (one_if (is_live_of user_id)) xs
          (usable_is_live user_id session_id now),
    ))

-- The access token of any session is no member, for requests and for sockets.
pub record SignedOut (user_id : ℕ) (db : Db) : Type 0 where
  pub requests : (session_id now : ℕ) → authenticate user_id session_id now db ≡ ok none
  pub sockets : (session_id now : ℕ) → is_member_session_active user_id session_id now db ≡ false

pub no_session-SignedOut :
    (user_id : ℕ) (db : Db)
    → count_where (is_live_of user_id) db.sessions ≡ 0
    → SignedOut user_id db
unfolding authenticate admit is_member_session_active
no_session-SignedOut user_id db h = record {
  requests = λ session_id now. rw (no_session-unusable user_id session_id now db.sessions h) refl;
  sockets = λ session_id now. rw (no_session-unusable user_id session_id now db.sessions h) refl;
}

-- After a suspension or a ban that `applySanction` newly imposes, every access token of the member is
-- refused: `authenticate` finds no member, and no event of a socket passes, whatever the session and
-- the time.
pub apply_sanction-SignedOut :
    (admin_id : ℕ) (input : SanctionInput) (now : ℕ) (db : Db) (a : Applied)
    → (apply_sanction admin_id input now db).0 ≡ ok a
    → a.created ≡ true
    → (input.type ≡ suspension) ⊎ (input.type ≡ ban)
    → SignedOut input.user_id (apply_sanction admin_id input now db).1
apply_sanction-SignedOut admin_id input now db a h new (inl is_suspension) =
    let i = apply_sanction-Imposed admin_id input now db a h new in
    no_session-SignedOut input.user_id (apply_sanction admin_id input now db).1
      (rw i.imposed (suspend-no_session i.user admin_id input now db is_suspension))
apply_sanction-SignedOut admin_id input now db a h new (inr is_ban) =
    let out = apply_sanction-BannedOut admin_id input now db a h new is_ban in
    no_session-SignedOut input.user_id (apply_sanction admin_id input now db).1 out.no_session
