-- ===== src/Members/Sanctions/Out.antt =====
-- What a new suspension or ban leaves of a member's sessions, matches and interests
-- (apps/api/src/modules/safety/sanctions.ts).
use garba_partner.Prelude.{
  ℕ, ◌+◌, ◌≡◌, refl, Bool, true, false, not, ◌&&◌, ◌||◌, some, is_some, ◌++◌, ◌∷◌, [], Bool-cases,
  Option-cases, inl, inr, arith, filter,
}
use garba_partner.Table.{
  find_one, touch, update_where, count_where, find_one-update, find_one-holds,
}
use garba_partner.Table.Counts.{count-cleared}
use garba_partner.Table.Cover.{count-covered, filter-covered}
use garba_partner.Api.{ok}
use garba_partner.Connections.Model
use garba_partner.Connections.Model.{Match, Interest, MatchStatus, InterestStatus, cancelled}
use garba_partner.Connections.Pairs.{
  active_of, pending_of, closed_by, answered, end_all_matches_of, cancel_pending_interests_of,
}
use garba_partner.Members.Model.{
  UserStatus, suspended, banned, SessionRevokeReason, SanctionType, suspension, ban, Account,
  Session, Sanction, Db, is_account, is_active_status, is_banned, is_pending_deletion, is_warning,
  same_type,
}
use garba_partner.Members.Sanctions.{
  with_status, is_live_of, revoked_session, set_account_status, SanctionInput, Applied,
  is_sanction_of, shows, new_sanction, revoke_sanctions, revoked_sanction, ban_effects, effects_of,
  impose, impose_or_reuse, sanction_user, apply_sanction, takes_duration,
}

-- Every sanction that `applySanction` records was imposed on an account that was found.
pub record Imposed (admin_id : ℕ) (input : SanctionInput) (now : ℕ) (db : Db) : Type 0 where
  pub user : Account
  pub found : find_one (is_account input.user_id) db.accounts ≡ some user
  pub not_banned : (is_banned user.status && not (same_type input.type ban)) ≡ false
  pub none_yet :
      (not (is_warning input.type)
        && (is_some (find_one (is_sanction_of input.user_id input.type) db.sanctions)
            || shows input.type user))
      ≡ false
  pub imposed : apply_sanction admin_id input now db ≡ impose user admin_id input now db

pub apply_sanction-Imposed :
    (admin_id : ℕ) (input : SanctionInput) (now : ℕ) (db : Db) (a : Applied)
    → (apply_sanction admin_id input now db).0 ≡ ok a
    → a.created ≡ true
    → Imposed admin_id input now db
unfolding apply_sanction sanction_user impose_or_reuse
apply_sanction-Imposed admin_id input now db a h new =
    elim (Bool-cases (is_some input.duration_days && not (takes_duration input.type))) [
      | inl d ↦ absurd (let h' = rw d at h in cc)
      | inr d ↦ elim (Option-cases (find_one (is_account input.user_id) db.accounts)) [
        | inl miss ↦ absurd (let h' = rw (d, miss) at h in cc)
        | inr (user, found) ↦ elim (Bool-cases (refused user)) [
          | inl r ↦ absurd (let h' = rw (d, found, r) at h in cc)
          | inr r ↦ elim (Bool-cases (in_effect user)) [
            | inl e ↦ elim (Bool-cases input.reuse_active) [
              | inl u ↦ absurd (let h' = rw (d, found, r, e, u) at h in ground (arith, h', new))
              | inr u ↦ absurd (let h' = rw (d, found, r, e, u) at h in cc)
            ]
            | inr e ↦ record {
              user = user;
              found = found;
              not_banned = ground (arith, r);
              none_yet = e;
              imposed = rw (d, found, r, e);
            }
          ]
        ]
      ]
    ]
  where
    refused : Account → Bool
    refused user =
        is_pending_deletion user.status || is_banned user.status && not (same_type input.type ban)

    in_effect : Account → Bool
    in_effect user =
        not (is_warning input.type)
        && (is_some (find_one (is_sanction_of input.user_id input.type) db.sanctions)
            || shows input.type user)

dead_session :
    (user_id now : ℕ) (s : Session)
    → is_live_of user_id
        (touch (is_live_of user_id) (revoked_session SessionRevokeReason.sanction now) s)
      ≡ false
dead_session user_id now s = ground arith

-- No session of the member is left that is not revoked.
pub set_account_status-no_session :
    (user_id : ℕ) (status : UserStatus) (now : ℕ) (db : Db)
    → is_active_status status ≡ false
    → count_where (is_live_of user_id) (set_account_status user_id status now db).sessions ≡ 0
unfolding set_account_status
set_account_status-no_session user_id status now db out =
    rw out (count-cleared _ _ _ db.sessions (dead_session user_id now))

-- A suspension leaves none.
pub suspend-no_session :
    (user : Account) (admin_id : ℕ) (input : SanctionInput) (now : ℕ) (db : Db)
    → input.type ≡ suspension
    → count_where (is_live_of input.user_id) (impose user admin_id input now db).1.sessions ≡ 0
unfolding impose effects_of
suspend-no_session user admin_id input now db is_suspension =
    let row : Sanction = record (new_sanction db.next_id admin_id input now) {
      type = suspension;
    } in
    let recorded = record db { sanctions = db.sanctions ++ row ∷ []; next_id = db.next_id + 1 } in
    rw is_suspension (set_account_status-no_session input.user_id suspended now recorded refl)

keeps_account :
    (id : ℕ) (status : UserStatus) (a : Account)
    → is_account id (touch (is_account id) (with_status status) a) ≡ is_account id a
keeps_account id status a = elim (Bool-cases (is_account id a)) [
  | inl e ↦ rw (e, e)
  | inr e ↦ rw (e, e)
]

set_account_status-found :
    (user_id : ℕ) (status : UserStatus) (now : ℕ) (db : Db) (user : Account)
    → find_one (is_account user_id) db.accounts ≡ some user
    → find_one (is_account user_id) (set_account_status user_id status now db).accounts
      ≡ some (with_status status user)
unfolding set_account_status
set_account_status-found user_id status now db user found =
    let by_key =
      find_one-update (is_account user_id) (is_account user_id) (with_status status) db.accounts
        (keeps_account user_id status) in
    let own = find_one-holds (is_account user_id) db.accounts found in
    let same : find_one (is_account user_id)
          (update_where (is_account user_id) (with_status status) db.accounts)
        ≡ some (with_status status user) =
      rw (by_key, found, own) refl in
    elim (Bool-cases (is_active_status status)) [ inl e ↦ rw e same | inr e ↦ rw e same ]

closed_not_active :
    (user_id admin_id now : ℕ) (m : Match) → active_of user_id (closed_by admin_id now m) ≡ false
closed_not_active user_id admin_id now m = ground arith

pub end_all_matches_of-none_active :
    (user_id admin_id now : ℕ) (db : Model.Db)
    → count_where (active_of user_id) (end_all_matches_of user_id admin_id now db).1.matches ≡ 0
unfolding end_all_matches_of
end_all_matches_of-none_active user_id admin_id now db =
    count-covered (active_of user_id) _ (closed_by admin_id now) db.matches
      (filter-covered (λ m. m.id) (active_of user_id) db.matches
        (filter (active_of user_id) db.matches) (λ q h. h))
      (closed_not_active user_id admin_id now)

cancelled_not_pending :
    (user_id now : ℕ) (i : Interest)
    → pending_of user_id (touch (pending_of user_id) (answered cancelled now) i) ≡ false
cancelled_not_pending user_id now i = ground arith

pub cancel_pending_interests_of-none_pending :
    (user_id now : ℕ) (db : Model.Db)
    → count_where (pending_of user_id) (cancel_pending_interests_of user_id now db).1.interests ≡ 0
unfolding cancel_pending_interests_of
cancel_pending_interests_of-none_pending user_id now db =
    count-cleared _ _ _ db.interests (cancelled_not_pending user_id now)

revoked_not_in_force :
    (user_id : ℕ) (type : SanctionType) (admin_id : ℕ) (now : ℕ) (s : Sanction)
    → is_sanction_of user_id type (
        touch
          (is_sanction_of user_id type)
          (revoked_sanction admin_id "Superseded by a ban." now)
          s)
      ≡ false
revoked_not_in_force user_id type admin_id now s =
    elim (Bool-cases (is_sanction_of user_id type s)) [
      | inl e ↦ rw e (ground arith)
      | inr e ↦ rw (e, e)
    ]

-- What is left of a banned member.
pub record BannedOut (user_id : ℕ) (db : Db) : Type 0 where
  pub account : Account
  pub found : find_one (is_account user_id) db.accounts ≡ some account
  pub status : account.status ≡ banned
  pub no_session : count_where (is_live_of user_id) db.sessions ≡ 0
  pub no_match : count_where (active_of user_id) db.connections.matches ≡ 0
  pub no_interest : count_where (pending_of user_id) db.connections.interests ≡ 0
  pub no_suspension : count_where (is_sanction_of user_id suspension) db.sanctions ≡ 0

ban_effects-BannedOut :
    (user : Account) (user_id admin_id now : ℕ) (db : Db)
    → find_one (is_account user_id) db.accounts ≡ some user
    → BannedOut user_id (ban_effects user_id admin_id now db).1
unfolding ban_effects revoke_sanctions
ban_effects-BannedOut user user_id admin_id now db found =
    let revoked = revoke_sanctions user_id suspension admin_id "Superseded by a ban." now db in
    let out = set_account_status user_id banned now revoked in
    let alone = (end_all_matches_of user_id admin_id now out.connections).1 in
    record {
      account = with_status banned user;
      found = set_account_status-found user_id banned now revoked user found;
      status = refl;
      no_session = set_account_status-no_session user_id banned now revoked refl;
      no_match =
          unfold cancel_pending_interests_of in
          end_all_matches_of-none_active user_id admin_id now out.connections;
      no_interest = cancel_pending_interests_of-none_pending user_id now alone;
      no_suspension =
          unfold set_account_status in
          count-cleared _ _ _ db.sanctions (revoked_not_in_force user_id suspension admin_id now);
    }

impose-BannedOut :
    (user : Account) (admin_id : ℕ) (input : SanctionInput) (now : ℕ) (db : Db)
    → input.type ≡ ban
    → find_one (is_account input.user_id) db.accounts ≡ some user
    → BannedOut input.user_id (impose user admin_id input now db).1
unfolding impose effects_of
impose-BannedOut user admin_id input now db is_ban found =
    let row : Sanction = record (new_sanction db.next_id admin_id input now) { type = ban } in
    let recorded = record db { sanctions = db.sanctions ++ row ∷ []; next_id = db.next_id + 1 } in
    let b = ban_effects-BannedOut user input.user_id admin_id now recorded found in
    rw is_ban (record {
      account = b.account;
      found = b.found;
      status = b.status;
      no_session = b.no_session;
      no_match = b.no_match;
      no_interest = b.no_interest;
      no_suspension = b.no_suspension;
    })

-- After a ban that `applySanction` newly imposes: the account is banned, every session of the member
-- is revoked, no match of theirs is active, no interest that they sent or received is pending, and
-- no suspension of theirs is in force.
pub apply_sanction-BannedOut :
    (admin_id : ℕ) (input : SanctionInput) (now : ℕ) (db : Db) (a : Applied)
    → (apply_sanction admin_id input now db).0 ≡ ok a
    → a.created ≡ true
    → input.type ≡ ban
    → BannedOut input.user_id (apply_sanction admin_id input now db).1
apply_sanction-BannedOut admin_id input now db a h new is_ban =
    let i = apply_sanction-Imposed admin_id input now db a h new in
    rw i.imposed (impose-BannedOut i.user admin_id input now db is_ban i.found)
