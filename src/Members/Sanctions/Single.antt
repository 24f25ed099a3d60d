-- ===== src/Members/Sanctions/Single.antt =====
-- The sanctions of one type in force for one member (apps/api/src/modules/safety/sanctions.ts).
use garba_partner.Prelude.{
  ℕ, ◌≤◌, ◌≡◌, refl, ap, Bool, true, false, not, ◌&&◌, ◌||◌, Option, none, some, is_some, List,
  ◌++◌, ◌∷◌, [], Bool-cases, Option-cases, inl, inr, arith, if◌then◌else◌,
}
use garba_partner.Table.{
  find_one, update_where, count_where, one_if, sum_by-insert, count-find_none,
}
use garba_partner.Table.Counts.{count-update_le}
use garba_partner.Members.Model.{
  SanctionType, warning, chat_restriction, suspension, ban, Account, Sanction, Db, is_account,
  is_banned, is_pending_deletion, is_warning, same_type, is_in_force,
}
use garba_partner.Members.Sanctions.{
  set_account_status, SanctionInput, is_sanction_of, shows, new_sanction, revoke_sanctions,
  ban_effects, effects_of, impose, impose_or_reuse, sanction_user, apply_sanction, takes_duration,
}

-- At most one chat restriction, one suspension and one ban is in force for a member.
pub record OneInForce (xs : List Sanction) : Type 0 where
  pub single :
      (u : ℕ) (t : SanctionType) → is_warning t ≡ false → count_where (is_sanction_of u t) xs ≤ 1

pub OneInForce-end :
    (p : Sanction → Bool) (f : Sanction → Sanction) (xs : List Sanction)
    → ((x : Sanction) → is_in_force (f x) ≡ false)
    → OneInForce xs
    → OneInForce (update_where p f xs)
OneInForce-end p f xs ends one = record {
  single = λ u t serious. omega (
    arith,
    one.single u t serious,
    count-update_le (is_sanction_of u t) p f xs (λ x _. over u t x),
  );
}
  where
    over : (u : ℕ) (t : SanctionType) (x : Sanction) → is_sanction_of u t (f x) ≡ false
    over u t x = let e = ends x in ground (arith, e)

same_type_eq : (s t : SanctionType) → same_type s t ≡ true → s ≡ t
same_type_eq warning warning h = refl
same_type_eq warning chat_restriction h = absurd (cc)
same_type_eq warning suspension h = absurd (cc)
same_type_eq warning ban h = absurd (cc)
same_type_eq chat_restriction warning h = absurd (cc)
same_type_eq chat_restriction chat_restriction h = refl
same_type_eq chat_restriction suspension h = absurd (cc)
same_type_eq chat_restriction ban h = absurd (cc)
same_type_eq suspension warning h = absurd (cc)
same_type_eq suspension chat_restriction h = absurd (cc)
same_type_eq suspension suspension h = refl
same_type_eq suspension ban h = absurd (cc)
same_type_eq ban warning h = absurd (cc)
same_type_eq ban chat_restriction h = absurd (cc)
same_type_eq ban suspension h = absurd (cc)
same_type_eq ban ban h = refl

-- A new sanction where none of its type is in force for its member.
pub OneInForce-insert :
    (x : Sanction) (xs : List Sanction)
    → (is_warning x.type ≡ false → find_one (is_sanction_of x.user_id x.type) xs ≡ none)
    → OneInForce xs
    → OneInForce (xs ++ x ∷ [])
OneInForce-insert x xs none_yet one = record {
  single = λ u t serious. elim (Bool-cases (is_sanction_of u t x)) [
    | inl e ↦
        let same_user : u ≡ x.user_id = ground (arith, e) in
        let same_kind : x.type ≡ t = same_type_eq x.type t (ground (arith, e)) in
        let missing = none_yet (rw same_kind serious) in
        let missing' : find_one (is_sanction_of u t) xs ≡ none =
          rw (same_user, ← same_kind) missing in
        omega (
          arith,
          count-find_none _ xs missing',
          sum_by-insert (one_if (is_sanction_of u t)) xs x,
          ap {B = ℕ} (λ b. if b then 1 else 0) e,
        )
    | inr e ↦ omega (
      arith,
      one.single u t serious,
      sum_by-insert (one_if (is_sanction_of u t)) xs x,
      ap {B = ℕ} (λ b. if b then 1 else 0) e,
    )
  ];
}

effects_of-OneInForce :
    (type : SanctionType) (user_id admin_id now : ℕ) (db : Db)
    → OneInForce db.sanctions
    → OneInForce (effects_of type user_id admin_id now db).1.sanctions
unfolding effects_of ban_effects set_account_status revoke_sanctions
effects_of-OneInForce warning user_id admin_id now db one = one
effects_of-OneInForce chat_restriction user_id admin_id now db one = one
effects_of-OneInForce suspension user_id admin_id now db one = one
effects_of-OneInForce ban user_id admin_id now db one =
    OneInForce-end _ _ db.sanctions (λ x. refl) one

impose-OneInForce :
    (user : Account) (admin_id : ℕ) (input : SanctionInput) (now : ℕ) (db : Db)
    → (is_warning input.type ≡ false
        → find_one (is_sanction_of input.user_id input.type) db.sanctions ≡ none)
    → OneInForce db.sanctions
    → OneInForce (impose user admin_id input now db).1.sanctions
unfolding impose
impose-OneInForce user admin_id input now db none_yet one =
    effects_of-OneInForce input.type input.user_id admin_id now _
      (OneInForce-insert (new_sanction db.next_id admin_id input now) db.sanctions none_yet one)

-- `applySanction`, whatever it answers, leaves at most one sanction of each type but warnings in force
-- for each member, where there was at most one before.
pub apply_sanction-OneInForce :
    (admin_id : ℕ) (input : SanctionInput) (now : ℕ) (db : Db)
    → OneInForce db.sanctions
    → OneInForce (apply_sanction admin_id input now db).1.sanctions
unfolding apply_sanction sanction_user impose_or_reuse
apply_sanction-OneInForce admin_id input now db one =
    elim (Bool-cases (is_some input.duration_days && not (takes_duration input.type))) [
      | inl d ↦ rw d one
      | inr d ↦ elim (Option-cases (find_one (is_account input.user_id) db.accounts)) [
        | inl miss ↦ rw (d, miss) one
        | inr (user, found) ↦
            elim (Bool-cases (
              is_pending_deletion user.status
              || is_banned user.status && not (same_type input.type ban))) [
                | inl r ↦ rw (d, found, r) one
                | inr r ↦
                    elim (Bool-cases (
                      not (is_warning input.type)
                      && (is_some (find_one (is_sanction_of input.user_id input.type) db.sanctions)
                          || shows input.type user))) [
                            | inl e ↦ elim (Bool-cases input.reuse_active) [
                              | inl u ↦ rw (d, found, r, e, u) one
                              | inr u ↦ rw (d, found, r, e, u) one
                            ]
                            | inr e ↦
                                rw (d, found, r, e)
                                  (impose-OneInForce user admin_id input now db
                                    (λ serious.
                                      no_row
                                        (find_one (is_sanction_of input.user_id input.type)
                                          db.sanctions)
                                        (is_warning input.type) (shows input.type user) serious e)
                                    one)
                          ]
              ]
      ]
    ]
  where
    no_row :
        (found : Option Sanction) (mild shown : Bool)
        → mild ≡ false
        → (not mild && (is_some found || shown)) ≡ false
        → found ≡ none
    no_row none mild shown serious e = refl
    no_row (some s) mild shown serious e = absurd (let e' = rw serious at e in cc)
