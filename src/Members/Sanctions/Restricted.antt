-- ===== src/Members/Sanctions/Restricted.antt =====
-- A new chat restriction (apps/api/src/modules/safety/sanctions.ts).
use garba_partner.Members.Model.{chat_restriction}
use garba_partner.Table.{find_one-update, update_where, find_one-holds, find_one, touch}
use garba_partner.Members.Model.{Db, is_account, Account}
use garba_partner.Members.Sanctions.{with_chat_restriction, SanctionInput, effects_of, impose}
use garba_partner.Prelude.{ℕ, ◌≡◌, refl, some, Bool-cases, inl, inr}

keeps_account :
    (id now : ℕ) (a : Account)
    → is_account id (touch (is_account id) (with_chat_restriction (some now)) a) ≡ is_account id a
keeps_account id now a = elim (Bool-cases (is_account id a)) [
  | inl e ↦ rw (e, e)
  | inr e ↦ rw (e, e)
]

pub impose-restricted :
    (user : Account) (admin_id : ℕ) (input : SanctionInput) (now : ℕ) (rows : Db)
    → input.type ≡ chat_restriction
    → find_one (is_account input.user_id) rows.accounts ≡ some user
    → find_one (is_account input.user_id) (impose user admin_id input now rows).1.accounts
      ≡ some (with_chat_restriction (some now) user)
unfolding impose effects_of
impose-restricted user admin_id input now rows restriction found =
    let own = find_one-holds (is_account input.user_id) rows.accounts found in
    let same : find_one (is_account input.user_id)
          (update_where (is_account input.user_id) (with_chat_restriction (some now)) rows.accounts)
        ≡ some (with_chat_restriction (some now) user) =
      rw
        (
          find_one-update (is_account input.user_id) (is_account input.user_id)
              (with_chat_restriction (some now)) rows.accounts (keeps_account input.user_id now),
          found,
          own,
        )
        refl in
    rw restriction same
