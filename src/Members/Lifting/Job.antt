-- ===== src/Members/Lifting/Job.antt =====
-- What a run of the expiry job leaves (apps/api/src/modules/safety/sanctions.ts).
use garba_partner.Prelude.{
  ℕ, ◌≤◌, ◌≡◌, refl, sym, ◌∙◌, Bool, true, false, not, ◌&&◌, none, some, List, [], ◌∷◌, arith, any,
  all, filter, length, take, ◌==◌, or_else,
}
use garba_partner.Table.{find_one, touch, update_where, count_where, find_one-update, sort_by}
use garba_partner.Table.Cover.{
  count-covered, filter-covered, any-sort_by, length-sort_by, take_all, update-update,
  update-nothing, has_key_in, is_covered,
}
use garba_partner.Members.Model.{
  UserStatus, active, SanctionType, Account, Sanction, Db, is_account, is_suspended,
}
use garba_partner.Members.Sanctions.{with_status, with_chat_restriction}
use garba_partner.Members.Lifting.{
  is_due, expired_sanction, is_suspended_account, freed, expire_sanction, expire_each,
  due_sanctions, expire_sanctions,
}

abbrev named_in : List Sanction → Sanction → Bool
named_in due r = any (λ s. r.id == s.id) due

-- The loop is one update of the rows named by the list.
expire_each-sanctions :
    (now : ℕ) (due : List Sanction) (db : Db)
    → (expire_each now due db).sanctions
      ≡ update_where (named_in due) (expired_sanction now) db.sanctions
unfolding expire_each expire_sanction
expire_each-sanctions now [] db = sym (update-nothing (expired_sanction now) db.sanctions)
expire_each-sanctions now (s ∷ due) db =
    expire_each-sanctions now due _
    ∙ update-update (λ r. r.id == s.id) (named_in due) (expired_sanction now) db.sanctions
        (λ x. refl) (λ x. refl)

named_in-has_key_in :
    (due : List Sanction) (r : Sanction) → named_in due r ≡ has_key_in (λ s. s.id) due r
named_in-has_key_in [] r = refl
named_in-has_key_in (s ∷ due) r = let rest = named_in-has_key_in due r in ground (arith, rest)

covered_by_name :
    (now : ℕ) (due xs : List Sanction)
    → all (is_covered (is_due now) (has_key_in (λ s. s.id) due)) xs ≡ true
    → all (is_covered (is_due now) (named_in due)) xs ≡ true
covered_by_name now due [] h = refl
covered_by_name now due (x ∷ xs) h =
    rw (named_in-has_key_in due x) (ground (arith, h, covered_by_name now due xs))

due_unheld :
    (now : ℕ) (held : ℕ → Bool) (xs : List Sanction)
    → ((id : ℕ) → held id ≡ false)
    → filter (λ s. is_due now s && not (held s.id)) xs ≡ filter (is_due now) xs
due_unheld now held [] free = refl
due_unheld now held (x ∷ xs) free =
    let rest = due_unheld now held xs free in ground (arith, free x.id, rest)

not_due : (now : ℕ) (x : Sanction) → is_due now (expired_sanction now x) ≡ false
not_due now x = ground arith

-- Where no other process holds rows and at most 200 sanctions are due, a run of the expiry job leaves
-- none that is due.
pub expire_sanctions-none_due :
    (now : ℕ) (held : ℕ → Bool) (db : Db)
    → ((id : ℕ) → held id ≡ false)
    → length (filter (is_due now) db.sanctions) ≤ 200
    → count_where (is_due now) (expire_sanctions now held db).1.sanctions ≡ 0
unfolding expire_sanctions due_sanctions
expire_sanctions-none_due now held db free few =
    let key = λ (s : Sanction). or_else s.ends_at 0 in
    let found = filter (is_due now) db.sanctions in
    let all_taken : take 200 (sort_by key found) ≡ sort_by key found =
      take_all 200 (sort_by key found) (omega (arith, length-sort_by key found, few)) in
    rw
      (
        due_unheld now held db.sanctions free,
        all_taken,
        expire_each-sanctions now (sort_by key found) db,
      )
      (count-covered (is_due now) (named_in (sort_by key found)) (expired_sanction now) db.sanctions
        (covered_by_name now (sort_by key found) db.sanctions (
          filter-covered (λ s. s.id) (is_due now) db.sanctions (sort_by key found)
            (λ q h. any-sort_by key q found ∙ h)))
        (not_due now))

-- What an account must keep: its id and a status that is not `suspended`.
abbrev Settled : ℕ → UserStatus → List Account → Type 0
Settled id status accounts =
    (a : Account) × (find_one (is_account id) accounts ≡ some a) × (a.status ≡ status)

touch-Settled :
    (t : Account → Bool) (f : Account → Account) (id : ℕ) (status : UserStatus)
    (accounts : List Account)
    → ((a : Account) → is_account id (touch t f a) ≡ is_account id a)
    → ((a : Account) → a.status ≡ status → (touch t f a).status ≡ status)
    → Settled id status accounts
    → Settled id status (update_where t f accounts)
touch-Settled t f id status accounts keeps same (a, found, is) =
    (touch t f a, rw (find_one-update (is_account id) t f accounts keeps, found) refl, same a is)

freed-Settled :
    (s : Sanction) (id : ℕ) (status : UserStatus) (accounts : List Account)
    → is_suspended status ≡ false
    → Settled id status accounts
    → Settled id status (freed s accounts)
freed-Settled s id status accounts out settled = by_type s.type
  where
    by_type : (t : SanctionType) → Settled id status (freed (record s { type = t }) accounts)
    by_type SanctionType.warning = unfold freed in settled
    by_type SanctionType.ban = unfold freed in settled
    by_type SanctionType.chat_restriction =
        unfold freed in
        touch-Settled (is_account s.user_id) (with_chat_restriction none) id status accounts
          (λ a. ground arith) (λ a is. ground (arith, is)) settled
    by_type SanctionType.suspension =
        unfold freed in
        touch-Settled (is_suspended_account s.user_id) (with_status active) id status accounts
          (λ a. ground arith) (λ a is. ground (arith, is, out)) settled

expire_each-Settled :
    (now : ℕ) (due : List Sanction) (id : ℕ) (status : UserStatus) (db : Db)
    → is_suspended status ≡ false
    → Settled id status db.accounts
    → Settled id status (expire_each now due db).accounts
unfolding expire_each expire_sanction
expire_each-Settled now [] id status db out settled = settled
expire_each-Settled now (s ∷ due) id status db out settled =
    expire_each-Settled now due id status _ out (freed-Settled s id status db.accounts out settled)

-- A run of the expiry job never changes the status of an account that is not suspended: a banned
-- account stays banned, whatever timed sanctions of the member end.
pub expire_sanctions-keeps_status :
    (now : ℕ) (held : ℕ → Bool) (db : Db) (id : ℕ) (account : Account)
    → find_one (is_account id) db.accounts ≡ some account
    → is_suspended account.status ≡ false
    → (after : Account) × (find_one (is_account id) (expire_sanctions now held db).1.accounts
        ≡ some after)
      × (after.status ≡ account.status)
unfolding expire_sanctions
expire_sanctions-keeps_status now held db id account found out =
    expire_each-Settled now (due_sanctions now held db) id account.status db out
      (account, found, refl)
