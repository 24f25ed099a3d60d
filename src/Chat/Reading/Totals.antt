-- ===== src/Chat/Reading/Totals.antt =====
-- The total of unread messages and the counts of the single chats
-- (apps/api/src/modules/chat/chat.service.ts).
use garba_partner.Chat.Rules.{partner_of}
use garba_partner.Table.{count_where, one_if, sum_by}
use garba_partner.Chat.Model.{has_member, Message, Db}
use garba_partner.Chat.Reading.{is_unread_in, is_counted, is_listed, unread_count, unread_total}
use garba_partner.Connections.Model.{Match}
use garba_partner.Prelude.{
  sym, ap, ◌∙◌, ℕ, ◌≡◌, ◌+◌, refl, Bool, true, false, not, ◌&&◌, ◌||◌, ◌==◌, Bool-cases, inl, inr,
  arith, List, [], ◌∷◌, all, filter, if◌then◌else◌,
}

module _ {A B : Type 0} (w : A → B → ℕ) where
  sum_by-zero : (xs : List A) → sum_by (λ x. 0) xs ≡ 0
  unfolding sum_by
  sum_by-zero [] = refl
  sum_by-zero (x ∷ xs) = omega (arith, sum_by-zero xs)

  sum_by-plus : (u v : A → ℕ) (xs : List A) → sum_by (λ x. u x + v x) xs ≡ sum_by u xs + sum_by v xs
  unfolding sum_by
  sum_by-plus u v [] = refl
  sum_by-plus u v (x ∷ xs) = omega (arith, sum_by-plus u v xs)

  -- A double sum may be taken in either order.
  pub sum_by-swap :
      (xs : List A) (ys : List B)
      → sum_by (λ x. sum_by (w x) ys) xs ≡ sum_by (λ y. sum_by (λ x. w x y) xs) ys
  unfolding sum_by
  sum_by-swap xs [] = sum_by-zero xs
  sum_by-swap xs (y ∷ ys) =
      sum_by-plus (λ x. w x y) (λ x. sum_by (w x) ys) xs
      ∙ ap (λ n. sum_by (λ x. w x y) xs + n) (sum_by-swap xs ys)

module _ {A : Type 0} where
  pub sum_by-congr_all :
      (p : A → Bool) (u v : A → ℕ) (xs : List A)
      → all p xs ≡ true
      → ((x : A) → p x ≡ true → u x ≡ v x)
      → sum_by u xs ≡ sum_by v xs
  unfolding sum_by
  sum_by-congr_all p u v [] h same = refl
  sum_by-congr_all p u v (x ∷ xs) h same =
      let here : p x ≡ true = ground (arith, h) in
      omega (arith, same x here, sum_by-congr_all p u v xs (ground (arith, h)) same)

  sum_by-filter :
      (p : A → Bool) (u : A → ℕ) (xs : List A)
      → sum_by u (filter p xs) ≡ sum_by (λ x. if p x then u x else 0) xs
  unfolding sum_by
  sum_by-filter p u [] = refl
  sum_by-filter p u (x ∷ xs) = ground (arith, sum_by-filter p u xs)

-- Two members are two, and what is in a match was sent by one of them.
abbrev is_between : Match → Message → Bool
is_between m x =
    not (x.match_id == m.id) || not (m.user_a_id == m.user_b_id) && has_member x.sender_id m

abbrev pub all_between : List Match → List Message → Bool
all_between matches messages = all (λ m. all (is_between m) messages) matches

counted-listed :
    (user_id : ℕ) (db : Db) (m : Match) (x : Message)
    → is_between m x ≡ true
    → is_counted user_id db m x ≡ (is_listed user_id db m && is_unread_in user_id m x)
counted-listed user_id db m x between = elim (Bool-cases (x.sender_id == partner_of user_id m)) [
  | inl e ↦
      let same : x.sender_id ≡ partner_of user_id m = ground (arith, e) in ground (arith, e, same)
  | inr e ↦ ground (arith, e)
]

none_counted : (user_id : ℕ) (m : Match) (xs : List Message) → count_where (λ x. false) xs ≡ 0
none_counted user_id m xs = sum_by-zero (λ (x : Message) (y : ℕ). 0) xs

listed-count :
    (user_id : ℕ) (db : Db) (m : Match)
    → all (is_between m) db.messages ≡ true
    → sum_by (λ x. one_if (λ n. is_counted user_id db n x) m) db.messages
      ≡ (if is_listed user_id db m then unread_count user_id m db else 0)
listed-count user_id db m between = elim (Bool-cases (is_listed user_id db m)) [
  | inl e ↦ rw e (
      sum_by-congr_all (is_between m) (λ x. one_if (λ n. is_counted user_id db n x) m)
        (one_if (is_unread_in user_id m)) db.messages between
        (λ x b. rw (counted-listed user_id db m x b, e) refl))
  | inr e ↦ rw e (
      sum_by-congr_all (is_between m) (λ x. one_if (λ n. is_counted user_id db n x) m) (λ x. 0)
        db.messages between (λ x b. rw (counted-listed user_id db m x b, e) refl)
      ∙ none_counted user_id m db.messages)
]

-- Where the two members of each match are two and every message of a match was sent by one of them,
-- the total of unread messages, which is asked of the messages and goes by their senders, is the sum
-- of the unread counts of the member's chats, which go by the partner.
pub unread_total-unread_count :
    (user_id : ℕ) (db : Db)
    → all_between db.members.connections.matches db.messages ≡ true
    → unread_total user_id db
      ≡ sum_by
          (λ m. unread_count user_id m db)
          (filter (is_listed user_id db) db.members.connections.matches)
unfolding unread_total
unread_total-unread_count user_id db between =
    let matches = db.members.connections.matches in
    sum_by-swap (λ x m. one_if (λ n. is_counted user_id db n x) m) db.messages matches
    ∙ sum_by-congr_all (λ m. all (is_between m) db.messages)
        (λ m. sum_by (λ x. one_if (λ n. is_counted user_id db n x) m) db.messages)
        (λ m. if is_listed user_id db m then unread_count user_id m db else 0) matches between
        (listed-count user_id db)
    ∙ sym (sum_by-filter (is_listed user_id db) (λ m. unread_count user_id m db) matches)
