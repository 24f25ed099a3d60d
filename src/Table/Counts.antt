-- ===== src/Table/Counts.antt =====
-- How an update changes the number of rows that pass a test.
use garba_partner.Prelude.{
  ◌+◌, ◌≤◌, ◌≡◌, refl, Bool, true, false, some, List, [], ◌∷◌, Bool-cases, inl, inr, arith,
}
use garba_partner.Table.{
  find_one, touch, update_where, sum_by, count_where, one_if, sum_by-update_le,
}

module _ {A : Type 0} (p t : A → Bool) (f : A → A) where
  one_if-touch :
      ((x : A) → t x ≡ true → p (f x) ≡ false) → (x : A) → one_if p (touch t f x) ≤ one_if p x
  one_if-touch clears x = elim (Bool-cases (t x)) [
    | inl e ↦ rw (e, clears x e) (omega arith)
    | inr e ↦ rw e (omega arith)
  ]

  -- An update after which no touched row passes the test does not raise the count.
  pub count-update_le :
      (xs : List A)
      → ((x : A) → t x ≡ true → p (f x) ≡ false)
      → count_where p (update_where t f xs) ≤ count_where p xs
  count-update_le xs clears = sum_by-update_le (one_if p) (one_if p) t f xs (one_if-touch clears)

  -- Where it also touches the first row that passed, it lowers the count.
  pub count-release :
      (xs : List A) {m : A}
      → ((x : A) → t x ≡ true → p (f x) ≡ false)
      → find_one p xs ≡ some m
      → t m ≡ true
      → count_where p (update_where t f xs) + 1 ≤ count_where p xs
  unfolding find_one update_where sum_by
  count-release [] clears hit touched = absurd (cc)
  count-release (x ∷ xs) {m} clears hit touched = elim (Bool-cases (p x)) [
    | inl e ↦
        let same : some x ≡ some m = ground (arith, hit, e) in
        let t_x : t x ≡ true = ground (arith, same, touched) in
        rw (t_x, clears x t_x, e) (omega (arith, count-update_le xs clears))
    | inr e ↦
        omega
          (arith, one_if-touch clears x, count-release xs clears (ground (arith, hit, e)) touched)
  ]

  -- Where no row passes after the update, the count is 0.
  pub count-cleared :
      (xs : List A) → ((x : A) → p (touch t f x) ≡ false) → count_where p (update_where t f xs) ≡ 0
  unfolding update_where sum_by
  count-cleared [] clears = refl
  count-cleared (x ∷ xs) clears = rw (clears x) (omega (arith, count-cleared xs clears))
