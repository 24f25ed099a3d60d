-- ===== src/Table/Cover.antt =====
-- Updates of all the rows that a query returned, named by their keys.
use garba_partner.Prelude.{
  ℕ, ◌≤◌, ◌≡◌, refl, ap, ◌∙◌, Bool, true, false, not, ◌||◌, List, [], ◌∷◌, suc, zero, arith, ◌==◌,
  ==_refl, any, all, filter, take, length, Bool-cases, inl, inr,
}
use garba_partner.Table.{update_where, sum_by, count_where, insert_by, sort_by}

module _ {A : Type 0} where
  -- Every row that passes `p` is touched.
  abbrev pub is_covered : (A → Bool) → (A → Bool) → A → Bool
  is_covered p t x = not (p x) || t x

  pub count-covered :
      (p t : A → Bool) (f : A → A) (xs : List A)
      → all (is_covered p t) xs ≡ true
      → ((x : A) → p (f x) ≡ false)
      → count_where p (update_where t f xs) ≡ 0
  unfolding sum_by update_where
  count-covered p t f [] covered clears = refl
  count-covered p t f (x ∷ xs) covered clears =
      ground (arith, clears x, covered, count-covered p t f xs)

  -- The rows of a list by their keys.
  abbrev pub has_key_in : (A → ℕ) → List A → A → Bool
  has_key_in key ys x = any (λ y. key y == key x) ys

  -- What the query keeps of each row is found again in `ys`.
  abbrev pub Includes : List A → List A → Type 0
  Includes ys zs = (q : A → Bool) → any q zs ≡ true → any q ys ≡ true

  pub filter-covered :
      (key : A → ℕ) (p : A → Bool) (xs ys : List A)
      → Includes ys (filter p xs)
      → all (is_covered p (has_key_in key ys)) xs ≡ true
  filter-covered key p [] ys includes = refl
  filter-covered key p (x ∷ xs) ys includes = elim (Bool-cases (p x)) [
    | inl e ↦
        let inside : Includes ys (x ∷ filter p xs) = rw e at includes in
        let here : has_key_in key ys x ≡ true =
          inside (λ y. key y == key x) (rw (==_refl (key x)) refl) in
        rw (e, here) (filter-covered key p xs ys (λ q h. inside q (ground (arith, h))))
    | inr e ↦ rw e (filter-covered key p xs ys (rw e at includes))
  ]

  any-insert_by :
      (key : A → ℕ) (q : A → Bool) (x : A) (ys : List A)
      → any q (insert_by key x ys) ≡ (q x || any q ys)
  unfolding insert_by
  any-insert_by key q x [] = refl
  any-insert_by key q x (y ∷ ys) = ground (arith, any-insert_by key q x ys)

  pub any-sort_by : (key : A → ℕ) (q : A → Bool) (xs : List A) → any q (sort_by key xs) ≡ any q xs
  unfolding sort_by
  any-sort_by key q [] = refl
  any-sort_by key q (x ∷ xs) =
      any-insert_by key q x (sort_by key xs) ∙ ap (λ b. q x || b) (any-sort_by key q xs)

  length-insert_by :
      (key : A → ℕ) (x : A) (ys : List A) → length (insert_by key x ys) ≡ suc (length ys)
  unfolding insert_by
  length-insert_by key x [] = refl
  length-insert_by key x (y ∷ ys) = ground (arith, length-insert_by key x ys)

  pub length-sort_by : (key : A → ℕ) (xs : List A) → length (sort_by key xs) ≡ length xs
  unfolding sort_by
  length-sort_by key [] = refl
  length-sort_by key (x ∷ xs) =
      omega (arith, length-insert_by key x (sort_by key xs), length-sort_by key xs)

  pub take_all : (n : ℕ) (xs : List A) → length xs ≤ n → take n xs ≡ xs
  take_all zero [] h = refl
  take_all zero (x ∷ xs) h = absurd (omega arith)
  take_all (suc n) [] h = refl
  take_all (suc n) (x ∷ xs) h = ap (λ ys. x ∷ ys) (take_all n xs (omega arith))

  -- Two updates by one change are one.
  pub update-update :
      (t s : A → Bool) (f : A → A) (xs : List A)
      → ((x : A) → s (f x) ≡ s x)
      → ((x : A) → f (f x) ≡ f x)
      → update_where s f (update_where t f xs) ≡ update_where (λ x. t x || s x) f xs
  unfolding update_where
  update-update t s f [] keeps again = refl
  update-update t s f (x ∷ xs) keeps again = elim (Bool-cases (t x)) [
    | inl e ↦ elim (Bool-cases (s x)) [
      | inl k ↦ rw (e, keeps x, k, again x, update-update t s f xs keeps again) refl
      | inr k ↦ rw (e, keeps x, k, update-update t s f xs keeps again) refl
    ]
    | inr e ↦ rw (e, update-update t s f xs keeps again) refl
  ]

  pub update-nothing : (f : A → A) (xs : List A) → update_where (λ x. false) f xs ≡ xs
  unfolding update_where
  update-nothing f [] = refl
  update-nothing f (x ∷ xs) = ap (λ ys. x ∷ ys) (update-nothing f xs)
