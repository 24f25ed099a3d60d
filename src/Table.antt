-- ===== src/Table.antt =====
-- A database table as the list of its rows, in the order of insertion, and the queries that the
-- services make of it through the models: `findOne`, `update ... where`, `count` and `SUM`. An
-- `insert` appends: `xs ++ x ∷ []`.
pub mod Keyed
pub mod Counts
pub mod Cover
use garba_partner.Prelude.{
  leb, ℕ, ◌+◌, ◌≤◌, ◌≡◌, refl, Bool, true, false, Option, none, some, List, [], ◌∷◌, ◌++◌, arith,
  if◌then◌else◌, Bool-cases, inl, inr,
}
use mathlib.Core.Option

module _ {ℓ} {A : Type ℓ} where
  -- the first row that passes the test
  unfoldable pub find_one : (A → Bool) → List A → Option A
  find_one p [] = none
  find_one p (x ∷ xs) = if p x then some x else find_one p xs

  -- one row as `update ... set f where t` leaves it
  abbrev pub touch : (A → Bool) → (A → A) → A → A
  touch t f x = if t x then f x else x

  unfoldable pub update_where : (A → Bool) → (A → A) → List A → List A
  update_where t f [] = []
  update_where t f (x ∷ xs) = touch t f x ∷ update_where t f xs

  unfoldable pub sum_by : (A → ℕ) → List A → ℕ
  sum_by w [] = 0
  sum_by w (x ∷ xs) = w x + sum_by w xs

  abbrev pub one_if : (A → Bool) → A → ℕ
  one_if p x = if p x then 1 else 0

  abbrev pub count_where : (A → Bool) → List A → ℕ
  count_where p = sum_by (one_if p)

  pub find_one-holds : (p : A → Bool) (xs : List A) {x : A} → find_one p xs ≡ some x → p x ≡ true
  unfolding find_one
  find_one-holds p [] h = absurd (cc)
  find_one-holds p (y ∷ ys) h = elim (Bool-cases (p y)) [
    | inl e ↦ ground (arith, e)
    | inr e ↦ find_one-holds p ys (ground (arith, e))
  ]

  -- A query sees an update through the test, where the update keeps what is tested.
  pub find_one-update :
      (p t : A → Bool) (f : A → A) (xs : List A)
      → ((x : A) → p (touch t f x) ≡ p x)
      → find_one p (update_where t f xs) ≡ Option.map (touch t f) (find_one p xs)
  unfolding find_one update_where
  find_one-update p t f [] keeps = refl
  find_one-update p t f (x ∷ xs) keeps =
      rw (keeps x)
        (elim (Bool-cases (p x)) [ inl e ↦ rw e | inr e ↦ rw e (find_one-update p t f xs keeps) ])

  -- The row that a query finds after an update, from a query before it.
  pub find_one-of_update :
      (p t : A → Bool) (f : A → A) (xs : List A)
      → find_one p (update_where t f xs)
        ≡ Option.map (touch t f) (find_one (λ x. p (touch t f x)) xs)
  unfolding find_one update_where
  find_one-of_update p t f [] = refl
  find_one-of_update p t f (x ∷ xs) = elim (Bool-cases (p (touch t f x))) [
    | inl e ↦ rw e
    | inr e ↦ rw e (find_one-of_update p t f xs)
  ]

  pub find_one-append :
      (p : A → Bool) (xs : List A) (x : A)
      → find_one p xs ≡ none
      → p x ≡ true
      → find_one p (xs ++ x ∷ []) ≡ some x
  unfolding find_one
  find_one-append p [] x miss hit = rw hit
  find_one-append p (y ∷ ys) x miss hit = elim (Bool-cases (p y)) [
    | inl e ↦ ground (arith, e)
    | inr e ↦ rw e (find_one-append p ys x (ground (arith, e)) hit)
  ]

  pub find_one-append_of_none :
      (p : A → Bool) (xs : List A) (x : A)
      → find_one p xs ≡ none
      → p x ≡ false
      → find_one p (xs ++ x ∷ []) ≡ none
  unfolding find_one
  find_one-append_of_none p [] x miss hit = rw hit
  find_one-append_of_none p (y ∷ ys) x miss hit = elim (Bool-cases (p y)) [
    | inl e ↦ ground (arith, e)
    | inr e ↦ rw e (find_one-append_of_none p ys x (ground (arith, e)) hit)
  ]

  pub find_one-append_of_some :
      (p : A → Bool) (xs ys : List A) {x : A}
      → find_one p xs ≡ some x
      → find_one p (xs ++ ys) ≡ some x
  unfolding find_one
  find_one-append_of_some p [] ys h = absurd (cc)
  find_one-append_of_some p (y ∷ xs) ys h = elim (Bool-cases (p y)) [
    | inl e ↦ ground (arith, e)
    | inr e ↦ rw e (find_one-append_of_some p xs ys (ground (arith, e)))
  ]

  pub sum_by-append : (w : A → ℕ) (xs ys : List A) → sum_by w (xs ++ ys) ≡ sum_by w xs + sum_by w ys
  unfolding sum_by
  sum_by-append w [] ys = omega arith
  sum_by-append w (x ∷ xs) ys = omega (arith, sum_by-append w xs ys)

  pub sum_by-insert :
      (w : A → ℕ) (xs : List A) (x : A) → sum_by w (xs ++ x ∷ []) ≡ sum_by w xs + w x
  unfolding sum_by
  sum_by-insert w xs x = omega (arith, sum_by-append w xs (x ∷ []))

  -- An update that raises no row's weight, measured before by `v` and after by `w`.
  pub sum_by-update_le :
      (w v : A → ℕ) (t : A → Bool) (f : A → A) (xs : List A)
      → ((x : A) → w (touch t f x) ≤ v x)
      → sum_by w (update_where t f xs) ≤ sum_by v xs
  unfolding sum_by update_where
  sum_by-update_le w v t f [] le = omega arith
  sum_by-update_le w v t f (x ∷ xs) le = omega (arith, le x, sum_by-update_le w v t f xs le)

  -- Where the update brings what it touches to 0, the total falls by the weight of a row found.
  pub sum_by-release :
      (w : A → ℕ) (t : A → Bool) (f : A → A) (xs : List A) (x : A)
      → ((y : A) → t y ≡ true → w (f y) ≡ 0)
      → find_one t xs ≡ some x
      → sum_by w (update_where t f xs) + w x ≤ sum_by w xs
  unfolding sum_by update_where find_one
  sum_by-release w t f [] x zeroes h = absurd (cc)
  sum_by-release w t f (y ∷ ys) x zeroes h = elim (Bool-cases (t y)) [
    | inl e ↦ ground (arith, e, zeroes y e, sum_by-update_le w w t f ys (λ z. released z))
    | inr e ↦ ground (arith, e, sum_by-release w t f ys x zeroes (ground (arith, e)))
  ]
    where
      released : (z : A) → w (touch t f z) ≤ w z
      released z = ground (arith, zeroes z)

  pub sum_by-find_le :
      (w : A → ℕ) (p : A → Bool) (xs : List A) (x : A) → find_one p xs ≡ some x → w x ≤ sum_by w xs
  unfolding sum_by find_one
  sum_by-find_le w p [] x h = absurd (cc)
  sum_by-find_le w p (y ∷ ys) x h = elim (Bool-cases (p y)) [
    | inl e ↦ ground (arith, e)
    | inr e ↦ omega (arith, sum_by-find_le w p ys x (ground (arith, e)))
  ]

  -- `findOne` finds nothing exactly where the count is 0.
  pub count-find_none : (p : A → Bool) (xs : List A) → find_one p xs ≡ none → count_where p xs ≡ 0
  unfolding sum_by find_one
  count-find_none p [] h = refl
  count-find_none p (y ∷ ys) h = elim (Bool-cases (p y)) [
    | inl e ↦ ground (arith, e)
    | inr e ↦ ground (arith, e, count-find_none p ys (ground (arith, e)))
  ]

  pub sum_by-congr : (w v : A → ℕ) (xs : List A) → ((x : A) → w x ≡ v x) → sum_by w xs ≡ sum_by v xs
  unfolding sum_by
  sum_by-congr w v [] h = refl
  sum_by-congr w v (x ∷ xs) h = omega (arith, h x, sum_by-congr w v xs h)

  pub sum_by-le : (w v : A → ℕ) (xs : List A) → ((x : A) → w x ≤ v x) → sum_by w xs ≤ sum_by v xs
  unfolding sum_by
  sum_by-le w v [] h = omega arith
  sum_by-le w v (x ∷ xs) h = omega (arith, h x, sum_by-le w v xs h)

  insert_by : (A → ℕ) → A → List A → List A
  insert_by key x [] = x ∷ []
  insert_by key x (y ∷ ys) = if leb (key x) (key y) then x ∷ y ∷ ys else y ∷ insert_by key x ys

  -- `order: [[key, 'ASC']]`
  unfoldable pub sort_by : (A → ℕ) → List A → List A
  unfolding insert_by
  sort_by key [] = []
  sort_by key (x ∷ xs) = insert_by key x (sort_by key xs)
