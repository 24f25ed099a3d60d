-- ===== src/Pagination.antt =====
-- Keyset pagination (apps/api/src/lib/pagination.ts): an order of the rows, the rows after a cursor,
-- and a page of them with the cursor of the next.
mod Tests
pub mod Cursors
pub mod Orders
pub mod Walk
use garba_partner.Prelude.{
  ℕ, zero, suc, ◌≡◌, Bool, true, false, Option, none, some, List, [], ◌∷◌, ◌++◌, ◌+◌, ltb,
  if◌then◌else◌, filter, take, length,
}

-- A strict order of the keys that is total: `after c k` says that `k` comes after `c`.
pub record KeysetOrder (K : Type 0) : Type 0 where
  pub after : K → K → Bool
  pub after_self : (k : K) → after k k ≡ false
  pub after_trans : (a b c : K) → after a b ≡ true → after b c ≡ true → after a c ≡ true
  pub after_total : (a b : K) → after a b ≡ false → after b a ≡ false → a ≡ b

-- `rows.at(-1)`
abbrev pub last? : {A : Type 0} → List A → Option A
last? [] = none
last? (x ∷ []) = some x
last? (x ∷ y ∷ ys) = last? (y ∷ ys)

module _ {A K : Type 0} (order : KeysetOrder K) (key : A → K) where
  insert_row : A → List A → List A
  insert_row x [] = x ∷ []
  insert_row x (y ∷ ys) = if order.after (key x) (key y) then x ∷ y ∷ ys else y ∷ insert_row x ys

  -- `ORDER BY`
  unfoldable pub order_by : List A → List A
  unfolding insert_row
  order_by [] = []
  order_by (x ∷ xs) = insert_row x (order_by xs)

  -- The condition on the rows after a cursor; without one there is none. Chat, notifications and the
  -- queue of reports write it out, other lists by `keysetCondition`.
  abbrev pub is_past : Option K → A → Bool
  is_past none x = true
  is_past (some c) x = order.after c (key x)

  pub record Page : Type 0 where
    pub items : List A
    pub next_cursor : Option K

  cursor_of_last : Option A → Option K
  cursor_of_last none = none
  cursor_of_last (some x) = some (key x)

  -- One row more than the limit is asked for, to know whether there is a next page.
  unfoldable pub page : ℕ → Option K → List A → Page
  unfolding order_by cursor_of_last
  page limit cursor table =
      let rows = take (suc limit) (filter (is_past cursor) (order_by table)) in
      let items = take limit rows in
      record {
        items = items;
        next_cursor = if ltb limit (length rows) then cursor_of_last (last? items) else none;
      }
