-- ===== src/Pagination/Walk.antt =====
-- The pages one after the other, as a client that follows the cursors gets them
-- (apps/api/src/lib/pagination.ts).
use garba_partner.Pagination.{
  insert_row, cursor_of_last, order_by, is_past, page, KeysetOrder, last?,
}
use mathlib.Core.Option
use garba_partner.Prelude.{
  ◌*◌, ◌+◌, ◌||◌, ℕ, zero, suc, ◌≡◌, ◌≤◌, ◌<◌, refl, sym, ap, ◌∙◌, Bool, true, false, ◌&&◌, Option,
  none, some, List, [], ◌∷◌, ◌++◌, ltb, filter, take, length, all, arith, Bool-cases, inl, inr,
}

-- What is left for the pages after the first.
pages_left : (n limit rows : ℕ) → limit < rows → rows ≤ suc n * limit → 1 ≤ n
pages_left zero limit rows more enough = absurd (omega arith)
pages_left (suc n) limit rows more enough = omega arith

rows_left : (n limit rows rest : ℕ) → rows ≡ limit + rest → rows ≤ suc n * limit → rest ≤ n * limit
rows_left n limit rows rest left enough = grind arith

module _ {A : Type 0} where
  -- A list cut after `limit` rows, where there are more.
  record Cut (limit : ℕ) (ys : List A) : Type 0 where
    front : List A
    last : A
    rest : List A
    whole : ys ≡ front ++ last ∷ rest
    page : take limit ys ≡ front ++ last ∷ []
    last_row : last? (take limit ys) ≡ some last
    left : length ys ≡ limit + length rest

  last?-cons : (x y : A) (ys : List A) → last? (x ∷ y ∷ ys) ≡ last? (y ∷ ys)
  last?-cons x y ys = refl

  cut : (limit : ℕ) (ys : List A) → 1 ≤ limit → limit < length ys → Cut limit ys
  cut zero ys some_rows more = absurd (omega arith)
  cut (suc limit) [] some_rows more = absurd (omega arith)
  cut (suc zero) (y ∷ ys) some_rows more = record {
    front = [];
    last = y;
    rest = ys;
    whole = refl;
    page = refl;
    last_row = refl;
    left = omega arith;
  }
  cut (suc (suc limit)) (y ∷ []) some_rows more = absurd (omega arith)
  cut (suc (suc limit)) (y ∷ z ∷ zs) some_rows more =
      let c = cut (suc limit) (z ∷ zs) (omega arith) (omega arith) in
      record {
        front = y ∷ c.front;
        last = c.last;
        rest = c.rest;
        whole = ap (λ xs. y ∷ xs) c.whole;
        page = ap (λ xs. y ∷ xs) c.page;
        last_row = c.last_row;
        left = let h = c.left in omega (arith, h);
      }

  take-take_more : (limit : ℕ) (ys : List A) → take limit (take (suc limit) ys) ≡ take limit ys
  take-take_more zero ys = refl
  take-take_more (suc limit) [] = refl
  take-take_more (suc limit) (y ∷ ys) = ap (λ xs. y ∷ xs) (take-take_more limit ys)

  append-append : (xs ys zs : List A) → (xs ++ ys) ++ zs ≡ xs ++ (ys ++ zs)
  append-append [] ys zs = refl
  append-append (x ∷ xs) ys zs = ap (λ ws. x ∷ ws) (append-append xs ys zs)

  all-append_right : (p : A → Bool) (xs ys : List A) → all p (xs ++ ys) ≡ true → all p ys ≡ true
  all-append_right p [] ys h = h
  all-append_right p (x ∷ xs) ys h = all-append_right p xs ys (ground (arith, h))

  filter-all : (p : A → Bool) (xs : List A) → all p xs ≡ true → filter p xs ≡ xs
  filter-all p [] h = refl
  filter-all p (x ∷ xs) h =
      let here : p x ≡ true = ground (arith, h) in
      rw here (ap (λ ys. x ∷ ys) (filter-all p xs (ground (arith, h))))

  all-implies :
      (p q : A → Bool) (xs : List A)
      → ((x : A) → p x ≡ true → q x ≡ true)
      → all p xs ≡ true
      → all q xs ≡ true
  all-implies p q [] implies h = refl
  all-implies p q (x ∷ xs) implies h =
      let here : p x ≡ true = ground (arith, h) in
      rw (implies x here) (all-implies p q xs implies (ground (arith, h)))

module _ {A K : Type 0} (order : KeysetOrder K) (key : A → K) where
  -- Every row comes before all that follow it.
  unfoldable pub is_sorted : List A → Bool
  is_sorted [] = true
  is_sorted (x ∷ xs) = all (λ y. order.after (key x) (key y)) xs && is_sorted xs

  -- No two rows have one key, as neither comes after the other.
  unfoldable pub is_distinct : List A → Bool
  is_distinct [] = true
  is_distinct (x ∷ xs) =
      all (λ y. order.after (key x) (key y) || order.after (key y) (key x)) xs && is_distinct xs

  all-insert_row :
      (p : A → Bool) (x : A) (ys : List A) → all p (insert_row order key x ys) ≡ (p x && all p ys)
  unfolding insert_row
  all-insert_row p x [] = refl
  all-insert_row p x (y ∷ ys) = ground (arith, all-insert_row p x ys)

  all-order_by : (p : A → Bool) (xs : List A) → all p (order_by order key xs) ≡ all p xs
  unfolding order_by
  all-order_by p [] = refl
  all-order_by p (x ∷ xs) =
      all-insert_row p x (order_by order key xs) ∙ ap (λ b. p x && b) (all-order_by p xs)

  insert_row-sorted :
      (x : A) (ys : List A)
      → all (λ y. order.after (key x) (key y) || order.after (key y) (key x)) ys ≡ true
      → is_sorted ys ≡ true
      → is_sorted (insert_row order key x ys) ≡ true
  unfolding insert_row is_sorted
  insert_row-sorted x [] apart sorted = refl
  insert_row-sorted x (y ∷ ys) apart sorted = elim (Bool-cases (order.after (key x) (key y))) [
    | inl e ↦
        let rest : all (λ z. order.after (key y) (key z)) ys ≡ true = ground (arith, sorted) in
        let beyond : all (λ z. order.after (key x) (key z)) ys ≡ true =
          all-implies (λ z. order.after (key y) (key z)) (λ z. order.after (key x) (key z)) ys
            (λ z h. order.after_trans (key x) (key y) (key z) e h) rest in
        rw (e, beyond) (ground (arith, sorted, e, beyond))
    | inr e ↦
        let before : order.after (key y) (key x) ≡ true = ground (arith, apart, e) in
        let rest = insert_row-sorted x ys (ground (arith, apart)) (ground (arith, sorted)) in
        rw (e, all-insert_row (λ z. order.after (key y) (key z)) x ys, before, rest)
          (ground (arith, sorted))
  ]

  order_by-sorted : (xs : List A) → is_distinct xs ≡ true → is_sorted (order_by order key xs) ≡ true
  unfolding order_by is_sorted is_distinct
  order_by-sorted [] h = refl
  order_by-sorted (x ∷ xs) h =
      insert_row-sorted x (order_by order key xs)
        (all-order_by (λ y. order.after (key x) (key y) || order.after (key y) (key x)) xs
          ∙ ground (arith, h))
        (order_by-sorted xs (ground (arith, h)))

  sorted-suffix : (xs ys : List A) → is_sorted (xs ++ ys) ≡ true → is_sorted ys ≡ true
  unfolding is_sorted
  sorted-suffix [] ys h = h
  sorted-suffix (x ∷ xs) ys h = sorted-suffix xs ys (ground (arith, h))

  -- The rows after a row of a sorted list are those that follow it.
  filter-past :
      (xs : List A) (x : A) (ys : List A)
      → is_sorted (xs ++ x ∷ ys) ≡ true
      → filter (is_past order key (some (key x))) (xs ++ x ∷ ys) ≡ ys
  unfolding is_sorted
  filter-past [] x ys sorted =
      let beyond : all (λ y. order.after (key x) (key y)) ys ≡ true = ground (arith, sorted) in
      rw (order.after_self (key x)) (filter-all (λ y. order.after (key x) (key y)) ys beyond)
  filter-past (w ∷ xs) x ys sorted =
      let rest : all (λ y. order.after (key w) (key y)) (xs ++ x ∷ ys) ≡ true =
        ground (arith, sorted) in
      let here : all (λ y. order.after (key w) (key y)) (x ∷ ys) ≡ true =
        all-append_right (λ y. order.after (key w) (key y)) xs (x ∷ ys) rest in
      let before : order.after (key w) (key x) ≡ true = ground (arith, here) in
      let back : order.after (key x) (key w) ≡ false = not_back w x before in
      rw back (filter-past xs x ys (ground (arith, sorted)))
    where
      not_back :
          (w x : A) → order.after (key w) (key x) ≡ true → order.after (key x) (key w) ≡ false
      not_back w x h = elim (Bool-cases (order.after (key x) (key w))) [
        | inr e ↦ e
        | inl e ↦
            let loop = order.after_trans (key w) (key x) (key w) h e in
            let self = order.after_self (key w) in absurd (cc)
      ]

  -- A page's rows before those of the pages after it.
  joined : List A → (K → Option (List A)) → Option K → Option (List A)
  joined items rest none = some items
  joined items rest (some c) = Option.map (λ ys. items ++ ys) (rest c)

  -- All that a client gets that asks for `n` pages at most, where the last of them comes without a
  -- cursor; none where the client has not reached a page without one.
  unfoldable pub walk : ℕ → ℕ → Option K → List A → Option (List A)
  unfolding page joined
  walk zero limit cursor table = none
  walk (suc n) limit cursor table =
      let p = page order key limit cursor table in
      joined p.items (λ c. walk n limit (some c) table) p.next_cursor

  -- From a cursor with the rows `ys` still to come, the pages give `ys` and end.
  walk-rest :
      (n limit : ℕ) (cursor : Option K) (table seen ys : List A)
      → 1 ≤ limit
      → is_sorted (order_by order key table) ≡ true
      → order_by order key table ≡ seen ++ ys
      → filter (is_past order key cursor) (order_by order key table) ≡ ys
      → 1 ≤ n
      → length ys ≤ n * limit
      → walk n limit cursor table ≡ some ys
  unfolding walk page cursor_of_last joined
  walk-rest zero limit cursor table seen ys some_rows sorted split here some_pages enough =
      absurd (omega arith)
  walk-rest (suc n) limit cursor table seen ys some_rows sorted split here some_pages enough =
      elim (Bool-cases (ltb limit (length (take (suc limit) ys)))) [
        | inr e ↦
            let all_rows = few limit ys (ground (arith, e)) in
            rw (here, e) (ap some (take-take_more limit ys ∙ all_rows))
        | inl e ↦
            let more = many limit ys (ground (arith, e)) in
            let c = cut limit ys some_rows more in
            let ordered : order_by order key table ≡ (seen ++ c.front) ++ (c.last ∷ c.rest) =
              split
              ∙ ap (λ xs. seen ++ xs) c.whole
              ∙ sym (append-append seen c.front (c.last ∷ c.rest)) in
            let next =
              walk-rest n limit (some (key c.last)) table (seen ++ (c.front ++ (c.last ∷ [])))
                c.rest some_rows sorted
                (ordered
                  ∙ append-append seen c.front (c.last ∷ c.rest)
                  ∙ ap (λ xs. seen ++ xs) (sym (append-append c.front (c.last ∷ []) c.rest))
                  ∙ sym (append-append seen (c.front ++ (c.last ∷ [])) c.rest))
                (ap (filter (is_past order key (some (key c.last)))) ordered
                  ∙ filter-past (seen ++ c.front) c.last c.rest (rw ordered at sorted))
                (pages_left n limit (length ys) more enough)
                (rows_left n limit (length ys) (length c.rest) c.left enough) in
            rw (here, e, take-take_more limit ys, c.last_row, next, c.page)
              (ap some (append-append c.front (c.last ∷ []) c.rest ∙ sym c.whole))
      ]
    where
      few : (limit : ℕ) (ys : List A) → length (take (suc limit) ys) ≤ limit → take limit ys ≡ ys
      few zero [] h = refl
      few zero (y ∷ ys) h = absurd (omega arith)
      few (suc limit) [] h = refl
      few (suc limit) (y ∷ ys) h = ap (λ ws. y ∷ ws) (few limit ys (omega arith))

      many : (limit : ℕ) (ys : List A) → limit < length (take (suc limit) ys) → limit < length ys
      many zero [] h = absurd (omega arith)
      many zero (y ∷ ys) h = omega arith
      many (suc limit) [] h = absurd (omega arith)
      many (suc limit) (y ∷ ys) h = let m = many limit ys (omega arith) in omega (arith, m)

  -- A client that follows the cursors from the first page on reaches a page without a cursor with
  -- the last row, or on the first page where there is no row: `n` pages, at least one, are enough
  -- where they have room for all rows. The pages put together are the ordered table. No two rows have
  -- the same key, and a page has room for a row.
  pub walk-order_by :
      (n limit : ℕ) (table : List A)
      → 1 ≤ limit
      → is_distinct table ≡ true
      → 1 ≤ n
      → length (order_by order key table) ≤ n * limit
      → walk n limit none table ≡ some (order_by order key table)
  walk-order_by n limit table some_rows distinct some_pages enough =
      walk-rest n limit none table [] (order_by order key table) some_rows
        (order_by-sorted table distinct) refl
        (filter-all (λ x. true) (order_by order key table) (all-true (order_by order key table)))
        some_pages enough
    where
      all-true : (xs : List A) → all (λ x. true) xs ≡ true
      all-true [] = refl
      all-true (x ∷ xs) = all-true xs
