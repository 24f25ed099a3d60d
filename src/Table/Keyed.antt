-- ===== src/Table/Keyed.antt =====
-- A table with a primary key: what any query finds is what the query by its key finds, and the
-- keys from `next` on are free.
use garba_partner.Prelude.{
  ℕ, ◌+◌, ◌≤◌, ◌≡◌, refl, sym, ap, ◌∙◌, Bool, Option, none, some, List, [], ◌∷◌, ◌++◌, arith, inl,
  inr, ◌==◌, ==_refl, Bool-cases,
}
use mathlib.Core.Option
use garba_partner.Table.{
  find_one, touch, update_where, find_one-of_update, find_one-update, find_one-append,
  find_one-append_of_none, find_one-append_of_some,
}

abbrev pub has_key {ℓ} : {A : Type ℓ} → (A → ℕ) → ℕ → A → Bool
has_key key n x = key x == n

pub record IsKeyed {ℓ} {A : Type ℓ} (key : A → ℕ) (next : ℕ) (xs : List A) : Type ℓ where
  pub by_key :
      (p : A → Bool) (x : A) → find_one p xs ≡ some x → find_one (has_key key (key x)) xs ≡ some x
  pub free : (n : ℕ) → next ≤ n → find_one (has_key key n) xs ≡ none

module _ {ℓ} {A : Type ℓ} (key : A → ℕ) where
  key-touch :
      (t : A → Bool) (f : A → A)
      → ((x : A) → key (f x) ≡ key x)
      → (n : ℕ) (x : A) → has_key key n (touch t f x) ≡ has_key key n x
  key-touch t f keeps n x = elim (Bool-cases (t x)) [ inl e ↦ rw (e, keeps x) | inr e ↦ rw e ]

  key-touch_eq :
      (t : A → Bool) (f : A → A)
      → ((x : A) → key (f x) ≡ key x)
      → (x : A) → key (touch t f x) ≡ key x
  key-touch_eq t f keeps x = elim (Bool-cases (t x)) [ inl e ↦ rw (e, keeps x) | inr e ↦ rw e ]

  pub IsKeyed-update :
      (next : ℕ) (t : A → Bool) (f : A → A) (xs : List A)
      → ((x : A) → key (f x) ≡ key x)
      → IsKeyed key next xs
      → IsKeyed key next (update_where t f xs)
  IsKeyed-update next t f xs keeps k = record {
    by_key = λ p x found.
        updated p x (find_one (λ y. p (touch t f y)) xs) refl (rw find_one-of_update at found);
    free = λ n h.
        rw (find_one-update (has_key key n) t f xs (key-touch t f keeps n)) (rw (k.free n h));
  }
    where
      updated :
          (p : A → Bool) (x : A) (before : Option A)
          → find_one (λ y. p (touch t f y)) xs ≡ before
          → Option.map (touch t f) before ≡ some x
          → find_one (has_key key (key x)) (update_where t f xs) ≡ some x
      updated p x none e h = absurd (cc)
      updated p x (some y) e h =
          let y_found = k.by_key _ y e in
          let same : touch t f y ≡ x = cc in
          rw (find_one-update (has_key key (key x)) t f xs (key-touch t f keeps (key x)))
            (rw (ap key (sym same) ∙ key-touch_eq t f keeps y) (rw y_found (ap some same)))

  pub IsKeyed-later :
      (next next' : ℕ) (xs : List A) → next ≤ next' → IsKeyed key next xs → IsKeyed key next' xs
  IsKeyed-later next next' xs h k = record {
    by_key = k.by_key;
    free = λ n m. k.free n (omega arith);
  }

  pub IsKeyed-insert :
      (next : ℕ) (xs : List A) (x : A)
      → key x ≡ next
      → IsKeyed key next xs
      → IsKeyed key (next + 1) (xs ++ x ∷ [])
  IsKeyed-insert next xs x is_next k = record {
    by_key = λ p y found. inserted p y (find_one p xs) refl found;
    free =
        λ n h. find_one-append_of_none (has_key key n) xs x (k.free n (omega arith)) (ground arith);
  }
    where
      inserted :
          (p : A → Bool) (y : A) (before : Option A)
          → find_one p xs ≡ before
          → find_one p (xs ++ x ∷ []) ≡ some y
          → find_one (has_key key (key y)) (xs ++ x ∷ []) ≡ some y
      inserted p y (some z) e found =
          let same = find_one-append_of_some p xs (x ∷ []) e in
          let eq : z ≡ y = cc in
          rw (← eq) (find_one-append_of_some (has_key key (key z)) xs (x ∷ []) (k.by_key p z e))
      inserted p y none e found = elim (Bool-cases (p x)) [
        | inl hit ↦
            let same = find_one-append p xs x e hit in
            let eq : x ≡ y = cc in
            rw (← eq) (
              find_one-append (has_key key (key x)) xs x (k.free (key x) (omega arith))
                (==_refl (key x)))
        | inr miss ↦ let nothing = find_one-append_of_none p xs x e miss in absurd (cc)
      ]
