-- ===== src/Connections/Single.antt =====
-- The number of pending interests and of active matches of a pair of members, in the tables of
-- partner-interest and match (apps/api/src/models).
use garba_partner.Prelude.{
  ◌&&◌, ℕ, ◌≤◌, ◌≡◌, ap, Bool, true, false, none, List, [], ◌∷◌, ◌++◌, ◌==◌, if◌then◌else◌,
  Bool-cases, inl, inr, arith,
}
use garba_partner.Table.{
  find_one, update_where, count_where, one_if, sum_by-insert, sum_by-congr, count-find_none,
}
use garba_partner.Table.Counts.{count-update_le}
use garba_partner.Connections.Model.{Interest, InterestStatus, Match, Db, is_pending, is_active}
use garba_partner.Connections.Pairs.{Pair, pending_between, is_active_pair, answered}

abbrev pub OnePending : List Interest → Type 0
OnePending xs = (a b : ℕ) → count_where (pending_between a b) xs ≤ 1

abbrev pub OneActive : List Match → Type 0
OneActive xs = (p : Pair) → count_where (is_active_pair p) xs ≤ 1

pub record OnePerPair (db : Db) : Type 0 where
  pub one_pending : OnePending db.interests
  pub one_active : OneActive db.matches

not_pending : (a b : ℕ) (x : Interest) → is_pending x.status ≡ false → pending_between a b x ≡ false
not_pending a b x h = rw h

pub OnePending-answer :
    (status : InterestStatus) (now : ℕ) (t : Interest → Bool) (xs : List Interest)
    → is_pending status ≡ false
    → OnePending xs
    → OnePending (update_where t (answered status now) xs)
OnePending-answer status now t xs final one a b = omega (
  arith,
  one a b,
  count-update_le (pending_between a b) t (answered status now) xs
      (λ x _. not_pending a b (answered status now x) final),
)

is_active_pair-of_final :
    (p : Pair) (x : Match) → is_active x.status ≡ false → is_active_pair p x ≡ false
is_active_pair-of_final p x h = ground (arith, h)

pub OneActive-end :
    (t : Match → Bool) (f : Match → Match) (xs : List Match)
    → ((x : Match) → is_active (f x).status ≡ false)
    → OneActive xs
    → OneActive (update_where t f xs)
OneActive-end t f xs final one p = omega (
  arith,
  one p,
  count-update_le (is_active_pair p) t f xs (λ x _. is_active_pair-of_final p (f x) (final x)),
)

-- The same members, in either order.
pub data SamePair (a b c d : ℕ) : Type 0 where
  straight : a ≡ c → b ≡ d → SamePair a b c d
  crossed : a ≡ d → b ≡ c → SamePair a b c d

pub pending_between-SamePair :
    (a b c d : ℕ) (x : Interest) → SamePair a b c d → pending_between a b x ≡ pending_between c d x
pending_between-SamePair a b c d x (straight p q) = rw (p, q)
pending_between-SamePair a b c d x (crossed p q) = ground (arith, p, q)

pending_between-members :
    (a b : ℕ) (x : Interest) → pending_between a b x ≡ true → SamePair a b x.sender_id x.receiver_id
pending_between-members a b x h = elim (Bool-cases (x.sender_id == a && x.receiver_id == b)) [
  | inl e ↦ straight (ground (arith, h, e)) (ground (arith, h, e))
  | inr e ↦ crossed (ground (arith, h, e)) (ground (arith, h, e))
]

-- An interest between two members without a pending one.
pub OnePending-insert :
    (x : Interest) (xs : List Interest)
    → find_one (pending_between x.sender_id x.receiver_id) xs ≡ none
    → OnePending xs
    → OnePending (xs ++ x ∷ [])
OnePending-insert x xs none_yet one a b = elim (Bool-cases (pending_between a b x)) [
  | inl e ↦
      let here = pending_between-members a b x e in
      let same =
        sum_by-congr (one_if (pending_between a b))
          (one_if (pending_between x.sender_id x.receiver_id)) xs
          (λ y. ap {B = ℕ} (λ t. if t then 1 else 0) (pending_between-SamePair a b _ _ y here)) in
      omega (
        arith,
        same,
        count-find_none _ xs none_yet,
        sum_by-insert (one_if (pending_between a b)) xs x,
        ap {B = ℕ} (λ t. if t then 1 else 0) e,
      )
  | inr e ↦ omega (
    arith,
    one a b,
    sum_by-insert (one_if (pending_between a b)) xs x,
    ap {B = ℕ} (λ t. if t then 1 else 0) e,
  )
]

-- A match of a pair without an active one.
pub OneActive-insert :
    (p : Pair) (x : Match) (xs : List Match)
    → x.user_a_id ≡ p.user_a_id
    → x.user_b_id ≡ p.user_b_id
    → find_one (is_active_pair p) xs ≡ none
    → OneActive xs
    → OneActive (xs ++ x ∷ [])
OneActive-insert p x xs same_a same_b none_yet one q = elim (Bool-cases (is_active_pair q x)) [
  | inl e ↦
      let same =
        sum_by-congr (one_if (is_active_pair q)) (one_if (is_active_pair p)) xs
          (λ y. ap {B = ℕ} (λ t. if t then 1 else 0) (same_test y e)) in
      omega (
        arith,
        same,
        count-find_none _ xs none_yet,
        sum_by-insert (one_if (is_active_pair q)) xs x,
        ap {B = ℕ} (λ t. if t then 1 else 0) e,
      )
  | inr e ↦ omega (
    arith,
    one q,
    sum_by-insert (one_if (is_active_pair q)) xs x,
    ap {B = ℕ} (λ t. if t then 1 else 0) e,
  )
]
  where
    same_test : (y : Match) → is_active_pair q x ≡ true → is_active_pair q y ≡ is_active_pair p y
    same_test y e =
        let qa : p.user_a_id ≡ q.user_a_id = ground (arith, e, same_a) in
        let qb : p.user_b_id ≡ q.user_b_id = ground (arith, e, same_b) in rw (qa, qb)
