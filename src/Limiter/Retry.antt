-- ===== src/Limiter/Retry.antt =====
-- How many hits a key keeps, and when a refused caller may come again
-- (apps/api/src/lib/sliding-window.ts).
use garba_partner.Prelude.{
  ℕ, ◌+◌, ◌*◌, ◌≤◌, ◌≡◌, refl, true, false, List, [], ◌∷◌, ◌++◌, leb, ◌==◌, ==_refl, filter, length,
  length-filter, length-append, Bool-cases, inl, inr, arith,
}
use garba_partner.Limiter.{
  Hits, with_hits, is_recent, recent, take_hit, wait_of, retry_after_seconds,
}

-- No key has more hits than the limit.
abbrev pub WithinLimit : ℕ → Hits → Type 0
WithinLimit limit hits = (key : ℕ) → length (hits key) ≤ limit

with_hits-WithinLimit :
    (limit key : ℕ) (times : List ℕ) (hits : Hits)
    → length times ≤ limit
    → WithinLimit limit hits
    → WithinLimit limit (with_hits key times hits)
with_hits-WithinLimit limit key times hits le within k = elim (Bool-cases (k == key)) [
  | inl e ↦ rw e le
  | inr e ↦ rw e (within k)
]

-- A hit, taken or refused, leaves no key with more hits in its record than the limit, where none had
-- more before.
pub take_hit-WithinLimit :
    (limit window now pushed key : ℕ) (hits : Hits)
    → WithinLimit limit hits
    → WithinLimit limit (take_hit limit window now pushed key hits).1
unfolding take_hit
take_hit-WithinLimit limit window now pushed key hits within =
    let times = recent window now key hits in
    let fewer = length-filter (is_recent window now) (hits key) in
    elim (Bool-cases (leb limit (length times))) [
      | inl e ↦
          rw e
            (with_hits-WithinLimit limit key times hits (omega (arith, fewer, within key)) within)
      | inr e ↦ rw e (
          with_hits-WithinLimit limit key (times ++ pushed ∷ []) hits
            (ground (arith, e, length-append times (pushed ∷ []))) within)
    ]

waited :
    (limit window now asked later : ℕ) (times : List ℕ)
    → 1 ≤ limit
    → length times ≤ limit
    → asked + 1000 * wait_of window asked times ≤ later
    → leb limit (length (filter (is_recent window later) times)) ≡ false
unfolding wait_of
waited limit window now asked later [] some le wait = ground arith
waited limit window now asked later (oldest ∷ times) some le wait =
    let gone : is_recent window later oldest ≡ false = ground (arith, wait) in
    rw gone (ground (arith, le, length-filter (is_recent window later) times))

-- With a limit of at least 1 and no more hits recorded than it, a caller who waits the seconds that
-- `retryAfterSeconds` reports, or longer, and then takes a hit is not refused.
pub take_hit-retry_after_seconds :
    (limit window now asked later pushed key : ℕ) (hits : Hits)
    → 1 ≤ limit
    → WithinLimit limit hits
    → asked + 1000 * (retry_after_seconds window now asked key hits).0 ≤ later
    → (take_hit limit window later pushed key (retry_after_seconds window now asked key hits).1).0
      ≡ true
unfolding take_hit retry_after_seconds
take_hit-retry_after_seconds limit window now asked later pushed key hits some within wait =
    let times = recent window now key hits in
    let fewer = length-filter (is_recent window now) (hits key) in
    let free =
      waited limit window now asked later times some (omega (arith, fewer, within key)) wait in
    rw (==_refl key, free) refl
