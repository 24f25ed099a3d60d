-- ===== src/Limiter.antt =====
-- The in-memory sliding-window rate limiter (apps/api/src/lib/sliding-window.ts). The map from keys
-- to their hits is a function, a missing key being the empty list; each read of the clock is an
-- argument.
pub mod Retry
mod Tests
use garba_partner.Prelude.{
  ℕ, ◌+◌, ◌-◌, ◌*◌, ◌/◌, max, Bool, true, false, List, [], ◌∷◌, ◌++◌, ltb, leb, ◌==◌, if◌then◌else◌,
  filter, length,
}

abbrev pub Hits : Type 0
Hits = ℕ → List ℕ

abbrev pub with_hits : ℕ → List ℕ → Hits → Hits
with_hits key times hits k = if k == key then times else hits k

-- `time > now - windowMs`
abbrev pub is_recent : ℕ → ℕ → ℕ → Bool
is_recent window now time = ltb now (time + window)

-- What `recent` returns; it also stores it.
abbrev pub recent : ℕ → ℕ → ℕ → Hits → List ℕ
recent window now key hits = filter (is_recent window now) (hits key)

-- The clock is read at `now` for the window and at `pushed` for the hit.
unfoldable pub take_hit : ℕ → ℕ → ℕ → ℕ → ℕ → Hits → Bool × Hits
take_hit limit window now pushed key hits =
    let times = recent window now key hits in
    if leb limit (length times)
    then (false, with_hits key times hits)
    else (true, with_hits key (times ++ pushed ∷ []) hits)

-- `Math.max(1, Math.ceil((oldest + windowMs - now) / 1000))`; a negative difference gives 1 as 0 does
wait_of : ℕ → ℕ → List ℕ → ℕ
wait_of window asked [] = 0
wait_of window asked (oldest ∷ times) = max 1 ((oldest + window - asked + 999) / 1000)

unfoldable pub retry_after_seconds : ℕ → ℕ → ℕ → ℕ → Hits → ℕ × Hits
unfolding wait_of
retry_after_seconds window now asked key hits =
    let times = recent window now key hits in (wait_of window asked times, with_hits key times hits)
