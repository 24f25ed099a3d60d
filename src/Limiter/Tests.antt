-- ===== src/Limiter/Tests.antt =====
-- A key with two hits in a window of ten seconds that allows two.
use garba_partner.Prelude.{
  ◌≡◌, refl, true, false, [], ◌∷◌, ◌==◌, Bool-cases, inl, inr, if◌then◌else◌, arith,
}
use garba_partner.Limiter.{Hits, take_hit, retry_after_seconds}
use garba_partner.Limiter.Retry.{WithinLimit, take_hit-WithinLimit, take_hit-retry_after_seconds}

abbrev two_hits : Hits
two_hits k = if k == 7 then 1000 ∷ 4000 ∷ [] else []

two_hits-WithinLimit : WithinLimit 2 two_hits
two_hits-WithinLimit k = elim (Bool-cases (k == 7)) [
  | inl e ↦ rw e (omega arith)
  | inr e ↦ rw e (omega arith)
]

refused : (take_hit 2 10000 5000 5000 7 two_hits).0 ≡ false
unfolding take_hit
refused = refl

six_seconds : (retry_after_seconds 10000 5000 5000 7 two_hits).0 ≡ 6
unfolding retry_after_seconds
six_seconds = refl

take_hit-WithinLimit_example : WithinLimit 2 (take_hit 2 10000 12000 12000 7 two_hits).1
take_hit-WithinLimit_example =
    take_hit-WithinLimit 2 10000 12000 12000 7 two_hits two_hits-WithinLimit

take_hit-retry_after_seconds_example :
    (take_hit 2 10000 11000 11000 7 (retry_after_seconds 10000 5000 5000 7 two_hits).1).0 ≡ true
unfolding retry_after_seconds
take_hit-retry_after_seconds_example =
    take_hit-retry_after_seconds 2 10000 5000 5000 11000 11000 7 two_hits (omega arith)
      two_hits-WithinLimit (omega arith)
