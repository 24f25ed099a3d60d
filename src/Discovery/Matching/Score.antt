-- ===== src/Discovery/Matching/Score.antt =====
-- The score of a candidate and the highlights shown
-- (apps/api/src/modules/discovery/matching.ts).
use garba_partner.Prelude.{ℕ, ◌≡◌, Bool, true, false, ◌&&◌, List, [], ◌∷◌, map, any, leb, arith}
use garba_partner.Table.{sum_by}
use garba_partner.Discovery.Matching.{
  MatchSignal, MatchHighlight, MatchSignals, match_weights, match_score, match_highlights,
}

-- The weight of the signal that a highlight stands for.
unfoldable pub highlight_weight : MatchHighlight → ℕ
highlight_weight MatchHighlight.same_event = 30
highlight_weight MatchHighlight.shared_dates = 25
highlight_weight MatchHighlight.same_city = 20
highlight_weight MatchHighlight.similar_age = 10
highlight_weight MatchHighlight.same_level = 10
highlight_weight MatchHighlight.verified = 5

-- The score of a candidate is the sum of the weights of the highlights shown for it.
pub match_score-match_highlights :
    (has : MatchSignals) → match_score has ≡ sum_by highlight_weight (match_highlights has)
unfolding match_score match_highlights highlight_weight sum_by match_weights
match_score-match_highlights has = ground arith

abbrev pub signal_of : MatchHighlight → MatchSignal
signal_of MatchHighlight.same_event = MatchSignal.same_event
signal_of MatchHighlight.shared_dates = MatchSignal.shared_dates
signal_of MatchHighlight.same_city = MatchSignal.same_city
signal_of MatchHighlight.similar_age = MatchSignal.similar_age
signal_of MatchHighlight.same_level = MatchSignal.same_level
signal_of MatchHighlight.verified = MatchSignal.verified

-- Each weight is at least the next.
abbrev pub is_descending : List ℕ → Bool
is_descending [] = true
is_descending (x ∷ []) = true
is_descending (x ∷ y ∷ ys) = leb y x && is_descending (y ∷ ys)

abbrev pub same_highlight : MatchHighlight → MatchHighlight → Bool
same_highlight MatchHighlight.same_event MatchHighlight.same_event = true
same_highlight MatchHighlight.shared_dates MatchHighlight.shared_dates = true
same_highlight MatchHighlight.same_city MatchHighlight.same_city = true
same_highlight MatchHighlight.similar_age MatchHighlight.similar_age = true
same_highlight MatchHighlight.same_level MatchHighlight.same_level = true
same_highlight MatchHighlight.verified MatchHighlight.verified = true
same_highlight _ _ = false

shown :
    (has : MatchSignals) (h : MatchHighlight)
    → any (same_highlight h) (match_highlights has) ≡ has (signal_of h)
unfolding match_highlights
shown has MatchHighlight.same_event = ground arith
shown has MatchHighlight.shared_dates = ground arith
shown has MatchHighlight.same_city = ground arith
shown has MatchHighlight.similar_age = ground arith
shown has MatchHighlight.same_level = ground arith
shown has MatchHighlight.verified = ground arith

-- What the weights of `matchScore` say of the highlights.
pub record Ranked (has : MatchSignals) : Type 0 where
  pub strongest_first :
      is_descending (map (λ h. match_weights (signal_of h)) (match_highlights has)) ≡ true
  pub shown_where_had :
      (h : MatchHighlight) → any (same_highlight h) (match_highlights has) ≡ has (signal_of h)

-- For any signals of a candidate: the highlights are shown with the strongest first, by the weights
-- that the score adds, and each is shown exactly where the candidate has its signal.
pub match_highlights-Ranked : (has : MatchSignals) → Ranked has
unfolding match_highlights match_weights
match_highlights-Ranked has = record { strongest_first = ground arith; shown_where_had = shown has }
