-- ===== src/Discovery/Tests.antt =====
-- Concrete candidates.
use garba_partner.Prelude.{◌≡◌, refl, true, false}
use garba_partner.Table.{sum_by}
use garba_partner.Discovery.Matching.{
  MatchSignal, MatchSignals, match_score, match_highlights, Seeker, woman, non_binary, women,
  everyone,
}
use garba_partner.Discovery.Matching.Score.{
  highlight_weight, match_score-match_highlights, Ranked, match_highlights-Ranked,
}
use garba_partner.Discovery.Matching.Mutual.{Agreed, gender_preferences_match-Agreed}

-- the same event and city
abbrev neighbour : MatchSignals
neighbour MatchSignal.same_event = true
neighbour MatchSignal.same_city = true
neighbour _ = false

-- and verified
abbrev verified_neighbour : MatchSignals
verified_neighbour MatchSignal.verified = true
verified_neighbour s = neighbour s

neighbour_scores : match_score neighbour ≡ 50
unfolding match_score
neighbour_scores = refl

match_score-match_highlights_example :
    match_score neighbour ≡ sum_by highlight_weight (match_highlights neighbour)
match_score-match_highlights_example = match_score-match_highlights neighbour

match_highlights-Ranked_example : Ranked verified_neighbour
match_highlights-Ranked_example = match_highlights-Ranked verified_neighbour

abbrev first_seeker : Seeker
first_seeker = record { gender = woman; preference = everyone }

abbrev second_seeker : Seeker
second_seeker = record { gender = non_binary; preference = women }

gender_preferences_match-Agreed_example : Agreed first_seeker second_seeker
gender_preferences_match-Agreed_example = gender_preferences_match-Agreed first_seeker second_seeker
