-- ===== src/Discovery/Matching.antt =====
-- The ranking of candidates and the rule of mutual gender preference
-- (apps/api/src/modules/discovery/matching.ts), without the SQL text of the score and the dates.
pub mod Score
pub mod Mutual
use garba_partner.Prelude.{
  ℕ, ◌+◌, Bool, true, false, ◌&&◌, List, [], ◌∷◌, map, filter, any, if◌then◌else◌,
}

pub data MatchSignal : Type 0 where
  same_event shared_dates same_city similar_age same_level verified : MatchSignal

pub data MatchHighlight : Type 0 where
  same_event shared_dates same_city similar_age same_level verified : MatchHighlight

abbrev pub MatchSignals : Type 0
MatchSignals = MatchSignal → Bool

unfoldable pub match_weights : MatchSignal → ℕ
match_weights MatchSignal.same_event = 30
match_weights MatchSignal.shared_dates = 25
match_weights MatchSignal.same_city = 20
match_weights MatchSignal.similar_age = 10
match_weights MatchSignal.same_level = 10
match_weights MatchSignal.verified = 5

-- one row of `SIGNALS`, without the name of the SQL column
pub record SignalRow : Type 0 where
  pub signal : MatchSignal
  pub highlight : MatchHighlight

unfoldable pub signals : List SignalRow
signals =
    record { signal = MatchSignal.same_event; highlight = MatchHighlight.same_event }
    ∷ record { signal = MatchSignal.shared_dates; highlight = MatchHighlight.shared_dates }
    ∷ record { signal = MatchSignal.same_city; highlight = MatchHighlight.same_city }
    ∷ record { signal = MatchSignal.similar_age; highlight = MatchHighlight.similar_age }
    ∷ record { signal = MatchSignal.same_level; highlight = MatchHighlight.same_level }
    ∷ record { signal = MatchSignal.verified; highlight = MatchHighlight.verified }
    ∷ []

-- `SIGNALS.reduce(...)`
add_scores : MatchSignals → ℕ → List SignalRow → ℕ
unfolding match_weights
add_scores has total [] = total
add_scores has total (row ∷ rows) =
    add_scores has (total + (if has row.signal then match_weights row.signal else 0)) rows

unfoldable pub match_score : MatchSignals → ℕ
unfolding add_scores signals
match_score has = add_scores has 0 signals

unfoldable pub match_highlights : MatchSignals → List MatchHighlight
unfolding signals
match_highlights has = map (λ row. row.highlight) (filter (λ row. has row.signal) signals)

pub data Gender : Type 0 where
  woman man non_binary : Gender

pub data PartnerGenderPreference : Type 0 where
  women men everyone : PartnerGenderPreference

abbrev pub same_gender : Gender → Gender → Bool
same_gender woman woman = true
same_gender man man = true
same_gender non_binary non_binary = true
same_gender _ _ = false

unfoldable pub partner_gender_preferences : List PartnerGenderPreference
partner_gender_preferences = women ∷ men ∷ everyone ∷ []

unfoldable pub genders_accepted_by : PartnerGenderPreference → List Gender
genders_accepted_by women = woman ∷ []
genders_accepted_by men = man ∷ []
genders_accepted_by everyone = woman ∷ man ∷ non_binary ∷ []

abbrev pub accepts : PartnerGenderPreference → Gender → Bool
unfolding genders_accepted_by
accepts preference gender = any (same_gender gender) (genders_accepted_by preference)

unfoldable pub preferences_accepting : Gender → List PartnerGenderPreference
unfolding accepts partner_gender_preferences
preferences_accepting gender = filter (λ p. accepts p gender) partner_gender_preferences

pub record Seeker : Type 0 where
  pub gender : Gender
  pub preference : PartnerGenderPreference

unfoldable pub gender_preferences_match : Seeker → Seeker → Bool
unfolding accepts
gender_preferences_match a b = accepts a.preference b.gender && accepts b.preference a.gender
