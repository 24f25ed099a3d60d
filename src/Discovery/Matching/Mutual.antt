-- ===== src/Discovery/Matching/Mutual.antt =====
-- The rule of mutual gender preference and the preferences that accept a gender
-- (apps/api/src/modules/discovery/matching.ts).
use garba_partner.Prelude.{◌≡◌, refl, Bool, true, false, ◌&&◌, any}
use garba_partner.Discovery.Matching.{
  Gender, woman, man, non_binary, PartnerGenderPreference, women, men, everyone, accepts,
  preferences_accepting, Seeker, gender_preferences_match, same_gender,
}

abbrev pub same_preference : PartnerGenderPreference → PartnerGenderPreference → Bool
same_preference women women = true
same_preference men men = true
same_preference everyone everyone = true
same_preference _ _ = false

-- Who is welcome: women to those who look for women, men to those who look for men, and all, those
-- of neither included, to those who look for everyone.
abbrev pub is_welcome : Gender → PartnerGenderPreference → Bool
is_welcome g everyone = true
is_welcome g women = same_gender g woman
is_welcome g men = same_gender g man

accepts-is_welcome : (p : PartnerGenderPreference) (g : Gender) → accepts p g ≡ is_welcome g p
unfolding accepts
accepts-is_welcome women woman = refl
accepts-is_welcome women man = refl
accepts-is_welcome women non_binary = refl
accepts-is_welcome men woman = refl
accepts-is_welcome men man = refl
accepts-is_welcome men non_binary = refl
accepts-is_welcome everyone woman = refl
accepts-is_welcome everyone man = refl
accepts-is_welcome everyone non_binary = refl

accepting-is_welcome :
    (p : PartnerGenderPreference) (g : Gender)
    → any (same_preference p) (preferences_accepting g) ≡ is_welcome g p
unfolding preferences_accepting
accepting-is_welcome women woman = refl
accepting-is_welcome women man = refl
accepting-is_welcome women non_binary = refl
accepting-is_welcome men woman = refl
accepting-is_welcome men man = refl
accepting-is_welcome men non_binary = refl
accepting-is_welcome everyone woman = refl
accepting-is_welcome everyone man = refl
accepting-is_welcome everyone non_binary = refl

-- What the rule and the list of preferences say of two members.
pub record Agreed (a b : Seeker) : Type 0 where
  pub rule :
      gender_preferences_match a b
      ≡ (is_welcome b.gender a.preference && is_welcome a.gender b.preference)
  pub listed :
      any (same_preference a.preference) (preferences_accepting b.gender)
      ≡ is_welcome b.gender a.preference

-- For any two members: the rule of mutual preference holds exactly where each is welcome to the other
-- (women to those who look for women, men to those who look for men, and anyone to those who look
-- for everyone), and the preference of the first is among those that `preferencesAccepting` lists for
-- the gender of the second exactly where the second is welcome to the first.
pub gender_preferences_match-Agreed : (a b : Seeker) → Agreed a b
unfolding gender_preferences_match
gender_preferences_match-Agreed a b = record {
  rule =
      rw (accepts-is_welcome a.preference b.gender, accepts-is_welcome b.preference a.gender) refl;
  listed = accepting-is_welcome a.preference b.gender;
}
