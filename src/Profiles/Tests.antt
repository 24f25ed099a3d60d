-- ===== src/Profiles/Tests.antt =====
-- Concrete profiles.
use garba_partner.Profiles.{
  Filled, ProfileStatus, ProfileCompletionField, compute_profile_completion, count_items,
}
use garba_partner.Profiles.Account.{IsAccount, compute_profile_completion-IsAccount}
use garba_partner.Prelude.{◌≡◌, refl, true, false, some, [], ◌∷◌}

-- The area and the picture are missing.
abbrev no_picture : Filled
no_picture ProfileCompletionField.name = true
no_picture ProfileCompletionField.date_of_birth = true
no_picture ProfileCompletionField.gender = true
no_picture ProfileCompletionField.city = true
no_picture ProfileCompletionField.garba_level = true
no_picture ProfileCompletionField.profile_image = false
no_picture ProfileCompletionField.bio = true
no_picture ProfileCompletionField.available_dates = true
no_picture ProfileCompletionField.area = false
no_picture ProfileCompletionField.instagram_id = true

missing_picture : compute_profile_completion (some no_picture) ≡ record {
  percentage = 75;
  status = ProfileStatus.incomplete;
  missing_required = ProfileCompletionField.profile_image ∷ [];
  missing_optional = ProfileCompletionField.area ∷ [];
}
unfolding compute_profile_completion count_items
missing_picture = refl

compute_profile_completion-IsAccount_example :
    IsAccount (some no_picture) (compute_profile_completion (some no_picture))
compute_profile_completion-IsAccount_example =
    compute_profile_completion-IsAccount (some no_picture)
