-- ===== src/Profiles.antt =====
-- How complete a profile is (packages/shared/src/utils/profile-completion.ts). A profile is told by
-- which of its fields are filled in.
pub mod Account
mod Tests
use garba_partner.Prelude.{
  ℕ, ◌+◌, Bool, true, false, not, Option, none, some, List, [], ◌∷◌, ◌++◌, map, filter,
  if◌then◌else◌,
}

pub data ProfileStatus : Type 0 where
  not_started incomplete complete : ProfileStatus

pub data ProfileCompletionField : Type 0 where
  name date_of_birth gender city garba_level profile_image : ProfileCompletionField
  bio available_dates area instagram_id : ProfileCompletionField

pub record Item : Type 0 where
  pub field : ProfileCompletionField
  pub weight : ℕ
  pub required : Bool

abbrev pub item : ProfileCompletionField → ℕ → Bool → Item
item field weight required = record { field = field; weight = weight; required = required }

abbrev pub profile_completion_items : List Item
profile_completion_items =
    item ProfileCompletionField.name 10 true
    ∷ item ProfileCompletionField.date_of_birth 10 true
    ∷ item ProfileCompletionField.gender 10 true
    ∷ item ProfileCompletionField.city 10 true
    ∷ item ProfileCompletionField.garba_level 10 true
    ∷ item ProfileCompletionField.profile_image 20 true
    ∷ item ProfileCompletionField.bio 10 false
    ∷ item ProfileCompletionField.available_dates 10 false
    ∷ item ProfileCompletionField.area 5 false
    ∷ item ProfileCompletionField.instagram_id 5 false
    ∷ []

abbrev pub Filled : Type 0
Filled = ProfileCompletionField → Bool

pub record ProfileCompletion : Type 0 where
  pub percentage : ℕ
  pub status : ProfileStatus
  pub missing_required : List ProfileCompletionField
  pub missing_optional : List ProfileCompletionField

-- The three variables that the loop assigns.
pub record Tally : Type 0 where
  pub percentage : ℕ
  pub missing_required : List ProfileCompletionField
  pub missing_optional : List ProfileCompletionField

abbrev pub no_tally : Tally
no_tally = record { percentage = 0; missing_required = []; missing_optional = [] }

-- The body of the loop.
abbrev pub count_item : Filled → Item → Tally → Tally
count_item filled i t =
    if filled i.field
    then record t { percentage = t.percentage + i.weight }
    else if i.required
    then record t { missing_required = t.missing_required ++ i.field ∷ [] }
    else record t { missing_optional = t.missing_optional ++ i.field ∷ [] }

unfoldable pub count_items : Filled → List Item → Tally → Tally
count_items filled [] t = t
count_items filled (i ∷ is) t = count_items filled is (count_item filled i t)

abbrev pub is_empty : List ProfileCompletionField → Bool
is_empty [] = true
is_empty (x ∷ xs) = false

-- Percentages are sums of whole weights: `Math.floor` leaves them as they are.
abbrev pub completion_of : Tally → ProfileCompletion
completion_of t = record {
  percentage = t.percentage;
  status = if is_empty t.missing_required then complete else incomplete;
  missing_required = t.missing_required;
  missing_optional = t.missing_optional;
}

abbrev pub is_optional : Item → Bool
is_optional i = not i.required

abbrev pub field_of : Item → ProfileCompletionField
field_of i = i.field

abbrev pub is_required : Item → Bool
is_required i = i.required

-- `none`: there is no profile yet
unfoldable pub compute_profile_completion : Option Filled → ProfileCompletion
compute_profile_completion none = record {
  percentage = 0;
  status = not_started;
  missing_required = map field_of (filter is_required profile_completion_items);
  missing_optional = map field_of (filter is_optional profile_completion_items);
}
compute_profile_completion (some filled) =
    completion_of (count_items filled profile_completion_items no_tally)
