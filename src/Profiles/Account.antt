-- ===== src/Profiles/Account.antt =====
-- What the percentage and the status of a profile tell
-- (packages/shared/src/utils/profile-completion.ts).
use garba_partner.Profiles.{
  ProfileStatus, ProfileCompletionField, Item, profile_completion_items, Filled, ProfileCompletion,
  Tally, no_tally, count_item, count_items, is_empty, compute_profile_completion,
}
use garba_partner.Table.{sum_by, sum_by-insert}
use garba_partner.Prelude.{
  ℕ, ◌+◌, ◌≡◌, refl, Bool, true, false, not, ◌||◌, ◌&&◌, Option, none, some, List, [], ◌∷◌, ◌++◌,
  all, if◌then◌else◌, arith, ap,
}

-- What the percentage grows by when the field is filled in.
abbrev pub weight_of : ProfileCompletionField → ℕ
weight_of ProfileCompletionField.name = 10
weight_of ProfileCompletionField.date_of_birth = 10
weight_of ProfileCompletionField.gender = 10
weight_of ProfileCompletionField.city = 10
weight_of ProfileCompletionField.garba_level = 10
weight_of ProfileCompletionField.profile_image = 20
weight_of ProfileCompletionField.bio = 10
weight_of ProfileCompletionField.available_dates = 10
weight_of ProfileCompletionField.area = 5
weight_of ProfileCompletionField.instagram_id = 5

abbrev pub required_fields : List ProfileCompletionField
required_fields =
    ProfileCompletionField.name ∷ ProfileCompletionField.date_of_birth
    ∷ ProfileCompletionField.gender ∷ ProfileCompletionField.city
    ∷ ProfileCompletionField.garba_level ∷ ProfileCompletionField.profile_image ∷ []

abbrev pub status_of : Option Filled → ProfileStatus
status_of none = ProfileStatus.not_started
status_of (some filled) =
    if all filled required_fields then ProfileStatus.complete else ProfileStatus.incomplete

abbrev pub missing_weight : List ProfileCompletionField → ℕ
missing_weight = sum_by weight_of

-- What is filled in and what is missing add up to the whole.
pub record IsAccount (profile : Option Filled) (c : ProfileCompletion) : Type 0 where
  pub whole :
      c.percentage + (missing_weight c.missing_required + missing_weight c.missing_optional) ≡ 100
  pub status : c.status ≡ status_of profile

abbrev total_of : Tally → ℕ
total_of t = t.percentage + (missing_weight t.missing_required + missing_weight t.missing_optional)

abbrev item_weight : Item → ℕ
item_weight i = weight_of i.field

-- The items carry the weights of their fields.
unfoldable Weighs : List Item → Type 0
Weighs [] = Unit {0}
Weighs (i ∷ is) = (i.weight ≡ weight_of i.field) × Weighs is

by_weight :
    (b required : Bool) (i : Item) (t : Tally)
    → i.weight ≡ weight_of i.field
    → total_of (
        if b
        then record t { percentage = t.percentage + i.weight }
        else if required
        then record t { missing_required = t.missing_required ++ i.field ∷ [] }
        else record t { missing_optional = t.missing_optional ++ i.field ∷ [] })
      ≡ total_of t + i.weight
by_weight true required i t h = omega arith
by_weight false true i t h = omega (arith, h, sum_by-insert weight_of t.missing_required i.field)
by_weight false false i t h = omega (arith, h, sum_by-insert weight_of t.missing_optional i.field)

total_of-count_items :
    (filled : Filled) (is : List Item) (t : Tally)
    → Weighs is
    → total_of (count_items filled is t) ≡ total_of t + sum_by (λ i. i.weight) is
unfolding count_items sum_by Weighs
total_of-count_items filled [] t h = omega arith
total_of-count_items filled (i ∷ is) t h = omega (
  arith,
  total_of-count_items filled is (count_item filled i t) h.1,
  by_weight (filled i.field) i.required i t h.0,
)

-- Whether the item keeps a profile from being complete.
abbrev is_met : Filled → Item → Bool
is_met filled i = not i.required || filled i.field

is_empty-insert :
    (xs : List ProfileCompletionField) (x : ProfileCompletionField)
    → is_empty (xs ++ x ∷ []) ≡ false
is_empty-insert [] x = refl
is_empty-insert (y ∷ xs) x = refl

by_need :
    (b required : Bool) (i : Item) (t : Tally)
    → is_empty
        (if b
          then record t { percentage = t.percentage + i.weight }
          else if required
          then record t { missing_required = t.missing_required ++ i.field ∷ [] }
          else record t { missing_optional = t.missing_optional ++ i.field ∷ [] }).missing_required
      ≡ (is_empty t.missing_required && (not required || b))
by_need true true i t = ground arith
by_need true false i t = ground arith
by_need false true i t = ground (arith, is_empty-insert t.missing_required i.field)
by_need false false i t = ground arith

is_empty-count_items :
    (filled : Filled) (is : List Item) (t : Tally)
    → is_empty (count_items filled is t).missing_required
      ≡ (is_empty t.missing_required && all (is_met filled) is)
unfolding count_items
is_empty-count_items filled [] t = ground arith
is_empty-count_items filled (i ∷ is) t = ground (
  arith,
  is_empty-count_items filled is (count_item filled i t),
  by_need (filled i.field) i.required i t,
)

-- For every profile, and where there is none yet: the percentage and the weights of the fields
-- listed as missing add up to 100, and the status is not started where there is no profile,
-- complete where the six required fields are filled in, and incomplete else.
pub compute_profile_completion-IsAccount :
    (profile : Option Filled) → IsAccount profile (compute_profile_completion profile)
unfolding compute_profile_completion sum_by Weighs
compute_profile_completion-IsAccount none = record { whole = refl; status = refl }
compute_profile_completion-IsAccount (some filled) = record {
  whole =
      total_of-count_items filled profile_completion_items no_tally
        (refl, (refl, (refl, (refl, (refl, (refl, (refl, (refl, (refl, (refl, tt))))))))));
  status =
      ap (λ b. if b then ProfileStatus.complete else ProfileStatus.incomplete)
        (is_empty-count_items filled profile_completion_items no_tally);
}
