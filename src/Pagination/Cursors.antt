-- ===== src/Pagination/Cursors.antt =====
-- Cursors as texts (apps/api/src/lib/pagination.ts). JSON, base64url, dates and the pattern of a UUID
-- are those of the runtime: arguments.
pub mod Trips
use garba_partner.Text.{same_text}
use garba_partner.Api.{validation_error, err, ok, Result}
use garba_partner.Prelude.{
  ℕ, Bool, true, false, not, ◌&&◌, ◌||◌, Option, none, some, List, [], ◌∷◌, ltb, if◌then◌else◌,
  length, is_some,
}

-- A field of an object or an element of an array: a text, as the list of its code units, or not one. A
-- missing field is not one.
pub data Value : Type 0 where
  text : List ℕ → Value
  no_text : Value

-- Of an object, it is the fields `createdAt` and `id` that are read.
pub data Json : Type 0 where
  object : (created_at id : Value) → Json
  array : List Value → Json
  other : Json

-- `parse` gives none where it throws; `date_parse` where it is not a number.
pub record Runtime : Type 0 where
  pub stringify : Json → List ℕ
  pub parse : List ℕ → Option Json
  pub to_base64url : List ℕ → List ℕ
  pub from_base64url : List ℕ → List ℕ
  pub date_parse : List ℕ → Option ℕ
  pub is_uuid : List ℕ → Bool

pub record TextCursor : Type 0 where
  pub created_at : List ℕ
  pub id : List ℕ

pub record SortCursor : Type 0 where
  pub sort : List ℕ
  pub value : List ℕ
  pub id : List ℕ

-- `order.kind`
pub data Kind : Type 0 where
  date string : Kind

unfoldable pub encode_cursor : Runtime → TextCursor → List ℕ
encode_cursor js c = js.to_base64url (js.stringify (object (text c.created_at) (text c.id)))

checked : Runtime → Value → Value → Result TextCursor
checked js (text created_at) (text id) =
    if is_some (js.date_parse created_at) && js.is_uuid id
    then ok (record { created_at = created_at; id = id })
    else err validation_error
checked js _ _ = err validation_error

parsed_cursor : Runtime → Option Json → Result TextCursor
unfolding checked
parsed_cursor js (some (object created_at id)) = checked js created_at id
parsed_cursor js _ = err validation_error

unfoldable pub decode_cursor : Runtime → List ℕ → Result TextCursor
unfolding parsed_cursor
decode_cursor js value = parsed_cursor js (js.parse (js.from_base64url value))

unfoldable pub encode_sort_cursor : Runtime → SortCursor → List ℕ
encode_sort_cursor js c =
    js.to_base64url (js.stringify (array (text c.sort ∷ text c.value ∷ text c.id ∷ [])))

abbrev pub is_date : Kind → Bool
is_date Kind.date = true
is_date Kind.string = false

parsed_sort_cursor : Runtime → List ℕ → Kind → Option Json → Result SortCursor
parsed_sort_cursor js sort kind (some (array (text cursor_sort ∷ text value ∷ text id ∷ []))) =
    if not (same_text cursor_sort sort)
      || ltb 300 (length value)
      || not (js.is_uuid id)
      || (is_date kind && not (is_some (js.date_parse value)))
    then err validation_error
    else ok (record { sort = sort; value = value; id = id })
parsed_sort_cursor js sort kind _ = err validation_error

unfoldable pub decode_sort_cursor : Runtime → List ℕ → List ℕ → Kind → Result SortCursor
unfolding parsed_sort_cursor
decode_sort_cursor js value sort kind =
    parsed_sort_cursor js sort kind (js.parse (js.from_base64url value))
