-- ===== src/Pagination/Cursors/Trips.antt =====
-- Cursors there and back (apps/api/src/lib/pagination.ts).
use garba_partner.Api.{validation_error, err, ok}
use garba_partner.Text.{same_text}
use garba_partner.Pagination.Cursors.{
  TextCursor, checked, is_date, SortCursor, parsed_cursor, parsed_sort_cursor, encode_sort_cursor,
  encode_cursor, Json, Kind, decode_sort_cursor, Runtime, decode_cursor,
}
use garba_partner.Prelude.{
  ℕ, ◌≡◌, refl, Bool, true, false, not, ◌&&◌, ◌||◌, some, List, length, is_some, if◌then◌else◌, ltb,
  arith, Bool-cases, inl, inr,
}

-- What a JavaScript runtime documents of JSON and base64url: each reads back what it wrote, base64url
-- the JSON texts, which have no lone surrogates.
pub record ReadsBack (js : Runtime) : Type 0 where
  pub json : (j : Json) → js.parse (js.stringify j) ≡ some j
  pub base64url : (j : Json) → js.from_base64url (js.to_base64url (js.stringify j)) ≡ js.stringify j

-- What `decodeCursor` accepts: a date and a UUID.
abbrev pub is_row_cursor : Runtime → TextCursor → Bool
is_row_cursor js c = is_some (js.date_parse c.created_at) && js.is_uuid c.id

-- A cursor that was encoded is read back as it was where its date is a date and its id a UUID, and is
-- refused as invalid where either is not.
pub decode_cursor-encode_cursor :
    (js : Runtime)
    → ReadsBack js
    → (c : TextCursor)
    → decode_cursor js (encode_cursor js c)
      ≡ (if is_row_cursor js c then ok c else err validation_error)
unfolding decode_cursor encode_cursor parsed_cursor checked
decode_cursor-encode_cursor js back c = rw (back.base64url, back.json) refl

-- What `decodeSortCursor` accepts: the value is of at most 300 code units, the id a UUID, and the value
-- a date where the order is by date.
abbrev pub is_wellformed : Runtime → Kind → SortCursor → Bool
is_wellformed js kind c =
    not (ltb 300 (length c.value))
    && js.is_uuid c.id
    && (not (is_date kind) || is_some (js.date_parse c.value))

-- A cursor of a list with a named sort is read back as it was given out by that sort, where it is
-- well-formed, and refused by every other sort.
pub decode_sort_cursor-encode_sort_cursor :
    (js : Runtime)
    → ReadsBack js
    → (kind : Kind) (c : SortCursor) → is_wellformed js kind c ≡ true
    → (sort : List ℕ)
    → decode_sort_cursor js (encode_sort_cursor js c) sort kind
      ≡ (if same_text c.sort sort then ok (record c { sort = sort }) else err validation_error)
unfolding decode_sort_cursor encode_sort_cursor parsed_sort_cursor
decode_sort_cursor-encode_sort_cursor js back kind c good sort =
    let short : ltb 300 (length c.value) ≡ false = ground (arith, good) in
    let uuid : js.is_uuid c.id ≡ true = ground (arith, good) in
    let date : (is_date kind && not (is_some (js.date_parse c.value))) ≡ false =
      ground (arith, good) in
    elim (Bool-cases (same_text c.sort sort)) [
      | inl e ↦ rw (back.base64url, back.json, e, short, uuid, date) refl
      | inr e ↦ rw (back.base64url, back.json, e) refl
    ]
