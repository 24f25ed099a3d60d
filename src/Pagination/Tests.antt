-- ===== src/Pagination/Tests.antt =====
-- Concrete pages and cursors.
use garba_partner.Api.{validation_error, err}
use garba_partner.Pagination.Cursors.Trips.{
  decode_sort_cursor-encode_sort_cursor, decode_cursor-encode_cursor, ReadsBack,
}
use garba_partner.Pagination.Cursors.{
  other, Kind, text, array, object, no_text, encode_cursor, encode_sort_cursor, Json, TextCursor,
  Runtime, Value, SortCursor, decode_sort_cursor, decode_cursor,
}
use garba_partner.Pagination.{order_by}
use garba_partner.Pagination.Orders.{newest_first, Cursor, asc, keyset_condition, keyset_order_by}
use garba_partner.Pagination.Walk.{walk-order_by, walk, is_distinct}
use garba_partner.Prelude.{
  ◌*◌, ◌≤◌, length, ℕ, ◌≡◌, refl, true, none, some, Option, [], ◌∷◌, arith, List, zero, suc, length,
  ◌==◌, filter,
}

abbrev row : ℕ → ℕ → Cursor
row at id = record { at = at; id = id }

abbrev table : List Cursor
table = row 100 1 ∷ row 300 2 ∷ row 300 3 ∷ row 200 4 ∷ row 50 5 ∷ []

abbrev by_row : Cursor → Cursor
by_row r = r

newest :
    order_by newest_first by_row table
    ≡ row 300 3 ∷ row 300 2 ∷ row 200 4 ∷ row 100 1 ∷ row 50 5 ∷ []
unfolding order_by
newest = refl

oldest :
    order_by (keyset_order_by asc) by_row table
    ≡ row 50 5 ∷ row 100 1 ∷ row 200 4 ∷ row 300 2 ∷ row 300 3 ∷ []
unfolding order_by
oldest = refl

past : filter (keyset_condition asc (row 200 4)) table ≡ row 300 2 ∷ row 300 3 ∷ []
past = refl

no_two : is_distinct newest_first by_row table ≡ true
unfolding is_distinct
no_two = refl

few : length (order_by newest_first by_row table) ≤ 3 * 2
unfolding order_by
few = omega arith

walk-order_by_example :
    walk newest_first by_row 3 2 none table ≡ some (order_by newest_first by_row table)
walk-order_by_example =
    walk-order_by newest_first by_row 3 2 table (omega arith) no_two (omega arith) few

-- A runtime whose texts end with 0, with a tag before each value.
write_text : List ℕ → List ℕ → List ℕ
write_text [] rest = 0 ∷ rest
write_text (c ∷ t) rest = suc c ∷ write_text t rest

read_text : List ℕ → List ℕ × List ℕ
read_text [] = ([], [])
read_text (zero ∷ rest) = ([], rest)
read_text (suc c ∷ ts) = let (t, rest) = read_text ts in (c ∷ t, rest)

read_text-write_text : (t rest : List ℕ) → read_text (write_text t rest) ≡ (t, rest)
unfolding read_text write_text
read_text-write_text [] rest = refl
read_text-write_text (c ∷ t) rest = rw (read_text-write_text t rest) refl

write_value : Value → List ℕ → List ℕ
unfolding write_text
write_value (text t) rest = 1 ∷ write_text t rest
write_value no_text rest = 0 ∷ rest

read_value : List ℕ → Value × List ℕ
unfolding read_text
read_value [] = (no_text, [])
read_value (zero ∷ rest) = (no_text, rest)
read_value (suc n ∷ ts) = let (t, rest) = read_text ts in (text t, rest)

read_value-write_value : (v : Value) (rest : List ℕ) → read_value (write_value v rest) ≡ (v, rest)
unfolding read_value write_value
read_value-write_value (text t) rest = rw (read_text-write_text t rest) refl
read_value-write_value no_text rest = refl

write_values : List Value → List ℕ
unfolding write_value
write_values [] = []
write_values (v ∷ vs) = write_value v (write_values vs)

read_values : ℕ → List ℕ → List Value
unfolding read_value
read_values zero ts = []
read_values (suc n) ts = let (v, rest) = read_value ts in v ∷ read_values n rest

read_values-write_values : (vs : List Value) → read_values (length vs) (write_values vs) ≡ vs
unfolding read_values write_values
read_values-write_values [] = refl
read_values-write_values (v ∷ vs) =
    rw (read_value-write_value v (write_values vs), read_values-write_values vs) refl

write_json : Json → List ℕ
unfolding write_values
write_json (object created_at id) = 0 ∷ write_value created_at (write_value id [])
write_json (array vs) = 1 ∷ length vs ∷ write_values vs
write_json other = 2 ∷ []

read_json : List ℕ → Option Json
unfolding read_values
read_json (zero ∷ ts) =
    let (created_at, rest) = read_value ts in
    let (id, end) = read_value rest in some (object created_at id)
read_json (suc zero ∷ n ∷ ts) = some (array (read_values n ts))
read_json (suc (suc zero) ∷ ts) = some other
read_json _ = none

read_json-write_json : (j : Json) → read_json (write_json j) ≡ some j
unfolding read_json write_json
read_json-write_json (object created_at id) =
    rw (read_value-write_value created_at (write_value id []), read_value-write_value id []) refl
read_json-write_json (array vs) = rw (read_values-write_values vs) refl
read_json-write_json other = refl

-- Every text is a date here, and the ids are the texts of two code units.
abbrev js : Runtime
js = record {
  stringify = write_json;
  parse = read_json;
  to_base64url = λ t. t;
  from_base64url = λ t. t;
  date_parse = λ t. some 0;
  is_uuid = λ t. length t == 2;
}

js-ReadsBack : ReadsBack js
js-ReadsBack = record { json = read_json-write_json; base64url = λ j. refl }

abbrev last_seen : TextCursor
last_seen = record { created_at = 50 ∷ 48 ∷ []; id = 97 ∷ 98 ∷ [] }

-- An id that is not well-formed is refused when it comes back.
abbrev misnamed : TextCursor
misnamed = record last_seen { id = 97 ∷ [] }

decode_cursor-encode_cursor_example :
    decode_cursor js (encode_cursor js misnamed) ≡ err validation_error
decode_cursor-encode_cursor_example = decode_cursor-encode_cursor js js-ReadsBack misnamed

abbrev by_name : SortCursor
by_name = record { sort = 110 ∷ []; value = 65 ∷ []; id = 97 ∷ 98 ∷ [] }

decode_sort_cursor-encode_sort_cursor_example :
    decode_sort_cursor js (encode_sort_cursor js by_name) (100 ∷ []) Kind.date
    ≡ err validation_error
decode_sort_cursor-encode_sort_cursor_example =
    decode_sort_cursor-encode_sort_cursor js js-ReadsBack Kind.date by_name refl (100 ∷ [])
