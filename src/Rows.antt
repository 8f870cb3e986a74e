-- ===== src/Rows.antt =====
-- internal/query/scalar.go and result_store.go: the cells of a query result, their row encoding and
-- the store that keeps encoded rows in memory or in an encrypted spill file. Texts are their bytes.
pub mod Codec
pub mod Cells
pub mod RoundTrip
pub mod Store
pub mod Append
pub mod Read
pub mod Spill
pub mod Kept
pub mod Retained
pub mod Refinement
pub mod Reading
pub mod Session
mod Tests
use influxdb_desk.Base.{
  ℕ, ◌+◌, ◌*◌, ◌/◌, ◌%◌, ◌^◌, Bool, true, false, not, ◌&&◌, ◌||◌, Option, none, some, List, [], ◌∷◌,
  ltb, leb, ◌==◌, if◌then◌else◌, is_empty, Result, ok, err, guard, or_fail, ◌>>=◌, ◌>>◌,
}
use influxdb_desk.Decimal.{Bytes, parse_digits, set_string, print}

-- `ScalarKind` is a string type: any other text is an unknown kind.
pub data ScalarKind : Type 0 where
  null_kind string_kind boolean_kind : ScalarKind
  timestamp_ns_kind int64_kind uint64_kind float64_kind numeric_text_kind other_kind : ScalarKind

pub record TypedScalar : Type 0 where
  pub kind : ScalarKind
  pub decimal_text : Bytes
  pub string_value : Bytes
  pub boolean_value : Option Bool

pub data Error : Type 0 where
  unexpected_value no_boolean not_canonical not_json_number unknown_kind : Error
  too_large unexpected_eof bad_version bad_boolean bad_code trailing_data : Error

abbrev pub max_uint32 : ℕ
max_uint32 = 4_294_967_295

-- `strconv.ParseInt(raw, 10, 64)`: the sign and the magnitude.
unfoldable pub parse_int : Bytes → Option (Bool × ℕ)
parse_int raw = elim (set_string raw) [
  | none ↦ none
  | some (minus, n) ↦
      if leb n (if minus then 9_223_372_036_854_775_808 else 9_223_372_036_854_775_807)
      then some (minus, n)
      else none
]

-- `strconv.FormatInt(value, 10)`
unfoldable pub format_int : Bool × ℕ → Bytes
format_int (minus, n) = if minus && not (n == 0) then b'-' ∷ print n else print n

-- `strconv.ParseUint(raw, 10, 64)`
unfoldable pub parse_uint : Bytes → Option ℕ
parse_uint raw = elim (parse_digits raw) [
  | none ↦ none
  | some n ↦ if leb n 18_446_744_073_709_551_615 then some n else none
]

abbrev pub number : ScalarKind → Bytes → TypedScalar
number kind text = record {
  kind = kind;
  decimal_text = text;
  string_value = [];
  boolean_value = none;
}

abbrev pub null_scalar : TypedScalar
null_scalar = number null_kind []

abbrev pub string_scalar : Bytes → TypedScalar
string_scalar text = record {
  kind = string_kind;
  decimal_text = [];
  string_value = text;
  boolean_value = none;
}

abbrev pub boolean_scalar : Bool → TypedScalar
boolean_scalar b = record {
  kind = boolean_kind;
  decimal_text = [];
  string_value = [];
  boolean_value = some b;
}

-- A value that `encoding/json` has decoded with `UseNumber`.
pub data JsonValue : Type 0 where
  json_nil json_other : JsonValue
  json_string json_number : Bytes → JsonValue
  json_bool : Bool → JsonValue

-- `finite_float` says of which texts `strconv.ParseFloat` makes a number that is finite.
module _ (finite_float : Bytes → Bool) where
  -- `numericScalar`
  unfoldable pub numeric_scalar : Bytes → ScalarKind → Result Error TypedScalar
  unfolding parse_int format_int parse_uint
  numeric_scalar raw timestamp_ns_kind = do
    v ← or_fail (parse_int raw) not_canonical
    ok (number timestamp_ns_kind (format_int v))
  numeric_scalar raw int64_kind = do
    v ← or_fail (parse_int raw) not_canonical
    ok (number int64_kind (format_int v))
  numeric_scalar raw uint64_kind = do
    v ← or_fail (parse_uint raw) not_canonical
    ok (number uint64_kind (print v))
  numeric_scalar raw float64_kind = do
    guard (finite_float raw) not_canonical
    ok (number float64_kind raw)
  numeric_scalar raw numeric_text_kind = ok (number numeric_text_kind raw)
  numeric_scalar raw _ = err unknown_kind

  -- `scalarFromValue`
  unfoldable pub scalar_from_value : JsonValue → ScalarKind → Result Error TypedScalar
  unfolding numeric_scalar
  scalar_from_value json_nil kind = ok null_scalar
  scalar_from_value (json_string text) kind = ok (string_scalar text)
  scalar_from_value (json_bool b) kind = ok (boolean_scalar b)
  scalar_from_value (json_number text) kind = numeric_scalar text kind
  scalar_from_value json_other kind = err unknown_kind
