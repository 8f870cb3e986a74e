-- ===== src/Rows/Codec.antt =====
-- `encodeTypedRowV1` and `decodeTypedRowV1`.
use influxdb_desk.Base.{
  ℕ, zero, suc, ◌+◌, ◌*◌, ◌/◌, ◌%◌, Bool, true, false, ◌&&◌, Option, none, some, List, [], ◌∷◌,
  ◌++◌, ltb, leb, ◌==◌, if◌then◌else◌, is_empty, length, take, drop, Result, ok, err, guard, ◌>>=◌,
  ◌>>◌,
}
use influxdb_desk.Decimal.{Bytes, bytes_eq}
use influxdb_desk.Rows.{
  ScalarKind, null_kind, string_kind, boolean_kind, timestamp_ns_kind, int64_kind, uint64_kind,
  float64_kind, numeric_text_kind, other_kind, TypedScalar, Error, unexpected_value, no_boolean,
  not_canonical, not_json_number, unknown_kind, too_large, unexpected_eof, bad_version, bad_boolean,
  bad_code, trailing_data, max_uint32, number, null_scalar, string_scalar, boolean_scalar,
  numeric_scalar,
}

-- `binary.BigEndian.PutUint32`
unfoldable pub put_uint32 : ℕ → Bytes
put_uint32 n = (n / 16_777_216 % 256) ∷ (n / 65_536 % 256) ∷ (n / 256 % 256) ∷ (n % 256) ∷ []

-- `binary.BigEndian.Uint32`
abbrev pub uint32 : ℕ → ℕ → ℕ → ℕ → ℕ
uint32 a b c d = a * 16_777_216 + b * 65_536 + c * 256 + d

abbrev pub is_none : Option Bool → Bool
is_none none = true
is_none (some b) = false

-- The bytes of `code` and a length-prefixed payload.
abbrev pub prefixed : ℕ → Bytes → Result Error Bytes
prefixed code payload = do
  guard (leb (length payload) max_uint32) too_large
  ok (code ∷ put_uint32 (length payload) ++ payload)

-- What one turn of the loop of `encodeTypedRowV1` writes.
unfoldable pub write_scalar : ℕ × Bytes → Result Error Bytes
unfolding put_uint32
write_scalar (code, payload) =
    if code == 3
    then ok (code ∷ payload)
    else if leb 2 code && leb code 8
    then prefixed code payload
    else ok (code ∷ [])

abbrev pub bit : Bool → ℕ
bit true = 1
bit false = 0

abbrev pub encode_boolean : Option Bool → Bool → Result Error (ℕ × Bytes)
encode_boolean none clean = err no_boolean
encode_boolean (some b) clean = do guard clean no_boolean; ok (3, bit b ∷ [])

-- `magic`
abbrev pub row_magic : Bytes
row_magic = b'I' ∷ b'D' ∷ b'R' ∷ 1 ∷ []

-- `readLengthPrefixed` on what follows the offset: the value, and what follows it.
unfoldable pub read_length_prefixed : Bytes → Result Error (Bytes × Bytes)
read_length_prefixed (a ∷ b ∷ c ∷ d ∷ rest) =
    if ltb (length rest) (uint32 a b c d)
    then err unexpected_eof
    else ok (take (uint32 a b c d) rest, drop (uint32 a b c d) rest)
read_length_prefixed _ = err unexpected_eof

-- The kind of a code that has a length-prefixed payload.
abbrev pub kind_of : ℕ → ScalarKind
kind_of code =
    if code == 4
    then timestamp_ns_kind
    else if code == 5
    then int64_kind
    else if code == 6
    then uint64_kind
    else if code == 7
    then float64_kind
    else numeric_text_kind

-- Encoding a decoded scalar must have given its code.
abbrev pub checked : ℕ → TypedScalar → Result Error (ℕ × Bytes) → Result Error TypedScalar
checked code s (err e) = err not_canonical
checked code s (ok cell) = if cell.0 == code then ok s else err not_canonical

abbrev pub decode_boolean : Bytes → Result Error (TypedScalar × Bytes)
decode_boolean [] = err bad_boolean
decode_boolean (b ∷ rest) = if ltb 1 b then err bad_boolean else ok (boolean_scalar (b == 1), rest)

abbrev pub whole_row : List TypedScalar × Bytes → Result Error (List TypedScalar)
whole_row (row, rest) = do guard (is_empty rest) trailing_data; ok row

-- `json_token` is `isJSONNumberToken`, which runs the decoder of `encoding/json`.
module _ (finite_float json_token : Bytes → Bool) where
  abbrev pub canonical : TypedScalar → Result Error (Unit {0})
  canonical s = elim (numeric_scalar finite_float s.decimal_text s.kind) [
    | err e ↦ err not_canonical
    | ok v ↦ guard (bytes_eq v.decimal_text s.decimal_text) not_canonical
  ]

  -- `validateNumericScalarFields`
  unfoldable pub validate_numeric : TypedScalar → Result Error (Unit {0})
  validate_numeric s = do
    guard (is_empty s.string_value && is_none s.boolean_value) unexpected_value
    canonical s

  abbrev pub encode_number : ℕ → TypedScalar → Result Error (ℕ × Bytes)
  encode_number code s = do validate_numeric s; ok (code, s.decimal_text)

  -- `encodeScalarV1`, by the kind of the scalar.
  abbrev pub encode_kind : ScalarKind → TypedScalar → Result Error (ℕ × Bytes)
  encode_kind null_kind s = do
    guard (is_empty s.decimal_text && is_empty s.string_value && is_none s.boolean_value)
        unexpected_value
    ok (1, [])
  encode_kind string_kind s = do
    guard (is_empty s.decimal_text && is_none s.boolean_value) unexpected_value
    ok (2, s.string_value)
  encode_kind boolean_kind s =
      encode_boolean s.boolean_value (is_empty s.decimal_text && is_empty s.string_value)
  encode_kind timestamp_ns_kind s = encode_number 4 s
  encode_kind int64_kind s = encode_number 5 s
  encode_kind uint64_kind s = encode_number 6 s
  encode_kind float64_kind s = encode_number 7 s
  encode_kind numeric_text_kind s = do
    guard (is_empty s.string_value && is_none s.boolean_value && json_token s.decimal_text)
        not_json_number
    ok (8, s.decimal_text)
  encode_kind other_kind s = err unknown_kind

  unfoldable pub encode_scalar : TypedScalar → Result Error (ℕ × Bytes)
  unfolding validate_numeric
  encode_scalar s = encode_kind s.kind s

  -- The loop of `encodeTypedRowV1`.
  unfoldable pub encode_cells : List TypedScalar → Result Error Bytes
  unfolding encode_scalar write_scalar
  encode_cells [] = ok []
  encode_cells (s ∷ row) = do
    cell ← encode_scalar s
    head ← write_scalar cell
    tail ← encode_cells row
    ok (head ++ tail)

  -- `encodeTypedRowV1`
  unfoldable pub encode_row : List TypedScalar → Result Error Bytes
  unfolding encode_cells put_uint32
  encode_row row = do
    guard (leb (length row) max_uint32) too_large
    cells ← encode_cells row
    ok (row_magic ++ put_uint32 (length row) ++ cells)

  -- The scalar of a length-prefixed payload; any but a text must encode to its code again.
  unfoldable pub prefixed_scalar : ℕ → Bytes → Result Error TypedScalar
  unfolding encode_scalar
  prefixed_scalar code value =
      if code == 2
      then ok (string_scalar value)
      else checked code (number (kind_of code) value) (encode_scalar (number (kind_of code) value))

  abbrev pub decode_prefixed : ℕ → Bytes → Result Error (TypedScalar × Bytes)
  decode_prefixed code rest = do
    v ← read_length_prefixed rest
    s ← prefixed_scalar code v.0
    ok (s, v.1)

  -- The switch of `decodeTypedRowV1` on a code, and what follows it.
  unfoldable pub decode_code : ℕ → Bytes → Result Error (TypedScalar × Bytes)
  unfolding read_length_prefixed prefixed_scalar
  decode_code code rest =
      if code == 1
      then ok (null_scalar, rest)
      else if code == 3
      then decode_boolean rest
      else if leb 2 code && leb code 8
      then decode_prefixed code rest
      else err bad_code

  -- The loop of `decodeTypedRowV1`.
  unfoldable pub decode_cells : ℕ → Bytes → Result Error (List TypedScalar × Bytes)
  unfolding decode_code
  decode_cells zero bytes = ok ([], bytes)
  decode_cells (suc count) [] = err unexpected_eof
  decode_cells (suc count) (code ∷ bytes) = do
    cell ← decode_code code bytes
    rest ← decode_cells count cell.1
    ok (cell.0 ∷ rest.0, rest.1)

  -- `decodeTypedRowV1`
  unfoldable pub decode_row : Bytes → Result Error (List TypedScalar)
  unfolding decode_cells
  decode_row (m0 ∷ m1 ∷ m2 ∷ m3 ∷ a ∷ b ∷ c ∷ d ∷ rest) = do
    guard (bytes_eq (m0 ∷ m1 ∷ m2 ∷ m3 ∷ []) row_magic) bad_version
    cells ← decode_cells (uint32 a b c d) rest
    whole_row cells
  decode_row _ = err bad_version
