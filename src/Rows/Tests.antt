-- ===== src/Rows/Tests.antt =====
-- The rows of query results at concrete inputs, with a cipher that only pads.
use influxdb_desk.Base.{
  ◌+◌, ◌≡◌, ◌≤◌, refl, Bool, true, false, Option, none, some, List, [], ◌∷◌, length, take, drop, ap,
  ok, arith,
}
use influxdb_desk.Decimal.{Bytes, set_string, print, parse_digits, bytes_eq}
use influxdb_desk.Rows.{
  TypedScalar, int64_kind, number, null_scalar, string_scalar, boolean_scalar, parse_int,
  format_int, numeric_scalar,
}
use influxdb_desk.Rows.Codec.{
  put_uint32, write_scalar, validate_numeric, encode_scalar, encode_cells, encode_row, decode_row,
}
use influxdb_desk.Rows.RoundTrip.{decode_row-encode_row}
use influxdb_desk.Rows.Store.{
  row_count, total_rows_of, SeriesKey, Store, Outside, written, no_nonce, new_result_store,
}
use influxdb_desk.Rows.Append.{
  append_decoded_row, append_payload, ensure_spill, spill_rows, write_spill_row,
}
use influxdb_desk.Rows.Read.{read_rows}
use influxdb_desk.Rows.Reading.{series_of}
use influxdb_desk.Rows.Refinement.{Represents, recorded, append_decoded_row-Represents}
use influxdb_desk.Rows.Session.{
  Request, session, new_result_store-Represents, read_rows-session, row_count-session,
}

abbrev any : Bytes → Bool
any text = true

-- Sixteen bytes in front of the payload.
abbrev pad : Bytes → Bytes → Bytes → Bytes
pad nonce payload aad = 0 ∷ 0 ∷ 0 ∷ 0 ∷ 0 ∷ 0 ∷ 0 ∷ 0 ∷ 0 ∷ 0 ∷ 0 ∷ 0 ∷ 0 ∷ 0 ∷ 0 ∷ 0 ∷ payload

abbrev unpad : Bytes → Bytes → Bytes → Option Bytes
unpad nonce ciphertext aad = some (drop 16 ciphertext)

abbrev twelve : Bytes
twelve = 1 ∷ 2 ∷ 3 ∷ 4 ∷ 5 ∷ 6 ∷ 7 ∷ 8 ∷ 9 ∷ 10 ∷ 11 ∷ 12 ∷ []

abbrev a_row : List TypedScalar
a_row = null_scalar ∷ string_scalar (b'h' ∷ b'i' ∷ []) ∷ boolean_scalar true ∷ []

abbrev b_row : List TypedScalar
b_row = number int64_kind (b'-' ∷ b'4' ∷ b'2' ∷ []) ∷ []

abbrev a_bytes : Bytes
a_bytes = b'I' ∷ b'D' ∷ b'R' ∷ 1 ∷ 0 ∷ 0 ∷ 0 ∷ 3 ∷ 1 ∷ 2 ∷ 0 ∷ 0 ∷ 0 ∷ 2 ∷ b'h' ∷ b'i' ∷ 3 ∷ 1 ∷ []

encode_row_a : encode_row any any a_row ≡ ok a_bytes
unfolding encode_row encode_cells encode_scalar write_scalar put_uint32 validate_numeric
encode_row_a = refl

decode_row-encode_row_example : decode_row any any a_bytes ≡ ok a_row
decode_row-encode_row_example = decode_row-encode_row any any a_row a_bytes encode_row_a

abbrev first : SeriesKey
first = record { statement = 0; series = b's' ∷ [] }

-- The second append reaches the memory limit, and its file takes both rows; the third finds no nonce.
abbrev calls : List Request
calls =
    record { outside = record { temp = none; attempts = [] }; key = first; cells = a_row }
    ∷ record {
      outside = record { temp = some (b'f' ∷ []); attempts = written twelve ∷ written twelve ∷ [] };
      key = first;
      cells = b_row;
    }
    ∷ record {
      outside = record { temp = none; attempts = no_nonce ∷ [] };
      key = first;
      cells = a_row;
    }
    ∷ []

abbrev a_store : Store
a_store = record {
  session_id = b'q' ∷ [];
  directory = b'/' ∷ [];
  memory_bytes = 20;
  max_bytes = 100;
  max_rows = 10;
  rows = [];
  total_rows = 0;
  total_bytes = 0;
  next_ordinal = 0;
  spill = none;
  spill_path = [];
  closed = false;
}

a_store_made : new_result_store (b'q' ∷ []) (b'/' ∷ []) 20 100 10 ≡ ok a_store
unfolding new_result_store
a_store_made = refl

accepted : (session any any pad a_store [] calls).1 ≡ (first, a_row) ∷ (first, b_row) ∷ []
unfolding session append_decoded_row append_payload ensure_spill spill_rows write_spill_row
    encode_row encode_cells encode_scalar write_scalar put_uint32 validate_numeric numeric_scalar
    parse_int format_int set_string parse_digits print bytes_eq
accepted = refl

pad-length : (nonce payload aad : Bytes) → length (pad nonce payload aad) ≡ length payload + 16
pad-length nonce payload aad = omega arith

abbrev idle : Outside
idle = record { temp = none; attempts = [] }

append_decoded_row-Represents_example :
    Represents any any pad
      (append_decoded_row any any pad idle a_store first a_row).store
      (recorded [] (first, a_row) (append_decoded_row any any pad idle a_store first a_row).result)
append_decoded_row-Represents_example =
    append_decoded_row-Represents any any pad idle a_store [] first a_row pad-length tt (
      new_result_store-Represents any any pad (b'q' ∷ []) (b'/' ∷ []) 20 100 10 a_store
        (omega arith) (omega arith) a_store_made)

counted : length (series_of first (session any any pad a_store [] calls).1) ≡ 2
unfolding bytes_eq
counted = ap (λ es. length (series_of first es)) accepted

read_rows-session_example :
    read_rows any any unpad (session any any pad a_store [] calls).0 first 0 5
    ≡ ok (
      take 5 (drop 0 (series_of first (session any any pad a_store [] calls).1)),
      length (series_of first (session any any pad a_store [] calls).1),
    )
read_rows-session_example =
    read_rows-session any any pad unpad (b'q' ∷ []) (b'/' ∷ []) 20 100 10 a_store calls first 0 5
      pad-length (λ nonce payload aad. refl) (omega arith) (omega arith) a_store_made
      (tt, ((refl, (refl, tt)), ((tt, tt), tt))) (omega (arith, counted)) (omega (arith, counted))
      (omega arith)

row_count-session_example :
    (row_count (session any any pad a_store [] calls).0 first
      ≡ length (series_of first (session any any pad a_store [] calls).1))
    × (total_rows_of (session any any pad a_store [] calls).0
        ≡ length (session any any pad a_store [] calls).1)
    × (length (session any any pad a_store [] calls).1
        ≤ (session any any pad a_store [] calls).0.max_rows)
row_count-session_example =
    row_count-session any any pad (b'q' ∷ []) (b'/' ∷ []) 20 100 10 a_store calls first pad-length
      (omega arith) (omega arith) a_store_made (tt, ((refl, (refl, tt)), ((tt, tt), tt)))
