-- ===== src/Rows/Read.antt =====
-- `ReadRows` of `resultStore`, with `readStoredRow`.
use influxdb_desk.Base.{
  ℕ, ◌+◌, ◌-◌, Bool, not, ◌&&◌, Option, none, some, List, [], ◌∷◌, ltb, leb, ◌==◌, if◌then◌else◌,
  is_empty, length, take, drop, Result, ok, err, guard, or_fail, ◌>>=◌, ◌>>◌,
}
use influxdb_desk.Decimal.{Bytes}
use influxdb_desk.Rows.{TypedScalar, Error}
use influxdb_desk.Rows.Codec.{uint32, decode_row}
use influxdb_desk.Rows.Store.{
  StoreError, SeriesKey, StoredRow, Store, wrap64, row_aad, series_rows, codec, store_closed,
  no_series, slice_panic, bad_reference, read_failed, bad_length, bad_seal, StoreError,
}

module _ (open_seal : Bytes → Bytes → Bytes → Option Bytes) where
  abbrev pub open_frame : Bytes → Bytes → Result StoreError Bytes
  open_frame aad (a ∷ b ∷ c ∷ d ∷ rest) = do
    guard (uint32 a b c d == length rest - 12) bad_length
    or_fail (open_seal (take 12 rest) (drop 12 rest) aad) bad_seal
  open_frame aad _ = err bad_length

  abbrev pub read_frame : Store → StoredRow → Option Bytes → Result StoreError Bytes
  read_frame s row none = err bad_reference
  read_frame s row (some file) = do
    guard (leb 16 row.frame_length) bad_reference
    guard (leb (row.frame_offset + row.frame_length) (length file)) read_failed
    open_frame (row_aad s.session_id row.ordinal)
        (take row.frame_length (drop row.frame_offset file))

  abbrev pub read_memory : Store → StoredRow → Option Bytes → Result StoreError Bytes
  read_memory s row (some payload) = ok payload
  read_memory s row none = read_frame s row s.spill

  -- `readStoredRow`
  unfoldable pub read_stored_row : Store → StoredRow → Result StoreError Bytes
  read_stored_row s row = read_memory s row row.memory

module _ (finite_float json_token : Bytes → Bool)
    (open_seal : Bytes → Bytes → Bytes → Option Bytes) where
  abbrev pub decoded : Result Error (List TypedScalar) → Result StoreError (List TypedScalar)
  decoded (err e) = err (codec e)
  decoded (ok row) = ok row

  -- The loop of `ReadRows`.
  unfoldable pub read_each : Store → List StoredRow → Result StoreError (List (List TypedScalar))
  unfolding read_stored_row
  read_each s [] = ok []
  read_each s (row ∷ rows) = do
    payload ← read_stored_row open_seal s row
    cells ← decoded (decode_row finite_float json_token payload)
    rest ← read_each s rows
    ok (cells ∷ rest)

  abbrev pub read_page :
      Store → List StoredRow → ℕ → ℕ → Result StoreError (List (List TypedScalar) × ℕ)
  read_page s rows offset end = do
    guard (leb offset end) slice_panic
    page ← read_each s (take (end - offset) (drop offset rows))
    ok (page, length rows)

  abbrev pub read_series :
      Store → List StoredRow → ℕ → ℕ → Result StoreError (List (List TypedScalar) × ℕ)
  read_series s rows offset limit = do
    guard (not (is_empty rows) && leb offset (length rows)) no_series
    let end = wrap64 (offset + limit)
    read_page s rows offset (if ltb (length rows) end then length rows else end)

  -- `ReadRows`, with `limit` as its `uint64`: the page and how many rows the series has. The count
  -- that goes with an error is left out.
  unfoldable pub read_rows :
      Store → SeriesKey → ℕ → ℕ → Result StoreError (List (List TypedScalar) × ℕ)
  unfolding read_each
  read_rows s key offset limit =
      if s.closed then err store_closed else read_series s (series_rows key s.rows) offset limit
