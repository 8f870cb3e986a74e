-- ===== src/Rows/Append.antt =====
-- `AppendDecodedRow` of `resultStore`, with `ensureSpill` and `writeSpillRow`.
use influxdb_desk.Base.{
  ℕ, ◌+◌, ◌%◌, Bool, true, false, ◌||◌, Option, none, some, List, [], ◌∷◌, ltb, leb, if◌then◌else◌,
  is_empty, length, take, Result, ok, err,
}
use influxdb_desk.Decimal.{Bytes}
use influxdb_desk.Rows.{TypedScalar, Error, max_uint32}
use influxdb_desk.Rows.Codec.{encode_row}
use influxdb_desk.Rows.Store.{
  StoreError, SeriesKey, StoredRow, Store, Attempt, Outside, wrap64, minus64, spill_magic, row_aad,
  frame, Write, put_frame, next_attempt, later, add_row, Appended, accept, is_open, codec,
  store_closed, no_directory, spill_failed, not_open, nonce_failed, write_failed, StoreError,
  no_nonce, broken, written,
}

-- What `ensureSpill` leaves of the rows, of the file and of the attempts, and what it fails with.
pub record Spilled : Type 0 where
  pub rows : List StoredRow
  pub file : Option Bytes
  pub attempts : List Attempt
  pub failure : Option StoreError

abbrev pub cons_row : StoredRow → Spilled → Spilled
cons_row row rest = record {
  rows = row ∷ rest.rows;
  file = rest.file;
  attempts = rest.attempts;
  failure = rest.failure;
}

abbrev pub in_frame : StoredRow → ℕ → ℕ → StoredRow
in_frame row offset size = record {
  key = row.key;
  ordinal = row.ordinal;
  memory = none;
  frame_offset = offset;
  frame_length = size;
}

abbrev pub spilled_row :
    StoredRow
    → List StoredRow
    → List Attempt
    → Option Bytes
    → Result StoreError (ℕ × ℕ)
    → (List Attempt → Option Bytes → Spilled)
    → Spilled
spilled_row row rows attempts file (err e) next = record {
  rows = row ∷ rows;
  file = file;
  attempts = attempts;
  failure = some e;
}
spilled_row row rows attempts file (ok (offset, size)) next =
    cons_row (in_frame row offset size) (next attempts file)

abbrev pub with_spill : Store → Bytes → List StoredRow → Option Bytes → Store
with_spill s path rows file = record s { rows = rows; spill = file; spill_path = path }

abbrev pub fresh_row : Store → SeriesKey → StoredRow
fresh_row s key = record {
  key = key;
  ordinal = s.next_ordinal;
  memory = none;
  frame_offset = 0;
  frame_length = 0;
}

abbrev pub append_written : Store → SeriesKey → Bytes → Result StoreError (ℕ × ℕ) → Appended
append_written s key payload (err e) = record { store = s; result = err e }
append_written s key payload (ok (offset, size)) =
    accept (add_row s (in_frame (fresh_row s key) offset size) payload)

abbrev pub append_memory : Store → SeriesKey → Bytes → Appended
append_memory s key payload =
    accept (add_row s (record (fresh_row s key) { memory = some payload }) payload)

module _ (seal : Bytes → Bytes → Bytes → Bytes) where
  -- What `Seal` makes of a row.
  abbrev pub row_ciphertext : Bytes → Bytes → ℕ → Bytes → Bytes
  row_ciphertext session nonce ordinal payload = seal nonce payload (row_aad session ordinal)

  -- `writeSpillRow`
  unfoldable pub write_spill_row : Bytes → Attempt → Option Bytes → ℕ → Bytes → Write
  write_spill_row session attempt none ordinal payload = record {
    file = none;
    place = err not_open;
  }
  write_spill_row session no_nonce (some file) ordinal payload = record {
    file = some file;
    place = err nonce_failed;
  }
  write_spill_row session (broken nonce count) (some file) ordinal payload =
      let c = row_ciphertext session nonce ordinal payload in
      put_frame (ltb max_uint32 (length c)) file (take count (frame nonce c)) (err write_failed)
  write_spill_row session (written nonce) (some file) ordinal payload =
      let c = row_ciphertext session nonce ordinal payload in
      put_frame (ltb max_uint32 (length c)) file (frame nonce c)
        (ok (length file, (4 + length nonce + length c) % 4_294_967_296))

  abbrev pub spill_row :
      Bytes
      → List Attempt
      → Option Bytes
      → Option Bytes
      → StoredRow
      → List StoredRow
      → (List Attempt → Option Bytes → Spilled)
      → Spilled
  spill_row session attempts file none row rows next = cons_row row (next attempts file)
  spill_row session attempts file (some payload) row rows next =
      let w = write_spill_row session (next_attempt attempts) file row.ordinal payload in
      spilled_row row rows (later attempts) w.file w.place next

  -- The loop of `ensureSpill`.
  unfoldable pub spill_rows : Bytes → List Attempt → Option Bytes → List StoredRow → Spilled
  unfolding write_spill_row
  spill_rows session attempts file [] = record {
    rows = [];
    file = file;
    attempts = attempts;
    failure = none;
  }
  spill_rows session attempts file (row ∷ rows) =
      spill_row session attempts file row.memory row rows λ a f. spill_rows session a f rows

  -- By the open file, by whether no directory is set, and by the file that is made.
  abbrev pub ensure_by :
      Bytes
      → Bytes
      → List StoredRow
      → List Attempt
      → Option Bytes
      → Bool
      → Option Bytes
      → Bytes × Spilled
  ensure_by session path rows attempts (some file) nowhere temp =
      (path, record { rows = rows; file = some file; attempts = attempts; failure = none })
  ensure_by session path rows attempts none true temp =
      (path, record { rows = rows; file = none; attempts = attempts; failure = some no_directory })
  ensure_by session path rows attempts none false none =
      (path, record { rows = rows; file = none; attempts = attempts; failure = some spill_failed })
  ensure_by session path rows attempts none false (some made) =
      (made, spill_rows session attempts (some spill_magic) rows)

  -- `ensureSpill`: the path of the file it has made, and what it leaves.
  unfoldable pub ensure_spill : Outside → Store → Bytes × Spilled
  unfolding spill_rows
  ensure_spill outside s =
      ensure_by s.session_id s.spill_path s.rows outside.attempts s.spill (is_empty s.directory)
        outside.temp

  abbrev pub append_spilled :
      Store → SeriesKey → Bytes → Bytes → Spilled → Option StoreError → Appended
  append_spilled s key payload path spilled (some e) = record {
    store = with_spill s path spilled.rows spilled.file;
    result = err e;
  }
  append_spilled s key payload path spilled none =
      let w =
        write_spill_row s.session_id (next_attempt spilled.attempts) spilled.file s.next_ordinal
          payload in
      append_written (with_spill s path spilled.rows w.file) key payload w.place

  -- By whether a limit is used up, and by whether the row goes to the file.
  abbrev pub append_by : Bool → Bool → Outside → Store → SeriesKey → Bytes → Appended
  append_by true to_file outside s key payload = record { store = s; result = ok (false, true) }
  append_by false false outside s key payload = append_memory s key payload
  append_by false true outside s key payload =
      let e = ensure_spill outside s in append_spilled s key payload e.0 e.1 e.1.failure

  -- `AppendDecodedRow` on an encoded row.
  unfoldable pub append_payload : Outside → Store → SeriesKey → Bytes → Appended
  unfolding ensure_spill write_spill_row
  append_payload outside s key payload =
      append_by
        (leb s.max_rows s.total_rows || ltb (minus64 s.max_bytes s.total_bytes) (length payload))
        (is_open s.spill || leb s.memory_bytes (wrap64 (s.total_bytes + length payload))) outside s
        key payload

module _ (finite_float json_token : Bytes → Bool) (seal : Bytes → Bytes → Bytes → Bytes) where
  abbrev pub append_encoded : Outside → Store → SeriesKey → Result Error Bytes → Appended
  append_encoded outside s key (err e) = record { store = s; result = err (codec e) }
  append_encoded outside s key (ok payload) = append_payload seal outside s key payload

  -- `AppendDecodedRow`: whether the row is stored, and whether a limit is used up.
  unfoldable pub append_decoded_row : Outside → Store → SeriesKey → List TypedScalar → Appended
  unfolding append_payload
  append_decoded_row outside s key row =
      if s.closed
      then record { store = s; result = err store_closed }
      else append_encoded outside s key (encode_row finite_float json_token row)
