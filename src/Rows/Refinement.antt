-- ===== src/Rows/Refinement.antt =====
-- The store of query results against the plain list of the rows that it has accepted.
use influxdb_desk.Base.{
  ℕ, ◌+◌, ◌≤◌, ◌<◌, ◌≡◌, refl, sym, ap, subst, inl, Bool, true, false, Option, none, some, List, [],
  ◌∷◌, ◌++◌, if◌then◌else◌, length, All, Result, ok, err, arith, length-append,
}
use influxdb_desk.Decimal.{Bytes}
use influxdb_desk.Rows.{TypedScalar, Error, max_uint32}
use influxdb_desk.Rows.Codec.{encode_row}
use influxdb_desk.Rows.Store.{
  SeriesKey, StoredRow, Store, StoreError, Attempt, Outside, next_attempt, is_open, add_row,
  store_closed,
}
use influxdb_desk.Rows.Append.{
  Spilled, in_frame, ensure_spill, write_spill_row, with_spill, fresh_row, append_written,
  append_spilled, append_memory, append_by, append_payload, append_encoded, append_decoded_row,
}
use influxdb_desk.Rows.Spill.{Nonced, write_spill_row-Grows, write_spill_row-Readable}
use influxdb_desk.Rows.Kept.{Entry, Kept, Holds, Holds-append, Holds-Grows, Nonced-next_attempt}
use influxdb_desk.Rows.Retained.{Ensured, ensure_spill-Ensured, ensure_spill-is_open}

-- What the rows are once an append has answered.
abbrev pub recorded : List Entry → Entry → Result StoreError (Bool × Bool) → List Entry
recorded es entry (ok (true, full)) = es ++ (entry ∷ [])
recorded es entry (ok (false, full)) = es
recorded es entry (err e) = es

abbrev pub encoded_size : Result Error Bytes → ℕ
encoded_size (ok payload) = length payload
encoded_size (err e) = 0

module _ (finite_float json_token : Bytes → Bool) (seal : Bytes → Bytes → Bytes → Bytes) where
  -- The sizes of the encodings of the rows.
  abbrev pub stored_bytes : List Entry → ℕ
  stored_bytes [] = 0
  stored_bytes ((key, cells) ∷ es) =
      encoded_size (encode_row finite_float json_token cells) + stored_bytes es

  -- The counters of a store that has accepted `es`.
  abbrev pub Counts : Store → List Entry → Type 0
  Counts s es =
      (s.total_rows ≡ length es)
      × (s.next_ordinal ≡ length es)
      × (s.total_rows ≤ s.max_rows)
      × (s.max_rows ≤ 18_446_744_073_709_551_615)
      × (s.total_bytes ≤ s.max_bytes)
      × (s.max_bytes + 32 ≤ max_uint32)
      × ((is_open s.spill ≡ false) → s.total_bytes < s.memory_bytes)
      × (s.total_bytes ≡ stored_bytes es)

  -- An open store that has accepted the rows, each for its series.
  unfoldable pub Represents : Store → List Entry → Type 0
  Represents s es =
      (s.closed ≡ false)
      × Holds finite_float json_token seal s.session_id s.spill s.rows es
      × Counts s es

  -- There is room for a row of this payload.
  abbrev Room : Store → List Entry → Bytes → Type 0
  Room s es payload =
      (s.total_rows ≡ length es)
      × (s.next_ordinal ≡ length es)
      × (s.total_rows < s.max_rows)
      × (s.max_rows ≤ 18_446_744_073_709_551_615)
      × (s.total_bytes + length payload ≤ s.max_bytes)
      × (s.max_bytes + 32 ≤ max_uint32)
      × (s.total_bytes ≡ stored_bytes es)

  stored_bytes-append :
      (es : List Entry) (key : SeriesKey) (cells : List TypedScalar)
      → stored_bytes (es ++ (key, cells) ∷ [])
        ≡ stored_bytes es + encoded_size (encode_row finite_float json_token cells)
  stored_bytes-append [] key cells = omega arith
  stored_bytes-append ((k, c) ∷ es) key cells = omega (arith, stored_bytes-append es key cells)

  add_row-Represents :
      (s : Store) (es : List Entry) (r : StoredRow) (cells : List TypedScalar) (payload : Bytes)
      → s.closed ≡ false
      → Holds finite_float json_token seal s.session_id s.spill s.rows es
      → Kept finite_float json_token seal s.session_id s.spill r cells
      → encode_row finite_float json_token cells ≡ ok payload
      → Room s es payload
      → ((is_open s.spill ≡ false) → s.total_bytes + length payload < s.memory_bytes)
      → Represents (add_row s r payload) (es ++ ((r.key, cells) ∷ []))
  unfolding Represents
  add_row-Represents s es r cells payload live holds kept encodes room memory =
      let size = stored_bytes-append es r.key cells in
      let here : encoded_size (encode_row finite_float json_token cells) ≡ length payload =
        ap encoded_size encodes in
      let l = length-append es ((r.key, cells) ∷ []) in
      (
        live,
        Holds-append finite_float json_token seal s.session_id s.spill s.rows es r cells holds kept,
        (
          omega arith,
          omega arith,
          omega arith,
          omega arith,
          omega arith,
          omega arith,
          λ shut. let bound = memory shut in omega arith,
          omega arith,
        ),
      )

  append_written-Represents :
      (place : Result StoreError (ℕ × ℕ)) (s : Store) (es : List Entry) (key : SeriesKey)
      (cells : List TypedScalar) (payload : Bytes)
      → s.closed ≡ false
      → Holds finite_float json_token seal s.session_id s.spill s.rows es
      → ((offset size : ℕ)
          → place ≡ ok (offset, size)
          → Kept finite_float json_token seal s.session_id s.spill
              (in_frame (fresh_row s key) offset size)
              cells)
      → encode_row finite_float json_token cells ≡ ok payload
      → Room s es payload
      → is_open s.spill ≡ true
      → Represents
          (append_written s key payload place).store
          (recorded es (key, cells) (append_written s key payload place).result)
  unfolding Represents
  append_written-Represents (err e) s es key cells payload live holds kept encodes room there =
      (live, holds, (room.0, room.1, omega arith, room.3, omega arith, room.5, λ shut. cc, room.6))
  append_written-Represents (ok (offset, size)) s es key cells payload live holds kept encodes room
        there =
      add_row-Represents s es (in_frame (fresh_row s key) offset size) cells payload live holds
        (kept offset size refl) encodes room (λ shut. cc)

  append_memory-Represents :
      (s : Store) (es : List Entry) (key : SeriesKey) (cells : List TypedScalar) (payload : Bytes)
      → s.closed ≡ false
      → Holds finite_float json_token seal s.session_id s.spill s.rows es
      → encode_row finite_float json_token cells ≡ ok payload
      → Room s es payload
      → ((is_open s.spill ≡ false) → s.total_bytes + length payload < s.memory_bytes)
      → Represents
          (append_memory s key payload).store
          (recorded es (key, cells) (append_memory s key payload).result)
  append_memory-Represents s es key cells payload live holds encodes room memory =
      add_row-Represents s es (record (fresh_row s key) { memory = some payload }) cells payload
        live holds (payload, encodes, omega arith, inl refl) encodes room memory

  append_file-Represents :
      (attempt : Attempt) (file path : Bytes) (rows : List StoredRow) (s : Store) (es : List Entry)
      (key : SeriesKey) (cells : List TypedScalar) (payload : Bytes)
      → ((nonce payload aad : Bytes) → length (seal nonce payload aad) ≡ length payload + 16)
      → s.closed ≡ false
      → Holds finite_float json_token seal s.session_id (some file) rows es
      → Nonced attempt
      → encode_row finite_float json_token cells ≡ ok payload
      → Room s es payload
      → (let w = write_spill_row seal s.session_id attempt (some file) s.next_ordinal payload in
          let a = append_written (with_spill s path rows w.file) key payload w.place in
          Represents a.store (recorded es (key, cells) a.result))
  append_file-Represents attempt file path rows s es key cells payload sealed live holds nonced
        encodes room =
      let w = write_spill_row seal s.session_id attempt (some file) s.next_ordinal payload in
      let grows = write_spill_row-Grows seal s.session_id attempt file s.next_ordinal payload in
      append_written-Represents w.place (with_spill s path rows w.file) es key cells payload live
        (Holds-Grows finite_float json_token seal s.session_id file w.file rows es grows holds)
        (λ offset size placed. (
          payload,
          encodes,
          omega arith,
          write_spill_row-Readable seal s.session_id attempt file (fresh_row s key) payload offset
              size nonced (λ nonce aad. sealed nonce payload aad) (omega arith) placed,
        ))
        encodes room (ap is_open grows.1)

  append_spilled-Represents :
      (failure : Option StoreError) (path : Bytes) (out : Spilled) (s : Store) (es : List Entry)
      (key : SeriesKey) (cells : List TypedScalar) (payload : Bytes)
      → ((nonce payload aad : Bytes) → length (seal nonce payload aad) ≡ length payload + 16)
      → s.closed ≡ false
      → Ensured finite_float json_token seal s.session_id es out
      → out.failure ≡ failure
      → encode_row finite_float json_token cells ≡ ok payload
      → Room s es payload
      → ((is_open out.file ≡ false) → s.total_bytes < s.memory_bytes)
      → Represents
          (append_spilled seal s key payload path out failure).store
          (recorded es (key, cells) (append_spilled seal s key payload path out failure).result)
  unfolding Represents
  append_spilled-Represents (some e) path out s es key cells payload sealed live ensured failed
        encodes room memory =
      (live, ensured.0, (room.0, room.1, omega arith, room.3, omega arith, room.5, memory, room.6))
  append_spilled-Represents none path out s es key cells payload sealed live ensured failed encodes
        room memory =
      let there = ensured.2 failed in
      let held : Holds finite_float json_token seal s.session_id (some there.0) out.rows es =
        subst (λ f. Holds finite_float json_token seal s.session_id f out.rows es) there.1
          ensured.0 in
      subst
        (λ f.
          let w =
            write_spill_row seal s.session_id (next_attempt out.attempts) f s.next_ordinal
              payload in
          let a = append_written (with_spill s path out.rows w.file) key payload w.place in
          Represents a.store (recorded es (key, cells) a.result))
        (sym there.1)
        (append_file-Represents (next_attempt out.attempts) there.0 path out.rows s es key cells
          payload sealed live held
          (Nonced-next_attempt finite_float json_token seal out.attempts ensured.1) encodes room)

  append_by-Represents :
      (full to_file : Bool) (outside : Outside) (s : Store) (es : List Entry) (key : SeriesKey)
      (cells : List TypedScalar) (payload : Bytes)
      → ((nonce payload aad : Bytes) → length (seal nonce payload aad) ≡ length payload + 16)
      → All Nonced outside.attempts
      → encode_row finite_float json_token cells ≡ ok payload
      → Represents s es
      → ((full ≡ false) → Room s es payload)
      → ((full ≡ false) → (to_file ≡ false) → s.total_bytes + length payload < s.memory_bytes)
      → Represents
          (append_by seal full to_file outside s key payload).store
          (recorded es (key, cells) (append_by seal full to_file outside s key payload).result)
  unfolding Represents
  append_by-Represents true to_file outside s es key cells payload sealed nonced encodes represents
        room memory =
      represents
  append_by-Represents false false outside s es key cells payload sealed nonced encodes
        (live, holds, counts) room memory =
      append_memory-Represents s es key cells payload live holds encodes (room refl)
        (λ shut. memory refl refl)
  append_by-Represents false true outside s es key cells payload sealed nonced encodes
        (live, holds, counts) room memory =
      let e = ensure_spill seal outside s in
      append_spilled-Represents e.1.failure e.0 e.1 s es key cells payload sealed live
        (ensure_spill-Ensured finite_float json_token seal outside s es sealed holds nonced) refl
        encodes (room refl)
        (λ shut. counts.6 (ensure_spill-is_open finite_float json_token seal outside s shut))

  append_encoded-Represents :
      (encoded : Result Error Bytes) (outside : Outside) (s : Store) (es : List Entry)
      (key : SeriesKey) (cells : List TypedScalar)
      → ((nonce payload aad : Bytes) → length (seal nonce payload aad) ≡ length payload + 16)
      → All Nonced outside.attempts
      → encode_row finite_float json_token cells ≡ encoded
      → Represents s es
      → Represents (append_encoded finite_float json_token seal outside s key encoded).store (
          recorded es
            (key, cells)
            (append_encoded finite_float json_token seal outside s key encoded).result)
  unfolding append_payload Represents
  append_encoded-Represents (err e) outside s es key cells sealed nonced encodes represents =
      represents
  append_encoded-Represents (ok payload) outside s es key cells sealed nonced encodes
        (live, holds, counts) =
      append_by-Represents _ _ outside s es key cells payload sealed nonced encodes
        (live, holds, counts)
        (λ room. (counts.0, counts.1, ground arith, counts.3, ground arith, counts.5, counts.7))
        (λ room shut. ground arith)

  -- Appending a row, whatever its size and whatever the random source and the file do, leaves a store
  -- that holds exactly the rows it held and, if the answer says so, the new one as the last: spilling
  -- loses no row, a failed append changes none, the counters are the numbers of the rows and of the
  -- bytes of their encodings, the limits
  -- on rows and bytes hold, and without a file the bytes are below the memory limit. The cipher's
  -- overhead is 16 bytes, nonces have 12, and the byte limit leaves room for a frame in 32 bits.
  pub append_decoded_row-Represents :
      (outside : Outside) (s : Store) (es : List Entry) (key : SeriesKey) (cells : List TypedScalar)
      → ((nonce payload aad : Bytes) → length (seal nonce payload aad) ≡ length payload + 16)
      → All Nonced outside.attempts
      → Represents s es
      → (let a = append_decoded_row finite_float json_token seal outside s key cells in
          Represents a.store (recorded es (key, cells) a.result))
  unfolding append_decoded_row Represents
  append_decoded_row-Represents outside s es key cells sealed nonced represents =
      subst
        (λ b.
          let a =
            if b
            then record { store = s; result = err store_closed }
            else append_encoded finite_float json_token seal outside s key
                (encode_row finite_float json_token cells) in
          Represents a.store (recorded es (key, cells) a.result))
        (sym represents.0)
        (append_encoded-Represents (encode_row finite_float json_token cells) outside s es key cells
          sealed nonced refl represents)
