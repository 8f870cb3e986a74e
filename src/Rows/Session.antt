-- ===== src/Rows/Session.antt =====
-- A query session: rows are appended to a new store, and pages of them are read.
use influxdb_desk.Base.{
  ℕ, zero, suc, ◌+◌, ◌≤◌, ◌<◌, ◌≡◌, refl, subst, Bool, Option, some, List, [], ◌∷◌, is_empty,
  length, take, drop, All, ok, guard, not, >>=-eq-ok, ok-injective, arith,
}
use influxdb_desk.Decimal.{Bytes}
use influxdb_desk.Rows.{TypedScalar, max_uint32}
use influxdb_desk.Rows.Store.{
  row_count, total_rows_of, SeriesKey, Store, Outside, limit_or, new_result_store, no_session,
}
use influxdb_desk.Rows.Append.{append_decoded_row}
use influxdb_desk.Rows.Read.{read_rows}
use influxdb_desk.Rows.Spill.{Nonced}
use influxdb_desk.Rows.Kept.{Entry}
use influxdb_desk.Rows.Refinement.{recorded, Represents, append_decoded_row-Represents}
use influxdb_desk.Rows.Reading.{row_count-Represents, series_of, read_rows-Represents}

-- One call of `AppendDecodedRow`, and what happens outside meanwhile.
pub record Request : Type 0 where
  pub outside : Outside
  pub key : SeriesKey
  pub cells : List TypedScalar

module _ (finite_float json_token : Bytes → Bool) (seal : Bytes → Bytes → Bytes → Bytes) where
  -- The store after the calls, and the rows it has said it accepts.
  unfoldable pub session : Store → List Entry → List Request → Store × List Entry
  session s es [] = (s, es)
  session s es (r ∷ rs) =
      let a = append_decoded_row finite_float json_token seal r.outside s r.key r.cells in
      session a.store (recorded es (r.key, r.cells) a.result) rs

  limit_or-positive : (n usual : ℕ) → 0 < usual → 0 < limit_or n usual
  limit_or-positive zero usual h = h
  limit_or-positive (suc n) usual h = omega arith

  pub new_result_store-Represents :
      (session_id directory : Bytes) (memory_bytes max_bytes max_rows : ℕ) (s : Store)
      → limit_or max_bytes 134_217_728 + 32 ≤ max_uint32
      → limit_or max_rows 100_000 ≤ 18_446_744_073_709_551_615
      → new_result_store session_id directory memory_bytes max_bytes max_rows ≡ ok s
      → Represents finite_float json_token seal s []
  unfolding new_result_store Represents
  new_result_store-Represents session_id directory memory_bytes max_bytes max_rows s bytes rows
        made =
      let fresh = >>=-eq-ok (guard (not (is_empty session_id)) no_session) _ made in
      subst (λ x. Represents finite_float json_token seal x []) (ok-injective fresh.2)
        (
          refl,
          tt,
          (
            refl,
            refl,
            omega arith,
            rows,
            omega arith,
            bytes,
            λ _. limit_or-positive memory_bytes 33_554_432 (omega arith),
            refl,
          ),
        )

  session-Represents :
      (s : Store) (es : List Entry) (rs : List Request)
      → ((nonce payload aad : Bytes) → length (seal nonce payload aad) ≡ length payload + 16)
      → All (λ r. All Nonced r.outside.attempts) rs
      → Represents finite_float json_token seal s es
      → Represents finite_float json_token seal (session s es rs).0 (session s es rs).1
  unfolding session
  session-Represents s es [] sealed nonced h = h
  session-Represents s es (r ∷ rs) sealed nonced h =
      let a = append_decoded_row finite_float json_token seal r.outside s r.key r.cells in
      session-Represents a.store (recorded es (r.key, r.cells) a.result) rs sealed nonced.1 (
        append_decoded_row-Represents finite_float json_token seal r.outside s es r.key r.cells
          sealed nonced.0 h)

  -- After any appends to a new store, with any failures of the random source and the file, a page that
  -- is read of a series is the page of the rows that the appends said they accepted for it, in order
  -- and cell by cell, with their number. The cipher opens what it seals, adds 16 bytes, nonces have
  -- 12, the byte limit leaves room for a frame in 32 bits, and the series has a row at the offset or
  -- ends there.
  pub read_rows-session :
      (open_seal : Bytes → Bytes → Bytes → Option Bytes) (session_id directory : Bytes)
      (memory_bytes max_bytes max_rows : ℕ) (s : Store) (rs : List Request) (key : SeriesKey)
      (offset limit : ℕ)
      → ((nonce payload aad : Bytes) → length (seal nonce payload aad) ≡ length payload + 16)
      → ((nonce payload aad : Bytes) → open_seal nonce (seal nonce payload aad) aad ≡ some payload)
      → limit_or max_bytes 134_217_728 + 32 ≤ max_uint32
      → limit_or max_rows 100_000 ≤ 18_446_744_073_709_551_615
      → new_result_store session_id directory memory_bytes max_bytes max_rows ≡ ok s
      → All (λ r. All Nonced r.outside.attempts) rs
      → 0 < length (series_of key (session s [] rs).1)
      → offset ≤ length (series_of key (session s [] rs).1)
      → offset + limit < 18_446_744_073_709_551_616
      → read_rows finite_float json_token open_seal (session s [] rs).0 key offset limit
        ≡ ok (
          take limit (drop offset (series_of key (session s [] rs).1)),
          length (series_of key (session s [] rs).1),
        )
  read_rows-session open_seal session_id directory memory_bytes max_bytes max_rows s rs key offset
        limit sealed opens bytes rows made nonced =
      read_rows-Represents finite_float json_token seal open_seal (session s [] rs).0
        (session s [] rs).1 key offset limit opens
        (session-Represents s [] rs sealed nonced (
          new_result_store-Represents session_id directory memory_bytes max_bytes max_rows s bytes
            rows made))

  -- After any appends to a new store that is not closed, with any failures of the random source and
  -- the file, `RowCount` is the number of rows that the appends said they accepted for the series, and
  -- `TotalRows` the number of all accepted rows, which the row limit bounds. The cipher adds 16 bytes
  -- to what it seals, nonces have 12, the byte limit leaves room for a frame in 32 bits, and the row
  -- limit is below two to the 64.
  pub row_count-session :
      (session_id directory : Bytes) (memory_bytes max_bytes max_rows : ℕ) (s : Store)
      (rs : List Request) (key : SeriesKey)
      → ((nonce payload aad : Bytes) → length (seal nonce payload aad) ≡ length payload + 16)
      → limit_or max_bytes 134_217_728 + 32 ≤ max_uint32
      → limit_or max_rows 100_000 ≤ 18_446_744_073_709_551_615
      → new_result_store session_id directory memory_bytes max_bytes max_rows ≡ ok s
      → All (λ r. All Nonced r.outside.attempts) rs
      → (row_count (session s [] rs).0 key ≡ length (series_of key (session s [] rs).1))
        × (total_rows_of (session s [] rs).0 ≡ length (session s [] rs).1)
        × (length (session s [] rs).1 ≤ (session s [] rs).0.max_rows)
  row_count-session session_id directory memory_bytes max_bytes max_rows s rs key sealed bytes rows
        made nonced =
      row_count-Represents finite_float json_token seal (session s [] rs).0 (session s [] rs).1 key
        (session-Represents s [] rs sealed nonced (
          new_result_store-Represents session_id directory memory_bytes max_bytes max_rows s bytes
            rows made))
