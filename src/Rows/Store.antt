-- ===== src/Rows/Store.antt =====
-- `resultStore`: rows are kept in memory until a limit is reached, then in an encrypted spill file.
-- The AEAD, the nonces, and what the file system answers are outside; a spill file is its bytes.
use influxdb_desk.Base.{
  ℕ, zero, suc, ◌+◌, ◌-◌, ◌/◌, ◌%◌, Bool, true, false, not, ◌&&◌, ◌||◌, Option, none, some, List,
  [], ◌∷◌, ◌++◌, leb, ◌==◌, if◌then◌else◌, is_empty, length, Result, ok, err, guard, ◌>>◌,
}
use influxdb_desk.Decimal.{Bytes, bytes_eq}
use influxdb_desk.Rows.{Error}
use influxdb_desk.Rows.Codec.{put_uint32}

pub data StoreError : Type 0 where
  codec : Error → StoreError
  store_closed no_session no_series slice_panic no_directory spill_failed : StoreError
  not_open nonce_failed row_too_large write_failed bad_reference read_failed bad_length bad_seal :
      StoreError

-- `resultSeriesKey`
pub record SeriesKey : Type 0 where
  pub statement : ℕ
  pub series : Bytes

abbrev pub key_eq : SeriesKey → SeriesKey → Bool
key_eq a b = a.statement == b.statement && bytes_eq a.series b.series

-- `storedRow`, with the key of the series it was appended to.
pub record StoredRow : Type 0 where
  pub key : SeriesKey
  pub ordinal : ℕ
  pub memory : Option Bytes
  pub frame_offset : ℕ
  pub frame_length : ℕ

-- The map `rows` is the list of all rows in the order of their appends, and `memoryRows` is those
-- whose memory is set. `spill` holds the bytes of the open file.
pub record Store : Type 0 where
  pub session_id : Bytes
  pub directory : Bytes
  pub memory_bytes : ℕ
  pub max_bytes : ℕ
  pub max_rows : ℕ
  pub rows : List StoredRow
  pub total_rows : ℕ
  pub total_bytes : ℕ
  pub next_ordinal : ℕ
  pub spill : Option Bytes
  pub spill_path : Bytes
  pub closed : Bool

-- What the random source and the file do for one row: no nonce, a write that stops after some
-- bytes, or all of it.
pub data Attempt : Type 0 where
  no_nonce : Attempt
  broken : Bytes → ℕ → Attempt
  written : Bytes → Attempt

-- What happens outside during one append: the name of the file that `os.CreateTemp` makes with its
-- mode and header, if all of that succeeds, and the attempts to write rows.
pub record Outside : Type 0 where
  pub temp : Option Bytes
  pub attempts : List Attempt

-- `uint64` arithmetic
abbrev pub wrap64 : ℕ → ℕ
wrap64 n = n % 18_446_744_073_709_551_616

abbrev pub minus64 : ℕ → ℕ → ℕ
minus64 a b = wrap64 (a + 18_446_744_073_709_551_616 - b)

-- `spillFileMagic`
abbrev pub spill_magic : Bytes
spill_magic = b'I' ∷ b'D' ∷ b'Q' ∷ b'S' ∷ b'P' ∷ b'L' ∷ 1 ∷ 10 ∷ []

-- `newResultStore`: a limit of zero is the default.
abbrev pub limit_or : ℕ → ℕ → ℕ
limit_or zero usual = usual
limit_or (suc n) usual = suc n

unfoldable pub new_result_store : Bytes → Bytes → ℕ → ℕ → ℕ → Result StoreError Store
new_result_store session_id directory memory_bytes max_bytes max_rows = do
  guard (not (is_empty session_id)) no_session
  ok record {
    session_id = session_id;
    directory = directory;
    memory_bytes = limit_or memory_bytes 33_554_432;
    max_bytes = limit_or max_bytes 134_217_728;
    max_rows = limit_or max_rows 100_000;
    rows = [];
    total_rows = 0;
    total_bytes = 0;
    next_ordinal = 0;
    spill = none;
    spill_path = [];
    closed = false;
  }

-- `binary.BigEndian.PutUint64`
abbrev pub put_uint64 : ℕ → Bytes
unfolding put_uint32
put_uint64 n = put_uint32 (n / 4_294_967_296) ++ put_uint32 n

-- `rowAAD`
abbrev pub row_aad : Bytes → ℕ → Bytes
row_aad session ordinal = 1 ∷ put_uint32 (length session) ++ session ++ put_uint64 ordinal

-- The bytes of a row in the spill file.
abbrev pub frame : Bytes → Bytes → Bytes
frame nonce ciphertext = put_uint32 (length ciphertext) ++ (nonce ++ ciphertext)

-- The file after an attempt to write a row, and the offset and the length of the row's frame.
pub record Write : Type 0 where
  pub file : Option Bytes
  pub place : Result StoreError (ℕ × ℕ)

-- The bytes that reach the file, unless the ciphertext is too large.
abbrev pub put_frame : Bool → Bytes → Bytes → Result StoreError (ℕ × ℕ) → Write
put_frame true file bytes place = record { file = some file; place = err row_too_large }
put_frame false file bytes place = record { file = some (file ++ bytes); place = place }

abbrev pub next_attempt : List Attempt → Attempt
next_attempt [] = no_nonce
next_attempt (a ∷ rest) = a

abbrev pub later : List Attempt → List Attempt
later [] = []
later (a ∷ rest) = rest

-- A row as it is counted once it is stored.
abbrev pub add_row : Store → StoredRow → Bytes → Store
add_row s row payload = record s {
  rows = s.rows ++ (row ∷ []);
  total_rows = wrap64 (s.total_rows + 1);
  total_bytes = wrap64 (s.total_bytes + length payload);
  next_ordinal = wrap64 (s.next_ordinal + 1);
}

pub record Appended : Type 0 where
  pub store : Store
  pub result : Result StoreError (Bool × Bool)

-- A row that was appended, and whether that has used up a limit.
abbrev pub accept : Store → Appended
accept s = record {
  store = s;
  result = ok (true, leb s.max_rows s.total_rows || leb s.max_bytes s.total_bytes);
}

abbrev pub is_open : Option Bytes → Bool
is_open none = false
is_open (some file) = true

-- The rows of the map's entry for `key`.
abbrev pub series_rows : SeriesKey → List StoredRow → List StoredRow
series_rows key [] = []
series_rows key (row ∷ rows) =
    let rest = series_rows key rows in if key_eq row.key key then row ∷ rest else rest

-- `RowCount`
unfoldable pub row_count : Store → SeriesKey → ℕ
row_count s key = if s.closed then 0 else length (series_rows key s.rows)

-- `TotalRows`
unfoldable pub total_rows_of : Store → ℕ
total_rows_of s = if s.closed then 0 else s.total_rows

-- `Close`, where the file is removed or not.
unfoldable pub close : Bool → Store → Store
close removed s = record s {
  rows = [];
  total_rows = 0;
  total_bytes = 0;
  spill = none;
  spill_path = if removed then [] else s.spill_path;
  closed = true;
}
