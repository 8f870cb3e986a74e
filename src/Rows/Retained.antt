-- ===== src/Rows/Retained.antt =====
-- The rows that a store of query results holds, through the moves of `ensureSpill`.
use influxdb_desk.Base.{
  ◌+◌, ◌≤◌, ◌≡◌, refl, sym, ap, ◌∙◌, subst, inl, inr, Bool, true, false, Option, none, some, List,
  [], ◌∷◌, ◌++◌, is_empty, length, All, ok,
}
use influxdb_desk.Decimal.{Bytes}
use influxdb_desk.Rows.{TypedScalar, max_uint32}
use mathlib.Core.List.{append-nil}
use influxdb_desk.Rows.Store.{
  StoredRow, Store, Attempt, Outside, next_attempt, later, spill_magic, is_open,
}
use influxdb_desk.Rows.Append.{
  Spilled, spill_row, spill_rows, ensure_by, ensure_spill, write_spill_row,
}
use influxdb_desk.Rows.Spill.{Nonced, write_spill_row-Grows, write_spill_row-Readable}
use influxdb_desk.Rows.Kept.{
  Entry, Kept, Holds, Holds-Grows, Holds-none, Moved, cons_row-Moved, All-later,
  Nonced-next_attempt, spilled_row-Moved,
}

module _ (finite_float json_token : Bytes → Bool) (seal : Bytes → Bytes → Bytes → Bytes) where
  spill_row-Moved :
      (memory : Option Bytes) (session file : Bytes) (r : StoredRow) (rs : List StoredRow)
      (cells : List TypedScalar) (es : List Entry) (attempts : List Attempt)
      (next : List Attempt → Option Bytes → Spilled)
      → ((nonce payload aad : Bytes) → length (seal nonce payload aad) ≡ length payload + 16)
      → r.memory ≡ memory
      → Kept finite_float json_token seal session (some file) r cells
      → Holds finite_float json_token seal session (some file) rs es
      → All Nonced attempts
      → ((a : List Attempt) (f : Bytes)
          → All Nonced a
          → Holds finite_float json_token seal session (some f) rs es
          → Moved finite_float json_token seal session f es (next a (some f)))
      → Moved finite_float json_token seal session file
          ((r.key, cells) ∷ es)
          (spill_row seal session attempts (some file) memory r rs next)
  spill_row-Moved none session file r rs cells es attempts next sealed here kept holds nonced
        moves =
      cons_row-Moved finite_float json_token seal session file r cells es
        (next attempts (some file)) kept (moves attempts file nonced holds)
  spill_row-Moved (some p) session file r rs cells es attempts next sealed here
        (payload, encodes, small, inr (away, framed)) holds nonced moves =
      cc
  spill_row-Moved (some p) session file r rs cells es attempts next sealed here
        (payload, encodes, small, inl memory) holds nonced moves =
      let same : payload ≡ p = cc in
      let w = write_spill_row seal session (next_attempt attempts) (some file) r.ordinal p in
      let grows = write_spill_row-Grows seal session (next_attempt attempts) file r.ordinal p in
      spilled_row-Moved finite_float json_token seal session file r rs cells es (later attempts)
        w.file w.place next (payload, encodes, small, inl memory) holds
        (All-later finite_float json_token seal attempts nonced) grows
        (λ offset size placed. (
          p,
          encodes ∙ ap ok same,
          subst (λ x. length x + 32 ≤ max_uint32) same small,
          write_spill_row-Readable seal session (next_attempt attempts) file r p offset size
              (Nonced-next_attempt finite_float json_token seal attempts nonced)
              (λ nonce aad. sealed nonce p aad) (subst (λ x. length x + 32 ≤ max_uint32) same small)
              placed,
        ))
        (moves (later attempts) (file ++ grows.0)
          (All-later finite_float json_token seal attempts nonced)
          (Holds-Grows finite_float json_token seal session file (some (file ++ grows.0)) rs es
            (grows.0, refl) holds))

  spill_rows-Moved :
      (session file : Bytes) (rs : List StoredRow) (es : List Entry) (attempts : List Attempt)
      → ((nonce payload aad : Bytes) → length (seal nonce payload aad) ≡ length payload + 16)
      → Holds finite_float json_token seal session (some file) rs es
      → All Nonced attempts
      → Moved finite_float json_token seal session file es
          (spill_rows seal session attempts (some file) rs)
  unfolding spill_rows
  spill_rows-Moved session file [] [] attempts sealed holds nonced =
      (([], ap some (sym (append-nil file))), tt, nonced)
  spill_rows-Moved session file [] (e ∷ es) attempts sealed holds nonced = cc
  spill_rows-Moved session file (r ∷ rs) [] attempts sealed holds nonced = cc
  spill_rows-Moved session file (r ∷ rs) ((key, cells) ∷ es) attempts sealed (same, kept, holds)
        nonced =
      subst
        (λ k.
          Moved finite_float json_token seal session file ((k, cells) ∷ es)
            (spill_rows seal session attempts (some file) (r ∷ rs)))
        same
        (spill_row-Moved r.memory session file r rs cells es attempts
          (λ a f. spill_rows seal session a f rs) sealed refl kept holds nonced
          (λ a f na h. spill_rows-Moved session f rs es a sealed h na))

  -- What `ensureSpill` leaves holds the same rows; unless it fails there is a file.
  abbrev pub Ensured : Bytes → List Entry → Spilled → Type 0
  Ensured session es out =
      Holds finite_float json_token seal session out.file out.rows es
      × All Nonced out.attempts
      × ((out.failure ≡ none) → (file : Bytes) × (out.file ≡ some file))

  ensure_by-Ensured :
      (session path : Bytes) (rs : List StoredRow) (attempts : List Attempt) (spill : Option Bytes)
      (nowhere : Bool) (temp : Option Bytes) (es : List Entry)
      → ((nonce payload aad : Bytes) → length (seal nonce payload aad) ≡ length payload + 16)
      → Holds finite_float json_token seal session spill rs es
      → All Nonced attempts
      → Ensured session es (ensure_by seal session path rs attempts spill nowhere temp).1
  ensure_by-Ensured session path rs attempts (some file) nowhere temp es sealed holds nonced =
      (holds, nonced, λ fine. (file, refl))
  ensure_by-Ensured session path rs attempts none true temp es sealed holds nonced =
      (holds, nonced, λ fine. cc)
  ensure_by-Ensured session path rs attempts none false none es sealed holds nonced =
      (holds, nonced, λ fine. cc)
  ensure_by-Ensured session path rs attempts none false (some made) es sealed holds nonced =
      let moved =
        spill_rows-Moved session spill_magic rs es attempts sealed
          (Holds-none finite_float json_token seal session (some spill_magic) rs es holds) nonced in
      (moved.1, moved.2, λ fine. (spill_magic ++ moved.0.0, moved.0.1))

  pub ensure_spill-Ensured :
      (outside : Outside) (s : Store) (es : List Entry)
      → ((nonce payload aad : Bytes) → length (seal nonce payload aad) ≡ length payload + 16)
      → Holds finite_float json_token seal s.session_id s.spill s.rows es
      → All Nonced outside.attempts
      → Ensured s.session_id es (ensure_spill seal outside s).1
  unfolding ensure_spill
  ensure_spill-Ensured outside s es =
      ensure_by-Ensured s.session_id s.spill_path s.rows outside.attempts s.spill
        (is_empty s.directory) outside.temp es

  ensure_by-is_open :
      (session path : Bytes) (rs : List StoredRow) (attempts : List Attempt) (spill : Option Bytes)
      (nowhere : Bool) (temp : Option Bytes)
      → is_open (ensure_by seal session path rs attempts spill nowhere temp).1.file ≡ false
      → is_open spill ≡ false
  ensure_by-is_open session path rs attempts (some file) nowhere temp shut = shut
  ensure_by-is_open session path rs attempts none nowhere temp shut = refl

  -- A file that was open stays open.
  pub ensure_spill-is_open :
      (outside : Outside) (s : Store)
      → is_open (ensure_spill seal outside s).1.file ≡ false
      → is_open s.spill ≡ false
  unfolding ensure_spill
  ensure_spill-is_open outside s =
      ensure_by-is_open s.session_id s.spill_path s.rows outside.attempts s.spill
        (is_empty s.directory) outside.temp
