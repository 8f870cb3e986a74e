-- ===== src/Rows/Kept.antt =====
-- The rows that a store of query results holds, and what spilling keeps of them.
use influxdb_desk.Base.{
  ℕ, ◌+◌, ◌≤◌, ◌≡◌, refl, sym, ap, ◌∙◌, subst, inl, inr, Bool, true, false, Option, none, some,
  List, [], ◌∷◌, ◌++◌, length, All, Result, ok, err,
}
use influxdb_desk.Decimal.{Bytes}
use influxdb_desk.Rows.{TypedScalar, max_uint32}
use influxdb_desk.Rows.Codec.{encode_row}
use mathlib.Core.List.{append_assoc}
use influxdb_desk.Rows.Store.{SeriesKey, StoredRow, StoreError, Attempt, next_attempt, later}
use influxdb_desk.Rows.Append.{Spilled, cons_row, in_frame, spilled_row}
use influxdb_desk.Rows.Spill.{Nonced, Grows, Readable, Readable-Grows}

abbrev pub Entry : Type 0
Entry = SeriesKey × List TypedScalar

module _ (finite_float json_token : Bytes → Bool) (seal : Bytes → Bytes → Bytes → Bytes) where
  -- The row's encoding can be got back.
  abbrev pub Kept : Bytes → Option Bytes → StoredRow → List TypedScalar → Type 0
  Kept session spill row cells =
      (payload : Bytes) × (encode_row finite_float json_token cells ≡ ok payload)
      × (length payload + 32 ≤ max_uint32)
      × Readable seal session spill row payload

  abbrev pub Holds : Bytes → Option Bytes → List StoredRow → List Entry → Type 0
  Holds session spill [] [] = Unit
  Holds session spill [] (e ∷ es) = true ≡ false
  Holds session spill (r ∷ rs) [] = true ≡ false
  Holds session spill (r ∷ rs) ((key, cells) ∷ es) =
      (r.key ≡ key) × Kept session spill r cells × Holds session spill rs es

  Kept-Grows :
      (session file : Bytes) (new : Option Bytes) (row : StoredRow) (cells : List TypedScalar)
      → Grows file new
      → Kept session (some file) row cells
      → Kept session new row cells
  Kept-Grows session file new row cells grows (payload, encodes, small, readable) =
      (payload, encodes, small, Readable-Grows seal session file new row payload grows readable)

  pub Holds-Grows :
      (session file : Bytes) (new : Option Bytes) (rs : List StoredRow) (es : List Entry)
      → Grows file new
      → Holds session (some file) rs es
      → Holds session new rs es
  Holds-Grows session file new [] [] grows h = h
  Holds-Grows session file new [] (e ∷ es) grows h = h
  Holds-Grows session file new (r ∷ rs) [] grows h = h
  Holds-Grows session file new (r ∷ rs) ((key, cells) ∷ es) grows (same, kept, rest) = (
    same,
    Kept-Grows session file new r cells grows kept,
    Holds-Grows session file new rs es grows rest,
  )

  -- With no file every row is in memory, where it stays readable.
  Readable-none :
      (session : Bytes) (spill : Option Bytes) (row : StoredRow) (payload : Bytes)
      → Readable seal session none row payload
      → Readable seal session spill row payload
  Readable-none session spill row payload (inl kept) = inl kept
  Readable-none session spill row payload
        (inr (away, (before, nonce, after, here, at, size, nonced, small))) =
      cc

  pub Holds-none :
      (session : Bytes) (spill : Option Bytes) (rs : List StoredRow) (es : List Entry)
      → Holds session none rs es
      → Holds session spill rs es
  Holds-none session spill [] [] h = h
  Holds-none session spill [] (e ∷ es) h = h
  Holds-none session spill (r ∷ rs) [] h = h
  Holds-none session spill (r ∷ rs) ((key, cells) ∷ es)
        (same, (payload, encodes, small, readable), rest) =
      (
        same,
        (payload, encodes, small, Readable-none session spill r payload readable),
        Holds-none session spill rs es rest,
      )

  pub Holds-append :
      (session : Bytes) (spill : Option Bytes) (rs : List StoredRow) (es : List Entry)
      (r : StoredRow) (cells : List TypedScalar)
      → Holds session spill rs es
      → Kept session spill r cells
      → Holds session spill (rs ++ (r ∷ [])) (es ++ ((r.key, cells) ∷ []))
  Holds-append session spill [] [] r cells h kept = (refl, kept, tt)
  Holds-append session spill [] (e ∷ es) r cells h kept = cc
  Holds-append session spill (q ∷ rs) [] r cells h kept = cc
  Holds-append session spill (q ∷ rs) ((key, other) ∷ es) r cells (same, here, rest) kept =
      (same, here, Holds-append session spill rs es r cells rest kept)

  -- What spilling leaves: the same rows, in a file that has only grown.
  abbrev pub Moved : Bytes → Bytes → List Entry → Spilled → Type 0
  Moved session file es out =
      Grows file out.file × Holds session out.file out.rows es × All Nonced out.attempts

  -- A row of which nothing moves, in front of the others.
  pub cons_row-Moved :
      (session file : Bytes) (r : StoredRow) (cells : List TypedScalar) (es : List Entry)
      (out : Spilled)
      → Kept session (some file) r cells
      → Moved session file es out
      → Moved session file ((r.key, cells) ∷ es) (cons_row r out)
  cons_row-Moved session file r cells es out kept (grows, holds, nonced) =
      (grows, (refl, Kept-Grows session file out.file r cells grows kept, holds), nonced)

  pub All-later : (attempts : List Attempt) → All Nonced attempts → All Nonced (later attempts)
  All-later [] h = tt
  All-later (a ∷ rest) h = h.1

  pub Nonced-next_attempt :
      (attempts : List Attempt) → All Nonced attempts → Nonced (next_attempt attempts)
  Nonced-next_attempt [] h = tt
  Nonced-next_attempt (a ∷ rest) h = h.0

  Moved-Grows :
      (session file : Bytes) (middle : Option Bytes) (es : List Entry) (out : Spilled)
      (grows : Grows file middle)
      → Moved session (file ++ grows.0) es out
      → Moved session file es out
  Moved-Grows session file middle es out (more, here) ((most, there), holds, nonced) =
      ((more ++ most, there ∙ ap some (append_assoc file more most)), holds, nonced)

  -- One turn of the loop, whose row is in memory.
  pub spilled_row-Moved :
      (session file : Bytes) (r : StoredRow) (rs : List StoredRow) (cells : List TypedScalar)
      (es : List Entry) (attempts : List Attempt) (after : Option Bytes)
      (place : Result StoreError (ℕ × ℕ)) (next : List Attempt → Option Bytes → Spilled)
      → Kept session (some file) r cells
      → Holds session (some file) rs es
      → All Nonced attempts
      → (grows : Grows file after)
      → ((offset size : ℕ)
          → place ≡ ok (offset, size)
          → Kept session after (in_frame r offset size) cells)
      → Moved session (file ++ grows.0) es (next attempts (some (file ++ grows.0)))
      → Moved session file ((r.key, cells) ∷ es) (spilled_row r rs attempts after place next)
  spilled_row-Moved session file r rs cells es attempts after (err e) next kept holds nonced grows
        placed moved =
      (
        grows,
        (
          refl,
          Kept-Grows session file after r cells grows kept,
          Holds-Grows session file after rs es grows holds,
        ),
        nonced,
      )
  spilled_row-Moved session file r rs cells es attempts after (ok (offset, size)) next kept holds
        nonced grows placed moved =
      let there : Kept session (some (file ++ grows.0)) (in_frame r offset size) cells =
        subst (λ x. Kept session x (in_frame r offset size) cells) grows.1
          (placed offset size refl) in
      Moved-Grows session file after ((r.key, cells) ∷ es)
        (cons_row (in_frame r offset size) (next attempts after)) grows
        (cons_row-Moved session (file ++ grows.0) (in_frame r offset size) cells es
          (next attempts after) there
          (subst (λ x. Moved session (file ++ grows.0) es (next attempts x)) (sym grows.1) moved))
