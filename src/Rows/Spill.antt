-- ===== src/Rows/Spill.antt =====
-- What the spill file holds of the rows that `writeSpillRow` has put there.
use influxdb_desk.Base.{
  ℕ, ◌+◌, ◌-◌, ◌%◌, ◌≤◌, ◌≡◌, refl, sym, ap, ◌∙◌, subst, ◌⊎◌, inl, inr, Bool, true, false, Option,
  none, some, [], ◌++◌, leb, ◌==◌, length, take, drop, Result, ok, err, ok-injective, arith,
  take-append_left, drop-append_left, length-append,
}
use mathlib.Core.List.{append_assoc, append-nil}
use influxdb_desk.Decimal.{Bytes}
use influxdb_desk.Rows.{max_uint32}
use influxdb_desk.Rows.Codec.{put_uint32}
use influxdb_desk.Rows.Cells.{uint32-put_uint32}
use influxdb_desk.Rows.Store.{
  StoreError, StoredRow, Store, Attempt, no_nonce, broken, written, frame, put_frame, row_aad,
}
use influxdb_desk.Rows.Append.{row_ciphertext, write_spill_row, in_frame}
use influxdb_desk.Rows.Read.{open_frame, read_frame, read_memory, read_stored_row}

-- Every nonce that an attempt gets has the size asked for.
abbrev pub Nonced : Attempt → Type 0
Nonced no_nonce = Unit
Nonced (broken nonce count) = length nonce ≡ 12
Nonced (written nonce) = length nonce ≡ 12

-- The file has only grown.
abbrev pub Grows : Bytes → Option Bytes → Type 0
Grows file new = (more : Bytes) × (new ≡ some (file ++ more))

put_frame-Grows :
    (large : Bool) (file bytes : Bytes) (place : Result StoreError (ℕ × ℕ))
    → Grows file (put_frame large file bytes place).file
put_frame-Grows true file bytes place = ([], ap some (sym (append-nil file)))
put_frame-Grows false file bytes place = (bytes, refl)

put_frame-err :
    (large : Bool) (file bytes : Bytes) (e : StoreError) (x : ℕ × ℕ)
    → (put_frame large file bytes (err e)).place ≡ ok x
    → {A : Type 0} → A
put_frame-err true file bytes e x h = cc
put_frame-err false file bytes e x h = cc

frame_length-eq :
    (nonce sealed payload size : ℕ)
    → nonce ≡ 12
    → sealed ≡ payload + 16
    → payload + 32 ≤ max_uint32
    → size ≡ (4 + nonce + sealed) % 4_294_967_296
    → (size ≡ 16 + sealed) × (size ≤ max_uint32)
frame_length-eq nonce sealed payload size hn hs hp h = (omega arith, omega arith)

length-frame : (nonce c : Bytes) → length nonce ≡ 12 → length (frame nonce c) ≡ 16 + length c
unfolding put_uint32
length-frame nonce c h = omega (arith, length-append nonce c)

-- The bytes in the middle of a file, read at their offset.
read_part :
    (before middle after : Bytes)
    → (take (length middle) (drop (length before) (before ++ (middle ++ after))) ≡ middle)
      × (leb (length before + length middle) (length (before ++ (middle ++ after))) ≡ true)
read_part before middle after = (
  rw (drop-append_left before (middle ++ after)) (take-append_left middle after),
  ground (arith, length-append before (middle ++ after), length-append middle after),
)

take_twelve : (nonce c : Bytes) → length nonce ≡ 12 → take 12 (nonce ++ c) ≡ nonce
take_twelve nonce c h = subst (λ n. take n (nonce ++ c) ≡ nonce) h (take-append_left nonce c)

drop_twelve : (nonce c : Bytes) → length nonce ≡ 12 → drop 12 (nonce ++ c) ≡ c
drop_twelve nonce c h = subst (λ n. drop n (nonce ++ c) ≡ c) h (drop-append_left nonce c)

open_frame-frame :
    (open_seal : Bytes → Bytes → Bytes → Option Bytes) (nonce c aad payload : Bytes)
    → open_seal nonce c aad ≡ some payload
    → length nonce ≡ 12
    → length c ≤ max_uint32
    → open_frame open_seal aad (frame nonce c) ≡ ok payload
unfolding put_uint32
open_frame-frame open_seal nonce c aad payload opens nonced small =
    let same : (length c == length (nonce ++ c) - 12) ≡ true =
      ground (arith, length-append nonce c) in
    rw
      (
        uint32-put_uint32 (length c) small,
        same,
        take_twelve nonce c nonced,
        drop_twelve nonce c nonced,
        opens,
      )
      refl

module _ (seal : Bytes → Bytes → Bytes → Bytes) where
  -- The frame of a row stands in the file where the row says.
  abbrev pub Framed : Bytes → Option Bytes → StoredRow → Bytes → Type 0
  Framed session spill row payload =
      (before : Bytes) × (nonce : Bytes) × (after : Bytes) × (spill
        ≡ some (
            before
            ++ (frame nonce (row_ciphertext seal session nonce row.ordinal payload) ++ after)))
      × (row.frame_offset ≡ length before)
      × (row.frame_length ≡ 16 + length (row_ciphertext seal session nonce row.ordinal payload))
      × (length nonce ≡ 12)
      × (row.frame_length ≤ max_uint32)

  -- The payload can be got back: it is in memory or in the file.
  abbrev pub Readable : Bytes → Option Bytes → StoredRow → Bytes → Type 0
  Readable session spill row payload =
      (row.memory ≡ some payload) ⊎ ((row.memory ≡ none) × Framed session spill row payload)

  pub Readable-Grows :
      (session file : Bytes) (new : Option Bytes) (row : StoredRow) (payload : Bytes)
      → Grows file new
      → Readable session (some file) row payload
      → Readable session new row payload
  Readable-Grows session file new row payload grows (inl kept) = inl kept
  Readable-Grows session file new row payload (more, grown)
        (inr (away, (before, nonce, after, here, at, size, nonced, small))) =
      let c = row_ciphertext seal session nonce row.ordinal payload in
      let held : file ≡ before ++ (frame nonce c ++ after) = cc in
      let there : new ≡ some (before ++ (frame nonce c ++ (after ++ more))) =
        grown
        ∙ ap some (
            ap (λ x. x ++ more) held
            ∙ append_assoc before (frame nonce c ++ after) more
            ∙ ap (λ x. before ++ x) (append_assoc (frame nonce c) after more)) in
      inr (away, (before, nonce, after ++ more, there, at, size, nonced, small))

  pub write_spill_row-Grows :
      (session : Bytes) (attempt : Attempt) (file : Bytes) (ordinal : ℕ) (payload : Bytes)
      → Grows file (write_spill_row seal session attempt (some file) ordinal payload).file
  unfolding write_spill_row
  write_spill_row-Grows session no_nonce file ordinal payload =
      ([], ap some (sym (append-nil file)))
  write_spill_row-Grows session (broken nonce count) file ordinal payload =
      put_frame-Grows _ file _ _
  write_spill_row-Grows session (written nonce) file ordinal payload = put_frame-Grows _ file _ _

  put_frame-Readable :
      (large : Bool) (session nonce file : Bytes) (row : StoredRow) (payload : Bytes)
      (offset size : ℕ)
      → length nonce ≡ 12
      → length (row_ciphertext seal session nonce row.ordinal payload) ≡ length payload + 16
      → length payload + 32 ≤ max_uint32
      → (let c = row_ciphertext seal session nonce row.ordinal payload in
          (put_frame large file
            (frame nonce c)
            (ok (length file, (4 + length nonce + length c) % 4_294_967_296))).place)
        ≡ ok (offset, size)
      → Readable session
          (let c = row_ciphertext seal session nonce row.ordinal payload in
            (put_frame large file
              (frame nonce c)
              (ok (length file, (4 + length nonce + length c) % 4_294_967_296))).file)
          (in_frame row offset size)
          payload
  put_frame-Readable true session nonce file row payload offset size nonced sealed small placed = cc
  put_frame-Readable false session nonce file row payload offset size nonced sealed small placed =
      let c = row_ciphertext seal session nonce row.ordinal payload in
      let whole : some (file ++ frame nonce c) ≡ some (file ++ (frame nonce c ++ [])) =
        ap (λ x. some (file ++ x)) (sym (append-nil (frame nonce c))) in
      let place = ok-injective placed in
      let at : offset ≡ length file = sym (ap (λ x. x.0) place) in
      let here : size ≡ (4 + length nonce + length c) % 4_294_967_296 = sym (ap (λ x. x.1) place) in
      let fits =
        frame_length-eq (length nonce) (length c) (length payload) size nonced sealed small here in
      inr (refl, (file, nonce, [], whole, at, fits.0, nonced, fits.1))

  pub write_spill_row-Readable :
      (session : Bytes) (attempt : Attempt) (file : Bytes) (row : StoredRow) (payload : Bytes)
      (offset size : ℕ)
      → Nonced attempt
      → ((nonce aad : Bytes) → length (seal nonce payload aad) ≡ length payload + 16)
      → length payload + 32 ≤ max_uint32
      → (write_spill_row seal session attempt (some file) row.ordinal payload).place
        ≡ ok (offset, size)
      → Readable session
          (write_spill_row seal session attempt (some file) row.ordinal payload).file
          (in_frame row offset size)
          payload
  unfolding write_spill_row
  write_spill_row-Readable session no_nonce file row payload offset size nonced sealed small
        placed =
      cc
  write_spill_row-Readable session (broken nonce count) file row payload offset size nonced sealed
        small placed =
      put_frame-err _ file _ _ _ placed
  write_spill_row-Readable session (written nonce) file row payload offset size nonced sealed small
        placed =
      put_frame-Readable _ session nonce file row payload offset size nonced (sealed nonce _) small
        placed

  read_frame-Framed :
      (open_seal : Bytes → Bytes → Bytes → Option Bytes) (s : Store) (row : StoredRow)
      (payload : Bytes)
      → ((nonce aad : Bytes) → open_seal nonce (seal nonce payload aad) aad ≡ some payload)
      → Framed s.session_id s.spill row payload
      → read_frame open_seal s row s.spill ≡ ok payload
  read_frame-Framed open_seal s row payload opens
        (before, nonce, after, here, at, size, nonced, small) =
      let c = row_ciphertext seal s.session_id nonce row.ordinal payload in
      let long = length-frame nonce c nonced in
      let part = read_part before (frame nonce c) after in
      let aad = row_aad s.session_id row.ordinal in
      let whole : row.frame_length ≡ length (frame nonce c) = size ∙ sym long in
      let enough : leb 16 (length (frame nonce c)) ≡ true = ground arith in
      let short : length c ≤ max_uint32 = omega arith in
      ap (read_frame open_seal s row) here
      ∙ rw
          (
            at,
            whole,
            enough,
            part.1,
            part.0,
            open_frame-frame open_seal nonce c aad payload (opens nonce aad) nonced short,
          )
          refl

  pub read_stored_row-Readable :
      (open_seal : Bytes → Bytes → Bytes → Option Bytes) (s : Store) (row : StoredRow)
      (payload : Bytes)
      → ((nonce aad : Bytes) → open_seal nonce (seal nonce payload aad) aad ≡ some payload)
      → Readable s.session_id s.spill row payload
      → read_stored_row open_seal s row ≡ ok payload
  unfolding read_stored_row
  read_stored_row-Readable open_seal s row payload opens (inl kept) =
      ap (read_memory open_seal s row) kept
  read_stored_row-Readable open_seal s row payload opens (inr (away, framed)) =
      ap (read_memory open_seal s row) away ∙ read_frame-Framed open_seal s row payload opens framed
