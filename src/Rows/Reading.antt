-- ===== src/Rows/Reading.antt =====
-- `ReadRows` against the list of the rows that the store has accepted.
use influxdb_desk.Base.{
  ℕ, zero, suc, ◌+◌, ◌-◌, ◌≤◌, ◌<◌, ◌≡◌, refl, sym, ap, ◌∙◌, subst, Bool, true, false, Option, some,
  List, [], ◌∷◌, ltb, leb, if◌then◌else◌, is_empty, length, take, drop, ok, err, arith,
}
use influxdb_desk.Decimal.{Bytes}
use influxdb_desk.Rows.{TypedScalar}
use influxdb_desk.Rows.RoundTrip.{decode_row-encode_row}
use influxdb_desk.Rows.Store.{
  row_count, total_rows_of, SeriesKey, key_eq, StoredRow, Store, wrap64, series_rows, store_closed,
}
use influxdb_desk.Rows.Read.{read_each, read_page, read_series, read_rows}
use influxdb_desk.Rows.Spill.{read_stored_row-Readable}
use influxdb_desk.Rows.Kept.{Entry, Kept, Holds}
use influxdb_desk.Rows.Refinement.{Represents}

-- The accepted rows of one series.
abbrev pub series_of : SeriesKey → List Entry → List (List TypedScalar)
series_of key [] = []
series_of key ((k, cells) ∷ es) =
    let rest = series_of key es in if key_eq k key then cells ∷ rest else rest

take_all : (n : ℕ) (cs : List (List TypedScalar)) → length cs ≤ n → take n cs ≡ cs
take_all zero [] h = refl
take_all zero (c ∷ cs) h = ground arith
take_all (suc n) [] h = refl
take_all (suc n) (c ∷ cs) h = ap (◌∷◌ c) (take_all n cs (omega arith))

length-drop : (n : ℕ) (cs : List (List TypedScalar)) → length (drop n cs) ≡ length cs - n
length-drop zero cs = omega arith
length-drop (suc n) [] = omega arith
length-drop (suc n) (c ∷ cs) = omega (arith, length-drop n cs)

is_empty_positive : (rs : List StoredRow) → 0 < length rs → is_empty rs ≡ false
is_empty_positive [] h = ground arith
is_empty_positive (r ∷ rs) h = refl

-- A page that is cut at the end of the series.
take_cut :
    (b : Bool) (offset limit end : ℕ) (cs : List (List TypedScalar))
    → ltb (length cs) end ≡ b
    → end ≡ offset + limit
    → offset ≤ length cs
    → take ((if b then length cs else end) - offset) (drop offset cs) ≡ take limit (drop offset cs)
take_cut true offset limit end cs test whole inside =
    let l = length-drop offset cs in
    take_all (length cs - offset) (drop offset cs) (omega arith)
    ∙ sym (take_all limit (drop offset cs) (ground arith))
take_cut false offset limit end cs test whole inside =
    ap (λ n. take n (drop offset cs)) (omega arith)

module _ (finite_float json_token : Bytes → Bool) (seal : Bytes → Bytes → Bytes → Bytes) where
  abbrev Keeps : Bytes → Option Bytes → List StoredRow → List (List TypedScalar) → Type 0
  Keeps session spill [] [] = Unit
  Keeps session spill [] (c ∷ cs) = true ≡ false
  Keeps session spill (r ∷ rs) [] = true ≡ false
  Keeps session spill (r ∷ rs) (c ∷ cs) =
      Kept finite_float json_token seal session spill r c × Keeps session spill rs cs

  Keeps-if :
      (b : Bool) (session : Bytes) (spill : Option Bytes) (r : StoredRow) (c : List TypedScalar)
      (rs : List StoredRow) (cs : List (List TypedScalar))
      → Kept finite_float json_token seal session spill r c
      → Keeps session spill rs cs
      → Keeps session spill (if b then r ∷ rs else rs) (if b then c ∷ cs else cs)
  Keeps-if true session spill r c rs cs kept rest = (kept, rest)
  Keeps-if false session spill r c rs cs kept rest = rest

  Keeps-series_rows :
      (key : SeriesKey) (session : Bytes) (spill : Option Bytes) (rs : List StoredRow)
      (es : List Entry)
      → Holds finite_float json_token seal session spill rs es
      → Keeps session spill (series_rows key rs) (series_of key es)
  Keeps-series_rows key session spill [] [] h = tt
  Keeps-series_rows key session spill [] (e ∷ es) h = cc
  Keeps-series_rows key session spill (r ∷ rs) [] h = cc
  Keeps-series_rows key session spill (r ∷ rs) ((k, cells) ∷ es) (same, kept, rest) =
      subst (λ x. Keeps session spill (series_rows key (r ∷ rs)) (series_of key ((x, cells) ∷ es)))
        same
        (Keeps-if (key_eq r.key key) session spill r cells (series_rows key rs) (series_of key es)
          kept (Keeps-series_rows key session spill rs es rest))

  Keeps-length :
      (session : Bytes) (spill : Option Bytes) (rs : List StoredRow) (cs : List (List TypedScalar))
      → Keeps session spill rs cs
      → length rs ≡ length cs
  Keeps-length session spill [] [] h = refl
  Keeps-length session spill [] (c ∷ cs) h = cc
  Keeps-length session spill (r ∷ rs) [] h = cc
  Keeps-length session spill (r ∷ rs) (c ∷ cs) h = ap suc (Keeps-length session spill rs cs h.1)

  Keeps-take :
      (n : ℕ) (session : Bytes) (spill : Option Bytes) (rs : List StoredRow)
      (cs : List (List TypedScalar))
      → Keeps session spill rs cs
      → Keeps session spill (take n rs) (take n cs)
  Keeps-take zero session spill rs cs h = tt
  Keeps-take (suc n) session spill [] [] h = tt
  Keeps-take (suc n) session spill [] (c ∷ cs) h = h
  Keeps-take (suc n) session spill (r ∷ rs) [] h = h
  Keeps-take (suc n) session spill (r ∷ rs) (c ∷ cs) h = (h.0, Keeps-take n session spill rs cs h.1)

  Keeps-drop :
      (n : ℕ) (session : Bytes) (spill : Option Bytes) (rs : List StoredRow)
      (cs : List (List TypedScalar))
      → Keeps session spill rs cs
      → Keeps session spill (drop n rs) (drop n cs)
  Keeps-drop zero session spill rs cs h = h
  Keeps-drop (suc n) session spill [] [] h = tt
  Keeps-drop (suc n) session spill [] (c ∷ cs) h = cc
  Keeps-drop (suc n) session spill (r ∷ rs) [] h = cc
  Keeps-drop (suc n) session spill (r ∷ rs) (c ∷ cs) h = Keeps-drop n session spill rs cs h.1

  -- The counts of an open store are those of the accepted rows.
  pub row_count-Represents :
      (s : Store) (es : List Entry) (key : SeriesKey)
      → Represents finite_float json_token seal s es
      → (row_count s key ≡ length (series_of key es))
        × (total_rows_of s ≡ length es)
        × (length es ≤ s.max_rows)
  unfolding row_count total_rows_of Represents
  row_count-Represents s es key (live, holds, counts) =
      let keeps = Keeps-series_rows key s.session_id s.spill s.rows es holds in
      (
        ap (λ b. if b then 0 else length (series_rows key s.rows)) live
            ∙ Keeps-length s.session_id s.spill (series_rows key s.rows) (series_of key es) keeps,
        ap (λ b. if b then 0 else s.total_rows) live ∙ counts.0,
        omega (arith, counts.0),
      )

  module _ (open_seal : Bytes → Bytes → Bytes → Option Bytes) where
    Keeps-read_each :
        (s : Store) (rs : List StoredRow) (cs : List (List TypedScalar))
        → ((nonce payload aad : Bytes)
            → open_seal nonce (seal nonce payload aad) aad ≡ some payload)
        → Keeps s.session_id s.spill rs cs
        → read_each finite_float json_token open_seal s rs ≡ ok cs
    unfolding read_each
    Keeps-read_each s [] [] opens h = refl
    Keeps-read_each s [] (c ∷ cs) opens h = cc
    Keeps-read_each s (r ∷ rs) [] opens h = cc
    Keeps-read_each s (r ∷ rs) (c ∷ cs) opens ((payload, encodes, small, readable), rest) =
        rw
          (
            read_stored_row-Readable seal open_seal s r payload
                (λ nonce aad. opens nonce payload aad) readable,
            decode_row-encode_row finite_float json_token c payload encodes,
            Keeps-read_each s rs cs opens rest,
          )
          refl

    read_page-Keeps :
        (s : Store) (rs : List StoredRow) (cs : List (List TypedScalar)) (offset end : ℕ)
        → ((nonce payload aad : Bytes)
            → open_seal nonce (seal nonce payload aad) aad ≡ some payload)
        → Keeps s.session_id s.spill rs cs
        → offset ≤ end
        → read_page finite_float json_token open_seal s rs offset end
          ≡ ok (take (end - offset) (drop offset cs), length cs)
    read_page-Keeps s rs cs offset end opens keeps order =
        let page =
          Keeps-take (end - offset) s.session_id s.spill (drop offset rs) (drop offset cs)
            (Keeps-drop offset s.session_id s.spill rs cs keeps) in
        let fine : leb offset end ≡ true = ground arith in
        rw
          (
            fine,
            Keeps-read_each s (take (end - offset) (drop offset rs))
                (take (end - offset) (drop offset cs)) opens page,
            Keeps-length s.session_id s.spill rs cs keeps,
          )
          refl

    read_series-Keeps :
        (s : Store) (rs : List StoredRow) (cs : List (List TypedScalar)) (offset limit : ℕ)
        → ((nonce payload aad : Bytes)
            → open_seal nonce (seal nonce payload aad) aad ≡ some payload)
        → Keeps s.session_id s.spill rs cs
        → 0 < length cs
        → offset ≤ length cs
        → offset + limit < 18_446_744_073_709_551_616
        → read_series finite_float json_token open_seal s rs offset limit
          ≡ ok (take limit (drop offset cs), length cs)
    read_series-Keeps s rs cs offset limit opens keeps some_rows inside small =
        let same = Keeps-length s.session_id s.spill rs cs keeps in
        let full : is_empty rs ≡ false = is_empty_positive rs (omega arith) in
        let fine : leb offset (length rs) ≡ true = ground arith in
        let end =
          if ltb (length rs) (wrap64 (offset + limit))
          then length rs
          else wrap64 (offset + limit) in
        let order : offset ≤ end = ground arith in
        let cut : take (end - offset) (drop offset cs) ≡ take limit (drop offset cs) =
          rw same
            (take_cut _ offset limit (wrap64 (offset + limit)) cs refl (omega arith) inside) in
        rw (full, fine)
          (read_page-Keeps s rs cs offset end opens keeps order ∙ ap (λ x. ok (x, length cs)) cut)

    -- Reading a page of a series gives back the rows that were accepted for it, in the order of their
    -- appends, wherever they are kept by then, and the number of them.
    pub read_rows-Represents :
        (s : Store) (es : List Entry) (key : SeriesKey) (offset limit : ℕ)
        → ((nonce payload aad : Bytes)
            → open_seal nonce (seal nonce payload aad) aad ≡ some payload)
        → Represents finite_float json_token seal s es
        → 0 < length (series_of key es)
        → offset ≤ length (series_of key es)
        → offset + limit < 18_446_744_073_709_551_616
        → read_rows finite_float json_token open_seal s key offset limit
          ≡ ok (take limit (drop offset (series_of key es)), length (series_of key es))
    unfolding read_rows Represents
    read_rows-Represents s es key offset limit opens represents some_rows inside small =
        subst
          (λ b.
            (if b
              then err store_closed
              else read_series finite_float json_token open_seal s (series_rows key s.rows) offset
                  limit)
            ≡ ok (take limit (drop offset (series_of key es)), length (series_of key es)))
          (sym represents.0)
          (read_series-Keeps s (series_rows key s.rows) (series_of key es) offset limit opens
            (Keeps-series_rows key s.session_id s.spill s.rows es represents.1) some_rows inside
            small)
