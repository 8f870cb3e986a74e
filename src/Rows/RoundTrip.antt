-- ===== src/Rows/RoundTrip.antt =====
-- Decoding gives back the row that was encoded.
use influxdb_desk.Base.{
  suc, ◌≤◌, ◌≡◌, refl, sym, ap, subst, Bool, List, [], ◌∷◌, ◌++◌, leb, length, ok, guard, >>=-eq-ok,
  ok-injective, guard-true, arith,
}
use mathlib.Core.List.{append_assoc, append-nil}
use influxdb_desk.Decimal.{Bytes, bytes_eq}
use influxdb_desk.Rows.{TypedScalar, too_large, max_uint32}
use influxdb_desk.Rows.Codec.{
  put_uint32, write_scalar, encode_scalar, encode_cells, encode_row, decode_cells, decode_row,
}
use influxdb_desk.Rows.Cells.{uint32-put_uint32, Decodes, encode_kind-Decodes}

module _ (finite_float json_token : Bytes → Bool) where
  decode_cells-head :
      (s : TypedScalar) (head tail rest : Bytes) (row : List TypedScalar)
      → Decodes finite_float json_token s head
      → decode_cells finite_float json_token (length row) (tail ++ rest) ≡ ok (row, rest)
      → decode_cells finite_float json_token (suc (length row)) ((head ++ tail) ++ rest)
        ≡ ok (s ∷ row, rest)
  unfolding decode_cells
  decode_cells-head s [] tail rest row here there = cc
  decode_cells-head s (code ∷ bytes) tail rest row here there =
      rw (append_assoc bytes tail rest, here (tail ++ rest), there) refl

  decode_cells-encode_cells :
      (row : List TypedScalar) {bytes : Bytes}
      → encode_cells finite_float json_token row ≡ ok bytes
      → (rest : Bytes)
      → decode_cells finite_float json_token (length row) (bytes ++ rest) ≡ ok (row, rest)
  unfolding encode_cells encode_scalar decode_cells
  decode_cells-encode_cells [] h rest = ap (λ x. ok ([], x ++ rest)) (sym (ok-injective h))
  decode_cells-encode_cells (s ∷ row) {bytes = bytes} h rest =
      let first = >>=-eq-ok (encode_scalar finite_float json_token s) _ h in
      let second = >>=-eq-ok (write_scalar first.0) _ first.2 in
      let third = >>=-eq-ok (encode_cells finite_float json_token row) _ second.2 in
      subst
        (λ x.
          decode_cells finite_float json_token (suc (length row)) (x ++ rest) ≡ ok (s ∷ row, rest))
        (ok-injective third.2)
        (decode_cells-head s second.0 third.0 rest row
          (encode_kind-Decodes finite_float json_token s.kind s refl first.1 second.1)
          (decode_cells-encode_cells row third.1 rest))

  -- A row that `encodeTypedRowV1` encodes is the row that `decodeTypedRowV1` reads from the bytes,
  -- whatever the library says of floats and of JSON numbers.
  pub decode_row-encode_row :
      (row : List TypedScalar) (bytes : Bytes)
      → encode_row finite_float json_token row ≡ ok bytes
      → decode_row finite_float json_token bytes ≡ ok row
  unfolding encode_row decode_row put_uint32 bytes_eq
  decode_row-encode_row row bytes h =
      let fits = >>=-eq-ok (guard (leb (length row) max_uint32) too_large) _ h in
      let small : length row ≤ max_uint32 = ground (arith, guard-true _ _ fits.1) in
      let cells = >>=-eq-ok (encode_cells finite_float json_token row) _ fits.2 in
      let all : decode_cells finite_float json_token (length row) cells.0 ≡ ok (row, []) =
        subst (λ x. decode_cells finite_float json_token (length row) x ≡ ok (row, []))
          (append-nil cells.0) (decode_cells-encode_cells row cells.1 []) in
      subst (λ x. decode_row finite_float json_token x ≡ ok row) (ok-injective cells.2)
        (rw (uint32-put_uint32 (length row) small, all) refl)
