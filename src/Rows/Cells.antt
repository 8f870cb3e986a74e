-- ===== src/Rows/Cells.antt =====
-- Each encoded cell of a row is decoded to itself, whatever follows.
use influxdb_desk.Base.{
  ℕ, ◌/◌, ◌%◌, ◌≤◌, ◌≡◌, refl, sym, ap, ◌∙◌, subst, Bool, true, false, ◌&&◌, Option, none, some, [],
  ◌∷◌, ◌++◌, ltb, is_empty, length, ok, guard, >>=-eq-ok, ok-injective, guard-true, arith,
  take-append_left, drop-append_left, length-append,
}
use mathlib.Core.List.{append_assoc}
use influxdb_desk.Decimal.{Bytes}
use influxdb_desk.Rows.{
  ScalarKind, null_kind, string_kind, boolean_kind, timestamp_ns_kind, int64_kind, uint64_kind,
  float64_kind, numeric_text_kind, other_kind, TypedScalar, unexpected_value, no_boolean,
  not_json_number, max_uint32, number, null_scalar, string_scalar, boolean_scalar,
}
use influxdb_desk.Rows.Codec.{
  put_uint32, uint32, is_none, prefixed, write_scalar, bit, encode_boolean, canonical,
  validate_numeric, encode_number, encode_kind, encode_scalar, read_length_prefixed,
  prefixed_scalar, decode_prefixed, checked, decode_code,
}

pub uint32-put_uint32 :
    (n : ℕ)
    → n ≤ max_uint32
    → uint32 (n / 16_777_216 % 256) (n / 65_536 % 256) (n / 256 % 256) (n % 256) ≡ n
uint32-put_uint32 n h = omega arith

ltb-length-append : (p rest : Bytes) → ltb (length (p ++ rest)) (length p) ≡ false
ltb-length-append p rest = ground (arith, length-append p rest)

is_empty-nil : (xs : Bytes) → is_empty xs ≡ true → xs ≡ []
is_empty-nil [] h = refl
is_empty-nil (x ∷ xs) h = ground arith

is_none-none : (b : Option Bool) → is_none b ≡ true → b ≡ none
is_none-none none h = refl
is_none-none (some b) h = ground arith

read_length_prefixed-put :
    (p rest : Bytes)
    → length p ≤ max_uint32
    → read_length_prefixed (put_uint32 (length p) ++ (p ++ rest)) ≡ ok (p, rest)
unfolding read_length_prefixed put_uint32
read_length_prefixed-put p rest h =
    rw
      (
        uint32-put_uint32 (length p) h,
        ltb-length-append p rest,
        take-append_left p rest,
        drop-append_left p rest,
      )
      refl

-- A scalar is its four fields.
fields :
    (s : TypedScalar) {k : ScalarKind} {d t : Bytes} {b : Option Bool}
    → s.kind ≡ k
    → s.decimal_text ≡ d
    → s.string_value ≡ t
    → s.boolean_value ≡ b
    → s ≡ record { kind = k; decimal_text = d; string_value = t; boolean_value = b }
fields s hk hd ht hb =
    λ i. record { kind = hk i; decimal_text = hd i; string_value = ht i; boolean_value = hb i }

number-eq :
    (s : TypedScalar)
    → (is_empty s.string_value && is_none s.boolean_value) ≡ true
    → s ≡ number s.kind s.decimal_text
number-eq s h =
    fields s refl refl (is_empty-nil s.string_value (ground arith))
      (is_none-none s.boolean_value (ground arith))

prefixed-eq :
    (code : ℕ) (t : Bytes) {bytes : Bytes}
    → prefixed code t ≡ ok bytes
    → (length t ≤ max_uint32) × (bytes ≡ code ∷ put_uint32 (length t) ++ t)
prefixed-eq code t h = ground arith

module _ (finite_float json_token : Bytes → Bool) where
  -- The bytes are those of the scalar: they decode to it, whatever follows.
  abbrev pub Decodes : TypedScalar → Bytes → Type 0
  Decodes s [] = true ≡ false
  Decodes s (code ∷ bytes) =
      (rest : Bytes) → decode_code finite_float json_token code (bytes ++ rest) ≡ ok (s, rest)

  Decodes-null : Decodes null_scalar (1 ∷ [])
  unfolding decode_code
  Decodes-null rest = refl

  Decodes-boolean : (b : Bool) → Decodes (boolean_scalar b) (3 ∷ bit b ∷ [])
  unfolding decode_code
  Decodes-boolean true rest = refl
  Decodes-boolean false rest = refl

  decode_prefixed-put :
      (code : ℕ) (t : Bytes) (s : TypedScalar) (rest : Bytes)
      → length t ≤ max_uint32
      → prefixed_scalar finite_float json_token code t ≡ ok s
      → decode_prefixed finite_float json_token code ((put_uint32 (length t) ++ t) ++ rest)
        ≡ ok (s, rest)
  decode_prefixed-put code t s rest fits scalar =
      rw (append_assoc (put_uint32 (length t)) t rest, read_length_prefixed-put t rest fits, scalar)
        refl

  -- A cell whose code has a length-prefixed payload, which is read back.
  Decodes-payload :
      (code : ℕ) (t : Bytes) (s : TypedScalar) {bytes : Bytes}
      → ((rest : Bytes)
          → decode_code finite_float json_token code rest
            ≡ decode_prefixed finite_float json_token code rest)
      → prefixed_scalar finite_float json_token code t ≡ ok s
      → prefixed code t ≡ ok bytes
      → Decodes s bytes
  Decodes-payload code t s reads scalar writes =
      let fits = prefixed-eq code t writes in
      subst (Decodes s) (sym fits.1) λ rest.
        reads ((put_uint32 (length t) ++ t) ++ rest)
        ∙ decode_prefixed-put code t s rest fits.0 scalar

  -- What `encodeScalarV1` has accepted as a number.
  encode_number-eq :
      (code : ℕ) (s : TypedScalar) {cell : ℕ × Bytes}
      → encode_number finite_float json_token code s ≡ ok cell
      → (cell ≡ (code, s.decimal_text)) × (s ≡ number s.kind s.decimal_text)
  unfolding validate_numeric
  encode_number-eq code s h =
      let valid =
        >>=-eq-ok (validate_numeric finite_float json_token s) (λ _. ok (code, s.decimal_text)) h in
      let clean =
        >>=-eq-ok (guard (is_empty s.string_value && is_none s.boolean_value) unexpected_value)
          (λ _. canonical finite_float json_token s) valid.1 in
      (ground arith, number-eq s (guard-true _ _ clean.1))

  Decodes-number :
      (code : ℕ) (s : TypedScalar) {cell : ℕ × Bytes} {bytes : Bytes}
      → ((rest : Bytes)
          → decode_code finite_float json_token code rest
            ≡ decode_prefixed finite_float json_token code rest)
      → ((t : Bytes)
          → prefixed_scalar finite_float json_token code t
            ≡ checked code
                (number s.kind t)
                (encode_scalar finite_float json_token (number s.kind t)))
      → ((t : Bytes) → write_scalar (code, t) ≡ prefixed code t)
      → encode_scalar finite_float json_token s ≡ ok cell
      → (cell ≡ (code, s.decimal_text)) × (s ≡ number s.kind s.decimal_text)
      → write_scalar cell ≡ ok bytes
      → Decodes s bytes
  Decodes-number code s {cell = cell} reads scalars writes encodes p written =
      let again : encode_scalar finite_float json_token (number s.kind s.decimal_text)
          ≡ ok (code, s.decimal_text) =
        subst (λ x. encode_scalar finite_float json_token x ≡ ok cell) p.1 encodes ∙ ap ok p.0 in
      let same : checked code (number s.kind s.decimal_text) (ok (code, s.decimal_text))
          ≡ ok (number s.kind s.decimal_text) =
        ground arith in
      Decodes-payload code s.decimal_text s reads
        (scalars s.decimal_text
          ∙ ap (checked code (number s.kind s.decimal_text)) again
          ∙ same
          ∙ ap ok (sym p.1))
        (sym (writes s.decimal_text) ∙ ap write_scalar (sym p.0) ∙ written)

  -- By the kind of the scalar, for the kinds that stand for numbers.
  Decodes-number_kind :
      (code : ℕ) (k : ScalarKind) (s : TypedScalar) {cell : ℕ × Bytes} {bytes : Bytes}
      → s.kind ≡ k
      → ((rest : Bytes)
          → decode_code finite_float json_token code rest
            ≡ decode_prefixed finite_float json_token code rest)
      → ((t : Bytes)
          → prefixed_scalar finite_float json_token code t
            ≡ checked code (number k t) (encode_scalar finite_float json_token (number k t)))
      → ((t : Bytes) → write_scalar (code, t) ≡ prefixed code t)
      → encode_kind finite_float json_token k s ≡ ok cell
      → (cell ≡ (code, s.decimal_text)) × (s ≡ number s.kind s.decimal_text)
      → write_scalar cell ≡ ok bytes
      → Decodes s bytes
  unfolding encode_scalar
  Decodes-number_kind code k s {cell = cell} hk reads scalars writes accepted =
      Decodes-number code s reads
        (λ t.
          scalars t
          ∙ ap (λ x. checked code (number x t) (encode_scalar finite_float json_token (number x t)))
              (sym hk))
        writes (subst (λ x. encode_kind finite_float json_token x s ≡ ok cell) (sym hk) accepted)

  -- The three kinds that carry no number.
  Decodes-null_kind :
      (s : TypedScalar) {cell : ℕ × Bytes} {bytes : Bytes}
      → s.kind ≡ null_kind
      → encode_kind finite_float json_token null_kind s ≡ ok cell
      → write_scalar cell ≡ ok bytes
      → Decodes s bytes
  unfolding write_scalar
  Decodes-null_kind s {bytes = bytes} hk accepted written =
      let clean =
        >>=-eq-ok
          (guard (is_empty s.decimal_text && is_empty s.string_value && is_none s.boolean_value)
            unexpected_value)
          (λ _. ok (1, [])) accepted in
      let test = guard-true _ _ clean.1 in
      let here : s ≡ null_scalar =
        fields s hk (is_empty-nil s.decimal_text (ground arith))
          (is_empty-nil s.string_value (ground arith))
          (is_none-none s.boolean_value (ground arith)) in
      let there : bytes ≡ 1 ∷ [] =
        sym (ok-injective (ap write_scalar (ok-injective clean.2) ∙ written)) in
      subst (λ x. Decodes x bytes) (sym here) (subst (Decodes null_scalar) (sym there) Decodes-null)

  Decodes-string_kind :
      (s : TypedScalar) {cell : ℕ × Bytes} {bytes : Bytes}
      → s.kind ≡ string_kind
      → encode_kind finite_float json_token string_kind s ≡ ok cell
      → write_scalar cell ≡ ok bytes
      → Decodes s bytes
  unfolding write_scalar decode_code prefixed_scalar
  Decodes-string_kind s {bytes = bytes} hk accepted written =
      let clean =
        >>=-eq-ok (guard (is_empty s.decimal_text && is_none s.boolean_value) unexpected_value)
          (λ _. ok (2, s.string_value)) accepted in
      let test = guard-true _ _ clean.1 in
      let here : s ≡ string_scalar s.string_value =
        fields s hk (is_empty-nil s.decimal_text (ground arith)) refl
          (is_none-none s.boolean_value (ground arith)) in
      Decodes-payload 2 s.string_value s (λ rest. refl) (ap ok (sym here))
        (ap write_scalar (ok-injective clean.2) ∙ written)

  Decodes-boolean_kind :
      (b : Option Bool) (s : TypedScalar) {cell : ℕ × Bytes} {bytes : Bytes}
      → s.kind ≡ boolean_kind
      → s.boolean_value ≡ b
      → encode_boolean b (is_empty s.decimal_text && is_empty s.string_value) ≡ ok cell
      → write_scalar cell ≡ ok bytes
      → Decodes s bytes
  unfolding write_scalar
  Decodes-boolean_kind none s hk hb accepted written = cc
  Decodes-boolean_kind (some b) s {bytes = bytes} hk hb accepted written =
      let clean =
        >>=-eq-ok (guard (is_empty s.decimal_text && is_empty s.string_value) no_boolean)
          (λ _. ok (3, bit b ∷ [])) accepted in
      let test = guard-true _ _ clean.1 in
      let here : s ≡ boolean_scalar b =
        fields s hk (is_empty-nil s.decimal_text (ground arith))
          (is_empty-nil s.string_value (ground arith)) hb in
      let there : bytes ≡ 3 ∷ bit b ∷ [] =
        sym (ok-injective (ap write_scalar (ok-injective clean.2) ∙ written)) in
      subst (λ x. Decodes x bytes) (sym here)
        (subst (Decodes (boolean_scalar b)) (sym there) (Decodes-boolean b))

  numeric_text-eq :
      (s : TypedScalar) {cell : ℕ × Bytes}
      → encode_kind finite_float json_token numeric_text_kind s ≡ ok cell
      → (cell ≡ (8, s.decimal_text)) × (s ≡ number s.kind s.decimal_text)
  numeric_text-eq s accepted =
      let clean =
        >>=-eq-ok
          (guard (is_empty s.string_value && is_none s.boolean_value && json_token s.decimal_text)
            not_json_number)
          (λ _. ok (8, s.decimal_text)) accepted in
      let test = guard-true _ _ clean.1 in (sym (ok-injective clean.2), number-eq s (ground arith))

  pub encode_kind-Decodes :
      (k : ScalarKind) (s : TypedScalar) {cell : ℕ × Bytes} {bytes : Bytes}
      → s.kind ≡ k
      → encode_kind finite_float json_token k s ≡ ok cell
      → write_scalar cell ≡ ok bytes
      → Decodes s bytes
  unfolding decode_code prefixed_scalar write_scalar encode_scalar
  encode_kind-Decodes null_kind s hk accepted = Decodes-null_kind s hk accepted
  encode_kind-Decodes string_kind s hk accepted = Decodes-string_kind s hk accepted
  encode_kind-Decodes boolean_kind s hk accepted =
      Decodes-boolean_kind s.boolean_value s hk refl accepted
  encode_kind-Decodes timestamp_ns_kind s hk accepted =
      Decodes-number_kind 4 timestamp_ns_kind s hk (λ _. refl) (λ _. refl) (λ _. refl) accepted
        (encode_number-eq 4 s accepted)
  encode_kind-Decodes int64_kind s hk accepted =
      Decodes-number_kind 5 int64_kind s hk (λ _. refl) (λ _. refl) (λ _. refl) accepted
        (encode_number-eq 5 s accepted)
  encode_kind-Decodes uint64_kind s hk accepted =
      Decodes-number_kind 6 uint64_kind s hk (λ _. refl) (λ _. refl) (λ _. refl) accepted
        (encode_number-eq 6 s accepted)
  encode_kind-Decodes float64_kind s hk accepted =
      Decodes-number_kind 7 float64_kind s hk (λ _. refl) (λ _. refl) (λ _. refl) accepted
        (encode_number-eq 7 s accepted)
  encode_kind-Decodes numeric_text_kind s hk accepted =
      Decodes-number_kind 8 numeric_text_kind s hk (λ _. refl) (λ _. refl) (λ _. refl) accepted
        (numeric_text-eq s accepted)
  encode_kind-Decodes other_kind s hk accepted = cc
