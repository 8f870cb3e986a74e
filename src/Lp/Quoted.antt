-- ===== src/Lp/Quoted.antt =====
-- The importer reads back the string fields that the exporter writes.
use influxdb_desk.Base.{◌≡◌, refl, Bool, true, false, inl, inr, some, [], ◌∷◌, ◌++◌, ok, Bool-cases}
use influxdb_desk.Decimal.{Bytes}
use influxdb_desk.Lp.{
  backslash, is_string_special, escape, string_field, before_quote, decode_quoted, clean,
  decode_string,
}
use influxdb_desk.Lp.RoundTrip.{plain-distinct}

before_quote-append : (text : Bytes) → before_quote (text ++ (34 ∷ [])) ≡ some text
unfolding before_quote
before_quote-append [] = refl
before_quote-append (c ∷ []) = refl
before_quote-append (c ∷ d ∷ ds) = rw (before_quote-append (d ∷ ds)) refl

decode_quoted-escape :
    (text : Bytes) → decode_quoted false (escape is_string_special text) ≡ ok text
unfolding decode_quoted escape
decode_quoted-escape [] = refl
decode_quoted-escape (c ∷ cs) = elim (Bool-cases (is_string_special c)) [
  | inl escaped ↦ rw (escaped, decode_quoted-escape cs, escaped) refl
  | inr plain ↦
      rw
        (
          plain,
          plain-distinct is_string_special c backslash refl plain,
          plain-distinct is_string_special c 34 refl plain,
          decode_quoted-escape cs,
        )
        refl
]

-- A string field that the exporter writes is read by `decodeStageString` as its text, whatever quotes
-- and backslashes are in it. The text is valid UTF-8 without NUL or line ends.
pub decode_string-string_field :
    (valid_utf8 : Bytes → Bool) (text : Bytes)
    → clean valid_utf8 text ≡ true
    → decode_string valid_utf8 (string_field text) ≡ ok text
unfolding decode_string string_field
decode_string-string_field valid_utf8 text fine =
    rw (before_quote-append (escape is_string_special text), decode_quoted-escape text, fine) refl
