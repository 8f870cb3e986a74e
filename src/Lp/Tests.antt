-- ===== src/Lp/Tests.antt =====
-- The series of a point at concrete inputs.
use influxdb_desk.Base.{◌≡◌, refl, Bool, true, [], ◌∷◌, ok, err}
use influxdb_desk.Decimal.{Bytes, bytes_eq}
use influxdb_desk.Lp.{
  string_field, decode_string, invalid_input, Tags, escape, sorted_tags, encode_tags, encode_series,
  parse_series,
}
use influxdb_desk.Lp.Quoted.{decode_string-string_field}
use influxdb_desk.Lp.Refused.{encode_series_empty_value}
use influxdb_desk.Lp.RoundTrip.{parse_series-encode_series}

abbrev any : Bytes → Bool
any text = true

-- `a b`, with the tags `y==` and `x=,`.
abbrev name : Bytes
name = b'a' ∷ 32 ∷ b'b' ∷ []

abbrev two_tags : Tags
two_tags = (b'y' ∷ [], b'=' ∷ []) ∷ (b'x' ∷ [], b',' ∷ []) ∷ []

abbrev series_text : Bytes
series_text =
    b'a' ∷ 92 ∷ 32 ∷ b'b' ∷ b',' ∷ b'x' ∷ b'=' ∷ 92 ∷ b',' ∷ b',' ∷ b'y' ∷ b'=' ∷ 92 ∷ b'=' ∷ []

encodes : encode_series name two_tags ≡ ok series_text
unfolding encode_series escape sorted_tags encode_tags
encodes = refl

parse_series-encode_series_example : parse_series any series_text ≡ ok (name, sorted_tags two_tags)
unfolding sorted_tags bytes_eq
parse_series-encode_series_example =
    parse_series-encode_series any name series_text two_tags encodes refl
      (((refl, refl), (refl, refl)), (((refl, refl), (refl, refl)), tt)) (refl, (refl, tt))

encode_series_empty_value_example :
    (text : Bytes) × (encode_series name ((b'x' ∷ [], []) ∷ []) ≡ ok text)
    × (parse_series any text ≡ err invalid_input)
encode_series_empty_value_example =
    encode_series_empty_value any name (b'x' ∷ []) refl refl refl refl refl

decode_string-string_field_example :
    decode_string any (string_field (b'a' ∷ 34 ∷ 92 ∷ [])) ≡ ok (b'a' ∷ 34 ∷ 92 ∷ [])
decode_string-string_field_example = decode_string-string_field any (b'a' ∷ 34 ∷ 92 ∷ []) refl
