-- ===== src/Lp/Refused.antt =====
-- A series that the exporter writes and the importer refuses.
use influxdb_desk.Base.{
  ◌≡◌, refl, Bool, true, false, not, ◌||◌, some, [], ◌∷◌, ◌++◌, is_empty, ok, err, arith,
  Bool-cases,
}
use influxdb_desk.Decimal.{Bytes}
use influxdb_desk.Lp.{
  is_measurement_special, is_tag_special, escape, escape_measurement, breaks_line, sorted_tags,
  tag_text, encode_tags, encode_series, invalid_input, cut_unescaped, clean, parse_tags,
  parse_series,
}
use influxdb_desk.Lp.RoundTrip.{
  split_escaped-encode_series, cut_unescaped-escape, unescape_token-escape,
}

encode_series_one :
    (measurement key : Bytes)
    → is_empty measurement ≡ false
    → breaks_line measurement ≡ false
    → is_empty key ≡ false
    → breaks_line key ≡ false
    → (text : Bytes) × (encode_series measurement ((key, []) ∷ []) ≡ ok text)
unfolding encode_series encode_tags sorted_tags
encode_series_one measurement key a b c d =
    (escape_measurement measurement ++ (b',' ∷ (tag_text (key, []) ++ [])), rw (a, b, c, d) refl)

module _ (valid_utf8 : Bytes → Bool) where
  refused_empty_value :
      (measurement key text : Bytes)
      → encode_series measurement ((key, []) ∷ []) ≡ ok text
      → clean valid_utf8 measurement ≡ true
      → parse_series valid_utf8 text ≡ err invalid_input
  unfolding parse_series sorted_tags parse_tags escape
  refused_empty_value measurement key text h fine =
      let (full, parts) = split_escaped-encode_series measurement text ((key, []) ∷ []) h in
      let cut : cut_unescaped false b'=' (tag_text (key, []))
          ≡ some (escape is_tag_special key, []) =
        cut_unescaped-escape is_tag_special b'=' key [] refl refl refl in
      let test : not (is_empty (escape is_tag_special key) || true) ≡ false =
        ground (arith, Bool-cases (is_empty (escape is_tag_special key))) in
      rw
        (
          parts,
          unescape_token-escape valid_utf8 is_measurement_special measurement refl fine,
          full,
          cut,
          test,
        )
        refl

  -- A point whose one tag has an empty value: `EncodeLPPoint` writes its series, and `parseStageSeries`
  -- refuses what it writes. The measurement and the key are not empty and without line ends, and the
  -- importer takes the measurement.
  pub encode_series_empty_value :
      (measurement key : Bytes)
      → is_empty measurement ≡ false
      → breaks_line measurement ≡ false
      → is_empty key ≡ false
      → breaks_line key ≡ false
      → clean valid_utf8 measurement ≡ true
      → (text : Bytes) × (encode_series measurement ((key, []) ∷ []) ≡ ok text)
        × (parse_series valid_utf8 text ≡ err invalid_input)
  encode_series_empty_value measurement key some_name one_line some_key one_key fine =
      let (text, h) = encode_series_one measurement key some_name one_line some_key one_key in
      (text, h, refused_empty_value measurement key text h fine)
