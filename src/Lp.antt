-- ===== src/Lp.antt =====
-- internal/exportfmt/encode.go and internal/transfer/staging_lp.go: the series part and the
-- string fields of a line protocol point as the exporter writes and as the importer reads them. Texts are their bytes.
pub mod RoundTrip
pub mod Refused
pub mod Sorted
pub mod Quoted
mod Tests
use influxdb_desk.Base.{
  ℕ, zero, suc, Bool, true, false, not, ◌&&◌, ◌||◌, Option, none, some, List, [], ◌∷◌, ◌++◌, ltb,
  ◌==◌, if◌then◌else◌, is_empty, Result, ok, err, guard, or_fail, ◌>>=◌, ◌>>◌,
}
use influxdb_desk.Decimal.{Bytes, bytes_eq}

pub data Error : Type 0 where
  invalid_point invalid_input : Error

abbrev pub backslash : ℕ
backslash = 92

abbrev pub is_measurement_special : ℕ → Bool
is_measurement_special c = c == backslash || c == b',' || c == 32

abbrev pub is_tag_special : ℕ → Bool
is_tag_special c = c == backslash || c == b',' || c == b'=' || c == 32

-- `strings.NewReplacer` of bytes, each by itself behind a backslash.
unfoldable pub escape : (ℕ → Bool) → Bytes → Bytes
escape special [] = []
escape special (c ∷ cs) =
    let rest = escape special cs in if special c then backslash ∷ c ∷ rest else c ∷ rest

abbrev pub escape_measurement : Bytes → Bytes
escape_measurement = escape is_measurement_special

abbrev pub escape_tag : Bytes → Bytes
escape_tag = escape is_tag_special

-- `strings.ContainsAny(text, "\r\n")`
abbrev pub breaks_line : Bytes → Bool
breaks_line [] = false
breaks_line (c ∷ cs) = c == 13 || c == 10 || breaks_line cs

-- `a < b` on texts.
abbrev pub text_below : Bytes → Bytes → Bool
text_below a [] = false
text_below [] (y ∷ b) = true
text_below (x ∷ a) (y ∷ b) = if x == y then text_below a b else ltb x y

abbrev pub Tags : Type 0
Tags = List (Bytes × Bytes)

abbrev pub place_tag : Bytes × Bytes → Tags → Tags
place_tag tag [] = tag ∷ []
place_tag tag (first ∷ rest) =
    let later = place_tag tag rest in
    if text_below first.0 tag.0 then first ∷ later else tag ∷ first ∷ rest

-- `sortedKeys`, with the values.
unfoldable pub sorted_tags : Tags → Tags
sorted_tags [] = []
sorted_tags (tag ∷ rest) = place_tag tag (sorted_tags rest)

abbrev pub tag_text : Bytes × Bytes → Bytes
tag_text (key, value) = escape_tag key ++ (b'=' ∷ escape_tag value)

-- The loop of `EncodeLPPoint` over the tags.
unfoldable pub encode_tags : Tags → Result Error Bytes
encode_tags [] = ok []
encode_tags ((key, value) ∷ rest) = do
  guard (not (is_empty key || breaks_line key || breaks_line value)) invalid_point
  others ← encode_tags rest
  ok (b',' ∷ (tag_text (key, value) ++ others))

-- What `EncodeLPPoint` writes up to the space before the fields, behind its check of the measurement;
-- its checks of the fields and of the timestamp are left out.
unfoldable pub encode_series : Bytes → Tags → Result Error Bytes
unfolding escape sorted_tags encode_tags
encode_series measurement tags = do
  guard (not (is_empty measurement || breaks_line measurement)) invalid_point
  others ← encode_tags (sorted_tags tags)
  ok (escape_measurement measurement ++ others)

abbrev pub push : ℕ → Option (Bytes × Bytes) → Option (Bytes × Bytes)
push c none = none
push c (some (before, behind)) = some (c ∷ before, behind)

-- `findUnescapedByte`, from `escaped` on: what is before and behind the byte.
unfoldable pub cut_unescaped : Bool → ℕ → Bytes → Option (Bytes × Bytes)
cut_unescaped escaped target [] = none
cut_unescaped true target (c ∷ cs) = push c (cut_unescaped false target cs)
cut_unescaped false target (c ∷ cs) =
    let opened = cut_unescaped true target cs in
    let rest = cut_unescaped false target cs in
    if c == backslash then push c opened else if c == target then some ([], cs) else push c rest

abbrev pub end_part : Bytes → Result Error (List Bytes) → Result Error (List Bytes)
end_part [] next = err invalid_input
end_part (c ∷ cs) next = next >>= λ parts. ok ((c ∷ cs) ∷ parts)

-- `splitStageEscaped` without quotes, from `escaped` and the part so far on.
unfoldable pub split_escaped : Bool → Bytes → ℕ → Bytes → Result Error (List Bytes)
split_escaped escaped part separator [] = do
  guard (not (escaped || is_empty part)) invalid_input
  ok (part ∷ [])
split_escaped true part separator (c ∷ cs) = split_escaped false (part ++ (c ∷ [])) separator cs
split_escaped false part separator (c ∷ cs) =
    let opened = split_escaped true (part ++ (c ∷ [])) separator cs in
    let next = split_escaped false [] separator cs in
    let more = split_escaped false (part ++ (c ∷ [])) separator cs in
    if c == backslash then opened else if c == separator then end_part part next else more

-- The loop of `unescapeStageToken`, from a backslash on or not.
unfoldable pub unescape : (ℕ → Bool) → Bool → Bytes → Result Error Bytes
unescape allowed false [] = ok []
unescape allowed true [] = err invalid_input
unescape allowed true (c ∷ cs) = do
  guard (allowed c) invalid_input
  rest ← unescape allowed false cs
  ok (c ∷ rest)
unescape allowed false (c ∷ cs) =
    let opened = unescape allowed true cs in
    let next = unescape allowed false cs in
    if c == backslash then opened else next >>= λ rest. ok (c ∷ rest)

-- `strings.ContainsAny(text, "\r\n\x00")`
abbrev pub has_control : Bytes → Bool
has_control [] = false
has_control (c ∷ cs) = c == 13 || c == 10 || c == 0 || has_control cs

abbrev pub has_key : Bytes → Tags → Bool
has_key key [] = false
has_key key ((k, v) ∷ rest) = bytes_eq k key || has_key key rest

abbrev pub is_string_special : ℕ → Bool
is_string_special c = c == backslash || c == 34

-- `lpField` of a string, and `encodeStageString`.
unfoldable pub string_field : Bytes → Bytes
unfolding escape
string_field text = 34 ∷ (escape is_string_special text ++ (34 ∷ []))

-- What stands before the closing quote.
unfoldable pub before_quote : Bytes → Option Bytes
before_quote [] = none
before_quote (c ∷ []) = if c == 34 then some [] else none
before_quote (c ∷ d ∷ ds) = elim (before_quote (d ∷ ds)) [
  | none ↦ none
  | some text ↦ some (c ∷ text)
]

-- The loop of `decodeStageString`, from a backslash on or not.
unfoldable pub decode_quoted : Bool → Bytes → Result Error Bytes
decode_quoted false [] = ok []
decode_quoted true [] = err invalid_input
decode_quoted true (c ∷ cs) = do
  rest ← decode_quoted false cs
  ok (if is_string_special c then c ∷ rest else backslash ∷ c ∷ rest)
decode_quoted false (c ∷ cs) =
    let opened = decode_quoted true cs in
    let next = decode_quoted false cs in
    if c == backslash
    then opened
    else if c == 34
    then err invalid_input
    else next >>= λ rest. ok (c ∷ rest)

-- `valid_utf8` is `utf8.ValidString`.
module _ (valid_utf8 : Bytes → Bool) where
  abbrev pub clean : Bytes → Bool
  clean text = valid_utf8 text && not (has_control text)

  -- `unescapeStageToken`
  unfoldable pub unescape_token : (ℕ → Bool) → Bytes → Result Error Bytes
  unfolding unescape
  unescape_token allowed value = do
    decoded ← unescape allowed false value
    guard (clean decoded) invalid_input
    ok decoded

  -- One tag: `cut` is the part before and behind its unescaped `=`.
  abbrev pub parse_tag : Option (Bytes × Bytes) → Result Error (Bytes × Bytes)
  parse_tag none = err invalid_input
  parse_tag (some (before, behind)) = do
    guard (not (is_empty before || is_empty behind)) invalid_input
    key ← unescape_token is_tag_special before
    value ← unescape_token is_tag_special behind
    guard (not (is_empty key || is_empty value)) invalid_input
    ok (key, value)

  -- The loop of `parseStageSeries`, with the tags so far.
  unfoldable pub parse_tags : Tags → List Bytes → Result Error Tags
  unfolding unescape_token cut_unescaped
  parse_tags tags [] = ok tags
  parse_tags tags (part ∷ parts) = do
    tag ← parse_tag (cut_unescaped false b'=' part)
    guard (not (has_key tag.0 tags)) invalid_input
    parse_tags (tags ++ (tag ∷ [])) parts

  abbrev pub parse_parts : List Bytes → Result Error (Bytes × Tags)
  parse_parts [] = err invalid_input
  parse_parts (first ∷ rest) = do
    measurement ← unescape_token is_measurement_special first
    guard (not (is_empty measurement)) invalid_input
    tags ← parse_tags [] rest
    ok (measurement, tags)

  -- `parseStageSeries`
  unfoldable pub parse_series : Bytes → Result Error (Bytes × Tags)
  unfolding split_escaped parse_tags
  parse_series value = do parts ← split_escaped false [] b',' value; parse_parts parts

  -- `decodeStageString` of a value that starts with a quote.
  unfoldable pub decode_string : Bytes → Result Error Bytes
  unfolding before_quote decode_quoted
  decode_string [] = err invalid_input
  decode_string (quote ∷ value) = do
    inner ← or_fail (before_quote value) invalid_input
    decoded ← decode_quoted false inner
    guard (clean decoded) invalid_input
    ok decoded
