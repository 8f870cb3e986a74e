-- ===== src/Lp/RoundTrip.antt =====
-- The importer reads back the series that the exporter writes.
use influxdb_desk.Base.{
  ℕ, ◌≡◌, refl, sym, ap, ◌∙◌, inl, inr, Bool, true, false, not, ◌||◌, some, List, [], ◌∷◌, ◌++◌,
  ◌==◌, is_empty, All, Result, ok, guard, arith, Bool-cases, >>=-eq-ok, ok-injective, guard-true,
}
use mathlib.Core.List.{append_assoc, append-nil, map}
use influxdb_desk.Decimal.{Bytes}
use influxdb_desk.Lp.{
  Error, invalid_point, backslash, is_measurement_special, is_tag_special, escape, breaks_line,
  Tags, sorted_tags, tag_text, encode_tags, encode_series, cut_unescaped, end_part, split_escaped,
  unescape, has_key, clean, unescape_token, parse_tag, parse_tags, parse_series,
}

pub plain-distinct :
    (special : ℕ → Bool) (c d : ℕ) → special d ≡ true → special c ≡ false → (c == d) ≡ false
plain-distinct special c d h plain = elim (Bool-cases (c == d)) [
  | inl same ↦
      let e : c ≡ d = ground arith in
      let contrary : false ≡ true = sym plain ∙ ap special e ∙ h in cc
  | inr other ↦ other
]

-- Reading an escaped text gives it back.
unescape-escape :
    (special : ℕ → Bool) (text : Bytes)
    → special backslash ≡ true
    → unescape special false (escape special text) ≡ ok text
unfolding unescape escape
unescape-escape special [] h = refl
unescape-escape special (c ∷ cs) h = elim (Bool-cases (special c)) [
  | inl escaped ↦ rw (escaped, escaped, unescape-escape special cs h) refl
  | inr plain ↦
      rw (plain, plain-distinct special c backslash h plain, unescape-escape special cs h) refl
]

-- An unescaped byte is found behind an escaped text.
pub cut_unescaped-escape :
    (special : ℕ → Bool) (target : ℕ) (text rest : Bytes)
    → special backslash ≡ true
    → special target ≡ true
    → (target == backslash) ≡ false
    → cut_unescaped false target (escape special text ++ (target ∷ rest))
      ≡ some (escape special text, rest)
unfolding cut_unescaped escape
cut_unescaped-escape special target [] rest h t apart =
    let same : (target == target) ≡ true = ground arith in rw (apart, same) refl
cut_unescaped-escape special target (c ∷ cs) rest h t apart = elim (Bool-cases (special c)) [
  | inl escaped ↦ rw (escaped, cut_unescaped-escape special target cs rest h t apart) refl
  | inr plain ↦
      rw
        (
          plain,
          plain-distinct special c backslash h plain,
          plain-distinct special c target t plain,
          cut_unescaped-escape special target cs rest h t apart,
        )
        refl
]

-- An escaped text is no end of a part.
split_escaped-escape :
    (special : ℕ → Bool) (separator : ℕ) (part text rest : Bytes)
    → special backslash ≡ true
    → special separator ≡ true
    → split_escaped false part separator (escape special text ++ rest)
      ≡ split_escaped false (part ++ escape special text) separator rest
unfolding split_escaped escape
split_escaped-escape special separator part [] rest h t =
    ap (λ p. split_escaped false p separator rest) (sym (append-nil part))
split_escaped-escape special separator part (c ∷ cs) rest h t = elim (Bool-cases (special c)) [
  | inl escaped ↦
      rw
        (
          escaped,
          split_escaped-escape special separator ((part ++ (backslash ∷ [])) ++ (c ∷ [])) cs rest h
              t,
        )
        (ap (λ p. split_escaped false p separator rest)
          (append_assoc (part ++ (backslash ∷ [])) (c ∷ []) (escape special cs)
            ∙ append_assoc part (backslash ∷ []) (c ∷ escape special cs)))
  | inr plain ↦
      rw
        (
          plain,
          plain-distinct special c backslash h plain,
          plain-distinct special c separator t plain,
          split_escaped-escape special separator (part ++ (c ∷ [])) cs rest h t,
        )
        (ap (λ p. split_escaped false p separator rest)
          (append_assoc part (c ∷ []) (escape special cs)))
]

escape-is_empty :
    (special : ℕ → Bool) (text : Bytes)
    → is_empty text ≡ false
    → is_empty (escape special text) ≡ false
unfolding escape
escape-is_empty special [] h = h
escape-is_empty special (c ∷ cs) h = elim (Bool-cases (special c)) [
  | inl escaped ↦ rw escaped refl
  | inr plain ↦ rw plain refl
]

split_escaped-tag_text :
    (part rest : Bytes) (tag : Bytes × Bytes)
    → split_escaped false part b',' (tag_text tag ++ rest)
      ≡ split_escaped false (part ++ tag_text tag) b',' rest
unfolding split_escaped
split_escaped-tag_text part rest (key, value) =
    let k = escape is_tag_special key in
    let v = escape is_tag_special value in
    ap (split_escaped false part b',') (append_assoc k (b'=' ∷ v) rest)
    ∙ split_escaped-escape is_tag_special b',' part key (b'=' ∷ (v ++ rest)) refl refl
    ∙ split_escaped-escape is_tag_special b',' ((part ++ k) ++ (b'=' ∷ [])) value rest refl refl
    ∙ ap (λ p. split_escaped false p b',' rest)
        (append_assoc (part ++ k) (b'=' ∷ []) v ∙ append_assoc part k (b'=' ∷ v))

tag_text-is_empty : (tag : Bytes × Bytes) → is_empty (tag_text tag) ≡ false
tag_text-is_empty (key, value) = front (escape is_tag_special key)
  where
    front : (k : Bytes) → is_empty (k ++ (b'=' ∷ escape is_tag_special value)) ≡ false
    front [] = refl
    front (c ∷ cs) = refl

end_part-ok :
    (part : Bytes) (next : Result Error (List Bytes)) (parts : List Bytes)
    → is_empty part ≡ false
    → next ≡ ok parts
    → end_part part next ≡ ok (part ∷ parts)
end_part-ok [] next parts h n = cc
end_part-ok (c ∷ cs) next parts h n = rw n refl

split_escaped-encode_tags :
    (tags : Tags) (first text : Bytes)
    → is_empty first ≡ false
    → encode_tags tags ≡ ok text
    → split_escaped false first b',' text ≡ ok (first ∷ map tag_text tags)
unfolding encode_tags split_escaped
split_escaped-encode_tags [] first text h e =
    ap (split_escaped false first b',') (sym (ok-injective e)) ∙ rw h refl
split_escaped-encode_tags ((key, value) ∷ tags) first text h e =
    let fine =
      >>=-eq-ok (guard (not (is_empty key || breaks_line key || breaks_line value)) invalid_point) _
        e in
    let others = >>=-eq-ok (encode_tags tags) _ fine.2 in
    ap (split_escaped false first b',') (sym (ok-injective others.2))
    ∙ end_part-ok first (split_escaped false [] b',' (tag_text (key, value) ++ others.0))
        (map tag_text ((key, value) ∷ tags)) h
        (split_escaped-tag_text [] others.0 (key, value)
          ∙ split_escaped-encode_tags tags (tag_text (key, value)) others.0
              (tag_text-is_empty (key, value)) others.1)

-- The parts that the importer finds in the series that the exporter writes.
pub split_escaped-encode_series :
    (measurement text : Bytes) (tags : Tags)
    → encode_series measurement tags ≡ ok text
    → (is_empty measurement ≡ false)
      × (split_escaped false [] b',' text
          ≡ ok (escape is_measurement_special measurement ∷ map tag_text (sorted_tags tags)))
unfolding encode_series
split_escaped-encode_series measurement text tags h =
    let named =
      >>=-eq-ok (guard (not (is_empty measurement || breaks_line measurement)) invalid_point) _ h in
    let others = >>=-eq-ok (encode_tags (sorted_tags tags)) _ named.2 in
    let full : is_empty measurement ≡ false = ground (arith, guard-true _ _ named.1) in
    let m = escape is_measurement_special measurement in
    (
      full,
      ap (split_escaped false [] b',') (sym (ok-injective others.2))
          ∙ split_escaped-escape is_measurement_special b',' [] measurement others.0 refl refl
          ∙ split_escaped-encode_tags (sorted_tags tags) m others.0
              (escape-is_empty is_measurement_special measurement full) others.1,
    )

-- No key is there twice: each is new behind the tags before it.
abbrev pub Fresh : Tags → Tags → Type 0
Fresh before [] = Unit
Fresh before (tag ∷ tags) = (has_key tag.0 before ≡ false) × Fresh (before ++ (tag ∷ [])) tags

module _ (valid_utf8 : Bytes → Bool) where
  -- The importer takes the text, and it is not empty.
  abbrev pub Importable : Bytes → Type 0
  Importable text = (is_empty text ≡ false) × (clean valid_utf8 text ≡ true)

  abbrev pub ImportableTag : Bytes × Bytes → Type 0
  ImportableTag tag = Importable tag.0 × Importable tag.1

  pub unescape_token-escape :
      (special : ℕ → Bool) (text : Bytes)
      → special backslash ≡ true
      → clean valid_utf8 text ≡ true
      → unescape_token valid_utf8 special (escape special text) ≡ ok text
  unfolding unescape_token
  unescape_token-escape special text h fine = rw (unescape-escape special text h, fine) refl

  parse_tag-tag_text :
      (tag : Bytes × Bytes)
      → ImportableTag tag
      → parse_tag valid_utf8 (cut_unescaped false b'=' (tag_text tag)) ≡ ok tag
  parse_tag-tag_text (key, value) (k, v) =
      rw
        (
          cut_unescaped-escape is_tag_special b'=' key (escape is_tag_special value) refl refl refl,
          escape-is_empty is_tag_special key k.0,
          escape-is_empty is_tag_special value v.0,
          unescape_token-escape is_tag_special key refl k.1,
          unescape_token-escape is_tag_special value refl v.1,
          k.0,
          v.0,
        )
        refl

  parse_tags-tag_text :
      (before tags : Tags)
      → All ImportableTag tags
      → Fresh before tags
      → parse_tags valid_utf8 before (map tag_text tags) ≡ ok (before ++ tags)
  unfolding parse_tags
  parse_tags-tag_text before [] fine fresh = ap ok (sym (append-nil before))
  parse_tags-tag_text before (tag ∷ tags) fine fresh =
      rw
        (
          parse_tag-tag_text tag fine.0,
          fresh.0,
          parse_tags-tag_text (before ++ (tag ∷ [])) tags fine.1 fresh.1,
        )
        (ap ok (append_assoc before (tag ∷ []) tags))

  -- The series text that `EncodeLPPoint` writes is read by `parseStageSeries` as the measurement and
  -- the tags in the order of their keys, whatever bytes they escape. The measurement and the tags are
  -- valid UTF-8 without NUL or line ends, no tag value is empty, and no key is there twice.
  pub parse_series-encode_series :
      (measurement text : Bytes) (tags : Tags)
      → encode_series measurement tags ≡ ok text
      → clean valid_utf8 measurement ≡ true
      → All ImportableTag (sorted_tags tags)
      → Fresh [] (sorted_tags tags)
      → parse_series valid_utf8 text ≡ ok (measurement, sorted_tags tags)
  unfolding encode_series parse_series
  parse_series-encode_series measurement text tags h fine importable fresh =
      let (full, parts) = split_escaped-encode_series measurement text tags h in
      rw
        (
          parts,
          unescape_token-escape is_measurement_special measurement refl fine,
          full,
          parse_tags-tag_text [] (sorted_tags tags) importable fresh,
        )
        refl
