-- ===== src/Policy/Reads.antt =====
-- internal/influxql/classifier.go: a SELECT with its subqueries as the flat list of what it reads
-- and writes, in the order of its text, and the verdict on such a list.
use influxdb_desk.Base.{◌≡◌, refl, ◌↔◌, true, false, List, [], ◌∷◌, ◌++◌, All}
use influxdb_desk.Policy.{
  Classification, read_only, may_mutate, unsupported, Select, select, Sources, end, measurement,
  subquery, bare_subquery, other_source, unless_read, classify_select, classify_sources,
}

-- A measurement that is read, a target that is written, or a source that the policy does not know.
pub data Part : Type 0 where
  table target unknown : Part

unfoldable mutual
  pub parts : Select → List Part
  parts (select true sources) = target ∷ parts_of_sources sources
  parts (select false sources) = parts_of_sources sources

  pub parts_of_sources : Sources → List Part
  parts_of_sources end = []
  parts_of_sources (measurement rest) = table ∷ parts_of_sources rest
  parts_of_sources (subquery inner rest) = parts inner ++ parts_of_sources rest
  parts_of_sources (bare_subquery rest) = unknown ∷ parts_of_sources rest
  parts_of_sources (other_source rest) = unknown ∷ parts_of_sources rest

-- The first part that is not a measurement decides.
unfoldable pub verdict : List Part → Classification
verdict [] = read_only
verdict (table ∷ rest) = verdict rest
verdict (target ∷ rest) = may_mutate
verdict (unknown ∷ rest) = unsupported

verdict-append : (xs ys : List Part) → verdict (xs ++ ys) ≡ unless_read (verdict xs) (verdict ys)
unfolding verdict
verdict-append [] ys = refl
verdict-append (table ∷ xs) ys = verdict-append xs ys
verdict-append (target ∷ xs) ys = refl
verdict-append (unknown ∷ xs) ys = refl

mutual
  unfolding classify_select classify_sources parts parts_of_sources verdict

  select_verdict : (s : Select) → classify_select s ≡ verdict (parts s)
  select_verdict (select true sources) = refl
  select_verdict (select false sources) = sources_verdict sources

  sources_verdict : (s : Sources) → classify_sources s ≡ verdict (parts_of_sources s)
  sources_verdict end = refl
  sources_verdict (measurement rest) = sources_verdict rest
  sources_verdict (subquery inner rest) =
      rw (select_verdict inner, sources_verdict rest, verdict-append) refl
  sources_verdict (bare_subquery rest) = refl
  sources_verdict (other_source rest) = refl

-- The classification of a SELECT, which walks its tree of subqueries and stops early, is the
-- verdict on the flat list of its parts.
pub classify_select-verdict : (s : Select) → classify_select s ≡ verdict (parts s)
classify_select-verdict s = select_verdict s

abbrev pub IsTable : Part → Type 0
IsTable part = part ≡ table

pub verdict-tables : (xs : List Part) → (verdict xs ≡ read_only) ↔ All IsTable xs
unfolding verdict
verdict-tables [] = (λ _. tt, λ _. refl)
verdict-tables (table ∷ xs) = (λ h. (refl, (verdict-tables xs).0 h), λ h. (verdict-tables xs).1 h.1)
verdict-tables (target ∷ xs) = (λ h. cc, λ h. cc)
verdict-tables (unknown ∷ xs) = (λ h. cc, λ h. cc)

-- A SELECT is read-only exactly when all that it names, at any depth, is a measurement that is
-- read: it has no target and no source that the policy does not know.
pub classify_select-read_only :
    (s : Select) → (classify_select s ≡ read_only) ↔ All IsTable (parts s)
classify_select-read_only s = rw (classify_select-verdict s) (verdict-tables (parts s))
