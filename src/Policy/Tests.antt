-- ===== src/Policy/Tests.antt =====
-- The policy on concrete statements.
use influxdb_desk.Base.{◌<◌, ◌≡◌, refl, ◌↔◌, true, false, List, [], ◌∷◌, length, All, String}
use influxdb_desk.Policy.{
  read_only, may_mutate, unsupported, select, end, measurement, subquery, Kind, Statement,
  select_statement, plain, Printer, classify_statement, classify_select, scan_from, classify_query,
}
use influxdb_desk.Policy.Batches.{Reads, classify_query-read_only, classify_query-may_mutate}
use influxdb_desk.Policy.Reads.{parts, verdict, classify_select-verdict}

abbrev printer : Printer String
printer = record { empty = ""; statement = λ s. "statement"; query = λ l. "query" }

-- SELECT … FROM (SELECT … INTO … FROM m)
abbrev nested_into : Statement
nested_into = select_statement (select false (subquery (select true (measurement end)) end)) []

-- SHOW DATABASES; SELECT … FROM m, (SELECT … FROM m)
abbrev two_reads : List Statement
two_reads =
    plain Kind.show_databases []
    ∷ select_statement (select false (measurement (subquery (select false (measurement end)) end)))
        []
    ∷ []

nested_mutates : classify_statement nested_into ≡ may_mutate
unfolding classify_statement
nested_mutates = refl

mixed_refused :
    (classify_query printer (plain Kind.show_users [] ∷ nested_into ∷ [])).classification
    ≡ unsupported
unfolding classify_query scan_from classify_statement
mixed_refused = refl

stops_at_unknown : length (classify_query printer (plain Kind.other [] ∷ two_reads)).statements ≡ 1
unfolding classify_query scan_from classify_statement
stops_at_unknown = refl

classify_query-read_only_example :
    ((classify_query printer two_reads).classification ≡ read_only)
    ↔ ((0 < length two_reads) × All Reads two_reads)
classify_query-read_only_example = classify_query-read_only printer two_reads

classify_query-may_mutate_example :
    ((classify_query printer (nested_into ∷ [])).classification ≡ may_mutate)
    ↔ ((s : Statement) × (nested_into ∷ [] ≡ s ∷ []) × (classify_statement s ≡ may_mutate))
classify_query-may_mutate_example = classify_query-may_mutate printer (nested_into ∷ [])

classify_select-verdict_example :
    classify_select (select false (subquery (select true end) end))
    ≡ verdict (parts (select false (subquery (select true end) end)))
classify_select-verdict_example =
    classify_select-verdict (select false (subquery (select true end) end))
