-- ===== src/Policy.antt =====
-- internal/influxql/classifier.go: the local safety policy on parsed InfluxQL. The parser is the
-- library github.com/influxdata/influxql; a statement is modelled by what the policy reads of it,
-- its type, and of a SELECT its target and its sources, and by a text that stands for all the rest
-- of it, such as names, conditions and durations, which the policy does not read. A nil pointer inside an interface counts as
-- nil, as `isNilInterface` has it.
pub mod Reads
pub mod Kinds
pub mod Batches
mod Tests
use influxdb_desk.Base.{
  ℕ, suc, ◌+◌, Bool, true, false, ◌&&◌, List, [], ◌∷◌, ◌++◌, ◌==◌, if◌then◌else◌, length,
}
use influxdb_desk.Decimal.{Bytes}

-- `Classification`
pub data Classification : Type 0 where
  read_only may_mutate unsupported : Classification

-- The statement types that the type switch of `ClassifyStatement` names, behind SELECT and EXPLAIN.
pub data Kind : Type 0 where
  show_continuous_queries show_databases show_diagnostics show_field_key_cardinality : Kind
  show_field_keys show_grants_for_user show_measurement_cardinality show_measurements : Kind
  show_queries show_retention_policies show_series_cardinality show_series show_shard_groups : Kind
  show_shards show_stats show_subscriptions show_tag_key_cardinality show_tag_keys : Kind
  show_tag_values_cardinality show_tag_values show_users : Kind
  alter_retention_policy create_continuous_query create_database create_retention_policy : Kind
  create_user delete_series delete drop_continuous_query drop_database drop_measurement : Kind
  drop_retention_policy drop_series drop_user grant_admin grant kill_query revoke_admin : Kind
  revoke set_password_user create_subscription drop_shard drop_subscription other : Kind

mutual
  -- `ast.SelectStatement`: whether it has a target (`INTO`), and its sources.
  pub data Select : Type 0 where
    select : Bool → Sources → Select

  -- `ast.Sources`. A `bare_subquery` has no statement; an `other_source` is nil or of another type.
  pub data Sources : Type 0 where
    end : Sources
    measurement : Sources → Sources
    subquery : Select → Sources → Sources
    bare_subquery : Sources → Sources
    other_source : Sources → Sources

-- `ast.Statement`. The bytes stand for what else the statement holds: two statements that the library
-- parses and prints differently are two values.
pub data Statement : Type 0 where
  nil_statement : Statement
  select_statement : Select → Bytes → Statement
  explain_statement : Select → Bytes → Statement
  bare_explain : Bytes → Statement
  plain : Kind → Bytes → Statement

-- `if classification != ReadOnly { return classification }`, and the sources behind it.
abbrev pub unless_read : Classification → Classification → Classification
unless_read read_only rest = rest
unless_read may_mutate rest = may_mutate
unless_read unsupported rest = unsupported

unfoldable mutual
  -- `classifySelect`, of a statement that is not nil
  pub classify_select : Select → Classification
  classify_select (select true sources) = may_mutate
  classify_select (select false sources) = classify_sources sources

  -- The loop of `classifySelect` over the sources
  pub classify_sources : Sources → Classification
  classify_sources end = read_only
  classify_sources (measurement rest) = classify_sources rest
  classify_sources (subquery inner rest) =
      unless_read (classify_select inner) (classify_sources rest)
  classify_sources (bare_subquery rest) = unsupported
  classify_sources (other_source rest) = unsupported

-- The lists of the type switch of `ClassifyStatement`.
unfoldable pub classify_kind : Kind → Classification
classify_kind show_continuous_queries = read_only
classify_kind show_databases = read_only
classify_kind show_diagnostics = read_only
classify_kind show_field_key_cardinality = read_only
classify_kind show_field_keys = read_only
classify_kind show_grants_for_user = read_only
classify_kind show_measurement_cardinality = read_only
classify_kind show_measurements = read_only
classify_kind show_queries = read_only
classify_kind show_retention_policies = read_only
classify_kind show_series_cardinality = read_only
classify_kind show_series = read_only
classify_kind show_shard_groups = read_only
classify_kind show_shards = read_only
classify_kind show_stats = read_only
classify_kind show_subscriptions = read_only
classify_kind show_tag_key_cardinality = read_only
classify_kind show_tag_keys = read_only
classify_kind show_tag_values_cardinality = read_only
classify_kind show_tag_values = read_only
classify_kind show_users = read_only
classify_kind create_subscription = unsupported
classify_kind drop_shard = unsupported
classify_kind drop_subscription = unsupported
classify_kind other = unsupported
classify_kind alter_retention_policy = may_mutate
classify_kind create_continuous_query = may_mutate
classify_kind create_database = may_mutate
classify_kind create_retention_policy = may_mutate
classify_kind create_user = may_mutate
classify_kind delete_series = may_mutate
classify_kind delete = may_mutate
classify_kind drop_continuous_query = may_mutate
classify_kind drop_database = may_mutate
classify_kind drop_measurement = may_mutate
classify_kind drop_retention_policy = may_mutate
classify_kind drop_series = may_mutate
classify_kind drop_user = may_mutate
classify_kind grant_admin = may_mutate
classify_kind grant = may_mutate
classify_kind kill_query = may_mutate
classify_kind revoke_admin = may_mutate
classify_kind revoke = may_mutate
classify_kind set_password_user = may_mutate

-- `ClassifyStatement`
unfoldable pub classify_statement : Statement → Classification
unfolding classify_select classify_kind
classify_statement nil_statement = unsupported
classify_statement (select_statement s text) = classify_select s
classify_statement (explain_statement s text) = classify_select s
classify_statement (bare_explain text) = unsupported
classify_statement (plain k text) = classify_kind k

-- `StatementAnalysis`, with the text that the library prints the statement as.
pub record StatementAnalysis {ℓ} (Text : Type ℓ) : Type ℓ where
  pub index : ℕ
  pub classification : Classification
  pub canonical : Text

-- `Analysis`, without the parsed query itself.
pub record Analysis {ℓ} (Text : Type ℓ) : Type ℓ where
  pub classification : Classification
  pub canonical : Text
  pub statements : List (StatementAnalysis Text)

-- `statement.String()`, `query.String()` and the empty text are the library's.
pub record Printer {ℓ} (Text : Type ℓ) : Type ℓ where
  pub empty : Text
  pub statement : Statement → Text
  pub query : List Statement → Text

-- What the loop of `ClassifyQuery` has counted; `stopped` is the `return` on its `default`.
pub record Scan {ℓ} (Text : Type ℓ) : Type ℓ where
  pub reads : ℕ
  pub mutations : ℕ
  pub seen : List (StatementAnalysis Text)
  pub stopped : Bool

module _ {ℓ} {Text : Type ℓ} (p : Printer Text) where
  abbrev pub canonical_text : Statement → Text
  canonical_text nil_statement = p.empty
  canonical_text s = p.statement s

  abbrev pub note : ℕ → Statement → Classification → StatementAnalysis Text
  note i s c = record { index = i; classification = c; canonical = canonical_text s }

  abbrev pub halt : Scan Text → StatementAnalysis Text → Scan Text
  halt acc n = record acc { seen = acc.seen ++ (n ∷ []); stopped = true }

  abbrev pub count_read : Scan Text → StatementAnalysis Text → Scan Text
  count_read acc n = record acc { reads = acc.reads + 1; seen = acc.seen ++ (n ∷ []) }

  abbrev pub count_mutation : Scan Text → StatementAnalysis Text → Scan Text
  count_mutation acc n = record acc { mutations = acc.mutations + 1; seen = acc.seen ++ (n ∷ []) }

  -- The loop of `ClassifyQuery`, on the statement classified.
  unfoldable pub scan_from : ℕ → Scan Text → List Statement → Scan Text
  scan_from i acc [] = acc
  scan_from i acc (s ∷ rest) = elim (classify_statement s) [
    | read_only ↦ scan_from (i + 1) (count_read acc (note i s read_only)) rest
    | may_mutate ↦ scan_from (i + 1) (count_mutation acc (note i s may_mutate)) rest
    | unsupported ↦ halt acc (note i s unsupported)
  ]

  -- The last switch of `ClassifyQuery`.
  abbrev pub batch_class : ℕ → ℕ → ℕ → Classification
  batch_class reads mutations n =
      if reads == n then read_only else if mutations == 1 && n == 1 then may_mutate else unsupported

  abbrev pub refused : List (StatementAnalysis Text) → Analysis Text
  refused seen = record { classification = unsupported; canonical = p.empty; statements = seen }

  abbrev pub start : Scan Text
  start = record { reads = 0; mutations = 0; seen = []; stopped = false }

  abbrev pub analysis_of : List Statement → Scan Text → Analysis Text
  analysis_of statements scan = if scan.stopped then refused scan.seen else record {
    classification = batch_class scan.reads scan.mutations (length statements);
    canonical = p.query statements;
    statements = scan.seen;
  }

  -- `ClassifyQuery`; a nil query has no statements.
  unfoldable pub classify_query : List Statement → Analysis Text
  classify_query [] = refused []
  classify_query (s ∷ rest) = analysis_of (s ∷ rest) (scan_from 0 start (s ∷ rest))
