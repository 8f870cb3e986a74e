-- ===== src/Operations/Vetted.antt =====
-- What the mutation service may ever send: the invariant on its tokens, runs and requests.
pub mod Steps
pub mod Previewing
pub mod Calls
use influxdb_desk.Base.{◌≡◌, [], ◌∷◌, All}
use influxdb_desk.Decimal.{Bytes}
use influxdb_desk.Policy.{may_mutate, Statement, classify_statement}
use influxdb_desk.Operations.{TokenRecord, MutationQuery, Run, World}
use influxdb_desk.Operations.Preview.{Grammar, confirms}

module _ (g : Grammar) where
  -- The text is that of one statement, which the policy classifies as a mutation.
  abbrev pub OneMutation : Bytes → Type 0
  OneMutation query =
      (s : Statement) × (query ≡ g.printer.query (s ∷ [])) × (classify_statement s ≡ may_mutate)

  -- And the record asks for a confirmation exactly if the statement is of the kinds that need one.
  abbrev pub GoodRecord : TokenRecord → Type 0
  GoodRecord r =
      (s : Statement) × (r.canonical_query ≡ g.printer.query (s ∷ []))
      × (classify_statement s ≡ may_mutate)
      × (r.confirmation_required ≡ confirms s)

  abbrev pub GoodRun : Run → Type 0
  GoodRun r = GoodRecord r.record_of

  abbrev pub GoodQuery : MutationQuery → Type 0
  GoodQuery q = OneMutation q.query

  abbrev pub Vetted : World → Type 0
  Vetted w = All GoodRecord w.tokens × All GoodRun w.runs × All GoodQuery w.requests
