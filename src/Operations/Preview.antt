-- ===== src/Operations/Preview.antt =====
-- internal/operation/service.go: `Preview`, which gives out a token for one mutation.
use influxdb_desk.Base.{
  take, ◌||◌, ◌==◌, ℕ, ◌+◌, Bool, true, false, not, Option, none, some, List, [], ◌∷◌, ltb,
  if◌then◌else◌, Result, ok, err,
}
use influxdb_desk.Base.Table.{find_row}
use influxdb_desk.Decimal.{Bytes, bytes_eq}
use influxdb_desk.Protection
use influxdb_desk.Protection.Dispatch.{DispatchBinding}
use influxdb_desk.Policy.{
  Classification, read_only, may_mutate, unsupported, Kind, Statement, plain, nil_statement,
  select_statement, explain_statement, bare_explain, Printer, classify_query,
}
use influxdb_desk.RunGrant.{framed}
use influxdb_desk.Operations.{
  Error, preview_unavailable, token_failed, protection_error, TokenRecord, Identity, World,
}
use influxdb_desk.Operations.Words.{action_digest}
use influxdb_desk.Operations.Service.{has_token, purge_expired}

-- The library's parser and printer, and the names of a statement's type and of its target.
pub record Grammar : Type 0 where
  pub parse : Bytes → Option (List Statement)
  pub printer : Printer Bytes
  pub kind_name : Statement → Bytes
  pub target_name : Statement → Bytes

-- The statements of the type switch of `mutationTarget`.
unfoldable pub confirms_kind : Kind → Bool
confirms_kind Kind.drop_database = true
confirms_kind Kind.drop_measurement = true
confirms_kind Kind.drop_retention_policy = true
confirms_kind Kind.drop_continuous_query = true
confirms_kind Kind.drop_user = true
confirms_kind Kind.delete = true
confirms_kind Kind.drop_series = true
confirms_kind Kind.delete_series = true
confirms_kind Kind.kill_query = true
confirms_kind _ = false

abbrev pub confirms : Statement → Bool
confirms nil_statement = false
confirms (select_statement s text) = false
confirms (explain_statement s text) = false
confirms (bare_explain text) = false
confirms (plain k text) = confirms_kind k

-- `PreviewRequest`
pub record PreviewRequest : Type 0 where
  pub database : Bytes
  pub retention_policy : Bytes
  pub query : Bytes

-- `Preview`; it is executable where it has a token.
pub record Shown : Type 0 where
  pub canonical_query : Bytes
  pub operation_kind : Bytes
  pub target : Bytes
  pub confirmation_required : Bool
  pub token : Option Bytes
  pub expires_at : Option ℕ

-- What the outside gives to one `Preview`: the answer of `WithGrantBinding` with the end of the
-- lease, four clock readings, and the random tokens (none where the generator fails).
pub record PreviewEnv : Type 0 where
  pub grant : Result Protection.Error (DispatchBinding × Option ℕ)
  pub request_time : ℕ
  pub check_time : ℕ
  pub purge_time : ℕ
  pub store_time : ℕ
  pub candidates : List (Option Bytes)

-- `NewService`: the life of a preview, in nanoseconds, is at most 120 seconds.
abbrev pub bounded_ttl : ℕ → ℕ
bounded_ttl ttl = if ttl == 0 || ltb 120_000_000_000 ttl then 120_000_000_000 else ttl

abbrev pub min : ℕ → ℕ → ℕ
min a b = if ltb a b then a else b

abbrev pub is_free : Bytes → List TokenRecord → Bool
is_free token tokens = elim (find_row (has_token token) tokens) [ none ↦ true | some r ↦ false ]

-- The loop that looks for an unused token among its candidates.
unfoldable pub allocate_token : List (Option Bytes) → List TokenRecord → Result Error Bytes
allocate_token [] tokens = err token_failed
allocate_token (none ∷ rest) tokens = err token_failed
allocate_token (some token ∷ rest) tokens =
    let next = allocate_token rest tokens in if is_free token tokens then ok token else next

-- `SHA-256` in hexadecimal is the library's.
module _ (sha256_hex : Bytes → Bytes) (g : Grammar) where
  -- `actionDigest`
  abbrev pub digest_of : Bytes → PreviewRequest → Bytes → DispatchBinding → Bytes
  digest_of kind request canonical b = sha256_hex (
      framed (
        action_digest ∷ kind ∷ request.database ∷ request.retention_policy ∷ canonical
        ∷ b.generation ∷ b.protection_revision ∷ []))

  abbrev pub token_record : Bytes → PreviewRequest → Shown → DispatchBinding → ℕ → TokenRecord
  token_record token request shown b expires = record {
    token = token;
    canonical_query = shown.canonical_query;
    database = request.database;
    retention_policy = request.retention_policy;
    operation_kind = shown.operation_kind;
    target = shown.target;
    confirmation_required = shown.confirmation_required;
    action_digest = digest_of shown.operation_kind request shown.canonical_query b;
    binding = b;
    expires = expires;
  }

  -- `mutationTarget`, and the preview before a token is given.
  abbrev pub shown_of : Statement → Bytes → Shown
  shown_of s canonical = record {
    canonical_query = canonical;
    operation_kind = g.kind_name s;
    target = if confirms s then g.target_name s else [];
    confirmation_required = confirms s;
    token = none;
    expires_at = none;
  }

  -- The one statement of a batch that may mutate.
  abbrev pub only_mutation : Classification → List Statement → Option Statement
  only_mutation may_mutate (s ∷ []) = some s
  only_mutation may_mutate _ = none
  only_mutation read_only _ = none
  only_mutation unsupported _ = none

  abbrev pub Outcome : Type 0
  Outcome = World × Result Error Shown

  abbrev pub stored :
      PreviewRequest → Shown → DispatchBinding → ℕ → World → Result Error Bytes → Outcome
  stored request shown b expires w (err e) = (w, err e)
  stored request shown b expires w (ok token) = (
    record w { tokens = token_record token request shown b expires ∷ w.tokens },
    ok (record shown { token = some token; expires_at = some expires }),
  )

  abbrev pub with_purged : ℕ → World → World
  with_purged now w = record w { tokens = purge_expired now w.tokens }

  abbrev pub allocated :
      PreviewEnv
      → PreviewRequest
      → Shown
      → DispatchBinding
      → ℕ
      → World
      → Result Error Bytes
      → Outcome
  allocated env request shown b expires live (err e) = (live, err e)
  allocated env request shown b expires live (ok token) =
      if not (ltb env.store_time expires)
      then (live, ok shown)
      else stored request shown b expires live (ok token)

  -- The callback of `Preview`, from the time that the token ends at.
  abbrev pub issue_until :
      PreviewEnv → PreviewRequest → Shown → DispatchBinding → ℕ → World → Outcome
  issue_until env request shown b expires w =
      if not (ltb env.check_time expires)
      then (w, ok shown)
      else (let live = with_purged env.purge_time w in
          allocated env request shown b expires live
            (allocate_token (take 4 env.candidates) live.tokens))

  abbrev pub issue :
      ℕ → PreviewEnv → PreviewRequest → Shown → DispatchBinding → Option ℕ → World → Outcome
  issue ttl env request shown b none w = (w, ok shown)
  issue ttl env request shown b (some lease) w =
      issue_until env request shown b (min lease (env.request_time + bounded_ttl ttl)) w

  -- `ErrLocked` and `ErrLeaseExpired` leave a preview without a token.
  abbrev pub refused : Protection.Error → Shown → World → Outcome
  refused Protection.locked shown w = (w, ok shown)
  refused Protection.lease_expired shown w = (w, ok shown)
  refused e shown w = (w, err (protection_error e))

  abbrev pub granted :
      Identity
      → ℕ
      → PreviewEnv
      → PreviewRequest
      → Shown
      → World
      → Result Protection.Error (DispatchBinding × Option ℕ)
      → Outcome
  granted i ttl env request shown w (err e) = refused e shown w
  granted i ttl env request shown w (ok (b, lease)) =
      if bytes_eq b.profile_revision i.profile_revision
      then issue ttl env request shown b lease w
      else (w, err (protection_error Protection.binding_mismatch))

  abbrev pub preview_statement :
      Identity → ℕ → PreviewEnv → PreviewRequest → Bytes → World → Option Statement → Outcome
  preview_statement i ttl env request canonical w none = (w, err preview_unavailable)
  preview_statement i ttl env request canonical w (some s) =
      granted i ttl env request (shown_of s canonical) w env.grant

  abbrev pub preview_parsed :
      Identity → ℕ → PreviewEnv → PreviewRequest → World → Option (List Statement) → Outcome
  preview_parsed i ttl env request w none = (w, err preview_unavailable)
  preview_parsed i ttl env request w (some statements) =
      let analysis = classify_query g.printer statements in
      preview_statement i ttl env request analysis.canonical w
        (only_mutation analysis.classification statements)

  -- `Preview`
  unfoldable pub preview : Identity → ℕ → PreviewEnv → PreviewRequest → World → Outcome
  unfolding classify_query allocate_token purge_expired
  preview i ttl env request w = preview_parsed i ttl env request w (g.parse request.query)
