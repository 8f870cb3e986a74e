-- ===== src/Operations/Execute.antt =====
-- internal/operation/service.go: `Execute`, which creates an operation for a preview token.
use influxdb_desk.Base.{
  ℕ, Bool, false, not, ◌&&◌, ◌||◌, Option, none, some, [], ◌∷◌, ◌++◌, leb, if◌then◌else◌, is_empty,
  Result, ok, err, guard, ◌>>=◌, ◌>>◌,
}
use influxdb_desk.Base.Table.{find_row, delete_rows}
use influxdb_desk.Decimal.{Bytes, bytes_eq}
use influxdb_desk.Tasks
use influxdb_desk.Tasks.{Meta, IdempotencyEntry, Tables}
use influxdb_desk.Tasks.Words.{operation_kind, queued}
use influxdb_desk.Tasks.Ledger.{lookup_idempotency, insert_idempotency}
use influxdb_desk.Tasks.Repository.{new_task, create_in_tx}
use influxdb_desk.RunGrant.{framed}
use influxdb_desk.Operations.{
  Error, preview_unavailable, preview_expired, confirmation_mismatch, task_error, Row, Db,
  Operation, TokenRecord, ExecuteRequest, Identity, World,
}
use influxdb_desk.Operations.Words.{execute_scope, execute_digest}
use influxdb_desk.Operations.Transactions.{from_tasks, with_immediate, get_in_tx, with_core}
use influxdb_desk.Operations.Service.{Outcome, has_token, purge_expired, start_run}
use influxdb_desk.Operations.Cancel.{replayed_operation}

-- `lookupIdempotency`, where something is found.
abbrev pub replay_entry : Bytes → Db → Option IdempotencyEntry → Result Error (Option Operation)
replay_entry digest db none = ok none
replay_entry digest db (some e) = do
  guard (bytes_eq e.request_digest digest) (task_error Tasks.idempotency_conflict)
  o ← get_in_tx e.resource_id db
  ok (some (replayed_operation o))

-- `lookupIdempotency`
unfoldable pub replay_execution : Bytes → Bytes → Db → Result Error (Option Operation)
unfolding lookup_idempotency get_in_tx
replay_execution scope digest db = replay_entry digest db (lookup_idempotency scope db.core)

-- `operationFromRecord`
abbrev pub operation_from_record : Meta → TokenRecord → Bytes → Operation
operation_from_record m r profile_id = record {
  task = m;
  profile_id = profile_id;
  profile_revision = r.binding.profile_revision;
  connection_id = r.binding.connection_id;
  connection_generation = r.binding.generation;
  protection_revision = r.binding.protection_revision;
  action_digest = r.action_digest;
  operation_kind = r.operation_kind;
  dispatch_attempted = false;
  cancel_requested = false;
  replayed = false;
}

abbrev pub new_row : Identity → Bytes → TokenRecord → Bytes → Row
new_row i id r now = record {
  operation_id = id;
  profile_id = i.profile_id;
  profile_revision = i.profile_revision;
  connection_id = i.connection_id;
  connection_generation = i.generation;
  protection_revision = r.binding.protection_revision;
  action_digest = r.action_digest;
  operation_kind = r.operation_kind;
  state = queued;
  dispatch_attempted = false;
  cancel_requested = false;
  created_at = now;
  updated_at = now;
}

abbrev pub entry_of : Bytes → Bytes → Bytes → Bytes → Bytes → IdempotencyEntry
entry_of scope digest id now expires = record {
  scope = scope;
  request_digest = digest;
  resource_kind = operation_kind;
  resource_id = id;
  created_at = now;
  expires_at = expires;
}

-- What the outside gives to one `Execute`: the two clock readings behind the lock, the fresh
-- identifier, the times of the ledger as texts, whether the database takes the transaction, and the
-- tables as they stood at the lookups before the lock and before the transaction.
pub record ExecuteEnv : Type 0 where
  pub purge_time : ℕ
  pub check_time : ℕ
  pub operation_id : Bytes
  pub now : Bytes
  pub ledger_expires_at : Bytes
  pub database_up : Bool
  pub before_lock : Db
  pub before_transaction : Db

-- The inserts of the transaction of `Execute`. The identifier is the primary key of `operations`.
abbrev pub insert_operation :
    Identity → ExecuteEnv → Bytes → Bytes → TokenRecord → Db → Result Error (Db × Operation)
insert_operation i env scope digest r db = do
  made ←
      from_tasks (
        create_in_tx (new_task env.operation_id operation_kind queued false env.now) env.now
          db.core)
  kept ← from_tasks (
      insert_idempotency (entry_of scope digest env.operation_id env.now env.ledger_expires_at)
        made.0)
  ok (
    record (with_core db kept) {
      operations = db.operations ++ (new_row i env.operation_id r env.now ∷ []);
    },
    operation_from_record made.1 r i.profile_id,
  )

abbrev pub execute_found :
    Option Operation
    → Identity
    → ExecuteEnv
    → Bytes
    → Bytes
    → TokenRecord
    → Db
    → Result Error (Db × Operation)
execute_found (some o) i env scope digest r db = ok (db, o)
execute_found none i env scope digest r db = insert_operation i env scope digest r db

-- The transaction of `Execute`
unfoldable pub execute_in_tx :
    Identity → ExecuteEnv → Bytes → Bytes → TokenRecord → Db → Result Error (Db × Operation)
unfolding replay_execution create_in_tx insert_idempotency
execute_in_tx i env scope digest r db = do
  found ← replay_execution scope digest db
  execute_found found i env scope digest r db

-- Behind the transaction: the token is spent, and the dispatch starts.
abbrev pub start_dispatch :
    ExecuteEnv → TokenRecord → World → Result Error (Db × Operation) → Outcome
start_dispatch env r w (err e) = (w, err e)
start_dispatch env r w (ok (db, o)) = (
  record w {
    db = db;
    tokens = delete_rows (has_token r.token) w.tokens;
    runs = start_run env.operation_id r w.runs;
  },
  ok o,
)

abbrev pub execute_record :
    Identity → ExecuteEnv → Bytes → Bytes → ExecuteRequest → World → Option TokenRecord → Outcome
execute_record i env scope digest request w none = (w, err preview_expired)
execute_record i env scope digest request w (some r) =
    if r.confirmation_required && not (bytes_eq request.confirmation r.target)
    then (w, err confirmation_mismatch)
    else if leb r.expires env.check_time
    then (
      record w { tokens = delete_rows (has_token request.preview_token) w.tokens },
      err preview_expired,
    )
    else start_dispatch env r w
        (with_immediate env.database_up (execute_in_tx i env scope digest r w.db))

abbrev pub purged : ℕ → World → World
purged now w = record w { tokens = purge_expired now w.tokens }

abbrev pub execute_locked :
    Identity
    → ExecuteEnv
    → Bytes
    → Bytes
    → ExecuteRequest
    → World
    → Result Error (Option Operation)
    → Outcome
execute_locked i env scope digest request w (err e) = (w, err e)
execute_locked i env scope digest request w (ok (some o)) = (w, ok o)
execute_locked i env scope digest request w (ok none) =
    let live = purged env.purge_time w in
    execute_record i env scope digest request live
      (find_row (has_token request.preview_token) live.tokens)

abbrev pub execute_unlocked :
    Identity
    → ExecuteEnv
    → Bytes
    → Bytes
    → ExecuteRequest
    → World
    → Result Error (Option Operation)
    → Outcome
execute_unlocked i env scope digest request w (err e) = (w, err e)
execute_unlocked i env scope digest request w (ok (some o)) = (w, ok o)
execute_unlocked i env scope digest request w (ok none) =
    execute_locked i env scope digest request w
      (replay_execution scope digest env.before_transaction)

-- `uuid.Parse` and SHA-256 in hexadecimal are the libraries'.
module _ (uuid_valid : Bytes → Bool) (sha256_hex : Bytes → Bytes) where
  -- `executeDigest`
  abbrev pub digest_of : ExecuteRequest → Bytes
  digest_of r =
      sha256_hex (framed (execute_digest ∷ sha256_hex r.preview_token ∷ r.confirmation ∷ []))

  -- `Execute`
  unfoldable pub execute : Identity → ExecuteEnv → ExecuteRequest → World → Outcome
  unfolding purge_expired execute_in_tx
  execute i env request w =
      if not (uuid_valid request.client_request_id) || is_empty request.preview_token
      then (w, err preview_unavailable)
      else (let scope = execute_scope i.profile_id request.client_request_id in
          execute_unlocked i env scope (digest_of request) request w
            (replay_execution scope (digest_of request) env.before_lock))
