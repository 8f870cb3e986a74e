-- ===== src/Operations/Cancel.antt =====
-- internal/operation/cancel.go: the cancel command on the tables.
use influxdb_desk.Base.{
  Bool, true, false, not, ◌&&◌, ◌||◌, Option, none, some, [], ◌∷◌, if◌then◌else◌, Result, ok, guard,
  ◌>>=◌, ◌>>◌,
}
use influxdb_desk.Base.Table.{find_row}
use influxdb_desk.Decimal.{Bytes, bytes_eq, canonical_decimal}
use influxdb_desk.Tasks
use influxdb_desk.Tasks.{Meta, Change, CommandEntry, Tables}
use influxdb_desk.Tasks.Words.{operation_kind, queued, dispatching}
use influxdb_desk.Tasks.Ledger.{lookup_command, insert_command}
use influxdb_desk.Tasks.Repository.{decimal}
use influxdb_desk.Tasks.Apply.{apply_in_tx}
use influxdb_desk.RunGrant.{framed}
use influxdb_desk.Operations.{
  Error, not_found, state_conflict, invalid_command_request, task_error, Row, Db, Operation,
  CommandEnvelope,
}
use influxdb_desk.Operations.Words.{
  canceled_not_sent, cancel_requested, requested, cancel_action, cancel_scope, cancel_digest,
}
use influxdb_desk.Operations.Transactions.{
  from_tasks, is_operation, get_in_tx, update_operation, audit_of, add_audit, with_core, moved,
}

-- The normalized revision, the scope and the digest of a command.
pub record Command : Type 0 where
  pub revision : Bytes
  pub scope : Bytes
  pub digest : Bytes

-- What the two calls of `uuid.Parse`, and SHA-256 in hexadecimal, are given as.
module _ (uuid_valid : Bytes → Bool) (sha256_hex : Bytes → Bytes) where
  abbrev pub command_of : Bytes → CommandEnvelope → Bytes → Command
  command_of id request revision = record {
    revision = revision;
    scope = cancel_scope id request.command_request_id;
    digest = sha256_hex (framed (cancel_digest ∷ id ∷ revision ∷ canceled_not_sent ∷ []));
  }

  -- `validateCancelCommand`
  unfoldable pub validate_cancel_command : Bytes → CommandEnvelope → Result Error Command
  validate_cancel_command id request = do
    guard (uuid_valid id) not_found
    guard (uuid_valid request.command_request_id) invalid_command_request
    revision ← from_tasks (decimal (canonical_decimal request.expected_state_revision))
    ok (command_of id request revision)

abbrev pub replayed_operation : Operation → Operation
replayed_operation o = record o { replayed = true }

abbrev pub own_command : Bytes → CommandEntry → Bool
own_command id e = bytes_eq e.resource_kind operation_kind && bytes_eq e.resource_id id

abbrev pub replay_entry : Bytes → Db → Option CommandEntry → Result Error (Option Operation)
replay_entry id db none = ok none
replay_entry id db (some e) = do
  guard (own_command id e) (task_error Tasks.command_conflict)
  o ← get_in_tx id db
  ok (some (replayed_operation o))

-- `replayCancelCommand`
unfoldable pub replay_cancel_command : Bytes → Command → Db → Result Error (Option Operation)
unfolding get_in_tx
replay_cancel_command id c db = do
  entry ← from_tasks (lookup_command c.scope c.digest db.core)
  replay_entry id db entry

-- What `applyCancel` returns, with the tables.
pub record Cancelled : Type 0 where
  pub db : Db
  pub operation : Operation
  pub replayed : Bool
  pub applied : Bool

abbrev pub entry_of : Bytes → Command → Meta → Bytes → Bytes → CommandEntry
entry_of id c m now expires = record {
  scope = c.scope;
  request_digest = c.digest;
  resource_kind = operation_kind;
  resource_id = id;
  result_state = m.state;
  result_state_revision = m.state_revision;
  public_error_code = none;
  committed_at = now;
  expires_at = expires;
}

abbrev pub unchanged_operation : Operation → Db → Cancelled
unchanged_operation o db = record { db = db; operation = o; replayed = false; applied = false }

abbrev pub replay_of : Operation → Db → Cancelled
replay_of o db = record { db = db; operation = o; replayed = true; applied = false }

-- The state that a cancellation leads to, by whether the round trip has begun, and whether the
-- operation is in a state in which that can be.
abbrev pub cancel_change : Bool → Change
cancel_change true = moved dispatching false cancel_requested
cancel_change false = moved canceled_not_sent true canceled_not_sent

abbrev pub cancellable : Bool → Bytes → Bool
cancellable true state = bytes_eq state dispatching
cancellable false state = bytes_eq state queued || bytes_eq state dispatching

abbrev pub cancel_outcome : Bool → Bytes
cancel_outcome true = requested
cancel_outcome false = canceled_not_sent

abbrev pub mark_cancelled : Bytes → Bytes → Row → Row
mark_cancelled state now r = record r { state = state; cancel_requested = true; updated_at = now }

abbrev pub audit_cancel : Bytes → Bytes → Bytes → Bytes → Db → Db
audit_cancel id outcome request now db =
    add_audit
      (elim (find_row (is_operation id) db.operations) [
        | none ↦ none
        | some r ↦ some (audit_of cancel_action outcome request now r)
      ])
      db

abbrev pub cancelled_of : Operation → Db → Cancelled
cancelled_of o db = record { db = db; operation = o; replayed = false; applied = true }

-- The change of an open operation.
unfoldable pub cancel_open :
    Bytes → Bytes → Command → Bool → Bytes → Bytes → Meta → Db → Result Error Cancelled
unfolding update_operation get_in_tx
cancel_open id request c started now expires m db = do
  guard (cancellable started m.state) state_conflict
  let change = cancel_change started
  updated ← from_tasks (apply_in_tx m change now db.core)
  marked ← update_operation id m.state (mark_cancelled change.state now) (with_core db updated.0)
  kept ← from_tasks (insert_command (entry_of id c updated.1 now expires) marked.core)
  let audited = audit_cancel id (cancel_outcome started) request now (with_core marked kept)
  o ← get_in_tx id audited
  ok (cancelled_of o audited)

-- `insertCancelCommand`, where nothing is left to cancel.
abbrev pub note_command : Bytes → Command → Bytes → Bytes → Operation → Db → Result Error Cancelled
note_command id c now expires o db = do
  kept ← from_tasks (insert_command (entry_of id c o.task now expires) db.core)
  ok (unchanged_operation o (with_core db kept))

abbrev pub cancel_current :
    Bytes → Bytes → Command → Bool → Bool → Bytes → Bytes → Operation → Db → Result Error Cancelled
cancel_current id request c started allow_active now expires o db =
    if bytes_eq o.task.state canceled_not_sent || o.cancel_requested
    then note_command id c now expires o db
    else (do
      guard (bytes_eq o.task.state_revision c.revision) (task_error Tasks.revision_conflict)
      guard (not (o.task.terminal || not allow_active)) state_conflict
      cancel_open id request c started now expires o.task db)

abbrev pub cancel_by :
    Option CommandEntry
    → Bytes
    → Bytes
    → Command
    → Bool
    → Bool
    → Bytes
    → Bytes
    → Db
    → Result Error Cancelled
cancel_by (some e) id request c started allow_active now expires db = do
  guard (own_command id e) (task_error Tasks.command_conflict)
  o ← get_in_tx id db
  ok (replay_of o db)
cancel_by none id request c started allow_active now expires db = do
  o ← get_in_tx id db
  cancel_current id request c started allow_active now expires o db

-- `applyCancel`
unfoldable pub apply_cancel :
    Bytes → Bytes → Command → Bool → Bool → Bytes → Bytes → Db → Result Error Cancelled
unfolding get_in_tx cancel_open
apply_cancel id request c started allow_active now expires db = do
  entry ← from_tasks (lookup_command c.scope c.digest db.core)
  cancel_by entry id request c started allow_active now expires db
