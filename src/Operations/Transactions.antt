-- ===== src/Operations/Transactions.antt =====
-- internal/operation/service.go: the transactions of a dispatch, on the tables.
use influxdb_desk.Base.{
  ℕ, suc, Bool, true, false, not, ◌&&◌, ◌||◌, Option, none, some, List, [], ◌∷◌, ◌++◌, ◌==◌,
  if◌then◌else◌, is_empty, Result, ok, err, guard, or_fail, ◌>>=◌, ◌>>◌,
}
use influxdb_desk.Base.Table.{find_row, update_rows}
use influxdb_desk.Decimal.{Bytes, bytes_eq}
use influxdb_desk.Tasks
use influxdb_desk.Tasks.{Meta, Change, Tables}
use influxdb_desk.Tasks.Words.{queued, dispatching}
use influxdb_desk.Tasks.Repository.{get}
use influxdb_desk.Tasks.Apply.{apply_in_tx}
use influxdb_desk.Operations.{
  Error, not_found, state_conflict, task_error, store_failed, Row, Audit, Db, Operation,
}
use influxdb_desk.Operations.Words.{mutation, state_change}

abbrev pub from_tasks {ℓ} : {A : Type ℓ} → Result Tasks.Error A → Result Error A
from_tasks (err e) = err (task_error e)
from_tasks (ok v) = ok v

-- `WithImmediate`: a transaction, where the database accepts one.
abbrev pub with_immediate {ℓ} : {A : Type ℓ} → Bool → Result Error A → Result Error A
with_immediate true tx = tx
with_immediate false tx = err store_failed

abbrev pub is_operation : Bytes → Row → Bool
is_operation id r = bytes_eq r.operation_id id

abbrev pub known_task : Result Tasks.Error Meta → Result Error Meta
known_task (ok m) = ok m
known_task (err Tasks.not_found) = err not_found
known_task (err e) = err (task_error e)

abbrev pub operation_of : Meta → Row → Operation
operation_of m r = record {
  task = m;
  profile_id = r.profile_id;
  profile_revision = r.profile_revision;
  connection_id = r.connection_id;
  connection_generation = r.connection_generation;
  protection_revision = r.protection_revision;
  action_digest = r.action_digest;
  operation_kind = r.operation_kind;
  dispatch_attempted = r.dispatch_attempted;
  cancel_requested = r.cancel_requested;
  replayed = false;
}

-- `getInTx`
unfoldable pub get_in_tx : Bytes → Db → Result Error Operation
get_in_tx id db = do
  m ← known_task (get id db.core)
  r ← or_fail (find_row (is_operation id) db.operations) not_found
  ok (operation_of m r)

unfoldable pub count_rows : (Row → Bool) → List Row → ℕ
count_rows p [] = 0
count_rows p (r ∷ rest) = let n = count_rows p rest in if p r then suc n else n

-- `UPDATE operations … WHERE operation_id=? AND state=?`, and its `RowsAffected`.
abbrev pub in_state : Bytes → Bytes → Row → Bool
in_state id state r = is_operation id r && bytes_eq r.state state

unfoldable pub update_operation : Bytes → Bytes → (Row → Row) → Db → Result Error Db
unfolding count_rows
update_operation id previous f db = do
  guard (count_rows (in_state id previous) db.operations == 1) state_conflict
  ok (record db { operations = update_rows (in_state id previous) f db.operations })

abbrev pub audit_of : Bytes → Bytes → Bytes → Bytes → Row → Audit
audit_of action outcome correlation now r = record {
  category = mutation;
  action = action;
  target_id = r.operation_id;
  target_digest = r.action_digest;
  outcome = outcome;
  correlation_id = correlation;
  occurred_at = now;
}

abbrev pub add_audit : Option Audit → Db → Db
add_audit none db = db
add_audit (some a) db = record db { audits = db.audits ++ (a ∷ []) }

abbrev pub audit_row : Bytes → Bytes → Option Row → Option Audit
audit_row outcome now none = none
audit_row outcome now (some r) = some (audit_of r.operation_kind outcome r.operation_id now r)

-- The insert into `audit_events` of `transition` and `finish`, of the operation's kind.
unfoldable pub audit_operation : Bytes → Bytes → Bytes → Db → Db
audit_operation id outcome now db =
    add_audit (audit_row outcome now (find_row (is_operation id) db.operations)) db

abbrev pub with_core : Db → Tables → Db
with_core db core = record db { core = core }

abbrev pub moved : Bytes → Bool → Bytes → Change
moved state terminal change_type = record {
  state = state;
  terminal = terminal;
  state_changed = true;
  change_type = change_type;
  public_error_code = none;
  public_safe_message = none;
  archived = none;
  result_available = none;
}

abbrev pub attempt : Bytes → Bytes → Row → Row
attempt state now r = record r {
  state = state;
  dispatch_attempted = r.dispatch_attempted || bytes_eq state dispatching;
  updated_at = now;
}

-- `transition`
unfoldable pub transition : Bytes → Bytes → Bool → Bytes → Bytes → Bytes → Db → Result Error Db
unfolding update_operation audit_operation
transition id state terminal change_type outcome now db = do
  current ← from_tasks (get id db.core)
  guard
      (not (
        current.terminal
        || not (bytes_eq current.state queued)
        || not (bytes_eq state dispatching)))
      state_conflict
  updated ← from_tasks (apply_in_tx current (moved state terminal change_type) now db.core)
  marked ← update_operation id queued (attempt state now) (with_core db updated.0)
  ok (audit_operation id outcome now marked)

-- The code and message are set together, where there is a code.
abbrev pub public_part : Bytes → Bytes → Option Bytes
public_part code text = if is_empty code then none else some text

abbrev pub finished : Bytes → Bytes → Bytes → Change
finished state code message = record (moved state true state_change) {
  public_error_code = public_part code code;
  public_safe_message = public_part code message;
}

abbrev pub set_state : Bytes → Bytes → Row → Row
set_state state now r = record r { state = state; updated_at = now }

abbrev pub finish_open : Meta → Bytes → Bytes → Bytes → Bytes → Bytes → Bytes → Db → Result Error Db
finish_open current id state code message outcome now db = do
  updated ← from_tasks (apply_in_tx current (finished state code message) now db.core)
  marked ← update_operation id current.state (set_state state now) (with_core db updated.0)
  ok (audit_operation id outcome now marked)

-- `finish`
unfoldable pub finish : Bytes → Bytes → Bytes → Bytes → Bytes → Bytes → Db → Result Error Db
unfolding update_operation audit_operation
finish id state code message outcome now db = do
  current ← from_tasks (get id db.core)
  if current.terminal then ok db else finish_open current id state code message outcome now db
