-- ===== src/Tasks/Recover.antt =====
-- internal/tasks/repository.go: `RecoverCore`, after a restart of the process.
use influxdb_desk.Base.{
  ℕ, ◌+◌, Bool, true, false, not, ◌&&◌, ◌||◌, Option, none, some, List, [], ◌∷◌, if◌then◌else◌,
  Result, ok, guard, ◌>>=◌, ◌>>◌,
}
use influxdb_desk.Base.Table.{find_row, update_rows}
use influxdb_desk.Decimal.{Bytes, bytes_eq}
use influxdb_desk.Tasks.{Error, mirror_missing, Meta, Change, Mirror, Tables}
use influxdb_desk.Tasks.Words.{
  query_kind, operation_kind, export_kind, queued, dispatching, interrupted, interrupted_not_sent,
  outcome_unknown, paused_restartable, recovered, lost_on_restart, restart_message,
}
use influxdb_desk.Tasks.Ledger.{is_some}
use influxdb_desk.Tasks.Repository.{get}
use influxdb_desk.Tasks.Apply.{apply_in_tx}

-- The `WHERE` of the query.
abbrev pub recoverable : Meta → Bool
recoverable m =
    not m.terminal
    && (bytes_eq m.kind query_kind || bytes_eq m.kind operation_kind || bytes_eq m.kind export_kind)

unfoldable pub select_ids : List Meta → List Bytes
select_ids [] = []
select_ids (m ∷ rest) = let ids = select_ids rest in if recoverable m then m.id ∷ ids else ids

abbrev pub ended : Bytes → Bool → Change
ended state terminal = record {
  state = state;
  terminal = terminal;
  state_changed = true;
  change_type = recovered;
  public_error_code = none;
  public_safe_message = none;
  archived = none;
  result_available = none;
}

abbrev pub lost_query : Change
lost_query = record {
  state = interrupted;
  terminal = true;
  state_changed = true;
  change_type = recovered;
  public_error_code = some lost_on_restart;
  public_safe_message = some restart_message;
  archived = none;
  result_available = some false;
}

-- By whether the kind is a query, an operation, an export, and whether the state is `QUEUED`,
-- `DISPATCHING`; `none` is `continue`.
abbrev pub recovery_by : Bool → Bool → Bool → Bool → Bool → Option Change
recovery_by true operation export waiting sent = some lost_query
recovery_by false true export true sent = some (ended interrupted_not_sent true)
recovery_by false true export false true = some (ended outcome_unknown true)
recovery_by false true export false false = none
recovery_by false false true waiting sent = some (ended paused_restartable false)
recovery_by false false false waiting sent = none

-- The switch of `RecoverCore`.
unfoldable pub recovery : Meta → Option Change
recovery m =
    recovery_by (bytes_eq m.kind query_kind) (bytes_eq m.kind operation_kind)
      (bytes_eq m.kind export_kind) (bytes_eq m.state queued) (bytes_eq m.state dispatching)

abbrev pub is_session : Bytes → Mirror → Bool
is_session id s = bytes_eq s.session_id id

abbrev pub reflect : Meta → Mirror → Mirror
reflect m s = record {
  session_id = s.session_id;
  state = m.state;
  terminal = m.terminal;
  snapshot_revision = m.snapshot_revision;
  state_revision = m.state_revision;
  last_event_seq = m.last_event_seq;
  result_available = m.result_available;
  archived = m.archived;
  updated_at = m.updated_at;
  terminal_at = m.terminal_at;
}

-- The update of `query_sessions`, for a query.
unfoldable pub write_mirror : Bool → Meta → Tables → Result Error Tables
write_mirror false m db = ok db
write_mirror true m db = do
  guard (is_some (find_row (is_session m.id) db.mirrors)) mirror_missing
  ok (record db { mirrors = update_rows (is_session m.id) (reflect m) db.mirrors })

-- One turn of the loop: the tables, and whether a task was changed.
abbrev pub recover_by : Option Change → Meta → Bytes → Tables → Result Error (Tables × ℕ)
recover_by none m now db = ok (db, 0)
recover_by (some c) m now db = do
  updated ← apply_in_tx m c now db
  mirrored ← write_mirror (bytes_eq m.kind query_kind) updated.1 updated.0
  ok (mirrored, 1)

-- The loop, where `clock` is the time at the change of that number.
unfoldable pub recover_ids : (ℕ → Bytes) → ℕ → List Bytes → Tables → Result Error (Tables × ℕ)
unfolding get apply_in_tx write_mirror recovery
recover_ids clock count [] db = ok (db, count)
recover_ids clock count (id ∷ ids) db = do
  m ← get id db
  turn ← recover_by (recovery m) m (clock count) db
  recover_ids clock (count + turn.1) ids turn.0

-- `RecoverCore`: the tables and the number of changed tasks.
unfoldable pub recover_core : (ℕ → Bytes) → Tables → Result Error (Tables × ℕ)
unfolding select_ids recover_ids
recover_core clock db = recover_ids clock 0 (select_ids db.tasks) db
