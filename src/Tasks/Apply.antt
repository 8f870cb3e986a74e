-- ===== src/Tasks/Apply.antt =====
-- internal/tasks/repository.go: `Apply` and `ApplyInTx`.
use influxdb_desk.Base.{
  ℕ, suc, Bool, true, false, not, ◌&&◌, ◌||◌, Option, none, some, List, [], ◌∷◌, ◌==◌,
  if◌then◌else◌, is_empty, Result, ok, guard, ◌>>=◌, ◌>>◌,
}
use influxdb_desk.Base.Table.{update_rows}
use influxdb_desk.Decimal.{Bytes, bytes_eq, increment_decimal}
use influxdb_desk.Tasks.{
  Error, revision_conflict, change_type_required, Meta, Change, Tables, validate_public_text,
}
use influxdb_desk.Tasks.Repository.{decimal, has_id, get, append_event}

abbrev pub or_else {ℓ} : {A : Type ℓ} → Option A → A → A
or_else none a = a
or_else (some b) a = b

-- `terminal_at` is set once.
abbrev pub end_time : Bool → Option Bytes → Bytes → Option Bytes
end_time true none now = some now
end_time true (some at) now = some at
end_time false at now = at

-- The task after a change, with its new revisions.
abbrev pub changed : Meta → Change → Bytes → Bytes → Bytes → Meta
changed m c snapshot_revision state_revision now = record m {
  state = if is_empty c.state then m.state else c.state;
  terminal = c.terminal;
  snapshot_revision = snapshot_revision;
  state_revision = state_revision;
  updated_at = now;
  terminal_at = end_time c.terminal m.terminal_at now;
  public_error_code = c.public_error_code;
  public_safe_message = c.public_safe_message;
  archived = or_else c.archived m.archived;
  result_available = or_else c.result_available m.result_available;
}

-- The columns that the `UPDATE` of `ApplyInTx` sets.
abbrev pub set_columns : Meta → Meta → Meta
set_columns m row = record row {
  state = m.state;
  terminal = m.terminal;
  snapshot_revision = m.snapshot_revision;
  state_revision = m.state_revision;
  updated_at = m.updated_at;
  terminal_at = m.terminal_at;
  public_error_code = m.public_error_code;
  public_safe_message = m.public_safe_message;
  archived = m.archived;
  result_available = m.result_available;
}

unfoldable pub count_rows : (Meta → Bool) → List Meta → ℕ
count_rows p [] = 0
count_rows p (m ∷ rest) = let n = count_rows p rest in if p m then suc n else n

abbrev pub next_state_revision : Bool → Bytes → Result Error Bytes
next_state_revision false revision = ok revision
next_state_revision true revision = decimal (increment_decimal revision)

-- The `WHERE` of the update.
abbrev pub is_current : Meta → Meta → Bool
is_current m row = has_id m.id row && bytes_eq row.snapshot_revision m.snapshot_revision

-- `ApplyInTx`
unfoldable pub apply_in_tx : Meta → Change → Bytes → Tables → Result Error (Tables × Meta)
unfolding validate_public_text append_event count_rows
apply_in_tx m c now db = do
  guard (not (is_empty c.change_type)) change_type_required
  validate_public_text c.public_error_code c.public_safe_message
  snapshot ← decimal (increment_decimal m.snapshot_revision)
  revision ← next_state_revision c.state_changed m.state_revision
  let next = changed m c snapshot revision now
  guard (count_rows (is_current m) db.tasks == 1) revision_conflict
  append_event next c.change_type now
      (record db { tasks = update_rows (is_current m) (set_columns next) db.tasks })

-- `Apply`: an empty revision stands for any.
unfoldable pub apply : Bytes → Bytes → Change → Bytes → Tables → Result Error (Tables × Meta)
unfolding get apply_in_tx
apply id expected c now db = do
  current ← get id db
  guard (is_empty expected || bytes_eq current.state_revision expected) revision_conflict
  apply_in_tx current c now db
