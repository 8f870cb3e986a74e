-- ===== src/Tasks/Repository.antt =====
-- internal/tasks/repository.go: the operations of the repository, each in its transaction.
use influxdb_desk.Base.{
  Bool, true, false, not, ◌||◌, Option, none, some, [], ◌∷◌, ◌++◌, is_empty, Result, ok, err, guard,
  or_fail, ◌>>=◌, ◌>>◌,
}
use influxdb_desk.Base.Table.{find_row, update_rows}
use influxdb_desk.Decimal.{Bytes, bytes_eq, canonical_decimal, increment_decimal}
use influxdb_desk.Tasks.{
  Error, not_found, idempotency_conflict, invalid_decimal, invalid_request, expiry_required,
  store_failed, Meta, Event, CreateRequest, IdempotencyEntry, Tables,
}
use influxdb_desk.Tasks.Ledger.{is_some, lookup_idempotency, insert_idempotency}

abbrev pub decimal : Result influxdb_desk.Decimal.Error Bytes → Result Error Bytes
decimal (err e) = err invalid_decimal
decimal (ok text) = ok text

abbrev pub has_id : Bytes → Meta → Bool
has_id id m = bytes_eq m.id id

-- `GetInTx`
unfoldable pub get : Bytes → Tables → Result Error Meta
get id db = or_fail (find_row (has_id id) db.tasks) not_found

abbrev pub new_event : Meta → Bytes → Bytes → Bytes → Event
new_event m seq change_type at = record {
  schema_version = 1;
  seq = seq;
  kind = m.kind;
  id = m.id;
  resource_revision = m.snapshot_revision;
  state = m.state;
  change_type = change_type;
  occurred_at = at;
}

abbrev pub with_seq : Bytes → Meta → Meta
with_seq seq m = record m { last_event_seq = seq }

-- The two inserts and updates of `appendEventInTx`, behind its reads.
abbrev pub push_event : Tables → Meta → Bytes → Event → Tables
push_event db m next event = record db {
  tasks = update_rows (has_id m.id) (with_seq next) db.tasks;
  events = db.events ++ (event ∷ []);
  head = some next;
}

-- `appendEventInTx`: `seq` is the primary key of the events, and `resource_id` refers to a task.
unfoldable pub append_event : Meta → Bytes → Bytes → Tables → Result Error (Tables × Meta)
append_event m change_type at db = do
  current ← or_fail db.head store_failed
  next ← decimal (increment_decimal current)
  guard (not (is_some (find_row (λ e. bytes_eq e.seq next) db.events))) store_failed
  guard (is_some (find_row (has_id m.id) db.tasks)) store_failed
  ok (push_event db m next (new_event m next change_type at), with_seq next m)

abbrev pub one : Bytes
one = b'1' ∷ []

abbrev pub created : Bytes
created = b'C' ∷ b'R' ∷ b'E' ∷ b'A' ∷ b'T' ∷ b'E' ∷ b'D' ∷ []

abbrev pub new_task : Bytes → Bytes → Bytes → Bool → Bytes → Meta
new_task id kind initial_state result_available now = record {
  id = id;
  kind = kind;
  state = initial_state;
  terminal = false;
  snapshot_revision = one;
  state_revision = one;
  last_event_seq = b'0' ∷ [];
  created_at = now;
  updated_at = now;
  terminal_at = none;
  public_error_code = none;
  public_safe_message = none;
  archived = false;
  result_available = result_available;
}

-- `CreateInTx`
unfoldable pub create_in_tx : Meta → Bytes → Tables → Result Error (Tables × Meta)
unfolding append_event
create_in_tx m now db = do
  guard (not (is_some (find_row (has_id m.id) db.tasks))) store_failed
  append_event m created now (record db { tasks = db.tasks ++ (m ∷ []) })

-- What `Create` returns: the task, and whether the request was replayed.
pub record Created : Type 0 where
  pub tables : Tables
  pub meta : Meta
  pub replayed : Bool

abbrev pub entry_of : Bytes → CreateRequest → Bytes → IdempotencyEntry
entry_of now req expires = record {
  scope = req.client_scope;
  request_digest = req.request_digest;
  resource_kind = req.kind;
  resource_id = req.id;
  created_at = now;
  expires_at = expires;
}

abbrev pub create_fresh : Bytes → CreateRequest → Bytes → Tables → Result Error Created
create_fresh now req expires db = do
  made ← create_in_tx (new_task req.id req.kind req.initial_state req.result_available now) now db
  kept ← insert_idempotency (entry_of now req expires) made.0
  ok (record { tables = kept; meta = made.1; replayed = false })

abbrev pub replay_of : Tables → Meta → Created
replay_of db m = record { tables = db; meta = m; replayed = true }

abbrev pub create_by :
    Option IdempotencyEntry → Bytes → CreateRequest → Bytes → Tables → Result Error Created
create_by none now req expires db = create_fresh now req expires db
create_by (some entry) now req expires db = do
  guard (bytes_eq entry.request_digest req.request_digest) idempotency_conflict
  m ← get entry.resource_id db
  ok (replay_of db m)

abbrev pub complete : CreateRequest → Bool
complete req = not (
    is_empty req.id
    || is_empty req.kind
    || is_empty req.initial_state
    || is_empty req.client_scope
    || is_empty req.request_digest)

-- `Create`
unfoldable pub create : Bytes → CreateRequest → Tables → Result Error Created
unfolding lookup_idempotency create_in_tx insert_idempotency get
create now req db = do
  guard (complete req) invalid_request
  expires ← or_fail req.ledger_expires_at expiry_required
  create_by (lookup_idempotency req.client_scope db) now req expires db
