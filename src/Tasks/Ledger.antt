-- ===== src/Tasks/Ledger.antt =====
-- internal/tasks/ledger.go: the two ledgers, whose scopes are primary keys.
use influxdb_desk.Base.{Bool, not, Option, none, some, [], ◌∷◌, ◌++◌, Result, ok, guard, ◌>>◌}
use influxdb_desk.Base.Table.{find_row}
use influxdb_desk.Decimal.{Bytes, bytes_eq}
use influxdb_desk.Tasks.{
  Error, command_conflict, store_failed, IdempotencyEntry, CommandEntry, Tables,
}

abbrev pub is_some {ℓ} : {A : Type ℓ} → Option A → Bool
is_some none = Bool.false
is_some (some a) = Bool.true

-- `LookupIdempotencyInTx`
unfoldable pub lookup_idempotency : Bytes → Tables → Option IdempotencyEntry
lookup_idempotency scope db = find_row (λ e. bytes_eq e.scope scope) db.idempotency

-- `InsertIdempotencyInTx`
unfoldable pub insert_idempotency : IdempotencyEntry → Tables → Result Error Tables
unfolding lookup_idempotency
insert_idempotency entry db = do
  guard (not (is_some (lookup_idempotency entry.scope db))) store_failed
  ok (record db { idempotency = db.idempotency ++ (entry ∷ []) })

abbrev pub same_digest : Bytes → Option CommandEntry → Result Error (Option CommandEntry)
same_digest digest none = ok none
same_digest digest (some entry) = do
  guard (bytes_eq entry.request_digest digest) command_conflict
  ok (some entry)

-- `LookupCommandInTx`
unfoldable pub lookup_command : Bytes → Bytes → Tables → Result Error (Option CommandEntry)
lookup_command scope digest db =
    same_digest digest (find_row (λ e. bytes_eq e.scope scope) db.commands)

-- `InsertCommandInTx`
unfoldable pub insert_command : CommandEntry → Tables → Result Error Tables
insert_command entry db = do
  guard (not (is_some (find_row (λ e. bytes_eq e.scope entry.scope) db.commands))) store_failed
  ok (record db { commands = db.commands ++ (entry ∷ []) })
