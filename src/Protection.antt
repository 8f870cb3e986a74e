-- ===== src/Protection.antt =====
-- internal/protection: write protection of a connection generation. This file has types.go, the
-- durable tables and the in-memory state of manager.go; `Gate`, `Commands` and `Dispatch` have the
-- methods, each run under the generation's gate; the proofs are in the modules below those.
pub mod Gate
pub mod Commands
pub mod Dispatch
pub mod Lifecycle
pub mod Transactions
pub mod Revocation
pub mod Safety
pub mod Replay
pub mod Grants
pub mod Restart
mod Tests
use influxdb_desk.Base.{
  ℕ, String, Bool, true, false, ◌&&◌, Option, none, some, List, [], ◌∷◌, str_eq, ltb, leb, not,
  if◌then◌else◌, Result, ok, err,
}
use influxdb_desk.Base.Table.{find_row, update_rows}
use influxdb_desk.Decimal.{Bytes, bytes_eq}

pub data Mode : Type 0 where
  permanent_read_only protected_locked protected_unlocked : Mode

abbrev pub is_unlocked : Mode → Bool
is_unlocked protected_unlocked = true
is_unlocked _ = false

abbrev pub is_read_only : Mode → Bool
is_read_only permanent_read_only = true
is_read_only _ = false

-- `store_failed` is any error of the store or of the random source, and `invalid_request` any
-- rejected argument.
pub data Error : Type 0 where
  not_found connection_closed generation_conflict revision_conflict command_conflict : Error
  lock_pending locked lease_expired binding_mismatch : Error
  store_failed invalid_request : Error

-- Texts are their bytes, times are instants in nanoseconds.
pub record Snapshot : Type 0 where
  pub connection_id : Bytes
  pub generation : Bytes
  pub revision : Bytes
  pub mode : Mode
  pub lease_id : Option Bytes
  pub unlocked_until : Option ℕ

pub record Lease : Type 0 where
  pub id : Bytes
  pub expires : ℕ

-- `lock_waiters` counts the accepted locks that have not finished.
pub record ConnectionState : Type 0 where
  pub lock_waiters : ℕ
  pub snapshot : Snapshot
  pub profile_id : Bytes
  pub profile_rev : Bytes
  pub lease : Option Lease
  pub closed : Bool

-- A row of `protection_snapshots`.
pub record Row : Type 0 where
  pub connection_id : Bytes
  pub generation : Bytes
  pub profile_id : Bytes
  pub profile_rev : Bytes
  pub revision : Bytes
  pub mode : Mode
  pub closed_at : Option ℕ
  pub purge_after : Option ℕ

-- A row of `protection_events`.
pub record Event : Type 0 where
  pub connection_id : Bytes
  pub generation : Bytes
  pub revision : Bytes
  pub mode : Mode
  pub change_type : String
  pub occurred_at : ℕ

pub data CommandKind : Type 0 where
  unlock_command lock_command : CommandKind

-- A row of `protection_command_ledger`. `none` in `result` is the code "OK".
pub record LedgerEntry : Type 0 where
  pub scope : Bytes
  pub connection_id : Bytes
  pub generation : Bytes
  pub kind : CommandKind
  pub request_id : Bytes
  pub digest : Bytes
  pub result : Option Error
  pub applied_revision : Option Bytes
  pub committed_at : ℕ

pub record Manager : Type 0 where
  pub connections : List ConnectionState
  pub rows : List Row
  pub events : List Event
  pub ledger : List LedgerEntry

-- What one call reads from outside: the clock at its several readings, the random source (the hex
-- text of 32 bytes), whether the transaction on an expired lease and the call's own transaction
-- commit, and whether `connection_generation_counters` has a row of the connection.
pub record Env : Type 0 where
  pub reconcile_time : ℕ
  pub check_time : ℕ
  pub lease_time : ℕ
  pub commit_time : ℕ
  pub random : Option Bytes
  pub reconcile_ok : Bool
  pub store_ok : Bool
  pub generation_counted : Bool

-- 10 minutes
abbrev pub unlock_duration : ℕ
unlock_duration = 600_000_000_000

abbrev pub is_state : Bytes → Bytes → ConnectionState → Bool
is_state c g s = bytes_eq s.snapshot.connection_id c && bytes_eq s.snapshot.generation g

abbrev pub is_row : Bytes → Bytes → Row → Bool
is_row c g r = bytes_eq r.connection_id c && bytes_eq r.generation g

-- `Manager.state`
abbrev pub state : Bytes → Bytes → Manager → Option ConnectionState
state c g m = find_row (is_state c g) m.connections

-- `readSnapshotTx`: the snapshot of a row has no lease.
abbrev pub read_snapshot : Bytes → Bytes → Manager → Option Row
read_snapshot c g m = find_row (is_row c g) m.rows

abbrev pub row_snapshot : Row → Snapshot
row_snapshot r = record {
  connection_id = r.connection_id;
  generation = r.generation;
  revision = r.revision;
  mode = r.mode;
  lease_id = none;
  unlocked_until = none;
}

-- `writeSnapshotTx`
abbrev pub write_snapshot : Snapshot → List Row → List Row
write_snapshot s =
    update_rows (is_row s.connection_id s.generation)
      λ r. record r { revision = s.revision; mode = s.mode }

-- `insertProtectionEvent`
abbrev pub protection_event : Snapshot → String → ℕ → Event
protection_event s change_type now = record {
  connection_id = s.connection_id;
  generation = s.generation;
  revision = s.revision;
  mode = s.mode;
  change_type = change_type;
  occurred_at = now;
}

-- A write through the pointer to a generation's state.
abbrev pub put_state : Bytes → Bytes → (ConnectionState → ConnectionState) → Manager → Manager
put_state c g f m = record m { connections = update_rows (is_state c g) f m.connections }
