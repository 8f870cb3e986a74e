-- ===== src/Protection/Commands/Ledger.antt =====
-- The command ledger: a command's scope and digest, its replay, and the rejections that it keeps.
use influxdb_desk.Base.{
  ℕ, Bool, true, false, ◌&&◌, ◌||◌, Option, none, some, List, [], ◌∷◌, ◌++◌, if◌then◌else◌, Result,
  ok, err, guard, or_fail, ◌>>=◌, ◌>>◌,
}
use influxdb_desk.Base.Table.{find_row}
use influxdb_desk.Decimal.{Bytes, bytes_eq}
use influxdb_desk.Protection.{
  Error, not_found, connection_closed, generation_conflict, command_conflict, store_failed,
  Snapshot, ConnectionState, Row, CommandKind, unlock_command, lock_command, LedgerEntry, Manager,
  Env, state, read_snapshot, row_snapshot,
}
use influxdb_desk.Protection.Gate.{is_closed, reconcile}
use influxdb_desk.Protection.Dispatch.{Outcome}

abbrev any : {A : Type 0} → (A → Bool) → List A → Bool
any p [] = false
any p (x ∷ xs) = p x || any p xs

abbrev pub kind_text : CommandKind → Bytes
kind_text unlock_command = b'U' ∷ b'N' ∷ b'L' ∷ b'O' ∷ b'C' ∷ b'K' ∷ []
kind_text lock_command = b'L' ∷ b'O' ∷ b'C' ∷ b'K' ∷ []

-- `commandRecord`, less the digest. `expected` is the revision that the request names.
pub record Command : Type 0 where
  pub scope : Bytes
  pub connection_id : Bytes
  pub generation : Bytes
  pub kind : CommandKind
  pub request_id : Bytes

unfoldable pub command_scope : Bytes → Bytes → CommandKind → Bytes → Bytes
command_scope connection_id generation kind request_id =
    connection_id ++ 31 ∷ generation ++ 31 ∷ kind_text kind ++ 31 ∷ request_id

abbrev pub new_command : Bytes → Bytes → CommandKind → Bytes → Command
new_command c g k i = record {
  scope = command_scope c g k i;
  connection_id = c;
  generation = g;
  kind = k;
  request_id = i;
}

-- The text that `commandDigest` hashes, behind its title line.
unfoldable pub digest_text : CommandKind → Bytes → Bytes → Bytes → Bytes
digest_text kind connection_id generation expected =
    kind_text kind ++ 10 ∷ connection_id ++ 10 ∷ generation ++ 10 ∷ expected ++ 10 ∷ []

-- `result` is the error code that the caller receives beside the value; a snapshot `none` is Go's
-- zero value.
pub record CommandResult : Type 0 where
  pub snapshot : Option Snapshot
  pub applied_revision : Option Bytes
  pub replayed : Bool
  pub result : Option Error

abbrev pub new_entry : Command → Bytes → Option Error → Option Bytes → ℕ → LedgerEntry
new_entry cmd digest result applied now = record {
  scope = cmd.scope;
  connection_id = cmd.connection_id;
  generation = cmd.generation;
  kind = cmd.kind;
  request_id = cmd.request_id;
  digest = digest;
  result = result;
  applied_revision = applied;
  committed_at = now;
}

unfoldable pub lookup_ledger : Bytes → Manager → Option LedgerEntry
lookup_ledger scope m = find_row (λ e. bytes_eq e.scope scope) m.ledger

unfoldable pub insert_ledger : LedgerEntry → Manager → Manager
insert_ledger e m = record m { ledger = m.ledger ++ e ∷ [] }

-- A rejection that is kept: the entry, and the row's snapshot for the caller.
unfoldable pub rejection : Env → Command → Bytes → Error → Row → Manager → Manager × CommandResult
unfolding insert_ledger
rejection env cmd digest code r m = (
  insert_ledger (new_entry cmd digest (some code) none env.commit_time) m,
  record {
    snapshot = some (row_snapshot r);
    applied_revision = none;
    replayed = false;
    result = some code;
  },
)

abbrev pub replay_result : LedgerEntry → Option Row → CommandResult
replay_result e none = record {
  snapshot = none;
  applied_revision = none;
  replayed = true;
  result = e.result;
}
replay_result e (some r) = record {
  snapshot = some (row_snapshot r);
  applied_revision = e.applied_revision;
  replayed = true;
  result = e.result;
}

-- The replay in the transactions of `Unlock` and `Lock`: `replayFromTx` of the entry, or a conflict.
unfoldable pub replay_entry : Bytes → LedgerEntry → Manager → Result Error (Manager × CommandResult)
replay_entry digest e m = do
  guard (bytes_eq e.digest digest) command_conflict
  ok (m, replay_result e (read_snapshot e.connection_id e.generation m))

-- `snapshotFromStateIfCurrent`
abbrev pub snapshot_if_current : ConnectionState → Snapshot → Snapshot
snapshot_if_current s fallback =
    if bytes_eq s.snapshot.connection_id fallback.connection_id
      && bytes_eq s.snapshot.generation fallback.generation
      && bytes_eq s.snapshot.revision fallback.revision
    then s.snapshot
    else fallback

abbrev pub refresh : ConnectionState → CommandResult → CommandResult
refresh s r = record r {
  snapshot = elim r.snapshot [ none ↦ none | some v ↦ some (snapshot_if_current s v) ];
}

-- `lookupReplay` answers `not_found` beside the value where the row is gone.
abbrev pub lookup_result : LedgerEntry → Option Row → CommandResult
lookup_result e none = record (replay_result e none) { result = some not_found }
lookup_result e (some r) = replay_result e (some r)

abbrev pub refreshed : CommandResult → Option ConnectionState → CommandResult
refreshed r none = r
refreshed r (some s) = refresh s r

abbrev pub refreshed_replay : LedgerEntry → Manager → CommandResult
refreshed_replay e m =
    refreshed (lookup_result e (read_snapshot e.connection_id e.generation m))
      (state e.connection_id e.generation m)

abbrev pub reconciled_replay :
    LedgerEntry → Manager → Result Error (Manager × Snapshot × Bool) → Outcome CommandResult
reconciled_replay e m (err x) = (m, err x)
reconciled_replay e m (ok r) = (r.0, ok (refreshed_replay e r.0))

abbrev pub replay_on : Env → LedgerEntry → Manager → Option ConnectionState → Outcome CommandResult
replay_on env e m none = (m, ok (refreshed_replay e m))
replay_on env e m (some s) = reconciled_replay e m (reconcile env s m)

-- `lookupReplay` on the entry that was found.
unfoldable pub replay : Env → Bytes → LedgerEntry → Manager → Outcome CommandResult
unfolding reconcile
replay env digest e m =
    if bytes_eq e.digest digest
    then replay_on env e m (state e.connection_id e.generation m)
    else (m, err command_conflict)

-- `persistCommandRejection`'s transaction.
abbrev keep_rejection :
    Env
    → Command
    → Bytes
    → Error
    → Option LedgerEntry
    → Manager
    → Result Error (Manager × CommandResult)
keep_rejection env cmd digest code (some e) m = do
  guard (bytes_eq e.digest digest) command_conflict
  r ← or_fail (read_snapshot e.connection_id e.generation m) not_found
  ok (m, replay_result e (some r))
keep_rejection env cmd digest code none m = do
  r ← or_fail (read_snapshot cmd.connection_id cmd.generation m) generation_conflict
  ok (rejection env cmd digest code r m)

abbrev pub outcome : Manager → Result Error (Manager × CommandResult) → Outcome CommandResult
outcome m (err x) = (m, err x)
outcome m (ok r) = (r.0, ok r.1)

-- `persistCommandRejection`
unfoldable pub persist_command_rejection :
    Env → Command → Bytes → Error → ConnectionState → Manager → Outcome CommandResult
unfolding lookup_ledger rejection
persist_command_rejection env cmd digest code s m = outcome m (do
  guard env.store_ok store_failed
  r ← keep_rejection env cmd digest code (lookup_ledger cmd.scope m) m
  ok (r.0, refresh s r.1))

-- `unavailableGenerationCode`
abbrev unavailable_generation_code : Env → Bytes → Bytes → Manager → Error
unavailable_generation_code env c g m =
    if any (λ r. bytes_eq r.connection_id c) m.rows
      || any (λ e. bytes_eq e.connection_id c && bytes_eq e.generation g) m.events
      || env.generation_counted
    then generation_conflict
    else not_found

abbrev pub reject_row :
    Env
    → Command
    → Bytes
    → Option LedgerEntry
    → Option Row
    → Manager
    → Result Error (Manager × CommandResult)
reject_row env cmd digest (some e) row m = do
  guard (bytes_eq e.digest digest) command_conflict
  r ← or_fail (read_snapshot e.connection_id e.generation m) not_found
  ok (m, replay_result e (some r))
reject_row env cmd digest none (some r) m =
    ok (
      rejection env cmd digest (if is_closed r then connection_closed else generation_conflict) r m)
reject_row env cmd digest none none m = ok (
  m,
  record {
    snapshot = none;
    applied_revision = none;
    replayed = false;
    result = some (unavailable_generation_code env cmd.connection_id cmd.generation m);
  },
)

-- `rejectUnavailableGeneration`
unfoldable pub reject_unavailable_generation :
    Env → Command → Bytes → Manager → Outcome CommandResult
unfolding lookup_ledger rejection
reject_unavailable_generation env cmd digest m = outcome m (do
  guard env.store_ok store_failed
  reject_row env cmd digest (lookup_ledger cmd.scope m)
      (read_snapshot cmd.connection_id cmd.generation m) m)
