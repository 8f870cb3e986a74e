-- ===== src/Protection/Commands.antt =====
-- `Unlock` and `Lock` with the command ledger. `uuid_valid` is `uuid.Parse`, `sha256_hex` the hex
-- text of the SHA-256 sum.
pub mod Ledger
use influxdb_desk.Base.{
  ℕ, ◌+◌, ◌-◌, String, Bool, true, false, not, ◌&&◌, ◌||◌, Option, none, some, List, [], ◌∷◌, ◌++◌,
  ◌==◌, if◌then◌else◌, Result, ok, err, guard, or_fail, ◌>>=◌, ◌>>◌,
}
use influxdb_desk.Decimal.{Bytes, bytes_eq, canonical_decimal, increment_decimal}
use influxdb_desk.Protection.{
  Mode, protected_locked, protected_unlocked, is_read_only, Error, not_found, connection_closed,
  generation_conflict, revision_conflict, lock_pending, locked, store_failed, invalid_request,
  Snapshot, Lease, ConnectionState, Row, CommandKind, unlock_command, lock_command, LedgerEntry,
  Manager, Env, unlock_duration, state, read_snapshot, row_snapshot, write_snapshot,
  protection_event, put_state,
}
use influxdb_desk.Protection.Gate.{
  decimal, mark_lock_pending, finish_lock_pending, is_closed, reconcile,
}
use influxdb_desk.Protection.Dispatch.{Outcome, reload}
use influxdb_desk.Protection.Commands.Ledger.{
  Command, CommandResult, new_entry, rejection, replay_entry, lookup_ledger, insert_ledger, refresh,
  replay, outcome, command_scope, new_command, digest_text, persist_command_rejection,
  reject_unavailable_generation,
}

-- The row and the event of an applied command, and its line in the ledger.
unfoldable pub apply_command :
    Env → Command → Bytes → Snapshot → String → Manager → Manager × CommandResult
unfolding insert_ledger
apply_command env cmd digest s change m = (
  insert_ledger (new_entry cmd digest none (some s.revision) env.commit_time) (record m {
    rows = write_snapshot s m.rows;
    events = m.events ++ protection_event s change env.commit_time ∷ [];
  }),
  record { snapshot = some s; applied_revision = some s.revision; replayed = false; result = none },
)

-- The transaction of `Unlock` behind the ledger's answer that the command is new.
unfoldable pub unlock_row :
    Env → Command → Bytes → Bytes → Lease → Row → Manager → Result Error (Manager × CommandResult)
unfolding apply_command
unlock_row env cmd digest expected l r m =
    if is_closed r
    then ok (rejection env cmd digest connection_closed r m)
    else if not (bytes_eq r.revision expected)
    then ok (rejection env cmd digest revision_conflict r m)
    else if is_read_only r.mode
    then ok (rejection env cmd digest locked r m)
    else (do
      revision ← decimal (increment_decimal r.revision)
      let s = record (row_snapshot r) {
        revision = revision;
        mode = protected_unlocked;
        lease_id = some l.id;
        unlocked_until = some l.expires;
      }
      ok (apply_command env cmd digest s "UNLOCKED" m))

-- The transaction of `Lock` likewise.
unfoldable pub lock_row :
    Env → Command → Bytes → Row → Manager → Result Error (Manager × CommandResult)
unfolding apply_command
lock_row env cmd digest r m =
    if is_closed r then ok (rejection env cmd digest connection_closed r m) else (do
      revision ← decimal (increment_decimal r.revision)
      let s = record (row_snapshot r) {
        revision = revision;
        mode = if is_read_only r.mode then r.mode else protected_locked;
      }
      ok (apply_command env cmd digest s "LOCKED" m))

-- What the ledger's answer and the row make of a command.
abbrev pub command_step :
    Bytes
    → (Row → Manager → Result Error (Manager × CommandResult))
    → Option LedgerEntry
    → Option Row
    → Manager
    → Result Error (Manager × CommandResult)
command_step digest on_row (some e) row m = replay_entry digest e m
command_step digest on_row none none m = err generation_conflict
command_step digest on_row none (some r) m = on_row r m

-- A command's transaction: a replay, or the step on its row.
unfoldable pub command_transaction :
    Env
    → Command
    → Bytes
    → (Row → Manager → Result Error (Manager × CommandResult))
    → Manager
    → Result Error (Manager × CommandResult)
unfolding lookup_ledger
command_transaction env cmd digest on_row m = do
  guard env.store_ok store_failed
  command_step digest on_row (lookup_ledger cmd.scope m)
      (read_snapshot cmd.connection_id cmd.generation m) m

abbrev pub failed : Option Error → Bool
failed none = false
failed (some e) = true

-- The end of `Unlock`, under the gate.
unfoldable pub finish_unlock :
    Command → Lease → ConnectionState → Manager × CommandResult → Manager × CommandResult
finish_unlock cmd l s (m, r) = if r.replayed || failed r.result then (m, refresh s r) else (
  put_state cmd.connection_id cmd.generation
      (λ x. record x {
        snapshot = elim r.snapshot [ none ↦ x.snapshot | some v ↦ v ];
        lease = some l;
      })
      m,
  r,
)

-- `committedResultCode != ""`: the command failed, or it is a replay whose row is gone.
abbrev pub left_alone : CommandResult → Bool
left_alone r = failed r.result || (r.replayed && (elim r.snapshot [ none ↦ true | some v ↦ false ]))

-- The end of `Lock`: a replay that did not fail drops the lease too.
unfoldable pub finish_lock :
    Command → ConnectionState → Manager × CommandResult → Manager × CommandResult
finish_lock cmd s (m, r) =
    let r' = if r.replayed || failed r.result then refresh s r else r in
    if left_alone r then (m, r') else (
      put_state cmd.connection_id cmd.generation
          (λ x. record x {
            snapshot = elim r'.snapshot [ none ↦ x.snapshot | some v ↦ v ];
            lease = none;
          })
          m,
      r',
    )

-- `Unlock` under the gate, behind the expiry of an old lease: the state, and the new lease's text.
abbrev unlock_reconciled :
    Env
    → Command
    → Bytes
    → Bytes
    → Result Error ConnectionState
    → Option Bytes
    → Manager
    → Outcome CommandResult
unlock_reconciled env cmd digest expected (err x) id m = (m, err x)
unlock_reconciled env cmd digest expected (ok s) none m = (m, err store_failed)
unlock_reconciled env cmd digest expected (ok s) (some id) m =
    let l : Lease = record { id = id; expires = env.lease_time + unlock_duration } in
    outcome m (do
      r ← command_transaction env cmd digest (unlock_row env cmd digest expected l) m
      ok (finish_unlock cmd l s r))

-- `Unlock` once it has the gate; the lock counter is read again there.
unfoldable pub unlock_under_gate :
    Env → Command → Bytes → Bytes → ConnectionState → Manager → Outcome CommandResult
unfolding command_transaction unlock_row finish_unlock persist_command_rejection reconcile
unlock_under_gate env cmd digest expected s m =
    if s.lock_waiters == 0
    then elim (reconcile env s m) [
      | err x ↦ (m, err x)
      | ok r ↦
          unlock_reconciled env cmd digest expected (reload cmd.connection_id cmd.generation r.0)
            env.random r.0
    ]
    else persist_command_rejection env cmd digest lock_pending s m

-- `Lock` once it has the gate: whatever happens, the lock is no longer pending.
abbrev pub lock_transaction :
    Env → Command → Bytes → ConnectionState → Manager → Result Error (Manager × CommandResult)
lock_transaction env cmd digest s m = do
  r ← command_transaction env cmd digest (lock_row env cmd digest) m
  ok (finish_lock cmd s r)

unfoldable pub complete_lock :
    Env → Command → Bytes → ConnectionState → Manager → Outcome CommandResult
unfolding command_transaction lock_row finish_lock
complete_lock env cmd digest s m =
    let done = outcome m (lock_transaction env cmd digest s m) in
    (put_state cmd.connection_id cmd.generation finish_lock_pending done.0, done.1)

-- The requests. `expected_revision` is read by `Unlock` only.
pub record CommandRequest : Type 0 where
  pub connection_id : Bytes
  pub request_id : Bytes
  pub expected_generation : Bytes
  pub expected_revision : Bytes

abbrev absent : Bytes
absent = b'A' ∷ b'B' ∷ b'S' ∷ b'E' ∷ b'N' ∷ b'T' ∷ []

abbrev pub unlock_on :
    Env
    → Command
    → Bytes
    → Bytes
    → Manager
    → Option LedgerEntry
    → Option ConnectionState
    → Outcome CommandResult
unlock_on env cmd digest expected m (some e) s = replay env digest e m
unlock_on env cmd digest expected m none none = reject_unavailable_generation env cmd digest m
unlock_on env cmd digest expected m none (some s) = unlock_under_gate env cmd digest expected s m

-- `Unlock` from the replay of its ledger entry on.
unfoldable pub run_unlock : Env → Command → Bytes → Bytes → Manager → Outcome CommandResult
unfolding lookup_ledger replay unlock_under_gate reject_unavailable_generation
run_unlock env cmd digest expected m =
    unlock_on env cmd digest expected m (lookup_ledger cmd.scope m)
      (state cmd.connection_id cmd.generation m)

-- `Lock` likewise: it marks itself pending, waits for the gate and completes.
abbrev pub lock_on :
    Env
    → Command
    → Bytes
    → Manager
    → Option LedgerEntry
    → Option ConnectionState
    → Outcome CommandResult
lock_on env cmd digest m (some e) s = replay env digest e m
lock_on env cmd digest m none none = reject_unavailable_generation env cmd digest m
lock_on env cmd digest m none (some s) =
    complete_lock env cmd digest (mark_lock_pending s)
      (put_state cmd.connection_id cmd.generation mark_lock_pending m)

-- `Lock`, from the moment when it has the gate: it runs alone, and how long it waited is not said.
unfoldable pub run_lock : Env → Command → Bytes → Manager → Outcome CommandResult
unfolding lookup_ledger replay complete_lock reject_unavailable_generation
run_lock env cmd digest m =
    lock_on env cmd digest m (lookup_ledger cmd.scope m) (state cmd.connection_id cmd.generation m)

module _ (uuid_valid : Bytes → Bool) (sha256_hex : Bytes → Bytes) where
  -- `commandDigest`
  abbrev pub command_digest : CommandKind → Bytes → Bytes → Bytes → Bytes
  command_digest kind c g expected = sha256_hex (digest_text kind c g expected)

  abbrev checked_unlock : CommandRequest → Result Error (Command × Bytes × Bytes)
  checked_unlock q = do
    guard (uuid_valid q.request_id) invalid_request
    generation ← decimal (canonical_decimal q.expected_generation)
    revision ← decimal (canonical_decimal q.expected_revision)
    ok (
      new_command q.connection_id generation unlock_command q.request_id,
      command_digest unlock_command q.connection_id generation revision,
      revision,
    )

  abbrev checked_lock : CommandRequest → Result Error (Command × Bytes)
  checked_lock q = do
    guard (uuid_valid q.request_id) invalid_request
    generation ← decimal (canonical_decimal q.expected_generation)
    ok (
      new_command q.connection_id generation lock_command q.request_id,
      command_digest lock_command q.connection_id generation absent,
    )

  -- `Unlock`
  unfoldable pub unlock : Env → CommandRequest → Manager → Outcome CommandResult
  unfolding run_unlock
  unlock env q m = elim (checked_unlock q) [
    | err x ↦ (m, err x)
    | ok c ↦ run_unlock env c.0 c.1 c.2 m
  ]

  -- `Lock`
  unfoldable pub lock : Env → CommandRequest → Manager → Outcome CommandResult
  unfolding run_lock
  lock env q m = elim (checked_lock q) [ err x ↦ (m, err x) | ok c ↦ run_lock env c.0 c.1 m ]
