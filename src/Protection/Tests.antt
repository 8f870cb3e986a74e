-- ===== src/Protection/Tests.antt =====
-- Runs of the protection manager, and the theorems at concrete managers.
use influxdb_desk.Base.{
  Result, ◌⊎◌, ℕ, ◌≡◌, ◌≢◌, refl, true, false, none, some, [], ◌∷◌, ◌↔◌, ok, err, arith, All,
}
use influxdb_desk.Base.Table.{find_row, update_rows, delete_rows}
use influxdb_desk.Decimal.{print, set_string, canonical_decimal, increment_decimal, bytes_eq}
use influxdb_desk.Protection.{
  Error, protected_locked, protected_unlocked, Snapshot, ConnectionState, Row, LedgerEntry,
  lock_command, Manager, Env, state, command_conflict,
}
use influxdb_desk.Protection.Gate.{lease_expired_at, reconcile}
use influxdb_desk.Protection.Dispatch.{
  DispatchBinding, validate_lease, validate_dispatch, dispatch_under_gate, begin_mutation_dispatch,
  grant_cases, grant_loop, with_grant_binding,
}
use influxdb_desk.Protection.Commands.Ledger.{
  command_scope, Command, CommandResult, new_command, lookup_ledger,
}
use influxdb_desk.Protection.Commands.{run_unlock, run_lock}
use influxdb_desk.Protection.Lifecycle.{recover, recover_rows, install}
use influxdb_desk.Protection.Safety.{Authorized, dispatch-Authorized}
use influxdb_desk.Protection.Revocation.{run_lock-revokes}
use influxdb_desk.Protection.Replay.{Settled, Told, ledger_replay}
use influxdb_desk.Protection.Grants.{grants_end, AuthorizedIn, granted_authorized}
use influxdb_desk.Protection.Restart.{Resting, recover-Resting}

-- The ids and the lease are one letter each; the generation and the revisions are digits.
abbrev unlocked_state : ConnectionState
unlocked_state = record {
  lock_waiters = 0;
  snapshot = record {
    connection_id = b'c' ∷ [];
    generation = b'1' ∷ [];
    revision = b'2' ∷ [];
    mode = protected_unlocked;
    lease_id = some (b'l' ∷ []);
    unlocked_until = some 100;
  };
  profile_id = b'p' ∷ [];
  profile_rev = b'1' ∷ [];
  lease = some (record { id = b'l' ∷ []; expires = 100 });
  closed = false;
}

abbrev unlocked_row : Row
unlocked_row = record {
  connection_id = b'c' ∷ [];
  generation = b'1' ∷ [];
  profile_id = b'p' ∷ [];
  profile_rev = b'1' ∷ [];
  revision = b'2' ∷ [];
  mode = protected_unlocked;
  closed_at = none;
  purge_after = none;
}

abbrev unlocked_manager : Manager
unlocked_manager = record {
  connections = unlocked_state ∷ [];
  rows = unlocked_row ∷ [];
  events = [];
  ledger = [];
}

abbrev at_time : ℕ → Env
at_time now = record {
  reconcile_time = now;
  check_time = now;
  lease_time = now;
  commit_time = now;
  random = some (b'm' ∷ []);
  reconcile_ok = true;
  store_ok = true;
  generation_counted = true;
}

abbrev granted : DispatchBinding
granted = record {
  connection_id = b'c' ∷ [];
  generation = b'1' ∷ [];
  profile_revision = b'1' ∷ [];
  protection_revision = b'2' ∷ [];
  lease_id = b'l' ∷ [];
}

-- The binding of the lease is granted, and is dispatched until the lease runs out.
granted_now :
    with_grant_binding (at_time 50 ∷ []) (b'c' ∷ []) (b'1' ∷ []) unlocked_manager
    ≡ some (unlocked_manager, ok granted)
unfolding with_grant_binding grant_loop grant_cases reconcile lease_expired_at find_row bytes_eq
granted_now = refl

dispatched_now : (begin_mutation_dispatch (at_time 50) granted unlocked_manager).1 ≡ ok tt
unfolding begin_mutation_dispatch dispatch_under_gate reconcile lease_expired_at validate_dispatch
    validate_lease find_row bytes_eq
dispatched_now = refl

found : state (b'c' ∷ []) (b'1' ∷ []) unlocked_manager ≡ some unlocked_state
unfolding find_row bytes_eq
found = refl

dispatch-Authorized_example :
    ((begin_mutation_dispatch (at_time 50) granted unlocked_manager).1 ≡ ok tt)
    ↔ Authorized 50 unlocked_state granted
dispatch-Authorized_example =
    dispatch-Authorized (at_time 50) granted unlocked_manager unlocked_state found (omega arith)

granted_authorized_example : AuthorizedIn (at_time 50 ∷ []) unlocked_state granted
granted_authorized_example =
    granted_authorized (at_time 50 ∷ []) (b'c' ∷ []) (b'1' ∷ []) unlocked_manager unlocked_manager
      unlocked_state granted found granted_now

grants_end_example :
    with_grant_binding (at_time 99 ∷ at_time 100 ∷ []) (b'c' ∷ []) (b'1' ∷ []) unlocked_manager
    ≢ none
grants_end_example =
    grants_end (at_time 99) (at_time 100) [] (b'c' ∷ []) (b'1' ∷ []) unlocked_manager (omega arith)

abbrev lock_it : Command
lock_it = new_command (b'c' ∷ []) (b'1' ∷ []) lock_command (b'x' ∷ [])

abbrev locked_snapshot : Snapshot
locked_snapshot = record {
  connection_id = b'c' ∷ [];
  generation = b'1' ∷ [];
  revision = b'3' ∷ [];
  mode = protected_locked;
  lease_id = none;
  unlocked_until = none;
}

abbrev lock_answer : CommandResult
lock_answer = record {
  snapshot = some locked_snapshot;
  applied_revision = some (b'3' ∷ []);
  replayed = false;
  result = none;
}

abbrev lock_entry : LedgerEntry
lock_entry = record {
  scope = lock_it.scope;
  connection_id = b'c' ∷ [];
  generation = b'1' ∷ [];
  kind = lock_command;
  request_id = b'x' ∷ [];
  digest = b'd' ∷ [];
  result = none;
  applied_revision = some (b'3' ∷ []);
  committed_at = 60;
}

abbrev locked_manager : Manager
locked_manager = record {
  connections = record unlocked_state { snapshot = locked_snapshot; lease = none } ∷ [];
  rows = record unlocked_row { revision = b'3' ∷ []; mode = protected_locked } ∷ [];
  events =
      record {
        connection_id = b'c' ∷ [];
        generation = b'1' ∷ [];
        revision = b'3' ∷ [];
        mode = protected_locked;
        change_type = "LOCKED";
        occurred_at = 60;
      }
      ∷ [];
  ledger = lock_entry ∷ [];
}

locks :
    run_lock (at_time 60) lock_it (b'd' ∷ []) unlocked_manager ≡ (locked_manager, ok lock_answer)
unfolding run_lock find_row update_rows bytes_eq print set_string canonical_decimal
    increment_decimal lookup_ledger
locks = refl

run_lock-revokes_example : (begin_mutation_dispatch (at_time 61) granted locked_manager).1 ≢ ok tt
run_lock-revokes_example =
    run_lock-revokes (at_time 60) (at_time 61) lock_it (b'd' ∷ []) unlocked_manager locked_manager
      lock_answer granted locks refl refl refl refl

lock_found : lookup_ledger lock_it.scope locked_manager ≡ some lock_entry
unfolding lookup_ledger find_row bytes_eq command_scope
lock_found = refl

locked_found :
    state (b'c' ∷ []) (b'1' ∷ []) locked_manager
    ≡ some (record unlocked_state { snapshot = locked_snapshot; lease = none })
unfolding find_row bytes_eq
locked_found = refl

lock-Settled : Settled (at_time 70) locked_manager (state (b'c' ∷ []) (b'1' ∷ []) locked_manager)
unfolding Settled lease_expired_at find_row bytes_eq
lock-Settled = refl

ledger_replay_example :
    (o : Result Error CommandResult) × (run_unlock
        (at_time 70)
        lock_it
        (b'd' ∷ [])
        (b'2' ∷ [])
        locked_manager
      ≡ (locked_manager, o))
    × (run_lock (at_time 70) lock_it (b'd' ∷ []) locked_manager ≡ (locked_manager, o))
    × ((bytes_eq lock_entry.digest (b'd' ∷ []) ≡ false) × (o ≡ err command_conflict)
        ⊎ ((r : CommandResult) × (bytes_eq lock_entry.digest (b'd' ∷ []) ≡ true)
            × (o ≡ ok r)
            × Told lock_entry locked_manager r))
ledger_replay_example =
    ledger_replay (at_time 70) lock_it (b'd' ∷ []) (b'2' ∷ []) lock_entry locked_manager lock_found
      lock-Settled

-- A restart with the row still unlocked.
abbrev stored : Manager
stored = record unlocked_manager { connections = [] }

abbrev restarted : Manager
restarted = (recover (at_time 5) stored).0

recovered : recover (at_time 5) stored ≡ (restarted, ok tt)
unfolding recover recover_rows install find_row update_rows delete_rows bytes_eq print set_string
    canonical_decimal increment_decimal
recovered = refl

recover-Resting_example : All Resting restarted.connections
recover-Resting_example = recover-Resting (at_time 5) stored restarted refl recovered
