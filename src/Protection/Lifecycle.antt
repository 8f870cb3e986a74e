-- ===== src/Protection/Lifecycle.antt =====
-- `CloseGeneration` and `Recover`.
use influxdb_desk.Base.{
  ℕ, ◌+◌, true, none, some, List, [], ◌∷◌, ◌++◌, if◌then◌else◌, Result, ok, err, guard, or_fail,
  ◌>>=◌, ◌>>◌,
}
use influxdb_desk.Base.Table.{update_rows, delete_rows}
use influxdb_desk.Decimal.{Bytes, increment_decimal}
use influxdb_desk.Protection.{
  Mode, protected_locked, is_unlocked, is_read_only, Error, not_found, store_failed, Snapshot,
  ConnectionState, Row, Manager, Env, is_state, is_row, read_snapshot, row_snapshot, write_snapshot,
  protection_event, put_state,
}
use influxdb_desk.Protection.Gate.{
  decimal, mark_lock_pending, finish_lock_pending, is_closed, new_connection_state,
}
use influxdb_desk.Protection.Dispatch.{Outcome, reload}

-- `CommandRetryWindowHours`, in nanoseconds
abbrev pub command_retry_window : ℕ
command_retry_window = 86_400_000_000_000

abbrev pub locked_mode : Mode → Mode
locked_mode mode = if is_read_only mode then mode else protected_locked

-- The row and the event of a closed generation.
unfoldable pub close_row : ℕ → Row → Manager → Manager
close_row now r m = record m {
  rows =
      update_rows (is_row r.connection_id r.generation)
        (λ x. record x {
          mode = locked_mode r.mode;
          closed_at = some now;
          purge_after = some (now + command_retry_window);
        })
        m.rows;
  events =
      m.events
      ++ protection_event (record (row_snapshot r) { mode = locked_mode r.mode })
          "GENERATION_CLOSED" now
        ∷ [];
}

abbrev pub close_state : ConnectionState → ConnectionState
close_state s = record s {
  closed = true;
  lease = none;
  snapshot = record s.snapshot {
    lease_id = none;
    unlocked_until = none;
    mode = locked_mode s.snapshot.mode;
  };
}

-- `CloseGeneration` once it has the gate.
unfoldable pub close_under_gate : Env → Bytes → Bytes → Manager → Result Error Manager
unfolding close_row
close_under_gate env c g m = do
  guard env.store_ok store_failed
  r ← or_fail (read_snapshot c g m) not_found
  ok (put_state c g close_state (close_row env.commit_time r m))

-- `CloseGeneration`
unfoldable pub close_generation : Env → Bytes → Bytes → Manager → Outcome (Unit {0})
unfolding close_under_gate
close_generation env c g m = elim (reload c g m) [
  | err x ↦ (m, err x)
  | ok s ↦ elim (close_under_gate env c g (put_state c g mark_lock_pending m)) [
    | err x ↦ (m, err x)
    | ok m' ↦ (put_state c g finish_lock_pending m', ok tt)
  ]
]

-- `Recover`: one row that was left unlocked. `store_ok` and the clock are read row by row.
abbrev pub lock_on_restart : Env → Row → Manager → Result Error (Manager × Snapshot)
lock_on_restart env r m =
    if is_unlocked r.mode
    then (do
      revision ← decimal (increment_decimal r.revision)
      guard env.store_ok store_failed
      let s = record (row_snapshot r) { revision = revision; mode = protected_locked }
      ok (
        record m {
          rows = write_snapshot s m.rows;
          events = m.events ++ protection_event s "LOCKED_ON_RESTART" env.commit_time ∷ [];
        },
        s,
      ))
    else ok (m, row_snapshot r)

abbrev pub with_state :
    Manager × Result Error (List ConnectionState)
    → ConnectionState
    → Manager × Result Error (List ConnectionState)
with_state (m, err x) s = (m, err x)
with_state (m, ok states) s = (m, ok (s ∷ states))

-- The active rows in turn, with the states that they become. A row that fails leaves the rows
-- before it written.
unfoldable pub recover_rows :
    Env → List Row → Manager → Manager × Result Error (List ConnectionState)
recover_rows env [] m = (m, ok [])
recover_rows env (r ∷ rows) m =
    if is_closed r then recover_rows env rows m else elim (lock_on_restart env r m) [
      | err x ↦ (m, err x)
      | ok (m', s) ↦
          with_state (recover_rows env rows m') (new_connection_state s r.profile_id r.profile_rev)
    ]

-- The last loop of `Recover`: a generation's entry in the map is replaced.
unfoldable pub install : List ConnectionState → List ConnectionState → List ConnectionState
install [] connections = connections
install (s ∷ states) connections =
    install states
      (s ∷ delete_rows (is_state s.snapshot.connection_id s.snapshot.generation) connections)

abbrev pub install_states : Manager × Result Error (List ConnectionState) → Outcome (Unit {0})
install_states (m, err x) = (m, err x)
install_states (m, ok states) = (record m { connections = install states m.connections }, ok tt)

-- `Recover`
unfoldable pub recover : Env → Manager → Outcome (Unit {0})
unfolding recover_rows install
recover env m = install_states (recover_rows env m.rows m)
