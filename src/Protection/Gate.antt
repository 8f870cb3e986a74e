-- ===== src/Protection/Gate.antt =====
-- The pending-lock counter, the expiry of a lease, and `Register`.
use influxdb_desk.Base.{
  ℕ, ◌+◌, ◌-◌, Bool, true, false, not, ◌&&◌, ◌||◌, Option, none, some, [], ◌∷◌, ◌++◌, is_empty, leb,
  if◌then◌else◌, Result, ok, err, guard, or_fail, ◌>>=◌, ◌>>◌,
}
use influxdb_desk.Decimal.{Error as DecimalError, Bytes, canonical_decimal, increment_decimal}
use influxdb_desk.Base.Table.{delete_rows}
use influxdb_desk.Protection.{
  is_state, Mode, protected_locked, is_unlocked, Error, not_found, generation_conflict,
  binding_mismatch, store_failed, invalid_request, Snapshot, Lease, ConnectionState, Row, Manager,
  Env, state, read_snapshot, row_snapshot, write_snapshot, protection_event, put_state,
}

-- The decimal helpers of this package answer with their own error.
abbrev pub decimal : Result DecimalError Bytes → Result Error Bytes
decimal (ok v) = ok v
decimal (err _) = err binding_mismatch

abbrev pub mark_lock_pending : ConnectionState → ConnectionState
mark_lock_pending s = record s { lock_waiters = s.lock_waiters + 1 }

abbrev pub finish_lock_pending : ConnectionState → ConnectionState
finish_lock_pending s = record s { lock_waiters = s.lock_waiters - 1 }

-- `leaseExpiredAt`; `!now.Before(expires)` is `expires <= now`.
unfoldable pub lease_expired_at : Mode → Option Lease → ℕ → Bool
lease_expired_at mode none now = false
lease_expired_at mode (some l) now = is_unlocked mode && leb l.expires now

pub record RegisterRequest : Type 0 where
  pub connection_id : Bytes
  pub connection_generation : Bytes
  pub profile_id : Bytes
  pub profile_revision : Bytes
  pub mode : Mode

abbrev revision_one : Bytes
revision_one = b'1' ∷ []

abbrev pub new_connection_state : Snapshot → Bytes → Bytes → ConnectionState
new_connection_state snapshot profile_id profile_rev = record {
  lock_waiters = 0;
  snapshot = snapshot;
  profile_id = profile_id;
  profile_rev = profile_rev;
  lease = none;
  closed = false;
}

abbrev first_snapshot : RegisterRequest → Bytes → Snapshot
first_snapshot q generation = record {
  connection_id = q.connection_id;
  generation = generation;
  revision = revision_one;
  mode = q.mode;
  lease_id = none;
  unlocked_until = none;
}

abbrev first_row : RegisterRequest → Bytes → Bytes → Row
first_row q generation profile_rev = record {
  connection_id = q.connection_id;
  generation = generation;
  profile_id = q.profile_id;
  profile_rev = profile_rev;
  revision = revision_one;
  mode = q.mode;
  closed_at = none;
  purge_after = none;
}

-- Writes the row, and the map's entry of the generation.
abbrev add_generation : RegisterRequest → Bytes → Bytes → Manager → Manager
add_generation q generation profile_rev m = record m {
  connections =
      new_connection_state (first_snapshot q generation) q.profile_id profile_rev
      ∷ delete_rows (is_state q.connection_id generation) m.connections;
  rows = first_row q generation profile_rev ∷ m.rows;
}

-- `Register`; a second row for a generation breaks the table's primary key.
unfoldable pub register : Env → RegisterRequest → Manager → Result Error (Manager × Snapshot)
register env q m = do
  guard (not (is_empty q.connection_id || is_empty q.profile_id)) invalid_request
  generation ← decimal (canonical_decimal q.connection_generation)
  profile_rev ← decimal (canonical_decimal q.profile_revision)
  guard (not (is_unlocked q.mode)) invalid_request
  guard env.store_ok store_failed
  elim (read_snapshot q.connection_id generation m) [
    | some _ ↦ err store_failed
    | none ↦ ok (add_generation q generation profile_rev m, first_snapshot q generation)
  ]

abbrev pub is_closed : Row → Bool
is_closed r = elim r.closed_at [ none ↦ false | some _ ↦ true ]

-- The state after the transaction of `reconcileExpiredLeaseUnderGate`.
abbrev pub drop_lease : Snapshot → Bool → ConnectionState → ConnectionState
drop_lease snapshot closed s = record s {
  snapshot = snapshot;
  lease = none;
  closed = s.closed || closed;
}

-- That transaction on the row of the generation.
unfoldable pub expire_row : ℕ → Row → Manager → Result Error (Manager × Snapshot)
expire_row now r m =
    if not (is_closed r) && is_unlocked r.mode
    then (do
      revision ← decimal (increment_decimal r.revision)
      let s = record (row_snapshot r) { revision = revision; mode = protected_locked }
      ok (
        record m {
          rows = write_snapshot s m.rows;
          events = m.events ++ protection_event s "LEASE_EXPIRED" now ∷ [];
        },
        s,
      ))
    else ok (m, row_snapshot r)

-- `reconcileExpiredLeaseUnderGate`: the manager, the snapshot and whether the lease had expired.
unfoldable pub reconcile :
    Env → ConnectionState → Manager → Result Error (Manager × Snapshot × Bool)
unfolding lease_expired_at expire_row
reconcile env s m =
    if lease_expired_at s.snapshot.mode s.lease env.reconcile_time
    then (do
      guard env.reconcile_ok store_failed
      r ←
          or_fail (read_snapshot s.snapshot.connection_id s.snapshot.generation m)
            generation_conflict
      (m', snapshot) ← expire_row env.reconcile_time r m
      ok (
        put_state s.snapshot.connection_id s.snapshot.generation (drop_lease snapshot (is_closed r))
            m',
        snapshot,
        true,
      ))
    else ok (m, s.snapshot, false)

-- `Get`
unfoldable pub get : Env → Bytes → Bytes → Manager → Result Error (Manager × Snapshot)
unfolding reconcile
get env c g m = do
  s ← or_fail (state c g m) not_found
  if lease_expired_at s.snapshot.mode s.lease env.check_time
      then (do (m', snapshot, _) ← reconcile env s m; ok (m', snapshot))
      else ok (m, s.snapshot)
