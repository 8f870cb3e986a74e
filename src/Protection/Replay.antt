-- ===== src/Protection/Replay.antt =====
-- A command that the ledger holds is answered from it.
use influxdb_desk.Base.{
  ◌≡◌, refl, ap, ◌∙◌, ◌⊎◌, Result, true, false, Option, none, some, if◌then◌else◌, ok, err,
  Bool-cases, inl, inr,
}
use influxdb_desk.Decimal.{Bytes, bytes_eq}
use influxdb_desk.Protection.{
  Error, not_found, command_conflict, Row, read_snapshot, ConnectionState, LedgerEntry, Manager,
  Env, state,
}
use influxdb_desk.Protection.Gate.{lease_expired_at}
use influxdb_desk.Protection.Safety.{reconcile-fresh}
use influxdb_desk.Protection.Commands.Ledger.{
  Command, CommandResult, lookup_ledger, replay, replay_on, reconciled_replay, refreshed_replay,
  refreshed, lookup_result,
}
use influxdb_desk.Protection.Commands.{run_unlock, run_lock, unlock_on, lock_on}

-- No lease of the generation has run out.
unfoldable pub Settled : Env → Manager → Option ConnectionState → Type 0
Settled env m none = Unit
Settled env m (some s) = lease_expired_at s.snapshot.mode s.lease env.reconcile_time ≡ false

replay_on-Settled :
    (env : Env) (e : LedgerEntry) (m : Manager) (s : Option ConnectionState)
    → Settled env m s
    → replay_on env e m s ≡ (m, ok (refreshed_replay e m))
unfolding Settled
replay_on-Settled env e m none h = refl
replay_on-Settled env e m (some s) h = ap (reconciled_replay e m) (reconcile-fresh env s m h)

replay-Settled :
    (env : Env) (digest : Bytes) (e : LedgerEntry) (m : Manager)
    → Settled env m (state e.connection_id e.generation m)
    → replay env digest e m
      ≡ (m, if bytes_eq e.digest digest then ok (refreshed_replay e m) else err command_conflict)
unfolding replay
replay-Settled env digest e m h = elim (Bool-cases (bytes_eq e.digest digest)) [
  | inl same ↦ rw (same) (replay_on-Settled env e m (state e.connection_id e.generation m) h)
  | inr other ↦ rw (other) refl
]

-- What is told of an entry whose digest is the request's: with the row of its generation, the code
-- and the revision of the entry; without the row, that it is not found.
abbrev pub Told : LedgerEntry → Manager → CommandResult → Type 0
Told e m r =
    (r.replayed ≡ true)
    × (((v : Row) × (read_snapshot e.connection_id e.generation m ≡ some v)
          × (r.result ≡ e.result)
          × (r.applied_revision ≡ e.applied_revision))
        ⊎ (read_snapshot e.connection_id e.generation m ≡ none)
          × (r.result ≡ some not_found)
          × (r.applied_revision ≡ none))

Told-refreshed :
    (e : LedgerEntry) (m : Manager) (r : CommandResult) (s : Option ConnectionState)
    → Told e m r
    → Told e m (refreshed r s)
Told-refreshed e m r none h = h
Told-refreshed e m r (some s) h = h

Told-lookup :
    (e : LedgerEntry) (m : Manager) (row : Option Row)
    → read_snapshot e.connection_id e.generation m ≡ row
    → Told e m (lookup_result e row)
Told-lookup e m none h = (refl, inr (h, refl, refl))
Told-lookup e m (some v) h = (refl, inl (v, h, refl, refl))

answered :
    (e : LedgerEntry) (digest : Bytes) (m : Manager)
    → let o : Result Error CommandResult =
        if bytes_eq e.digest digest then ok (refreshed_replay e m) else err command_conflict in
      (bytes_eq e.digest digest ≡ false) × (o ≡ err command_conflict)
      ⊎ ((r : CommandResult) × (bytes_eq e.digest digest ≡ true) × (o ≡ ok r) × Told e m r)
answered e digest m = elim (Bool-cases (bytes_eq e.digest digest)) [
  | inl same ↦ inr (
    refreshed_replay e m,
    same,
    rw (same) refl,
    Told-refreshed e m (lookup_result e (read_snapshot e.connection_id e.generation m))
        (state e.connection_id e.generation m)
        (Told-lookup e m (read_snapshot e.connection_id e.generation m) refl),
  )
  | inr other ↦ inl (other, rw (other) refl)
]

-- A command whose scope is in the ledger is not applied again, neither by `Unlock` nor by `Lock`:
-- where no lease of its generation has run out, both leave the manager as it is and give one answer.
-- That is a conflict when the request's digest is not the entry's. Otherwise it is marked as a replay,
-- with the result code and the applied revision of the entry if the row of its generation is there,
-- and with the code for not found and no revision if the row is gone.
pub ledger_replay :
    (env : Env) (cmd : Command) (digest expected : Bytes) (e : LedgerEntry) (m : Manager)
    → lookup_ledger cmd.scope m ≡ some e
    → Settled env m (state e.connection_id e.generation m)
    → (o : Result Error CommandResult) × (run_unlock env cmd digest expected m ≡ (m, o))
      × (run_lock env cmd digest m ≡ (m, o))
      × ((bytes_eq e.digest digest ≡ false) × (o ≡ err command_conflict)
          ⊎ ((r : CommandResult) × (bytes_eq e.digest digest ≡ true) × (o ≡ ok r) × Told e m r))
unfolding run_unlock run_lock
ledger_replay env cmd digest expected e m found settled = (
  if bytes_eq e.digest digest then ok (refreshed_replay e m) else err command_conflict,
  ap (λ x. unlock_on env cmd digest expected m x (state cmd.connection_id cmd.generation m)) found
      ∙ replay-Settled env digest e m settled,
  ap (λ x. lock_on env cmd digest m x (state cmd.connection_id cmd.generation m)) found
      ∙ replay-Settled env digest e m settled,
  answered e digest m,
)
