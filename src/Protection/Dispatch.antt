-- ===== src/Protection/Dispatch.antt =====
-- Grants and dispatches: `WithGrantBinding`, `BeginMutationDispatch`, `WithAuthorizedGate`. Each
-- answers whether its callback runs; what the callback does is the caller's.
use influxdb_desk.Base.{
  ℕ, Bool, true, false, not, ◌&&◌, Option, none, some, List, [], ◌∷◌, leb, ◌==◌, if◌then◌else◌,
  Result, ok, err, guard, or_fail, ◌>>◌,
}
use influxdb_desk.Decimal.{Bytes, bytes_eq}
use influxdb_desk.Protection.{
  Mode, is_unlocked, Error, not_found, connection_closed, lock_pending, locked, lease_expired,
  binding_mismatch, Snapshot, Lease, ConnectionState, Manager, Env, state,
}
use influxdb_desk.Protection.Gate.{lease_expired_at, reconcile}

pub record DispatchBinding : Type 0 where
  pub connection_id : Bytes
  pub generation : Bytes
  pub profile_revision : Bytes
  pub protection_revision : Bytes
  pub lease_id : Bytes

-- `validateDispatchLocked`, its last two tests.
unfoldable pub validate_lease : ℕ → Bytes → Mode → Option Lease → Result Error (Unit {0})
validate_lease now id mode none = err locked
validate_lease now id mode (some l) = do
  guard (is_unlocked mode && bytes_eq l.id id) locked
  guard (not (leb l.expires now)) lease_expired

abbrev pub revisions_match : ConnectionState → DispatchBinding → Bool
revisions_match s b =
    bytes_eq s.snapshot.generation b.generation
    && bytes_eq s.profile_rev b.profile_revision
    && bytes_eq s.snapshot.revision b.protection_revision

-- `validateDispatchLocked`
unfoldable pub validate_dispatch : ℕ → ConnectionState → DispatchBinding → Result Error (Unit {0})
unfolding validate_lease
validate_dispatch now s b = do
  guard (s.lock_waiters == 0) lock_pending
  guard (not s.closed) connection_closed
  guard (revisions_match s b) binding_mismatch
  validate_lease now b.lease_id s.snapshot.mode s.lease

-- What a call leaves: the manager, and its answer.
abbrev pub Outcome : Type 0 → Type 0
Outcome A = Manager × Result Error A

-- The rest of a call, on the state as it stands behind the gate.
abbrev pub reload : Bytes → Bytes → Manager → Result Error ConnectionState
reload c g m = or_fail (state c g m) not_found

abbrev pub dispatch_reconciled :
    ℕ
    → DispatchBinding
    → ConnectionState
    → Manager
    → Result Error (Manager × Snapshot × Bool)
    → Outcome (Unit {0})
dispatch_reconciled now b s m (err e) = (m, err e)
dispatch_reconciled now b s m (ok (m', snapshot, expired)) =
    (m', if expired then err lease_expired else validate_dispatch now s b)

-- Under the gate: reconciles the lease, then validates.
unfoldable pub dispatch_under_gate :
    Env → DispatchBinding → ConnectionState → Manager → Outcome (Unit {0})
dispatch_under_gate env b s m = dispatch_reconciled env.check_time b s m (reconcile env s m)

abbrev pub dispatch_on :
    Env → DispatchBinding → Manager → Result Error ConnectionState → Outcome (Unit {0})
dispatch_on env b m (err e) = (m, err e)
dispatch_on env b m (ok s) =
    if s.lock_waiters == 0 then dispatch_under_gate env b s m else (m, err lock_pending)

-- `BeginMutationDispatch` and `WithAuthorizedGate`: `ok` is that the callbacks run.
unfoldable pub begin_mutation_dispatch : Env → DispatchBinding → Manager → Outcome (Unit {0})
unfolding dispatch_under_gate
begin_mutation_dispatch env b m = dispatch_on env b m (reload b.connection_id b.generation m)

abbrev pub binding_of : ConnectionState → Lease → DispatchBinding
binding_of s l = record {
  connection_id = s.snapshot.connection_id;
  generation = s.snapshot.generation;
  profile_revision = s.profile_rev;
  protection_revision = s.snapshot.revision;
  lease_id = l.id;
}

-- The cases of the switch of `WithGrantBinding`: `none` is the `continue`.
unfoldable pub grant_cases : ℕ → ConnectionState → Option (Result Error DispatchBinding)
unfolding lease_expired_at
grant_cases now s =
    if not (s.lock_waiters == 0)
    then some (err lock_pending)
    else if s.closed
    then some (err connection_closed)
    else if not (is_unlocked s.snapshot.mode)
    then some (err locked)
    else elim s.lease [
      | none ↦ some (err locked)
      | some l ↦
          if lease_expired_at s.snapshot.mode s.lease now then none else some (ok (binding_of s l))
    ]

abbrev pub grant_checked :
    Manager
    → Option (Result Error DispatchBinding)
    → Option (Outcome DispatchBinding)
    → Option (Outcome DispatchBinding)
grant_checked m none next_turn = next_turn
grant_checked m (some v) next_turn = some (m, v)

abbrev pub grant_turn :
    ℕ
    → ConnectionState
    → Manager
    → Result Error (Manager × Snapshot × Bool)
    → Option (Outcome DispatchBinding)
    → Option (Outcome DispatchBinding)
grant_turn now s m (err e) next_turn = some (m, err e)
grant_turn now s m (ok (m', snapshot, true)) next_turn = some (m', err lease_expired)
grant_turn now s m (ok (m', snapshot, false)) next_turn =
    grant_checked m' (grant_cases now s) next_turn

-- The loop of `WithGrantBinding`; one entry of the list is what one turn reads. `none` is that
-- there are not turns enough.
unfoldable pub grant_loop : List Env → ConnectionState → Manager → Option (Outcome DispatchBinding)
unfolding grant_cases
grant_loop [] s m = none
grant_loop (env ∷ turns) s m =
    grant_turn env.check_time s m (reconcile env s m) (grant_loop turns s m)

abbrev pub grant_on :
    List Env → Manager → Result Error ConnectionState → Option (Outcome DispatchBinding)
grant_on turns m (err e) = some (m, err e)
grant_on turns m (ok s) =
    if s.lock_waiters == 0 then grant_loop turns s m else some (m, err lock_pending)

-- `WithGrantBinding`: `ok` is that `issue` runs with this binding.
unfoldable pub with_grant_binding :
    List Env → Bytes → Bytes → Manager → Option (Outcome DispatchBinding)
unfolding grant_loop
with_grant_binding turns c g m = grant_on turns m (reload c g m)
