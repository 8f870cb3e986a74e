-- ===== src/Protection/Revocation.antt =====
-- A lock that succeeds takes the lease of its generation away.
use influxdb_desk.Base.{
  ◌≡◌, ◌≢◌, refl, Bool, true, false, ◌||◌, Option, none, some, Result, ok, err, or_fail, ◌>>=◌,
  arith, Bool-cases, inl, inr, subst, sym,
}
use influxdb_desk.Base.Table.{find_row, find_row-update_rows, find_row-update_rows_kept}
use influxdb_desk.Decimal.{Bytes, bytes_eq}
use influxdb_desk.Protection.{
  not_found, Error, Snapshot, ConnectionState, Row, Manager, Env, LedgerEntry, state, put_state,
  is_state, read_snapshot, command_conflict, store_failed,
}
use influxdb_desk.Protection.Gate.{reconcile, finish_lock_pending, mark_lock_pending}
use influxdb_desk.Protection.Dispatch.{Outcome, DispatchBinding, begin_mutation_dispatch}
use influxdb_desk.Protection.Transactions.{
  Leaves, Applied, Leaves-guard, command_transaction-Applied,
}
use influxdb_desk.Protection.Safety.{begin_mutation_dispatch-Authorized}
use influxdb_desk.Protection.Commands.Ledger.{
  refreshed, refreshed_replay, reconciled_replay, replay_on, lookup_result, reject_row, Command,
  CommandResult, rejection, lookup_ledger, replay, reject_unavailable_generation, replay_result,
  outcome,
}
use influxdb_desk.Protection.Commands.{lock_on, finish_lock, complete_lock, run_lock, failed}

-- No lease stands on the generation.
pub Revoked : Bytes → Bytes → Manager → Type 0
Revoked c g m = (s : ConnectionState) × (state c g m ≡ some s) × (s.lease ≡ none)

Done : CommandResult → Type 0
Done r = (r.replayed ≡ false) × (r.result ≡ none)

finish_lock-Done :
    (cmd : Command) (s : ConnectionState) (m : Manager) (r : CommandResult)
    → Done (finish_lock cmd s (m, r)).1
    → Done r
unfolding finish_lock Done
finish_lock-Done cmd s m r h = ground arith

abbrev locked_with : Snapshot → ConnectionState → ConnectionState
locked_with v x = record x { snapshot = v; lease = none }

finish_lock-applied :
    (cmd : Command) (s : ConnectionState) (m : Manager) (r : CommandResult) (v : Snapshot)
    → Done r
    → r.snapshot ≡ some v
    → (finish_lock cmd s (m, r)).0 ≡ put_state cmd.connection_id cmd.generation (locked_with v) m
unfolding finish_lock Done
finish_lock-applied cmd s m r v h e =
    λ i. (finish_lock cmd s (m, record r { snapshot = e i; replayed = h.0 i; result = h.1 i })).0

finish_lock-Revoked :
    (cmd : Command) (m : Manager) (s x : ConnectionState) (t : Manager × CommandResult)
    → state cmd.connection_id cmd.generation m ≡ some x
    → Applied cmd m t
    → Done (finish_lock cmd s t).1
    → Revoked cmd.connection_id cmd.generation (finish_lock cmd s t).0
unfolding Revoked Done
finish_lock-Revoked cmd m s x (m', r) h applied done =
    let is_done = finish_lock-Done cmd s m' r done in
    let (v, e, of_key) = applied.of_generation is_done.0 is_done.1 in
    subst (Revoked cmd.connection_id cmd.generation)
      (sym (finish_lock-applied cmd s m' r v is_done e))
      (
        locked_with v x,
        find_row-update_rows_kept (is_state cmd.connection_id cmd.generation) (locked_with v)
            m'.connections {x = x} (λ y hit. of_key)
            (subst (λ cs. find_row (is_state cmd.connection_id cmd.generation) cs ≡ some x)
              (sym applied.same_states) h),
        refl,
      )

-- The end of the gate's body: the lock is no longer pending, and the lease stays away.
Revoked-unpend :
    (c g : Bytes) (m : Manager) → Revoked c g m → Revoked c g (put_state c g finish_lock_pending m)
unfolding Revoked
Revoked-unpend c g m (s, h, e) = (
  finish_lock_pending s,
  find_row-update_rows (is_state c g) finish_lock_pending m.connections {x = s} (λ y. refl) h,
  e,
)

Answers : (CommandResult → Type 0) → Result Error CommandResult → Type 0
Answers P (ok r) = P r
Answers P (err e) = Unit

-- What an outcome means for the generation.
pub RevokedIfDone : Command → Outcome CommandResult → Type 0
RevokedIfDone cmd (m, err e) = Unit
RevokedIfDone cmd (m, ok r) = Done r → Revoked cmd.connection_id cmd.generation m

finished-RevokedIfDone :
    (cmd : Command) (m : Manager) (s x : ConnectionState)
    (t : Result Error (Manager × CommandResult))
    → state cmd.connection_id cmd.generation m ≡ some x
    → Leaves (Applied cmd m) t
    → RevokedIfDone cmd (outcome m (t >>= λ r. ok (finish_lock cmd s r)))
unfolding RevokedIfDone
finished-RevokedIfDone cmd m s x (err e) h a = tt
finished-RevokedIfDone cmd m s x (ok t) h a = finish_lock-Revoked cmd m s x t h a

unpend-RevokedIfDone :
    (cmd : Command) (o : Outcome CommandResult)
    → RevokedIfDone cmd o
    → RevokedIfDone cmd (put_state cmd.connection_id cmd.generation finish_lock_pending o.0, o.1)
unfolding RevokedIfDone
unpend-RevokedIfDone cmd (m, err e) h = tt
unpend-RevokedIfDone cmd (m, ok r) h =
    λ done. Revoked-unpend cmd.connection_id cmd.generation m (h done)

complete_lock-RevokedIfDone :
    (env : Env) (cmd : Command) (digest : Bytes) (s x : ConnectionState) (m : Manager)
    → state cmd.connection_id cmd.generation m ≡ some x
    → RevokedIfDone cmd (complete_lock env cmd digest s m)
unfolding complete_lock
complete_lock-RevokedIfDone env cmd digest s x m h =
    unpend-RevokedIfDone cmd _
      (finished-RevokedIfDone cmd m s x _ h (command_transaction-Applied env cmd digest m))

refreshed-replayed :
    (e : LedgerEntry) (r : Option Row) (s : Option ConnectionState)
    → (refreshed (lookup_result e r) s).replayed ≡ true
refreshed-replayed e none none = refl
refreshed-replayed e none (some s) = refl
refreshed-replayed e (some r) none = refl
refreshed-replayed e (some r) (some s) = refl

undone : (r : CommandResult) → r.replayed ≡ true → {A : Type 0} → Done r → A
unfolding Done
undone r h done = ground arith

replayed-RevokedIfDone :
    (cmd : Command) (e : LedgerEntry) (m : Manager)
    → RevokedIfDone cmd (m, ok (refreshed_replay e m))
unfolding RevokedIfDone
replayed-RevokedIfDone cmd e m = undone (refreshed_replay e m) (
    refreshed-replayed e (read_snapshot e.connection_id e.generation m)
      (state e.connection_id e.generation m))

reconciled-RevokedIfDone :
    (cmd : Command) (e : LedgerEntry) (m : Manager) (r : Result Error (Manager × Snapshot × Bool))
    → RevokedIfDone cmd (reconciled_replay e m r)
unfolding RevokedIfDone
reconciled-RevokedIfDone cmd e m (err x) = tt
reconciled-RevokedIfDone cmd e m (ok r) = replayed-RevokedIfDone cmd e r.0

replay_on-RevokedIfDone :
    (cmd : Command) (env : Env) (e : LedgerEntry) (m : Manager) (s : Option ConnectionState)
    → RevokedIfDone cmd (replay_on env e m s)
replay_on-RevokedIfDone cmd env e m none = replayed-RevokedIfDone cmd e m
replay_on-RevokedIfDone cmd env e m (some s) = reconciled-RevokedIfDone cmd e m (reconcile env s m)

replay-RevokedIfDone :
    (cmd : Command) (env : Env) (digest : Bytes) (e : LedgerEntry) (m : Manager)
    → RevokedIfDone cmd (replay env digest e m)
unfolding replay RevokedIfDone
replay-RevokedIfDone cmd env digest e m = elim (Bool-cases (bytes_eq e.digest digest)) [
  | inl same ↦
      rw (same) (replay_on-RevokedIfDone cmd env e m (state e.connection_id e.generation m))
  | inr other ↦ rw (other) tt
]

-- A rejection is no success.
Rejected : Manager × CommandResult → Type 0
Rejected x = x.1.replayed || failed x.1.result ≡ true

with_row :
    (e : LedgerEntry) (m : Manager) (r : Option Row)
    → Leaves Rejected (or_fail r not_found >>= λ x. ok (m, replay_result e (some x)))
unfolding Rejected
with_row e m none = tt
with_row e m (some r) = refl

reject_row-Rejected :
    (env : Env) (cmd : Command) (digest : Bytes) (e : Option LedgerEntry) (r : Option Row)
    (m : Manager)
    → Leaves Rejected (reject_row env cmd digest e r m)
unfolding Rejected rejection
reject_row-Rejected env cmd digest (some e) r m =
    Leaves-guard Rejected (bytes_eq e.digest digest) command_conflict _
      (with_row e m (read_snapshot e.connection_id e.generation m))
reject_row-Rejected env cmd digest none (some r) m = refl
reject_row-Rejected env cmd digest none none m = refl

outcome-RevokedIfDone :
    (cmd : Command) (m : Manager) (t : Result Error (Manager × CommandResult))
    → Leaves Rejected t
    → RevokedIfDone cmd (outcome m t)
unfolding Rejected RevokedIfDone Done
outcome-RevokedIfDone cmd m (err e) h = tt
outcome-RevokedIfDone cmd m (ok x) h = λ done. ground arith

reject-RevokedIfDone :
    (env : Env) (cmd : Command) (digest : Bytes) (m : Manager)
    → RevokedIfDone cmd (reject_unavailable_generation env cmd digest m)
unfolding reject_unavailable_generation
reject-RevokedIfDone env cmd digest m = outcome-RevokedIfDone cmd m _ (
    Leaves-guard Rejected env.store_ok store_failed _ (
      reject_row-Rejected env cmd digest (lookup_ledger cmd.scope m)
        (read_snapshot cmd.connection_id cmd.generation m) m))

lock_on-RevokedIfDone :
    (env : Env) (cmd : Command) (digest : Bytes) (m : Manager) (e : Option LedgerEntry)
    (s : Option ConnectionState)
    → state cmd.connection_id cmd.generation m ≡ s
    → RevokedIfDone cmd (lock_on env cmd digest m e s)
unfolding RevokedIfDone
lock_on-RevokedIfDone env cmd digest m (some e) s h = replay-RevokedIfDone cmd env digest e m
lock_on-RevokedIfDone env cmd digest m none none h = reject-RevokedIfDone env cmd digest m
lock_on-RevokedIfDone env cmd digest m none (some s) h =
    complete_lock-RevokedIfDone env cmd digest (mark_lock_pending s) (mark_lock_pending s) _ (
      find_row-update_rows (is_state cmd.connection_id cmd.generation) mark_lock_pending
        m.connections {x = s} (λ y. refl) h)

-- Dispatch needs a lease.
Revoked-dispatch :
    (env : Env) (b : DispatchBinding) (m : Manager)
    → Revoked b.connection_id b.generation m
    → (begin_mutation_dispatch env b m).1 ≢ ok tt
unfolding Revoked
Revoked-dispatch env b m (s, h, e) run =
    let (until, lives, later) = (begin_mutation_dispatch-Authorized env b m s h run).lease_lives in
    ground (arith, e, lives)

-- Once `Lock` has answered without an error, and not from its ledger, no mutation of the generation
-- is dispatched from the manager that it leaves: whatever the binding names and at any later time,
-- the callbacks of `BeginMutationDispatch` do not run.
pub run_lock-revokes :
    (env later : Env) (cmd : Command) (digest : Bytes) (m after : Manager) (r : CommandResult)
    (b : DispatchBinding)
    → run_lock env cmd digest m ≡ (after, ok r)
    → r.replayed ≡ false
    → r.result ≡ none
    → b.connection_id ≡ cmd.connection_id
    → b.generation ≡ cmd.generation
    → (begin_mutation_dispatch later b after).1 ≢ ok tt
unfolding run_lock RevokedIfDone Done Revoked
run_lock-revokes env later cmd digest m after r b run fresh fine same_c same_g =
    let revoked = subst (RevokedIfDone cmd) run (
      lock_on-RevokedIfDone env cmd digest m (lookup_ledger cmd.scope m)
        (state cmd.connection_id cmd.generation m) refl) in
    Revoked-dispatch later b after (rw (same_c, same_g) (revoked (fresh, fine)))
