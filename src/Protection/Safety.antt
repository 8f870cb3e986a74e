-- ===== src/Protection/Safety.antt =====
-- When a mutation is dispatched, and what a lock does to dispatches.
use influxdb_desk.Base.{
  ℕ, ◌≤◌, ◌<◌, ◌≡◌, refl, ◌↔◌, Bool, true, false, some, ◌==◌, if◌then◌else◌, Result, ok, err,
  or_fail, arith, Bool-cases, Option-cases, inl, inr, ap, ◌∙◌, subst,
}
use influxdb_desk.Decimal.{Bytes}
use influxdb_desk.Decimal.Equality.{bytes_eq_refl, bytes_eq→≡}
use influxdb_desk.Protection.{
  lock_pending, not_found, Mode, permanent_read_only, protected_locked, protected_unlocked,
  is_unlocked, Error, Snapshot, Lease, ConnectionState, Manager, Env, state,
}
use influxdb_desk.Protection.Gate.{lease_expired_at, reconcile}
use influxdb_desk.Protection.Dispatch.{
  DispatchBinding, dispatch_reconciled, dispatch_on, validate_lease, validate_dispatch,
  dispatch_under_gate, begin_mutation_dispatch,
}

-- The state of a generation authorizes a binding at an instant: no lock is pending, it is open, the
-- binding names its generation and both its revisions, and its lease, which has not run out.
pub record Authorized (now : ℕ) (s : ConnectionState) (b : DispatchBinding) : Type 0 where
  pub no_lock : s.lock_waiters ≡ 0
  pub is_open : s.closed ≡ false
  pub same_generation : s.snapshot.generation ≡ b.generation
  pub same_profile : s.profile_rev ≡ b.profile_revision
  pub same_revision : s.snapshot.revision ≡ b.protection_revision
  pub unlocked : s.snapshot.mode ≡ protected_unlocked
  pub lease_lives :
      (until : ℕ) × (s.lease ≡ some (record { id = b.lease_id; expires = until })) × (now < until)

pub is_unlocked-holds : (mode : Mode) → is_unlocked mode ≡ true → mode ≡ protected_unlocked
is_unlocked-holds permanent_read_only h = ground arith
is_unlocked-holds protected_locked h = ground arith
is_unlocked-holds protected_unlocked h = refl

with_id : (l : Lease) (id : Bytes) → l.id ≡ id → l ≡ record { id = id; expires = l.expires }
with_id l id h = ap (λ i. record { id = i; expires = l.expires }) h

pub validate_dispatch-Authorized :
    (now : ℕ) (s : ConnectionState) (b : DispatchBinding)
    → validate_dispatch now s b ≡ ok tt
    → Authorized now s b
unfolding validate_dispatch validate_lease
validate_dispatch-Authorized now s b h = elim (Option-cases s.lease) [
  | inl absent ↦ ground arith
  | inr (l, e) ↦ record {
    no_lock = ground arith;
    is_open = ground arith;
    same_generation = bytes_eq→≡ _ _ (ground arith);
    same_profile = bytes_eq→≡ _ _ (ground arith);
    same_revision = bytes_eq→≡ _ _ (ground arith);
    unlocked = is_unlocked-holds _ (ground arith);
    lease_lives = (
      l.expires,
      e ∙ ap some (with_id l b.lease_id (bytes_eq→≡ _ _ (ground arith))),
      ground arith,
    );
  }
]

pub Authorized-validate_dispatch :
    (now : ℕ) (s : ConnectionState) (b : DispatchBinding)
    → Authorized now s b
    → validate_dispatch now s b ≡ ok tt
unfolding validate_dispatch validate_lease
Authorized-validate_dispatch now s b a =
    let (until, e, lives) = a.lease_lives in
    ground (
      arith,
      a.no_lock,
      a.is_open,
      a.same_generation,
      a.same_profile,
      a.same_revision,
      a.unlocked,
      e,
      lives,
      bytes_eq_refl b.generation,
      bytes_eq_refl b.profile_revision,
      bytes_eq_refl b.protection_revision,
      bytes_eq_refl b.lease_id,
    )

pub lease_expired_at-Authorized :
    (now later : ℕ) (s : ConnectionState) (b : DispatchBinding)
    → now ≤ later
    → Authorized later s b
    → lease_expired_at s.snapshot.mode s.lease now ≡ false
unfolding lease_expired_at
lease_expired_at-Authorized now later s b le a =
    let (until, e, lives) = a.lease_lives in ground (arith, le, a.unlocked, e, lives)

pub reconcile-fresh :
    (env : Env) (s : ConnectionState) (m : Manager)
    → lease_expired_at s.snapshot.mode s.lease env.reconcile_time ≡ false
    → reconcile env s m ≡ ok (m, s.snapshot, false)
unfolding reconcile
reconcile-fresh env s m h = ground arith

validated :
    (now : ℕ) (b : DispatchBinding) (s : ConnectionState) (m : Manager)
    (r : Result Error (Manager × Snapshot × Bool))
    → (dispatch_reconciled now b s m r).1 ≡ ok tt
    → validate_dispatch now s b ≡ ok tt
validated now b s m (err e) h = ground arith
validated now b s m (ok (m', snapshot, true)) h = ground arith
validated now b s m (ok (m', snapshot, false)) h = h

begin_mutation_dispatch-state :
    (env : Env) (b : DispatchBinding) (m : Manager) (s : ConnectionState)
    → state b.connection_id b.generation m ≡ some s
    → begin_mutation_dispatch env b m
      ≡ (if s.lock_waiters == 0 then dispatch_under_gate env b s m else (m, err lock_pending))
unfolding begin_mutation_dispatch
begin_mutation_dispatch-state env b m s h = ap (λ r. dispatch_on env b m (or_fail r not_found)) h

gated :
    (env : Env) (b : DispatchBinding) (m : Manager) (s : ConnectionState)
    → (if s.lock_waiters == 0 then dispatch_under_gate env b s m else (m, err lock_pending)).1
      ≡ ok tt
    → (dispatch_under_gate env b s m).1 ≡ ok tt
gated env b m s h = elim (Bool-cases (s.lock_waiters == 0)) [
  | inl idle ↦ ground arith
  | inr busy ↦ ground arith
]

dispatch_under_gate-Authorized :
    (env : Env) (b : DispatchBinding) (m : Manager) (s : ConnectionState)
    → env.reconcile_time ≤ env.check_time
    → Authorized env.check_time s b
    → (dispatch_under_gate env b s m).1 ≡ ok tt
unfolding dispatch_under_gate
dispatch_under_gate-Authorized env b m s le a =
    ap (λ r. (dispatch_reconciled env.check_time b s m r).1)
      (reconcile-fresh env s m
        (lease_expired_at-Authorized env.reconcile_time env.check_time s b le a))
    ∙ Authorized-validate_dispatch env.check_time s b a

pub begin_mutation_dispatch-Authorized :
    (env : Env) (b : DispatchBinding) (m : Manager) (s : ConnectionState)
    → state b.connection_id b.generation m ≡ some s
    → (begin_mutation_dispatch env b m).1 ≡ ok tt
    → Authorized env.check_time s b
unfolding dispatch_under_gate
begin_mutation_dispatch-Authorized env b m s h run =
    validate_dispatch-Authorized env.check_time s b (
      validated env.check_time b s m (reconcile env s m) (
        gated env b m s (subst (λ r. r.1 ≡ ok tt) (begin_mutation_dispatch-state env b m s h) run)))

idle_gate : {A : Type 0} (n : ℕ) (x y : A) → n ≡ 0 → (if n == 0 then x else y) ≡ x
idle_gate n x y h = ground arith

-- The callbacks of `BeginMutationDispatch` run exactly when the generation's state authorizes the
-- binding, provided that the clock does not run backwards during the call.
pub dispatch-Authorized :
    (env : Env) (b : DispatchBinding) (m : Manager) (s : ConnectionState)
    → state b.connection_id b.generation m ≡ some s
    → env.reconcile_time ≤ env.check_time
    → ((begin_mutation_dispatch env b m).1 ≡ ok tt) ↔ Authorized env.check_time s b
dispatch-Authorized env b m s h le = (
  begin_mutation_dispatch-Authorized env b m s h,
  λ a.
      ap (λ r. r.1)
        (begin_mutation_dispatch-state env b m s h ∙ idle_gate s.lock_waiters _ _ a.no_lock)
      ∙ dispatch_under_gate-Authorized env b m s le a,
)
