-- ===== src/Protection/Grants.antt =====
-- The bindings that `WithGrantBinding` hands out, and that its loop ends.
use influxdb_desk.Base.{
  ℕ, ◌≤◌, ◌<◌, ◌≡◌, ◌≢◌, refl, subst, Bool, true, false, Option, none, some, List, [], ◌∷◌, ◌==◌,
  Result, ok, err, guard, or_fail, ◌>>=◌, arith, Bool-cases, Option-cases, inl, inr, ◌⊎◌,
}
use influxdb_desk.Decimal.{Bytes}
use influxdb_desk.Protection.{
  Mode, is_unlocked, Error, store_failed, not_found, Snapshot, Lease, ConnectionState, Manager, Env,
  state, generation_conflict, read_snapshot,
}
use influxdb_desk.Protection.Gate.{expire_row, lease_expired_at, reconcile}
use influxdb_desk.Protection.Dispatch.{
  reload, binding_of, Outcome, DispatchBinding, grant_cases, grant_turn, grant_loop, grant_on,
  with_grant_binding,
}
use influxdb_desk.Protection.Safety.{Authorized, is_unlocked-holds}

binding_of-Authorized :
    (now : ℕ) (s : ConnectionState) (l : Lease)
    → s.lease ≡ some l
    → s.lock_waiters ≡ 0
    → s.closed ≡ false
    → is_unlocked s.snapshot.mode ≡ true
    → now < l.expires
    → Authorized now s (binding_of s l)
binding_of-Authorized now s l e idle is_open free lives = record {
  no_lock = idle;
  is_open = is_open;
  same_generation = refl;
  same_profile = refl;
  same_revision = refl;
  unlocked = is_unlocked-holds s.snapshot.mode free;
  lease_lives = (l.expires, e, lives);
}

grant_cases-Authorized :
    (now : ℕ) (s : ConnectionState) (b : DispatchBinding)
    → grant_cases now s ≡ some (ok b)
    → Authorized now s b
unfolding grant_cases lease_expired_at
grant_cases-Authorized now s b h = elim (Option-cases s.lease) [
  | inl absent ↦ ground arith
  | inr (l, e) ↦
      let same : binding_of s l ≡ b = ground arith in
      subst (Authorized now s) same (
        binding_of-Authorized now s l e (ground arith) (ground arith) (ground arith) (ground arith))
]

grant_cases-expired :
    (now : ℕ) (s : ConnectionState)
    → grant_cases now s ≡ none
    → lease_expired_at s.snapshot.mode s.lease now ≡ true
unfolding grant_cases lease_expired_at
grant_cases-expired now s h = ground arith

lease_expired_at-later :
    (now later : ℕ) (mode : Mode) (l : Option Lease)
    → now ≤ later
    → lease_expired_at mode l now ≡ true
    → lease_expired_at mode l later ≡ true
unfolding lease_expired_at
lease_expired_at-later now later mode none le h = ground arith
lease_expired_at-later now later mode (some l) le h = ground arith

-- The answer of `reconcile` on an expired lease: an error, or that it had expired.
Flagged : Result Error (Manager × Snapshot × Bool) → Type 0
Flagged (err e) = Unit
Flagged (ok r) = r.2 ≡ true

Flagged-then :
    {A : Type 0} (v : Result Error A) (k : A → Result Error (Manager × Snapshot × Bool))
    → ((x : A) → Flagged (k x))
    → Flagged (v >>= k)
unfolding Flagged
Flagged-then (ok x) k h = h x
Flagged-then (err e) k h = tt

reconcile-Flagged :
    (env : Env) (s : ConnectionState) (m : Manager)
    → lease_expired_at s.snapshot.mode s.lease env.reconcile_time ≡ true
    → Flagged (reconcile env s m)
unfolding reconcile Flagged
reconcile-Flagged env s m h = rw (h) (
    Flagged-then (guard env.reconcile_ok store_failed) _ λ u.
      Flagged-then
        (or_fail (read_snapshot s.snapshot.connection_id s.snapshot.generation m)
          generation_conflict)
        _ λ r. Flagged-then (expire_row env.reconcile_time r m) _ λ x. refl)

turn_ends :
    (now : ℕ) (s : ConnectionState) (m : Manager) (r : Result Error (Manager × Snapshot × Bool))
    (x : Option (Outcome DispatchBinding))
    → Flagged r
    → grant_turn now s m r x ≢ none
unfolding Flagged
turn_ends now s m (err e) x h = ground arith
turn_ends now s m (ok (m', snapshot, true)) x h = ground arith
turn_ends now s m (ok (m', snapshot, false)) x h = ground arith

-- A turn that does not end has seen, at its second look at the clock, that the lease has run out.
turn_goes_on :
    (now : ℕ) (s : ConnectionState) (m : Manager) (r : Result Error (Manager × Snapshot × Bool))
    (x : Option (Outcome DispatchBinding))
    → (lease_expired_at s.snapshot.mode s.lease now ≡ true → x ≢ none)
    → grant_turn now s m r x ≢ none
turn_goes_on now s m (err e) x h = ground arith
turn_goes_on now s m (ok (m', snapshot, true)) x h = ground arith
turn_goes_on now s m (ok (m', snapshot, false)) x h = elim (Option-cases (grant_cases now s)) [
  | inl again ↦ rw (again) (h (grant_cases-expired now s again))
  | inr (v, e) ↦ ground arith
]

grant_loop-ends :
    (first second : Env) (turns : List Env) (s : ConnectionState) (m : Manager)
    → first.check_time ≤ second.reconcile_time
    → grant_loop (first ∷ second ∷ turns) s m ≢ none
unfolding grant_loop
grant_loop-ends first second turns s m le =
    turn_goes_on first.check_time s m (reconcile first s m) (grant_loop (second ∷ turns) s m)
      λ gone. turn_ends second.check_time s m (reconcile second s m) (grant_loop turns s m) (
        reconcile-Flagged second s m (
          lease_expired_at-later first.check_time second.reconcile_time s.snapshot.mode s.lease le
            gone))

grant_on-ends :
    (first second : Env) (turns : List Env) (m : Manager) (r : Result Error ConnectionState)
    → first.check_time ≤ second.reconcile_time
    → grant_on (first ∷ second ∷ turns) m r ≢ none
grant_on-ends first second turns m (err e) le = ground arith
grant_on-ends first second turns m (ok s) le = elim (Bool-cases (s.lock_waiters == 0)) [
  | inl idle ↦ rw (idle) (grant_loop-ends first second turns s m le)
  | inr busy ↦ ground arith
]

-- The loop of `WithGrantBinding` takes at most two turns, when the clock does not run backwards
-- from the first turn to the second.
pub grants_end :
    (first second : Env) (turns : List Env) (c g : Bytes) (m : Manager)
    → first.check_time ≤ second.reconcile_time
    → with_grant_binding (first ∷ second ∷ turns) c g m ≢ none
unfolding with_grant_binding
grants_end first second turns c g m le = grant_on-ends first second turns m (reload c g m) le

-- The binding is authorized at the second look at the clock of one of the turns.
pub AuthorizedIn : List Env → ConnectionState → DispatchBinding → Type 0
AuthorizedIn [] s b = true ≡ false
AuthorizedIn (env ∷ turns) s b = Authorized env.check_time s b ⊎ AuthorizedIn turns s b

turn-AuthorizedIn :
    (env : Env) (turns : List Env) (s : ConnectionState) (m after : Manager)
    (r : Result Error (Manager × Snapshot × Bool)) (x : Option (Outcome DispatchBinding))
    (b : DispatchBinding)
    → (x ≡ some (after, ok b) → AuthorizedIn turns s b)
    → grant_turn env.check_time s m r x ≡ some (after, ok b)
    → AuthorizedIn (env ∷ turns) s b
unfolding AuthorizedIn
turn-AuthorizedIn env turns s m after (err e) x b later h = ground arith
turn-AuthorizedIn env turns s m after (ok (m', snapshot, true)) x b later h = ground arith
turn-AuthorizedIn env turns s m after (ok (m', snapshot, false)) x b later h =
    elim (Option-cases (grant_cases env.check_time s)) [
      | inl again ↦ inr (later (ground arith))
      | inr (v, e) ↦ inl (grant_cases-Authorized env.check_time s b (ground arith))
    ]

grant_loop-AuthorizedIn :
    (turns : List Env) (s : ConnectionState) (m after : Manager) (b : DispatchBinding)
    → grant_loop turns s m ≡ some (after, ok b)
    → AuthorizedIn turns s b
unfolding grant_loop
grant_loop-AuthorizedIn [] s m after b h = ground arith
grant_loop-AuthorizedIn (env ∷ turns) s m after b h =
    turn-AuthorizedIn env turns s m after (reconcile env s m) (grant_loop turns s m) b
      (grant_loop-AuthorizedIn turns s m after b) h

grant_idle :
    (turns : List Env) (s : ConnectionState) (m after : Manager) (b : DispatchBinding)
    → grant_on turns m (ok s) ≡ some (after, ok b)
    → grant_loop turns s m ≡ some (after, ok b)
grant_idle turns s m after b h = elim (Bool-cases (s.lock_waiters == 0)) [
  | inl idle ↦ ground arith
  | inr busy ↦ ground arith
]

-- A binding that `WithGrantBinding` hands to its callback is authorized by the generation's state
-- at an instant that the call has read.
pub granted_authorized :
    (turns : List Env) (c g : Bytes) (m after : Manager) (s : ConnectionState) (b : DispatchBinding)
    → state c g m ≡ some s
    → with_grant_binding turns c g m ≡ some (after, ok b)
    → AuthorizedIn turns s b
unfolding with_grant_binding
granted_authorized turns c g m after s b h granted = grant_loop-AuthorizedIn turns s m after b (
    grant_idle turns s m after b
      (subst (λ r. grant_on turns m (or_fail r not_found) ≡ some (after, ok b)) h granted))
