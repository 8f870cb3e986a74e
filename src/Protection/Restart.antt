-- ===== src/Protection/Restart.antt =====
-- After a restart nothing is unlocked.
use influxdb_desk.Base.{
  ◌≡◌, refl, Bool, false, none, List, [], ◌∷◌, Result, ok, err, guard, ◌>>=◌, Bool-cases, inl, inr,
  All, Result-cases, subst, sym, ◌∙◌,
}
use influxdb_desk.Base.Table.{delete_rows}
use influxdb_desk.Decimal.{increment_decimal}
use influxdb_desk.Protection.{
  is_unlocked, Error, store_failed, Snapshot, ConnectionState, Row, Manager, Env,
}
use influxdb_desk.Protection.Gate.{decimal, is_closed, new_connection_state}
use influxdb_desk.Protection.Dispatch.{Outcome}
use influxdb_desk.Protection.Lifecycle.{
  with_state, install_states, lock_on_restart, recover_rows, install, recover,
}

-- Not unlocked, without a lease, and with no lock pending.
pub Resting : ConnectionState → Type 0
Resting s = (is_unlocked s.snapshot.mode ≡ false) × (s.lease ≡ none) × (s.lock_waiters ≡ 0)

Restarted : Manager → Result Error (Manager × Snapshot) → Type 0
Restarted m (err e) = Unit
Restarted m (ok x) = (x.0.connections ≡ m.connections) × (is_unlocked x.1.mode ≡ false)

Restarted-then :
    {A : Type 0} (m : Manager) (v : Result Error A) (k : A → Result Error (Manager × Snapshot))
    → ((x : A) → Restarted m (k x))
    → Restarted m (v >>= k)
unfolding Restarted
Restarted-then m (ok x) k h = h x
Restarted-then m (err e) k h = tt

lock_on_restart-Restarted :
    (env : Env) (r : Row) (m : Manager) → Restarted m (lock_on_restart env r m)
unfolding Restarted
lock_on_restart-Restarted env r m = elim (Bool-cases (is_unlocked r.mode)) [
  | inl opened ↦ rw (opened) (
      Restarted-then m (decimal (increment_decimal r.revision)) _
        λ revision. Restarted-then m (guard env.store_ok store_failed) _ λ u. (refl, refl))
  | inr shut ↦ rw (shut) (refl, shut)
]

Recovered : Manager → Manager × Result Error (List ConnectionState) → Type 0
Recovered m (m', err e) = Unit
Recovered m (m', ok states) = (m'.connections ≡ m.connections) × All Resting states

with_state-Recovered :
    (m m' : Manager) (o : Manager × Result Error (List ConnectionState)) (s : ConnectionState)
    → m'.connections ≡ m.connections
    → Resting s
    → Recovered m' o
    → Recovered m (with_state o s)
unfolding Recovered
with_state-Recovered m m' (m'', err e) s same rest h = tt
with_state-Recovered m m' (m'', ok states) s same rest h = (h.0 ∙ same, (rest, h.1))

recover_rows-Recovered :
    (env : Env) (rows : List Row) (m : Manager) → Recovered m (recover_rows env rows m)
unfolding recover_rows Recovered Restarted Resting
recover_rows-Recovered env [] m = (refl, tt)
recover_rows-Recovered env (r ∷ rows) m = elim (Bool-cases (is_closed r)) [
  | inl closed ↦ rw (closed) (recover_rows-Recovered env rows m)
  | inr active ↦ elim (Result-cases (lock_on_restart env r m)) [
    | inr (e, failed) ↦ rw (active, failed) tt
    | inl ((m', s), done) ↦
        let (same, shut) = subst (Restarted m) done (lock_on_restart-Restarted env r m) in
        rw (active, done)
          (with_state-Recovered m m' (recover_rows env rows m')
            (new_connection_state s r.profile_id r.profile_rev) same (shut, refl, refl)
            (recover_rows-Recovered env rows m'))
  ]
]

All-delete_rows :
    (p : ConnectionState → Bool) (xs : List ConnectionState)
    → All Resting xs
    → All Resting (delete_rows p xs)
unfolding delete_rows
All-delete_rows p [] h = tt
All-delete_rows p (x ∷ xs) h = elim (Bool-cases (p x)) [
  | inl hit ↦ rw (hit) (All-delete_rows p xs h.1)
  | inr miss ↦ rw (miss) (h.0, All-delete_rows p xs h.1)
]

install-Resting :
    (states connections : List ConnectionState)
    → All Resting states
    → All Resting connections
    → All Resting (install states connections)
unfolding install
install-Resting [] connections hs hc = hc
install-Resting (s ∷ states) connections hs hc =
    install-Resting states _ hs.1 (hs.0, All-delete_rows _ connections hc)

AllResting : Outcome (Unit {0}) → Type 0
AllResting (m, err e) = Unit
AllResting (m, ok u) = All Resting m.connections

install_states-AllResting :
    (m : Manager) (o : Manager × Result Error (List ConnectionState))
    → All Resting m.connections
    → Recovered m o
    → AllResting (install_states o)
unfolding Recovered AllResting
install_states-AllResting m (m', err e) rest h = tt
install_states-AllResting m (m', ok states) rest h =
    install-Resting states m'.connections h.1 (subst (All Resting) (sym h.0) rest)

-- After `Recover` has succeeded on a fresh manager, no generation is unlocked, none has a lease and
-- no lock is pending, whatever mode the stored rows were in.
pub recover-Resting :
    (env : Env) (m after : Manager)
    → m.connections ≡ []
    → recover env m ≡ (after, ok tt)
    → All Resting after.connections
unfolding recover AllResting
recover-Resting env m after fresh run = subst AllResting run (
    install_states-AllResting m (recover_rows env m.rows m) (subst (All Resting) (sym fresh) tt)
      (recover_rows-Recovered env m.rows m))
