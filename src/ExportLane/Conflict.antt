-- ===== src/ExportLane/Conflict.antt =====
-- A queued job that is claimed, paused with its generation, and then canceled.
use influxdb_desk.Base.{
  String, refl, true, false, Option, none, some, ◌≡◌, ◌∙◌, arith, ok, err, ap, ◌⊎◌, inl, inr,
}
use influxdb_desk.Base.Dict.{lookup}
use influxdb_desk.ExportLane.{
  queued, running, paused_restartable, canceled, cancel_requested, GenerationKey, same_generation,
  JobRecord, ExecutionError, state_conflict, Snapshot, snapshot,
}
use influxdb_desk.ExportLane.Record.{
  finish_before_dispatch_record, finish_quantum_record, cancel_record, pause_record, call_cancel,
}
use influxdb_desk.ExportLane.Scheduler.{
  Scheduler, cancel, restart, pause_generation, pause_job, pausable, finish_before_dispatch,
  finish_quantum,
}
use influxdb_desk.ExportLane.Accounting.{after}
use influxdb_desk.ExportLane.Settlement.{
  canceled_job, cancel_record-queued, lookup-cancel, lookup-finish_before_dispatch,
  lookup-finish_quantum, lookup-pause_generation,
}

abbrev marked : JobRecord → JobRecord
marked r = call_cancel (record r { pause_flag = true })

paused_job :
    (k : GenerationKey) (r : JobRecord)
    → (r.state ≡ queued) × (r.claimed ≡ true) ⊎ (r.state ≡ running)
    → r.terminal ≡ false
    → r.cancel_flag ≡ false
    → same_generation r.generation k ≡ true
    → pause_job k r ≡ marked r
unfolding pausable pause_record
paused_job k r st live plain gen = ground arith

closed-cancel :
    (job : String) (s : Scheduler) (o : Option JobRecord)
    → lookup job s.jobs ≡ o
    → (after s (cancel job s)).closed ≡ s.closed
unfolding cancel
closed-cancel job s none h = ground arith
closed-cancel job s (some r) h = ground arith

closed-finish_before_dispatch :
    (job : String) (e : ExecutionError) (s : Scheduler)
    → (finish_before_dispatch job e s).closed ≡ s.closed
unfolding finish_before_dispatch
closed-finish_before_dispatch job e s = ground arith

module _ (job : String) (t : Scheduler) {r : JobRecord} (found : lookup job t.jobs ≡ some r) where
  restart_terminal : t.closed ≡ false → r.terminal ≡ true → restart job t ≡ err state_conflict
  unfolding restart
  restart_terminal open_ fin = ground arith

  cancel_terminal : r.terminal ≡ true → cancel job t ≡ ok (t, snapshot r)
  unfolding cancel
  cancel_terminal fin = ground arith

  cancel-answer :
      {r' : JobRecord}
      → r.terminal ≡ false
      → cancel_record r ≡ some r'
      → cancel job t ≡ ok (after t (cancel job t), snapshot r')
  unfolding cancel cancel_record
  cancel-answer live done = ground arith

canceled_answer :
    (r : JobRecord)
    → ((snapshot (canceled_job r)).state ≡ canceled) × ((snapshot (canceled_job r)).terminal ≡ true)
unfolding snapshot
canceled_answer r = (refl, refl)

given_up :
    (e : ExecutionError) (r : JobRecord)
    → let r' = finish_before_dispatch_record e (canceled_job (marked r)) in
      (r'.state ≡ paused_restartable) × (r'.terminal ≡ true)
unfolding finish_before_dispatch_record
given_up e r = ground arith

canceling : JobRecord → JobRecord
canceling r = call_cancel (record r { cancel_flag = true; state = cancel_requested })

cancel_record-running : (r : JobRecord) → r.state ≡ running → cancel_record r ≡ some (canceling r)
unfolding cancel_record canceling
cancel_record-running r st = ground arith

settled :
    (q : String) (failure : Option ExecutionError) (r : JobRecord)
    → let r' = finish_quantum_record q failure (canceling r) in
      (r'.state ≡ canceled) × (r'.terminal ≡ true)
unfolding finish_quantum_record canceling
settled q failure r = ground arith

module _ (k : GenerationKey) (job : String) (s : Scheduler) {r : JobRecord}
    (found : lookup job s.jobs ≡ some r) (gen : same_generation r.generation k ≡ true)
    (live : r.terminal ≡ false) (plain : r.cancel_flag ≡ false) where
  -- A job whose claim has not reached its lease is paused with its generation and then canceled: the
  -- cancel succeeds, and its answer says canceled and terminal. Once the goroutine gives the claim up
  -- the job reads paused and restartable while it stays terminal, whatever error ended the wait for
  -- the lease. From then on a restart is refused and a cancel changes nothing and answers with the
  -- job as it is. The job is queued and claimed, not terminal, not canceled before, and the scheduler
  -- is open.
  pub pause_cancel_conflict :
      (e : ExecutionError)
      → s.closed ≡ false
      → r.state ≡ queued
      → r.claimed ≡ true
      → let paused = pause_generation k s in
        let t = finish_before_dispatch job e (after paused (cancel job paused)) in
        (answer : Snapshot) × (r' : JobRecord) × (cancel job paused
          ≡ ok (after paused (cancel job paused), answer))
        × (answer.state ≡ canceled)
        × (answer.terminal ≡ true)
        × (lookup job t.jobs ≡ some r')
        × (r'.state ≡ paused_restartable)
        × (r'.terminal ≡ true)
        × (restart job t ≡ err state_conflict)
        × (cancel job t ≡ ok (t, snapshot r'))
  unfolding pause_generation
  pause_cancel_conflict e open_ st cl =
      let paused = pause_generation k s in
      let first : lookup job paused.jobs ≡ some (marked r) =
        lookup-pause_generation job s found k
        ∙ ap some (paused_job k r (inl (st, cl)) live plain gen) in
      let second = lookup-cancel job paused first live (cancel_record-queued (marked r) st) in
      let third = lookup-finish_before_dispatch job (after paused (cancel job paused)) second e in
      let t = finish_before_dispatch job e (after paused (cancel job paused)) in
      let still : t.closed ≡ false =
        closed-finish_before_dispatch job e _ ∙ closed-cancel job paused _ first ∙ open_ in
      let (state, fin) = given_up e r in
      (
        snapshot (canceled_job (marked r)),
        finish_before_dispatch_record e (canceled_job (marked r)),
        cancel-answer job paused first live (cancel_record-queued (marked r) st),
        (canceled_answer (marked r)).0,
        (canceled_answer (marked r)).1,
        third,
        state,
        fin,
        restart_terminal job t third still fin,
        cancel_terminal job t third fin,
      )

  -- The same two calls on a job that is already running end in a canceled job.
  pub pause_cancel_running :
      (q : String) (failure : Option ExecutionError)
      → r.state ≡ running
      → let paused = pause_generation k s in
        let t = finish_quantum k job q failure (after paused (cancel job paused)) in
        (r' : JobRecord) × (lookup job t.jobs ≡ some r')
        × (r'.state ≡ canceled)
        × (r'.terminal ≡ true)
  pause_cancel_running q failure st =
      let paused = pause_generation k s in
      let first : lookup job paused.jobs ≡ some (marked r) =
        lookup-pause_generation job s found k ∙ ap some (paused_job k r (inr st) live plain gen) in
      let second = lookup-cancel job paused first live (cancel_record-running (marked r) st) in
      let third = lookup-finish_quantum job (after paused (cancel job paused)) second k q failure in
      let (state, fin) = settled q failure (marked r) in
      (finish_quantum_record q failure (canceling (marked r)), third, state, fin)
