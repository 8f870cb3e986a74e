-- ===== src/ExportLane/Settlement.antt =====
-- What one call does to the job that it is about, and what the caller is told.
use influxdb_desk.Base.{
  ◌+◌, String, true, false, Option, none, some, List, ◌∷◌, ◌≡◌, refl, arith, eq_iff, if◌then◌else◌,
  is_empty, ◌⊎◌, inl, inr, ◌||◌,
}
use influxdb_desk.Base.Dict.{lookup, lookup-insert_self, lookup-map_values}
use influxdb_desk.ExportLane.{
  queued, running, paused_restartable, succeeded, canceled, failed, GenerationKey, JobRecord,
  Quantum, ExecutionError, restartable, header_timeout, idle_timeout, request_deadline,
  deadline_exceeded, context_canceled, unclassified,
}
use influxdb_desk.ExportLane.Record.{
  cancel_record, finish_before_dispatch_record, finish_quantum_record, call_cancel, timeout_code,
}
use influxdb_desk.ExportLane.Scheduler.{
  Scheduler, cancel, finish_before_dispatch, finish_quantum, pause_generation, pause_job,
}
use influxdb_desk.ExportLane.Accounting.{after}

-- The record of a queued job after `Cancel`.
abbrev pub canceled_job : JobRecord → JobRecord
canceled_job r = call_cancel (record r { cancel_flag = true; state = canceled; terminal = true })

pub cancel_record-queued :
    (r : JobRecord) → r.state ≡ queued → cancel_record r ≡ some (canceled_job r)
unfolding cancel_record
cancel_record-queued r h = ground arith

module _ (job : String) (s : Scheduler) {r : JobRecord} (found : lookup job s.jobs ≡ some r) where
  pub lookup-cancel :
      {r' : JobRecord}
      → r.terminal ≡ false
      → cancel_record r ≡ some r'
      → lookup job (after s (cancel job s)).jobs ≡ some r'
  unfolding cancel cancel_record
  lookup-cancel {r' = r'} live done = ground (arith, lookup-insert_self job r' s.jobs)

  pub lookup-finish_before_dispatch :
      (e : ExecutionError)
      → lookup job (finish_before_dispatch job e s).jobs ≡ some (finish_before_dispatch_record e r)
  unfolding finish_before_dispatch
  lookup-finish_before_dispatch e =
      rw (found, finish_before_dispatch) (lookup-insert_self job _ s.jobs)

  pub lookup-finish_quantum :
      (k : GenerationKey) (q : String) (failure : Option ExecutionError)
      → lookup job (finish_quantum k job q failure s).jobs
        ≡ some (finish_quantum_record q failure r)
  unfolding finish_quantum
  lookup-finish_quantum k q failure = rw (found, finish_quantum) (lookup-insert_self job _ s.jobs)

  pub lookup-pause_generation :
      (k : GenerationKey) → lookup job (pause_generation k s).jobs ≡ some (pause_job k r)
  unfolding pause_generation
  lookup-pause_generation k = rw lookup-map_values (rw found)

-- What an error makes of a job, by the kind of the error.
abbrev Paused : String → JobRecord → JobRecord → Type 0
Paused code r r' =
    (r'.state ≡ paused_restartable) × (r'.public_error_code ≡ code) × (r'.terminal ≡ r.terminal)

abbrev Failed : JobRecord → Type 0
Failed r' =
    (r'.state ≡ failed) × (r'.public_error_code ≡ "EXPORT_EXECUTION_FAILED") × (r'.terminal ≡ true)

abbrev Answered : ExecutionError → JobRecord → JobRecord → Type 0
Answered (restartable code) r r' = Paused code r r'
Answered header_timeout r r' = Paused "EXPORT_HEADER_TIMEOUT" r r'
Answered idle_timeout r r' = Paused "EXPORT_IDLE_TIMEOUT" r r'
Answered request_deadline r r' = Paused "EXPORT_REQUEST_DEADLINE" r r'
Answered deadline_exceeded r r' = Paused "EXPORT_REQUEST_DEADLINE" r r'
Answered context_canceled r r' = Failed r'
Answered unclassified r r' = Failed r'

module _ (q : Quantum) (rest : List Quantum) (r : JobRecord) (has : r.quanta ≡ q ∷ rest)
    (st : r.state ≡ running) (kept : r.cancel_flag ≡ false) (on : r.pause_flag ≡ false) where
  success :
      let r' = finish_quantum_record q.id none r in
      (r'.claimed ≡ false)
      × (r'.quanta ≡ rest)
      × (r'.completed ≡ r.completed + 1)
      × (r'.state ≡ (if is_empty rest then succeeded else queued))
      × (r'.terminal ≡ (is_empty rest || r.terminal))
  unfolding finish_quantum_record
  success = ground (arith, eq_iff q.id q.id)

  failed_with :
      (e : ExecutionError)
      → let r' = finish_quantum_record q.id (some e) r in
        (r'.claimed ≡ false) × (r'.quanta ≡ q ∷ rest) × (r'.completed ≡ r.completed)
  unfolding finish_quantum_record timeout_code
  failed_with e = ground arith

  answered : (e : ExecutionError) → Answered e r (finish_quantum_record q.id (some e) r)
  unfolding finish_quantum_record timeout_code
  answered (restartable code) = ground arith
  answered header_timeout = ground arith
  answered idle_timeout = ground arith
  answered request_deadline = ground arith
  answered deadline_exceeded = ground arith
  answered context_canceled = ground arith
  answered unclassified = ground arith

-- The first quantum of a running job that no one canceled or paused has been executed. Success takes
-- exactly this quantum off and counts it; the job is queued again, or succeeded and terminal if the
-- quantum was its last. On an error the quanta and their count stay: a timeout of the header, of the
-- idle connection or of the request pauses the job with the public code of that timeout, an error
-- that names its own code pauses it with that code, and any other error fails it, terminal, with
-- EXPORT_EXECUTION_FAILED. The claim is given up on every branch.
pub finish_quantum_cases :
    (q : Quantum) (rest : List Quantum) (failure : Option ExecutionError) (r : JobRecord)
    → r.quanta ≡ q ∷ rest
    → r.state ≡ running
    → r.cancel_flag ≡ false
    → r.pause_flag ≡ false
    → let r' = finish_quantum_record q.id failure r in
      (r'.claimed ≡ false)
      × ((failure ≡ none)
            × (r'.quanta ≡ rest)
            × (r'.completed ≡ r.completed + 1)
            × (r'.state ≡ (if is_empty rest then succeeded else queued))
            × (r'.terminal ≡ (is_empty rest || r.terminal))
          ⊎ ((e : ExecutionError) × (failure ≡ some e)
              × (r'.quanta ≡ q ∷ rest)
              × (r'.completed ≡ r.completed)
              × Answered e r r'))
finish_quantum_cases q rest none r a b c d =
    let s = success q rest r a b c d in (s.0, inl (refl, s.1, s.2, s.3, s.4))
finish_quantum_cases q rest (some e) r a b c d =
    let s = failed_with q rest r a b c d e in
    (s.0, inr (e, refl, s.1, s.2, answered q rest r a b c d e))
