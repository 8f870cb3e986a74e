-- ===== src/ExportLane/Tests.antt =====
-- An export job of two quanta, and the theorems about it.
use influxdb_desk.Base.{String, Bool, true, false, none, some, List, [], ◌∷◌, ◌≡◌, refl, err}
use influxdb_desk.Base.Dict.{lookup, insert}
use influxdb_desk.ExportLane.{
  queued, running, canceled, GenerationKey, Quantum, time_slice, JobRequest, JobRecord,
  context_canceled, idle_timeout, state_conflict, invalid_job,
}
use influxdb_desk.ExportLane.Request.{new_record, validate_job_request}
use influxdb_desk.ExportLane.Record.{claim_record, finish_quantum_record}
use influxdb_desk.ExportLane.Scheduler.{
  Scheduler, new_scheduler, find_group, submit, claim, cancel, restart, mark_running,
  pause_generation, finish_before_dispatch, finish_quantum,
}
use influxdb_desk.ExportLane.Accounting.{
  Call, submits, claims, marks_running, finishes, after, step, run, run-Accounted,
}
use influxdb_desk.ExportLane.Accounted.{Accounted}
use influxdb_desk.ExportLane.Settlement.{finish_quantum_cases}
use influxdb_desk.ExportLane.Conflict.{pause_cancel_conflict, pause_cancel_running}

abbrev key : GenerationKey
key = record { connection_id = "c"; generation = "1" }

abbrev slice : String → Quantum
slice id = record {
  id = id;
  kind = time_slice;
  request = record { database = "db"; retention_policy = ""; query = "SELECT 1" };
}

abbrev request : JobRequest
request = record { id = "job"; generation = key; quanta = slice "a" ∷ slice "b" ∷ [] }

abbrev one_quantum : List Call
one_quantum =
    submits request ∷ claims key ∷ marks_running "job" "a" ∷ finishes key "job" "a" none ∷ []

abbrev with_lane : GenerationKey → Bool
with_lane k = true

one_quantum_done :
    lookup "job" (run with_lane new_scheduler one_quantum).jobs
    ≡ some (record (new_record request) {
      state = queued;
      completed = 1;
      quanta = slice "b" ∷ [];
      cancel = false;
      context_done = true;
    })
unfolding run step new_scheduler lookup insert finish_quantum mark_running find_group submit claim
    new_record
one_quantum_done = refl

run-Accounted_example : Accounted (record (new_record request) {
  state = queued;
  completed = 1;
  quanta = slice "b" ∷ [];
  cancel = false;
  context_done = true;
})
run-Accounted_example = run-Accounted with_lane one_quantum "job" one_quantum_done

blank_id_refused : validate_job_request (record request { id = " \t" }) ≡ err invalid_job
unfolding validate_job_request
blank_id_refused = refl

-- The job claimed by its generation's goroutine, which waits for the lease.
abbrev claimed : JobRecord
claimed = claim_record (new_record request)

abbrev waiting : Scheduler
waiting = record {
  jobs = ("job", claimed) ∷ [];
  groups = record { key = key; ready = []; wake = false; stopped = false } ∷ [];
  closed = false;
}

waiting_job : lookup "job" waiting.jobs ≡ some claimed
unfolding lookup
waiting_job = refl

abbrev executing : JobRecord
executing = record claimed { state = running; active_quantum_id = "a" }

finish_quantum_cases_example :
    (finish_quantum_record "a" (some idle_timeout) executing).claimed ≡ false
unfolding claim_record new_record
finish_quantum_cases_example =
    (finish_quantum_cases (slice "a") (slice "b" ∷ []) (some idle_timeout) executing refl refl refl
      refl).0

pause_cancel_conflict_example :
    restart "job" (
      finish_before_dispatch "job" context_canceled
        (after (pause_generation key waiting) (cancel "job" (pause_generation key waiting))))
    ≡ err state_conflict
unfolding claim_record new_record
pause_cancel_conflict_example =
    (pause_cancel_conflict key "job" waiting waiting_job refl refl refl context_canceled refl refl
      refl).8

abbrev busy : Scheduler
busy = record waiting { jobs = ("job", executing) ∷ [] }

busy_job : lookup "job" busy.jobs ≡ some executing
unfolding lookup
busy_job = refl

pause_cancel_running_example :
    (r : JobRecord) × (lookup "job"
        (finish_quantum key "job" "a" none
          (after (pause_generation key busy) (cancel "job" (pause_generation key busy)))).jobs
      ≡ some r)
    × (r.state ≡ canceled)
    × (r.terminal ≡ true)
unfolding claim_record new_record
pause_cancel_running_example =
    pause_cancel_running key "job" busy busy_job refl refl refl "a" none refl
