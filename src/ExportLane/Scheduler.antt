-- ===== src/ExportLane/Scheduler.antt =====
-- The methods of `Scheduler`. Each runs under the mutex. A job's record is shared by address, so a
-- method writes it back under its id.
use influxdb_desk.Base.{
  String, Bool, true, false, not, ◌&&◌, ◌||◌, Option, none, some, List, [], ◌∷◌, ◌++◌, str_eq,
  if◌then◌else◌, Result, ok, err, guard, or_fail, ◌>>=◌, ◌>>◌,
}
use influxdb_desk.Base.Dict.{Dict, lookup, insert, map_values}
use influxdb_desk.ExportLane.{
  GenerationKey, same_generation, JobRequest, JobRecord, Group, Snapshot, snapshot, Error,
  duplicate_job, job_not_found, state_conflict, scheduler_closed, lane_unavailable, ExecutionError,
}
use influxdb_desk.ExportLane.Request.{validate_job_request, new_record}
use influxdb_desk.ExportLane.Record.{
  is_queued, is_paused, is_canceled, cancel_record, restart_record, pause_record, close_record,
  claimable, claim_record, mark_running_record, finish_before_dispatch_record,
  finish_quantum_record,
}

pub record Scheduler : Type 0 where
  pub jobs : Dict JobRecord
  pub groups : List Group
  pub closed : Bool

unfoldable pub new_scheduler : Scheduler
new_scheduler = record { jobs = []; groups = []; closed = false }

-- `s.groups[key]`
unfoldable pub find_group : GenerationKey → List Group → Option Group
find_group k [] = none
find_group k (g ∷ gs) = if same_generation g.key k then some g else find_group k gs

-- A write through the pointer `s.groups[key]`.
unfoldable pub update_group : GenerationKey → (Group → Group) → List Group → List Group
update_group k f [] = []
update_group k f (g ∷ gs) = if same_generation g.key k then f g ∷ gs else g ∷ update_group k f gs

unfoldable pub remove_job : List String → String → List String
remove_job [] job = []
remove_job (x ∷ xs) job = if str_eq x job then xs else x ∷ remove_job xs job

-- `group.ready = append(group.ready, id)` and `notify(group.wake)`
abbrev pub push_ready : String → Group → Group
push_ready job g = record g { ready = g.ready ++ job ∷ []; wake = true }

abbrev pub drop_ready : String → Group → Group
drop_ready job g = record g { ready = remove_job g.ready job }

abbrev new_group : GenerationKey → Group
new_group k = record { key = k; ready = []; wake = false; stopped = false }

-- The group of a request, made if the lane provider has a lane for it.
abbrev group_for : (GenerationKey → Bool) → GenerationKey → List Group → Result Error (List Group)
group_for has_lane k gs = elim (find_group k gs) [
  | some _ ↦ ok gs
  | none ↦ if has_lane k then ok (new_group k ∷ gs) else err lane_unavailable
]

abbrev is_none : Option JobRecord → Bool
is_none none = true
is_none (some _) = false

abbrev pub put_job : String → JobRecord → Scheduler → Scheduler
put_job job r s = record s { jobs = insert job r s.jobs }

-- `has_lane` says for which generations the lane provider returns a lane.
unfoldable pub submit :
    (GenerationKey → Bool) → JobRequest → Scheduler → Result Error (Scheduler × Snapshot)
unfolding validate_job_request new_record find_group update_group snapshot
submit has_lane request s = do
  validate_job_request request
  guard (not s.closed) scheduler_closed
  guard (is_none (lookup request.id s.jobs)) duplicate_job
  gs ← group_for has_lane request.generation s.groups
  let r = new_record request
  ok (
    record s {
      jobs = insert request.id r s.jobs;
      groups = update_group request.generation (push_ready request.id) gs;
    },
    snapshot r,
  )

unfoldable pub get : String → Scheduler → Result Error Snapshot
unfolding snapshot
get job s = do r ← or_fail (lookup job s.jobs) job_not_found; ok (snapshot r)

-- The ready queue changes only where the job was queued.
abbrev canceled_groups : String → JobRecord → List Group → List Group
canceled_groups job r gs =
    if is_queued r.state then update_group r.generation (drop_ready job) gs else gs

unfoldable pub cancel : String → Scheduler → Result Error (Scheduler × Snapshot)
unfolding cancel_record update_group remove_job snapshot
cancel job s = do
  r ← or_fail (lookup job s.jobs) job_not_found
  if r.terminal || is_canceled r.state then ok (s, snapshot r) else do
    r' ← or_fail (cancel_record r) state_conflict
    ok (
      record s { jobs = insert job r' s.jobs; groups = canceled_groups job r s.groups },
      snapshot r',
    )

unfoldable pub restart : String → Scheduler → Result Error (Scheduler × Snapshot)
unfolding restart_record update_group snapshot
restart job s = do
  guard (not s.closed) scheduler_closed
  r ← or_fail (lookup job s.jobs) job_not_found
  guard (is_paused r.state && not r.terminal && not r.claimed) state_conflict
  let r' = restart_record r
  ok (
    record s {
      jobs = insert job r' s.jobs;
      groups = update_group r.generation (push_ready job) s.groups;
    },
    snapshot r',
  )

-- The test of the first loop of `PauseGeneration`.
unfoldable pub pausable : GenerationKey → JobRecord → Bool
pausable k r = same_generation r.generation k && not (r.terminal || r.cancel_flag)

abbrev pub pause_job : GenerationKey → JobRecord → JobRecord
pause_job k r = if pausable k r then pause_record r else r

-- The ids that the loop takes out of the ready queue.
unfoldable pub drop_paused : GenerationKey → Dict JobRecord → List String → List String
unfolding pausable remove_job
drop_paused k [] ready = ready
drop_paused k ((_, r) ∷ m) ready =
    drop_paused k m (if pausable k r && is_queued r.state then remove_job ready r.id else ready)

-- `PauseGeneration` up to its wait.
unfoldable pub pause_generation : GenerationKey → Scheduler → Scheduler
unfolding pausable pause_record drop_paused update_group map_values
pause_generation k s = record s {
  jobs = map_values (pause_job k) s.jobs;
  groups = update_group k (λ g. record g { ready = drop_paused k s.jobs g.ready }) s.groups;
}

-- The test of its wait loop: some paused job of the generation is still claimed.
unfoldable pub pause_pending : GenerationKey → Dict JobRecord → Bool
pause_pending k [] = false
pause_pending k ((_, r) ∷ m) =
    (same_generation r.generation k && r.pause_flag && r.claimed) || pause_pending k m

unfoldable pub stop_all : List Group → List Group
stop_all [] = []
stop_all (g ∷ gs) = record g { stopped = true } ∷ stop_all gs

unfoldable pub close : Scheduler → Scheduler
unfolding close_record map_values stop_all
close s =
    if s.closed
    then s
    else record { jobs = map_values close_record s.jobs; groups = stop_all s.groups; closed = true }

-- The loop of `claim` over the ready queue: what is left of it, and the job that is claimed.
unfoldable pub claim_from : Dict JobRecord → List String → List String × Option (String × JobRecord)
unfolding claimable
claim_from jobs [] = ([], none)
claim_from jobs (job ∷ rest) =
    let later = claim_from jobs rest in
    elim (lookup job jobs) [
      | none ↦ later
      | some r ↦ if claimable r then (rest, some (job, r)) else later
    ]

abbrev pub claimed_job : Option (String × JobRecord) → Scheduler → Scheduler
claimed_job none s = s
claimed_job (some (job, r)) s = put_job job (claim_record r) s

unfoldable pub claim : Group → Scheduler → Scheduler × Option String
unfolding claim_from claim_record update_group
claim g s =
    let (ready, found) = claim_from s.jobs g.ready in
    (
      claimed_job found
          (record s { groups = update_group g.key (λ h. record h { ready = ready }) s.groups }),
      elim found [ none ↦ none | some (job, _) ↦ some job ],
    )

abbrev pub marked_job : String → Option JobRecord → Scheduler → Scheduler × Bool
marked_job job none s = (s, false)
marked_job job (some r) s = (put_job job r s, true)

unfoldable pub mark_running : String → String → Scheduler → Scheduler × Bool
unfolding mark_running_record
mark_running job quantum_id s = elim (lookup job s.jobs) [
  | none ↦ (s, false)
  | some r ↦ marked_job job (mark_running_record quantum_id r) s
]

unfoldable pub finish_before_dispatch : String → ExecutionError → Scheduler → Scheduler
unfolding finish_before_dispatch_record
finish_before_dispatch job e s = elim (lookup job s.jobs) [
  | none ↦ s
  | some r ↦ put_job job (finish_before_dispatch_record e r) s
]

-- A record that `finishQuantum` leaves queued goes to the end of the ready queue.
unfoldable pub finish_quantum :
    GenerationKey → String → String → Option ExecutionError → Scheduler → Scheduler
unfolding finish_quantum_record update_group
finish_quantum key job quantum_id failure s = elim (lookup job s.jobs) [
  | none ↦ s
  | some r ↦
      let r' = finish_quantum_record quantum_id failure r in
      record s {
        jobs = insert job r' s.jobs;
        groups =
            if is_queued r'.state then update_group key (push_ready job) s.groups else s.groups;
      }
]
