-- ===== src/ExportLane/Record.antt =====
-- What each method writes into the one record it is about.
use influxdb_desk.Base.{
  ◌+◌, String, Bool, true, false, not, ◌&&◌, ◌||◌, Option, none, some, List, [], ◌∷◌, str_eq,
  if◌then◌else◌, is_empty,
}
use influxdb_desk.ExportLane.{
  State, queued, running, cancel_requested, paused_restartable, succeeded, canceled, failed,
  ExecutionError, restartable, header_timeout, idle_timeout, request_deadline, deadline_exceeded,
  context_canceled, Quantum, JobRecord, error_header_timeout, error_idle_timeout,
  error_request_deadline, error_execution_failed,
}

abbrev pub is_queued : State → Bool
is_queued queued = true
is_queued _ = false

abbrev pub is_cancel_requested : State → Bool
is_cancel_requested cancel_requested = true
is_cancel_requested _ = false

abbrev pub is_paused : State → Bool
is_paused paused_restartable = true
is_paused _ = false

abbrev pub is_canceled : State → Bool
is_canceled canceled = true
is_canceled _ = false

abbrev pub is_executing : State → Bool
is_executing running = true
is_executing cancel_requested = true
is_executing _ = false

-- `if record.cancel != nil { record.cancel() }`
abbrev pub call_cancel : JobRecord → JobRecord
call_cancel r = record r { context_done = r.cancel || r.context_done }

unfoldable pub clear_claim : JobRecord → JobRecord
clear_claim r = record r {
  context_done = r.cancel || r.context_done;
  cancel = false;
  claimed = false;
  active_quantum_id = "";
}

abbrev pub settle : State → JobRecord → JobRecord
settle s r = record r { state = s; terminal = true }

abbrev pub fail : JobRecord → JobRecord
fail r = record r { state = failed; terminal = true; public_error_code = error_execution_failed }

-- The `switch` of `Cancel`, behind its guard. `none` is its `default`, which sets the flag and fails;
-- the states that are left for it are terminal, so that the guard has returned before.
unfoldable pub cancel_record : JobRecord → Option JobRecord
cancel_record r = elim r.state [
  | queued ↦ some (call_cancel (record r { cancel_flag = true; state = canceled; terminal = true }))
  | running ↦ some (call_cancel (record r { cancel_flag = true; state = cancel_requested }))
  | cancel_requested ↦
      some (call_cancel (record r { cancel_flag = true; state = cancel_requested }))
  | paused_restartable ↦ some (record r { cancel_flag = true; state = canceled; terminal = true })
  | _ ↦ none
]

unfoldable pub restart_record : JobRecord → JobRecord
restart_record r = record r {
  state = queued;
  cancel_flag = false;
  pause_flag = false;
  public_error_code = "";
}

-- The body of the first loop of `PauseGeneration`, behind its `continue`.
unfoldable pub pause_record : JobRecord → JobRecord
pause_record r = elim r.state [
  | queued ↦
      if not r.claimed
      then record r { pause_flag = true; state = paused_restartable }
      else call_cancel (record r { pause_flag = true })
  | running ↦ call_cancel (record r { pause_flag = true })
  | cancel_requested ↦ call_cancel (record r { pause_flag = true })
  | _ ↦ record r { pause_flag = true }
]

-- The body of the first loop of `Close`.
unfoldable pub close_record : JobRecord → JobRecord
close_record r =
    if r.terminal
    then r
    else if is_executing r.state
    then call_cancel (record r { pause_flag = true })
    else call_cancel (record r { pause_flag = true; state = paused_restartable })

-- The guard of `claim`.
unfoldable pub claimable : JobRecord → Bool
claimable r = is_queued r.state && not r.terminal && not r.claimed && not (is_empty r.quanta)

unfoldable pub claim_record : JobRecord → JobRecord
claim_record r = record r { claimed = true; cancel = true; context_done = false }

unfoldable pub mark_running_record : String → JobRecord → Option JobRecord
mark_running_record quantum_id r =
    if is_queued r.state && not r.terminal && not r.cancel_flag && r.claimed
    then some (record r { state = running; active_quantum_id = quantum_id })
    else none

abbrev pub is_context_canceled : ExecutionError → Bool
is_context_canceled context_canceled = true
is_context_canceled _ = false

unfoldable pub finish_before_dispatch_record : ExecutionError → JobRecord → JobRecord
unfolding clear_claim
finish_before_dispatch_record e r =
    let c = clear_claim r in
    if c.pause_flag
    then record c { state = paused_restartable }
    else if c.terminal || c.cancel_flag || is_context_canceled e
    then settle canceled c
    else fail c

unfoldable pub timeout_code : ExecutionError → Option String
timeout_code (restartable code) = some code
timeout_code header_timeout = some error_header_timeout
timeout_code idle_timeout = some error_idle_timeout
timeout_code request_deadline = some error_request_deadline
timeout_code deadline_exceeded = some error_request_deadline
timeout_code _ = none

abbrev pub finish_error : Option String → JobRecord → JobRecord
finish_error (some code) r = record r { state = paused_restartable; public_error_code = code }
finish_error none r = fail r

-- The tail of `finishQuantum`: the quantum that was executed is the first one.
abbrev pub advance : String → List Quantum → JobRecord → JobRecord
advance quantum_id [] r = fail r
advance quantum_id (q ∷ rest) r =
    if str_eq q.id quantum_id
    then (if is_empty rest
        then record r {
          quanta = rest;
          completed = r.completed + 1;
          state = succeeded;
          terminal = true;
        }
        else record r { quanta = rest; completed = r.completed + 1; state = queued })
    else fail r

unfoldable pub finish_quantum_record : String → Option ExecutionError → JobRecord → JobRecord
unfolding clear_claim timeout_code
finish_quantum_record quantum_id failure r =
    let c = clear_claim r in
    if c.cancel_flag || is_cancel_requested c.state
    then settle canceled c
    else if c.pause_flag
    then record c { state = paused_restartable; public_error_code = error_execution_failed }
    else elim failure [
      | some e ↦ finish_error (timeout_code e) c
      | none ↦ advance quantum_id c.quanta c
    ]
