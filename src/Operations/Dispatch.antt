-- ===== src/Operations/Dispatch.antt =====
-- internal/operation/service.go: the goroutine of `dispatch`, from the gate to its end.
use influxdb_desk.Base.{
  ℕ, Bool, true, false, ◌||◌, Option, none, some, List, [], ◌∷◌, ltb, leb, if◌then◌else◌, is_empty,
  length, Result, ok, err,
}
use influxdb_desk.Base.Table.{update_rows}
use influxdb_desk.Decimal.{Bytes}
use influxdb_desk.Protection
use influxdb_desk.Tasks.Words.{dispatching, outcome_unknown}
use influxdb_desk.Operations.{
  TokenRecord, MutationQuery, Error, Db, Phase, ready, failed, waiting, ended, Run, World,
}
use influxdb_desk.Operations.Words.{
  succeeded, rejected, rejected_not_sent, failed_internal_not_sent, attempted, unknown,
  authorization_rejected, start_failed, mutation_unknown, mutation_rejected, not_sent_message,
  unknown_message, rejected_message,
}
use influxdb_desk.Operations.Transactions.{with_immediate, transition, finish}
use influxdb_desk.Operations.Service.{is_run, find_run, set_phase}

-- What `dispatch` finds at the gate: the answer of `BeginMutationDispatch`, the time, whether the
-- database takes the transaction, and whether `BeginRoundTrip` returns no error.
pub record DispatchEnv : Type 0 where
  pub authorized : Result Protection.Error (Unit {0})
  pub now : Bytes
  pub database_up : Bool
  pub begun : Bool

abbrev pub set_run : Bytes → Bool → Phase → World → World
set_run id started phase w = record w {
  runs = update_rows (is_run id) (set_phase started phase) w.runs;
}

abbrev pub mutation_query : TokenRecord → MutationQuery
mutation_query r = record {
  database = r.database;
  retention_policy = r.retention_policy;
  query = r.canonical_query;
}

-- `beginRoundTrip` of `dispatch`
abbrev pub round_trip : Bytes → TokenRecord → Bool → Db → World → World
round_trip id r true db w = record (set_run id true waiting w) {
  db = db;
  sent = id ∷ w.sent;
  requests = mutation_query r ∷ w.requests;
}
round_trip id r false db w = record (set_run id false (failed true) w) { db = db }

abbrev pub persisted : Bytes → TokenRecord → Bool → World → Result Error Db → World
persisted id r begun w (err e) = set_run id false (failed true) w
persisted id r begun w (ok db) = round_trip id r begun db w

abbrev pub at_gate :
    Bytes → TokenRecord → DispatchEnv → World → Result Protection.Error (Unit {0}) → World
at_gate id r env w (err e) = set_run id false (failed false) w
at_gate id r env w (ok u) = persisted id r env.begun w (
    with_immediate env.database_up
      (transition id dispatching false dispatching attempted env.now w.db))

abbrev pub begin_ready : Bytes → TokenRecord → DispatchEnv → World → Phase → World
begin_ready id r env w ready = at_gate id r env w env.authorized
begin_ready id r env w (failed p) = w
begin_ready id r env w waiting = w
begin_ready id r env w ended = w

abbrev pub begin_run : Bytes → DispatchEnv → World → Option Run → World
begin_run id env w none = w
begin_run id env w (some r) = begin_ready id r.record_of env w r.phase

-- `dispatch`, behind the gate: `transition`, then the start of the round trip.
unfoldable pub begin_dispatch : Bytes → DispatchEnv → World → World
unfolding find_run transition
begin_dispatch id env w = begin_run id env w (find_run id w.runs)

-- A response: its status, and its body if it could be read.
pub record Response : Type 0 where
  pub status : ℕ
  pub body : Option Bytes

-- The decoded body: whether it has an error, and whether each result has one.
pub record Envelope : Type 0 where
  pub error : Bool
  pub results : List Bool

pub record Verdict : Type 0 where
  pub state : Bytes
  pub code : Bytes
  pub message : Bytes
  pub audit : Bytes

abbrev pub unknown_verdict : Verdict
unknown_verdict = record {
  state = outcome_unknown;
  code = mutation_unknown;
  message = unknown_message;
  audit = unknown;
}

abbrev pub rejected_verdict : Verdict
rejected_verdict = record {
  state = rejected;
  code = mutation_rejected;
  message = rejected_message;
  audit = rejected;
}

abbrev pub succeeded_verdict : Verdict
succeeded_verdict = record { state = succeeded; code = []; message = []; audit = succeeded }

abbrev pub any_error : List Bool → Bool
any_error [] = false
any_error (e ∷ rest) = e || any_error rest

abbrev pub envelope_verdict : Option Envelope → Verdict
envelope_verdict none = unknown_verdict
envelope_verdict (some e) =
    if is_empty e.results
    then unknown_verdict
    else if e.error || any_error e.results
    then rejected_verdict
    else succeeded_verdict

abbrev pub max_response_bytes : ℕ
max_response_bytes = 65536

-- `decode` is the JSON decoder on a whole body: none for an error, or for something behind it.
abbrev pub body_verdict : (Bytes → Option Envelope) → Option Bytes → Verdict
body_verdict decode none = unknown_verdict
body_verdict decode (some body) =
    if ltb max_response_bytes (length body) then unknown_verdict else envelope_verdict (decode body)

-- `classifyMutationResponse`
unfoldable pub classify_mutation_response : (Bytes → Option Envelope) → Response → Verdict
classify_mutation_response decode r =
    if ltb r.status 200 || leb 300 r.status
    then (if leb 500 r.status then unknown_verdict else rejected_verdict)
    else body_verdict decode r.body

-- `attempt.Wait()`: no response is an error.
abbrev pub response_verdict : (Bytes → Option Envelope) → Option Response → Verdict
response_verdict decode none = unknown_verdict
response_verdict decode (some r) = classify_mutation_response decode r

abbrev pub not_sent_verdict : Bool → Verdict
not_sent_verdict true = record {
  state = failed_internal_not_sent;
  code = start_failed;
  message = not_sent_message;
  audit = rejected;
}
not_sent_verdict false = record {
  state = rejected_not_sent;
  code = authorization_rejected;
  message = not_sent_message;
  audit = rejected;
}

-- The error of `finish` is dropped.
abbrev pub finished_db : Db → Result Error Db → Db
finished_db db (ok db') = db'
finished_db db (err e) = db

abbrev pub write_verdict : Bytes → Verdict → Bytes → Bool → World → World
write_verdict id v now up w = record w {
  db = finished_db w.db (with_immediate up (finish id v.state v.code v.message v.audit now w.db));
}

abbrev pub end_run : Bytes → World → World
end_run id w = record w { runs = update_rows (is_run id) (λ r. record r { phase = ended }) w.runs }

abbrev pub finish_phase :
    (Bytes → Option Envelope) → Bytes → Option Response → Bytes → Bool → World → Phase → World
finish_phase decode id response now up w ready = w
finish_phase decode id response now up w (failed p) =
    end_run id (write_verdict id (not_sent_verdict p) now up w)
finish_phase decode id response now up w waiting =
    end_run id (write_verdict id (response_verdict decode response) now up w)
finish_phase decode id response now up w ended = w

abbrev pub finish_run :
    (Bytes → Option Envelope) → Bytes → Option Response → Bytes → Bool → World → Option Run → World
finish_run decode id response now up w none = w
finish_run decode id response now up w (some r) = finish_phase decode id response now up w r.phase

-- `dispatch`, after the gate: `finish` with what the round trip ended in.
unfoldable pub finish_dispatch :
    (Bytes → Option Envelope) → Bytes → Option Response → Bytes → Bool → World → World
unfolding find_run finish classify_mutation_response
finish_dispatch decode id response now up w =
    finish_run decode id response now up w (find_run id w.runs)

-- The deferred `delete(s.controls, operationID)`. The entry stays in the model, as a cancellation
-- that has read the map may still hold its control.
abbrev pub unlist : Run → Run
unlist r = record r { listed = false }

abbrev pub leave_phase : Bytes → World → Phase → World
leave_phase id w ready = w
leave_phase id w (failed p) = w
leave_phase id w waiting = w
leave_phase id w ended = record w { runs = update_rows (is_run id) unlist w.runs }

abbrev pub leave_run : Bytes → World → Option Run → World
leave_run id w none = w
leave_run id w (some r) = leave_phase id w r.phase

unfoldable pub leave_dispatch : Bytes → World → World
unfolding find_run
leave_dispatch id w = leave_run id w (find_run id w.runs)
