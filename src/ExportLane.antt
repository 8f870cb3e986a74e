-- ===== src/ExportLane.antt =====
-- internal/exportlane/scheduler.go: export jobs of all connection generations, run one quantum at a
-- time. This file has the data; `Scheduler` the methods; the proofs are in the modules below.
pub mod Request
pub mod Scheduler
pub mod Record
pub mod Accounted
pub mod Accounting
pub mod Settlement
pub mod Conflict
mod Tests
use influxdb_desk.Base.{ℕ, String, Bool, true, false, ◌&&◌, Option, List, str_eq, length, is_empty}

pub data State : Type 0 where
  queued running cancel_requested paused_restartable succeeded canceled failed : State

-- `QuantumKind` is a string type.
pub data QuantumKind : Type 0 where
  metadata time_slice : QuantumKind
  other_kind : String → QuantumKind

pub data Error : Type 0 where
  invalid_job duplicate_job job_not_found state_conflict scheduler_closed lane_unavailable : Error

-- What `errors.As` and `errors.Is` can tell of the error of `ExecuteQuantum` or of `Acquire`.
pub data ExecutionError : Type 0 where
  restartable : String → ExecutionError
  header_timeout idle_timeout request_deadline deadline_exceeded : ExecutionError
  context_canceled unclassified : ExecutionError

abbrev pub error_header_timeout : String
error_header_timeout = "EXPORT_HEADER_TIMEOUT"

abbrev pub error_idle_timeout : String
error_idle_timeout = "EXPORT_IDLE_TIMEOUT"

abbrev pub error_request_deadline : String
error_request_deadline = "EXPORT_REQUEST_DEADLINE"

abbrev pub error_execution_failed : String
error_execution_failed = "EXPORT_EXECUTION_FAILED"

pub record GenerationKey : Type 0 where
  pub connection_id : String
  pub generation : String

abbrev pub same_generation : GenerationKey → GenerationKey → Bool
same_generation a b = str_eq a.connection_id b.connection_id && str_eq a.generation b.generation

pub record ReadQuery : Type 0 where
  pub database : String
  pub retention_policy : String
  pub query : String

pub record Quantum : Type 0 where
  pub id : String
  pub kind : QuantumKind
  pub request : ReadQuery

pub record JobRequest : Type 0 where
  pub id : String
  pub generation : GenerationKey
  pub quanta : List Quantum

-- `cancel` says that a cancel function is stored, `context_done` that the claim's context has been
-- canceled by it.
pub record JobRecord : Type 0 where
  pub id : String
  pub generation : GenerationKey
  pub state : State
  pub terminal : Bool
  pub total : ℕ
  pub completed : ℕ
  pub quanta : List Quantum
  pub active_quantum_id : String
  pub cancel_flag : Bool
  pub pause_flag : Bool
  pub public_error_code : String
  pub claimed : Bool
  pub cancel : Bool
  pub context_done : Bool

-- `wake` is the channel of capacity one, `stopped` the closed channel `stop`.
pub record Group : Type 0 where
  pub key : GenerationKey
  pub ready : List String
  pub wake : Bool
  pub stopped : Bool

pub record Snapshot : Type 0 where
  pub id : String
  pub generation : GenerationKey
  pub state : State
  pub terminal : Bool
  pub total_quanta : ℕ
  pub completed_quanta : ℕ
  pub remaining_quanta : ℕ
  pub active_quantum_id : String
  pub cancel_flag : Bool
  pub public_error_code : String

unfoldable pub snapshot : JobRecord → Snapshot
snapshot r = record {
  id = r.id;
  generation = r.generation;
  state = r.state;
  terminal = r.terminal;
  total_quanta = r.total;
  completed_quanta = r.completed;
  remaining_quanta = length r.quanta;
  active_quantum_id = r.active_quantum_id;
  cancel_flag = r.cancel_flag;
  public_error_code = r.public_error_code;
}
