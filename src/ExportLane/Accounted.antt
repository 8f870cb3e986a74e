-- ===== src/ExportLane/Accounted.antt =====
-- The books of one record of internal/exportlane/scheduler.go: the quanta are accounted for, and a
-- final state is marked terminal, under each change of a record.
use influxdb_desk.Base.{◌+◌, String, Bool, true, false, Option, some, [], ◌≡◌, length, arith}
use influxdb_desk.ExportLane.{
  State, succeeded, canceled, failed, JobRequest, JobRecord, ExecutionError,
}
use influxdb_desk.ExportLane.Request.{new_record}
use influxdb_desk.ExportLane.Record.{
  cancel_record, restart_record, pause_record, close_record, claim_record, mark_running_record,
  finish_before_dispatch_record, finish_quantum_record,
}

abbrev pub is_final : State → Bool
is_final succeeded = true
is_final canceled = true
is_final failed = true
is_final _ = false

pub record Accounted (r : JobRecord) : Type 0 where
  pub conserved : r.completed + length r.quanta ≡ r.total
  pub exhausted : r.state ≡ succeeded → r.quanta ≡ []
  pub settled : is_final r.state ≡ true → r.terminal ≡ true

pub new_record-Accounted : (q : JobRequest) → Accounted (new_record q)
unfolding new_record
new_record-Accounted q = ground arith

pub cancel_record-Accounted :
    (r r' : JobRecord) → Accounted r → cancel_record r ≡ some r' → Accounted r'
unfolding cancel_record
cancel_record-Accounted r r' v h = ground arith

pub restart_record-Accounted : (r : JobRecord) → Accounted r → Accounted (restart_record r)
unfolding restart_record
restart_record-Accounted r v = ground arith

pub pause_record-Accounted : (r : JobRecord) → Accounted r → Accounted (pause_record r)
unfolding pause_record
pause_record-Accounted r v = ground arith

pub close_record-Accounted : (r : JobRecord) → Accounted r → Accounted (close_record r)
unfolding close_record
close_record-Accounted r v = ground arith

pub claim_record-Accounted : (r : JobRecord) → Accounted r → Accounted (claim_record r)
unfolding claim_record
claim_record-Accounted r v = ground arith

pub mark_running_record-Accounted :
    (q : String) (r r' : JobRecord) → Accounted r → mark_running_record q r ≡ some r' → Accounted r'
unfolding mark_running_record
mark_running_record-Accounted q r r' v h = ground arith

pub finish_before_dispatch_record-Accounted :
    (e : ExecutionError) (r : JobRecord)
    → Accounted r
    → Accounted (finish_before_dispatch_record e r)
unfolding finish_before_dispatch_record
finish_before_dispatch_record-Accounted e r v = ground arith

pub finish_quantum_record-Accounted :
    (q : String) (failure : Option ExecutionError) (r : JobRecord)
    → Accounted r
    → Accounted (finish_quantum_record q failure r)
unfolding finish_quantum_record
finish_quantum_record-Accounted q failure r v = ground arith
