-- ===== src/Operations/Control.antt =====
-- internal/operation/cancel.go: `Cancel`, around the transaction of `applyCancel`.
use influxdb_desk.Base.{
  Bool, true, false, ◌&&◌, ◌||◌, Option, none, some, if◌then◌else◌, Result, ok, err, ◌>>=◌, ◌>>◌,
}
use influxdb_desk.Decimal.{Bytes, bytes_eq}
use influxdb_desk.Protection
use influxdb_desk.Operations.{
  Error, not_found, protection_error, Db, Operation, CommandEnvelope, Identity, Run, World,
}
use influxdb_desk.Operations.Transactions.{with_immediate, get_in_tx}
use influxdb_desk.Operations.Service.{Outcome, find_run}
use influxdb_desk.Operations.Cancel.{
  Command, Cancelled, validate_cancel_command, replay_cancel_command, apply_cancel,
  replayed_operation,
}

-- What `Cancel` finds: the tables at its lookups before the gate, whether it read `controls` before
-- the control was deleted, the answer of `WithGenerationGate`, the times, and whether the database
-- takes the transaction.
pub record CancelEnv : Type 0 where
  pub before_gate : Db
  pub held : Bool
  pub gate : Result Protection.Error (Unit {0})
  pub now : Bytes
  pub ledger_expires_at : Bytes
  pub database_up : Bool

abbrev pub from_protection {ℓ} : {A : Type ℓ} → Result Protection.Error A → Result Error A
from_protection (err e) = err (protection_error e)
from_protection (ok v) = ok v

abbrev pub control_if : Bool → Run → Option Run
control_if true r = some r
control_if false r = none

-- `operationControl`
abbrev pub control_of : Bool → Option Run → Option Run
control_of held none = none
control_of held (some r) = control_if (held || r.listed) r

abbrev pub cancel_done : World → Result Error Cancelled → Outcome
cancel_done w (err e) = (w, err e)
cancel_done w (ok c) = (record w { db = c.db }, ok (record (c.operation) { replayed = c.replayed }))

abbrev pub cancel_stored :
    Bytes
    → CommandEnvelope
    → Command
    → CancelEnv
    → World
    → Result Error (Option Operation)
    → Outcome
cancel_stored id request c env w (err e) = (w, err e)
cancel_stored id request c env w (ok (some o)) = (w, ok o)
cancel_stored id request c env w (ok none) = cancel_done w (
    with_immediate env.database_up
      (apply_cancel id request.command_request_id c false false env.now env.ledger_expires_at w.db))

abbrev pub cancel_gated : Bytes → CommandEnvelope → Command → CancelEnv → Run → World → Outcome
cancel_gated id request c env r w = cancel_done w (do
  from_protection env.gate
  with_immediate env.database_up (
      apply_cancel id request.command_request_id c r.started true env.now env.ledger_expires_at
        w.db))

abbrev pub cancel_run : Bytes → CommandEnvelope → Command → CancelEnv → World → Option Run → Outcome
cancel_run id request c env w none =
    cancel_stored id request c env w (replay_cancel_command id c w.db)
cancel_run id request c env w (some r) = cancel_gated id request c env r w

abbrev pub cancel_seen :
    Identity
    → Bytes
    → CommandEnvelope
    → Command
    → CancelEnv
    → World
    → Result Error Operation
    → Outcome
cancel_seen i id request c env w (err e) = (w, err e)
cancel_seen i id request c env w (ok o) =
    if bytes_eq o.connection_id i.connection_id && bytes_eq o.connection_generation i.generation
    then cancel_run id request c env w (control_of env.held (find_run id w.runs))
    else (w, err not_found)

-- A replayed command waits for the gate where the operation is still controlled.
abbrev pub cancel_replay : Bytes → Operation → CancelEnv → World → Option Run → Outcome
cancel_replay id o env w none = (w, ok o)
cancel_replay id o env w (some r) =
    (w, do from_protection env.gate; fresh ← get_in_tx id w.db; ok (replayed_operation fresh))

abbrev pub cancel_lookup :
    Identity
    → Bytes
    → CommandEnvelope
    → Command
    → CancelEnv
    → World
    → Result Error (Option Operation)
    → Outcome
cancel_lookup i id request c env w (err e) = (w, err e)
cancel_lookup i id request c env w (ok (some o)) =
    cancel_replay id o env w (control_of env.held (find_run id w.runs))
cancel_lookup i id request c env w (ok none) =
    cancel_seen i id request c env w (get_in_tx id env.before_gate)

abbrev pub cancel_command :
    Identity → Bytes → CommandEnvelope → CancelEnv → World → Result Error Command → Outcome
cancel_command i id request env w (err e) = (w, err e)
cancel_command i id request env w (ok c) =
    cancel_lookup i id request c env w (replay_cancel_command id c env.before_gate)

-- `Cancel`
unfoldable pub cancel :
    (Bytes → Bool)
    → (Bytes → Bytes)
    → Identity
    → Bytes
    → CommandEnvelope
    → CancelEnv
    → World
    → Outcome
unfolding validate_cancel_command replay_cancel_command get_in_tx apply_cancel find_run
cancel uuid_valid sha256_hex i id request env w =
    cancel_command i id request env w (validate_cancel_command uuid_valid sha256_hex id request)
