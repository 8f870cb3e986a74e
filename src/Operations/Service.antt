-- ===== src/Operations/Service.antt =====
-- internal/operation/service.go: the maps of the service, and its start after a restart. In this
-- module and its siblings a function is what happens without another thread in between: under the
-- lock of the tokens, behind the dispatch gate, or in one transaction.
use influxdb_desk.Base.{ℕ, Bool, true, false, Option, List, [], ◌∷◌, leb, Result, ok, err}
use influxdb_desk.Base.Table.{find_row, delete_rows}
use influxdb_desk.Decimal.{Bytes, bytes_eq}
use influxdb_desk.Tasks
use influxdb_desk.Tasks.{Meta, IdempotencyEntry, Tables}
use influxdb_desk.Tasks.Recover.{recover_core}
use influxdb_desk.Operations.{Error, Operation, TokenRecord, Phase, ready, Run, World}
use influxdb_desk.Operations.Transactions.{with_core}

abbrev pub Outcome : Type 0
Outcome = World × Result Error Operation

abbrev pub has_token : Bytes → TokenRecord → Bool
has_token token r = bytes_eq r.token token

-- `purgeExpiredLocked`
unfoldable pub purge_expired : ℕ → List TokenRecord → List TokenRecord
purge_expired now tokens = delete_rows (λ r. leb r.expires now) tokens

abbrev pub is_run : Bytes → Run → Bool
is_run id r = bytes_eq r.operation_id id

unfoldable pub find_run : Bytes → List Run → Option Run
find_run id runs = find_row (is_run id) runs

-- `s.controls[operationID] = control`, and the start of the goroutine.
abbrev pub start_run : Bytes → TokenRecord → List Run → List Run
start_run id record_of runs =
    record {
      operation_id = id;
      record_of = record_of;
      started = false;
      phase = ready;
      listed = true;
    }
    ∷ runs

abbrev pub set_phase : Bool → Phase → Run → Run
set_phase started phase r = record r { started = started; phase = phase }

abbrev pub recovered_world : World → Result Tasks.Error (Tables × ℕ) → World
recovered_world w (err e) = record w { tokens = []; runs = [] }
recovered_world w (ok out) = record w { db = with_core w.db out.0; tokens = []; runs = [] }

-- A restart of the process: the maps and the goroutines are gone, and `RecoverCore` runs.
unfoldable pub restart : (ℕ → Bytes) → World → World
unfolding recover_core
restart clock w = recovered_world w (recover_core clock w.db.core)
