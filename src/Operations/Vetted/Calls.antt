-- ===== src/Operations/Vetted/Calls.antt =====
-- `Execute` and `Cancel` keep it too.
use influxdb_desk.Base.{
  ◌≡◌, refl, Bool, not, ◌&&◌, ◌||◌, Option, none, some, leb, is_empty, Result, ok, err,
}
use influxdb_desk.Base.Table.{find_row-All, All-delete_rows}
use influxdb_desk.Decimal.{Bytes, bytes_eq}
use influxdb_desk.Operations.{
  Error, Db, Operation, TokenRecord, ExecuteRequest, CommandEnvelope, Identity, Run, World,
}
use influxdb_desk.Operations.Words.{execute_scope}
use influxdb_desk.Operations.Transactions.{with_immediate, get_in_tx}
use influxdb_desk.Operations.Cancel.{
  Command, Cancelled, validate_cancel_command, replay_cancel_command,
}
use influxdb_desk.Operations.Service.{find_run, has_token, purge_expired}
use influxdb_desk.Operations.Preview.{Grammar}
use influxdb_desk.Operations.Execute.{
  ExecuteEnv, execute_in_tx, start_dispatch, execute_record, purged, execute_locked,
  execute_unlocked, replay_execution, digest_of, execute,
}
use influxdb_desk.Operations.Control.{
  CancelEnv, control_of, cancel_done, cancel_stored, cancel_run, cancel_seen, cancel_replay,
  cancel_lookup, cancel_command, cancel,
}
use influxdb_desk.Operations.Vetted.{GoodRecord, Vetted}
use influxdb_desk.Operations.Vetted.Steps.{if-Vetted}

module _ (g : Grammar) where
  start_dispatch-Vetted :
      (env : ExecuteEnv) (r : TokenRecord) (w : World) (result : Result Error (Db × Operation))
      → GoodRecord g r
      → Vetted g w
      → Vetted g (start_dispatch env r w result).0
  start_dispatch-Vetted env r w (err e) good h = h
  start_dispatch-Vetted env r w (ok (db, o)) good h =
      (All-delete_rows (GoodRecord g) (has_token r.token) w.tokens h.0, (good, h.1), h.2)

  module _ (i : Identity) (env : ExecuteEnv) (scope digest : Bytes) (request : ExecuteRequest) where
    execute_record-Vetted :
        (w : World) (o : Option TokenRecord)
        → ((r : TokenRecord) → o ≡ some r → GoodRecord g r)
        → Vetted g w
        → Vetted g (execute_record i env scope digest request w o).0
    execute_record-Vetted w none good h = h
    execute_record-Vetted w (some r) good h =
        if-Vetted g (r.confirmation_required && not (bytes_eq request.confirmation r.target)) _ _ h
          (if-Vetted g (leb r.expires env.check_time) _ _
            (
              All-delete_rows (GoodRecord g) (has_token request.preview_token) w.tokens h.0,
              h.1,
              h.2,
            )
            (start_dispatch-Vetted env r w
              (with_immediate env.database_up (execute_in_tx i env scope digest r w.db))
              (good r refl) h))

    execute_locked-Vetted :
        (w : World) (found : Result Error (Option Operation))
        → Vetted g w
        → Vetted g (execute_locked i env scope digest request w found).0
    unfolding purge_expired
    execute_locked-Vetted w (err e) h = h
    execute_locked-Vetted w (ok (some o)) h = h
    execute_locked-Vetted w (ok none) h =
        let live =
          All-delete_rows (GoodRecord g) (λ r. leb r.expires env.purge_time) w.tokens h.0 in
        execute_record-Vetted (purged env.purge_time w) _
          (λ r e.
            find_row-All (GoodRecord g) (has_token request.preview_token)
              (purge_expired env.purge_time w.tokens) {x = r} live e)
          (live, h.1, h.2)

    execute_unlocked-Vetted :
        (w : World) (found : Result Error (Option Operation))
        → Vetted g w
        → Vetted g (execute_unlocked i env scope digest request w found).0
    execute_unlocked-Vetted w (err e) h = h
    execute_unlocked-Vetted w (ok (some o)) h = h
    execute_unlocked-Vetted w (ok none) h =
        execute_locked-Vetted w (replay_execution scope digest env.before_transaction) h

  pub execute-Vetted :
      (uuid_valid : Bytes → Bool) (sha256_hex : Bytes → Bytes) (i : Identity) (env : ExecuteEnv)
      (request : ExecuteRequest) (w : World)
      → Vetted g w
      → Vetted g (execute uuid_valid sha256_hex i env request w).0
  unfolding execute
  execute-Vetted uuid_valid sha256_hex i env request w h =
      let digest = digest_of uuid_valid sha256_hex request in
      let scope = execute_scope i.profile_id request.client_request_id in
      if-Vetted g (not (uuid_valid request.client_request_id) || is_empty request.preview_token) _ _
        h
        (execute_unlocked-Vetted i env scope digest request w
          (replay_execution scope digest env.before_lock) h)

  module _ (i : Identity) (id : Bytes) (request : CommandEnvelope) (env : CancelEnv) (w : World)
      (h : Vetted g w) where
    cancel_done-Vetted : (result : Result Error Cancelled) → Vetted g (cancel_done w result).0
    cancel_done-Vetted (err e) = h
    cancel_done-Vetted (ok c) = h

    cancel_stored-Vetted :
        (c : Command) (found : Result Error (Option Operation))
        → Vetted g (cancel_stored id request c env w found).0
    cancel_stored-Vetted c (err e) = h
    cancel_stored-Vetted c (ok (some o)) = h
    cancel_stored-Vetted c (ok none) = cancel_done-Vetted _

    cancel_run-Vetted :
        (c : Command) (o : Option Run) → Vetted g (cancel_run id request c env w o).0
    cancel_run-Vetted c none = cancel_stored-Vetted c (replay_cancel_command id c w.db)
    cancel_run-Vetted c (some r) = cancel_done-Vetted _

    cancel_seen-Vetted :
        (c : Command) (o : Result Error Operation) → Vetted g (cancel_seen i id request c env w o).0
    cancel_seen-Vetted c (err e) = h
    cancel_seen-Vetted c (ok o) =
        if-Vetted g
          (bytes_eq o.connection_id i.connection_id
            && bytes_eq o.connection_generation i.generation)
          _ _ (cancel_run-Vetted c (control_of env.held (find_run id w.runs))) h

    cancel_replay-Vetted :
        (o : Operation) (r : Option Run) → Vetted g (cancel_replay id o env w r).0
    cancel_replay-Vetted o none = h
    cancel_replay-Vetted o (some r) = h

    cancel_lookup-Vetted :
        (c : Command) (found : Result Error (Option Operation))
        → Vetted g (cancel_lookup i id request c env w found).0
    cancel_lookup-Vetted c (err e) = h
    cancel_lookup-Vetted c (ok (some o)) = cancel_replay-Vetted o _
    cancel_lookup-Vetted c (ok none) = cancel_seen-Vetted c (get_in_tx id env.before_gate)

    cancel_command-Vetted :
        (c : Result Error Command) → Vetted g (cancel_command i id request env w c).0
    cancel_command-Vetted (err e) = h
    cancel_command-Vetted (ok c) =
        cancel_lookup-Vetted c (replay_cancel_command id c env.before_gate)

    pub cancel-Vetted :
        (uuid_valid : Bytes → Bool) (sha256_hex : Bytes → Bytes)
        → Vetted g (cancel uuid_valid sha256_hex i id request env w).0
    unfolding cancel
    cancel-Vetted uuid_valid sha256_hex =
        cancel_command-Vetted (validate_cancel_command uuid_valid sha256_hex id request)
