-- ===== src/Operations/Created.antt =====
-- What the transaction of `Execute` does to the tasks.
use influxdb_desk.Base.{
  ◌≡◌, sym, ap, ◌∙◌, subst, ◌⊎◌, inl, inr, false, not, Option, none, some, ok, guard, >>=-eq-ok,
  ok-injective,
}
use influxdb_desk.Base.Table.{find_row}
use influxdb_desk.Decimal.{Bytes, bytes_eq}
use influxdb_desk.Tasks
use influxdb_desk.Tasks.{Meta, IdempotencyEntry, Tables}
use influxdb_desk.Tasks.Words.{operation_kind, queued}
use influxdb_desk.Tasks.Ledger.{is_some, lookup_idempotency, insert_idempotency}
use influxdb_desk.Tasks.Repository.{has_id, get, new_task, create_in_tx}
use influxdb_desk.Tasks.Restart.{get-tasks}
use influxdb_desk.Tasks.Replay.{create_in_tx-found}
use influxdb_desk.Tasks.Created.{create_in_tx-others, create_in_tx-meta, create_in_tx-fresh}
use influxdb_desk.Operations.{Db, Operation, TokenRecord, Identity}
use influxdb_desk.Operations.Transactions.{from_tasks}
use influxdb_desk.Operations.Execute.{
  ExecuteEnv, entry_of, insert_operation, execute_found, execute_in_tx, replay_execution,
}
use influxdb_desk.Operations.Effects.{Still, from_tasks-ok}

-- A queued operation has been added, and no other task has changed.
abbrev pub Added : Bytes → Tables → Tables → Type 0
Added id a b =
    (n : Meta) × (find_row (has_id id) a.tasks ≡ none)
    × (get id b ≡ ok n)
    × (n.state ≡ queued)
    × (n.kind ≡ operation_kind)
    × ((other : Bytes) → bytes_eq other id ≡ false → get other b ≡ get other a)

insert_idempotency-Still :
    (e : IdempotencyEntry) (db out : Tables) → insert_idempotency e db ≡ ok out → Still db out
unfolding insert_idempotency
insert_idempotency-Still e db out h id =
    let free =
      >>=-eq-ok (guard (not (is_some (lookup_idempotency e.scope db))) Tasks.store_failed) _ h in
    get-tasks id out db (sym (ap (λ x. x.tasks) (ok-injective free.2)))

module _ (i : Identity) (env : ExecuteEnv) (scope digest : Bytes) (r : TokenRecord) where
  insert_operation-Added :
      (db : Db) (out : Db × Operation)
      → insert_operation i env scope digest r db ≡ ok out
      → Added env.operation_id db.core out.0.core
  insert_operation-Added db out h =
      let task = new_task env.operation_id operation_kind queued false env.now in
      let made = >>=-eq-ok (from_tasks (create_in_tx task env.now db.core)) _ h in
      let created = from_tasks-ok (create_in_tx task env.now db.core) made.1 in
      let entry = entry_of scope digest env.operation_id env.now env.ledger_expires_at in
      let kept = >>=-eq-ok (from_tasks (insert_idempotency entry made.0.0)) _ made.2 in
      let noted = from_tasks-ok (insert_idempotency entry made.0.0) kept.1 in
      let still = insert_idempotency-Still entry made.0.0 kept.0 noted in
      let found = create_in_tx-found task env.now db.core made.0 created in
      let meta = create_in_tx-meta task env.now db.core made.0 created in
      subst (Added env.operation_id db.core) (ap (λ x. x.0.core) (ok-injective kept.2)) (
        made.0.1,
        create_in_tx-fresh task env.now db.core made.0 created,
        still env.operation_id ∙ found.0,
        ap (λ m. m.state) meta.1,
        ap (λ m. m.kind) meta.1,
        λ other apart.
            still other ∙ create_in_tx-others task env.now db.core made.0 created other apart,
      )

  execute_found-Added :
      (found : Option Operation) (db : Db) (out : Db × Operation)
      → execute_found found i env scope digest r db ≡ ok out
      → (db ≡ out.0) ⊎ Added env.operation_id db.core out.0.core
  execute_found-Added (some o) db out h = inl (ap (λ x. x.0) (ok-injective h))
  execute_found-Added none db out h = inr (insert_operation-Added db out h)

  -- The transaction adds an operation, or answers with the one that is on record.
  pub execute_in_tx-Added :
      (db : Db) (out : Db × Operation)
      → execute_in_tx i env scope digest r db ≡ ok out
      → (db ≡ out.0) ⊎ Added env.operation_id db.core out.0.core
  unfolding execute_in_tx
  execute_in_tx-Added db out h =
      let found = >>=-eq-ok (replay_execution scope digest db) _ h in
      execute_found-Added found.0 db out found.2
