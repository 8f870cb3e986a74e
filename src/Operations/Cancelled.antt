-- ===== src/Operations/Cancelled.antt =====
-- What `applyCancel` does to the tasks.
use influxdb_desk.Base.{
  ◌≡◌, refl, sym, ap, ◌∙◌, subst, ◌⊎◌, inl, inr, Bool, true, false, not, ◌||◌, Option, none, some,
  if◌then◌else◌, is_empty, Result, ok, err, guard, or_fail, ◌>>◌, >>=-eq-ok, ok-injective,
  guard-true,
}
use influxdb_desk.Base.Table.{find_row}
use influxdb_desk.Decimal.{Bytes, bytes_eq}
use influxdb_desk.Tasks
use influxdb_desk.Tasks.{Meta, Change, Tables, CommandEntry}
use influxdb_desk.Tasks.Ledger.{is_some, lookup_command, insert_command}
use influxdb_desk.Tasks.Apply.{apply_in_tx}
use influxdb_desk.Tasks.Repository.{get}
use influxdb_desk.Tasks.Restart.{get-tasks}
use influxdb_desk.Operations.{state_conflict, task_error, Db, Operation}
use influxdb_desk.Operations.Transactions.{
  from_tasks, known_task, is_operation, get_in_tx, update_operation, with_core,
}
use influxdb_desk.Operations.Cancel.{
  Command, Cancelled, cancel_change, cancellable, mark_cancelled, entry_of, audit_cancel,
  cancel_open, cancel_outcome, own_command, note_command, cancel_by, apply_cancel,
}
use influxdb_desk.Operations.Effects.{
  Moved, Still, from_tasks-ok, apply-Moved, Moved-Still, add_audit-core, update_operation-core,
}

insert_command-Still :
    (e : CommandEntry) (db out : Tables) → insert_command e db ≡ ok out → Still db out
unfolding insert_command
insert_command-Still e db out h id =
    let free =
      >>=-eq-ok
        (guard (not (is_some (find_row (λ x. bytes_eq x.scope e.scope) db.commands)))
          Tasks.store_failed)
        _ h in
    get-tasks id out db (sym (ap (λ x. x.tasks) (ok-injective free.2)))

get_in_tx-task :
    (id : Bytes) (db : Db) (o : Operation) → get_in_tx id db ≡ ok o → get id db.core ≡ ok o.task
unfolding get_in_tx
get_in_tx-task id db o h =
    let m = >>=-eq-ok (known_task (get id db.core)) _ h in
    let r = >>=-eq-ok (or_fail (find_row (is_operation id) db.operations) _) _ m.2 in
    known (get id db.core) m.1 ∙ ap (λ x. ok x.task) (ok-injective r.2)
  where
    known : (r : Result Tasks.Error Meta) {m : Meta} → known_task r ≡ ok m → r ≡ ok m
    known (ok n) k = ap ok (ok-injective k)
    known (err Tasks.not_found) k = cc
    known (err Tasks.idempotency_conflict) k = cc
    known (err Tasks.command_conflict) k = cc
    known (err Tasks.revision_conflict) k = cc
    known (err Tasks.invalid_decimal) k = cc
    known (err Tasks.invalid_request) k = cc
    known (err Tasks.expiry_required) k = cc
    known (err Tasks.change_type_required) k = cc
    known (err Tasks.invalid_code) k = cc
    known (err Tasks.invalid_message) k = cc
    known (err Tasks.store_failed) k = cc
    known (err Tasks.mirror_missing) k = cc

named_change :
    (started : Bool) (m : Meta)
    → (if is_empty (cancel_change started).state then m.state else (cancel_change started).state)
      ≡ (cancel_change started).state
named_change true m = refl
named_change false m = refl

module _ (id request : Bytes) (c : Command) (started : Bool) (now expires : Bytes) where
  -- The state that the cancellation of an open operation leads to.
  abbrev Cancels : Tables → Tables → Type 0
  Cancels a b = Moved id (cancel_change started).state a b

  cancel_open-Moved :
      (m : Meta) (db : Db) (out : Cancelled)
      → get id db.core ≡ ok m
      → m.terminal ≡ false
      → cancel_open id request c started now expires m db ≡ ok out
      → Cancels db.core out.db.core
  unfolding cancel_open
  cancel_open-Moved m db out found going h =
      let change = cancel_change started in
      let open_ = >>=-eq-ok (guard (cancellable started m.state) state_conflict) _ h in
      let updated = >>=-eq-ok (from_tasks (apply_in_tx m change now db.core)) _ open_.2 in
      let applied = from_tasks-ok (apply_in_tx m change now db.core) updated.1 in
      let marked =
        >>=-eq-ok
          (update_operation id m.state (mark_cancelled change.state now) (with_core db updated.0.0))
          _ updated.2 in
      let kept =
        >>=-eq-ok
          (from_tasks (insert_command (entry_of id c updated.0.1 now expires) marked.0.core)) _
          marked.2 in
      let noted = from_tasks-ok (insert_command _ marked.0.core) kept.1 in
      let audited =
        audit_cancel id (cancel_outcome started) request now (with_core marked.0 kept.0) in
      let o = >>=-eq-ok (get_in_tx id audited) _ kept.2 in
      let same =
        update_operation-core id m.state (mark_cancelled change.state now)
          (with_core db updated.0.0) marked.0 marked.1 in
      let move =
        subst (λ s. Moved id s db.core updated.0.0) (named_change started m)
          (apply-Moved id m change now db.core updated.0 found going applied) in
      let still : Still updated.0.0 kept.0 =
        subst (λ t. Still t kept.0) (sym same)
          (insert_command-Still (entry_of id c updated.0.1 now expires) marked.0.core kept.0
            noted) in
      subst (Cancels db.core)
        (sym (add_audit-core _ (with_core marked.0 kept.0))
          ∙ ap (λ x. x.db.core) (ok-injective o.2))
        (Moved-Still id (cancel_change started).state db.core updated.0.0 kept.0 move still)

  module _ (allow_active : Bool) where
    abbrev Answer : Db → Cancelled → Type 0
    Answer db out =
        Still db.core out.db.core ⊎ ((allow_active ≡ true) × Cancels db.core out.db.core)

    still_open : (a b : Bool) → not (a || b) ≡ true → a ≡ false
    still_open false b h = refl
    still_open true b h = cc

    active : (a b : Bool) → not (a || not b) ≡ true → b ≡ true
    active false true h = refl
    active false false h = cc
    active true b h = cc

    note_command-Still :
        (o : Operation) (db : Db) (out : Cancelled)
        → note_command id c now expires o db ≡ ok out
        → Still db.core out.db.core
    note_command-Still o db out h =
        let kept =
          >>=-eq-ok (from_tasks (insert_command (entry_of id c o.task now expires) db.core)) _ h in
        let noted = from_tasks-ok (insert_command _ db.core) kept.1 in
        subst (Still db.core) (ap (λ x. x.db.core) (ok-injective kept.2))
          (insert_command-Still (entry_of id c o.task now expires) db.core kept.0 noted)

    cancel_current-Answer :
        (over : Bool) (o : Operation) (db : Db) (out : Cancelled)
        → get id db.core ≡ ok o.task
        → (if over then note_command id c now expires o db else (do
          guard (bytes_eq o.task.state_revision c.revision) (task_error Tasks.revision_conflict)
          guard (not (o.task.terminal || not allow_active)) state_conflict
          cancel_open id request c started now expires o.task db))
          ≡ ok out
        → Answer db out
    cancel_current-Answer true o db out found h = inl (note_command-Still o db out h)
    cancel_current-Answer false o db out found h =
        let current =
          >>=-eq-ok
            (guard (bytes_eq o.task.state_revision c.revision) (task_error Tasks.revision_conflict))
            _ h in
        let going =
          >>=-eq-ok (guard (not (o.task.terminal || not allow_active)) state_conflict) _
            current.2 in
        inr (
          active o.task.terminal allow_active (guard-true _ _ going.1),
          cancel_open-Moved o.task db out found
              (still_open o.task.terminal _ (guard-true _ _ going.1)) going.2,
        )

    cancel_by-Answer :
        (entry : Option CommandEntry) (db : Db) (out : Cancelled)
        → cancel_by entry id request c started allow_active now expires db ≡ ok out
        → Answer db out
    cancel_by-Answer (some e) db out h =
        let own = >>=-eq-ok (guard (own_command id e) (task_error Tasks.command_conflict)) _ h in
        let o = >>=-eq-ok (get_in_tx id db) _ own.2 in
        inl (λ i. ap (λ x. get i x.db.core) (sym (ok-injective o.2)))
    cancel_by-Answer none db out h =
        let o = >>=-eq-ok (get_in_tx id db) _ h in
        cancel_current-Answer _ o.0 db out (get_in_tx-task id db o.0 o.1) o.2

    -- A cancellation leaves the tasks, or moves the operation: only where it may, and to
    -- `DISPATCHING` exactly if the round trip has begun.
    pub apply_cancel-Answer :
        (db : Db) (out : Cancelled)
        → apply_cancel id request c started allow_active now expires db ≡ ok out
        → Answer db out
    unfolding apply_cancel
    apply_cancel-Answer db out h =
        let entry = >>=-eq-ok (from_tasks (lookup_command c.scope c.digest db.core)) _ h in
        cancel_by-Answer entry.0 db out entry.2
