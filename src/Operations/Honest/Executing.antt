-- ===== src/Operations/Honest/Executing.antt =====
-- `Execute` keeps the invariant.
use influxdb_desk.Base.{
  ℕ, zero, suc, ◌<◌, ◌≡◌, refl, sym, ap, ◌∙◌, subst, inl, inr, Bool, true, false, not, ◌&&◌, ◌||◌,
  Option, none, some, List, leb, if◌then◌else◌, is_empty, Result, ok, err, or_fail, arith,
  ok-injective, Bool-cases,
}
use influxdb_desk.Base.Table.{find_row, delete_rows}
use influxdb_desk.Decimal.{Bytes, bytes_eq}
use influxdb_desk.Decimal.Equality.{bytes_eq_refl, bytes_eq→≡}
use influxdb_desk.Tasks
use influxdb_desk.Tasks.{Meta, Change, Tables}
use influxdb_desk.Tasks.Words.{operation_kind}
use influxdb_desk.Tasks.Repository.{has_id, get}
use influxdb_desk.Tasks.Created.{swapped_apart}
use influxdb_desk.Operations.{
  Error, Db, Operation, Phase, TokenRecord, ExecuteRequest, Identity, Run, World,
}
use influxdb_desk.Operations.Words.{execute_scope}
use influxdb_desk.Operations.Transactions.{with_immediate}
use influxdb_desk.Operations.Service.{find_run, start_run, has_token}
use influxdb_desk.Operations.Execute.{
  ExecuteEnv, execute_in_tx, start_dispatch, execute_record, purged, execute_locked,
  execute_unlocked, replay_execution, digest_of, execute,
}
use influxdb_desk.Operations.Created.{execute_in_tx-Added}
use influxdb_desk.Operations.Honest.{maybe_sent, times_sent, Fits, View, Honest}
use influxdb_desk.Operations.Honest.Updates.{AllHonest, with_immediate-ok}
use influxdb_desk.Operations.Honest.Dispatching.{no_less}

-- No task and no run has the identifier that `uuid.NewString` gives.
abbrev pub Fresh : Bytes → World → Type 0
Fresh id w = (find_row (has_id id) w.db.core.tasks ≡ none) × (find_run id w.runs ≡ none)

no_task :
    (id : Bytes) (db : Tables)
    → find_row (has_id id) db.tasks ≡ none
    → get id db ≡ err Tasks.not_found
unfolding get
no_task id db h = ap (λ o. or_fail o Tasks.not_found) h

clashing {ℓ} :
    {A : Type ℓ} (g : Result Tasks.Error A) (a : A) {P : Type 0}
    → g ≡ err Tasks.not_found
    → g ≡ ok a
    → P
clashing (ok x) a h e = absurd (differ h)
  where
    differ : ok x ≡ err Tasks.not_found → ⊥
    differ k = cc
clashing (err x) a h e = absurd (differ e)
  where
    differ : err x ≡ ok a → ⊥
    differ k = cc

never_sent : (id : Bytes) (w : World) → Fresh id w → AllHonest w → times_sent id w.sent ≡ 0
never_sent id w fresh h = none_of (times_sent id w.sent) (h id).1
  where
    none_of :
        (n : ℕ)
        → (0 < n
            → (m : Meta) × (get id w.db.core ≡ ok m)
              × (maybe_sent m.state ≡ true)
              × (m.kind ≡ operation_kind))
        → n ≡ 0
    none_of zero sent = refl
    none_of (suc n) sent =
        let (m, found, _, _) = sent (omega arith) in
        clashing (get id w.db.core) m (no_task id w.db.core fresh.0) found

find_run-start :
    (id at : Bytes) (r : TokenRecord) (runs : List Run)
    → bytes_eq id at ≡ false
    → find_run id (start_run at r runs) ≡ find_run id runs
unfolding find_run find_row
find_run-start id at r runs other = rw (swapped_apart at id other) refl

module _ (env : ExecuteEnv) (r : TokenRecord) (w : World) (fresh : Fresh env.operation_id w) where
  abbrev first_run : Run
  first_run = record {
    operation_id = env.operation_id;
    record_of = r;
    started = false;
    phase = Phase.ready;
    listed = true;
  }

  first_found : find_run env.operation_id (start_run env.operation_id r w.runs) ≡ some first_run
  unfolding find_run find_row
  first_found = rw (bytes_eq_refl env.operation_id) refl

  -- The new operation, whatever task it has.
  first_shown :
      (g : Result Tasks.Error Meta) (n : ℕ)
      → n ≡ 0
      → ((m : Meta) → g ≡ ok m → m.kind ≡ operation_kind)
      → View g (some first_run) n
  first_shown g n unsent owned = (
    omega arith,
    λ pos. no_less n unsent pos,
    λ x e. subst (λ y. Fits y n) (same_run e) (λ _. unsent, refl),
    λ x m e found. owned m found,
  )
    where
      same_run : {x y : Run} → ◌≡◌ {A = Option Run} (some x) (some y) → x ≡ y
      same_run h = cc

  abbrev started_world : Db → World
  started_world db = record w {
    db = db;
    tokens = delete_rows (has_token r.token) w.tokens;
    runs = start_run env.operation_id r w.runs;
  }

  started-Honest :
      (db : Db)
      → ((m : Meta) → get env.operation_id db.core ≡ ok m → m.kind ≡ operation_kind)
      → ((other : Bytes)
          → bytes_eq other env.operation_id ≡ false
          → get other db.core ≡ get other w.db.core)
      → AllHonest w
      → AllHonest (started_world db)
  started-Honest db owned others h id = elim (Bool-cases (bytes_eq id env.operation_id)) [
    | inl same ↦ subst (Honest (started_world db)) (sym (bytes_eq→≡ id env.operation_id same)) (
        subst (λ o. View (get env.operation_id db.core) o (times_sent env.operation_id w.sent))
          (sym first_found)
          (first_shown (get env.operation_id db.core) (times_sent env.operation_id w.sent)
            (never_sent env.operation_id w fresh h) owned))
    | inr other ↦
        subst (λ o. View (get id db.core) o (times_sent id w.sent))
          (sym (find_run-start id env.operation_id r w.runs other))
          (subst (λ g. View g (find_run id w.runs) (times_sent id w.sent)) (sym (others id other))
            (h id))
  ]

  start_dispatch-Honest :
      (i : Identity) (scope digest : Bytes) (result : Result Error (Db × Operation))
      → ((out : Db × Operation)
          → result ≡ ok out
          → execute_in_tx i env scope digest r w.db ≡ ok out)
      → AllHonest w
      → AllHonest (start_dispatch env r w result).0
  start_dispatch-Honest i scope digest (err e) stored h = h
  start_dispatch-Honest i scope digest (ok (db, o)) stored h =
      elim (execute_in_tx-Added i env scope digest r w.db (db, o) (stored (db, o) refl)) [
        | inl same ↦
            started-Honest db
              (λ m found.
                clashing (get env.operation_id db.core) m
                  (ap (λ d. get env.operation_id d.core) (sym same)
                    ∙ no_task env.operation_id w.db.core fresh.0)
                  found)
              (λ other apart. ap (λ d. get other d.core) (sym same)) h
        | inr (n, free, found, state, kind, others) ↦
            started-Honest db (λ m here. ap (λ x. x.kind) (ok-injective (sym here ∙ found)) ∙ kind)
              others h
      ]

if-Honest :
    (b : Bool) (x y : World × Result Error Operation)
    → AllHonest x.0
    → AllHonest y.0
    → AllHonest (if b then x else y).0
if-Honest true x y hx hy = hx
if-Honest false x y hx hy = hy

module _ (i : Identity) (env : ExecuteEnv) (scope digest : Bytes) (request : ExecuteRequest) where
  execute_record-Honest :
      (w : World) (o : Option TokenRecord)
      → Fresh env.operation_id w
      → AllHonest w
      → AllHonest (execute_record i env scope digest request w o).0
  execute_record-Honest w none fresh h = h
  execute_record-Honest w (some r) fresh h =
      if-Honest (r.confirmation_required && not (bytes_eq request.confirmation r.target)) _ _ h (
        if-Honest (leb r.expires env.check_time) _ _ h (
          start_dispatch-Honest env r w fresh i scope digest
            (with_immediate env.database_up (execute_in_tx i env scope digest r w.db))
            (λ out e. with_immediate-ok env.database_up _ e) h))

  execute_locked-Honest :
      (w : World) (found : Result Error (Option Operation))
      → Fresh env.operation_id w
      → AllHonest w
      → AllHonest (execute_locked i env scope digest request w found).0
  execute_locked-Honest w (err e) fresh h = h
  execute_locked-Honest w (ok (some o)) fresh h = h
  execute_locked-Honest w (ok none) fresh h =
      execute_record-Honest (purged env.purge_time w) _ fresh h

  execute_unlocked-Honest :
      (w : World) (found : Result Error (Option Operation))
      → Fresh env.operation_id w
      → AllHonest w
      → AllHonest (execute_unlocked i env scope digest request w found).0
  execute_unlocked-Honest w (err e) fresh h = h
  execute_unlocked-Honest w (ok (some o)) fresh h = h
  execute_unlocked-Honest w (ok none) fresh h =
      execute_locked-Honest w (replay_execution scope digest env.before_transaction) fresh h

pub execute-Honest :
    (uuid_valid : Bytes → Bool) (sha256_hex : Bytes → Bytes) (i : Identity) (env : ExecuteEnv)
    (request : ExecuteRequest) (w : World)
    → Fresh env.operation_id w
    → AllHonest w
    → AllHonest (execute uuid_valid sha256_hex i env request w).0
unfolding execute
execute-Honest uuid_valid sha256_hex i env request w fresh h =
    let digest = digest_of uuid_valid sha256_hex request in
    let scope = execute_scope i.profile_id request.client_request_id in
    if-Honest (not (uuid_valid request.client_request_id) || is_empty request.preview_token) _ _ h (
      execute_unlocked-Honest i env scope digest request w
        (replay_execution scope digest env.before_lock) fresh h)
