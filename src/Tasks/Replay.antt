-- ===== src/Tasks/Replay.antt =====
-- A create request that is repeated.
use influxdb_desk.Base.{
  ◌≡◌, refl, sym, ap, ◌∙◌, subst, Bool, true, false, not, Option, none, some, [], ◌∷◌, ◌++◌,
  if◌then◌else◌, Result, ok, err, guard, or_fail, ◌>>=◌, ◌>>◌, >>=-eq-ok, ok-injective, guard-true,
}
use influxdb_desk.Base.Table.{find_row, find_row-append, find_row-update_rows}
use influxdb_desk.Decimal.{Bytes, bytes_eq}
use influxdb_desk.Decimal.Equality.{bytes_eq_refl, bytes_eq→≡}
use influxdb_desk.Tasks.{
  Error, not_found, store_failed, idempotency_conflict, expiry_required, invalid_request, Meta,
  CreateRequest, IdempotencyEntry, Tables,
}
use influxdb_desk.Tasks.Ledger.{is_some, lookup_idempotency, insert_idempotency}
use influxdb_desk.Tasks.Repository.{
  has_id, get, with_seq, created, create_in_tx, Created, replay_of, new_task, entry_of, create_by,
  complete, create,
}
use influxdb_desk.Tasks.Updates.{append_event-ok}

-- The request is on record, with the task that it has made.
abbrev Recorded : CreateRequest → Created → Type 0
Recorded req c =
    (entry : IdempotencyEntry) × (lookup_idempotency req.client_scope c.tables ≡ some entry)
    × (entry.request_digest ≡ req.request_digest)
    × (get entry.resource_id c.tables ≡ ok c.meta)

pub is_some-none {ℓ} : {A : Type ℓ} (o : Option A) → not (is_some o) ≡ true → o ≡ none
is_some-none none h = refl
is_some-none (some a) h = cc

pub create_in_tx-found :
    (m : Meta) (now : Bytes) (db : Tables) (out : Tables × Meta)
    → create_in_tx m now db ≡ ok out
    → (get m.id out.0 ≡ ok out.1) × (out.0.idempotency ≡ db.idempotency)
unfolding create_in_tx get
create_in_tx-found m now db out h =
    let free =
      >>=-eq-ok (guard (not (is_some (find_row (has_id m.id) db.tasks))) store_failed) _ h in
    let missing = is_some-none (find_row (has_id m.id) db.tasks) (guard-true _ _ free.1) in
    let (head, seq, was, next, shape) =
      append_event-ok m created now (record db { tasks = db.tasks ++ (m ∷ []) }) out free.2 in
    let one = find_row-append (has_id m.id) db.tasks m missing (bytes_eq_refl m.id) in
    let two =
      find_row-update_rows (has_id m.id) (with_seq seq) (db.tasks ++ (m ∷ [])) {x = m} (λ y. refl)
        one in
    (
      ap (λ x. get m.id x.0) shape
          ∙ ap (λ o. or_fail o not_found) two
          ∙ ap (λ x. ok x.1) (sym shape),
      ap (λ x. x.0.idempotency) shape,
    )

create_by-Recorded :
    (entry : Option IdempotencyEntry) (now : Bytes) (req : CreateRequest) (expires : Bytes)
    (db : Tables) (c : Created)
    → lookup_idempotency req.client_scope db ≡ entry
    → create_by entry now req expires db ≡ ok c
    → Recorded req c
unfolding lookup_idempotency insert_idempotency get
create_by-Recorded none now req expires db c found h =
    let m = new_task req.id req.kind req.initial_state req.result_available now in
    let made = >>=-eq-ok (create_in_tx m now db) _ h in
    let task = create_in_tx-found m now db made.0 made.1 in
    let kept = >>=-eq-ok (insert_idempotency (entry_of now req expires) made.0.0) _ made.2 in
    let free =
      >>=-eq-ok (guard (not (is_some (lookup_idempotency req.client_scope made.0.0))) store_failed)
        _ kept.1 in
    let missing =
      is_some-none (lookup_idempotency req.client_scope made.0.0) (guard-true _ _ free.1) in
    let there =
      find_row-append (λ e. bytes_eq e.scope req.client_scope) made.0.0.idempotency
        (entry_of now req expires) missing (bytes_eq_refl req.client_scope) in
    subst (Recorded req)
      (ap (λ x. record { tables = x; meta = made.0.1; replayed = false }) (ok-injective free.2)
        ∙ ok-injective kept.2)
      (entry_of now req expires, there, refl, task.0)
create_by-Recorded (some entry) now req expires db c found h =
    let same =
      >>=-eq-ok (guard (bytes_eq entry.request_digest req.request_digest) idempotency_conflict) _
        h in
    let m = >>=-eq-ok (get entry.resource_id db) _ same.2 in
    subst (Recorded req) (ok-injective m.2) (
      entry,
      found,
      bytes_eq→≡ entry.request_digest req.request_digest (guard-true _ _ same.1),
      m.1,
    )

create-Recorded :
    (now : Bytes) (req : CreateRequest) (db : Tables) (c : Created)
    → create now req db ≡ ok c
    → Recorded req c
unfolding create
create-Recorded now req db c h =
    let valid = >>=-eq-ok (guard (complete req) invalid_request) _ h in
    let expires = >>=-eq-ok (or_fail req.ledger_expires_at expiry_required) _ valid.2 in
    create_by-Recorded (lookup_idempotency req.client_scope db) now req expires.0 db c refl
      expires.2

replay_answer :
    (same : Bool) (task : Result Error Meta) (db : Tables) (m : Meta)
    → task ≡ ok m
    → (guard same idempotency_conflict >> (task >>= λ x. ok (replay_of db x)))
      ≡ (if same then ok (replay_of db m) else err idempotency_conflict)
replay_answer true task db m h = ap (λ r. r >>= λ x. ok (replay_of db x)) h
replay_answer false task db m h = refl

-- A second create request on the tables right after a successful create, whatever the clock says then:
-- it is complete, carries an expiry for the ledger and names the same client scope. With the same
-- digest it changes nothing and returns the task of the first create, as a replay; with another
-- digest it is refused as a conflict.
pub create-replays :
    (now later : Bytes) (req again : CreateRequest) (expires : Bytes) (db : Tables) (c : Created)
    → create now req db ≡ ok c
    → complete again ≡ true
    → again.ledger_expires_at ≡ some expires
    → again.client_scope ≡ req.client_scope
    → create later again c.tables ≡ (
        if bytes_eq req.request_digest again.request_digest
        then ok (replay_of c.tables c.meta)
        else err idempotency_conflict)
unfolding create
create-replays now later req again expires db c h whole expiry scope =
    let (entry, found, digest, task) = create-Recorded now req db c h in
    let tail : Option Bytes → Result Error Created = λ o. or_fail o expiry_required >>= λ e.
    create_by (lookup_idempotency again.client_scope c.tables) later again e c.tables in
    ap (λ b. guard b invalid_request >>= λ u. tail again.ledger_expires_at) whole
    ∙ ap tail expiry
    ∙ ap (λ o. create_by o later again expires c.tables)
        (ap (λ s. lookup_idempotency s c.tables) scope ∙ found)
    ∙ replay_answer (bytes_eq entry.request_digest again.request_digest)
        (get entry.resource_id c.tables) c.tables c.meta task
    ∙ ap
        (λ d.
          if bytes_eq d again.request_digest
          then ok (replay_of c.tables c.meta)
          else err idempotency_conflict)
        digest
