-- ===== src/Tasks/Updates.antt =====
-- What the updates of the task repository leave, when they succeed.
use influxdb_desk.Base.{
  ◌≡◌, refl, sym, ap, ◌∙◌, true, false, not, some, ◌==◌, if◌then◌else◌, is_empty, ok, guard,
  or_fail, >>=-eq-ok, ok-injective, or_fail-some,
}
use influxdb_desk.Base.Table.{
  find_row, update_rows, find_row-holds, find_row-update_rows, find_row-update, find_row-untouched,
}
use influxdb_desk.Decimal.{Bytes, bytes_eq, increment_decimal}
use influxdb_desk.Decimal.Equality.{bytes_eq_refl, bytes_eq→≡}
use influxdb_desk.Tasks.{
  not_found, store_failed, change_type_required, revision_conflict, Meta, Change, Tables,
  validate_public_text,
}
use influxdb_desk.Tasks.Ledger.{is_some}
use influxdb_desk.Tasks.Repository.{
  decimal, has_id, get, new_event, with_seq, push_event, append_event,
}
use influxdb_desk.Tasks.Apply.{
  changed, set_columns, count_rows, next_state_revision, is_current, apply_in_tx,
}

-- `appendEventInTx` has taken the number behind the head.
pub append_event-ok :
    (m : Meta) (change_type at : Bytes) (db : Tables) (out : Tables × Meta)
    → append_event m change_type at db ≡ ok out
    → (head : Bytes) × (seq : Bytes) × (db.head ≡ some head)
      × (decimal (increment_decimal head) ≡ ok seq)
      × (out ≡ (push_event db m seq (new_event m seq change_type at), with_seq seq m))
unfolding append_event
append_event-ok m change_type at db out h =
    let head = >>=-eq-ok (or_fail db.head store_failed) _ h in
    let next = >>=-eq-ok (decimal (increment_decimal head.0)) _ head.2 in
    let fresh =
      >>=-eq-ok
        (guard (not (is_some (find_row (λ e. bytes_eq e.seq next.0) db.events))) store_failed) _
        next.2 in
    let owned =
      >>=-eq-ok (guard (is_some (find_row (has_id m.id) db.tasks)) store_failed) _ fresh.2 in
    (head.0, next.0, or_fail-some db.head store_failed head.1, next.1, sym (ok-injective owned.2))

-- The tables behind the update of `ApplyInTx`.
abbrev pub written : Meta → Meta → Tables → Tables
written m next db = record db { tasks = update_rows (is_current m) (set_columns next) db.tasks }

-- A change that was applied: its revisions and its event.
pub apply_in_tx-ok :
    (m : Meta) (c : Change) (now : Bytes) (db : Tables) (out : Tables × Meta)
    → apply_in_tx m c now db ≡ ok out
    → (snapshot : Bytes) × (revision : Bytes) × (decimal (increment_decimal m.snapshot_revision)
        ≡ ok snapshot)
      × (next_state_revision c.state_changed m.state_revision ≡ ok revision)
      × (append_event
            (changed m c snapshot revision now)
            c.change_type
            now
            (written m (changed m c snapshot revision now) db)
          ≡ ok out)
unfolding apply_in_tx
apply_in_tx-ok m c now db out h =
    let named = >>=-eq-ok (guard (not (is_empty c.change_type)) change_type_required) _ h in
    let public =
      >>=-eq-ok (validate_public_text c.public_error_code c.public_safe_message) _ named.2 in
    let snapshot = >>=-eq-ok (decimal (increment_decimal m.snapshot_revision)) _ public.2 in
    let revision = >>=-eq-ok (next_state_revision c.state_changed m.state_revision) _ snapshot.2 in
    let current =
      >>=-eq-ok (guard (count_rows (is_current m) db.tasks == 1) revision_conflict) _ revision.2 in
    (snapshot.0, revision.0, snapshot.1, revision.1, current.2)

pub get-found :
    (id : Bytes) (db : Tables) (m : Meta)
    → get id db ≡ ok m
    → find_row (has_id id) db.tasks ≡ some m
unfolding get
get-found id db m h = or_fail-some (find_row (has_id id) db.tasks) not_found h

-- What is found under an identifier has it.
pub get-id : (id : Bytes) (db : Tables) (m : Meta) → get id db ≡ ok m → m.id ≡ id
get-id id db m h =
    bytes_eq→≡ m.id id (find_row-holds (has_id id) db.tasks {x = m} (get-found id db m h))

is_current_self : (m : Meta) → is_current m m ≡ true
is_current_self m = rw (bytes_eq_refl m.id, bytes_eq_refl m.snapshot_revision) refl

pub has_id-apart :
    (id other : Bytes) (y : Meta)
    → bytes_eq other id ≡ false
    → has_id other y ≡ true
    → has_id id y ≡ false
has_id-apart id other y different found =
    ap (λ x. bytes_eq x id) (bytes_eq→≡ y.id other found) ∙ different

-- The task that is found after an applied change is the one that is returned.
pub apply_in_tx-found :
    (m : Meta) (c : Change) (now : Bytes) (db : Tables) (out : Tables × Meta)
    → get m.id db ≡ ok m
    → apply_in_tx m c now db ≡ ok out
    → get m.id out.0 ≡ ok out.1
unfolding get
apply_in_tx-found m c now db out here h =
    let done = apply_in_tx-ok m c now db out h in
    let next = changed m c done.0 done.1 now in
    let event = append_event-ok next c.change_type now (written m next db) out done.4 in
    let one =
      find_row-update (has_id m.id) (is_current m) (set_columns next) db.tasks {x = m} (λ y. refl)
        (get-found m.id db m here) in
    let set : find_row (has_id m.id) (written m next db).tasks ≡ some next =
      one ∙ ap (λ b. some (if b then set_columns next m else m)) (is_current_self m) in
    let two =
      find_row-update_rows (has_id m.id) (with_seq event.1) (written m next db).tasks {x = next}
        (λ y. refl) set in
    ap (λ x. get m.id x.0) event.4
    ∙ ap (λ o. or_fail o not_found) two
    ∙ ap (λ x. ok x.1) (sym event.4)

pub apply_in_tx-others :
    (m : Meta) (c : Change) (now : Bytes) (db : Tables) (out : Tables × Meta) (other : Bytes)
    → bytes_eq other m.id ≡ false
    → apply_in_tx m c now db ≡ ok out
    → get other out.0 ≡ get other db
unfolding get
apply_in_tx-others m c now db out other different h =
    let done = apply_in_tx-ok m c now db out h in
    let next = changed m c done.0 done.1 now in
    let event = append_event-ok next c.change_type now (written m next db) out done.4 in
    let one =
      find_row-untouched (has_id other) (is_current m) (set_columns next) db.tasks (λ y. refl)
        (λ y found. rw (has_id-apart m.id other y different found) refl) in
    let two =
      find_row-untouched (has_id other) (has_id m.id) (with_seq event.1) (written m next db).tasks
        (λ y. refl) (λ y found. has_id-apart m.id other y different found) in
    ap (λ x. get other x.0) event.4 ∙ ap (λ o. or_fail o not_found) (two ∙ one)

-- The task that an applied change returns.
pub apply_in_tx-meta :
    (m : Meta) (c : Change) (now : Bytes) (db : Tables) (out : Tables × Meta)
    → apply_in_tx m c now db ≡ ok out
    → (snapshot : Bytes) × (revision : Bytes) × (seq : Bytes) × (decimal
          (increment_decimal m.snapshot_revision)
        ≡ ok snapshot)
      × (next_state_revision c.state_changed m.state_revision ≡ ok revision)
      × (out.1 ≡ with_seq seq (changed m c snapshot revision now))
apply_in_tx-meta m c now db out h =
    let done = apply_in_tx-ok m c now db out h in
    let next = changed m c done.0 done.1 now in
    let event = append_event-ok next c.change_type now (written m next db) out done.4 in
    (done.0, done.1, event.1, done.2, done.3, ap (λ x. x.1) event.4)
