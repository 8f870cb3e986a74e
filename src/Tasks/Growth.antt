-- ===== src/Tasks/Growth.antt =====
-- What every operation of the task repository leaves of the event feed.
use influxdb_desk.Base.{
  ℕ, ◌+◌, ◌≡◌, refl, sym, ap, ◌∙◌, subst, Bool, true, false, not, Option, none, some, List, [], ◌∷◌,
  ◌++◌, length, ok, guard, or_fail, arith, >>=-eq-ok, ok-injective, length-append,
}
use mathlib.Core.List.{append_assoc, append-nil}
use influxdb_desk.Base.Table.{find_row}
use influxdb_desk.Decimal.{Bytes, bytes_eq, print, increment_decimal}
use influxdb_desk.Decimal.RoundTrip.{decimals_compute}
use influxdb_desk.Tasks.{
  store_failed, mirror_missing, idempotency_conflict, expiry_required, invalid_request, Meta, Event,
  CreateRequest, Change, IdempotencyEntry, Tables,
}
use influxdb_desk.Tasks.Ledger.{is_some, lookup_idempotency, insert_idempotency}
use influxdb_desk.Tasks.Repository.{
  decimal, has_id, get, new_event, append_event, created, create_in_tx, Created, new_task,
  create_by, complete, create,
}
use influxdb_desk.Tasks.Apply.{changed, apply_in_tx, apply}
use influxdb_desk.Tasks.Words.{query_kind}
use influxdb_desk.Tasks.Recover.{is_session, recovery, write_mirror, recover_by, recover_ids}
use influxdb_desk.Tasks.Feed.{Feed, Numbered-append}
use influxdb_desk.Tasks.Updates.{append_event-ok, written, apply_in_tx-ok}
use influxdb_desk.Tasks.Concurrency.{apply-ok}

-- The feed is sound, and the events of `db` are its first ones.
abbrev pub Extends : Tables → Tables → Type 0
Extends db out = Feed out × ((more : List Event) × (out.events ≡ db.events ++ more))

pub Extends-refl : (db : Tables) → Feed db → Extends db db
Extends-refl db feed = (feed, ([], sym (append-nil db.events)))

pub Extends-trans : (a b c : Tables) → Extends a b → Extends b c → Extends a c
Extends-trans a b c (fb, (x, ex)) (fc, (y, ey)) =
    (fc, (x ++ y, ey ∙ ap (λ z. z ++ y) ex ∙ append_assoc a.events x y))

append_event-Extends :
    (m : Meta) (change_type at : Bytes) (db : Tables) (out : Tables × Meta)
    → Feed db
    → append_event m change_type at db ≡ ok out
    → Extends db out.0
append_event-Extends m change_type at db out feed h =
    let (head, seq, was, next, shape) = append_event-ok m change_type at db out h in
    let n = length db.events in
    let current : head ≡ print n = cc in
    let number : seq ≡ print (n + 1) = ok-injective (
      sym next
      ∙ ap (λ x. decimal (increment_decimal x)) current
      ∙ ap decimal (decimals_compute n n).0) in
    let event = new_event m seq change_type at in
    let longer : length (db.events ++ (event ∷ [])) ≡ n + 1 =
      length-append db.events (event ∷ []) in
    subst (λ x. Extends db x.0) (sym shape)
      (
        (
          Numbered-append 1 db.events event feed.0 (number ∙ ap print (omega arith)),
          ap some (number ∙ ap print (sym longer)),
        ),
        (event ∷ [], refl),
      )

apply_in_tx-Extends :
    (m : Meta) (c : Change) (now : Bytes) (db : Tables) (out : Tables × Meta)
    → Feed db
    → apply_in_tx m c now db ≡ ok out
    → Extends db out.0
apply_in_tx-Extends m c now db out feed h =
    let done = apply_in_tx-ok m c now db out h in
    let next = changed m c done.0 done.1 now in
    append_event-Extends next c.change_type now (written m next db) out feed done.4

pub apply-Extends :
    (id expected : Bytes) (c : Change) (now : Bytes) (db : Tables) (out : Tables × Meta)
    → Feed db
    → apply id expected c now db ≡ ok out
    → Extends db out.0
apply-Extends id expected c now db out feed h =
    let done = apply-ok id expected c now db out h in
    apply_in_tx-Extends done.0 c now db out feed done.3

create_in_tx-Extends :
    (m : Meta) (now : Bytes) (db : Tables) (out : Tables × Meta)
    → Feed db
    → create_in_tx m now db ≡ ok out
    → Extends db out.0
unfolding create_in_tx
create_in_tx-Extends m now db out feed h =
    let free =
      >>=-eq-ok (guard (not (is_some (find_row (has_id m.id) db.tasks))) store_failed) _ h in
    append_event-Extends m created now (record db { tasks = db.tasks ++ (m ∷ []) }) out feed free.2

insert_idempotency-Extends :
    (entry : IdempotencyEntry) (db out : Tables)
    → Feed db
    → insert_idempotency entry db ≡ ok out
    → Extends db out
unfolding insert_idempotency
insert_idempotency-Extends entry db out feed h =
    let free =
      >>=-eq-ok (guard (not (is_some (lookup_idempotency entry.scope db))) store_failed) _ h in
    subst (Extends db) (ok-injective free.2) (feed, ([], sym (append-nil db.events)))

create_by-Extends :
    (entry : Option IdempotencyEntry) (now : Bytes) (req : CreateRequest) (expires : Bytes)
    (db : Tables) (out : Created)
    → Feed db
    → create_by entry now req expires db ≡ ok out
    → Extends db out.tables
create_by-Extends none now req expires db out feed h =
    let made =
      >>=-eq-ok
        (create_in_tx (new_task req.id req.kind req.initial_state req.result_available now) now db)
        _ h in
    let kept = >>=-eq-ok (insert_idempotency _ made.0.0) _ made.2 in
    let one = create_in_tx-Extends _ now db made.0 feed made.1 in
    let two = insert_idempotency-Extends _ made.0.0 kept.0 one.0 kept.1 in
    subst (λ x. Extends db x.tables) (ok-injective kept.2)
      (Extends-trans db made.0.0 kept.0 one two)
create_by-Extends (some entry) now req expires db out feed h =
    let same =
      >>=-eq-ok (guard (bytes_eq entry.request_digest req.request_digest) idempotency_conflict) _
        h in
    let m = >>=-eq-ok (get entry.resource_id db) _ same.2 in
    subst (λ x. Extends db x.tables) (ok-injective m.2) (Extends-refl db feed)

pub create-Extends :
    (now : Bytes) (req : CreateRequest) (db : Tables) (out : Created)
    → Feed db
    → create now req db ≡ ok out
    → Extends db out.tables
unfolding create
create-Extends now req db out feed h =
    let valid = >>=-eq-ok (guard (complete req) invalid_request) _ h in
    let expires = >>=-eq-ok (or_fail req.ledger_expires_at expiry_required) _ valid.2 in
    create_by-Extends (lookup_idempotency req.client_scope db) now req expires.0 db out feed
      expires.2

write_mirror-Extends :
    (query : Bool) (m : Meta) (db out : Tables)
    → Feed db
    → write_mirror query m db ≡ ok out
    → Extends db out
unfolding write_mirror
write_mirror-Extends false m db out feed h =
    subst (Extends db) (ok-injective h) (Extends-refl db feed)
write_mirror-Extends true m db out feed h =
    let there =
      >>=-eq-ok (guard (is_some (find_row (is_session m.id) db.mirrors)) mirror_missing) _ h in
    subst (Extends db) (ok-injective there.2) (feed, ([], sym (append-nil db.events)))

recover_by-Extends :
    (change : Option Change) (m : Meta) (now : Bytes) (db : Tables) (out : Tables × ℕ)
    → Feed db
    → recover_by change m now db ≡ ok out
    → Extends db out.0
unfolding write_mirror
recover_by-Extends none m now db out feed h =
    subst (λ x. Extends db x.0) (ok-injective h) (Extends-refl db feed)
recover_by-Extends (some c) m now db out feed h =
    let updated = >>=-eq-ok (apply_in_tx m c now db) _ h in
    let mirrored =
      >>=-eq-ok (write_mirror (bytes_eq m.kind query_kind) updated.0.1 updated.0.0) _ updated.2 in
    let one = apply_in_tx-Extends m c now db updated.0 feed updated.1 in
    let two =
      write_mirror-Extends (bytes_eq m.kind query_kind) updated.0.1 updated.0.0 mirrored.0 one.0
        mirrored.1 in
    subst (λ x. Extends db x.0) (ok-injective mirrored.2)
      (Extends-trans db updated.0.0 mirrored.0 one two)

pub recover_ids-Extends :
    (clock : ℕ → Bytes) (count : ℕ) (ids : List Bytes) (db : Tables) (out : Tables × ℕ)
    → Feed db
    → recover_ids clock count ids db ≡ ok out
    → Extends db out.0
unfolding recover_ids
recover_ids-Extends clock count [] db out feed h =
    subst (λ x. Extends db x.0) (ok-injective h) (Extends-refl db feed)
recover_ids-Extends clock count (id ∷ ids) db out feed h =
    let m = >>=-eq-ok (get id db) _ h in
    let turn = >>=-eq-ok (recover_by (recovery m.0) m.0 (clock count) db) _ m.2 in
    let one = recover_by-Extends (recovery m.0) m.0 (clock count) db turn.0 feed turn.1 in
    let rest = recover_ids-Extends clock (count + turn.0.1) ids turn.0.0 out one.0 turn.2 in
    Extends-trans db turn.0.0 out.0 one rest
