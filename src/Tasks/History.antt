-- ===== src/Tasks/History.antt =====
-- The event feed over every operation of the task repository.
use influxdb_desk.Base.{
  ℕ, ◌≡◌, refl, ap, ◌∙◌, List, [], ◌∷◌, ◌++◌, length, take, drop, Result, ok, err, drop-append_left,
}
use influxdb_desk.Decimal.{Bytes, print}
use influxdb_desk.Tasks.{Error, Event, CreateRequest, Change, Tables}
use influxdb_desk.Tasks.Repository.{create}
use influxdb_desk.Tasks.Apply.{apply}
use influxdb_desk.Tasks.Changes.{page_limit, changes}
use influxdb_desk.Tasks.Recover.{recover_core, select_ids}
use influxdb_desk.Tasks.Feed.{Feed, changes-Feed}
use influxdb_desk.Tasks.Growth.{
  Extends, Extends-refl, Extends-trans, apply-Extends, create-Extends, recover_ids-Extends,
}

-- The calls of the repository.
pub data Call : Type 0 where
  create_call : Bytes → CreateRequest → Call
  apply_call : Bytes → Bytes → Change → Bytes → Call
  recover_call : (ℕ → Bytes) → Call

abbrev pub committed {ℓ} : {A : Type ℓ} → (A → Tables) → Tables → Result Error A → Tables
committed tables db (ok out) = tables out
committed tables db (err e) = db

-- The tables after a call: a transaction that fails is rolled back.
unfoldable pub run_call : Call → Tables → Tables
unfolding create apply recover_core
run_call (create_call now req) db = committed (λ out. out.tables) db (create now req db)
run_call (apply_call id expected c now) db =
    committed (λ out. out.0) db (apply id expected c now db)
run_call (recover_call clock) db = committed (λ out. out.0) db (recover_core clock db)

unfoldable pub run_calls : List Call → Tables → Tables
unfolding run_call
run_calls [] db = db
run_calls (c ∷ cs) db = run_calls cs (run_call c db)

committed-Extends {ℓ} :
    {A : Type ℓ} (tables : A → Tables) (db : Tables) (r : Result Error A)
    → Feed db
    → ((out : A) → r ≡ ok out → Extends db (tables out))
    → Extends db (committed tables db r)
committed-Extends tables db (ok out) feed ext = ext out refl
committed-Extends tables db (err e) feed ext = Extends-refl db feed

run_call-Extends : (c : Call) (db : Tables) → Feed db → Extends db (run_call c db)
unfolding run_call recover_core
run_call-Extends (create_call now req) db feed =
    committed-Extends _ db (create now req db) feed (λ out. create-Extends now req db out feed)
run_call-Extends (apply_call id expected c now) db feed =
    committed-Extends _ db (apply id expected c now db) feed
      (λ out. apply-Extends id expected c now db out feed)
run_call-Extends (recover_call clock) db feed =
    committed-Extends _ db (recover_core clock db) feed
      (λ out. recover_ids-Extends clock 0 (select_ids db.tasks) db out feed)

-- Whatever calls are made, in any order and whether they fail or not: the event numbers stay the
-- numbers from 1 on without a gap, the head stays the last of them, and no written event is changed.
pub run_calls-Extends :
    (calls : List Call) (db : Tables) → Feed db → Extends db (run_calls calls db)
unfolding run_calls
run_calls-Extends [] db feed = Extends-refl db feed
run_calls-Extends (c ∷ cs) db feed =
    let one = run_call-Extends c db feed in
    Extends-trans db (run_call c db) (run_calls cs (run_call c db)) one
      (run_calls-Extends cs (run_call c db) one.0)

-- A client that has read all events of `db` and asks for the changes behind the head after any calls
-- gets the events that those calls have written, in order, up to the limit: none twice, none left out.
-- In `db` the events are numbered from one on and the head is the last number, which is so in the
-- empty database and which every call preserves.
pub run_calls-changes :
    (calls : List Call) (db : Tables) (limit : ℕ)
    → Feed db
    → (more : List Event) × ((run_calls calls db).events ≡ db.events ++ more)
      × (changes (print (length db.events)) limit (run_calls calls db)
          ≡ ok (take (page_limit limit) more))
run_calls-changes calls db limit feed =
    let (sound, (more, here)) = run_calls-Extends calls db feed in
    (
      more,
      here,
      changes-Feed (run_calls calls db) (length db.events) limit sound
          ∙ ap (λ x. ok (take (page_limit limit) x))
              (ap (drop (length db.events)) here ∙ drop-append_left db.events more),
    )
