-- ===== src/Tasks/Tests.antt =====
-- The task repository at concrete inputs.
use influxdb_desk.Base.{
  ℕ, ◌≡◌, refl, true, false, none, some, List, [], ◌∷◌, ◌++◌, length, take, Result, ok, err,
}
use influxdb_desk.Base.Table.{find_row, update_rows}
use influxdb_desk.Decimal.{
  Bytes, bytes_eq, print, print_fuel, set_string, parse_digits, parse_from, malformed,
  canonical_decimal, increment_decimal,
}
use influxdb_desk.Tasks.{
  Error, revision_conflict, validate_public_text, Meta, Event, CreateRequest, Change, Tables,
}
use influxdb_desk.Tasks.Words.{operation_kind, queued}
use influxdb_desk.Tasks.Ledger.{lookup_idempotency, insert_idempotency}
use influxdb_desk.Tasks.Repository.{get, append_event, create_in_tx, Created, replay_of, create}
use influxdb_desk.Tasks.Apply.{count_rows, apply_in_tx, apply}
use influxdb_desk.Tasks.Changes.{page_limit, changes}
use influxdb_desk.Tasks.Recover.{recovery, select_ids, write_mirror, recover_ids, recover_core}
use influxdb_desk.Tasks.Feed.{Feed}
use influxdb_desk.Tasks.Concurrency.{apply-once}
use influxdb_desk.Tasks.Effect.{apply-effect}
use influxdb_desk.Tasks.History.{
  Call, create_call, apply_call, recover_call, run_calls, run_calls-changes,
}
use influxdb_desk.Tasks.Replay.{create-replays}
use influxdb_desk.Tasks.Settled.{settled}
use influxdb_desk.Tasks.Restart.{recover_core-settles}

abbrev empty : Tables
empty = record {
  tasks = [];
  events = [];
  head = some (b'0' ∷ []);
  idempotency = [];
  commands = [];
  mirrors = [];
}

abbrev noon : Bytes
noon = b'n' ∷ []

abbrev one_am : Bytes
one_am = b'm' ∷ []

abbrev ask : CreateRequest
ask = record {
  id = b't' ∷ [];
  kind = operation_kind;
  initial_state = queued;
  client_scope = b's' ∷ [];
  request_digest = b'd' ∷ [];
  ledger_expires_at = some (b'e' ∷ []);
  result_available = false;
}

abbrev first_revision : Bytes
first_revision = b'1' ∷ []

abbrev proceed : Change
proceed = record {
  state = queued;
  terminal = false;
  state_changed = true;
  change_type = b'P' ∷ [];
  public_error_code = none;
  public_safe_message = none;
  archived = none;
  result_available = none;
}

abbrev made_or {ℓ} : {A : Type ℓ} → A → Result Error A → A
made_or other (ok a) = a
made_or other (err e) = other

abbrev nothing : Created
nothing = replay_of empty (record {
  id = [];
  kind = [];
  state = [];
  terminal = false;
  snapshot_revision = [];
  state_revision = [];
  last_event_seq = [];
  created_at = [];
  updated_at = [];
  terminal_at = none;
  public_error_code = none;
  public_safe_message = none;
  archived = false;
  result_available = false;
})

abbrev made : Created
made = made_or nothing (create noon ask empty)

abbrev applied : Tables × Meta
applied = made_or (empty, nothing.meta) (apply (b't' ∷ []) (b'1' ∷ []) proceed one_am made.tables)

abbrev recovered_tables : Tables × ℕ
recovered_tables = made_or (empty, 0) (recover_core (λ n. one_am) made.tables)

made_ok : create noon ask empty ≡ ok made
unfolding create lookup_idempotency insert_idempotency create_in_tx append_event find_row
    update_rows bytes_eq print print_fuel set_string parse_digits parse_from malformed
    canonical_decimal increment_decimal
made_ok = refl

applied_ok : apply (b't' ∷ []) (b'1' ∷ []) proceed one_am made.tables ≡ ok applied
unfolding create lookup_idempotency insert_idempotency create_in_tx append_event find_row
    update_rows bytes_eq print print_fuel set_string parse_digits parse_from malformed
    canonical_decimal increment_decimal apply get apply_in_tx count_rows validate_public_text
applied_ok = refl

recovered_ok : recover_core (λ n. one_am) made.tables ≡ ok recovered_tables
unfolding create lookup_idempotency insert_idempotency create_in_tx append_event find_row
    update_rows bytes_eq print print_fuel set_string parse_digits parse_from malformed
    canonical_decimal increment_decimal get apply_in_tx count_rows validate_public_text recover_core
    recover_ids select_ids recovery write_mirror
recovered_ok = refl

apply-once_example : apply (b't' ∷ []) (b'1' ∷ []) proceed noon applied.0 ≡ err revision_conflict
apply-once_example =
    apply-once (b't' ∷ []) (b'1' ∷ []) proceed proceed one_am noon made.tables applied refl refl
      applied_ok

apply-effect_example : get (b'o' ∷ []) applied.0 ≡ get (b'o' ∷ []) made.tables
unfolding bytes_eq
apply-effect_example =
    (apply-effect (b't' ∷ []) (b'1' ∷ []) proceed one_am made.tables applied applied_ok).7
      (b'o' ∷ []) refl

create-replays_example : create one_am ask made.tables ≡ ok (replay_of made.tables made.meta)
unfolding bytes_eq
create-replays_example =
    create-replays noon one_am ask ask (b'e' ∷ []) empty made made_ok refl refl refl

abbrev found : Meta
found = made_or nothing.meta (get (b't' ∷ []) recovered_tables.0)

found_ok : get (b't' ∷ []) recovered_tables.0 ≡ ok found
unfolding create lookup_idempotency insert_idempotency create_in_tx append_event find_row
    update_rows bytes_eq print print_fuel set_string parse_digits parse_from malformed
    canonical_decimal increment_decimal get apply_in_tx count_rows validate_public_text recover_core
    recover_ids select_ids recovery write_mirror
found_ok = refl

recover_core-settles_example : settled found ≡ true
recover_core-settles_example =
    recover_core-settles (λ n. one_am) made.tables recovered_tables (b't' ∷ []) found recovered_ok
      found_ok

abbrev calls : List Call
calls =
    create_call noon ask
    ∷ apply_call (b't' ∷ []) (b'1' ∷ []) proceed one_am
    ∷ apply_call (b't' ∷ []) (b'1' ∷ []) proceed one_am
    ∷ recover_call (λ n. noon)
    ∷ []

empty-Feed : Feed empty
unfolding print print_fuel
empty-Feed = (tt, refl)

run_calls-changes_example :
    (more : List Event) × ((run_calls calls empty).events ≡ empty.events ++ more)
    × (changes (print (length empty.events)) 5 (run_calls calls empty)
        ≡ ok (take (page_limit 5) more))
run_calls-changes_example = run_calls-changes calls empty 5 empty-Feed
