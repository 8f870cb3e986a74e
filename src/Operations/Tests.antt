-- ===== src/Operations/Tests.antt =====
-- The mutation service on a concrete store: DROP DATABASE d is previewed, executed, sent, answered.
use influxdb_desk.Base.{
  ◌≤◌, ◌≡◌, refl, Bool, true, false, not, Option, some, [], ◌∷◌, All, is_empty, Result, ok, err,
}
use influxdb_desk.Base.Table.{find_row, update_rows, delete_rows}
use influxdb_desk.Decimal.{
  Bytes, bytes_eq, print, print_fuel, set_string, parse_digits, parse_from, malformed,
  canonical_decimal, increment_decimal,
}
use influxdb_desk.Protection.Dispatch.{DispatchBinding}
use influxdb_desk.Policy.{
  Kind, Statement, plain, may_mutate, classify_statement, classify_kind, scan_from, classify_query,
}
use influxdb_desk.Tasks
use influxdb_desk.Tasks.{Meta, Tables, validate_public_text}
use influxdb_desk.Tasks.Ledger.{
  lookup_idempotency, insert_idempotency, lookup_command, insert_command,
}
use influxdb_desk.Tasks.Words.{operation_kind, queued, dispatching}
use influxdb_desk.Tasks.Repository.{get, append_event, create_in_tx, new_task}
use influxdb_desk.Tasks.Apply
use influxdb_desk.Tasks.Apply.{apply_in_tx}
use influxdb_desk.RunGrant.{framed}
use influxdb_desk.Operations.{Db, Identity, ExecuteRequest, CommandEnvelope, World, MutationQuery}
use influxdb_desk.Operations.Words.{succeeded, canceled_not_sent}
use influxdb_desk.Operations.Preview.{
  Grammar, PreviewEnv, PreviewRequest, confirms_kind, allocate_token, preview,
}
use influxdb_desk.Operations.Transactions.{
  count_rows, update_operation, audit_operation, transition, finish, get_in_tx,
}
use influxdb_desk.Operations.Cancel.{
  validate_cancel_command, replay_cancel_command, cancel_open, apply_cancel,
}
use influxdb_desk.Operations.Service.{purge_expired, find_run}
use influxdb_desk.Operations.Execute.{ExecuteEnv, replay_execution, execute_in_tx, execute}
use influxdb_desk.Operations.Dispatch.{
  DispatchEnv, begin_dispatch, Response, Envelope, classify_mutation_response, finish_dispatch,
}
use influxdb_desk.Operations.Control.{CancelEnv, cancel}
use influxdb_desk.Operations.Honest.{maybe_sent, times_sent}
use influxdb_desk.Operations.Honest.Executing.{Fresh}
use influxdb_desk.Operations.History.{
  idle, previewed, executed, begun, finished, Reach, start, next, unmoved, after, ended_stays,
  states_truthful, requests_vetted,
}

abbrev empty_db : Db
empty_db = record {
  core = record {
    tasks = [];
    events = [];
    head = some (b'0' ∷ []);
    idempotency = [];
    commands = [];
    mirrors = [];
  };
  operations = [];
  audits = [];
}

abbrev statement : Statement
statement = plain Kind.drop_database (b'd' ∷ [])

abbrev grammar : Grammar
grammar = record {
  parse = λ text. some (statement ∷ []);
  printer = record { empty = []; statement = λ s. b's' ∷ []; query = λ l. b'q' ∷ [] };
  kind_name = λ s. b'k' ∷ [];
  target_name = λ s. b'd' ∷ [];
}

abbrev binding : DispatchBinding
binding = record {
  connection_id = b'c' ∷ [];
  generation = b'1' ∷ [];
  profile_revision = b'1' ∷ [];
  protection_revision = b'1' ∷ [];
  lease_id = b'l' ∷ [];
}

abbrev identity : Identity
identity = record {
  profile_id = b'p' ∷ [];
  profile_revision = b'1' ∷ [];
  connection_id = b'c' ∷ [];
  generation = b'1' ∷ [];
}

abbrev valid : Bytes → Bool
valid text = not (is_empty text)

abbrev hash : Bytes → Bytes
hash text = b'h' ∷ text

abbrev decode : Bytes → Option Envelope
decode body = some (record { error = false; results = false ∷ [] })

abbrev preview_env : PreviewEnv
preview_env = record {
  grant = ok (binding, some 500);
  request_time = 10;
  check_time = 11;
  purge_time = 12;
  store_time = 13;
  candidates = some (b't' ∷ []) ∷ [];
}

abbrev preview_request : PreviewRequest
preview_request = record { database = []; retention_policy = []; query = b'Q' ∷ [] }

abbrev previewed_world : World
previewed_world = (preview hash grammar identity 120 preview_env preview_request (idle empty_db)).0

abbrev execute_env : ExecuteEnv
execute_env = record {
  purge_time = 20;
  check_time = 21;
  operation_id = b'o' ∷ [];
  now = b'n' ∷ [];
  ledger_expires_at = b'e' ∷ [];
  database_up = true;
  before_lock = empty_db;
  before_transaction = empty_db;
}

abbrev confirmed : ExecuteRequest
confirmed = record {
  client_request_id = b'r' ∷ [];
  preview_token = b't' ∷ [];
  confirmation = b'd' ∷ [];
}

abbrev executed_world : World
executed_world = (execute valid hash identity execute_env confirmed previewed_world).0

abbrev dispatch_env : DispatchEnv
dispatch_env = record { authorized = ok tt; now = b'n' ∷ []; database_up = true; begun = true }

abbrev sent_world : World
sent_world = begin_dispatch (b'o' ∷ []) dispatch_env executed_world

abbrev reply : Response
reply = record { status = 200; body = some (b'{' ∷ []) }

abbrev finished_world : World
finished_world = finish_dispatch decode (b'o' ∷ []) (some reply) (b'n' ∷ []) true sent_world

-- The state of the operation, in its task.
abbrev state_in : World → Result Tasks.Error Bytes
state_in w = elim (get (b'o' ∷ []) w.db.core) [ err e ↦ err e | ok m ↦ ok m.state ]

answered : state_in finished_world ≡ ok succeeded
unfolding preview classify_query scan_from classify_statement classify_kind confirms_kind
    allocate_token purge_expired delete_rows find_row bytes_eq framed print print_fuel set_string
    parse_digits parse_from malformed canonical_decimal increment_decimal execute replay_execution
    execute_in_tx lookup_idempotency insert_idempotency create_in_tx append_event update_rows
    begin_dispatch find_run transition get apply_in_tx Apply.count_rows validate_public_text
    count_rows update_operation audit_operation finish_dispatch classify_mutation_response finish
answered = refl

sent_once : times_sent (b'o' ∷ []) finished_world.sent ≡ 1
unfolding preview classify_query scan_from classify_statement classify_kind confirms_kind
    allocate_token purge_expired delete_rows find_row bytes_eq framed print print_fuel set_string
    parse_digits parse_from malformed canonical_decimal increment_decimal execute replay_execution
    execute_in_tx lookup_idempotency insert_idempotency create_in_tx append_event update_rows
    begin_dispatch find_run transition get apply_in_tx Apply.count_rows validate_public_text
    count_rows update_operation audit_operation finish_dispatch classify_mutation_response finish
    times_sent
sent_once = refl

fresh : Fresh (b'o' ∷ []) previewed_world
unfolding preview classify_query scan_from classify_statement classify_kind confirms_kind
    allocate_token purge_expired delete_rows find_row bytes_eq framed print print_fuel set_string
    parse_digits parse_from malformed canonical_decimal increment_decimal execute replay_execution
    execute_in_tx lookup_idempotency insert_idempotency create_in_tx append_event update_rows
    begin_dispatch find_run transition get apply_in_tx Apply.count_rows validate_public_text
    count_rows update_operation audit_operation finish_dispatch classify_mutation_response finish
fresh = (refl, refl)

finished_Reach : Reach valid hash decode grammar empty_db finished_world
finished_Reach =
    next
      (next
        (next (next start (previewed identity 120 preview_env preview_request (idle empty_db)))
          (executed identity execute_env confirmed previewed_world fresh))
        (begun (b'o' ∷ []) dispatch_env executed_world))
      (finished (b'o' ∷ []) (some reply) (b'n' ∷ []) true sent_world)

abbrev task_of : Result Tasks.Error Meta → Meta
task_of (ok m) = m
task_of (err e) = new_task [] [] [] false []

abbrev finished_task : Meta
finished_task = task_of (get (b'o' ∷ []) finished_world.db.core)

finished_found : get (b'o' ∷ []) finished_world.db.core ≡ ok finished_task
unfolding preview classify_query scan_from classify_statement classify_kind confirms_kind
    allocate_token purge_expired delete_rows find_row bytes_eq framed print print_fuel set_string
    parse_digits parse_from malformed canonical_decimal increment_decimal execute replay_execution
    execute_in_tx lookup_idempotency insert_idempotency create_in_tx append_event update_rows
    begin_dispatch find_run transition get apply_in_tx Apply.count_rows validate_public_text
    count_rows update_operation audit_operation finish_dispatch classify_mutation_response finish
finished_found = refl

states_truthful_example :
    (times_sent (b'o' ∷ []) finished_world.sent ≤ 1)
    × (maybe_sent finished_task.state ≡ false → times_sent (b'o' ∷ []) finished_world.sent ≡ 0)
states_truthful_example =
    states_truthful valid hash decode grammar empty_db finished_world (b'o' ∷ []) finished_task
      finished_Reach finished_found

requests_vetted_example :
    All
      (λ (q : MutationQuery).
        (s : Statement) × (q.query ≡ grammar.printer.query (s ∷ []))
        × (classify_statement s ≡ may_mutate))
      finished_world.requests
requests_vetted_example =
    requests_vetted valid hash decode grammar empty_db finished_world finished_Reach

abbrev cancel_env : CancelEnv
cancel_env = record {
  before_gate = executed_world.db;
  held = false;
  gate = ok tt;
  now = b'n' ∷ [];
  ledger_expires_at = b'e' ∷ [];
  database_up = true;
}

abbrev cancel_request : CommandEnvelope
cancel_request = record { command_request_id = b'x' ∷ []; expected_state_revision = b'1' ∷ [] }

abbrev cancelled_world : World
cancelled_world =
    (cancel valid hash identity (b'o' ∷ []) cancel_request cancel_env executed_world).0

cancelled_unsent : state_in cancelled_world ≡ ok canceled_not_sent
unfolding preview classify_query scan_from classify_statement classify_kind confirms_kind
    allocate_token purge_expired delete_rows find_row bytes_eq framed print print_fuel set_string
    parse_digits parse_from malformed canonical_decimal increment_decimal execute replay_execution
    execute_in_tx lookup_idempotency insert_idempotency create_in_tx append_event update_rows
    begin_dispatch find_run transition get apply_in_tx Apply.count_rows validate_public_text
    count_rows update_operation audit_operation finish_dispatch classify_mutation_response finish
    cancel get_in_tx lookup_command insert_command validate_cancel_command replay_cancel_command
    cancel_open apply_cancel
cancelled_unsent = refl

-- The dispatch of a cancelled operation is refused before the round trip.
stays_cancelled : (begin_dispatch (b'o' ∷ []) dispatch_env cancelled_world).sent ≡ []
unfolding preview classify_query scan_from classify_statement classify_kind confirms_kind
    allocate_token purge_expired delete_rows find_row bytes_eq framed print print_fuel set_string
    parse_digits parse_from malformed canonical_decimal increment_decimal execute replay_execution
    execute_in_tx lookup_idempotency insert_idempotency create_in_tx append_event update_rows
    begin_dispatch find_run transition get apply_in_tx Apply.count_rows validate_public_text
    count_rows update_operation audit_operation finish_dispatch classify_mutation_response finish
    cancel get_in_tx lookup_command insert_command validate_cancel_command replay_cancel_command
    cancel_open apply_cancel
stays_cancelled = refl

abbrev cancelled_task : Meta
cancelled_task = task_of (get (b'o' ∷ []) cancelled_world.db.core)

cancelled_found : get (b'o' ∷ []) cancelled_world.db.core ≡ ok cancelled_task
unfolding preview classify_query scan_from classify_statement classify_kind confirms_kind
    allocate_token purge_expired delete_rows find_row bytes_eq framed print print_fuel set_string
    parse_digits parse_from malformed canonical_decimal increment_decimal execute replay_execution
    execute_in_tx lookup_idempotency insert_idempotency create_in_tx append_event update_rows
    begin_dispatch find_run transition get apply_in_tx Apply.count_rows validate_public_text
    count_rows update_operation audit_operation finish_dispatch classify_mutation_response finish
    cancel get_in_tx lookup_command insert_command validate_cancel_command replay_cancel_command
    cancel_open apply_cancel
cancelled_found = refl

cancelled_facts :
    (cancelled_task.terminal ≡ true)
    × (cancelled_task.kind ≡ operation_kind)
    × (bytes_eq cancelled_task.state queued ≡ false)
    × (bytes_eq cancelled_task.state dispatching ≡ false)
unfolding preview classify_query scan_from classify_statement classify_kind confirms_kind
    allocate_token purge_expired delete_rows find_row bytes_eq framed print print_fuel set_string
    parse_digits parse_from malformed canonical_decimal increment_decimal execute replay_execution
    execute_in_tx lookup_idempotency insert_idempotency create_in_tx append_event update_rows
    begin_dispatch find_run transition get apply_in_tx Apply.count_rows validate_public_text
    count_rows update_operation audit_operation finish_dispatch classify_mutation_response finish
    cancel get_in_tx lookup_command insert_command validate_cancel_command replay_cancel_command
    cancel_open apply_cancel
cancelled_facts = (refl, refl, refl, refl)

-- The dispatch of the cancelled operation, afterwards.
abbrev late_world : World
late_world = begin_dispatch (b'o' ∷ []) dispatch_env cancelled_world

ended_stays_example :
    (x : Meta) × (get (b'o' ∷ []) late_world.db.core ≡ ok x)
    × (x.terminal ≡ true)
    × (x.state ≡ cancelled_task.state)
    × (times_sent (b'o' ∷ []) late_world.sent ≡ times_sent (b'o' ∷ []) cancelled_world.sent)
ended_stays_example =
    ended_stays valid hash decode grammar cancelled_world late_world (b'o' ∷ []) cancelled_task
      (after unmoved (begun (b'o' ∷ []) dispatch_env cancelled_world)) cancelled_found
      cancelled_facts.0 cancelled_facts.1 cancelled_facts.2 cancelled_facts.3
