-- ===== src/Operations.antt =====
-- internal/operation/types.go and service.go: the data of the mutation service. Texts are their
-- bytes, clock readings numbers; the clock's texts are `Stamps`.
pub mod Words
pub mod Transactions
pub mod Cancel
pub mod Service
pub mod Preview
pub mod Previewed
pub mod Vetted
pub mod Execute
pub mod Dispatch
pub mod Control
pub mod Effects
pub mod Cancelled
pub mod Created
pub mod Honest
pub mod Ended
pub mod History
mod Tests
use influxdb_desk.Base.{ℕ, Bool, Option, List, Result}
use influxdb_desk.Decimal.{Bytes}
use influxdb_desk.Protection
use influxdb_desk.Protection.Dispatch.{DispatchBinding}
use influxdb_desk.Tasks
use influxdb_desk.Tasks.{Meta, Tables}

pub data Error : Type 0 where
  preview_unavailable preview_expired confirmation_mismatch not_found state_conflict : Error
  invalid_command_request token_failed store_failed : Error
  task_error : Tasks.Error → Error
  protection_error : Protection.Error → Error

-- A row of `operations`.
pub record Row : Type 0 where
  pub operation_id : Bytes
  pub profile_id : Bytes
  pub profile_revision : Bytes
  pub connection_id : Bytes
  pub connection_generation : Bytes
  pub protection_revision : Bytes
  pub action_digest : Bytes
  pub operation_kind : Bytes
  pub state : Bytes
  pub dispatch_attempted : Bool
  pub cancel_requested : Bool
  pub created_at : Bytes
  pub updated_at : Bytes

-- A row of `audit_events`.
pub record Audit : Type 0 where
  pub category : Bytes
  pub action : Bytes
  pub target_id : Bytes
  pub target_digest : Bytes
  pub outcome : Bytes
  pub correlation_id : Bytes
  pub occurred_at : Bytes

pub record Db : Type 0 where
  pub core : Tables
  pub operations : List Row
  pub audits : List Audit

-- `Operation`
pub record Operation : Type 0 where
  pub task : Meta
  pub profile_id : Bytes
  pub profile_revision : Bytes
  pub connection_id : Bytes
  pub connection_generation : Bytes
  pub protection_revision : Bytes
  pub action_digest : Bytes
  pub operation_kind : Bytes
  pub dispatch_attempted : Bool
  pub cancel_requested : Bool
  pub replayed : Bool

-- `tokenRecord`
pub record TokenRecord : Type 0 where
  pub token : Bytes
  pub canonical_query : Bytes
  pub database : Bytes
  pub retention_policy : Bytes
  pub operation_kind : Bytes
  pub target : Bytes
  pub confirmation_required : Bool
  pub action_digest : Bytes
  pub binding : DispatchBinding
  pub expires : ℕ

-- `ExecuteRequest`
pub record ExecuteRequest : Type 0 where
  pub client_request_id : Bytes
  pub preview_token : Bytes
  pub confirmation : Bytes

-- `CommandEnvelope`
pub record CommandEnvelope : Type 0 where
  pub command_request_id : Bytes
  pub expected_state_revision : Bytes

-- The identity of a service: the fields that `NewService` fixes.
pub record Identity : Type 0 where
  pub profile_id : Bytes
  pub profile_revision : Bytes
  pub connection_id : Bytes
  pub generation : Bytes

-- Where the goroutine of `dispatch` stands: before the gate, behind it without a round trip (and
-- whether the row was to be marked), waiting for the response, or behind `finish`.
pub data Phase : Type 0 where
  ready : Phase
  failed : Bool → Phase
  waiting : Phase
  ended : Phase

-- An `operationControl` with the goroutine that it belongs to; `listed` is that it stands in
-- `controls`.
pub record Run : Type 0 where
  pub operation_id : Bytes
  pub record_of : TokenRecord
  pub started : Bool
  pub phase : Phase
  pub listed : Bool

-- `transport.AuthorizedMutationQuery`
pub record MutationQuery : Type 0 where
  pub database : Bytes
  pub retention_policy : Bytes
  pub query : Bytes

-- The service with its store. `sent` lists the operations whose round trip has begun, `requests` what
-- was given to the dispatcher for them.
pub record World : Type 0 where
  pub db : Db
  pub tokens : List TokenRecord
  pub runs : List Run
  pub sent : List Bytes
  pub requests : List MutationQuery
