-- ===== src/Tasks.antt =====
-- internal/tasks/types.go and repository.go: the state of the task repository. A transaction that
-- fails leaves the tables as they were. Texts are their bytes, times their RFC 3339 texts.
pub mod Words
pub mod Ledger
pub mod Repository
pub mod Changes
pub mod Recover
pub mod Feed
pub mod Updates
pub mod Growth
pub mod History
pub mod Concurrency
pub mod Effect
pub mod Replay
pub mod Settled
pub mod Restart
pub mod Created
pub mod Survives
pub mod Apply
mod Tests
use influxdb_desk.Base.{
  ℕ, Bool, true, false, not, ◌&&◌, ◌||◌, Option, none, some, List, [], ◌∷◌, ltb, ◌==◌, length,
  Result, ok, err, guard, ◌>>=◌, ◌>>◌,
}
use influxdb_desk.Decimal.{Bytes}

pub data Error : Type 0 where
  not_found idempotency_conflict command_conflict revision_conflict invalid_decimal : Error
  invalid_request expiry_required change_type_required invalid_code invalid_message : Error
  store_failed mirror_missing : Error

pub record Meta : Type 0 where
  pub id : Bytes
  pub kind : Bytes
  pub state : Bytes
  pub terminal : Bool
  pub snapshot_revision : Bytes
  pub state_revision : Bytes
  pub last_event_seq : Bytes
  pub created_at : Bytes
  pub updated_at : Bytes
  pub terminal_at : Option Bytes
  pub public_error_code : Option Bytes
  pub public_safe_message : Option Bytes
  pub archived : Bool
  pub result_available : Bool

pub record Event : Type 0 where
  pub schema_version : ℕ
  pub seq : Bytes
  pub kind : Bytes
  pub id : Bytes
  pub resource_revision : Bytes
  pub state : Bytes
  pub change_type : Bytes
  pub occurred_at : Bytes

pub record CreateRequest : Type 0 where
  pub id : Bytes
  pub kind : Bytes
  pub initial_state : Bytes
  pub client_scope : Bytes
  pub request_digest : Bytes
  pub ledger_expires_at : Option Bytes
  pub result_available : Bool

pub record Change : Type 0 where
  pub state : Bytes
  pub terminal : Bool
  pub state_changed : Bool
  pub change_type : Bytes
  pub public_error_code : Option Bytes
  pub public_safe_message : Option Bytes
  pub archived : Option Bool
  pub result_available : Option Bool

pub record IdempotencyEntry : Type 0 where
  pub scope : Bytes
  pub request_digest : Bytes
  pub resource_kind : Bytes
  pub resource_id : Bytes
  pub created_at : Bytes
  pub expires_at : Bytes

pub record CommandEntry : Type 0 where
  pub scope : Bytes
  pub request_digest : Bytes
  pub resource_kind : Bytes
  pub resource_id : Bytes
  pub result_state : Bytes
  pub result_state_revision : Bytes
  pub public_error_code : Option Bytes
  pub committed_at : Bytes
  pub expires_at : Bytes

-- The columns of `query_sessions` that the task repository writes.
pub record Mirror : Type 0 where
  pub session_id : Bytes
  pub state : Bytes
  pub terminal : Bool
  pub snapshot_revision : Bytes
  pub state_revision : Bytes
  pub last_event_seq : Bytes
  pub result_available : Bool
  pub archived : Bool
  pub updated_at : Bytes
  pub terminal_at : Option Bytes

-- The tables. `head` is the row of `task_event_head`.
pub record Tables : Type 0 where
  pub tasks : List Meta
  pub events : List Event
  pub head : Option Bytes
  pub idempotency : List IdempotencyEntry
  pub commands : List CommandEntry
  pub mirrors : List Mirror

-- `strings.ContainsAny(text, "\r\n")`
abbrev pub breaks_line : Bytes → Bool
breaks_line [] = false
breaks_line (c ∷ cs) = c == 13 || c == 10 || breaks_line cs

abbrev pub public_text : ℕ → Option Bytes → Bool
public_text limit none = true
public_text limit (some text) = not (ltb limit (length text) || breaks_line text)

-- `validatePublicText`
unfoldable pub validate_public_text : Option Bytes → Option Bytes → Result Error (Unit {0})
validate_public_text code message = do
  guard (public_text 96 code) invalid_code
  guard (public_text 512 message) invalid_message
