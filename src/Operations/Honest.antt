-- ===== src/Operations/Honest.antt =====
-- The invariant of the mutation service: what a task's state says of its round trip is true.
pub mod Views
pub mod Updates
pub mod Verdicts
pub mod Dispatching
pub mod Cancelling
pub mod Executing
pub mod Restarting
use influxdb_desk.Base.{
  ℕ, suc, ◌≤◌, ◌<◌, ◌≡◌, refl, Bool, true, false, not, ◌||◌, Option, none, some, List, [], ◌∷◌,
  if◌then◌else◌, Result, ok,
}
use influxdb_desk.Decimal.{Bytes, bytes_eq}
use influxdb_desk.Tasks
use influxdb_desk.Tasks.{Meta}
use influxdb_desk.Tasks.Words.{operation_kind, dispatching, outcome_unknown}
use influxdb_desk.Tasks.Repository.{get}
use influxdb_desk.Operations.{Phase, ready, failed, waiting, ended, Run, World}
use influxdb_desk.Operations.Words.{succeeded, rejected}
use influxdb_desk.Operations.Service.{find_run}

-- The states in which the mutation may have reached the server.
unfoldable pub maybe_sent : Bytes → Bool
maybe_sent state =
    bytes_eq state dispatching
    || bytes_eq state succeeded
    || bytes_eq state rejected
    || bytes_eq state outcome_unknown

-- How often the round trip of an operation has begun.
unfoldable pub times_sent : Bytes → List Bytes → ℕ
times_sent id [] = 0
times_sent id (x ∷ xs) = let n = times_sent id xs in if bytes_eq x id then suc n else n

-- What is sent has a task, an operation, in such a state.
abbrev pub Sent : Result Tasks.Error Meta → ℕ → Type 0
Sent g n = 0 < n → (m : Meta) × (g ≡ ok m) × (maybe_sent m.state ≡ true) × (m.kind ≡ operation_kind)

abbrev pub phase_fits : Phase → Bool → Bool
phase_fits ready started = not started
phase_fits (failed p) started = not started
phase_fits waiting started = started
phase_fits ended started = true

abbrev pub Fits : Run → ℕ → Type 0
Fits r n = (r.started ≡ false → n ≡ 0) × (phase_fits r.phase r.started ≡ true)

abbrev pub Quiet : Option Run → ℕ → Type 0
Quiet o n = (r : Run) → o ≡ some r → Fits r n

abbrev pub Owned : Result Tasks.Error Meta → Option Run → Type 0
Owned g o = (r : Run) (m : Meta) → o ≡ some r → g ≡ ok m → m.kind ≡ operation_kind

-- On what one operation shows: its task, its run, and how often it was sent.
abbrev pub View : Result Tasks.Error Meta → Option Run → ℕ → Type 0
View g o n = (n ≤ 1) × Sent g n × Quiet o n × Owned g o

abbrev pub Honest : World → Bytes → Type 0
Honest w id = View (get id w.db.core) (find_run id w.runs) (times_sent id w.sent)
