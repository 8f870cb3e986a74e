-- ===== src/Tasks/Words.antt =====
-- internal/tasks/repository.go: the kinds, states and texts that recovery names.
use influxdb_desk.Base.{[], ◌∷◌}
use influxdb_desk.Decimal.{Bytes}

abbrev pub query_kind : Bytes
query_kind = b'Q' ∷ b'U' ∷ b'E' ∷ b'R' ∷ b'Y' ∷ []

abbrev pub operation_kind : Bytes
operation_kind = b'O' ∷ b'P' ∷ b'E' ∷ b'R' ∷ b'A' ∷ b'T' ∷ b'I' ∷ b'O' ∷ b'N' ∷ []

abbrev pub export_kind : Bytes
export_kind = b'E' ∷ b'X' ∷ b'P' ∷ b'O' ∷ b'R' ∷ b'T' ∷ []

abbrev pub queued : Bytes
queued = b'Q' ∷ b'U' ∷ b'E' ∷ b'U' ∷ b'E' ∷ b'D' ∷ []

abbrev pub dispatching : Bytes
dispatching = b'D' ∷ b'I' ∷ b'S' ∷ b'P' ∷ b'A' ∷ b'T' ∷ b'C' ∷ b'H' ∷ b'I' ∷ b'N' ∷ b'G' ∷ []

abbrev pub interrupted : Bytes
interrupted = b'I' ∷ b'N' ∷ b'T' ∷ b'E' ∷ b'R' ∷ b'R' ∷ b'U' ∷ b'P' ∷ b'T' ∷ b'E' ∷ b'D' ∷ []

abbrev pub interrupted_not_sent : Bytes
interrupted_not_sent =
    b'I' ∷ b'N' ∷ b'T' ∷ b'E' ∷ b'R' ∷ b'R' ∷ b'U' ∷ b'P' ∷ b'T' ∷ b'E' ∷ b'D' ∷ b'_' ∷ b'N' ∷ b'O'
    ∷ b'T' ∷ b'_' ∷ b'S' ∷ b'E' ∷ b'N' ∷ b'T' ∷ []

abbrev pub outcome_unknown : Bytes
outcome_unknown =
    b'O' ∷ b'U' ∷ b'T' ∷ b'C' ∷ b'O' ∷ b'M' ∷ b'E' ∷ b'_' ∷ b'U' ∷ b'N' ∷ b'K' ∷ b'N' ∷ b'O' ∷ b'W'
    ∷ b'N' ∷ []

abbrev pub paused_restartable : Bytes
paused_restartable =
    b'P' ∷ b'A' ∷ b'U' ∷ b'S' ∷ b'E' ∷ b'D' ∷ b'_' ∷ b'R' ∷ b'E' ∷ b'S' ∷ b'T' ∷ b'A' ∷ b'R' ∷ b'T'
    ∷ b'A' ∷ b'B' ∷ b'L' ∷ b'E' ∷ []

abbrev pub recovered : Bytes
recovered = b'R' ∷ b'E' ∷ b'C' ∷ b'O' ∷ b'V' ∷ b'E' ∷ b'R' ∷ b'E' ∷ b'D' ∷ []

abbrev pub lost_on_restart : Bytes
lost_on_restart =
    b'L' ∷ b'O' ∷ b'S' ∷ b'T' ∷ b'_' ∷ b'O' ∷ b'N' ∷ b'_' ∷ b'R' ∷ b'E' ∷ b'S' ∷ b'T' ∷ b'A' ∷ b'R'
    ∷ b'T' ∷ []

abbrev pub restart_message : Bytes
restart_message =
    b'Q' ∷ b'u' ∷ b'e' ∷ b'r' ∷ b'y' ∷ 32 ∷ b'i' ∷ b'n' ∷ b't' ∷ b'e' ∷ b'r' ∷ b'r' ∷ b'u' ∷ b'p'
    ∷ b't' ∷ b'e' ∷ b'd' ∷ 32 ∷ b'b' ∷ b'y' ∷ 32 ∷ b'a' ∷ b'p' ∷ b'p' ∷ b'l' ∷ b'i' ∷ b'c' ∷ b'a'
    ∷ b't' ∷ b'i' ∷ b'o' ∷ b'n' ∷ 32 ∷ b'r' ∷ b'e' ∷ b's' ∷ b't' ∷ b'a' ∷ b'r' ∷ b't' ∷ []
