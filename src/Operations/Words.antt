-- ===== src/Operations/Words.antt =====
-- internal/operation/types.go: the states of an operation, and the words of its audit.
use influxdb_desk.Base.{[], ◌∷◌, ◌++◌}
use influxdb_desk.Decimal.{Bytes}

abbrev pub succeeded : Bytes
succeeded = b'S' ∷ b'U' ∷ b'C' ∷ b'C' ∷ b'E' ∷ b'E' ∷ b'D' ∷ b'E' ∷ b'D' ∷ []

abbrev pub rejected : Bytes
rejected = b'R' ∷ b'E' ∷ b'J' ∷ b'E' ∷ b'C' ∷ b'T' ∷ b'E' ∷ b'D' ∷ []

abbrev pub rejected_not_sent : Bytes
rejected_not_sent =
    b'R' ∷ b'E' ∷ b'J' ∷ b'E' ∷ b'C' ∷ b'T' ∷ b'E' ∷ b'D' ∷ b'_' ∷ b'N' ∷ b'O' ∷ b'T' ∷ b'_' ∷ b'S'
    ∷ b'E' ∷ b'N' ∷ b'T' ∷ []

abbrev pub canceled_not_sent : Bytes
canceled_not_sent =
    b'C' ∷ b'A' ∷ b'N' ∷ b'C' ∷ b'E' ∷ b'L' ∷ b'E' ∷ b'D' ∷ b'_' ∷ b'N' ∷ b'O' ∷ b'T' ∷ b'_' ∷ b'S'
    ∷ b'E' ∷ b'N' ∷ b'T' ∷ []

abbrev pub failed_internal_not_sent : Bytes
failed_internal_not_sent =
    b'F' ∷ b'A' ∷ b'I' ∷ b'L' ∷ b'E' ∷ b'D' ∷ b'_' ∷ b'I' ∷ b'N' ∷ b'T' ∷ b'E' ∷ b'R' ∷ b'N' ∷ b'A'
    ∷ b'L' ∷ b'_' ∷ b'N' ∷ b'O' ∷ b'T' ∷ b'_' ∷ b'S' ∷ b'E' ∷ b'N' ∷ b'T' ∷ []

abbrev pub attempted : Bytes
attempted = b'A' ∷ b'T' ∷ b'T' ∷ b'E' ∷ b'M' ∷ b'P' ∷ b'T' ∷ b'E' ∷ b'D' ∷ []

abbrev pub unknown : Bytes
unknown = b'U' ∷ b'N' ∷ b'K' ∷ b'N' ∷ b'O' ∷ b'W' ∷ b'N' ∷ []

abbrev pub requested : Bytes
requested = b'R' ∷ b'E' ∷ b'Q' ∷ b'U' ∷ b'E' ∷ b'S' ∷ b'T' ∷ b'E' ∷ b'D' ∷ []

abbrev pub cancel_requested : Bytes
cancel_requested =
    b'C' ∷ b'A' ∷ b'N' ∷ b'C' ∷ b'E' ∷ b'L' ∷ b'_' ∷ b'R' ∷ b'E' ∷ b'Q' ∷ b'U' ∷ b'E' ∷ b'S' ∷ b'T'
    ∷ b'E' ∷ b'D' ∷ []

abbrev pub state_change : Bytes
state_change = b'S' ∷ b'T' ∷ b'A' ∷ b'T' ∷ b'E' ∷ []

abbrev pub mutation : Bytes
mutation = b'M' ∷ b'U' ∷ b'T' ∷ b'A' ∷ b'T' ∷ b'I' ∷ b'O' ∷ b'N' ∷ []

abbrev pub cancel_action : Bytes
cancel_action = b'C' ∷ b'A' ∷ b'N' ∷ b'C' ∷ b'E' ∷ b'L' ∷ []

abbrev pub authorization_rejected : Bytes
authorization_rejected =
    b'M' ∷ b'U' ∷ b'T' ∷ b'A' ∷ b'T' ∷ b'I' ∷ b'O' ∷ b'N' ∷ b'_' ∷ b'A' ∷ b'U' ∷ b'T' ∷ b'H' ∷ b'O'
    ∷ b'R' ∷ b'I' ∷ b'Z' ∷ b'A' ∷ b'T' ∷ b'I' ∷ b'O' ∷ b'N' ∷ b'_' ∷ b'R' ∷ b'E' ∷ b'J' ∷ b'E'
    ∷ b'C' ∷ b'T' ∷ b'E' ∷ b'D' ∷ []

abbrev pub start_failed : Bytes
start_failed =
    b'M' ∷ b'U' ∷ b'T' ∷ b'A' ∷ b'T' ∷ b'I' ∷ b'O' ∷ b'N' ∷ b'_' ∷ b'S' ∷ b'T' ∷ b'A' ∷ b'R' ∷ b'T'
    ∷ b'_' ∷ b'F' ∷ b'A' ∷ b'I' ∷ b'L' ∷ b'E' ∷ b'D' ∷ b'_' ∷ b'N' ∷ b'O' ∷ b'T' ∷ b'_' ∷ b'S'
    ∷ b'E' ∷ b'N' ∷ b'T' ∷ []

abbrev pub mutation_unknown : Bytes
mutation_unknown =
    b'M' ∷ b'U' ∷ b'T' ∷ b'A' ∷ b'T' ∷ b'I' ∷ b'O' ∷ b'N' ∷ b'_' ∷ b'O' ∷ b'U' ∷ b'T' ∷ b'C' ∷ b'O'
    ∷ b'M' ∷ b'E' ∷ b'_' ∷ b'U' ∷ b'N' ∷ b'K' ∷ b'N' ∷ b'O' ∷ b'W' ∷ b'N' ∷ []

abbrev pub mutation_rejected : Bytes
mutation_rejected =
    b'M' ∷ b'U' ∷ b'T' ∷ b'A' ∷ b'T' ∷ b'I' ∷ b'O' ∷ b'N' ∷ b'_' ∷ b'R' ∷ b'E' ∷ b'J' ∷ b'E' ∷ b'C'
    ∷ b'T' ∷ b'E' ∷ b'D' ∷ []

abbrev pub not_sent_message : Bytes
not_sent_message =
    b'M' ∷ b'u' ∷ b't' ∷ b'a' ∷ b't' ∷ b'i' ∷ b'o' ∷ b'n' ∷ 32 ∷ b'w' ∷ b'a' ∷ b's' ∷ 32 ∷ b'n'
    ∷ b'o' ∷ b't' ∷ 32 ∷ b's' ∷ b'e' ∷ b'n' ∷ b't' ∷ []

abbrev pub unknown_message : Bytes
unknown_message =
    b'M' ∷ b'u' ∷ b't' ∷ b'a' ∷ b't' ∷ b'i' ∷ b'o' ∷ b'n' ∷ 32 ∷ b'o' ∷ b'u' ∷ b't' ∷ b'c' ∷ b'o'
    ∷ b'm' ∷ b'e' ∷ 32 ∷ b'i' ∷ b's' ∷ 32 ∷ b'u' ∷ b'n' ∷ b'k' ∷ b'n' ∷ b'o' ∷ b'w' ∷ b'n' ∷ []

abbrev pub rejected_message : Bytes
rejected_message =
    b'I' ∷ b'n' ∷ b'f' ∷ b'l' ∷ b'u' ∷ b'x' ∷ b'D' ∷ b'B' ∷ 32 ∷ b'r' ∷ b'e' ∷ b'j' ∷ b'e' ∷ b'c'
    ∷ b't' ∷ b'e' ∷ b'd' ∷ 32 ∷ b't' ∷ b'h' ∷ b'e' ∷ 32 ∷ b'm' ∷ b'u' ∷ b't' ∷ b'a' ∷ b't' ∷ b'i'
    ∷ b'o' ∷ b'n' ∷ []

abbrev pub cancel_digest : Bytes
cancel_digest =
    b'C' ∷ b'a' ∷ b'n' ∷ b'c' ∷ b'e' ∷ b'l' ∷ b'O' ∷ b'p' ∷ b'e' ∷ b'r' ∷ b'a' ∷ b't' ∷ b'i' ∷ b'o'
    ∷ b'n' ∷ b'V' ∷ b'1' ∷ []

abbrev pub execute_digest : Bytes
execute_digest =
    b'E' ∷ b'x' ∷ b'e' ∷ b'c' ∷ b'u' ∷ b't' ∷ b'e' ∷ b'M' ∷ b'u' ∷ b't' ∷ b'a' ∷ b't' ∷ b'i' ∷ b'o'
    ∷ b'n' ∷ b'V' ∷ b'1' ∷ []

abbrev pub action_digest : Bytes
action_digest =
    b'M' ∷ b'u' ∷ b't' ∷ b'a' ∷ b't' ∷ b'i' ∷ b'o' ∷ b'n' ∷ b'A' ∷ b'c' ∷ b't' ∷ b'i' ∷ b'o' ∷ b'n'
    ∷ b'V' ∷ b'1' ∷ []

-- The scopes under which a command and an execution stand in the ledgers.
abbrev pub cancel_scope : Bytes → Bytes → Bytes
cancel_scope id request =
    (b'O' ∷ b'P' ∷ b'E' ∷ b'R' ∷ b'A' ∷ b'T' ∷ b'I' ∷ b'O' ∷ b'N' ∷ 31 ∷ [])
    ++ (id ++ ((31 ∷ b'C' ∷ b'A' ∷ b'N' ∷ b'C' ∷ b'E' ∷ b'L' ∷ 31 ∷ []) ++ request))

abbrev pub execute_scope : Bytes → Bytes → Bytes
execute_scope profile request =
    (b'E' ∷ b'X' ∷ b'E' ∷ b'C' ∷ b'U' ∷ b'T' ∷ b'E' ∷ b'_' ∷ b'M' ∷ b'U' ∷ b'T' ∷ b'A' ∷ b'T' ∷ b'I'
      ∷ b'O' ∷ b'N' ∷ 31 ∷ [])
    ++ (profile ++ (31 ∷ request))
