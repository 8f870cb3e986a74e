-- ===== src/RunGrant.antt =====
-- internal/transfer/grant.go: the grants of import runs. A method body runs under the registry's
-- mutex. Texts are their bytes, times are instants in nanoseconds, and the two maps are lists of
-- entries. `uuid_valid` is `uuid.Parse`, `sha256_hex` the hex text of the SHA-256 sum.
pub mod SingleUse
mod Tests
use influxdb_desk.Base.{
  ℕ, ◌+◌, ◌-◌, Bool, true, false, not, ◌&&◌, ◌||◌, Option, none, some, List, [], ◌∷◌, ◌++◌, ltb,
  leb, if◌then◌else◌, length, take, is_empty, Result, ok, err, guard, or_fail, ◌>>=◌, ◌>>◌,
}
use influxdb_desk.Base.Table.{find_row, update_rows, delete_rows}
use influxdb_desk.Decimal.{Bytes, bytes_eq, print, canonical_decimal}

pub data Error : Type 0 where
  grant_mismatch grant_expired grant_reserved random_failed no_unique_token : Error

pub record GrantBinding : Type 0 where
  pub job_id : Bytes
  pub command_request_id : Bytes
  pub action : Bytes
  pub decision : Bytes
  pub after_resolution : Bytes
  pub expected_state_revision : Bytes
  pub checkpoint_digest : Bytes
  pub incident_digest : Bytes
  pub source_sha256 : Bytes
  pub staging_sha256 : Bytes
  pub normalization_version : Bytes
  pub spec_digest : Bytes
  pub target_digest : Bytes
  pub profile_id : Bytes
  pub profile_revision : Bytes
  pub connection_id : Bytes
  pub connection_generation : Bytes
  pub protection_revision : Bytes
  pub lease_id : Bytes

-- An entry of `records`. The empty `reservation_id` is that nobody holds a reservation.
pub record GrantRecord : Type 0 where
  pub binding : GrantBinding
  pub digest : Bytes
  pub token : Bytes
  pub expires : ℕ
  pub reservation_id : Bytes
  pub consumed : Bool

-- An entry of `scopes`.
pub record ScopeEntry : Type 0 where
  pub scope : Bytes
  pub token : Bytes

pub record Registry : Type 0 where
  pub records : List GrantRecord
  pub scopes : List ScopeEntry

pub record Reservation : Type 0 where
  pub token : Bytes
  pub reservation_id : Bytes
  pub binding : GrantBinding
  pub expires : ℕ

abbrev pub any : {A : Type 0} → (A → Bool) → List A → Bool
any p [] = false
any p (x ∷ xs) = p x || any p xs

abbrev start_action : Bytes
start_action = b'S' ∷ b'T' ∷ b'A' ∷ b'R' ∷ b'T' ∷ []

abbrev resume_action : Bytes
resume_action = b'R' ∷ b'E' ∷ b'S' ∷ b'U' ∷ b'M' ∷ b'E' ∷ []

abbrev resolve_action : Bytes
resolve_action = b'R' ∷ b'E' ∷ b'S' ∷ b'O' ∷ b'L' ∷ b'V' ∷ b'E' ∷ []

abbrev is_action : Bytes → Bool
is_action a = bytes_eq a start_action || bytes_eq a resume_action || bytes_eq a resolve_action

abbrev required : GrantBinding → List Bytes
required b =
    b.job_id ∷ b.checkpoint_digest ∷ b.source_sha256 ∷ b.staging_sha256 ∷ b.normalization_version
    ∷ b.spec_digest ∷ b.target_digest ∷ b.profile_id ∷ b.connection_id ∷ b.lease_id ∷ []

abbrev is_decimal : Bytes → Bool
is_decimal v = elim (canonical_decimal v) [ ok c ↦ true | err e ↦ false ]

-- `validateGrantBinding`
unfoldable pub validate_grant_binding : (Bytes → Bool) → GrantBinding → Result Error (Unit {0})
validate_grant_binding uuid_valid b = do
  guard (not (any is_empty (required b))) grant_mismatch
  guard (uuid_valid b.command_request_id) grant_mismatch
  guard
      (is_decimal b.expected_state_revision
        && is_decimal b.profile_revision
        && is_decimal b.connection_generation
        && is_decimal b.protection_revision)
      grant_mismatch
  guard (is_action b.action) grant_mismatch

-- What the loop of `grantBindingDigest` writes for one value.
unfoldable pub framed : List Bytes → Bytes
framed [] = []
framed (v ∷ vs) = print (length v) ++ 0 ∷ v ++ framed vs

abbrev grant_title : Bytes
grant_title =
    b'I' ∷ b'm' ∷ b'p' ∷ b'o' ∷ b'r' ∷ b't' ∷ b'R' ∷ b'u' ∷ b'n' ∷ b'G' ∷ b'r' ∷ b'a' ∷ b'n' ∷ b't'
    ∷ b'V' ∷ b'1' ∷ []

-- `grantBindingDigest`, less the hash.
unfoldable pub digest_text : GrantBinding → Bytes
unfolding framed
digest_text b = framed (
    grant_title ∷ b.job_id ∷ b.command_request_id ∷ b.action ∷ b.decision ∷ b.after_resolution
    ∷ b.expected_state_revision ∷ b.checkpoint_digest ∷ b.incident_digest ∷ b.source_sha256
    ∷ b.staging_sha256 ∷ b.normalization_version ∷ b.spec_digest ∷ b.target_digest ∷ b.profile_id
    ∷ b.profile_revision ∷ b.connection_id ∷ b.connection_generation ∷ b.protection_revision
    ∷ b.lease_id ∷ [])

abbrev pub grant_scope : GrantBinding → Bytes
grant_scope b = b.job_id ++ 31 ∷ b.command_request_id

abbrev pub has_token : Bytes → GrantRecord → Bool
has_token token r = bytes_eq r.token token

abbrev pub has_scope : Bytes → ScopeEntry → Bool
has_scope scope e = bytes_eq e.scope scope

-- The test of `purgeLocked`
abbrev pub purgeable : ℕ → GrantRecord → Bool
purgeable now r = leb r.expires now && is_empty r.reservation_id

-- `purgeLocked`
unfoldable pub purge : ℕ → Registry → Registry
purge now g = record {
  records = delete_rows (purgeable now) g.records;
  scopes =
      delete_rows
        (λ e. any (λ r. purgeable now r && bytes_eq e.scope (grant_scope r.binding)) g.records)
        g.scopes;
}

-- The token loop of `Issue` on what the random source answers, `none` an error.
unfoldable pub fresh_token : List (Option Bytes) → List GrantRecord → Result Error Bytes
fresh_token [] records = err no_unique_token
fresh_token (none ∷ answers) records = err random_failed
fresh_token (some token ∷ answers) records =
    let rest = fresh_token answers records in
    if any (has_token token) records then rest else ok token

-- The grant that a preview command already has.
abbrev live_grant : Bytes → Option GrantRecord → Result Error (Bytes × ℕ)
live_grant digest none = err grant_mismatch
live_grant digest (some r) = do
  guard (bytes_eq r.digest digest && not r.consumed && is_empty r.reservation_id) grant_mismatch
  ok (r.token, r.expires)

abbrev new_grant : GrantBinding → Bytes → Bytes → ℕ → GrantRecord
new_grant b digest token expires = record {
  binding = b;
  digest = digest;
  token = token;
  expires = expires;
  reservation_id = [];
  consumed = false;
}

-- `Issue` behind its checks: the grant of the scope, or a new one.
abbrev issue_in :
    GrantBinding
    → Bytes
    → ℕ
    → List (Option Bytes)
    → Option ScopeEntry
    → Registry
    → Registry × Result Error (Bytes × ℕ)
issue_in b digest expires answers (some e) g =
    (g, live_grant digest (find_row (has_token e.token) g.records))
issue_in b digest expires answers none g = elim (fresh_token answers g.records) [
  | err x ↦ (g, err x)
  | ok token ↦ (
    record {
      records = new_grant b digest token expires ∷ g.records;
      scopes = record { scope = grant_scope b; token = token } ∷ g.scopes;
    },
    ok (token, expires),
  )
]

-- `120*time.Second`
abbrev pub grant_lifetime : ℕ
grant_lifetime = 120_000_000_000

-- `Issue`; at most four answers of the random source are read.
unfoldable pub issue :
    (Bytes → Bool)
    → (Bytes → Bytes)
    → ℕ
    → List (Option Bytes)
    → GrantBinding
    → ℕ
    → Registry
    → Registry × Result Error (Bytes × ℕ)
unfolding validate_grant_binding digest_text purge fresh_token
issue uuid_valid sha256_hex now answers b expires g = elim (validate_grant_binding uuid_valid b) [
  | err x ↦ (g, err x)
  | ok u ↦
      if not (ltb now expires) || ltb grant_lifetime (expires - now)
      then (g, err grant_mismatch)
      else (let live = purge now g in
          issue_in b (sha256_hex (digest_text b)) expires (take 4 answers)
            (find_row (has_scope (grant_scope b)) live.scopes) live)
]

abbrev pub set_reservation : Bytes → GrantRecord → GrantRecord
set_reservation id r = record r { reservation_id = id }

-- `Reserve` on the record of the token.
abbrev pub reserve_record :
    Bytes → Bytes → Bytes → Option GrantRecord → Registry → Registry × Result Error Reservation
reserve_record id token digest none g = (g, err grant_expired)
reserve_record id token digest (some r) g =
    if r.consumed
    then (g, err grant_expired)
    else if not (bytes_eq r.digest digest)
    then (g, err grant_mismatch)
    else if not (is_empty r.reservation_id)
    then (g, err grant_reserved)
    else (
      record g { records = update_rows (has_token token) (set_reservation id) g.records },
      ok (record { token = token; reservation_id = id; binding = r.binding; expires = r.expires }),
    )

-- `Reserve`; `id` is the text of `uuid.NewString()`, `digest` that of the expected binding.
unfoldable pub reserve : ℕ → Bytes → Bytes → Bytes → Registry → Registry × Result Error Reservation
unfolding purge
reserve now id token digest g =
    let live = purge now g in
    reserve_record id token digest (find_row (has_token token) live.records) live

-- `record == nil || record.reservationID != r.reservationID || record.consumed`
abbrev pub held : Reservation → Option GrantRecord → Option GrantRecord
held v none = none
held v (some r) =
    if bytes_eq r.reservation_id v.reservation_id && not r.consumed then some r else none

abbrev pub held_record : Reservation → Registry → Option GrantRecord
held_record v g = held v (find_row (has_token v.token) g.records)

-- `ValidateLive`
unfoldable pub validate_live : ℕ → Reservation → Registry → Result Error (Unit {0})
validate_live now v g = do
  r ← or_fail (held_record v g) grant_mismatch
  guard (ltb now r.expires) grant_expired

abbrev pub consume_record : GrantRecord → GrantRecord
consume_record r = record r { consumed = true; reservation_id = [] }

-- `Commit`
unfoldable pub commit : Reservation → Registry → Result Error Registry
commit v g = do
  r ← or_fail (held_record v g) grant_mismatch
  ok (record {
    records = update_rows (has_token v.token) consume_record g.records;
    scopes = delete_rows (has_scope (grant_scope r.binding)) g.scopes;
  })

-- `Rollback`
unfoldable pub rollback : Reservation → Registry → Registry
rollback v g = elim (held_record v g) [
  | none ↦ g
  | some r ↦ record g { records = update_rows (has_token v.token) (set_reservation []) g.records }
]

-- `NewGrantRegistry`, and what `Reset` leaves.
abbrev pub empty_registry : Registry
empty_registry = record { records = []; scopes = [] }
