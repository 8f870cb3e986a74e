-- ===== src/Permit.antt =====
-- internal/transfer/permit.go: the permits of running imports, by job. A method body runs under the
-- registry's mutex; the map is a list of entries, and texts are their bytes.
pub mod Exchange
mod Tests
use influxdb_desk.Base.{
  Bool, true, false, not, ◌&&◌, ◌||◌, Option, none, some, List, [], ◌∷◌, if◌then◌else◌, is_empty,
  Result, ok, err,
}
use influxdb_desk.Base.Table.{find_row, update_rows, delete_rows}
use influxdb_desk.Decimal.{Bytes, bytes_eq, canonical_decimal}

pub data Error : Type 0 where
  permit_mismatch : Error

pub record Permit : Type 0 where
  pub run_segment_id : Bytes
  pub current_checkpoint_digest : Bytes
  pub profile_id : Bytes
  pub profile_revision : Bytes
  pub connection_id : Bytes
  pub connection_generation : Bytes
  pub protection_revision : Bytes
  pub lease_id : Bytes

-- Go's `==` on two permits.
abbrev pub same_permit : Permit → Permit → Bool
same_permit a b =
    bytes_eq a.run_segment_id b.run_segment_id
    && bytes_eq a.current_checkpoint_digest b.current_checkpoint_digest
    && bytes_eq a.profile_id b.profile_id
    && bytes_eq a.profile_revision b.profile_revision
    && bytes_eq a.connection_id b.connection_id
    && bytes_eq a.connection_generation b.connection_generation
    && bytes_eq a.protection_revision b.protection_revision
    && bytes_eq a.lease_id b.lease_id

pub record PermitEntry : Type 0 where
  pub job_id : Bytes
  pub permit : Permit

abbrev pub has_job : Bytes → PermitEntry → Bool
has_job job e = bytes_eq e.job_id job

abbrev pub is_decimal : Bytes → Bool
is_decimal v = elim (canonical_decimal v) [ ok c ↦ true | err e ↦ false ]

-- `validPermit`
unfoldable pub valid_permit : Permit → Bool
valid_permit p =
    not (
      is_empty p.run_segment_id
      || is_empty p.current_checkpoint_digest
      || is_empty p.profile_id
      || is_empty p.profile_revision
      || is_empty p.connection_id
      || is_empty p.lease_id)
    && is_decimal p.profile_revision
    && is_decimal p.connection_generation
    && is_decimal p.protection_revision

-- `NewPermitRegistry`, and what `Reset` leaves.
abbrev pub empty_permits : List PermitEntry
empty_permits = []

abbrev pub permit_of : Option PermitEntry → Option Permit
permit_of none = none
permit_of (some e) = some e.permit

-- `Get`
unfoldable pub get : Bytes → List PermitEntry → Option Permit
get job r = permit_of (find_row (has_job job) r)

abbrev pub activate_at :
    Bytes → Permit → Option Permit → List PermitEntry → Result Error (List PermitEntry)
activate_at job p none r =
    if valid_permit p then ok (record { job_id = job; permit = p } ∷ r) else err permit_mismatch
activate_at job p (some old) r = err permit_mismatch

-- `Activate`
unfoldable pub activate : Bytes → Permit → List PermitEntry → Result Error (List PermitEntry)
unfolding get
activate job p r = activate_at job p (get job r) r

abbrev pub matches : Permit → Option Permit → Bool
matches expected none = false
matches expected (some p) = same_permit p expected

-- `Validate`
unfoldable pub validate : Bytes → Permit → List PermitEntry → Result Error (Unit {0})
unfolding get valid_permit
validate job expected r = elim (get job r) [
  | none ↦ err permit_mismatch
  | some p ↦ if same_permit p expected && valid_permit p then ok tt else err permit_mismatch
]

abbrev pub exchangeable : Bytes → Bytes → Option Permit → Bool
exchangeable segment parent none = false
exchangeable segment parent (some p) =
    bytes_eq p.run_segment_id segment && bytes_eq p.current_checkpoint_digest parent

abbrev pub set_digest : Bytes → PermitEntry → PermitEntry
set_digest child e = record e { permit = record e.permit { current_checkpoint_digest = child } }

-- `CAS`: whether it happened, and the map.
unfoldable pub cas : Bytes → Bytes → Bytes → Bytes → List PermitEntry → List PermitEntry × Bool
unfolding get
cas job segment parent child r =
    if exchangeable segment parent (get job r)
    then (update_rows (has_job job) (set_digest child) r, true)
    else (r, false)

-- `Revoke`
unfoldable pub revoke : Bytes → List PermitEntry → List PermitEntry
revoke job r = delete_rows (has_job job) r

-- `RevokeIfMatch`
unfoldable pub revoke_if_match : Bytes → Permit → List PermitEntry → List PermitEntry × Bool
unfolding get revoke
revoke_if_match job expected r =
    if matches expected (get job r) then (revoke job r, true) else (r, false)

abbrev pub of_protection : Bytes → Bytes → Bytes → PermitEntry → Bool
of_protection c g revision e =
    bytes_eq e.permit.connection_id c
    && bytes_eq e.permit.connection_generation g
    && bytes_eq e.permit.protection_revision revision

-- `Matching`, in the order of the list; Go's order of a map is any.
unfoldable pub matching : Bytes → Bytes → Bytes → List PermitEntry → List PermitEntry
matching c g revision [] = []
matching c g revision (e ∷ r) =
    let rest = matching c g revision r in if of_protection c g revision e then e ∷ rest else rest
