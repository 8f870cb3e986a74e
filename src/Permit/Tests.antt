-- ===== src/Permit/Tests.antt =====
-- Runs of the permit registry, and the theorem at a concrete registry.
use influxdb_desk.Base.{◌≡◌, refl, true, false, List, [], ◌∷◌}
use influxdb_desk.Base.Table.{find_row, update_rows}
use influxdb_desk.Decimal.{Bytes, bytes_eq}
use influxdb_desk.Permit.{Permit, PermitEntry, get, cas, matching}
use influxdb_desk.Permit.Exchange.{cas_once}

abbrev job : Bytes
job = b'j' ∷ []

abbrev permit : Permit
permit = record {
  run_segment_id = b's' ∷ [];
  current_checkpoint_digest = b'a' ∷ [];
  profile_id = b'p' ∷ [];
  profile_revision = b'1' ∷ [];
  connection_id = b'c' ∷ [];
  connection_generation = b'1' ∷ [];
  protection_revision = b'2' ∷ [];
  lease_id = b'l' ∷ [];
}

abbrev active : List PermitEntry
active = record { job_id = job; permit = permit } ∷ []

exchanged : (cas job (b's' ∷ []) (b'a' ∷ []) (b'b' ∷ []) active).1 ≡ true
unfolding cas get find_row update_rows bytes_eq
exchanged = refl

children_differ : bytes_eq (b'b' ∷ []) (b'a' ∷ []) ≡ false
unfolding bytes_eq
children_differ = refl

found_by_protection : matching (b'c' ∷ []) (b'1' ∷ []) (b'2' ∷ []) active ≡ active
unfolding matching bytes_eq
found_by_protection = refl

cas_once_example :
    cas job
      (b's' ∷ [])
      (b'a' ∷ [])
      (b'e' ∷ [])
      (cas job (b's' ∷ []) (b'a' ∷ []) (b'b' ∷ []) active).0
    ≡ ((cas job (b's' ∷ []) (b'a' ∷ []) (b'b' ∷ []) active).0, false)
cas_once_example =
    (cas_once job (b's' ∷ []) (b'a' ∷ []) (b'b' ∷ []) (b's' ∷ []) (b'e' ∷ []) active exchanged
      children_differ).1
