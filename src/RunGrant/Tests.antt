-- ===== src/RunGrant/Tests.antt =====
-- Runs of the grant registry, and the theorems at a concrete registry.
use influxdb_desk.Base.{◌≡◌, ◌≢◌, refl, true, false, [], ◌∷◌, ok, err}
use influxdb_desk.Base.Table.{find_row, update_rows, delete_rows}
use influxdb_desk.Decimal.{bytes_eq}
use influxdb_desk.RunGrant.{
  grant_expired, GrantBinding, GrantRecord, Registry, Reservation, purge, reserve, commit,
}
use influxdb_desk.RunGrant.SingleUse.{commit_spends, reserve_exclusive}

abbrev blank_binding : GrantBinding
blank_binding = record {
  job_id = b'j' ∷ [];
  command_request_id = b'x' ∷ [];
  action = [];
  decision = [];
  after_resolution = [];
  expected_state_revision = [];
  checkpoint_digest = [];
  incident_digest = [];
  source_sha256 = [];
  staging_sha256 = [];
  normalization_version = [];
  spec_digest = [];
  target_digest = [];
  profile_id = [];
  profile_revision = [];
  connection_id = [];
  connection_generation = [];
  protection_revision = [];
  lease_id = [];
}

abbrev one_grant : GrantRecord
one_grant = record {
  binding = blank_binding;
  digest = b'd' ∷ [];
  token = b't' ∷ [];
  expires = 100;
  reservation_id = [];
  consumed = false;
}

abbrev issued : Registry
issued = record {
  records = one_grant ∷ [];
  scopes = record { scope = b'j' ∷ 31 ∷ b'x' ∷ []; token = b't' ∷ [] } ∷ [];
}

abbrev reserved : Registry
reserved = record issued { records = record one_grant { reservation_id = b'r' ∷ [] } ∷ [] }

abbrev reservation : Reservation
reservation = record {
  token = b't' ∷ [];
  reservation_id = b'r' ∷ [];
  binding = blank_binding;
  expires = 100;
}

abbrev spent : Registry
spent = record { records = record one_grant { consumed = true } ∷ []; scopes = [] }

reserves : reserve 50 (b'r' ∷ []) (b't' ∷ []) (b'd' ∷ []) issued ≡ (reserved, ok reservation)
unfolding reserve purge find_row update_rows delete_rows bytes_eq
reserves = refl

commits : commit reservation reserved ≡ ok spent
unfolding commit find_row update_rows delete_rows bytes_eq
commits = refl

reserve_exclusive_example :
    (reserve 60 (b'q' ∷ []) (b't' ∷ []) (b'd' ∷ []) reserved).1 ≢ ok reservation
reserve_exclusive_example =
    (reserve_exclusive 50 60 (b'r' ∷ []) (b'q' ∷ []) (b't' ∷ []) (b'd' ∷ []) (b'd' ∷ []) issued
      reserved reservation reservation refl reserves).1

commit_spends_example : (reserve 60 (b'q' ∷ []) (b't' ∷ []) (b'd' ∷ []) spent).1 ≡ err grant_expired
commit_spends_example =
    (commit_spends reservation reservation reserved spent 60 (b'q' ∷ []) (b'd' ∷ []) commits refl).0
