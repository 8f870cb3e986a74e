-- ===== src/Quota/Tests.antt =====
-- Runs of the quota tables, and the theorems at concrete tables.
use influxdb_desk.Base.{◌+◌, ◌≤◌, ◌<◌, ◌≡◌, refl, true, List, [], ◌∷◌, ok, arith}
use influxdb_desk.Base.Table.{find_row}
use influxdb_desk.Quota.{
  private_scope, pos, Reservation, Tables, count_retained, sum_reserved, sum_consumed, in_scope,
  volume_reserve_floor, reserve_in_tables, reserve_extent, reservation_extent_bytes,
}
use influxdb_desk.Quota.Limits.{
  Call, admits, reserves, consumes, releases, releases_retained, run, WithinLimits,
  run-WithinLimits,
}
use influxdb_desk.Quota.Space.{reserve_extent_space}

abbrev empty_tables : Tables
empty_tables = record { jobs = []; reservations = [] }

abbrev session : List Call
session =
    admits "j" "p" "IMPORT" "RUNNING"
    ∷ reserves "r" "j" private_scope "app" (pos 4096) (pos 8_000_000_000) (pos 1_000_000_000)
    ∷ consumes "r" (pos 100)
    ∷ releases "r"
    ∷ releases_retained "j"
    ∷ []

empty-WithinLimits : WithinLimits empty_tables
unfolding count_retained sum_reserved
empty-WithinLimits = record {
  global = omega arith;
  per_profile = λ p. omega arith;
  private_bytes = omega arith;
}

run-WithinLimits_example : WithinLimits (run empty_tables session)
run-WithinLimits_example = run-WithinLimits empty_tables session empty-WithinLimits

abbrev one_job : Tables
one_job = record {
  jobs =
      record { job_id = "j"; profile_id = "p"; kind = "IMPORT"; state = "RUNNING"; retained = true }
      ∷ [];
  reservations = [];
}

abbrev first_extent : Reservation
first_extent = record {
  reservation_id = "r";
  job_id = "j";
  scope_kind = private_scope;
  scope_id = "app";
  reserved_bytes = 4096;
  consumed_bytes = 0;
}

reserved_first :
    reserve_extent "r" "j" private_scope "app"
      (pos 4096)
      (pos 8_000_000_000)
      (pos 1_000_000_000)
      one_job
    ≡ ok (record one_job { reservations = first_extent ∷ [] }, first_extent)
unfolding reserve_extent reserve_in_tables find_row sum_reserved sum_consumed volume_reserve_floor
reserved_first = refl

reserve_extent_space_example :
    (0 < 4096)
    × (4096 ≤ reservation_extent_bytes)
    × (volume_reserve_floor 1_000_000_000
          + sum_reserved (in_scope private_scope "app") (first_extent ∷ [])
        ≤ 8_000_000_000 + sum_consumed (in_scope private_scope "app") (first_extent ∷ []))
    × (2_147_483_648 ≤ volume_reserve_floor 1_000_000_000)
    × (volume_reserve_floor 1_000_000_000 ≤ 10_737_418_240)
unfolding sum_reserved sum_consumed
reserve_extent_space_example =
    reserve_extent_space "r" "j" private_scope "app" 4096 8_000_000_000 1_000_000_000 one_job
      (record one_job { reservations = first_extent ∷ [] }) first_extent reserved_first
      (omega arith) (omega arith) (omega arith)
