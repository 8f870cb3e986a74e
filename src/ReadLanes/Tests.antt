-- ===== src/ReadLanes/Tests.antt =====
-- Runs of the lanes, and the theorems at concrete lanes.
use influxdb_desk.Base.{◌≡◌, refl, false, none, some, List, [], ◌∷◌, arith}
use influxdb_desk.ReadLanes.{
  LaneState, ReadLanes, transfer_lane, admit, release_slot, new_lane, release_lease, resume_done,
  Lease, state,
}
use influxdb_desk.ReadLanes.Budget.{
  Event, acquires, releases, done, run, start, Inv, run_ledger, step,
}
use influxdb_desk.ReadLanes.Order.{release_lease_once}

-- Two callers on the transfer lane; the first releases, the second resumes and is canceled late.
abbrev handover : List Event
handover = acquires ∷ acquires ∷ releases ∷ done 0 ∷ []

handover_held : (run (start 1 none) handover).held ≡ 1
unfolding run step admit release_slot resume_done new_lane
handover_held = refl

run_ledger_example : Inv 1 none (run (start 1 none) handover)
run_ledger_example = run_ledger 1 none handover (omega arith)

abbrev full : LaneState
full = record { limit = 1; queue_limit = none; in_flight = 1; waiters = 7 ∷ []; owned = [] }

abbrev full_lanes : ReadLanes
full_lanes = record { interactive = new_lane 4 (some 32); transfer = full }

abbrev fresh : Lease
fresh = record { lane = transfer_lane; released = false }

release_lease_once_example :
    release_lease (release_lease fresh full_lanes).0 (release_lease fresh full_lanes).1
    ≡ ((release_lease fresh full_lanes).0, (release_lease fresh full_lanes).1)
unfolding state
release_lease_once_example = (release_lease_once fresh full_lanes full refl refl (omega arith)).4
