-- ===== src/ReadLanes/Budget.antt =====
-- One lane under any interleaving of its callers: how many leases are out.
use influxdb_desk.Base.{
  ℕ, ◌+◌, ◌-◌, ◌≤◌, ◌<◌, ◌≡◌, ◌≢◌, refl, Bool, true, false, Option, none, some, List, [], ◌∷◌, ◌==◌,
  if◌then◌else◌, length, length-append, Result, ok, err, arith,
}
use influxdb_desk.ReadLanes.{
  LaneState, Error, Admission, leased, parked, admit, remove_waiter, contains, resume_ready,
  resume_done, release_slot, new_lane,
}

-- A lane with the leases that its callers hold and have not released, and the next free address.
pub record System : Type 0 where
  pub lane : LaneState
  pub held : ℕ
  pub next : ℕ

-- What a goroutine can do next. A waiter that no one parked on does nothing.
pub data Event : Type 0 where
  acquires releases : Event
  ready done : ℕ → Event

abbrev admitted : System → Result Error (LaneState × Admission) → System
admitted y (err e) = y
admitted y (ok (s, leased)) = record y { lane = s; held = y.held + 1 }
admitted y (ok (s, parked w)) = record y { lane = s; next = y.next + 1 }

abbrev resumed : System → Option LaneState → System
resumed y none = y
resumed y (some s) = record y { lane = s; held = y.held + 1 }

abbrev withdrawn : System → LaneState × Bool → System
withdrawn y (s, true) = record y { lane = s; held = y.held + 1 }
withdrawn y (s, false) = record y { lane = s }

unfoldable pub step : System → Event → System
step y acquires = admitted y (admit y.next y.lane)
step y (ready w) = resumed y (resume_ready w y.lane)
step y (done w) = withdrawn y (resume_done w y.lane)
step y releases =
    if y.held == 0 then y else record y { lane = release_slot y.lane; held = y.held - 1 }

unfoldable pub run : System → List Event → System
run y [] = y
run y (e ∷ es) = run (step y e) es

abbrev pub start : ℕ → Option ℕ → System
start limit queue_limit = record { lane = new_lane limit queue_limit; held = 0; next = 0 }

abbrev Within : Option ℕ → ℕ → Type 0
Within none n = Unit
Within (some q) n = n ≤ q

-- Every slot in flight is a lease in a caller's hands or is promised to one parked caller; no
-- caller waits while a slot is free; the queue keeps its limit.
pub record Inv (limit : ℕ) (queue_limit : Option ℕ) (y : System) : Type 0 where
  pub same_limit : y.lane.limit ≡ limit
  pub same_queue : y.lane.queue_limit ≡ queue_limit
  pub counted : y.lane.in_flight ≡ y.held + length y.lane.owned
  pub capped : y.lane.in_flight ≤ limit
  pub busy : y.lane.waiters ≢ [] → y.lane.in_flight ≡ limit
  pub queued : Within queue_limit (length y.lane.waiters)

length-remove_waiter_le : (w : ℕ) (xs : List ℕ) → length (remove_waiter w xs) ≤ length xs
unfolding remove_waiter
length-remove_waiter_le w [] = omega arith
length-remove_waiter_le w (x ∷ xs) = ground (arith, length-remove_waiter_le w xs)

length-remove_waiter :
    (w : ℕ) (xs : List ℕ) → contains w xs ≡ true → length xs ≡ length (remove_waiter w xs) + 1
unfolding remove_waiter contains
length-remove_waiter w [] h = cc
length-remove_waiter w (x ∷ xs) h = ground (arith, length-remove_waiter w xs)

remove_waiter-nil : (w : ℕ) → remove_waiter w [] ≡ []
unfolding remove_waiter
remove_waiter-nil w = refl

Within-mono : (q : Option ℕ) (m n : ℕ) → m ≤ n → Within q n → Within q m
Within-mono none m n h k = tt
Within-mono (some q) m n h k = omega arith

start-Inv : (limit : ℕ) (q : Option ℕ) → Inv limit q (start limit q)
unfolding new_lane
start-Inv limit none = record {
  same_limit = refl;
  same_queue = refl;
  counted = omega arith;
  capped = omega arith;
  busy = λ h. absurd (h refl);
  queued = tt;
}
start-Inv limit (some q) = record {
  same_limit = refl;
  same_queue = refl;
  counted = omega arith;
  capped = omega arith;
  busy = λ h. absurd (h refl);
  queued = omega arith;
}

module _ (limit : ℕ) (q : Option ℕ) where
  acquires-Inv : (y : System) → 0 < limit → Inv limit q y → Inv limit q (step y acquires)
  unfolding step admit
  acquires-Inv y pos v = ground (arith, v.busy, length-append y.lane.waiters (y.next ∷ []))

  ready-Inv : (y : System) (w : ℕ) → Inv limit q y → Inv limit q (step y (ready w))
  unfolding step resume_ready
  ready-Inv y w v = ground (arith, length-remove_waiter w y.lane.owned)

  done-Inv : (y : System) (w : ℕ) → Inv limit q y → Inv limit q (step y (done w))
  unfolding step resume_done
  done-Inv y w v = ground (
    arith,
    length-remove_waiter w y.lane.owned,
    length-remove_waiter_le w y.lane.waiters,
    v.busy,
    remove_waiter-nil w,
    Within-mono q (length (remove_waiter w y.lane.waiters)) (length y.lane.waiters),
  )

  releases-Inv : (y : System) → Inv limit q y → Inv limit q (step y releases)
  unfolding step release_slot
  releases-Inv y v = grind (arith, v.busy, length-append)

  -- Every step of every caller keeps the ledger.
  pub step-Inv : (y : System) (e : Event) → 0 < limit → Inv limit q y → Inv limit q (step y e)
  step-Inv y acquires pos v = acquires-Inv y pos v
  step-Inv y releases pos v = releases-Inv y v
  step-Inv y (ready w) pos v = ready-Inv y w v
  step-Inv y (done w) pos v = done-Inv y w v

  pub run-Inv : (y : System) (es : List Event) → 0 < limit → Inv limit q y → Inv limit q (run y es)
  unfolding run
  run-Inv y [] pos v = v
  run-Inv y (e ∷ es) pos v = run-Inv (step y e) es pos (step-Inv y e pos v)

-- From a new lane with a positive limit, whatever its callers do and in whatever order: the slots in
-- flight are the leases held plus the waiters that own a slot and have not resumed, they never pass
-- the limit, no caller is parked while a slot is free, and the queue keeps its limit.
pub run_ledger :
    (limit : ℕ) (q : Option ℕ) (es : List Event) → 0 < limit → Inv limit q (run (start limit q) es)
run_ledger limit q es pos = run-Inv limit q (start limit q) es pos (start-Inv limit q)
