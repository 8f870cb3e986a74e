-- ===== src/ReadLanes.antt =====
-- internal/scheduler/read_lanes.go: the interactive and the transfer budget of one connection
-- generation. Each method body runs under the mutex, so a method is a function on the state; what a
-- goroutine does after it has been parked (`select`) is an operation of its own.
pub mod Budget
pub mod Order
mod Tests
use influxdb_desk.Base.{
  ℕ, suc, ◌+◌, ◌-◌, String, Bool, true, false, ◌&&◌, Option, none, some, List, [], ◌∷◌, ◌++◌, ltb,
  leb, ◌==◌, if◌then◌else◌, is_empty, length, Result, ok, err, ◌>>=◌,
}

-- `ReadLane` is a string type: any other text is an invalid lane.
pub data ReadLane : Type 0 where
  interactive_lane transfer_lane : ReadLane
  other_lane : String → ReadLane

pub data Error : Type 0 where
  query_queue_full invalid_lane canceled : Error

abbrev pub interactive_limit : ℕ
interactive_limit = 4

abbrev pub interactive_queue : ℕ
interactive_queue = 32

abbrev pub transfer_limit : ℕ
transfer_limit = 1

-- A waiter is its address, a number. `owned` holds the waiters that left the queue with their flag
-- `owned` set and whose goroutine has not resumed. `none` is the queue limit -1.
pub record LaneState : Type 0 where
  pub limit : ℕ
  pub queue_limit : Option ℕ
  pub in_flight : ℕ
  pub waiters : List ℕ
  pub owned : List ℕ

pub record ReadLanes : Type 0 where
  pub interactive : LaneState
  pub transfer : LaneState

unfoldable pub new_lane : ℕ → Option ℕ → LaneState
new_lane limit queue_limit = record {
  limit = limit;
  queue_limit = queue_limit;
  in_flight = 0;
  waiters = [];
  owned = [];
}

unfoldable pub new_read_lanes : ReadLanes
unfolding new_lane
new_read_lanes = record {
  interactive = new_lane interactive_limit (some interactive_queue);
  transfer = new_lane transfer_limit none;
}

-- A lease in the caller's hands, or the address of the waiter that the caller blocks on.
pub data Admission : Type 0 where
  leased : Admission
  parked : ℕ → Admission

abbrev pub queue_full : Option ℕ → ℕ → Bool
queue_full none n = false
queue_full (some q) n = leb q n

-- The locked part of `Acquire` on the chosen lane; `w` is the address of the waiter it allocates.
unfoldable pub admit : ℕ → LaneState → Result Error (LaneState × Admission)
admit w s =
    if is_empty s.waiters && ltb s.in_flight s.limit
    then ok (record s { in_flight = s.in_flight + 1 }, leased)
    else if queue_full s.queue_limit (length s.waiters)
    then err query_queue_full
    else ok (record s { waiters = s.waiters ++ w ∷ [] }, parked w)

-- The waiter loop of the `ctx.Done()` case: drops the first entry that is `w`.
unfoldable pub remove_waiter : ℕ → List ℕ → List ℕ
remove_waiter w [] = []
remove_waiter w (x ∷ xs) = if x == w then xs else x ∷ remove_waiter w xs

unfoldable pub contains : ℕ → List ℕ → Bool
contains w [] = false
contains w (x ∷ xs) = if x == w then true else contains w xs

-- `case <-w.ready`: enabled once the waiter is owned. The waiter is not looked at again.
unfoldable pub resume_ready : ℕ → LaneState → Option LaneState
unfolding remove_waiter contains
resume_ready w s =
    if contains w s.owned then some (record s { owned = remove_waiter w s.owned }) else none

-- `case <-ctx.Done()`: an owned waiter keeps its slot and returns a lease; any other leaves the queue.
unfoldable pub resume_done : ℕ → LaneState → LaneState × Bool
unfolding remove_waiter contains
resume_done w s =
    if contains w s.owned
    then (record s { owned = remove_waiter w s.owned }, true)
    else (record s { waiters = remove_waiter w s.waiters }, false)

abbrev hand_over : List ℕ → LaneState → LaneState
hand_over [] s = record s { in_flight = s.in_flight - 1 }
hand_over (next ∷ rest) s = record s { waiters = rest; owned = s.owned ++ next ∷ [] }

-- `release` on the chosen lane. The slot of a release passes to the first waiter.
unfoldable pub release_slot : LaneState → LaneState
release_slot s = if s.in_flight == 0 then s else hand_over s.waiters s

unfoldable pub state : ReadLane → ReadLanes → Result Error LaneState
state interactive_lane l = ok l.interactive
state transfer_lane l = ok l.transfer
state (other_lane _) l = err invalid_lane

abbrev pub put_state : ReadLane → LaneState → ReadLanes → ReadLanes
put_state interactive_lane s l = record l { interactive = s }
put_state transfer_lane s l = record l { transfer = s }
put_state (other_lane _) s l = l

-- `Acquire` up to the `select`; `nil_ctx` is the test `ctx == nil`.
unfoldable pub acquire : Bool → ReadLane → ℕ → ReadLanes → Result Error (ReadLanes × Admission)
unfolding state admit
acquire true lane w l = err canceled
acquire false lane w l = do
  s ← state lane l
  (s', admission) ← admit w s
  ok (put_state lane s' l, admission)

unfoldable pub release : ReadLane → ReadLanes → ReadLanes
unfolding state release_slot
release lane l = elim (state lane l) [ err e ↦ l | ok s ↦ put_state lane (release_slot s) l ]

-- `Lease`: `once` has run when `released` is set.
pub record Lease : Type 0 where
  pub lane : ReadLane
  pub released : Bool

unfoldable pub release_lease : Lease → ReadLanes → Lease × ReadLanes
unfolding release
release_lease lease l =
    if lease.released then (lease, l) else (record lease { released = true }, release lease.lane l)

pub record Snapshot : Type 0 where
  pub interactive_in_flight : ℕ
  pub interactive_waiting : ℕ
  pub transfer_in_flight : ℕ
  pub transfer_waiting : ℕ

unfoldable pub snapshot : ReadLanes → Snapshot
snapshot l = record {
  interactive_in_flight = l.interactive.in_flight;
  interactive_waiting = length l.interactive.waiters;
  transfer_in_flight = l.transfer.in_flight;
  transfer_waiting = length l.transfer.waiters;
}
