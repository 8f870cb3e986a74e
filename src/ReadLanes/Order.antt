-- ===== src/ReadLanes/Order.antt =====
-- Who gets the slot of a lease that is released, and that the two lanes do not meet.
use influxdb_desk.Base.{
  ℕ, ◌-◌, ◌<◌, ◌≡◌, refl, false, List, [], ◌∷◌, ◌++◌, ◌⊎◌, inl, inr, ok, arith,
}
use influxdb_desk.ReadLanes.{
  LaneState, ReadLanes, ReadLane, interactive_lane, transfer_lane, other_lane, release_slot,
  release, state, Lease, release_lease,
}

abbrev other : ReadLane → ReadLanes → LaneState
other interactive_lane l = l.transfer
other _ l = l.interactive

-- The slot goes to the first waiter, or else is free.
abbrev Handed : LaneState → LaneState → Type 0
Handed s s' =
    (s.waiters ≡ []) × (s' ≡ record s { in_flight = s.in_flight - 1 })
    ⊎ ((w : ℕ) × (ws : List ℕ) × (s.waiters ≡ w ∷ ws)
        × (s' ≡ record s { waiters = ws; owned = s.owned ++ w ∷ [] }))

release_slot-Handed : (s : LaneState) → 0 < s.in_flight → Handed s (release_slot s)
unfolding release_slot
release_slot-Handed s pos = by_queue s.waiters refl
  where
    by_queue : (ws : List ℕ) → s.waiters ≡ ws → Handed s (release_slot s)
    by_queue [] h = inl (h, ground arith)
    by_queue (w ∷ ws) h = inr (w, ws, h, ground arith)

released_state :
    (lane : ReadLane) (l : ReadLanes) (s : LaneState)
    → state lane l ≡ ok s
    → state lane (release lane l) ≡ ok (release_slot s)
unfolding release state
released_state interactive_lane l s h = ground arith
released_state transfer_lane l s h = ground arith
released_state (other_lane name) l s h = cc

release_lease-other : (lane : ReadLane) (l : ReadLanes) → other lane (release lane l) ≡ other lane l
unfolding release state
release_lease-other lane l = ground arith

-- A lease that is not released, on a lane with a slot in flight, gives back one slot and gives it
-- back once. Its release takes one off the slots in flight if no one waits; otherwise the count stays
-- and the first waiter, and no other, leaves the queue as the owner of the slot. Nothing else of that
-- lane changes, nor the other lane, and releasing the lease again changes nothing.
pub release_lease_once :
    (lease : Lease) (l : ReadLanes) (s : LaneState)
    → lease.released ≡ false
    → state lease.lane l ≡ ok s
    → 0 < s.in_flight
    → let (spent, after) = release_lease lease l in
      (s' : LaneState) × (state lease.lane after ≡ ok s')
      × ((s.waiters ≡ []) × (s' ≡ record s { in_flight = s.in_flight - 1 })
          ⊎ ((w : ℕ) × (ws : List ℕ) × (s.waiters ≡ w ∷ ws)
              × (s' ≡ record s { waiters = ws; owned = s.owned ++ w ∷ [] })))
      × (other lease.lane after ≡ other lease.lane l)
      × (release_lease spent after ≡ (spent, after))
unfolding release_lease
release_lease_once lease l s fresh here pos = rw fresh (
  release_slot s,
  released_state lease.lane l s here,
  release_slot-Handed s pos,
  release_lease-other lease.lane l,
  refl,
)
