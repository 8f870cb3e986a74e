-- ===== src/Quota/Space.antt =====
-- What an accepted reservation leaves free on its volume.
use influxdb_desk.Base.{
  ℕ, ◌+◌, ◌≤◌, ◌<◌, ◌≡◌, String, ok, guard, or_fail, >>=-eq-ok, arith, not, true,
}
use influxdb_desk.Quota.{
  ScopeKind, in_scope, pos, Reservation, Tables, sum_reserved, sum_consumed, reserve_in_tables,
  reserve_extent, volume_reserve_floor, volume, extent, left_over, falls_short, invalid_extent,
  invalid_capacity, invalid_scope, is_scope, reservation_extent_bytes,
}

floor-bounds :
    (capacity : ℕ)
    → (2_147_483_648 ≤ volume_reserve_floor capacity)
      × (volume_reserve_floor capacity ≤ 10_737_418_240)
unfolding volume_reserve_floor
floor-bounds capacity = ground arith

-- Where nothing wraps, the test of the difference is one of sums.
enough_space :
    (free consumed reserved n limit : ℕ)
    → free < 9_223_372_036_854_775_808
    → reserved + n < 9_223_372_036_854_775_808
    → consumed ≤ reserved
    → not (falls_short limit (left_over free consumed reserved n)) ≡ true
    → limit + reserved + n ≤ free + consumed
enough_space free consumed reserved n limit few sums used h = ground arith

reserve_in_tables-space :
    (id job : String) (kind : ScopeKind) (scope : String) (n free capacity : ℕ) (t : Tables)
    (r : Tables × Reservation)
    → reserve_in_tables id job kind scope n free capacity t ≡ ok r
    → free < 9_223_372_036_854_775_808
    → sum_reserved (in_scope kind scope) t.reservations + n < 9_223_372_036_854_775_808
    → sum_consumed (in_scope kind scope) t.reservations
      ≤ sum_reserved (in_scope kind scope) t.reservations
    → volume_reserve_floor capacity + sum_reserved (in_scope kind scope) r.0.reservations
      ≤ free + sum_consumed (in_scope kind scope) r.0.reservations
unfolding reserve_in_tables sum_reserved sum_consumed
reserve_in_tables-space id job kind scope n free capacity t r h few sums used =
    let test : not (
          falls_short (volume_reserve_floor capacity) (
            left_over free (sum_consumed (in_scope kind scope) t.reservations)
              (sum_reserved (in_scope kind scope) t.reservations) n))
        ≡ true =
      ground arith in
    let roomy =
      enough_space free (sum_consumed (in_scope kind scope) t.reservations)
        (sum_reserved (in_scope kind scope) t.reservations) n (volume_reserve_floor capacity) few
        sums used test in
    ground arith

-- An accepted reservation leaves the volume its floor: the free bytes cover the floor and all that
-- the scope has reserved but not consumed, the new extent included. It is within one extent, and
-- the volume's reserve floor is between 2 GiB and 10 GiB. The free bytes are an `int64`, what the
-- scope has reserved and the request together stay below two to the 63, so that no sum wraps, and no
-- more is consumed in the scope than is reserved.
pub reserve_extent_space :
    (id job : String) (kind : ScopeKind) (scope : String) (n free capacity : ℕ) (t after : Tables)
    (out : Reservation)
    → reserve_extent id job kind scope (pos n) (pos free) (pos capacity) t ≡ ok (after, out)
    → free < 9_223_372_036_854_775_808
    → sum_reserved (in_scope kind scope) t.reservations + n < 9_223_372_036_854_775_808
    → sum_consumed (in_scope kind scope) t.reservations
      ≤ sum_reserved (in_scope kind scope) t.reservations
    → (0 < n)
      × (n ≤ reservation_extent_bytes)
      × (volume_reserve_floor capacity + sum_reserved (in_scope kind scope) after.reservations
          ≤ free + sum_consumed (in_scope kind scope) after.reservations)
      × (2_147_483_648 ≤ volume_reserve_floor capacity)
      × (volume_reserve_floor capacity ≤ 10_737_418_240)
unfolding reserve_extent
reserve_extent_space id job kind scope n free capacity t after out h few sums used =
    let (m, e, h1) = >>=-eq-ok (or_fail (extent (pos n)) invalid_extent) _ h in
    let (v, f, h2) = >>=-eq-ok (or_fail (volume (pos free) (pos capacity)) invalid_capacity) _ h1 in
    let (u, g, h3) = >>=-eq-ok (guard (is_scope kind) invalid_scope) _ h2 in
    let (low, high) = floor-bounds capacity in
    let same : (n ≡ m) × (0 < n) × (n ≤ reservation_extent_bytes) = ground arith in
    let full : (free ≡ v.0) × (capacity ≡ v.1) = ground arith in
    let space =
      reserve_in_tables-space id job kind scope m v.0 v.1 t (after, out) h3 (omega (arith, full.0))
        (omega (arith, same.0)) used in
    (same.1, same.2, rw (full.0, full.1) space, low, high)
