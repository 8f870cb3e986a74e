-- ===== src/Quota/Limits.antt =====
-- The limits hold at every moment, whatever the callers do.
use influxdb_desk.Base.{
  ℕ, ◌+◌, ◌==◌, ◌||◌, ltb, ◌≤◌, ◌≡◌, refl, String, Bool, true, false, List, [], ◌∷◌, str_eq, Result,
  ok, err, guard, or_fail, ◌>>=◌, arith, Bool-cases, inl, inr, eq_iff, subst,
}
use influxdb_desk.Base.Table.{find_row, update_rows, delete_rows}
use influxdb_desk.Quota.{
  wrap64, reservation_extent_bytes, pos, negsuc, retained_jobs_global, retained_jobs_per_profile,
  private_quota_bytes, Error, ScopeKind, in_private, ℤ, Job, Reservation, Tables, count_retained,
  any_job, of_profile, has_job_id, admit, sum_reserved, reserve_in_tables, reserve_extent, consume,
  release, release_retained, has_reservation_id, volume, extent, consumption, invalid_consumption,
  store_failed, invalid_extent, invalid_capacity, invalid_scope, is_scope,
}

-- A call on the tables.
pub data Call : Type 0 where
  admits : String → String → String → String → Call
  reserves : String → String → ScopeKind → String → ℤ → ℤ → ℤ → Call
  consumes : String → ℤ → Call
  releases releases_retained : String → Call

-- A transaction that fails leaves the tables as they were.
abbrev committed : Tables → Result Error Tables → Tables
committed t (ok t') = t'
committed t (err e) = t

abbrev committed_first : Tables → Result Error (Tables × Reservation) → Tables
committed_first t (ok r) = r.0
committed_first t (err e) = t

unfoldable pub step : Tables → Call → Tables
step t (admits job profile kind state) = committed t (admit job profile kind state t)
step t (reserves id job kind scope requested free capacity) =
    committed_first t (reserve_extent id job kind scope requested free capacity t)
step t (consumes id consumed) = committed t (consume id consumed t)
step t (releases id) = release id t
step t (releases_retained job) = committed t (release_retained job t)

unfoldable pub run : Tables → List Call → Tables
run t [] = t
run t (c ∷ cs) = run (step t c) cs

-- The jobs retained in all and for each profile, and the bytes reserved in the private scope.
pub record WithinLimits (t : Tables) : Type 0 where
  pub global : count_retained any_job t.jobs ≤ retained_jobs_global
  pub per_profile :
      (profile : String) → count_retained (of_profile profile) t.jobs ≤ retained_jobs_per_profile
  pub private_bytes : sum_reserved in_private t.reservations ≤ private_quota_bytes

sum_reserved-consume :
    (id : String) (n : ℕ) (rs : List Reservation)
    → sum_reserved in_private
        (update_rows (has_reservation_id id) (λ x. record x { consumed_bytes = n }) rs)
      ≡ sum_reserved in_private rs
unfolding sum_reserved update_rows
sum_reserved-consume id n [] = refl
sum_reserved-consume id n (r ∷ rs) = ground (arith, sum_reserved-consume id n rs)

sum_reserved-delete_rows :
    (p q : Reservation → Bool) (rs : List Reservation)
    → sum_reserved q (delete_rows p rs) ≤ sum_reserved q rs
unfolding sum_reserved delete_rows
sum_reserved-delete_rows p q [] = omega arith
sum_reserved-delete_rows p q (r ∷ rs) = ground (arith, sum_reserved-delete_rows p q rs)

count_retained-drop :
    (p q : Job → Bool) (js : List Job)
    → ((j : Job) → q (record j { retained = false }) ≡ q j)
    → count_retained q (update_rows p (λ j. record j { retained = false }) js) ≤ count_retained q js
unfolding count_retained update_rows
count_retained-drop p q [] same = omega arith
count_retained-drop p q (j ∷ js) same = ground (arith, count_retained-drop p q js same, same j)

admit-global :
    (job profile kind state : String) (t : Tables)
    → WithinLimits t
    → count_retained any_job (committed t (admit job profile kind state t)).jobs
      ≤ retained_jobs_global
unfolding admit count_retained
admit-global job profile kind state t w = ground (arith, w.global)

same_profile : (a b : String) → str_eq a b ≡ true → a ≡ b
same_profile a b h = ground (arith, eq_iff a b)

admit-per_profile :
    (job profile kind state : String) (t : Tables) (other : String)
    → WithinLimits t
    → count_retained (of_profile other) (committed t (admit job profile kind state t)).jobs
      ≤ retained_jobs_per_profile
unfolding admit count_retained
admit-per_profile job profile kind state t other w = elim (Bool-cases (str_eq profile other)) [
  | inl same ↦
      let e = same_profile profile other same in
      subst
        (λ o.
          count_retained (of_profile o) (committed t (admit job profile kind state t)).jobs
          ≤ retained_jobs_per_profile)
        e (ground (arith, w.per_profile profile, eq_iff profile profile))
  | inr differs ↦ ground (arith, w.per_profile other)
]

admit-private :
    (job profile kind state : String) (t : Tables)
    → sum_reserved in_private (committed t (admit job profile kind state t)).reservations
      ≡ sum_reserved in_private t.reservations
unfolding admit
admit-private job profile kind state t = ground arith

reserve_in_tables-private :
    (id job : String) (kind : ScopeKind) (scope : String) (n free capacity : ℕ) (t : Tables)
    → WithinLimits t
    → n ≤ reservation_extent_bytes
    → sum_reserved in_private
        (committed_first t (reserve_in_tables id job kind scope n free capacity t)).reservations
      ≤ private_quota_bytes
unfolding reserve_in_tables sum_reserved
reserve_in_tables-private id job kind scope n free capacity t w small =
    let whole : wrap64 (sum_reserved in_private t.reservations + n)
        ≡ sum_reserved in_private t.reservations + n =
      omega (arith, w.private_bytes) in
    ground (arith, w.private_bytes)

reserve_in_tables-jobs :
    (id job : String) (kind : ScopeKind) (scope : String) (n free capacity : ℕ) (t : Tables)
    → (committed_first t (reserve_in_tables id job kind scope n free capacity t)).jobs ≡ t.jobs
unfolding reserve_in_tables
reserve_in_tables-jobs id job kind scope n free capacity t = ground arith

-- The same jobs, and private bytes within the limit.
with_jobs :
    (t t' : Tables)
    → t'.jobs ≡ t.jobs
    → sum_reserved in_private t'.reservations ≤ private_quota_bytes
    → WithinLimits t
    → WithinLimits t'
with_jobs t t' same bytes w = record {
  global = rw (same) w.global;
  per_profile = λ p. rw (same) (w.per_profile p);
  private_bytes = bytes;
}

reserve_in_tables-WithinLimits :
    (id job : String) (kind : ScopeKind) (scope : String) (n free capacity : ℕ) (t : Tables)
    → WithinLimits t
    → n ≤ reservation_extent_bytes
    → WithinLimits (committed_first t (reserve_in_tables id job kind scope n free capacity t))
reserve_in_tables-WithinLimits id job kind scope n free capacity t w small =
    with_jobs t _ (reserve_in_tables-jobs id job kind scope n free capacity t)
      (reserve_in_tables-private id job kind scope n free capacity t w small) w

kept-then :
    {A : Type 0} (t : Tables) (v : Result Error A) (k : A → Result Error (Tables × Reservation))
    → WithinLimits t
    → ((x : A) → WithinLimits (committed_first t (k x)))
    → WithinLimits (committed_first t (v >>= k))
kept-then t (ok x) k w h = h x
kept-then t (err e) k w h = w

kept-extent :
    (t : Tables) (requested : ℤ) (k : ℕ → Result Error (Tables × Reservation))
    → WithinLimits t
    → ((n : ℕ) → n ≤ reservation_extent_bytes → WithinLimits (committed_first t (k n)))
    → WithinLimits (committed_first t (or_fail (extent requested) invalid_extent >>= k))
kept-extent t (negsuc n) k w h = w
kept-extent t (pos n) k w h = elim (Bool-cases (n == 0 || ltb reservation_extent_bytes n)) [
  | inl bad ↦ rw bad w
  | inr good ↦ rw good (h n (ground arith))
]

committed-then :
    {A : Type 0} (P : Tables → Type 0) (t : Tables) (v : Result Error A)
    (k : A → Result Error Tables)
    → P t
    → ((x : A) → P (committed t (k x)))
    → P (committed t (v >>= k))
committed-then P t (ok x) k p h = h x
committed-then P t (err e) k p h = p

consume-jobs :
    (id : String) (consumed : ℤ) (t : Tables) → (committed t (consume id consumed t)).jobs ≡ t.jobs
unfolding consume
consume-jobs id consumed t = ground arith

consume-private :
    (id : String) (consumed : ℤ) (t : Tables)
    → sum_reserved in_private (committed t (consume id consumed t)).reservations
      ≡ sum_reserved in_private t.reservations
unfolding consume
consume-private id consumed t =
    committed-then Same t (or_fail (find_row (has_reservation_id id) t.reservations) store_failed) _
      refl
      λ r.
        committed-then Same t (or_fail (consumption consumed r) invalid_consumption) _ refl
          λ n. sum_reserved-consume id n t.reservations
  where
    Same : Tables → Type 0
    Same t' = sum_reserved in_private t'.reservations ≡ sum_reserved in_private t.reservations

release_retained-WithinLimits :
    (job : String) (t : Tables)
    → WithinLimits t
    → WithinLimits (committed t (release_retained job t))
unfolding release_retained
release_retained-WithinLimits job t w = record {
  global = ground (arith, w.global, count_retained-drop (has_job_id job) any_job t.jobs λ j. refl);
  per_profile = λ p. ground (
    arith,
    w.per_profile p,
    count_retained-drop (has_job_id job) (of_profile p) t.jobs λ j. refl,
  );
  private_bytes = ground (arith, w.private_bytes);
}

step-WithinLimits : (t : Tables) (c : Call) → WithinLimits t → WithinLimits (step t c)
unfolding step reserve_extent release
step-WithinLimits t (admits job profile kind state) w = record {
  global = admit-global job profile kind state t w;
  per_profile = λ other. admit-per_profile job profile kind state t other w;
  private_bytes = rw (admit-private job profile kind state t) w.private_bytes;
}
step-WithinLimits t (reserves id job kind scope requested free capacity) w =
    kept-extent t requested _ w λ n small.
      kept-then t (or_fail (volume free capacity) invalid_capacity) _ w λ v.
        kept-then t (guard (is_scope kind) invalid_scope) _ w
          λ u. reserve_in_tables-WithinLimits id job kind scope n v.0 v.1 t w small
step-WithinLimits t (consumes id consumed) w =
    with_jobs t _ (consume-jobs id consumed t) (rw (consume-private id consumed t) w.private_bytes)
      w
step-WithinLimits t (releases id) w =
    with_jobs t _ refl
      (omega (
        arith,
        w.private_bytes,
        sum_reserved-delete_rows (has_reservation_id id) in_private t.reservations,
      ))
      w
step-WithinLimits t (releases_retained job) w = release_retained-WithinLimits job t w

-- Whatever sequence of calls is made, with whatever arguments, from tables within the limits: at
-- most 64 jobs are retained, at most 16 of one profile, and the reservations of the private scope
-- do not pass its quota in sum.
pub run-WithinLimits : (t : Tables) (cs : List Call) → WithinLimits t → WithinLimits (run t cs)
unfolding run
run-WithinLimits t [] w = w
run-WithinLimits t (c ∷ cs) w = run-WithinLimits (step t c) cs (step-WithinLimits t c w)
