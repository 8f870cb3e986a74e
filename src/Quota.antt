-- ===== src/Quota.antt =====
-- internal/transfer/quota.go: the limits on retained transfer jobs and on reserved bytes. Each
-- method is one transaction on the two tables; its other errors of the store are `store_failed`.
pub mod Limits
pub mod Space
mod Tests
use influxdb_desk.Base.{
  ℕ, ◌+◌, ◌-◌, ◌*◌, ◌/◌, ◌%◌, String, Bool, true, false, not, ◌&&◌, ◌||◌, Option, none, some, List,
  [], ◌∷◌, ◌++◌, str_eq, ltb, leb, ◌==◌, if◌then◌else◌, Result, ok, err, guard, or_fail, ◌>>=◌,
  ◌>>◌,
}
use influxdb_desk.Base.Table.{find_row, update_rows, delete_rows}

abbrev pub retained_jobs_global : ℕ
retained_jobs_global = 64

abbrev pub retained_jobs_per_profile : ℕ
retained_jobs_per_profile = 16

abbrev pub private_quota_bytes : ℕ
private_quota_bytes = 53_687_091_200

abbrev pub reservation_extent_bytes : ℕ
reservation_extent_bytes = 67_108_864

pub data Error : Type 0 where
  global_limit profile_limit private_quota target_low_space : Error
  invalid_extent invalid_capacity invalid_scope job_not_found not_retained : Error
  invalid_consumption reservations_left store_failed : Error

-- `other_scope` is any text but PRIVATE and VOLUME.
pub data ScopeKind : Type 0 where
  private_scope volume_scope other_scope : ScopeKind

abbrev pub is_private : ScopeKind → Bool
is_private private_scope = true
is_private _ = false

abbrev pub is_scope : ScopeKind → Bool
is_scope other_scope = false
is_scope _ = true

abbrev pub same_kind : ScopeKind → ScopeKind → Bool
same_kind private_scope private_scope = true
same_kind volume_scope volume_scope = true
same_kind other_scope other_scope = true
same_kind _ _ = false

-- An `int64` argument.
pub data ℤ : Type 0 where
  pos : ℕ → ℤ
  negsuc : ℕ → ℤ

-- A row of `transfer_jobs`.
pub record Job : Type 0 where
  pub job_id : String
  pub profile_id : String
  pub kind : String
  pub state : String
  pub retained : Bool

-- A row of `transfer_reservations`. The byte counts are texts of numbers there.
pub record Reservation : Type 0 where
  pub reservation_id : String
  pub job_id : String
  pub scope_kind : ScopeKind
  pub scope_id : String
  pub reserved_bytes : ℕ
  pub consumed_bytes : ℕ

pub record Tables : Type 0 where
  pub jobs : List Job
  pub reservations : List Reservation

unfoldable pub volume_reserve_floor : ℕ → ℕ
volume_reserve_floor capacity =
    if ltb (capacity / 20) 2_147_483_648
    then 2_147_483_648
    else if ltb 10_737_418_240 (capacity / 20)
    then 10_737_418_240
    else capacity / 20

-- The rows of `SELECT profile_id FROM transfer_jobs WHERE retained=1` that pass a test.
unfoldable pub count_retained : (Job → Bool) → List Job → ℕ
count_retained p [] = 0
count_retained p (j ∷ jobs) = (if j.retained && p j then 1 else 0) + count_retained p jobs

abbrev pub any_job : Job → Bool
any_job j = true

abbrev pub of_profile : String → Job → Bool
of_profile profile j = str_eq j.profile_id profile

abbrev pub has_job_id : String → Job → Bool
has_job_id id j = str_eq j.job_id id

abbrev pub is_absent {ℓ} : {A : Type ℓ} → Option A → Bool
is_absent none = true
is_absent (some a) = false

-- `AdmitInTx`; a second row for a job breaks the primary key.
unfoldable pub admit : String → String → String → String → Tables → Result Error Tables
unfolding count_retained
admit job profile kind state t = do
  guard (not (leb retained_jobs_global (count_retained any_job t.jobs))) global_limit
  guard (not (leb retained_jobs_per_profile (count_retained (of_profile profile) t.jobs)))
      profile_limit
  guard (is_absent (find_row (has_job_id job) t.jobs)) store_failed
  ok (record t {
    jobs =
        record { job_id = job; profile_id = profile; kind = kind; state = state; retained = true }
        ∷ t.jobs;
  })

abbrev pub in_scope : ScopeKind → String → Reservation → Bool
in_scope kind id r = same_kind r.scope_kind kind && str_eq r.scope_id id

abbrev pub in_private : Reservation → Bool
in_private r = is_private r.scope_kind

-- The sums of the loop of `ReserveExtent` over the rows that pass a test, before the wrap-around of
-- the `int64` accumulators, which `reserve_in_tables` takes of the whole expression.
unfoldable pub sum_reserved : (Reservation → Bool) → List Reservation → ℕ
sum_reserved p [] = 0
sum_reserved p (r ∷ rs) = (if p r then r.reserved_bytes else 0) + sum_reserved p rs

unfoldable pub sum_consumed : (Reservation → Bool) → List Reservation → ℕ
sum_consumed p [] = 0
sum_consumed p (r ∷ rs) = (if p r then r.consumed_bytes else 0) + sum_consumed p rs

-- `requested <= 0 || requested > ReservationExtentBytes`
abbrev pub extent : ℤ → Option ℕ
extent (pos n) = if n == 0 || ltb reservation_extent_bytes n then none else some n
extent (negsuc n) = none

-- `freeBytes < 0 || capacity <= 0`
abbrev pub volume : ℤ → ℤ → Option (ℕ × ℕ)
volume (pos free) (pos capacity) = if capacity == 0 then none else some (free, capacity)
volume _ _ = none

abbrev pub low_space : ScopeKind → Error
low_space kind = if is_private kind then private_quota else target_low_space

abbrev pub has_reservation_id : String → Reservation → Bool
has_reservation_id id r = str_eq r.reservation_id id

-- An `int64` by its residue: the upper half is negative.
abbrev pub wrap64 : ℕ → ℕ
wrap64 n = n % 18_446_744_073_709_551_616

-- `n > limit` and `n < limit` of such a number and a limit that is not negative.
abbrev pub exceeds : ℕ → ℕ → Bool
exceeds limit n = ltb limit n && ltb n 9_223_372_036_854_775_808

abbrev pub falls_short : ℕ → ℕ → Bool
falls_short limit n = ltb n limit || leb 9_223_372_036_854_775_808 n

-- `freeBytes-scopeOutstanding-requested`
abbrev pub left_over : ℕ → ℕ → ℕ → ℕ → ℕ
left_over free consumed reserved requested =
    wrap64 (free + consumed + (18_446_744_073_709_551_616 - wrap64 (reserved + requested)))

-- The transaction of `ReserveExtent`; `id` is the text of `uuid.NewString()`.
unfoldable pub reserve_in_tables :
    String → String → ScopeKind → String → ℕ → ℕ → ℕ → Tables → Result Error (Tables × Reservation)
unfolding sum_reserved sum_consumed volume_reserve_floor
reserve_in_tables id job kind scope requested free capacity t = do
  j ← or_fail (find_row (has_job_id job) t.jobs) job_not_found
  guard j.retained not_retained
  guard
      (not (
        is_private kind
        && exceeds private_quota_bytes
            (wrap64 (sum_reserved in_private t.reservations + requested))))
      private_quota
  guard
      (not (
        falls_short (volume_reserve_floor capacity) (
          left_over free (sum_consumed (in_scope kind scope) t.reservations)
            (sum_reserved (in_scope kind scope) t.reservations) requested)))
      (low_space kind)
  guard (is_absent (find_row (has_reservation_id id) t.reservations)) store_failed
  let out : Reservation = record {
    reservation_id = id;
    job_id = job;
    scope_kind = kind;
    scope_id = scope;
    reserved_bytes = requested;
    consumed_bytes = 0;
  }
  ok (record t { reservations = out ∷ t.reservations }, out)

-- `ReserveExtent`
unfoldable pub reserve_extent :
    String → String → ScopeKind → String → ℤ → ℤ → ℤ → Tables → Result Error (Tables × Reservation)
unfolding reserve_in_tables
reserve_extent id job kind scope requested free capacity t = do
  n ← or_fail (extent requested) invalid_extent
  v ← or_fail (volume free capacity) invalid_capacity
  guard (is_scope kind) invalid_scope
  reserve_in_tables id job kind scope n v.0 v.1 t

-- `consumed < current || consumed > reserved`
abbrev pub consumption : ℤ → Reservation → Option ℕ
consumption (pos n) r = if ltb n r.consumed_bytes || ltb r.reserved_bytes n then none else some n
consumption (negsuc n) r = none

-- `Consume`
unfoldable pub consume : String → ℤ → Tables → Result Error Tables
consume id consumed t = do
  r ← or_fail (find_row (has_reservation_id id) t.reservations) store_failed
  n ← or_fail (consumption consumed r) invalid_consumption
  ok (record t {
    reservations =
        update_rows (has_reservation_id id) (λ x. record x { consumed_bytes = n }) t.reservations;
  })

-- `Release`
unfoldable pub release : String → Tables → Tables
release id t = record t { reservations = delete_rows (has_reservation_id id) t.reservations }

abbrev pub of_job : String → Reservation → Bool
of_job id r = str_eq r.job_id id

-- `ReleaseRetained`
unfoldable pub release_retained : String → Tables → Result Error Tables
release_retained job t = do
  guard (is_absent (find_row (of_job job) t.reservations)) reservations_left
  ok (record t { jobs = update_rows (has_job_id job) (λ j. record j { retained = false }) t.jobs })
