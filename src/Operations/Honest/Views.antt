-- ===== src/Operations/Honest/Views.antt =====
-- The invariant on one operation, under each kind of change.
use influxdb_desk.Base.{
  ℕ, suc, ◌<◌, ◌≡◌, refl, sym, ap, ◌∙◌, subst, inl, inr, true, false, Option, some, List, ◌∷◌,
  if◌then◌else◌, Result, ok, ok-injective, Bool-cases,
}
use influxdb_desk.Base.Table.{update_rows, find_row-update_rows, find_row-untouched}
use influxdb_desk.Decimal.{Bytes, bytes_eq}
use influxdb_desk.Decimal.Equality.{bytes_eq_refl, bytes_eq→≡}
use influxdb_desk.Tasks
use influxdb_desk.Tasks.{Meta, Tables}
use influxdb_desk.Tasks.Repository.{get}
use influxdb_desk.Operations.{Run}
use influxdb_desk.Operations.Service.{is_run, find_run}
use influxdb_desk.Operations.Effects.{Moved}
use influxdb_desk.Operations.Honest.{maybe_sent, times_sent, phase_fits, Fits, View}

same_meta : {m n : Meta} → ◌≡◌ {A = Result Tasks.Error Meta} (ok m) (ok n) → m ≡ n
same_meta h = ok-injective h

pub times_sent_self : (id : Bytes) (l : List Bytes) → times_sent id (id ∷ l) ≡ suc (times_sent id l)
unfolding times_sent
times_sent_self id l =
    ap (λ b. if b then suc (times_sent id l) else times_sent id l) (bytes_eq_refl id)

pub times_sent_other :
    (id x : Bytes) (l : List Bytes)
    → bytes_eq x id ≡ false
    → times_sent id (x ∷ l) ≡ times_sent id l
unfolding times_sent
times_sent_other id x l h = ap (λ b. if b then suc (times_sent id l) else times_sent id l) h

-- The task of the operation moves to a state that agrees with what was sent.
after_move :
    (id state : Bytes) (a b : Tables) (o : Option Run) (n : ℕ)
    → Moved id state a b
    → (0 < n → maybe_sent state ≡ true)
    → View (get id a) o n
    → View (get id b) o n
after_move id state a b o n (m, m', before, after, s, k, others, going) agrees
      (once, sent, quiet, owned) =
    (
      once,
      λ pos.
          let (x, found, _, kind) = sent pos in
          (
            m',
            after,
            ap maybe_sent s ∙ agrees pos,
            k ∙ ap (λ y. y.kind) (same_meta (sym before ∙ found)) ∙ kind,
          ),
      quiet,
      λ r x run found. ap (λ y. y.kind) (same_meta (sym found ∙ after)) ∙ k ∙ owned r m run before,
    )

-- A change of one task, seen from any operation.
pub Moved-View :
    (at state : Bytes) (a b : Tables) (id : Bytes) (o : Option Run) (n : ℕ)
    → Moved at state a b
    → (bytes_eq id at ≡ true → 0 < n → maybe_sent state ≡ true)
    → View (get id a) o n
    → View (get id b) o n
Moved-View at state a b id o n move agrees view = elim (Bool-cases (bytes_eq id at)) [
  | inl same ↦
      after_move id state a b o n
        (subst (λ x. Moved x state a b) (sym (bytes_eq→≡ id at same)) move) (agrees same) view
  | inr other ↦ subst (λ g. View g o n) (sym (move.6 id other)) view
]

-- A run in a phase that agrees with what was sent.
pub with_run :
    (g : Result Tasks.Error Meta) (r r' : Run) (n : ℕ)
    → (r'.started ≡ false → n ≡ 0)
    → phase_fits r'.phase r'.started ≡ true
    → View g (some r) n
    → View g (some r') n
with_run g r r' n quiet fits (once, sent, _, owned) = (
  once,
  sent,
  λ x e. subst (λ y. Fits y n) (same_run e) (quiet, fits),
  λ x m e found. owned r m refl found,
)
  where
    same_run : {x y : Run} → ◌≡◌ {A = Option Run} (some x) (some y) → x ≡ y
    same_run h = cc

-- An update of the runs of one operation, which keeps their operation.
module _ (f : Run → Run) (keeps : (r : Run) → (f r).operation_id ≡ r.operation_id) where
  is_run_kept : (id : Bytes) (r : Run) → is_run id (f r) ≡ is_run id r
  is_run_kept id r = ap (λ x. bytes_eq x id) (keeps r)

  pub find_run-update :
      (id : Bytes) (runs : List Run) (r : Run)
      → find_run id runs ≡ some r
      → find_run id (update_rows (is_run id) f runs) ≡ some (f r)
  unfolding find_run
  find_run-update id runs r h = find_row-update_rows (is_run id) f runs {x = r} (is_run_kept id) h

  pub find_run-untouched :
      (id at : Bytes) (runs : List Run)
      → bytes_eq id at ≡ false
      → find_run id (update_rows (is_run at) f runs) ≡ find_run id runs
  unfolding find_run
  find_run-untouched id at runs apart =
      find_row-untouched (is_run id) (is_run at) f runs (is_run_kept id)
        (λ r hit. ap (λ x. bytes_eq x at) (bytes_eq→≡ r.operation_id id hit) ∙ apart)
