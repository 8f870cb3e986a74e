-- ===== src/Operations/Effects.antt =====
-- What the transactions on an operation do to the tasks: each moves one task, or none.
use influxdb_desk.Base.{
  ◌≡◌, refl, sym, ap, ◌∙◌, subst, ◌⊎◌, inl, inr, Bool, true, false, not, ◌||◌, Option, none, some,
  if◌then◌else◌, is_empty, Result, ok, err, guard, ◌>>=◌, ◌>>◌, >>=-eq-ok, ok-injective, guard-true,
  Bool-cases,
}
use influxdb_desk.Decimal.{Bytes, bytes_eq}
use influxdb_desk.Decimal.Equality.{bytes_eq→≡}
use influxdb_desk.Tasks
use influxdb_desk.Tasks.{Meta, Change, Tables, CommandEntry}
use influxdb_desk.Tasks.Words.{queued, dispatching}
use influxdb_desk.Tasks.Repository.{get}
use influxdb_desk.Tasks.Apply.{apply_in_tx}
use influxdb_desk.Tasks.Updates.{get-id, apply_in_tx-found, apply_in_tx-others, apply_in_tx-meta}
use influxdb_desk.Operations.{Error, state_conflict, Row, Audit, Db}
use influxdb_desk.Operations.Transactions.{
  from_tasks, update_operation, add_audit, audit_operation, with_core, moved, attempt, transition,
  finished, set_state, finish_open, finish,
}

-- The task of an operation was open and has gone to a state, and no other task has changed.
abbrev pub Moved : Bytes → Bytes → Tables → Tables → Type 0
Moved id state a b =
    (m : Meta) × (n : Meta) × (get id a ≡ ok m)
    × (get id b ≡ ok n)
    × (n.state ≡ state)
    × (n.kind ≡ m.kind)
    × ((other : Bytes) → bytes_eq other id ≡ false → get other b ≡ get other a)
    × (m.terminal ≡ false)

pub from_tasks-ok {ℓ} :
    {A : Type ℓ} (r : Result Tasks.Error A) {a : A} → from_tasks r ≡ ok a → r ≡ ok a
from_tasks-ok (ok v) h = ap ok (ok-injective h)
from_tasks-ok (err e) h = cc

apply-Moved_self :
    (m : Meta) (c : Change) (now : Bytes) (db : Tables) (out : Tables × Meta)
    → get m.id db ≡ ok m
    → m.terminal ≡ false
    → apply_in_tx m c now db ≡ ok out
    → Moved m.id (if is_empty c.state then m.state else c.state) db out.0
apply-Moved_self m c now db out here going h =
    let (snapshot, revision, seq, s, r, meta) = apply_in_tx-meta m c now db out h in
    (
      m,
      out.1,
      here,
      apply_in_tx-found m c now db out here h,
      ap (λ n. n.state) meta,
      ap (λ n. n.kind) meta,
      λ other apart. apply_in_tx-others m c now db out other apart h,
      going,
    )

pub apply-Moved :
    (id : Bytes) (m : Meta) (c : Change) (now : Bytes) (db : Tables) (out : Tables × Meta)
    → get id db ≡ ok m
    → m.terminal ≡ false
    → apply_in_tx m c now db ≡ ok out
    → Moved id (if is_empty c.state then m.state else c.state) db out.0
apply-Moved id m c now db out here going h =
    let named = get-id id db m here in
    subst (λ i. Moved i (if is_empty c.state then m.state else c.state) db out.0) named
      (apply-Moved_self m c now db out (ap (λ i. get i db) named ∙ here) going h)

-- Tables with the same tasks.
abbrev pub Still : Tables → Tables → Type 0
Still a b = (id : Bytes) → get id b ≡ get id a

pub Moved-Still :
    (id state : Bytes) (a b c : Tables) → Moved id state a b → Still b c → Moved id state a c
Moved-Still id state a b c (m, n, before, after, s, k, others, going) still =
    (m, n, before, still id ∙ after, s, k, λ other apart. still other ∙ others other apart, going)

opens : (a b c : Bool) → not (a || not b || c) ≡ true → a ≡ false
opens false b c h = refl
opens true b c h = cc

waits : (a b c : Bool) → not (a || not b || c) ≡ true → b ≡ true
waits false true c h = refl
waits false false c h = cc
waits true b c h = cc

pub guarded {ℓ} :
    {A : Type ℓ} (b : Bool) (e : Error) (v : A) {out : A} → (guard b e >> ok v) ≡ ok out → v ≡ out
guarded true e v h = ok-injective h
guarded false e v h = cc

pub update_operation-core :
    (id previous : Bytes) (f : Row → Row) (db out : Db)
    → update_operation id previous f db ≡ ok out
    → db.core ≡ out.core
unfolding update_operation
update_operation-core id previous f db out h = ap (λ x. x.core) (guarded _ _ _ h)

pub add_audit-core : (a : Option Audit) (db : Db) → (add_audit a db).core ≡ db.core
add_audit-core none db = refl
add_audit-core (some a) db = refl

audit_operation-core :
    (id outcome now : Bytes) (db : Db) → (audit_operation id outcome now db).core ≡ db.core
unfolding audit_operation
audit_operation-core id outcome now db = add_audit-core _ db

-- What stands behind `ApplyInTx` in `transition` and `finish`.
marked_core :
    (id previous outcome now : Bytes) (f : Row → Row) (core : Tables) (db out : Db)
    → (update_operation id previous f (with_core db core) >>= λ marked.
        ok (audit_operation id outcome now marked))
      ≡ ok out
    → core ≡ out.core
marked_core id previous outcome now f core db out h =
    let marked = >>=-eq-ok (update_operation id previous f (with_core db core)) _ h in
    update_operation-core id previous f (with_core db core) marked.0 marked.1
    ∙ sym (audit_operation-core id outcome now marked.0)
    ∙ ap (λ x. x.core) (ok-injective marked.2)

-- A transition starts at a task that is queued, and moves it to `DISPATCHING`.
pub transition-Moved :
    (id change_type outcome now : Bytes) (db out : Db)
    → transition id dispatching false change_type outcome now db ≡ ok out
    → (m : Meta) × (get id db.core ≡ ok m)
      × (m.state ≡ queued)
      × Moved id dispatching db.core out.core
unfolding transition
transition-Moved id change_type outcome now db out h =
    let current = >>=-eq-ok (from_tasks (get id db.core)) _ h in
    let found = from_tasks-ok (get id db.core) current.1 in
    let open_ = >>=-eq-ok (guard _ state_conflict) _ current.2 in
    let updated =
      >>=-eq-ok
        (from_tasks (apply_in_tx current.0 (moved dispatching false change_type) now db.core)) _
        open_.2 in
    let applied = from_tasks-ok (apply_in_tx current.0 _ now db.core) updated.1 in
    (
      current.0,
      found,
      bytes_eq→≡ current.0.state queued (waits current.0.terminal _ _ (guard-true _ _ open_.1)),
      subst (Moved id dispatching db.core)
          (marked_core id queued outcome now (attempt dispatching now) updated.0.0 db out updated.2)
          (apply-Moved id current.0 (moved dispatching false change_type) now db.core updated.0
            found (opens current.0.terminal _ _ (guard-true _ _ open_.1)) applied),
    )

finish_open-Moved :
    (m : Meta) (id state code message outcome now : Bytes) (db out : Db)
    → is_empty state ≡ false
    → get id db.core ≡ ok m
    → m.terminal ≡ false
    → finish_open m id state code message outcome now db ≡ ok out
    → Moved id state db.core out.core
finish_open-Moved m id state code message outcome now db out named found going h =
    let updated =
      >>=-eq-ok (from_tasks (apply_in_tx m (finished state code message) now db.core)) _ h in
    let applied = from_tasks-ok (apply_in_tx m _ now db.core) updated.1 in
    let move : Moved id (if is_empty state then m.state else state) db.core updated.0.0 =
      apply-Moved id m (finished state code message) now db.core updated.0 found going applied in
    subst (λ b. Moved id (if b then m.state else state) db.core out.core) named
      (subst (Moved id (if is_empty state then m.state else state) db.core)
        (marked_core id m.state outcome now (set_state state now) updated.0.0 db out updated.2)
        move)

-- `finish` moves a task, or leaves the tables as they are.
pub finish-Moved :
    (id state code message outcome now : Bytes) (db out : Db)
    → is_empty state ≡ false
    → finish id state code message outcome now db ≡ ok out
    → (db ≡ out) ⊎ Moved id state db.core out.core
unfolding finish
finish-Moved id state code message outcome now db out named h =
    let current = >>=-eq-ok (from_tasks (get id db.core)) _ h in
    let found = from_tasks-ok (get id db.core) current.1 in
    elim (Bool-cases current.0.terminal) [
      | inl over ↦ inl (
          ok-injective (
            sym (
              ap
                (λ b.
                  if b then ok db else finish_open current.0 id state code message outcome now db)
                over)
            ∙ current.2))
      | inr going ↦ inr (
          finish_open-Moved current.0 id state code message outcome now db out named found going (
            sym (
              ap
                (λ b.
                  if b then ok db else finish_open current.0 id state code message outcome now db)
                going)
            ∙ current.2))
    ]
