-- ===== src/Tasks/Restart.antt =====
-- What `RecoverCore` leaves of the tasks that a restart has interrupted.
use influxdb_desk.Base.{
  ℕ, ◌+◌, ◌≡◌, refl, sym, ap, ◌∙◌, subst, inl, inr, Bool, true, false, ◌||◌, Option, none, some,
  List, [], ◌∷◌, if◌then◌else◌, ok, guard, or_fail, arith, >>=-eq-ok, ok-injective, Bool-cases,
}
use influxdb_desk.Base.Table.{find_row}
use influxdb_desk.Decimal.{Bytes, bytes_eq}
use influxdb_desk.Decimal.Equality.{bytes_eq_refl, bytes_eq→≡}
use influxdb_desk.Tasks.{not_found, mirror_missing, Meta, Change, Tables}
use influxdb_desk.Tasks.Words.{query_kind}
use influxdb_desk.Tasks.Ledger.{is_some}
use influxdb_desk.Tasks.Repository.{has_id, get}
use influxdb_desk.Tasks.Apply.{apply_in_tx}
use influxdb_desk.Tasks.Recover.{
  recoverable, select_ids, recovery, is_session, write_mirror, recover_by, recover_ids,
  recover_core,
}
use influxdb_desk.Tasks.Updates.{
  get-found, get-id, apply_in_tx-found, apply_in_tx-others, apply_in_tx-meta,
}
use influxdb_desk.Tasks.Settled.{
  settled, settled_by-skipped, settled_by-unselected, changed-settled,
}

pub write_mirror-tasks :
    (query : Bool) (m : Meta) (db out : Tables)
    → write_mirror query m db ≡ ok out
    → out.tasks ≡ db.tasks
unfolding write_mirror
write_mirror-tasks false m db out h = sym (ap (λ x. x.tasks) (ok-injective h))
write_mirror-tasks true m db out h =
    let there =
      >>=-eq-ok (guard (is_some (find_row (is_session m.id) db.mirrors)) mirror_missing) _ h in
    sym (ap (λ x. x.tasks) (ok-injective there.2))

-- Whatever is found under the identifier is settled.
abbrev Safe : Bytes → Tables → Type 0
Safe id db = (m : Meta) → get id db ≡ ok m → settled m ≡ true

pub get-tasks : (id : Bytes) (a b : Tables) → a.tasks ≡ b.tasks → get id a ≡ get id b
unfolding get
get-tasks id a b same = ap (λ rows. or_fail (find_row (has_id id) rows) not_found) same

-- One turn of the loop settles its task and leaves the others.
recover_by-Safe :
    (change : Option Change) (m : Meta) (now : Bytes) (db : Tables) (out : Tables × ℕ)
    → recovery m ≡ change
    → get m.id db ≡ ok m
    → recover_by change m now db ≡ ok out
    → Safe m.id out.0
unfolding recovery settled
recover_by-Safe none m now db out change here h n found =
    let same : n ≡ m =
      ok-injective (sym found ∙ ap (λ x. get m.id x.0) (sym (ok-injective h)) ∙ here) in
    subst (λ x. settled x ≡ true) (sym same) (settled_by-skipped m.terminal _ _ _ _ _ _ change)
recover_by-Safe (some c) m now db out change here h n found =
    let updated = >>=-eq-ok (apply_in_tx m c now db) _ h in
    let mirrored =
      >>=-eq-ok (write_mirror (bytes_eq m.kind query_kind) updated.0.1 updated.0.0) _ updated.2 in
    let kept =
      write_mirror-tasks (bytes_eq m.kind query_kind) updated.0.1 updated.0.0 mirrored.0
        mirrored.1 in
    let (snapshot, revision, seq, s, r, meta) = apply_in_tx-meta m c now db updated.0 updated.1 in
    let same : n ≡ updated.0.1 = ok-injective (
      sym found
      ∙ ap (λ x. get m.id x.0) (sym (ok-injective mirrored.2))
      ∙ get-tasks m.id mirrored.0 updated.0.0 kept
      ∙ apply_in_tx-found m c now db updated.0 here updated.1) in
    subst (λ x. settled x ≡ true) (sym (same ∙ meta))
      (changed-settled m c snapshot revision seq now change)

pub recover_by-others :
    (change : Option Change) (m : Meta) (now : Bytes) (db : Tables) (out : Tables × ℕ)
    (other : Bytes)
    → bytes_eq other m.id ≡ false
    → recover_by change m now db ≡ ok out
    → get other out.0 ≡ get other db
recover_by-others none m now db out other different h =
    ap (λ x. get other x.0) (sym (ok-injective h))
recover_by-others (some c) m now db out other different h =
    let updated = >>=-eq-ok (apply_in_tx m c now db) _ h in
    let mirrored =
      >>=-eq-ok (write_mirror (bytes_eq m.kind query_kind) updated.0.1 updated.0.0) _ updated.2 in
    let kept =
      write_mirror-tasks (bytes_eq m.kind query_kind) updated.0.1 updated.0.0 mirrored.0
        mirrored.1 in
    ap (λ x. get other x.0) (sym (ok-injective mirrored.2))
    ∙ get-tasks other mirrored.0 updated.0.0 kept
    ∙ apply_in_tx-others m c now db updated.0 other different updated.1

abbrev member : Bytes → List Bytes → Bool
member id [] = false
member id (x ∷ xs) = bytes_eq id x || member id xs

recover_ids-Safe :
    (clock : ℕ → Bytes) (count : ℕ) (ids : List Bytes) (db : Tables) (out : Tables × ℕ) (id : Bytes)
    → (member id ids ≡ false → Safe id db)
    → recover_ids clock count ids db ≡ ok out
    → Safe id out.0
unfolding recover_ids
recover_ids-Safe clock count [] db out id safe h =
    subst (λ x. Safe id x.0) (ok-injective h) (safe refl)
recover_ids-Safe clock count (first ∷ ids) db out id safe h =
    let m = >>=-eq-ok (get first db) _ h in
    let turn = >>=-eq-ok (recover_by (recovery m.0) m.0 (clock count) db) _ m.2 in
    let named = get-id first db m.0 m.1 in
    recover_ids-Safe clock (count + turn.0.1) ids turn.0.0 out id
      (λ absent. elim (Bool-cases (bytes_eq id first)) [
        | inl same ↦
            subst (λ x. Safe x turn.0.0) (named ∙ sym (bytes_eq→≡ id first same))
              (recover_by-Safe (recovery m.0) m.0 (clock count) db turn.0 refl
                (ap (λ i. get i db) named ∙ m.1) turn.1)
        | inr other ↦ λ n found. safe (rw other absent) n (
            sym (
              recover_by-others (recovery m.0) m.0 (clock count) db turn.0 id
                (ap (bytes_eq id) named ∙ other) turn.1)
            ∙ found)
      ])
      turn.2

same_row : (r m : Meta) → ◌≡◌ {A = Option Meta} (some r) (some m) → r ≡ m
same_row r m h = cc

member-head :
    (b : Bool) (id x : Bytes) (xs : List Bytes)
    → b ≡ true
    → bytes_eq id x ≡ true
    → member id (if b then x ∷ xs else xs) ≡ true
member-head true id x xs taken same = ap (λ t. t || member id xs) same
member-head false id x xs taken same = cc

member-tail :
    (b : Bool) (id x : Bytes) (xs : List Bytes)
    → member id xs ≡ true
    → member id (if b then x ∷ xs else xs) ≡ true
member-tail true id x xs there = ground (arith, Bool-cases (bytes_eq id x))
member-tail false id x xs there = there

select_ids-member :
    (rows : List Meta) (id : Bytes) (m : Meta)
    → find_row (has_id id) rows ≡ some m
    → recoverable m ≡ true
    → member id (select_ids rows) ≡ true
unfolding find_row select_ids
select_ids-member [] id m found picked = cc
select_ids-member (r ∷ rows) id m found picked = elim (Bool-cases (has_id id r)) [
  | inl hit ↦
      let first : some r ≡ some m =
        sym (ap (λ b. if b then some r else find_row (has_id id) rows) hit) ∙ found in
      let same : r ≡ m = same_row r m first in
      member-head (recoverable r) id r.id (select_ids rows) (ap recoverable same ∙ picked)
        (ap (bytes_eq id) (bytes_eq→≡ r.id id hit) ∙ bytes_eq_refl id)
  | inr miss ↦
      let behind : find_row (has_id id) rows ≡ some m =
        sym (ap (λ b. if b then some r else find_row (has_id id) rows) miss) ∙ found in
      member-tail (recoverable r) id r.id (select_ids rows)
        (select_ids-member rows id m behind picked)
]

-- After a successful recovery no task that is found under an identifier is left to an earlier process:
-- no query is open, no operation waits or is being sent, and every open export is paused.
pub recover_core-settles :
    (clock : ℕ → Bytes) (db : Tables) (out : Tables × ℕ) (id : Bytes) (m : Meta)
    → recover_core clock db ≡ ok out
    → get id out.0 ≡ ok m
    → settled m ≡ true
unfolding recover_core settled
recover_core-settles clock db out id m h =
    recover_ids-Safe clock 0 (select_ids db.tasks) db out id untouched h m
  where
    untouched : member id (select_ids db.tasks) ≡ false → Safe id db
    untouched absent n found = elim (Bool-cases (recoverable n)) [
      | inl picked ↦
          let there = select_ids-member db.tasks id n (get-found id db n found) picked in
          ground arith
      | inr skipped ↦ settled_by-unselected n.terminal _ _ _ _ _ _ skipped
    ]
