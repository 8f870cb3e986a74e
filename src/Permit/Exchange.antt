-- ===== src/Permit/Exchange.antt =====
-- The exchange of a permit's checkpoint digest happens once for each parent.
use influxdb_desk.Base.{◌≡◌, refl, ap, ◌∙◌, true, false, some, List, arith, Option-cases, inl, inr}
use influxdb_desk.Base.Table.{find_row, update_rows, find_row-update_rows}
use influxdb_desk.Decimal.{Bytes, bytes_eq}
use influxdb_desk.Permit.{
  Permit, PermitEntry, has_job, permit_of, get, exchangeable, set_digest, cas,
}

abbrev pub with_digest : Bytes → Permit → Permit
with_digest child p = record p { current_checkpoint_digest = child }

get-set_digest :
    (job child : Bytes) (r : List PermitEntry) (p : Permit)
    → get job r ≡ some p
    → get job (update_rows (has_job job) (set_digest child) r) ≡ some (with_digest child p)
unfolding get
get-set_digest job child r p h = elim (Option-cases (find_row (has_job job) r)) [
  | inl absent ↦ ground arith
  | inr (e, found) ↦
      let same : e.permit ≡ p = ground arith in
      ap permit_of
        (find_row-update_rows (has_job job) (set_digest child) r {x = e} (λ y. refl) found)
      ∙ ap (λ q. some (with_digest child q)) same
]

-- What a `CAS` that happened found.
record Exchanged (job segment parent : Bytes) (r : List PermitEntry) : Type 0 where
  found : (p : Permit) × (get job r ≡ some p)
  same : exchangeable segment parent (get job r) ≡ true

cas-Exchanged :
    (job segment parent child : Bytes) (r : List PermitEntry)
    → (cas job segment parent child r).1 ≡ true
    → Exchanged job segment parent r
unfolding cas
cas-Exchanged job segment parent child r h = elim (Option-cases (get job r)) [
  | inl absent ↦ ground arith
  | inr (p, e) ↦ record { found = (p, e); same = ground arith }
]

cas-rows :
    (job segment parent child : Bytes) (r : List PermitEntry)
    → (cas job segment parent child r).1 ≡ true
    → (cas job segment parent child r).0 ≡ update_rows (has_job job) (set_digest child) r
unfolding cas
cas-rows job segment parent child r h = ground arith

cas-refused :
    (job segment parent child : Bytes) (r : List PermitEntry) (p : Permit)
    → get job r ≡ some p
    → bytes_eq p.current_checkpoint_digest parent ≡ false
    → cas job segment parent child r ≡ (r, false)
unfolding cas
cas-refused job segment parent child r p h differs = ground arith

-- Of two exchanges from the same parent digest at most one happens: after a `CAS` that happened,
-- with a child that is not its parent, the job's permit has the child's digest and is otherwise the
-- same, and a second `CAS` from that parent changes nothing, whatever its segment and child.
pub cas_once :
    (job segment parent child segment' child' : Bytes) (r : List PermitEntry)
    → (cas job segment parent child r).1 ≡ true
    → bytes_eq child parent ≡ false
    → let after = (cas job segment parent child r).0 in
      ((p : Permit) × (get job r ≡ some p) × (get job after ≡ some (with_digest child p)))
      × (cas job segment' parent child' after ≡ (after, false))
cas_once job segment parent child segment' child' r done differs =
    let (p, e) = (cas-Exchanged job segment parent child r done).found in
    let now =
      ap (get job) (cas-rows job segment parent child r done) ∙ get-set_digest job child r p e in
    ((p, e, now), cas-refused job segment' parent child' _ (with_digest child p) now differs)
