-- ===== src/Tasks/Concurrency.antt =====
-- Optimistic concurrency of `Apply`.
use influxdb_desk.Base.{
  ℕ, ◌+◌, ◌≡◌, ◌≢◌, refl, sym, ap, ◌∙◌, true, false, ◌||◌, is_empty, some, Result, ok, err, guard,
  arith, >>=-eq-ok, ok-injective, guard-true, ◌⊎◌, Bool-cases, inl, inr,
}
use influxdb_desk.Decimal.{Bytes, bytes_eq, print, parse_from, canonical_decimal, increment_decimal}
use influxdb_desk.Decimal.Equality.{bytes_eq→≡}
use influxdb_desk.Decimal.RoundTrip.{
  canonical_decimal_exact, IsMinusZero, decimals_compute, canonical_decimal-print, parse_from-print,
}
use influxdb_desk.Tasks.{revision_conflict, Meta, Change, Tables}
use influxdb_desk.Tasks.Repository.{decimal, get, with_seq}
use influxdb_desk.Tasks.Apply.{changed, next_state_revision, apply_in_tx, apply}
use influxdb_desk.Tasks.Updates.{apply_in_tx-found, apply_in_tx-meta, apply_in_tx-others, get-id}

number_or_zeros :
    (n : ℕ) (v : Bytes) → (v ≡ print n) ⊎ (IsMinusZero v × (n ≡ 0)) → (v ≡ print n) ⊎ IsMinusZero v
number_or_zeros n v (inl p) = inl p
number_or_zeros n v (inr (zeros, z)) = inr zeros

-- The text `w` is that of the number after the one that the text `v` stands for.
abbrev pub Successor : Bytes → Bytes → Type 0
Successor v w = (n : ℕ) × (canonical_decimal v ≡ ok (print n)) × (w ≡ print (n + 1))

pub increment_decimal-Successor : (v w : Bytes) → increment_decimal v ≡ ok w → Successor v w
unfolding increment_decimal
increment_decimal-Successor v w h =
    let c = >>=-eq-ok (canonical_decimal v) _ h in
    let (n, canonical, shape) = (canonical_decimal_exact v c.0).0 c.1 in
    let same : increment_decimal v ≡ increment_decimal (print n) =
      rw (c.1, canonical, canonical_decimal-print n) refl in
    (n, c.1 ∙ ap ok canonical, ok-injective (sym h ∙ same ∙ (decimals_compute n n).0))

-- What a number's text is incremented to, and what it was.
increment_decimal-ok :
    (v w : Bytes)
    → increment_decimal v ≡ ok w
    → (n : ℕ) × (w ≡ print (n + 1)) × ((v ≡ print n) ⊎ IsMinusZero v)
unfolding increment_decimal
increment_decimal-ok v w h =
    let c = >>=-eq-ok (canonical_decimal v) _ h in
    let e = (canonical_decimal_exact v c.0).0 c.1 in
    let (n, canonical, shape) = e in
    let same : increment_decimal v ≡ increment_decimal (print n) =
      rw (c.1, canonical, canonical_decimal-print n) refl in
    (n, ok-injective (sym h ∙ same ∙ (decimals_compute n n).0), number_or_zeros n v shape)

print-injective : (m n : ℕ) → print m ≡ print n → m ≡ n
print-injective m n p =
    let back : some m ≡ some n =
      sym (parse_from-print m m (omega arith))
      ∙ ap (parse_from 0) p
      ∙ parse_from-print n n (omega arith) in
    ground arith

successor-distinct :
    (n : ℕ) (v w : Bytes) → (v ≡ print n) ⊎ IsMinusZero v → w ≡ print (n + 1) → w ≢ v
successor-distinct n v w (inl here) next same =
    let e = print-injective (n + 1) n (sym next ∙ same ∙ here) in ground arith
successor-distinct n v w (inr zeros) next same =
    let zero_text = (canonical_decimal_exact v w).1 zeros in
    let one : canonical_decimal v ≡ ok (print (n + 1)) =
      ap canonical_decimal (sym same ∙ next) ∙ canonical_decimal-print (n + 1) in
    let e = print-injective (n + 1) 0 (ok-injective (sym one ∙ zero_text)) in ground arith

increment_decimal-distinct : (v w : Bytes) → increment_decimal v ≡ ok w → w ≢ v
increment_decimal-distinct v w h =
    let (n, next, shape) = increment_decimal-ok v w h in successor-distinct n v w shape next

increment_decimal-differs : (v w : Bytes) → increment_decimal v ≡ ok w → bytes_eq w v ≡ false
increment_decimal-differs v w h = elim (Bool-cases (bytes_eq w v)) [
  | inl same ↦ absurd (increment_decimal-distinct v w h (bytes_eq→≡ w v same))
  | inr other ↦ other
]

-- A successful `Apply` is an `ApplyInTx` of the task that it found.
pub apply-ok :
    (id expected : Bytes) (c : Change) (now : Bytes) (db : Tables) (out : Tables × Meta)
    → apply id expected c now db ≡ ok out
    → (m : Meta) × (get id db ≡ ok m)
      × ((is_empty expected || bytes_eq m.state_revision expected) ≡ true)
      × (apply_in_tx m c now db ≡ ok out)
unfolding apply
apply-ok id expected c now db out h =
    let m = >>=-eq-ok (get id db) _ h in
    let current =
      >>=-eq-ok
        (guard (is_empty expected || bytes_eq m.0.state_revision expected) revision_conflict) _
        m.2 in
    (m.0, m.1, guard-true _ _ current.1, current.2)

decimal-result :
    (r : Result influxdb_desk.Decimal.Error Bytes) (w : Bytes) → decimal r ≡ ok w → r ≡ ok w
decimal-result (ok v) w h = ap ok (ok-injective h)
decimal-result (err e) w h = cc

pub decimal-ok : (v w : Bytes) → decimal (increment_decimal v) ≡ ok w → increment_decimal v ≡ ok w
decimal-ok v w h = decimal-result (increment_decimal v) w h

-- A revision that is not the current one is refused.
pub apply-stale :
    (id expected : Bytes) (c : Change) (now : Bytes) (db : Tables) (m : Meta)
    → get id db ≡ ok m
    → is_empty expected ≡ false
    → bytes_eq m.state_revision expected ≡ false
    → apply id expected c now db ≡ err revision_conflict
unfolding apply
apply-stale id expected c now db m here named stale = rw (here, named, stale) refl

-- Two callers that name the same revision: once the first has changed the state, the second is
-- refused, whatever it asks for.
pub apply-once :
    (id expected : Bytes) (first second : Change) (now later : Bytes) (db : Tables)
    (out : Tables × Meta)
    → is_empty expected ≡ false
    → first.state_changed ≡ true
    → apply id expected first now db ≡ ok out
    → apply id expected second later out.0 ≡ err revision_conflict
unfolding apply
apply-once id expected first second now later db out named stated h =
    let (m, here, current, done) = apply-ok id expected first now db out h in
    let same = get-id id db m here in
    let found = apply_in_tx-found m first now db out (ap (λ i. get i db) same ∙ here) done in
    let (snapshot, revision, seq, first_snapshot, first_revision, meta) =
      apply_in_tx-meta m first now db out done in
    let stepped : decimal (increment_decimal m.state_revision) ≡ ok revision =
      sym (ap (λ b. next_state_revision b m.state_revision) stated) ∙ first_revision in
    let moved =
      increment_decimal-differs m.state_revision revision
        (decimal-ok m.state_revision revision stepped) in
    let was : m.state_revision ≡ expected = bytes_eq→≡ m.state_revision expected (ground arith) in
    apply-stale id expected second later out.0 out.1 (ap (λ i. get i out.0) (sym same) ∙ found)
      named
      (ap (λ x. bytes_eq x.state_revision expected) meta ∙ ap (bytes_eq revision) (sym was) ∙ moved)

-- A successful `Apply`, by the model's own change of the task that it found.
pub apply-changed :
    (id expected : Bytes) (c : Change) (now : Bytes) (db : Tables) (out : Tables × Meta)
    → apply id expected c now db ≡ ok out
    → (m : Meta) × (snapshot : Bytes) × (revision : Bytes) × (seq : Bytes) × (get id db ≡ ok m)
      × ((is_empty expected || bytes_eq m.state_revision expected) ≡ true)
      × (decimal (increment_decimal m.snapshot_revision) ≡ ok snapshot)
      × (next_state_revision c.state_changed m.state_revision ≡ ok revision)
      × (out.1 ≡ with_seq seq (changed m c snapshot revision now))
      × (get id out.0 ≡ ok out.1)
      × ((other : Bytes) → bytes_eq other id ≡ false → get other out.0 ≡ get other db)
apply-changed id expected c now db out h =
    let (m, here, current, done) = apply-ok id expected c now db out h in
    let same = get-id id db m here in
    let (snapshot, revision, seq, s, r, meta) = apply_in_tx-meta m c now db out done in
    (
      m,
      snapshot,
      revision,
      seq,
      here,
      current,
      s,
      r,
      meta,
      ap (λ i. get i out.0) (sym same)
          ∙ apply_in_tx-found m c now db out (ap (λ i. get i db) same ∙ here) done,
      λ other different.
          apply_in_tx-others m c now db out other (ap (bytes_eq other) same ∙ different) done,
    )
