-- ===== src/Tasks/Effect.antt =====
-- internal/tasks/repository.go: what a successful `Apply` leaves, field by field.
use influxdb_desk.Base.{
  ◌≡◌, refl, sym, subst, Bool, true, false, ◌||◌, ◌⊎◌, inl, inr, some, is_empty, if◌then◌else◌, ok,
  arith, ok-injective,
}
use influxdb_desk.Decimal.{Bytes, bytes_eq, increment_decimal}
use influxdb_desk.Tasks.{Meta, Change, Tables}
use influxdb_desk.Tasks.Repository.{decimal, get, with_seq}
use influxdb_desk.Tasks.Apply.{or_else, changed, next_state_revision, apply}
use influxdb_desk.Tasks.Concurrency.{
  Successor, increment_decimal-Successor, decimal-ok, apply-changed,
}

-- The fields that no change writes.
abbrev Same : Meta → Meta → Type 0
Same m m' = (m'.id ≡ m.id) × (m'.kind ≡ m.kind) × (m'.created_at ≡ m.created_at)

-- The fields that a change gives, and those that it gives only if it names them.
abbrev Given : Meta → Change → Bytes → Meta → Type 0
Given m c now m' =
    (m'.state ≡ (if is_empty c.state then m.state else c.state))
    × (m'.terminal ≡ c.terminal)
    × (m'.updated_at ≡ now)
    × (m'.terminal_at ≡ (if c.terminal then some (or_else m.terminal_at now) else m.terminal_at))
    × (m'.public_error_code ≡ c.public_error_code)
    × (m'.public_safe_message ≡ c.public_safe_message)
    × (m'.archived ≡ or_else c.archived m.archived)
    × (m'.result_available ≡ or_else c.result_available m.result_available)

-- The two revisions.
abbrev Advanced : Meta → Change → Meta → Type 0
Advanced m c m' =
    Successor m.snapshot_revision m'.snapshot_revision
    × ((c.state_changed ≡ true) × Successor m.state_revision m'.state_revision
        ⊎ (c.state_changed ≡ false) × (m'.state_revision ≡ m.state_revision))

module _ (m : Meta) (c : Change) (now snapshot revision seq : Bytes) where
  changed-Given : Given m c now (with_seq seq (changed m c snapshot revision now))
  changed-Given = ground arith

  changed-Advanced :
      decimal (increment_decimal m.snapshot_revision) ≡ ok snapshot
      → next_state_revision c.state_changed m.state_revision ≡ ok revision
      → Advanced m c (with_seq seq (changed m c snapshot revision now))
  changed-Advanced s r =
      (increment_decimal-Successor _ _ (decimal-ok _ _ s), by_change c.state_changed refl r)
    where
      by_change :
          (b : Bool)
          → c.state_changed ≡ b
          → next_state_revision b m.state_revision ≡ ok revision
          → (c.state_changed ≡ true) × Successor m.state_revision revision
            ⊎ (c.state_changed ≡ false) × (revision ≡ m.state_revision)
      by_change true e k = inl (e, increment_decimal-Successor _ _ (decimal-ok _ _ k))
      by_change false e k = inr (e, sym (ok-injective k))

-- A successful `Apply` has found a task under the identifier, and the revision that the caller named,
-- unless empty, was the state revision of that task. The returned task is the one then found under
-- the identifier. It has the identifier, the kind and the time of creation of the found task; the
-- change's state, unless that is empty; the change's terminal flag, error code and message; the
-- call's time as its update, and as its end if the change is terminal and no end was set; and the
-- archived and result flags of the change where it names them. Its snapshot revision is the next
-- number, and so is its state revision if the change is one of state, and else that is kept. What is
-- found under any other identifier is as before.
pub apply-effect :
    (id expected : Bytes) (c : Change) (now : Bytes) (db : Tables) (out : Tables × Meta)
    → apply id expected c now db ≡ ok out
    → (m : Meta) × (get id db ≡ ok m)
      × ((is_empty expected || bytes_eq m.state_revision expected) ≡ true)
      × (get id out.0 ≡ ok out.1)
      × Same m out.1
      × Given m c now out.1
      × Advanced m c out.1
      × ((other : Bytes) → bytes_eq other id ≡ false → get other out.0 ≡ get other db)
apply-effect id expected c now db out h =
    let (m, snapshot, revision, seq, here, current, s, r, meta, found, others) =
      apply-changed id expected c now db out h in
    (
      m,
      here,
      current,
      found,
      subst (Same m) (sym meta) (refl, refl, refl),
      subst (Given m c now) (sym meta) (changed-Given m c now snapshot revision seq),
      subst (Advanced m c) (sym meta) (changed-Advanced m c now snapshot revision seq s r),
      others,
    )
