-- ===== src/Tasks/Settled.antt =====
-- Tasks that no earlier process is still to act on, and what the changes of RecoverCore make of them.
use influxdb_desk.Base.{
  ◌≡◌, refl, sym, ap, ◌⊎◌, inl, inr, Bool, true, false, not, ◌&&◌, ◌||◌, Option, none, some,
  if◌then◌else◌, is_empty, arith,
}
use influxdb_desk.Decimal.{Bytes, bytes_eq}
use influxdb_desk.Tasks.{Meta, Change}
use influxdb_desk.Tasks.Words.{
  query_kind, operation_kind, export_kind, queued, dispatching, paused_restartable,
}
use influxdb_desk.Tasks.Repository.{with_seq}
use influxdb_desk.Tasks.Apply.{changed}
use influxdb_desk.Tasks.Recover.{recovery_by, recovery}

-- By whether a task is terminal, by its kind, and by whether it waits, is sent, is paused.
abbrev pub settled_by : Bool → Bool → Bool → Bool → Bool → Bool → Bool → Bool
settled_by true query operation export waiting sent paused = true
settled_by false true operation export waiting sent paused = false
settled_by false false true export waiting sent paused = not (waiting || sent)
settled_by false false false true waiting sent paused = paused
settled_by false false false false waiting sent paused = true

-- No part of an earlier process is still to act on the task: it has ended, or it is an operation that
-- is neither queued nor being dispatched, or an export that is paused, or of another kind.
unfoldable pub settled : Meta → Bool
settled m =
    settled_by m.terminal (bytes_eq m.kind query_kind) (bytes_eq m.kind operation_kind)
      (bytes_eq m.kind export_kind) (bytes_eq m.state queued) (bytes_eq m.state dispatching)
      (bytes_eq m.state paused_restartable)

settled_by-ended : (t q o e k d p : Bool) → t ≡ true → settled_by t q o e k d p ≡ true
settled_by-ended true q o e k d p h = refl
settled_by-ended false q o e k d p h = cc

settled_by-paused :
    (t q o e k d p : Bool) → q ≡ false → o ≡ false → p ≡ true → settled_by t q o e k d p ≡ true
settled_by-paused true q o e k d p hq ho hp = refl
settled_by-paused false true o e k d p hq ho hp = cc
settled_by-paused false false true e k d p hq ho hp = cc
settled_by-paused false false false true k d p hq ho hp = hp
settled_by-paused false false false false k d p hq ho hp = refl

pub settled_by-skipped :
    (t q o e k d p : Bool) → recovery_by q o e k d ≡ none → settled_by t q o e k d p ≡ true
settled_by-skipped true q o e k d p h = refl
settled_by-skipped false true o e k d p h = cc
settled_by-skipped false false true e true d p h = cc
settled_by-skipped false false true e false true p h = cc
settled_by-skipped false false true e false false p h = refl
settled_by-skipped false false false true k d p h = cc
settled_by-skipped false false false false k d p h = refl

pub settled_by-unselected :
    (t q o e k d p : Bool) → (not t && (q || o || e)) ≡ false → settled_by t q o e k d p ≡ true
settled_by-unselected true q o e k d p h = refl
settled_by-unselected false true o e k d p h = ground arith
settled_by-unselected false false true e k d p h = ground arith
settled_by-unselected false false false true k d p h = ground arith
settled_by-unselected false false false false k d p h = refl

same_change : (c d : Change) → ◌≡◌ {A = Option Change} (some c) (some d) → c ≡ d
same_change c d h = cc

recovery_by-ends :
    (q o e k d : Bool) (c : Change)
    → recovery_by q o e k d ≡ some c
    → (c.terminal ≡ true) ⊎ ((q ≡ false) × (o ≡ false) × (c.state ≡ paused_restartable))
recovery_by-ends true o e k d c h = inl (sym (ap (λ x. x.terminal) (same_change _ c h)))
recovery_by-ends false true e true d c h = inl (sym (ap (λ x. x.terminal) (same_change _ c h)))
recovery_by-ends false true e false true c h = inl (sym (ap (λ x. x.terminal) (same_change _ c h)))
recovery_by-ends false true e false false c h = cc
recovery_by-ends false false true k d c h =
    inr (refl, refl, sym (ap (λ x. x.state) (same_change _ c h)))
recovery_by-ends false false false k d c h = cc

pub changed-settled :
    (m : Meta) (c : Change) (snapshot revision seq now : Bytes)
    → recovery m ≡ some c
    → settled (with_seq seq (changed m c snapshot revision now)) ≡ true
unfolding recovery settled bytes_eq
changed-settled m c snapshot revision seq now h = elim (recovery_by-ends _ _ _ _ _ c h) [
  | inl over ↦ settled_by-ended c.terminal _ _ _ _ _ _ over
  | inr paused ↦
      settled_by-paused c.terminal _ _ _ _ _ _ paused.0 paused.1
        (ap (λ s. bytes_eq (if is_empty s then m.state else s) paused_restartable) paused.2)
]
