-- ===== src/Operations/Honest/Restarting.antt =====
-- A restart keeps the invariant.
use influxdb_desk.Base.{
  ℕ, ◌≤◌, ◌<◌, ◌≡◌, refl, sym, ap, ◌∙◌, inl, inr, Bool, true, false, Option, none, some,
  if◌then◌else◌, is_empty, Result, ok, err, arith, Bool-cases,
}
use influxdb_desk.Base.Table.{find_row}
use influxdb_desk.Decimal.{Bytes, bytes_eq}
use influxdb_desk.Decimal.Equality.{bytes_eq_refl, bytes_eq→≡}
use influxdb_desk.Tasks
use influxdb_desk.Tasks.{Meta, Change, Tables}
use influxdb_desk.Tasks.Words.{
  query_kind, operation_kind, export_kind, queued, dispatching, outcome_unknown,
}
use influxdb_desk.Tasks.Repository.{get, with_seq}
use influxdb_desk.Tasks.Apply.{changed}
use influxdb_desk.Tasks.Recover.{ended, recovery_by, recovery, recover_core}
use influxdb_desk.Tasks.Survives.{recover_core-Holds}
use influxdb_desk.Operations.{Run, World}
use influxdb_desk.Operations.Service.{find_run, recovered_world, restart}
use influxdb_desk.Operations.Honest.{maybe_sent, times_sent, View}
use influxdb_desk.Operations.Honest.Updates.{AllHonest}

-- What a restart keeps of the task of an operation that was sent.
abbrev Kept : Meta → Type 0
Kept m = (maybe_sent m.state ≡ true) × (m.kind ≡ operation_kind)

queued_differs : maybe_sent queued ≡ true → ⊥
unfolding maybe_sent bytes_eq
queued_differs h = ground (arith, h)

unknown_sent : maybe_sent outcome_unknown ≡ true
unfolding maybe_sent bytes_eq
unknown_sent = refl

pub query_differs : bytes_eq operation_kind query_kind ≡ false
unfolding bytes_eq
query_differs = refl

pub plain_recovery :
    (q o e k d : Bool) (c : Change)
    → q ≡ false
    → o ≡ true
    → k ≡ false
    → recovery_by q o e k d ≡ some c
    → recovery_by false true e false d ≡ some c
plain_recovery true o e k d c hq ho hk h = cc
plain_recovery false false e k d c hq ho hk h = cc
plain_recovery false true e true d c hq ho hk h = cc
plain_recovery false true e false d c hq ho hk h = h

queued_unsent : (state : Bytes) → maybe_sent state ≡ true → bytes_eq state queued ≡ false
queued_unsent state h = elim (Bool-cases (bytes_eq state queued)) [
  | inl same ↦
      let bad : maybe_sent queued ≡ true = sym (ap maybe_sent (bytes_eq→≡ state queued same)) ∙ h in
      absurd (queued_differs bad)
  | inr other ↦ other
]

same_change : (c d : Change) → ◌≡◌ {A = Option Change} (some c) (some d) → c ≡ d
same_change c d h = cc

recovery_state :
    (e d : Bool) (c : Change)
    → recovery_by false true e false d ≡ some c
    → c.state ≡ outcome_unknown
recovery_state e true c h = ap (λ x. x.state) (sym (same_change (ended outcome_unknown true) c h))
recovery_state e false c h = cc

recovery-Kept :
    (m : Meta) (c : Change) (snapshot revision seq now : Bytes)
    → Kept m
    → recovery m ≡ some c
    → Kept (with_seq seq (changed m c snapshot revision now))
unfolding recovery
recovery-Kept m c snapshot revision seq now (state, kind) h =
    let plain : recovery_by false true (bytes_eq m.kind export_kind) false
          (bytes_eq m.state dispatching)
        ≡ some c =
      plain_recovery _ _ _ _ _ c (ap (λ k. bytes_eq k query_kind) kind ∙ query_differs)
        (ap (λ k. bytes_eq k operation_kind) kind ∙ bytes_eq_refl operation_kind)
        (queued_unsent m.state state) h in
    let to = recovery_state (bytes_eq m.kind export_kind) (bytes_eq m.state dispatching) c plain in
    (ap (λ s. maybe_sent (if is_empty s then m.state else s)) to ∙ unknown_sent, kind)

without_run :
    (g : Result Tasks.Error Meta) (n : ℕ)
    → n ≤ 1
    → (0 < n → (m : Meta) × (g ≡ ok m) × (maybe_sent m.state ≡ true) × (m.kind ≡ operation_kind))
    → View g none n
without_run g n once sent = (once, sent, λ r e. absurd (bad r e), λ r m e found. absurd (bad r e))
  where
    bad : (r : Run) → ◌≡◌ {A = Option Run} none (some r) → ⊥
    bad r e = cc

recovered-Honest :
    (clock : ℕ → Bytes) (w : World) (result : Result Tasks.Error (Tables × ℕ))
    → recover_core clock w.db.core ≡ result
    → AllHonest w
    → AllHonest (recovered_world w result)
unfolding find_run find_row
recovered-Honest clock w (err e) done h id =
    without_run (get id w.db.core) (times_sent id w.sent) (h id).0 (h id).1
recovered-Honest clock w (ok out) done h id =
    without_run (get id out.0) (times_sent id w.sent) (h id).0 (λ pos.
      let (m, found, state, kind) = (h id).1 pos in
      let (n, here, kept) =
        recover_core-Holds Kept recovery-Kept clock w.db.core out id m found (state, kind) done in
      (n, here, kept.0, kept.1))

pub restart-Honest : (clock : ℕ → Bytes) (w : World) → AllHonest w → AllHonest (restart clock w)
unfolding restart
restart-Honest clock w h = recovered-Honest clock w (recover_core clock w.db.core) refl h
