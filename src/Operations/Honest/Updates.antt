-- ===== src/Operations/Honest/Updates.antt =====
-- The updates of the runs and of one task that keep the invariant.
use influxdb_desk.Base.{
  ℕ, suc, ◌<◌, ◌≡◌, refl, sym, subst, inl, inr, Bool, true, false, Option, some, ◌∷◌, Result, ok,
  arith, Bool-cases,
}
use influxdb_desk.Base.Table.{update_rows}
use influxdb_desk.Decimal.{Bytes, bytes_eq}
use influxdb_desk.Decimal.Equality.{bytes_eq→≡}
use influxdb_desk.Tasks
use influxdb_desk.Tasks.{Meta, Tables}
use influxdb_desk.Tasks.Repository.{get}
use influxdb_desk.Tasks.Created.{swapped_apart}
use influxdb_desk.Operations.{Error, Db, Phase, waiting, Run, World}
use influxdb_desk.Operations.Transactions.{with_immediate}
use influxdb_desk.Operations.Service.{is_run, find_run, set_phase}
use influxdb_desk.Operations.Dispatch.{set_run}
use influxdb_desk.Operations.Effects.{Moved}
use influxdb_desk.Operations.Honest.{maybe_sent, times_sent, phase_fits, Fits, View, Honest}
use influxdb_desk.Operations.Honest.Views.{
  times_sent_self, times_sent_other, Moved-View, with_run, find_run-update, find_run-untouched,
}

abbrev pub AllHonest : World → Type 0
AllHonest w = (id : Bytes) → Honest w id

pub with_immediate-ok {ℓ} :
    {A : Type ℓ} (up : Bool) (r : Result Error A) {a : A} → with_immediate up r ≡ ok a → r ≡ ok a
with_immediate-ok true r h = h
with_immediate-ok false r h = cc

module _ (at : Bytes) (w : World) (r : Run) (found : find_run at w.runs ≡ some r) where
  run_here : Honest w at → View (get at w.db.core) (some r) (times_sent at w.sent)
  run_here h = subst (λ o. View (get at w.db.core) o (times_sent at w.sent)) found h

  pub agrees_here : Honest w at → Fits r (times_sent at w.sent)
  agrees_here h = h.2 r found

  -- An update of the run that agrees with what was sent.
  pub update_run-Honest :
      (f : Run → Run)
      → ((x : Run) → (f x).operation_id ≡ x.operation_id)
      → ((f r).started ≡ false → times_sent at w.sent ≡ 0)
      → phase_fits (f r).phase (f r).started ≡ true
      → AllHonest w
      → AllHonest (record w { runs = update_rows (is_run at) f w.runs })
  update_run-Honest f keeps quiet fits h id = elim (Bool-cases (bytes_eq id at)) [
    | inl same ↦
        subst (Honest (record w { runs = update_rows (is_run at) f w.runs }))
          (sym (bytes_eq→≡ id at same))
          (subst (λ o. View (get at w.db.core) o (times_sent at w.sent))
            (sym (find_run-update f keeps at w.runs r found))
            (with_run (get at w.db.core) r (f r) (times_sent at w.sent) quiet fits
              (run_here (h at))))
    | inr other ↦
        subst (λ o. View (get id w.db.core) o (times_sent id w.sent))
          (sym (find_run-untouched f keeps id at w.runs other)) (h id)
  ]

  pub set_run-Honest :
      (started : Bool) (phase : Phase)
      → (started ≡ false → times_sent at w.sent ≡ 0)
      → phase_fits phase started ≡ true
      → AllHonest w
      → AllHonest (set_run at started phase w)
  set_run-Honest started phase quiet fits h =
      update_run-Honest (set_phase started phase) (λ x. refl) quiet fits h

-- A move of one task that agrees with what was sent.
pub move-Honest :
    (at state : Bytes) (w : World) (db : Db)
    → Moved at state w.db.core db.core
    → (0 < times_sent at w.sent → maybe_sent state ≡ true)
    → AllHonest w
    → AllHonest (record w { db = db })
move-Honest at state w db move agrees h id =
    Moved-View at state w.db.core db.core id (find_run id w.runs) (times_sent id w.sent) move
      (λ same pos. agrees (subst (λ x. 0 < times_sent x w.sent) (bytes_eq→≡ id at same) pos)) (h id)

-- The round trip begins, on a task that has just gone to `DISPATCHING`.
with_request :
    (g : Result Tasks.Error Meta) (m : Meta) (r : Run) (n : ℕ)
    → g ≡ ok m
    → maybe_sent m.state ≡ true
    → n ≡ 0
    → View g (some r) n
    → View g (some (set_phase true waiting r)) (suc n)
with_request g m r n found state zero_sent (once, sent, quiet, owned) = (
  omega arith,
  λ _. (m, found, state, owned r m refl found),
  λ x e. subst (λ y. Fits y (suc n)) (same_run e) (λ bad. cc, refl),
  λ x y e f. owned r y refl f,
)
  where
    same_run : {x y : Run} → ◌≡◌ {A = Option Run} (some x) (some y) → x ≡ y
    same_run h = cc

pub send-Honest :
    (at : Bytes) (w : World) (r : Run) (m : Meta)
    → find_run at w.runs ≡ some r
    → times_sent at w.sent ≡ 0
    → get at w.db.core ≡ ok m
    → maybe_sent m.state ≡ true
    → AllHonest w
    → AllHonest (record (set_run at true waiting w) { sent = at ∷ w.sent })
send-Honest at w r m found unsent task state h id = elim (Bool-cases (bytes_eq id at)) [
  | inl same ↦
      subst (Honest (record (set_run at true waiting w) { sent = at ∷ w.sent }))
        (sym (bytes_eq→≡ id at same))
        (subst
          (λ k.
            View (get at w.db.core)
              (find_run at (update_rows (is_run at) (set_phase true waiting) w.runs)) k)
          (sym (times_sent_self at w.sent))
          (subst (λ o. View (get at w.db.core) o (suc (times_sent at w.sent)))
            (sym (find_run-update (set_phase true waiting) (λ x. refl) at w.runs r found))
            (with_request (get at w.db.core) m r (times_sent at w.sent) task state unsent
              (run_here at w r found (h at)))))
  | inr other ↦
      subst
        (λ k.
          View (get id w.db.core)
            (find_run id (update_rows (is_run at) (set_phase true waiting) w.runs)) k)
        (sym (times_sent_other id at w.sent (apart other)))
        (subst (λ o. View (get id w.db.core) o (times_sent id w.sent))
          (sym (find_run-untouched (set_phase true waiting) (λ x. refl) id at w.runs other)) (h id))
]
  where
    apart : bytes_eq id at ≡ false → bytes_eq at id ≡ false
    apart other = swapped_apart at id other
