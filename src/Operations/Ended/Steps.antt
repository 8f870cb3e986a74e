-- ===== src/Operations/Ended/Steps.antt =====
-- No step of the service changes an operation that has ended.
use influxdb_desk.Base.{
  ℕ, ◌≡◌, refl, ◌∙◌, subst, inl, inr, Bool, true, false, Option, none, some, if◌then◌else◌,
  is_empty, Result, ok, err,
}
use influxdb_desk.Decimal.{Bytes}
use influxdb_desk.Protection
use influxdb_desk.Tasks.Words.{dispatching}
use influxdb_desk.Tasks.Created.{swapped_apart}
use influxdb_desk.Operations.{
  Error, Db, TokenRecord, Phase, ready, failed, waiting, ended, Run, World,
}
use influxdb_desk.Operations.Words.{attempted}
use influxdb_desk.Operations.Transactions.{with_immediate, transition, finish}
use influxdb_desk.Operations.Service.{find_run}
use influxdb_desk.Operations.Dispatch.{
  DispatchEnv, round_trip, persisted, at_gate, begin_ready, begin_run, begin_dispatch, Response,
  Envelope, Verdict, finished_db, write_verdict, not_sent_verdict, response_verdict, finish_phase,
  finish_run, finish_dispatch, leave_phase, leave_run, leave_dispatch,
}
use influxdb_desk.Operations.Effects.{Moved, transition-Moved, finish-Moved}
use influxdb_desk.Operations.Honest.Views.{times_sent_other}
use influxdb_desk.Operations.Honest.Updates.{with_immediate-ok}
use influxdb_desk.Operations.Honest.Verdicts.{
  response_verdict-Known, maybe_sent-named, not_sent-named,
}
use influxdb_desk.Operations.Ended.{Ended, Moved-apart, Moved-EndedTask}

module _ (id state : Bytes) (n : ℕ) where
  abbrev pub Kept : World → Type 0
  Kept w = Ended id state n w

  pub if-Kept :
      {A : Type 0} (b : Bool) (x y : World × A) → Kept x.0 → Kept y.0 → Kept (if b then x else y).0
  if-Kept true x y hx hy = hx
  if-Kept false x y hx hy = hy

  pub after_transaction :
      (at to : Bytes) (w : World) (db : Db)
      → Moved at to w.db.core db.core
      → Kept w
      → Kept (record w { db = db })
  after_transaction at to w db move h =
      (Moved-EndedTask id state at to w.db.core db.core move h.0, h.1)

  module _ (at : Bytes) (r : TokenRecord) where
    round_trip-Ended :
        (begun : Bool) (w : World) (db : Db)
        → Moved at dispatching w.db.core db.core
        → Kept w
        → Kept (round_trip at r begun db w)
    round_trip-Ended false w db move h = after_transaction at dispatching w db move h
    round_trip-Ended true w db move h =
        let apart = Moved-apart id state at dispatching w.db.core db.core h.0 move in
        (
          Moved-EndedTask id state at dispatching w.db.core db.core move h.0,
          times_sent_other id at w.sent (swapped_apart at id apart) ∙ h.1,
        )

    persisted-Ended :
        (begun : Bool) (now : Bytes) (w : World) (result : Result Error Db)
        → ((db : Db)
            → result ≡ ok db
            → transition at dispatching false dispatching attempted now w.db ≡ ok db)
        → Kept w
        → Kept (persisted at r begun w result)
    persisted-Ended begun now w (err e) stored h = h
    persisted-Ended begun now w (ok db) stored h =
        round_trip-Ended begun w db
          (transition-Moved at dispatching attempted now w.db db (stored db refl)).3 h

    at_gate-Ended :
        (env : DispatchEnv) (w : World) (answer : Result Protection.Error (Unit {0}))
        → Kept w
        → Kept (at_gate at r env w answer)
    at_gate-Ended env w (err e) h = h
    at_gate-Ended env w (ok u) h =
        persisted-Ended env.begun env.now w
          (with_immediate env.database_up
            (transition at dispatching false dispatching attempted env.now w.db))
          (λ db e. with_immediate-ok env.database_up _ e) h

    begin_ready-Ended :
        (env : DispatchEnv) (w : World) (phase : Phase)
        → Kept w
        → Kept (begin_ready at r env w phase)
    begin_ready-Ended env w ready h = at_gate-Ended env w env.authorized h
    begin_ready-Ended env w (failed p) h = h
    begin_ready-Ended env w waiting h = h
    begin_ready-Ended env w ended h = h

  begin_run-Ended :
      (at : Bytes) (env : DispatchEnv) (w : World) (o : Option Run)
      → Kept w
      → Kept (begin_run at env w o)
  begin_run-Ended at env w none h = h
  begin_run-Ended at env w (some r) h = begin_ready-Ended at r.record_of env w r.phase h

  pub begin_dispatch-Ended :
      (at : Bytes) (env : DispatchEnv) (w : World) → Kept w → Kept (begin_dispatch at env w)
  unfolding begin_dispatch
  begin_dispatch-Ended at env w h = begin_run-Ended at env w (find_run at w.runs) h

  finished-Ended :
      (at : Bytes) (w : World) (v : Verdict) (now : Bytes) (result : Result Error Db)
      → ((db : Db) → result ≡ ok db → finish at v.state v.code v.message v.audit now w.db ≡ ok db)
      → is_empty v.state ≡ false
      → Kept w
      → Kept (record w { db = finished_db w.db result })
  finished-Ended at w v now (err e) stored named h = h
  finished-Ended at w v now (ok db) stored named h =
      elim (finish-Moved at v.state v.code v.message v.audit now w.db db named (stored db refl)) [
        | inl same ↦ subst (λ d. Kept (record w { db = d })) same h
        | inr move ↦ after_transaction at v.state w db move h
      ]

  write_verdict-Ended :
      (at : Bytes) (v : Verdict) (now : Bytes) (up : Bool) (w : World)
      → is_empty v.state ≡ false
      → Kept w
      → Kept (write_verdict at v now up w)
  write_verdict-Ended at v now up w named h =
      finished-Ended at w v now
        (with_immediate up (finish at v.state v.code v.message v.audit now w.db))
        (λ db e. with_immediate-ok up _ e) named h

  module _ (decode : Bytes → Option Envelope) (at : Bytes) (response : Option Response)
      (now : Bytes) (up : Bool) (w : World) (h : Kept w) where
    finish_phase-Ended : (phase : Phase) → Kept (finish_phase decode at response now up w phase)
    finish_phase-Ended ready = h
    finish_phase-Ended (failed p) =
        write_verdict-Ended at (not_sent_verdict p) now up w (not_sent-named p) h
    finish_phase-Ended waiting =
        let v = response_verdict decode response in
        write_verdict-Ended at v now up w
          (maybe_sent-named v.state (response_verdict-Known decode response)) h
    finish_phase-Ended ended = h

    finish_run-Ended : (o : Option Run) → Kept (finish_run decode at response now up w o)
    finish_run-Ended none = h
    finish_run-Ended (some r) = finish_phase-Ended r.phase

    pub finish_dispatch-Ended : Kept (finish_dispatch decode at response now up w)
    unfolding finish_dispatch
    finish_dispatch-Ended = finish_run-Ended (find_run at w.runs)

  leave_phase-Ended :
      (at : Bytes) (w : World) (phase : Phase) → Kept w → Kept (leave_phase at w phase)
  leave_phase-Ended at w ready h = h
  leave_phase-Ended at w (failed p) h = h
  leave_phase-Ended at w waiting h = h
  leave_phase-Ended at w ended h = h

  leave_run-Ended : (at : Bytes) (w : World) (o : Option Run) → Kept w → Kept (leave_run at w o)
  leave_run-Ended at w none h = h
  leave_run-Ended at w (some r) h = leave_phase-Ended at w r.phase h

  pub leave_dispatch-Ended : (at : Bytes) (w : World) → Kept w → Kept (leave_dispatch at w)
  unfolding leave_dispatch
  leave_dispatch-Ended at w h = leave_run-Ended at w (find_run at w.runs) h
