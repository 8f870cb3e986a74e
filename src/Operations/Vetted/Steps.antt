-- ===== src/Operations/Vetted/Steps.antt =====
-- Every step of the service keeps what it may send to one mutation that was previewed.
use influxdb_desk.Base.{
  ℕ, ◌≡◌, refl, sym, subst, Bool, true, false, Option, none, some, if◌then◌else◌, Result, ok, err,
}
use influxdb_desk.Base.Table.{update_rows, find_row-All, All-update_rows}
use influxdb_desk.Decimal.{Bytes}
use influxdb_desk.Protection
use influxdb_desk.Tasks
use influxdb_desk.Tasks.{Tables}
use influxdb_desk.Tasks.Recover.{recover_core}
use influxdb_desk.Operations.{
  Error, Db, TokenRecord, Phase, ready, failed, waiting, ended, Run, World,
}
use influxdb_desk.Operations.Service.{is_run, find_run, set_phase, recovered_world, restart}
use influxdb_desk.Operations.Preview.{Grammar}
use influxdb_desk.Operations.Dispatch.{
  DispatchEnv, round_trip, persisted, at_gate, begin_ready, begin_run, begin_dispatch, Response,
  Envelope, finish_phase, finish_run, finish_dispatch, unlist, leave_phase, leave_run,
  leave_dispatch,
}
use influxdb_desk.Operations.Vetted.{GoodRecord, GoodRun, Vetted}

module _ (g : Grammar) where
  pub if-Vetted :
      {A : Type 0} (b : Bool) (x y : World × A)
      → Vetted g x.0
      → Vetted g y.0
      → Vetted g (if b then x else y).0
  if-Vetted true x y hx hy = hx
  if-Vetted false x y hx hy = hy

  runs-Vetted :
      (id : Bytes) (f : Run → Run) (w : World)
      → ((r : Run) → (f r).record_of ≡ r.record_of)
      → Vetted g w
      → Vetted g (record w { runs = update_rows (is_run id) f w.runs })
  runs-Vetted id f w same h = (
    h.0,
    All-update_rows (GoodRun g) (is_run id) f w.runs
        (λ r good. subst (GoodRecord g) (sym (same r)) good) h.1,
    h.2,
  )

  module _ (id : Bytes) (r : TokenRecord) (good : GoodRecord g r) where
    round_trip-Vetted :
        (begun : Bool) (db : Db) (w : World) → Vetted g w → Vetted g (round_trip id r begun db w)
    round_trip-Vetted true db w h =
        let runs = runs-Vetted id (set_phase true waiting) w (λ x. refl) h in
        (runs.0, runs.1, ((good.0, good.1, good.2), h.2))
    round_trip-Vetted false db w h = runs-Vetted id (set_phase false (failed true)) w (λ x. refl) h

    persisted-Vetted :
        (begun : Bool) (w : World) (result : Result Error Db)
        → Vetted g w
        → Vetted g (persisted id r begun w result)
    persisted-Vetted begun w (err e) h =
        runs-Vetted id (set_phase false (failed true)) w (λ x. refl) h
    persisted-Vetted begun w (ok db) h = round_trip-Vetted begun db w h

    at_gate-Vetted :
        (env : DispatchEnv) (w : World) (answer : Result Protection.Error (Unit {0}))
        → Vetted g w
        → Vetted g (at_gate id r env w answer)
    at_gate-Vetted env w (err e) h = runs-Vetted id (set_phase false (failed false)) w (λ x. refl) h
    at_gate-Vetted env w (ok u) h = persisted-Vetted env.begun w _ h

    begin_ready-Vetted :
        (env : DispatchEnv) (w : World) (phase : Phase)
        → Vetted g w
        → Vetted g (begin_ready id r env w phase)
    begin_ready-Vetted env w ready h = at_gate-Vetted env w env.authorized h
    begin_ready-Vetted env w (failed p) h = h
    begin_ready-Vetted env w waiting h = h
    begin_ready-Vetted env w ended h = h

  begin_run-Vetted :
      (id : Bytes) (env : DispatchEnv) (w : World) (o : Option Run)
      → find_run id w.runs ≡ o
      → Vetted g w
      → Vetted g (begin_run id env w o)
  unfolding find_run
  begin_run-Vetted id env w none found h = h
  begin_run-Vetted id env w (some r) found h =
      begin_ready-Vetted id r.record_of
        (find_row-All (GoodRun g) (is_run id) w.runs {x = r} h.1 found) env w r.phase h

  pub begin_dispatch-Vetted :
      (id : Bytes) (env : DispatchEnv) (w : World) → Vetted g w → Vetted g (begin_dispatch id env w)
  unfolding begin_dispatch
  begin_dispatch-Vetted id env w h = begin_run-Vetted id env w (find_run id w.runs) refl h

  module _ (decode : Bytes → Option Envelope) (id : Bytes) (response : Option Response)
      (now : Bytes) (up : Bool) (w : World) (h : Vetted g w) where
    finish_phase-Vetted :
        (phase : Phase) → Vetted g (finish_phase decode id response now up w phase)
    finish_phase-Vetted ready = h
    finish_phase-Vetted (failed p) =
        runs-Vetted id (λ r. record r { phase = ended }) w (λ r. refl) h
    finish_phase-Vetted waiting = runs-Vetted id (λ r. record r { phase = ended }) w (λ r. refl) h
    finish_phase-Vetted ended = h

    finish_run-Vetted : (o : Option Run) → Vetted g (finish_run decode id response now up w o)
    finish_run-Vetted none = h
    finish_run-Vetted (some r) = finish_phase-Vetted r.phase

    pub finish_dispatch-Vetted : Vetted g (finish_dispatch decode id response now up w)
    unfolding finish_dispatch
    finish_dispatch-Vetted = finish_run-Vetted (find_run id w.runs)

  leave_phase-Vetted :
      (id : Bytes) (w : World) (phase : Phase) → Vetted g w → Vetted g (leave_phase id w phase)
  leave_phase-Vetted id w ready h = h
  leave_phase-Vetted id w (failed p) h = h
  leave_phase-Vetted id w waiting h = h
  leave_phase-Vetted id w ended h = runs-Vetted id unlist w (λ r. refl) h

  leave_run-Vetted :
      (id : Bytes) (w : World) (o : Option Run) → Vetted g w → Vetted g (leave_run id w o)
  leave_run-Vetted id w none h = h
  leave_run-Vetted id w (some r) h = leave_phase-Vetted id w r.phase h

  pub leave_dispatch-Vetted : (id : Bytes) (w : World) → Vetted g w → Vetted g (leave_dispatch id w)
  unfolding leave_dispatch
  leave_dispatch-Vetted id w h = leave_run-Vetted id w (find_run id w.runs) h

  pub restart-Vetted : (clock : ℕ → Bytes) (w : World) → Vetted g w → Vetted g (restart clock w)
  unfolding restart
  restart-Vetted clock w h = recovered (recover_core clock w.db.core)
    where
      recovered : (result : Result Tasks.Error (Tables × ℕ)) → Vetted g (recovered_world w result)
      recovered (err e) = (tt, tt, h.2)
      recovered (ok out) = (tt, tt, h.2)
