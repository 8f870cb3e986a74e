-- ===== src/Operations/Honest/Dispatching.antt =====
-- Each step of the goroutine of `dispatch` keeps the invariant.
use influxdb_desk.Base.{
  ℕ, ◌<◌, ◌≡◌, refl, sym, ap, ◌∙◌, subst, inl, inr, Bool, true, false, not, Option, none, some,
  is_empty, Result, ok, err, arith,
}
use influxdb_desk.Decimal.{Bytes, bytes_eq}
use influxdb_desk.Protection
use influxdb_desk.Tasks.{Meta}
use influxdb_desk.Tasks.Words.{dispatching}
use influxdb_desk.Tasks.Repository.{get}
use influxdb_desk.Operations.{Error, Db, Phase, ready, failed, waiting, ended, Run, World}
use influxdb_desk.Operations.Words.{attempted}
use influxdb_desk.Operations.Transactions.{with_immediate, transition, finish}
use influxdb_desk.Operations.Service.{find_run}
use influxdb_desk.Operations.Dispatch.{
  DispatchEnv, round_trip, persisted, at_gate, begin_ready, begin_run, begin_dispatch, Response,
  Envelope, Verdict, response_verdict, not_sent_verdict, finished_db, write_verdict, end_run,
  finish_phase, finish_run, finish_dispatch, unlist, leave_phase, leave_run, leave_dispatch,
}
use influxdb_desk.Operations.Effects.{transition-Moved, finish-Moved}
use influxdb_desk.Operations.Honest.{maybe_sent, times_sent, phase_fits}
use influxdb_desk.Operations.Honest.Updates.{
  AllHonest, with_immediate-ok, agrees_here, update_run-Honest, set_run-Honest, move-Honest,
  send-Honest,
}
use influxdb_desk.Operations.Honest.Verdicts.{
  Known, response_verdict-Known, maybe_sent-named, not_sent-named,
}

unstarted : (b : Bool) → not b ≡ true → b ≡ false
unstarted false h = refl
unstarted true h = cc

pub dispatching_sent : maybe_sent dispatching ≡ true
unfolding maybe_sent bytes_eq
dispatching_sent = refl

module _ (at : Bytes) (w : World) (r : Run) (found : find_run at w.runs ≡ some r) where
  -- A run that has not started was not sent.
  unsent : (phase_fits r.phase r.started ≡ not r.started) → AllHonest w → times_sent at w.sent ≡ 0
  unsent waits h =
      let fits = agrees_here at w r found (h at) in
      fits.0 (unstarted r.started (sym waits ∙ fits.1))

  round_trip-Honest :
      (begun : Bool) (db : Db) (m : Meta)
      → times_sent at w.sent ≡ 0
      → get at db.core ≡ ok m
      → m.state ≡ dispatching
      → AllHonest (record w { db = db })
      → AllHonest (round_trip at r.record_of begun db w)
  round_trip-Honest true db m zero_sent task state h =
      send-Honest at (record w { db = db }) r m found zero_sent task
        (ap maybe_sent state ∙ dispatching_sent) h
  round_trip-Honest false db m zero_sent task state h =
      set_run-Honest at (record w { db = db }) r found false (failed true) (λ _. zero_sent) refl h

  persisted-Honest :
      (begun : Bool) (now : Bytes) (result : Result Error Db)
      → ((db : Db)
          → result ≡ ok db
          → transition at dispatching false dispatching attempted now w.db ≡ ok db)
      → times_sent at w.sent ≡ 0
      → AllHonest w
      → AllHonest (persisted at r.record_of begun w result)
  persisted-Honest begun now (err e) stored zero_sent h =
      set_run-Honest at w r found false (failed true) (λ _. zero_sent) refl h
  persisted-Honest begun now (ok db) stored zero_sent h =
      let move = (transition-Moved at dispatching attempted now w.db db (stored db refl)).3 in
      round_trip-Honest begun db move.1 zero_sent move.3 move.4
        (move-Honest at dispatching w db move (λ _. dispatching_sent) h)

  at_gate-Honest :
      (env : DispatchEnv) (answer : Result Protection.Error (Unit {0}))
      → times_sent at w.sent ≡ 0
      → AllHonest w
      → AllHonest (at_gate at r.record_of env w answer)
  at_gate-Honest env (err e) zero_sent h =
      set_run-Honest at w r found false (failed false) (λ _. zero_sent) refl h
  at_gate-Honest env (ok u) zero_sent h =
      persisted-Honest env.begun env.now
        (with_immediate env.database_up
          (transition at dispatching false dispatching attempted env.now w.db))
        (λ db e. with_immediate-ok env.database_up _ e) zero_sent h

  begin_ready-Honest :
      (env : DispatchEnv) (phase : Phase)
      → r.phase ≡ phase
      → AllHonest w
      → AllHonest (begin_ready at r.record_of env w phase)
  begin_ready-Honest env ready is h =
      at_gate-Honest env env.authorized (unsent (ap (λ p. phase_fits p r.started) is) h) h
  begin_ready-Honest env (failed p) is h = h
  begin_ready-Honest env waiting is h = h
  begin_ready-Honest env ended is h = h

begin_run-Honest :
    (at : Bytes) (env : DispatchEnv) (w : World) (o : Option Run)
    → find_run at w.runs ≡ o
    → AllHonest w
    → AllHonest (begin_run at env w o)
begin_run-Honest at env w none found h = h
begin_run-Honest at env w (some r) found h = begin_ready-Honest at w r found env r.phase refl h

pub begin_dispatch-Honest :
    (at : Bytes) (env : DispatchEnv) (w : World) → AllHonest w → AllHonest (begin_dispatch at env w)
unfolding begin_dispatch
begin_dispatch-Honest at env w h = begin_run-Honest at env w (find_run at w.runs) refl h

finished-Honest :
    (at : Bytes) (w : World) (v : Verdict) (now : Bytes) (result : Result Error Db)
    → ((db : Db) → result ≡ ok db → finish at v.state v.code v.message v.audit now w.db ≡ ok db)
    → is_empty v.state ≡ false
    → (0 < times_sent at w.sent → Known v)
    → AllHonest w
    → AllHonest (record w { db = finished_db w.db result })
finished-Honest at w v now (err e) stored named agrees h = h
finished-Honest at w v now (ok db) stored named agrees h =
    elim (finish-Moved at v.state v.code v.message v.audit now w.db db named (stored db refl)) [
      | inl same ↦ subst (λ d. AllHonest (record w { db = d })) same h
      | inr move ↦ move-Honest at v.state w db move agrees h
    ]

write_verdict-Honest :
    (at : Bytes) (v : Verdict) (now : Bytes) (up : Bool) (w : World)
    → is_empty v.state ≡ false
    → (0 < times_sent at w.sent → Known v)
    → AllHonest w
    → AllHonest (write_verdict at v now up w)
write_verdict-Honest at v now up w named agrees h =
    finished-Honest at w v now
      (with_immediate up (finish at v.state v.code v.message v.audit now w.db))
      (λ db e. with_immediate-ok up _ e) named agrees h

end_run-Honest :
    (at : Bytes) (w : World) (r : Run)
    → find_run at w.runs ≡ some r
    → AllHonest w
    → AllHonest (end_run at w)
end_run-Honest at w r found h =
    update_run-Honest at w r found (λ x. record x { phase = ended }) (λ x. refl)
      (agrees_here at w r found (h at)).0 refl h

pub no_less : (n : ℕ) {P : Type 0} → n ≡ 0 → 0 < n → P
no_less n e h = absurd (omega arith)

module _ (decode : Bytes → Option Envelope) (at : Bytes) (response : Option Response) (now : Bytes)
    (up : Bool) (w : World) where
  finish_phase-Honest :
      (r : Run) (phase : Phase)
      → find_run at w.runs ≡ some r
      → r.phase ≡ phase
      → AllHonest w
      → AllHonest (finish_phase decode at response now up w phase)
  finish_phase-Honest r ready found is h = h
  finish_phase-Honest r (failed p) found is h =
      let v = not_sent_verdict p in
      end_run-Honest at (write_verdict at v now up w) r found (
        write_verdict-Honest at v now up w (not_sent-named p)
          (no_less (times_sent at w.sent)
            (unsent at w r found (ap (λ q. phase_fits q r.started) is) h))
          h)
  finish_phase-Honest r waiting found is h =
      let v = response_verdict decode response in
      let known = response_verdict-Known decode response in
      end_run-Honest at (write_verdict at v now up w) r found
        (write_verdict-Honest at v now up w (maybe_sent-named v.state known) (λ _. known) h)
  finish_phase-Honest r ended found is h = h

  finish_run-Honest :
      (o : Option Run)
      → find_run at w.runs ≡ o
      → AllHonest w
      → AllHonest (finish_run decode at response now up w o)
  finish_run-Honest none found h = h
  finish_run-Honest (some r) found h = finish_phase-Honest r r.phase found refl h

  pub finish_dispatch-Honest : AllHonest w → AllHonest (finish_dispatch decode at response now up w)
  unfolding finish_dispatch
  finish_dispatch-Honest h = finish_run-Honest (find_run at w.runs) refl h

leave_phase-Honest :
    (at : Bytes) (w : World) (r : Run) (phase : Phase)
    → find_run at w.runs ≡ some r
    → r.phase ≡ phase
    → AllHonest w
    → AllHonest (leave_phase at w phase)
leave_phase-Honest at w r ready found is h = h
leave_phase-Honest at w r (failed p) found is h = h
leave_phase-Honest at w r waiting found is h = h
leave_phase-Honest at w r ended found is h =
    let fits = agrees_here at w r found (h at) in
    update_run-Honest at w r found unlist (λ x. refl) fits.0 fits.1 h

leave_run-Honest :
    (at : Bytes) (w : World) (o : Option Run)
    → find_run at w.runs ≡ o
    → AllHonest w
    → AllHonest (leave_run at w o)
leave_run-Honest at w none found h = h
leave_run-Honest at w (some r) found h = leave_phase-Honest at w r r.phase found refl h

pub leave_dispatch-Honest : (at : Bytes) (w : World) → AllHonest w → AllHonest (leave_dispatch at w)
unfolding leave_dispatch
leave_dispatch-Honest at w h = leave_run-Honest at w (find_run at w.runs) refl h
