-- ===== src/Operations/History.antt =====
-- The mutation service over time: any interleaving of its calls, its goroutines and restarts.
use influxdb_desk.Base.{
  ℕ, zero, suc, ◌≤◌, ◌<◌, ◌≡◌, refl, sym, ap, ◌∙◌, subst, Bool, true, false, Option, none, some, [],
  ◌∷◌, All, Result, ok, arith, ok-injective,
}
use influxdb_desk.Base.Table.{find_row}
use influxdb_desk.Decimal.{Bytes, bytes_eq}
use influxdb_desk.Tasks
use influxdb_desk.Tasks.{Meta}
use influxdb_desk.Tasks.Words.{operation_kind, queued, dispatching}
use influxdb_desk.Tasks.Repository.{get}
use influxdb_desk.Policy.{may_mutate, Statement, classify_statement}
use influxdb_desk.Operations.{Db, ExecuteRequest, CommandEnvelope, Identity, Run, World}
use influxdb_desk.Operations.Service.{find_run, restart}
use influxdb_desk.Operations.Preview.{Grammar, PreviewEnv, PreviewRequest, preview}
use influxdb_desk.Operations.Previewed.{preview_tokens}
use influxdb_desk.Operations.Execute.{ExecuteEnv, execute}
use influxdb_desk.Operations.Dispatch.{
  DispatchEnv, begin_dispatch, Response, Envelope, finish_dispatch, leave_dispatch,
}
use influxdb_desk.Operations.Control.{CancelEnv, cancel}
use influxdb_desk.Operations.Honest.{maybe_sent, times_sent}
use influxdb_desk.Operations.Honest.Updates.{AllHonest}
use influxdb_desk.Operations.Honest.Dispatching.{
  begin_dispatch-Honest, finish_dispatch-Honest, leave_dispatch-Honest,
}
use influxdb_desk.Operations.Honest.Cancelling.{cancel-Honest}
use influxdb_desk.Operations.Honest.Executing.{Fresh, execute-Honest}
use influxdb_desk.Operations.Honest.Restarting.{restart-Honest}
use influxdb_desk.Operations.Ended.{Ended}
use influxdb_desk.Operations.Ended.Steps.{
  begin_dispatch-Ended, finish_dispatch-Ended, leave_dispatch-Ended,
}
use influxdb_desk.Operations.Ended.Cancelling.{cancel-Ended}
use influxdb_desk.Operations.Ended.Calls.{preview-Ended, execute-Ended, restart-Ended}
use influxdb_desk.Operations.Vetted.{Vetted}
use influxdb_desk.Operations.Vetted.Steps.{
  begin_dispatch-Vetted, finish_dispatch-Vetted, leave_dispatch-Vetted, restart-Vetted,
}
use influxdb_desk.Operations.Vetted.Previewing.{preview-Vetted}
use influxdb_desk.Operations.Vetted.Calls.{execute-Vetted, cancel-Vetted}

-- A service of no operation that has been sent.
abbrev pub idle : Db → World
idle db = record { db = db; tokens = []; runs = []; sent = []; requests = [] }

-- `uuid.Parse`, SHA-256, the JSON decoder and the InfluxQL parser are the libraries'.
module _ (uuid_valid : Bytes → Bool) (sha256_hex : Bytes → Bytes) (decode : Bytes → Option Envelope)
    (g : Grammar) where
  pub data Step : World → World → Type 0 where
    previewed :
        (i : Identity) (ttl : ℕ) (env : PreviewEnv) (request : PreviewRequest) (w : World)
        → Step w (preview sha256_hex g i ttl env request w).0
    executed :
        (i : Identity) (env : ExecuteEnv) (request : ExecuteRequest) (w : World)
        → Fresh env.operation_id w
        → Step w (execute uuid_valid sha256_hex i env request w).0
    begun : (id : Bytes) (env : DispatchEnv) (w : World) → Step w (begin_dispatch id env w)
    finished :
        (id : Bytes) (response : Option Response) (now : Bytes) (up : Bool) (w : World)
        → Step w (finish_dispatch decode id response now up w)
    left : (id : Bytes) (w : World) → Step w (leave_dispatch id w)
    cancelled :
        (i : Identity) (id : Bytes) (request : CommandEnvelope) (env : CancelEnv) (w : World)
        → Step w (cancel uuid_valid sha256_hex i id request env w).0
    restarted : (clock : ℕ → Bytes) (w : World) → Step w (restart clock w)

  -- The worlds that a service can come to from tables in which nothing has been sent.
  pub data Reach (db : Db) : World → Type 0 where
    start : Reach db (idle db)
    next : {v w : World} → Reach db v → Step v w → Reach db w

  Step-Honest : {v w : World} → Step v w → AllHonest v → AllHonest w
  Step-Honest (previewed i ttl env request w) h =
      subst AllHonest (preview_tokens sha256_hex g request w i ttl env).1 h
  Step-Honest (executed i env request w fresh) h =
      execute-Honest uuid_valid sha256_hex i env request w fresh h
  Step-Honest (begun id env w) h = begin_dispatch-Honest id env w h
  Step-Honest (finished id response now up w) h =
      finish_dispatch-Honest decode id response now up w h
  Step-Honest (left id w) h = leave_dispatch-Honest id w h
  Step-Honest (cancelled i id request env w) h =
      cancel-Honest uuid_valid sha256_hex i id request env w h
  Step-Honest (restarted clock w) h = restart-Honest clock w h

  idle-Honest : (db : Db) → AllHonest (idle db)
  unfolding times_sent find_run find_row
  idle-Honest db id = (
    omega arith,
    λ pos. absurd (omega arith),
    λ r e. absurd (bad r e),
    λ r m e found. absurd (bad r e),
  )
    where
      bad : (r : Run) → ◌≡◌ {A = Option Run} none (some r) → ⊥
      bad r e = cc

  Reach-Honest : (db : Db) {w : World} → Reach db w → AllHonest w
  Reach-Honest db start = idle-Honest db
  Reach-Honest db (next r step) = Step-Honest step (Reach-Honest db r)

  unsent :
      (n : ℕ) (g : Result Tasks.Error Meta) (m : Meta)
      → (0 < n → (x : Meta) × (g ≡ ok x) × (maybe_sent x.state ≡ true) × (x.kind ≡ operation_kind))
      → g ≡ ok m
      → maybe_sent m.state ≡ false
      → n ≡ 0
  unsent zero g m sent found quiet = refl
  unsent (suc n) g m sent found quiet =
      let (x, here, state, _) = sent (omega arith) in
      let bad : true ≡ false =
        sym state ∙ ap (λ y. maybe_sent y.state) (ok-injective (sym here ∙ found)) ∙ quiet in
      cc

  -- In any interleaving of executions, dispatches, cancellations and restarts, with any failures of
  -- the database: the round trip of an operation begins at most once, and while the task of an
  -- operation is queued, rejected before it was sent, canceled before it was sent, failed or
  -- interrupted before it was sent, its round trip has never begun.
  pub states_truthful :
      (db : Db) (w : World) (id : Bytes) (m : Meta)
      → Reach db w
      → get id w.db.core ≡ ok m
      → (times_sent id w.sent ≤ 1) × (maybe_sent m.state ≡ false → times_sent id w.sent ≡ 0)
  states_truthful db w id m reached found =
      let h = Reach-Honest db reached id in
      (h.0, unsent (times_sent id w.sent) (get id w.db.core) m h.1 found)

  Step-Vetted : {v w : World} → Step v w → Vetted g v → Vetted g w
  Step-Vetted (previewed i ttl env request w) h = preview-Vetted g sha256_hex i ttl env request w h
  Step-Vetted (executed i env request w fresh) h =
      execute-Vetted g uuid_valid sha256_hex i env request w h
  Step-Vetted (begun id env w) h = begin_dispatch-Vetted g id env w h
  Step-Vetted (finished id response now up w) h =
      finish_dispatch-Vetted g decode id response now up w h
  Step-Vetted (left id w) h = leave_dispatch-Vetted g id w h
  Step-Vetted (cancelled i id request env w) h =
      cancel-Vetted g i id request env w h uuid_valid sha256_hex
  Step-Vetted (restarted clock w) h = restart-Vetted g clock w h

  Reach-Vetted : (db : Db) {w : World} → Reach db w → Vetted g w
  Reach-Vetted db start = (tt, tt, tt)
  Reach-Vetted db (next r step) = Step-Vetted step (Reach-Vetted db r)

  -- In any interleaving of previews, executions, dispatches, cancellations and restarts, the query of
  -- every request whose round trip began is what the library prints for exactly one statement, which
  -- the local policy classifies as a mutation: no batch, and no statement outside the policy. The
  -- request's database and retention policy are the caller's and are not spoken of.
  pub requests_vetted :
      (db : Db) (w : World)
      → Reach db w
      → All
          (λ q.
            (s : Statement) × (q.query ≡ g.printer.query (s ∷ []))
            × (classify_statement s ≡ may_mutate))
          w.requests
  requests_vetted db w reached = (Reach-Vetted db reached).2

  -- What the service comes to from some world.
  pub data Later (v : World) : World → Type 0 where
    unmoved : Later v v
    after : {u w : World} → Later v u → Step u w → Later v w

  module _ (id state : Bytes) (n : ℕ) (waits : bytes_eq state queued ≡ false)
      (sending : bytes_eq state dispatching ≡ false) where
    Step-Ended : {v w : World} → Step v w → Ended id state n v → Ended id state n w
    Step-Ended (previewed i ttl env request w) h =
        preview-Ended id state n sha256_hex g i ttl env request w h
    Step-Ended (executed i env request w fresh) h =
        execute-Ended id state n uuid_valid sha256_hex i env request w h
    Step-Ended (begun at env w) h = begin_dispatch-Ended id state n at env w h
    Step-Ended (finished at response when up w) h =
        finish_dispatch-Ended id state n decode at response when up w h
    Step-Ended (left at w) h = leave_dispatch-Ended id state n at w h
    Step-Ended (cancelled i at request env w) h =
        cancel-Ended id state n at request env w h uuid_valid sha256_hex i
    Step-Ended (restarted clock w) h = restart-Ended id state n waits sending clock w h

    Later-Ended : {v w : World} → Later v w → Ended id state n v → Ended id state n w
    Later-Ended unmoved h = h
    Later-Ended (after later step) h = Step-Ended step (Later-Ended later h)

  -- An operation whose task is terminal, in a state other than queued and being sent, stays so for
  -- ever: through any later calls, cancellations, late answers of its own dispatch and restarts its
  -- task is found, terminal and in the same state, and its round trip does not begin again.
  pub ended_stays :
      (v w : World) (id : Bytes) (m : Meta)
      → Later v w
      → get id v.db.core ≡ ok m
      → m.terminal ≡ true
      → m.kind ≡ operation_kind
      → bytes_eq m.state queued ≡ false
      → bytes_eq m.state dispatching ≡ false
      → (x : Meta) × (get id w.db.core ≡ ok x)
        × (x.terminal ≡ true)
        × (x.state ≡ m.state)
        × (times_sent id w.sent ≡ times_sent id v.sent)
  ended_stays v w id m later found over kind waits sending =
      let h =
        Later-Ended id m.state (times_sent id v.sent) waits sending later
          ((m, found, over, refl, kind), refl) in
      (h.0.0, h.0.1, h.0.2, h.0.3, h.1)
