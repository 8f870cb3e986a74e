-- ===== src/ExportLane/Accounting.antt =====
-- What every record keeps under every sequence of calls: the quanta are accounted for, and a final
-- state is marked terminal for good.
use influxdb_desk.Base.{
  String, Bool, true, false, Option, none, some, List, [], ◌∷◌, ◌≡◌, refl, arith, or_fail, ◌>>=◌,
  Result, ok, err, if◌then◌else◌, Bool-cases, Option-cases, inl, inr,
}
use influxdb_desk.Base.Dict.{
  Dict, lookup, insert, Values, lookup-Values, insert-Values, map_values-Values,
}
use influxdb_desk.ExportLane.{GenerationKey, JobRequest, JobRecord, Group, ExecutionError, Error}
use influxdb_desk.ExportLane.Record.{
  cancel_record, close_record, claim_record, mark_running_record, finish_before_dispatch_record,
  finish_quantum_record,
}
use influxdb_desk.ExportLane.Scheduler.{
  Scheduler, new_scheduler, find_group, submit, cancel, restart, pause_generation, close,
  claim_from, claimed_job, claim, marked_job, mark_running, finish_before_dispatch, finish_quantum,
}
use influxdb_desk.ExportLane.Accounted.{
  Accounted, new_record-Accounted, cancel_record-Accounted, restart_record-Accounted,
  pause_record-Accounted, close_record-Accounted, claim_record-Accounted,
  mark_running_record-Accounted, finish_before_dispatch_record-Accounted,
  finish_quantum_record-Accounted,
}

-- A call of a method, by a client or by a generation's goroutine.
pub data Call : Type 0 where
  submits : JobRequest → Call
  cancels restarts : String → Call
  pauses claims : GenerationKey → Call
  closes : Call
  marks_running : String → String → Call
  finishes_before : String → ExecutionError → Call
  finishes : GenerationKey → String → String → Option ExecutionError → Call

-- A call that fails leaves the scheduler as it was.
abbrev pub after {ℓ} : {A : Type ℓ} → Scheduler → Result Error (Scheduler × A) → Scheduler
after s (ok (t, _)) = t
after s (err _) = s

abbrev claim_group : Option Group → Scheduler → Scheduler
claim_group none s = s
claim_group (some g) s = (claim g s).0

unfoldable pub step : (GenerationKey → Bool) → Scheduler → Call → Scheduler
step has_lane s (submits q) = after s (submit has_lane q s)
step has_lane s (cancels job) = after s (cancel job s)
step has_lane s (restarts job) = after s (restart job s)
step has_lane s (pauses k) = pause_generation k s
step has_lane s (claims k) = claim_group (find_group k s.groups) s
step has_lane s closes = close s
step has_lane s (marks_running job q) = (mark_running job q s).0
step has_lane s (finishes_before job e) = finish_before_dispatch job e s
step has_lane s (finishes k job q failure) = finish_quantum k job q failure s

unfoldable pub run : (GenerationKey → Bool) → Scheduler → List Call → Scheduler
run has_lane s [] = s
run has_lane s (c ∷ cs) = run has_lane (step has_lane s c) cs

abbrev Books : Scheduler → Type 0
Books s = Values Accounted s.jobs

-- `P` holds of the scheduler that a method leaves: one rule for each way a method goes on.
record Leaves {A : Type 0} (P : Scheduler → Type 0) (s : Scheduler)
    (r : Result Error (Scheduler × A)) : Type 0 where
  at : P (after s r)

module _ {B : Type 0} {P : Scheduler → Type 0} {s : Scheduler} where
  Leaves-ok : (t : Scheduler) (b : B) → P t → Leaves P s (ok (t, b))
  Leaves-ok t b h = record { at = h }

  Leaves-bind :
      {A : Type 0} (m : Result Error A) (f : A → Result Error (Scheduler × B))
      → P s
      → ((a : A) → m ≡ ok a → Leaves P s (f a))
      → Leaves P s (m >>= f)
  Leaves-bind (ok a) f k h = h a refl
  Leaves-bind (err e) f k h = record { at = k }

  Leaves-if :
      (b : Bool) (m n : Result Error (Scheduler × B))
      → Leaves P s m
      → Leaves P s n
      → Leaves P s (if b then m else n)
  Leaves-if true m n hm hn = hm
  Leaves-if false m n hm hn = hn

or_fail-eq-ok : {A : Type 0} (o : Option A) (e : Error) {a : A} → or_fail o e ≡ ok a → o ≡ some a
or_fail-eq-ok (some a) e h = cc
or_fail-eq-ok none e h = cc

claim_from_found :
    (jobs : Dict JobRecord) (ready : List String) {job : String} {r : JobRecord}
    → (claim_from jobs ready).1 ≡ some (job, r)
    → lookup job jobs ≡ some r
unfolding claim_from
claim_from_found jobs [] h = cc
claim_from_found jobs (x ∷ rest) {job = job} {r = r} h =
    ground (arith, claim_from_found jobs rest {job = job} {r = r})

submit-Books :
    (has_lane : GenerationKey → Bool) (q : JobRequest) (s : Scheduler)
    → Books s
    → Leaves Books s (submit has_lane q s)
unfolding submit
submit-Books has_lane q s b =
    search (Leaves-bind, Leaves-ok, insert-Values, new_record-Accounted) depth 12

found-Accounted :
    (job : String) (jobs : Dict JobRecord) (e : Error) {r : JobRecord}
    → Values Accounted jobs
    → or_fail (lookup job jobs) e ≡ ok r
    → Accounted r
found-Accounted job jobs e b h =
    lookup-Values Accounted job jobs b (or_fail-eq-ok (lookup job jobs) e h)

canceled-Accounted :
    (e : Error) {r r' : JobRecord}
    → Accounted r
    → or_fail (cancel_record r) e ≡ ok r'
    → Accounted r'
canceled-Accounted e {r = r} {r' = r'} v h =
    cancel_record-Accounted r r' v (or_fail-eq-ok (cancel_record r) e h)

ruleset books_rules = (Leaves-bind, Leaves-if, Leaves-ok, insert-Values, found-Accounted)

cancel-Books : (job : String) (s : Scheduler) → Books s → Leaves Books s (cancel job s)
unfolding cancel
cancel-Books job s b = search (books_rules, canceled-Accounted) depth 12

restart-Books : (job : String) (s : Scheduler) → Books s → Leaves Books s (restart job s)
unfolding restart
restart-Books job s b = search (books_rules, restart_record-Accounted) depth 12

pause-Books : (k : GenerationKey) (s : Scheduler) → Books s → Books (pause_generation k s)
unfolding pause_generation
pause-Books k s b =
    map_values-Values Accounted _ s.jobs (λ r v. ground (arith, pause_record-Accounted r v)) b

close-Books : (s : Scheduler) → Books s → Books (close s)
unfolding close
close-Books s b = elim (Bool-cases s.closed) [
  | inl was ↦ rw was b
  | inr open_ ↦ rw open_ (map_values-Values Accounted close_record s.jobs close_record-Accounted b)
]

-- The calls of a generation's goroutine write at most one record, that of the job they are given.
put-Books :
    (job : String) (r : JobRecord) (s : Scheduler) (f : JobRecord → JobRecord)
    → ((x : JobRecord) → Accounted x → Accounted (f x))
    → Books s
    → lookup job s.jobs ≡ some r
    → Values Accounted (insert job (f r) s.jobs)
put-Books job r s f keep b found =
    insert-Values Accounted job (f r) s.jobs (keep r (lookup-Values Accounted job s.jobs b found)) b

claimed-Books :
    (s : Scheduler) (ready : List String) (gs : List Group) (found : Option (String × JobRecord))
    → Books s
    → (claim_from s.jobs ready).1 ≡ found
    → Books (claimed_job found (record s { groups = gs }))
unfolding claim_record
claimed-Books s ready gs none b e = b
claimed-Books s ready gs (some (job, r)) b e =
    put-Books job r s claim_record claim_record-Accounted b (claim_from_found s.jobs ready e)

claim-Books : (g : Group) (s : Scheduler) → Books s → Books (claim g s).0
unfolding claim
claim-Books g s b = claimed-Books s g.ready _ (claim_from s.jobs g.ready).1 b refl

marked-Books :
    (job q : String) (r : JobRecord) (s : Scheduler) (o : Option JobRecord)
    → Books s
    → lookup job s.jobs ≡ some r
    → mark_running_record q r ≡ o
    → Books (marked_job job o s).0
marked-Books job q r s none b h e = b
marked-Books job q r s (some r') b h e =
    insert-Values Accounted job r' s.jobs
      (mark_running_record-Accounted q r r' (lookup-Values Accounted job s.jobs b h) e) b

mark_running-Books : (job q : String) (s : Scheduler) → Books s → Books (mark_running job q s).0
unfolding mark_running
mark_running-Books job q s b = elim (Option-cases (lookup job s.jobs)) [
  | inl h ↦ rw (h, mark_running) b
  | inr (r, h) ↦ rw (h, mark_running) (marked-Books job q r s (mark_running_record q r) b h refl)
]

finish_before_dispatch-Books :
    (job : String) (e : ExecutionError) (s : Scheduler)
    → Books s
    → Books (finish_before_dispatch job e s)
unfolding finish_before_dispatch
finish_before_dispatch-Books job e s b = elim (Option-cases (lookup job s.jobs)) [
  | inl h ↦ rw (h, finish_before_dispatch) b
  | inr (r, h) ↦
      rw (h, finish_before_dispatch)
        (put-Books job r s (finish_before_dispatch_record e)
          (finish_before_dispatch_record-Accounted e) b h)
]

finish_quantum-Books :
    (k : GenerationKey) (job q : String) (failure : Option ExecutionError) (s : Scheduler)
    → Books s
    → Books (finish_quantum k job q failure s)
unfolding finish_quantum
finish_quantum-Books k job q failure s b = elim (Option-cases (lookup job s.jobs)) [
  | inl h ↦ rw (h, finish_quantum) b
  | inr (r, h) ↦
      rw (h, finish_quantum)
        (put-Books job r s (finish_quantum_record q failure)
          (finish_quantum_record-Accounted q failure) b h)
]

step-Books :
    (has_lane : GenerationKey → Bool) (s : Scheduler) (c : Call)
    → Books s
    → Books (step has_lane s c)
unfolding step
step-Books has_lane s (submits q) b = (submit-Books has_lane q s b).at
step-Books has_lane s (cancels job) b = (cancel-Books job s b).at
step-Books has_lane s (restarts job) b = (restart-Books job s b).at
step-Books has_lane s (pauses k) b = pause-Books k s b
step-Books has_lane s (claims k) b = elim (Option-cases (find_group k s.groups)) [
  | inl e ↦ rw e b
  | inr (g, e) ↦ rw e (claim-Books g s b)
]
step-Books has_lane s closes b = close-Books s b
step-Books has_lane s (marks_running job q) b = mark_running-Books job q s b
step-Books has_lane s (finishes_before job e) b = finish_before_dispatch-Books job e s b
step-Books has_lane s (finishes k job q failure) b = finish_quantum-Books k job q failure s b

run-Books :
    (has_lane : GenerationKey → Bool) (s : Scheduler) (cs : List Call)
    → Books s
    → Books (run has_lane s cs)
unfolding run
run-Books has_lane s [] b = b
run-Books has_lane s (c ∷ cs) b =
    run-Books has_lane (step has_lane s c) cs (step-Books has_lane s c b)

-- After any calls on a new scheduler, in any order, every job's completed and remaining quanta add up
-- to its total, a succeeded job has none left, and a job in a final state is marked terminal.
pub run-Accounted :
    (has_lane : GenerationKey → Bool) (cs : List Call) (job : String) {r : JobRecord}
    → lookup job (run has_lane new_scheduler cs).jobs ≡ some r
    → Accounted r
unfolding new_scheduler
run-Accounted has_lane cs job h =
    lookup-Values Accounted job _ (run-Books has_lane new_scheduler cs tt) h
