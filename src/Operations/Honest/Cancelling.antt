-- ===== src/Operations/Honest/Cancelling.antt =====
-- `Cancel` keeps the invariant.
use influxdb_desk.Base.{
  ℕ, ◌<◌, ◌≡◌, refl, sym, subst, inl, inr, Bool, true, false, ◌&&◌, ◌||◌, Option, none, some,
  if◌then◌else◌, Result, ok, err, >>=-eq-ok,
}
use influxdb_desk.Decimal.{Bytes, bytes_eq}
use influxdb_desk.Operations.{
  Error, not_found, Db, Operation, CommandEnvelope, Identity, Run, World,
}
use influxdb_desk.Operations.Transactions.{with_immediate, get_in_tx}
use influxdb_desk.Operations.Cancel.{
  Command, Cancelled, cancel_change, validate_cancel_command, replay_cancel_command, apply_cancel,
}
use influxdb_desk.Operations.Service.{find_run}
use influxdb_desk.Operations.Control.{
  CancelEnv, from_protection, control_if, control_of, cancel_done, cancel_stored, cancel_run,
  cancel_seen, cancel_replay, cancel_lookup, cancel_command, cancel,
}
use influxdb_desk.Operations.Effects.{Still}
use influxdb_desk.Operations.Cancelled.{apply_cancel-Answer}
use influxdb_desk.Operations.Honest.{maybe_sent, times_sent, View}
use influxdb_desk.Operations.Honest.Updates.{AllHonest, with_immediate-ok, agrees_here, move-Honest}
use influxdb_desk.Operations.Honest.Dispatching.{no_less, dispatching_sent}

Still-Honest :
    (w : World) (db : Db) → Still w.db.core db.core → AllHonest w → AllHonest (record w { db = db })
Still-Honest w db still h id =
    subst (λ g. View g (find_run id w.runs) (times_sent id w.sent)) (sym (still id)) (h id)

cancel_agrees :
    (started : Bool) (n : ℕ)
    → (started ≡ false → n ≡ 0)
    → 0 < n
    → maybe_sent (cancel_change started).state ≡ true
cancel_agrees true n quiet pos = dispatching_sent
cancel_agrees false n quiet pos = no_less n (quiet refl) pos

module _ (id : Bytes) (request : CommandEnvelope) (c : Command) (env : CancelEnv) (w : World) where
  cancel_done-Honest :
      (started allow_active : Bool) (result : Result Error Cancelled)
      → ((out : Cancelled)
          → result ≡ ok out
          → apply_cancel id request.command_request_id c started allow_active env.now
              env.ledger_expires_at w.db
            ≡ ok out)
      → (allow_active ≡ true → started ≡ false → times_sent id w.sent ≡ 0)
      → AllHonest w
      → AllHonest (cancel_done w result).0
  cancel_done-Honest started allow_active (err e) applied quiet h = h
  cancel_done-Honest started allow_active (ok out) applied quiet h =
      elim (apply_cancel-Answer id request.command_request_id c started env.now
        env.ledger_expires_at allow_active w.db out (applied out refl)) [
          | inl still ↦ Still-Honest w out.db still h
          | inr (active, move) ↦
              move-Honest id (cancel_change started).state w out.db move
                (cancel_agrees started (times_sent id w.sent) (quiet active)) h
        ]

  held_run : (held : Bool) (o : Option Run) {r : Run} → control_of held o ≡ some r → o ≡ some r
  held_run held none h = cc
  held_run held (some x) h = kept (held || x.listed) x h
    where
      kept : (b : Bool) (y : Run) {r : Run} → control_if b y ≡ some r → some y ≡ some r
      kept true y e = e
      kept false y e = cc

  cancel_stored-Honest :
      (found : Result Error (Option Operation))
      → AllHonest w
      → AllHonest (cancel_stored id request c env w found).0
  cancel_stored-Honest (err e) h = h
  cancel_stored-Honest (ok (some o)) h = h
  cancel_stored-Honest (ok none) h =
      cancel_done-Honest false false
        (with_immediate env.database_up (
          apply_cancel id request.command_request_id c false false env.now env.ledger_expires_at
            w.db))
        (λ out e. with_immediate-ok env.database_up _ e) (λ bad _. cc) h

  cancel_run-Honest :
      (o : Option Run)
      → ((r : Run) → o ≡ some r → find_run id w.runs ≡ some r)
      → AllHonest w
      → AllHonest (cancel_run id request c env w o).0
  cancel_run-Honest none known h = cancel_stored-Honest (replay_cancel_command id c w.db) h
  cancel_run-Honest (some r) known h =
      cancel_done-Honest r.started true _
        (λ out e.
          let gate = >>=-eq-ok (from_protection env.gate) _ e in
          with_immediate-ok env.database_up _ gate.2)
        (λ _. (agrees_here id w r (known r refl) (h id)).0) h

  cancel_seen-Honest :
      (i : Identity) (o : Result Error Operation)
      → AllHonest w
      → AllHonest (cancel_seen i id request c env w o).0
  cancel_seen-Honest i (err e) h = h
  cancel_seen-Honest i (ok o) h =
      chosen
        (bytes_eq o.connection_id i.connection_id && bytes_eq o.connection_generation i.generation)
    where
      chosen :
          (b : Bool)
          → AllHonest
              (if b
                then cancel_run id request c env w (control_of env.held (find_run id w.runs))
                else (w, err not_found)).0
      chosen true =
          cancel_run-Honest (control_of env.held (find_run id w.runs))
            (λ r e. held_run env.held (find_run id w.runs) e) h
      chosen false = h

  cancel_replay-Honest :
      (o : Operation) (control : Option Run)
      → AllHonest w
      → AllHonest (cancel_replay id o env w control).0
  cancel_replay-Honest o none h = h
  cancel_replay-Honest o (some r) h = h

  cancel_lookup-Honest :
      (i : Identity) (found : Result Error (Option Operation))
      → AllHonest w
      → AllHonest (cancel_lookup i id request c env w found).0
  cancel_lookup-Honest i (err e) h = h
  cancel_lookup-Honest i (ok (some o)) h = cancel_replay-Honest o _ h
  cancel_lookup-Honest i (ok none) h = cancel_seen-Honest i (get_in_tx id env.before_gate) h

cancel_command-Honest :
    (i : Identity) (id : Bytes) (request : CommandEnvelope) (env : CancelEnv) (w : World)
    (c : Result Error Command)
    → AllHonest w
    → AllHonest (cancel_command i id request env w c).0
cancel_command-Honest i id request env w (err e) h = h
cancel_command-Honest i id request env w (ok c) h =
    cancel_lookup-Honest id request c env w i (replay_cancel_command id c env.before_gate) h

pub cancel-Honest :
    (uuid_valid : Bytes → Bool) (sha256_hex : Bytes → Bytes) (i : Identity) (id : Bytes)
    (request : CommandEnvelope) (env : CancelEnv) (w : World)
    → AllHonest w
    → AllHonest (cancel uuid_valid sha256_hex i id request env w).0
unfolding cancel
cancel-Honest uuid_valid sha256_hex i id request env w h =
    cancel_command-Honest i id request env w
      (validate_cancel_command uuid_valid sha256_hex id request) h
