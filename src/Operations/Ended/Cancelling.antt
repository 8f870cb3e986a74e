-- ===== src/Operations/Ended/Cancelling.antt =====
-- `Cancel` changes no operation that has ended.
use influxdb_desk.Base.{
  ℕ, ◌≡◌, refl, inl, inr, Bool, true, false, ◌&&◌, Option, none, some, Result, ok, err, >>=-eq-ok,
}
use influxdb_desk.Decimal.{Bytes, bytes_eq}
use influxdb_desk.Operations.{Error, Operation, CommandEnvelope, Identity, Run, World}
use influxdb_desk.Operations.Transactions.{with_immediate, get_in_tx}
use influxdb_desk.Operations.Cancel.{
  Command, Cancelled, cancel_change, validate_cancel_command, replay_cancel_command, apply_cancel,
}
use influxdb_desk.Operations.Service.{find_run}
use influxdb_desk.Operations.Control.{
  CancelEnv, from_protection, control_of, cancel_done, cancel_stored, cancel_run, cancel_seen,
  cancel_replay, cancel_lookup, cancel_command, cancel,
}
use influxdb_desk.Operations.Cancelled.{apply_cancel-Answer}
use influxdb_desk.Operations.Honest.Updates.{with_immediate-ok}
use influxdb_desk.Operations.Ended.{Ended, Still-EndedTask}
use influxdb_desk.Operations.Ended.Steps.{if-Kept, after_transaction}

module _ (id state : Bytes) (n : ℕ) where
  abbrev Same : World → Type 0
  Same w = Ended id state n w

  module _ (at : Bytes) (request : CommandEnvelope) (env : CancelEnv) (w : World) (h : Same w) where
    cancel_done-Ended :
        (c : Command) (started allow_active : Bool) (result : Result Error Cancelled)
        → ((out : Cancelled)
            → result ≡ ok out
            → apply_cancel at request.command_request_id c started allow_active env.now
                env.ledger_expires_at w.db
              ≡ ok out)
        → Same (cancel_done w result).0
    cancel_done-Ended c started allow_active (err e) applied = h
    cancel_done-Ended c started allow_active (ok out) applied =
        elim (apply_cancel-Answer at request.command_request_id c started env.now
          env.ledger_expires_at allow_active w.db out (applied out refl)) [
            | inl still ↦ (Still-EndedTask id state w.db.core out.db.core still h.0, h.1)
            | inr (active, move) ↦
                after_transaction id state n at (cancel_change started).state w out.db move h
          ]

    cancel_stored-Ended :
        (c : Command) (found : Result Error (Option Operation))
        → Same (cancel_stored at request c env w found).0
    cancel_stored-Ended c (err e) = h
    cancel_stored-Ended c (ok (some o)) = h
    cancel_stored-Ended c (ok none) =
        cancel_done-Ended c false false
          (with_immediate env.database_up (
            apply_cancel at request.command_request_id c false false env.now env.ledger_expires_at
              w.db))
          (λ out e. with_immediate-ok env.database_up _ e)

    cancel_run-Ended : (c : Command) (o : Option Run) → Same (cancel_run at request c env w o).0
    cancel_run-Ended c none = cancel_stored-Ended c (replay_cancel_command at c w.db)
    cancel_run-Ended c (some r) = cancel_done-Ended c r.started true _ (λ out e.
        let gate = >>=-eq-ok (from_protection env.gate) _ e in
        with_immediate-ok env.database_up _ gate.2)

    cancel_seen-Ended :
        (i : Identity) (c : Command) (o : Result Error Operation)
        → Same (cancel_seen i at request c env w o).0
    cancel_seen-Ended i c (err e) = h
    cancel_seen-Ended i c (ok o) =
        if-Kept id state n
          (bytes_eq o.connection_id i.connection_id
            && bytes_eq o.connection_generation i.generation)
          _ _ (cancel_run-Ended c (control_of env.held (find_run at w.runs))) h

    cancel_replay-Ended : (o : Operation) (r : Option Run) → Same (cancel_replay at o env w r).0
    cancel_replay-Ended o none = h
    cancel_replay-Ended o (some r) = h

    cancel_lookup-Ended :
        (i : Identity) (c : Command) (found : Result Error (Option Operation))
        → Same (cancel_lookup i at request c env w found).0
    cancel_lookup-Ended i c (err e) = h
    cancel_lookup-Ended i c (ok (some o)) = cancel_replay-Ended o _
    cancel_lookup-Ended i c (ok none) = cancel_seen-Ended i c (get_in_tx at env.before_gate)

    cancel_command-Ended :
        (i : Identity) (c : Result Error Command) → Same (cancel_command i at request env w c).0
    cancel_command-Ended i (err e) = h
    cancel_command-Ended i (ok c) =
        cancel_lookup-Ended i c (replay_cancel_command at c env.before_gate)

    pub cancel-Ended :
        (uuid_valid : Bytes → Bool) (sha256_hex : Bytes → Bytes) (i : Identity)
        → Same (cancel uuid_valid sha256_hex i at request env w).0
    unfolding cancel
    cancel-Ended uuid_valid sha256_hex i =
        cancel_command-Ended i (validate_cancel_command uuid_valid sha256_hex at request)
