-- ===== src/Operations/Ended/Calls.antt =====
-- `Preview`, `Execute` and a restart change no operation that has ended.
use influxdb_desk.Base.{
  ℕ, ◌≡◌, refl, sym, ap, ◌∙◌, subst, inl, inr, Bool, true, false, not, ◌&&◌, ◌||◌, Option, none,
  some, leb, is_empty, Result, ok, err, Bool-cases,
}
use influxdb_desk.Base.Table.{find_row}
use influxdb_desk.Decimal.{Bytes, bytes_eq}
use influxdb_desk.Decimal.Equality.{bytes_eq_refl, bytes_eq→≡}
use influxdb_desk.Tasks
use influxdb_desk.Tasks.{Meta, Tables}
use influxdb_desk.Tasks.Words.{dispatching}
use influxdb_desk.Tasks.Repository.{has_id}
use influxdb_desk.Tasks.Updates.{get-found}
use influxdb_desk.Operations.{Error, Db, Operation, TokenRecord, ExecuteRequest, Identity, World}
use influxdb_desk.Operations.Words.{execute_scope}
use influxdb_desk.Operations.Transactions.{with_immediate}
use influxdb_desk.Operations.Execute.{
  ExecuteEnv, execute_in_tx, start_dispatch, execute_record, purged, execute_locked,
  execute_unlocked, replay_execution, digest_of, execute,
}
use influxdb_desk.Operations.Created.{Added, execute_in_tx-Added}
use influxdb_desk.Operations.Honest.Updates.{with_immediate-ok}
use influxdb_desk.Operations.Ended.{EndedTask, Ended}
use influxdb_desk.Tasks.Words.{query_kind, operation_kind, export_kind, queued}
use influxdb_desk.Tasks.{Change}
use influxdb_desk.Tasks.Repository.{with_seq}
use influxdb_desk.Tasks.Apply.{changed}
use influxdb_desk.Tasks.Recover.{recovery_by, recovery, recover_core}
use influxdb_desk.Tasks.Survives.{recover_core-Holds}
use influxdb_desk.Operations.Service.{recovered_world, restart}
use influxdb_desk.Operations.Preview.{Grammar, PreviewEnv, PreviewRequest, preview}
use influxdb_desk.Operations.Previewed.{preview_tokens}
use influxdb_desk.Operations.Honest.Restarting.{plain_recovery, query_differs}
use influxdb_desk.Operations.Ended.Steps.{if-Kept}

missing : {m : Meta} (o : Option Meta) → o ≡ none → o ≡ some m → ⊥
missing none h e = absurd (differ e)
  where
    differ : {m : Meta} → ◌≡◌ {A = Option Meta} none (some m) → ⊥
    differ k = cc
missing (some x) h e = absurd (differ h)
  where
    differ : ◌≡◌ {A = Option Meta} (some x) none → ⊥
    differ k = cc

Added-EndedTask :
    (id state at : Bytes) (a b : Tables)
    → Added at a b
    → EndedTask id state a
    → EndedTask id state b
Added-EndedTask id state at a b added h = elim (Bool-cases (bytes_eq id at)) [
  | inl same ↦ absurd (
      missing (find_row (has_id at) a.tasks) added.1 (
        ap (λ i. find_row (has_id i) a.tasks) (sym (bytes_eq→≡ id at same))
        ∙ get-found id a h.0 h.1))
  | inr other ↦ (h.0, added.5 id other ∙ h.1, h.2, h.3, h.4)
]

module _ (id state : Bytes) (n : ℕ) where
  abbrev Same : World → Type 0
  Same w = Ended id state n w

  module _ (i : Identity) (env : ExecuteEnv) (scope digest : Bytes) (request : ExecuteRequest) where
    start_dispatch-Ended :
        (r : TokenRecord) (w : World) (result : Result Error (Db × Operation))
        → ((out : Db × Operation)
            → result ≡ ok out
            → execute_in_tx i env scope digest r w.db ≡ ok out)
        → Same w
        → Same (start_dispatch env r w result).0
    start_dispatch-Ended r w (err e) stored h = h
    start_dispatch-Ended r w (ok (db, o)) stored h =
        elim (execute_in_tx-Added i env scope digest r w.db (db, o) (stored (db, o) refl)) [
          | inl same ↦ (subst (λ d. EndedTask id state d.core) same h.0, h.1)
          | inr added ↦ (Added-EndedTask id state env.operation_id w.db.core db.core added h.0, h.1)
        ]

    execute_record-Ended :
        (w : World) (o : Option TokenRecord)
        → Same w
        → Same (execute_record i env scope digest request w o).0
    execute_record-Ended w none h = h
    execute_record-Ended w (some r) h =
        if-Kept id state n (r.confirmation_required && not (bytes_eq request.confirmation r.target))
          _ _ h
          (if-Kept id state n (leb r.expires env.check_time) _ _ h (
            start_dispatch-Ended r w
              (with_immediate env.database_up (execute_in_tx i env scope digest r w.db))
              (λ out e. with_immediate-ok env.database_up _ e) h))

    execute_locked-Ended :
        (w : World) (found : Result Error (Option Operation))
        → Same w
        → Same (execute_locked i env scope digest request w found).0
    execute_locked-Ended w (err e) h = h
    execute_locked-Ended w (ok (some o)) h = h
    execute_locked-Ended w (ok none) h = execute_record-Ended (purged env.purge_time w) _ h

    execute_unlocked-Ended :
        (w : World) (found : Result Error (Option Operation))
        → Same w
        → Same (execute_unlocked i env scope digest request w found).0
    execute_unlocked-Ended w (err e) h = h
    execute_unlocked-Ended w (ok (some o)) h = h
    execute_unlocked-Ended w (ok none) h =
        execute_locked-Ended w (replay_execution scope digest env.before_transaction) h

  pub execute-Ended :
      (uuid_valid : Bytes → Bool) (sha256_hex : Bytes → Bytes) (i : Identity) (env : ExecuteEnv)
      (request : ExecuteRequest) (w : World)
      → Same w
      → Same (execute uuid_valid sha256_hex i env request w).0
  unfolding execute
  execute-Ended uuid_valid sha256_hex i env request w h =
      let digest = digest_of uuid_valid sha256_hex request in
      let scope = execute_scope i.profile_id request.client_request_id in
      if-Kept id state n
        (not (uuid_valid request.client_request_id) || is_empty request.preview_token) _ _ h
        (execute_unlocked-Ended i env scope digest request w
          (replay_execution scope digest env.before_lock) h)

  pub preview-Ended :
      (sha256_hex : Bytes → Bytes) (g : Grammar) (i : Identity) (ttl : ℕ) (env : PreviewEnv)
      (request : PreviewRequest) (w : World)
      → Same w
      → Same (preview sha256_hex g i ttl env request w).0
  preview-Ended sha256_hex g i ttl env request w h =
      subst Same (preview_tokens sha256_hex g request w i ttl env).1 h

  -- A state that `RecoverCore` leaves alone.
  module _ (waits : bytes_eq state queued ≡ false)
      (sending : bytes_eq state dispatching ≡ false) where
    abbrev Rests : Meta → Type 0
    Rests m = (m.terminal ≡ true) × (m.state ≡ state) × (m.kind ≡ operation_kind)

    never_recovered :
        (e d : Bool) (c : Change) {P : Type 0}
        → d ≡ false
        → recovery_by false true e false d ≡ some c
        → P
    never_recovered e true c off h = absurd (differ off)
      where
        differ : true ≡ false → ⊥
        differ k = cc
    never_recovered e false c off h = absurd (differ h)
      where
        differ : ◌≡◌ {A = Option Change} none (some c) → ⊥
        differ k = cc

    recovery-Rests :
        (m : Meta) (c : Change) (snapshot revision seq now : Bytes)
        → Rests m
        → recovery m ≡ some c
        → Rests (with_seq seq (changed m c snapshot revision now))
    unfolding recovery
    recovery-Rests m c snapshot revision seq now (over, s, kind) h =
        let plain : recovery_by false true (bytes_eq m.kind export_kind) false
              (bytes_eq m.state dispatching)
            ≡ some c =
          plain_recovery _ _ _ _ _ c (ap (λ k. bytes_eq k query_kind) kind ∙ query_differs)
            (ap (λ k. bytes_eq k operation_kind) kind ∙ bytes_eq_refl operation_kind)
            (ap (λ x. bytes_eq x queued) s ∙ waits) h in
        never_recovered (bytes_eq m.kind export_kind) (bytes_eq m.state dispatching) c
          (ap (λ x. bytes_eq x dispatching) s ∙ sending) plain

    recovered-Ended :
        (clock : ℕ → Bytes) (w : World) (result : Result Tasks.Error (Tables × ℕ))
        → recover_core clock w.db.core ≡ result
        → Same w
        → Same (recovered_world w result)
    recovered-Ended clock w (err e) done h = h
    recovered-Ended clock w (ok out) done ((m, found, over, s, kind), sent) =
        let (x, here, kept) =
          recover_core-Holds Rests recovery-Rests clock w.db.core out id m found (over, s, kind)
            done in
        ((x, here, kept.0, kept.1, kept.2), sent)

    pub restart-Ended : (clock : ℕ → Bytes) (w : World) → Same w → Same (restart clock w)
    unfolding restart
    restart-Ended clock w h = recovered-Ended clock w (recover_core clock w.db.core) refl h
