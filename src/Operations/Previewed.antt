-- ===== src/Operations/Previewed.antt =====
-- internal/operation/service.go: `Preview` changes the tokens and nothing else.
use influxdb_desk.Base.{
  take, ℕ, ◌+◌, ◌≡◌, refl, Bool, true, false, not, Option, none, some, List, ltb, if◌then◌else◌,
  Result, ok, err,
}
use influxdb_desk.Decimal.{Bytes, bytes_eq}
use influxdb_desk.Protection
use influxdb_desk.Protection.Dispatch.{DispatchBinding}
use influxdb_desk.Policy.{Statement, classify_query}
use influxdb_desk.Operations.{Error, TokenRecord, Identity, World}
use influxdb_desk.Operations.Preview.{
  Grammar, PreviewEnv, PreviewRequest, Shown, allocate_token, bounded_ttl, shown_of, only_mutation,
  allocated, with_purged, issue, granted, preview_statement, preview_parsed, preview, min, Outcome,
}

-- The world is as before but for its tokens.
abbrev pub TokensOnly : World → World → Type 0
TokensOnly w v = (tokens : List TokenRecord) × (record w { tokens = tokens } ≡ v)

module _ (sha256_hex : Bytes → Bytes) (g : Grammar) (request : PreviewRequest) (w : World) where
  kept : TokensOnly w w
  kept = (w.tokens, refl)

  if-TokensOnly :
      (b : Bool) (x y : Outcome sha256_hex g)
      → TokensOnly w x.0
      → TokensOnly w y.0
      → TokensOnly w (if b then x else y).0
  if-TokensOnly true x y hx hy = hx
  if-TokensOnly false x y hx hy = hy

  module _ (env : PreviewEnv) (shown : Shown) (b : DispatchBinding) where
    allocated_tokens :
        (expires : ℕ) (tokens : List TokenRecord) (found : Result Error Bytes)
        → TokensOnly w
            (allocated sha256_hex g env request shown b expires
              (record w { tokens = tokens })
              found).0
    allocated_tokens expires tokens (err e) = (tokens, refl)
    allocated_tokens expires tokens (ok token) =
        if-TokensOnly (not (ltb env.store_time expires)) _ _ (tokens, refl) (_, refl)

    issue_tokens :
        (ttl : ℕ) (lease : Option ℕ)
        → TokensOnly w (issue sha256_hex g ttl env request shown b lease w).0
    issue_tokens ttl none = kept
    issue_tokens ttl (some lease) =
        let expires = min lease (env.request_time + bounded_ttl ttl) in
        let live = with_purged sha256_hex g env.purge_time w in
        if-TokensOnly (not (ltb env.check_time expires)) _ _ kept (
          allocated_tokens expires live.tokens (allocate_token (take 4 env.candidates) live.tokens))

  granted_tokens :
      (i : Identity) (ttl : ℕ) (env : PreviewEnv) (shown : Shown)
      (answer : Result Protection.Error (DispatchBinding × Option ℕ))
      → TokensOnly w (granted sha256_hex g i ttl env request shown w answer).0
  granted_tokens i ttl env shown (err Protection.not_found) = kept
  granted_tokens i ttl env shown (err Protection.connection_closed) = kept
  granted_tokens i ttl env shown (err Protection.generation_conflict) = kept
  granted_tokens i ttl env shown (err Protection.revision_conflict) = kept
  granted_tokens i ttl env shown (err Protection.command_conflict) = kept
  granted_tokens i ttl env shown (err Protection.lock_pending) = kept
  granted_tokens i ttl env shown (err Protection.locked) = kept
  granted_tokens i ttl env shown (err Protection.lease_expired) = kept
  granted_tokens i ttl env shown (err Protection.binding_mismatch) = kept
  granted_tokens i ttl env shown (err Protection.store_failed) = kept
  granted_tokens i ttl env shown (err Protection.invalid_request) = kept
  granted_tokens i ttl env shown (ok (b, lease)) =
      if-TokensOnly (bytes_eq b.profile_revision i.profile_revision) _ _
        (issue_tokens env shown b ttl lease) kept

  pub preview_tokens :
      (i : Identity) (ttl : ℕ) (env : PreviewEnv)
      → TokensOnly w (preview sha256_hex g i ttl env request w).0
  unfolding preview
  preview_tokens i ttl env = parsed (g.parse request.query)
    where
      stated :
          (canonical : Bytes) (o : Option Statement)
          → TokensOnly w (preview_statement sha256_hex g i ttl env request canonical w o).0
      stated canonical none = kept
      stated canonical (some s) =
          granted_tokens i ttl env (shown_of sha256_hex g s canonical) env.grant

      parsed :
          (o : Option (List Statement))
          → TokensOnly w (preview_parsed sha256_hex g i ttl env request w o).0
      parsed none = kept
      parsed (some l) =
          stated (classify_query g.printer l).canonical
            (only_mutation sha256_hex g (classify_query g.printer l).classification l)
