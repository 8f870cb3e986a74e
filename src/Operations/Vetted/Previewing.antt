-- ===== src/Operations/Vetted/Previewing.antt =====
-- `Preview` keeps it too: a token is given for one mutation.
use influxdb_desk.Base.{
  take, ℕ, ◌+◌, ◌≡◌, refl, sym, ap, ◌∙◌, not, Option, none, some, List, [], ◌∷◌, leb, ltb, Result,
  ok, err,
}
use influxdb_desk.Base.Table.{All-delete_rows}
use influxdb_desk.Decimal.{Bytes, bytes_eq}
use influxdb_desk.Protection
use influxdb_desk.Protection.Dispatch.{DispatchBinding}
use influxdb_desk.Policy.{
  Classification, read_only, may_mutate, unsupported, Statement, classify_statement, classify_query,
}
use influxdb_desk.Policy.Batches.{classify_query-may_mutate, classify_query-canonical}
use influxdb_desk.Operations.{Error, Identity, World}
use influxdb_desk.Operations.Service.{purge_expired}
use influxdb_desk.Operations.Preview.{
  Grammar, PreviewEnv, PreviewRequest, Shown, allocate_token, bounded_ttl, shown_of, only_mutation,
  stored, allocated, with_purged, issue_until, issue, refused, granted, preview_statement,
  preview_parsed, preview, min,
}
use influxdb_desk.Operations.Vetted.{GoodRecord, Vetted}
use influxdb_desk.Operations.Vetted.Steps.{if-Vetted}

first_same : (a b : Statement) → ◌≡◌ {A = List Statement} (a ∷ []) (b ∷ []) → a ≡ b
first_same a b k = cc

module _ (g : Grammar) where
  module _ (sha256_hex : Bytes → Bytes) (s : Statement) (canonical : Bytes)
      (prints : canonical ≡ g.printer.query (s ∷ []))
      (mutates : classify_statement s ≡ may_mutate) where
    stored-Vetted :
        (request : PreviewRequest) (b : DispatchBinding) (expires : ℕ) (w : World)
        (result : Result Error Bytes)
        → Vetted g w
        → Vetted g
            (stored sha256_hex g request (shown_of sha256_hex g s canonical) b expires w result).0
    stored-Vetted request b expires w (err e) h = h
    stored-Vetted request b expires w (ok token) h = (((s, prints, mutates, refl), h.0), h.1, h.2)

    allocated-Vetted :
        (env : PreviewEnv) (request : PreviewRequest) (b : DispatchBinding) (expires : ℕ)
        (w : World) (found : Result Error Bytes)
        → Vetted g w
        → Vetted g
            (allocated sha256_hex g env request
              (shown_of sha256_hex g s canonical)
              b
              expires
              w
              found).0
    allocated-Vetted env request b expires w (err e) h = h
    allocated-Vetted env request b expires w (ok token) h =
        if-Vetted g (not (ltb env.store_time expires)) _ _ h
          (stored-Vetted request b expires w (ok token) h)

    issue_until-Vetted :
        (env : PreviewEnv) (request : PreviewRequest) (b : DispatchBinding) (expires : ℕ)
        (w : World)
        → Vetted g w
        → Vetted g
            (issue_until sha256_hex g env request (shown_of sha256_hex g s canonical) b expires w).0
    unfolding purge_expired
    issue_until-Vetted env request b expires w h =
        if-Vetted g (not (ltb env.check_time expires)) _ _ h (
          allocated-Vetted env request b expires (with_purged sha256_hex g env.purge_time w)
            (allocate_token (take 4 env.candidates) (purge_expired env.purge_time w.tokens)) live)
      where
        live : Vetted g (with_purged sha256_hex g env.purge_time w)
        live = (
          All-delete_rows (GoodRecord g) (λ r. leb r.expires env.purge_time) w.tokens h.0,
          h.1,
          h.2,
        )

    issue-Vetted :
        (ttl : ℕ) (env : PreviewEnv) (request : PreviewRequest) (b : DispatchBinding)
        (lease : Option ℕ) (w : World)
        → Vetted g w
        → Vetted g
            (issue sha256_hex g ttl env request (shown_of sha256_hex g s canonical) b lease w).0
    issue-Vetted ttl env request b none w h = h
    issue-Vetted ttl env request b (some lease) w h =
        issue_until-Vetted env request b (min lease (env.request_time + bounded_ttl ttl)) w h

    refused-Vetted :
        (e : Protection.Error) (shown : Shown) (w : World)
        → Vetted g w
        → Vetted g (refused sha256_hex g e shown w).0
    refused-Vetted Protection.not_found shown w h = h
    refused-Vetted Protection.connection_closed shown w h = h
    refused-Vetted Protection.generation_conflict shown w h = h
    refused-Vetted Protection.revision_conflict shown w h = h
    refused-Vetted Protection.command_conflict shown w h = h
    refused-Vetted Protection.lock_pending shown w h = h
    refused-Vetted Protection.locked shown w h = h
    refused-Vetted Protection.lease_expired shown w h = h
    refused-Vetted Protection.binding_mismatch shown w h = h
    refused-Vetted Protection.store_failed shown w h = h
    refused-Vetted Protection.invalid_request shown w h = h

    granted-Vetted :
        (i : Identity) (ttl : ℕ) (env : PreviewEnv) (request : PreviewRequest) (w : World)
        (answer : Result Protection.Error (DispatchBinding × Option ℕ))
        → Vetted g w
        → Vetted g
            (granted sha256_hex g i ttl env request (shown_of sha256_hex g s canonical) w answer).0
    granted-Vetted i ttl env request w (err e) h =
        refused-Vetted e (shown_of sha256_hex g s canonical) w h
    granted-Vetted i ttl env request w (ok (b, lease)) h =
        if-Vetted g (bytes_eq b.profile_revision i.profile_revision) _ _
          (issue-Vetted ttl env request b lease w h) h

  only_mutation-some :
      (sha256_hex : Bytes → Bytes) (c : Classification) (l : List Statement) (s : Statement)
      → only_mutation sha256_hex g c l ≡ some s
      → (c ≡ may_mutate) × (l ≡ s ∷ [])
  only_mutation-some sha256_hex may_mutate (x ∷ []) s h = (refl, one x s h)
    where
      one : (a b : Statement) → ◌≡◌ {A = Option Statement} (some a) (some b) → a ∷ [] ≡ b ∷ []
      one a b k = cc
  only_mutation-some sha256_hex may_mutate [] s h = cc
  only_mutation-some sha256_hex may_mutate (x ∷ y ∷ l) s h = cc
  only_mutation-some sha256_hex read_only l s h = cc
  only_mutation-some sha256_hex unsupported l s h = cc

  preview_parsed-Vetted :
      (sha256_hex : Bytes → Bytes) (i : Identity) (ttl : ℕ) (env : PreviewEnv)
      (request : PreviewRequest) (w : World) (parsed : Option (List Statement))
      → Vetted g w
      → Vetted g (preview_parsed sha256_hex g i ttl env request w parsed).0
  preview_parsed-Vetted sha256_hex i ttl env request w none h = h
  preview_parsed-Vetted sha256_hex i ttl env request w (some l) h =
      chosen (only_mutation sha256_hex g (classify_query g.printer l).classification l) (λ s e. e)
    where
      chosen :
          (o : Option Statement)
          → ((s : Statement)
              → o ≡ some s
              → only_mutation sha256_hex g (classify_query g.printer l).classification l ≡ some s)
          → Vetted g
              (preview_statement sha256_hex g i ttl env request
                (classify_query g.printer l).canonical
                w
                o).0
      chosen none is = h
      chosen (some s) is =
          let (class, single) =
            only_mutation-some sha256_hex (classify_query g.printer l).classification l s
              (is s refl) in
          let (x, same, mutates) = (classify_query-may_mutate g.printer l).0 class in
          granted-Vetted sha256_hex s (classify_query g.printer l).canonical
            (classify_query-canonical g.printer l class ∙ ap g.printer.query single)
            (ap classify_statement (first_same s x (sym single ∙ same)) ∙ mutates) i ttl env request
            w env.grant h

  pub preview-Vetted :
      (sha256_hex : Bytes → Bytes) (i : Identity) (ttl : ℕ) (env : PreviewEnv)
      (request : PreviewRequest) (w : World)
      → Vetted g w
      → Vetted g (preview sha256_hex g i ttl env request w).0
  unfolding preview
  preview-Vetted sha256_hex i ttl env request w h =
      preview_parsed-Vetted sha256_hex i ttl env request w (g.parse request.query) h
