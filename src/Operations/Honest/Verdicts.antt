-- ===== src/Operations/Honest/Verdicts.antt =====
-- internal/operation/service.go: what a response is taken for is a state in which the mutation may
-- have been sent.
use influxdb_desk.Base.{
  ◌≡◌, refl, Bool, true, false, ◌||◌, Option, none, some, [], ◌∷◌, ltb, leb, length, if◌then◌else◌,
  is_empty,
}
use influxdb_desk.Decimal.{Bytes, bytes_eq}
use influxdb_desk.Operations.Dispatch.{
  Response, Envelope, Verdict, response_verdict, not_sent_verdict, classify_mutation_response,
  body_verdict, envelope_verdict, any_error, max_response_bytes, unknown_verdict, rejected_verdict,
  succeeded_verdict,
}
use influxdb_desk.Operations.Honest.{maybe_sent}

-- A verdict on a response is a state in which the mutation may have been sent.
abbrev pub Known : Verdict → Type 0
Known v = maybe_sent v.state ≡ true

unknown-Known : Known unknown_verdict
unfolding maybe_sent bytes_eq
unknown-Known = refl

rejected-Known : Known rejected_verdict
unfolding maybe_sent bytes_eq
rejected-Known = refl

if-Known : (b : Bool) (u v : Verdict) → Known u → Known v → Known (if b then u else v)
if-Known true u v hu hv = hu
if-Known false u v hu hv = hv

succeeded-Known : Known succeeded_verdict
unfolding maybe_sent bytes_eq
succeeded-Known = refl

envelope_verdict-Known : (e : Option Envelope) → Known (envelope_verdict e)
envelope_verdict-Known none = unknown-Known
envelope_verdict-Known (some e) =
    if-Known (is_empty e.results) _ _ unknown-Known
      (if-Known (e.error || any_error e.results) _ _ rejected-Known succeeded-Known)

body_verdict-Known :
    (decode : Bytes → Option Envelope) (b : Option Bytes) → Known (body_verdict decode b)
body_verdict-Known decode none = unknown-Known
body_verdict-Known decode (some body) =
    if-Known (ltb max_response_bytes (length body)) _ _ unknown-Known
      (envelope_verdict-Known (decode body))

pub response_verdict-Known :
    (decode : Bytes → Option Envelope) (r : Option Response) → Known (response_verdict decode r)
unfolding classify_mutation_response
response_verdict-Known decode none = unknown-Known
response_verdict-Known decode (some r) =
    if-Known (ltb r.status 200 || leb 300 r.status) _ _
      (if-Known (leb 500 r.status) _ _ unknown-Known rejected-Known)
      (body_verdict-Known decode r.body)

pub maybe_sent-named : (state : Bytes) → maybe_sent state ≡ true → is_empty state ≡ false
unfolding maybe_sent bytes_eq
maybe_sent-named [] h = cc
maybe_sent-named (c ∷ s) h = refl

pub not_sent-named : (p : Bool) → is_empty (not_sent_verdict p).state ≡ false
not_sent-named true = refl
not_sent-named false = refl
