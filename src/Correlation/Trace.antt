-- ===== src/Correlation/Trace.antt =====
-- One id from the request through the queue and the outbox to the webhook.
use triage_engine.Prelude.{
  ℕ, Text, codes, Option, none, some, or_else, ◌≡◌, refl, arith, text_eq, subst, Bool-cases, inl,
  inr,
}
use triage_engine.Config.{EnvVars}
use triage_engine.Json.{Json, str, obj, end, field, get_field}
use triage_engine.Entities.{
  EnrichmentStatus, pending, enriched, degraded, failed, PipelineJobData, is_enriched,
}
use triage_engine.Outbox.{EmitInput, build_dedup_key, new_message}
use triage_engine.Outbox.Relay.{message_of}
use triage_engine.Outbox.Webhook.{
  HttpRequest, Fetched, conclude, correlation_of, text_of, http_request, dispatch,
  dispatch_in_scope,
}
use triage_engine.Pipeline.Processor.{
  EnrichmentOutcome, effect_of, side_effect, side_effect_triaged, side_effect_upgraded,
  text_or_null,
}

-- A field of an object.
unfoldable pub get_field_of : (name : Text) → Json → Option Json
unfolding get_field
get_field_of name (obj fields) = get_field name fields
get_field_of name _ = none

text_of-text_or_null : (o : Option Text) → text_of (some (text_or_null o)) ≡ o
text_of-text_or_null none = refl
text_of-text_or_null (some text) = refl

correlation_of-side_effect :
    (event_type ticket_id : Text) (outcome : EnrichmentOutcome) (job : PipelineJobData)
    → correlation_of (side_effect event_type ticket_id outcome job).payload ≡ job.correlation_id
unfolding correlation_of get_field text_eq
correlation_of-side_effect event_type ticket_id outcome job =
    text_of-text_or_null job.correlation_id

-- The effect that a run emits carries its job's id.
effect_of-correlation :
    (prior : EnrichmentStatus) (ticket_id : Text) (outcome : EnrichmentOutcome)
    (job : PipelineJobData) (input : EmitInput)
    → effect_of prior ticket_id outcome job ≡ some input
    → correlation_of input.payload ≡ job.correlation_id
unfolding effect_of
effect_of-correlation pending ticket_id outcome job input e =
    let same : side_effect side_effect_triaged ticket_id outcome job ≡ input = ground (arith, e) in
    subst (λ i. correlation_of i.payload ≡ job.correlation_id) same
      (correlation_of-side_effect side_effect_triaged ticket_id outcome job)
effect_of-correlation degraded ticket_id outcome job input e =
    elim (Bool-cases (is_enriched outcome.status)) [
      | inr still ↦ absurd (ground (arith, e, still))
      | inl upgraded ↦
          let same : side_effect side_effect_upgraded ticket_id outcome job ≡ input =
            ground (arith, e, upgraded) in
          subst (λ i. correlation_of i.payload ≡ job.correlation_id) same
            (correlation_of-side_effect side_effect_upgraded ticket_id outcome job)
    ]
effect_of-correlation enriched ticket_id outcome job input e = absurd (ground (arith, e))
effect_of-correlation failed ticket_id outcome job input e = absurd (ground (arith, e))

-- The request is a POST of the effect, as JSON, to the target: under the effect's dedup key, with the
-- correlation id, and aborted after five seconds.
pub record Posts (stringify : Json → Text) (env : EnvVars) (input : EmitInput)
    (correlation_id : Text) (request : HttpRequest) : Type 0 where
  pub method : request.method ≡ codes "POST"
  pub url : request.url ≡ env.webhook_target_url
  pub content_type : request.content_type ≡ codes "application/json"
  pub idempotency_key : request.idempotency_key ≡ build_dedup_key input
  pub traced : request.correlation_id ≡ correlation_id
  pub timeout_ms : request.timeout_ms ≡ 5000
  pub content : Json
  pub body : request.body ≡ stringify content
  pub event_type : get_field_of (codes "eventType") content ≡ some (str input.event_type)
  pub aggregate_type :
      get_field_of (codes "aggregateType") content ≡ some (str input.aggregate_type)
  pub aggregate_id : get_field_of (codes "aggregateId") content ≡ some (str input.aggregate_id)
  pub payload : get_field_of (codes "payload") content ≡ some input.payload

http_request-Posts :
    {S : Type 0} (fetch : HttpRequest → S → Fetched × S) (stringify : Json → Text) (env : EnvVars)
    (message_id : Text) (now : ℕ) (input : EmitInput) (correlation_id : Text)
    → Posts stringify env input correlation_id (
        http_request fetch stringify env
          (some correlation_id)
          (message_of (new_message message_id now input)))
unfolding get_field_of get_field text_eq
http_request-Posts fetch stringify env message_id now input correlation_id = record {
  method = refl;
  url = refl;
  content_type = refl;
  idempotency_key = refl;
  traced = refl;
  timeout_ms = refl;
  content = obj (
      field (codes "eventType") (str input.event_type) (
        field (codes "aggregateType") (str input.aggregate_type) (
          field (codes "aggregateId") (str input.aggregate_id)
            (field (codes "payload") input.payload end))));
  body = refl;
  event_type = refl;
  aggregate_type = refl;
  aggregate_id = refl;
  payload = refl;
}

-- The effect of a job, dispatched from the row that was emitted, is one request, by whose response the
-- dispatch is concluded: a POST of the effect to the target, under the effect's dedup key, with the
-- correlation id of the job's request, or a fresh one where the job has none.
pub dispatch-effect_of :
    {S : Type 0} (fetch : HttpRequest → S → Fetched × S) (stringify : Json → Text) (env : EnvVars)
    (fresh message_id : Text) (now : ℕ) (prior : EnrichmentStatus) (ticket_id : Text)
    (outcome : EnrichmentOutcome) (job : PipelineJobData) (input : EmitInput) (s : S)
    → effect_of prior ticket_id outcome job ≡ some input
    → (request : HttpRequest) × (dispatch_in_scope fetch stringify env fresh
          (message_of (new_message message_id now input))
          s
        ≡ (conclude (fetch request s).0, (fetch request s).1))
      × Posts stringify env input (or_else job.correlation_id fresh) request
unfolding dispatch_in_scope dispatch
dispatch-effect_of fetch stringify env fresh message_id now prior ticket_id outcome job input s e =
    let kept = effect_of-correlation prior ticket_id outcome job input e in
    let request =
      http_request fetch stringify env (some (or_else (correlation_of input.payload) fresh))
        (message_of (new_message message_id now input)) in
    (
      request,
      refl,
      subst (λ o. Posts stringify env input (or_else o fresh) request) kept
          (http_request-Posts fetch stringify env message_id now input
            (or_else (correlation_of input.payload) fresh)),
    )
