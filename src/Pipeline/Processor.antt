-- ===== src/Pipeline/Processor.antt =====
-- pipeline/ticket.processor.ts, pipeline/enricher.port.ts and tickets/tickets.service.ts: a job's run.
-- The enricher is the port's, a parameter. The status that the run read before it enriched is an
-- argument of the write, so that other runs may have written between the two.
pub mod Upgrade
use triage_engine.Prelude.{
  ℕ, ◌+◌, Text, text_eq, codes, Bool, not, ◌&&◌, ◌||◌, List, ◌∷◌, Option, none, some, or_else, ltb,
  if◌then◌else◌, find_row, count_rows, update_rows,
}
use triage_engine.Config.{EnvVars}
use triage_engine.Backoff.{Random, backoff_with_jitter}
use triage_engine.Json.{Decimal, Json, null, str, obj, end, field}
use triage_engine.Entities.{
  category_name, priority_name, ticket_has_id, TicketEntity, TicketCategory, TicketPriority,
  EnrichmentStatus, pending, enriched, degraded, failed, EnrichmentSource, billing, technical,
  account, feature_request, complaint, other, low, medium, high, urgent, ai, fallback, is_enriched,
  is_degraded, PipelineJobData, Db, OutboxMessageEntity, events_processed,
}
use triage_engine.Queue.{QueueOps}
use triage_engine.Outbox.{EmitInput, emit}
use triage_engine.Pipeline.{World, Outcome, ok, not_found, threw, run_in_transaction}
use triage_engine.Pipeline.Producer.{enqueue_upgrade}

pub record EnrichmentOutcome : Type 0 where
  pub status : EnrichmentStatus
  pub source : EnrichmentSource
  pub category : TicketCategory
  pub priority : TicketPriority
  pub summary : Text
  pub confidence : Decimal

abbrev pub source_name : EnrichmentSource → Text
source_name ai = codes "AI"
source_name fallback = codes "FALLBACK"

abbrev pub side_effect_triaged : Text
side_effect_triaged = codes "ticket.triaged"

abbrev pub side_effect_upgraded : Text
side_effect_upgraded = codes "ticket.enrichment_upgraded"

abbrev pub text_or_null : Option Text → Json
text_or_null none = null
text_or_null (some s) = str s

abbrev pub payload_of :
    (ticket_id : Text) → EnrichmentOutcome → (correlation_id : Option Text) → Json
payload_of ticket_id outcome correlation_id = obj (
    field (codes "ticketId") (str ticket_id) (
      field (codes "category") (str (category_name outcome.category)) (
        field (codes "priority") (str (priority_name outcome.priority)) (
          field (codes "summary") (str outcome.summary) (
            field (codes "source") (str (source_name outcome.source))
              (field (codes "correlationId") (text_or_null correlation_id) end))))))

abbrev pub side_effect :
    (event_type ticket_id : Text) → EnrichmentOutcome → PipelineJobData → EmitInput
side_effect event_type ticket_id outcome job = record {
  aggregate_type = codes "ticket";
  aggregate_id = ticket_id;
  event_type = event_type;
  version = codes "v1";
  payload = payload_of ticket_id outcome job.correlation_id;
}

-- WHERE id = :id, and for an outcome that is not ENRICHED: AND enrichment_status <> 'ENRICHED'.
abbrev pub is_writable : (ticket_id : Text) → EnrichmentStatus → TicketEntity → Bool
is_writable ticket_id status t =
    text_eq t.id ticket_id && (is_enriched status || not (is_enriched t.enrichment_status))

abbrev pub write_outcome : (now : ℕ) → EnrichmentOutcome → TicketEntity → TicketEntity
write_outcome now outcome t = record t {
  enrichment_status = outcome.status;
  enrichment_source = some outcome.source;
  category = some outcome.category;
  priority = some outcome.priority;
  summary = some outcome.summary;
  confidence = some outcome.confidence;
  enriched_at = some now;
  enrichment_attempts = t.enrichment_attempts + 1;
  updated_at = now;
}

-- The effect that the transition from the status that was read calls for, if any.
unfoldable pub effect_of :
    (prior : EnrichmentStatus) (ticket_id : Text)
    → EnrichmentOutcome
    → PipelineJobData
    → Option EmitInput
effect_of pending ticket_id outcome job =
    some (side_effect side_effect_triaged ticket_id outcome job)
effect_of degraded ticket_id outcome job =
    if is_enriched outcome.status
    then some (side_effect side_effect_upgraded ticket_id outcome job)
    else none
effect_of enriched ticket_id outcome job = none
effect_of failed ticket_id outcome job = none

unfoldable pub emit_effect :
    (message_id : Text) (now : ℕ)
    → Option EmitInput
    → List OutboxMessageEntity
    → Option (List OutboxMessageEntity)
emit_effect message_id now none rows = some rows
emit_effect message_id now (some input) rows = elim (emit message_id now input rows) [
  | none ↦ none
  | some (key, rows') ↦ some rows'
]

-- The work of the transaction; `none` rolls it back.
unfoldable pub persist_and_emit :
    (message_id : Text) (now : ℕ) (ticket_id : Text) (prior : EnrichmentStatus)
    → EnrichmentOutcome
    → PipelineJobData
    → Db
    → Option (Unit {0} × Db)
unfolding effect_of emit_effect
persist_and_emit message_id now ticket_id prior outcome job db =
    if ltb 0 (count_rows (is_writable ticket_id outcome.status) db.tickets)
    then elim (emit_effect message_id now (effect_of prior ticket_id outcome job)
        db.outbox_messages) [
          | none ↦ none
          | some rows ↦ some (
            tt,
            record db {
              tickets =
                  update_rows (is_writable ticket_id outcome.status) (write_outcome now outcome)
                    db.tickets;
              outbox_messages = rows;
            },
          )
        ]
    else some (tt, db)

-- What a run draws: the outbox row's id, the clock at its transaction, and its jitter.
pub record JobDraws : Type 0 where
  pub message_id : Text
  pub now : ℕ
  pub random : Random

module _ {R : Type 0} (q : QueueOps R) (env : EnvVars)
    (enrich : TicketEntity → Option EnrichmentOutcome) where
  abbrev pub next_attempt : PipelineJobData → ℕ
  next_attempt job = or_else job.upgrade_attempt 0 + 1

  -- `none` is the rejection of the enqueue.
  unfoldable pub schedule_upgrade : PipelineJobData → Random → R → Option (Unit {0}) × R
  schedule_upgrade job random redis =
      let attempt = next_attempt job in
      if ltb env.enrichment_upgrade_max_attempts attempt
      then (some tt, redis)
      else let added =
          enqueue_upgrade q env (record job { upgrade_attempt = some attempt })
            (backoff_with_jitter attempt env.enrichment_upgrade_backoff_ms none random) redis in
        (elim added.0 [ none ↦ none | some id ↦ some tt ], added.1)

  -- After the commit: the upgrade of a degraded outcome, then the counter.
  unfoldable pub finish_job :
      EnrichmentOutcome → PipelineJobData → Random → World R → Outcome (Unit {0}) × World R
  unfolding schedule_upgrade
  finish_job outcome job random w =
      let scheduled =
        (if is_degraded outcome.status
          then schedule_upgrade job random w.redis
          else (some tt, w.redis)) in
      elim scheduled.0 [
        | none ↦ (threw, record w { redis = scheduled.1 })
        | some _ ↦ (ok tt, record w { redis = scheduled.1; metrics = events_processed ∷ w.metrics })
      ]

  unfoldable pub finish_transaction :
      EnrichmentOutcome
      → PipelineJobData
      → Random
      → Option (Unit {0}) × Db
      → World R
      → Outcome (Unit {0}) × World R
  unfolding finish_job
  finish_transaction outcome job random (none, db) w = (threw, record w { db = db })
  finish_transaction outcome job random (some _, db) w =
      finish_job outcome job random (record w { db = db })

  -- A run in which nothing else writes between its load and its transaction.
  unfoldable pub process : JobDraws → PipelineJobData → World R → Outcome (Unit {0}) × World R
  unfolding persist_and_emit finish_transaction
  process draws job w = elim (find_row (ticket_has_id job.ticket_id) w.db.tickets) [
    | none ↦ (not_found, w)
    | some ticket ↦ elim (enrich ticket) [
      | none ↦ (threw, w)
      | some outcome ↦
          finish_transaction outcome job draws.random
            (run_in_transaction
              (persist_and_emit draws.message_id draws.now ticket.id ticket.enrichment_status
                outcome job)
              w.db)
            w
    ]
  ]
