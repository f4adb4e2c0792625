-- ===== src/Events.antt =====
-- events/events.service.ts: ingestion. One request, with no other between its statements; the
-- interleavings of claims are in Idempotency/Race, those of whole transactions in History.
-- The ids that gen_random_uuid() draws, the readings of the clock and how markCompleted or markFailed
-- ends come with the request; the statements of the claim are taken to answer.
pub mod Insert
pub mod Create
pub mod Answers
pub mod Ends
pub mod Redelivery
pub mod Held
pub mod Retry
use triage_engine.Prelude.{
  ℕ, Text, text_eq, codes, Bool, true, false, List, ◌∷◌, Option, none, some, or_else, or_option,
  is_some, if◌then◌else◌, find_row,
}
use triage_engine.Config.{EnvVars}
use triage_engine.Json.{Json, null, str, obj, end, field, hash_payload}
use triage_engine.Entities.{
  ticket_has_id, CreateEventDto, EventEntity, TicketEntity, EnrichmentStatus, IngestStatus,
  accepted, processing, replayed, IngestResult, IdempotencyKeyEntity, PipelineJobData, Db, Metric,
  events_ingested_accepted, events_ingested_duplicate, events_ingested_conflict,
}
use triage_engine.Idempotency.{
  ClaimResult, is_new, replay, in_flight, conflict, claim, lock_for_update, attach_ticket,
  mark_completed, mark_failed,
}
use triage_engine.Queue.{QueueOps}
use triage_engine.Pipeline.{World, Outcome, ok, bad_request, threw, run_in_transaction}
use triage_engine.Pipeline.JobId.{is_usable_as_job_id}
use triage_engine.Pipeline.Producer.{enqueue}
use triage_engine.Events.Insert.{
  Reply, answered, refused, lost, Draws, content_of, event_has_id, event_has_key, new_event,
  new_ticket, insert_event_and_ticket, reuse_ticket, create_ticket_if_absent,
}

abbrev pub accepted_response : (key ticket_id job_id : Text) → IngestResult
accepted_response key ticket_id job_id = record {
  status = accepted;
  idempotency_key = key;
  ticket_id = some ticket_id;
  job_id = some job_id;
}

abbrev pub job_of :
    (key : Text) (correlation_id : Option Text) (created : Text × Text) → PipelineJobData
job_of key correlation_id created = record {
  idempotency_key = key;
  ticket_id = created.0;
  event_id = created.1;
  correlation_id = correlation_id;
  replay_of_dead_letter_id = none;
  upgrade_attempt = none;
}

abbrev stored_ticket : Option IngestResult → Option Text
stored_ticket none = none
stored_ticket (some body) = body.ticket_id

abbrev stored_job : Option IngestResult → Option Text
stored_job none = none
stored_job (some body) = body.job_id

module _ (sha256_hex : Text → Text) (stringify : Json → Text) where
  abbrev pub request_hash_of : CreateEventDto → Text
  request_hash_of dto = hash_payload sha256_hex stringify (content_of dto)

  -- headerKey ?? dto.idempotencyKey ?? requestHash
  abbrev pub key_of : (header_key : Option Text) → CreateEventDto → Text
  key_of header_key dto = or_else header_key (or_else dto.idempotency_key (request_hash_of dto))

module _ {R : Type 0} (q : QueueOps R) (env : EnvVars) where
  -- The catch block: the key is marked FAILED, and the error thrown on, or that of markFailed.
  unfoldable pub fail_new :
      (key : Text) (now : ℕ) → Reply → World R → Outcome IngestResult × World R
  fail_new key now refused w = (threw, w)
  fail_new key now _ w = (
    threw,
    record w {
      db = record (w.db) { idempotency_keys = mark_failed key now w.db.idempotency_keys };
    },
  )

  abbrev with_completed : (key ticket_id job_id : Text) (now : ℕ) → World R → World R
  with_completed key ticket_id job_id now w = record w {
    db = record (w.db) {
      idempotency_keys =
          mark_completed key ticket_id 202 (accepted_response key ticket_id job_id) now
            w.db.idempotency_keys;
    };
  }

  -- What follows the try block: markCompleted is outside of it, so its rejection is not caught.
  unfoldable pub complete_new :
      (key ticket_id job_id : Text) (now : ℕ) → Reply → World R → Outcome IngestResult × World R
  complete_new key ticket_id job_id now answered w =
      let done = with_completed key ticket_id job_id now w in
      (
        ok (accepted_response key ticket_id job_id),
        record done { metrics = events_ingested_accepted ∷ w.metrics },
      )
  complete_new key ticket_id job_id now refused w = (threw, w)
  complete_new key ticket_id job_id now lost w = (threw, with_completed key ticket_id job_id now w)

  unfoldable pub after_enqueue :
      (key ticket_id : Text)
      → Draws
      → (answer : Option Text) → World R
      → Outcome IngestResult × World R
  unfolding fail_new complete_new
  after_enqueue key ticket_id draws none w = fail_new key draws.finished_at draws.failing w
  after_enqueue key ticket_id draws (some job_id) w =
      complete_new key ticket_id job_id draws.finished_at draws.completing w

  -- The rest of the try block, once the transaction has ended; the enqueue comes after the commit.
  unfoldable pub after_create :
      (key : Text) (correlation_id : Option Text)
      → Draws
      → (created : Option (Text × Text)) → World R
      → Outcome IngestResult × World R
  unfolding after_enqueue enqueue
  after_create key correlation_id draws none w = fail_new key draws.finished_at draws.failing w
  after_create key correlation_id draws (some created) w =
      let added = enqueue q env (job_of key correlation_id created) w.redis in
      after_enqueue key created.0 draws added.0 (record w { redis = added.1 })

  unfoldable pub process_new :
      (key : Text)
      → CreateEventDto
      → (correlation_id : Option Text) → Draws
      → World R
      → Outcome IngestResult × World R
  unfolding create_ticket_if_absent after_create
  process_new key dto correlation_id draws w =
      let committed = run_in_transaction (create_ticket_if_absent key dto draws) w.db in
      after_create key correlation_id draws committed.0 (record w { db = committed.1 })

  -- The switch on the claim's outcome, `w` being the world after the claim.
  unfoldable pub answer_claim :
      (key : Text)
      → CreateEventDto
      → (correlation_id : Option Text) → Draws
      → ClaimResult
      → World R
      → Outcome IngestResult × World R
  unfolding process_new
  answer_claim key dto correlation_id draws (conflict r) w =
      (Outcome.conflict, record w { metrics = events_ingested_conflict ∷ w.metrics })
  answer_claim key dto correlation_id draws (replay r) w = (
    ok (record {
      status = replayed;
      idempotency_key = key;
      ticket_id = or_option r.ticket_id (stored_ticket r.response_body);
      job_id = stored_job r.response_body;
    }),
    record w { metrics = events_ingested_duplicate ∷ w.metrics },
  )
  answer_claim key dto correlation_id draws (in_flight r) w = (
    ok (record {
      status = processing;
      idempotency_key = key;
      ticket_id = r.ticket_id;
      job_id = none;
    }),
    record w { metrics = events_ingested_duplicate ∷ w.metrics },
  )
  answer_claim key dto correlation_id draws is_new w = process_new key dto correlation_id draws w

  module _ (sha256_hex : Text → Text) (stringify : Json → Text) where
    unfoldable pub ingest :
        CreateEventDto
        → (header_key correlation_id : Option Text) → Draws
        → World R
        → Outcome IngestResult × World R
    unfolding answer_claim
    ingest dto header_key correlation_id draws w =
        let key = key_of sha256_hex stringify header_key dto in
        if is_usable_as_job_id key
        then elim (claim env.idempotency_lease_ms draws.key_id key
            (request_hash_of sha256_hex stringify dto) draws.claimed_at draws.reclaimed_at
            w.db.idempotency_keys) [
              | none ↦ (threw, w)
              | some (result, rows) ↦
                  answer_claim key dto correlation_id draws result
                    (record w { db = record (w.db) { idempotency_keys = rows } })
            ]
        else (bad_request, w)
