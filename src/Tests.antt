-- ===== src/Tests.antt =====
-- Sample data, and the theorems at concrete inputs.
mod Ingestion
mod Jobs
mod Effects
mod Service
mod Upkeep
mod Model
mod Settings
use triage_engine.Prelude.{
  ℕ, Text, codes, List, [], ◌∷◌, Option, none, some, Bool, false, ◌+◌, arith,
}
use triage_engine.Config.{EnvVars, default_env}
use triage_engine.Json.{Json, str, null}
use triage_engine.Backoff.{Random}
use triage_engine.Entities.{
  CreateEventDto, PipelineJobData, EnrichmentStatus, EnrichmentSource, TicketCategory,
  TicketPriority, OutboxMessageEntity, DeadLetterEntity, DeadLetterStatus,
}
use triage_engine.Enrichment.{BreakerOps}
use triage_engine.Queue.{QueueOps, JobRequest}
use triage_engine.Outbox.{EmitInput, new_message, DispatchMessage, Dispatched, delivered}
use triage_engine.Events.Insert.{Draws, answered}
use triage_engine.Pipeline.{World}
use triage_engine.Pipeline.Processor.{EnrichmentOutcome}
use triage_engine.History.{empty_db}

-- A queue that keeps the ids of the jobs that it was handed.
abbrev pub open_queue : QueueOps (List Text)
open_queue = record {
  add = λ request redis. (some request.job_id, request.job_id ∷ redis);
  get_job = λ id redis. some none;
  is_failed = λ id redis. some false;
  remove = λ id redis. some redis;
}

-- A queue that cannot be reached.
abbrev pub closed_queue : QueueOps (List Text)
closed_queue = record {
  add = λ request redis. (none, redis);
  get_job = λ id redis. none;
  is_failed = λ id redis. none;
  remove = λ id redis. none;
}

abbrev pub sample_key : Text
sample_key = codes "evt_1"

abbrev pub sample_event : CreateEventDto
sample_event = record {
  idempotency_key = some sample_key;
  subject = codes "Refund";
  body = codes "Please refund";
  requester_email = none;
  source = none;
  metadata = none;
}

abbrev pub sample_draws : Draws
sample_draws = record {
  key_id = codes "k";
  event_id = codes "e";
  ticket_id = codes "t";
  claimed_at = 10;
  reclaimed_at = 11;
  created_at = 12;
  finished_at = 13;
  completing = answered;
  failing = answered;
}

abbrev pub later_draws : Draws
later_draws = record {
  key_id = codes "k2";
  event_id = codes "e2";
  ticket_id = codes "t2";
  claimed_at = 20;
  reclaimed_at = 21;
  created_at = 22;
  finished_at = 23;
  completing = answered;
  failing = answered;
}

abbrev pub empty_world : World (List Text)
empty_world = record { db = empty_db; redis = []; metrics = [] }

abbrev pub sample_job : PipelineJobData
sample_job = record {
  idempotency_key = sample_key;
  ticket_id = codes "t";
  event_id = codes "e";
  correlation_id = none;
  replay_of_dead_letter_id = none;
  upgrade_attempt = none;
}

abbrev pub sample_outcome : EnrichmentOutcome
sample_outcome = record {
  status = EnrichmentStatus.enriched;
  source = EnrichmentSource.ai;
  category = TicketCategory.billing;
  priority = TicketPriority.high;
  summary = codes "refund";
  confidence = record { negative = false; digits = 9; scale = 1 };
}

abbrev pub sample_effect : EmitInput
sample_effect = record {
  aggregate_type = codes "ticket";
  aggregate_id = codes "t";
  event_type = codes "ticket.triaged";
  version = codes "v1";
  payload = null;
}

abbrev pub sample_message : OutboxMessageEntity
sample_message = new_message (codes "m") 5 sample_effect

abbrev pub sample_letter : DeadLetterEntity
sample_letter = record {
  id = codes "d";
  queue = codes "ticket-pipeline";
  job_id = sample_key;
  idempotency_key = sample_key;
  payload = sample_job;
  error_message = codes "boom";
  error_stack = none;
  attempts_made = 5;
  status = DeadLetterStatus.pending;
  failed_at = 30;
  replayed_at = none;
  created_at = 30;
}

abbrev pub half : Random
half = record { part = 1; whole = 2; below_one = omega arith }

-- A consumer that counts what reaches it.
abbrev pub counting : DispatchMessage → ℕ → Dispatched × ℕ
counting message n = (delivered, n + 1)

-- A breaker that is closed, over a model that does not answer.
abbrev pub closed_breaker : BreakerOps ℕ
closed_breaker = record { fire = λ ticket n. (none, n + 1); is_open = λ n. false }
