-- ===== src/Lib.antt =====
-- A model of triage-engine, a service that takes support events over HTTP, makes one ticket of each, has
-- it enriched by a language model or by rules, and announces the result through an outbox.
--
-- The parts and how they interact. A request (src/events/events.service.ts) claims its idempotency key
-- (src/idempotency/idempotency.service.ts), makes the event and the ticket in one transaction, hands
-- a job to BullMQ (src/pipeline/pipeline.producer.ts) and completes the key. A job
-- (src/pipeline/ticket.processor.ts) reads the ticket, calls the enricher (src/enrichment) and, in one
-- transaction, writes the ticket and emits a side effect (src/outbox/outbox.service.ts). The relay
-- (src/outbox/outbox.relay.ts) delivers the effects; the bundled consumer is
-- src/outbox/sink.controller.ts. A job that fails for good becomes a dead letter (src/pipeline/dlq), from
-- where it can be replayed. Two sweepers run beside this: src/pipeline/reconcile.sweeper.ts queues
-- degraded tickets again, src/retention/retention.sweeper.ts deletes old rows.
--
-- Which file models what:
--   Prelude      texts as lists of UTF-16 code units, decimal numerals, and a table as the list of
--                its rows with SELECT, UPDATE and DELETE by a condition
--   Entities     the rows of the tables and the enums (src/*/entities, src/tickets/ticket.enums.ts,
--                src/migrations), with `Db` for the database
--   Config       src/config/env.validation.ts: `EnvVars` and its defaults, Config/Number for `Number()`,
--                Config/Field for the kinds of variable, Config/Schema for `validateEnv`;
--                Config/Bounds, Config/Valid and Config/Print on what is accepted; Config/Connections for data-source.ts and
--                src/redis/redis.constants.ts
--   Json         src/common/hash/canonical-hash.ts: `canonicalize`, `hash_payload`; Json/Content says when
--                two values have one canonical form
--   Correlation  src/common/correlation, src/common/logging and the middleware of src/main.ts;
--                Correlation/Trace follows an id from a request to the webhook
--   Backoff      src/common/backoff/backoff.ts, src/pipeline/pipeline.backoff.ts
--   Idempotency  src/idempotency/idempotency.service.ts: `claim`, `lock_for_update`, `attach_ticket`,
--                `mark_completed`, `mark_failed`; Idempotency/Race has callers of `claim`
--                interleaved statement by statement
--   Events       src/events/events.service.ts: `ingest`, `process_new`; Events/Insert for the transaction
--                `create_ticket_if_absent`, Events/Retry for a request that threw
--   Queue        BullMQ, as a record of parameters; Pipeline/Producer/Redrive has its rules for job
--                ids as a record of laws, which is a hypothesis there
--   Pipeline     `World` and `Outcome`; Pipeline/Producer, Pipeline/Processor, Pipeline/Failure
--                (`onFailed`), Pipeline/Dlq and Pipeline/Reconcile for the files of src/pipeline;
--                Pipeline/JobId for the ids of jobs
--   Outbox       src/outbox: `emit`; Outbox/Relay for the relay, Outbox/Sink for the consumer,
--                Outbox/Webhook for dispatchers/webhook.dispatcher.ts; Outbox/Webhook/Link puts the
--                sink at the other end of a network that loses and refuses requests, and
--                Outbox/Webhook/Runs has emits and drains over it in any order
--   Enrichment   src/enrichment/ai.enricher.ts; Enrichment/Fallback for fallback.classifier.ts,
--                Enrichment/Response for llm-response.schema.ts, Enrichment/Client for
--                mistral.client.ts, prompts.ts, errors.ts and the options of the breaker
--   Retention    src/retention/retention.sweeper.ts
--   Observability  the gauges of src/observability/metrics.service.ts, src/pipeline/pipeline.observer.ts,
--                and the interval timers
--   Http         the routes with their rate limits (src/common/rate-limit), src/landing; Http/Views for
--                the controllers of tickets and dead letters, Http/Health for src/health
--   History      the service as a whole: committed transactions and single statements in any order;
--                History/Promise is what the service promises of its tickets, with no tables, and
--                History/Refinement relates the two
--
-- How code is translated. An operation is a function from the state that it reads to its result and
-- the state that it leaves; a thrown error is `none` or a case of `Outcome`. A transaction is a
-- function whose changes `run_in_transaction` keeps or drops as a whole. A UNIQUE constraint is a
-- check in the function of the INSERT. What gen_random_uuid(), the clock and Math.random() give
-- comes in as an argument, as does whether a request's last UPDATE, markCompleted or markFailed, is
-- answered, refused or written with its answer lost; and so does all that is not under src: BullMQ,
-- the opossum breaker, the SDK of the model, fetch, SHA-256, JSON.parse, JSON.stringify,
-- toLowerCase, toUpperCase, and zod's wording of issues and its test of urls. The kinds of value
-- that a schema names (strings with bounds, enums, numbers) have their documented meaning.
-- Interleavings are steps of a relation.
--
-- Bounds and fuel. There is no fuel: loops are structural recursion, the retry loop of the enricher on
-- the attempts that are left. Numbers are unbounded; the exponential term of a backoff is capped by
-- `max_safe_integer`, as in the source, and is exact here where the source has doubles. A variable's
-- number is the exact value of its text, where the source rounds it to a double: the two agree up to
-- 2^53, and a text beyond the range of doubles is accepted here and refused there.
--
-- Not modelled: HTTP itself, the parsing of bodies and paths by Nest, the counting of the rate limiter,
-- the states of the breaker, histograms and the rendering of metrics, logging beyond the correlation id,
-- the wiring of modules, the demo page (src/public) and scripts. Retention is not among the steps of
-- History: a deleted key may be claimed anew.
mod Prelude
pub mod Json
pub mod Config
pub mod Backoff
pub mod Correlation
pub mod Entities
pub mod Queue
pub mod Idempotency
pub mod Outbox
pub mod Pipeline
pub mod Events
pub mod Enrichment
pub mod Retention
pub mod Observability
pub mod Http
pub mod History
mod Tests
