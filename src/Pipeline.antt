-- ===== src/Pipeline.antt =====
-- The queue's side of the service: pipeline/pipeline.producer.ts, pipeline/ticket.processor.ts,
-- pipeline/dlq and pipeline/reconcile.sweeper.ts, over a state that they share with ingestion.
pub mod JobId
pub mod Producer
pub mod Processor
pub mod Failure
pub mod Dlq
pub mod Reconcile
use triage_engine.Prelude.{Text, List, Option, none, some}
use triage_engine.Entities.{Db, Metric}

-- What the process can change: the database, Redis and its counters.
pub record World (R : Type 0) : Type 0 where
  pub db : Db
  pub redis : R
  pub metrics : List Metric

-- How a handler ends. The last three are the exceptions that Nest answers by 400, 409 and 404, and
-- `threw` is any other.
pub data Outcome (A : Type 0) : Type 0 where
  ok : A → Outcome A
  bad_request conflict not_found threw : Outcome A

-- common/database/transaction.helper.ts: the work's changes are committed together, or not at all.
abbrev pub run_in_transaction : {A : Type 0} → (Db → Option (A × Db)) → Db → Option A × Db
run_in_transaction work db = elim (work db) [ none ↦ (none, db) | some (a, db') ↦ (some a, db') ]
