-- ===== src/Pipeline/Reconcile.antt =====
-- pipeline/reconcile.sweeper.ts: tickets left DEGRADED for too long are handed to the queue again.
pub mod Batch
use triage_engine.Prelude.{
  ℕ, ◌+◌, Text, text_eq, Bool, true, false, ◌&&◌, ◌||◌, List, [], ◌∷◌, ◌++◌, Option, none, some,
  ltb, leb, take, if◌then◌else◌, select_rows, map,
}
use triage_engine.Config.{EnvVars}
use triage_engine.Entities.{Db, EventEntity, TicketEntity, is_degraded, PipelineJobData}
use triage_engine.Queue.{QueueOps}
use triage_engine.Pipeline.Producer.{enqueue_reconcile}

-- A row of the join, with the column that it is ordered by.
pub record StrandedRow : Type 0 where
  pub ticket_id : Text
  pub event_id : Text
  pub idempotency_key : Text
  pub updated_at : ℕ

-- enrichment_status = 'DEGRADED' AND updated_at < now() - degraded_after
abbrev pub is_stranded : (degraded_after now : ℕ) → TicketEntity → Bool
is_stranded degraded_after now t =
    is_degraded t.enrichment_status && ltb (t.updated_at + degraded_after) now

abbrev pub stranded_row : TicketEntity → EventEntity → StrandedRow
stranded_row t e = record {
  ticket_id = t.id;
  event_id = t.event_id;
  idempotency_key = e.idempotency_key;
  updated_at = t.updated_at;
}

-- FROM tickets t JOIN events e ON e.id = t.event_id
unfoldable pub join_events : List EventEntity → List TicketEntity → List StrandedRow
join_events events [] = []
join_events events (t ∷ tickets) =
    map (stranded_row t) (select_rows (λ (e : EventEntity). text_eq e.id t.event_id) events)
    ++ join_events events tickets

-- ORDER BY t.updated_at ASC
unfoldable pub insert_by_update : StrandedRow → List StrandedRow → List StrandedRow
insert_by_update r [] = r ∷ []
insert_by_update r (s ∷ rows) =
    if leb r.updated_at s.updated_at then r ∷ s ∷ rows else s ∷ insert_by_update r rows

unfoldable pub order_by_update : List StrandedRow → List StrandedRow
unfolding insert_by_update
order_by_update [] = []
order_by_update (r ∷ rows) = insert_by_update r (order_by_update rows)

unfoldable pub stranded : EnvVars → (now : ℕ) → Db → List StrandedRow
unfolding join_events order_by_update
stranded env now db = take env.reconcile_batch_size (
    order_by_update (
      join_events db.events
        (select_rows (is_stranded env.reconcile_degraded_after_ms now) db.tickets)))

abbrev pub reconcile_job : StrandedRow → PipelineJobData
reconcile_job row = record {
  idempotency_key = row.idempotency_key;
  ticket_id = row.ticket_id;
  event_id = row.event_id;
  correlation_id = none;
  replay_of_dead_letter_id = none;
  upgrade_attempt = none;
}

-- The counts of a sweep, and what it leaves in Redis.
pub record Redriven (R : Type 0) : Type 0 where
  pub redriven : ℕ
  pub failed : ℕ
  pub redis : R

-- What one enqueue comes to: added, already there, or rejected.
unfoldable pub tally : {R : Type 0} → Option Bool × R → Redriven R → Redriven R
tally (none, redis) counts = record counts { failed = counts.failed + 1; redis = redis }
tally (some true, redis) counts = record counts { redriven = counts.redriven + 1; redis = redis }
tally (some false, redis) counts = record counts { redis = redis }

module _ {R : Type 0} (q : QueueOps R) (env : EnvVars) where
  -- A row that is rejected does not end the batch.
  unfoldable pub redrive : List StrandedRow → Redriven R → Redriven R
  unfolding enqueue_reconcile tally
  redrive [] counts = counts
  redrive (row ∷ rows) counts =
      redrive rows (tally (enqueue_reconcile q env (reconcile_job row) counts.redis) counts)

  -- The sweep's answer. `reachable` says whether the query succeeds.
  unfoldable pub sweep : (stopped running reachable : Bool) (now : ℕ) → Db → R → ℕ × R
  unfolding stranded redrive
  sweep stopped running reachable now db redis =
      if stopped || running
      then (0, redis)
      else if reachable
      then (let counts =
            redrive (stranded env now db) (record { redriven = 0; failed = 0; redis = redis }) in
          (counts.redriven, counts.redis))
      else (0, redis)
