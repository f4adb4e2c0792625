-- ===== src/Observability.antt =====
-- The gauges of observability/metrics.service.ts and what sets them: pipeline/pipeline.observer.ts, the
-- relay's refreshPendingGauge (outbox/outbox.relay.ts) and the events of the breaker
-- (enrichment/mistral.circuit-breaker.ts). With them the interval timers of the observer and the
-- sweepers, and the counter of retention/retention.sweeper.ts.
use triage_engine.Prelude.{
  ℕ, ◌+◌, Text, codes, Bool, true, false, List, [], ◌∷◌, Option, none, some, or_else, ltb,
  if◌then◌else◌, count_rows,
}
use triage_engine.Config.{EnvVars}
use triage_engine.Json.{Decimal}
use triage_engine.Entities.{OutboxMessageEntity, DeadLetterEntity, is_due}
use triage_engine.Pipeline.Dlq.{pending_count}
use triage_engine.Enrichment.Client.{BreakerEvent, closes, gauge_value}
use triage_engine.Retention.{Pruned}

pub record Gauges : Type 0 where
  pub queue_waiting : ℕ
  pub queue_active : ℕ
  pub queue_delayed : ℕ
  pub queue_failed : ℕ
  pub dlq_depth : ℕ
  pub outbox_pending : ℕ
  pub circuit_breaker_state : Decimal

-- `queue.getJobCounts(...)`; a state may be missing.
pub record JobCounts : Type 0 where
  pub waiting : Option ℕ
  pub active : Option ℕ
  pub delayed : Option ℕ
  pub failed : Option ℕ

abbrev set_queue_depth : JobCounts → Gauges → Gauges
set_queue_depth counts g = record g {
  queue_waiting = or_else counts.waiting 0;
  queue_active = or_else counts.active 0;
  queue_delayed = or_else counts.delayed 0;
  queue_failed = or_else counts.failed 0;
}

abbrev set_dlq_depth : Option (List DeadLetterEntity) → Gauges → Gauges
set_dlq_depth none g = g
set_dlq_depth (some letters) g = record g { dlq_depth = pending_count letters }

-- `none` is an error of the queue, or of the query on the dead letters: the gauges that were set before
-- it stay set.
unfoldable pub collect :
    (stopped : Bool) → Option JobCounts → Option (List DeadLetterEntity) → Gauges → Gauges
collect true counts letters g = g
collect false none letters g = g
collect false (some counts) letters g = set_dlq_depth letters (set_queue_depth counts g)

unfoldable pub refresh_pending_gauge : List OutboxMessageEntity → Gauges → Gauges
refresh_pending_gauge rows g = record g { outbox_pending = count_rows (λ r. is_due r.status) rows }

unfoldable pub set_state : BreakerEvent → Gauges → Gauges
set_state event g = record g { circuit_breaker_state = gauge_value event }

-- The breaker's events from its construction on, which sets the gauge to closed.
unfoldable pub breaker_gauge : List BreakerEvent → Gauges → Gauges
unfolding set_state
breaker_gauge [] g = set_state closes g
breaker_gauge (event ∷ earlier) g = set_state event (breaker_gauge earlier g)

abbrev pub collect_interval_ms : ℕ
collect_interval_ms = 5000

-- A `setInterval` that onModuleInit starts and onModuleDestroy clears.
pub record Interval : Type 0 where
  pub stopped : Bool
  pub timer : Option ℕ

abbrev pub observer_init : Interval
observer_init = record { stopped = false; timer = some collect_interval_ms }

abbrev pub reconcile_init : EnvVars → Interval
reconcile_init env = record { stopped = false; timer = some env.reconcile_sweep_interval_ms }

-- A sweeper that is switched off never runs.
abbrev pub retention_init : EnvVars → Interval
retention_init env = record {
  stopped = false;
  timer = if env.retention_enabled then some env.retention_sweep_interval_ms else none;
}

abbrev pub on_module_destroy : Interval → Interval
on_module_destroy i = record { stopped = true; timer = none }

-- The increments of retention_rows_pruned_total; a sweep that deletes nothing makes none.
abbrev pub retention_pruned : Pruned → List (Text × ℕ)
retention_pruned p =
    let total = p.outbox_messages + p.dead_letters + p.idempotency_keys + p.tickets + p.events in
    if ltb 0 total
    then (codes "outbox_messages", p.outbox_messages)
      ∷ (codes "dead_letters", p.dead_letters)
      ∷ (codes "idempotency_keys", p.idempotency_keys)
      ∷ (codes "tickets", p.tickets)
      ∷ (codes "events", p.events)
      ∷ []
    else []
