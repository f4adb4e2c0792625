-- ===== src/Pipeline/Processor/Upgrade.antt =====
-- Which jobs a run queues.
use triage_engine.Prelude.{
  find_row, Option-cases, some, Option, ℕ, ◌+◌, ◌/◌, ◌≤◌, Option, none, some, or_else, ltb, ◌≡◌,
  refl, sym, subst, ◌≡◌, inl, inr, arith, Bool-cases,
}
use triage_engine.Config.{EnvVars}
use triage_engine.Backoff.{Random, exponential, backoff_with_jitter}
use triage_engine.Backoff.Bounds.{backoff_with_jitter_bounds}
use triage_engine.Entities.{TicketEntity, PipelineJobData}
use triage_engine.Queue.{QueueOps}
use triage_engine.Pipeline.Producer.{upgrade_request, enqueue_upgrade}
use triage_engine.Entities.{is_degraded, ticket_has_id, Db}
use triage_engine.Pipeline.{World, run_in_transaction}
use triage_engine.Pipeline.Processor.{
  JobDraws, finish_job, finish_transaction, persist_and_emit, process, EnrichmentOutcome,
  schedule_upgrade,
}

module _ {R : Type 0} (q : QueueOps R) (env : EnvVars)
    (enrich : TicketEntity → Option EnrichmentOutcome) where
  -- What is true of the queue after any upgrade within the limits, with a delay of at least half the
  -- exponential term and at most the term.
  abbrev pub IsKeptByUpgrades : (R → Type 0) → PipelineJobData → Type 0
  IsKeptByUpgrades Safe job =
      (attempt delay_ms : ℕ) (redis : R)
      → attempt ≡ or_else job.upgrade_attempt 0 + 1
      → attempt ≤ env.enrichment_upgrade_max_attempts
      → exponential attempt env.enrichment_upgrade_backoff_ms none / 2 ≤ delay_ms
      → delay_ms ≤ exponential attempt env.enrichment_upgrade_backoff_ms none
      → Safe redis
      → Safe
          (q.add (upgrade_request env (record job { upgrade_attempt = some attempt }) delay_ms)
            redis).1

  schedule_upgrade_keeps :
      (Safe : R → Type 0) (job : PipelineJobData) (random : Random) (redis : R)
      → IsKeptByUpgrades Safe job
      → Safe redis
      → Safe (schedule_upgrade q env enrich job random redis).1
  unfolding schedule_upgrade enqueue_upgrade
  schedule_upgrade_keeps Safe job random redis keeps safe =
      let attempt = or_else job.upgrade_attempt 0 + 1 in
      elim (Bool-cases (ltb env.enrichment_upgrade_max_attempts attempt)) [
        | inl over ↦ rw over safe
        | inr within ↦
            let bounds =
              backoff_with_jitter_bounds attempt env.enrichment_upgrade_backoff_ms none random in
            rw within (
              keeps attempt
                (backoff_with_jitter attempt env.enrichment_upgrade_backoff_ms none random) redis
                refl (ground (arith, within)) bounds.0 bounds.1 safe)
      ]

  finish_keeps :
      (Safe : R → Type 0) (outcome : EnrichmentOutcome) (job : PipelineJobData) (random : Random)
      (committed : Option (Unit {0}) × Db) (w : World R)
      → IsKeptByUpgrades Safe job
      → Safe w.redis
      → Safe (finish_transaction q env enrich outcome job random committed w).1.redis
  unfolding finish_transaction finish_job
  finish_keeps Safe outcome job random (none, db) w keeps safe = safe
  finish_keeps Safe outcome job random (some done, db) w keeps safe =
      elim (Bool-cases (is_degraded outcome.status)) [
        | inr final ↦
            let same : (finish_transaction q env enrich outcome job random (some done, db)
                  w).1.redis
                ≡ w.redis =
              ground (arith, final) in
            subst Safe (sym same) safe
        | inl degraded ↦
            let scheduled = schedule_upgrade q env enrich job random w.redis in
            let kept = schedule_upgrade_keeps Safe job random w.redis keeps safe in
            elim (Option-cases scheduled.0) [
              | inl refused ↦
                  let same : (finish_transaction q env enrich outcome job random (some done, db)
                        w).1.redis
                      ≡ scheduled.1 =
                    ground (arith, degraded, refused) in
                  subst Safe (sym same) kept
              | inr (x, added) ↦
                  let same : (finish_transaction q env enrich outcome job random (some done, db)
                        w).1.redis
                      ≡ scheduled.1 =
                    ground (arith, degraded, added) in
                  subst Safe (sym same) kept
            ]
      ]

  -- A run of a job hands the queue nothing but an upgrade: its attempt is the next one and within
  -- the limit, and its delay lies between half the exponential term and the term. So what such
  -- upgrades keep true of the queue, the run keeps true.
  pub process_keeps :
      (Safe : R → Type 0) (draws : JobDraws) (job : PipelineJobData) (w : World R)
      → IsKeptByUpgrades Safe job
      → Safe w.redis
      → Safe (process q env enrich draws job w).1.redis
  unfolding process
  process_keeps Safe draws job w keeps safe =
      elim (Option-cases (find_row (ticket_has_id job.ticket_id) w.db.tickets)) [
        | inl missing ↦
            let same : (process q env enrich draws job w).1.redis ≡ w.redis =
              ground (arith, missing) in
            subst Safe (sym same) safe
        | inr (ticket, found) ↦ elim (Option-cases (enrich ticket)) [
          | inl failed ↦
              let same : (process q env enrich draws job w).1.redis ≡ w.redis =
                ground (arith, found, failed) in
              subst Safe (sym same) safe
          | inr (outcome, enriched) ↦
              let committed =
                run_in_transaction
                  (persist_and_emit draws.message_id draws.now ticket.id ticket.enrichment_status
                    outcome job)
                  w.db in
              let same : (process q env enrich draws job w).1.redis
                  ≡ (finish_transaction q env enrich outcome job draws.random committed w).1.redis =
                ground (arith, found, enriched) in
              subst Safe (sym same)
                (finish_keeps Safe outcome job draws.random committed w keeps safe)
        ]
      ]
