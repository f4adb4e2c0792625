-- ===== src/Pipeline/Producer.antt =====
-- pipeline/pipeline.producer.ts: the four ways to enqueue a job. A rejected call of the queue ends
-- each of them (`none`); what the calls before it did to Redis stays done.
pub mod Laws
pub mod Redrive
use triage_engine.Prelude.{
  ℕ, ◌/◌, max, Text, Bool, true, false, not, ◌&&◌, Option, none, some, text_eq, or_else, is_some,
}
use triage_engine.Config.{EnvVars}
use triage_engine.Entities.{PipelineJobData}
use triage_engine.Queue.{Keep, JobRequest, QueueOps}
use triage_engine.Pipeline.JobId.{replay_job_id, upgrade_job_id, reconcile_job_id}

abbrev pub completed_keep : Keep
completed_keep = record { age = 3600; count = some 1000 }

abbrev pub failed_keep : Keep
failed_keep = record { age = 86400; count = none }

-- Less than a sweep interval: max(5, floor(ms / 1000 / 2)).
unfoldable pub reconcile_job_ttl_seconds : EnvVars → ℕ
reconcile_job_ttl_seconds env = max 5 (env.reconcile_sweep_interval_ms / 2000)

abbrev pub enqueue_request : EnvVars → PipelineJobData → JobRequest
enqueue_request env job = record {
  payload = job;
  job_id = job.idempotency_key;
  delay = none;
  attempts = env.pipeline_max_attempts;
  remove_on_complete = completed_keep;
  remove_on_fail = failed_keep;
}

abbrev pub replay_request : EnvVars → PipelineJobData → (dead_letter_id : Text) → JobRequest
replay_request env job dead_letter_id = record {
  payload = record job { replay_of_dead_letter_id = some dead_letter_id };
  job_id = replay_job_id job.idempotency_key dead_letter_id;
  delay = none;
  attempts = env.pipeline_max_attempts;
  remove_on_complete = completed_keep;
  remove_on_fail = failed_keep;
}

abbrev pub upgrade_request : EnvVars → PipelineJobData → (delay_ms : ℕ) → JobRequest
upgrade_request env job delay_ms = record {
  payload = job;
  job_id = upgrade_job_id job.idempotency_key (or_else job.upgrade_attempt 1);
  delay = some delay_ms;
  attempts = env.pipeline_max_attempts;
  remove_on_complete = completed_keep;
  remove_on_fail = failed_keep;
}

abbrev pub reconcile_request : EnvVars → PipelineJobData → JobRequest
reconcile_request env job = record {
  payload = job;
  job_id = reconcile_job_id job.idempotency_key;
  delay = none;
  attempts = env.pipeline_max_attempts;
  remove_on_complete = record { age = reconcile_job_ttl_seconds env; count = none };
  remove_on_fail = record { age = reconcile_job_ttl_seconds env; count = none };
}

module _ {R : Type 0} (q : QueueOps R) (env : EnvVars) where
  unfoldable pub enqueue : PipelineJobData → R → Option Text × R
  enqueue job = q.add (enqueue_request env job)

  unfoldable pub enqueue_replay : PipelineJobData → (dead_letter_id : Text) → R → Option Text × R
  enqueue_replay job dead_letter_id = q.add (replay_request env job dead_letter_id)

  unfoldable pub enqueue_upgrade : PipelineJobData → (delay_ms : ℕ) → R → Option Text × R
  enqueue_upgrade job delay_ms = q.add (upgrade_request env job delay_ms)

  -- existing && (await existing.isFailed()) → await existing.remove()
  unfoldable pub clear_failed : (existing : Option Text) → R → Option R
  clear_failed none redis = some redis
  clear_failed (some id) redis = elim (q.is_failed id redis) [
    | none ↦ none
    | some true ↦ q.remove id redis
    | some false ↦ some redis
  ]

  -- job.id === jobId && !existing
  unfoldable pub reconcile_added :
      (job_id : Text) (existing : Option Text) → Option Text × R → Option Bool × R
  reconcile_added job_id existing (none, redis) = (none, redis)
  reconcile_added job_id existing (some id, redis) =
      (some (text_eq id job_id && not (is_some existing)), redis)

  unfoldable pub enqueue_reconcile : PipelineJobData → R → Option Bool × R
  unfolding clear_failed reconcile_added
  enqueue_reconcile job redis =
      let id = reconcile_job_id job.idempotency_key in
      elim (q.get_job id redis) [
        | none ↦ (none, redis)
        | some existing ↦ elim (clear_failed existing redis) [
          | none ↦ (none, redis)
          | some redis' ↦ reconcile_added id existing (q.add (reconcile_request env job) redis')
        ]
      ]
