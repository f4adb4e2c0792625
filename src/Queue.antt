-- ===== src/Queue.antt =====
-- BullMQ (a third-party package) as the pipeline uses it: the queue's state `R` in Redis and its
-- operations are parameters. `none` is a rejected promise.
use triage_engine.Prelude.{ℕ, Text, Bool, Option}
use triage_engine.Entities.{PipelineJobData}

-- { age, count? } of `removeOnComplete` and `removeOnFail`.
pub record Keep : Type 0 where
  pub age : ℕ
  pub count : Option ℕ

-- The arguments of `queue.add`. The job's name and its backoff type are always the same.
pub record JobRequest : Type 0 where
  pub payload : PipelineJobData
  pub job_id : Text
  pub delay : Option ℕ
  pub attempts : ℕ
  pub remove_on_complete : Keep
  pub remove_on_fail : Keep

pub record QueueOps (R : Type 0) : Type 0 where
  -- The id of the added job, or of the job that bears the id already.
  pub add : JobRequest → R → Option Text × R
  pub get_job : Text → R → Option (Option Text)
  pub is_failed : Text → R → Option Bool
  pub remove : Text → R → Option R
