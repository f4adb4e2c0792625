-- ===== src/Pipeline/Producer/Laws.antt =====
-- What the reconciliation's enqueue reports, and how long its job keeps its id.
use triage_engine.Prelude.{
  Text, text_eq, text_eq_sound, true, Option, none, some, ◌≡◌, inl, inr, arith, Bool-cases,
  Option-cases,
}
use triage_engine.Config.{EnvVars}
use triage_engine.Entities.{PipelineJobData}
use triage_engine.Queue.{QueueOps}
use triage_engine.Pipeline.JobId.{reconcile_job_id}
use triage_engine.Pipeline.Producer.{
  reconcile_request, clear_failed, reconcile_added, enqueue_reconcile,
}

module _ {R : Type 0} (q : QueueOps R) (env : EnvVars) where
  -- An enqueue that met a job is never reported as done.
  replaced_uncounted :
      (id old : Text) (answer : Option Text × R) (redis' : R)
      → ¬ (reconcile_added q env id (some old) answer ≡ (some true, redis'))
  unfolding reconcile_added
  replaced_uncounted id old (none, redis) redis' e = ground (arith, e)
  replaced_uncounted id old (some i, redis) redis' e = elim (Bool-cases (text_eq i id)) [
    | inl same ↦ ground (arith, same, e)
    | inr other ↦ ground (arith, other, e)
  ]

  -- A reconcile that is reported as done was added to a queue that held no job with its id.
  pub enqueue_reconcile_lem :
      (job : PipelineJobData) (redis redis' : R)
      → enqueue_reconcile q env job redis ≡ (some true, redis')
      → (q.get_job (reconcile_job_id job.idempotency_key) redis ≡ some none)
        × (q.add (reconcile_request env job) redis
            ≡ (some (reconcile_job_id job.idempotency_key), redis'))
  unfolding enqueue_reconcile clear_failed reconcile_added
  enqueue_reconcile_lem job redis redis' e =
      elim (Option-cases (q.get_job (reconcile_job_id job.idempotency_key) redis)) [
        | inl unreachable ↦ absurd (ground (arith, unreachable, e))
        | inr (none, absent) ↦ elim (Option-cases (q.add (reconcile_request env job) redis).0) [
          | inl refused ↦ absurd (ground (arith, absent, refused, e))
          | inr (id, added) ↦ (
            absent,
            ground
                (arith, absent, added, e, text_eq_sound id (reconcile_job_id job.idempotency_key)),
          )
        ]
        | inr (some old, there) ↦ elim (Option-cases (clear_failed q env (some old) redis)) [
          | inl stuck ↦ absurd (ground (arith, there, stuck, e))
          | inr (cleared, done) ↦
              let answer = q.add (reconcile_request env job) cleared in
              let same : reconcile_added q env (reconcile_job_id job.idempotency_key) (some old)
                    answer
                  ≡ (some true, redis') =
                ground (arith, there, done, e) in
              absurd
                (replaced_uncounted (reconcile_job_id job.idempotency_key) old answer redis' same)
        ]
      ]
