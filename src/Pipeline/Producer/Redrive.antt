-- ===== src/Pipeline/Producer/Redrive.antt =====
-- The reconciliation's enqueue on a queue that keeps BullMQ's documented behaviour on job ids.
use triage_engine.Prelude.{
  Text, text_eq_refl, Bool, true, false, not, Option, none, some, is_some, or_else, ◌≡◌, ◌≢◌, refl,
  sym, subst, ap, ◌∙◌, inl, inr, arith, Option-cases,
}
use triage_engine.Config.{EnvVars}
use triage_engine.Entities.{PipelineJobData}
use triage_engine.Queue.{JobRequest, QueueOps}
use triage_engine.Pipeline.JobId.{reconcile_job_id}
use triage_engine.Pipeline.Producer.{
  reconcile_request, clear_failed, reconcile_added, enqueue_reconcile,
}

-- `holds id redis` is whether a job bears the id, and then whether it has failed. An add on an id that
-- is borne changes nothing and gives that job; a removed job gives its id up; no other id is touched.
pub record KeepsIds {R : Type 0} (q : QueueOps R) (holds : Text → R → Option Bool) : Type 0 where
  pub got :
      (id : Text) (redis : R) (job : Option Text)
      → q.get_job id redis ≡ some job
      → (is_some job ≡ is_some (holds id redis)) × (or_else job id ≡ id)
  pub failed :
      (id : Text) (redis : R) (b : Bool)
      → q.is_failed id redis ≡ some b
      → b ≡ or_else (holds id redis) false
  pub removed :
      (id : Text) (redis redis' : R)
      → q.remove id redis ≡ some redis'
      → (holds id redis' ≡ none)
        × ((other : Text) → other ≢ id → holds other redis' ≡ holds other redis)
  pub added :
      (request : JobRequest) (redis redis' : R) (id : Text)
      → q.add request redis ≡ (some id, redis')
      → (id ≡ request.job_id)
        × (holds request.job_id redis' ≡ some (or_else (holds request.job_id redis) false))
        × ((other : Text) → other ≢ request.job_id → holds other redis' ≡ holds other redis)

module _ {R : Type 0} (q : QueueOps R) (holds : Text → R → Option Bool) (keeps : KeepsIds q holds)
    (env : EnvVars) where
  -- The id is free of a failed job, and was touched for no other reason.
  record Clears (id : Text) (redis cleared : R) : Type 0 where
    unfailed : or_else (holds id cleared) false ≡ false
    others : (other : Text) → other ≢ id → holds other cleared ≡ holds other redis

  clear_failed-Clears :
      (id : Text) (existing : Option Text) (redis cleared : R)
      → q.get_job id redis ≡ some existing
      → clear_failed q env existing redis ≡ some cleared
      → Clears id redis cleared
  unfolding clear_failed
  clear_failed-Clears id none redis cleared got e =
      let same : redis ≡ cleared = ground (arith, e) in
      let absent = (keeps.got id redis none got).0 in
      subst (Clears id redis) same
        (record { unfailed = ground (arith, absent); others = λ other ne. refl })
  clear_failed-Clears id (some old) redis cleared got e =
      let same : old ≡ id = (keeps.got id redis (some old) got).1 in
      elim (Option-cases (q.is_failed old redis)) [
        | inl unreachable ↦ absurd (ground (arith, unreachable, e))
        | inr (true, dead) ↦
            let gone : q.remove old redis ≡ some cleared = ground (arith, dead, e) in
            let (free, others) = keeps.removed id redis cleared (rw same at gone) in
            record { unfailed = rw free refl; others = others }
        | inr (false, alive) ↦
            let kept : redis ≡ cleared = ground (arith, alive, e) in
            subst (Clears id redis) kept (record {
              unfailed = sym (keeps.failed id redis false (rw same at alive));
              others = λ other ne. refl;
            })
      ]

  -- On a queue that keeps BullMQ's rules for job ids, a reconcile that is answered leaves the ticket's
  -- id with a job that has not failed, whatever job bore it before: a failed one never blocks its
  -- ticket. It is reported as done just where no job bore the id, and touches no other id.
  pub enqueue_reconcile_unblocks :
      (job : PipelineJobData) (redis redis' : R) (is_done : Bool)
      → enqueue_reconcile q env job redis ≡ (some is_done, redis')
      → let id = reconcile_job_id job.idempotency_key in
        (holds id redis' ≡ some false)
        × (is_done ≡ not (is_some (holds id redis)))
        × ((other : Text) → other ≢ id → holds other redis' ≡ holds other redis)
  unfolding enqueue_reconcile reconcile_added
  enqueue_reconcile_unblocks job redis redis' is_done e =
      let id = reconcile_job_id job.idempotency_key in
      elim (Option-cases (q.get_job id redis)) [
        | inl unreachable ↦ absurd (ground (arith, unreachable, e))
        | inr (existing, got) ↦ elim (Option-cases (clear_failed q env existing redis)) [
          | inl stuck ↦ absurd (ground (arith, got, stuck, e))
          | inr (cleared, done) ↦
              let clears = clear_failed-Clears id existing redis cleared got done in
              elim (Option-cases (q.add (reconcile_request env job) cleared).0) [
                | inl rejected ↦ absurd (ground (arith, got, done, rejected, e))
                | inr (added_id, taken) ↦
                    let added : q.add (reconcile_request env job) cleared
                        ≡ (some added_id, redis') =
                      ground (arith, got, done, taken, e) in
                    let (same, held, others) =
                      keeps.added (reconcile_request env job) cleared redis' added_id added in
                    (
                      held ∙ ap some clears.unfailed,
                      ground (
                        arith,
                        got,
                        done,
                        taken,
                        e,
                        same,
                        text_eq_refl id,
                        (keeps.got id redis existing got).0,
                      ),
                      λ other ne. others other ne ∙ clears.others other ne,
                    )
              ]
        ]
      ]
