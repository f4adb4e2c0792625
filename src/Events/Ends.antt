-- ===== src/Events/Ends.antt =====
-- The two ways that the work on a new key ends.
use triage_engine.Prelude.{Text, Option, some, ◌≡◌, refl, ◌⊎◌, inl, inr, arith, Option-cases}
use triage_engine.Config.{EnvVars}
use triage_engine.Queue.{QueueOps}
use triage_engine.Entities.{CreateEventDto, IngestResult, Db}
use triage_engine.Pipeline.{World, Outcome}
use triage_engine.Pipeline.Producer.{enqueue}
use triage_engine.Events.Insert.{Draws, create_ticket_if_absent}
use triage_engine.Events.{job_of, after_create, after_enqueue, process_new, fail_new, complete_new}

-- The transaction or the enqueue failed, and the key is given up; or both went through, and the key is
-- completed. Whatever the table of keys holds then, the transaction has committed it or left it.
pub data Ends {R : Type 0} (q : QueueOps R) (env : EnvVars) (key : Text) (dto : CreateEventDto)
    (draws : Draws) (w : World R) (end : Outcome IngestResult × World R) : Type 0 where
  gives_up :
      (w' : World R)
      → (w'.db ≡ w.db)
        ⊎ ((ids : Text × Text) × (create_ticket_if_absent key dto draws w.db ≡ some (ids, w'.db)))
      → end ≡ fail_new q env key draws.finished_at draws.failing w'
      → Ends q env key dto draws w end
  goes_through :
      (ids : Text × Text) (db : Db) (job_id : Text) (redis : R)
      → create_ticket_if_absent key dto draws w.db ≡ some (ids, db)
      → end
        ≡ complete_new q env key ids.0 job_id draws.finished_at draws.completing
            (record w { db = db; redis = redis })
      → Ends q env key dto draws w end

module _ {R : Type 0} (q : QueueOps R) (env : EnvVars) where
  pub process_new-Ends :
      (key : Text) (dto : CreateEventDto) (correlation_id : Option Text) (draws : Draws)
      (w : World R)
      → Ends q env key dto draws w (process_new q env key dto correlation_id draws w)
  unfolding process_new after_create after_enqueue
  process_new-Ends key dto correlation_id draws w =
      elim (Option-cases (create_ticket_if_absent key dto draws w.db)) [
        | inl failed ↦ gives_up w (inl refl) (ground (arith, failed))
        | inr ((ids, db), done) ↦
            let added = enqueue q env (job_of key correlation_id ids) w.redis in
            elim (Option-cases added.0) [
              | inl refused ↦
                  gives_up (record w { db = db; redis = added.1 }) (inr (ids, done))
                    (ground (arith, done, refused))
              | inr (job_id, queued) ↦
                  goes_through ids db job_id added.1 done (ground (arith, done, queued))
            ]
      ]
