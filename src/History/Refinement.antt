-- ===== src/History/Refinement.antt =====
-- Each step of the service is a step of its promise.
use triage_engine.Prelude.{
  ℕ, Text, text_eq, text_eq_iff, text_eq_refl, Bool, List, [], ◌∷◌, some, ltb, ◌≡◌, ◌≢◌, refl, sym,
  ◌∙◌, ap, subst, inl, inr, arith, count_rows, find_row, All,
}
use triage_engine.Config.{EnvVars}
use triage_engine.Backoff.{Random}
use triage_engine.Entities.{
  CreateEventDto, EnrichmentStatus, TicketEntity, ticket_has_id, OutboxMessageEntity,
  PipelineJobData, Db,
}
use triage_engine.Outbox.{DispatchMessage, Dispatched, has_dedup_key}
use triage_engine.Outbox.Relay.{claim_batch, Drain, drain_once}
use triage_engine.Events.Insert.{Draws, new_ticket, create_ticket_if_absent}
use triage_engine.Events.Create.{create_cases}
use triage_engine.Pipeline.Processor.{EnrichmentOutcome, persist_and_emit}
use triage_engine.History.{
  State, Step, inserts_key, reclaims, creates, completes, fails, loads, persists, drains,
  writes_letters, Run, here, then_step, IsResult, IsConsistent, empty_db,
}
use triage_engine.Outbox.Relay.Batch.{dispatch_rows_count}
use triage_engine.History.Invariant.{persist_cases, empty-IsConsistent}
use triage_engine.History.Effects.{IsSound, IsNotified}
use triage_engine.History.Notified.{Step-IsSound, Run-IsSound}
use triage_engine.History.Promise.{
  PromiseStep, rests, opens, settles, PromiseRun, promise_of, status_of,
}
use triage_engine.History.Kept.{Keeps, PromiseRun-Keeps}
use triage_engine.History.Settling.{announced_count, persist-Settles}

new_ticket_first :
    (dto : CreateEventDto) (draws : Draws) (tickets : List TicketEntity)
    → status_of (find_row (ticket_has_id draws.ticket_id) (new_ticket dto draws ∷ tickets))
      ≡ some EnrichmentStatus.pending
unfolding find_row
new_ticket_first dto draws tickets = ground (arith, text_eq_refl draws.ticket_id)

new_ticket_other :
    (dto : CreateEventDto) (draws : Draws) (tickets : List TicketEntity) (other : Text)
    → other ≢ draws.ticket_id
    → status_of (find_row (ticket_has_id other) (new_ticket dto draws ∷ tickets))
      ≡ status_of (find_row (ticket_has_id other) tickets)
unfolding find_row
new_ticket_other dto draws tickets other ne = ground (arith, ne, text_eq_iff draws.ticket_id other)

persist_steps :
    (message_id : Text) (now : ℕ) (id : Text) (prior : EnrichmentStatus)
    (outcome : EnrichmentOutcome) (job : PipelineJobData) (db db' : Db)
    → IsConsistent db
    → IsResult outcome.status
    → persist_and_emit message_id now id prior outcome job db ≡ some (tt, db')
    → All (IsNotified db'.outbox_messages) db'.tickets
    → PromiseStep (promise_of db) (promise_of db')
persist_steps message_id now id prior outcome job db db' v result e notified =
    elim (persist_cases message_id now id prior outcome job db db' e) [
      | inl lost ↦
          subst (λ d. PromiseStep (promise_of db) (promise_of d)) (sym lost)
            (rests (λ i. refl) (λ k. refl))
      | inr (rows, done, wrote, won) ↦
          subst (λ d. PromiseStep (promise_of db) (promise_of d)) (sym wrote)
            (settles id (
              persist-Settles message_id now id prior outcome job db rows v result done won
                (subst (λ d. All (IsNotified d.outbox_messages) d.tickets) wrote notified)))
    ]

create_steps :
    (key : Text) (dto : CreateEventDto) (draws : Draws) (ids : Text × Text) (db db' : Db)
    → create_ticket_if_absent key dto draws db ≡ some (ids, db')
    → PromiseStep (promise_of db) (promise_of db')
create_steps key dto draws ids db db' e = elim (create_cases key dto draws ids db db' e) [
  | inl r ↦
      subst (λ d. PromiseStep (promise_of db) (promise_of d)) (sym r.kept)
        (rests (λ id. refl) (λ k. refl))
  | inr i ↦
      subst (λ d. PromiseStep (promise_of db) (promise_of d)) (sym i.added)
        (opens draws.ticket_id (record {
          was = ap status_of (i.ticket_free);
          is = new_ticket_first dto draws db.tickets;
          others = λ other ne. new_ticket_other dto draws db.tickets other ne;
          announced = λ k. refl;
        }))
]

module _ {S : Type 0} (dispatch : DispatchMessage → S → Dispatched × S) (env : EnvVars) where
  drain_rests :
      (now : ℕ) (random : OutboxMessageEntity → Random) (locked : Text → Bool) (d : Drain S)
      (db : Db)
      → d.rows ≡ db.outbox_messages
      → PromiseStep (promise_of db) (
          promise_of
            (record db { outbox_messages = (drain_once dispatch env now random locked d).1.rows }))
  unfolding drain_once
  drain_rests now random locked d db same =
      rests (λ id. refl)
        (λ k.
          announced_count k _
          ∙ ap (ltb 0) (
              dispatch_rows_count dispatch env now random (has_dedup_key k)
                (λ a b e f. ap (λ j. text_eq j k) e) d
                (claim_batch locked now env.outbox_relay_batch_size d.rows))
          ∙ ap (λ rows. ltb 0 (count_rows (has_dedup_key k) rows)) same
          ∙ sym (announced_count k db.outbox_messages))

  Step-PromiseStep :
      {s u : State}
      → Step dispatch env s u
      → IsSound s
      → PromiseStep (promise_of s.db) (promise_of u.db)
  Step-PromiseStep {s} {u} st v = steps st (Step-IsSound dispatch env st v)
    where
      steps :
          {w : State}
          → Step dispatch env s w
          → IsSound w
          → PromiseStep (promise_of s.db) (promise_of w.db)
      steps (inserts_key id key request_hash now rows e same) next =
          rw same (rests (λ i. refl) (λ k. refl))
      steps (reclaims key now same) next = rw same (rests (λ i. refl) (λ k. refl))
      steps (completes key ticket_id code body now same) next =
          rw same (rests (λ i. refl) (λ k. refl))
      steps (fails key now same) next = rw same (rests (λ i. refl) (λ k. refl))
      steps (writes_letters letters same) next = rw same (rests (λ i. refl) (λ k. refl))
      steps (loads id ticket found same) next = rw same (rests (λ i. refl) (λ k. refl))
      steps (creates key dto draws ids db e same) next =
          rw same (create_steps key dto draws ids s.db db e)
      steps (persists m now id prior outcome job db read result e same) next = rw same (
          persist_steps m now id prior outcome job s.db db v.consistent result e
            (subst (λ x. All (IsNotified x.db.outbox_messages) x.db.tickets) same next.notified))
      steps (drains now random locked outside metrics same) next = rw same (
          drain_rests now random locked
            (record { rows = s.db.outbox_messages; outside = outside; metrics = metrics }) s.db
            refl)

  runs :
      {s u : State}
      → Run dispatch env s u
      → IsSound s
      → PromiseRun (promise_of s.db) (promise_of u.db)
  runs here v = PromiseRun.here
  runs (then_step r st) v =
      PromiseRun.then_step (runs r v) (Step-PromiseStep st (Run-IsSound dispatch env r v))

  -- The service keeps its promise: from any state that it can reach from an empty database, further
  -- steps, in any order, are steps of the promise, in which a ticket opens as PENDING under an id that
  -- was free and is settled only with its announcement. So a ticket that is ENRICHED stays ENRICHED,
  -- one that is settled, as ENRICHED or DEGRADED, stays settled, an announced effect stays announced,
  -- and every effect that is announced in between is that of a ticket that is settled by then.
  pub Run-PromiseRun :
      (s u : State)
      → Run dispatch env (record { db = empty_db; reads = [] }) s
      → Run dispatch env s u
      → PromiseRun (promise_of s.db) (promise_of u.db) × Keeps (promise_of s.db) (promise_of u.db)
  Run-PromiseRun s u before after =
      let sound =
        Run-IsSound dispatch env before
          (record { consistent = empty-IsConsistent; notified = tt; reads = tt }) in
      let run = runs after sound in (run, PromiseRun-Keeps run)
