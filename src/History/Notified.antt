-- ===== src/History/Notified.antt =====
-- No ticket leaves PENDING without its notification in the outbox, in any interleaving of jobs.
use triage_engine.Prelude.{
  ℕ, ◌<◌, Text, text_eq, Bool, List, [], some, ◌≡◌, refl, sym, ◌∙◌, ap, subst, inl, inr, arith,
  count_rows, All, All-mono,
}
use triage_engine.Config.{EnvVars}
use triage_engine.Backoff.{Random}
use triage_engine.Entities.{
  Metric, CreateEventDto, EnrichmentStatus, Db, OutboxMessageEntity, PipelineJobData,
}
use triage_engine.Outbox.{DispatchMessage, Dispatched, has_dedup_key}
use triage_engine.Outbox.Relay.{drain_once}
use triage_engine.Events.Insert.{Draws, create_ticket_if_absent}
use triage_engine.Events.Create.{create_cases}
use triage_engine.Pipeline.Processor.{persist_and_emit, EnrichmentOutcome, effect_of}
use triage_engine.History.{
  State, Step, inserts_key, reclaims, creates, completes, fails, loads, persists, drains,
  writes_letters, Run, here, then_step, IsConsistent, empty_db, HasRead, IsResult,
}
use triage_engine.Outbox.Relay.Batch.{dispatch_rows_count}
use triage_engine.History.Invariant.{Step-IsConsistent, empty-IsConsistent, persist_cases}
use triage_engine.History.Effects.{
  triaged_key, is_pending, IsNotified, IsOutdated, IsSound, emit_effect-Grows, first_emits,
}
use triage_engine.History.Reads.{
  HasRead-All, load-IsOutdated, write-IsOutdated, written-IsNotified, All-when, insert-IsOutdated,
}

persist-IsSound :
    (message_id : Text) (now : ℕ) (id : Text) (prior : EnrichmentStatus)
    (outcome : EnrichmentOutcome) (job : PipelineJobData) (s : State) (db : Db)
    → HasRead s.reads id prior
    → IsResult outcome.status
    → persist_and_emit message_id now id prior outcome job s.db ≡ some (tt, db)
    → IsConsistent db
    → IsSound s
    → IsSound (record s { db = db })
persist-IsSound message_id now id prior outcome job s db read result e next v =
    elim (persist_cases message_id now id prior outcome job s.db db e) [
      | inl lost ↦ record {
        consistent = next;
        notified = subst (λ d. All (IsNotified d.outbox_messages) d.tickets) (sym lost) v.notified;
        reads = subst (λ d. All (IsOutdated d.tickets) s.reads) (sym lost) v.reads;
      }
      | inr (rows, done, wrote, won) ↦
          let outdated = HasRead-All (IsOutdated s.db.tickets) s.reads id prior v.reads read in
          record {
            consistent = next;
            notified =
                subst (λ d. All (IsNotified d.outbox_messages) d.tickets) (sym wrote)
                  (written-IsNotified s.db.outbox_messages rows id prior now outcome s.db.tickets
                    (emit_effect-Grows message_id now (effect_of prior id outcome job)
                      s.db.outbox_messages rows done)
                    (first_emits message_id now id prior outcome job s.db.outbox_messages rows
                      v.consistent.effects v.consistent.messages done)
                    (All-when _ (is_pending prior) s.db.tickets outdated.1) v.notified);
            reads =
                subst (λ d. All (IsOutdated d.tickets) s.reads) (sym wrote)
                  (All-mono s.reads (λ r h. write-IsOutdated id now outcome s.db.tickets r result h)
                    v.reads);
          }
    ]

keeps-IsSound :
    (s u : State)
    → IsConsistent u.db
    → u.db.tickets ≡ s.db.tickets
    → u.db.outbox_messages ≡ s.db.outbox_messages
    → u.reads ≡ s.reads
    → IsSound s
    → IsSound u
keeps-IsSound s u next tickets messages reads v = record {
  consistent = next;
  notified = rw (tickets, messages) v.notified;
  reads = rw (tickets, reads) v.reads;
}

create-IsSound :
    (key : Text) (dto : CreateEventDto) (draws : Draws) (ids : Text × Text) (s : State) (db : Db)
    → create_ticket_if_absent key dto draws s.db ≡ some (ids, db)
    → IsConsistent db
    → IsSound s
    → IsSound (record s { db = db })
create-IsSound key dto draws ids s db e next v = elim (create_cases key dto draws ids s.db db e) [
  | inl r ↦
      keeps-IsSound s (record s { db = db }) next (ap (λ d. d.tickets) (r.kept))
        (ap (λ d. d.outbox_messages) (r.kept)) refl v
  | inr i ↦ record {
    consistent = next;
    notified =
        subst (λ d. All (IsNotified d.outbox_messages) d.tickets) (sym i.added)
          ((λ left. absurd (ground (arith, left))), v.notified);
    reads =
        subst (λ d. All (IsOutdated d.tickets) s.reads) (sym i.added)
          (All-mono s.reads (λ r h. insert-IsOutdated dto draws s.db.tickets r i.ticket_free h)
            v.reads);
  }
]

module _ {S : Type 0} (dispatch : DispatchMessage → S → Dispatched × S) (env : EnvVars) where
  drain-IsSound :
      (now : ℕ) (random : OutboxMessageEntity → Random) (locked : Text → Bool) (outside : S)
      (metrics : List Metric) (s : State) (rows : List OutboxMessageEntity)
      → rows
        ≡ (drain_once dispatch env now random locked
            (record { rows = s.db.outbox_messages; outside = outside; metrics = metrics })).1.rows
      → IsConsistent (record (s.db) { outbox_messages = rows })
      → IsSound s
      → IsSound (record s { db = record (s.db) { outbox_messages = rows } })
  unfolding drain_once
  drain-IsSound now random locked outside metrics s rows same next v = record {
    consistent = next;
    notified =
        All-mono s.db.tickets
          (λ t h left.
            subst (λ n. 0 < n)
              (sym (
                ap (λ rs. count_rows (has_dedup_key (triaged_key t.id)) rs) same
                ∙ dispatch_rows_count dispatch env now random (has_dedup_key (triaged_key t.id))
                    (λ a b e f. ap (λ k. text_eq k (triaged_key t.id)) e) _ _))
              (h left))
          v.notified;
    reads = v.reads;
  }

  pub Step-IsSound : {s u : State} → Step dispatch env s u → IsSound s → IsSound u
  Step-IsSound {s} {u} st v = steps st (Step-IsConsistent dispatch env st v.consistent)
    where
      steps : {w : State} → Step dispatch env s w → IsConsistent w.db → IsSound w
      steps (inserts_key id key request_hash now rows e same) next =
          keeps-IsSound s _ next (ap (λ x. x.db.tickets) same) (ap (λ x. x.db.outbox_messages) same)
            (ap (λ x. x.reads) same) v
      steps (reclaims key now same) next =
          keeps-IsSound s _ next (ap (λ x. x.db.tickets) same) (ap (λ x. x.db.outbox_messages) same)
            (ap (λ x. x.reads) same) v
      steps (completes key ticket_id code body now same) next =
          keeps-IsSound s _ next (ap (λ x. x.db.tickets) same) (ap (λ x. x.db.outbox_messages) same)
            (ap (λ x. x.reads) same) v
      steps (fails key now same) next =
          keeps-IsSound s _ next (ap (λ x. x.db.tickets) same) (ap (λ x. x.db.outbox_messages) same)
            (ap (λ x. x.reads) same) v
      steps (writes_letters letters same) next =
          keeps-IsSound s _ next (ap (λ x. x.db.tickets) same) (ap (λ x. x.db.outbox_messages) same)
            (ap (λ x. x.reads) same) v
      steps (loads id ticket found same) next = subst IsSound (sym same) (record {
        consistent = v.consistent;
        notified = v.notified;
        reads = (load-IsOutdated s.db v.consistent id ticket found, v.reads);
      })
      steps (creates key dto draws ids db e same) next =
          subst IsSound (sym same)
            (create-IsSound key dto draws ids s db e (subst (λ x. IsConsistent x.db) same next) v)
      steps (persists m now id prior outcome job db read result e same) next =
          subst IsSound (sym same) (
            persist-IsSound m now id prior outcome job s db read result e
              (subst (λ x. IsConsistent x.db) same next) v)
      steps (drains now random locked outside metrics same) next = subst IsSound (sym same) (
          drain-IsSound now random locked outside metrics s _ refl
            (subst (λ x. IsConsistent x.db) same next) v)

  pub Run-IsSound : {s u : State} → Run dispatch env s u → IsSound s → IsSound u
  Run-IsSound here v = v
  Run-IsSound (then_step r st) v = Step-IsSound st (Run-IsSound r v)

  -- After any steps of the service from an empty database, in any order, each ticket that is not
  -- PENDING has its `triaged` message in the outbox.
  pub Run-IsNotified :
      (u : State)
      → Run dispatch env (record { db = empty_db; reads = [] }) u
      → All (IsNotified u.db.outbox_messages) u.db.tickets
  Run-IsNotified u r =
      (Run-IsSound r
        (record { consistent = empty-IsConsistent; notified = tt; reads = tt })).notified
