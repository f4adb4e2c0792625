-- ===== src/History/Invariant.antt =====
-- Every step of the service keeps the database consistent.
use triage_engine.Prelude.{
  ◌<◌, ℕ, Text, text_eq, Bool, List, Option, none, some, ltb, ◌≡◌, refl, ap, sym, ◌⊎◌, inl, inr,
  arith, count_rows, update_rows, Option-cases, Bool-cases, subst,
}
use triage_engine.Config.{EnvVars}
use triage_engine.Backoff.{Random}
use triage_engine.Entities.{EnrichmentStatus, OutboxMessageEntity, Db, PipelineJobData}
use triage_engine.Idempotency.{reclaim, mark_completed, mark_failed}
use triage_engine.Outbox.{DispatchMessage, Dispatched, EmitInput, has_id, has_dedup_key, emit}
use triage_engine.Outbox.Emit.{HasUniqueDedupKeys, HasUniqueIds, emit_lem}
use triage_engine.Outbox.Relay.Batch.{dispatch_rows_count}
use triage_engine.Outbox.Relay.{Drain, drain_once, claim_batch}
use triage_engine.Pipeline.Processor.{
  EnrichmentOutcome, is_writable, write_outcome, effect_of, emit_effect, persist_and_emit,
}
use triage_engine.History.{
  State, Step, inserts_key, reclaims, creates, completes, fails, loads, persists, drains,
  writes_letters, Run, here, then_step, IsConsistent, empty_db,
}
use triage_engine.History.Tables.{
  updates_keys, inserts, create-IsConsistent, with_messages, updates_tickets,
}

emit_effect_unique :
    (message_id : Text) (now : ℕ) (effect : Option EmitInput)
    (rows rows' : List OutboxMessageEntity)
    → HasUniqueDedupKeys rows
    → HasUniqueIds rows
    → emit_effect message_id now effect rows ≡ some rows'
    → HasUniqueDedupKeys rows' × HasUniqueIds rows'
unfolding emit_effect
emit_effect_unique message_id now none rows rows' u w e =
    let same : rows ≡ rows' = cc in (subst HasUniqueDedupKeys same u, subst HasUniqueIds same w)
emit_effect_unique message_id now (some input) rows rows' u w e =
    elim (Option-cases (emit message_id now input rows)) [
      | inl refused ↦ absurd (ground (arith, refused))
      | inr ((key, after), done) ↦
          let same : after ≡ rows' = ground (arith, done) in
          let lem =
            emit_lem message_id message_id now now input input rows after key u w refl done in
          (subst HasUniqueDedupKeys same lem.1, subst HasUniqueIds same lem.2)
    ]

-- What a committed write of a run leaves: either nothing new, or the written ticket with the effect.
pub persist_cases :
    (message_id : Text) (now : ℕ) (id : Text) (prior : EnrichmentStatus)
    (outcome : EnrichmentOutcome) (job : PipelineJobData) (db db' : Db)
    → persist_and_emit message_id now id prior outcome job db ≡ some (tt, db')
    → (db' ≡ db)
      ⊎ ((rows : List OutboxMessageEntity) × (emit_effect message_id now
              (effect_of prior id outcome job)
              db.outbox_messages
            ≡ some rows)
          × (db' ≡ record db {
            tickets =
                update_rows (is_writable id outcome.status) (write_outcome now outcome) db.tickets;
            outbox_messages = rows;
          })
          × (0 < count_rows (is_writable id outcome.status) db.tickets))
unfolding persist_and_emit
persist_cases message_id now id prior outcome job db db' e =
    elim (Bool-cases (ltb 0 (count_rows (is_writable id outcome.status) db.tickets))) [
      | inr lost ↦ inl (ground (arith, lost))
      | inl won ↦
          elim (Option-cases
            (emit_effect message_id now (effect_of prior id outcome job) db.outbox_messages)) [
              | inl refused ↦ absurd (ground (arith, won, refused))
              | inr (rows, done) ↦ inr (rows, done, ground (arith, won, done), ground (arith, won))
            ]
    ]

persist-IsConsistent :
    (message_id : Text) (now : ℕ) (id : Text) (prior : EnrichmentStatus)
    (outcome : EnrichmentOutcome) (job : PipelineJobData) (db db' : Db)
    → IsConsistent db
    → persist_and_emit message_id now id prior outcome job db ≡ some (tt, db')
    → IsConsistent db'
persist-IsConsistent message_id now id prior outcome job db db' v e =
    elim (persist_cases message_id now id prior outcome job db db' e) [
      | inl same ↦ subst IsConsistent (sym same) v
      | inr (rows, done, wrote, won) ↦
          let unique =
            emit_effect_unique message_id now (effect_of prior id outcome job) db.outbox_messages
              rows v.effects v.messages done in
          subst IsConsistent (sym wrote) (
            updates_tickets (with_messages v rows unique.0 unique.1) (is_writable id outcome.status)
              now outcome)
    ]

module _ {S : Type 0} (dispatch : DispatchMessage → S → Dispatched × S) (env : EnvVars) where
  drain-IsConsistent :
      (now : ℕ) (random : OutboxMessageEntity → Random) (locked : Text → Bool) (d : Drain S)
      (db : Db)
      → d.rows ≡ db.outbox_messages
      → IsConsistent db
      → IsConsistent
          (record db { outbox_messages = (drain_once dispatch env now random locked d).1.rows })
  unfolding drain_once
  drain-IsConsistent now random locked d db same v =
      let batch = claim_batch locked now env.outbox_relay_batch_size d.rows in
      with_messages v _
        (λ key.
          rw
            (
              dispatch_rows_count dispatch env now random (has_dedup_key key)
                  (λ a b e f. ap (λ k. text_eq k key) e) d batch,
              same,
            )
            (v.effects key))
        (λ id.
          rw
            (
              dispatch_rows_count dispatch env now random (has_id id)
                  (λ a b e f. ap (λ k. text_eq k id) f) d batch,
              same,
            )
            (v.messages id))

  pub Step-IsConsistent :
      {s u : State} → Step dispatch env s u → IsConsistent s.db → IsConsistent u.db
  unfolding reclaim mark_completed mark_failed
  Step-IsConsistent {s} (inserts_key id key request_hash now rows e same) v =
      rw same (inserts v id key request_hash now rows e)
  Step-IsConsistent {s} (reclaims key now same) v =
      rw same (updates_keys v _ _ (λ r. refl) (λ r h. h))
  Step-IsConsistent {s} (creates key dto draws ids db e same) v =
      rw same (create-IsConsistent v key dto draws ids db e)
  Step-IsConsistent {s} (completes key ticket_id code body now same) v =
      rw same (updates_keys v _ _ (λ r. refl) (λ r h. refl))
  Step-IsConsistent {s} (fails key now same) v = rw same (updates_keys v _ _ (λ r. refl) (λ r h. h))
  Step-IsConsistent {s} (loads id ticket e same) v = rw same v
  Step-IsConsistent {s} (persists message_id now id prior outcome job db read result e same) v =
      rw same (persist-IsConsistent message_id now id prior outcome job s.db db v e)
  Step-IsConsistent {s} (drains now random locked outside metrics same) v = rw same (
      drain-IsConsistent now random locked
        (record { rows = s.db.outbox_messages; outside = outside; metrics = metrics }) s.db refl v)
  Step-IsConsistent {s} (writes_letters letters same) v = rw same (record {
    keys = v.keys;
    attached = v.attached;
    events = v.events;
    tickets = v.tickets;
    owned = v.owned;
    effects = v.effects;
    messages = v.messages;
  })

  pub Run-IsConsistent :
      {s u : State} → Run dispatch env s u → IsConsistent s.db → IsConsistent u.db
  Run-IsConsistent here v = v
  Run-IsConsistent (then_step r st) v = Step-IsConsistent st (Run-IsConsistent r v)

pub empty-IsConsistent : IsConsistent empty_db
unfolding count_rows
empty-IsConsistent = record {
  keys = λ k. omega arith;
  attached = λ k. omega arith;
  events = λ k. omega arith;
  tickets = λ k. omega arith;
  owned = λ k. omega arith;
  effects = λ k. omega arith;
  messages = λ k. omega arith;
}
