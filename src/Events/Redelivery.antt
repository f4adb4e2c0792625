-- ===== src/Events/Redelivery.antt =====
-- An event that was accepted, delivered again.
use triage_engine.Prelude.{
  ℕ, Text, text_eq_refl, true, Option, ◌∷◌, some, ◌≡◌, refl, sym, ap, subst, ◌∙◌, inl, inr, arith,
  Bool-cases, Option-cases,
}
use triage_engine.Config.{EnvVars}
use triage_engine.Json.{Json}
use triage_engine.Queue.{QueueOps}
use triage_engine.Pipeline.{World, Outcome, ok, threw}
use triage_engine.Pipeline.JobId.{is_usable_as_job_id}
use triage_engine.Entities.{
  accepted, replayed, events_ingested_duplicate, CreateEventDto, IngestResult,
}
use triage_engine.Idempotency.{
  ClaimResult, is_new, replay, in_flight, conflict, claim, mark_completed,
}
use triage_engine.Events.Insert.{Reply, answered, refused, lost, Draws}
use triage_engine.Events.Ends.{gives_up, goes_through, process_new-Ends}
use triage_engine.Events.{
  key_of, request_hash_of, ingest, answer_claim, accepted_response, process_new, fail_new,
  complete_new,
}
use triage_engine.Events.Answers.{
  HasHash, HasAnswer, claim-HasHash, create-HasHash, complete-HasAnswer,
}

module _ {R : Type 0} (q : QueueOps R) (env : EnvVars) where
  -- A completion that returns has written what it returns.
  complete_new_ok :
      (key ticket_id job_id : Text) (now : ℕ) (reply : Reply) (answer : IngestResult)
      (w w' : World R)
      → complete_new q env key ticket_id job_id now reply w ≡ (ok answer, w')
      → (accepted_response key ticket_id job_id ≡ answer)
        × (w'.db.idempotency_keys
            ≡ mark_completed key ticket_id 202
                (accepted_response key ticket_id job_id)
                now
                w.db.idempotency_keys)
  unfolding complete_new
  complete_new_ok key ticket_id job_id now answered answer w w' e =
      (ground (arith, e), ground (arith, e))
  complete_new_ok key ticket_id job_id now refused answer w w' e = absurd (ground (arith, e))
  complete_new_ok key ticket_id job_id now lost answer w w' e = absurd (ground (arith, e))

  fail_new_threw :
      (key : Text) (now : ℕ) (reply : Reply) (w : World R)
      → (fail_new q env key now reply w).0 ≡ threw
  unfolding fail_new
  fail_new_threw key now answered w = refl
  fail_new_threw key now refused w = refl
  fail_new_threw key now lost w = refl

  -- A run that returns has completed the key with what it returns.
  process_new-HasAnswer :
      (key request_hash : Text) (dto : CreateEventDto) (correlation_id : Option Text)
      (draws : Draws) (answer : IngestResult) (w w' : World R)
      → process_new q env key dto correlation_id draws w ≡ (ok answer, w')
      → HasHash key request_hash w.db.idempotency_keys
      → (ticket_id : Text) × (answer.ticket_id ≡ some ticket_id)
        × HasAnswer key request_hash ticket_id answer w'.db.idempotency_keys
  process_new-HasAnswer key request_hash dto correlation_id draws answer w w' e has =
      elim (process_new-Ends q env key dto correlation_id draws w) [
        | gives_up before left same ↦
            absurd
              (ground (arith, same, e, fail_new_threw key draws.finished_at draws.failing before))
        | goes_through ids db job_id redis done same ↦
            let (body, rows) =
              complete_new_ok key ids.0 job_id draws.finished_at draws.completing answer
                (record w { db = db; redis = redis }) w' (sym same ∙ e) in
            let kept =
              complete-HasAnswer key request_hash ids.0 202 (accepted_response key ids.0 job_id)
                draws.finished_at db.idempotency_keys
                (create-HasHash key request_hash dto draws ids w.db db done has) in
            (
              ids.0,
              rw (sym body) refl,
              subst (λ a. HasAnswer key request_hash ids.0 a w'.db.idempotency_keys) body
                  (subst (HasAnswer key request_hash ids.0 (accepted_response key ids.0 job_id))
                    (sym rows) kept),
            )
      ]

  module _ (sha256_hex : Text → Text) (stringify : Json → Text) where
    -- What a redelivery gets.
    abbrev pub redelivered : (key : Text) → IngestResult → World R → Outcome IngestResult × World R
    redelivered key answer w = (
      ok (record {
        status = replayed;
        idempotency_key = key;
        ticket_id = answer.ticket_id;
        job_id = answer.job_id;
      }),
      record w { metrics = events_ingested_duplicate ∷ w.metrics },
    )

    ingest_answered :
        (dto : CreateEventDto) (header_key correlation_id : Option Text) (draws : Draws)
        (answer : IngestResult) (ticket_id : Text) (w : World R)
        → is_usable_as_job_id (key_of sha256_hex stringify header_key dto) ≡ true
        → answer.ticket_id ≡ some ticket_id
        → HasAnswer
            (key_of sha256_hex stringify header_key dto)
            (request_hash_of sha256_hex stringify dto)
            ticket_id
            answer
            w.db.idempotency_keys
        → ingest q env sha256_hex stringify dto header_key correlation_id draws w
          ≡ redelivered (key_of sha256_hex stringify header_key dto) answer w
    unfolding ingest answer_claim claim
    ingest_answered dto header_key correlation_id draws answer ticket_id w usable ticket
          (r, found, same, done, mine, body) =
        ground (
          arith,
          usable,
          ticket,
          found,
          same,
          done,
          mine,
          body,
          text_eq_refl (request_hash_of sha256_hex stringify dto),
        )

    is_accepted_new :
        (dto : CreateEventDto) (key : Text) (correlation_id : Option Text) (draws : Draws)
        (answer : IngestResult) (result : ClaimResult) (w w' : World R)
        → answer.status ≡ accepted
        → answer_claim q env key dto correlation_id draws result w ≡ (ok answer, w')
        → (result ≡ is_new) × (process_new q env key dto correlation_id draws w ≡ (ok answer, w'))
    unfolding answer_claim
    is_accepted_new dto key correlation_id draws answer is_new w w' status e = (refl, e)
    is_accepted_new dto key correlation_id draws answer (replay r) w w' status e =
        absurd (ground (arith, status, e))
    is_accepted_new dto key correlation_id draws answer (in_flight r) w w' status e =
        absurd (ground (arith, status, e))
    is_accepted_new dto key correlation_id draws answer (conflict r) w w' status e =
        absurd (ground (arith, e))

    -- An event that was accepted and is delivered again, under the same key and with the same
    -- content, answers `replayed` with the ticket and the job of the first answer; it writes nothing
    -- to the database and queues nothing.
    pub ingest_again :
        (dto : CreateEventDto) (header_key correlation_id correlation_id' : Option Text)
        (draws draws' : Draws) (answer : IngestResult) (w w' : World R)
        → ingest q env sha256_hex stringify dto header_key correlation_id draws w ≡ (ok answer, w')
        → answer.status ≡ accepted
        → ingest q env sha256_hex stringify dto header_key correlation_id' draws' w'
          ≡ redelivered (key_of sha256_hex stringify header_key dto) answer w'
    unfolding ingest
    ingest_again dto header_key correlation_id correlation_id' draws draws' answer w w' e status =
        let key = key_of sha256_hex stringify header_key dto in
        let hash = request_hash_of sha256_hex stringify dto in
        elim (Bool-cases (is_usable_as_job_id key)) [
          | inr bad ↦ absurd (ground (arith, bad, e))
          | inl usable ↦
              elim (Option-cases (
                claim env.idempotency_lease_ms draws.key_id key hash draws.claimed_at
                  draws.reclaimed_at w.db.idempotency_keys)) [
                    | inl failed ↦ absurd (ground (arith, usable, failed, e))
                    | inr ((result, rows), claimed) ↦
                        let first =
                          is_accepted_new dto key correlation_id draws answer result
                            (record w { db = record (w.db) { idempotency_keys = rows } }) w' status
                            (ground (arith, usable, claimed, e)) in
                        let (ticket_id, ticket, has) =
                          process_new-HasAnswer key hash dto correlation_id draws answer
                            (record w { db = record (w.db) { idempotency_keys = rows } }) w' first.1
                            (claim-HasHash env.idempotency_lease_ms draws.key_id key hash
                              draws.claimed_at draws.reclaimed_at w.db.idempotency_keys rows
                              (claimed ∙ ap (λ c. some (c, rows)) first.0)) in
                        ingest_answered dto header_key correlation_id' draws' answer ticket_id w'
                          usable ticket has
                  ]
        ]
