-- ===== src/Events/Retry.antt =====
-- A request that failed half-way, sent again.
use triage_engine.Prelude.{
  ℕ, ◌+◌, ◌<◌, Text, is_some, ◌≢◌, ◌⊎◌, true, List, Option, some, ◌≡◌, refl, sym, ap, subst, ◌∙◌,
  inl, inr, arith, Bool-cases,
}
use triage_engine.Config.{EnvVars}
use triage_engine.Json.{Json}
use triage_engine.Queue.{QueueOps}
use triage_engine.Entities.{CreateEventDto, IngestResult, IdempotencyKeyEntity}
use triage_engine.Pipeline.{World, threw}
use triage_engine.Pipeline.JobId.{is_usable_as_job_id}
use triage_engine.Idempotency.{ClaimResult, is_new, replay, in_flight, conflict, claim}
use triage_engine.Idempotency.Claim.{HasUniqueKeys, claim_lem}
use triage_engine.Events.Insert.{Reply, answered, refused, lost, Draws}
use triage_engine.Events.Ends.{gives_up, goes_through, process_new-Ends}
use triage_engine.Events.{
  accepted_response, key_of, request_hash_of, fail_new, complete_new, process_new, answer_claim,
  ingest,
}
use triage_engine.Events.Answers.{HasAnswer, complete-HasAnswer}
use triage_engine.Events.Held.{
  IsHeld, HasFailed, IsHeld-HasHash, claim-IsHeld, create-IsHeld, fail-HasFailed, HasFailed-claim,
  HasAnswer-claim, IsHeld-claim,
}

-- What a throw leaves of the key: it is FAILED; or still held, where the last UPDATE was refused; or
-- completed, where only the answer of that UPDATE was lost.
data Left (key request_hash : Text) (draws : Draws) (rows : List IdempotencyKeyEntity)
    : Type 0 where
  given_up : HasFailed key request_hash rows → Left key request_hash draws rows
  held :
      (draws.failing ≡ refused) ⊎ (draws.completing ≡ refused)
      → IsHeld key request_hash draws rows
      → Left key request_hash draws rows
  completed :
      (ticket_id : Text) (body : IngestResult)
      → draws.completing ≡ lost
      → HasAnswer key request_hash ticket_id body rows
      → Left key request_hash draws rows

module _ {R : Type 0} (q : QueueOps R) (env : EnvVars) where
  fail_new-Left :
      (key request_hash : Text) (draws : Draws) (reply : Reply) (w : World R)
      → draws.failing ≡ reply
      → IsHeld key request_hash draws w.db.idempotency_keys
      → Left key request_hash draws
          (fail_new q env key draws.finished_at reply w).1.db.idempotency_keys
  unfolding fail_new
  fail_new-Left key request_hash draws answered w which is_held = given_up (
      fail-HasFailed key request_hash draws.finished_at w.db.idempotency_keys
        (IsHeld-HasHash key request_hash draws w.db.idempotency_keys is_held))
  fail_new-Left key request_hash draws refused w which is_held = held (inl which) is_held
  fail_new-Left key request_hash draws lost w which is_held = given_up (
      fail-HasFailed key request_hash draws.finished_at w.db.idempotency_keys
        (IsHeld-HasHash key request_hash draws w.db.idempotency_keys is_held))

  complete_new-Left :
      (key request_hash ticket_id job_id : Text) (draws : Draws) (reply : Reply) (w : World R)
      → draws.completing ≡ reply
      → (complete_new q env key ticket_id job_id draws.finished_at reply w).0 ≡ threw
      → IsHeld key request_hash draws w.db.idempotency_keys
      → Left key request_hash draws
          (complete_new q env key ticket_id job_id draws.finished_at reply w).1.db.idempotency_keys
  unfolding complete_new
  complete_new-Left key request_hash ticket_id job_id draws answered w which thrown is_held =
      absurd (ground (arith, thrown))
  complete_new-Left key request_hash ticket_id job_id draws refused w which thrown is_held =
      held (inr which) is_held
  complete_new-Left key request_hash ticket_id job_id draws lost w which thrown is_held =
      completed ticket_id (accepted_response key ticket_id job_id) which (
        complete-HasAnswer key request_hash ticket_id 202 (accepted_response key ticket_id job_id)
          draws.finished_at w.db.idempotency_keys
          (IsHeld-HasHash key request_hash draws w.db.idempotency_keys is_held))

  process_new-Left :
      (key request_hash : Text) (dto : CreateEventDto) (correlation_id : Option Text)
      (draws : Draws) (w w' : World R)
      → process_new q env key dto correlation_id draws w ≡ (threw, w')
      → IsHeld key request_hash draws w.db.idempotency_keys
      → Left key request_hash draws w'.db.idempotency_keys
  process_new-Left key request_hash dto correlation_id draws w w' e is_held =
      elim (process_new-Ends q env key dto correlation_id draws w) [
        | gives_up before left same ↦
            let kept : IsHeld key request_hash draws before.db.idempotency_keys = elim left [
              | inl untouched ↦
                  subst (λ d. IsHeld key request_hash draws d.idempotency_keys) (sym untouched)
                    is_held
              | inr (ids, done) ↦
                  create-IsHeld key request_hash dto draws ids w.db before.db done is_held
            ] in
            subst (λ x. Left key request_hash draws x.1.db.idempotency_keys) (sym same ∙ e)
              (fail_new-Left key request_hash draws draws.failing before refl kept)
        | goes_through ids db job_id redis done same ↦
            let before = record w { db = db; redis = redis } in
            subst (λ x. Left key request_hash draws x.1.db.idempotency_keys) (sym same ∙ e)
              (complete_new-Left key request_hash ids.0 job_id draws draws.completing before refl
                (ap (λ x. x.0) (sym same ∙ e))
                (create-IsHeld key request_hash dto draws ids w.db db done is_held))
      ]

  module _ (sha256_hex : Text → Text) (stringify : Json → Text) where
    thrown_is_new :
        (dto : CreateEventDto) (key : Text) (correlation_id : Option Text) (draws : Draws)
        (result : ClaimResult) (w w' : World R)
        → answer_claim q env key dto correlation_id draws result w ≡ (threw, w')
        → (result ≡ is_new) × (process_new q env key dto correlation_id draws w ≡ (threw, w'))
    unfolding answer_claim
    thrown_is_new dto key correlation_id draws is_new w w' e = (refl, e)
    thrown_is_new dto key correlation_id draws (replay r) w w' e = absurd (ground (arith, e))
    thrown_is_new dto key correlation_id draws (in_flight r) w w' e = absurd (ground (arith, e))
    thrown_is_new dto key correlation_id draws (conflict r) w w' e = absurd (ground (arith, e))

    ingest-Left :
        (dto : CreateEventDto) (header_key correlation_id : Option Text) (draws : Draws)
        (w w' : World R)
        → HasUniqueKeys w.db.idempotency_keys
        → ingest q env sha256_hex stringify dto header_key correlation_id draws w ≡ (threw, w')
        → Left
            (key_of sha256_hex stringify header_key dto)
            (request_hash_of sha256_hex stringify dto)
            draws
            w'.db.idempotency_keys
    unfolding ingest
    ingest-Left dto header_key correlation_id draws w w' unique e =
        let key = key_of sha256_hex stringify header_key dto in
        let hash = request_hash_of sha256_hex stringify dto in
        let lease = env.idempotency_lease_ms in
        elim (Bool-cases (is_usable_as_job_id key)) [
          | inr bad ↦ absurd (ground (arith, bad, e))
          | inl usable ↦
              let (rows, claimed, leaves) =
                claim_lem lease draws.key_id key hash draws.claimed_at draws.reclaimed_at
                  w.db.idempotency_keys unique in
              let world = record w { db = record (w.db) { idempotency_keys = rows } } in
              let first =
                thrown_is_new dto key correlation_id draws _ world w'
                  (ground (arith, usable, claimed, e)) in
              process_new-Left key hash dto correlation_id draws world w' first.1 (
                claim-IsHeld lease key hash draws w.db.idempotency_keys rows unique
                  (claimed ∙ ap (λ c. some (c, rows)) first.0))
        ]

    -- A request on a table with distinct keys that throws leaves its key recoverable. Where the last
    -- UPDATE was not refused, nor its answer lost in completing the key, the same event, sent again,
    -- claims the key anew at any time. In every case it does so once the lease has passed, or, where
    -- only the answer of the completion was lost, it is answered with the ticket and the body stored.
    pub ingest_retryable :
        (dto : CreateEventDto) (header_key correlation_id : Option Text) (draws : Draws) (id : Text)
        (now later : ℕ) (w w' : World R)
        → HasUniqueKeys w.db.idempotency_keys
        → ingest q env sha256_hex stringify dto header_key correlation_id draws w ≡ (threw, w')
        → let key = key_of sha256_hex stringify header_key dto in
          let again =
            claim env.idempotency_lease_ms id key
              (request_hash_of sha256_hex stringify dto)
              now
              later
              w'.db.idempotency_keys in
          (draws.failing ≢ refused
            → draws.completing ≡ answered
            → (rows : List IdempotencyKeyEntity) × (again ≡ some (is_new, rows)))
          × (draws.claimed_at + env.idempotency_lease_ms < later
              → draws.reclaimed_at + env.idempotency_lease_ms < later
              → ((rows : List IdempotencyKeyEntity) × (again ≡ some (is_new, rows)))
                ⊎ ((r : IdempotencyKeyEntity) × (again ≡ some (replay r, w'.db.idempotency_keys))
                    × (draws.completing ≡ lost)
                    × (is_some r.ticket_id ≡ true)
                    × (is_some r.response_body ≡ true)))
    ingest_retryable dto header_key correlation_id draws id now later w w' unique e =
        let key = key_of sha256_hex stringify header_key dto in
        let hash = request_hash_of sha256_hex stringify dto in
        let lease = env.idempotency_lease_ms in
        let rows = w'.db.idempotency_keys in
        elim (ingest-Left dto header_key correlation_id draws w w' unique e) [
          | given_up failed ↦
              let free = HasFailed-claim lease id key hash now later rows failed in
              (λ a b. free, λ a b. inl free)
          | held (inl fails) is_held ↦ (
            λ a b. absurd (a fails),
            λ a b. inl (IsHeld-claim lease id key hash draws now later rows a b is_held),
          )
          | held (inr refuses) is_held ↦ (
            λ a b. absurd (ground (arith, refuses, b)),
            λ a b. inl (IsHeld-claim lease id key hash draws now later rows a b is_held),
          )
          | completed ticket_id body unheard has ↦
              let (r, replays, ticket, answer) =
                HasAnswer-claim lease id key hash ticket_id body now later rows has in
              (
                λ a b. absurd (ground (arith, unheard, b)),
                λ a b. inr (r, replays, unheard, rw ticket refl, rw answer refl),
              )
        ]
