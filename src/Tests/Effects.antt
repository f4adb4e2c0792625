-- ===== src/Tests/Effects.antt =====
-- The outbox, its relay and the consumer, and the canonical form.
use triage_engine.Prelude.{
  ℕ, ◌≤◌, Text, codes, text_eq, List, [], ◌∷◌, ◌++◌, some, is_some, not, ◌&&◌, ◌≡◌, refl, true,
  false, arith, find_row, count_rows, length, if◌then◌else◌, All, HasNoColon, ◌<◌, ◌+◌, or_else,
  ◌⊎◌, ◌↔◌,
}
use triage_engine.Config.{default_env}
use triage_engine.Json.{Json, str, null, obj, end, field, canonicalize}
use triage_engine.Json.Laws.{Same}
use triage_engine.Json.Content.{IsPlain, canonicalize_iff}
use triage_engine.Entities.{OutboxMessageEntity, is_due}
use triage_engine.Outbox.{
  emit, build_dedup_key, has_dedup_key, has_id, rejected, DispatchMessage, Dispatched,
}
use triage_engine.Outbox.Emit.{
  emit_lem, build_dedup_key-injective, HasUniqueDedupKeys, HasUniqueIds,
}
use triage_engine.Outbox.Relay.{
  claim_batch, drain_once, Timer, fires, ends, on_timer, tick_begin, tick_end, schedule_next,
  on_module_init, Drain,
}
use triage_engine.Outbox.Relay.Claim.{claim_batch-IsClaimable, claim_batch-disjoint, locks_of}
use triage_engine.Outbox.Relay.Fair.{IsOpen, IsInOrder, claim_batch_lem}
use triage_engine.Outbox.Relay.Batch.{after_dispatches, AreSettled, drain_once_lem}
use triage_engine.Outbox.Relay.Retry.{Try, tries, tries_end}
use triage_engine.Outbox.Relay.Polls.{Loop, starts, begins, finishes, IsPolling, relay_polls_on}
use triage_engine.Outbox.Sink.{get, receive, max_tracked_deliveries, tracked_key}
use triage_engine.Outbox.Sink.Laws.{IsSink, receive_lem, accepted, was_delivered, accepted_once}
use triage_engine.Outbox.Webhook.Link.{Link, Hop, loses_response}
use triage_engine.Outbox.Webhook.Once.{IsShipped, send}
use triage_engine.Outbox.Webhook.Runs.{
  Run, here, then_step, emits, drains, nothing_yet, Run-IsShipped,
}
use triage_engine.Outbox.{new_message}
use triage_engine.Tests.{sample_effect, sample_message, half}

abbrev one_message : List OutboxMessageEntity
one_message = sample_message ∷ []

one_message-HasUniqueIds : HasUniqueIds one_message
unfolding count_rows
one_message-HasUniqueIds i = ground arith

emit_lem_example :
    (count_rows (has_dedup_key (build_dedup_key sample_effect)) one_message ≡ 1)
    × HasUniqueDedupKeys one_message
    × HasUniqueIds one_message
    × (emit (codes "m2") 9 sample_effect one_message
        ≡ some (build_dedup_key sample_effect, one_message))
unfolding emit find_row
emit_lem_example =
    emit_lem (codes "m") (codes "m2") 5 9 sample_effect sample_effect [] one_message
      (build_dedup_key sample_effect) (unfold count_rows in λ k. omega arith)
      (unfold count_rows in λ k. omega arith) refl refl

sample_effect-HasNoColon :
    HasNoColon sample_effect.aggregate_type
    × HasNoColon sample_effect.aggregate_id
    × HasNoColon sample_effect.event_type
sample_effect-HasNoColon = ground arith

build_dedup_key-injective_example :
    (codes "ticket" ≡ codes "ticket")
    × (codes "t" ≡ codes "t")
    × (codes "ticket.triaged" ≡ codes "ticket.triaged")
    × (codes "v1" ≡ codes "v1")
build_dedup_key-injective_example =
    build_dedup_key-injective sample_effect sample_effect sample_effect-HasNoColon
      sample_effect-HasNoColon refl

claim_batch_lem_example :
    let batch = claim_batch (λ _. false) 7 20 one_message in
    (length batch ≤ 20)
    × HasUniqueIds batch
    × IsInOrder batch
    × All (IsOpen (λ _. false) 7) batch
    × ((r : OutboxMessageEntity)
        → find_row (has_id r.id) one_message ≡ some r
        → IsOpen (λ _. false) 7 r
        → count_rows (has_id r.id) batch ≡ 0
        → (length batch ≡ 20) × All (λ s. s.next_attempt_at ≤ r.next_attempt_at) batch)
claim_batch_lem_example = claim_batch_lem (λ _. false) 7 20 one_message one_message-HasUniqueIds

claim_batch-disjoint_example :
    let first = claim_batch (λ _. false) 7 20 one_message in
    HasUniqueIds (first ++ claim_batch (locks_of first) 8 20 one_message)
claim_batch-disjoint_example = claim_batch-disjoint 7 8 20 20 one_message one_message-HasUniqueIds

abbrev first_drain : Drain ℕ
first_drain = record { rows = one_message; outside = 0; metrics = [] }

-- A target that rejects what it is sent.
abbrev rejecting : DispatchMessage → ℕ → Dispatched × ℕ
rejecting message n = (rejected (codes "down"), n + 1)

drain_once_lem_example :
    let batch = claim_batch (λ _. false) 7 20 one_message in
    let result = drain_once rejecting default_env 7 (λ _. half) (λ _. false) first_drain in
    (result.0 ≡ length batch)
    × (result.1.outside ≡ after_dispatches rejecting 0 batch)
    × AreSettled rejecting default_env 7 0 batch result.1.rows
    × ((i : Text)
        → count_rows (has_id i) batch ≡ 0
        → find_row (has_id i) result.1.rows ≡ find_row (has_id i) one_message)
drain_once_lem_example =
    drain_once_lem rejecting default_env 7 (λ _. half) (λ _. false) first_drain
      one_message-HasUniqueIds

empty-IsSink : IsSink []
empty-IsSink = record { counted = tt; bounded = omega arith }

-- An effect is emitted and drained, but the response to its delivery is lost.
abbrev lossy : List Hop
lossy = loses_response (codes "reset") ∷ []

abbrev emitted : Drain Link
emitted = record (nothing_yet (λ json. []) default_env (λ message. []) lossy) {
  rows = new_message (codes "m") 5 sample_effect ∷ [];
}

abbrev drained : Drain Link
drained =
    (drain_once (send (λ json. []) default_env (λ message. [])) default_env 7 (λ _. half)
      (λ _. false) emitted).1

lossy-Run :
    Run
      (λ json. [])
      default_env
      (λ message. [])
      (nothing_yet (λ json. []) default_env (λ message. []) lossy)
      drained
unfolding emit find_row
lossy-Run =
    then_step
      (then_step here
        (emits (codes "m") 5 sample_effect (build_dedup_key sample_effect) emitted.rows refl refl))
      (drains 7 (λ _. half) (λ _. false)
        (omega (
          arith,
          (claim_batch-IsClaimable (λ _. false) 7 20 one_message one_message-HasUniqueIds).0,
        ))
        refl)

Run-IsShipped_example : IsShipped drained
Run-IsShipped_example =
    Run-IsShipped (λ json. []) default_env (λ message. []) lossy drained lossy-Run

abbrev a_try : Try
a_try = record { now = 7; random = half; answer = rejected (codes "down") }

abbrev ten_tries : List Try
ten_tries = a_try ∷ a_try ∷ a_try ∷ a_try ∷ a_try ∷ a_try ∷ a_try ∷ a_try ∷ a_try ∷ a_try ∷ []

tries_end_example :
    (is_due (tries default_env ten_tries sample_message).status ≡ false)
    × ((tries default_env ten_tries sample_message).attempts ≤ 10)
tries_end_example =
    tries_end default_env ten_tries sample_message
      (record { bounded = omega arith; left = λ _. omega arith }) (omega arith)

-- The first poll begins a drain, which fails; the next one begins another.
abbrev second_drain : Timer
second_drain =
    on_timer default_env fires
      (on_timer default_env (ends 0) (on_timer default_env fires on_module_init))

second_drain-Loop : Loop default_env 1 second_drain
unfolding on_timer tick_begin tick_end schedule_next
second_drain-Loop = begins 1000 (finishes 0 (begins 0 starts refl refl)) refl refl

relay_polls_on_example : IsPolling default_env 1 second_drain
relay_polls_on_example = relay_polls_on default_env 1 second_drain second_drain-Loop

receive_lem_example :
    let key = tracked_key (some (codes "k")) in
    let result = receive (some (codes "k")) [] in
    (result.0 ≡ is_some (get key []))
    × IsSink result.1
    × ((is_some (get key []) ≡ true) ⊎ (0 < max_tracked_deliveries)
        → (j : Text)
        → get j result.1 ≡ (if text_eq key j then some (or_else (get key []) 0 + 1) else get j []))
receive_lem_example = receive_lem (some (codes "k")) [] empty-IsSink

accepted_once_example : accepted (codes "k") (some (codes "k") ∷ some (codes "k") ∷ []) [] ≡ (
    if not (is_some (get (codes "k") []))
      && was_delivered (codes "k") (some (codes "k") ∷ some (codes "k") ∷ [])
    then 1
    else 0)
accepted_once_example =
    accepted_once (codes "k") (some (codes "k") ∷ some (codes "k") ∷ []) [] empty-IsSink
      (omega arith)

abbrev one_order : Json
one_order = obj (field (codes "a") null (field (codes "b") (str (codes "x")) end))

abbrev other_order : Json
other_order = obj (field (codes "b") (str (codes "x")) (field (codes "a") null end))

canonicalize_iff_example :
    (canonicalize one_order ≡ canonicalize other_order) ↔ Same one_order other_order
unfolding IsPlain
canonicalize_iff_example =
    canonicalize_iff one_order other_order
      ((λ e. ground (arith, e)), tt, ((λ e. ground (arith, e)), tt, tt))
      ((λ e. ground (arith, e)), tt, ((λ e. ground (arith, e)), tt, tt))
