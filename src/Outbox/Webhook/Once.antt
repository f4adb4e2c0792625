-- ===== src/Outbox/Webhook/Once.antt =====
-- The relay over the webhook and the network, with the bundled sink at the other end.
use triage_engine.Prelude.{
  or_else, ℕ, ◌+◌, ◌≤◌, ◌<◌, Text, text_eq_sound, Bool, true, List, [], ◌∷◌, some, length, find_row,
  count_rows, ◌≡◌, ◌⊎◌, inl, inr, refl, ◌∙◌, sym, subst, arith, All-select_rows, text_eq_refl,
  Bool-cases,
}
use triage_engine.Config.{EnvVars}
use triage_engine.Backoff.{Random}
use triage_engine.Json.{Json}
use triage_engine.Entities.{OutboxMessageEntity, OutboxStatus}
use triage_engine.Outbox.{DispatchMessage, Dispatched, delivered, rejected, has_id}
use triage_engine.Outbox.Emit.{HasUniqueIds}
use triage_engine.Outbox.Relay.{
  is_claimable, claim_batch, message_of, settle, Drain, dispatch_row, dispatch_rows, drain_once,
}
use triage_engine.Outbox.Relay.Claim.{
  AllFound, rows-AllFound, All-claim_batch, claim_batch-IsClaimable,
}
use triage_engine.Outbox.Relay.Batch.{row_self, row_other, after-AllFound}
use triage_engine.Outbox.Sink.{tracked_key, max_tracked_deliveries}
use triage_engine.Outbox.Webhook.{
  HttpRequest, conclude, http_request, correlation_of, dispatch, dispatch_in_scope, Fetched,
  responded, threw, is_ok,
}
use triage_engine.Outbox.Webhook.Link.{Arrived, Link, post, IsLink, Grows, is_tracked, post-Grows}

-- The sink has taken each key for new once, and it has taken the key of each row that is SENT.
pub record IsShipped (d : Drain Link) : Type 0 where
  pub linked : IsLink d.outside
  pub sent :
      (i : Text) (r : OutboxMessageEntity)
      → find_row (has_id i) d.rows ≡ some r
      → r.status ≡ OutboxStatus.sent
      → is_tracked (tracked_key (some r.dedup_key)) d.outside.sink ≡ true

Dispatched-cases : (a : Dispatched) → (a ≡ delivered) ⊎ ((message : Text) × (a ≡ rejected message))
Dispatched-cases delivered = inl refl
Dispatched-cases (rejected message) = inr (message, refl)

Arrived-tracked :
    (request : HttpRequest) (fetched : Fetched) (after : Link)
    → Arrived request fetched after
    → conclude fetched ≡ delivered
    → is_tracked (tracked_key (some request.idempotency_key)) after.sink ≡ true
Arrived-tracked request (threw message) after arrived e = absurd (ground (arith, e))
Arrived-tracked request (responded status text) after arrived e = elim (Bool-cases (is_ok status)) [
  | inl ok ↦ arrived ok
  | inr bad ↦ absurd (ground (arith, e, bad))
]

module _ (stringify : Json → Text) (env : EnvVars) (fresh : DispatchMessage → Text) where
  -- The dispatcher that the relay is given.
  abbrev pub send : DispatchMessage → Link → Dispatched × Link
  send message = dispatch_in_scope post stringify env (fresh message) message

  send-Grows :
      (message : DispatchMessage) (link : Link)
      → IsLink link
      → length link.sink < max_tracked_deliveries
      → let result = send message link in
        Grows link result.1
        × (result.0 ≡ delivered
            → is_tracked (tracked_key (some message.dedup_key)) result.1.sink ≡ true)
  unfolding dispatch_in_scope dispatch
  send-Grows message link v room =
      let request =
        http_request post stringify env
          (some (or_else (correlation_of message.payload) (fresh message))) message in
      let (grows, arrived) = post-Grows request link v room in
      (grows, λ e. Arrived-tracked request (post request link).0 (post request link).1 arrived e)

  module _ (now : ℕ) (random : OutboxMessageEntity → Random) where
    settled_sent :
        (d : Drain Link) (row r : OutboxMessageEntity)
        → IsShipped d
        → find_row (has_id row.id) d.rows ≡ some row
        → length d.outside.sink < max_tracked_deliveries
        → some (settle env now (random row) row (send (message_of row) d.outside).0 row) ≡ some r
        → r.status ≡ OutboxStatus.sent
        → is_tracked (tracked_key (some r.dedup_key)) (send (message_of row) d.outside).1.sink
          ≡ true
    unfolding settle
    settled_sent d row r v found room same is_sent =
        let (grows, arrived) = send-Grows (message_of row) d.outside v.linked room in
        elim (Dispatched-cases (send (message_of row) d.outside).0) [
          | inl ok ↦
              let key : row.dedup_key ≡ r.dedup_key = ground (arith, same, ok) in
              subst
                (λ k.
                  is_tracked (tracked_key (some k)) (send (message_of row) d.outside).1.sink ≡ true)
                key (arrived ok)
          | inr (message, bad) ↦
              let key : row.dedup_key ≡ r.dedup_key = ground (arith, same, bad) in
              let was : row.status ≡ OutboxStatus.sent = ground (arith, same, bad, is_sent) in
              subst
                (λ k.
                  is_tracked (tracked_key (some k)) (send (message_of row) d.outside).1.sink ≡ true)
                key (grows.kept _ (v.sent row.id row found was))
        ]

    dispatch_row-IsShipped :
        (d : Drain Link) (row : OutboxMessageEntity)
        → IsShipped d
        → find_row (has_id row.id) d.rows ≡ some row
        → length d.outside.sink < max_tracked_deliveries
        → let d' = dispatch_row send env now random d row in
          IsShipped d' × (length d'.outside.sink ≤ length d.outside.sink + 1)
    unfolding dispatch_row
    dispatch_row-IsShipped d row v found room =
        let (grows, arrived) = send-Grows (message_of row) d.outside v.linked room in
        let self = row_self send env now random d row found in
        (
          record {
            linked = grows.linked;
            sent = λ i r e is_sent. elim (Bool-cases (has_id i row)) [
              | inr miss ↦
                  let before = sym (row_other send env now random d row i miss) ∙ e in
                  grows.kept _ (v.sent i r before is_sent)
              | inl hit ↦
                  let found_self =
                    subst
                      (λ j.
                        find_row (has_id j) (dispatch_row send env now random d row).rows ≡ some r)
                      (sym (text_eq_sound row.id i hit)) e in
                  settled_sent d row r v found room (sym self ∙ found_self) is_sent
            ];
          },
          grows.size,
        )

    dispatch_rows-IsShipped :
        (batch : List OutboxMessageEntity) (d : Drain Link)
        → IsShipped d
        → HasUniqueIds batch
        → AllFound d.rows batch
        → length d.outside.sink + length batch ≤ max_tracked_deliveries
        → IsShipped (dispatch_rows send env now random d batch)
    unfolding dispatch_rows AllFound count_rows
    dispatch_rows-IsShipped [] d v u f room = v
    dispatch_rows-IsShipped (row ∷ batch) d v u f room =
        let d' = dispatch_row send env now random d row in
        let (v', size) = dispatch_row-IsShipped d row v f.0 (omega (arith, room)) in
        let absent : count_rows (has_id row.id) batch ≡ 0 =
          ground (arith, u row.id, text_eq_refl row.id) in
        let still = after-AllFound send env now random d row batch absent f.1 in
        dispatch_rows-IsShipped batch d' v' (λ i. ground (arith, u i)) still
          (omega (arith, size, room))

    -- A drain of the relay over the webhook, the network and the bundled sink, whatever requests and
    -- responses are lost or refused and whatever was delivered before: with room for the batch in the
    -- sink's map, the sink has taken each key that it tracks for new once, and it has taken the key of
    -- each row that is SENT.
    pub drain_once-IsShipped :
        (locked : Text → Bool) (d : Drain Link)
        → IsShipped d
        → HasUniqueIds d.rows
        → length d.outside.sink + length (claim_batch locked now env.outbox_relay_batch_size d.rows)
          ≤ max_tracked_deliveries
        → IsShipped (drain_once send env now random locked d).1
    unfolding drain_once AllFound
    drain_once-IsShipped locked d v u room =
        let batch = claim_batch locked now env.outbox_relay_batch_size d.rows in
        let (size, claimed, distinct) =
          claim_batch-IsClaimable locked now env.outbox_relay_batch_size d.rows u in
        dispatch_rows-IsShipped batch d v distinct
          (All-claim_batch _ locked now env.outbox_relay_batch_size d.rows
            (All-select_rows _ (is_claimable locked now) d.rows (rows-AllFound d.rows u)))
          room
