-- ===== src/Outbox/Webhook/Runs.antt =====
-- The outbox over time: effects are emitted and batches are drained to the sink, in any order.
use triage_engine.Prelude.{
  ℕ, ◌+◌, ◌≤◌, Text, text_eq, Bool, List, [], ◌∷◌, some, length, find_row, count_rows, ◌≡◌, inl,
  inr, refl, ap, arith, Option-cases, Bool-cases, subst, sym,
}
use triage_engine.Config.{EnvVars}
use triage_engine.Backoff.{Random}
use triage_engine.Json.{Json}
use triage_engine.Entities.{OutboxMessageEntity}
use triage_engine.Outbox.{
  DispatchMessage, EmitInput, emit, build_dedup_key, new_message, has_id, has_dedup_key,
}
use triage_engine.Outbox.Emit.{HasUniqueIds, HasUniqueDedupKeys, emit_lem}
use triage_engine.Outbox.Relay.{claim_batch, Drain, drain_once}
use triage_engine.Outbox.Relay.Batch.{dispatch_rows_count}
use triage_engine.Outbox.Sink.{max_tracked_deliveries, get}
use triage_engine.Outbox.Webhook.Link.{Link, Hop, times_new}
use triage_engine.Outbox.Webhook.Once.{IsShipped, send, drain_once-IsShipped}

module _ (stringify : Json → Text) (env : EnvVars) (fresh : DispatchMessage → Text) where
  -- A drain has room in the sink's map for its batch.
  pub data Step (d d' : Drain Link) : Type 0 where
    emits :
        (id : Text) (now : ℕ) (input : EmitInput) (key : Text) (rows : List OutboxMessageEntity)
        → emit id now input d.rows ≡ some (key, rows)
        → d' ≡ record d { rows = rows }
        → Step d d'
    drains :
        (now : ℕ) (random : OutboxMessageEntity → Random) (locked : Text → Bool)
        → length d.outside.sink + length (claim_batch locked now env.outbox_relay_batch_size d.rows)
          ≤ max_tracked_deliveries
        → d' ≡ (drain_once (send stringify env fresh) env now random locked d).1
        → Step d d'

  pub data Run (d : Drain Link) : Drain Link → Type 0 where
    here : Run d d
    then_step : {d' d'' : Drain Link} → Run d d' → Step d' d'' → Run d d''

  -- An empty outbox and an empty sink, with any network between.
  abbrev pub nothing_yet : List Hop → Drain Link
  nothing_yet hops = record {
    rows = [];
    outside = record { hops = hops; sink = []; taken = [] };
    metrics = [];
  }

  record Inv (d : Drain Link) : Type 0 where
    shipped : IsShipped d
    ids : HasUniqueIds d.rows
    keys : HasUniqueDedupKeys d.rows

  -- A new message is PENDING.
  emit-IsShipped :
      (id : Text) (now : ℕ) (input : EmitInput) (key : Text) (d : Drain Link)
      (rows : List OutboxMessageEntity)
      → IsShipped d
      → emit id now input d.rows ≡ some (key, rows)
      → IsShipped (record d { rows = rows })
  unfolding emit find_row
  emit-IsShipped id now input key d rows v e = record {
    linked = v.linked;
    sent = λ i r found is_sent.
        elim (Option-cases (find_row (has_dedup_key (build_dedup_key input)) d.rows)) [
          | inr (old, known) ↦
              let same : d.rows ≡ rows = ground (arith, e, known) in
              v.sent i r (subst (λ l. find_row (has_id i) l ≡ some r) (sym same) found) is_sent
          | inl free ↦ elim (Option-cases (find_row (has_id id) d.rows)) [
            | inr (old, known) ↦ absurd (ground (arith, e, free, known))
            | inl unused ↦
                let same : rows ≡ new_message id now input ∷ d.rows =
                  ground (arith, e, free, unused) in
                let found' = subst (λ l. find_row (has_id i) l ≡ some r) same found in
                elim (Bool-cases (text_eq id i)) [
                  | inl new ↦ absurd (ground (arith, found', new, is_sent))
                  | inr older ↦ v.sent i r (ground (arith, found', older)) is_sent
                ]
          ]
        ];
  }

  Step-Inv : {d d' : Drain Link} → Step d d' → Inv d → Inv d'
  unfolding drain_once
  Step-Inv {d} (emits id now input key rows e same) v =
      let lem = emit_lem id id now now input input d.rows rows key v.keys v.ids refl e in
      rw same (record {
        shipped = emit-IsShipped id now input key d rows v.shipped e;
        ids = lem.2;
        keys = lem.1;
      })
  Step-Inv {d} (drains now random locked room same) v = rw same (record {
    shipped = drain_once-IsShipped stringify env fresh now random locked d v.shipped v.ids room;
    ids = λ i.
        rw
          (dispatch_rows_count (send stringify env fresh) env now random (has_id i)
            (λ a b e f. ap (λ k. text_eq k i) f) d
            (claim_batch locked now env.outbox_relay_batch_size d.rows))
          (v.ids i);
    keys = λ k.
        rw
          (dispatch_rows_count (send stringify env fresh) env now random (has_dedup_key k)
            (λ a b e f. ap (λ x. text_eq x k) e) d
            (claim_batch locked now env.outbox_relay_batch_size d.rows))
          (v.keys k);
  })

  nothing_yet-Inv : (hops : List Hop) → Inv (nothing_yet hops)
  unfolding count_rows find_row times_new get
  nothing_yet-Inv hops = record {
    shipped = record {
      linked = record {
        sound = record { counted = tt; bounded = omega arith };
        once = λ key. refl;
      };
      sent = λ i r e is_sent. absurd (ground (arith, e));
    };
    ids = λ i. omega arith;
    keys = λ i. omega arith;
  }

  Run-Inv : {d d' : Drain Link} → Run d d' → Inv d → Inv d'
  Run-Inv here v = v
  Run-Inv (then_step r s) v = Step-Inv s (Run-Inv r v)

  -- From an empty outbox and an empty sink on, whatever effects are emitted and whatever requests and
  -- responses the network loses or refuses, as long as each drain finds room for its batch in the
  -- sink's map: the sink has taken each key that it tracks for new exactly once, and no other key;
  -- and it has taken the key of each row that is SENT.
  pub Run-IsShipped : (hops : List Hop) (d : Drain Link) → Run (nothing_yet hops) d → IsShipped d
  Run-IsShipped hops d r = (Run-Inv r (nothing_yet-Inv hops)).shipped
