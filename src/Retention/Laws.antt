-- ===== src/Retention/Laws.antt =====
-- What a retention sweep must leave alone.
use triage_engine.Prelude.{
  select_rows-delete_rows, count_rows-spared, counts_self, ℕ, ◌<◌, Text, text_eq, text_eq_refl,
  text_eq_sound, Bool, not, ◌||◌, List, [], ◌∷◌, some, ◌≡◌, refl, inl, inr, arith, All, All-mono,
  All-both, All-delete_rows, count_rows, delete_rows, select_rows, Bool-cases,
}
use triage_engine.Config.{EnvVars}
use triage_engine.Entities.{
  Db, EventEntity, TicketEntity, IdempotencyKeyEntity, ticket_has_id, is_due, is_unresolved,
  is_completed,
}
use triage_engine.Events.Insert.{event_has_id}
use triage_engine.Retention.{
  is_terminal, points_at, old_ticket, old_event, old_key, prune, Sweeper, sweep,
}

event_spared :
    (age now : ℕ) (tickets : List TicketEntity) (event_id : Text) (events : List EventEntity)
    → 0 < count_rows (λ t. text_eq t.event_id event_id) tickets
    → count_rows (event_has_id event_id) (delete_rows (old_event age now tickets) events)
      ≡ count_rows (event_has_id event_id) events
event_spared age now tickets event_id events used =
    count_rows-spared (event_has_id event_id) (old_event age now tickets) events (λ r hit.
      let same : r.id ≡ event_id = text_eq_sound r.id event_id hit in
      rw same (ground (arith, used)))

ticket_spared :
    (age now : ℕ) (keys : List IdempotencyKeyEntity) (id : Text) (tickets : List TicketEntity)
    → 0 < count_rows (λ k. points_at id k.ticket_id) keys
    → count_rows (ticket_has_id id) (delete_rows (old_ticket age now keys) tickets)
      ≡ count_rows (ticket_has_id id) tickets
ticket_spared age now keys id tickets used =
    count_rows-spared (ticket_has_id id) (old_ticket age now keys) tickets
      (λ r hit. let same : r.id ≡ id = text_eq_sound r.id id hit in rw same (ground (arith, used)))

-- A key that names a ticket points at it.
names_self :
    (keys : List IdempotencyKeyEntity)
    → All
        (λ k.
          (id : Text) → k.ticket_id ≡ some id → 0 < count_rows (λ j. points_at id j.ticket_id) keys)
        keys
unfolding count_rows
names_self [] = tt
names_self (k ∷ keys) = (
  λ id e. ground (arith, e, text_eq_refl id),
  All-mono keys (λ j h id e. omega (arith, h id e)) (names_self keys),
)

-- Each ticket has its event, and each key that names a ticket has it.
pub record HasReferences (db : Db) : Type 0 where
  pub owned : All (λ t. 0 < count_rows (event_has_id t.event_id) db.events) db.tickets
  pub named :
      All
        (λ k. (id : Text) → k.ticket_id ≡ some id → 0 < count_rows (ticket_has_id id) db.tickets)
        db.idempotency_keys

module _ (env : EnvVars) (now : ℕ) (db : Db) where
  -- A sweep leaves no ticket without its event, and no key with a ticket that is gone.
  pub prune-HasReferences : HasReferences db → HasReferences (prune env now db).1
  unfolding prune
  prune-HasReferences v =
      let age = env.retention_max_age_ms in
      let keys = delete_rows (old_key age now) db.idempotency_keys in
      let tickets = delete_rows (old_ticket age now keys) db.tickets in
      record {
        owned =
            All-mono tickets
              (λ t both. rw (event_spared age now tickets t.event_id db.events both.1) both.0)
              (All-both _ _ tickets (All-delete_rows _ (old_ticket age now keys) db.tickets v.owned)
                (counts_self (λ t s. text_eq s.event_id t.event_id) tickets
                  (λ t. text_eq_refl t.event_id)));
        named =
            All-mono keys
              (λ k both id e.
                rw (ticket_spared age now keys id db.tickets (both.1 id e)) (both.0 id e))
              (All-both _ _ keys (All-delete_rows _ (old_key age now) db.idempotency_keys v.named)
                (names_self keys));
      }

-- The rows that a sweep must not touch: messages, dead letters and keys that are not settled, and
-- tickets that may still change.
abbrev pub is_open_key : IdempotencyKeyEntity → Bool
is_open_key k = not (is_completed k.status)

abbrev pub is_open_ticket : TicketEntity → Bool
is_open_ticket t = not (is_terminal t.enrichment_status)

-- A sweep, whether it runs or not, keeps every PENDING message, every PENDING dead letter, every key
-- that is not COMPLETED and every ticket that is PENDING or DEGRADED, however old, in their order.
pub sweep_keeps_open :
    (env : EnvVars) (reachable : Bool) (now : ℕ) (s : Sweeper) (db : Db)
    → let after = (sweep env reachable now s db).1 in
      (select_rows (λ r. is_due r.status) after.outbox_messages
        ≡ select_rows (λ r. is_due r.status) db.outbox_messages)
      × (select_rows (λ r. is_unresolved r.status) after.dead_letters
          ≡ select_rows (λ r. is_unresolved r.status) db.dead_letters)
      × (select_rows is_open_key after.idempotency_keys
          ≡ select_rows is_open_key db.idempotency_keys)
      × (select_rows is_open_ticket after.tickets ≡ select_rows is_open_ticket db.tickets)
unfolding sweep prune
sweep_keeps_open env reachable now s db =
    elim (Bool-cases (s.stopped || s.running || not reachable)) [
      | inl skipped ↦ rw skipped (refl, refl, refl, refl)
      | inr runs ↦ rw runs (
        select_rows-delete_rows _ _ db.outbox_messages (λ r h. ground (arith, h)),
        select_rows-delete_rows _ _ db.dead_letters (λ r h. ground (arith, h)),
        select_rows-delete_rows _ _ db.idempotency_keys (λ r h. ground (arith, h)),
        select_rows-delete_rows _ _ db.tickets (λ r h. ground (arith, h)),
      )
    ]
