-- ===== src/History/Tables.antt =====
-- Each statement on the tables keeps the database consistent.
use triage_engine.Prelude.{
  ℕ, ◌≤◌, Text, text_eq, text_eq_iff, Bool, true, List, [], ◌∷◌, none, some, is_some, ◌≡◌, refl, ap,
  sym, inl, inr, arith, find_row, count_rows, update_rows, count_rows-update_rows,
  count_rows-le-update_rows, count_rows-find_row, find_row-count_rows, Option-cases, if◌then◌else◌,
  subst,
}
use triage_engine.Entities.{
  ticket_has_id, CreateEventDto, TicketEntity, IdempotencyKeyEntity, OutboxMessageEntity, Db,
}
use triage_engine.Idempotency.{has_key, new_key, insert_key, attach_ticket}
use triage_engine.Idempotency.Claim.{HasUniqueKeys}
use triage_engine.Events.Insert.{
  Draws, event_has_id, event_has_key, new_event, new_ticket, create_ticket_if_absent,
}
use triage_engine.Events.Create.{create_cases}
use triage_engine.Outbox.Emit.{HasUniqueDedupKeys, HasUniqueIds}
use triage_engine.Pipeline.Processor.{EnrichmentOutcome, write_outcome}
use triage_engine.History.{is_attached, is_ticket_of, IsConsistent}

-- The key's table after a statement that keeps every key, and every attached ticket.
module _ {db : Db} (v : IsConsistent db) where
  with_keys :
      (rows : List IdempotencyKeyEntity)
      → HasUniqueKeys rows
      → ((key : Text)
          → count_rows (is_attached key) db.idempotency_keys ≤ count_rows (is_attached key) rows)
      → IsConsistent (record db { idempotency_keys = rows })
  with_keys rows unique more = record {
    keys = unique;
    attached = λ key. omega (arith, v.attached key, more key);
    events = v.events;
    tickets = v.tickets;
    owned = v.owned;
    effects = v.effects;
    messages = v.messages;
  }

  pub updates_keys :
      (q : IdempotencyKeyEntity → Bool) (f : IdempotencyKeyEntity → IdempotencyKeyEntity)
      → ((r : IdempotencyKeyEntity) → (f r).idempotency_key ≡ r.idempotency_key)
      → ((r : IdempotencyKeyEntity) → is_some r.ticket_id ≡ true → is_some (f r).ticket_id ≡ true)
      → IsConsistent (record db { idempotency_keys = update_rows q f db.idempotency_keys })
  updates_keys q f same keeps =
      with_keys (update_rows q f db.idempotency_keys)
        (λ key.
          rw
            (count_rows-update_rows (has_key key) q f db.idempotency_keys
              (λ r. ap (λ k. text_eq k key) (same r)))
            (v.keys key))
        λ key.
          count_rows-le-update_rows (is_attached key) q f db.idempotency_keys
            (λ r h. rw (same r) (ground (arith, keeps r)))

  pub inserts :
      (id key request_hash : Text) (now : ℕ) (rows : List IdempotencyKeyEntity)
      → insert_key id key request_hash now db.idempotency_keys ≡ some rows
      → IsConsistent (record db { idempotency_keys = rows })
  unfolding insert_key count_rows
  inserts id key request_hash now rows e =
      elim (Option-cases (find_row (has_key key) db.idempotency_keys)) [
        | inr (r, taken) ↦ absurd (ground (arith, taken))
        | inl free ↦
            let added : rows ≡ new_key id key request_hash now ∷ db.idempotency_keys =
              ground (arith, free) in
            rw added (
              with_keys _
                (λ j. ground (
                  arith,
                  free,
                  v.keys j,
                  text_eq_iff key j,
                  find_row-count_rows (has_key key) db.idempotency_keys,
                ))
                (λ j. ground arith))
      ]

-- Attaching a ticket attaches it to every row of the key.
attach_count :
    (key ticket_id : Text) (now : ℕ) (j : Text) (rows : List IdempotencyKeyEntity)
    → count_rows (is_attached j) (attach_ticket key ticket_id now rows)
      ≡ (if text_eq key j then count_rows (has_key j) rows else count_rows (is_attached j) rows)
unfolding attach_ticket count_rows update_rows
attach_count key ticket_id now j [] = ground arith
attach_count key ticket_id now j (r ∷ rows) = ground (
  arith,
  text_eq_iff key j,
  text_eq_iff r.idempotency_key key,
  text_eq_iff r.idempotency_key j,
  attach_count key ticket_id now j rows,
)

module _ {db : Db} (v : IsConsistent db) where
  -- A key whose row has no ticket yet has no event.
  no_event_yet :
      (key : Text) (idem : IdempotencyKeyEntity)
      → find_row (has_key key) db.idempotency_keys ≡ some idem
      → idem.ticket_id ≡ none
      → (count_rows (event_has_key key) db.events ≡ 0)
        × (count_rows (has_key key) db.idempotency_keys ≡ 1)
  no_event_yet key idem found bare =
      let none_attached =
        count_rows-find_row (has_key key) (λ r. is_some r.ticket_id) db.idempotency_keys {r = idem}
          (v.keys key) found in
      (
        ground (arith, none_attached, bare, v.attached key),
        ground (arith, found, v.keys key, find_row-count_rows (has_key key) db.idempotency_keys),
      )

  inserts_ticket :
      (key : Text) (dto : CreateEventDto) (draws : Draws) (idem : IdempotencyKeyEntity)
      → find_row (has_key key) db.idempotency_keys ≡ some idem
      → idem.ticket_id ≡ none
      → find_row (event_has_id draws.event_id) db.events ≡ none
      → find_row (ticket_has_id draws.ticket_id) db.tickets ≡ none
      → IsConsistent (record db {
        events = new_event key dto draws ∷ db.events;
        tickets = new_ticket dto draws ∷ db.tickets;
        idempotency_keys = attach_ticket key draws.ticket_id draws.created_at db.idempotency_keys;
      })
  unfolding count_rows
  inserts_ticket key dto draws idem found bare new_event_id new_ticket_id =
      let (no_event, one_row) = no_event_yet key idem found bare in
      record {
        keys = λ j.
            unfold attach_ticket in
            rw
              (count_rows-update_rows (has_key j) (has_key key)
                (λ (r : IdempotencyKeyEntity). record r {
                  ticket_id = some draws.ticket_id;
                  updated_at = draws.created_at;
                })
                db.idempotency_keys (λ r. refl))
              (v.keys j);
        attached = λ j. ground (
          arith,
          no_event,
          one_row,
          text_eq_iff key j,
          attach_count key draws.ticket_id draws.created_at j db.idempotency_keys,
          v.attached j,
        );
        events = λ i. ground (
          arith,
          new_event_id,
          v.events i,
          text_eq_iff draws.event_id i,
          find_row-count_rows (event_has_id draws.event_id) db.events,
        );
        tickets = λ i. ground (
          arith,
          new_ticket_id,
          v.tickets i,
          text_eq_iff draws.ticket_id i,
          find_row-count_rows (ticket_has_id draws.ticket_id) db.tickets,
        );
        owned = λ i. ground (arith, v.owned i);
        effects = v.effects;
        messages = v.messages;
      }

  pub create-IsConsistent :
      (key : Text) (dto : CreateEventDto) (draws : Draws) (ids : Text × Text) (db' : Db)
      → create_ticket_if_absent key dto draws db ≡ some (ids, db')
      → IsConsistent db'
  create-IsConsistent key dto draws ids db' e = elim (create_cases key dto draws ids db db' e) [
    | inl r ↦ subst IsConsistent (sym r.kept) v
    | inr i ↦
        subst IsConsistent (sym i.added)
          (inserts_ticket key dto draws i.idem i.found i.bare i.event_free i.ticket_free)
  ]

  -- The outbox after statements that keep its keys and ids distinct.
  pub with_messages :
      (rows : List OutboxMessageEntity)
      → HasUniqueDedupKeys rows
      → HasUniqueIds rows
      → IsConsistent (record db { outbox_messages = rows })
  with_messages rows effects messages = record {
    keys = v.keys;
    attached = v.attached;
    events = v.events;
    tickets = v.tickets;
    owned = v.owned;
    effects = effects;
    messages = messages;
  }

  -- Updates of tickets that keep their ids and events.
  pub updates_tickets :
      (q : TicketEntity → Bool) (now : ℕ) (outcome : EnrichmentOutcome)
      → IsConsistent (record db { tickets = update_rows q (write_outcome now outcome) db.tickets })
  updates_tickets q now outcome = record {
    keys = v.keys;
    attached = v.attached;
    events = v.events;
    tickets = λ i.
        rw
          (count_rows-update_rows (ticket_has_id i) q (write_outcome now outcome) db.tickets
            (λ r. refl))
          (v.tickets i);
    owned = λ i.
        rw
          (count_rows-update_rows (is_ticket_of i) q (write_outcome now outcome) db.tickets
            (λ r. refl))
          (v.owned i);
    effects = v.effects;
    messages = v.messages;
  }
