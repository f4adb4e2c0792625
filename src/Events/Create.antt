-- ===== src/Events/Create.antt =====
-- The transaction that makes an event and its ticket, once for each key.
use triage_engine.Prelude.{
  Text, text_eq_refl, List, ◌∷◌, none, some, ◌≡◌, refl, ◌∙◌, ℕ, find_row_sound, ◌⊎◌, inl, inr,
  arith, find_row, find_row-update_rows, Option-cases,
}
use triage_engine.Entities.{ticket_has_id, CreateEventDto, TicketEntity, IdempotencyKeyEntity, Db}
use triage_engine.Idempotency.{has_key, attach_ticket}
use triage_engine.Events.Insert.{
  Draws, event_has_id, new_event, new_ticket, reuse_ticket, create_ticket_if_absent,
}

abbrev pub inserted : (key : Text) → CreateEventDto → Draws → Db → Db
inserted key dto draws db = record db {
  events = new_event key dto draws ∷ db.events;
  tickets = new_ticket dto draws ∷ db.tickets;
  idempotency_keys = attach_ticket key draws.ticket_id draws.created_at db.idempotency_keys;
}

-- The two ways to commit: the attached ticket is reused and nothing written, or both rows are new.
pub record Reuses (key : Text) (ids : Text × Text) (db db' : Db) : Type 0 where
  pub idem : IdempotencyKeyEntity
  pub ticket_id : Text
  pub ticket : TicketEntity
  pub found : find_row (has_key key) db.idempotency_keys ≡ some idem
  pub attached : idem.ticket_id ≡ some ticket_id
  pub there : find_row (ticket_has_id ticket_id) db.tickets ≡ some ticket
  pub result : ids ≡ (ticket.id, ticket.event_id)
  pub kept : db' ≡ db

pub record Inserts (key : Text) (dto : CreateEventDto) (draws : Draws) (ids : Text × Text)
    (db db' : Db) : Type 0 where
  pub idem : IdempotencyKeyEntity
  pub found : find_row (has_key key) db.idempotency_keys ≡ some idem
  pub bare : idem.ticket_id ≡ none
  pub event_free : find_row (event_has_id draws.event_id) db.events ≡ none
  pub ticket_free : find_row (ticket_has_id draws.ticket_id) db.tickets ≡ none
  pub result : ids ≡ (draws.ticket_id, draws.event_id)
  pub added : db' ≡ inserted key dto draws db

module _ (key : Text) (dto : CreateEventDto) (draws : Draws) (ids : Text × Text) (db db' : Db)
    (e : create_ticket_if_absent key dto draws db ≡ some (ids, db')) where
  reuse_case :
      (idem : IdempotencyKeyEntity) (t : Text)
      → find_row (has_key key) db.idempotency_keys ≡ some idem
      → idem.ticket_id ≡ some t
      → Reuses key ids db db'
  unfolding create_ticket_if_absent
  reuse_case idem t found attached = elim (Option-cases (find_row (ticket_has_id t) db.tickets)) [
    | inl gone ↦ absurd (ground (arith, found, attached, gone))
    | inr (ticket, there) ↦ record {
      idem = idem;
      ticket_id = t;
      ticket = ticket;
      found = found;
      attached = attached;
      there = there;
      result = ground (arith, found, attached, there);
      kept = ground (arith, found, attached, there);
    }
  ]

  insert_case :
      (idem : IdempotencyKeyEntity)
      → find_row (has_key key) db.idempotency_keys ≡ some idem
      → idem.ticket_id ≡ none
      → Inserts key dto draws ids db db'
  unfolding create_ticket_if_absent
  insert_case idem found bare =
      elim (Option-cases (find_row (event_has_id draws.event_id) db.events)) [
        | inr (x, taken) ↦ absurd (ground (arith, found, bare, taken))
        | inl event_free ↦
            elim (Option-cases (find_row (ticket_has_id draws.ticket_id) db.tickets)) [
              | inr (x, taken) ↦ absurd (ground (arith, found, bare, event_free, taken))
              | inl ticket_free ↦ record {
                idem = idem;
                found = found;
                bare = bare;
                event_free = event_free;
                ticket_free = ticket_free;
                result = ground (arith, found, bare, event_free, ticket_free);
                added = ground (arith, found, bare, event_free, ticket_free);
              }
            ]
      ]

  pub create_cases : Reuses key ids db db' ⊎ Inserts key dto draws ids db db'
  unfolding create_ticket_if_absent
  create_cases = elim (Option-cases (find_row (has_key key) db.idempotency_keys)) [
    | inl missing ↦ absurd (ground (arith, missing))
    | inr (idem, found) ↦ elim (Option-cases idem.ticket_id) [
      | inr (t, attached) ↦ inl (reuse_case idem t found attached)
      | inl bare ↦ inr (insert_case idem found bare)
    ]
  ]

-- A second run for the key finds the row with its ticket.
again_found :
    (key ticket_id : Text) (dto : CreateEventDto) (draws : Draws) (db : Db)
    (idem : IdempotencyKeyEntity)
    → find_row (has_key key) db.idempotency_keys ≡ some idem
    → idem.ticket_id ≡ some ticket_id
    → create_ticket_if_absent key dto draws db ≡ reuse_ticket ticket_id db
unfolding create_ticket_if_absent
again_found key ticket_id dto draws db idem found attached = ground (arith, found, attached)

pub attach_found :
    (key ticket_id : Text) (now : ℕ) (rows : List IdempotencyKeyEntity)
    (idem : IdempotencyKeyEntity)
    → find_row (has_key key) rows ≡ some idem
    → find_row (has_key key) (attach_ticket key ticket_id now rows)
      ≡ some (record idem { ticket_id = some ticket_id; updated_at = now })
unfolding attach_ticket
attach_found key ticket_id now rows idem found =
    let after =
      find_row-update_rows (has_key key) (has_key key)
        (λ (r : IdempotencyKeyEntity). record r { ticket_id = some ticket_id; updated_at = now })
        rows (λ r. refl) idem found in
    rw (find_row_sound (has_key key) rows found) at after

reuse_new :
    (key : Text) (dto : CreateEventDto) (draws : Draws) (db : Db)
    → reuse_ticket draws.ticket_id (inserted key dto draws db)
      ≡ some ((draws.ticket_id, draws.event_id), inserted key dto draws db)
unfolding reuse_ticket find_row
reuse_new key dto draws db = ground (arith, text_eq_refl draws.ticket_id)

-- Once the transaction has committed for a key, a run of it again, with any body and any draws,
-- writes nothing and returns the same ticket and event.
pub create_again :
    (key : Text) (dto dto' : CreateEventDto) (draws draws' : Draws) (ids : Text × Text)
    (db db' : Db)
    → create_ticket_if_absent key dto draws db ≡ some (ids, db')
    → create_ticket_if_absent key dto' draws' db' ≡ some (ids, db')
unfolding reuse_ticket
create_again key dto dto' draws draws' ids db db' e =
    elim (create_cases key dto draws ids db db' e) [
      | inl r ↦
          rw (r.kept, r.result)
            (again_found key r.ticket_id dto' draws' db r.idem r.found r.attached
              ∙ ground (arith, r.there))
      | inr i ↦
          rw (i.added, i.result)
            (again_found key draws.ticket_id dto' draws' (inserted key dto draws db)
                (record (i.idem) {
                  ticket_id = some draws.ticket_id;
                  updated_at = draws.created_at;
                })
                (attach_found key draws.ticket_id draws.created_at db.idempotency_keys i.idem
                  i.found)
                refl
              ∙ reuse_new key dto draws db)
    ]
