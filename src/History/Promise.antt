-- ===== src/History/Promise.antt =====
-- What the service promises of its tickets, with no tables: which tickets there are and how far each
-- has come, and which effects have been announced.
use triage_engine.Prelude.{Text, Bool, true, Option, none, some, is_some, ◌≡◌, ◌≢◌, ◌⊎◌, find_row}
use triage_engine.Entities.{EnrichmentStatus, is_enriched, TicketEntity, ticket_has_id, Db}
use triage_engine.Outbox.{has_dedup_key}
use triage_engine.History.{IsResult}
use triage_engine.History.Effects.{triaged_key, upgraded_key}

pub record Promise : Type 0 where
  pub status : (ticket_id : Text) → Option EnrichmentStatus
  pub announced : (dedup_key : Text) → Bool

-- A ticket that a run settles is announced by then; of all effects, only its own may be new.
pub record Settles (id : Text) (p p' : Promise) : Type 0 where
  pub before : EnrichmentStatus
  pub after : EnrichmentStatus
  pub was : p.status id ≡ some before
  pub is : p'.status id ≡ some after
  pub settled : IsResult after
  pub forward : is_enriched before ≡ true → is_enriched after ≡ true
  pub others : (other : Text) → other ≢ id → p'.status other ≡ p.status other
  pub told : p'.announced (triaged_key id) ≡ true
  pub kept : (key : Text) → p.announced key ≡ true → p'.announced key ≡ true
  pub own :
      (key : Text)
      → p'.announced key ≡ true
      → (p.announced key ≡ true) ⊎ (key ≡ triaged_key id) ⊎ (key ≡ upgraded_key id)

-- A new ticket is PENDING, under an id that no ticket had, and announces nothing.
pub record Opens (id : Text) (p p' : Promise) : Type 0 where
  pub was : p.status id ≡ none
  pub is : p'.status id ≡ some EnrichmentStatus.pending
  pub others : (other : Text) → other ≢ id → p'.status other ≡ p.status other
  pub announced : (key : Text) → p'.announced key ≡ p.announced key

pub data PromiseStep (p p' : Promise) : Type 0 where
  rests :
      ((id : Text) → p'.status id ≡ p.status id)
      → ((key : Text) → p'.announced key ≡ p.announced key)
      → PromiseStep p p'
  opens : (id : Text) → Opens id p p' → PromiseStep p p'
  settles : (id : Text) → Settles id p p' → PromiseStep p p'

pub data PromiseRun (p : Promise) : Promise → Type 0 where
  here : PromiseRun p p
  then_step : {q r : Promise} → PromiseRun p q → PromiseStep q r → PromiseRun p r

-- What the tables say.
abbrev pub status_of : Option TicketEntity → Option EnrichmentStatus
status_of none = none
status_of (some t) = some t.enrichment_status

abbrev pub promise_of : Db → Promise
promise_of db = record {
  status = λ id. status_of (find_row (ticket_has_id id) db.tickets);
  announced = λ key. is_some (find_row (has_dedup_key key) db.outbox_messages);
}
