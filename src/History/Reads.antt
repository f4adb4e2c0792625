-- ===== src/History/Reads.antt =====
-- What the jobs have read stays outdated, and what they write is notified.
use triage_engine.Prelude.{
  ℕ, ◌<◌, Text, text_eq_iff, text_eq_sound, Bool, true, false, not, List, [], ◌∷◌, none, some, ◌≡◌,
  refl, sym, ◌∙◌, subst, inl, inr, arith, count_rows, find_row, find_row-count_rows,
  count_rows-find_row, count_rows-update_rows, update_rows, All, All-mono, All-both,
  All-update_rows, All-count_rows_one, Bool-cases, if◌then◌else◌,
}
use triage_engine.Entities.{
  ticket_has_id, CreateEventDto, TicketEntity, EnrichmentStatus, Db, OutboxMessageEntity,
}
use triage_engine.Outbox.{has_dedup_key}
use triage_engine.Events.Insert.{Draws, new_ticket}
use triage_engine.Pipeline.Processor.{EnrichmentOutcome, is_writable, write_outcome}
use triage_engine.History.{IsConsistent, HasRead, IsResult}
use triage_engine.History.Effects.{triaged_key, is_pending, IsNotified, IsOutdated, Grows}

pub HasRead-All :
    (P : Text × EnrichmentStatus → Type 0) (reads : List (Text × EnrichmentStatus)) (id : Text)
    (status : EnrichmentStatus)
    → All P reads
    → HasRead reads id status
    → P (id, status)
HasRead-All P [] id status a h = absurd h
HasRead-All P (r ∷ reads) id status a (inl (i, st)) = subst P (λ k. (i k, st k)) a.0
HasRead-All P (r ∷ reads) id status a (inr h) = HasRead-All P reads id status a.1 h

module _ (db : Db) (v : IsConsistent db) where
  -- The row that a job has just read is the only one with its id.
  pub load-IsOutdated :
      (id : Text) (ticket : TicketEntity)
      → find_row (ticket_has_id id) db.tickets ≡ some ticket
      → IsOutdated db.tickets (id, ticket.enrichment_status)
  load-IsOutdated id ticket found =
      let counts = find_row-count_rows (ticket_has_id id) db.tickets in
      let others =
        count_rows-find_row (ticket_has_id id) (λ t. not (is_pending t.enrichment_status))
          db.tickets {r = ticket} (v.tickets id) found in
      (
        ground (arith, found, counts),
        λ moved.
            All-mono db.tickets (λ t h hit. ground (arith, h hit))
              (All-count_rows_one (ticket_has_id id) (λ t. not (is_pending t.enrichment_status))
                db.tickets (v.tickets id) (ground (arith, others, moved))),
      )

written_id :
    (b : Bool) (i : Text) (now : ℕ) (outcome : EnrichmentOutcome) (t : TicketEntity)
    → ticket_has_id i (if b then write_outcome now outcome t else t) ≡ ticket_has_id i t
written_id true i now outcome t = refl
written_id false i now outcome t = refl

written_pending :
    (b : Bool) (now : ℕ) (outcome : EnrichmentOutcome) (t : TicketEntity)
    → IsResult outcome.status
    → is_pending t.enrichment_status ≡ false
    → is_pending (if b then write_outcome now outcome t else t).enrichment_status ≡ false
written_pending true now outcome t (inl r) h = rw r refl
written_pending true now outcome t (inr r) h = rw r refl
written_pending false now outcome t r h = h

-- A write keeps what the jobs have read outdated.
pub write-IsOutdated :
    (id : Text) (now : ℕ) (outcome : EnrichmentOutcome) (tickets : List TicketEntity)
    (r : Text × EnrichmentStatus)
    → IsResult outcome.status
    → IsOutdated tickets r
    → IsOutdated (update_rows (is_writable id outcome.status) (write_outcome now outcome) tickets) r
write-IsOutdated id now outcome tickets (i, status) result (there, moved) = (
  rw
      (count_rows-update_rows (ticket_has_id i) (is_writable id outcome.status)
        (write_outcome now outcome) tickets (λ t. refl))
      there,
  λ left.
      All-update_rows _ _ (is_writable id outcome.status) (write_outcome now outcome) tickets
        (λ t h hit.
          written_pending (is_writable id outcome.status t) now outcome t result
            (h (sym (written_id (is_writable id outcome.status t) i now outcome t) ∙ hit)))
        (moved left),
)

-- What a write leaves is notified: a run that read PENDING emits, and another's ticket had left
-- PENDING before.
pub written-IsNotified :
    (rows rows' : List OutboxMessageEntity) (id : Text) (prior : EnrichmentStatus) (now : ℕ)
    (outcome : EnrichmentOutcome) (tickets : List TicketEntity)
    → Grows rows rows'
    → (is_pending prior ≡ true → 0 < count_rows (has_dedup_key (triaged_key id)) rows')
    → All
        (λ t.
          is_pending prior ≡ false
          → ticket_has_id id t ≡ true
          → is_pending t.enrichment_status ≡ false)
        tickets
    → All (IsNotified rows) tickets
    → All
        (IsNotified rows')
        (update_rows (is_writable id outcome.status) (write_outcome now outcome) tickets)
written-IsNotified rows rows' id prior now outcome tickets grows emitted moved told =
    All-update_rows _ _ (is_writable id outcome.status) (write_outcome now outcome) tickets
      (λ t h. elim (Bool-cases (is_writable id outcome.status t)) [
        | inr miss ↦ rw miss (λ left. omega (arith, h.0 left, grows (triaged_key t.id)))
        | inl hit ↦
            let mine : ticket_has_id id t ≡ true = ground (arith, hit) in
            let same : t.id ≡ id = text_eq_sound t.id id mine in
            rw hit (elim (Bool-cases (is_pending prior)) [
              | inl first ↦ λ left. rw same (emitted first)
              | inr later ↦ λ left. omega (arith, h.0 (h.1 later mine), grows (triaged_key t.id))
            ])
      ])
      (All-both _ _ tickets told moved)

pub All-when :
    {A : Type 0} (P : A → Type 0) (b : Bool) (xs : List A)
    → (b ≡ false → All P xs)
    → All (λ x. b ≡ false → P x) xs
All-when P b [] h = tt
All-when P b (x ∷ xs) h = (λ e. (h e).0, All-when P b xs (λ e. (h e).1))

-- A new ticket is PENDING, and has none of the ids that jobs have read.
pub insert-IsOutdated :
    (dto : CreateEventDto) (draws : Draws) (tickets : List TicketEntity)
    (r : Text × EnrichmentStatus)
    → find_row (ticket_has_id draws.ticket_id) tickets ≡ none
    → IsOutdated tickets r
    → IsOutdated (new_ticket dto draws ∷ tickets) r
unfolding count_rows
insert-IsOutdated dto draws tickets (i, status) free (there, moved) = (
  omega (arith, there),
  λ left. (
    λ mine. absurd (
        ground (
          arith,
          mine,
          there,
          free,
          text_eq_iff draws.ticket_id i,
          find_row-count_rows (ticket_has_id i) tickets,
        )),
    moved left,
  ),
)
