-- ===== src/History/Effects.antt =====
-- The first notification of a ticket, and how it enters the outbox.
use triage_engine.Prelude.{
  ℕ, ◌≤◌, ◌<◌, Text, codes, Bool, true, false, List, Option, none, some, ◌≡◌, refl, subst, inl, inr,
  arith, count_rows, All, Option-cases,
}
use triage_engine.Json.{null}
use triage_engine.Entities.{
  ticket_has_id, TicketEntity, EnrichmentStatus, OutboxMessageEntity, PipelineJobData,
}
use triage_engine.Outbox.{EmitInput, has_dedup_key, build_dedup_key, emit}
use triage_engine.Outbox.Emit.{emit_lem, HasUniqueDedupKeys, HasUniqueIds}
use triage_engine.Pipeline.Processor.{
  EnrichmentOutcome, side_effect, side_effect_triaged, side_effect_upgraded, effect_of, emit_effect,
}
use triage_engine.History.{State, IsConsistent}

-- The dedup keys of a ticket's two notifications.
abbrev effect_key : (event_type ticket_id : Text) → Text
effect_key event_type ticket_id = build_dedup_key (record {
  aggregate_type = codes "ticket";
  aggregate_id = ticket_id;
  event_type = event_type;
  version = codes "v1";
  payload = null;
})

abbrev pub triaged_key : (ticket_id : Text) → Text
triaged_key = effect_key side_effect_triaged

abbrev pub upgraded_key : (ticket_id : Text) → Text
upgraded_key = effect_key side_effect_upgraded

abbrev pub is_pending : EnrichmentStatus → Bool
is_pending EnrichmentStatus.pending = true
is_pending _ = false

abbrev pub IsNotified : List OutboxMessageEntity → TicketEntity → Type 0
IsNotified messages t =
    is_pending t.enrichment_status ≡ false
    → 0 < count_rows (has_dedup_key (triaged_key t.id)) messages

-- A status that a job has read: the ticket exists, and has left PENDING if it had then.
abbrev pub IsOutdated : List TicketEntity → Text × EnrichmentStatus → Type 0
IsOutdated tickets (id, status) =
    (0 < count_rows (ticket_has_id id) tickets)
    × (is_pending status ≡ false
        → All (λ t. ticket_has_id id t ≡ true → is_pending t.enrichment_status ≡ false) tickets)

pub record IsSound (s : State) : Type 0 where
  pub consistent : IsConsistent s.db
  pub notified : All (IsNotified s.db.outbox_messages) s.db.tickets
  pub reads : All (IsOutdated s.db.tickets) s.reads

-- More outbox rows for each key.
abbrev pub Grows : (rows rows' : List OutboxMessageEntity) → Type 0
Grows rows rows' =
    (key : Text) → count_rows (has_dedup_key key) rows ≤ count_rows (has_dedup_key key) rows'

pub emit_effect-Grows :
    (message_id : Text) (now : ℕ) (effect : Option EmitInput)
    (rows rows' : List OutboxMessageEntity)
    → emit_effect message_id now effect rows ≡ some rows'
    → Grows rows rows'
unfolding emit_effect emit count_rows
emit_effect-Grows message_id now none rows rows' e key = ground arith
emit_effect-Grows message_id now (some input) rows rows' e key = ground arith

side_effect_key :
    (id : Text) (outcome : EnrichmentOutcome) (job : PipelineJobData)
    → build_dedup_key (side_effect side_effect_triaged id outcome job) ≡ triaged_key id
unfolding build_dedup_key
side_effect_key id outcome job = refl

-- A run that read PENDING leaves the notification.
emit_triaged :
    (message_id : Text) (now : ℕ) (id : Text) (outcome : EnrichmentOutcome) (job : PipelineJobData)
    (rows rows' : List OutboxMessageEntity)
    → HasUniqueDedupKeys rows
    → HasUniqueIds rows
    → emit_effect message_id now (effect_of EnrichmentStatus.pending id outcome job) rows
      ≡ some rows'
    → 0 < count_rows (has_dedup_key (triaged_key id)) rows'
unfolding emit_effect effect_of
emit_triaged message_id now id outcome job rows rows' u w e =
    let input = side_effect side_effect_triaged id outcome job in
    elim (Option-cases (emit message_id now input rows)) [
      | inl refused ↦ absurd (ground (arith, refused))
      | inr ((key, after), done) ↦
          let same : after ≡ rows' = ground (arith, done) in
          let lem =
            emit_lem message_id message_id now now input input rows after key u w refl done in
          let positive : 0 < count_rows (has_dedup_key (build_dedup_key input)) after =
            omega (arith, lem.0) in
          subst (λ rs. 0 < count_rows (has_dedup_key (triaged_key id)) rs) same
            (subst (λ k. 0 < count_rows (has_dedup_key k) after) (side_effect_key id outcome job)
              positive)
    ]

pub first_emits :
    (message_id : Text) (now : ℕ) (id : Text) (prior : EnrichmentStatus)
    (outcome : EnrichmentOutcome) (job : PipelineJobData) (rows rows' : List OutboxMessageEntity)
    → HasUniqueDedupKeys rows
    → HasUniqueIds rows
    → emit_effect message_id now (effect_of prior id outcome job) rows ≡ some rows'
    → is_pending prior ≡ true
    → 0 < count_rows (has_dedup_key (triaged_key id)) rows'
first_emits message_id now id EnrichmentStatus.pending outcome job rows rows' u w e first =
    emit_triaged message_id now id outcome job rows rows' u w e
first_emits message_id now id EnrichmentStatus.enriched outcome job rows rows' u w e first =
    absurd (ground (arith, first))
first_emits message_id now id EnrichmentStatus.degraded outcome job rows rows' u w e first =
    absurd (ground (arith, first))
first_emits message_id now id EnrichmentStatus.failed outcome job rows rows' u w e first =
    absurd (ground (arith, first))
