-- ===== src/History/Settling.antt =====
-- What a run's write does to a ticket's status and to what is announced.
use triage_engine.Prelude.{
  ℕ, ◌≤◌, ◌<◌, Text, text_eq, text_eq_iff, text_eq_sound, true, false, not, ◌||◌, List, Option,
  none, some, is_some, ltb, ◌≡◌, ◌≢◌, refl, sym, ◌∙◌, ap, subst, ◌⊎◌, inl, inr, arith, count_rows,
  find_row, update_rows, lt→ltb, find_row-count_rows, find_row-update_rows,
  find_row-update_rows_other, find_row_sound, count_rows-find_row, count_rows-le, All, All-find_row,
  Option-cases, Bool-cases, if◌then◌else◌,
}
use triage_engine.Entities.{
  EnrichmentStatus, is_enriched, TicketEntity, ticket_has_id, OutboxMessageEntity, PipelineJobData,
  Db,
}
use triage_engine.Outbox.{EmitInput, build_dedup_key, has_dedup_key, emit}
use triage_engine.Pipeline.Processor.{
  side_effect, side_effect_triaged, side_effect_upgraded, EnrichmentOutcome, is_writable,
  write_outcome, effect_of, emit_effect,
}
use triage_engine.History.{IsResult, IsConsistent}
use triage_engine.History.Effects.{
  IsNotified, emit_effect-Grows, triaged_key, upgraded_key, is_pending,
}
use triage_engine.History.Promise.{Settles, promise_of, status_of}

-- The one row that an emitted effect may add.
emit_effect_keys :
    (message_id : Text) (now : ℕ) (effect : Option EmitInput)
    (rows rows' : List OutboxMessageEntity) (key : Text)
    → emit_effect message_id now effect rows ≡ some rows'
    → (is_some (find_row (has_dedup_key key) rows') ≡ is_some (find_row (has_dedup_key key) rows))
      ⊎ ((input : EmitInput) × (effect ≡ some input) × (key ≡ build_dedup_key input))
unfolding emit_effect emit find_row
emit_effect_keys message_id now none rows rows' key e = inl (ground arith)
emit_effect_keys message_id now (some input) rows rows' key e =
    elim (Bool-cases (text_eq (build_dedup_key input) key)) [
      | inr other ↦ inl (ground (arith, other, e))
      | inl same ↦ inr (input, refl, sym (text_eq_sound (build_dedup_key input) key same))
    ]

effect_key_of :
    (prior : EnrichmentStatus) (id : Text) (outcome : EnrichmentOutcome) (job : PipelineJobData)
    (input : EmitInput)
    → effect_of prior id outcome job ≡ some input
    → (build_dedup_key input ≡ triaged_key id) ⊎ (build_dedup_key input ≡ upgraded_key id)
unfolding effect_of build_dedup_key
effect_key_of EnrichmentStatus.pending id outcome job input e =
    let same : side_effect side_effect_triaged id outcome job ≡ input = ground (arith, e) in
    inl (ap build_dedup_key (sym same))
effect_key_of EnrichmentStatus.degraded id outcome job input e =
    elim (Bool-cases (is_enriched outcome.status)) [
      | inr still ↦ absurd (ground (arith, still, e))
      | inl better ↦
          let same : side_effect side_effect_upgraded id outcome job ≡ input =
            ground (arith, better, e) in
          inr (ap build_dedup_key (sym same))
    ]
effect_key_of EnrichmentStatus.enriched id outcome job input e = absurd (ground (arith, e))
effect_key_of EnrichmentStatus.failed id outcome job input e = absurd (ground (arith, e))

-- What a write that wins does to the statuses.
module _ (id : Text) (now : ℕ) (outcome : EnrichmentOutcome) (tickets : List TicketEntity)
    (unique : count_rows (ticket_has_id id) tickets ≤ 1)
    (won : 0 < count_rows (is_writable id outcome.status) tickets) where
  abbrev written : List TicketEntity
  written = update_rows (is_writable id outcome.status) (write_outcome now outcome) tickets

  written_row :
      (t : TicketEntity) × (find_row (ticket_has_id id) tickets ≡ some t)
      × (is_writable id outcome.status t ≡ true)
      × (find_row (ticket_has_id id) written ≡ some (write_outcome now outcome t))
  written_row =
      let there =
        count_rows-le (is_writable id outcome.status) (ticket_has_id id) tickets
          (λ r h. ground (arith, h)) in
      elim (Option-cases (find_row (ticket_has_id id) tickets)) [
        | inl missing ↦
            absurd
              (ground (arith, missing, there, won, find_row-count_rows (ticket_has_id id) tickets))
        | inr (t, found) ↦
            let alone =
              count_rows-find_row (ticket_has_id id)
                (λ r. is_enriched outcome.status || not (is_enriched r.enrichment_status)) tickets
                {r = t} unique found in
            let hit : is_writable id outcome.status t ≡ true =
              ground (arith, alone, won, find_row_sound (ticket_has_id id) tickets found) in
            (
              t,
              found,
              hit,
              find_row-update_rows (ticket_has_id id) (is_writable id outcome.status)
                    (write_outcome now outcome) tickets (λ r. refl) t found
                  ∙ ap (λ b. some (if b then write_outcome now outcome t else t)) hit,
            )
      ]

  written_others :
      (other : Text)
      → other ≢ id
      → find_row (ticket_has_id other) written ≡ find_row (ticket_has_id other) tickets
  written_others other ne =
      find_row-update_rows_other (ticket_has_id other) (is_writable id outcome.status)
        (write_outcome now outcome) tickets (λ r. refl)
        (λ r h. ground (arith, h, ne, text_eq_iff r.id id, text_eq_iff r.id other))

pub announced_count :
    (key : Text) (rows : List OutboxMessageEntity)
    → is_some (find_row (has_dedup_key key) rows) ≡ ltb 0 (count_rows (has_dedup_key key) rows)
announced_count key rows = find_row-count_rows (has_dedup_key key) rows

result_settled : (status : EnrichmentStatus) → IsResult status → is_pending status ≡ false
result_settled status (inl e) = ground (arith, e)
result_settled status (inr e) = ground (arith, e)

pub persist-Settles :
    (message_id : Text) (now : ℕ) (id : Text) (prior : EnrichmentStatus)
    (outcome : EnrichmentOutcome) (job : PipelineJobData) (db : Db)
    (rows : List OutboxMessageEntity)
    → IsConsistent db
    → IsResult outcome.status
    → emit_effect message_id now (effect_of prior id outcome job) db.outbox_messages ≡ some rows
    → 0 < count_rows (is_writable id outcome.status) db.tickets
    → (let tickets =
          update_rows (is_writable id outcome.status) (write_outcome now outcome) db.tickets in
        All (IsNotified rows) tickets
        → Settles id
            (promise_of db)
            (promise_of (record db { tickets = tickets; outbox_messages = rows })))
persist-Settles message_id now id prior outcome job db rows v result done won notified =
    let (t, found, hit, after) = written_row id now outcome db.tickets (v.tickets id) won in
    let same : t.id ≡ id =
      text_eq_sound t.id id (find_row_sound (ticket_has_id id) db.tickets found) in
    let grows =
      emit_effect-Grows message_id now (effect_of prior id outcome job) db.outbox_messages rows
        done in
    record {
      before = t.enrichment_status;
      after = outcome.status;
      was = ap status_of found;
      is = ap status_of after;
      settled = result;
      forward = λ h. ground (arith, h, hit);
      others = λ other ne.
          ap status_of (written_others id now outcome db.tickets (v.tickets id) won other ne);
      told =
          announced_count (triaged_key id) rows
          ∙ lt→ltb 0 (count_rows (has_dedup_key (triaged_key id)) rows) (
              subst (λ i. 0 < count_rows (has_dedup_key (triaged_key i)) rows) same
                (All-find_row (IsNotified rows) (ticket_has_id id) _ notified after
                  (result_settled outcome.status result)));
      kept = λ key h.
          ground
            (arith, h, grows key, announced_count key rows, announced_count key db.outbox_messages);
      own = λ key h.
          elim (emit_effect_keys message_id now (effect_of prior id outcome job) db.outbox_messages
            rows key done) [
              | inl kept ↦ inl (sym kept ∙ h)
              | inr (input, which, mine) ↦ elim (effect_key_of prior id outcome job input which) [
                | inl triaged ↦ inr (inl (mine ∙ triaged))
                | inr upgraded ↦ inr (inr (mine ∙ upgraded))
              ]
            ];
    }
