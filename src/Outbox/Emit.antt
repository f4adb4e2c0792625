-- ===== src/Outbox/Emit.antt =====
-- What `emit` promises: one row for each intended effect.
use triage_engine.Prelude.{
  ℕ, ◌≤◌, Text, text_eq_iff, text_eq_refl, List, ◌∷◌, some, ◌≡◌, arith, find_row, count_rows,
  find_row-count_rows, HasNoColon, colon-split, Option-cases, inl, inr,
}
use triage_engine.Entities.{OutboxMessageEntity}
use triage_engine.Outbox.{EmitInput, build_dedup_key, has_dedup_key, has_id, new_message, emit}

-- Two effects whose types and aggregate hold no colon share a dedup key only if they agree in
-- aggregate type, aggregate id, event type and version.
pub build_dedup_key-injective :
    (a b : EmitInput)
    → HasNoColon a.aggregate_type × HasNoColon a.aggregate_id × HasNoColon a.event_type
    → HasNoColon b.aggregate_type × HasNoColon b.aggregate_id × HasNoColon b.event_type
    → build_dedup_key a ≡ build_dedup_key b
    → (a.aggregate_type ≡ b.aggregate_type)
      × (a.aggregate_id ≡ b.aggregate_id)
      × (a.event_type ≡ b.event_type)
      × (a.version ≡ b.version)
unfolding build_dedup_key
build_dedup_key-injective a b h k e =
    let (types, e') = colon-split a.aggregate_type b.aggregate_type _ _ h.0 k.0 e in
    let (ids, e'') = colon-split a.aggregate_id b.aggregate_id _ _ h.1 k.1 e' in
    let (events, versions) = colon-split a.event_type b.event_type _ _ h.2 k.2 e'' in
    (types, ids, events, versions)

abbrev pub HasUniqueDedupKeys : List OutboxMessageEntity → Type 0
HasUniqueDedupKeys rows = (key : Text) → count_rows (has_dedup_key key) rows ≤ 1

abbrev pub HasUniqueIds : List OutboxMessageEntity → Type 0
HasUniqueIds rows = (id : Text) → count_rows (has_id id) rows ≤ 1

-- A successful `emit` leaves a row for the effect and keeps dedup keys and ids distinct; a second
-- `emit` of an effect with the same dedup key then changes nothing.
pub emit_lem :
    (id id' : Text) (now later : ℕ) (input again : EmitInput)
    (rows rows' : List OutboxMessageEntity) (key : Text)
    → HasUniqueDedupKeys rows
    → HasUniqueIds rows
    → build_dedup_key again ≡ build_dedup_key input
    → emit id now input rows ≡ some (key, rows')
    → (count_rows (has_dedup_key (build_dedup_key input)) rows' ≡ 1)
      × HasUniqueDedupKeys rows'
      × HasUniqueIds rows'
      × (emit id' later again rows' ≡ some (key, rows'))
unfolding emit count_rows find_row
emit_lem id id' now later input again rows rows' key u v same e =
    elim (Option-cases (find_row (has_dedup_key (build_dedup_key input)) rows)) [
      | inr (r, known) ↦
          let kept : rows' ≡ rows = ground (arith, known) in
          let the_key : key ≡ build_dedup_key input = ground (arith, known) in
          rw (kept, the_key, same)
            (
              ground (
                arith,
                known,
                u (build_dedup_key input),
                find_row-count_rows (has_dedup_key (build_dedup_key input)) rows,
              ),
              u,
              v,
              ground (arith, known),
            )
      | inl new_one ↦ elim (Option-cases (find_row (has_id id) rows)) [
        | inr (r, taken) ↦ absurd (ground (arith, new_one, taken))
        | inl free ↦
            let added : rows' ≡ new_message id now input ∷ rows = ground (arith, new_one, free) in
            let the_key : key ≡ build_dedup_key input = ground (arith, new_one, free) in
            rw (added, the_key, same)
              (
                ground (
                  arith,
                  new_one,
                  text_eq_refl (build_dedup_key input),
                  find_row-count_rows (has_dedup_key (build_dedup_key input)) rows,
                ),
                (λ j. ground (
                  arith,
                  new_one,
                  u j,
                  text_eq_iff (build_dedup_key input) j,
                  find_row-count_rows (has_dedup_key (build_dedup_key input)) rows,
                )),
                (λ j.
                    ground
                      (arith, free, v j, text_eq_iff id j, find_row-count_rows (has_id id) rows)),
                ground (arith, text_eq_refl (build_dedup_key input)),
              )
      ]
    ]
