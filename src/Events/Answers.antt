-- ===== src/Events/Answers.antt =====
-- What a claim, the transaction and the completion leave for a later delivery of the same event.
use triage_engine.Prelude.{
  ℕ, Text, text_eq, text_eq_refl, text_eq_sound, true, none, List, ◌∷◌, some, ◌≡◌, refl, inl, inr,
  arith, find_row, find_row_sound, find_row-update_rows, Bool-cases, Option-cases,
}
use triage_engine.Entities.{
  IdempotencyStatus, CreateEventDto, IdempotencyKeyEntity, is_completed, IngestResult, Db,
}
use triage_engine.Idempotency.{is_new, has_key, new_key, claim, mark_completed, reclaim}
use triage_engine.Events.Insert.{Draws, create_ticket_if_absent}
use triage_engine.Events.Create.{create_cases, attach_found}

-- The table holds a row for the key, made for the hash.
abbrev pub HasHash : (key request_hash : Text) → List IdempotencyKeyEntity → Type 0
HasHash key request_hash rows =
    (r : IdempotencyKeyEntity) × (find_row (has_key key) rows ≡ some r)
    × (r.request_hash ≡ request_hash)

-- The table answers a redelivery with the ticket and the body.
abbrev pub HasAnswer :
    (key request_hash ticket_id : Text) → IngestResult → List IdempotencyKeyEntity → Type 0
HasAnswer key request_hash ticket_id body rows =
    (r : IdempotencyKeyEntity) × (find_row (has_key key) rows ≡ some r)
    × (r.request_hash ≡ request_hash)
    × (is_completed r.status ≡ true)
    × (r.ticket_id ≡ some ticket_id)
    × (r.response_body ≡ some body)

reclaim-HasHash :
    (lease : ℕ) (key request_hash : Text) (now : ℕ) (rows : List IdempotencyKeyEntity)
    (r : IdempotencyKeyEntity)
    → find_row (has_key key) rows ≡ some r
    → r.request_hash ≡ request_hash
    → HasHash key request_hash (reclaim lease key now rows).0
unfolding reclaim
reclaim-HasHash lease key request_hash now rows r found same =
    (_, find_row-update_rows (has_key key) _ _ rows (λ s. refl) r found, ground (arith, same))

pub claim-HasHash :
    (lease : ℕ) (id key request_hash : Text) (now later : ℕ)
    (rows rows' : List IdempotencyKeyEntity)
    → claim lease id key request_hash now later rows ≡ some (is_new, rows')
    → HasHash key request_hash rows'
unfolding claim find_row
claim-HasHash lease id key request_hash now later rows rows' e =
    elim (Option-cases (find_row (has_key key) rows)) [
      | inl free ↦
          let added : rows' ≡ new_key id key request_hash now ∷ rows = ground (arith, free, e) in
          rw added (new_key id key request_hash now, ground (arith, text_eq_refl key), refl)
      | inr (r, found) ↦ elim (Bool-cases (text_eq r.request_hash request_hash)) [
        | inr differs ↦ absurd (ground (arith, found, differs, e))
        | inl same ↦ elim (Bool-cases (is_completed r.status)) [
          | inl done ↦ absurd (ground (arith, found, same, done, e))
          | inr pending_row ↦
              let left : rows' ≡ (reclaim lease key later rows).0 =
                ground (arith, found, same, pending_row, e) in
              rw left (
                reclaim-HasHash lease key request_hash later rows r found
                  (text_eq_sound r.request_hash request_hash same))
        ]
      ]
    ]

pub create-HasHash :
    (key request_hash : Text) (dto : CreateEventDto) (draws : Draws) (ids : Text × Text)
    (db db' : Db)
    → create_ticket_if_absent key dto draws db ≡ some (ids, db')
    → HasHash key request_hash db.idempotency_keys
    → HasHash key request_hash db'.idempotency_keys
create-HasHash key request_hash dto draws ids db db' e (r, found, same) =
    elim (create_cases key dto draws ids db db' e) [
      | inl reuse ↦ rw (reuse.kept) (r, found, same)
      | inr i ↦ rw (i.added) (
        record r { ticket_id = some draws.ticket_id; updated_at = draws.created_at },
        attach_found key draws.ticket_id draws.created_at db.idempotency_keys r found,
        same,
      )
    ]

pub complete-HasAnswer :
    (key request_hash ticket_id : Text) (code : ℕ) (body : IngestResult) (now : ℕ)
    (rows : List IdempotencyKeyEntity)
    → HasHash key request_hash rows
    → HasAnswer key request_hash ticket_id body (mark_completed key ticket_id code body now rows)
unfolding mark_completed
complete-HasAnswer key request_hash ticket_id code body now rows (r, found, same) =
    let complete = λ (s : IdempotencyKeyEntity). record s {
      status = IdempotencyStatus.completed;
      ticket_id = some ticket_id;
      response_code = some code;
      response_body = some body;
      locked_at = none;
      updated_at = now;
    } in
    let after =
      find_row-update_rows (has_key key) (has_key key) complete rows (λ s. refl) r found in
    (complete r, rw (find_row_sound (has_key key) rows found) at after, same, refl, refl, refl)
