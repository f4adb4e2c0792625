-- ===== src/Events/Held.antt =====
-- The row of a key while its request runs, after it failed, and what a later claim makes of each.
use triage_engine.Prelude.{
  ℕ, ◌+◌, ◌<◌, Text, text_eq, text_eq_refl, text_eq_sound, count_rows-find_row, ◌⊎◌, Bool, true,
  ◌&&◌, List, [], ◌∷◌, none, some, ◌≡◌, refl, inl, inr, arith, find_row, find_row_sound,
  find_row-update_rows, count_rows, Bool-cases, Option-cases,
}
use triage_engine.Entities.{
  CreateEventDto, IngestResult, IdempotencyKeyEntity, IdempotencyStatus, is_completed, Db,
}
use triage_engine.Idempotency.{
  is_new, replay, has_key, new_key, is_stale, is_reclaimable, claim, reclaim, mark_failed,
}
use triage_engine.Idempotency.Claim.{HasUniqueKeys}
use triage_engine.Events.Insert.{Draws, create_ticket_if_absent}
use triage_engine.Events.Create.{create_cases, attach_found}
use triage_engine.Events.Answers.{HasHash, HasAnswer}

-- The key was given up by a run that failed.
abbrev pub HasFailed : (key request_hash : Text) → List IdempotencyKeyEntity → Type 0
HasFailed key request_hash rows =
    (r : IdempotencyKeyEntity) × (find_row (has_key key) rows ≡ some r)
    × (r.request_hash ≡ request_hash)
    × (r.status ≡ IdempotencyStatus.failed)

-- The key is PENDING since its claim.
abbrev pub IsHeld : (key request_hash : Text) → Draws → List IdempotencyKeyEntity → Type 0
IsHeld key request_hash draws rows =
    (r : IdempotencyKeyEntity) × (find_row (has_key key) rows ≡ some r)
    × (r.request_hash ≡ request_hash)
    × (r.status ≡ IdempotencyStatus.pending)
    × ((r.locked_at ≡ some draws.claimed_at) ⊎ (r.locked_at ≡ some draws.reclaimed_at))

pub IsHeld-HasHash :
    (key request_hash : Text) (draws : Draws) (rows : List IdempotencyKeyEntity)
    → IsHeld key request_hash draws rows
    → HasHash key request_hash rows
IsHeld-HasHash key request_hash draws rows (r, found, same, status, since) = (r, found, same)

pub claim-IsHeld :
    (lease : ℕ) (key request_hash : Text) (draws : Draws) (rows rows' : List IdempotencyKeyEntity)
    → HasUniqueKeys rows
    → claim lease draws.key_id key request_hash draws.claimed_at draws.reclaimed_at rows
      ≡ some (is_new, rows')
    → IsHeld key request_hash draws rows'
unfolding claim find_row reclaim
claim-IsHeld lease key request_hash draws rows rows' unique e =
    elim (Option-cases (find_row (has_key key) rows)) [
      | inl free ↦
          let row = new_key draws.key_id key request_hash draws.claimed_at in
          let added : rows' ≡ row ∷ rows = ground (arith, free, e) in
          rw added (row, ground (arith, text_eq_refl key), refl, refl, inl refl)
      | inr (r, found) ↦ elim (Bool-cases (text_eq r.request_hash request_hash)) [
        | inr differs ↦ absurd (ground (arith, found, differs, e))
        | inl same ↦ elim (Bool-cases (is_completed r.status)) [
          | inl done ↦ absurd (ground (arith, found, same, done, e))
          | inr pending_row ↦
              let only =
                count_rows-find_row (has_key key) (is_reclaimable lease draws.reclaimed_at) rows
                  {r = r} (unique key) found in
              elim (Bool-cases (is_reclaimable lease draws.reclaimed_at r)) [
                | inr taken ↦ absurd (ground (arith, found, same, pending_row, e, only, taken))
                | inl stale ↦
                    let left : rows' ≡ (reclaim lease key draws.reclaimed_at rows).0 =
                      ground (arith, found, same, pending_row, e) in
                    let after =
                      find_row-update_rows (has_key key)
                        (λ s. has_key key s && is_reclaimable lease draws.reclaimed_at s)
                        (λ (s : IdempotencyKeyEntity). record s {
                          status = IdempotencyStatus.pending;
                          locked_at = some draws.reclaimed_at;
                          updated_at = draws.reclaimed_at;
                        })
                        rows (λ s. refl) r found in
                    rw left (
                      record r {
                        status = IdempotencyStatus.pending;
                        locked_at = some draws.reclaimed_at;
                        updated_at = draws.reclaimed_at;
                      },
                      rw (find_row_sound (has_key key) rows found, stale) at after,
                      text_eq_sound r.request_hash request_hash same,
                      refl,
                      inr refl,
                    )
              ]
        ]
      ]
    ]

pub create-IsHeld :
    (key request_hash : Text) (dto : CreateEventDto) (draws : Draws) (ids : Text × Text)
    (db db' : Db)
    → create_ticket_if_absent key dto draws db ≡ some (ids, db')
    → IsHeld key request_hash draws db.idempotency_keys
    → IsHeld key request_hash draws db'.idempotency_keys
create-IsHeld key request_hash dto draws ids db db' e (r, found, same, status, since) =
    elim (create_cases key dto draws ids db db' e) [
      | inl reuse ↦ rw (reuse.kept) (r, found, same, status, since)
      | inr i ↦ rw (i.added) (
        record r { ticket_id = some draws.ticket_id; updated_at = draws.created_at },
        attach_found key draws.ticket_id draws.created_at db.idempotency_keys r found,
        same,
        status,
        since,
      )
    ]

pub fail-HasFailed :
    (key request_hash : Text) (now : ℕ) (rows : List IdempotencyKeyEntity)
    → HasHash key request_hash rows
    → HasFailed key request_hash (mark_failed key now rows)
unfolding mark_failed
fail-HasFailed key request_hash now rows (r, found, same) =
    let give_up = λ (s : IdempotencyKeyEntity). record s {
      status = IdempotencyStatus.failed;
      locked_at = none;
      updated_at = now;
    } in
    let after = find_row-update_rows (has_key key) (has_key key) give_up rows (λ s. refl) r found in
    (give_up r, rw (find_row_sound (has_key key) rows found) at after, same, refl)

found_count :
    (p q : IdempotencyKeyEntity → Bool) (rows : List IdempotencyKeyEntity)
    (r : IdempotencyKeyEntity)
    → find_row p rows ≡ some r
    → q r ≡ true
    → 0 < count_rows (λ s. p s && q s) rows
unfolding find_row count_rows
found_count p q [] r e h = absurd (ground (arith, e))
found_count p q (x ∷ rows) r e h = elim (Bool-cases (p x)) [
  | inl hit ↦ ground (arith, hit, h, e)
  | inr miss ↦ ground (arith, miss, found_count p q rows r (ground (arith, miss, e)) h)
]

-- A key that was given up is claimed by the next request with its content, at any time.
pub HasFailed-claim :
    (lease : ℕ) (id key request_hash : Text) (now later : ℕ) (rows : List IdempotencyKeyEntity)
    → HasFailed key request_hash rows
    → (rows' : List IdempotencyKeyEntity) × (claim lease id key request_hash now later rows
        ≡ some (is_new, rows'))
unfolding claim reclaim
HasFailed-claim lease id key request_hash now later rows (r, found, same, status) = (
  (reclaim lease key later rows).0,
  ground (
    arith,
    found,
    same,
    text_eq_refl request_hash,
    status,
    found_count (has_key key) (is_reclaimable lease later) rows r found (ground (arith, status)),
  ),
)

pub HasAnswer-claim :
    (lease : ℕ) (id key request_hash ticket_id : Text) (body : IngestResult) (now later : ℕ)
    (rows : List IdempotencyKeyEntity)
    → HasAnswer key request_hash ticket_id body rows
    → (r : IdempotencyKeyEntity) × (claim lease id key request_hash now later rows
        ≡ some (replay r, rows))
      × (r.ticket_id ≡ some ticket_id)
      × (r.response_body ≡ some body)
unfolding claim
HasAnswer-claim lease id key request_hash ticket_id body now later rows
      (r, found, same, done, mine, answer) =
    (r, ground (arith, found, same, done, text_eq_refl request_hash), mine, answer)

-- A key that is held is claimed anew once the lease has passed.
pub IsHeld-claim :
    (lease : ℕ) (id key request_hash : Text) (draws : Draws) (now later : ℕ)
    (rows : List IdempotencyKeyEntity)
    → draws.claimed_at + lease < later
    → draws.reclaimed_at + lease < later
    → IsHeld key request_hash draws rows
    → (rows' : List IdempotencyKeyEntity) × (claim lease id key request_hash now later rows
        ≡ some (is_new, rows'))
unfolding claim reclaim
IsHeld-claim lease id key request_hash draws now later rows early late
      (r, found, same, status, since) =
    let stale : is_stale lease later r.locked_at ≡ true = elim since [
      | inl first ↦ ground (arith, first)
      | inr second ↦ ground (arith, second)
    ] in
    (
      (reclaim lease key later rows).0,
      ground (
        arith,
        found,
        same,
        text_eq_refl request_hash,
        status,
        found_count (has_key key) (is_reclaimable lease later) rows r found
            (ground (arith, status, stale)),
      ),
    )
