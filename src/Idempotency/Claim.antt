-- ===== src/Idempotency/Claim.antt =====
-- The four outcomes of a claim, and the table that each leaves.
use triage_engine.Prelude.{
  ℕ, ◌≤◌, Text, text_eq, text_eq_iff, Bool, true, false, List, ◌∷◌, Option, none, some, ◌≡◌, refl,
  ◌≢◌, inl, inr, arith, find_row, count_rows, update_rows, count_rows-update_rows,
  find_row-update_rows_other, count_rows-find_row, ap, find_row-count_rows, Option-cases,
  Bool-cases, if◌then◌else◌,
}
use triage_engine.Entities.{IdempotencyKeyEntity, is_completed}
use triage_engine.Idempotency.{
  ClaimResult, is_new, replay, in_flight, conflict, has_key, new_key, is_reclaimable, reclaim,
  claim,
}

-- What decides the outcome, read off the row that the table holds for the key.
abbrev pub expected :
    (lease : ℕ) (request_hash : Text) (later : ℕ) → Option IdempotencyKeyEntity → ClaimResult
expected lease request_hash later none = is_new
expected lease request_hash later (some r) =
    if text_eq r.request_hash request_hash
    then if is_completed r.status
      then replay r
      else if is_reclaimable lease later r
      then is_new
      else in_flight r
    else conflict r

-- At most one row bears each key: the UNIQUE constraint.
abbrev pub HasUniqueKeys : List IdempotencyKeyEntity → Type 0
HasUniqueKeys rows = (key : Text) → count_rows (has_key key) rows ≤ 1

-- What a claim leaves: the keys stay distinct, and the rows of other keys as they were.
abbrev pub Leaves : Text → (rows rows' : List IdempotencyKeyEntity) → Type 0
Leaves key rows rows' =
    (HasUniqueKeys rows → HasUniqueKeys rows')
    × ((other : Text)
        → other ≢ key
        → find_row (has_key other) rows' ≡ find_row (has_key other) rows)

Leaves-refl : (key : Text) (rows : List IdempotencyKeyEntity) → Leaves key rows rows
Leaves-refl key rows = (λ u. u, λ other ne. refl)

not-has_key :
    {key other : Text} (r : IdempotencyKeyEntity)
    → other ≢ key
    → has_key key r ≡ true
    → has_key other r ≡ false
not-has_key {key} {other} r ne h =
    ground (arith, text_eq_iff r.idempotency_key key, text_eq_iff r.idempotency_key other)

-- Updates of the rows of one key that keep the key itself.
update-Leaves :
    (key : Text) (q : IdempotencyKeyEntity → Bool) (f : IdempotencyKeyEntity → IdempotencyKeyEntity)
    (rows : List IdempotencyKeyEntity)
    → ((r : IdempotencyKeyEntity) → (f r).idempotency_key ≡ r.idempotency_key)
    → ((r : IdempotencyKeyEntity) → q r ≡ true → has_key key r ≡ true)
    → Leaves key rows (update_rows q f rows)
update-Leaves key q f rows same only = (
  λ u j.
      rw (count_rows-update_rows (has_key j) q f rows (λ r. ap (λ k. text_eq k j) (same r))) (u j),
  λ other ne.
      find_row-update_rows_other (has_key other) q f rows (λ r. ap (λ k. text_eq k other) (same r))
        (λ r h. not-has_key r ne (only r h)),
)

reclaim-Leaves :
    (lease : ℕ) (key : Text) (now : ℕ) (rows : List IdempotencyKeyEntity)
    → Leaves key rows (reclaim lease key now rows).0
unfolding reclaim
reclaim-Leaves lease key now rows = update-Leaves key _ _ rows (λ r. refl) (λ r h. ground arith)

new_key-Leaves :
    (id key request_hash : Text) (now : ℕ) (rows : List IdempotencyKeyEntity)
    → find_row (has_key key) rows ≡ none
    → Leaves key rows (new_key id key request_hash now ∷ rows)
unfolding count_rows find_row
new_key-Leaves id key request_hash now rows free = (
  λ u j. ground (arith, free, u j, text_eq_iff key j, find_row-count_rows (has_key key) rows),
  λ other ne. ground (arith, text_eq_iff key other),
)

-- A claim never fails on a table with distinct keys. Its outcome is the one that the key's row
-- calls for; keys stay distinct, and the rows of other keys as they were.
pub claim_lem :
    (lease : ℕ) (id key request_hash : Text) (now later : ℕ) (rows : List IdempotencyKeyEntity)
    → HasUniqueKeys rows
    → (rows' : List IdempotencyKeyEntity) × (claim lease id key request_hash now later rows
        ≡ some (expected lease request_hash later (find_row (has_key key) rows), rows'))
      × Leaves key rows rows'
unfolding claim
claim_lem lease id key request_hash now later rows u =
    elim (Option-cases (find_row (has_key key) rows)) [
      | inl free ↦ (
        new_key id key request_hash now ∷ rows,
        ground (arith, free),
        new_key-Leaves id key request_hash now rows free,
      )
      | inr (r, found) ↦ claim_found r found
    ]
  where
    claim_found :
        (r : IdempotencyKeyEntity)
        → find_row (has_key key) rows ≡ some r
        → (rows' : List IdempotencyKeyEntity) × (claim lease id key request_hash now later rows
            ≡ some (expected lease request_hash later (find_row (has_key key) rows), rows'))
          × Leaves key rows rows'
    claim_found r found = elim (Bool-cases (text_eq r.request_hash request_hash)) [
      | inl same ↦ elim (Bool-cases (is_completed r.status)) [
        | inl done ↦ (rows, ground (arith, found, same, done), Leaves-refl key rows)
        | inr open_row ↦ (
          (reclaim lease key later rows).0,
          ground (
            arith,
            found,
            same,
            open_row,
            count_rows-find_row (has_key key) (is_reclaimable lease later) rows {r = r} (u key),
          ),
          reclaim-Leaves lease key later rows,
        )
      ]
      | inr differs ↦ (rows, ground (arith, found, differs), Leaves-refl key rows)
    ]
