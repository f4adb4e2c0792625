-- ===== src/Outbox/Relay/Claim.antt =====
-- The batch that a poll claims: rows of the table, and that two relays claim none twice.
use triage_engine.Prelude.{
  ℕ, ◌≤◌, ◌<◌, Text, text_eq_refl, Bool, true, false, List, [], ◌∷◌, ◌++◌, some, leb, length,
  select_rows, find_row, count_rows, ◌≡◌, refl, ◌∙◌, arith, All, All-mono, All-take,
  select_rows_sound, count_rows-take, count_rows-select_rows, find_row-count_rows, length-take,
  count_rows-append, count_rows_zero, ltb, text_eq_sound, inl, inr, Bool-cases, is_some,
}
use triage_engine.Entities.{OutboxMessageEntity}
use triage_engine.Outbox.{has_id}
use triage_engine.Outbox.Emit.{HasUniqueIds}
use triage_engine.Outbox.Relay.{insert_by_time, order_by_time, is_claimable, claim_batch}

-- Each row is found by its id.
unfoldable pub AllFound : (rows batch : List OutboxMessageEntity) → Type 0
AllFound rows = All (λ r. find_row (has_id r.id) rows ≡ some r)

found_cons :
    (x r : OutboxMessageEntity) (rows : List OutboxMessageEntity)
    → count_rows (has_id r.id) (x ∷ rows) ≤ 1
    → find_row (has_id r.id) rows ≡ some r
    → find_row (has_id r.id) (x ∷ rows) ≡ some r
unfolding count_rows find_row
found_cons x r rows u e = ground (arith, find_row-count_rows (has_id r.id) rows)

pub rows-AllFound : (rows : List OutboxMessageEntity) → HasUniqueIds rows → AllFound rows rows
unfolding count_rows AllFound
rows-AllFound [] u = tt
rows-AllFound (x ∷ rows) u = (
  unfold find_row in rw (text_eq_refl x.id) refl,
  All-mono rows (λ r e. found_cons x r rows (u r.id) e)
      (rows-AllFound rows (λ i. ground (arith, u i))),
)

insert_by_time_count :
    (p : OutboxMessageEntity → Bool) (r : OutboxMessageEntity) (rows : List OutboxMessageEntity)
    → count_rows p (insert_by_time r rows) ≡ count_rows p (r ∷ rows)
unfolding count_rows insert_by_time
insert_by_time_count p r [] = refl
insert_by_time_count p r (s ∷ rows) = ground (arith, insert_by_time_count p r rows)

pub order_by_time_count :
    (p : OutboxMessageEntity → Bool) (rows : List OutboxMessageEntity)
    → count_rows p (order_by_time rows) ≡ count_rows p rows
unfolding order_by_time count_rows
order_by_time_count p [] = refl
order_by_time_count p (r ∷ rows) =
    insert_by_time_count p r (order_by_time rows) ∙ ground (arith, order_by_time_count p rows)

pub All-insert_by_time :
    (P : OutboxMessageEntity → Type 0) (r : OutboxMessageEntity) (rows : List OutboxMessageEntity)
    → P r
    → All P rows
    → All P (insert_by_time r rows)
unfolding insert_by_time
All-insert_by_time P r [] h a = (h, tt)
All-insert_by_time P r (s ∷ rows) h a =
    elim (Bool-cases (leb r.next_attempt_at s.next_attempt_at)) [
      | inl first ↦ rw first (h, a)
      | inr later ↦ rw later (a.0, All-insert_by_time P r rows h a.1)
    ]

pub All-order_by_time :
    (P : OutboxMessageEntity → Type 0) (rows : List OutboxMessageEntity)
    → All P rows
    → All P (order_by_time rows)
unfolding order_by_time
All-order_by_time P [] a = tt
All-order_by_time P (r ∷ rows) a = All-insert_by_time P r _ a.0 (All-order_by_time P rows a.1)

-- What holds of every row holds of every row of the batch.
pub All-claim_batch :
    (P : OutboxMessageEntity → Type 0) (locked : Text → Bool) (now limit : ℕ)
    (rows : List OutboxMessageEntity)
    → All P (select_rows (is_claimable locked now) rows)
    → All P (claim_batch locked now limit rows)
unfolding claim_batch
All-claim_batch P locked now limit rows a = All-take P limit _ (All-order_by_time P _ a)

claim_batch_count :
    (p : OutboxMessageEntity → Bool) (locked : Text → Bool) (now limit : ℕ)
    (rows : List OutboxMessageEntity)
    → count_rows p (claim_batch locked now limit rows) ≤ count_rows p rows
unfolding claim_batch
claim_batch_count p locked now limit rows =
    let chosen = select_rows (is_claimable locked now) rows in
    omega (
      arith,
      count_rows-take p limit (order_by_time chosen),
      order_by_time_count p chosen,
      count_rows-select_rows p (is_claimable locked now) rows,
    )

-- A batch holds at most `limit` rows; each passes the poll's condition, and no id comes twice.
pub claim_batch-IsClaimable :
    (locked : Text → Bool) (now limit : ℕ) (rows : List OutboxMessageEntity)
    → HasUniqueIds rows
    → (length (claim_batch locked now limit rows) ≤ limit)
      × All (λ r. is_claimable locked now r ≡ true) (claim_batch locked now limit rows)
      × HasUniqueIds (claim_batch locked now limit rows)
claim_batch-IsClaimable locked now limit rows u = (
  unfold claim_batch in
      omega (arith, length-take limit (order_by_time (select_rows (is_claimable locked now) rows))),
  All-claim_batch _ locked now limit rows (select_rows_sound (is_claimable locked now) rows),
  λ i. omega (arith, u i, claim_batch_count (has_id i) locked now limit rows),
)

-- The ids of a batch, as the locks that `FOR UPDATE` holds.
abbrev pub locks_of : List OutboxMessageEntity → Text → Bool
locks_of batch i = is_some (find_row (has_id i) batch)

unlocked_miss :
    (first : List OutboxMessageEntity) (i : Text) (now : ℕ) (r : OutboxMessageEntity)
    → 0 < count_rows (has_id i) first
    → is_claimable (locks_of first) now r ≡ true
    → has_id i r ≡ false
unlocked_miss first i now r some_row h = elim (Bool-cases (has_id i r)) [
  | inr miss ↦ miss
  | inl hit ↦
      let same = text_eq_sound r.id i hit in
      let unlocked : locks_of first r.id ≡ false = ground arith in
      absurd (ground (arith, some_row, find_row-count_rows (has_id i) first, rw same at unlocked))
]

-- A relay that polls while another holds its batch steps over those rows: together they claim no
-- row twice.
pub claim_batch-disjoint :
    (now now' limit limit' : ℕ) (rows : List OutboxMessageEntity)
    → HasUniqueIds rows
    → let first = claim_batch (λ _. false) now limit rows in
      HasUniqueIds (first ++ claim_batch (locks_of first) now' limit' rows)
claim_batch-disjoint now now' limit limit' rows u i =
    let first = claim_batch (λ _. false) now limit rows in
    let second = claim_batch (locks_of first) now' limit' rows in
    rw (count_rows-append (has_id i) first second)
      (elim (Bool-cases (ltb 0 (count_rows (has_id i) first))) [
        | inl taken ↦
            let none_left = count_rows_zero (has_id i) second (
              All-mono second (λ r h. unlocked_miss first i now' r (ground arith) h)
                (claim_batch-IsClaimable (locks_of first) now' limit' rows u).1) in
            omega (arith, none_left, (claim_batch-IsClaimable (λ _. false) now limit rows u).2 i)
        | inr free ↦
            ground (arith, free, (claim_batch-IsClaimable (locks_of first) now' limit' rows u).2 i)
      ])
