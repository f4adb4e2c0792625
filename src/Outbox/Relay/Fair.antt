-- ===== src/Outbox/Relay/Fair.antt =====
-- Which rows a poll claims: the oldest of those that are due.
use triage_engine.Prelude.{
  ℕ, ◌≤◌, ◌<◌, Text, text_eq_sound, Bool, true, false, List, [], ◌∷◌, some, leb, length, take,
  select_rows, find_row, count_rows, ◌≡◌, refl, inl, inr, arith, All, All-mono, All-take,
  All-select_rows, Bool-cases, zero, suc,
}
use triage_engine.Entities.{OutboxMessageEntity, OutboxStatus, is_due}
use triage_engine.Outbox.{has_id}
use triage_engine.Outbox.Emit.{HasUniqueIds}
use triage_engine.Outbox.Relay.{insert_by_time, order_by_time, is_claimable, claim_batch}
use triage_engine.Outbox.Relay.Claim.{
  AllFound, rows-AllFound, order_by_time_count, All-insert_by_time, All-order_by_time,
  claim_batch-IsClaimable,
}

-- The row is PENDING, its time has come, and no other relay holds it.
pub record IsOpen (locked : Text → Bool) (now : ℕ) (r : OutboxMessageEntity) : Type 0 where
  pub waiting : r.status ≡ OutboxStatus.pending
  pub due : r.next_attempt_at ≤ now
  pub free : locked r.id ≡ false

unfoldable pub IsInOrder : List OutboxMessageEntity → Type 0
IsInOrder [] = Unit {0}
IsInOrder (r ∷ rows) = All (λ s. r.next_attempt_at ≤ s.next_attempt_at) rows × IsInOrder rows

is_due_iff : (s : OutboxStatus) → is_due s ≡ true → s ≡ OutboxStatus.pending
is_due_iff OutboxStatus.pending h = refl
is_due_iff OutboxStatus.sent h = cc
is_due_iff OutboxStatus.failed h = cc

is_claimable-IsOpen :
    (locked : Text → Bool) (now : ℕ) (r : OutboxMessageEntity)
    → is_claimable locked now r ≡ true
    → IsOpen locked now r
is_claimable-IsOpen locked now r h = record {
  waiting = is_due_iff r.status (ground (arith, h));
  due = ground (arith, h);
  free = ground (arith, h);
}

IsOpen-is_claimable :
    (locked : Text → Bool) (now : ℕ) (r : OutboxMessageEntity)
    → IsOpen locked now r
    → is_claimable locked now r ≡ true
IsOpen-is_claimable locked now r o = ground (arith, o.waiting, o.due, o.free)

insert-IsInOrder :
    (r : OutboxMessageEntity) (rows : List OutboxMessageEntity)
    → IsInOrder rows
    → IsInOrder (insert_by_time r rows)
unfolding insert_by_time IsInOrder
insert-IsInOrder r [] o = (tt, tt)
insert-IsInOrder r (s ∷ rows) o = elim (Bool-cases (leb r.next_attempt_at s.next_attempt_at)) [
  | inl first ↦
      let le : r.next_attempt_at ≤ s.next_attempt_at = ground (arith, first) in
      rw first ((le, All-mono rows (λ t h. omega (arith, h, le)) o.0), o)
  | inr later ↦
      rw later
        (All-insert_by_time _ r rows (ground (arith, later)) o.0, insert-IsInOrder r rows o.1)
]

order-IsInOrder : (rows : List OutboxMessageEntity) → IsInOrder (order_by_time rows)
unfolding order_by_time IsInOrder
order-IsInOrder [] = tt
order-IsInOrder (r ∷ rows) = insert-IsInOrder r (order_by_time rows) (order-IsInOrder rows)

take-IsInOrder :
    (n : ℕ) (rows : List OutboxMessageEntity) → IsInOrder rows → IsInOrder (take n rows)
unfolding IsInOrder
take-IsInOrder zero rows o = tt
take-IsInOrder (suc n) [] o = tt
take-IsInOrder (suc n) (r ∷ rows) o = (All-take _ n rows o.0, take-IsInOrder n rows o.1)

-- The rows that a test picks out are all due at one time.
abbrev AllAt : (p : OutboxMessageEntity → Bool) (time : ℕ) → List OutboxMessageEntity → Type 0
AllAt p time = All (λ s. p s ≡ true → s.next_attempt_at ≡ time)

below_picked :
    (p : OutboxMessageEntity → Bool) (time least : ℕ) (rows : List OutboxMessageEntity)
    → All (λ s. least ≤ s.next_attempt_at) rows
    → AllAt p time rows
    → 0 < count_rows p rows
    → least ≤ time
unfolding count_rows
below_picked p time least [] above at some_row = absurd (omega (arith, some_row))
below_picked p time least (x ∷ rows) above at some_row = elim (Bool-cases (p x)) [
  | inl hit ↦ omega (arith, above.0, at.0 hit)
  | inr miss ↦ below_picked p time least rows above.1 at.1 (ground (arith, some_row, miss))
]

-- What the limit cuts off comes after all that it leaves.
take_fair :
    (p : OutboxMessageEntity → Bool) (time n : ℕ) (rows : List OutboxMessageEntity)
    → IsInOrder rows
    → AllAt p time rows
    → 0 < count_rows p rows
    → count_rows p (take n rows) ≡ 0
    → (length (take n rows) ≡ n) × All (λ s. s.next_attempt_at ≤ time) (take n rows)
unfolding count_rows IsInOrder
take_fair p time zero rows o at some_row absent = (refl, tt)
take_fair p time (suc n) [] o at some_row absent = absurd (omega (arith, some_row))
take_fair p time (suc n) (x ∷ rows) o at some_row absent = elim (Bool-cases (p x)) [
  | inl hit ↦ absurd (ground (arith, hit, absent))
  | inr miss ↦
      let left : 0 < count_rows p rows = ground (arith, miss, some_row) in
      let rest = take_fair p time n rows o.1 at.1 left (ground (arith, miss, absent)) in
      (omega (arith, rest.0), (below_picked p time x.next_attempt_at rows o.0 at.1 left, rest.1))
]

found_selected :
    (p q : OutboxMessageEntity → Bool) (rows : List OutboxMessageEntity) (r : OutboxMessageEntity)
    → find_row p rows ≡ some r
    → q r ≡ true
    → 0 < count_rows p (select_rows q rows)
unfolding find_row count_rows select_rows
found_selected p q [] r e h = absurd (ground (arith, e))
found_selected p q (x ∷ rows) r e h = elim (Bool-cases (p x)) [
  | inl hit ↦ ground (arith, hit, h, e)
  | inr miss ↦ ground (arith, miss, found_selected p q rows r (ground (arith, miss, e)) h)
]

-- A row is the only one with its id.
found_at :
    (rows : List OutboxMessageEntity) (r : OutboxMessageEntity)
    → HasUniqueIds rows
    → find_row (has_id r.id) rows ≡ some r
    → AllAt (has_id r.id) r.next_attempt_at rows
unfolding AllFound
found_at rows r unique found =
    All-mono rows
      (λ s mine hit.
        let same : s.id ≡ r.id = text_eq_sound s.id r.id hit in
        ground (arith, rw same at mine, found))
      (rows-AllFound rows unique)

-- A batch holds at most `limit` rows, with distinct ids and in the order of their times; each is
-- PENDING, due and not locked by another relay. A row of the table that is all this and is not in the
-- batch was cut off by the limit: the batch is full, and none of its rows was due later than that row.
pub claim_batch_lem :
    (locked : Text → Bool) (now limit : ℕ) (rows : List OutboxMessageEntity)
    → HasUniqueIds rows
    → let batch = claim_batch locked now limit rows in
      (length batch ≤ limit)
      × HasUniqueIds batch
      × IsInOrder batch
      × All (IsOpen locked now) batch
      × ((r : OutboxMessageEntity)
          → find_row (has_id r.id) rows ≡ some r
          → IsOpen locked now r
          → count_rows (has_id r.id) batch ≡ 0
          → (length batch ≡ limit) × All (λ s. s.next_attempt_at ≤ r.next_attempt_at) batch)
unfolding claim_batch
claim_batch_lem locked now limit rows unique =
    let chosen = select_rows (is_claimable locked now) rows in
    let basics = claim_batch-IsClaimable locked now limit rows unique in
    (
      basics.0,
      basics.2,
      take-IsInOrder limit (order_by_time chosen) (order-IsInOrder chosen),
      All-mono _ (λ r h. is_claimable-IsOpen locked now r h) basics.1,
      λ r found ready absent.
          take_fair (has_id r.id) r.next_attempt_at limit (order_by_time chosen)
            (order-IsInOrder chosen)
            (All-order_by_time _ chosen
              (All-select_rows _ (is_claimable locked now) rows (found_at rows r unique found)))
            (omega (
              arith,
              order_by_time_count (has_id r.id) chosen,
              found_selected (has_id r.id) (is_claimable locked now) rows r found
                  (IsOpen-is_claimable locked now r ready),
            ))
            absent,
    )
