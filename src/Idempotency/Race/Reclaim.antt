-- ===== src/Idempotency/Race/Reclaim.antt =====
-- The reclaiming statement: it wins only a lease after the owner's win, and it keeps the invariant.
use triage_engine.Prelude.{
  ℕ, ◌+◌, ◌≤◌, ◌<◌, Text, true, false, ◌&&◌, List, [], ◌∷◌, Option, some, ltb, ◌≡◌, refl, subst,
  inl, inr, arith, count_rows, All, All-update_rows, All-count_rows_one, count_rows_pos,
  count_rows-update_rows, count_rows-le, update_rows_none, Bool-cases, if◌then◌else◌,
}
use triage_engine.Entities.{IdempotencyKeyEntity, IdempotencyStatus}
use triage_engine.Idempotency.{
  has_key, is_stale, status_reclaimable, is_reclaimable, reclaim, reclaimed,
}
use triage_engine.Idempotency.Race.{Mark, won, gave_up, note}
use triage_engine.Idempotency.Race.Marks.{AreSpread, IsHeld, Held, Agrees, Inv}

module _ (lease : ℕ) (key : Text) where
  -- A row whose owner keeps it is reclaimable only after the lease.
  reclaimable_late :
      (t now : ℕ) (status : IdempotencyStatus) (locked_at : Option ℕ)
      → IsHeld t status locked_at
      → status_reclaimable (is_stale lease now locked_at) status ≡ true
      → t + lease < now
  reclaimable_late t now IdempotencyStatus.pending locked_at h e = ground arith
  reclaimable_late t now IdempotencyStatus.completed locked_at h e = cc
  reclaimable_late t now IdempotencyStatus.failed locked_at h e = absurd h

  pub won_spread :
      (now : ℕ) (log : List Mark)
      → AreSpread lease log
      → ((t : ℕ) (older : List Mark) → log ≡ won t ∷ older → t + lease < now)
      → AreSpread lease (won now ∷ log)
  won_spread now [] s h = tt
  won_spread now (gave_up ∷ log) s h = s
  won_spread now (won t ∷ log) s h = (h t log refl, s)

  reclaim_count :
      (now : ℕ) (rows : List IdempotencyKeyEntity)
      → count_rows (has_key key) (reclaim lease key now rows).0 ≡ count_rows (has_key key) rows
  unfolding reclaim
  reclaim_count now rows = count_rows-update_rows (has_key key) _ _ rows (λ r. refl)

  reclaim_late :
      (t now : ℕ) (rows : List IdempotencyKeyEntity)
      → All (Held key t) rows
      → 0 < (reclaim lease key now rows).1
      → t + lease < now
  unfolding reclaim
  reclaim_late t now rows held some_row =
      count_rows_pos (Held key t) _ rows held some_row
        λ r h e. reclaimable_late t now r.status r.locked_at (h (ground arith)) (ground arith)

  -- The row that a reclaim wrote, or another's.
  reset-Held :
      (now : ℕ) (r : IdempotencyKeyEntity)
      → (has_key key r ≡ true → is_reclaimable lease now r ≡ true)
      → Held key now (
          if has_key key r && is_reclaimable lease now r
          then record r {
            status = IdempotencyStatus.pending;
            locked_at = some now;
            updated_at = now;
          }
          else r)
  reset-Held now r h = elim (Bool-cases (has_key key r)) [
    | inl hit ↦ rw (hit, h hit) (λ _. refl)
    | inr miss ↦ rw miss (λ e. absurd (ground (arith, miss)))
  ]

  reclaim-Held :
      (now : ℕ) (rows : List IdempotencyKeyEntity)
      → count_rows (has_key key) rows ≤ 1
      → 0 < (reclaim lease key now rows).1
      → All (Held key now) (reclaim lease key now rows).0
  unfolding reclaim
  reclaim-Held now rows unique some_row =
      All-update_rows _ (Held key now) _ _ rows (reset-Held now)
        (All-count_rows_one (has_key key) (is_reclaimable lease now) rows unique some_row)

  reclaim_nothing :
      (now : ℕ) (rows : List IdempotencyKeyEntity)
      → ltb 0 (reclaim lease key now rows).1 ≡ false
      → (reclaim lease key now rows).0 ≡ rows
  unfolding reclaim
  reclaim_nothing now rows nothing = update_rows_none _ _ rows (ground arith)

  reclaim_some :
      (now : ℕ) (rows : List IdempotencyKeyEntity)
      → 0 < (reclaim lease key now rows).1
      → 0 < count_rows (has_key key) rows
  unfolding reclaim
  reclaim_some now rows h = omega (
    arith,
    count_rows-le (λ r. has_key key r && is_reclaimable lease now r) (has_key key) rows
        (λ r e. ground arith),
  )

  -- The reclaiming statement, whatever its caller has read.
  pub reclaim-Inv :
      (now : ℕ) (rows : List IdempotencyKeyEntity) (log : List Mark)
      (existing : IdempotencyKeyEntity)
      → Inv lease key now rows log
      → Inv lease key now
          (reclaim lease key now rows).0
          (note now (reclaimed (reclaim lease key now rows).1 existing) log)
  unfolding reclaimed
  reclaim-Inv now rows log existing v = elim (Bool-cases (ltb 0 (reclaim lease key now rows).1)) [
    | inl some_row ↦ rw some_row (record {
      unique = rw (reclaim_count now rows) v.unique;
      agrees = (
        omega arith,
        rw (reclaim_count now rows) (reclaim_some now rows (ground arith)),
        reclaim-Held now rows v.unique (ground arith),
      );
      spread = won_spread now log v.spread λ t older e.
          reclaim_late t now rows (subst (λ l. Agrees key now l rows) e v.agrees).2 (ground arith);
    })
    | inr no_row ↦ rw (no_row, reclaim_nothing now rows no_row) v
  ]
