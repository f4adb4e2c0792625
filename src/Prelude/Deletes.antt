-- ===== src/Prelude/Deletes.antt =====
-- Rows that a DELETE spares, and rows that count themselves.
use Prim.Native.Nat.{◌<◌}
use mathlib.Core.Path.{◌≡◌, refl}
use mathlib.Core.Bool.{Bool, true, false}
use mathlib.Core.List.{List, [], ◌∷◌}
use native.Mathlib.Omega.{arith}
use triage_engine.Prelude.Lists.{All}
use triage_engine.Prelude.Updates.{All-mono}
use triage_engine.Prelude.Table.{count_rows, select_rows, delete_rows}

module _ {ℓ} {A : Type ℓ} where
  -- A delete that spares the rows of a condition keeps them all, in order.
  pub select_rows-delete_rows :
      (p q : A → Bool) (rows : List A)
      → ((r : A) → p r ≡ true → q r ≡ false)
      → select_rows p (delete_rows q rows) ≡ select_rows p rows
  unfolding select_rows delete_rows
  select_rows-delete_rows p q [] h = refl
  select_rows-delete_rows p q (r ∷ rows) h = ground (arith, h r, select_rows-delete_rows p q rows h)

  pub count_rows-spared :
      (p q : A → Bool) (rows : List A)
      → ((r : A) → p r ≡ true → q r ≡ false)
      → count_rows p (delete_rows q rows) ≡ count_rows p rows
  unfolding count_rows delete_rows
  count_rows-spared p q [] h = refl
  count_rows-spared p q (r ∷ rows) h = ground (arith, h r, count_rows-spared p q rows h)

  -- Each row counts itself.
  pub counts_self :
      (same : A → A → Bool) (rows : List A)
      → ((r : A) → same r r ≡ true)
      → All (λ r. 0 < count_rows (same r) rows) rows
  unfolding count_rows
  counts_self same [] h = tt
  counts_self same (r ∷ rows) h =
      (ground (arith, h r), All-mono rows (λ s e. omega (arith, e)) (counts_self same rows h))
