-- ===== src/Prelude/Table.antt =====
-- A table as the list of its rows, and the effect of the SQL statements that the program issues:
-- a SELECT by a condition, an UPDATE ... WHERE with its count, a DELETE ... WHERE.
use Prim.Native.Nat.{ℕ, ◌+◌}
use mathlib.Core.Bool.{Bool}
use mathlib.Core.Option.{Option, none, some}
use mathlib.Core.List.{List, [], ◌∷◌}
use triage_engine.Prelude.Tests.{if◌then◌else◌}

module _ {ℓ} {A : Type ℓ} where
  unfoldable pub find_row : (A → Bool) → List A → Option A
  find_row p [] = none
  find_row p (r ∷ rs) = if p r then some r else find_row p rs

  unfoldable pub count_rows : (A → Bool) → List A → ℕ
  count_rows p [] = 0
  count_rows p (r ∷ rs) = (if p r then 1 else 0) + count_rows p rs

  unfoldable pub select_rows : (A → Bool) → List A → List A
  select_rows p [] = []
  select_rows p (r ∷ rs) = let rest = select_rows p rs in if p r then r ∷ rest else rest

  unfoldable pub update_rows : (A → Bool) → (A → A) → List A → List A
  update_rows p f [] = []
  update_rows p f (r ∷ rs) = (if p r then f r else r) ∷ update_rows p f rs

  unfoldable pub delete_rows : (A → Bool) → List A → List A
  delete_rows p [] = []
  delete_rows p (r ∷ rs) = let rest = delete_rows p rs in if p r then rest else r ∷ rest
