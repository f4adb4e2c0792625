-- ===== src/Prelude/Rows.antt =====
-- Lemmas on tables: what an update keeps, and what a count says of the rows.
use Prim.Native.Nat.{ℕ, zero, suc, ◌+◌, ◌≤◌}
use mathlib.Core.Path.{◌≡◌, refl}
use mathlib.Core.Logic.{inl, inr}
use mathlib.Core.Bool.{Bool, true, false}
use mathlib.Core.List.{List, [], ◌∷◌, ◌++◌}
use native.Mathlib.Omega.{arith}
use triage_engine.Prelude.Tests.{Bool-cases}
use triage_engine.Prelude.Lists.{take, All}
use triage_engine.Prelude.Table.{count_rows, select_rows, update_rows, delete_rows}

-- An UPDATE that affects no row leaves the table as it was.
pub update_rows_none {ℓ} :
    {A : Type ℓ} (q : A → Bool) (f : A → A) (rows : List A)
    → count_rows q rows ≡ 0
    → update_rows q f rows ≡ rows
unfolding count_rows update_rows
update_rows_none q f [] h = refl
update_rows_none q f (r ∷ rows) h = ground (arith, update_rows_none q f rows)

-- Selecting, cutting and counting.
module _ {ℓ} {A : Type ℓ} where
  pub count_rows-select_rows :
      (p q : A → Bool) (rows : List A) → count_rows p (select_rows q rows) ≤ count_rows p rows
  unfolding count_rows select_rows
  count_rows-select_rows p q [] = omega arith
  count_rows-select_rows p q (r ∷ rows) = ground (arith, count_rows-select_rows p q rows)

  pub count_rows-delete_rows :
      (p q : A → Bool) (rows : List A) → count_rows p (delete_rows q rows) ≤ count_rows p rows
  unfolding count_rows delete_rows
  count_rows-delete_rows p q [] = omega arith
  count_rows-delete_rows p q (r ∷ rows) = ground (arith, count_rows-delete_rows p q rows)

  pub count_rows-take :
      (p : A → Bool) (n : ℕ) (rows : List A) → count_rows p (take n rows) ≤ count_rows p rows
  unfolding count_rows
  count_rows-take p zero rows = omega arith
  count_rows-take p (suc n) [] = omega arith
  count_rows-take p (suc n) (r ∷ rows) = ground (arith, count_rows-take p n rows)

  pub All-select_rows {κ} :
      (P : A → Type κ) (q : A → Bool) (rows : List A) → All P rows → All P (select_rows q rows)
  unfolding select_rows
  All-select_rows P q [] a = tt
  All-select_rows P q (r ∷ rows) a = elim (Bool-cases (q r)) [
    | inl hit ↦ rw hit (a.0, All-select_rows P q rows a.1)
    | inr miss ↦ rw miss (All-select_rows P q rows a.1)
  ]

  -- A selected row meets the condition.
  pub select_rows_sound :
      (q : A → Bool) (rows : List A) → All (λ r. q r ≡ true) (select_rows q rows)
  unfolding select_rows
  select_rows_sound q [] = tt
  select_rows_sound q (r ∷ rows) = elim (Bool-cases (q r)) [
    | inl hit ↦ rw hit (hit, select_rows_sound q rows)
    | inr miss ↦ rw miss (select_rows_sound q rows)
  ]

  pub All-take {κ} : (P : A → Type κ) (n : ℕ) (rows : List A) → All P rows → All P (take n rows)
  All-take P zero rows a = tt
  All-take P (suc n) [] a = tt
  All-take P (suc n) (r ∷ rows) a = (a.0, All-take P n rows a.1)

  pub All-delete_rows {κ} :
      (P : A → Type κ) (q : A → Bool) (rows : List A) → All P rows → All P (delete_rows q rows)
  unfolding delete_rows
  All-delete_rows P q [] a = tt
  All-delete_rows P q (r ∷ rows) a = elim (Bool-cases (q r)) [
    | inl hit ↦ rw hit (All-delete_rows P q rows a.1)
    | inr miss ↦ rw miss (a.0, All-delete_rows P q rows a.1)
  ]

  pub count_rows-append :
      (p : A → Bool) (xs ys : List A) → count_rows p (xs ++ ys) ≡ count_rows p xs + count_rows p ys
  unfolding count_rows
  count_rows-append p [] ys = omega arith
  count_rows-append p (x ∷ xs) ys = omega (arith, count_rows-append p xs ys)

  pub count_rows_zero :
      (p : A → Bool) (rows : List A) → All (λ r. p r ≡ false) rows → count_rows p rows ≡ 0
  unfolding count_rows
  count_rows_zero p [] a = refl
  count_rows_zero p (r ∷ rows) a = ground (arith, count_rows_zero p rows a.1)

  pub All-both {κ μ} :
      (P : A → Type κ) (Q : A → Type μ) (rows : List A)
      → All P rows
      → All Q rows
      → All (λ r. P r × Q r) rows
  All-both P Q [] a b = tt
  All-both P Q (r ∷ rows) a b = ((a.0, b.0), All-both P Q rows a.1 b.1)

  -- An update that makes a condition true of more rows, or of no fewer.
  pub count_rows-le-update_rows :
      (p q : A → Bool) (f : A → A) (rows : List A)
      → ((r : A) → p r ≡ true → p (f r) ≡ true)
      → count_rows p rows ≤ count_rows p (update_rows q f rows)
  unfolding count_rows update_rows
  count_rows-le-update_rows p q f [] h = omega arith
  count_rows-le-update_rows p q f (r ∷ rows) h =
      ground (arith, h r, count_rows-le-update_rows p q f rows h)
