-- ===== src/Prelude/Updates.antt =====
-- Lemmas on the rows that a condition finds, counts and updates.
use Prim.Native.Nat.{◌≤◌, ◌<◌}
use mathlib.Core.Path.{◌≡◌, refl, subst}
use mathlib.Core.Logic.{inl, inr}
use mathlib.Core.Bool.{Bool, true, false, ◌&&◌}
use mathlib.Core.Option.{none, some}
use mathlib.Core.List.{List, [], ◌∷◌}
use native.Mathlib.Omega.{arith}
use triage_engine.Prelude.Tests.{if◌then◌else◌, ltb, is_some, Bool-cases}
use triage_engine.Prelude.Lists.{All}
use triage_engine.Prelude.Table.{find_row, count_rows, update_rows}

module _ {ℓ} {A : Type ℓ} where
  -- An update that leaves a condition's truth alone keeps the number of rows that meet it.
  pub count_rows-update_rows :
      (p q : A → Bool) (f : A → A) (rows : List A)
      → ((r : A) → p (f r) ≡ p r)
      → count_rows p (update_rows q f rows) ≡ count_rows p rows
  unfolding count_rows update_rows
  count_rows-update_rows p q f [] h = refl
  count_rows-update_rows p q f (r ∷ rows) h =
      ground (arith, h r, count_rows-update_rows p q f rows h)

  pub count_rows-le :
      (p q : A → Bool) (rows : List A)
      → ((r : A) → p r ≡ true → q r ≡ true)
      → count_rows p rows ≤ count_rows q rows
  unfolding count_rows
  count_rows-le p q [] h = omega arith
  count_rows-le p q (r ∷ rows) h = ground (arith, h r, count_rows-le p q rows h)

  pub find_row-count_rows :
      (p : A → Bool) (rows : List A) → is_some (find_row p rows) ≡ ltb 0 (count_rows p rows)
  unfolding find_row count_rows
  find_row-count_rows p [] = refl
  find_row-count_rows p (r ∷ rows) = ground (arith, find_row-count_rows p rows)

  pub find_row_sound :
      (p : A → Bool) (rows : List A) {r : A} → find_row p rows ≡ some r → p r ≡ true
  unfolding find_row
  find_row_sound p [] e = cc
  find_row_sound p (x ∷ rows) {r} e = elim (Bool-cases (p x)) [
    | inl hit ↦ ground (arith, hit)
    | inr miss ↦ find_row_sound p rows (ground (arith, miss))
  ]

  pub find_row-update_rows :
      (p q : A → Bool) (f : A → A) (rows : List A)
      → ((r : A) → p (f r) ≡ p r)
      → (r : A) → find_row p rows ≡ some r
      → find_row p (update_rows q f rows) ≡ some (if q r then f r else r)
  unfolding find_row update_rows
  find_row-update_rows p q f [] h r e = cc
  find_row-update_rows p q f (x ∷ rows) h r e =
      ground (arith, h x, find_row-update_rows p q f rows h r)

  pub find_row-update_rows-none :
      (p q : A → Bool) (f : A → A) (rows : List A)
      → ((r : A) → p (f r) ≡ p r)
      → find_row p rows ≡ none
      → find_row p (update_rows q f rows) ≡ none
  unfolding find_row update_rows
  find_row-update_rows-none p q f [] h e = refl
  find_row-update_rows-none p q f (x ∷ rows) h e =
      ground (arith, h x, find_row-update_rows-none p q f rows h)

  -- Rows that an update does not touch are found as before.
  pub find_row-update_rows_other :
      (p q : A → Bool) (f : A → A) (rows : List A)
      → ((r : A) → p (f r) ≡ p r)
      → ((r : A) → q r ≡ true → p r ≡ false)
      → find_row p (update_rows q f rows) ≡ find_row p rows
  unfolding find_row update_rows
  find_row-update_rows_other p q f [] h k = refl
  find_row-update_rows_other p q f (r ∷ rows) h k =
      ground (arith, h r, k r, find_row-update_rows_other p q f rows h k)

  -- Where at most one row meets `p`, it alone decides what meets `p` and `q`.
  pub count_rows-find_row :
      (p q : A → Bool) (rows : List A) {r : A}
      → count_rows p rows ≤ 1
      → find_row p rows ≡ some r
      → ltb 0 (count_rows (λ x. p x && q x) rows) ≡ q r
  unfolding count_rows find_row
  count_rows-find_row p q [] u e = cc
  count_rows-find_row p q (x ∷ rows) {r} u e = elim (Bool-cases (p x)) [
    | inl hit ↦ ground (arith, hit, count_rows-le (λ y. p y && q y) p rows (λ y h. ground arith))
    | inr miss ↦
        let later =
          count_rows-find_row p q rows {r = r} (ground (arith, miss)) (ground (arith, miss)) in
        ground (arith, miss, later)
  ]

module _ {ℓ κ} {A : Type ℓ} where
  pub All-mono {μ} :
      {P : A → Type κ} {Q : A → Type μ} (rows : List A)
      → ((r : A) → P r → Q r)
      → All P rows
      → All Q rows
  All-mono [] h a = tt
  All-mono (r ∷ rows) h a = (h r a.0, All-mono rows h a.1)

  pub All-update_rows {μ} :
      (P : A → Type κ) (Q : A → Type μ) (q : A → Bool) (f : A → A) (rows : List A)
      → ((r : A) → P r → Q (if q r then f r else r))
      → All P rows
      → All Q (update_rows q f rows)
  unfolding update_rows
  All-update_rows P Q q f [] h a = tt
  All-update_rows P Q q f (r ∷ rows) h a = (h r a.0, All-update_rows P Q q f rows h a.1)

  pub All-find_row :
      (P : A → Type κ) (p : A → Bool) (rows : List A) {r : A}
      → All P rows
      → find_row p rows ≡ some r
      → P r
  unfolding find_row
  All-find_row P p [] a e = cc
  All-find_row P p (x ∷ rows) {r} a e = elim (Bool-cases (p x)) [
    | inl hit ↦ subst P (ground (arith, hit)) a.0
    | inr miss ↦ All-find_row P p rows a.1 (ground (arith, miss))
  ]

  -- A positive count shows a row that meets the condition.
  pub count_rows_pos {μ} :
      (P : A → Type κ) {C : Type μ} (p : A → Bool) (rows : List A)
      → All P rows
      → 0 < count_rows p rows
      → ((r : A) → P r → p r ≡ true → C)
      → C
  unfolding count_rows
  count_rows_pos P p [] a h k = absurd (omega arith)
  count_rows_pos P p (r ∷ rows) a h k = elim (Bool-cases (p r)) [
    | inl hit ↦ k r a.0 hit
    | inr miss ↦ count_rows_pos P p rows a.1 (ground (arith, miss)) k
  ]

-- No row meets a condition that counts nothing.
pub All-count_rows_zero {ℓ} :
    {A : Type ℓ} (p : A → Bool) (rows : List A)
    → count_rows p rows ≡ 0
    → All (λ r. p r ≡ false) rows
unfolding count_rows
All-count_rows_zero p [] h = tt
All-count_rows_zero p (r ∷ rows) h = (ground arith, All-count_rows_zero p rows (ground arith))

-- Where at most one row meets `p`, and one meets `p` and `q`, each that meets `p` meets `q`.
pub All-count_rows_one {ℓ} :
    {A : Type ℓ} (p q : A → Bool) (rows : List A)
    → count_rows p rows ≤ 1
    → 0 < count_rows (λ r. p r && q r) rows
    → All (λ r. p r ≡ true → q r ≡ true) rows
unfolding count_rows
All-count_rows_one p q [] u h = tt
All-count_rows_one p q (r ∷ rows) u h = elim (Bool-cases (p r)) [
  | inl hit ↦ elim (Bool-cases (q r)) [
    | inl good ↦ (
      λ _. good,
      All-mono rows (λ s e f. ground arith) (All-count_rows_zero p rows (ground arith)),
    )
    | inr bad ↦
        absurd (ground (arith, count_rows-le (λ r. p r && q r) p rows (λ s e. ground arith)))
  ]
  | inr miss ↦ (λ e. ground arith, All-count_rows_one p q rows (ground arith) (ground arith))
]
