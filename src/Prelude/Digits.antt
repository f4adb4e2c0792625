-- ===== src/Prelude/Digits.antt =====
-- `String(n)` of a natural number, and texts without a colon.
use Prim.Native.Nat.{ℕ, zero, suc, ◌+◌, ◌-◌, ◌*◌, ◌/◌, ◌%◌, ◌≤◌}
use mathlib.Core.Path.{◌≡◌, refl, ap, ◌∙◌, sym}
use mathlib.Core.Logic.{◌≢◌, inl, inr}
use mathlib.Core.List.{[], ◌∷◌, ◌++◌}
use native.Mathlib.Omega.{arith}
use triage_engine.Prelude.Tests.{ltb, if◌then◌else◌, Bool-cases}
use triage_engine.Prelude.Lists.{All, All-append}
use triage_engine.Prelude.Texts.{Text}

-- The fuel bounds the number of digits: n itself is enough.
digits_of : ℕ → ℕ → Text
digits_of zero n = (48 + n % 10) ∷ []
digits_of (suc fuel) n =
    let front = digits_of fuel (n / 10) in
    if ltb n 10 then (48 + n) ∷ [] else front ++ (48 + n % 10) ∷ []

unfoldable pub show_ℕ : ℕ → Text
unfolding digits_of
show_ℕ n = digits_of n n

unfoldable pub value_from : ℕ → Text → ℕ
value_from acc [] = acc
value_from acc (c ∷ cs) = value_from (acc * 10 + (c - 48)) cs

value_from-append :
    (acc : ℕ) (cs : Text) (c : ℕ)
    → value_from acc (cs ++ c ∷ []) ≡ value_from acc cs * 10 + (c - 48)
unfolding value_from
value_from-append acc [] c = refl
value_from-append acc (d ∷ cs) c = value_from-append (acc * 10 + (d - 48)) cs c

value-digits_of : (fuel n : ℕ) → n ≤ fuel → value_from 0 (digits_of fuel n) ≡ n
unfolding digits_of value_from
value-digits_of zero n h = omega arith
value-digits_of (suc fuel) n h = elim (Bool-cases (ltb n 10)) [
  | inl small ↦ rw small (omega arith)
  | inr large ↦ rw large (
      ground (
        arith,
        large,
        value_from-append 0 (digits_of fuel (n / 10)) (48 + n % 10),
        value-digits_of fuel (n / 10),
      ))
]

-- Two numbers with one text are one number.
pub show_ℕ-injective : (m n : ℕ) → show_ℕ m ≡ show_ℕ n → m ≡ n
unfolding show_ℕ
show_ℕ-injective m n e =
    sym (value-digits_of m m (omega arith))
    ∙ ap (value_from 0) e
    ∙ value-digits_of n n (omega arith)

append_ne : (xs : Text) (c : ℕ) → xs ++ c ∷ [] ≢ []
append_ne [] c e = cc
append_ne (x ∷ xs) c e = cc

-- The numeral's value is the number.
pub show_ℕ-value : (n : ℕ) → value_from 0 (show_ℕ n) ≡ n
unfolding show_ℕ
show_ℕ-value n = value-digits_of n n (omega arith)

abbrev pub IsDigit : ℕ → Type 0
IsDigit c = (48 ≤ c) × (c ≤ 57)

digits_of-IsDigit : (fuel n : ℕ) → All IsDigit (digits_of fuel n)
unfolding digits_of
digits_of-IsDigit zero n = ((omega arith, omega arith), tt)
digits_of-IsDigit (suc fuel) n = elim (Bool-cases (ltb n 10)) [
  | inl small ↦ rw small ((omega arith, ground (arith, small)), tt)
  | inr large ↦ rw large (
      All-append IsDigit (digits_of fuel (n / 10)) _ (digits_of-IsDigit fuel (n / 10))
        ((omega arith, omega arith), tt))
]

pub show_ℕ-IsDigit : (n : ℕ) → All IsDigit (show_ℕ n)
unfolding show_ℕ
show_ℕ-IsDigit n = digits_of-IsDigit n n

digits_of_ne : (fuel n : ℕ) → digits_of fuel n ≢ []
unfolding digits_of
digits_of_ne zero n e = cc
digits_of_ne (suc fuel) n e = elim (Bool-cases (ltb n 10)) [
  | inl small ↦ ground (arith, small, e)
  | inr large ↦ append_ne (digits_of fuel (n / 10)) (48 + n % 10) (ground (arith, large, e))
]

pub show_ℕ_ne : (n : ℕ) → show_ℕ n ≢ []
unfolding show_ℕ
show_ℕ_ne n = digits_of_ne n n

abbrev pub colon : ℕ
colon = 58

abbrev pub HasNoColon : Text → Type 0
HasNoColon = All (λ c. c ≢ colon)

digits_of-HasNoColon : (fuel n : ℕ) → HasNoColon (digits_of fuel n)
unfolding digits_of
digits_of-HasNoColon zero n = ((λ e. omega arith), tt)
digits_of-HasNoColon (suc fuel) n = elim (Bool-cases (ltb n 10)) [
  | inl small ↦ rw small ((λ e. ground (arith, small)), tt)
  | inr large ↦ rw large (
      All-append (λ c. c ≢ colon) (digits_of fuel (n / 10)) _ (digits_of-HasNoColon fuel (n / 10))
        ((λ e. omega arith), tt))
]

pub show_ℕ-HasNoColon : (n : ℕ) → HasNoColon (show_ℕ n)
unfolding show_ℕ
show_ℕ-HasNoColon n = digits_of-HasNoColon n n

-- A text splits at its first colon in one way.
pub colon-split :
    (xs xs' ys ys' : Text)
    → HasNoColon xs
    → HasNoColon xs'
    → xs ++ (colon ∷ ys) ≡ xs' ++ (colon ∷ ys')
    → (xs ≡ xs') × (ys ≡ ys')
colon-split [] [] ys ys' h h' e = (refl, cc)
colon-split [] (x ∷ xs') ys ys' h h' e = absurd (h'.0 (cc))
colon-split (x ∷ xs) [] ys ys' h h' e = absurd (h.0 (cc))
colon-split (x ∷ xs) (x' ∷ xs') ys ys' h h' e = ground (arith, colon-split xs xs' ys ys' h.1 h'.1)

-- A text without a colon is no text with one.
pub colon-ne : (xs ys zs : Text) → HasNoColon xs → xs ≢ ys ++ (colon ∷ zs)
colon-ne [] [] zs h e = cc
colon-ne [] (y ∷ ys) zs h e = cc
colon-ne (x ∷ xs) [] zs h e = h.0 (cc)
colon-ne (x ∷ xs) (y ∷ ys) zs h e = colon-ne xs ys zs h.1 (cc)
