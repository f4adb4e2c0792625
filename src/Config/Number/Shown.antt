-- ===== src/Config/Number/Shown.antt =====
-- A numeral is read as the number that it shows.
use triage_engine.Prelude.{
  ℕ, ◌+◌, ◌-◌, ◌*◌, ◌&&◌, ◌==◌, ltb, Text, [], ◌∷◌, false, some, length, All, ◌≡◌, refl, ap, ◌∙◌,
  arith, IsDigit, value_from, show_ℕ, show_ℕ-value, show_ℕ-IsDigit, show_ℕ_ne, is_space, trim_fixes,
  StartsClean, EndsClean, ◌≢◌,
}
use triage_engine.Json.{Decimal}
use triage_engine.Config.Number.{
  digit_value, read_digits, read_fraction, read_decimal, read_literal, to_number, integer_of,
  to_integer, read_exponent, base_of,
}

digit-solid : (c : ℕ) → IsDigit c → is_space c ≡ false
unfolding is_space
digit-solid c h = ground arith

digits-EndsClean : (t : Text) → All IsDigit t → EndsClean t
digits-EndsClean [] h = tt
digits-EndsClean (c ∷ []) h = digit-solid c h.0
digits-EndsClean (c ∷ d ∷ cs) h = digits-EndsClean (d ∷ cs) h.1

digits-StartsClean : (t : Text) → All IsDigit t → StartsClean t
digits-StartsClean [] h = tt
digits-StartsClean (c ∷ cs) h = digit-solid c h.0

digit-value : (c : ℕ) → IsDigit c → digit_value c ≡ c - 48
unfolding digit_value
digit-value c h = ground arith

read_digits-All :
    (v k : ℕ) (t : Text) → All IsDigit t → read_digits 10 v k t ≡ (value_from v t, k + length t, [])
unfolding read_digits value_from
read_digits-All v k [] h = ground arith
read_digits-All v k (c ∷ cs) h =
    let value = digit-value c h.0 in
    ground (arith, value, h.0, read_digits-All (v * 10 + (c - 48)) (k + 1) cs h.1)

abbrev as_decimal : ℕ → Decimal
as_decimal n = record { negative = false; digits = n; scale = 0 }

read_decimal-All :
    (t : Text) → t ≢ [] → All IsDigit t → read_decimal false t ≡ some (as_decimal (value_from 0 t))
unfolding read_decimal read_fraction read_exponent
read_decimal-All [] ne h = absurd (ne refl)
read_decimal-All (c ∷ cs) ne h = rw (read_digits-All 0 0 (c ∷ cs) h) (ground arith)

read_literal-All :
    (t : Text) → t ≢ [] → All IsDigit t → read_literal t ≡ some (as_decimal (value_from 0 t))
unfolding read_literal
read_literal-All [] ne h = absurd (ne refl)
read_literal-All (c ∷ []) ne h = read_decimal-All (c ∷ []) ne h
read_literal-All (c ∷ d ∷ cs) ne h =
    let minus : (c == 45) ≡ false = ground (arith, h.0) in
    let plus : (c == 43) ≡ false = ground (arith, h.0) in
    let prefix : ((c == 48) && ltb 0 (base_of d)) ≡ false = ground (arith, h.1.0) in
    rw (minus, plus, prefix) (read_decimal-All (c ∷ d ∷ cs) ne h)

to_number-show_ℕ : (n : ℕ) → to_number (show_ℕ n) ≡ some (as_decimal n)
unfolding to_number
to_number-show_ℕ n =
    let digits = show_ℕ-IsDigit n in
    ap read_literal (trim_fixes (show_ℕ n) (digits-StartsClean _ digits, digits-EndsClean _ digits))
    ∙ read_literal-All (show_ℕ n) (show_ℕ_ne n) digits
    ∙ ap (λ v. some (as_decimal v)) (show_ℕ-value n)

pub to_integer-show_ℕ : (n : ℕ) → to_integer (show_ℕ n) ≡ some n
unfolding to_integer integer_of
to_integer-show_ℕ n = ground (arith, to_number-show_ℕ n)
