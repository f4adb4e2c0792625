-- ===== src/Config/Number.antt =====
-- `Number(text)` of ECMAScript, as far as an integer comes of it: white space, an empty text, a sign,
-- decimals with a fraction and an exponent, and the prefixes 0x, 0o and 0b. The value is the exact one;
-- a double holds it exactly up to 2^53.
pub mod Shown
use triage_engine.Prelude.{
  ℕ, ◌+◌, ◌-◌, ◌*◌, ◌/◌, ◌%◌, ◌^◌, Text, Bool, true, false, not, ◌&&◌, ◌||◌, ◌==◌, ltb, leb, [],
  ◌∷◌, Option, none, some, if◌then◌else◌, trim, is_empty,
}
use triage_engine.Json.{Decimal}

-- A digit's value; 36 for what is no digit.
unfoldable pub digit_value : ℕ → ℕ
digit_value c =
    if leb 48 c && leb c 57
    then c - 48
    else if leb 65 c && leb c 70
    then c - 55
    else if leb 97 c && leb c 102
    then c - 87
    else 36

-- Digits from the left: their value after `value`, how many more than `count`, and what follows.
unfoldable pub read_digits : (base value count : ℕ) → Text → ℕ × ℕ × Text
unfolding digit_value
read_digits base value count [] = (value, count, [])
read_digits base value count (c ∷ cs) =
    let rest = read_digits base (value * base + digit_value c) (count + 1) cs in
    if ltb (digit_value c) base then rest else (value, count, c ∷ cs)

-- Nothing but digits, at least one.
unfoldable pub read_whole : (base : ℕ) → Text → Option ℕ
unfolding read_digits
read_whole base text =
    let (value, count, rest) = read_digits base 0 0 text in
    if ltb 0 count && is_empty rest then some value else none

-- The fraction has `scale` digits.
abbrev pub scale_up : (negative : Bool) (digits scale exponent : ℕ) → Decimal
scale_up negative digits scale exponent = record {
  negative = negative;
  digits = digits * 10 ^ (exponent - scale);
  scale = scale - exponent;
}

abbrev pub scale_down : (negative : Bool) (digits scale exponent : ℕ) → Decimal
scale_down negative digits scale exponent = record {
  negative = negative;
  digits = digits;
  scale = scale + exponent;
}

-- What follows the digits: nothing, or an exponent.
unfoldable pub read_exponent : (negative : Bool) (digits scale : ℕ) → Text → Option Decimal
unfolding read_whole
read_exponent negative digits scale [] =
    some (record { negative = negative; digits = digits; scale = scale })
read_exponent negative digits scale (c ∷ []) = none
read_exponent negative digits scale (c ∷ d ∷ cs) =
    if not (c == 101 || c == 69)
    then none
    else if d == 45
    then elim (read_whole 10 cs) [
      | none ↦ none
      | some exponent ↦ some (scale_down negative digits scale exponent)
    ]
    else elim (read_whole 10 (if d == 43 then cs else d ∷ cs)) [
      | none ↦ none
      | some exponent ↦ some (scale_up negative digits scale exponent)
    ]

-- The digits with a fraction, if a point follows them.
unfoldable pub read_fraction : (negative : Bool) (digits count : ℕ) → Text → Option Decimal
unfolding read_exponent read_digits
read_fraction negative digits count [] =
    if ltb 0 count then read_exponent negative digits 0 [] else none
read_fraction negative digits count (c ∷ cs) =
    let (digits', scale, rest) = read_digits 10 digits 0 cs in
    if c == 46
    then (if ltb 0 (count + scale) then read_exponent negative digits' scale rest else none)
    else if ltb 0 count
    then read_exponent negative digits 0 (c ∷ cs)
    else none

unfoldable pub read_decimal : (negative : Bool) → Text → Option Decimal
unfolding read_fraction
read_decimal negative text =
    let (digits, count, rest) = read_digits 10 0 0 text in read_fraction negative digits count rest

abbrev pub whole : Option ℕ → Option Decimal
whole none = none
whole (some n) = some (record { negative = false; digits = n; scale = 0 })

-- The base of a prefix; 0 for another letter.
abbrev pub base_of : ℕ → ℕ
base_of c =
    if c == 120 || c == 88
    then 16
    else if c == 111 || c == 79
    then 8
    else if c == 98 || c == 66
    then 2
    else 0

-- A sign, or a prefix, or neither.
unfoldable pub read_literal : Text → Option Decimal
unfolding read_decimal
read_literal [] = some (record { negative = false; digits = 0; scale = 0 })
read_literal (c ∷ []) = read_decimal false (c ∷ [])
read_literal (c ∷ d ∷ cs) =
    if c == 45
    then read_decimal true (d ∷ cs)
    else if c == 43
    then read_decimal false (d ∷ cs)
    else if c == 48 && ltb 0 (base_of d)
    then whole (read_whole (base_of d) cs)
    else read_decimal false (c ∷ d ∷ cs)

-- Number(text); `none` is NaN. An infinity is written with letters, and is `none` as well.
unfoldable pub to_number : Text → Option Decimal
unfolding read_literal
to_number text = read_literal (trim text)

-- Number.isInteger, with a value that is not below 0.
unfoldable pub integer_of : Decimal → Option ℕ
integer_of d =
    if d.digits % 10 ^ d.scale == 0 && (not d.negative || d.digits == 0)
    then some (d.digits / 10 ^ d.scale)
    else none

unfoldable pub to_integer : Text → Option ℕ
unfolding to_number integer_of
to_integer text = elim (to_number text) [ none ↦ none | some d ↦ integer_of d ]
