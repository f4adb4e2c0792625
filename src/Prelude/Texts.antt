-- ===== src/Prelude/Texts.antt =====
-- JavaScript strings as lists of UTF-16 code units, compared whole.
use Prim.Native.Nat.{ℕ}
use Prim.Native.Char.{code}
use Prim.Native.String.{String}
use mathlib.Core.Path.{◌≡◌, refl}
use mathlib.Core.Logic.{◌↔◌}
use mathlib.Core.Bool.{Bool, true, false, ◌&&◌}
use mathlib.Core.List.{List, [], ◌∷◌, ◌++◌}
use native.Mathlib.Omega.{arith}
use triage_engine.Prelude.Tests.{◌==◌, ltb, if◌then◌else◌}

abbrev pub Text : Type 0
Text = List ℕ

-- The code units of an ASCII literal.
abbrev pub codes : String → Text
codes String.[] = []
codes (String.◌∷◌ c s) = code c ∷ codes s

unfoldable pub text_eq : Text → Text → Bool
text_eq [] [] = true
text_eq [] (y ∷ ys) = false
text_eq (x ∷ xs) [] = false
text_eq (x ∷ xs) (y ∷ ys) = x == y && text_eq xs ys

pub text_eq_refl : (xs : Text) → text_eq xs xs ≡ true
unfolding text_eq
text_eq_refl [] = refl
text_eq_refl (x ∷ xs) = ground (arith, text_eq_refl xs)

pub text_eq_sound : (xs ys : Text) → text_eq xs ys ≡ true → xs ≡ ys
unfolding text_eq
text_eq_sound [] [] h = refl
text_eq_sound [] (y ∷ ys) h = ground arith
text_eq_sound (x ∷ xs) [] h = ground arith
text_eq_sound (x ∷ xs) (y ∷ ys) h = ground (arith, text_eq_sound xs ys)

pub text_eq_iff : (xs ys : Text) → (text_eq xs ys ≡ true) ↔ (xs ≡ ys)
text_eq_iff xs ys = (text_eq_sound xs ys, λ e. rw e (text_eq_refl ys))

pub text_eq_comm : (xs ys : Text) → text_eq xs ys ≡ text_eq ys xs
unfolding text_eq
text_eq_comm [] [] = refl
text_eq_comm [] (y ∷ ys) = refl
text_eq_comm (x ∷ xs) [] = refl
text_eq_comm (x ∷ xs) (y ∷ ys) = ground (arith, text_eq_comm xs ys)

-- The order of `Array.prototype.sort` on strings: by code units.
unfoldable pub text_leb : Text → Text → Bool
text_leb [] ys = true
text_leb (x ∷ xs) [] = false
text_leb (x ∷ xs) (y ∷ ys) =
    let rest = text_leb xs ys in if ltb x y then true else if x == y then rest else false

pub text_leb_total : (xs ys : Text) → text_leb xs ys ≡ false → text_leb ys xs ≡ true
unfolding text_leb
text_leb_total [] ys h = cc
text_leb_total (x ∷ xs) [] h = refl
text_leb_total (x ∷ xs) (y ∷ ys) h = ground (arith, text_leb_total xs ys)

pub text_leb_antisymm : (xs ys : Text) → text_leb xs ys ≡ true → text_leb ys xs ≡ true → xs ≡ ys
unfolding text_leb
text_leb_antisymm [] [] h k = refl
text_leb_antisymm [] (y ∷ ys) h k = cc
text_leb_antisymm (x ∷ xs) [] h k = cc
text_leb_antisymm (x ∷ xs) (y ∷ ys) h k = ground (arith, text_leb_antisymm xs ys)

pub text_leb_trans :
    (xs ys zs : Text) → text_leb xs ys ≡ true → text_leb ys zs ≡ true → text_leb xs zs ≡ true
unfolding text_leb
text_leb_trans [] ys zs h k = refl
text_leb_trans (x ∷ xs) [] zs h k = cc
text_leb_trans (x ∷ xs) (y ∷ ys) [] h k = cc
text_leb_trans (x ∷ xs) (y ∷ ys) (z ∷ zs) h k = ground (arith, text_leb_trans xs ys zs)

-- `texts.join(separator)`
unfoldable pub join : (separator : Text) → List Text → Text
join separator [] = []
join separator (text ∷ []) = text
join separator (text ∷ next ∷ texts) = text ++ separator ++ join separator (next ∷ texts)

abbrev pub newline : Text
newline = 10 ∷ []
