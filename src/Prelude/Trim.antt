-- ===== src/Prelude/Trim.antt =====
-- `text.trim()`: white space and line ends of ECMAScript are cut off at both ends.
use Prim.Native.Nat.{ℕ}
use mathlib.Core.Path.{◌≡◌, refl, ap, ◌∙◌}
use mathlib.Core.Logic.{inl, inr}
use mathlib.Core.Bool.{Bool, true, false, ◌&&◌, ◌||◌}
use mathlib.Core.List.{[], ◌∷◌, ◌++◌}
use native.Mathlib.Omega.{arith}
use triage_engine.Prelude.Tests.{leb, ◌==◌, if◌then◌else◌, Bool-cases}
use triage_engine.Prelude.Lists.{All}
use triage_engine.Prelude.Texts.{Text}

-- Tab to carriage return, space, no-break space, the Unicode spaces, the two separators and the BOM.
unfoldable pub is_space : ℕ → Bool
is_space c =
    (leb 9 c && leb c 13)
    || c == 32
    || c == 160
    || c == 5760
    || (leb 8192 c && leb c 8202)
    || c == 8232
    || c == 8233
    || c == 8239
    || c == 8287
    || c == 12288
    || c == 65279

abbrev pub is_empty : Text → Bool
is_empty [] = true
is_empty (c ∷ cs) = false

unfoldable pub trim_start : Text → Text
unfolding is_space
trim_start [] = []
trim_start (c ∷ cs) = let rest = trim_start cs in if is_space c then rest else c ∷ cs

unfoldable pub trim_end : Text → Text
unfolding is_space
trim_end [] = []
trim_end (c ∷ cs) = let rest = trim_end cs in if is_space c && is_empty rest then [] else c ∷ rest

unfoldable pub trim : Text → Text
unfolding trim_start trim_end
trim t = trim_end (trim_start t)

-- Neither the first nor the last unit is a space.
abbrev pub StartsClean : Text → Type 0
StartsClean [] = Unit
StartsClean (c ∷ cs) = is_space c ≡ false

abbrev pub EndsClean : Text → Type 0
EndsClean [] = Unit
EndsClean (c ∷ []) = is_space c ≡ false
EndsClean (c ∷ d ∷ cs) = EndsClean (d ∷ cs)

abbrev pub IsTrimmed : Text → Type 0
IsTrimmed t = StartsClean t × EndsClean t

-- What is left when spaces are cut off at both ends.
abbrev pub IsTrimOf : (text cut : Text) → Type 0
IsTrimOf text cut =
    (before : Text) × (after : Text) × (text ≡ before ++ (cut ++ after))
    × All (λ c. is_space c ≡ true) before
    × All (λ c. is_space c ≡ true) after
    × IsTrimmed cut

trim_start_lem :
    (t : Text)
    → (before : Text) × (t ≡ before ++ trim_start t)
      × All (λ c. is_space c ≡ true) before
      × StartsClean (trim_start t)
unfolding trim_start
trim_start_lem [] = ([], refl, tt, tt)
trim_start_lem (c ∷ cs) = elim (Bool-cases (is_space c)) [
  | inr solid ↦ rw solid ([], refl, tt, solid)
  | inl space ↦
      let (before, same, spaces, clean) = trim_start_lem cs in
      rw space (c ∷ before, ap (λ xs. c ∷ xs) same, (space, spaces), clean)
]

abbrev IsEndOf : (t rest : Text) → Type 0
IsEndOf t rest =
    (after : Text) × (t ≡ rest ++ after) × All (λ c. is_space c ≡ true) after × EndsClean rest

end_step :
    (c : ℕ) (cs rest : Text)
    → IsEndOf cs rest
    → IsEndOf (c ∷ cs) (if is_space c && is_empty rest then [] else c ∷ rest)
end_step c cs [] (after, same, spaces, clean) = elim (Bool-cases (is_space c)) [
  | inl space ↦ rw space (c ∷ after, ap (λ xs. c ∷ xs) same, (space, spaces), tt)
  | inr solid ↦ rw solid (after, ap (λ xs. c ∷ xs) same, spaces, solid)
]
end_step c cs (d ∷ rest) (after, same, spaces, clean) =
    let kept : (is_space c && false) ≡ false = ground arith in
    rw kept (after, ap (λ xs. c ∷ xs) same, spaces, clean)

trim_end_lem : (t : Text) → IsEndOf t (trim_end t)
unfolding trim_end
trim_end_lem [] = ([], refl, tt, tt)
trim_end_lem (c ∷ cs) = end_step c cs (trim_end cs) (trim_end_lem cs)

-- Cutting at the end leaves a clean start.
trim_end-StartsClean : (t : Text) → StartsClean t → StartsClean (trim_end t)
unfolding trim_end
trim_end-StartsClean [] clean = tt
trim_end-StartsClean (c ∷ cs) clean = rw clean clean

-- A trimmed text is what is left of the text when spaces are cut off at both ends.
pub trim-IsTrimOf : (t : Text) → IsTrimOf t (trim t)
unfolding trim
trim-IsTrimOf t =
    let (before, same, spaces, starts) = trim_start_lem t in
    let (after, same', spaces', ends) = trim_end_lem (trim_start t) in
    (
      before,
      after,
      same ∙ ap (λ xs. before ++ xs) same',
      spaces,
      spaces',
      (trim_end-StartsClean (trim_start t) starts, ends),
    )

trim_start_fixes : (t : Text) → StartsClean t → trim_start t ≡ t
unfolding trim_start
trim_start_fixes [] clean = refl
trim_start_fixes (c ∷ cs) clean = rw clean refl

trim_end_fixes : (t : Text) → EndsClean t → trim_end t ≡ t
unfolding trim_end
trim_end_fixes [] clean = refl
trim_end_fixes (c ∷ []) clean = rw clean refl
trim_end_fixes (c ∷ d ∷ cs) clean = let rest = trim_end_fixes (d ∷ cs) clean in ground (arith, rest)

-- A text that is clean at both ends is left as it is.
pub trim_fixes : (t : Text) → IsTrimmed t → trim t ≡ t
unfolding trim
trim_fixes t (starts, ends) = ap trim_end (trim_start_fixes t starts) ∙ trim_end_fixes t ends
