-- ===== src/Enrichment/Words.antt =====
-- The classifier's search for words: `includes` finds exactly the words that stand in the text.
use triage_engine.Prelude.{
  Text, List, true, [], ◌∷◌, ◌++◌, ◌≡◌, false, ◌⊎◌, refl, ap, ap₂, ◌∙◌, inl, inr, ◌↔◌, arith,
  Bool-cases,
}
use triage_engine.Entities.{urgent, high, low, medium}
use triage_engine.Enrichment.Fallback.{
  high_words, low_words, urgent_words, mentions, prioritize, starts_with, includes,
}

-- The text is the word with something before and after it.
abbrev pub Occurs : (text word : Text) → Type 0
Occurs text word = (before : Text) × (after : Text) × (text ≡ before ++ (word ++ after))

starts_with-split :
    (word text : Text) → starts_with word text ≡ true → (after : Text) × (text ≡ word ++ after)
unfolding starts_with
starts_with-split [] text h = (text, refl)
starts_with-split (c ∷ cs) [] h = absurd (ground (arith, h))
starts_with-split (c ∷ cs) (d ∷ ds) h =
    let (after, same) = starts_with-split cs ds (ground (arith, h)) in
    let first : d ≡ c = ground (arith, h) in (after, ap₂ (λ x xs. x ∷ xs) first same)

append-starts_with : (word after : Text) → starts_with word (word ++ after) ≡ true
unfolding starts_with
append-starts_with [] after = refl
append-starts_with (c ∷ cs) after = ground (arith, append-starts_with cs after)

includes-Occurs : (text word : Text) → includes text word ≡ true → Occurs text word
unfolding includes
includes-Occurs [] word h = let (after, same) = starts_with-split word [] h in ([], after, same)
includes-Occurs (c ∷ text) word h = elim (Bool-cases (starts_with word (c ∷ text))) [
  | inl here ↦ let (after, same) = starts_with-split word (c ∷ text) here in ([], after, same)
  | inr later ↦
      let (before, after, same) = includes-Occurs text word (ground (arith, h, later)) in
      (c ∷ before, after, ap (λ xs. c ∷ xs) same)
]

starts-includes : (text word : Text) → starts_with word text ≡ true → includes text word ≡ true
unfolding includes
starts-includes [] word h = h
starts-includes (c ∷ text) word h = ground (arith, h)

Occurs-includes : (before word after : Text) → includes (before ++ (word ++ after)) word ≡ true
unfolding includes
Occurs-includes [] word after = starts-includes (word ++ after) word (append-starts_with word after)
Occurs-includes (c ∷ before) word after = ground (arith, Occurs-includes before word after)

-- A word is found in a text exactly when the text is made of it with something before and after.
pub includes_iff : (text word : Text) → (includes text word ≡ true) ↔ Occurs text word
includes_iff text word = (
  includes-Occurs text word,
  λ (before, after, same). ap (λ t. includes t word) same ∙ Occurs-includes before word after,
)

-- One of the words occurs in the text.
abbrev pub Mentions : (text : Text) → List Text → Type 0
Mentions text [] = ⊥
Mentions text (word ∷ words) = Occurs text word ⊎ Mentions text words

mentions_iff :
    (text : Text) (words : List Text) → (mentions text words ≡ true) ↔ Mentions text words
unfolding mentions
mentions_iff text [] = ((λ e. absurd (ground (arith, e))), λ m. absurd m)
mentions_iff text (word ∷ words) =
    let iff = includes_iff text word in
    let rest = mentions_iff text words in
    (
      λ e. elim (Bool-cases (includes text word)) [
        | inl here ↦ inl (iff.0 here)
        | inr gone ↦ inr (rest.0 (ground (arith, e, gone)))
      ],
      λ m. elim m [
        | inl here ↦ ground (arith, iff.1 here)
        | inr later ↦ ground (arith, rest.1 later)
      ],
    )

mentions_not :
    (text : Text) (words : List Text) → ¬ (Mentions text words) → mentions text words ≡ false
mentions_not text words n = elim (Bool-cases (mentions text words)) [
  | inl found ↦ absurd (n ((mentions_iff text words).0 found))
  | inr missing ↦ missing
]

-- A text with one of the urgent words is URGENT, whatever else it says; without, one with one of the
-- high words is HIGH; without these, one with one of the low words is LOW; any other is MEDIUM.
pub prioritize_lem :
    (text : Text)
    → (Mentions text urgent_words → prioritize text ≡ urgent)
      × (¬ (Mentions text urgent_words)
          → (Mentions text high_words → prioritize text ≡ high)
            × (¬ (Mentions text high_words)
                → (Mentions text low_words → prioritize text ≡ low)
                  × (¬ (Mentions text low_words) → prioritize text ≡ medium)))
unfolding prioritize
prioritize_lem text = (
  λ u. ground (arith, (mentions_iff text urgent_words).1 u),
  λ nu. (
    λ h. ground (arith, mentions_not text urgent_words nu, (mentions_iff text high_words).1 h),
    λ nh. (
      λ l. ground (
        arith,
        mentions_not text urgent_words nu,
        mentions_not text high_words nh,
        (mentions_iff text low_words).1 l,
      ),
      λ nl. ground (
        arith,
        mentions_not text urgent_words nu,
        mentions_not text high_words nh,
        mentions_not text low_words nl,
      ),
    ),
  ),
)
