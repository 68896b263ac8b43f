-- ===== src/Pricing/Extract/Digits.antt =====
-- Money is found only in a text with a digit.
use growth_operator.Pricing.Extract.{
  currency_from, currency, currencies, digit_run, number, match_here, extract_from, extract_amounts,
  rest_or,
}
use growth_operator.Prelude.{
  ℕ, suc, arith, skip_spaces, ◌∷◌, List, is_space, inr, inl, zero, after_prefix, is_digit, String,
  Bool, [], refl, Bool-cases, ◌≡◌, any, Option-cases, false, some, length, codes, none,
}

abbrev pub has_digit : List ℕ → Bool
has_digit s = any is_digit s

after_prefix-no_digit :
    (p s rest : List ℕ)
    → after_prefix p s ≡ some rest
    → has_digit s ≡ false
    → has_digit rest ≡ false
after_prefix-no_digit [] s rest h d = ground arith
after_prefix-no_digit (p ∷ ps) [] rest h d = absurd (ground arith)
after_prefix-no_digit (p ∷ ps) (c ∷ s) rest h d =
    after_prefix-no_digit ps s rest (ground arith) (ground arith)

skip_spaces-no_digit : (s : List ℕ) → has_digit s ≡ false → has_digit (skip_spaces s) ≡ false
skip_spaces-no_digit [] d = refl
skip_spaces-no_digit (c ∷ s) d = elim (Bool-cases (is_space c)) [
  | inl blank ↦ rw blank (skip_spaces-no_digit s (ground arith))
  | inr other ↦ rw other d
]

currency_from-no_digit :
    (marks : List String) (s rest : List ℕ)
    → currency_from marks s ≡ some rest
    → has_digit s ≡ false
    → has_digit rest ≡ false
unfolding currency_from
currency_from-no_digit [] s rest h d = absurd (ground arith)
currency_from-no_digit (mark ∷ marks) s rest h d =
    elim (Option-cases (after_prefix (codes mark) s)) [
      | inl none_here ↦ currency_from-no_digit marks s rest (ground arith) d
      | inr (r, found) ↦ ground (arith, after_prefix-no_digit (codes mark) s r found d)
    ]

currency_or-no_digit :
    (s : List ℕ) → has_digit s ≡ false → has_digit (rest_or s (currency s)) ≡ false
unfolding currency rest_or
currency_or-no_digit s d = elim (Option-cases (currency_from currencies s)) [
  | inl none_here ↦ rw none_here d
  | inr (r, found) ↦ rw found (currency_from-no_digit currencies s r found d)
]

number-no_digit : (s : List ℕ) → has_digit s ≡ false → number s ≡ none
unfolding number digit_run
number-no_digit [] d = refl
number-no_digit (c ∷ s) d = ground arith

match_here-no_digit : (s : List ℕ) → has_digit s ≡ false → match_here s ≡ none
unfolding match_here
match_here-no_digit s d =
    let fails =
      number-no_digit (skip_spaces (rest_or s (currency s)))
        (skip_spaces-no_digit (rest_or s (currency s)) (currency_or-no_digit s d)) in
    rw (match_here, fails) refl

extract_from-no_digit : (fuel : ℕ) (s : List ℕ) → has_digit s ≡ false → extract_from fuel s ≡ []
unfolding extract_from
extract_from-no_digit zero s d = refl
extract_from-no_digit (suc fuel) [] d = refl
extract_from-no_digit (suc fuel) (c ∷ s) d =
    let fails = match_here-no_digit (c ∷ s) d in
    let ih = extract_from-no_digit fuel s (ground arith) in rw (extract_from, fails) ih

-- Only a text with a digit carries money: where there is none, nothing is found, whatever currency
-- marks and magnitude words the text has.
pub extract_amounts-no_digit : (s : List ℕ) → has_digit s ≡ false → extract_amounts s ≡ []
unfolding extract_amounts
extract_amounts-no_digit s d = extract_from-no_digit (length s) s d
