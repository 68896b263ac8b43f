-- ===== src/Pricing/Extract/Fuel.antt =====
-- The scan ends before its fuel does, since each match takes a character at least.
use native.Mathlib.Nat.{le_trans}
use growth_operator.Pricing.Extract.{
  Match, currency_from, currency, currencies, magnitude_from, magnitude, magnitudes, digit_run,
  comma_groups, number, fraction, match_tail, match_here, extract_from, extract_amounts, rest_or,
}
use growth_operator.Prelude.{
  ◌∷◌, ◌≤◌, ℕ, Option-cases, skip_spaces, inl, length, [], List, codes, refl, ◌+◌, arith, some, ◌<◌,
  ◌≡◌, String, after_prefix, inr, suc, is_some, zero, none, Bool,
}

after_prefix-le : (p s rest : List ℕ) → after_prefix p s ≡ some rest → length rest ≤ length s
after_prefix-le [] s rest h = ground arith
after_prefix-le (p ∷ ps) [] rest h = absurd (ground arith)
after_prefix-le (p ∷ ps) (c ∷ s) rest h = ground (arith, after_prefix-le ps s rest)

skip_spaces-le : (s : List ℕ) → length (skip_spaces s) ≤ length s
skip_spaces-le [] = omega arith
skip_spaces-le (c ∷ s) = ground (arith, skip_spaces-le s)

currency_from-le :
    (marks : List String) (s rest : List ℕ)
    → currency_from marks s ≡ some rest
    → length rest ≤ length s
unfolding currency_from
currency_from-le [] s rest h = absurd (ground arith)
currency_from-le (mark ∷ marks) s rest h = elim (Option-cases (after_prefix (codes mark) s)) [
  | inl none_here ↦ currency_from-le marks s rest (ground arith)
  | inr (r, found) ↦ ground (arith, after_prefix-le (codes mark) s rest)
]

magnitude_from-le :
    (words : List (String × ℕ)) (s rest : List ℕ) (factor : ℕ)
    → magnitude_from words s ≡ some (factor, rest)
    → length rest ≤ length s
unfolding magnitude_from
magnitude_from-le [] s rest factor h = absurd (ground arith)
magnitude_from-le ((word, f) ∷ words) s rest factor h =
    elim (Option-cases (after_prefix (codes word) s)) [
      | inl none_here ↦ magnitude_from-le words s rest factor (ground arith)
      | inr (r, found) ↦ ground (arith, after_prefix-le (codes word) s rest)
    ]

digit_run-length : (s : List ℕ) → length (digit_run s).0 + length (digit_run s).1 ≡ length s
unfolding digit_run
digit_run-length [] = refl
digit_run-length (c ∷ s) = ground (arith, digit_run-length s)

comma_groups-le : (fuel : ℕ) (s : List ℕ) → length (comma_groups fuel s).1 ≤ length s
unfolding comma_groups
comma_groups-le (suc fuel) (comma ∷ a ∷ b ∷ c ∷ s) =
    ground (arith, comma_groups-le fuel s, comma_groups-le fuel (c ∷ s))
comma_groups-le (suc fuel) (comma ∷ a ∷ b ∷ []) = ground arith
comma_groups-le _ s = omega arith

-- A number takes a digit at least.
number-lt :
    (s : List ℕ) (groups : List (List ℕ)) (rest : List ℕ)
    → number s ≡ some (groups, rest)
    → length rest < length s
unfolding number
number-lt s groups rest h =
    ground (arith, digit_run-length s, comma_groups-le (length (digit_run s).1) (digit_run s).1)

fraction-le : (s : List ℕ) → length (fraction s).1 ≤ length s
unfolding fraction
fraction-le [] = omega arith
fraction-le (c ∷ []) = ground arith
fraction-le (c ∷ d ∷ []) = ground arith
fraction-le (c ∷ d ∷ e ∷ s) = ground arith

currency_or-le : (s : List ℕ) → length (rest_or s (currency s)) ≤ length s
unfolding currency rest_or
currency_or-le s = elim (Option-cases (currency_from currencies s)) [
  | inl none_here ↦ ground (arith, none_here)
  | inr (r, found) ↦ ground (arith, found, currency_from-le currencies s r found)
]

magnitude_or-le :
    (s : List ℕ) → length (elim (magnitude s) [ none ↦ s | some (factor, rest) ↦ rest ]) ≤ length s
unfolding magnitude
magnitude_or-le s = elim (Option-cases (magnitude_from magnitudes s)) [
  | inl none_here ↦ rw none_here (omega arith)
  | inr ((factor, rest), found) ↦ rw found (magnitude_from-le magnitudes s rest factor found)
]

match_tail-le :
    (has_cur1 : Bool) (num : List (List ℕ)) (s : List ℕ)
    → length (match_tail has_cur1 num s).rest ≤ length s
unfolding match_tail
match_tail-le has_cur1 num s =
    let s1 = (fraction s).1 in
    let s2 = skip_spaces s1 in
    let s3 : List ℕ = elim (magnitude s2) [ none ↦ s2 | some (factor, rest) ↦ rest ] in
    let a = fraction-le s in
    let b = skip_spaces-le s1 in
    let c : length s3 ≤ length s2 = magnitude_or-le s2 in
    let d = skip_spaces-le s3 in
    let e = currency_or-le (skip_spaces s3) in le_trans e (le_trans d (le_trans c (le_trans b a)))

-- A match leaves less of the text than there was.
match_here-lt : (s : List ℕ) (m : Match) → match_here s ≡ some m → length m.rest < length s
unfolding match_here
match_here-lt s m h =
    let s0 = rest_or s (currency s) in
    let a = currency_or-le s in
    let b = skip_spaces-le s0 in
    elim (Option-cases (number (skip_spaces s0))) [
      | inl none_here ↦ absurd (ground (arith, none_here, h))
      | inr ((num, rest), found) ↦
          let c = number-lt (skip_spaces s0) num rest found in
          let d = match_tail-le (is_some (currency s)) num rest in
          let e : match_tail (is_some (currency s)) num rest ≡ m = ground (arith, found, h) in
          rw (← e) (omega (arith, a, b, c, d))
    ]

extract_from_enough :
    (fuel more : ℕ) (s : List ℕ)
    → length s ≤ fuel
    → length s ≤ more
    → extract_from fuel s ≡ extract_from more s
unfolding extract_from
extract_from_enough zero zero s h k = refl
extract_from_enough zero (suc more) [] h k = refl
extract_from_enough zero (suc more) (c ∷ s) h k = absurd (omega arith)
extract_from_enough (suc fuel) zero [] h k = refl
extract_from_enough (suc fuel) zero (c ∷ s) h k = absurd (omega arith)
extract_from_enough (suc fuel) (suc more) [] h k = refl
extract_from_enough (suc fuel) (suc more) (c ∷ s) h k = elim (Option-cases (match_here (c ∷ s))) [
  | inl none_here ↦
      let ih = extract_from_enough fuel more s (omega arith) (omega arith) in
      rw (extract_from, none_here) ih
  | inr (m, found) ↦
      let shorter = match_here-lt (c ∷ s) m found in
      let ih = extract_from_enough fuel more m.rest (omega arith) (omega arith) in
      rw (extract_from, found, ih) refl
]

comma_groups_enough :
    (fuel more : ℕ) (s : List ℕ)
    → length s ≤ fuel
    → length s ≤ more
    → comma_groups fuel s ≡ comma_groups more s
unfolding comma_groups
comma_groups_enough zero zero s h k = refl
comma_groups_enough zero (suc more) [] h k = refl
comma_groups_enough zero (suc more) (c ∷ s) h k = absurd (omega arith)
comma_groups_enough (suc fuel) zero [] h k = refl
comma_groups_enough (suc fuel) zero (c ∷ s) h k = absurd (omega arith)
comma_groups_enough (suc fuel) (suc more) [] h k = refl
comma_groups_enough (suc fuel) (suc more) (a ∷ []) h k = refl
comma_groups_enough (suc fuel) (suc more) (a ∷ b ∷ []) h k = refl
comma_groups_enough (suc fuel) (suc more) (a ∷ b ∷ c ∷ []) h k = refl
comma_groups_enough (suc fuel) (suc more) (comma ∷ a ∷ b ∷ c ∷ s) h k =
    let three = comma_groups_enough fuel more s (omega arith) (omega arith) in
    let two = comma_groups_enough fuel more (c ∷ s) (omega arith) (omega arith) in
    rw (three, two) refl

-- The scan for money figures is not cut short: any fuel of at least the length of the text finds the
-- same figures, and each match that it goes by leaves less of the text. Nor is the reading of a
-- number's groups: any fuel of at least the length of what follows the first group finds the same.
pub extract_amounts-fuel :
    (s : List ℕ) (fuel : ℕ)
    → length s ≤ fuel
    → (extract_from fuel s ≡ extract_amounts s)
      × ((m : Match) → match_here s ≡ some m → length m.rest < length s)
      × (comma_groups fuel s ≡ comma_groups (length s) s)
unfolding extract_amounts
extract_amounts-fuel s fuel h = (
  extract_from_enough fuel (length s) s h (omega arith),
  λ m found. match_here-lt s m found,
  comma_groups_enough fuel (length s) s h (omega arith),
)
