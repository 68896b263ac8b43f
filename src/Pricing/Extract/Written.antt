-- ===== src/Pricing/Extract/Written.antt =====
-- Amounts that are written out are read back.
use growth_operator.Pricing.Extract.{
  Match, digit_run, comma_groups, number, match_tail, extract_amounts, rest_or, digits_value,
  flatten,
}
use growth_operator.Prelude.{
  ◌∷◌, ℕ, skip_spaces, length, [], List, ◌+◌, ◌*◌, some, ◌≡◌, ◌++◌, map, is_digit, All, true, none,
  Bool, Option, is_some, if◌then◌else◌, leb, codes,
}

abbrev AllDigits : List ℕ → Type 0
AllDigits s = All (λ c. is_digit c ≡ true) s

-- A text that a number does not go on into.
abbrev IsClear : List ℕ → Type 0
IsClear tail = (digit_run tail ≡ ([], tail)) × (comma_groups (length tail) tail ≡ ([], tail))

-- `number` behind its digits.
abbrev number_by : List ℕ × List ℕ → Option (List (List ℕ) × List ℕ)
number_by (run, rest) =
    let groups = comma_groups (length rest) rest in
    elim run [
      | [] ↦ none
      | d ∷ ds ↦ some (
          if leb (length (d ∷ ds)) 3
          then ((d ∷ ds) ∷ groups.0, groups.1)
          else ((d ∷ ds) ∷ [], rest))
    ]

-- `match_here` behind its number.
abbrev match_from : Bool → Option (List (List ℕ) × List ℕ) → Option Match
match_from marked found = elim found [
  | none ↦ none
  | some (num, rest) ↦ some (match_tail marked num rest)
]

abbrev match_by : List ℕ → Option (List ℕ) → Option Match
match_by s mark = match_from (is_some mark) (number (skip_spaces (rest_or s mark)))

abbrev pub minors_of : List ℕ → List ℕ
minors_of s = map (λ f. f.minor) (extract_amounts s)

-- The number of a digit text, as `to_minor` reads it.
abbrev Spells : ℕ → List ℕ → Type 0
Spells n s = digits_value 0 (flatten (s ∷ [])) ≡ n

-- `n` rupees, or `n` rupees and `10 * a + b` paise, written with these digits are read back in paise.
abbrev pub IsReadBack : ℕ → ℕ → ℕ → List ℕ → Type 0
IsReadBack n a b s =
    (minors_of (codes "₹" ++ s) ≡ n * 100 ∷ [])
    × (minors_of (codes "Rs. " ++ (s ++ b'.' ∷ (48 + a) ∷ (48 + b) ∷ []))
        ≡ (n * 100 + a * 10 + b) ∷ [])
    × (minors_of (s ++ codes " rupees") ≡ n * 100 ∷ [])
    × (minors_of (s ++ codes "k") ≡ n * 1_000 * 100 ∷ [])
    × (minors_of (s ++ codes " lakh") ≡ n * 100_000 * 100 ∷ [])
    × (minors_of (s ++ codes " crore") ≡ n * 10_000_000 * 100 ∷ [])
    × (minors_of (codes "₹" ++ (s ++ codes "K")) ≡ n * 1_000 * 100 ∷ [])
    × (minors_of (s ++ codes "K") ≡ [])
    × (minors_of s ≡ [])
