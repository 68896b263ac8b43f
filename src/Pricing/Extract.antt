-- ===== src/Pricing/Extract.antt =====
-- core/pricing/extract.py: the scan of an outbound text for rupee amounts.
-- The regular expression is written out as the one match that it makes at a position: all that
-- follows the number is optional, so nothing is ever given back. Texts are lists of code points,
-- and a digit or a letter means ASCII.
pub mod Fuel
pub mod Digits
pub mod Written
mod Tests
use growth_operator.Prelude.{
  ℕ, zero, suc, ◌≡◌, refl, map, ◌+◌, ◌-◌, ◌*◌, String, Bool, false, ◌&&◌, ◌||◌, Option, none, some,
  List, [], ◌∷◌, ◌++◌, leb, ◌==◌, if◌then◌else◌, is_some, length, take, not, codes, is_digit,
  skip_spaces, strip, after_prefix,
}

pub record Figure : Type 0 where
  pub minor : ℕ
  pub raw : List ℕ

-- `_MAGNITUDE`, in the order of `_MAG_ALT`: the longest word first
abbrev pub magnitudes : List (String × ℕ)
magnitudes =
    ("thousand", 1_000)
    ∷ ("crores", 10_000_000)
    ∷ ("lakhs", 100_000)
    ∷ ("crore", 10_000_000)
    ∷ ("lakh", 100_000)
    ∷ ("lacs", 100_000)
    ∷ ("lac", 100_000)
    ∷ ("cr", 10_000_000)
    ∷ ("k", 1_000)
    ∷ []

-- `_CURRENCY`, in the order of its alternatives; `rs\.?` is greedy
abbrev pub currencies : List String
currencies = "₹" ∷ "rs." ∷ "rs" ∷ "inr" ∷ "rupees" ∷ "rupee" ∷ []

-- The rest of the text behind the first currency mark that stands here.
unfoldable pub currency_from : List String → List ℕ → Option (List ℕ)
currency_from [] s = none
currency_from (mark ∷ marks) s = elim (after_prefix (codes mark) s) [
  | some rest ↦ some rest
  | none ↦ currency_from marks s
]

unfoldable pub currency : List ℕ → Option (List ℕ)
unfolding currency_from
currency = currency_from currencies

-- A magnitude word: its factor, whether it is a bare upper-case `K`, and the rest.
unfoldable pub magnitude_from : List (String × ℕ) → List ℕ → Option (ℕ × List ℕ)
magnitude_from [] s = none
magnitude_from ((word, factor) ∷ words) s = elim (after_prefix (codes word) s) [
  | some rest ↦ some (factor, rest)
  | none ↦ magnitude_from words s
]

unfoldable pub magnitude : List ℕ → Option (ℕ × List ℕ)
unfolding magnitude_from
magnitude = magnitude_from magnitudes

-- `\d+`: the run of digits, and the rest
unfoldable pub digit_run : List ℕ → List ℕ × List ℕ
digit_run [] = ([], [])
digit_run (c ∷ s) =
    let (run, rest) = digit_run s in if is_digit c then (c ∷ run, rest) else ([], c ∷ s)

-- `(?:,\d{2,3})*`: the groups behind a first group, and the rest
unfoldable pub comma_groups : ℕ → List ℕ → List (List ℕ) × List ℕ
comma_groups (suc fuel) (comma ∷ a ∷ b ∷ c ∷ s) =
    let three = comma_groups fuel s in
    let two = comma_groups fuel (c ∷ s) in
    if comma == b',' && is_digit a && is_digit b
    then if is_digit c then ((a ∷ b ∷ c ∷ []) ∷ three.0, three.1) else ((a ∷ b ∷ []) ∷ two.0, two.1)
    else ([], comma ∷ a ∷ b ∷ c ∷ s)
comma_groups (suc fuel) (comma ∷ a ∷ b ∷ []) =
    if comma == b',' && is_digit a && is_digit b
    then ((a ∷ b ∷ []) ∷ [], [])
    else ([], comma ∷ a ∷ b ∷ [])
comma_groups _ s = ([], s)

-- `\d{1,3}(?:,\d{2,3})+|\d+`: the groups of the number, and the rest
unfoldable pub number : List ℕ → Option (List (List ℕ) × List ℕ)
unfolding digit_run comma_groups
number s =
    let (run, rest) = digit_run s in
    let (groups, rest') = comma_groups (length rest) rest in
    elim run [
      | [] ↦ none
      | d ∷ ds ↦
          some
            (if leb (length (d ∷ ds)) 3 then ((d ∷ ds) ∷ groups, rest') else ((d ∷ ds) ∷ [], rest))
    ]

-- `(?:\.(\d{1,2}))?`: the fraction's digits, none if there is no fraction, and the rest
unfoldable pub fraction : List ℕ → List ℕ × List ℕ
fraction (dot ∷ a ∷ b ∷ s) =
    if dot == b'.' && is_digit a
    then if is_digit b then (a ∷ b ∷ [], s) else (a ∷ [], b ∷ s)
    else ([], dot ∷ a ∷ b ∷ s)
fraction (dot ∷ a ∷ []) = if dot == b'.' && is_digit a then (a ∷ [], []) else ([], dot ∷ a ∷ [])
fraction s = ([], s)

-- `int` of a text of digits
unfoldable pub digits_value : ℕ → List ℕ → ℕ
digits_value acc [] = acc
digits_value acc (d ∷ ds) = digits_value (acc * 10 + (d - 48)) ds

unfoldable pub flatten : List (List ℕ) → List ℕ
flatten [] = []
flatten (g ∷ gs) = g ++ flatten gs

-- `_is_indian_grouped`: three groups or more, one of the inner ones of two digits
unfoldable pub has_inner_pair : List (List ℕ) → Bool
has_inner_pair [] = false
has_inner_pair (last ∷ []) = false
has_inner_pair (g ∷ h ∷ gs) = length g == 2 || has_inner_pair (h ∷ gs)

unfoldable pub is_indian_grouped : List (List ℕ) → Bool
unfolding has_inner_pair
is_indian_grouped [] = false
is_indian_grouped (first ∷ rest) = leb 3 (length (first ∷ rest)) && has_inner_pair rest

-- The paise of a fraction: `0.5` is 50 and `0.05` is 5.
unfoldable pub paise : List ℕ → ℕ
unfolding digits_value
paise (a ∷ []) = (a - 48) * 10
paise frac = digits_value 0 frac

-- `_to_minor`. The amount in paise is whole, so the last rounding changes nothing.
unfoldable pub to_minor : List (List ℕ) → List ℕ → Option ℕ → ℕ
unfolding digits_value flatten paise
to_minor num frac mag =
    let value = digits_value 0 (flatten num) * 100 + paise frac in
    elim mag [ none ↦ value | some factor ↦ value * factor ]

-- What the expression matches at a position.
pub record Match : Type 0 where
  pub has_currency : Bool
  pub num : List (List ℕ)
  pub frac : List ℕ
  pub mag : Option ℕ
  pub is_upper_k : Bool
  pub rest : List ℕ

-- `mag.lower() == "k" and mag.isupper()`, of the text where the magnitude stands
unfoldable pub upper_k : List ℕ → Option (ℕ × List ℕ) → Bool
upper_k (c ∷ s) (some (factor, rest)) = c == b'K'
upper_k _ _ = false

unfoldable pub rest_or {ℓ} : {A : Type ℓ} → A → Option A → A
rest_or a none = a
rest_or a (some b) = b

-- Behind the fraction: the magnitude and a second currency mark.
unfoldable pub match_behind : Bool → List (List ℕ) → List ℕ × List ℕ → Match
unfolding magnitude currency upper_k rest_or
match_behind has_cur1 num (frac, s₁) =
    let s₂ = skip_spaces s₁ in
    let found = magnitude s₂ in
    let s₃ = skip_spaces (elim found [ none ↦ s₂ | some (factor, rest) ↦ rest ]) in
    let cur2 = currency s₃ in
    record {
      has_currency = has_cur1 || is_some cur2;
      num = num;
      frac = frac;
      mag = elim found [ none ↦ none | some (factor, rest) ↦ some factor ];
      is_upper_k = upper_k s₂ found;
      rest = rest_or s₃ cur2;
    }

-- Behind the number: the fraction, and what follows it.
unfoldable pub match_tail : Bool → List (List ℕ) → List ℕ → Match
unfolding fraction match_behind
match_tail has_cur1 num s = match_behind has_cur1 num (fraction s)

unfoldable pub match_here : List ℕ → Option Match
unfolding currency number match_tail rest_or
match_here s =
    let cur1 = currency s in
    elim (number (skip_spaces (rest_or s cur1))) [
      | none ↦ none
      | some (num, rest) ↦ some (match_tail (is_some cur1) num rest)
    ]

-- The body of the loop of `extract_amounts`, on one match whose text is `raw`.
unfoldable pub figure_of : Match → List ℕ → List Figure
unfolding is_indian_grouped to_minor
figure_of m raw =
    let mag = if m.is_upper_k && not m.has_currency then none else m.mag in
    if m.has_currency || is_some mag || is_indian_grouped m.num
    then record { minor = to_minor m.num m.frac mag; raw = strip raw } ∷ []
    else []

-- `finditer`: the next match, or one character further. A match takes a character at least.
unfoldable pub extract_from : ℕ → List ℕ → List Figure
unfolding match_here figure_of
extract_from zero s = []
extract_from (suc fuel) [] = []
extract_from (suc fuel) (c ∷ s) = elim (match_here (c ∷ s)) [
  | none ↦ extract_from fuel s
  | some m ↦ figure_of m (take (length (c ∷ s) - length m.rest) (c ∷ s)) ++ extract_from fuel m.rest
]

unfoldable pub extract_amounts : List ℕ → List Figure
unfolding extract_from
extract_amounts s = extract_from (length s) s

abbrev minors : String → List ℕ
minors s = map (λ f. f.minor) (extract_amounts (codes s))

extract_amounts_runs :
    (minors "Total ₹1,00,970.32 (18 K), or 50k / 2.5 lakh; call 9876543210 at 8 pm"
      ≡ 10_097_032 ∷ 5_000_000 ∷ 25_000_000 ∷ [])
    × (minors "22K gold, 1,00,000 and 1,000" ≡ 10_000_000 ∷ [])
    × (minors "Rs. 12.5" ≡ 1_250 ∷ [])
unfolding extract_amounts
extract_amounts_runs = (refl, refl, refl)
