-- ===== src/Prelude/Chars.antt =====
-- Text that the program walks: a list of code points.
use Prim.Native.Nat.{ℕ, ◌+◌, ◌-◌, ◌*◌}
use Prim.Native.Char.{code}
use Prim.Native.String.{String}
use mathlib.Core.Bool.{Bool, true, false, ◌&&◌, ◌||◌}
use mathlib.Core.List.{List, [], ◌∷◌}
use mathlib.Core.Option.{Option, none, some}
use mathlib.Core.Option
use growth_operator.Prelude.Int.{ℤ, pos, neg}
use growth_operator.Prelude.Tests.{leb, ◌==◌, if◌then◌else◌}

-- The code points of a text.
abbrev pub codes : String → List ℕ
codes String.[] = []
codes (String.◌∷◌ c s) = code c ∷ codes s

-- `\d`, over ASCII
abbrev pub is_digit : ℕ → Bool
is_digit c = leb 48 c && leb c 57

-- `str.isspace`, which `\s` and `str.strip` use
abbrev pub is_space : ℕ → Bool
is_space c =
    leb 9 c && leb c 13
    || leb 28 c && leb c 32
    || c == 0x85
    || c == 0xa0
    || c == 0x1680
    || leb 0x2000 c && leb c 0x200a
    || c == 0x2028
    || c == 0x2029
    || c == 0x202f
    || c == 0x205f
    || c == 0x3000

-- `str.lower` of a letter, over ASCII
abbrev pub to_lower : ℕ → ℕ
to_lower c = if leb 65 c && leb c 90 then c + 32 else c

abbrev pub skip_spaces : List ℕ → List ℕ
skip_spaces [] = []
skip_spaces (c ∷ s) = let rest = skip_spaces s in if is_space c then rest else c ∷ s

-- `str.rstrip`
abbrev pub drop_last_spaces : List ℕ → List ℕ
drop_last_spaces [] = []
drop_last_spaces (c ∷ s) = elim (drop_last_spaces s) [
  | [] ↦ if is_space c then [] else c ∷ []
  | d ∷ rest ↦ c ∷ d ∷ rest
]

-- `str.strip`
abbrev pub strip : List ℕ → List ℕ
strip s = skip_spaces (drop_last_spaces s)

-- `s[len(p):]` where `s` starts with `p` up to case, which `p` has in lower case
abbrev pub after_prefix : List ℕ → List ℕ → Option (List ℕ)
after_prefix [] s = some s
after_prefix (p ∷ ps) [] = none
after_prefix (p ∷ ps) (c ∷ s) =
    let rest = after_prefix ps s in if p == to_lower c then rest else none

abbrev pub text_eq : List ℕ → List ℕ → Bool
text_eq [] [] = true
text_eq (c ∷ s) (d ∷ t) = c == d && text_eq s t
text_eq _ _ = false

-- `s.startswith(prefix)`
abbrev pub starts_with : List ℕ → List ℕ → Bool
starts_with [] s = true
starts_with (p ∷ ps) [] = false
starts_with (p ∷ ps) (c ∷ s) = p == c && starts_with ps s

-- `s.endswith(suffix)`
abbrev pub ends_with : List ℕ → List ℕ → Bool
ends_with suffix [] = text_eq [] suffix
ends_with suffix (c ∷ s) = text_eq (c ∷ s) suffix || ends_with suffix s

-- `s.removeprefix(prefix)`
abbrev pub remove_prefix : List ℕ → List ℕ → List ℕ
remove_prefix prefix s = elim (without prefix s) [ none ↦ s | some rest ↦ rest ]
  where
    without : List ℕ → List ℕ → Option (List ℕ)
    without [] s = some s
    without (p ∷ ps) [] = none
    without (p ∷ ps) (c ∷ s) = let rest = without ps s in if p == c then rest else none

-- `s[:-1]`
abbrev pub drop_last : List ℕ → List ℕ
drop_last [] = []
drop_last (c ∷ []) = []
drop_last (c ∷ d ∷ s) = c ∷ drop_last (d ∷ s)

-- `s.split(c)`
abbrev pub split_on : ℕ → List ℕ → List (List ℕ)
split_on c [] = [] ∷ []
split_on c (d ∷ s) = elim (split_on c s) [
  | [] ↦ []
  | part ∷ parts ↦ if d == c then [] ∷ part ∷ parts else (d ∷ part) ∷ parts
]

-- Digits, with single `_` between them.
parse_digits : ℕ → Bool → List ℕ → Option ℕ
parse_digits acc after_digit [] = if after_digit then some acc else none
parse_digits acc after_digit (c ∷ s) =
    let rest = parse_digits (if is_digit c then acc * 10 + (c - 48) else acc) (is_digit c) s in
    if is_digit c || c == b'_' && after_digit then rest else none

-- `int(s)`; `none` is `ValueError`
unfoldable pub parse_int : List ℕ → Option ℤ
unfolding parse_digits
parse_int s = elim (strip s) [
  | [] ↦ none
  | c ∷ ds ↦
      if c == b'-'
      then Option.map (λ n. neg (pos n)) (parse_digits 0 false ds)
      else Option.map pos
          (if c == b'+' then parse_digits 0 false ds else parse_digits 0 false (c ∷ ds))
]
