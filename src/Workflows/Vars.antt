-- ===== src/Workflows/Vars.antt =====
-- The JSON dictionaries of core/workflows/executor.py: run variables, references, durations.
use growth_operator.Prelude.{
  String, List, [], ◌∷◌, if◌then◌else◌, str_eq, ◌-◌, ◌+◌, some, lookup, Option, false, ℕ, ◌*◌, ◌==◌,
  is_digit, skip_spaces, none, true, Bool, codes,
}
use mathlib.Core.Option
use growth_operator.Prelude.Int.{ℤ, pos}
use growth_operator.Prelude.Json.{
  Json, null, bool, int, str, arr, obj, Items, nil, cons, Fields, end, field,
}

-- A dictionary with text keys, each key once.
abbrev pub Vars : Type 0
Vars = List (String × Json)

-- `{**d, k: v}`
unfoldable pub put : String → Json → Vars → Vars
put k v [] = (k, v) ∷ []
put k v ((j, w) ∷ d) = let rest = put k v d in if str_eq k j then (j, v) ∷ d else (j, w) ∷ rest

-- `{**d, **e}`
unfoldable pub merge : Vars → Vars → Vars
unfolding put
merge d [] = d
merge d ((k, v) ∷ e) = merge (put k v d) e

-- `dict[k]` in a JSON object
unfoldable pub field_of : String → Fields → Option Json
field_of k end = none
field_of k (field j v fs) = let rest = field_of k fs in if str_eq k j then some v else rest

-- `node[part]` where `node` is a dictionary with that key
unfoldable pub child : String → Json → Option Json
unfolding field_of
child part (obj fs) = field_of part fs
child part _ = none

-- A path walk, `none` where it leaves the dictionaries.
unfoldable pub walk_from : List String → Json → Option Json
unfolding child
walk_from [] node = some node
walk_from (part ∷ parts) node = elim (child part node) [
  | some next ↦ walk_from parts next
  | none ↦ none
]

unfoldable pub walk : List String → Vars → Option Json
unfolding walk_from
walk [] activation = none
walk (part ∷ parts) activation = elim (lookup part activation) [
  | some next ↦ walk_from parts next
  | none ↦ none
]

-- `_resolve_ref`; `split` is `ref.split(".")`
unfoldable pub resolve_ref : (String → List String) → Option String → Vars → Json
unfolding walk
resolve_ref split none activation = null
resolve_ref split (some ref) activation = elim (walk (split ref) activation) [
  | some value ↦ value
  | none ↦ str ref
]

-- `_DUR_UNIT`
unfoldable pub unit_seconds : ℕ → Option ℕ
unit_seconds c =
    if c == b's'
    then some 1
    else if c == b'm'
    then some 60
    else if c == b'h'
    then some 3600
    else if c == b'd'
    then some 86400
    else none

-- The rest of `_DUR_RE` after at least one digit.
unfoldable pub duration_unit : ℕ → List ℕ → Option ℕ
unfolding unit_seconds
duration_unit n s = elim (skip_spaces s) [
  | [] ↦ none
  | c ∷ rest ↦ elim (skip_spaces rest) [
    | [] ↦ Option.map (λ (k : ℕ). n * k) (unit_seconds c)
    | _ ∷ _ ↦ none
  ]
]

unfoldable pub duration_digits : Bool → ℕ → List ℕ → Option ℕ
unfolding duration_unit
duration_digits any_digit n [] = none
duration_digits any_digit n (c ∷ s) =
    let more = duration_digits true (n * 10 + (c - 48)) s in
    if is_digit c then more else if any_digit then duration_unit n (c ∷ s) else none

-- `parse_duration_s`, in seconds; `none` is `ValueError`. A Boolean is an `int`, and a value that is
-- neither text nor a number is not parsed.
unfoldable pub parse_duration_s : Json → Option ℤ
unfolding duration_digits
parse_duration_s (int n) = some n
parse_duration_s (bool b) = some (pos (if b then 1 else 0))
parse_duration_s (str s) = Option.map pos (duration_digits false 0 (skip_spaces (codes s)))
parse_duration_s _ = none

unfoldable pub fields_of : Vars → Fields
fields_of [] = end
fields_of ((k, v) ∷ d) = field k v (fields_of d)

abbrev pub to_json : Vars → Json
to_json d = obj (fields_of d)

-- The texts of a JSON list, `[]` for what is no list.
unfoldable pub item_texts : Items → List String
item_texts nil = []
item_texts (cons (str s) xs) = s ∷ item_texts xs
item_texts (cons _ xs) = item_texts xs

unfoldable pub texts_of : Option Json → List String
unfolding item_texts
texts_of (some (arr xs)) = item_texts xs
texts_of _ = []

unfoldable pub items_of : List String → Items
items_of [] = nil
items_of (s ∷ ss) = cons (str s) (items_of ss)

abbrev pub opt_text : Option String → Json
opt_text none = null
opt_text (some s) = str s
