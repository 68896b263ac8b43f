-- ===== src/Prelude/Json/Injective.antt =====
-- A value is read back from its canonical text, up to the order of the keys of its objects.
use mathlib.Core.List.{append_assoc}
use mathlib.Core.Path.{subst}
use growth_operator.Prelude.{
  ℕ, suc, String, ◌≡◌, refl, Bool, true, false, List, [], ◌∷◌, ◌++◌, ◌==◌, if◌then◌else◌, ◌||◌,
  arith, ap, ◌∙◌, sym, is_digit,
}
use growth_operator.Prelude.Int.{ℤ, pos, negsuc}
use growth_operator.Prelude.Json.{
  Json, Items, Fields, null, bool, int, str, arr, obj, nil, cons, end, field, print_ℤ, print_ℕ,
  quote, comma_before, join_fields, dump_bool, dumps,
}
use growth_operator.Prelude.Json.Delimited.{
  Passes, cut, Stops, split_value, PassesAt-append, Passes-quote, Passes-print_ℤ, Passes-bracketed,
  Inner-comma_before, Inner-join_fields, null_text, bool_text, Inner, AllPass,
}
use growth_operator.Prelude.Json.Escape.{quote-cut}
use growth_operator.Prelude.Json.Numbers.{head_or, tail_of, print_ℤ-injective, print_ℕ-IsNumeral}
use growth_operator.Prelude.Json.Canonical.{
  canonical, plain, plain_items, texts_of, dumps-canonical,
}

mutual
  unfolding plain

  Passes-plain : (j : Json) → Passes (plain j)
  Passes-plain null d x = null_text d x
  Passes-plain (bool b) d x = bool_text b d x
  Passes-plain (int n) d x = Passes-print_ℤ n d x
  Passes-plain (str s) d x = Passes-quote s d x
  Passes-plain (arr xs) d x =
      Passes-bracketed b'[' b']' (plain_items true xs) refl refl (Inner-plain_items true xs) d x
  Passes-plain (obj fs) d x =
      Passes-bracketed b'{' b'}' (join_fields true (texts_of fs)) refl refl
        (Inner-join_fields true (texts_of fs) (AllPass-texts_of fs)) d x

  Inner-plain_items : (first : Bool) (xs : Items) → Inner (plain_items first xs)
  Inner-plain_items first nil d x = refl
  Inner-plain_items first (cons j xs) d x =
      PassesAt-append (suc d) (comma_before first) (plain j ++ plain_items false xs)
        (Inner-comma_before first d)
        (PassesAt-append (suc d) (plain j) (plain_items false xs) (Passes-plain j (suc d))
          (Inner-plain_items false xs d))
        x

  AllPass-texts_of : (fs : Fields) → AllPass (texts_of fs)
  AllPass-texts_of end = tt
  AllPass-texts_of (field k v fs) = (Passes-plain v, AllPass-texts_of fs)

pub Passes-dumps : (j : Json) → Passes (dumps j)
Passes-dumps j = subst Passes (sym (dumps-canonical j)) (Passes-plain (canonical j))

-- What kind of value a character starts.
class_of : ℕ → ℕ
class_of c =
    if c == b'n'
    then 1
    else if c == b't' || c == b'f'
    then 2
    else if is_digit c || c == b'-'
    then 3
    else if c == 34
    then 4
    else if c == b'['
    then 5
    else if c == b'{'
    then 6
    else 0

kind : Json → ℕ
kind null = 1
kind (bool b) = 2
kind (int n) = 3
kind (str s) = 4
kind (arr xs) = 5
kind (obj fs) = 6

class_of-print_ℤ : (z : ℤ) (x : List ℕ) → class_of (head_or (print_ℤ z ++ x)) ≡ 3
unfolding class_of print_ℤ
class_of-print_ℤ (negsuc n) x = refl
class_of-print_ℤ (pos n) x =
    let (d, ds, e, g, h) = print_ℕ-IsNumeral n in
    let same : head_or (print_ℕ n ++ x) ≡ d = ap (λ (l : List ℕ). head_or (l ++ x)) e in
    ground (arith, same, g)

class_of-plain : (j : Json) (x : List ℕ) → class_of (head_or (plain j ++ x)) ≡ kind j
unfolding class_of plain kind quote dump_bool
class_of-plain null x = refl
class_of-plain (bool true) x = refl
class_of-plain (bool false) x = refl
class_of-plain (int n) x = class_of-print_ℤ n x
class_of-plain (str s) x = refl
class_of-plain (arr xs) x = refl
class_of-plain (obj fs) x = refl

kinds : (j k : Json) → plain j ≡ plain k → kind j ≡ kind k
kinds j k e =
    sym (class_of-plain j [])
    ∙ ap (λ (l : List ℕ). class_of (head_or (l ++ []))) e
    ∙ class_of-plain k []

kind-positive : (k : Json) → kind k ≡ 0 → ⊥
unfolding kind
kind-positive null h = omega (arith, h)
kind-positive (bool b) h = omega (arith, h)
kind-positive (int n) h = omega (arith, h)
kind-positive (str s) h = omega (arith, h)
kind-positive (arr xs) h = omega (arith, h)
kind-positive (obj fs) h = omega (arith, h)

-- A closing bracket starts no value.
no_value : (j : Json) (c : ℕ) (x y : List ℕ) → class_of c ≡ 0 → c ∷ y ≡ plain j ++ x → ⊥
no_value j c x y none_of e =
    kind-positive j
      (sym (class_of-plain j x) ∙ sym (ap (λ (l : List ℕ). class_of (head_or l)) e) ∙ none_of)

Stops-items : (xs : Items) → Stops (plain_items false xs ++ b']' ∷ [])
unfolding plain split_value comma_before
Stops-items nil = refl
Stops-items (cons x xs) = refl

Stops-fields : (fs : Fields) → Stops (join_fields false (texts_of fs) ++ b'}' ∷ [])
unfolding plain split_value comma_before join_fields
Stops-fields end = refl
Stops-fields (field k v fs) = refl

cut_items :
    (x y : Json) (xs ys : Items)
    → (plain x ++ plain_items false xs) ++ b']' ∷ []
      ≡ (plain y ++ plain_items false ys) ++ b']' ∷ []
    → (plain x ≡ plain y) × (plain_items false xs ++ b']' ∷ [] ≡ plain_items false ys ++ b']' ∷ [])
cut_items x y xs ys e =
    cut (plain x) (plain y) (plain_items false xs ++ b']' ∷ []) (plain_items false ys ++ b']' ∷ [])
      (Passes-plain x) (Passes-plain y) (Stops-items xs) (Stops-items ys)
      (sym (append_assoc (plain x) (plain_items false xs) (b']' ∷ []))
        ∙ e
        ∙ append_assoc (plain y) (plain_items false ys) (b']' ∷ []))

cut_fields :
    (k j : String) (v w : Json) (fs gs : Fields)
    → let more = join_fields false (texts_of fs) in
      let more' = join_fields false (texts_of gs) in
      (quote k ++ (b':' ∷ plain v ++ more)) ++ b'}' ∷ []
        ≡ (quote j ++ (b':' ∷ plain w ++ more')) ++ b'}' ∷ []
      → (k ≡ j) × (plain v ≡ plain w) × (more ++ b'}' ∷ [] ≡ more' ++ b'}' ∷ [])
cut_fields k j v w fs gs e =
    let more = join_fields false (texts_of fs) in
    let more' = join_fields false (texts_of gs) in
    let (key, after) =
      quote-cut k j ((b':' ∷ plain v ++ more) ++ b'}' ∷ []) ((b':' ∷ plain w ++ more') ++ b'}' ∷ [])
        (sym (append_assoc (quote k) (b':' ∷ plain v ++ more) (b'}' ∷ []))
          ∙ e
          ∙ append_assoc (quote j) (b':' ∷ plain w ++ more') (b'}' ∷ [])) in
    let (value, rest) =
      cut (plain v) (plain w) (more ++ b'}' ∷ []) (more' ++ b'}' ∷ []) (Passes-plain v)
        (Passes-plain w) (Stops-fields fs) (Stops-fields gs)
        (sym (append_assoc (plain v) more (b'}' ∷ []))
          ∙ ap tail_of after
          ∙ append_assoc (plain w) more' (b'}' ∷ [])) in
    (key, value, rest)

bracket_class : class_of b']' ≡ 0
unfolding class_of
bracket_class = refl

bool-injective : (b c : Bool) → dump_bool b ≡ dump_bool c → b ≡ c
unfolding dump_bool
bool-injective true true e = refl
bool-injective false false e = refl
bool-injective true false e = absurd (omega (arith, ap head_or e))
bool-injective false true e = absurd (omega (arith, ap head_or e))

mutual
  unfolding plain kind join_fields comma_before quote

  plain-injective : (j k : Json) → plain j ≡ plain k → j ≡ k
  plain-injective null null e = refl
  plain-injective (bool b) (bool c) e = ap bool (bool-injective b c e)
  plain-injective (int n) (int m) e = ap int (print_ℤ-injective n m e)
  plain-injective (str s) (str t) e =
      ap str (quote-cut s t [] [] (ap (λ (l : List ℕ). l ++ []) e)).0
  plain-injective (arr xs) (arr ys) e = ap arr (items-injective true xs ys (ap tail_of e))
  plain-injective (obj fs) (obj gs) e = ap obj (fields-injective true fs gs (ap tail_of e))
  plain-injective null (bool c) e = absurd (omega (arith, kinds null (bool c) e))
  plain-injective null (int m) e = absurd (omega (arith, kinds null (int m) e))
  plain-injective null (str t) e = absurd (omega (arith, kinds null (str t) e))
  plain-injective null (arr ys) e = absurd (omega (arith, kinds null (arr ys) e))
  plain-injective null (obj gs) e = absurd (omega (arith, kinds null (obj gs) e))
  plain-injective (bool b) null e = absurd (omega (arith, kinds (bool b) null e))
  plain-injective (bool b) (int m) e = absurd (omega (arith, kinds (bool b) (int m) e))
  plain-injective (bool b) (str t) e = absurd (omega (arith, kinds (bool b) (str t) e))
  plain-injective (bool b) (arr ys) e = absurd (omega (arith, kinds (bool b) (arr ys) e))
  plain-injective (bool b) (obj gs) e = absurd (omega (arith, kinds (bool b) (obj gs) e))
  plain-injective (int n) null e = absurd (omega (arith, kinds (int n) null e))
  plain-injective (int n) (bool c) e = absurd (omega (arith, kinds (int n) (bool c) e))
  plain-injective (int n) (str t) e = absurd (omega (arith, kinds (int n) (str t) e))
  plain-injective (int n) (arr ys) e = absurd (omega (arith, kinds (int n) (arr ys) e))
  plain-injective (int n) (obj gs) e = absurd (omega (arith, kinds (int n) (obj gs) e))
  plain-injective (str s) null e = absurd (omega (arith, kinds (str s) null e))
  plain-injective (str s) (bool c) e = absurd (omega (arith, kinds (str s) (bool c) e))
  plain-injective (str s) (int m) e = absurd (omega (arith, kinds (str s) (int m) e))
  plain-injective (str s) (arr ys) e = absurd (omega (arith, kinds (str s) (arr ys) e))
  plain-injective (str s) (obj gs) e = absurd (omega (arith, kinds (str s) (obj gs) e))
  plain-injective (arr xs) null e = absurd (omega (arith, kinds (arr xs) null e))
  plain-injective (arr xs) (bool c) e = absurd (omega (arith, kinds (arr xs) (bool c) e))
  plain-injective (arr xs) (int m) e = absurd (omega (arith, kinds (arr xs) (int m) e))
  plain-injective (arr xs) (str t) e = absurd (omega (arith, kinds (arr xs) (str t) e))
  plain-injective (arr xs) (obj gs) e = absurd (omega (arith, kinds (arr xs) (obj gs) e))
  plain-injective (obj fs) null e = absurd (omega (arith, kinds (obj fs) null e))
  plain-injective (obj fs) (bool c) e = absurd (omega (arith, kinds (obj fs) (bool c) e))
  plain-injective (obj fs) (int m) e = absurd (omega (arith, kinds (obj fs) (int m) e))
  plain-injective (obj fs) (str t) e = absurd (omega (arith, kinds (obj fs) (str t) e))
  plain-injective (obj fs) (arr ys) e = absurd (omega (arith, kinds (obj fs) (arr ys) e))

  items-injective :
      (first : Bool) (xs ys : Items)
      → plain_items first xs ++ b']' ∷ [] ≡ plain_items first ys ++ b']' ∷ []
      → xs ≡ ys
  items-injective first nil nil e = refl
  items-injective true nil (cons y ys) e = absurd (
      no_value y b']' (plain_items false ys ++ b']' ∷ []) [] bracket_class
        (e ∙ append_assoc (plain y) (plain_items false ys) (b']' ∷ [])))
  items-injective false nil (cons y ys) e = absurd (omega (arith, ap head_or e))
  items-injective true (cons x xs) nil e = absurd (
      no_value x b']' (plain_items false xs ++ b']' ∷ []) [] bracket_class
        (sym e ∙ append_assoc (plain x) (plain_items false xs) (b']' ∷ [])))
  items-injective false (cons x xs) nil e = absurd (omega (arith, ap head_or e))
  items-injective true (cons x xs) (cons y ys) e =
      let (same, after) = cut_items x y xs ys e in
      cc (plain-injective x y same, items-injective false xs ys after)
  items-injective false (cons x xs) (cons y ys) e =
      let (same, after) = cut_items x y xs ys (ap tail_of e) in
      cc (plain-injective x y same, items-injective false xs ys after)

  fields-injective :
      (first : Bool) (fs gs : Fields)
      → join_fields first (texts_of fs) ++ b'}' ∷ [] ≡ join_fields first (texts_of gs) ++ b'}' ∷ []
      → fs ≡ gs
  fields-injective first end end e = refl
  fields-injective true end (field k v fs) e = absurd (omega (arith, ap head_or e))
  fields-injective false end (field k v fs) e = absurd (omega (arith, ap head_or e))
  fields-injective true (field k v fs) end e = absurd (omega (arith, ap head_or e))
  fields-injective false (field k v fs) end e = absurd (omega (arith, ap head_or e))
  fields-injective true (field k v fs) (field j w gs) e =
      let (key, value, after) = cut_fields k j v w fs gs e in
      cc (key, plain-injective v w value, fields-injective false fs gs after)
  fields-injective false (field k v fs) (field j w gs) e =
      let (key, value, after) = cut_fields k j v w fs gs (ap tail_of e) in
      cc (key, plain-injective v w value, fields-injective false fs gs after)

-- Two values with one canonical text are the same up to the order of the keys of objects.
pub dumps-injective : (j k : Json) → dumps j ≡ dumps k → canonical j ≡ canonical k
dumps-injective j k e =
    plain-injective (canonical j) (canonical k) (sym (dumps-canonical j) ∙ e ∙ dumps-canonical k)
