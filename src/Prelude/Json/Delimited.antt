-- ===== src/Prelude/Json/Delimited.antt =====
-- Where the text of a JSON value ends: at the first comma or closing bracket outside its own brackets and
-- its strings.
use mathlib.Core.List.{append_assoc, append-nil}
use growth_operator.Prelude.{
  ℕ, zero, suc, ◌+◌, ◌/◌, ◌%◌, String, ◌≡◌, refl, Bool, true, false, List, [], ◌∷◌, ◌++◌, ltb, ◌==◌,
  if◌then◌else◌, codes, ◌||◌, not, arith, All, Bool-cases, inl, inr, ap, ◌∙◌, sym, ◌<◌, str_le,
}
use growth_operator.Prelude.Int.{ℤ, pos, negsuc}
use growth_operator.Prelude.Json.{
  print_fuel, print_ℕ, print_ℤ, hex_digit, escape, escape_all, quote, insert_field, comma_before,
  join_fields, dump_bool,
}

abbrev pub push : ℕ → List ℕ × List ℕ → List ℕ × List ℕ
push c r = (c ∷ r.0, r.1)

abbrev pub onto : List ℕ → List ℕ × List ℕ → List ℕ × List ℕ
onto t r = (t ++ r.0, r.1)

abbrev pub opens : ℕ → Bool
opens c = c == b'[' || c == b'{'

abbrev pub closes : ℕ → Bool
closes c = c == b']' || c == b'}'

-- The text up to the end of the value and the text from there on, inside a string or outside of strings,
-- and inside so many brackets.
unfoldable pub split_value : Bool → ℕ → List ℕ → List ℕ × List ℕ
split_value q d [] = ([], [])
split_value true d (c ∷ []) = (c ∷ [], [])
split_value true d (c ∷ e ∷ s) =
    let escaped = split_value true d s in
    let inside = split_value true d (e ∷ s) in
    let outside = split_value false d (e ∷ s) in
    if c == 92 then push c (push e escaped) else if c == 34 then push c outside else push c inside
split_value false zero (c ∷ s) =
    let inside = split_value true zero s in
    let deeper = split_value false (suc zero) s in
    let next = split_value false zero s in
    if c == 34
    then push c inside
    else if opens c
    then push c deeper
    else if closes c || c == b','
    then ([], c ∷ s)
    else push c next
split_value false (suc d) (c ∷ s) =
    let inside = split_value true (suc d) s in
    let deeper = split_value false (suc (suc d)) s in
    let less = split_value false d s in
    let next = split_value false (suc d) s in
    if c == 34
    then push c inside
    else if opens c
    then push c deeper
    else if closes c
    then push c less
    else push c next

-- A text that goes by whole, at a depth or at every depth.
abbrev pub PassesAt : ℕ → List ℕ → Type 0
PassesAt d t = (x : List ℕ) → split_value false d (t ++ x) ≡ onto t (split_value false d x)

abbrev pub Passes : List ℕ → Type 0
Passes t = (d : ℕ) → PassesAt d t

abbrev pub Inner : List ℕ → Type 0
Inner t = (d : ℕ) → PassesAt (suc d) t

pub PassesAt-append : (d : ℕ) (t u : List ℕ) → PassesAt d t → PassesAt d u → PassesAt d (t ++ u)
PassesAt-append d t u h k x =
    ap (split_value false d) (append_assoc t u x)
    ∙ h (u ++ x)
    ∙ ap (onto t) (k x)
    ∙ ap (λ l. (l, (split_value false d x).1)) (sym (append_assoc t u (split_value false d x).0))

abbrev pub is_plain : ℕ → Bool
is_plain c = not (c == 34 || opens c || closes c || c == b',')

pub PassesAt-plain : (d c : ℕ) → is_plain c ≡ true → PassesAt d (c ∷ [])
unfolding split_value
PassesAt-plain zero c h x = ground (arith, h)
PassesAt-plain (suc d) c h x = ground (arith, h)

split-escape :
    (d c : ℕ) (y : List ℕ)
    → split_value true d (escape c ++ y) ≡ onto (escape c) (split_value true d y)
unfolding split_value escape hex_digit
split-escape d c [] = ground arith
split-escape d c (e ∷ s) = ground arith

-- The characters of a string and its closing quote.
split-escape_all :
    (d : ℕ) (s x : List ℕ)
    → split_value true d (escape_all s ++ 34 ∷ x)
      ≡ onto (escape_all s ++ 34 ∷ []) (split_value false d x)
unfolding escape_all
split-escape_all d [] [] = unfold split_value in refl
split-escape_all d [] (c ∷ x) = unfold split_value in refl
split-escape_all d (c ∷ s) x =
    ap (split_value true d) (append_assoc (escape c) (escape_all s) (34 ∷ x))
    ∙ split-escape d c (escape_all s ++ 34 ∷ x)
    ∙ ap (onto (escape c)) (split-escape_all d s x)
    ∙ ap (λ l. (l, (split_value false d x).1))
        (sym (append_assoc (escape c) (escape_all s ++ 34 ∷ []) (split_value false d x).0)
          ∙ ap (λ l. l ++ (split_value false d x).0)
              (sym (append_assoc (escape c) (escape_all s) (34 ∷ []))))

pub Passes-quote : (s : String) → Passes (quote s)
unfolding quote
Passes-quote s d x =
    ap (split_value false d)
      (ap (λ (l : List ℕ). 34 ∷ l) (append_assoc (escape_all (codes s)) (34 ∷ []) x))
    ∙ opening d (escape_all (codes s) ++ 34 ∷ x)
    ∙ ap (push 34) (split-escape_all d (codes s) x)
  where
    opening : (d : ℕ) (y : List ℕ) → split_value false d (34 ∷ y) ≡ push 34 (split_value true d y)
    opening zero y = unfold split_value in refl
    opening (suc d) y = unfold split_value in refl

is_plain-digit : (k : ℕ) → k < 10 → is_plain (48 + k) ≡ true
is_plain-digit k h = ground (arith, h)

Passes-print_fuel : (fuel n : ℕ) → Passes (print_fuel fuel n)
unfolding print_fuel
Passes-print_fuel zero n d = λ x. refl
Passes-print_fuel (suc fuel) n d = elim (Bool-cases (ltb n 10)) [
  | inl small ↦ rw small (PassesAt-plain d (48 + n) (is_plain-digit n (ground (arith, small))))
  | inr large ↦ rw large (
      PassesAt-append d (print_fuel fuel (n / 10)) ((48 + n % 10) ∷ [])
        (Passes-print_fuel fuel (n / 10) d)
        (PassesAt-plain d (48 + n % 10) (is_plain-digit (n % 10) (omega arith))))
]

pub Passes-print_ℤ : (z : ℤ) → Passes (print_ℤ z)
unfolding print_ℤ print_ℕ
Passes-print_ℤ (pos n) d = Passes-print_fuel (suc n) n d
Passes-print_ℤ (negsuc n) d =
    PassesAt-append d (b'-' ∷ []) (print_fuel (suc (suc n)) (suc n)) (PassesAt-plain d b'-' refl)
      (Passes-print_fuel (suc (suc n)) (suc n) d)

-- A text in brackets.
pub Passes-bracketed :
    (a b : ℕ) (t : List ℕ)
    → (a == 34) || not (opens a) ≡ false
    → (b == 34) || opens b || not (closes b) ≡ false
    → Inner t
    → Passes (a ∷ t ++ b ∷ [])
Passes-bracketed a b t o c h d x =
    ap (split_value false d) (ap (λ (l : List ℕ). a ∷ l) (append_assoc t (b ∷ []) x))
    ∙ opening d (t ++ b ∷ x)
    ∙ ap (push a) (h d (b ∷ x) ∙ ap (onto t) (closing d x))
    ∙ ap (λ l. (a ∷ l, (split_value false d x).1))
        (sym (append_assoc t (b ∷ []) (split_value false d x).0))
  where
    opening :
        (d : ℕ) (y : List ℕ) → split_value false d (a ∷ y) ≡ push a (split_value false (suc d) y)
    opening zero y = unfold split_value in ground (arith, o)
    opening (suc d) y = unfold split_value in ground (arith, o)

    closing :
        (d : ℕ) (y : List ℕ) → split_value false (suc d) (b ∷ y) ≡ push b (split_value false d y)
    closing d y = unfold split_value in ground (arith, c)

pub Inner-comma_before : (first : Bool) → Inner (comma_before first)
unfolding comma_before split_value
Inner-comma_before true d x = refl
Inner-comma_before false d x = refl

abbrev pub AllPass : List (String × List ℕ) → Type 0
AllPass fs = All (λ f. Passes f.1) fs

AllPass-insert_field :
    (k : String) (v : List ℕ) (fs : List (String × List ℕ))
    → Passes v
    → AllPass fs
    → AllPass (insert_field k v fs)
unfolding insert_field
AllPass-insert_field k v [] p h = (p, tt)
AllPass-insert_field k v ((j, w) ∷ fs) p (g, h) = elim (Bool-cases (str_le k j)) [
  | inl before ↦ rw before (p, (g, h))
  | inr behind ↦ rw behind (g, AllPass-insert_field k v fs p h)
]

pub Inner-join_fields :
    (first : Bool) (fs : List (String × List ℕ)) → AllPass fs → Inner (join_fields first fs)
unfolding join_fields
Inner-join_fields first [] h d = λ x. refl
Inner-join_fields first ((k, v) ∷ fs) (p, h) d =
    PassesAt-append (suc d) (comma_before first) (quote k ++ (b':' ∷ v ++ join_fields false fs))
      (Inner-comma_before first d)
      (PassesAt-append (suc d) (quote k) (b':' ∷ v ++ join_fields false fs) (Passes-quote k (suc d))
        (PassesAt-append (suc d) (b':' ∷ []) (v ++ join_fields false fs)
          (PassesAt-plain (suc d) b':' refl)
          (PassesAt-append (suc d) v (join_fields false fs) (p (suc d))
            (Inner-join_fields false fs h d))))

pub null_text : Passes (codes "null")
unfolding split_value
null_text zero x = refl
null_text (suc d) x = refl

pub bool_text : (b : Bool) → Passes (dump_bool b)
unfolding split_value dump_bool
bool_text true zero x = refl
bool_text true (suc d) x = refl
bool_text false zero x = refl
bool_text false (suc d) x = refl

-- A text that ends at once.
abbrev pub Stops : List ℕ → Type 0
Stops x = split_value false 0 x ≡ ([], x)

whole : (t x : List ℕ) → Passes t → Stops x → split_value false 0 (t ++ x) ≡ (t, x)
whole t x p s = p 0 x ∙ ap (onto t) s ∙ ap (λ l. (l, x)) (append-nil t)

-- Where two texts agree, so do the values in front of them and what follows.
pub cut :
    (t u x y : List ℕ)
    → Passes t
    → Passes u
    → Stops x
    → Stops y
    → t ++ x ≡ u ++ y
    → (t ≡ u) × (x ≡ y)
cut t u x y p q s r e =
    let same = sym (whole t x p s) ∙ ap (split_value false 0) e ∙ whole u y q r in
    (ap (λ w. w.0) same, ap (λ w. w.1) same)
