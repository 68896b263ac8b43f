-- ===== src/Prelude/Json/Escape.antt =====
-- A string is read back from its JSON text.
use text.Mathlib.TextEquality.{Char-path}
use growth_operator.Prelude.{
  ℕ, ◌+◌, ◌-◌, ◌*◌, String, ◌≡◌, refl, List, [], ◌∷◌, ◌++◌, ltb, ◌==◌, if◌then◌else◌, codes, arith,
  ap, ◌∙◌, sym,
}
use mathlib.Core.List.{append_assoc}
use growth_operator.Prelude.Json.{hex_digit, escape, escape_all, quote}

pub codes-injective : (s t : String) → codes s ≡ codes t → s ≡ t
codes-injective String.[] String.[] h = refl
codes-injective String.[] (String.◌∷◌ d t) h = cc
codes-injective (String.◌∷◌ c s) String.[] h = cc
codes-injective (String.◌∷◌ c s) (String.◌∷◌ d t) h =
    let tail : List ℕ → List ℕ = elim [ [] ↦ [] | x ∷ xs ↦ xs ] in
    let head : List ℕ → ℕ = elim [ [] ↦ 0 | x ∷ xs ↦ x ] in
    cc (Char-path c d (ap head h), codes-injective s t (ap tail h))

hex_value : ℕ → ℕ
hex_value h = if ltb h 58 then h - 48 else h - 87

after_hex : List ℕ → ℕ × List ℕ
unfolding hex_value
after_hex (a ∷ b ∷ h ∷ l ∷ s) = (hex_value h * 16 + hex_value l, s)
after_hex _ = (0, [])

-- The character at the front of the text of a string, and the rest.
read_char : List ℕ → ℕ × List ℕ
unfolding after_hex
read_char [] = (0, [])
read_char (c ∷ []) = (c, [])
read_char (c ∷ k ∷ s) =
    if c == 92
    then if k == b'n'
      then (10, s)
      else if k == b'r'
      then (13, s)
      else if k == b't'
      then (9, s)
      else if k == b'f'
      then (12, s)
      else if k == b'b'
      then (8, s)
      else if k == b'u'
      then after_hex s
      else (k, s)
    else (c, k ∷ s)

read_char-escape : (c : ℕ) (s : List ℕ) → read_char (escape c ++ s) ≡ (c, s)
unfolding read_char escape hex_digit after_hex hex_value
read_char-escape c [] = ground arith
read_char-escape c (k ∷ s) = ground arith

quote_char : (c : ℕ) (s u : List ℕ) → escape c ++ s ≡ 34 ∷ u → ⊥
unfolding escape
quote_char c s u e =
    let head : List ℕ → ℕ = elim [ [] ↦ 0 | x ∷ xs ↦ x ] in ground (arith, ap head e)

-- Where two texts agree, so do the strings in front of them and what follows.
escape_all-cut :
    (s t x y : List ℕ) → escape_all s ++ 34 ∷ x ≡ escape_all t ++ 34 ∷ y → (s ≡ t) × (x ≡ y)
unfolding escape_all
escape_all-cut [] [] x y e =
    let tail : List ℕ → List ℕ = elim [ [] ↦ [] | z ∷ zs ↦ zs ] in (refl, ap tail e)
escape_all-cut [] (d ∷ t) x y e = absurd (
    quote_char d (escape_all t ++ 34 ∷ y) x
      (sym (e ∙ append_assoc (escape d) (escape_all t) (34 ∷ y))))
escape_all-cut (c ∷ s) [] x y e = absurd (
    quote_char c (escape_all s ++ 34 ∷ x) y
      (sym (append_assoc (escape c) (escape_all s) (34 ∷ x)) ∙ e))
escape_all-cut (c ∷ s) (d ∷ t) x y e =
    let e' =
      sym (append_assoc (escape c) (escape_all s) (34 ∷ x))
      ∙ e
      ∙ append_assoc (escape d) (escape_all t) (34 ∷ y) in
    let same =
      sym (read_char-escape c (escape_all s ++ 34 ∷ x))
      ∙ ap read_char e'
      ∙ read_char-escape d (escape_all t ++ 34 ∷ y) in
    let (rest, after) = escape_all-cut s t x y (ap (λ w. w.1) same) in
    (cc (ap (λ w. w.0) same, rest), after)

pub quote-cut : (s t : String) (x y : List ℕ) → quote s ++ x ≡ quote t ++ y → (s ≡ t) × (x ≡ y)
unfolding quote
quote-cut s t x y e =
    let tail : List ℕ → List ℕ = elim [ [] ↦ [] | z ∷ zs ↦ zs ] in
    let e' =
      sym (append_assoc (escape_all (codes s)) (34 ∷ []) x)
      ∙ ap tail e
      ∙ append_assoc (escape_all (codes t)) (34 ∷ []) y in
    let (same, after) = escape_all-cut (codes s) (codes t) x y e' in
    (codes-injective s t same, after)
