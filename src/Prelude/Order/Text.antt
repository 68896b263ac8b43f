-- ===== src/Prelude/Order/Text.antt =====
-- Python's order of `str` and of pairs of a number and a text.
use Prim.Native.Nat.{Ordering, compare as compare_ℕ}
use Prim.Native.Char.{Char, code}
use Prim.Native.String.{[], ◌∷◌, compare, then as chain}
use Prim.Native.String.compare
use text.Mathlib.TextEquality.{path_by_compare}
use growth_operator.Prelude.{
  ℕ, String, ◌≡◌, refl, Bool, true, false, arith, if◌then◌else◌, ltb, ◌==◌, str_le,
}
use growth_operator.Prelude.Order.Defs.{TotalOrder}

abbrev is_le : Ordering → Bool
is_le Ordering.gt = false
is_le _ = true

chain_total :
    (m n : ℕ) (o p : Ordering)
    → (is_le o ≡ false → is_le p ≡ true)
    → is_le (chain (compare_ℕ m n) o) ≡ false
    → is_le (chain (compare_ℕ n m) p) ≡ true
chain_total m n o p ih h = ground arith

chain_trans :
    (l m n : ℕ) (o p q : Ordering)
    → (is_le o ≡ true → is_le p ≡ true → is_le q ≡ true)
    → is_le (chain (compare_ℕ l m) o) ≡ true
    → is_le (chain (compare_ℕ m n) p) ≡ true
    → is_le (chain (compare_ℕ l n) q) ≡ true
chain_trans l m n o p q ih h k = ground arith

chain_antisym :
    (m n : ℕ) (o p : Ordering)
    → (is_le o ≡ true → is_le p ≡ true → o ≡ Ordering.eq)
    → is_le (chain (compare_ℕ m n) o) ≡ true
    → is_le (chain (compare_ℕ n m) p) ≡ true
    → chain (compare_ℕ m n) o ≡ Ordering.eq
chain_antisym m n o p ih h k = ground arith

abbrev le : String → String → Bool
le s t = is_le (compare s t)

compare-cons :
    (c d : Char) (s t : String)
    → compare (c ∷ s) (d ∷ t) ≡ chain (compare_ℕ (code c) (code d)) (compare s t)
compare-cons c d s t = λ i. compare.cons-cons c d s t i

compare-nil : (d : Char) (t : String) → compare [] (d ∷ t) ≡ Ordering.lt
compare-nil d t = λ i. compare.nil-cons d t i

compare_nil : (d : Char) (t : String) → compare (d ∷ t) [] ≡ Ordering.gt
compare_nil d t = λ i. compare.cons-nil d t i

pub text_total : (s t : String) → le s t ≡ false → le t s ≡ true
text_total [] [] h = refl
text_total [] (d ∷ t) h = cc (compare-nil d t)
text_total (c ∷ s) [] h = rw compare-nil
text_total (c ∷ s) (d ∷ t) h = rw compare-cons (
    chain_total (code c) (code d) (compare s t) (compare t s) (text_total s t)
      (rw compare-cons at h))

pub text_trans : (s t u : String) → le s t ≡ true → le t u ≡ true → le s u ≡ true
text_trans [] t [] h k = refl
text_trans [] t (e ∷ u) h k = rw compare-nil
text_trans (c ∷ s) [] u h k = cc (compare_nil c s)
text_trans (c ∷ s) (d ∷ t) [] h k = cc (compare_nil d t)
text_trans (c ∷ s) (d ∷ t) (e ∷ u) h k = rw compare-cons (
    chain_trans (code c) (code d) (code e) (compare s t) (compare t u) (compare s u)
      (text_trans s t u) (rw compare-cons at h) (rw compare-cons at k))

compare-eq : (s t : String) → le s t ≡ true → le t s ≡ true → compare s t ≡ Ordering.eq
compare-eq [] [] h k = refl
compare-eq [] (d ∷ t) h k = cc (compare_nil d t)
compare-eq (c ∷ s) [] h k = cc (compare_nil c s)
compare-eq (c ∷ s) (d ∷ t) h k = rw compare-cons (
    chain_antisym (code c) (code d) (compare s t) (compare t s) (compare-eq s t)
      (rw compare-cons at h) (rw compare-cons at k))

pub text_antisym : (s t : String) → str_le s t ≡ true → str_le t s ≡ true → s ≡ t
text_antisym s t h k = path_by_compare s t (compare-eq s t h k)

instance abbrev pub text_order : TotalOrder String
text_order = record {
  le = str_le;
  total = text_total;
  transitive = text_trans;
  antisymmetric = text_antisym;
}

-- `(m, s) <= (n, t)`
abbrev pub pair_le : ℕ × String → ℕ × String → Bool
pair_le (m, s) (n, t) = if ltb m n then true else if m == n then str_le s t else false

pub pair_total : (a b : ℕ × String) → pair_le a b ≡ false → pair_le b a ≡ true
pair_total (m, s) (n, t) h = ground (arith, text_total s t)

pub pair_trans : (a b c : ℕ × String) → pair_le a b ≡ true → pair_le b c ≡ true → pair_le a c ≡ true
pair_trans (l, s) (m, t) (n, u) h k = ground (arith, text_trans s t u)

pub pair_antisym : (a b : ℕ × String) → pair_le a b ≡ true → pair_le b a ≡ true → a ≡ b
pair_antisym (m, s) (n, t) h k = ground (arith, text_antisym s t)

instance abbrev pub pair_order : TotalOrder (ℕ × String)
pair_order = record {
  le = pair_le;
  total = pair_total;
  transitive = pair_trans;
  antisymmetric = pair_antisym;
}
