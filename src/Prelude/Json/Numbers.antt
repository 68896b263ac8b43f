-- ===== src/Prelude/Json/Numbers.antt =====
-- A number is read back from its decimal text.
use growth_operator.Prelude.{
  ℕ, zero, suc, ◌+◌, ◌-◌, ◌*◌, ◌/◌, ◌%◌, ◌≡◌, refl, List, [], ◌∷◌, ◌++◌, ltb, arith, ◌∙◌, ◌<◌,
  Bool-cases, inl, inr, All, is_digit, true, ap, sym,
}
use growth_operator.Prelude.Json.{print_fuel, print_ℕ, print_ℤ, ℤ}
use growth_operator.Prelude.Int.{pos, negsuc, ℤ}

-- The number that digits spell behind `acc`.
abbrev pub number_of : ℕ → List ℕ → ℕ
number_of acc [] = acc
number_of acc (d ∷ ds) = number_of (acc * 10 + (d - 48)) ds

abbrev pub head_or : List ℕ → ℕ
head_or [] = 0
head_or (c ∷ s) = c

abbrev pub tail_of : List ℕ → List ℕ
tail_of [] = []
tail_of (c ∷ s) = s

number_of-append :
    (acc : ℕ) (ds : List ℕ) (d : ℕ)
    → number_of acc (ds ++ d ∷ []) ≡ number_of acc ds * 10 + (d - 48)
number_of-append acc [] d = refl
number_of-append acc (e ∷ ds) d = number_of-append (acc * 10 + (e - 48)) ds d

number_of-print_fuel : (fuel n : ℕ) → n < fuel → number_of 0 (print_fuel fuel n) ≡ n
unfolding print_fuel
number_of-print_fuel zero n h = absurd (omega (arith, h))
number_of-print_fuel (suc fuel) n h = elim (Bool-cases (ltb n 10)) [
  | inl small ↦ rw small (omega arith)
  | inr large ↦
      let large' : (n < 10 → ⊥) = λ lt. ground (arith, large, lt) in
      let front = number_of-print_fuel fuel (n / 10) (ground (arith, h, large)) in
      rw large (number_of-append 0 (print_fuel fuel (n / 10)) (48 + n % 10) ∙ omega (arith, front))
]

pub number_of-print_ℕ : (n : ℕ) → number_of 0 (print_ℕ n) ≡ n
unfolding print_ℕ
number_of-print_ℕ n = number_of-print_fuel (suc n) n (omega arith)

-- A text of digits, one at least.
abbrev pub IsNumeral : List ℕ → Type 0
IsNumeral s =
    (d : ℕ) × (ds : List ℕ) × (s ≡ d ∷ ds) × (is_digit d ≡ true) × All (λ c. is_digit c ≡ true) ds

digit : (k : ℕ) → k < 10 → is_digit (48 + k) ≡ true
digit k h = ground (arith, h)

All-last :
    (ds : List ℕ) (c : ℕ)
    → All (λ x. is_digit x ≡ true) ds
    → is_digit c ≡ true
    → All (λ x. is_digit x ≡ true) (ds ++ c ∷ [])
All-last [] c h k = (k, tt)
All-last (d ∷ ds) c (g, h) k = (g, All-last ds c h k)

IsNumeral-last : (s : List ℕ) (c : ℕ) → IsNumeral s → is_digit c ≡ true → IsNumeral (s ++ c ∷ [])
IsNumeral-last s c (d, ds, e, g, h) k =
    (d, ds ++ c ∷ [], ap (λ (l : List ℕ). l ++ c ∷ []) e, g, All-last ds c h k)

IsNumeral-print_fuel : (fuel n : ℕ) → n < fuel → IsNumeral (print_fuel fuel n)
unfolding print_fuel
IsNumeral-print_fuel zero n h = absurd (omega (arith, h))
IsNumeral-print_fuel (suc fuel) n h = elim (Bool-cases (ltb n 10)) [
  | inl small ↦ rw small (48 + n, [], refl, digit n (ground (arith, small)), tt)
  | inr large ↦ rw large (
      IsNumeral-last (print_fuel fuel (n / 10)) (48 + n % 10)
        (IsNumeral-print_fuel fuel (n / 10) (ground (arith, h, large)))
        (digit (n % 10) (omega arith)))
]

pub print_ℕ-IsNumeral : (n : ℕ) → IsNumeral (print_ℕ n)
unfolding print_ℕ
print_ℕ-IsNumeral n = IsNumeral-print_fuel (suc n) n (omega arith)

pub print_ℤ-injective : (a b : ℤ) → print_ℤ a ≡ print_ℤ b → a ≡ b
unfolding print_ℤ
print_ℤ-injective (pos m) (pos n) e =
    ap pos (sym (number_of-print_ℕ m) ∙ ap (number_of 0) e ∙ number_of-print_ℕ n)
print_ℤ-injective (pos m) (negsuc n) e =
    let (d, ds, same, g, h) = print_ℕ-IsNumeral m in
    absurd (ground (arith, ap head_or (sym same ∙ e), g))
print_ℤ-injective (negsuc m) (pos n) e =
    let (d, ds, same, g, h) = print_ℕ-IsNumeral n in
    absurd (ground (arith, ap head_or (sym same ∙ sym e), g))
print_ℤ-injective (negsuc m) (negsuc n) e =
    let digits = ap tail_of e in
    let same =
      sym (number_of-print_ℕ (suc m)) ∙ ap (number_of 0) digits ∙ number_of-print_ℕ (suc n) in
    ap negsuc (omega (arith, same))
