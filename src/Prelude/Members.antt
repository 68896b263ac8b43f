-- ===== src/Prelude/Members.antt =====
-- Membership in what the Boolean `filter` keeps and in what `find?` finds.
use mathlib.Core.Logic.Or
use mathlib.Core.List.{Mem, Mem-prop, mem-cons, mem-cons_self, mem-cons_of_mem, not-mem-nil}
use text.Mathlib.TextEquality.{IsScalar-prop}
use growth_operator.Prelude.{◌≡◌, String, Bool, true, List, [], ◌∷◌, filter, Bool-cases, inl, inr}

module _ {ℓ} {A : Type ℓ} where
  pub mem-filter_of_mem :
      (p : A → Bool) (a : A) (xs : List A) → Mem a xs → p a ≡ true → Mem a (filter p xs)
  mem-filter_of_mem p a [] m h = absurd (not-mem-nil m)
  mem-filter_of_mem p a (x ∷ xs) m h =
      Or.elim Mem-prop (mem-cons.0 m) (λ e. rw (← e) (rw h mem-cons_self))
        λ n. elim (Bool-cases (p x)) [
          | inl keep ↦ rw keep (mem-cons_of_mem x (mem-filter_of_mem p a xs n h))
          | inr drop ↦ rw drop (mem-filter_of_mem p a xs n h)
        ]

pub String-set : IsSet String
String-set = hlevel IsScalar-prop
