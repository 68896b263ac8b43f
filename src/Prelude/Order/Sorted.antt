-- ===== src/Prelude/Order/Sorted.antt =====
-- `sorted(xs)`: the result does not depend on the order of the list.
use mathlib.Core.List.{Perm, foldr}
use mathlib.Core.List.Perm
use growth_operator.Prelude.{◌≡◌, true, List, [], ◌∷◌, arith, if◌then◌else◌, Bool-cases, inl, inr}
use growth_operator.Prelude.Order.Defs.{TotalOrder}

module _ {ℓ} {A : Type ℓ} ⦃o : TotalOrder A⦄ where
  unfoldable pub insert : A → List A → List A
  insert a [] = a ∷ []
  insert a (x ∷ xs) = let rest = insert a xs in if o.le a x then a ∷ x ∷ xs else x ∷ rest

  unfoldable pub sorted : List A → List A
  unfolding insert
  sorted = foldr insert []

  le_refl : (a : A) → o.le a a ≡ true
  le_refl a = elim (Bool-cases (o.le a a)) [ inl e ↦ e | inr e ↦ o.total a a e ]

  insert_comm : (a b : A) (xs : List A) → insert a (insert b xs) ≡ insert b (insert a xs)
  unfolding insert
  insert_comm a b [] = ground (arith, o.total a b, o.antisymmetric a b)
  insert_comm a b (x ∷ xs) = ground (
    arith,
    o.total a b,
    o.antisymmetric a b,
    o.total a x,
    o.total b x,
    o.transitive a b x,
    o.transitive b a x,
    o.transitive a x b,
    o.transitive b x a,
    insert_comm a b xs,
  )

  pub sorted-perm : IsSet A → {xs ys : List A} → Perm xs ys → sorted xs ≡ sorted ys
  unfolding sorted
  sorted-perm s p = Perm.foldr-eq (hlevel s) insert insert_comm p []
