-- ===== src/Prelude/Order/Max.antt =====
-- `max(xs, key=...)`, which keeps the first of the greatest: it is the greatest, and the order of
-- the list does not matter where the key tells the elements apart.
use mathlib.Core.Logic.Or
use mathlib.Core.List.{Mem, Mem-prop, Perm, mem-cons, mem-cons_self, mem-cons_of_mem, not-mem-nil}
use mathlib.Core.List.Perm
use mathlib.Core.Bool
use growth_operator.Prelude.{◌≡◌, Bool, true, List, [], ◌∷◌, if◌then◌else◌, Bool-cases, inl, inr}
use growth_operator.Prelude.Order.Defs.{TotalOrder}

module _ {ℓ κ} {A : Type ℓ} {K : Type κ} ⦃o : TotalOrder K⦄ (key : A → K) where
  unfoldable pub max_from : A → List A → A
  max_from best [] = best
  max_from best (x ∷ xs) = max_from (if o.le (key x) (key best) then best else x) xs

  le_refl : (k : K) → o.le k k ≡ true
  le_refl k = elim (Bool-cases (o.le k k)) [ inl e ↦ e | inr e ↦ o.total k k e ]

  abbrev better : A → A → A
  better x best = if o.le (key x) (key best) then best else x

  le-better : (x best : A) → o.le (key best) (key (better x best)) ≡ true
  le-better x best = elim (Bool-cases (o.le (key x) (key best))) [
    | inl e ↦ rw e (le_refl (key best))
    | inr e ↦ rw e (o.total _ _ e)
  ]

  le-better_new : (x best : A) → o.le (key x) (key (better x best)) ≡ true
  le-better_new x best = elim (Bool-cases (o.le (key x) (key best))) [
    | inl e ↦ rw e e
    | inr e ↦ rw e (le_refl (key x))
  ]

  mem-better : (x best : A) (xs : List A) → Mem (better x best) (best ∷ x ∷ xs)
  mem-better x best xs = elim (Bool-cases (o.le (key x) (key best))) [
    | inl e ↦ rw e mem-cons_self
    | inr e ↦ rw e (mem-cons_of_mem best mem-cons_self)
  ]

  start-le-max : (best : A) (xs : List A) → o.le (key best) (key (max_from best xs)) ≡ true
  unfolding max_from
  start-le-max best [] = le_refl (key best)
  start-le-max best (x ∷ xs) =
      o.transitive _ _ _ (le-better x best) (start-le-max (better x best) xs)

  bool_prop : (b c : Bool) → IsProp (b ≡ c)
  bool_prop b c = Bool.Bool-set b c

  pub mem-le-max :
      (best : A) (xs : List A) (a : A)
      → Mem a (best ∷ xs)
      → o.le (key a) (key (max_from best xs)) ≡ true
  unfolding max_from
  mem-le-max best [] a m =
      Or.elim (bool_prop _ _) (mem-cons.0 m) (λ e. rw e (le_refl (key best)))
        (λ n. absurd (not-mem-nil n))
  mem-le-max best (x ∷ xs) a m =
      Or.elim (bool_prop _ _) (mem-cons.0 m) (λ e. rw e (start-le-max best (x ∷ xs)))
        λ n.
          Or.elim (bool_prop _ _) (mem-cons.0 n)
            (λ e. rw e (
              o.transitive _ _ _ (le-better_new x best)
                (mem-le-max (better x best) xs (better x best) mem-cons_self)))
            (λ k. mem-le-max (better x best) xs a (mem-cons_of_mem _ k))

  weaken : (x best a : A) (xs : List A) → Mem a (better x best ∷ xs) → Mem a (best ∷ x ∷ xs)
  weaken x best a xs m =
      Or.elim Mem-prop (mem-cons.0 m) (λ e. rw e (mem-better x best xs))
        (λ n. mem-cons_of_mem best (mem-cons_of_mem x n))

  pub mem-max_from : (best : A) (xs : List A) → Mem (max_from best xs) (best ∷ xs)
  unfolding max_from
  mem-max_from best [] = mem-cons_self
  mem-max_from best (x ∷ xs) = weaken x best _ xs (mem-max_from (better x best) xs)

  pub max_from-perm :
      (a b : A) (xs ys : List A)
      → ((c d : A) → Mem c (a ∷ xs) → Mem d (a ∷ xs) → key c ≡ key d → c ≡ d)
      → Perm (a ∷ xs) (b ∷ ys)
      → max_from a xs ≡ max_from b ys
  max_from-perm a b xs ys apart p =
      let back = (Perm.mem_iff p).1 (mem-max_from b ys) in
      apart _ _ (mem-max_from a xs) back (
        o.antisymmetric _ _ (mem-le-max b ys _ ((Perm.mem_iff p).0 (mem-max_from a xs)))
          (mem-le-max a xs _ back))
