-- ===== src/Prelude/Counts.antt =====
-- How many elements pass a test, after an update of some and after a new one.
use growth_operator.Prelude.{
  Bool, true, false, List, [], ◌∷◌, ◌++◌, some, suc, ◌≤◌, ◌≡◌, refl, length, filter, any, find?,
  update_where, arith, ap, Bool-cases, inl, inr,
}

module _ {ℓ} {A : Type ℓ} where
  pub filter-update_le :
      (p live : A → Bool) (f : A → A) (xs : List A)
      → ((x : A) → live (f x) ≡ true → live x ≡ true)
      → length (filter live (update_where p f xs)) ≤ length (filter live xs)
  filter-update_le p live f [] h = omega arith
  filter-update_le p live f (x ∷ xs) h = ground (arith, filter-update_le p live f xs h, h x)

  -- One live row is live no more.
  pub filter-update_lt :
      (p q live : A → Bool) (f : A → A) (xs : List A) (r : A)
      → ((x : A) → live (f x) ≡ true → live x ≡ true)
      → find? p xs ≡ some r
      → q r ≡ true
      → live r ≡ true
      → live (f r) ≡ false
      → suc (length (filter live (update_where q f xs))) ≤ length (filter live xs)
  filter-update_lt p q live f [] r h at k on off = absurd (ground (arith, at))
  filter-update_lt p q live f (x ∷ xs) r h at k on off = elim (Bool-cases (p x)) [
    | inl here_it ↦
        let same : some x ≡ some r = ground (arith, at, here_it) in
        let e : x ≡ r = some-injective same in
        ground (
          arith,
          k,
          ap q e,
          ap live e,
          ap (λ y. live (f y)) e,
          filter-update_le q live f xs h,
          on,
          off,
        )
    | inr later ↦
        ground (
          arith,
          later,
          filter-update_lt p q live f xs r h (ground (arith, at, later)) k on off,
          h x,
        )
  ]
    where
      some-injective : {a b : A} → some a ≡ some b → a ≡ b
      some-injective e = cc

  pub filter-append_le :
      (live : A → Bool) (xs : List A) (y : A)
      → length (filter live (xs ++ y ∷ [])) ≤ suc (length (filter live xs))
  filter-append_le live [] y = ground arith
  filter-append_le live (x ∷ xs) y = ground (arith, filter-append_le live xs y)

  pub filter-append_eq :
      (live : A → Bool) (xs : List A) (y : A)
      → live y ≡ false
      → length (filter live (xs ++ y ∷ [])) ≡ length (filter live xs)
  filter-append_eq live [] y h = ground (arith, h)
  filter-append_eq live (x ∷ xs) y h = ground (arith, filter-append_eq live xs y h)

  pub filter-none : (p : A → Bool) (xs : List A) → any p xs ≡ false → length (filter p xs) ≡ 0
  filter-none p [] h = refl
  filter-none p (x ∷ xs) h = ground (arith, h, filter-none p xs)

  -- The rows that pass are changed to rows that do not.
  pub filter-update_none :
      (live : A → Bool) (f : A → A) (xs : List A)
      → ((x : A) → live x ≡ true → live (f x) ≡ false)
      → length (filter live (update_where live f xs)) ≡ 0
  filter-update_none live f [] h = refl
  filter-update_none live f (x ∷ xs) h = ground (arith, filter-update_none live f xs h, h x)
