-- ===== src/Tenancy/Resolver/Prune.antt =====
-- The passes over the dependencies of core/tenancy/entitlements.py, and what is left after them.
use mathlib.Core.Path.{subst}
use growth_operator.Tenancy.Entitlements.{Entitlement, keys_of, is_supported, prune}
use growth_operator.Prelude.{
  ℕ, ◌≡◌, inl, ◌∷◌, inr, Bool, List, filter, Bool-cases, suc, String, zero, refl, All, Option, ◌<◌,
  none, some, is_some, true, length-filter-le, arith, any, length, [], false, sym, if◌then◌else◌,
  not, contains, ◌∙◌, ap,
}

pub any-All :
    (bad : Entitlement → Option String) (s : List Entitlement)
    → any (λ g. is_some (bad g)) s ≡ false
    → All (λ g. bad g ≡ none) s
any-All bad [] h = tt
any-All bad (g ∷ s) h = (nothing (bad g) (ground (arith, h)), any-All bad s (ground (arith, h)))
  where
    nothing : (o : Option String) → is_some o ≡ false → o ≡ none
    nothing none h = refl
    nothing (some x) h = cc

pub length-filter-lt :
    (bad : Entitlement → Option String) (s : List Entitlement)
    → any (λ g. is_some (bad g)) s ≡ true
    → length (filter (is_supported bad) s) < length s
length-filter-lt bad [] h = absurd (ground (arith, h))
length-filter-lt bad (g ∷ s) h =
    ground (arith, h, length-filter-lt bad s, length-filter-le (is_supported bad) s)

All-filter :
    (P : Entitlement → Type 0) (p : Entitlement → Bool) (s : List Entitlement)
    → All P s
    → All P (filter p s)
All-filter P p [] h = tt
All-filter P p (g ∷ s) (h, hs) = elim (Bool-cases (p g)) [
  | inl keep ↦ rw keep (h, All-filter P p s hs)
  | inr drop ↦ rw drop (All-filter P p s hs)
]

filter-filter :
    (kept ok : Entitlement → Bool) (s : List Entitlement)
    → All (λ g. kept g ≡ true → ok g ≡ true) s
    → filter kept (filter ok s) ≡ filter kept s
filter-filter kept ok [] h = refl
filter-filter kept ok (g ∷ s) (h, hs) = ground (arith, h, filter-filter kept ok s hs)

module _ (missing : List String → Entitlement → Option String) where
  pub prune-closed :
      (fuel : ℕ) (s : List Entitlement)
      → length s < fuel
      → let r = (prune fuel missing s).0 in All (λ g. missing (keys_of r) g ≡ none) r
  unfolding prune
  prune-closed zero s h = absurd (omega (arith, h))
  prune-closed (suc fuel) s h = elim (Bool-cases (any (λ g. is_some (missing (keys_of s) g)) s)) [
    | inl bad ↦
        rw (prune, bad)
          (prune-closed fuel (filter (is_supported (missing (keys_of s))) s)
            (omega (arith, h, length-filter-lt (missing (keys_of s)) s bad)))
    | inr fine ↦ rw (prune, fine) (any-All (missing (keys_of s)) s fine)
  ]

  -- What survives is among what was there.
  pub prune-All :
      (P : Entitlement → Type 0) (fuel : ℕ) (s : List Entitlement)
      → All P s
      → All P (prune fuel missing s).0
  unfolding prune
  prune-All P zero s h = h
  prune-All P (suc fuel) s h = elim (Bool-cases (any (λ g. is_some (missing (keys_of s) g)) s)) [
    | inl bad ↦
        rw (prune, bad)
          (prune-All P fuel (filter (is_supported (missing (keys_of s))) s)
            (All-filter P (is_supported (missing (keys_of s))) s h))
    | inr fine ↦ rw (prune, fine) h
  ]

-- Each text of the one is in the other.
abbrev pub Among : List String → List String → Type 0
Among ks ls = (k : String) → contains k ks ≡ true → contains k ls ≡ true

keys-filter-Among :
    (p : Entitlement → Bool) (s : List Entitlement) → Among (keys_of (filter p s)) (keys_of s)
keys-filter-Among p [] k h = h
keys-filter-Among p (g ∷ s) k h = elim (Bool-cases (p g)) [
  | inl keep ↦
      let h' =
        subst (λ (b : Bool). contains k (keys_of (if b then g ∷ filter p s else filter p s)) ≡ true)
          keep h in
      ground (arith, h', keys-filter-Among p s k)
  | inr drop ↦
      let h' =
        subst (λ (b : Bool). contains k (keys_of (if b then g ∷ filter p s else filter p s)) ≡ true)
          drop h in
      ground (arith, keys-filter-Among p s k h')
]

-- The kept grants support each other.
abbrev pub Supports :
    (List String → Entitlement → Option String) → (Entitlement → Bool) → List Entitlement → Type 0
Supports missing kept s = All (λ g. kept g ≡ true → missing (keys_of (filter kept s)) g ≡ none) s

module _ (missing : List String → Entitlement → Option String)
    (grows : (ks ls : List String) (g : Entitlement)
      → Among ks ls
      → missing ks g ≡ none
      → missing ls g ≡ none)
    (kept : Entitlement → Bool) where
  ok-All :
      (ks : List String) (s : List Entitlement)
      → All (λ g. kept g ≡ true → missing ks g ≡ none) s
      → All (λ g. kept g ≡ true → is_supported (missing ks) g ≡ true) s
  ok-All ks [] h = tt
  ok-All ks (g ∷ s) (h, hs) = (λ k. ap (λ o. not (is_some o)) (h k), ok-All ks s hs)

  All-grow :
      (ks ls : List String) (s : List Entitlement)
      → Among ks ls
      → All (λ g. kept g ≡ true → missing ks g ≡ none) s
      → All (λ g. kept g ≡ true → missing ls g ≡ none) s
  All-grow ks ls [] sub h = tt
  All-grow ks ls (g ∷ s) sub (h, hs) = (λ k. grows ks ls g sub (h k), All-grow ks ls s sub hs)

  pub prune-greatest :
      (fuel : ℕ) (s : List Entitlement)
      → Supports missing kept s
      → filter kept (prune fuel missing s).0 ≡ filter kept s
  unfolding prune
  prune-greatest zero s h = refl
  prune-greatest (suc fuel) s h = elim (Bool-cases (any (λ g. is_some (missing (keys_of s) g)) s)) [
    | inr fine ↦ rw (prune, fine) refl
    | inl bad ↦
        let ok = is_supported (missing (keys_of s)) in
        let same = filter-filter kept ok s (
          ok-All (keys_of s) s
            (All-grow (keys_of (filter kept s)) (keys_of s) s (keys-filter-Among kept s) h)) in
        let next : Supports missing kept (filter ok s) =
          subst
            (λ (l : List Entitlement).
              All (λ g. kept g ≡ true → missing (keys_of l) g ≡ none) (filter ok s))
            (sym same)
            (All-filter (λ g. kept g ≡ true → missing (keys_of (filter kept s)) g ≡ none) ok s h) in
        rw (prune, bad) (prune-greatest fuel (filter ok s) next ∙ same)
  ]
