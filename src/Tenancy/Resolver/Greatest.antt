-- ===== src/Tenancy/Resolver/Greatest.antt =====
-- The dependencies of what a plan grants.
use Prim.Native.String.{◌++◌ as concat}
use growth_operator.Tenancy.Entitlements.{
  Entitlement, keys_of, is_supported, satisfied_by, Capability, decided_by, bare, names_dep,
  reason_by, dependency_satisfied, first_missing, missing_of, Catalog, by_key, PlanConfig, Context,
  not_grantable,
}
use growth_operator.Prelude.{
  ℕ, ◌≡◌, inl, ◌∷◌, inr, Bool, List, filter, suc, String, refl, All, Option, none, some, true,
  arith, any, length, [], false, sym, str_eq, if◌then◌else◌, contains, ◌∙◌, text_eq, Option-cases,
}
use growth_operator.Tenancy.Resolver.{
  compose, pruned, grantable, missing_in, selected_channels, bound_agents, all_candidates,
}
use growth_operator.Tenancy.Resolver.Prune.{
  Among, Supports, prune-closed, prune-All, prune-greatest,
}

-- A dependency that is satisfied stays so with more capabilities.
decided_by_grow :
    (a b c d channel agent x y : Bool) (gate : Option String)
    → (x ≡ true → y ≡ true)
    → decided_by a b c d channel agent x gate ≡ true
    → decided_by a b c d channel agent y gate ≡ true
unfolding decided_by
decided_by_grow true b c d channel agent x y gate f h = h
decided_by_grow false true c d channel agent x y gate f h = h
decided_by_grow false false true d channel agent x y gate f h = h
decided_by_grow false false false true channel agent x y gate f h = f h
decided_by_grow false false false false channel agent x y none f h = h
decided_by_grow false false false false channel agent x y (some gate) f h = h

satisfied_by_grow :
    (cap : Capability) (dep : String) (ks ls : List String) (channels : List (List ℕ))
    (agents : List String)
    → Among ks ls
    → satisfied_by cap dep ks channels agents ≡ true
    → satisfied_by cap dep ls channels agents ≡ true
unfolding satisfied_by
satisfied_by_grow cap dep ks ls channels agents sub h =
    decided_by_grow (str_eq cap.kind "channel") (str_eq cap.kind "agent") (str_eq cap.kind "limit")
      cap.runtime_grantable (any (text_eq (bare "channel." dep)) channels)
      (names_dep "agent." dep agents) (contains dep ks) (contains dep ls) cap.enforced_by (sub dep)
      h

if_none : (b : Bool) (reason : String) → (if b then none else some reason) ≡ none → b ≡ true
if_none true reason h = refl
if_none false reason h = cc

dependency_grow :
    (catalog : Catalog) (dep : String) (ks ls : List String) (channels : List (List ℕ))
    (agents : List String)
    → Among ks ls
    → dependency_satisfied catalog dep ks channels agents ≡ none
    → dependency_satisfied catalog dep ls channels agents ≡ none
unfolding dependency_satisfied
dependency_grow catalog dep ks ls channels agents sub h = elim (Option-cases (by_key catalog dep)) [
  | inl unknown ↦
      let e : dependency_satisfied catalog dep ks channels agents
          ≡ some (concat "unknown_dependency:" dep) =
        rw (dependency_satisfied, unknown) refl in
      absurd (ground (arith, e, h))
  | inr (cap, found) ↦
      let e : dependency_satisfied catalog dep ks channels agents
          ≡ (if satisfied_by cap dep ks channels agents then none else some (reason_by cap dep)) =
        rw (dependency_satisfied, found) refl in
      let ok =
        satisfied_by_grow cap dep ks ls channels agents sub
          (if_none (satisfied_by cap dep ks channels agents) (reason_by cap dep) (sym e ∙ h)) in
      rw (dependency_satisfied, found, ok) refl
]

first_missing_grow :
    (catalog : Catalog) (deps ks ls : List String) (channels : List (List ℕ)) (agents : List String)
    → Among ks ls
    → first_missing catalog deps ks channels agents ≡ none
    → first_missing catalog deps ls channels agents ≡ none
unfolding first_missing
first_missing_grow catalog [] ks ls channels agents sub h = refl
first_missing_grow catalog (dep ∷ deps) ks ls channels agents sub h =
    elim (Option-cases (dependency_satisfied catalog dep ks channels agents)) [
      | inl ok ↦
          let rest : first_missing catalog deps ks channels agents ≡ none =
            sym (rw (first_missing, ok) refl) ∙ h in
          rw (first_missing, dependency_grow catalog dep ks ls channels agents sub ok)
            (first_missing_grow catalog deps ks ls channels agents sub rest)
      | inr (reason, bad) ↦
          let e : first_missing catalog (dep ∷ deps) ks channels agents ≡ some reason =
            rw (first_missing, bad) refl in
          absurd (ground (arith, e, h))
    ]

missing_of_grow :
    (catalog : Catalog) (channels : List (List ℕ)) (agents ks ls : List String) (g : Entitlement)
    → Among ks ls
    → missing_of catalog channels agents ks g ≡ none
    → missing_of catalog channels agents ls g ≡ none
unfolding missing_of
missing_of_grow catalog channels agents ks ls g sub h = elim (Option-cases (by_key catalog g.key)) [
  | inl unknown ↦ rw (missing_of, unknown) refl
  | inr (cap, found) ↦
      let rest : first_missing catalog cap.depends_on ks channels agents ≡ none =
        sym (rw (missing_of, found) refl) ∙ h in
      rw (missing_of, found)
        (first_missing_grow catalog cap.depends_on ks ls channels agents sub rest)
]

All-not_grantable :
    (catalog : Catalog) (installed : List String) (s : List Entitlement)
    → All
        (λ g. not_grantable catalog installed g ≡ none)
        (filter (is_supported (not_grantable catalog installed)) s)
All-not_grantable catalog installed [] = tt
All-not_grantable catalog installed (g ∷ s) =
    elim (Option-cases (not_grantable catalog installed g)) [
      | inl fine ↦ rw fine (fine, All-not_grantable catalog installed s)
      | inr (reason, bad) ↦ rw bad (All-not_grantable catalog installed s)
    ]

-- Of the candidates that the catalog and the installed packs allow, the capabilities of a plan are the
-- greatest part that supports itself: each granted one is allowed by the catalog and the packs and has
-- every dependency satisfied by the channels, the agents and the capabilities of the result; and any part
-- of the allowed candidates whose dependencies that part satisfies, with the same channels and agents,
-- is granted whole.
pub compose-greatest :
    (catalog : Catalog) (now : ℕ) (config : PlanConfig) (features : List String) (ctx : Context)
    → let e = compose catalog now config features ctx in
      let granted = (pruned catalog now config features ctx).0 in
      let allowed = grantable catalog now config features ctx in
      (e.capabilities ≡ keys_of granted)
      × All (λ g. not_grantable catalog ctx.installed_packs g ≡ none) granted
      × All (λ g. missing_of catalog e.channels e.agents e.capabilities g ≡ none) granted
      × ((kept : Entitlement → Bool)
          → Supports (missing_of catalog e.channels e.agents) kept allowed
          → filter kept granted ≡ filter kept allowed)
unfolding compose pruned missing_in grantable
compose-greatest catalog now config features ctx =
    let allowed = grantable catalog now config features ctx in
    let missing =
      missing_of catalog (selected_channels catalog config features) (bound_agents config ctx) in
    (
      refl,
      prune-All missing (λ g. not_grantable catalog ctx.installed_packs g ≡ none)
          (suc (length allowed)) allowed
          (All-not_grantable catalog ctx.installed_packs
            (all_candidates catalog now config features)),
      prune-closed missing (suc (length allowed)) allowed (omega arith),
      λ kept supports.
          prune-greatest missing
            (missing_of_grow catalog (selected_channels catalog config features)
              (bound_agents config ctx))
            kept (suc (length allowed)) allowed supports,
    )
