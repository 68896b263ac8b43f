-- ===== src/Tenancy/Resolver/Authority.antt =====
-- The authority of an agent at the moment that it runs.
use mathlib.Core.Path.{subst}
use growth_operator.Tenancy.Entitlements.{Catalog, Context}
use growth_operator.Tenancy.Resolver.{
  Effective, Subscriber, resolve, is_entitled, Instance, WorkerGrant, Executable, foreign_instance,
  archetype_not_in_plan, capability_not_in_plan, not_operational, executable, covers, operational,
  assert_agent_executable,
}
use growth_operator.Prelude.{
  ◌||◌, String, inr, true, ◌≡◌, str_eq, if◌then◌else◌, ◌⊎◌, inl, none, contains, Bool, ℕ, not,
  Bool-cases, some, Option, ap, [], arith, refl, ◌==◌,
}

-- What stands for an instance's archetype: the plan, or a grant for it whose capability is held.
abbrev pub IsCovered : Effective → String → Option WorkerGrant → Type 0
IsCovered e slug none = contains slug e.agents ≡ true
IsCovered e slug (some worker) =
    (contains slug e.agents ≡ true)
    ⊎ ((str_eq worker.archetype slug ≡ true) × (is_entitled e worker.capability ≡ true))

abbrev pub IsExecutable : Executable → Type 0
IsExecutable (executable slug) = Unit
IsExecutable _ = ⊥

operational_sound :
    (i : Instance) (x : Executable)
    → IsExecutable (operational i x)
    → IsExecutable x
      × (str_eq i.instance_status "active" || str_eq i.instance_status "shadow" ≡ true)
unfolding operational
operational_sound i foreign_instance h = absurd h
operational_sound i archetype_not_in_plan h = absurd h
operational_sound i capability_not_in_plan h = absurd h
operational_sound i not_operational h = absurd h
operational_sound i (executable slug) h =
    elim (Bool-cases (str_eq i.instance_status "active" || str_eq i.instance_status "shadow")) [
      | inl runs ↦ (tt, runs)
      | inr stopped ↦ absurd (
          subst (λ (b : Bool). IsExecutable (if b then executable slug else not_operational))
            stopped h)
    ]

covers_sound :
    (e : Effective) (slug : String) (worker : Option WorkerGrant)
    → IsExecutable (covers e slug worker)
    → IsCovered e slug worker
unfolding covers
covers_sound e slug none h = absurd h
covers_sound e slug (some w) h = elim (Bool-cases (str_eq w.archetype slug)) [
  | inr other ↦ absurd (
      subst
        (λ (b : Bool). IsExecutable (
          if not b
          then archetype_not_in_plan
          else if is_entitled e w.capability
          then executable slug
          else capability_not_in_plan))
        other h)
  | inl same ↦ elim (Bool-cases (is_entitled e w.capability)) [
    | inl held ↦ inr (same, held)
    | inr lost ↦ absurd (
        subst (λ (b : Bool). IsExecutable (if b then executable slug else capability_not_in_plan))
          lost
          (subst
            (λ (b : Bool). IsExecutable (
              if not b
              then archetype_not_in_plan
              else if is_entitled e w.capability
              then executable slug
              else capability_not_in_plan))
            same h))
  ]
]

from_plan :
    (e : Effective) (slug : String) (worker : Option WorkerGrant)
    → contains slug e.agents ≡ true
    → IsCovered e slug worker
from_plan e slug none h = h
from_plan e slug (some w) h = inl h

-- Where the instance is the store's own: what covers it.
IsCovered-sound :
    (e : Effective) (i : Instance) (worker : Option WorkerGrant)
    → IsExecutable (
        operational i
          (if contains i.slug e.agents then executable i.slug else covers e i.slug worker))
    → (str_eq i.instance_status "active" || str_eq i.instance_status "shadow" ≡ true)
      × IsCovered e i.slug worker
IsCovered-sound e i worker h =
    let (x, runs) =
      operational_sound i
        (if contains i.slug e.agents then executable i.slug else covers e i.slug worker) h in
    elim (Bool-cases (contains i.slug e.agents)) [
      | inl planned ↦ (runs, from_plan e i.slug worker planned)
      | inr unplanned ↦ (
        runs,
        covers_sound e i.slug worker (
            subst
              (λ (b : Bool). IsExecutable (if b then executable i.slug else covers e i.slug worker))
              unplanned x),
      )
    ]

owned_sound :
    (e : Effective) (org : ℕ) (i : Instance) (worker : Option WorkerGrant)
    → IsExecutable (assert_agent_executable e org (some i) worker)
    → (i.org_id ≡ org)
      × (str_eq i.instance_status "active" || str_eq i.instance_status "shadow" ≡ true)
      × IsCovered e i.slug worker
unfolding assert_agent_executable
owned_sound e org i worker h = elim (Bool-cases (i.org_id == org)) [
  | inl own ↦
      let (runs, covered) = IsCovered-sound e i worker (
        subst
          (λ (b : Bool). IsExecutable (
            if not b
            then foreign_instance
            else operational i
                (if contains i.slug e.agents then executable i.slug else covers e i.slug worker)))
          own h) in
      (ground (arith, own), runs, covered)
  | inr other ↦ absurd (
      subst
        (λ (b : Bool). IsExecutable (
          if not b
          then foreign_instance
          else operational i
              (if contains i.slug e.agents then executable i.slug else covers e i.slug worker)))
        other h)
]

nothing_covered :
    (e : Effective) (slug : String) (worker : Option WorkerGrant)
    → e.agents ≡ []
    → e.capabilities ≡ []
    → IsCovered e slug worker
    → ⊥
unfolding is_entitled
nothing_covered e slug none a c h = absurd (ground (arith, ap (contains slug) a, h))
nothing_covered e slug (some w) a c (inl h) = absurd (ground (arith, ap (contains slug) a, h))
nothing_covered e slug (some w) a c (inr (same, held)) =
    absurd (ground (arith, ap (contains w.capability) c, held))

-- An agent is executable only if its instance is the store's own, is active or a shadow, and is covered
-- by the entitlements of that moment: by an archetype of the plan, or by a worker's grant for exactly this
-- archetype whose capability the store holds. So no agent of a store without an active subscription is
-- executable.
pub executable_sound :
    (catalog : Catalog) (now : ℕ) (row : Subscriber) (ctx : Context) (org : ℕ) (i : Instance)
    (worker : Option WorkerGrant)
    → IsExecutable (assert_agent_executable (resolve catalog now row ctx) org (some i) worker)
    → (i.org_id ≡ org)
      × (str_eq i.instance_status "active" || str_eq i.instance_status "shadow" ≡ true)
      × IsCovered (resolve catalog now row ctx) i.slug worker
      × (row.plan ≡ none → ⊥)
unfolding resolve
executable_sound catalog now row ctx org i worker h =
    let e = resolve catalog now row ctx in
    let (own, runs, covered) = owned_sound e org i worker h in
    (
      own,
      runs,
      covered,
      λ lapsed.
          nothing_covered e i.slug worker (rw (resolve, lapsed) refl) (rw (resolve, lapsed) refl)
            covered,
    )
