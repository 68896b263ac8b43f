-- ===== src/Approvals/Tool/Raise.antt =====
-- The autonomy setting only raises the tier, and a tier-4 action of the platform stays there.
use native.Mathlib.Bridge.{le_prop}
use mathlib.Core.Logic.Or
use growth_operator.Prelude.Order.Max.{max_from}
use mathlib.Core.List.{
  mem-cons, mem-append, not-mem-nil, mem-append_left, mem-append_right, Mem, mem-append_left,
  mem-append_right, mem-cons_self, not-mem-nil, Mem-prop,
}
use growth_operator.Approvals.Engine.{
  Activation, Params, Decision, Cel, Rules, Contributor, plain, contributors, matched_ids,
  select_decision, core_contributors, is_core_tier4, never_autonomous_tier,
}
use growth_operator.Approvals.Engine.Tier.{
  select-is-a-tier, select_mono, tier_of, select-tier, mem-le-select, select_mono,
}
use growth_operator.Approvals.Tool.{
  Owner, CommunicationMode, Capability, capabilities_of, reactive, proactive, autonomy_floor,
  autonomy_review_tier, quiet_floor, pooled, tool_activation, with_floor, resolve_actions,
  evaluate_tool,
}
use growth_operator.Prelude.{
  ◌∷◌, ◌⊎◌, arith, ◌≡◌, List, some, inl, refl, inr, ℕ, [], ◌≤◌, ◌≢◌, String, max, ◌++◌,
  Option-cases, Option, Bool, true,
}

List-cases {ℓ} : {A : Type ℓ} (xs : List A) → (xs ≡ []) ⊎ (xs ≢ [])
List-cases [] = inl refl
List-cases (x ∷ xs) = inr (λ e. cc e)

quiet_floor-cases :
    (owner : Owner) (org : ℕ) (caps : List Capability) (mode : CommunicationMode) (floor : ℕ)
    → quiet_floor owner org caps mode ≡ some floor
    → (floor ≡ 0) ⊎ (floor ≡ autonomy_review_tier)
unfolding quiet_floor
quiet_floor-cases owner org caps reactive floor h = ground arith
quiet_floor-cases owner org caps proactive floor h = ground arith

-- The floor is 0 or the review tier.
autonomy_floor-cases :
    (owner : Owner) (org : ℕ) (tool : String) (params : Params) (mode : CommunicationMode)
    (floor : ℕ)
    → autonomy_floor owner org tool params mode ≡ some floor
    → (floor ≡ 0) ⊎ (floor ≡ autonomy_review_tier)
unfolding autonomy_floor
autonomy_floor-cases owner org tool params mode floor h =
    ground (
      arith,
      quiet_floor-cases owner org (capabilities_of (resolve_actions tool params)) mode floor,
    )

singleton_mem : (c d : Contributor) → Mem c (d ∷ []) → c.tier ≤ d.tier
singleton_mem c d m =
    Or.elim le_prop (mem-cons.0 m) (λ e. rw e (omega arith)) (λ n. absurd (not-mem-nil n))

append-ne-nil : (cs : List Contributor) (c : Contributor) → cs ++ c ∷ [] ≢ []
append-ne-nil [] c h = cc
append-ne-nil (d ∷ cs) c h = cc

-- One more contributor.
tier_of-append :
    (cs : List Contributor) (c : Contributor)
    → (c.tier ≤ tier_of (cs ++ c ∷ [])) × (tier_of (cs ++ c ∷ []) ≤ max (tier_of cs) c.tier)
tier_of-append cs c =
    let (w, m, e) = select-is-a-tier (cs ++ c ∷ []) [] (append-ne-nil cs c) in
    (
      mem-le-select c (cs ++ c ∷ []) [] (mem-append_right cs mem-cons_self),
      rw (← e) (
          Or.elim le_prop (mem-append.0 m)
            (λ old. let le = mem-le-select w cs [] old in omega arith)
            (λ new. let le = singleton_mem w c new in omega arith)),
    )

-- With the floor 0 or 2 the tier is the greater of the two, also where nothing else contributes.
tier_of-with_floor :
    (cs : List Contributor) (floor : ℕ)
    → (floor ≡ 0) ⊎ (floor ≡ autonomy_review_tier)
    → tier_of (with_floor floor cs) ≡ max (tier_of cs) floor
unfolding with_floor
tier_of-with_floor cs floor (inl off) = rw off (omega arith)
tier_of-with_floor [] floor (inr on) = rw on (unfold select_decision max_from plain in refl)
tier_of-with_floor (c ∷ cs) floor (inr on) =
    let p = plain autonomy_review_tier "autonomy" "hold" in
    let (low, high) = tier_of-append (c ∷ cs) p in
    let keep =
      select_mono (c ∷ cs) ((c ∷ cs) ++ p ∷ []) [] [] (λ e. cc e) (λ d m. mem-append_left _ m) in
    rw on (unfold plain in omega arith)

plain-tier : (tier : ℕ) (key on_timeout : String) → (plain tier key on_timeout).tier ≡ tier
unfolding plain
plain-tier tier key on_timeout = refl

mem-core-contributors :
    (cel : Cel) (rules : Rules) (org : ℕ) (action : String) (act : Activation) (now : ℕ)
    → is_core_tier4 action ≡ true
    → Mem
        (plain never_autonomous_tier "core:tier4" "cancel")
        (contributors cel rules org action act now)
unfolding contributors core_contributors
mem-core-contributors cel rules org action act now core = rw core mem-cons_self

module _ (cel : Cel) (rules : Rules) (owner : Owner) (org : ℕ) (actor : Option ℕ) (untrusted : Bool)
    (tool : String) (params : Params) (mode : CommunicationMode) (now : ℕ) where
  abbrev pub rule_pool : List Contributor
  rule_pool =
      pooled cel rules org (tool_activation org actor untrusted tool params) now
        (resolve_actions tool params)

  -- The tier of a tool call is the greater of the tier that the rules give to its actions and of
  -- the floor of the owner's autonomy setting, which is 0 or 2.
  pub evaluate_tool-is-max :
      (d : Decision)
      → evaluate_tool cel rules owner org actor untrusted tool params mode now ≡ some d
      → (floor : ℕ) × (autonomy_floor owner org tool params mode ≡ some floor)
        × ((floor ≡ 0) ⊎ (floor ≡ autonomy_review_tier))
        × (d.tier ≡ max (tier_of rule_pool) floor)
  unfolding evaluate_tool
  evaluate_tool-is-max d h = elim (Option-cases (autonomy_floor owner org tool params mode)) [
    | inl raised ↦ absurd (ground arith)
    | inr (floor, set) ↦
        let kind = autonomy_floor-cases owner org tool params mode floor set in
        (
          floor,
          set,
          kind,
          ground (
            arith,
            select-tier (with_floor floor rule_pool) (matched_ids (with_floor floor rule_pool)),
            tier_of-with_floor rule_pool floor kind,
          ),
        )
  ]

  mem-pooled :
      (c : Contributor) (a : String) (actions : List String)
      → Mem a actions
      → Mem c (contributors cel rules org a (tool_activation org actor untrusted tool params) now)
      → Mem c (pooled cel rules org (tool_activation org actor untrusted tool params) now actions)
  unfolding pooled
  mem-pooled c a [] m n = absurd (not-mem-nil m)
  mem-pooled c a (b ∷ actions) m n =
      Or.elim Mem-prop (mem-cons.0 m) (λ e. rw (← e) (mem-append_left _ n))
        (λ later. mem-append_right _ (mem-pooled c a actions later n))

  -- A tool call that governs an action of the platform's tier-4 list has tier 4 or more, whatever
  -- the stored rules, the settings and the parameters are.
  pub core-le-evaluate_tool :
      (d : Decision) (action : String)
      → evaluate_tool cel rules owner org actor untrusted tool params mode now ≡ some d
      → Mem action (resolve_actions tool params)
      → is_core_tier4 action ≡ true
      → never_autonomous_tier ≤ d.tier
  core-le-evaluate_tool d action h m core =
      let (floor, _, _, top) = evaluate_tool-is-max d h in
      let c = plain never_autonomous_tier "core:tier4" "cancel" in
      let le = mem-le-select c rule_pool [] (
        mem-pooled c action _ m (
          mem-core-contributors cel rules org action
            (tool_activation org actor untrusted tool params) now core)) in
      let four = plain-tier never_autonomous_tier "core:tier4" "cancel" in rw top (omega arith)
