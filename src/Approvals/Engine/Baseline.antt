-- ===== src/Approvals/Engine/Baseline.antt =====
-- What `validate_tenant_rule` lets through, and what an accepted rule does to the tier.
use growth_operator.Prelude.Order.Max.{max_from}
use growth_operator.Approvals.Engine.{
  Rules, Policy, is_core_tier4, never_autonomous_tier, is_baseline, max_tier, baseline_tier,
  validate_tenant_rule, is_rule_for, contributors, evaluate, matches, rule_contributors,
  select_decision, Cel, incident_contributors, ActionContext, tenant, activation, of_policy,
  default_unknown_tier, core_contributors,
}
use growth_operator.Prelude.{
  true, String, ◌≤◌, [], List, inr, ◌&&◌, All, filter, ◌≡◌, ◌↔◌, Bool-cases, inl, arith, str_eq,
  str_eq_iff, ℕ, ◌∷◌, none, ◌++◌, refl, some, ◌<◌,
}

-- A core or pack rule for the action.
abbrev pub IsBaselineRule : String → Policy → Type 0
IsBaselineRule action p = (p.action_type ≡ action) × (is_baseline p ≡ true)

max_tier-filter-le :
    (action : String) (tier : ℕ) (ps : List Policy)
    → (max_tier (filter (λ p. str_eq p.action_type action && is_baseline p) ps) ≤ tier)
      ↔ All (λ p. IsBaselineRule action p → p.tier ≤ tier) ps
unfolding max_tier
max_tier-filter-le action tier [] = (λ h. tt, λ h. omega arith)
max_tier-filter-le action tier (p ∷ ps) =
    let (there, back) = max_tier-filter-le action tier ps in
    elim (Bool-cases (str_eq p.action_type action && is_baseline p)) [
      | inl counts ↦ rw counts (
        λ h. (λ _. omega arith, there (omega arith)),
        λ h.
            let le = h.0 (ground (arith, str_eq_iff p.action_type action)) in
            let rest = back h.1 in omega arith,
      )
      | inr skipped ↦ rw skipped (
        λ h. (λ b. absurd (ground (arith, str_eq_iff p.action_type action)), there h),
        λ h. back h.1,
      )
    ]

-- A tenant rule is accepted exactly if its tier is at least that of every core or pack rule for the
-- action, whatever their conditions, and 4 for an action of the platform's tier-4 list.
pub validate_tenant_rule-exact :
    (rules : Rules) (action : String) (tier : ℕ)
    → (validate_tenant_rule rules action tier ≡ true) ↔ (
        All (λ p. IsBaselineRule action p → p.tier ≤ tier) rules.policies
        × (is_core_tier4 action ≡ true → never_autonomous_tier ≤ tier))
unfolding validate_tenant_rule baseline_tier
validate_tenant_rule-exact rules action tier =
    let (there, back) = max_tier-filter-le action tier rules.policies in
    (λ h. (there (ground arith), λ c. ground arith), λ h. let le = back h.0 in ground arith)

-- The rules with one more.
abbrev pub add_rule : Policy → Rules → Rules
add_rule p rules = record rules { policies = p ∷ rules.policies }

append-eq-nil {ℓ} : {A : Type ℓ} (xs ys : List A) → xs ++ ys ≡ [] → (xs ≡ []) × (ys ≡ [])
append-eq-nil [] ys h = (refl, h)
append-eq-nil (x ∷ xs) ys h = cc

is_tenant_rule_for :
    (cel : Cel) (rules : Rules) (ctx : ActionContext) (p : Policy)
    → p.action_type ≡ ctx.action_type
    → p.scope ≡ tenant
    → p.org_id ≡ some ctx.org_id
    → p.cel_expr ≡ none
    → is_rule_for cel rules.installations ctx.org_id ctx.action_type (activation ctx) p ≡ true
unfolding is_rule_for matches
is_tenant_rule_for cel rules ctx p a s o c =
    ground (arith, str_eq_iff p.action_type ctx.action_type)

contributors-add_rule :
    (cel : Cel) (rules : Rules) (ctx : ActionContext) (now : ℕ) (p : Policy)
    → contributors cel rules ctx.org_id ctx.action_type (activation ctx) now ≡ []
    → is_rule_for cel rules.installations ctx.org_id ctx.action_type (activation ctx) p ≡ true
    → contributors cel (add_rule p rules) ctx.org_id ctx.action_type (activation ctx) now
      ≡ of_policy p ∷ []
unfolding contributors rule_contributors incident_contributors
contributors-add_rule cel rules ctx now p empty counts =
    let (no_core, later) = append-eq-nil (core_contributors ctx.action_type) _ empty in
    let (no_rule, no_incident) =
      append-eq-nil (rule_contributors cel rules ctx.org_id ctx.action_type (activation ctx)) _
        later in
    ground (arith, counts, no_core, no_rule, no_incident)

-- An unconditional tenant rule for an action to which nothing else applies decides the tier alone:
-- the tier was 2, for want of a rule, and is the new rule's tier afterwards.
pub tenant_rule_replaces_fallback :
    (cel : Cel) (rules : Rules) (ctx : ActionContext) (now : ℕ) (p : Policy)
    → contributors cel rules ctx.org_id ctx.action_type (activation ctx) now ≡ []
    → p.action_type ≡ ctx.action_type
    → p.scope ≡ tenant
    → p.org_id ≡ some ctx.org_id
    → p.cel_expr ≡ none
    → ((evaluate cel rules ctx now).tier ≡ default_unknown_tier)
      × ((evaluate cel (add_rule p rules) ctx now).tier ≡ p.tier)
unfolding evaluate select_decision max_from
tenant_rule_replaces_fallback cel rules ctx now p empty a s o c = (
  rw empty,
  rw (contributors-add_rule cel rules ctx now p empty (is_tenant_rule_for cel rules ctx p a s o c))
      (unfold of_policy in refl),
)

-- A rule that `validate_tenant_rule` accepts can lower the tier: an unconditional tenant rule of
-- tier 0 or 1 for an action to which nothing else applies does.
pub accepted_rule_loosens :
    (cel : Cel) (rules : Rules) (ctx : ActionContext) (now : ℕ) (p : Policy)
    → contributors cel rules ctx.org_id ctx.action_type (activation ctx) now ≡ []
    → p.action_type ≡ ctx.action_type
    → p.scope ≡ tenant
    → p.org_id ≡ some ctx.org_id
    → p.cel_expr ≡ none
    → validate_tenant_rule rules p.action_type p.tier ≡ true
    → p.tier < default_unknown_tier
    → (evaluate cel (add_rule p rules) ctx now).tier < (evaluate cel rules ctx now).tier
accepted_rule_loosens cel rules ctx now p empty a s o c accepted low =
    let (before, after) = tenant_rule_replaces_fallback cel rules ctx now p empty a s o c in
    omega arith
