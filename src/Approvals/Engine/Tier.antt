-- ===== src/Approvals/Engine/Tier.antt =====
-- The tier is the greatest of those that contribute, in whatever order they come.
use mathlib.Core.List.{
  Mem, Perm, mem-cons_self, not-mem-nil, mem-append_right, mem-append_left, mem-map_of_mem,
}
use mathlib.Core.List.Perm
use growth_operator.Prelude.{
  if◌then◌else◌, ◌||◌, ℕ, ◌≤◌, ◌≡◌, ◌≢◌, refl, String, true, List, [], ◌∷◌, arith, str_eq_iff, none,
  some, false, Option, Bool,
}
use growth_operator.Prelude.Members.{String-set, mem-filter_of_mem}
use growth_operator.Prelude.Order.Max.{max_from, mem-le-max, mem-max_from, max_from-perm}
use growth_operator.Prelude.Order.Sorted.{sorted-perm}
use growth_operator.Prelude.Order.Text.{pair_order, text_order, pair_le}
use growth_operator.Approvals.Engine.{
  Contributor, Cel, Rules, ActionContext, rank, select_decision, matched_ids, contributors,
  core_contributors, evaluate, activation, rule_contributors, Policy, is_rule_for, in_scope,
  of_policy, matches, Activation, text_eq, strip, codes,
}

tier-le-of-rank : (a b : Contributor) → pair_le (rank a) (rank b) ≡ true → a.tier ≤ b.tier
tier-le-of-rank a b h = ground arith

-- Every contributor's tier is at most the decision's.
pub mem-le-select :
    (c : Contributor) (cs : List Contributor) (matched : List String)
    → Mem c cs
    → c.tier ≤ (select_decision cs matched).tier
unfolding select_decision
mem-le-select c [] matched m = absurd (not-mem-nil m)
mem-le-select c (d ∷ ds) matched m =
    tier-le-of-rank c (max_from rank d ds) (mem-le-max rank d ds c m)

-- The order in which contributors and matched ids come does not bear on the decision, where
-- contributors of one tier and id are the same.
pub select_decision-perm :
    (cs ds : List Contributor) (ms ns : List String)
    → ((c d : Contributor) → Mem c cs → Mem d cs → rank c ≡ rank d → c ≡ d)
    → Perm cs ds
    → Perm ms ns
    → select_decision cs ms ≡ select_decision ds ns
unfolding select_decision
select_decision-perm [] [] ms ns apart p q = refl
select_decision-perm [] (d ∷ ds) ms ns apart p q =
    absurd (not-mem-nil ((Perm.mem_iff p).1 mem-cons_self))
select_decision-perm (c ∷ cs) [] ms ns apart p q =
    absurd (not-mem-nil ((Perm.mem_iff p).0 mem-cons_self))
select_decision-perm (c ∷ cs) (d ∷ ds) ms ns apart p q =
    let win = max_from-perm rank c d cs ds apart p in
    let same = sorted-perm String-set q in cc (win, same)

-- A decision over some contributors has the tier of one of them.
pub select-is-a-tier :
    (cs : List Contributor) (matched : List String)
    → cs ≢ []
    → (w : Contributor) × Mem w cs × (w.tier ≡ (select_decision cs matched).tier)
unfolding select_decision
select-is-a-tier [] matched h = absurd (h refl)
select-is-a-tier (c ∷ cs) matched h = (max_from rank c cs, mem-max_from rank c cs, refl)

-- The recorded ids do not bear on the tier.
abbrev pub tier_of : List Contributor → ℕ
tier_of cs = (select_decision cs []).tier

pub select-tier :
    (cs : List Contributor) (matched : List String) → (select_decision cs matched).tier ≡ tier_of cs
unfolding select_decision
select-tier [] matched = refl
select-tier (c ∷ cs) matched = refl

-- Further contributors never lower the tier, unless there were none.
pub select_mono :
    (cs ds : List Contributor) (ms ns : List String)
    → cs ≢ []
    → ((c : Contributor) → Mem c cs → Mem c ds)
    → (select_decision cs ms).tier ≤ (select_decision ds ns).tier
select_mono cs ds ms ns h sub =
    let (w, m, e) = select-is-a-tier cs ms h in rw (← e) (mem-le-select w ds ns (sub w m))

matches-of-not-false :
    (cel : Cel) (o : Option String) (act : Activation)
    → ((expr : String) → o ≡ some expr → cel expr act ≢ some false)
    → matches cel o act ≡ true
unfolding matches
matches-of-not-false cel none act c = refl
matches-of-not-false cel (some expr) act c = evaluated (cel expr act) (c expr refl)
  where
    evaluated :
        (r : Option Bool)
        → r ≢ some false
        → (if text_eq (strip (codes expr)) [] || text_eq (strip (codes expr)) (codes "true")
            then true
            else elim r [ none ↦ true | some b ↦ b ])
          ≡ true
    evaluated none h = ground arith
    evaluated (some true) h = ground arith
    evaluated (some false) h = absurd (h refl)

module _ (cel : Cel) (rules : Rules) (ctx : ActionContext) (now : ℕ) where
  abbrev all : List Contributor
  all = contributors cel rules ctx.org_id ctx.action_type (activation ctx) now

  mem-le-evaluate : (c : Contributor) → Mem c all → c.tier ≤ (evaluate cel rules ctx now).tier
  unfolding evaluate
  mem-le-evaluate c m = mem-le-select c all (matched_ids all) m

  mem-rule :
      (p : Policy)
      → Mem p rules.policies
      → is_rule_for cel rules.installations ctx.org_id ctx.action_type (activation ctx) p ≡ true
      → Mem (of_policy p) all
  unfolding contributors rule_contributors
  mem-rule p m h =
      mem-append_right (core_contributors ctx.action_type)
        (mem-append_left _ (mem-map_of_mem of_policy (mem-filter_of_mem _ p rules.policies m h)))

  -- A stored rule for the action that is in scope counts unless its expression evaluates to false:
  -- the decision's tier is at least the rule's, also where the expression fails.
  pub rule-le-evaluate :
      (p : Policy)
      → Mem p rules.policies
      → p.action_type ≡ ctx.action_type
      → in_scope rules.installations ctx.org_id p ≡ true
      → ((expr : String) → p.cel_expr ≡ some expr → cel expr (activation ctx) ≢ some false)
      → p.tier ≤ (evaluate cel rules ctx now).tier
  rule-le-evaluate p m a s c =
      unfold of_policy in
      mem-le-evaluate (of_policy p) (
        mem-rule p m (
          unfold is_rule_for in
          ground (
            arith,
            s,
            str_eq_iff p.action_type ctx.action_type,
            matches-of-not-false cel p.cel_expr (activation ctx) c,
          )))
