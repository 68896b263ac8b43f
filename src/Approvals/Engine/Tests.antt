-- ===== src/Approvals/Engine/Tests.antt =====
-- The theorems on tiers and tenant rules, at a shop with two rules.
use mathlib.Core.List.{mem-cons_self, mem-cons, not-mem-nil, Mem}
use mathlib.Core.List.Perm
use mathlib.Core.Logic.Or
use growth_operator.Approvals.Samples.{no_params}
use growth_operator.Approvals.Engine.{
  ActionContext, Policy, Rules, Contributor, Cel, tenant, pack, plain, rank, evaluate, contributors,
  select_decision, validate_tenant_rule, is_core_tier4, in_scope, has_pack, core_contributors,
  rule_contributors, incident_contributors, activation,
}
use growth_operator.Approvals.Engine.Tier.{select_decision-perm, rule-le-evaluate}
use growth_operator.Approvals.Engine.Baseline.{add_rule, accepted_rule_loosens}
use growth_operator.Prelude.{
  ◌≤◌, ◌<◌, [], String, refl, ◌∷◌, false, some, arith, true, str_eq, if◌then◌else◌, ◌≡◌, none, Bool,
  ◌≢◌, Option,
}
use growth_operator.Prelude.Int.{pos, ltb_ℤ}
use growth_operator.Prelude.Members.{String-set}

abbrev context : String → ActionContext
context action = record {
  org_id = 1;
  action_type = action;
  actor_instance_id = none;
  amount_minor = some (pos 500);
  currency = some "INR";
  recipients = [];
  attributes = no_params;
  untrusted_content = false;
}

-- Amounts over 1 pass the only expression that it knows; others fail.
abbrev test_cel : Cel
test_cel expr act =
    if str_eq expr "amount_minor > 1" then some (ltb_ℤ (pos 1) act.amount_minor) else none

abbrev quote_rule : Policy
quote_rule = record {
  id = "quote";
  scope = pack;
  org_id = none;
  pack_id = some 4;
  action_type = "action.quote.send";
  tier = 3;
  cel_expr = some "amount_minor > 1";
  approver_chain = "owner" ∷ [];
  timeout_s = some 60;
  on_timeout = "cancel";
  confirm_kind = none;
}

abbrev lax_rule : Policy
lax_rule = record {
  id = "lax";
  scope = tenant;
  org_id = some 1;
  pack_id = none;
  action_type = "action.other";
  tier = 0;
  cel_expr = none;
  approver_chain = [];
  timeout_s = none;
  on_timeout = "hold";
  confirm_kind = none;
}

abbrev rules : Rules
rules = record {
  policies = quote_rule ∷ [];
  installations =
      record { org_id = 1; pack_id = 4; status = "active"; priority = 0; config_defaults = [] }
      ∷ [];
  tightenings = [];
}

abbrev low : Contributor
low = plain 1 "a" "hold"

abbrev high : Contributor
high = plain 3 "b" "cancel"

true_ne_false : {o : Option Bool} → o ≡ some true → o ≢ some false
true_ne_false h k = cc

quote_passes :
    (expr : String)
    → expr ≡ "amount_minor > 1"
    → test_cel expr (activation (context "action.quote.send")) ≡ some true
unfolding activation
quote_passes expr e = rw e refl

rule-le-evaluate_example : 3 ≤ (evaluate test_cel rules (context "action.quote.send") 0).tier
rule-le-evaluate_example =
    rule-le-evaluate test_cel rules (context "action.quote.send") 0 quote_rule mem-cons_self refl
      (unfold in_scope has_pack in refl)
      (λ expr e h. absurd (true_ne_false (quote_passes expr (cc e)) h))

accepted_rule_loosens_example :
    (evaluate test_cel (add_rule lax_rule rules) (context "action.other") 0).tier
    < (evaluate test_cel rules (context "action.other") 0).tier
unfolding contributors core_contributors is_core_tier4 rule_contributors incident_contributors
accepted_rule_loosens_example =
    accepted_rule_loosens test_cel rules (context "action.other") 0 lax_rule refl refl refl refl
      refl (unfold validate_tenant_rule in refl) (omega arith)

Contributor-set : IsSet Contributor
Contributor-set = hlevel String-set

-- A member of a list of two is one of them.
mem_two {ℓ} :
    {P : Type ℓ} (c : Contributor)
    → IsProp P
    → Mem c (low ∷ high ∷ [])
    → (c ≡ low → P)
    → (c ≡ high → P)
    → P
mem_two c prop m f g =
    Or.elim prop (mem-cons.0 m) f
      (λ n. Or.elim prop (mem-cons.0 n) g (λ none_left. absurd (not-mem-nil none_left)))

apart :
    (c d : Contributor)
    → Mem c (low ∷ high ∷ [])
    → Mem d (low ∷ high ∷ [])
    → rank c ≡ rank d
    → c ≡ d
unfolding plain
apart c d m n h =
    mem_two c (Contributor-set c d) m
      (λ e.
        mem_two d (Contributor-set c d) n (λ f. cc (e, f)) (λ f. absurd (ground (arith, e, f, h))))
      (λ e.
        mem_two d (Contributor-set c d) n (λ f. absurd (ground (arith, e, f, h))) (λ f. cc (e, f)))

select_decision-perm_example :
    select_decision (low ∷ high ∷ []) ("a" ∷ "b" ∷ [])
    ≡ select_decision (high ∷ low ∷ []) ("b" ∷ "a" ∷ [])
select_decision-perm_example =
    select_decision-perm (low ∷ high ∷ []) (high ∷ low ∷ []) ("a" ∷ "b" ∷ []) ("b" ∷ "a" ∷ []) apart
      (Perm.swap high low []) (Perm.swap "b" "a" [])
