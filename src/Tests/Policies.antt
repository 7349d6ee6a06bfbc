-- ===== src/Tests/Policies.antt =====
-- Runs of the policy engine: src/project_mimic/policy.py.
use project_mimic.Prelude.{
  text_dec, String, ◌≡◌, refl, inl, inr, Bool, true, false, Option, none, some, [], ◌∷◌,
}
use project_mimic.Json.{leℤ}
use project_mimic.Policy as policies
use project_mimic.Policy.{
  PolicyContext, PolicyRule, PolicyEngine, PolicyExplanation, consult, evaluate,
}
use project_mimic.Policy.Verdicts.{heard, all_heard, first_decision, undenied, evaluate_lem}
use project_mimic.Policy.Order as order
use project_mimic.Policy.Order.{Among, IsSorted, highest_rule_wins}

abbrev same : String → String
same s = s

-- an engine with one rule, which the union overrides
abbrev region_only : PolicyRule
region_only =
    policies.rule "region_allowed" 90 "Region must be permitted by policy" policies.region_rule

abbrev engine : PolicyEngine
engine = record {
  risk_threshold = 50;
  rules =
      region_only
      ∷ policies.rule "risk_threshold" 80 "Risk score must stay below threshold"
          (policies.risk_rule 50)
      ∷ [];
  overrides = [];
}

abbrev request : PolicyContext
request = record {
  actor_id = "ada";
  site_id = "site";
  region_allowed = true;
  has_authorization = true;
  risk_score = 70;
  action = "click";
  jurisdiction = "eu";
  metadata = [];
}

evaluate_lem_example :
    ((evaluate engine request false).allowed
      ≡ elim (first_decision engine request engine.rules) as (λ x. Bool) [
        | none ↦ true
        | some p ↦ p.1
      ])
    × ((evaluate engine request false).applied_rule_id
        ≡ elim (first_decision engine request engine.rules) as (λ x. Option String) [
          | none ↦ none
          | some p ↦ some p.0
        ])
    × ((evaluate engine request false).explanations ≡ heard engine request engine.rules)
    × ((evaluate engine request true).allowed ≡ true)
    × ((evaluate engine request true).applied_rule_id
        ≡ (evaluate engine request false).applied_rule_id)
    × ((evaluate engine request true).would_allow ≡ some (undenied engine request engine.rules))
    × ((evaluate engine request true).explanations ≡ all_heard engine request engine.rules)
evaluate_lem_example = evaluate_lem engine request

abbrev registered : PolicyEngine
registered =
    (policies.register_rule region_only
      (record { risk_threshold = 50; rules = []; overrides = [] })).1

abbrev outside : PolicyContext
outside = record request { region_allowed = false }

abbrev standard : PolicyEngine
standard = record { risk_threshold = 50; rules = policies.default_rules 50; overrides = [] }

highest_rule_wins_example :
    IsSorted standard.rules
    × ((w : PolicyRule) × Among w standard.rules
        × ((consult standard outside w).1 ≡ some (evaluate standard outside false).allowed)
        × ((evaluate standard outside false).applied_rule_id ≡ some w.rule_id)
        × (leℤ region_only.priority w.priority ≡ true))
unfolding policies.new policies.default_rules policies.with_rule policies.without_rule
    policies.sort_rules policies.place policies.region_rule consult text_dec
highest_rule_wins_example =
    highest_rule_wins same standard outside region_only false (order.begin 50 refl) (inr (inl refl))
      refl
