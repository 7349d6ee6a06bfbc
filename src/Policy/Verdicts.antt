-- ===== src/Policy/Verdicts.antt =====
-- The decisions of the engine: enforcement and simulation.
use project_mimic.Prelude.{
  String, ◌≡◌, sym, ◌∙◌, Bool, true, false, ◌&&◌, Option, none, some, List, [], ◌∷◌, ◌++◌, arith,
}
use project_mimic.Policy.{
  PolicyContext, PolicyRule, PolicyEngine, PolicyExplanation, consult, loop, evaluate, first_id,
}
use mathlib.Core.List.{append-nil, append_assoc}

module _ (e : PolicyEngine) (c : PolicyContext) where
  -- the first rule that makes a decision, with that decision
  abbrev pub first_decision : List PolicyRule → Option (String × Bool)
  first_decision [] = none
  first_decision (r ∷ rs) = elim (consult e c r).1 [
    | none ↦ first_decision rs
    | some d ↦ some (r.rule_id, d)
  ]

  -- no rule decides against the request
  abbrev pub undenied : List PolicyRule → Bool
  undenied [] = true
  undenied (r ∷ rs) = elim (consult e c r).1 [ none ↦ undenied rs | some d ↦ d && undenied rs ]

  -- the explanations up to the first decision, and all of them
  abbrev pub heard : List PolicyRule → List PolicyExplanation
  heard [] = []
  heard (r ∷ rs) = (consult e c r).0 ∷ elim (consult e c r).1 [ none ↦ heard rs | some d ↦ [] ]

  abbrev pub all_heard : List PolicyRule → List PolicyExplanation
  all_heard [] = []
  all_heard (r ∷ rs) = (consult e c r).0 ∷ all_heard rs

  loop-enforces :
      (rs : List PolicyRule) (found : List PolicyExplanation) (would : Bool)
      → ((loop e c false rs found would none).allowed
          ≡ elim (first_decision rs) as (λ x. Bool) [ none ↦ true | some p ↦ p.1 ])
        × ((loop e c false rs found would none).applied_rule_id
            ≡ elim (first_decision rs) as (λ x. Option String) [ none ↦ none | some p ↦ some p.0 ])
        × ((loop e c false rs found would none).explanations ≡ found ++ heard rs)
  unfolding loop
  loop-enforces [] found would = ground (arith, append-nil found)
  loop-enforces (r ∷ rs) found would =
      let x = (consult e c r).0 in
      let ih = loop-enforces rs (found ++ x ∷ []) would in
      let more = append_assoc found (x ∷ []) (heard rs) in ground arith

  loop-simulates :
      (rs : List PolicyRule) (found : List PolicyExplanation) (would : Bool)
      (winner : Option String)
      → ((loop e c true rs found would winner).allowed ≡ true)
        × ((loop e c true rs found would winner).would_allow ≡ some (would && undenied rs))
        × ((loop e c true rs found would winner).applied_rule_id
            ≡ elim winner as (λ x. Option String) [
              | some k ↦ some k
              | none ↦ elim (first_decision rs) as (λ x. Option String) [
                | none ↦ none
                | some p ↦ some p.0
              ]
            ])
        × ((loop e c true rs found would winner).explanations ≡ found ++ all_heard rs)
  unfolding loop
  loop-simulates [] found would winner = ground (arith, append-nil found)
  loop-simulates (r ∷ rs) found would winner =
      let x = (consult e c r).0 in
      let ih = loop-simulates rs (found ++ x ∷ []) would winner in
      let ih' = loop-simulates rs (found ++ x ∷ []) would (first_id winner r.rule_id) in
      let ih'' = loop-simulates rs (found ++ x ∷ []) false (first_id winner r.rule_id) in
      let more = append_assoc found (x ∷ []) (all_heard rs) in ground arith

  -- Enforcement answers by the first rule, in the engine's order, that makes a decision, and allows
  -- the request where none does; it explains the rules up to that one. A simulation always allows,
  -- names the same rule, would allow exactly when no rule decides against the request, and explains
  -- every rule.
  pub evaluate_lem :
      ((evaluate e c false).allowed
        ≡ elim (first_decision e.rules) as (λ x. Bool) [ none ↦ true | some p ↦ p.1 ])
      × ((evaluate e c false).applied_rule_id
          ≡ elim (first_decision e.rules) as (λ x. Option String) [
            | none ↦ none
            | some p ↦ some p.0
          ])
      × ((evaluate e c false).explanations ≡ heard e.rules)
      × ((evaluate e c true).allowed ≡ true)
      × ((evaluate e c true).applied_rule_id ≡ (evaluate e c false).applied_rule_id)
      × ((evaluate e c true).would_allow ≡ some (undenied e.rules))
      × ((evaluate e c true).explanations ≡ all_heard e.rules)
  unfolding evaluate
  evaluate_lem =
      let en = loop-enforces e.rules [] true in
      let si = loop-simulates e.rules [] true none in
      (en.0, en.1, en.2, si.0, si.2 ∙ sym en.1, si.1, si.3)
