-- ===== src/Policy.antt =====
-- src/project_mimic/policy.py: the policy engine. Risk scores are hundredths; `lower` is a
-- parameter for Python's `str.lower`. `winning_reason`, which the source computes and never reads,
-- is left out.
pub mod Verdicts
pub mod Order
use project_mimic.Prelude.{
  Result-cases, ite-elim, length, length-append, replicate, keep, any, take, All, count, member,
  without, remove, count-append, count-without, count-remove_ne, count-remove_self, member-count,
  not-member-count, ltb, leb, ◌==◌, if◌then◌else◌, is_some, Bool-cases, Option-cases, ltb→lt,
  leb→le, le→leb, lt→ltb, text_dec, strip, is_empty, strip-strip, Exception, value_error, key_error,
  runtime_error, session_expired, invalid_transition, access_denied, checkpoint_recovery, Result,
  ok, err, Action, pure, raise, lift, gets, or_raise, raise_if, modify, ◌>>=◌, ◌>>◌, ℕ, zero, suc,
  ◌+◌, ◌-◌, ◌*◌, ◌/◌, ◌%◌, ◌^◌, ◌≤◌, ◌<◌, min, max, String, ◌≡◌, refl, sym, ap, ◌∙◌, subst, ◌≢◌,
  ◌↔◌, ◌⊎◌, inl, inr, ite, Bool, true, false, not, ◌&&◌, ◌||◌, Option, none, some, List, [], ◌∷◌,
  ◌++◌, map, arith, ℕ_discrete,
}
use project_mimic.Dict.{Dict, lookup, insert}
use project_mimic.Json.{ℤ, pos, negsuc, leℤ}

pub record PolicyContext : Type 0 where
  pub actor_id : String
  pub site_id : String
  pub region_allowed : Bool
  pub has_authorization : Bool
  pub risk_score : ℕ
  pub action : String
  pub jurisdiction : String
  pub metadata : Dict String String

pub record PolicyRuleOutcome : Type 0 where
  pub decision : Option Bool
  pub reason : String

pub record PolicyRule : Type 0 where
  pub rule_id : String
  pub priority : ℤ
  pub description : String
  pub evaluator : PolicyContext → PolicyRuleOutcome

pub data Verdict : Type 0 where
  override_allow override_deny override_skip pass allow deny : Verdict

pub record PolicyExplanation : Type 0 where
  pub rule_id : String
  pub priority : ℤ
  pub verdict : Verdict
  pub reason : String

pub data OverrideAction : Type 0 where
  allowing denying skipping : OverrideAction

pub record JurisdictionOverride : Type 0 where
  pub action : OverrideAction
  pub reason : String

pub record PolicyDecision : Type 0 where
  pub allowed : Bool
  pub reason : String
  pub applied_rule_id : Option String
  pub simulated : Bool
  pub would_allow : Option Bool
  pub explanations : List PolicyExplanation

pub record PolicyEngine : Type 0 where
  pub risk_threshold : ℕ
  pub rules : List PolicyRule
  pub overrides : Dict String (Dict String JurisdictionOverride)

-- `[rule for rule in self._rules if rule.rule_id != rule_id]`
unfoldable pub without_rule : String → List PolicyRule → List PolicyRule
without_rule k [] = []
without_rule k (r ∷ rs) = let rest = without_rule k rs in ite (text_dec r.rule_id k) rest (r ∷ rest)

-- Before the rules that do not come higher: of equal ones the first stays first.
unfoldable pub place : PolicyRule → List PolicyRule → List PolicyRule
place r [] = r ∷ []
place r (x ∷ xs) = if leℤ x.priority r.priority then r ∷ x ∷ xs else x ∷ place r xs

-- `rules.sort(key=priority, reverse=True)`, which is stable
unfoldable pub sort_rules : List PolicyRule → List PolicyRule
sort_rules [] = []
sort_rules (r ∷ rs) = place r (sort_rules rs)

-- the rules after a registration
unfoldable pub with_rule : PolicyRule → List PolicyRule → List PolicyRule
with_rule r rs = sort_rules (without_rule r.rule_id rs ++ r ∷ [])

unfoldable pub register_rule : PolicyRule → Action PolicyEngine (Unit {0})
register_rule r e =
    if is_empty (strip r.rule_id)
    then (err (value_error "rule_id must not be empty"), e)
    else (ok tt, record e { rules = with_rule r e.rules })

-- `_authorization_rule`, `_region_rule`, `_risk_rule` and `_action_rule`
unfoldable pub authorization_rule : PolicyContext → PolicyRuleOutcome
authorization_rule c =
    if not c.has_authorization
    then record { decision = some false; reason = "missing authorization" }
    else record { decision = none; reason = "authorization present" }

unfoldable pub region_rule : PolicyContext → PolicyRuleOutcome
region_rule c =
    if not c.region_allowed
    then record { decision = some false; reason = "region policy denied" }
    else record { decision = none; reason = "region allowed" }

unfoldable pub risk_rule : ℕ → PolicyContext → PolicyRuleOutcome
risk_rule threshold c =
    if ltb threshold c.risk_score
    then record { decision = some false; reason = "risk threshold exceeded" }
    else record { decision = none; reason = "risk below threshold" }

unfoldable pub action_rule : PolicyContext → PolicyRuleOutcome
action_rule c =
    if is_empty (strip c.action)
    then record { decision = some false; reason = "empty action" }
    else record { decision = none; reason = "action present" }

abbrev pub rule : String → ℕ → String → (PolicyContext → PolicyRuleOutcome) → PolicyRule
rule k p d f = record { rule_id = k; priority = pos p; description = d; evaluator = f }

-- `_register_default_rules`
unfoldable pub default_rules : ℕ → List PolicyRule
default_rules threshold =
    with_rule (rule "action_not_empty" 70 "Action payload must be non-empty" action_rule) (
      with_rule
        (rule "risk_threshold" 80 "Risk score must stay below threshold" (risk_rule threshold))
        (with_rule (rule "region_allowed" 90 "Region must be permitted by policy" region_rule) (
          with_rule
            (rule "authorization_required" 100 "Request must include valid authorization"
              authorization_rule)
            [])))

-- `__init__`
unfoldable pub new : ℕ → Result PolicyEngine
new threshold =
    if ltb 100 threshold
    then err (value_error "risk_threshold must be in [0.0, 1.0]")
    else ok (record { risk_threshold = threshold; rules = default_rules threshold; overrides = [] })

unfoldable pub override_action : String → Option OverrideAction
override_action s =
    ite (text_dec s "allow") (some allowing)
      (ite (text_dec s "deny") (some denying) (ite (text_dec s "skip") (some skipping) none))

-- the overrides of one jurisdiction
abbrev pub bucket : String → PolicyEngine → Dict String JurisdictionOverride
bucket j e = elim (lookup text_dec j e.overrides) [ none ↦ [] | some b ↦ b ]

unfoldable pub set_jurisdiction_override :
    (String → String) → String → String → String → String → Action PolicyEngine (Unit {0})
set_jurisdiction_override lower jurisdiction rule_id action reason e =
    elim (override_action (lower action)) [
      | none ↦ (err (value_error "override action must be allow, deny, or skip"), e)
      | some a ↦
          if is_empty (strip jurisdiction)
          then (err (value_error "jurisdiction must not be empty"), e)
          else (
            ok tt,
            record e {
              overrides =
                  insert text_dec jurisdiction
                    (insert text_dec rule_id (record { action = a; reason = reason })
                      (bucket jurisdiction e))
                    e.overrides;
            },
          )
    ]

abbrev pub override_verdict : OverrideAction → Verdict
override_verdict allowing = override_allow
override_verdict denying = override_deny
override_verdict skipping = override_skip

-- what one round of the loop finds: the explanation, and the rule's decision if it makes one
abbrev pub overridden : JurisdictionOverride → PolicyRule → PolicyExplanation × Option Bool
overridden o r = (
  record {
    rule_id = r.rule_id;
    priority = r.priority;
    verdict = override_verdict o.action;
    reason = o.reason;
  },
  elim o.action [ allowing ↦ some true | denying ↦ some false | skipping ↦ none ],
)

abbrev pub verdict_of : Option Bool → Verdict
verdict_of none = pass
verdict_of (some true) = allow
verdict_of (some false) = deny

abbrev pub judged : PolicyContext → PolicyRule → PolicyExplanation × Option Bool
judged c r =
    let o = r.evaluator c in
    (
      record {
        rule_id = r.rule_id;
        priority = r.priority;
        verdict = verdict_of o.decision;
        reason = o.reason;
      },
      o.decision,
    )

unfoldable pub consult : PolicyEngine → PolicyContext → PolicyRule → PolicyExplanation × Option Bool
consult e c r = elim (lookup text_dec r.rule_id (bucket c.jurisdiction e)) [
  | some o ↦ overridden o r
  | none ↦ judged c r
]

-- `winning_rule_id`, which the first decision sets
abbrev pub first_id : Option String → String → Option String
first_id none k = some k
first_id (some j) k = some j

-- the returns after the loop
abbrev pub concluded : Bool → List PolicyExplanation → Bool → Option String → PolicyDecision
concluded true found would winner = record {
  allowed = true;
  reason = "simulation mode: no enforcement";
  applied_rule_id = winner;
  simulated = true;
  would_allow = some would;
  explanations = found;
}
concluded false found would winner = record {
  allowed = true;
  reason = "allowed";
  applied_rule_id = winner;
  simulated = false;
  would_allow = none;
  explanations = found;
}

-- the return from inside the loop
abbrev pub enforced : Bool → String → PolicyExplanation → List PolicyExplanation → PolicyDecision
enforced d k x found = record {
  allowed = d;
  reason = x.reason;
  applied_rule_id = some k;
  simulated = false;
  would_allow = none;
  explanations = found;
}

unfoldable pub loop :
    PolicyEngine
    → PolicyContext
    → Bool
    → List PolicyRule
    → List PolicyExplanation
    → Bool
    → Option String
    → PolicyDecision
loop e c simulate [] found would winner = concluded simulate found would winner
loop e c simulate (r ∷ rs) found would winner =
    let (x, decision) = consult e c r in
    let found' = found ++ x ∷ [] in
    elim decision [
      | none ↦ loop e c simulate rs found' would winner
      | some d ↦ elim simulate [
        | true ↦ loop e c true rs found' (would && d) (first_id winner r.rule_id)
        | false ↦ enforced d r.rule_id x found'
      ]
    ]

unfoldable pub evaluate : PolicyEngine → PolicyContext → Bool → PolicyDecision
unfolding loop
evaluate e c simulate = loop e c simulate e.rules [] true none
