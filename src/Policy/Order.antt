-- ===== src/Policy/Order.antt =====
-- The order of the rules of src/project_mimic/policy.py, and the rule that is enforced.
use project_mimic.Prelude.{
  All, count, leb, Bool-cases, Option-cases, text_dec, strip, is_empty, ok, ℕ, ◌+◌, ◌≤◌, String,
  ◌≡◌, refl, sym, subst, ◌⊎◌, inl, inr, ite, Bool, true, false, not, ◌&&◌, some, List, [], ◌∷◌,
  ◌++◌, arith,
}
use project_mimic.Json.{ℤ, leℤ}
use project_mimic.Policy.{
  PolicyContext, PolicyRule, PolicyEngine, consult, loop, evaluate, default_rules, with_rule,
  without_rule, place, sort_rules, register_rule, set_jurisdiction_override, authorization_rule,
  region_rule, risk_rule, action_rule, new, rule,
}
use project_mimic.Policy.Verdicts.{first_decision, evaluate_lem}

-- No rule stands before one of higher priority.
abbrev pub IsOrdered : List PolicyRule → Type 0
IsOrdered [] = Unit
IsOrdered (r ∷ rs) = All (λ x. leℤ x.priority r.priority ≡ true) rs × IsOrdered rs

abbrev pub rule_ids : List PolicyRule → List String
rule_ids [] = []
rule_ids (r ∷ rs) = r.rule_id ∷ rule_ids rs

-- a rule of the list
abbrev pub Among : PolicyRule → List PolicyRule → Type 0
Among r [] = ⊥
Among r (x ∷ xs) = (x ≡ r) ⊎ Among r xs

leℤ_trans : (a b c : ℤ) → leℤ a b ≡ true → leℤ b c ≡ true → leℤ a c ≡ true
leℤ_trans a b c h k = ground arith

leℤ_total : (a b : ℤ) → leℤ a b ≡ false → leℤ b a ≡ true
leℤ_total a b h = ground arith

All-below :
    (p q : ℤ) (rs : List PolicyRule)
    → leℤ p q ≡ true
    → All (λ x. leℤ x.priority p ≡ true) rs
    → All (λ x. leℤ x.priority q ≡ true) rs
All-below p q [] h a = tt
All-below p q (r ∷ rs) h a = (leℤ_trans r.priority p q a.0 h, All-below p q rs h a.1)

All-place :
    (p : ℤ) (r : PolicyRule) (rs : List PolicyRule)
    → leℤ r.priority p ≡ true
    → All (λ x. leℤ x.priority p ≡ true) rs
    → All (λ x. leℤ x.priority p ≡ true) (place r rs)
unfolding place
All-place p r [] h a = (h, tt)
All-place p r (x ∷ xs) h a = elim (Bool-cases (leℤ x.priority r.priority)) [
  | inl low ↦ rw low (h, a)
  | inr high ↦ rw high (a.0, All-place p r xs h a.1)
]

place-IsOrdered : (r : PolicyRule) (rs : List PolicyRule) → IsOrdered rs → IsOrdered (place r rs)
unfolding place
place-IsOrdered r [] o = (tt, tt)
place-IsOrdered r (x ∷ xs) o = elim (Bool-cases (leℤ x.priority r.priority)) [
  | inl low ↦ rw low ((low, All-below x.priority r.priority xs low o.0), o)
  | inr high ↦ rw high (
    All-place x.priority r xs (leℤ_total x.priority r.priority high) o.0,
    place-IsOrdered r xs o.1,
  )
]

sort_rules-IsOrdered : (rs : List PolicyRule) → IsOrdered (sort_rules rs)
unfolding sort_rules
sort_rules-IsOrdered [] = tt
sort_rules-IsOrdered (r ∷ rs) = place-IsOrdered r (sort_rules rs) (sort_rules-IsOrdered rs)

count-place :
    (k : String) (r : PolicyRule) (rs : List PolicyRule)
    → count text_dec k (rule_ids (place r rs)) ≡ count text_dec k (rule_ids (r ∷ rs))
unfolding place
count-place k r [] = refl
count-place k r (x ∷ xs) = ground (arith, count-place k r xs)

count-sort_rules :
    (k : String) (rs : List PolicyRule)
    → count text_dec k (rule_ids (sort_rules rs)) ≡ count text_dec k (rule_ids rs)
unfolding sort_rules
count-sort_rules k [] = refl
count-sort_rules k (r ∷ rs) = ground (arith, count-place k r (sort_rules rs), count-sort_rules k rs)

count-without_rule :
    (k j : String) (r : PolicyRule) (rs : List PolicyRule)
    → count text_dec k (rule_ids (without_rule j rs ++ r ∷ []))
      ≡ ite (text_dec j k) 0 (count text_dec k (rule_ids rs)) + ite (text_dec r.rule_id k) 1 0
unfolding without_rule
count-without_rule k j r [] = ground arith
count-without_rule k j r (x ∷ xs) = ground (arith, count-without_rule k j r xs)

-- the rules in order, each id once
pub record IsSorted (rs : List PolicyRule) : Type 0 where
  pub ordered : IsOrdered rs
  pub once : (k : String) → count text_dec k (rule_ids rs) ≤ 1

with_rule-IsSorted :
    (r : PolicyRule) (rs : List PolicyRule) → IsSorted rs → IsSorted (with_rule r rs)
unfolding with_rule
with_rule-IsSorted r rs s = record {
  ordered = sort_rules-IsOrdered (without_rule r.rule_id rs ++ r ∷ []);
  once = λ k.
      let o = s.once k in
      let c1 = count-sort_rules k (without_rule r.rule_id rs ++ r ∷ []) in
      let c2 = count-without_rule k r.rule_id r rs in ground arith;
}

register_rule-IsSorted :
    (r : PolicyRule) (e : PolicyEngine) → IsSorted e.rules → IsSorted (register_rule r e).1.rules
unfolding register_rule
register_rule-IsSorted r e s = elim (Bool-cases (is_empty (strip r.rule_id))) [
  | inl blank ↦ rw (blank, register_rule) s
  | inr named ↦ rw (named, register_rule) (with_rule-IsSorted r e.rules s)
]

rules-override :
    (lower : String → String) (jurisdiction rule_id action reason : String) (e : PolicyEngine)
    → (set_jurisdiction_override lower jurisdiction rule_id action reason e).1.rules ≡ e.rules
unfolding set_jurisdiction_override
rules-override lower jurisdiction rule_id action reason e = ground arith

default_rules-IsSorted : (threshold : ℕ) → IsSorted (default_rules threshold)
unfolding default_rules
default_rules-IsSorted threshold = with_rule-IsSorted _ _ (
    with_rule-IsSorted _ _ (
      with_rule-IsSorted _ _
        (with_rule-IsSorted _ _ (record { ordered = tt; once = λ k. omega arith }))))

new_rules :
    (threshold : ℕ) (e : PolicyEngine) → new threshold ≡ ok e → default_rules threshold ≡ e.rules
unfolding new
new_rules threshold e h = ground arith

-- the engines that calls on a new one reach
pub data Reachable (lower : String → String) : PolicyEngine → Type 0 where
  begin : {e : PolicyEngine} (threshold : ℕ) → new threshold ≡ ok e → Reachable lower e
  registered :
      {e : PolicyEngine} (r : PolicyRule)
      → Reachable lower e
      → Reachable lower (register_rule r e).1
  overridden :
      {e : PolicyEngine} (jurisdiction rule_id action reason : String)
      → Reachable lower e
      → Reachable lower (set_jurisdiction_override lower jurisdiction rule_id action reason e).1

Reachable-IsSorted :
    {lower : String → String} {e : PolicyEngine} → Reachable lower e → IsSorted e.rules
Reachable-IsSorted (begin threshold h) =
    subst IsSorted (new_rules threshold _ h) (default_rules-IsSorted threshold)
Reachable-IsSorted (registered r before) = register_rule-IsSorted r _ (Reachable-IsSorted before)
Reachable-IsSorted {lower} (overridden j k a reason before) =
    subst IsSorted (sym (rules-override lower j k a reason _)) (Reachable-IsSorted before)

-- the first decision is that of a rule which no deciding rule outranks
Winner : PolicyEngine → PolicyContext → PolicyRule → List PolicyRule → Type 0
Winner e c r rs =
    (w : PolicyRule) × (d : Bool) × Among w rs
    × (first_decision e c rs ≡ some (w.rule_id, d))
    × ((consult e c w).1 ≡ some d)
    × (leℤ r.priority w.priority ≡ true)

leℤ_refl : (a : ℤ) → leℤ a a ≡ true
leℤ_refl a = ground arith

Among-All :
    (p : ℤ) (r : PolicyRule) (rs : List PolicyRule)
    → All (λ x. leℤ x.priority p ≡ true) rs
    → Among r rs
    → leℤ r.priority p ≡ true
Among-All p r [] a m = absurd m
Among-All p r (x ∷ xs) a (inl e) = subst (λ (y : PolicyRule). leℤ y.priority p ≡ true) e a.0
Among-All p r (x ∷ xs) a (inr m) = Among-All p r xs a.1 m

first_decision-Winner :
    (e : PolicyEngine) (c : PolicyContext) (r : PolicyRule) (d : Bool) (rs : List PolicyRule)
    → IsOrdered rs
    → Among r rs
    → (consult e c r).1 ≡ some d
    → Winner e c r rs
unfolding Winner
first_decision-Winner e c r d [] o m h = absurd m
first_decision-Winner e c r d (x ∷ xs) o (inl same) h =
    let decides = subst (λ (y : PolicyRule). (consult e c y).1 ≡ some d) (sym same) h in
    (
      x,
      d,
      inl refl,
      ground (arith, decides),
      decides,
      subst (λ (y : PolicyRule). leℤ y.priority x.priority ≡ true) same (leℤ_refl x.priority),
    )
first_decision-Winner e c r d (x ∷ xs) o (inr m) h = elim (Option-cases (consult e c x).1) [
  | inl passes ↦
      let (w, d', inside, first, decides, above) = first_decision-Winner e c r d xs o.1 m h in
      (w, d', inr inside, ground (arith, first, passes), decides, above)
  | inr (d', decides) ↦
      (x, d', inl refl, ground (arith, decides), decides, Among-All x.priority r xs o.0 m)
]

-- In an engine that calls on a new one reach, ids stand once and the rules in the order of their
-- priorities; if a rule of it makes a decision, enforcement follows a rule of the engine that does so
-- too and that this one does not outrank.
pub highest_rule_wins :
    (lower : String → String) (e : PolicyEngine) (c : PolicyContext) (r : PolicyRule) (d : Bool)
    → Reachable lower e
    → Among r e.rules
    → (consult e c r).1 ≡ some d
    → IsSorted e.rules
      × ((w : PolicyRule) × Among w e.rules
          × ((consult e c w).1 ≡ some (evaluate e c false).allowed)
          × ((evaluate e c false).applied_rule_id ≡ some w.rule_id)
          × (leℤ r.priority w.priority ≡ true))
unfolding Winner
highest_rule_wins lower e c r d reach m h =
    let s = Reachable-IsSorted reach in
    let (w, d', inside, first, decides, above) =
      first_decision-Winner e c r d e.rules s.ordered m h in
    let v = evaluate_lem e c in
    (s, (w, inside, ground (arith, v.0, first, decides), ground (arith, v.1, first), above))

default_rules_lem :
    (threshold : ℕ)
    → default_rules threshold
      ≡ rule "authorization_required" 100 "Request must include valid authorization"
          authorization_rule
        ∷ rule "region_allowed" 90 "Region must be permitted by policy" region_rule
        ∷ rule "risk_threshold" 80 "Risk score must stay below threshold" (risk_rule threshold)
        ∷ rule "action_not_empty" 70 "Action payload must be non-empty" action_rule
        ∷ []
unfolding default_rules with_rule sort_rules place without_rule text_dec
default_rules_lem threshold = refl

-- the engine that `new` makes, with the default rules spelled out
abbrev fresh : ℕ → PolicyEngine
fresh threshold = record {
  risk_threshold = threshold;
  rules =
      rule "authorization_required" 100 "Request must include valid authorization"
        authorization_rule
      ∷ rule "region_allowed" 90 "Region must be permitted by policy" region_rule
      ∷ rule "risk_threshold" 80 "Risk score must stay below threshold" (risk_rule threshold)
      ∷ rule "action_not_empty" 70 "Action payload must be non-empty" action_rule
      ∷ [];
  overrides = [];
}

new_lem : (threshold : ℕ) (e : PolicyEngine) → new threshold ≡ ok e → fresh threshold ≡ e
unfolding new
new_lem threshold e h = let rules = default_rules_lem threshold in ground arith

fresh-evaluate :
    (threshold : ℕ) (c : PolicyContext)
    → (evaluate (fresh threshold) c false).allowed ≡ (
        c.has_authorization
        && c.region_allowed
        && leb c.risk_score threshold
        && not (is_empty (strip c.action)))
unfolding evaluate loop consult authorization_rule region_rule risk_rule action_rule
fresh-evaluate threshold c = ground arith

-- A new engine allows a request exactly when it is authorized, its region is allowed, its risk is
-- at most the threshold and its action is not blank.
pub new-evaluate :
    (threshold : ℕ) (e : PolicyEngine) (c : PolicyContext)
    → new threshold ≡ ok e
    → (evaluate e c false).allowed ≡ (
        c.has_authorization
        && c.region_allowed
        && leb c.risk_score threshold
        && not (is_empty (strip c.action)))
new-evaluate threshold e c h =
    subst
      (λ (x : PolicyEngine). (evaluate x c false).allowed ≡ (
        c.has_authorization
        && c.region_allowed
        && leb c.risk_score threshold
        && not (is_empty (strip c.action))))
      (new_lem threshold e h) (fresh-evaluate threshold c)
