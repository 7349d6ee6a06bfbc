-- ===== src/Flags/Rollout.antt =====
-- Who sees a feature as its rollout widens.
use project_mimic.Prelude.{
  member, if◌then◌else◌, text_dec, strip, is_empty, Result, ok, err, ℕ, ◌≤◌, String, ◌≡◌, ◌⊎◌, inl,
  inr, ite, Bool, true, false, Option, none, some, List, [], arith,
}
use project_mimic.Dict.{Dict, lookup, lookup-insert}
use project_mimic.Json.{pos}
use project_mimic.Flags.{
  Flag, FlagService, Evaluation, upsert, get, evaluate, evaluate_flag, created, stripped_set,
}

-- the answer's `enabled`; a call that raises shows no feature
abbrev pub seen : Result Evaluation → Bool
seen (err e) = false
seen (ok a) = a.enabled

evaluate_flag-widen :
    (digest : String → String → ℕ) (f : Flag) (subject tenant : String) (p later : ℕ)
    → (evaluate_flag digest f subject tenant later).enabled ≡ true
    → f.rollout_percentage ≤ p
    → (evaluate_flag digest (record f { rollout_percentage = p }) subject tenant later).enabled
      ≡ true
unfolding evaluate_flag
evaluate_flag-widen digest f subject tenant p later on wider = ground arith

-- what `evaluate` shows of the flag that it finds
abbrev shown : (String → String → ℕ) → String → String → ℕ → Option Flag → Bool
shown digest subject tenant later none = false
shown digest subject tenant later (some f) =
    if is_empty (strip subject)
    then false
    else if is_empty (strip tenant)
    then false
    else (evaluate_flag digest f (strip subject) (strip tenant) later).enabled

evaluate-shown :
    (digest : String → String → ℕ) (flag_key subject tenant : String) (later : ℕ) (s : FlagService)
    → seen (evaluate digest flag_key subject tenant later s)
      ≡ shown digest subject tenant later (lookup text_dec flag_key s.flags)
unfolding evaluate get
evaluate-shown digest flag_key subject tenant later s = ground arith

shown-widen :
    (digest : String → String → ℕ) (subject tenant : String) (later p : ℕ) (f : Flag)
    → f.rollout_percentage ≤ p
    → shown digest subject tenant later (some f) ≡ true
    → shown digest subject tenant later (some (record f { rollout_percentage = p })) ≡ true
shown-widen digest subject tenant later p f wider on =
    let w = evaluate_flag-widen digest f (strip subject) (strip tenant) p later in ground arith

module _ (sort : List String → List String) (key description : String) (enabled : Bool)
    (tenants subjects : List String) (metadata : Dict String String) (now : ℕ)
    (s : FlagService) where
  abbrev put : ℕ → FlagService
  put p = (upsert sort key description enabled (pos p) tenants subjects metadata now s).1

  -- the flag that `upsert` stores
  abbrev flag_at : ℕ → Flag
  flag_at p = record {
    flag_key = strip key;
    description = description;
    enabled = enabled;
    rollout_percentage = p;
    tenant_allowlist = sort (stripped_set tenants);
    subject_allowlist = sort (stripped_set subjects);
    metadata = metadata;
    created_at = created now (lookup text_dec (strip key) s.flags);
    updated_at = now;
  }

  lookup-put :
      (p : ℕ) (k : String)
      → p ≤ 100
      → lookup text_dec k (put p).flags ≡ (
          if is_empty (strip key)
          then lookup text_dec k s.flags
          else ite (text_dec (strip key) k) (some (flag_at p)) (lookup text_dec k s.flags))
  unfolding upsert
  lookup-put p k bound =
      let li = lookup-insert text_dec (strip key) k (flag_at p) s.flags in ground arith

-- Whoever sees some feature when a flag is set with a rollout of `a` percent sees it when the flag
-- is set with the same arguments and `b` percent, for `a ≤ b ≤ 100`.
pub widen :
    (sort : List String → List String) (digest : String → String → ℕ) (key description : String)
    (enabled : Bool) (a b : ℕ) (tenants subjects : List String) (metadata : Dict String String)
    (now : ℕ) (s : FlagService) (flag_key subject tenant : String) (later : ℕ)
    → a ≤ b
    → b ≤ 100
    → seen (
        evaluate digest flag_key subject tenant later
          (upsert sort key description enabled (pos a) tenants subjects metadata now s).1)
      ≡ true
    → seen (
        evaluate digest flag_key subject tenant later
          (upsert sort key description enabled (pos b) tenants subjects metadata now s).1)
      ≡ true
widen sort digest key description enabled a b tenants subjects metadata now s flag_key subject
      tenant later wider bound on =
    let va =
      evaluate-shown digest flag_key subject tenant later
        (put sort key description enabled tenants subjects metadata now s a) in
    let vb =
      evaluate-shown digest flag_key subject tenant later
        (put sort key description enabled tenants subjects metadata now s b) in
    let la =
      lookup-put sort key description enabled tenants subjects metadata now s a flag_key
        (omega arith) in
    let lb =
      lookup-put sort key description enabled tenants subjects metadata now s b flag_key bound in
    let w =
      shown-widen digest subject tenant later b
        (flag_at sort key description enabled tenants subjects metadata now s a) wider in
    ground arith

-- With a flag on and the tenant let in, a rollout of 100 percent lets every subject in, and one of
-- 0 percent those that the allowlist names.
rollout_ends :
    (digest : String → String → ℕ) (f : Flag) (subject tenant : String) (now : ℕ)
    → f.enabled ≡ true
    → member text_dec tenant f.tenant_allowlist ≡ true ⊎ f.tenant_allowlist ≡ []
    → ((evaluate_flag digest (record f { rollout_percentage = 100 }) subject tenant now).enabled
        ≡ true)
      × ((evaluate_flag digest (record f { rollout_percentage = 0 }) subject tenant now).enabled
          ≡ member text_dec subject f.subject_allowlist)
unfolding evaluate_flag
rollout_ends digest f subject tenant now on (inl t) = (ground arith, ground arith)
rollout_ends digest f subject tenant now on (inr t) = (ground arith, ground arith)
