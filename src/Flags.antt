-- ===== src/Flags.antt =====
-- src/project_mimic/feature_flags.py: the feature flags of a progressive rollout. The bucket of a
-- subject, the first 32 bits of a SHA-256 digest modulo 100, is taken from a parameter `digest`
-- for those 32 bits; each reading of the clock is an argument. `sorted({...})` gives a list
-- without repetitions in the order of a parameter `sort`.
pub mod Rollout
use project_mimic.Prelude.{
  Result-cases, ite-elim, length, length-append, replicate, keep, any, take, All, count, member,
  without, remove, count-append, count-without, count-remove_ne, count-remove_self, member-count,
  not-member-count, ltb, leb, ◌==◌, if◌then◌else◌, is_some, Bool-cases, Option-cases, ltb→lt,
  leb→le, le→leb, lt→ltb, text_dec, strip, is_empty, strip-strip, Exception, value_error, key_error,
  runtime_error, session_expired, invalid_transition, access_denied, checkpoint_recovery, Result,
  ok, err, Action, pure, raise, lift, gets, or_raise, raise_if, modify, ◌>>=◌, ◌>>◌, ℕ, zero, suc,
  ◌+◌, ◌-◌, ◌*◌, ◌/◌, ◌%◌, ◌^◌, ◌≤◌, ◌<◌, min, max, String, ◌≡◌, refl, sym, ap, ◌∙◌, subst, ◌≢◌,
  ◌↔◌, ◌⊎◌, inl, inr, ite, Bool, true, false, not, ◌&&◌, ◌||◌, Option, none, some, List, [], ◌∷◌,
  ◌++◌, map, arith, ℕ_discrete,
}
use project_mimic.Dict.{Dict, lookup, insert, erase}
use project_mimic.Json.{ℤ, pos, negsuc}

pub record Flag : Type 0 where
  pub flag_key : String
  pub description : String
  pub enabled : Bool
  pub rollout_percentage : ℕ
  pub tenant_allowlist : List String
  pub subject_allowlist : List String
  pub metadata : Dict String String
  pub created_at : ℕ
  pub updated_at : ℕ

pub record FlagService : Type 0 where
  pub flags : Dict String Flag
  pub saved : Option (Dict String Flag)

pub data Reason : Type 0 where
  flag_disabled tenant_not_allowlisted subject_allowlisted rollout_match rollout_excluded : Reason

pub record Evaluation : Type 0 where
  pub flag_key : String
  pub subject_key : String
  pub tenant_id : String
  pub enabled : Bool
  pub reason : Reason
  pub bucket : Option ℕ
  pub rollout_percentage : ℕ
  pub matched_allowlist : Bool
  pub evaluated_at : ℕ

-- an integer from 0 to 100
abbrev pub percentage : ℤ → Option ℕ
percentage (pos n) = if ltb 100 n then none else some n
percentage (negsuc n) = none

-- `{item.strip() for item in items if item.strip()}`
abbrev pub stripped_set : List String → List String
stripped_set [] = []
stripped_set (x ∷ xs) =
    let rest = stripped_set xs in
    if is_empty (strip x) then rest else strip x ∷ without text_dec (strip x) rest

-- `float(existing.get("created_at", now))`
abbrev pub created : ℕ → Option Flag → ℕ
created now none = now
created now (some f) = f.created_at

module _ (sort : List String → List String) where
  unfoldable pub upsert :
      String
      → String
      → Bool
      → ℤ
      → List String
      → List String
      → Dict String String
      → ℕ
      → FlagService
      → Result Flag × FlagService
  upsert flag_key description enabled rollout tenants subjects metadata now s =
      let key = strip flag_key in
      if is_empty key
      then (err (value_error "flag_key must not be empty"), s)
      else elim (percentage rollout) [
        | none ↦ (err (value_error "rollout_percentage must be between 0 and 100"), s)
        | some p ↦
            let f : Flag = record {
              flag_key = key;
              description = description;
              enabled = enabled;
              rollout_percentage = p;
              tenant_allowlist = sort (stripped_set tenants);
              subject_allowlist = sort (stripped_set subjects);
              metadata = metadata;
              created_at = created now (lookup text_dec key s.flags);
              updated_at = now;
            } in
            let flags' = insert text_dec key f s.flags in
            (ok f, record s { flags = flags'; saved = some flags' })
      ]

unfoldable pub get : String → FlagService → Result Flag
get flag_key s = elim (lookup text_dec flag_key s.flags) [
  | none ↦ err (key_error flag_key)
  | some f ↦ ok f
]

unfoldable pub delete : String → FlagService → Result Flag × FlagService
delete flag_key s = elim (lookup text_dec flag_key s.flags) [
  | none ↦ (err (key_error flag_key), s)
  | some f ↦
      let flags' = erase text_dec flag_key s.flags in
      (ok f, record s { flags = flags'; saved = some flags' })
]

module _ (digest : String → String → ℕ) where
  -- `_stable_bucket`
  abbrev pub stable_bucket : String → String → ℕ
  stable_bucket flag_key subject_key = digest flag_key subject_key % 100

  -- `evaluate` once the flag is found and the arguments are stripped
  unfoldable pub evaluate_flag : Flag → String → String → ℕ → Evaluation
  evaluate_flag f subject tenant now =
      let answer : Evaluation = record {
        flag_key = f.flag_key;
        subject_key = subject;
        tenant_id = tenant;
        enabled = false;
        reason = flag_disabled;
        bucket = none;
        rollout_percentage = f.rollout_percentage;
        matched_allowlist = false;
        evaluated_at = now;
      } in
      let bucket = stable_bucket f.flag_key subject in
      if not f.enabled
      then answer
      else if ltb 0 (length f.tenant_allowlist) && not (member text_dec tenant f.tenant_allowlist)
      then record answer { reason = tenant_not_allowlisted }
      else if member text_dec subject f.subject_allowlist
      then record answer { enabled = true; reason = subject_allowlisted; matched_allowlist = true }
      else record answer {
        enabled = ltb bucket f.rollout_percentage;
        reason = if ltb bucket f.rollout_percentage then rollout_match else rollout_excluded;
        bucket = some bucket;
      }

  unfoldable pub evaluate : String → String → String → ℕ → FlagService → Result Evaluation
  evaluate flag_key subject_key tenant_id now s = elim (get flag_key s) [
    | err e ↦ err e
    | ok f ↦
        if is_empty (strip subject_key)
        then err (value_error "subject_key must not be empty")
        else if is_empty (strip tenant_id)
        then err (value_error "tenant_id must not be empty")
        else ok (evaluate_flag f (strip subject_key) (strip tenant_id) now)
  ]
