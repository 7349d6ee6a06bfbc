-- ===== src/Autoscaling.antt =====
-- src/project_mimic/predictive_autoscaling.py: scaling policies and what they recommend. Queue
-- depths and latencies are in steps of 0.000001, so that a target that is positive is at least the
-- least divisor of the source; quotients are kept as sums and counts until they are rounded.
pub mod Signals
pub mod Recommend
pub mod Policies
pub mod Bounds
use project_mimic.Prelude.{
  All-weaken, if_both, le_text, sort_by, keep-sort_by, length-sort_by, All-sort_by, IsSortedBy,
  sort_by-IsSortedBy, member-sort_by, Result-cases, round_div, ite-elim, length, length-append,
  replicate, keep, any, take, drop, All, count, member, without, remove, count-append,
  count-without, count-remove_ne, count-remove_self, member-count, not-member-count, ltb, leb, ◌==◌,
  if◌then◌else◌, is_some, Bool-cases, Option-cases, ltb→lt, leb→le, le→leb, lt→ltb, text_dec, strip,
  joined, is_empty, strip-strip, Exception, value_error, key_error, runtime_error, session_expired,
  invalid_transition, access_denied, checkpoint_recovery, Result, ok, err, Action, pure, raise,
  lift, gets, or_raise, raise_if, modify, ◌>>=◌, ◌>>◌, ℕ, zero, suc, ◌+◌, ◌-◌, ◌*◌, ◌/◌, ◌%◌, ◌^◌,
  ◌≤◌, ◌<◌, min, max, String, ◌≡◌, refl, sym, ap, ◌∙◌, subst, ◌≢◌, ◌↔◌, ◌⊎◌, inl, inr, ite, Bool,
  true, false, not, ◌&&◌, ◌||◌, Option, none, some, List, [], ◌∷◌, ◌++◌, map, arith, ℕ_discrete,
}
use project_mimic.Dict.{Dict, lookup, insert}
use project_mimic.Json.{ℤ, pos, negsuc}

pub data ResourceType : Type 0 where
  model worker : ResourceType

pub data Direction : Type 0 where
  hold scale_up scale_down : Direction

-- the numbers of a policy
pub record Limits : Type 0 where
  pub min_replicas : ℕ
  pub max_replicas : ℕ
  pub scale_up_step : ℕ
  pub scale_down_step : ℕ
  pub queue_depth_target : ℕ
  pub latency_ms_target : ℕ
  pub lookback_window : ℕ
  pub cooldown_seconds : ℕ

-- the numbers that a caller gives
pub record LimitsRequest : Type 0 where
  pub min_replicas : ℤ
  pub max_replicas : ℤ
  pub scale_up_step : ℤ
  pub scale_down_step : ℤ
  pub queue_depth_target : ℤ
  pub latency_ms_target : ℤ
  pub lookback_window : ℤ
  pub cooldown_seconds : ℤ

pub record ScalingPolicy : Type 0 where
  pub policy_id : String
  pub tenant_id : String
  pub resource_type : ResourceType
  pub resource_id : String
  pub limits : Limits
  pub last_recommendation_at : Option ℕ
  pub last_direction : Option Direction
  pub last_desired_replicas : Option ℕ
  pub updated_at : ℕ

pub record Sample : Type 0 where
  pub queue_depth : ℕ
  pub latency_ms : ℕ
  pub observed_at : ℕ

pub record ScalingTables : Type 0 where
  pub policies : Dict String ScalingPolicy
  pub signals : Dict String (List Sample)

pub record Autoscaling : Type 0 where
  pub tables : ScalingTables
  pub saved : Option ScalingTables

-- `_persist`
abbrev pub persist : Autoscaling → Autoscaling
persist s = record s { saved = some s.tables }

abbrev pub set_policy : String → ScalingPolicy → Autoscaling → Autoscaling
set_policy k p s = record s {
  tables = record s.tables { policies = insert text_dec k p s.tables.policies };
}

-- a call whose result the next one takes
abbrev pub and_then : {A : Type 0} {B : Type 0} → Result A → (A → Result B) → Result B
and_then (ok a) f = f a
and_then (err e) f = err e

abbrev at_least : ℕ → String → String → ℤ → Result ℕ
at_least least name message (pos n) =
    if leb least n then ok n else err (value_error (joined name message))
at_least least name message (negsuc n) = err (value_error (joined name message))

-- `_validated_positive_int` and `_validated_positive_float`
abbrev positive : String → ℤ → Result ℕ
positive name z = at_least 1 name " must be positive" z

-- `_validated_non_negative_int` and `_validated_non_negative_float`
abbrev pub non_negative : String → ℤ → Result ℕ
non_negative name z = at_least 0 name " must be non-negative" z

-- the tests of the numbers, in order
unfoldable pub validated : LimitsRequest → Result Limits
validated r = and_then (positive "min_replicas" r.min_replicas) (λ low.
    and_then (positive "max_replicas" r.max_replicas) (λ high.
      and_then
        (if ltb high low
          then err (value_error "max_replicas must be greater than or equal to min_replicas")
          else ok high)
        (λ high'. and_then (positive "scale_up_step" r.scale_up_step) (λ up.
          and_then (positive "scale_down_step" r.scale_down_step) (λ down.
            and_then (positive "queue_depth_target" r.queue_depth_target) (λ queue.
              and_then (positive "latency_ms_target" r.latency_ms_target) (λ latency.
                and_then
                  (at_least 2 "lookback_window" " must be greater than or equal to 2"
                    r.lookback_window)
                  (λ window.
                    and_then (non_negative "cooldown_seconds" r.cooldown_seconds) (λ cooldown.
                      ok (record {
                        min_replicas = low;
                        max_replicas = high';
                        scale_up_step = up;
                        scale_down_step = down;
                        queue_depth_target = queue;
                        latency_ms_target = latency;
                        lookback_window = window;
                        cooldown_seconds = cooldown;
                      }))))))))))

abbrev pub resource_of : String → Option ResourceType
resource_of s = ite (text_dec s "model") (some model) (ite (text_dec s "worker") (some worker) none)

-- the policy that `upsert_policy` writes, beside the one that is there
abbrev pub policy_of :
    String → String → ResourceType → String → Limits → ℕ → Option ScalingPolicy → ScalingPolicy
policy_of k tenant kind resource limits now none = record {
  policy_id = k;
  tenant_id = tenant;
  resource_type = kind;
  resource_id = resource;
  limits = limits;
  last_recommendation_at = none;
  last_direction = none;
  last_desired_replicas = none;
  updated_at = now;
}
policy_of k tenant kind resource limits now (some p) = record p {
  policy_id = k;
  tenant_id = tenant;
  resource_type = kind;
  resource_id = resource;
  limits = limits;
  updated_at = now;
}

abbrev of_tenant : String → Dict String ScalingPolicy → List ScalingPolicy
of_tenant tenant [] = []
of_tenant tenant ((k, p) ∷ d) =
    let rest = of_tenant tenant d in
    if is_empty tenant || ite (text_dec p.tenant_id tenant) true false then p ∷ rest else rest

-- the tenant to list, blank for all
abbrev filter_of : Option String → String
filter_of none = ""
filter_of (some t) = strip t

unfoldable pub list_policies : Option String → Autoscaling → List ScalingPolicy
list_policies tenant s =
    of_tenant (filter_of tenant) (sort_by (λ x y. le_text x.0 y.0) s.tables.policies)

module _ (lower : String → String) where
  -- `s.strip().lower()`
  abbrev pub normal : String → String
  normal s = lower (strip s)

  unfoldable pub upsert_policy :
      String → String → String → String → LimitsRequest → ℕ → Action Autoscaling ScalingPolicy
  upsert_policy policy_id tenant_id resource_type resource_id request now s =
      let k = normal policy_id in
      if is_empty k
      then (err (value_error "policy_id must not be empty"), s)
      else if is_empty (strip tenant_id)
      then (err (value_error "tenant_id must not be empty"), s)
      else elim (resource_of (normal resource_type)) [
        | none ↦ (err (value_error "resource_type must be one of model|worker"), s)
        | some kind ↦
            if is_empty (strip resource_id)
            then (err (value_error "resource_id must not be empty"), s)
            else elim (validated request) [
              | err e ↦ (err e, s)
              | ok limits ↦
                  let p =
                    policy_of k (strip tenant_id) kind (strip resource_id) limits now
                      (lookup text_dec k s.tables.policies) in
                  (ok p, persist (set_policy k p s))
            ]
      ]

  -- `_get_policy_for_tenant`
  unfoldable pub get_policy : String → String → Autoscaling → Result ScalingPolicy
  get_policy policy_id tenant_id s =
      if is_empty (normal policy_id)
      then err (value_error "policy_id must not be empty")
      else if is_empty (strip tenant_id)
      then err (value_error "tenant_id must not be empty")
      else elim (lookup text_dec (normal policy_id) s.tables.policies) [
        | none ↦ err (value_error "policy not found")
        | some p ↦
            ite (text_dec p.tenant_id (strip tenant_id)) (ok p)
              (err (value_error "policy does not belong to tenant"))
      ]
