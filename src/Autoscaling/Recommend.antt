-- ===== src/Autoscaling/Recommend.antt =====
-- `recommend` of src/project_mimic/predictive_autoscaling.py.
use project_mimic.Prelude.{
  round_div, ltb, leb, if◌then◌else◌, value_error, ok, err, Action, ℕ, ◌+◌, ◌-◌, ◌*◌, min, max,
  String, Bool, true, false, not, ◌&&◌, ◌||◌, Option, none, some,
}
use project_mimic.Json.{ℤ, pos, negsuc}
use project_mimic.Autoscaling.{
  Direction, hold, scale_up, scale_down, ResourceType, Limits, ScalingPolicy, Autoscaling,
  non_negative, persist, set_policy, normal, get_policy,
}
use project_mimic.Autoscaling.Signals.{SignalStatus, signal_status}

pub data RecommendationReason : Type 0 where
  within_target_band cooldown_active : RecommendationReason
  queue_or_latency_above_target_with_upward_trend : RecommendationReason
  queue_and_latency_below_target_with_downward_trend : RecommendationReason

-- the pressures, trends and the confidence are in steps of 0.000001
pub record Recommendation : Type 0 where
  pub policy_id : String
  pub tenant_id : String
  pub resource_type : ResourceType
  pub resource_id : String
  pub direction : Direction
  pub current_replicas : ℕ
  pub bounded_current_replicas : ℕ
  pub desired_replicas : ℕ
  pub min_replicas : ℕ
  pub max_replicas : ℕ
  pub queue_pressure : ℕ
  pub latency_pressure : ℕ
  pub queue_trend : ℤ
  pub latency_trend : ℤ
  pub confidence : ℕ
  pub reason : RecommendationReason
  pub evaluated_at : ℕ

abbrev is_rising : ℤ → Bool
is_rising (pos n) = ltb 0 n
is_rising (negsuc n) = false

abbrev magnitude : ℤ → ℕ
magnitude (pos n) = n
magnitude (negsuc n) = n + 1

-- `abs(a - b)`
abbrev distance : ℕ → ℕ → ℕ
distance a b = (a - b) + (b - a)

-- the divisor of a pressure: the samples times the target
abbrev divisor : ℕ → SignalStatus → ℕ
divisor target s = max s.recent_sample_count 1 * max target 1

abbrev pub should_scale_up : Limits → SignalStatus → Bool
should_scale_up l s =
    (leb (11 * divisor l.queue_depth_target s) (10 * s.queue_recent_sum)
      || leb (11 * divisor l.latency_ms_target s) (10 * s.latency_recent_sum))
    && (is_rising s.queue_trend || is_rising s.latency_trend)

abbrev pub should_scale_down : Limits → SignalStatus → Bool
should_scale_down l s =
    (leb (10 * s.queue_recent_sum) (7 * divisor l.queue_depth_target s)
      && leb (4 * s.latency_recent_sum) (3 * divisor l.latency_ms_target s))
    && (not (is_rising s.queue_trend) && not (is_rising s.latency_trend))

-- `max(min_replicas, min(max_replicas, current))`
abbrev pub bounded : Limits → ℕ → ℕ
bounded l current = max l.min_replicas (min l.max_replicas current)

pub record Decision : Type 0 where
  pub direction : Direction
  pub desired : ℕ
  pub reason : RecommendationReason

abbrev pub held : ℕ → RecommendationReason → Decision
held n why = record { direction = hold; desired = n; reason = why }

-- the direction before the cooldown
unfoldable pub proposed : Limits → SignalStatus → ℕ → Decision
proposed l s current =
    if should_scale_up l s && ltb current l.max_replicas
    then record {
      direction = scale_up;
      desired = min l.max_replicas (current + l.scale_up_step);
      reason = queue_or_latency_above_target_with_upward_trend;
    }
    else if should_scale_down l s && ltb l.min_replicas current
    then record {
      direction = scale_down;
      desired = max l.min_replicas (current - l.scale_down_step);
      reason = queue_and_latency_below_target_with_downward_trend;
    }
    else held current within_target_band

abbrev pub is_hold : Direction → Bool
is_hold hold = true
is_hold scale_up = false
is_hold scale_down = false

-- whether the last recommendation is less than the cooldown ago
abbrev pub is_cooling : ℕ → ℕ → Option ℕ → Bool
is_cooling cooldown now none = false
is_cooling cooldown now (some last) = ltb 0 cooldown && ltb now (last + cooldown)

unfoldable pub decided : Limits → SignalStatus → Option ℕ → ℕ → ℕ → Decision
unfolding proposed
decided l s last now current =
    let d = proposed l s current in
    if not (is_hold d.direction) && is_cooling l.cooldown_seconds now last
    then held current cooldown_active
    else d

-- `round(confidence, 6)`: the confidence is the quotient of the first two, at most 1, or 0.65
unfoldable pub confidence_of : Limits → SignalStatus → Direction → ℕ
confidence_of l s direction =
    let queue = divisor l.queue_depth_target s in
    let latency = divisor l.latency_ms_target s in
    let pressure_delta =
      max (distance s.queue_recent_sum queue * latency)
        (distance s.latency_recent_sum latency * queue) in
    let count = max s.recent_sample_count 1 in
    let trend_delta =
      max (magnitude s.queue_trend * count * latency) (magnitude s.latency_trend * count * queue) in
    let unit = queue * latency in
    let confidence = min (100 * unit) (45 * unit + 35 * pressure_delta + 20 * trend_delta) in
    round_div ((if is_hold direction then min confidence (65 * unit) else confidence) * 1000000)
      (100 * unit)

-- what `recommend` answers
abbrev pub answer : ScalingPolicy → SignalStatus → ℕ → Decision → ℕ → Recommendation
answer p s current d now = record {
  policy_id = p.policy_id;
  tenant_id = p.tenant_id;
  resource_type = p.resource_type;
  resource_id = p.resource_id;
  direction = d.direction;
  current_replicas = current;
  bounded_current_replicas = bounded p.limits current;
  desired_replicas = d.desired;
  min_replicas = p.limits.min_replicas;
  max_replicas = p.limits.max_replicas;
  queue_pressure = round_div (s.queue_recent_sum * 1000000) (divisor p.limits.queue_depth_target s);
  latency_pressure =
      round_div (s.latency_recent_sum * 1000000) (divisor p.limits.latency_ms_target s);
  queue_trend = s.queue_trend;
  latency_trend = s.latency_trend;
  confidence = confidence_of p.limits s d.direction;
  reason = d.reason;
  evaluated_at = now;
}

module _ (lower : String → String) where
  unfoldable pub recommend : String → String → ℤ → ℕ → Action Autoscaling Recommendation
  recommend policy_id tenant_id current_replicas now s =
      elim (get_policy lower policy_id tenant_id s) [
        | err e ↦ (err e, s)
        | ok p ↦
            let signals = signal_status p s in
            if leb signals.sample_count 0
            then (
              err (value_error "at least one signal sample is required before recommendation"),
              s,
            )
            else elim (non_negative "current_replicas" current_replicas) [
              | err e ↦ (err e, s)
              | ok current ↦
                  let d =
                    decided p.limits signals p.last_recommendation_at now
                      (bounded p.limits current) in
                  let p' = record p {
                    last_recommendation_at = some now;
                    last_direction = some d.direction;
                    last_desired_replicas = some d.desired;
                  } in
                  (
                    ok (answer p signals current d now),
                    persist (set_policy (normal lower policy_id) p' s),
                  )
            ]
      ]
