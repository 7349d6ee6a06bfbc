-- ===== src/Tests/Scaling.antt =====
-- Runs of the scaling policies: src/project_mimic/predictive_autoscaling.py.
use project_mimic.Prelude.{
  round_div, text_dec, strip, Result, ok, err, String, ◌≡◌, refl, none, [], arith,
}
use project_mimic.Json.{pos}
use project_mimic.Autoscaling.{
  hold, worker, LimitsRequest, ScalingPolicy, Autoscaling, upsert_policy, validated, get_policy,
}
use project_mimic.Autoscaling.Signals.{ingest_signal}
use project_mimic.Autoscaling.Recommend.{
  Recommendation, within_target_band, recommend, decided, proposed, confidence_of,
}
use project_mimic.Autoscaling.Policies.{Reachable, begin, upserts, ingests}
use project_mimic.Autoscaling.Bounds.{IsRecommended, recommend-IsWithin, recommend-recommend}

abbrev same : String → String
same s = s

abbrev small : LimitsRequest
small = record {
  min_replicas = pos 1;
  max_replicas = pos 4;
  scale_up_step = pos 2;
  scale_down_step = pos 1;
  queue_depth_target = pos 10;
  latency_ms_target = pos 10;
  lookback_window = pos 2;
  cooldown_seconds = pos 60;
}

abbrev empty_scaling : Autoscaling
empty_scaling = record { tables = record { policies = []; signals = [] }; saved = none }

abbrev scaled : Autoscaling
scaled = (upsert_policy same "web" "acme" "worker" "w" small 5 empty_scaling).1

abbrev loaded : Autoscaling
loaded =
    (ingest_signal same "web" "acme" (pos 40) (pos 20) none 7
      (ingest_signal same "web" "acme" (pos 30) (pos 20) none 6 scaled).1).1

loaded-Reachable : Reachable same loaded
loaded-Reachable = ingests "web" "acme" (pos 40) (pos 20) none 7 (
    ingests "web" "acme" (pos 30) (pos 20) none 6 (upserts "web" "acme" "worker" "w" small 5 begin))

abbrev answer_of : Result Recommendation → Recommendation
answer_of (ok r) = r
answer_of (err e) = record {
  policy_id = "";
  tenant_id = "";
  resource_type = worker;
  resource_id = "";
  direction = hold;
  current_replicas = 0;
  bounded_current_replicas = 0;
  desired_replicas = 0;
  min_replicas = 0;
  max_replicas = 0;
  queue_pressure = 0;
  latency_pressure = 0;
  queue_trend = pos 0;
  latency_trend = pos 0;
  confidence = 0;
  reason = within_target_band;
  evaluated_at = 0;
}

abbrev scaling : ScalingPolicy
scaling = record {
  policy_id = "web";
  tenant_id = "acme";
  resource_type = worker;
  resource_id = "w";
  limits = record {
    min_replicas = 1;
    max_replicas = 4;
    scale_up_step = 2;
    scale_down_step = 1;
    queue_depth_target = 10;
    latency_ms_target = 10;
    lookback_window = 2;
    cooldown_seconds = 60;
  };
  last_recommendation_at = none;
  last_direction = none;
  last_desired_replicas = none;
  updated_at = 5;
}

abbrev first_answer : Recommendation
first_answer = answer_of (recommend same "web" "acme" (pos 1) 8 loaded).0

abbrev later : Autoscaling
later = (recommend same "web" "acme" (pos 1) 8 loaded).1

abbrev second_answer : Recommendation
second_answer = answer_of (recommend same "web" "acme" (pos 3) 30 later).0

scaling-known : get_policy same "web" "acme" loaded ≡ ok scaling
unfolding text_dec strip upsert_policy validated ingest_signal get_policy
scaling-known = refl

first-known : (recommend same "web" "acme" (pos 1) 8 loaded).0 ≡ ok first_answer
unfolding text_dec strip upsert_policy validated ingest_signal get_policy recommend decided proposed
    confidence_of round_div
first-known = refl

second-known : (recommend same "web" "acme" (pos 3) 30 later).0 ≡ ok second_answer
unfolding text_dec strip upsert_policy validated ingest_signal get_policy recommend decided proposed
    confidence_of round_div
second-known = refl

recommend-IsWithin_example : IsRecommended same scaling 1 first_answer
recommend-IsWithin_example =
    recommend-IsWithin same {s = loaded} loaded-Reachable "web" "acme" 1 8 scaling first_answer
      scaling-known first-known

recommend-recommend_example : second_answer.direction ≡ hold
unfolding text_dec strip upsert_policy validated ingest_signal
recommend-recommend_example =
    recommend-recommend same "web" "acme" "acme" (pos 1) (pos 3) 8 30 loaded scaling first_answer
      second_answer scaling-known (omega arith) (omega arith) first-known second-known
