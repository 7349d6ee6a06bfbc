-- ===== src/Autoscaling/Signals.antt =====
-- The signals of src/project_mimic/predictive_autoscaling.py.
use project_mimic.Prelude.{
  length, drop, ltb, leb, if◌then◌else◌, text_dec, strip, is_empty, value_error, Result, ok, err,
  Action, ℕ, ◌+◌, ◌-◌, String, ite, ◌||◌, Option, none, some, List, [], ◌∷◌, ◌++◌,
}
use project_mimic.Dict.{lookup, insert}
use project_mimic.Json.{ℤ, pos, negsuc}
use project_mimic.Autoscaling.{
  Direction, ResourceType, ScalingPolicy, Sample, Autoscaling, non_negative, persist, normal,
  get_policy,
}

-- The means are the two sums over `recent_sample_count`, and 0 for no sample.
pub record SignalStatus : Type 0 where
  pub policy_id : String
  pub tenant_id : String
  pub resource_type : ResourceType
  pub resource_id : String
  pub sample_count : ℕ
  pub recent_sample_count : ℕ
  pub queue_recent_sum : ℕ
  pub latency_recent_sum : ℕ
  pub queue_trend : ℤ
  pub latency_trend : ℤ
  pub last_observed_at : Option ℕ
  pub last_direction : Option Direction
  pub last_desired_replicas : Option ℕ
  pub updated_at : ℕ

-- `xs[-n:]` for a positive `n`
abbrev pub last_of : {A : Type 0} → ℕ → List A → List A
last_of n xs = drop (length xs - n) xs

abbrev sum_by : (Sample → ℕ) → List Sample → ℕ
sum_by f [] = 0
sum_by f (x ∷ xs) = f x + sum_by f xs

-- `a - b`
abbrev pub minus : ℕ → ℕ → ℤ
minus a b = if leb b a then pos (a - b) else negsuc (b - a - 1)

abbrev end_of : Sample → List Sample → Sample
end_of x [] = x
end_of x (y ∷ ys) = end_of y ys

-- the last value less the first
abbrev trend : (Sample → ℕ) → List Sample → ℤ
trend f [] = pos 0
trend f (x ∷ xs) = minus (f (end_of x xs)) (f x)

abbrev last_time : List Sample → Option ℕ
last_time [] = none
last_time (x ∷ xs) = some (end_of x xs).observed_at

abbrev pub history_of : String → Autoscaling → List Sample
history_of k s = elim (lookup text_dec k s.tables.signals) [ none ↦ [] | some h ↦ h ]

-- `_signal_status`
abbrev pub signal_status : ScalingPolicy → Autoscaling → SignalStatus
signal_status p s =
    let history = history_of p.policy_id s in
    let recent =
      if ltb 0 p.limits.lookback_window
      then last_of p.limits.lookback_window history
      else history in
    record {
      policy_id = p.policy_id;
      tenant_id = p.tenant_id;
      resource_type = p.resource_type;
      resource_id = p.resource_id;
      sample_count = length history;
      recent_sample_count = length recent;
      queue_recent_sum = sum_by (λ x. x.queue_depth) recent;
      latency_recent_sum = sum_by (λ x. x.latency_ms) recent;
      queue_trend = trend (λ x. x.queue_depth) recent;
      latency_trend = trend (λ x. x.latency_ms) recent;
      last_observed_at = last_time history;
      last_direction = p.last_direction;
      last_desired_replicas = p.last_desired_replicas;
      updated_at = p.updated_at;
    }

-- the history with one more sample, the oldest dropped over 1000
abbrev pub appended : List Sample → Sample → List Sample
appended history x =
    let history' = history ++ x ∷ [] in
    if ltb 1000 (length history') then last_of 1000 history' else history'

module _ (lower : String → String) where
  unfoldable pub ingest_signal :
      String → String → ℤ → ℤ → Option ℕ → ℕ → Action Autoscaling SignalStatus
  ingest_signal policy_id tenant_id queue_depth latency_ms observed_at now s =
      elim (get_policy lower policy_id tenant_id s) [
        | err e ↦ (err e, s)
        | ok p ↦ elim (non_negative "queue_depth" queue_depth) [
          | err e ↦ (err e, s)
          | ok queue ↦ elim (non_negative "latency_ms" latency_ms) [
            | err e ↦ (err e, s)
            | ok latency ↦
                let x : Sample = record {
                  queue_depth = queue;
                  latency_ms = latency;
                  observed_at = elim observed_at [ none ↦ now | some t ↦ t ];
                } in
                let s' = persist (record s {
                  tables = record s.tables {
                    signals =
                        insert text_dec p.policy_id (appended (history_of p.policy_id s) x)
                          s.tables.signals;
                  };
                }) in
                (ok (signal_status p s'), s')
          ]
        ]
      ]

  unfoldable pub status : String → String → Autoscaling → Result (Option SignalStatus)
  status policy_id tenant_id s =
      if is_empty (normal lower policy_id) || is_empty (strip tenant_id)
      then err (value_error "policy_id and tenant_id must not be empty")
      else elim (lookup text_dec (normal lower policy_id) s.tables.policies) [
        | none ↦ ok none
        | some p ↦
            ite (text_dec p.tenant_id (strip tenant_id)) (ok (some (signal_status p s))) (ok none)
      ]
