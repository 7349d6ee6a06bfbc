-- ===== src/Autoscaling/Policies.antt =====
-- The policies that the calls of src/project_mimic/predictive_autoscaling.py keep.
use project_mimic.Prelude.{
  if_both, Result-cases, All, leb, Option-cases, text_dec, strip, is_empty, Result, ok, ℕ, ◌≤◌,
  String, ◌≡◌, refl, inl, inr, Option, none, some, [], arith,
}
use project_mimic.Dict.{lookup, All-found, All-insert}
use project_mimic.Json.{ℤ}
use project_mimic.Autoscaling.{
  ResourceType, resource_of, Limits, LimitsRequest, ScalingPolicy, Autoscaling, non_negative,
  validated, persist, set_policy, policy_of, normal, get_policy, upsert_policy,
}
use project_mimic.Autoscaling.Signals.{signal_status, ingest_signal}
use project_mimic.Autoscaling.Recommend.{Recommendation, decided, bounded, recommend}

validated_lem :
    (r : LimitsRequest) (l : Limits) → validated r ≡ ok l → l.min_replicas ≤ l.max_replicas
unfolding validated
validated_lem r l h = ground (arith, h)

-- a policy that is kept under its id, with limits in order
pub record IsSound (k : String) (p : ScalingPolicy) : Type 0 where
  pub own_id : p.policy_id ≡ k
  pub in_order : p.limits.min_replicas ≤ p.limits.max_replicas

abbrev pub AllSound : Autoscaling → Type 0
AllSound s = All (λ (x : String × ScalingPolicy). IsSound x.0 x.1) s.tables.policies

AllSound-set_policy :
    (k : String) (p : ScalingPolicy) (s : Autoscaling)
    → IsSound k p
    → AllSound s
    → AllSound (persist (set_policy k p s))
AllSound-set_policy k p s v a =
    All-insert text_dec (λ (x : String × ScalingPolicy). IsSound x.0 x.1) k p s.tables.policies v a

policy_of-IsSound :
    (k tenant : String) (kind : ResourceType) (resource : String) (l : Limits) (now : ℕ)
    (o : Option ScalingPolicy)
    → l.min_replicas ≤ l.max_replicas
    → IsSound k (policy_of k tenant kind resource l now o)
policy_of-IsSound k tenant kind resource l now none h = record { own_id = refl; in_order = h }
policy_of-IsSound k tenant kind resource l now (some p) h = record { own_id = refl; in_order = h }

module _ (lower : String → String) where
  AllSound-upsert_policy :
      (policy_id tenant_id resource_type resource_id : String) (request : LimitsRequest) (now : ℕ)
      (s : Autoscaling)
      → AllSound s
      → AllSound (upsert_policy lower policy_id tenant_id resource_type resource_id request now s).1
  unfolding upsert_policy
  AllSound-upsert_policy policy_id tenant_id resource_type resource_id request now s a =
      let P : Result ScalingPolicy × Autoscaling → Type 0 = λ x. AllSound x.1 in
      let k = normal lower policy_id in
      elim (Result-cases (validated request)) [
        | inr (e, bad) ↦ if_both P (is_empty k) _ _ a (
            if_both P (is_empty (strip tenant_id)) _ _ a
              (elim (Option-cases (resource_of (normal lower resource_type))) [
                | inl odd ↦ rw odd a
                | inr (kind, known) ↦
                    rw (known, bad) (if_both P (is_empty (strip resource_id)) _ _ a a)
              ]))
        | inl (l, good) ↦ if_both P (is_empty k) _ _ a (
            if_both P (is_empty (strip tenant_id)) _ _ a
              (elim (Option-cases (resource_of (normal lower resource_type))) [
                | inl odd ↦ rw odd a
                | inr (kind, known) ↦
                    rw (known, good)
                      (if_both P (is_empty (strip resource_id)) _ _ a (
                        AllSound-set_policy k
                          (policy_of k (strip tenant_id) kind (strip resource_id) l now
                            (lookup text_dec k s.tables.policies))
                          s
                          (policy_of-IsSound k (strip tenant_id) kind (strip resource_id) l now
                            (lookup text_dec k s.tables.policies) (validated_lem request l good))
                          a))
              ]))
      ]

  pub get_policy-found :
      (policy_id tenant_id : String) (s : Autoscaling) (p : ScalingPolicy)
      → get_policy lower policy_id tenant_id s ≡ ok p
      → lookup text_dec (normal lower policy_id) s.tables.policies ≡ some p
  unfolding get_policy
  get_policy-found policy_id tenant_id s p h =
      elim (Option-cases (lookup text_dec (normal lower policy_id) s.tables.policies)) [
        | inl missing ↦ absurd (ground (arith, missing, h))
        | inr (q, found) ↦ ground (arith, found, h)
      ]

  AllSound-ingest_signal :
      (policy_id tenant_id : String) (queue latency : ℤ) (observed : Option ℕ) (now : ℕ)
      (s : Autoscaling)
      → AllSound s
      → AllSound (ingest_signal lower policy_id tenant_id queue latency observed now s).1
  unfolding ingest_signal
  AllSound-ingest_signal policy_id tenant_id queue latency observed now s a =
      elim (Result-cases (get_policy lower policy_id tenant_id s)) [
        | inr (e, bad) ↦ rw (bad, ingest_signal) a
        | inl (p, good) ↦ elim (Result-cases (non_negative "queue_depth" queue)) [
          | inr (e, bad) ↦ rw (good, bad, ingest_signal) a
          | inl (n, fine) ↦ elim (Result-cases (non_negative "latency_ms" latency)) [
            | inr (e, bad) ↦ rw (good, fine, bad, ingest_signal) a
            | inl (m, fine') ↦ rw (good, fine, fine', ingest_signal) a
          ]
        ]
      ]

  AllSound-recommend :
      (policy_id tenant_id : String) (current : ℤ) (now : ℕ) (s : Autoscaling)
      → AllSound s
      → AllSound (recommend lower policy_id tenant_id current now s).1
  unfolding recommend
  AllSound-recommend policy_id tenant_id current now s a =
      elim (Result-cases (get_policy lower policy_id tenant_id s)) [
        | inr (e, bad) ↦ rw (bad, recommend) a
        | inl (p, good) ↦
            let sound =
              All-found text_dec (λ (x : String × ScalingPolicy). IsSound x.0 x.1) s.tables.policies
                (normal lower policy_id) p a (get_policy-found policy_id tenant_id s p good) in
            elim (Result-cases (non_negative "current_replicas" current)) [
              | inr (e, bad) ↦
                  rw (good, bad, recommend)
                    (if_both P (leb (signal_status p s).sample_count 0) _ _ a a)
              | inl (n, fine) ↦
                  rw (good, fine, recommend)
                    (if_both P (leb (signal_status p s).sample_count 0) _ _ a (
                      AllSound-set_policy (normal lower policy_id)
                        (record p {
                          last_recommendation_at = some now;
                          last_direction =
                              some
                                (decided p.limits (signal_status p s) p.last_recommendation_at now
                                  (bounded p.limits n)).direction;
                          last_desired_replicas =
                              some
                                (decided p.limits (signal_status p s) p.last_recommendation_at now
                                  (bounded p.limits n)).desired;
                        })
                        s (record { own_id = sound.own_id; in_order = sound.in_order }) a))
            ]
      ]
    where
      P : Result Recommendation × Autoscaling → Type 0
      P x = AllSound x.1

-- what calls on an empty service reach
pub data Reachable (lower : String → String) : Autoscaling → Type 0 where
  begin : Reachable lower (record { tables = record { policies = []; signals = [] }; saved = none })
  upserts :
      {s : Autoscaling} (policy_id tenant_id resource_type resource_id : String)
      (request : LimitsRequest) (now : ℕ)
      → Reachable lower s
      → Reachable lower
          (upsert_policy lower policy_id tenant_id resource_type resource_id request now s).1
  ingests :
      {s : Autoscaling} (policy_id tenant_id : String) (queue latency : ℤ) (observed : Option ℕ)
      (now : ℕ)
      → Reachable lower s
      → Reachable lower (ingest_signal lower policy_id tenant_id queue latency observed now s).1
  recommends :
      {s : Autoscaling} (policy_id tenant_id : String) (current : ℤ) (now : ℕ)
      → Reachable lower s
      → Reachable lower (recommend lower policy_id tenant_id current now s).1

pub Reachable-AllSound :
    (lower : String → String) {s : Autoscaling} → Reachable lower s → AllSound s
Reachable-AllSound lower begin = tt
Reachable-AllSound lower (upserts a b c d e f r) =
    AllSound-upsert_policy lower a b c d e f _ (Reachable-AllSound lower r)
Reachable-AllSound lower (ingests a b c d e f r) =
    AllSound-ingest_signal lower a b c d e f _ (Reachable-AllSound lower r)
Reachable-AllSound lower (recommends a b c d r) =
    AllSound-recommend lower a b c d _ (Reachable-AllSound lower r)
