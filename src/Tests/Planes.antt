-- ===== src/Tests/Planes.antt =====
-- Runs of the control plane, the failover and the policy engine: src/project_mimic/
-- multi_region_control_plane.py, regional_failover.py and policy.py.
use project_mimic.Prelude.{
  le_text, sort_by, place_by, if◌then◌else◌, text_dec, strip, strip-strip, ok, err, String, ◌≡◌,
  refl, true, false, none, [], ◌∷◌,
}
use project_mimic.Dict.{lookup}
use project_mimic.Json.{pos}
use project_mimic.Regions.{ControlPlane, normal, upsert_region, get_region}
use project_mimic.Regions.Routes.{weighted_active_active_routing, read, Route, route}
use project_mimic.Regions.Index.{IsIndexed, Reachable, begin, upserts, Reachable-IsIndexed}
use project_mimic.Failover.{FailoverPolicy, Failover, FailoverStatus, get_policy}
use project_mimic.Failover.Changes.{has}
use project_mimic.Failover.Operations.{
  execute_failover, recover_failover, take_snapshots, update_regions, status,
}
use project_mimic.Failover.Recovery.{touched}
use project_mimic.Failover.Cycle.{IsKept, recover-execute_failover}

abbrev same : String → String
same s = s

settled : (s : String) → normal same (normal same s) ≡ normal same s
settled s = strip-strip s

abbrev plane : ControlPlane
plane =
    (upsert_region same "us" "us.example" (pos 20000) false true (pos 2) 6
      (upsert_region same "eu" "eu.example" (pos 10000) true true (pos 1) 5
        (record { regions = []; saved = none })).1).1

plane-Reachable : Reachable same plane
plane-Reachable =
    upserts "us" "us.example" (pos 20000) false true (pos 2) 6
      (upserts "eu" "eu.example" (pos 10000) true true (pos 1) 5 begin)

Reachable-IsIndexed_example : IsIndexed same plane
Reachable-IsIndexed_example = Reachable-IsIndexed same settled plane-Reachable

abbrev routed_write : Route
routed_write = elim (route same (λ t o. 5) "tenant" "write" none 9 plane) as (λ x. Route) [
  | ok t ↦ t
  | err e ↦ record {
    tenant_id = "";
    operation = read;
    selected_region = "";
    endpoint = "";
    reason = weighted_active_active_routing;
    routed_at = 0;
  }
]

abbrev policy : FailoverPolicy
policy = record {
  policy_id = "main";
  primary_region = "eu";
  secondary_region = "us";
  read_traffic_percent = ("eu", 600000) ∷ ("us", 400000) ∷ [];
  write_region = "eu";
  auto_failback = false;
  last_applied_at = none;
  created_at = 7;
  updated_at = 7;
}

abbrev ready : Failover
ready = record {
  control_plane = plane;
  tables = record { policies = ("main", policy) ∷ []; active_failovers = []; history = [] };
  saved = none;
}

policy-IsKept : IsKept same (normal same "main") policy
unfolding strip
policy-IsKept = record { own_id = refl; normal_id = refl; normal_keys = (refl, (refl, tt)) }

policy-known : get_policy same "main" ready ≡ ok policy
unfolding strip text_dec get_policy
policy-known = refl

abbrev after : FailoverStatus × Failover
after =
    let r = execute_failover same "main" "us" "drill" "ada" (λ k. 10) 11 ready in
    elim r.0 as (λ x. FailoverStatus × Failover) [
      | ok st ↦ (st, r.1)
      | err e ↦ (
        record {
          policy_id = "";
          active = false;
          target_region = none;
          reason = none;
          initiated_by = none;
          recovered_by = none;
          started_at = none;
          resolved_at = none;
          updated_at = 0;
        },
        r.1,
      )
    ]

done : (execute_failover same "main" "us" "drill" "ada" (λ k. 10) 11 ready).0 ≡ ok after.0
unfolding strip text_dec execute_failover take_snapshots update_regions status get_policy get_region
    upsert_region sort_by place_by le_text
done = refl

recover-execute_failover_example :
    ((st : FailoverStatus) × ((recover_failover same "main" "over" "grace"
          (λ k. 12)
          13
          (λ k. 14)
          15
          (execute_failover same "main" "us" "drill" "ada" (λ k. 10) 11 ready).1).0
        ≡ ok st))
    × ((j : String)
        → lookup text_dec j
            (recover_failover same "main" "over" "grace"
              (λ k. 12)
              13
              (λ k. 14)
              15
              (execute_failover same "main" "us" "drill" "ada"
                (λ k. 10)
                11
                ready).1).1.control_plane.regions
          ≡ (if has j policy.read_traffic_percent
              then touched 12 (lookup text_dec j plane.regions)
              else lookup text_dec j plane.regions))
recover-execute_failover_example =
    recover-execute_failover same "main" "us" "drill" "ada" (λ k. 10) 11 ready policy policy-known
      policy-IsKept (Reachable-IsIndexed same settled plane-Reachable) after.0 done refl "over"
      "grace" (λ k. 12) 13 (λ k. 14) 15
