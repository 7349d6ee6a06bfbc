-- ===== src/Failover/Operations.antt =====
-- The operations of src/project_mimic/regional_failover.py.
use project_mimic.Prelude.{
  le_text, sort_by, member, ltb, if◌then◌else◌, text_dec, strip, is_empty, value_error, Result, ok,
  err, Action, ℕ, String, ite, Bool, true, false, not, Option, none, some, List, [], ◌∷◌,
}
use project_mimic.Dict.{Dict, lookup}
use project_mimic.Json.{ℤ, pos}
use project_mimic.Regions.{ControlPlane, normal, upsert_region, get_region}
use project_mimic.Failover.{
  FailoverPolicy, Snapshot, AppliedRegion, Applied, policy_applied, Failover, FailoverStatus,
  persist, by_key, normalize_read_distribution, ensure_regions_exist, get_policy,
}
use project_mimic.Failover.Changes.{
  or_else, keys, has, snapshot_of, drained, unchanged, set_policy, log, policy_of, started,
  resolved, last_recovery, active_status, idle_status,
}

module _ (lower : String → String) where
  -- `(write_region or primary).strip().lower()`
  abbrev pub written_region : Option String → String → String
  written_region none first = normal lower first
  written_region (some s) first = if is_empty s then normal lower first else normal lower s

  unfoldable pub upsert_policy :
      String
      → String
      → String
      → Dict String ℤ
      → Option String
      → Bool
      → ℕ
      → Action Failover FailoverPolicy
  upsert_policy policy_id primary secondary percent write_region auto now f =
      let k = normal lower policy_id in
      let first = normal lower primary in
      let second = normal lower secondary in
      let written = written_region write_region first in
      if is_empty k
      then (err (value_error "policy_id must not be empty"), f)
      else if is_empty first
      then (err (value_error "primary_region must not be empty"), f)
      else if is_empty second
      then (err (value_error "secondary_region must not be empty"), f)
      else elim (normalize_read_distribution lower percent) [
        | err e ↦ (err e, f)
        | ok spread ↦
            if not (has first spread)
            then (err (value_error "primary_region must exist in read_traffic_percent"), f)
            else if not (has second spread)
            then (err (value_error "secondary_region must exist in read_traffic_percent"), f)
            else if not (has written spread)
            then (err (value_error "write_region must exist in read_traffic_percent"), f)
            else elim (ensure_regions_exist lower spread f.control_plane) [
              | err e ↦ (err e, f)
              | ok _ ↦
                  let p =
                    policy_of k first second spread written auto now
                      (lookup text_dec k f.tables.policies) in
                  (ok p, persist (set_policy k p f))
            ]
      ]

  -- the loop of `apply_policy`
  unfoldable pub apply_regions :
      String → (String → ℕ) → Dict String ℕ → Action ControlPlane (List AppliedRegion)
  apply_regions write_region clock [] c = (ok [], c)
  apply_regions write_region clock ((k, percent) ∷ rest) c = elim (get_region lower k c) [
    | err e ↦ (err e, c)
    | ok r ↦
        let reads = ltb 0 percent in
        let writes = ite (text_dec k write_region) true false in
        let (updated, c1) =
          upsert_region lower k r.endpoint (pos (if reads then percent else 1)) writes reads
            (pos r.priority) (clock k) c in
        elim updated [
          | err e ↦ (err e, c1)
          | ok u ↦
              let (others, c2) = apply_regions write_region clock rest c1 in
              elim others [
                | err e ↦ (err e, c2)
                | ok us ↦ (
                  ok (
                      record {
                        region_id = u.region_id;
                        read_percent = percent;
                        read_enabled = u.read_enabled;
                        write_enabled = u.write_enabled;
                      }
                      ∷ us),
                  c2,
                )
              ]
        ]
  ]

  unfoldable pub apply_policy : String → String → (String → ℕ) → ℕ → Action Failover Applied
  apply_policy policy_id initiated_by clock now f = elim (get_policy lower policy_id f) [
    | err e ↦ (err e, f)
    | ok p ↦
        let (applied, c) =
          apply_regions p.write_region clock (sort_by by_key p.read_traffic_percent)
            f.control_plane in
        let f1 = record f { control_plane = c } in
        let p1 = record p { last_applied_at = some now; updated_at = now } in
        elim applied [
          | err e ↦ (err e, f1)
          | ok regions ↦
              let event : Applied = record {
                policy_id = p.policy_id;
                initiated_by = initiated_by;
                applied_at = now;
                write_region = p.write_region;
                applied_regions = regions;
              } in
              (ok event, persist (log (policy_applied event) (set_policy p.policy_id p1 f1)))
        ]
  ]

  -- the first loop of `execute_failover`, over regions that are distinct
  unfoldable pub take_snapshots : List String → ControlPlane → Result (Dict String Snapshot)
  take_snapshots [] c = ok []
  take_snapshots (k ∷ ks) c = elim (get_region lower k c) [
    | err e ↦ err e
    | ok r ↦ elim (take_snapshots ks c) [ err e ↦ err e | ok rest ↦ ok ((k, snapshot_of r) ∷ rest) ]
  ]

  -- the loops that write each region as `change` has it
  unfoldable pub update_regions :
      (String → Snapshot → Snapshot)
      → (String → ℕ)
      → Dict String Snapshot
      → Action ControlPlane (Unit {0})
  update_regions change clock [] c = (ok tt, c)
  update_regions change clock ((k, s) ∷ rest) c =
      let t = change k s in
      let (updated, c1) =
        upsert_region lower k t.endpoint (pos t.traffic_weight) t.write_enabled t.read_enabled
          (pos t.priority) (clock k) c in
      elim updated [ err e ↦ (err e, c1) | ok u ↦ update_regions change clock rest c1 ]

  unfoldable pub status : String → Failover → Result FailoverStatus
  status policy_id f = elim (get_policy lower policy_id f) [
    | err e ↦ err e
    | ok p ↦ elim (lookup text_dec p.policy_id f.tables.active_failovers) [
      | some a ↦ ok (active_status p.policy_id a)
      | none ↦ ok (idle_status p (last_recovery p.policy_id f.tables.history none))
    ]
  ]

  unfoldable pub execute_failover :
      String → String → String → String → (String → ℕ) → ℕ → Action Failover FailoverStatus
  execute_failover policy_id target_region reason initiated_by clock now f =
      elim (get_policy lower policy_id f) [
        | err e ↦ (err e, f)
        | ok p ↦
            let target = normal lower target_region in
            let regions = sort_by le_text (keys p.read_traffic_percent) in
            let why = or_else (strip reason) "manual_failover" in
            if has p.policy_id f.tables.active_failovers
            then (err (value_error "a failover is already active for this policy"), f)
            else if is_empty target
            then (err (value_error "target_region must not be empty"), f)
            else if not (member text_dec target regions)
            then (
              err (value_error "target_region must exist in the failover policy read distribution"),
              f,
            )
            else elim (take_snapshots regions f.control_plane) [
              | err e ↦ (err e, f)
              | ok snaps ↦
                  let (updated, c) = update_regions (drained target) clock snaps f.control_plane in
                  let f1 = record f { control_plane = c } in
                  elim updated [
                    | err e ↦ (err e, f1)
                    | ok _ ↦
                        let f2 = started p.policy_id target why initiated_by now snaps f1 in
                        (status p.policy_id f2, f2)
                  ]
            ]
      ]

  -- `if policy is not None and policy["auto_failback"]: self.apply_policy(...)`
  unfoldable pub fail_back : String → String → (String → ℕ) → ℕ → Action Failover (Unit {0})
  fail_back k recovered_by clock now f = elim (lookup text_dec k f.tables.policies) [
    | none ↦ (ok tt, f)
    | some p ↦
        let (r, f1) = apply_policy k recovered_by clock now f in
        let done : Result (Unit {0}) = elim r [ err e ↦ err e | ok _ ↦ ok tt ] in
        if p.auto_failback then (done, f1) else (ok tt, f)
  ]

  unfoldable pub recover_failover :
      String
      → String
      → String
      → (String → ℕ)
      → ℕ
      → (String → ℕ)
      → ℕ
      → Action Failover FailoverStatus
  recover_failover policy_id reason recovered_by clock now clock' later f =
      let k = normal lower policy_id in
      let why = or_else (strip reason) "manual_recovery" in
      elim (lookup text_dec k f.tables.active_failovers) [
        | none ↦ (err (value_error "no active failover found for policy"), f)
        | some a ↦
            let (restored, c) =
              update_regions unchanged clock a.previous_snapshot f.control_plane in
            let f1 = record f { control_plane = c } in
            elim restored [
              | err e ↦ (err e, f1)
              | ok _ ↦
                  let f2 = resolved k a why recovered_by now f1 in
                  let (back, f3) = fail_back k recovered_by clock' later f2 in
                  elim back [ err e ↦ (err e, f3) | ok _ ↦ (status k (persist f3), persist f3) ]
            ]
      ]
