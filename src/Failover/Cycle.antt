-- ===== src/Failover/Cycle.antt =====
-- A failover from its start to its recovery, in the operations of
-- src/project_mimic/regional_failover.py.
use project_mimic.Prelude.{
  le_text, sort_by, All-sort_by, member-sort_by, Result-cases, All, member, if◌then◌else◌,
  Bool-cases, Option-cases, text_dec, strip, is_empty, Result, ok, ℕ, String, ◌≡◌, refl, sym, ap,
  ◌∙◌, subst, inl, inr, Bool, false, none, some, List, arith,
}
use project_mimic.Dict.{Dict, lookup, lookup-insert}
use project_mimic.Regions.{normal}
use project_mimic.Regions.Index.{IsIndexed}
use project_mimic.Failover.{
  FailoverPolicy, Snapshot, ActiveFailover, persist, Failover, FailoverStatus, get_policy,
}
use project_mimic.Failover.Changes.{
  keys, has, unchanged, started, resolved, or_else, idle_status, active_status, last_recovery,
}
use project_mimic.Failover.Operations.{
  take_snapshots, update_regions, execute_failover, recover_failover, fail_back, status,
}
use project_mimic.Failover.Snapshots.{IsTakenOf, take_snapshots_lem, has-keys}
use project_mimic.Failover.Recovery.{after, drain, restore, touched}

-- a policy that is kept under an id
pub record IsKept (lower : String → String) (k : String) (p : FailoverPolicy) : Type 0 where
  pub own_id : p.policy_id ≡ k
  pub normal_id : normal lower k ≡ k
  pub normal_keys : All (λ (j : String). normal lower j ≡ j) (keys p.read_traffic_percent)

-- the regions that a failover goes over
abbrev listed : FailoverPolicy → List String
listed p = sort_by le_text (keys p.read_traffic_percent)

module _ (lower : String → String) (id target_region reason initiated_by : String)
    (clock : String → ℕ) (now : ℕ) (f : Failover) (p : FailoverPolicy)
    (known : get_policy lower id f ≡ ok p) (kept : IsKept lower (normal lower id) p)
    (v : IsIndexed lower f.control_plane) where
  -- the orchestrator after a failover that took the snapshots `d`
  abbrev executed : Dict String Snapshot → Failover
  executed d =
      started p.policy_id (normal lower target_region) (or_else (strip reason) "manual_failover")
        initiated_by now d
        (record f {
          control_plane = after lower (normal lower target_region) clock f.control_plane d;
        })

  execute_failover_done :
      (st : FailoverStatus)
      → (execute_failover lower id target_region reason initiated_by clock now f).0 ≡ ok st
      → (d : Dict String Snapshot) × IsTakenOf (listed p) f.control_plane d
        × ((execute_failover lower id target_region reason initiated_by clock now f).1 ≡ executed d)
  unfolding execute_failover
  execute_failover_done st done = elim (Bool-cases (has p.policy_id f.tables.active_failovers)) [
    | inl active ↦ absurd (ground (arith, known, active, done))
    | inr idle ↦ elim (Bool-cases (is_empty (normal lower target_region))) [
      | inl blank ↦ absurd (ground (arith, known, idle, blank, done))
      | inr named ↦ elim (Bool-cases (member text_dec (normal lower target_region) (listed p))) [
        | inr foreign ↦ absurd (ground (arith, known, idle, named, foreign, done))
        | inl inside ↦ elim (Result-cases (take_snapshots lower (listed p) f.control_plane)) [
          | inr (e, failed) ↦ absurd (ground (arith, known, idle, named, inside, failed, done))
          | inl (d, snapped) ↦
              let t =
                take_snapshots_lem lower (listed p) f.control_plane d
                  (All-sort_by le_text (λ (j : String). normal lower j ≡ j)
                    (keys p.read_traffic_percent) kept.normal_keys)
                  snapped in
              let ran =
                (drain lower (normal lower target_region) (listed p) clock f.control_plane d v
                  t).0 in
              (d, t, rw (known, idle, named, inside, snapped, ran, execute_failover) refl)
        ]
      ]
    ]
  ]

  listed-has : (j : String) → member text_dec j (listed p) ≡ has j p.read_traffic_percent
  listed-has j =
      member-sort_by text_dec le_text j (keys p.read_traffic_percent)
      ∙ has-keys j p.read_traffic_percent

  -- the record of the failover that is active
  abbrev underway : Dict String Snapshot → ActiveFailover
  underway d = record {
    policy_id = p.policy_id;
    target_region = normal lower target_region;
    reason = or_else (strip reason) "manual_failover";
    initiated_by = initiated_by;
    started_at = now;
    updated_at = now;
    previous_snapshot = d;
  }

  underway-found :
      (d : Dict String Snapshot)
      → lookup text_dec (normal lower id) (executed d).tables.active_failovers ≡ some (underway d)
  underway-found d =
      let li =
        lookup-insert text_dec p.policy_id (normal lower id) (underway d)
          f.tables.active_failovers in
      let own = kept.own_id in ground (arith, li, own)

  policy-found : lookup text_dec (normal lower id) f.tables.policies ≡ some p
  unfolding get_policy
  policy-found = elim (Option-cases (lookup text_dec (normal lower id) f.tables.policies)) [
    | inl missing ↦ absurd (ground (arith, missing, known))
    | inr (q, found) ↦ ground (arith, found, known)
  ]

  status_kept :
      (g : Failover)
      → lookup text_dec (normal lower id) g.tables.policies ≡ some p
      → (st : FailoverStatus) × (status lower (normal lower id) g ≡ ok st)
  unfolding status get_policy
  status_kept g found =
      let same : lookup text_dec (normal lower (normal lower id)) g.tables.policies ≡ some p =
        subst (λ (x : String). lookup text_dec x g.tables.policies ≡ some p) (sym kept.normal_id)
          found in
      elim (Option-cases (lookup text_dec p.policy_id g.tables.active_failovers)) [
        | inl idle ↦ (
          idle_status p (last_recovery p.policy_id g.tables.history none),
          rw (same, idle, status) refl,
        )
        | inr (a, active) ↦ (active_status p.policy_id a, rw (same, active, status) refl)
      ]

  fail_back_manual :
      (recovered_by : String) (clock'' : String → ℕ) (later : ℕ) (g : Failover)
      → lookup text_dec (normal lower id) g.tables.policies ≡ some p
      → p.auto_failback ≡ false
      → fail_back lower (normal lower id) recovered_by clock'' later g ≡ (ok tt, g)
  unfolding fail_back
  fail_back_manual recovered_by clock'' later g found manual = rw (found, manual, fail_back) refl

  -- the orchestrator after the recovery of a failover that took the snapshots `d`
  abbrev recovered : String → String → (String → ℕ) → ℕ → Dict String Snapshot → Failover
  recovered reason' recovered_by clock' now' d = persist (
      resolved (normal lower id) (underway d) (or_else (strip reason') "manual_recovery")
        recovered_by now'
        (record (executed d) {
          control_plane = (update_regions lower unchanged clock' d (executed d).control_plane).1;
        }))

  recover_executed :
      (reason' recovered_by : String) (clock' : String → ℕ) (now' : ℕ) (clock'' : String → ℕ)
      (later : ℕ) (d : Dict String Snapshot)
      → IsTakenOf (listed p) f.control_plane d
      → p.auto_failback ≡ false
      → recover_failover lower id reason' recovered_by clock' now' clock'' later (executed d) ≡ (
        status lower (normal lower id) (recovered reason' recovered_by clock' now' d),
        recovered reason' recovered_by clock' now' d,
      )
  unfolding recover_failover
  recover_executed reason' recovered_by clock' now' clock'' later d t manual =
      let at =
        (restore lower (normal lower target_region) (listed p) clock f.control_plane d v t
          clock').0 in
      let back =
        fail_back_manual recovered_by clock'' later
          (resolved (normal lower id) (underway d) (or_else (strip reason') "manual_recovery")
            recovered_by now'
            (record (executed d) {
              control_plane =
                  (update_regions lower unchanged clock' d (executed d).control_plane).1;
            }))
          policy-found manual in
      rw
        (
          underway-found d,
          at,
          back,
          ap (λ (x : Result (Unit {0}) × Failover). x.1) back,
          recover_failover,
        )
        refl

  -- On such a control plane and by such a policy, one that does not fail back by itself, a failover
  -- that is done is undone by a recovery: the recovery succeeds, each region of the policy has the
  -- settings it had before the failover, with the time of its last update, and every other region is
  -- as it was.
  pub recover-execute_failover :
      (st : FailoverStatus)
      → (execute_failover lower id target_region reason initiated_by clock now f).0 ≡ ok st
      → p.auto_failback ≡ false
      → (reason' recovered_by : String) (clock' : String → ℕ) (now' : ℕ) (clock'' : String → ℕ)
        (later : ℕ)
      → ((st' : FailoverStatus) × ((recover_failover lower id reason' recovered_by clock' now'
              clock'' later
              (execute_failover lower id target_region reason initiated_by clock now f).1).0
            ≡ ok st'))
        × ((j : String)
            → lookup text_dec j
                (recover_failover lower id reason' recovered_by clock' now' clock'' later
                  (execute_failover lower id target_region reason initiated_by clock now
                    f).1).1.control_plane.regions
              ≡ (if has j p.read_traffic_percent
                  then touched (clock' j) (lookup text_dec j f.control_plane.regions)
                  else lookup text_dec j f.control_plane.regions))
  recover-execute_failover st done manual reason' recovered_by clock' now' clock'' later =
      let (d, t, e) = execute_failover_done st done in
      let back = recover_executed reason' recovered_by clock' now' clock'' later d t manual in
      let at =
        (restore lower (normal lower target_region) (listed p) clock f.control_plane d v t
          clock').1 in
      rw (e, back)
        (
          status_kept (recovered reason' recovered_by clock' now' d) policy-found,
          λ j.
              at j
              ∙ ap
                  (λ (b : Bool).
                    if b
                    then touched (clock' j) (lookup text_dec j f.control_plane.regions)
                    else lookup text_dec j f.control_plane.regions)
                  (listed-has j),
        )
