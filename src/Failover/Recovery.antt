-- ===== src/Failover/Recovery.antt =====
-- The two loops of a failover and its recovery, one after the other, in
-- src/project_mimic/regional_failover.py.
use project_mimic.Prelude.{
  All-weaken, All, member, if◌then◌else◌, is_some, Bool-cases, Option-cases, text_dec, ok, ℕ,
  String, ◌≡◌, sym, ap, ◌∙◌, inl, inr, ite, true, false, Option, none, some, List, arith,
}
use project_mimic.Dict.{Dict, lookup}
use project_mimic.Regions.{Region, ControlPlane}
use project_mimic.Regions.Index.{IsIndexed}
use project_mimic.Failover.{Snapshot}
use project_mimic.Failover.Changes.{snapshot_of, drained, unchanged}
use project_mimic.Failover.Operations.{update_regions}
use project_mimic.Failover.Updates.{rewritten, looked_up, update_regions_lem}
use project_mimic.Failover.Snapshots.{IsTakenOf, IsTaken-IsConsistent, drained-IsWritable}

-- a region of the policy while the failover lasts
abbrev pub failed_over : String → String → ℕ → Option Region → Option Region
failed_over target k now none = none
failed_over target k now (some r) =
    let is_target = ite (text_dec k target) true false in
    some (record r {
      traffic_weight = if is_target then 1000000 else 1;
      write_enabled = is_target;
      read_enabled = is_target;
      updated_at = now;
    })

-- a region that was written with the settings it had before
abbrev pub touched : ℕ → Option Region → Option Region
touched now none = none
touched now (some r) = some (record r { updated_at = now })

rewritten-drained :
    (target k : String) (now : ℕ) (r : Region)
    → r.region_id ≡ k
    → rewritten k (drained target k (snapshot_of r)) now (some r)
      ≡ failed_over target k now (some r)
rewritten-drained target k now r own =
    ap
      (λ (x : String). some (record r {
        region_id = x;
        traffic_weight = (drained target k (snapshot_of r)).traffic_weight;
        write_enabled = (drained target k (snapshot_of r)).write_enabled;
        read_enabled = (drained target k (snapshot_of r)).read_enabled;
        updated_at = now;
      }))
      (sym own)

rewritten-failed_over :
    (target k : String) (now now' : ℕ) (r : Region)
    → r.region_id ≡ k
    → rewritten k (unchanged k (snapshot_of r)) now' (failed_over target k now (some r))
      ≡ touched now' (some r)
rewritten-failed_over target k now now' r own =
    ap (λ (x : String). some (record r { region_id = x; updated_at = now' })) (sym own)

-- the plane after the loop that drains
abbrev pub after :
    (String → String) → String → (String → ℕ) → ControlPlane → Dict String Snapshot → ControlPlane
after lower target clock c d = (update_regions lower (drained target) clock d c).1

module _ (lower : String → String) (target : String) (ks : List String) (clock : String → ℕ)
    (c : ControlPlane) (d : Dict String Snapshot) (v : IsIndexed lower c)
    (t : IsTakenOf ks c d) where
  there : All (λ (x : String × Snapshot). is_some (lookup text_dec x.0 c.regions) ≡ true) d
  there =
      All-weaken d
        (λ (x : String × Snapshot) h. elim (Option-cases (lookup text_dec x.0 c.regions)) [
          | inl missing ↦ absurd (ground (arith, missing, h))
          | inr (r, found) ↦ ap is_some found
        ])
        t.0

  pub drain :
      ((update_regions lower (drained target) clock d c).0 ≡ ok tt)
      × IsIndexed lower (after lower target clock c d)
      × ((j : String)
          → lookup text_dec j (after lower target clock c d).regions
            ≡ looked_up lower (drained target) clock j d c)
  drain =
      update_regions_lem lower (drained target) clock d c v (IsTaken-IsConsistent c d t.0)
        (All-weaken d (λ (x : String × Snapshot) h. h.0)
          (drained-IsWritable lower target c d v t.0))
        there

  pub drain-failed_over :
      (j : String)
      → lookup text_dec j (after lower target clock c d).regions ≡ (
          if member text_dec j ks
          then failed_over target j (clock j) (lookup text_dec j c.regions)
          else lookup text_dec j c.regions)
  drain-failed_over j =
      let at = drain.2 j in
      let tj = t.1 j in
      elim (Option-cases (lookup text_dec j c.regions)) [
        | inl missing ↦ elim (Bool-cases (member text_dec j ks)) [
          | inl listed ↦ ground (arith, at, tj, missing, listed)
          | inr other ↦ ground (arith, at, tj, missing, other)
        ]
        | inr (r, found) ↦
            let own = rewritten-drained target j (clock j) r (v.stored j r found).own_id in
            elim (Bool-cases (member text_dec j ks)) [
              | inl listed ↦ ground (arith, at, tj, found, own, listed)
              | inr other ↦ ground (arith, at, tj, found, other)
            ]
      ]

  still_there :
      All
        (λ (x : String × Snapshot).
          is_some (lookup text_dec x.0 (after lower target clock c d).regions) ≡ true)
        d
  still_there =
      All-weaken d
        (λ (x : String × Snapshot) h.
          let at = drain-failed_over x.0 in
          elim (Option-cases (lookup text_dec x.0 c.regions)) [
            | inl missing ↦ absurd (ground (arith, missing, h))
            | inr (r, found) ↦ ap is_some at ∙ elim (Bool-cases (member text_dec x.0 ks)) [
              | inl listed ↦ ground (arith, found, listed)
              | inr other ↦ ground (arith, found, other)
            ]
          ])
        t.0

  pub restore :
      (clock' : String → ℕ)
      → ((update_regions lower unchanged clock' d (after lower target clock c d)).0 ≡ ok tt)
        × ((j : String)
            → lookup text_dec j
                (update_regions lower unchanged clock' d (after lower target clock c d)).1.regions
              ≡ (if member text_dec j ks
                  then touched (clock' j) (lookup text_dec j c.regions)
                  else lookup text_dec j c.regions))
  restore clock' =
      let u =
        update_regions_lem lower unchanged clock' d (after lower target clock c d) drain.1
          (IsTaken-IsConsistent c d t.0)
          (All-weaken d (λ (x : String × Snapshot) h. h.1)
            (drained-IsWritable lower target c d v t.0))
          still_there in
      (
        u.0,
        λ j.
            let at = u.2 j in
            let before = drain-failed_over j in
            let tj = t.1 j in
            elim (Option-cases (lookup text_dec j c.regions)) [
              | inl missing ↦ elim (Bool-cases (member text_dec j ks)) [
                | inl listed ↦ ground (arith, at, before, tj, missing, listed)
                | inr other ↦ ground (arith, at, before, tj, missing, other)
              ]
              | inr (r, found) ↦
                  let own =
                    rewritten-failed_over target j (clock j) (clock' j) r
                      (v.stored j r found).own_id in
                  elim (Bool-cases (member text_dec j ks)) [
                    | inl listed ↦ ground (arith, at, before, tj, found, own, listed)
                    | inr other ↦ ground (arith, at, before, tj, found, other)
                  ]
            ],
      )
