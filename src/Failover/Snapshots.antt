-- ===== src/Failover/Snapshots.antt =====
-- The snapshots that a failover of src/project_mimic/regional_failover.py takes.
use project_mimic.Prelude.{
  All-weaken, if_both, Result-cases, All, member, if◌then◌else◌, Option-cases, text_dec, strip,
  is_empty, ok, ℕ, ◌<◌, String, ◌≡◌, refl, ap, subst, inl, inr, ite, true, false, Option, none,
  some, List, [], ◌∷◌, arith,
}
use project_mimic.Dict.{Dict, lookup, All-found}
use project_mimic.Regions.{Region, ControlPlane, normal, get_region}
use project_mimic.Regions.Index.{IsIndexed}
use project_mimic.Failover.{Snapshot}
use project_mimic.Failover.Changes.{keys, has, snapshot_of, drained, unchanged}
use project_mimic.Failover.Operations.{take_snapshots}
use project_mimic.Failover.Updates.{IsWritable, IsConsistent}

abbrev pub taken : Option Region → Option Snapshot
taken none = none
taken (some r) = some (snapshot_of r)

-- the snapshots are those of regions that are there
abbrev pub IsTaken : ControlPlane → Dict String Snapshot → Type 0
IsTaken c d = All (λ (x : String × Snapshot). taken (lookup text_dec x.0 c.regions) ≡ some x.1) d

-- the snapshots of some regions, in a table
abbrev pub IsTakenOf : List String → ControlPlane → Dict String Snapshot → Type 0
IsTakenOf ks c d =
    IsTaken c d
    × ((j : String)
        → lookup text_dec j d
          ≡ (if member text_dec j ks then taken (lookup text_dec j c.regions) else none))

pub take_snapshots_lem :
    (lower : String → String) (ks : List String) (c : ControlPlane) (d : Dict String Snapshot)
    → All (λ (k : String). normal lower k ≡ k) ks
    → take_snapshots lower ks c ≡ ok d
    → IsTakenOf ks c d
unfolding take_snapshots get_region
take_snapshots_lem lower [] c d n h =
    let same : [] ≡ d = ground (arith, h) in subst (IsTakenOf [] c) same (tt, λ j. refl)
take_snapshots_lem lower (k ∷ ks) c d n h =
    elim (Option-cases (lookup text_dec (normal lower k) c.regions)) [
      | inl missing ↦ absurd (ground (arith, missing, h))
      | inr (r, found) ↦ elim (Result-cases (take_snapshots lower ks c)) [
        | inl (rest, more) ↦
            let same : (k, snapshot_of r) ∷ rest ≡ d = ground (arith, found, more, h) in
            let at : lookup text_dec k c.regions ≡ some r =
              subst (λ (x : String). lookup text_dec x c.regions ≡ some r) n.0 found in
            let ih = take_snapshots_lem lower ks c rest n.1 more in
            subst (IsTakenOf (k ∷ ks) c) same (
              (ground (arith, at), ih.0),
              λ j.
                  let ihj = ih.1 j in
                  elim (text_dec k j) [
                    | yes e ↦
                        let atj : lookup text_dec j c.regions ≡ some r =
                          subst (λ (x : String). lookup text_dec x c.regions ≡ some r) e at in
                        ground (arith, e, atj, ihj)
                    | no ne ↦ ground (arith, ne, ihj)
                  ],
            )
        | inr (e, failed) ↦ absurd (ground (arith, found, failed, h))
      ]
    ]

pub IsTaken-IsConsistent :
    (c : ControlPlane) (d : Dict String Snapshot) → IsTaken c d → IsConsistent d
IsTaken-IsConsistent c [] t = tt
IsTaken-IsConsistent c ((k, s) ∷ d) t = (
  elim (Option-cases (lookup text_dec k d)) [
    | inl no_other ↦ inl no_other
    | inr (s', other) ↦
        let a =
          All-found text_dec
            (λ (x : String × Snapshot). taken (lookup text_dec x.0 c.regions) ≡ some x.1) d k s' t.1
            other in
        let t0 = t.0 in inr (ground (arith, other, a, t0))
  ],
  IsTaken-IsConsistent c d t.1,
)

-- what a failover writes over a region that is stored is accepted, and so is what recovery writes
pub drained-IsWritable :
    (lower : String → String) (target : String) (c : ControlPlane) (d : Dict String Snapshot)
    → IsIndexed lower c
    → IsTaken c d
    → All
        (λ (x : String × Snapshot).
          IsWritable lower x.0 (drained target x.0 x.1) × IsWritable lower x.0 (unchanged x.0 x.1))
        d
drained-IsWritable lower target c d v t =
    All-weaken d
      (λ (x : String × Snapshot) h. elim (Option-cases (lookup text_dec x.0 c.regions)) [
        | inl missing ↦ absurd (ground (arith, missing, h))
        | inr (r, found) ↦
            let s = v.stored x.0 r found in
            let same : snapshot_of r ≡ x.1 = ground (arith, found, h) in
            let endpoint = ap (λ (y : Snapshot). y.endpoint) same in
            let weight = ap (λ (y : Snapshot). y.traffic_weight) same in
            let a : strip x.1.endpoint ≡ x.1.endpoint =
              subst (λ (y : String). strip y ≡ y) endpoint s.stripped in
            let b : is_empty x.1.endpoint ≡ false =
              subst (λ (y : String). is_empty y ≡ false) endpoint s.has_endpoint in
            (
              record {
                normal_id = s.normal_id;
                has_id = s.has_id;
                stripped = a;
                has_endpoint = b;
                weighs =
                    if_both (λ (n : ℕ). 0 < n) (ite (text_dec x.0 target) true false) 1000000 1
                      (omega arith) (omega arith);
              },
              record {
                normal_id = s.normal_id;
                has_id = s.has_id;
                stripped = a;
                has_endpoint = b;
                weighs = subst (λ (n : ℕ). 0 < n) weight s.weighs;
              },
            )
      ])
      t

pub has-keys : {A : Type 0} (k : String) (d : Dict String A) → member text_dec k (keys d) ≡ has k d
has-keys k [] = refl
has-keys k ((j, x) ∷ d) = let ih = has-keys k d in ground (arith, ih)
