-- ===== src/Failover/Updates.antt =====
-- The loops of src/project_mimic/regional_failover.py that write the regions one by one.
use project_mimic.Prelude.{
  All-weaken, All, is_some, text_dec, strip, is_empty, Result, ok, ℕ, ◌<◌, String, ◌≡◌, refl, ap,
  subst, ◌⊎◌, true, false, Option, none, some, [], ◌∷◌, arith,
}
use project_mimic.Dict.{Dict, lookup, lookup-insert}
use project_mimic.Json.{pos}
use project_mimic.Regions.{
  Region, ControlPlane, normal, upsert_region, upserted, store_region, positive_weight,
}
use project_mimic.Regions.Index.{IsStored, IsIndexed, store_region-IsIndexed, upserted-IsStored}
use project_mimic.Failover.{Snapshot}
use project_mimic.Failover.Operations.{update_regions}

-- a region's settings that the control plane accepts under an id
pub record IsWritable (lower : String → String) (k : String) (t : Snapshot) : Type 0 where
  pub normal_id : normal lower k ≡ k
  pub has_id : is_empty k ≡ false
  pub stripped : strip t.endpoint ≡ t.endpoint
  pub has_endpoint : is_empty t.endpoint ≡ false
  pub weighs : 0 < t.traffic_weight

-- a region with new settings
abbrev pub written : String → Snapshot → ℕ → Option Region → Region
written k t now o =
    upserted k t.endpoint t.traffic_weight t.write_enabled t.read_enabled t.priority now o

-- a region that is there, with new settings
abbrev pub rewritten : String → Snapshot → ℕ → Option Region → Option Region
rewritten k t now none = none
rewritten k t now (some r) = some (written k t now (some r))

rewritten-written :
    (k : String) (t : Snapshot) (now : ℕ) (o : Option Region)
    → rewritten k t now (some (written k t now o)) ≡ some (written k t now o)
rewritten-written k t now none = refl
rewritten-written k t now (some r) = refl

rewritten_there :
    (k : String) (t : Snapshot) (now : ℕ) (o : Option Region)
    → is_some o ≡ true
    → rewritten k t now o ≡ some (written k t now o)
rewritten_there k t now none h = absurd (ground arith)
rewritten_there k t now (some r) h = refl

-- an id that stands twice has the same settings in both places
abbrev pub IsConsistent : Dict String Snapshot → Type 0
IsConsistent [] = Unit
IsConsistent ((k, s) ∷ d) =
    ((lookup text_dec k d ≡ none) ⊎ (lookup text_dec k d ≡ some s)) × IsConsistent d

module _ (lower : String → String) where
  upsert_of_writable :
      (k : String) (t : Snapshot) (now : ℕ) (c : ControlPlane)
      → IsWritable lower k t
      → upsert_region lower k t.endpoint
          (pos t.traffic_weight)
          t.write_enabled
          t.read_enabled
          (pos t.priority)
          now
          c
        ≡ (
          ok (written k t now (lookup text_dec k c.regions)),
          store_region k (written k t now (lookup text_dec k c.regions)) c,
        )
  unfolding upsert_region
  upsert_of_writable k t now c w =
      let a = w.normal_id in
      let b = w.stripped in
      let d = w.has_id in
      let e = w.has_endpoint in
      let positive : positive_weight (pos t.traffic_weight) ≡ some t.traffic_weight =
        ground (arith, w.weighs) in
      ground arith

  module _ (change : String → Snapshot → Snapshot) (clock : String → ℕ) where
    update_regions_step :
        (k : String) (s : Snapshot) (rest : Dict String Snapshot) (c : ControlPlane)
        → IsWritable lower k (change k s)
        → update_regions lower change clock ((k, s) ∷ rest) c
          ≡ update_regions lower change clock rest
              (store_region k (written k (change k s) (clock k) (lookup text_dec k c.regions)) c)
    unfolding update_regions
    update_regions_step k s rest c w =
        let e = upsert_of_writable k (change k s) (clock k) c w in
        rw (e, ap (λ (x : Result Region × ControlPlane). x.1) e, update_regions) refl

    -- the table after the loop, at one id
    abbrev pub looked_up : String → Dict String Snapshot → ControlPlane → Option Region
    looked_up j d c = elim (lookup text_dec j d) [
      | none ↦ lookup text_dec j c.regions
      | some s ↦ rewritten j (change j s) (clock j) (lookup text_dec j c.regions)
    ]

    pub update_regions_lem :
        (d : Dict String Snapshot) (c : ControlPlane)
        → IsIndexed lower c
        → IsConsistent d
        → All (λ (x : String × Snapshot). IsWritable lower x.0 (change x.0 x.1)) d
        → All (λ (x : String × Snapshot). is_some (lookup text_dec x.0 c.regions) ≡ true) d
        → (update_regions lower change clock d c).0 ≡ ok tt
          × IsIndexed lower (update_regions lower change clock d c).1
          × ((j : String)
              → lookup text_dec j (update_regions lower change clock d c).1.regions
                ≡ looked_up j d c)
    unfolding update_regions
    update_regions_lem [] c v u w p = (refl, v, λ j. refl)
    update_regions_lem ((k, s) ∷ rest) c v u w p =
        let r = written k (change k s) (clock k) (lookup text_dec k c.regions) in
        let c1 = store_region k r c in
        let kept : IsStored lower k r =
          upserted-IsStored lower k (change k s).endpoint (change k s).traffic_weight
            (change k s).write_enabled (change k s).read_enabled (change k s).priority (clock k)
            (lookup text_dec k c.regions) w.0.normal_id w.0.has_id w.0.stripped w.0.has_endpoint
            w.0.weighs in
        let v1 = store_region-IsIndexed lower k r c kept v in
        let p1 : All (λ (x : String × Snapshot). is_some (lookup text_dec x.0 c1.regions) ≡ true)
            rest =
          All-weaken rest
            (λ (x : String × Snapshot) h.
              let li = lookup-insert text_dec k x.0 r c.regions in ground arith)
            p.1 in
        let ih = update_regions_lem rest c1 v1 u.1 w.1 p1 in
        rw (update_regions_step k s rest c w.0) (
          ih.0,
          ih.1,
          λ j.
              let li = lookup-insert text_dec k j r c.regions in
              let at = ih.2 j in
              elim (text_dec k j) [
                | yes same ↦
                    subst
                      (λ (x : String).
                        lookup text_dec x (update_regions lower change clock rest c1).1.regions
                        ≡ looked_up x ((k, s) ∷ rest) c)
                      same
                      (let lk = lookup-insert text_dec k k r c.regions in
                        let at' = ih.2 k in
                        let once =
                          rewritten_there k (change k s) (clock k) (lookup text_dec k c.regions)
                            p.0 in
                        let twice =
                          rewritten-written k (change k s) (clock k)
                            (lookup text_dec k c.regions) in
                        let u0 = u.0 in ground (arith, lk, at', once, twice, u0))
                | no ne ↦ ground (arith, ne, at, li)
              ],
        )
