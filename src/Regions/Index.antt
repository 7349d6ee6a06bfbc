-- ===== src/Regions/Index.antt =====
-- The table of regions of src/project_mimic/multi_region_control_plane.py, and its invariant.
use project_mimic.Prelude.{
  Bool-cases, Option-cases, text_dec, strip, is_empty, strip-strip, ℕ, ◌<◌, String, ◌≡◌, refl, sym,
  ap, ◌∙◌, subst, inl, inr, Bool, false, Option, none, some, [], arith,
}
use project_mimic.Dict.{lookup, lookup-insert, insert-IsUnique, IsUnique}
use project_mimic.Json.{ℤ, pos, negsuc}
use project_mimic.Regions.{
  Region, ControlPlane, normal, upsert_region, get_region, update_health, store_region, upserted,
  positive_weight, natural,
}

-- What holds of a stored region: it stands under its own id, in normal form, its endpoint is
-- stripped and its weight positive.
pub record IsStored (lower : String → String) (k : String) (r : Region) : Type 0 where
  pub own_id : r.region_id ≡ k
  pub normal_id : normal lower k ≡ k
  pub has_id : is_empty k ≡ false
  pub stripped : strip r.endpoint ≡ r.endpoint
  pub has_endpoint : is_empty r.endpoint ≡ false
  pub weighs : 0 < r.traffic_weight

pub record IsIndexed (lower : String → String) (p : ControlPlane) : Type 0 where
  pub unique : IsUnique text_dec p.regions
  pub stored : (k : String) (r : Region) → lookup text_dec k p.regions ≡ some r → IsStored lower k r

pub store_region-IsIndexed :
    (lower : String → String) (k : String) (r : Region) (p : ControlPlane)
    → IsStored lower k r
    → IsIndexed lower p
    → IsIndexed lower (store_region k r p)
store_region-IsIndexed lower k r p s v = record {
  unique = insert-IsUnique text_dec k r p.regions v.unique;
  stored = λ j r' found.
      let li = lookup-insert text_dec k j r p.regions in
      elim (text_dec k j) [
        | yes e ↦
            let same : r ≡ r' = ground (arith, li) in
            subst (λ (x : Region). IsStored lower j x) same
              (subst (λ (i : String). IsStored lower i r) e s)
        | no ne ↦ v.stored j r' (ground (arith, li))
      ];
}

pub upserted-IsStored :
    (lower : String → String) (k endpoint : String) (w : ℕ) (writes reads : Bool) (n now : ℕ)
    (before : Option Region)
    → normal lower k ≡ k
    → is_empty k ≡ false
    → strip endpoint ≡ endpoint
    → is_empty endpoint ≡ false
    → 0 < w
    → IsStored lower k (upserted k endpoint w writes reads n now before)
upserted-IsStored lower k endpoint w writes reads n now none a b c d e = record {
  own_id = refl;
  normal_id = a;
  has_id = b;
  stripped = c;
  has_endpoint = d;
  weighs = e;
}
upserted-IsStored lower k endpoint w writes reads n now (some r) a b c d e = record {
  own_id = refl;
  normal_id = a;
  has_id = b;
  stripped = c;
  has_endpoint = d;
  weighs = e;
}

positive_weight_lem : (z : ℤ) (w : ℕ) → positive_weight z ≡ some w → 0 < w
positive_weight_lem (pos n) w h = ground arith
positive_weight_lem (negsuc n) w h = absurd (ground arith)

module _ (lower : String → String)
    (settled : (s : String) → normal lower (normal lower s) ≡ normal lower s) where
  pub upsert_region-IsIndexed :
      (id endpoint : String) (weight : ℤ) (writes reads : Bool) (priority : ℤ) (now : ℕ)
      (p : ControlPlane)
      → IsIndexed lower p
      → IsIndexed lower (upsert_region lower id endpoint weight writes reads priority now p).1
  unfolding upsert_region
  upsert_region-IsIndexed id endpoint weight writes reads priority now p v =
      let k = normal lower id in
      elim (Bool-cases (is_empty k)) [
        | inl blank ↦ rw (blank, upsert_region) v
        | inr named ↦ elim (Bool-cases (is_empty (strip endpoint))) [
          | inl bare ↦ rw (named, bare, upsert_region) v
          | inr full ↦ elim (Option-cases (positive_weight weight)) [
            | inl weightless ↦ rw (named, full, weightless, upsert_region) v
            | inr (w, weighs) ↦ elim (Option-cases (natural priority)) [
              | inl negative ↦ rw (named, full, weighs, negative, upsert_region) v
              | inr (n, whole) ↦
                  rw (named, full, weighs, whole, upsert_region)
                    (store_region-IsIndexed lower k
                      (upserted k (strip endpoint) w writes reads n now
                        (lookup text_dec k p.regions))
                      p
                      (upserted-IsStored lower k (strip endpoint) w writes reads n now
                        (lookup text_dec k p.regions) (settled id) named (strip-strip endpoint) full
                        (positive_weight_lem weight w weighs))
                      v)
            ]
          ]
        ]
      ]

  pub update_health-IsIndexed :
      (id : String) (healthy : Bool) (reason : Option String) (now : ℕ) (p : ControlPlane)
      → IsIndexed lower p
      → IsIndexed lower (update_health lower id healthy reason now p).1
  unfolding update_health get_region
  update_health-IsIndexed id healthy reason now p v =
      elim (Option-cases (lookup text_dec (normal lower id) p.regions)) [
        | inl missing ↦ rw (missing, get_region, update_health) v
        | inr (r, found) ↦
            rw (found, get_region, update_health)
              (let s = v.stored (normal lower id) r found in
                store_region-IsIndexed lower r.region_id
                  (record r {
                    healthy = healthy;
                    health_reason = elim reason [ none ↦ "" | some t ↦ strip t ];
                    last_heartbeat_at = now;
                    updated_at = now;
                  })
                  p
                  (record {
                    own_id = refl;
                    normal_id = ap (normal lower) s.own_id ∙ s.normal_id ∙ sym s.own_id;
                    has_id = ap is_empty s.own_id ∙ s.has_id;
                    stripped = s.stripped;
                    has_endpoint = s.has_endpoint;
                    weighs = s.weighs;
                  })
                  v)
      ]

-- the tables that calls on an empty one reach
pub data Reachable (lower : String → String) : ControlPlane → Type 0 where
  begin : Reachable lower (record { regions = []; saved = none })
  upserts :
      {p : ControlPlane} (id endpoint : String) (weight : ℤ) (writes reads : Bool) (priority : ℤ)
      (now : ℕ)
      → Reachable lower p
      → Reachable lower (upsert_region lower id endpoint weight writes reads priority now p).1
  updates :
      {p : ControlPlane} (id : String) (healthy : Bool) (reason : Option String) (now : ℕ)
      → Reachable lower p
      → Reachable lower (update_health lower id healthy reason now p).1

-- When normalising an id twice changes nothing more, in every table that calls on an empty one reach
-- each id stands once, each region stands under its own id, and that id is normal and not blank; its
-- endpoint is stripped and not blank, and its weight positive.
pub Reachable-IsIndexed :
    (lower : String → String) {p : ControlPlane}
    → ((s : String) → normal lower (normal lower s) ≡ normal lower s)
    → Reachable lower p
    → IsIndexed lower p
Reachable-IsIndexed lower settled begin = record {
  unique = tt;
  stored = λ k r found. absurd (ground arith);
}
Reachable-IsIndexed lower settled (upserts id endpoint weight writes reads priority now before) =
    upsert_region-IsIndexed lower settled id endpoint weight writes reads priority now _
      (Reachable-IsIndexed lower settled before)
Reachable-IsIndexed lower settled (updates id healthy reason now before) =
    update_health-IsIndexed lower settled id healthy reason now _
      (Reachable-IsIndexed lower settled before)
