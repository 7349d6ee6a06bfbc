-- ===== src/Regions.antt =====
-- src/project_mimic/multi_region_control_plane.py: the regions and their health. Weights are in
-- units of 0.0001; `lower` is a parameter for Python's `str.lower`.
pub mod Routes
pub mod Index
pub mod Routing
use project_mimic.Prelude.{
  All-weaken, if_both, le_text, sort_by, place_by, keep-sort_by, length-sort_by, All-sort_by,
  IsSortedBy, sort_by-IsSortedBy, member-sort_by, Result-cases, round_div, ite-elim, length,
  length-append, replicate, keep, any, take, drop, All, count, member, without, remove,
  count-append, count-without, count-remove_ne, count-remove_self, member-count, not-member-count,
  ltb, leb, ◌==◌, if◌then◌else◌, is_some, Bool-cases, Option-cases, ltb→lt, leb→le, le→leb, lt→ltb,
  text_dec, strip, joined, is_empty, strip-strip, Exception, value_error, key_error, runtime_error,
  session_expired, invalid_transition, access_denied, checkpoint_recovery, Result, ok, err, Action,
  pure, raise, lift, gets, or_raise, raise_if, modify, ◌>>=◌, ◌>>◌, ℕ, zero, suc, ◌+◌, ◌-◌, ◌*◌,
  ◌/◌, ◌%◌, ◌^◌, ◌≤◌, ◌<◌, min, max, String, ◌≡◌, refl, sym, ap, ◌∙◌, subst, ◌≢◌, ◌↔◌, ◌⊎◌, inl,
  inr, ite, Bool, true, false, not, ◌&&◌, ◌||◌, Option, none, some, List, [], ◌∷◌, ◌++◌, map, arith,
  ℕ_discrete,
}
use project_mimic.Dict.{Dict, lookup, insert}
use project_mimic.Json.{ℤ, pos, negsuc}

pub record Region : Type 0 where
  pub region_id : String
  pub endpoint : String
  pub traffic_weight : ℕ
  pub write_enabled : Bool
  pub read_enabled : Bool
  pub priority : ℕ
  pub healthy : Bool
  pub health_reason : String
  pub last_heartbeat_at : ℕ
  pub created_at : ℕ
  pub updated_at : ℕ

pub record ControlPlane : Type 0 where
  pub regions : Dict String Region
  pub saved : Option (Dict String Region)

-- a float above 0
abbrev pub positive_weight : ℤ → Option ℕ
positive_weight (pos n) = if ltb 0 n then some n else none
positive_weight (negsuc n) = none

abbrev pub natural : ℤ → Option ℕ
natural (pos n) = some n
natural (negsuc n) = none

-- the region that `upsert_region` writes over one that is there, or in a free place
abbrev pub upserted : String → String → ℕ → Bool → Bool → ℕ → ℕ → Option Region → Region
upserted k endpoint weight writes reads priority now none = record {
  region_id = k;
  endpoint = endpoint;
  traffic_weight = weight;
  write_enabled = writes;
  read_enabled = reads;
  priority = priority;
  healthy = true;
  health_reason = "";
  last_heartbeat_at = now;
  created_at = now;
  updated_at = now;
}
upserted k endpoint weight writes reads priority now (some r) = record r {
  region_id = k;
  endpoint = endpoint;
  traffic_weight = weight;
  write_enabled = writes;
  read_enabled = reads;
  priority = priority;
  updated_at = now;
}

-- `self._regions[region_id] = payload` and `_persist`
abbrev pub store_region : String → Region → ControlPlane → ControlPlane
store_region k r p =
    let regions' = insert text_dec k r p.regions in
    record p { regions = regions'; saved = some regions' }

abbrev pub values : Dict String Region → List Region
values [] = []
values ((k, r) ∷ d) = r ∷ values d

module _ (lower : String → String) where
  -- `text.strip().lower()`
  abbrev pub normal : String → String
  normal s = lower (strip s)

  unfoldable pub upsert_region :
      String → String → ℤ → Bool → Bool → ℤ → ℕ → Action ControlPlane Region
  upsert_region region_id endpoint weight writes reads priority now p =
      let k = normal region_id in
      if is_empty k
      then (err (value_error "region_id must not be empty"), p)
      else if is_empty (strip endpoint)
      then (err (value_error "endpoint must not be empty"), p)
      else elim (positive_weight weight) [
        | none ↦ (err (value_error "traffic_weight must be greater than zero"), p)
        | some w ↦ elim (natural priority) [
          | none ↦ (err (value_error "priority must be non-negative"), p)
          | some n ↦
              let r =
                upserted k (strip endpoint) w writes reads n now (lookup text_dec k p.regions) in
              (ok r, store_region k r p)
        ]
      ]

  unfoldable pub get_region : String → ControlPlane → Result Region
  get_region region_id p = elim (lookup text_dec (normal region_id) p.regions) [
    | none ↦ err (key_error (normal region_id))
    | some r ↦ ok r
  ]

  unfoldable pub list_regions : ControlPlane → List Region
  list_regions p = values (sort_by (λ x y. le_text x.0 y.0) p.regions)

  unfoldable pub update_health : String → Bool → Option String → ℕ → Action ControlPlane Region
  unfolding get_region
  update_health region_id healthy reason now p = elim (get_region region_id p) [
    | err e ↦ (err e, p)
    | ok r ↦
        let r' = record r {
          healthy = healthy;
          health_reason = elim reason [ none ↦ "" | some s ↦ strip s ];
          last_heartbeat_at = now;
          updated_at = now;
        } in
        (ok r', store_region r.region_id r' p)
  ]
