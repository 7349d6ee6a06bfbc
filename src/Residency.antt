-- ===== src/Residency.antt =====
-- src/project_mimic/data_residency.py: the regions in which a tenant's data may be. `lower` is a
-- parameter for Python's `str.lower`.
pub mod Validation
use project_mimic.Prelude.{
  All-weaken, if_both, le_text, sort_by, place_by, keep-sort_by, length-sort_by, All-sort_by,
  IsSortedBy, sort_by-IsSortedBy, member-sort_by, Result-cases, round_div, ite-elim, length,
  length-append, replicate, keep, any, take, drop, All, count, member, without, remove,
  count-append, count-without, count-remove_ne, count-remove_self, member-count, not-member-count,
  ltb, leb, ◌==◌, if◌then◌else◌, is_some, Bool-cases, Option-cases, ltb→lt, leb→le, le→leb, lt→ltb,
  text_dec, strip, joined, is_empty, strip-strip, Exception, value_error, key_error, runtime_error,
  session_expired, invalid_transition, access_denied, checkpoint_recovery, Result, ok, err, Action,
  pure, raise, lift, gets, or_raise, raise_if, modify, ◌>>=◌, ◌>>◌, ℕ, zero, suc, ◌+◌, ◌-◌, ◌*◌,
  ◌/◌, ◌%◌, ◌^◌, ◌≤◌, ◌<◌, min, max, String, ◌≡◌, refl, sym, ap, ◌∙◌, subst, ◌≢◌, ◌↔◌, ◌⊎◌, inl,
  inr, ite, Bool, true, false, not, ◌&&◌, ◌||◌, Option, none, some, List, [], ◌∷◌, ◌++◌, map, arith,
  ℕ_discrete,
}
use project_mimic.Dict.{Dict, lookup, insert}

pub record ResidencyPolicy : Type 0 where
  pub tenant_id : String
  pub allowed_regions : List String
  pub default_region : String
  pub created_at : ℕ
  pub updated_at : ℕ

pub record Residency : Type 0 where
  pub policies : Dict String ResidencyPolicy
  pub saved : Option (Dict String ResidencyPolicy)

pub data ResidencyReason : Type 0 where
  no_residency_policy region_allowed region_not_permitted : ResidencyReason

-- what `validate` answers, with the regions and the default of the policy if there is one
pub record ResidencyVerdict : Type 0 where
  pub tenant_id : String
  pub region : String
  pub allowed : Bool
  pub reason : ResidencyReason
  pub policy : Option (List String × String)

-- the items of a set
abbrev pub distinct : List String → List String
distinct [] = []
distinct (x ∷ xs) = let rest = distinct xs in if member text_dec x rest then rest else x ∷ rest

abbrev pub first_of : List String → String
first_of [] = ""
first_of (x ∷ xs) = x

abbrev created_of : ℕ → Option ResidencyPolicy → ℕ
created_of now none = now
created_of now (some p) = p.created_at

-- the payload of `set_policy`
abbrev pub policy_of : String → List String → String → ℕ → Option ResidencyPolicy → ResidencyPolicy
policy_of tenant regions chosen now before = record {
  tenant_id = tenant;
  allowed_regions = regions;
  default_region = chosen;
  created_at = created_of now before;
  updated_at = now;
}

abbrev sorted_policies : Dict String ResidencyPolicy → List ResidencyPolicy
sorted_policies [] = []
sorted_policies ((k, p) ∷ d) = p ∷ sorted_policies d

module _ (lower : String → String) where
  -- `s.strip().lower()`
  abbrev pub normal_region : String → String
  normal_region s = lower (strip s)

  -- the items that are not blank, in normal form
  abbrev pub cleaned : List String → List String
  cleaned [] = []
  cleaned (s ∷ ss) =
      let rest = cleaned ss in if is_empty (strip s) then rest else normal_region s ∷ rest

  -- `sorted({...})`
  abbrev pub normal_regions : List String → List String
  normal_regions ss = sort_by le_text (distinct (cleaned ss))

  -- `(region or "").strip().lower()`
  abbrev pub or_blank : Option String → String
  or_blank none = normal_region ""
  or_blank (some s) = normal_region s

  abbrev pub resolved_default : Option String → List String → String
  resolved_default default regions =
      if is_empty (or_blank default) then first_of regions else or_blank default

  unfoldable pub set_policy :
      String → List String → Option String → ℕ → Action Residency ResidencyPolicy
  set_policy tenant_id allowed_regions default now s =
      let tenant = strip tenant_id in
      let regions = normal_regions allowed_regions in
      let chosen = resolved_default default regions in
      if is_empty tenant
      then (err (value_error "tenant_id must not be empty"), s)
      else if leb (length regions) 0
      then (err (value_error "allowed_regions must contain at least one region"), s)
      else if not (member text_dec chosen regions)
      then (err (value_error "default_region must be one of allowed_regions"), s)
      else let p = policy_of tenant regions chosen now (lookup text_dec tenant s.policies) in
        let policies' = insert text_dec tenant p s.policies in
        (ok p, record s { policies = policies'; saved = some policies' })

  unfoldable pub get_policy : String → Residency → Result ResidencyPolicy
  get_policy tenant_id s = elim (lookup text_dec tenant_id s.policies) [
    | none ↦ err (key_error tenant_id)
    | some p ↦ ok p
  ]

  unfoldable pub list_policies : Residency → List ResidencyPolicy
  list_policies s = sorted_policies (sort_by (λ x y. le_text x.0 y.0) s.policies)

  unfoldable pub validate : String → Option String → Residency → Result ResidencyVerdict
  validate tenant_id region s =
      let tenant = strip tenant_id in
      if is_empty tenant
      then err (value_error "tenant_id must not be empty")
      else elim (lookup text_dec tenant s.policies) [
        | none ↦ ok (record {
          tenant_id = tenant;
          region = or_blank region;
          allowed = true;
          reason = no_residency_policy;
          policy = none;
        })
        | some p ↦
            let asked = if is_empty (or_blank region) then p.default_region else or_blank region in
            let allowed = member text_dec asked p.allowed_regions in
            ok (record {
              tenant_id = tenant;
              region = asked;
              allowed = allowed;
              reason = if allowed then region_allowed else region_not_permitted;
              policy = some (p.allowed_regions, p.default_region);
            })
      ]
