-- ===== src/Regions/Routes.antt =====
-- The routing of src/project_mimic/multi_region_control_plane.py. `digest` is a parameter for the
-- first 48 bits of the SHA-256 digest of a tenant and an operation, which the source turns into a
-- ticket in [0, 1). Sums and quotients of weights are exact here.
use project_mimic.Prelude.{
  le_text, length, keep, ltb, leb, ◌==◌, if◌then◌else◌, text_dec, strip, is_empty, value_error,
  Result, ok, err, ℕ, ◌+◌, ◌*◌, ◌^◌, max, String, ite, Bool, true, false, ◌&&◌, Option, none, some,
  List, [], ◌∷◌,
}
use project_mimic.Regions.{Region, ControlPlane, normal, list_regions}

pub data Operation : Type 0 where
  read write : Operation

pub data RouteReason : Type 0 where
  weighted_active_active_routing preferred_region_selected : RouteReason
  preferred_region_unavailable_fallback : RouteReason

pub record Route : Type 0 where
  pub tenant_id : String
  pub operation : Operation
  pub selected_region : String
  pub endpoint : String
  pub reason : RouteReason
  pub routed_at : ℕ

pub record Topology : Type 0 where
  pub total_regions : ℕ
  pub healthy_regions : List String
  pub writable_regions : List String
  pub readable_regions : List String
  pub active_active_ready : Bool
  pub primary_region : Option String
  pub updated_at : ℕ

abbrev pub ids_of : List Region → List String
ids_of [] = []
ids_of (r ∷ rs) = r.region_id ∷ ids_of rs

abbrev pub is_empty_list : List Region → Bool
is_empty_list [] = true
is_empty_list (r ∷ rs) = false

-- whether a region takes an operation
abbrev pub serves : Operation → Region → Bool
serves read r = r.healthy && r.read_enabled
serves write r = r.healthy && r.write_enabled

-- `next((item for item in candidates if item["region_id"] == k), None)`
unfoldable pub find_region : String → List Region → Option Region
find_region k [] = none
find_region k (r ∷ rs) = ite (text_dec r.region_id k) (some r) (find_region k rs)

unfoldable pub total_weight : List Region → ℕ
total_weight [] = 0
total_weight (r ∷ rs) = r.traffic_weight + total_weight rs

-- the loop of `_weighted_pick`, with the weights so far: the test `ticket <= threshold` in integers
unfoldable pub pick_from : ℕ → ℕ → ℕ → Region → List Region → Region
pick_from ticket total before last [] = last
pick_from ticket total before last (r ∷ rs) =
    let so_far = before + r.traffic_weight in
    let rest = pick_from ticket total so_far r rs in
    if leb (ticket * total) (so_far * 2 ^ 48) then r else rest

-- the lower priority, then the lower id
abbrev pub before : Region → Region → Bool
before a b =
    if ltb a.priority b.priority
    then true
    else if a.priority == b.priority
    then le_text a.region_id b.region_id
    else false

-- `min(..., key=...)`: the first of the least
unfoldable pub least : Region → List Region → Region
least best [] = best
least best (r ∷ rs) = least (if before best r then best else r) rs

abbrev pub latest : List Region → ℕ
latest [] = 0
latest (r ∷ rs) = max r.updated_at (latest rs)

module _ (lower : String → String) where
  unfoldable pub eligible_regions : Operation → ControlPlane → Result (List Region)
  unfolding list_regions
  eligible_regions op p =
      let found = keep (serves op) (list_regions lower p) in
      if is_empty_list found
      then err (value_error "no healthy regions available for operation")
      else ok found

  module _ (digest : String → Operation → ℕ) where
    -- `_weighted_pick` of a list that is not empty
    unfoldable pub weighted_pick : String → Operation → Region → List Region → Region
    unfolding pick_from total_weight
    weighted_pick tenant op r rs =
        if total_weight (r ∷ rs) == 0
        then r
        else pick_from (digest tenant op) (total_weight (r ∷ rs)) 0 r (r ∷ rs)

    abbrev pub weighted :
        String → Operation → List Region → RouteReason → Option (Region × RouteReason)
    weighted tenant op [] reason = none
    weighted tenant op (r ∷ rs) reason = some (weighted_pick tenant op r rs, reason)

    abbrev pub routed : String → Operation → Region → RouteReason → ℕ → Route
    routed tenant op r reason now = record {
      tenant_id = tenant;
      operation = op;
      selected_region = r.region_id;
      endpoint = r.endpoint;
      reason = reason;
      routed_at = now;
    }

    -- an operation by its name
    unfoldable pub operation_of : String → Option Operation
    operation_of s =
        ite (text_dec s "read") (some read) (ite (text_dec s "write") (some write) none)

    abbrev pub fallback_reason : String → RouteReason
    fallback_reason preferred =
        if is_empty preferred
        then weighted_active_active_routing
        else preferred_region_unavailable_fallback

    -- `(preferred_region or "").strip().lower()`
    abbrev pub wished : Option String → String
    wished none = normal lower ""
    wished (some s) = normal lower s

    -- The list that `_eligible_regions` returns is sorted by id already, so sorting it again in
    -- `_weighted_pick` changes nothing.
    unfoldable pub select :
        String → Operation → String → List Region → Option (Region × RouteReason)
    unfolding find_region
    select tenant op preferred found =
        let chosen = if is_empty preferred then none else find_region preferred found in
        elim chosen [
          | some r ↦ some (r, preferred_region_selected)
          | none ↦ weighted tenant op found (fallback_reason preferred)
        ]

    unfoldable pub route : String → String → Option String → ℕ → ControlPlane → Result Route
    unfolding operation_of
    route tenant_id operation preferred now p =
        let tenant = strip tenant_id in
        let wish = wished preferred in
        if is_empty tenant
        then err (value_error "tenant_id must not be empty")
        else elim (operation_of (normal lower operation)) [
          | none ↦ err (value_error "operation must be either 'read' or 'write'")
          | some op ↦ elim (eligible_regions op p) [
            | err e ↦ err e
            | ok found ↦ elim (select tenant op wish found) [
              | none ↦ err (value_error "no healthy regions available for operation")
              | some (r, reason) ↦ ok (routed tenant op r reason now)
            ]
          ]
        ]

  -- `_select_primary_region`
  unfoldable pub primary_region : List Region → Option String
  unfolding least
  primary_region rs = elim (keep (serves write) rs) [
    | [] ↦ none
    | r ∷ more ↦ some (least r more).region_id
  ]

  unfoldable pub topology_snapshot : ControlPlane → Topology
  topology_snapshot p =
      let all = list_regions lower p in
      let writable = keep (serves write) all in
      let readable = keep (serves read) all in
      record {
        total_regions = length all;
        healthy_regions = ids_of (keep (λ r. r.healthy) all);
        writable_regions = ids_of writable;
        readable_regions = ids_of readable;
        active_active_ready = leb 2 (length writable) && leb 2 (length readable);
        primary_region = primary_region all;
        updated_at = latest all;
      }
