-- ===== src/Failover.antt =====
-- src/project_mimic/regional_failover.py: policies over the regions of a control plane, and the
-- failover that drains all of a policy's regions but one. Percentages are in units of 0.0001, as
-- the control plane's weights; `clock` reads the time at the update of each region.
pub mod Changes
pub mod Operations
pub mod Updates
pub mod Snapshots
pub mod Recovery
pub mod Cycle
mod Kept
use project_mimic.Prelude.{
  All-weaken, if_both, le_text, sort_by, place_by, keep-sort_by, length-sort_by, All-sort_by,
  IsSortedBy, sort_by-IsSortedBy, member-sort_by, Result-cases, round_div, ite-elim, length,
  length-append, replicate, keep, any, take, drop, All, count, member, without, remove,
  count-append, count-without, count-remove_ne, count-remove_self, member-count, not-member-count,
  ltb, leb, ◌==◌, if◌then◌else◌, is_some, Bool-cases, Option-cases, ltb→lt, leb→le, le→leb, lt→ltb,
  text_dec, strip, joined, is_empty, strip-strip, Exception, value_error, key_error, runtime_error,
  session_expired, invalid_transition, access_denied, checkpoint_recovery, Result, ok, err, Action,
  pure, raise, lift, gets, or_raise, raise_if, modify, ◌>>=◌, ◌>>◌, ℕ, zero, suc, ◌+◌, ◌-◌, ◌*◌,
  ◌/◌, ◌%◌, ◌^◌, ◌≤◌, ◌<◌, min, max, String, ◌≡◌, refl, sym, ap, ◌∙◌, subst, ◌≢◌, ◌↔◌, ◌⊎◌, inl,
  inr, ite, Bool, true, false, not, ◌&&◌, ◌||◌, Option, none, some, List, [], ◌∷◌, ◌++◌, map, arith,
  ℕ_discrete,
}
use project_mimic.Dict.{Dict, lookup, insert}
use project_mimic.Json.{ℤ, pos, negsuc}
use project_mimic.Regions.{Region, ControlPlane, normal, upsert_region, get_region}

pub record FailoverPolicy : Type 0 where
  pub policy_id : String
  pub primary_region : String
  pub secondary_region : String
  pub read_traffic_percent : Dict String ℕ
  pub write_region : String
  pub auto_failback : Bool
  pub last_applied_at : Option ℕ
  pub created_at : ℕ
  pub updated_at : ℕ

-- what a failover keeps of a region
pub record Snapshot : Type 0 where
  pub endpoint : String
  pub traffic_weight : ℕ
  pub write_enabled : Bool
  pub read_enabled : Bool
  pub priority : ℕ

pub record ActiveFailover : Type 0 where
  pub policy_id : String
  pub target_region : String
  pub reason : String
  pub initiated_by : String
  pub started_at : ℕ
  pub updated_at : ℕ
  pub previous_snapshot : Dict String Snapshot

pub record AppliedRegion : Type 0 where
  pub region_id : String
  pub read_percent : ℕ
  pub read_enabled : Bool
  pub write_enabled : Bool

pub record Applied : Type 0 where
  pub policy_id : String
  pub initiated_by : String
  pub applied_at : ℕ
  pub write_region : String
  pub applied_regions : List AppliedRegion

pub record Executed : Type 0 where
  pub policy_id : String
  pub target_region : String
  pub reason : String
  pub initiated_by : String
  pub started_at : ℕ

pub record Recovered : Type 0 where
  pub policy_id : String
  pub target_region : String
  pub reason : String
  pub initiated_by : String
  pub started_at : ℕ
  pub resolved_at : ℕ
  pub recovered_by : String

pub data Event : Type 0 where
  policy_applied : Applied → Event
  failover_executed : Executed → Event
  failover_recovered : Recovered → Event

-- what the store keeps
pub record FailoverTables : Type 0 where
  pub policies : Dict String FailoverPolicy
  pub active_failovers : Dict String ActiveFailover
  pub history : List Event

-- the orchestrator, with the control plane that it shares
pub record Failover : Type 0 where
  pub control_plane : ControlPlane
  pub tables : FailoverTables
  pub saved : Option FailoverTables

pub record FailoverStatus : Type 0 where
  pub policy_id : String
  pub active : Bool
  pub target_region : Option String
  pub reason : Option String
  pub initiated_by : Option String
  pub recovered_by : Option String
  pub started_at : Option ℕ
  pub resolved_at : Option ℕ
  pub updated_at : ℕ

-- `_persist`
abbrev pub persist : Failover → Failover
persist f = record f { saved = some f.tables }

unfoldable pub sum_of : Dict String ℕ → ℕ
sum_of [] = 0
sum_of ((k, n) ∷ d) = n + sum_of d

unfoldable pub shares : ℕ → Dict String ℕ → Dict String ℕ
shares total [] = []
shares total ((k, n) ∷ d) = (k, round_div (n * 1000000) total) ∷ shares total d

abbrev pub by_key : {A : Type 0} → String × A → String × A → Bool
by_key x y = le_text x.0 y.0

module _ (lower : String → String) where
  -- the loop of `_normalize_read_distribution`
  unfoldable pub gather : Dict String ℕ → Dict String ℤ → Result (Dict String ℕ)
  gather built [] = ok built
  gather built ((k, negsuc n) ∷ rest) =
      if is_empty (normal lower k)
      then err (value_error "read_traffic_percent keys must not be empty")
      else err (value_error "read_traffic_percent values must be non-negative")
  gather built ((k, pos n) ∷ rest) =
      let next = gather (insert text_dec (normal lower k) n built) rest in
      if is_empty (normal lower k)
      then err (value_error "read_traffic_percent keys must not be empty")
      else next

  -- `_normalize_read_distribution`
  unfoldable pub normalize_read_distribution : Dict String ℤ → Result (Dict String ℕ)
  unfolding gather sum_of shares
  normalize_read_distribution [] =
      err (value_error "read_traffic_percent must include at least one region")
  normalize_read_distribution (x ∷ payload) = elim (gather [] (x ∷ payload)) [
    | err e ↦ err e
    | ok built ↦
        if sum_of built == 0
        then err (value_error "read_traffic_percent total must be greater than zero")
        else ok (shares (sum_of built) (sort_by by_key built))
  ]

  -- `_ensure_region_exists` for each key
  unfoldable pub ensure_regions_exist : Dict String ℕ → ControlPlane → Result (Unit {0})
  unfolding get_region
  ensure_regions_exist [] p = ok tt
  ensure_regions_exist ((k, n) ∷ d) p = elim (get_region lower k p) [
    | err e ↦ err (value_error "unknown control plane region")
    | ok r ↦ ensure_regions_exist d p
  ]

  unfoldable pub get_policy : String → Failover → Result FailoverPolicy
  get_policy policy_id f = elim (lookup text_dec (normal lower policy_id) f.tables.policies) [
    | none ↦ err (key_error (normal lower policy_id))
    | some p ↦ ok p
  ]

abbrev payloads : Dict String FailoverPolicy → List FailoverPolicy
payloads [] = []
payloads ((k, p) ∷ d) = p ∷ payloads d

unfoldable pub list_policies : Failover → List FailoverPolicy
list_policies f = payloads (sort_by by_key f.tables.policies)
