-- ===== src/Failover/Changes.antt =====
-- What the operations of src/project_mimic/regional_failover.py write: the policies, the record of
-- an active failover and the events of the history.
use project_mimic.Prelude.{
  if◌then◌else◌, is_some, text_dec, is_empty, ℕ, String, ite, Bool, true, false, Option, none, some,
  List, [], ◌∷◌, ◌++◌,
}
use project_mimic.Dict.{Dict, lookup, insert, erase}
use project_mimic.Regions.{Region}
use project_mimic.Failover.{
  FailoverPolicy, Snapshot, ActiveFailover, Executed, Recovered, Event, policy_applied,
  failover_executed, failover_recovered, Failover, FailoverStatus, persist,
}

-- `reason.strip() or default`
abbrev pub or_else : String → String → String
or_else s default = if is_empty s then default else s

abbrev pub keys : {A : Type 0} → Dict String A → List String
keys [] = []
keys ((k, x) ∷ d) = k ∷ keys d

-- `key in d`
abbrev pub has : {A : Type 0} → String → Dict String A → Bool
has k d = is_some (lookup text_dec k d)

abbrev pub snapshot_of : Region → Snapshot
snapshot_of r = record {
  endpoint = r.endpoint;
  traffic_weight = r.traffic_weight;
  write_enabled = r.write_enabled;
  read_enabled = r.read_enabled;
  priority = r.priority;
}

-- what a failover to `target` makes of a region
abbrev pub drained : String → String → Snapshot → Snapshot
drained target k s =
    let is_target = ite (text_dec k target) true false in
    record s {
      traffic_weight = if is_target then 1000000 else 1;
      write_enabled = is_target;
      read_enabled = is_target;
    }

abbrev pub unchanged : String → Snapshot → Snapshot
unchanged k s = s

-- `self._policies[k] = policy`
abbrev pub set_policy : String → FailoverPolicy → Failover → Failover
set_policy k p f = record f {
  tables = record f.tables { policies = insert text_dec k p f.tables.policies };
}

-- `self._history.append(event)`
abbrev pub log : Event → Failover → Failover
log e f = record f { tables = record f.tables { history = f.tables.history ++ e ∷ [] } }

-- the policy that `upsert_policy` writes over one that is there, or in a free place
abbrev pub policy_of :
    String
    → String
    → String
    → Dict String ℕ
    → String
    → Bool
    → ℕ
    → Option FailoverPolicy
    → FailoverPolicy
policy_of k first second spread written auto now none = record {
  policy_id = k;
  primary_region = first;
  secondary_region = second;
  read_traffic_percent = spread;
  write_region = written;
  auto_failback = auto;
  last_applied_at = none;
  created_at = now;
  updated_at = now;
}
policy_of k first second spread written auto now (some p) = record p {
  policy_id = k;
  primary_region = first;
  secondary_region = second;
  read_traffic_percent = spread;
  write_region = written;
  auto_failback = auto;
  updated_at = now;
}

-- the record and the event of a failover that has begun, saved
abbrev pub started :
    String → String → String → String → ℕ → Dict String Snapshot → Failover → Failover
started k target reason initiated_by now snapshots f =
    let a : ActiveFailover = record {
      policy_id = k;
      target_region = target;
      reason = reason;
      initiated_by = initiated_by;
      started_at = now;
      updated_at = now;
      previous_snapshot = snapshots;
    } in
    let event : Executed = record {
      policy_id = k;
      target_region = target;
      reason = reason;
      initiated_by = initiated_by;
      started_at = now;
    } in
    persist (
      log (failover_executed event) (record f {
        tables = record f.tables {
          active_failovers = insert text_dec k a f.tables.active_failovers;
        };
      }))

-- the event of a failover that is over, whose record goes
abbrev pub resolved : String → ActiveFailover → String → String → ℕ → Failover → Failover
resolved k a reason recovered_by now f =
    let event : Recovered = record {
      policy_id = k;
      target_region = a.target_region;
      reason = reason;
      initiated_by = a.initiated_by;
      started_at = a.started_at;
      resolved_at = now;
      recovered_by = recovered_by;
    } in
    let f1 = log (failover_recovered event) f in
    record f1 {
      tables = record f1.tables { active_failovers = erase text_dec k f1.tables.active_failovers };
    }

-- the last `failover_recovered` event of a policy
unfoldable pub last_recovery : String → List Event → Option Recovered → Option Recovered
last_recovery k [] found = found
last_recovery k (failover_recovered e ∷ es) found =
    last_recovery k es (ite (text_dec e.policy_id k) (some e) found)
last_recovery k (policy_applied e ∷ es) found = last_recovery k es found
last_recovery k (failover_executed e ∷ es) found = last_recovery k es found

-- None for a blank text
abbrev pub shown : String → Option String
shown s = if is_empty s then none else some s

abbrev pub active_status : String → ActiveFailover → FailoverStatus
active_status k a = record {
  policy_id = k;
  active = true;
  target_region = some a.target_region;
  reason = some a.reason;
  initiated_by = shown a.initiated_by;
  recovered_by = none;
  started_at = some a.started_at;
  resolved_at = none;
  updated_at = a.updated_at;
}

abbrev pub idle_status : FailoverPolicy → Option Recovered → FailoverStatus
idle_status p none = record {
  policy_id = p.policy_id;
  active = false;
  target_region = none;
  reason = none;
  initiated_by = none;
  recovered_by = none;
  started_at = none;
  resolved_at = none;
  updated_at = p.updated_at;
}
idle_status p (some e) = record {
  policy_id = p.policy_id;
  active = false;
  target_region = shown e.target_region;
  reason = shown e.reason;
  initiated_by = shown e.initiated_by;
  recovered_by = shown e.recovered_by;
  started_at = some e.started_at;
  resolved_at = some e.resolved_at;
  updated_at = e.resolved_at;
}
