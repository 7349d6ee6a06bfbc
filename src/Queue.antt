-- ===== src/Queue.antt =====
-- src/project_mimic/queue_runtime.py: `InMemoryActionQueue`.
-- Each reading of the clock is an argument, in whole ticks; the id of a new job is the argument
-- `fresh` (`uuid4`). `trim` is what pydantic's `str_strip_whitespace` does to the text fields of a
-- model. The store keeps a copy of the tables; dumping a model and loading it again is the identity.
pub mod Types
pub mod Operations
pub mod Invariant
pub mod Leased
pub mod Expiry
pub mod Waiting
pub mod Granting
pub mod Dispatch
pub mod Reach
pub mod Recovery
use project_mimic.Prelude.{
  length, length-append, replicate, keep, any, take, All, count, member, without, remove,
  count-append, count-without, count-remove_ne, count-remove_self, member-count, not-member-count,
  ltb, leb, ◌==◌, if◌then◌else◌, is_some, Bool-cases, Option-cases, ltb→lt, leb→le, le→leb, lt→ltb,
  text_dec, strip, is_empty, strip-strip, Exception, value_error, key_error, runtime_error,
  session_expired, invalid_transition, access_denied, checkpoint_recovery, Result, ok, err, Action,
  pure, raise, lift, gets, or_raise, raise_if, modify, ◌>>=◌, ◌>>◌, ℕ, zero, suc, ◌+◌, ◌-◌, ◌*◌,
  ◌/◌, ◌%◌, ◌^◌, ◌≤◌, ◌<◌, min, max, String, ◌≡◌, refl, sym, ap, ◌∙◌, subst, ◌≢◌, ◌↔◌, ◌⊎◌, inl,
  inr, ite, Bool, true, false, not, ◌&&◌, ◌||◌, Option, none, some, List, [], ◌∷◌, ◌++◌, map, arith,
  ℕ_discrete,
}
use project_mimic.Dict.{Dict, lookup, insert, erase}
use project_mimic.Json.{JsonFields}
use Types.{
  JobStatus, queued, leased, completed, canceled, dead_letter, status_dec, ActionJob, WorkerLease,
  Tables, Queue, empty_tables,
}

-- `_persist_state`
unfoldable pub persist : Queue → Queue
persist q = record q { saved = some q.tables }

-- the keys whose expiry has passed
abbrev pub expired_keys : ℕ → Dict String ℕ → List String
expired_keys now [] = []
expired_keys now ((k, expires_at) ∷ d) =
    let rest = expired_keys now d in if leb expires_at now then k ∷ rest else rest

abbrev pub erase_all : {V : Type 0} → List String → Dict String V → Dict String V
erase_all [] d = d
erase_all (k ∷ ks) d = erase_all ks (erase text_dec k d)

-- `_cleanup_expired_idempotency`
unfoldable pub cleanup : ℕ → Tables → Tables
cleanup now t =
    let expired = expired_keys now t.idempotency_expires in
    record t {
      idempotency = erase_all expired t.idempotency;
      idempotency_expires = erase_all expired t.idempotency_expires;
    }

-- `_restore_from_store`: ids of jobs that are not there are dropped
abbrev known : {V : Type 0} → Dict String V → List String → List String
known d ids = keep (λ k. is_some (lookup text_dec k d)) ids

abbrev known_leases : Dict String ActionJob → Dict String WorkerLease → Dict String WorkerLease
known_leases d [] = []
known_leases d ((k, l) ∷ ls) =
    let rest = known_leases d ls in if is_some (lookup text_dec k d) then (k, l) ∷ rest else rest

unfoldable pub restore : ℕ → Option Tables → Tables
unfolding cleanup
restore now none = empty_tables
restore now (some t) = record (cleanup now t) {
  ready = known t.jobs t.ready;
  dead_letters = known t.jobs t.dead_letters;
  leases = known_leases t.jobs t.leases;
}

-- `__init__`, over what the store holds
unfoldable pub new : ℕ → ℕ → Option Tables → Result Queue
unfolding restore
new ttl now store =
    if leb ttl 0
    then err (value_error "idempotency_ttl_seconds must be positive")
    else ok (record { idempotency_ttl = ttl; tables = restore now store; saved = store })

abbrev pub find_job : String → Action Queue ActionJob
find_job job_id q = or_raise (lookup text_dec job_id q.jobs) (key_error job_id) q

abbrev pub set_job : String → ActionJob → Queue → Queue
set_job job_id job q = record q {
  tables = record q.tables { jobs = insert text_dec job_id job q.jobs };
}

abbrev pub set_lease : String → WorkerLease → Queue → Queue
set_lease job_id l q = record q {
  tables = record q.tables { leases = insert text_dec job_id l q.leases };
}

abbrev pub drop_lease : String → Queue → Queue
drop_lease job_id q = record q {
  tables = record q.tables { leases = erase text_dec job_id q.leases };
}

abbrev pub set_ready : List String → Queue → Queue
set_ready ids q = record q { tables = record q.tables { ready = ids } }

abbrev pub push_ready : String → Queue → Queue
push_ready job_id q = set_ready (q.ready ++ job_id ∷ []) q

abbrev pub set_dead : List String → Queue → Queue
set_dead ids q = record q { tables = record q.tables { dead_letters = ids } }

abbrev pub push_dead : String → Queue → Queue
push_dead job_id q = set_dead (q.dead_letters ++ job_id ∷ []) q

abbrev pub unleased : ActionJob → ActionJob
unleased job = record job { lease_worker_id = none; lease_expires_at = none }

-- what `fail` and `requeue_expired_leases` do with a job whose attempt is over
unfoldable pub settle : String → ActionJob → Queue → Queue
settle job_id job q =
    if leb job.max_attempts job.attempts
    then push_dead job_id (set_job job_id (record job { status = dead_letter }) q)
    else push_ready job_id (set_job job_id (record job { status = queued }) q)

-- `requeue_expired_leases`
abbrev pub expired_leases : ℕ → Dict String WorkerLease → List String
expired_leases now [] = []
expired_leases now ((k, l) ∷ d) =
    let rest = expired_leases now d in if ltb l.lease_expires_at now then k ∷ rest else rest

abbrev pub expire : ℕ → String → Action Queue (Unit {0})
expire now job_id q =
    let q1 = drop_lease job_id q in
    elim (lookup text_dec job_id q1.jobs) [
      | none ↦ (err (key_error job_id), q1)
      | some job ↦ (ok tt, settle job_id (record (unleased job) { updated_at = now }) q1)
    ]

unfoldable pub expire_all : ℕ → List String → ℕ → Action Queue ℕ
expire_all now [] recovered q = (ok recovered, q)
expire_all now (k ∷ ks) recovered q =
    let (r, q1) = expire now k q in
    elim r [ ok _ ↦ expire_all now ks (recovered + 1) q1 | err e ↦ (err e, q1) ]

unfoldable pub requeue_expired_leases : ℕ → Action Queue ℕ
unfolding expire_all persist
requeue_expired_leases now q =
    let (r, q1) = expire_all now (expired_leases now q.leases) 0 q in
    elim r [
      | ok recovered ↦ (ok recovered, if ltb 0 recovered then persist q1 else q1)
      | err e ↦ (err e, q1)
    ]
