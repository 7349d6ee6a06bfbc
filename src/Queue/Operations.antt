-- ===== src/Queue/Operations.antt =====
-- The public operations of `InMemoryActionQueue`, in src/project_mimic/queue_runtime.py.
use project_mimic.Prelude.{
  member, without, remove, ltb, leb, if◌then◌else◌, text_dec, strip, is_empty, Exception,
  value_error, key_error, Result, ok, err, Action, or_raise, ℕ, suc, ◌+◌, String, ite, Bool, true,
  false, not, Option, none, some, List, [], ◌∷◌, ◌++◌,
}
use project_mimic.Dict.{Dict, lookup, insert}
use project_mimic.Json.{JsonFields}
use project_mimic.Queue.Types.{
  JobStatus, queued, leased, completed, canceled, dead_letter, status_dec, ActionJob, WorkerLease,
  Queue,
}
use project_mimic.Queue.{
  persist, cleanup, find_job, set_job, set_lease, drop_lease, set_ready, push_ready, set_dead,
  push_dead, unleased, settle, requeue_expired_leases,
}

abbrev pub is_terminal : JobStatus → Bool
is_terminal completed = true
is_terminal dead_letter = true
is_terminal canceled = true
is_terminal _ = false

-- whether `lease` is one of `worker`
abbrev pub held_by : String → Option WorkerLease → Bool
held_by worker none = false
held_by worker (some l) = ite (text_dec l.worker_id worker) true false

abbrev pub no_lease : Exception
no_lease = value_error "worker does not hold lease"

unfoldable pub ack : String → String → ℕ → Action Queue ActionJob
unfolding persist
ack worker job_id now q = elim (lookup text_dec job_id q.jobs) [
  | none ↦ (err (key_error job_id), q)
  | some job ↦
      if not (held_by worker (lookup text_dec job_id q.leases))
      then (err no_lease, q)
      else let job' = record (unleased job) { status = completed; updated_at = now } in
        (ok job', persist (drop_lease job_id (set_job job_id job' q)))
]

unfoldable pub replay_dead_letter : String → ℕ → Action Queue ActionJob
unfolding persist status_dec
replay_dead_letter job_id now q = elim (lookup text_dec job_id q.jobs) [
  | none ↦ (err (key_error job_id), q)
  | some job ↦
      ite (status_dec job.status dead_letter)
        (let job' = record job {
          status = queued;
          attempts = 0;
          updated_at = now;
          last_error = none;
        } in
          let q1 = set_dead (remove text_dec job_id q.dead_letters) (set_job job_id job' q) in
          (ok job', persist (push_ready job_id q1)))
        (err (value_error "job is not in dead letter queue"), q)
]

-- `cancel` and `quarantine` take a job out of the leases and out of the ready queue
abbrev pub withdraw : String → ActionJob → Queue → Queue
withdraw job_id job q =
    set_ready (without text_dec job_id q.ready) (drop_lease job_id (set_job job_id job q))

module _ (trim : String → String) where
  abbrev pub new_job : JsonFields → String → ℕ → String → ActionJob
  new_job payload key now fresh = record {
    job_id = trim fresh;
    idempotency_key = trim key;
    action_payload = payload;
    status = queued;
    attempts = 0;
    max_attempts = 3;
    created_at = now;
    updated_at = now;
    lease_worker_id = none;
    lease_expires_at = none;
    last_error = none;
  }

  -- the rest of `dispatch` where the key is not known
  unfoldable pub create : JsonFields → String → ℕ → String → Action Queue ActionJob
  unfolding persist
  create payload key now fresh q =
      let job = new_job payload key now fresh in
      let t = q.tables in
      let t' = record t {
        jobs = insert text_dec job.job_id job t.jobs;
        idempotency = insert text_dec key job.job_id t.idempotency;
        idempotency_expires = insert text_dec key (now + q.idempotency_ttl) t.idempotency_expires;
        ready = t.ready ++ job.job_id ∷ [];
      } in
      (ok job, persist (record q { tables = t' }))

  -- `now` is the reading of `_cleanup_expired_idempotency` and `later` that of `dispatch`
  unfoldable pub dispatch : JsonFields → String → ℕ → ℕ → String → Action Queue ActionJob
  unfolding create
  dispatch payload idempotency_key now later fresh q =
      let key = strip idempotency_key in
      let q1 = record q { tables = cleanup now q.tables } in
      if is_empty key
      then (err (value_error "idempotency_key is required"), q)
      else elim (lookup text_dec key q1.idempotency) [
        | none ↦ create payload key later fresh q1
        | some existing ↦
            if is_empty existing then create payload key later fresh q1 else find_job existing q1
      ]

  abbrev pub leased_job : String → ℕ → ℕ → ActionJob → ActionJob
  leased_job worker now expires_at job = record job {
    status = leased;
    attempts = job.attempts + 1;
    lease_worker_id = some (trim worker);
    lease_expires_at = some expires_at;
    updated_at = now;
  }

  abbrev pub new_lease : String → String → ℕ → ℕ → WorkerLease
  new_lease worker job_id now expires_at = record {
    worker_id = trim worker;
    job_id = trim job_id;
    lease_expires_at = expires_at;
    heartbeat_at = now;
  }

  unfoldable pub grant : String → ℕ → ℕ → String → ActionJob → Queue → ActionJob × Queue
  unfolding persist
  grant worker ttl now job_id job q =
      let job' = leased_job worker now (now + ttl) job in
      (
        job',
        persist (
            set_lease job.job_id (new_lease worker job.job_id now (now + ttl))
              (set_job job_id job' q)),
      )

  -- the `while` loop of `lease_next`, over the ids that are ready
  unfoldable pub lease_loop : String → ℕ → ℕ → List String → Action Queue (Option ActionJob)
  unfolding grant status_dec
  lease_loop worker ttl now [] q = (ok none, set_ready [] q)
  lease_loop worker ttl now (job_id ∷ ids) q = elim (lookup text_dec job_id q.jobs) [
    | none ↦ (err (key_error job_id), set_ready ids q)
    | some job ↦
        ite (status_dec job.status queued)
          (let (job', q') = grant worker ttl now job_id job (set_ready ids q) in
            (ok (some job'), q'))
          (lease_loop worker ttl now ids q)
  ]

  -- `now` is the reading of `requeue_expired_leases` and `later` that of the loop
  unfoldable pub lease_next : String → ℕ → ℕ → ℕ → Action Queue (Option ActionJob)
  unfolding lease_loop
  lease_next worker ttl now later q =
      if leb ttl 0
      then (err (value_error "lease_ttl_seconds must be positive"), q)
      else let (r, q1) = requeue_expired_leases now q in
        elim r [ ok _ ↦ lease_loop worker ttl later q1.ready q1 | err e ↦ (err e, q1) ]

  unfoldable pub renew_lease : String → String → ℕ → ℕ → Action Queue WorkerLease
  unfolding persist
  renew_lease worker job_id ttl now q =
      if leb ttl 0
      then (err (value_error "lease_ttl_seconds must be positive"), q)
      else elim (lookup text_dec job_id q.leases) [
        | none ↦ (err (value_error "lease not found"), q)
        | some l ↦
            if not (held_by worker (some l))
            then (err (value_error "lease belongs to a different worker"), q)
            else if ltb l.lease_expires_at now
            then (err (value_error "lease already expired"), q)
            else let updated = new_lease worker job_id now (now + ttl) in
              let q1 = set_lease job_id updated q in
              elim (lookup text_dec job_id q1.jobs) [
                | none ↦ (err (key_error job_id), q1)
                | some job ↦ (
                  ok updated,
                  persist (
                      set_job job_id
                        (record job { lease_expires_at = some (now + ttl); updated_at = now }) q1),
                )
              ]
      ]

  unfoldable pub fail : String → String → String → ℕ → Action Queue ActionJob
  unfolding persist settle
  fail worker job_id reason now q = elim (lookup text_dec job_id q.jobs) [
    | none ↦ (err (key_error job_id), q)
    | some job ↦
        if not (held_by worker (lookup text_dec job_id q.leases))
        then (err no_lease, q)
        else let job' = record (unleased job) {
          last_error = some (trim reason);
          updated_at = now;
        } in
          let q' = persist (settle job_id job' (drop_lease job_id q)) in
          (or_raise (lookup text_dec job_id q'.jobs) (key_error job_id) q')
  ]

  unfoldable pub cancel : String → String → ℕ → Action Queue ActionJob
  unfolding persist
  cancel job_id reason now q = elim (lookup text_dec job_id q.jobs) [
    | none ↦ (err (key_error job_id), q)
    | some job ↦
        let text = strip reason in
        if is_empty text
        then (err (value_error "reason is required"), q)
        else if is_terminal job.status
        then (err (value_error "job is already terminal"), q)
        else let job' = record (unleased job) {
          status = canceled;
          last_error = some (trim text);
          updated_at = now;
        } in
          (ok job', persist (withdraw job_id job' q))
  ]

  unfoldable pub quarantine : String → String → ℕ → Action Queue ActionJob
  unfolding persist status_dec
  quarantine job_id reason now q = elim (lookup text_dec job_id q.jobs) [
    | none ↦ (err (key_error job_id), q)
    | some job ↦
        let text = strip reason in
        if is_empty text
        then (err (value_error "reason is required"), q)
        else ite (status_dec job.status completed)
            (err (value_error "cannot quarantine completed job"), q)
            (let job' = record (unleased job) {
              status = dead_letter;
              last_error = some (trim text);
              updated_at = now;
            } in
              let q1 = withdraw job_id job' q in
              (
                ok job',
                persist
                    (if member text_dec job_id q1.dead_letters then q1 else push_dead job_id q1),
              ))
  ]

-- `get_job`
unfoldable pub get_job : String → Action Queue ActionJob
get_job = find_job

-- `queue_depth`: the ready ids whose job is queued; a missing job is a KeyError
unfoldable pub queue_depth_of : Dict String ActionJob → List String → Result ℕ
unfolding status_dec
queue_depth_of d [] = ok 0
queue_depth_of d (k ∷ ks) =
    let rest = queue_depth_of d ks in
    elim (lookup text_dec k d) [
      | none ↦ err (key_error k)
      | some job ↦ elim rest [
        | ok n ↦ ok (ite (status_dec job.status queued) (suc n) n)
        | err e ↦ err e
      ]
    ]

unfoldable pub queue_depth : Queue → Result ℕ
unfolding queue_depth_of
queue_depth q = queue_depth_of q.jobs q.ready

-- `list_dead_letter`
unfoldable pub jobs_of : Dict String ActionJob → List String → Result (List ActionJob)
jobs_of d [] = ok []
jobs_of d (k ∷ ks) =
    let rest = jobs_of d ks in
    elim (lookup text_dec k d) [
      | none ↦ err (key_error k)
      | some job ↦ elim rest [ ok js ↦ ok (job ∷ js) | err e ↦ err e ]
    ]

unfoldable pub list_dead_letter : Queue → Result (List ActionJob)
unfolding jobs_of
list_dead_letter q = jobs_of q.jobs q.dead_letters
