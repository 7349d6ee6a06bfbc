-- ===== src/Queue/Leased.antt =====
-- Operations on a job whose lease ends: `ack` and `fail` keep the invariant.
use project_mimic.Prelude.{
  count-append, leb, Bool-cases, Option-cases, text_dec, Exception, or_raise, ℕ, String, ◌≡◌, refl,
  subst, inl, inr, true, Option, none, some, [], ◌∷◌, ◌++◌, arith,
}
use project_mimic.Dict.{Dict, lookup, insert, erase, contains, lookup-erase, erase-IsUnique}
use project_mimic.Queue.Types.{
  queued, completed, dead_letter, status_dec, ActionJob, WorkerLease, Queue,
}
use project_mimic.Queue.{persist, drop_lease, unleased, settle}
use project_mimic.Queue.Operations.{held_by, ack, fail}
use project_mimic.Queue.Invariant.{Fits, IsPlaced, Inv, move-IsPlaced}

module _ (q : Queue) (v : Inv q) (k : String) (job : ActionJob)
    (found : lookup text_dec k q.jobs ≡ some job)
    (has_lease : contains text_dec k q.leases ≡ true) where
  -- `job'` is `job` with a new status, a new error or a new time of update
  completed-IsPlaced :
      (job' : ActionJob) (j : String)
      → Fits k (some job')
      → job'.status ≡ completed
      → IsPlaced
          (record q.tables {
            jobs = insert text_dec k job' q.jobs;
            leases = erase text_dec k q.leases;
          })
          j
  unfolding status_dec
  completed-IsPlaced job' j f s =
      move-IsPlaced q.tables k j job' q.ready q.dead_letters (erase text_dec k q.leases) f
        (ground (arith, v.placed j, v.placed k)) (ground (arith, v.placed j, v.placed k))
        (ground (arith, lookup-erase text_dec k j q.leases v.unique)) (v.placed j)

  dead-IsPlaced :
      (job' : ActionJob) (j : String)
      → Fits k (some job')
      → job'.status ≡ dead_letter
      → IsPlaced
          (record q.tables {
            jobs = insert text_dec k job' q.jobs;
            leases = erase text_dec k q.leases;
            dead_letters = q.dead_letters ++ k ∷ [];
          })
          j
  unfolding status_dec
  dead-IsPlaced job' j f s =
      move-IsPlaced q.tables k j job' q.ready (q.dead_letters ++ k ∷ []) (erase text_dec k q.leases)
        f (ground (arith, v.placed j, v.placed k))
        (ground (arith, v.placed j, v.placed k, count-append text_dec j q.dead_letters (k ∷ [])))
        (ground (arith, lookup-erase text_dec k j q.leases v.unique)) (v.placed j)

  queued-IsPlaced :
      (job' : ActionJob) (j : String)
      → Fits k (some job')
      → job'.status ≡ queued
      → IsPlaced
          (record q.tables {
            jobs = insert text_dec k job' q.jobs;
            leases = erase text_dec k q.leases;
            ready = q.ready ++ k ∷ [];
          })
          j
  unfolding status_dec
  queued-IsPlaced job' j f s =
      move-IsPlaced q.tables k j job' (q.ready ++ k ∷ []) q.dead_letters (erase text_dec k q.leases)
        f (ground (arith, v.placed j, v.placed k, count-append text_dec j q.ready (k ∷ [])))
        (ground (arith, v.placed j, v.placed k))
        (ground (arith, lookup-erase text_dec k j q.leases v.unique)) (v.placed j)

  job-Fits : Fits k (some job)
  job-Fits = subst (λ (o : Option ActionJob). Fits k o) found (v.placed k).fits

  pub settle-Inv :
      (job' : ActionJob)
      → job'.job_id ≡ job.job_id
      → job'.attempts ≡ job.attempts
      → job'.max_attempts ≡ job.max_attempts
      → Inv (settle k job' (drop_lease k q))
  unfolding settle
  settle-Inv job' i a m = elim (Bool-cases (leb job'.max_attempts job'.attempts)) [
    | inl over ↦ rw over (record {
      unique = erase-IsUnique text_dec k q.leases v.unique;
      placed = λ j.
          dead-IsPlaced (record job' { status = dead_letter }) j (ground (arith, job-Fits)) refl;
    })
    | inr room ↦ rw room (record {
      unique = erase-IsUnique text_dec k q.leases v.unique;
      placed =
          λ j. queued-IsPlaced (record job' { status = queued }) j (ground (arith, job-Fits)) refl;
    })
  ]

held_by-contains :
    (worker k : String) (d : Dict String WorkerLease)
    → held_by worker (lookup text_dec k d) ≡ true
    → contains text_dec k d ≡ true
held_by-contains worker k d h = ground arith

pub persist-Inv : {q : Queue} → Inv q → Inv (persist q)
unfolding persist
persist-Inv v = record { unique = v.unique; placed = v.placed }

pub state-or_raise :
    {A : Type 0} (o : Option A) (x : Exception) (q : Queue) → (or_raise o x q).1 ≡ q
state-or_raise none x q = refl
state-or_raise (some a) x q = refl

pub ack-Inv : (worker k : String) (now : ℕ) (q : Queue) → Inv q → Inv (ack worker k now q).1
unfolding ack persist
ack-Inv worker k now q v = elim (Option-cases (lookup text_dec k q.jobs)) [
  | inl e ↦ rw (e, ack) v
  | inr (job, e) ↦ elim (Bool-cases (held_by worker (lookup text_dec k q.leases))) [
    | inr free ↦ rw (e, ack, free) v
    | inl held ↦
        rw (e, ack, held)
          (record {
            unique = erase-IsUnique text_dec k q.leases v.unique;
            placed = λ j.
                completed-IsPlaced q v k job e (held_by-contains worker k q.leases held) _ j
                  (ground (arith, job-Fits q v k job e (held_by-contains worker k q.leases held)))
                  refl;
          })
  ]
]

pub fail-Inv :
    (trim : String → String) (worker k reason : String) (now : ℕ) (q : Queue)
    → Inv q
    → Inv (fail trim worker k reason now q).1
unfolding fail
fail-Inv trim worker k reason now q v = elim (Option-cases (lookup text_dec k q.jobs)) [
  | inl e ↦ rw (e, fail) v
  | inr (job, e) ↦ elim (Bool-cases (held_by worker (lookup text_dec k q.leases))) [
    | inr free ↦ rw (e, fail, free) v
    | inl held ↦
        rw (e, fail, held)
          (rw state-or_raise (
            persist-Inv (
              settle-Inv q v k job e (held_by-contains worker k q.leases held)
                (record (unleased job) { last_error = some (trim reason); updated_at = now }) refl
                refl refl)))
  ]
]
