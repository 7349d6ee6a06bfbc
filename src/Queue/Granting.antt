-- ===== src/Queue/Granting.antt =====
-- `lease_next` and `renew_lease` keep the invariant; `lease_next` serves the oldest
-- ready job.
use project_mimic.Prelude.{
  count, leb, Bool-cases, Option-cases, text_dec, Result, ok, ℕ, ◌+◌, ◌<◌, String, ◌≡◌, refl, sym,
  ap, ◌∙◌, subst, inl, inr, ite, true, Option, none, some, List, [], ◌∷◌, arith,
}
use project_mimic.Dict.{lookup, insert, contains, lookup-insert, insert-IsUnique}
use project_mimic.Queue.Types.{queued, leased, status_dec, ActionJob, WorkerLease, Queue}
use project_mimic.Queue.{persist, set_job, set_lease, set_ready, requeue_expired_leases}
use project_mimic.Queue.Operations.{
  grant, leased_job, new_lease, lease_loop, lease_next, renew_lease,
}
use project_mimic.Queue.Invariant.{Fits, IsPlaced, Inv, move-IsPlaced}
use project_mimic.Queue.Leased.{persist-Inv}
use project_mimic.Queue.Expiry.{requeue_expired_leases-Inv}

module _ (trim : String → String) where
  module _ (q : Queue) (v : Inv q) (k : String) (job : ActionJob)
      (found : lookup text_dec k q.jobs ≡ some job) where
    found_Fits : Fits k (some job)
    found_Fits = subst (λ (o : Option ActionJob). Fits k o) found (v.placed k).fits

    grant-Inv :
        (worker : String) (ttl now : ℕ) (ids : List String)
        → q.ready ≡ k ∷ ids
        → Inv (grant trim worker ttl now k job (set_ready ids q)).1
    unfolding grant persist status_dec
    grant-Inv worker ttl now ids e = record {
      unique = insert-IsUnique text_dec job.job_id _ q.leases v.unique;
      placed = λ j.
          move-IsPlaced q.tables k j (leased_job trim worker now (now + ttl) job) ids q.dead_letters
            (insert text_dec job.job_id (new_lease trim worker job.job_id now (now + ttl)) q.leases)
            (ground (arith, found_Fits, v.placed k, ap (count text_dec k) e))
            (ground
              (arith, v.placed j, v.placed k, ap (count text_dec j) e, ap (count text_dec k) e))
            (ground (arith, v.placed j, v.placed k, ap (count text_dec k) e))
            (ground (
              arith,
              found_Fits,
              lookup-insert text_dec job.job_id j (new_lease trim worker job.job_id now (now + ttl))
                  q.leases,
            ))
            (v.placed j);
    }

    renewed-Inv :
        (worker : String) (ttl now : ℕ) (l : WorkerLease)
        → contains text_dec k q.leases ≡ true
        → Inv (
            set_job k
              (record job { lease_expires_at = some (now + ttl); updated_at = now })
              (set_lease k l q))
    unfolding status_dec
    renewed-Inv worker ttl now l held = record {
      unique = insert-IsUnique text_dec k l q.leases v.unique;
      placed = λ j.
          move-IsPlaced q.tables k j
            (record job { lease_expires_at = some (now + ttl); updated_at = now }) q.ready
            q.dead_letters (insert text_dec k l q.leases) (ground (arith, found_Fits))
            (ground (arith, v.placed j, v.placed k)) (ground (arith, v.placed j, v.placed k))
            (ground (arith, v.placed j, v.placed k, lookup-insert text_dec k j l q.leases))
            (v.placed j);
    }

  -- the head of the ready queue is the id of a queued job
  ready_head :
      (q : Queue) (k : String) (ids : List String)
      → Inv q
      → q.ready ≡ k ∷ ids
      → (job : ActionJob) × (lookup text_dec k q.jobs ≡ some job) × (job.status ≡ queued)
  unfolding status_dec
  ready_head q k ids v e = elim (Option-cases (lookup text_dec k q.jobs)) [
    | inl missing ↦ absurd (ground (arith, v.placed k, ap (count text_dec k) e))
    | inr (job, found) ↦ (job, found, ground (arith, v.placed k, ap (count text_dec k) e))
  ]

  loop_of_ready :
      (worker : String) (ttl now : ℕ) (q : Queue) (k : String) (ids : List String) (job : ActionJob)
      → lookup text_dec k q.jobs ≡ some job
      → job.status ≡ queued
      → lease_loop trim worker ttl now (k ∷ ids) q ≡ (
        ok (some (leased_job trim worker now (now + ttl) job)),
        (grant trim worker ttl now k job (set_ready ids q)).1,
      )
  unfolding lease_loop grant
  loop_of_ready worker ttl now q k ids job found waiting = rw (found, lease_loop) (ground arith)

  -- the job of the id, leased to the worker for one more attempt
  abbrev taken_job : String → ℕ → ℕ → ActionJob → ActionJob
  taken_job worker ttl now job = record job {
    status = leased;
    attempts = job.attempts + 1;
    updated_at = now;
    lease_worker_id = some (trim worker);
    lease_expires_at = some (now + ttl);
  }

  abbrev lease_of : String → ℕ → ℕ → String → WorkerLease
  lease_of worker ttl now k = record {
    worker_id = trim worker;
    job_id = trim k;
    lease_expires_at = now + ttl;
    heartbeat_at = now;
  }

  -- what a call that serves the oldest of the ready ids of `q` returns, and the queue it leaves,
  -- as seen by the job id `j`
  abbrev pub Serves :
      String → ℕ → ℕ → List String → Queue → String → Result (Option ActionJob) → Queue → Type 0
  Serves worker ttl now [] q j r q' =
      (r ≡ ok none)
      × (q'.ready ≡ [])
      × (q'.dead_letters ≡ q.dead_letters)
      × (lookup text_dec j q'.jobs ≡ lookup text_dec j q.jobs)
      × (lookup text_dec j q'.leases ≡ lookup text_dec j q.leases)
  Serves worker ttl now (k ∷ ids) q j r q' =
      (job : ActionJob) × (lookup text_dec k q.jobs ≡ some job)
      × (job.status ≡ queued)
      × (r ≡ ok (some (taken_job worker ttl now job)))
      × (q'.ready ≡ ids)
      × (q'.dead_letters ≡ q.dead_letters)
      × (lookup text_dec j q'.jobs
          ≡ ite (text_dec k j) (some (taken_job worker ttl now job)) (lookup text_dec j q.jobs))
      × (lookup text_dec j q'.leases
          ≡ ite (text_dec k j) (some (lease_of worker ttl now k)) (lookup text_dec j q.leases))
      × (q'.saved ≡ some q'.tables)

  grant_seen :
      (worker : String) (ttl now : ℕ) (k : String) (job : ActionJob) (ids : List String) (q : Queue)
      (j : String)
      → lookup text_dec k q.jobs ≡ some job
      → job.status ≡ queued
      → job.job_id ≡ k
      → Serves worker ttl now
          (k ∷ ids)
          q
          j
          (ok (some (leased_job trim worker now (now + ttl) job)))
          (grant trim worker ttl now k job (set_ready ids q)).1
  unfolding grant persist
  grant_seen worker ttl now k job ids q j found waiting named = (
    job,
    found,
    waiting,
    refl,
    refl,
    refl,
    lookup-insert text_dec k j (leased_job trim worker now (now + ttl) job) q.jobs,
    subst
        (λ n.
          lookup text_dec j (insert text_dec n (new_lease trim worker n now (now + ttl)) q.leases)
          ≡ ite (text_dec k j) (some (lease_of worker ttl now k)) (lookup text_dec j q.leases))
        (sym named) (lookup-insert text_dec k j (lease_of worker ttl now k) q.leases),
    refl,
  )

  loop-Serves :
      (worker : String) (ttl now : ℕ) (ids : List String) (q : Queue) (j : String)
      → Inv q
      → q.ready ≡ ids
      → Serves worker ttl now ids q j
          (lease_loop trim worker ttl now ids q).0
          (lease_loop trim worker ttl now ids q).1
        × Inv (lease_loop trim worker ttl now ids q).1
  loop-Serves worker ttl now [] q j v e =
      unfold lease_loop in
      ((refl, refl, refl, refl, refl), record { unique = v.unique; placed = λ j. empty_ready j })
    where
      empty_ready : (j : String) → IsPlaced (set_ready [] q).tables j
      empty_ready j = record {
        in_ready = ap (count text_dec j) (sym e) ∙ (v.placed j).in_ready;
        in_dead = (v.placed j).in_dead;
        in_leases = (v.placed j).in_leases;
        fits = (v.placed j).fits;
      }
  loop-Serves worker ttl now (k ∷ ids) q j v e =
      let (job, found, waiting) = ready_head q k ids v e in
      let named : job.job_id ≡ k = ground (arith, found_Fits q v k job found) in
      rw (loop_of_ready worker ttl now q k ids job found waiting) (
        grant_seen worker ttl now k job ids q j found waiting named,
        grant-Inv q v k job found worker ttl now ids e,
      )

  lease_next_steps :
      (worker : String) (ttl now later : ℕ) (q : Queue)
      → Inv q
      → 0 < ttl
      → lease_next trim worker ttl now later q ≡ (
          let q1 = (requeue_expired_leases now q).1 in lease_loop trim worker ttl later q1.ready q1)
  unfolding lease_next
  lease_next_steps worker ttl now later q v h =
      let (e, _) = requeue_expired_leases-Inv now q v in ground (arith, e)

  -- On a queue in order, `lease_next` with a positive term first takes the expired leases back and
  -- then leases the oldest ready job, which is queued: the job is stored and returned as leased by
  -- the worker until the term ends, with one more attempt, its lease is recorded, its id is no
  -- longer ready, and the queue is saved. The other jobs, the other leases and the dead letters stay
  -- as they were. It returns None, and takes no job, only when none is ready. The queue stays in
  -- order.
  pub lease_next-Serves :
      (worker : String) (ttl now later : ℕ) (q : Queue) (j : String)
      → Inv q
      → 0 < ttl
      → let q1 = (requeue_expired_leases now q).1 in
        Serves worker ttl later q1.ready q1 j
          (lease_next trim worker ttl now later q).0
          (lease_next trim worker ttl now later q).1
        × Inv (lease_next trim worker ttl now later q).1
  lease_next-Serves worker ttl now later q j v h =
      let (_, v1) = requeue_expired_leases-Inv now q v in
      rw (lease_next_steps worker ttl now later q v h) (
        loop-Serves worker ttl later (requeue_expired_leases now q).1.ready
          (requeue_expired_leases now q).1 j v1 refl)

  pub lease_next-Inv :
      (worker : String) (ttl now later : ℕ) (q : Queue)
      → Inv q
      → Inv (lease_next trim worker ttl now later q).1
  unfolding lease_next
  lease_next-Inv worker ttl now later q v = elim (Bool-cases (leb ttl 0)) [
    | inl zero_term ↦ rw (lease_next, zero_term) v
    | inr positive ↦ (lease_next-Serves worker ttl now later q worker v (ground arith)).1
  ]

  pub renew_lease-Inv :
      (worker k : String) (ttl now : ℕ) (q : Queue)
      → Inv q
      → Inv (renew_lease trim worker k ttl now q).1
  unfolding renew_lease
  renew_lease-Inv worker k ttl now q v = elim (Option-cases (lookup text_dec k q.leases)) [
    | inl e ↦ ground (arith, e)
    | inr (l, e) ↦ elim (Option-cases (lookup text_dec k q.jobs)) [
      | inl missing ↦ absurd (ground (arith, v.placed k))
      | inr (job, found) ↦ ground (
        arith,
        persist-Inv (
            renewed-Inv q v k job found worker ttl now (new_lease trim worker k now (now + ttl))
              (ground arith)),
      )
    ]
  ]
