-- ===== src/Queue/Recovery.antt =====
-- The readers of a queue in order, and its recovery from the store.
use project_mimic.Prelude.{
  length, count, Option-cases, text_dec, ok, ℕ, suc, ◌≤◌, ◌<◌, String, ◌≡◌, refl, ap, inl, inr,
  true, some, List, [], ◌∷◌, arith,
}
use project_mimic.Dict.{Dict, lookup, contains, IsUnique}
use project_mimic.Queue.Types.{
  JobStatus, queued, leased, dead_letter, status_dec, ActionJob, WorkerLease, Queue,
}
use project_mimic.Queue.{new, restore, persist, cleanup, known, known_leases}
use project_mimic.Queue.Operations.{queue_depth, queue_depth_of, list_dead_letter, jobs_of}
use project_mimic.Queue.Invariant.{in_status, Inv}

-- every id of the list is that of a job with the status
abbrev Have : JobStatus → Dict String ActionJob → List String → Type 0
Have s d [] = Unit {0}
Have s d (k ∷ ks) = (in_status s (lookup text_dec k d) ≡ true) × Have s d ks

Have-of_count :
    (s : JobStatus) (d : Dict String ActionJob) (ks : List String)
    → ((j : String) → 1 ≤ count text_dec j ks → in_status s (lookup text_dec j d) ≡ true)
    → Have s d ks
Have-of_count s d [] h = tt
Have-of_count s d (k ∷ ks) h =
    (h k (ground arith), Have-of_count s d ks (λ j p. h j (ground arith)))

depth_of_Have :
    (d : Dict String ActionJob) (ks : List String)
    → Have queued d ks
    → queue_depth_of d ks ≡ ok (length ks)
unfolding queue_depth_of status_dec
depth_of_Have d [] h = refl
depth_of_Have d (k ∷ ks) h = ground (arith, depth_of_Have d ks h.1)

jobs_of-Have :
    (s : JobStatus) (d : Dict String ActionJob) (ks : List String)
    → Have s d ks
    → (js : List ActionJob) × (jobs_of d ks ≡ ok js) × (length js ≡ length ks)
unfolding jobs_of
jobs_of-Have s d [] h = ([], refl, refl)
jobs_of-Have s d (k ∷ ks) h = elim (Option-cases (lookup text_dec k d)) [
  | inl missing ↦ absurd (ground (arith, h.0))
  | inr (job, found) ↦
      let (js, e, n) = jobs_of-Have s d ks h.1 in (job ∷ js, rw (jobs_of, found, e), ap suc n)
]

-- On a queue in order `queue_depth` is the length of the ready queue, and `list_dead_letter`
-- returns a job for each dead letter; neither raises.
readers_of_Inv :
    (q : Queue)
    → Inv q
    → (queue_depth q ≡ ok (length q.ready))
      × ((js : List ActionJob) × (list_dead_letter q ≡ ok js) × (length js ≡ length q.dead_letters))
unfolding queue_depth list_dead_letter
readers_of_Inv q v = (
  depth_of_Have q.jobs q.ready
      (Have-of_count queued q.jobs q.ready (λ j h. ground (arith, v.placed j))),
  jobs_of-Have dead_letter q.jobs q.dead_letters
      (Have-of_count dead_letter q.jobs q.dead_letters (λ j h. ground (arith, v.placed j))),
)

known_of_Have :
    (s : JobStatus) (d : Dict String ActionJob) (ks : List String) → Have s d ks → known d ks ≡ ks
known_of_Have s d [] h = refl
known_of_Have s d (k ∷ ks) h = ground (arith, known_of_Have s d ks h.1)

known_leases_of :
    (d : Dict String ActionJob) (ls : Dict String WorkerLease)
    → ((j : String) → contains text_dec j ls ≡ true → in_status leased (lookup text_dec j d) ≡ true)
    → IsUnique text_dec ls
    → known_leases d ls ≡ ls
known_leases_of d [] h u = refl
known_leases_of d ((k, l) ∷ ls) h u =
    ground (arith, h k, known_leases_of d ls (λ j p. h j (ground arith)) u.1)

-- A queue in order that has just been saved is recovered whole: a new queue over the store has the
-- same tables, less the idempotency keys that have expired meanwhile.
pub new-persist :
    (q : Queue) (now : ℕ)
    → Inv q
    → 0 < q.idempotency_ttl
    → new q.idempotency_ttl now (persist q).saved
      ≡ ok (record {
        idempotency_ttl = q.idempotency_ttl;
        tables = cleanup now q.tables;
        saved = some q.tables;
      })
unfolding new persist restore cleanup
new-persist q now v h = ground (
  arith,
  known_of_Have queued q.jobs q.ready
      (Have-of_count queued q.jobs q.ready (λ j h. ground (arith, v.placed j))),
  known_of_Have dead_letter q.jobs q.dead_letters
      (Have-of_count dead_letter q.jobs q.dead_letters (λ j h. ground (arith, v.placed j))),
  known_leases_of q.jobs q.leases (λ j h. ground (arith, v.placed j)) v.unique,
)
