-- ===== src/Queue/Invariant.antt =====
-- Where the id of a job stands, by the job's status: what every operation of the queue keeps.
use project_mimic.Prelude.{
  count, text_dec, ℕ, ◌≤◌, ◌<◌, String, ◌≡◌, ite, Bool, true, false, Option, none, some, List,
  arith,
}
use project_mimic.Dict.{Dict, lookup, insert, contains, IsUnique, lookup-insert}
use project_mimic.Queue.Types.{
  JobStatus, queued, leased, dead_letter, status_dec, ActionJob, WorkerLease, Tables, Queue,
}

abbrev pub in_status : JobStatus → Option ActionJob → Bool
in_status s none = false
in_status s (some job) = ite (status_dec job.status s) true false

abbrev pub one_if : Bool → ℕ
one_if true = 1
one_if false = 0

-- A job has its own id and an attempt left while it waits.
abbrev pub Fits : String → Option ActionJob → Type 0
Fits j none = Unit
Fits j (some job) =
    (job.job_id ≡ j)
    × (1 ≤ job.max_attempts)
    × (job.attempts ≤ job.max_attempts)
    × (job.status ≡ queued → job.attempts < job.max_attempts)

-- The id `j` is in `ready` once if its job is queued, in `dead_letters` once if its job is a dead
-- letter, and has a lease if its job is leased; otherwise it is not there.
pub record IsPlaced (t : Tables) (j : String) : Type 0 where
  pub in_ready : count text_dec j t.ready ≡ one_if (in_status queued (lookup text_dec j t.jobs))
  pub in_dead :
      count text_dec j t.dead_letters ≡ one_if (in_status dead_letter (lookup text_dec j t.jobs))
  pub in_leases : contains text_dec j t.leases ≡ in_status leased (lookup text_dec j t.jobs)
  pub fits : Fits j (lookup text_dec j t.jobs)

pub record Inv (q : Queue) : Type 0 where
  pub unique : IsUnique text_dec q.leases
  pub placed : (j : String) → IsPlaced q.tables j

-- One job is replaced, and its id moves to where its new status wants it.
pub move-IsPlaced :
    (t : Tables) (k j : String) (job : ActionJob) (ready dead : List String)
    (leases : Dict String WorkerLease)
    → Fits k (some job)
    → count text_dec j ready
      ≡ ite (text_dec k j) (one_if (in_status queued (some job))) (count text_dec j t.ready)
    → count text_dec j dead
      ≡ ite
          (text_dec k j)
          (one_if (in_status dead_letter (some job)))
          (count text_dec j t.dead_letters)
    → contains text_dec j leases
      ≡ ite (text_dec k j) (in_status leased (some job)) (contains text_dec j t.leases)
    → IsPlaced t j
    → IsPlaced
        (record t {
          jobs = insert text_dec k job t.jobs;
          ready = ready;
          dead_letters = dead;
          leases = leases;
        })
        j
move-IsPlaced t k j job ready dead leases f r d l p = record {
  in_ready = ground (arith, p.in_ready, lookup-insert text_dec k j job t.jobs);
  in_dead = ground (arith, p.in_dead, lookup-insert text_dec k j job t.jobs);
  in_leases = ground (arith, p.in_leases, lookup-insert text_dec k j job t.jobs);
  fits = ground (arith, p.fits, lookup-insert text_dec k j job t.jobs);
}
