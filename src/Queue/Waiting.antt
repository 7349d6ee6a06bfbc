-- ===== src/Queue/Waiting.antt =====
-- Operations on jobs that are not leased, and the grant of a lease, keep the invariant.
use project_mimic.Prelude.{
  ite-elim, count, member, without, remove, count-append, count-without, count-remove_ne,
  count-remove_self, member-count, not-member-count, if◌then◌else◌, Bool-cases, Option-cases,
  text_dec, strip, is_empty, Result, ℕ, String, ◌≡◌, refl, subst, ◌≢◌, inl, inr, ite, false, Option,
  some, List, [], ◌∷◌, ◌++◌, arith,
}
use project_mimic.Dict.{lookup, insert, erase, lookup-erase, erase-IsUnique}
use project_mimic.Queue.Types.{
  queued, leased, completed, canceled, dead_letter, status_dec, ActionJob, Queue,
}
use project_mimic.Queue.{set_job, push_ready, set_dead, push_dead}
use project_mimic.Queue.Operations.{replay_dead_letter, cancel, quarantine, is_terminal, withdraw}
use project_mimic.Queue.Invariant.{in_status, one_if, Fits, IsPlaced, Inv, move-IsPlaced}
use project_mimic.Queue.Leased.{persist-Inv}

module _ (q : Queue) (v : Inv q) (k : String) (job : ActionJob)
    (found : lookup text_dec k q.jobs ≡ some job) where
  abbrev known_Fits : Fits k (some job)
  known_Fits = subst (λ (o : Option ActionJob). Fits k o) found (v.placed k).fits

  -- a job that stays where it is, in the ready queue or out of it, with new leases for the same ids
  withdrawn-IsPlaced :
      (job' : ActionJob) (dead : List String) (j : String)
      → Fits k (some job')
      → job'.status ≢ queued
      → job'.status ≢ leased
      → count text_dec j dead
        ≡ ite
            (text_dec k j)
            (one_if (in_status dead_letter (some job')))
            (count text_dec j q.dead_letters)
      → IsPlaced
          (record q.tables {
            jobs = insert text_dec k job' q.jobs;
            ready = without text_dec k q.ready;
            dead_letters = dead;
            leases = erase text_dec k q.leases;
          })
          j
  unfolding status_dec
  withdrawn-IsPlaced job' dead j f nq nl d =
      move-IsPlaced q.tables k j job' (without text_dec k q.ready) dead (erase text_dec k q.leases)
        f (ground (arith, v.placed j, v.placed k, count-without text_dec j k q.ready)) d
        (ground (arith, lookup-erase text_dec k j q.leases v.unique)) (v.placed j)

  withdraw-Inv :
      (job' : ActionJob)
      → Fits k (some job')
      → job'.status ≡ canceled
      → in_status dead_letter (some job) ≡ false
      → Inv (withdraw k job' q)
  unfolding status_dec
  withdraw-Inv job' f s n = record {
    unique = erase-IsUnique text_dec k q.leases v.unique;
    placed = λ j.
        withdrawn-IsPlaced job' q.dead_letters j f (λ e. cc) (λ e. cc)
          (ground (arith, v.placed j, v.placed k));
  }

  -- the last step of `quarantine`: the id joins the dead letters unless it is there
  abbrev buried : ActionJob → Queue
  buried job' =
      let q1 = withdraw k job' q in if member text_dec k q1.dead_letters then q1 else push_dead k q1

  buried-Inv :
      (job' : ActionJob) → Fits k (some job') → job'.status ≡ dead_letter → Inv (buried job')
  unfolding status_dec
  buried-Inv job' f s = elim (Bool-cases (member text_dec k q.dead_letters)) [
    | inl there ↦ rw there (record {
      unique = erase-IsUnique text_dec k q.leases v.unique;
      placed = λ j.
          withdrawn-IsPlaced job' q.dead_letters j f (λ e. cc) (λ e. cc)
            (ground (arith, v.placed j, v.placed k, member-count text_dec k q.dead_letters there));
    })
    | inr new ↦ rw new (record {
      unique = erase-IsUnique text_dec k q.leases v.unique;
      placed = λ j.
          withdrawn-IsPlaced job' (q.dead_letters ++ k ∷ []) j f (λ e. cc) (λ e. cc)
            (ground (
              arith,
              v.placed j,
              v.placed k,
              not-member-count text_dec k q.dead_letters new,
              count-append text_dec j q.dead_letters (k ∷ []),
            ));
    })
  ]

  replay-Inv :
      (job' : ActionJob)
      → Fits k (some job')
      → job'.status ≡ queued
      → job.status ≡ dead_letter
      → Inv (push_ready k (set_dead (remove text_dec k q.dead_letters) (set_job k job' q)))
  unfolding status_dec
  replay-Inv job' f s d = record {
    unique = v.unique;
    placed = λ j.
        move-IsPlaced q.tables k j job' (q.ready ++ k ∷ []) (remove text_dec k q.dead_letters)
          q.leases f
          (ground (arith, v.placed j, v.placed k, count-append text_dec j q.ready (k ∷ [])))
          (ground (
            arith,
            v.placed j,
            v.placed k,
            count-remove_ne text_dec j k q.dead_letters,
            count-remove_self text_dec k q.dead_letters,
          ))
          (ground (arith, v.placed j, v.placed k)) (v.placed j);
  }

pub replay_dead_letter-Inv :
    (k : String) (now : ℕ) (q : Queue) → Inv q → Inv (replay_dead_letter k now q).1
unfolding replay_dead_letter
replay_dead_letter-Inv k now q v = elim (Option-cases (lookup text_dec k q.jobs)) [
  | inl e ↦ rw (e, replay_dead_letter) v
  | inr (job, e) ↦
      rw (e, replay_dead_letter)
        (ite-elim (λ (r : Result ActionJob × Queue). Inv r.1) (status_dec job.status dead_letter) _
          _
          (λ d.
            persist-Inv (replay-Inv q v k job e _ (ground (arith, known_Fits q v k job e)) refl d))
          (λ n. v))
]

module _ (trim : String → String) where
  pub cancel-Inv :
      (k reason : String) (now : ℕ) (q : Queue) → Inv q → Inv (cancel trim k reason now q).1
  unfolding cancel
  cancel-Inv k reason now q v = elim (Option-cases (lookup text_dec k q.jobs)) [
    | inl e ↦ rw (e, cancel) v
    | inr (job, e) ↦ elim (Bool-cases (is_empty (strip reason))) [
      | inl blank ↦ rw (e, cancel, blank) v
      | inr text ↦ elim (Bool-cases (is_terminal job.status)) [
        | inl over ↦ rw (e, cancel, text, over) v
        | inr live ↦
            rw (e, cancel, text, live)
              (persist-Inv (
                withdraw-Inv q v k job e _ (ground (arith, known_Fits q v k job e)) refl
                  (unfold status_dec in ground arith)))
      ]
    ]
  ]

  pub quarantine-Inv :
      (k reason : String) (now : ℕ) (q : Queue) → Inv q → Inv (quarantine trim k reason now q).1
  unfolding quarantine
  quarantine-Inv k reason now q v = elim (Option-cases (lookup text_dec k q.jobs)) [
    | inl e ↦ rw (e, quarantine) v
    | inr (job, e) ↦ elim (Bool-cases (is_empty (strip reason))) [
      | inl blank ↦ rw (e, quarantine, blank) v
      | inr text ↦
          rw (e, quarantine, text)
            (ite-elim (λ (r : Result ActionJob × Queue). Inv r.1) (status_dec job.status completed)
              _ _ (λ over. v)
              (λ live.
                persist-Inv
                  (buried-Inv q v k job e _ (ground (arith, known_Fits q v k job e)) refl)))
    ]
  ]
