-- ===== src/Queue/Reach.antt =====
-- Every history of calls on a new queue.
use project_mimic.Prelude.{text_dec, ok, ℕ, String, ◌≡◌, refl, subst, none, arith}
use project_mimic.Dict.{lookup}
use project_mimic.Json.{JsonFields}
use project_mimic.Queue.Types.{Queue, empty_tables}
use project_mimic.Queue.{new, restore, requeue_expired_leases}
use project_mimic.Queue.Operations.{
  dispatch, lease_next, renew_lease, ack, fail, replay_dead_letter, cancel, quarantine,
}
use project_mimic.Queue.Invariant.{Inv}
use project_mimic.Queue.Leased.{ack-Inv, fail-Inv}
use project_mimic.Queue.Expiry.{requeue_expired_leases-Inv}
use project_mimic.Queue.Waiting.{replay_dead_letter-Inv, cancel-Inv, quarantine-Inv}
use project_mimic.Queue.Granting.{lease_next-Inv, renew_lease-Inv}
use project_mimic.Queue.Dispatch.{dispatch-Inv}

module _ (trim : String → String) where
  -- One call, returning or raising. A dispatch draws an id that no job has.
  pub data Step (q : Queue) : Queue → Type 0 where
    dispatches :
        (payload : JsonFields) (key : String) (now later : ℕ) (fresh : String)
        → lookup text_dec (trim fresh) q.jobs ≡ none
        → Step q (dispatch trim payload key now later fresh q).1
    leases :
        (worker : String) (ttl now later : ℕ) → Step q (lease_next trim worker ttl now later q).1
    renews : (worker k : String) (ttl now : ℕ) → Step q (renew_lease trim worker k ttl now q).1
    acks : (worker k : String) (now : ℕ) → Step q (ack worker k now q).1
    fails : (worker k reason : String) (now : ℕ) → Step q (fail trim worker k reason now q).1
    replays : (k : String) (now : ℕ) → Step q (replay_dead_letter k now q).1
    cancels : (k reason : String) (now : ℕ) → Step q (cancel trim k reason now q).1
    quarantines : (k reason : String) (now : ℕ) → Step q (quarantine trim k reason now q).1
    requeues : (now : ℕ) → Step q (requeue_expired_leases now q).1

  pub data Reach (q : Queue) : Queue → Type 0 where
    here : Reach q q
    next : {r s : Queue} → Reach q r → Step r s → Reach q s

  Step-Inv : {q r : Queue} → Step q r → Inv q → Inv r
  Step-Inv (dispatches payload key now later fresh new) v =
      dispatch-Inv trim payload key now later fresh _ new v
  Step-Inv (leases worker ttl now later) v = lease_next-Inv trim worker ttl now later _ v
  Step-Inv (renews worker k ttl now) v = renew_lease-Inv trim worker k ttl now _ v
  Step-Inv (acks worker k now) v = ack-Inv worker k now _ v
  Step-Inv (fails worker k reason now) v = fail-Inv trim worker k reason now _ v
  Step-Inv (replays k now) v = replay_dead_letter-Inv k now _ v
  Step-Inv (cancels k reason now) v = cancel-Inv trim k reason now _ v
  Step-Inv (quarantines k reason now) v = quarantine-Inv trim k reason now _ v
  Step-Inv (requeues now) v = (requeue_expired_leases-Inv now _ v).1

  Reach-Inv : {q r : Queue} → Reach q r → Inv q → Inv r
  Reach-Inv here v = v
  Reach-Inv (next h s) v = Step-Inv s (Reach-Inv h v)

-- A queue over an empty store is in order.
new-Inv : (ttl now : ℕ) (q : Queue) → new ttl now none ≡ ok q → Inv q
unfolding new restore
new-Inv ttl now q e =
    subst Inv {x = record { idempotency_ttl = ttl; tables = empty_tables; saved = none }}
      (ground arith)
      (record {
        unique = tt;
        placed = λ j. record { in_ready = refl; in_dead = refl; in_leases = refl; fits = tt };
      })

-- When each dispatch draws an id that no job has, then whatever calls are made on a new queue over
-- an empty store, also those that raise, every job's id is in the one place that its status names,
-- and no job's counter of attempts, which a replay sets back to 0, is over its `max_attempts`.
pub history-Inv :
    (trim : String → String) (ttl now : ℕ) (q r : Queue)
    → new ttl now none ≡ ok q
    → Reach trim q r
    → Inv r
history-Inv trim ttl now q r e h = Reach-Inv trim h (new-Inv ttl now q e)
