-- ===== src/Tests/Queues.antt =====
-- Runs of the action queue, src/project_mimic/queue_runtime.py.
use project_mimic.Prelude.{length, text_dec, strip, ok, ◌≡◌, refl, none, some, arith}
use project_mimic.Json.{end}
use project_mimic.Queue as queues
use project_mimic.Queue.{cleanup, persist, expired_leases, requeue_expired_leases}
use project_mimic.Queue.Types.{Queue, empty_tables}
use project_mimic.Queue.Operations.{dispatch, lease_next, ack}
use project_mimic.Queue.Invariant.{Inv}
use project_mimic.Queue.Reach.{Reach, here, next, dispatches, leases, acks, history-Inv}
use project_mimic.Queue.Granting.{Serves, lease_next-Serves}
use project_mimic.Queue.Dispatch.{cleaned, dispatch_again}
use project_mimic.Queue.Expiry.{requeue_expired_leases-Inv}
use project_mimic.Queue.Recovery.{new-persist}

abbrev fresh_queue : Queue
fresh_queue = record { idempotency_ttl = 60; tables = empty_tables; saved = none }

abbrev busy_queue : Queue
busy_queue = (dispatch strip end "key" 0 0 "job" fresh_queue).1

abbrev leased_queue : Queue
leased_queue = (lease_next strip "worker" 30 1 1 busy_queue).1

leased_queue-Reach : Reach strip fresh_queue leased_queue
unfolding strip text_dec
leased_queue-Reach = next (next here (dispatches end "key" 0 0 "job" refl)) (leases "worker" 30 1 1)

fresh_queue-new : queues.new 60 0 none ≡ ok fresh_queue
unfolding queues.new queues.restore
fresh_queue-new = refl

leased_queue-Inv : Inv leased_queue
leased_queue-Inv =
    history-Inv strip 60 0 fresh_queue leased_queue fresh_queue-new leased_queue-Reach

busy_queue-Inv : Inv busy_queue
unfolding text_dec strip
busy_queue-Inv =
    history-Inv strip 60 0 fresh_queue busy_queue fresh_queue-new
      (next here (dispatches end "key" 0 0 "job" refl))

history-Inv_example : Inv (ack "worker" "job" 5 leased_queue).1
history-Inv_example =
    history-Inv strip 60 0 fresh_queue (ack "worker" "job" 5 leased_queue).1 fresh_queue-new
      (next leased_queue-Reach (acks "worker" "job" 5))

lease_next-Serves_example :
    Serves strip "worker" 30 1
      (requeue_expired_leases 1 busy_queue).1.ready
      (requeue_expired_leases 1 busy_queue).1
      "job"
      (lease_next strip "worker" 30 1 1 busy_queue).0
      (lease_next strip "worker" 30 1 1 busy_queue).1
    × Inv (lease_next strip "worker" 30 1 1 busy_queue).1
lease_next-Serves_example =
    lease_next-Serves strip "worker" 30 1 1 busy_queue "job" busy_queue-Inv (omega arith)

dispatch_again_example :
    dispatch strip end " key " 5 5 "other" busy_queue
    ≡ ((dispatch strip end "key" 0 0 "job" fresh_queue).0, cleaned strip 5 busy_queue)
unfolding strip text_dec cleanup
dispatch_again_example =
    dispatch_again strip end "key" 0 0 "job" fresh_queue refl refl end " key " 5 5 "other" refl refl
      tt (omega arith)

new-persist_example :
    queues.new 60 7 (persist busy_queue).saved
    ≡ ok (record {
      idempotency_ttl = 60;
      tables = cleanup 7 busy_queue.tables;
      saved = some busy_queue.tables;
    })
unfolding dispatch strip cleanup
new-persist_example = new-persist busy_queue 7 busy_queue-Inv (omega arith)

requeue_expired_leases-Inv_example :
    ((requeue_expired_leases 99 leased_queue).0
      ≡ ok (length (expired_leases 99 leased_queue.leases)))
    × Inv (requeue_expired_leases 99 leased_queue).1
requeue_expired_leases-Inv_example = requeue_expired_leases-Inv 99 leased_queue leased_queue-Inv
