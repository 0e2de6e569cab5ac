-- ===== src/MemStore/Api.antt =====
-- memstore as a backend of the manager.
use gotasks.Task.{StoreError, Result, ok, err}
use gotasks.Store.{StoreApi}
use gotasks.Prelude.Text.{Text}
use gotasks.Prelude.{Option, List, [], some, none}
use gotasks.MemStore.State.{Store}
use gotasks.MemStore.Revive.{reap_expired, requeue, requeue_dead}
use gotasks.MemStore.Registry.{register_queues}
use gotasks.MemStore.Metrics.{snapshot_metrics, record_counters}
use gotasks.MemStore.Finalize.{fail, finalize_batch, extend_lease, complete}
use gotasks.MemStore.Enqueue.{enqueue}
use gotasks.MemStore.Claim.{claim, claim_batch}

abbrev pub ids_of : Store × Result (List Text) → Store × List Text × Option StoreError
ids_of (s, ok ids) = (s, ids, none)
ids_of (s, err e) = (s, [], some e)

abbrev pub mem_api : StoreApi
mem_api = record {
  State = Store;
  enqueue = λ ts s. ids_of (enqueue s ts);
  claim = claim;
  claim_batch = claim_batch;
  complete = complete;
  fail = fail;
  extend_lease = extend_lease;
  finalize_batch = finalize_batch;
  requeue = requeue;
  requeue_dead = requeue_dead;
  reap_expired = reap_expired;
  register_queues = register_queues;
  snapshot_metrics = snapshot_metrics;
  record_counters = record_counters;
}
