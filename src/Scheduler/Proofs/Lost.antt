-- ===== src/Scheduler/Proofs/Lost.antt =====
-- A task that waits in the persistent queue while no client can take it (pkg/reef/server/scheduler.go,
-- `Submit` and `TryDispatch`, with queue_persistent.go, `Enqueue`).
use reef.Prelude.{ℕ, ◌<◌, ◌≡◌, refl, Bool, true, [], ◌∷◌, Option, none, some, String, arith}
use reef.Task.Status.{queued, same_status}
use reef.Task.{Task}
use reef.Registry.{list}
use reef.Store.{get_task}
use reef.Queue.Persistent.{PersistentQueue, enqueue, dequeue, peek, len, persistent_ops}
use reef.Queue.Persistent.Saved.{saved_refused, enqueue_saves, enqueue_fresh, grown_queue}
use reef.Scheduler.{Scheduler, ok, register_task}
use reef.Scheduler.Matching.{match_client, exclude_id, eligible}
use reef.Scheduler.Dispatch.{try_dispatch, dispatch_loop, round, put_back, submit, submit_queued}

module _ (send : Option (Task → String → Bool)) (now r : ℕ) (s : Scheduler PersistentQueue) where
  no_match :
      eligible (s.store r) (exclude_id (s.store r)) (list s.registry) ≡ []
      → match_client s (s.store r) (exclude_id (s.store r)) ≡ none
  unfolding match_client
  no_match e = rw e refl

  -- When the only task of a persistent queue is one that its store holds, and no client is eligible
  -- for it, a dispatch drops the task: the queue is empty afterwards, with the task as it was.
  pub unmatched_is_dropped :
      (t : Task)
      → s.queue.cache ≡ r ∷ []
      → get_task (s.store r).id s.queue.store ≡ some t
      → eligible (s.store r) (exclude_id (s.store r)) (list s.registry) ≡ []
      → try_dispatch persistent_ops send now s
        ≡ some (record s { queue = record s.queue { cache = [] } })
  unfolding try_dispatch dispatch_loop round put_back persistent_ops peek dequeue len get_task
  unmatched_is_dropped t c g e =
      ground (arith, no_match e, saved_refused s.store r (record s.queue { cache = [] }) t g)

module _ (send : Option (Task → String → Bool)) (now r : ℕ) (s : Scheduler PersistentQueue) where
  abbrev submitted : Scheduler PersistentQueue
  submitted = record (register_task r s) { queue = grown_queue s.store r s.queue }

  -- A queued task that is submitted to an empty persistent queue with room for it, whose store
  -- has no task of its id, while no client is eligible for it, is accepted and at once lost:
  -- the queue is empty afterwards, and the task is as it was.
  pub submitted_is_lost :
      s.queue.cache ≡ []
      → 0 < s.queue.max_len
      → (s.store r).status ≡ queued
      → get_task (s.store r).id s.queue.store ≡ none
      → eligible (s.store r) (exclude_id (s.store r)) (list s.registry) ≡ []
      → (s' : Scheduler PersistentQueue) × (submit persistent_ops send now r s ≡ some (s', ok))
        × (s'.queue.cache ≡ [])
        × (s'.store r ≡ s.store r)
  unfolding submit submit_queued persistent_ops register_task same_status
  submitted_is_lost c l q g e =
      let accepted : enqueue s.store r s.queue ≡ (grown_queue s.store r s.queue, true) =
        enqueue_fresh s.store r s.queue (ground arith) g in
      let (_, _, held, _, _) = enqueue_saves s.store r s.queue _ accepted in
      let waits : submitted.queue.cache ≡ r ∷ [] = rw c refl in
      let dropped = unmatched_is_dropped send now r submitted (s.store r) waits held e in
      (
        record submitted { queue = record submitted.queue { cache = [] } },
        ground (arith, accepted, dropped),
        refl,
        refl,
      )
