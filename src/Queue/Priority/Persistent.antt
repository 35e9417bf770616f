-- ===== src/Queue/Priority/Persistent.antt =====
-- pkg/reef/server/queue_persistent_prio.go: the priority queue with a task store behind it, here the one
-- in memory. Restored tasks stand behind the next free pointers from `base` on.
use reef.Prelude.{ℕ, ◌+◌, Bool, false, List, [], ◌∷◌, Option, none, some, update, if◌then◌else◌}
use reef.Prelude.Int.{ℤ}
use reef.Task.Status.{failed}
use reef.Task.{Task, try_transition}
use reef.Store.{MemoryStore, save_task, list_tasks}
use reef.Queue.{is_old}
use reef.Queue.Interface.{QueueOps}
use reef.Queue.Persistent.{unfinished, updated, is_interrupted, requeued}
use reef.Queue.Priority.Queue.{
  PriorityQueue, new_priority_queue, restore_from_store, enqueue, dequeue, peek, len, remove_by_id,
  snapshot, matching,
}

pub record PersistentPriorityQueue : Type 0 where
  pub queue : PriorityQueue
  pub store : MemoryStore

-- The loop of `restore`: interrupted tasks wait again, in the store too.
unfoldable pub restore_all :
    ℕ → List Task → (ℕ → Task) → PersistentPriorityQueue → (ℕ → Task) × PersistentPriorityQueue
restore_all base [] h pq = (h, pq)
restore_all base (t ∷ ts) h pq =
    let t' = if is_interrupted t then requeued t else t in
    let h' = update h base t' in
    restore_all (base + 1) ts h' record {
      queue = restore_from_store h' base pq.queue;
      store = if is_interrupted t then updated (requeued t) pq.store else pq.store;
    }

-- `NewPersistentPriorityQueue`
unfoldable pub new_persistent_priority_queue :
    ℕ → (ℕ → Task) → MemoryStore → ℤ → ℤ → (ℕ → Task) × PersistentPriorityQueue
unfolding restore_all
new_persistent_priority_queue base h m max_len max_age =
    restore_all base (list_tasks unfinished m) h
      record { queue = new_priority_queue max_len max_age; store = m }

-- `Enqueue`: the task is saved first; false for either error.
unfoldable pub save_and_enqueue :
    (ℕ → Task) → ℕ → PersistentPriorityQueue → PersistentPriorityQueue × Bool
save_and_enqueue h r pq = elim (save_task (h r) pq.store) [
  | none ↦ (pq, false)
  | some m ↦ let (q, accepted) = enqueue h r pq.queue in (record { queue = q; store = m }, accepted)
]

unfoldable pub dequeue_only : PersistentPriorityQueue → Option ℕ × PersistentPriorityQueue
dequeue_only pq = let (r, q) = dequeue pq.queue in (r, record pq { queue = q })

-- The second loop of `Expire`; `none` is a panic.
unfoldable pub fail_expired :
    ℕ
    → List ℕ
    → (ℕ → Task)
    → PersistentPriorityQueue
    → Option ((ℕ → Task) × PersistentPriorityQueue)
fail_expired now [] h pq = some (h, pq)
fail_expired now (r ∷ rs) h pq =
    let t = try_transition failed now (h r) in
    let h' = update h r t in
    elim (remove_by_id t.id pq.queue) [
      | none ↦ none
      | some (q, found) ↦ fail_expired now rs h' record { queue = q; store = updated t pq.store }
    ]

unfoldable pub expire :
    ℕ
    → (ℕ → Task)
    → PersistentPriorityQueue
    → Option (List ℕ × (ℕ → Task) × PersistentPriorityQueue)
unfolding fail_expired
expire now h pq =
    let expired =
      matching (λ t. is_old (λ x. x.created_at) now pq.queue.max_age t) h (snapshot pq.queue) in
    elim (fail_expired now expired h pq) [ none ↦ none | some (h', pq') ↦ some (expired, h', pq') ]

unfoldable pub persistent_priority_ops : QueueOps PersistentPriorityQueue
unfolding save_and_enqueue dequeue_only
persistent_priority_ops = record {
  enqueue = save_and_enqueue;
  dequeue = dequeue_only;
  peek = λ pq. peek pq.queue;
  len = λ pq. len pq.queue;
}
