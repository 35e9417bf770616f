-- ===== src/Queue/Priority/Restore.antt =====
-- What a restart makes of the persistent priority queue, and what its store keeps of refused tasks
-- (pkg/reef/server/queue_persistent_prio.go).
use reef.Prelude.{
  ℕ, ◌+◌, ◌≤◌, ◌≡◌, refl, false, List, [], ◌∷◌, none, some, arith, length, if◌then◌else◌, update,
  insert, lookup-insert, eq_refl, ◌∙◌,
}
use reef.Prelude.Int.{ℤ}
use reef.Task.{Task}
use reef.Store.{MemoryStore, save_task, get_task, list_tasks}
use reef.Queue.Persistent.{unfinished, updated, is_interrupted, requeued}
use reef.Queue.Priority.Queue.{PriorityQueue, new_priority_queue, restore_from_store, enqueue}
use reef.Queue.Priority.Invariant.{
  IsValid, new_priority_queue-IsValid, add_item-IsValid, add_item-Added,
}
use reef.Queue.Priority.Persistent.{
  PersistentPriorityQueue, restore_all, new_persistent_priority_queue, save_and_enqueue,
}

-- Restoring keeps the queue valid, and adds one item for each task, whatever the limit.
restore_all-IsValid :
    (base : ℕ) (ts : List Task) (h : ℕ → Task) (pq : PersistentPriorityQueue)
    → IsValid pq.queue
    → IsValid (restore_all base ts h pq).1.queue
      × ((restore_all base ts h pq).1.queue.heap.len ≡ pq.queue.heap.len + length ts)
unfolding restore_all restore_from_store
restore_all-IsValid base [] h pq v = (v, omega arith)
restore_all-IsValid base (t ∷ ts) h pq v =
    let t' = if is_interrupted t then requeued t else t in
    let h' = update h base t' in
    let grown = (add_item-Added pq.queue v base (h' base).id (h' base).priority).longer in
    let (w, l) =
      restore_all-IsValid (base + 1) ts h'
        record {
          queue = restore_from_store h' base pq.queue;
          store = if is_interrupted t then updated (requeued t) pq.store else pq.store;
        }
        (add_item-IsValid pq.queue v base (h' base).id (h' base).priority) in
    (w, omega (arith, l, grown))

-- After a restart the queue is valid and holds one item for each unfinished task of the store, also when they
-- are more than the queue's limit.
pub restart-IsValid :
    (base : ℕ) (h : ℕ → Task) (m : MemoryStore) (max_len max_age : ℤ)
    → let pq = (new_persistent_priority_queue base h m max_len max_age).1 in
      IsValid pq.queue × (pq.queue.heap.len ≡ length (list_tasks unfinished m))
unfolding new_persistent_priority_queue new_priority_queue
restart-IsValid base h m max_len max_age =
    let (v, l) =
      restore_all-IsValid base (list_tasks unfinished m) h
        record { queue = new_priority_queue max_len max_age; store = m }
        (new_priority_queue-IsValid max_len max_age) in
    (v, omega (arith, l))

-- A task that a full queue refuses is saved all the same: the store holds it from then on, and
-- a second attempt fails for the id that the store has, also when there is room again.
pub refused_but_saved :
    (h : ℕ → Task) (r : ℕ) (pq : PersistentPriorityQueue) (q : PriorityQueue)
    → get_task (h r).id pq.store ≡ none
    → pq.queue.max_len ≤ pq.queue.heap.len
    → let (pq', accepted) = save_and_enqueue h r pq in
      (accepted ≡ false)
      × (pq'.queue ≡ pq.queue)
      × (get_task (h r).id pq'.store ≡ some (h r))
      × (save_and_enqueue h r (record pq' { queue = q }) ≡ (record pq' { queue = q }, false))
unfolding save_and_enqueue save_task get_task enqueue
refused_but_saved h r pq q e f =
    let m : MemoryStore = record pq.store { tasks = insert (h r).id (h r) pq.store.tasks } in
    let opened : save_and_enqueue h r pq ≡ (record { queue = pq.queue; store = m }, false) =
      ground arith in
    let kept : get_task (h r).id m ≡ some (h r) =
      lookup-insert (h r).id (h r).id (h r) pq.store.tasks ∙ rw (eq_refl (h r).id) refl in
    let again : save_and_enqueue h r (record { queue = q; store = m })
        ≡ (record { queue = q; store = m }, false) =
      ground (arith, kept) in
    rw opened (refl, refl, kept, again)
