-- ===== src/Queue/Persistent.antt =====
-- pkg/reef/server/queue_persistent.go: the queue with a cache of task pointers over the store in
-- memory. A restored task is a copy that the store hands out: it stands behind a pointer of its own,
-- here the next free ones from `base` on. The store's warnings are logged only.
pub mod Restart
pub mod Saved
use reef.Prelude.{
  ℕ, ◌+◌, ◌-◌, Bool, true, false, ◌||◌, List, [], ◌∷◌, ◌++◌, Option, none, some, length, leb,
  update, if◌then◌else◌,
}
use reef.Prelude.Int.{ℤ, pos}
use reef.Task.Status.{TaskStatus, queued, running, assigned, paused, failed, same_status}
use reef.Task.{Task, try_transition}
use reef.Store.{MemoryStore, TaskFilter, save_task, update_task, list_tasks}
use reef.Queue.{default_unless_positive, default_max_age, is_old}
use reef.Queue.Interface.{QueueOps}

pub record PersistentQueue : Type 0 where
  pub store : MemoryStore
  pub cache : List ℕ
  pub max_len : ℕ
  pub max_age : ℕ

-- The filter of `restore`: the tasks that are not over.
abbrev pub unfinished : TaskFilter
unfinished = record {
  statuses = queued ∷ running ∷ assigned ∷ paused ∷ [];
  roles = [];
  limit = pos 0;
  offset = pos 0;
}

-- An update that fails leaves the store as it was.
abbrev pub updated : Task → MemoryStore → MemoryStore
updated t m = elim (update_task t m) [ none ↦ m | some m' ↦ m' ]

abbrev pub is_interrupted : Task → Bool
is_interrupted t = same_status t.status running || same_status t.status assigned

abbrev pub requeued : Task → Task
requeued t = record t { status = queued }

-- The loop of `restore`
unfoldable pub restore_tasks :
    ℕ → List Task → (ℕ → Task) → PersistentQueue → (ℕ → Task) × PersistentQueue
restore_tasks base [] h q = (h, q)
restore_tasks base (t ∷ ts) h q =
    let t' = if is_interrupted t then requeued t else t in
    let m = if is_interrupted t then updated (requeued t) q.store else q.store in
    restore_tasks (base + 1) ts (update h base t')
      (record q { store = m; cache = q.cache ++ base ∷ [] })

unfoldable pub restore : ℕ → (ℕ → Task) → PersistentQueue → (ℕ → Task) × PersistentQueue
unfolding restore_tasks
restore base h q = restore_tasks base (list_tasks unfinished q.store) h q

unfoldable pub new_persistent_queue :
    ℕ → (ℕ → Task) → MemoryStore → ℤ → ℤ → (ℕ → Task) × PersistentQueue
unfolding restore default_unless_positive
new_persistent_queue base h m max_len max_age = restore base h record {
  store = m;
  cache = [];
  max_len = default_unless_positive 1000 max_len;
  max_age = default_unless_positive default_max_age max_age;
}

-- `Enqueue`: false for either error, which leaves the queue as it was.
unfoldable pub enqueue : (ℕ → Task) → ℕ → PersistentQueue → PersistentQueue × Bool
enqueue h r q =
    if leb q.max_len (length q.cache) then (q, false) else (elim (save_task (h r) q.store) [
      | none ↦ (q, false)
      | some m ↦ (record q { store = m; cache = q.cache ++ r ∷ [] }, true)
    ])

unfoldable pub dequeue : PersistentQueue → Option ℕ × PersistentQueue
dequeue q = elim q.cache [ [] ↦ (none, q) | r ∷ rest ↦ (some r, record q { cache = rest }) ]

unfoldable pub peek : PersistentQueue → Option ℕ
peek q = elim q.cache [ [] ↦ none | r ∷ rest ↦ some r ]

unfoldable pub len : PersistentQueue → ℕ
len q = length q.cache

unfoldable pub snapshot : PersistentQueue → List ℕ
snapshot q = q.cache

-- The loop of `Expire`: the expired pointers, the kept ones, the objects and the store.
unfoldable pub expire_tasks :
    ℕ → ℕ → List ℕ → (ℕ → Task) → MemoryStore → List ℕ × List ℕ × (ℕ → Task) × MemoryStore
expire_tasks now max_age [] h m = ([], [], h, m)
expire_tasks now max_age (r ∷ rs) h m =
    if is_old (λ x. (h x).created_at) now max_age r
    then (let t = try_transition failed now (h r) in
        let (expired, kept, h', m') = expire_tasks now max_age rs (update h r t) (updated t m) in
        (r ∷ expired, kept, h', m'))
    else (let (expired, kept, h', m') = expire_tasks now max_age rs h m in
        (expired, r ∷ kept, h', m'))

unfoldable pub expire : ℕ → (ℕ → Task) → PersistentQueue → List ℕ × (ℕ → Task) × PersistentQueue
unfolding expire_tasks
expire now h q =
    let (expired, kept, h', m) = expire_tasks now q.max_age q.cache h q.store in
    (expired, h', record q { store = m; cache = kept })

unfoldable pub persistent_ops : QueueOps PersistentQueue
unfolding enqueue dequeue peek len
persistent_ops = record { enqueue = enqueue; dequeue = dequeue; peek = peek; len = len }
