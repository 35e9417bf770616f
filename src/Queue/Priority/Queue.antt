-- ===== src/Queue/Priority/Queue.antt =====
-- pkg/reef/server/priority_queue.go: the operations of `PriorityQueue`. `next` is the next item pointer
-- without an item. `seq` counts insertions; an `int64` does not overflow within the 2^63 of them.
-- `none` is a panic of the runtime, an index out of range.
use reef.Prelude.{
  ℕ, zero, suc, ◌+◌, Bool, true, false, not, List, [], ◌∷◌, ◌++◌, Option, none, some, String,
  lookup, insert, delete, update, ltb, leb, ◌==◌, if◌then◌else◌,
}
use reef.Prelude.Int.{ℤ, pos, negsuc, ltb_ℤ, eqb_ℤ, ◌+ℤ◌}
use reef.Task.{Task}
use reef.Queue.{default_unless_positive, default_max_age, is_old}
use reef.Queue.Interface.{QueueOps}
use reef.Queue.Priority.{PqItems, PriorityHeap, heap_push, heap_pop, heap_remove, heap_fix}

pub record PriorityQueue : Type 0 where
  pub heap : PriorityHeap
  pub items : PqItems
  pub next : ℕ
  pub seq : ℕ
  pub max_len : ℕ
  pub max_age : ℕ
  pub by_id : List (String × ℕ)

abbrev no_items : PqItems
no_items = record { task = λ a. 0; task_id = λ a. ""; priority = λ a. pos 0; seq = λ a. 0 }

unfoldable pub new_priority_queue : ℤ → ℤ → PriorityQueue
unfolding default_unless_positive
new_priority_queue max_len max_age = record {
  heap = record { len = 0; slots = λ i. 0; index = λ a. negsuc 0 };
  items = no_items;
  next = 0;
  seq = 0;
  max_len = default_unless_positive 1000 max_len;
  max_age = default_unless_positive default_max_age max_age;
  by_id = [];
}

-- `if p < 1 { p = 5 }`
unfoldable pub resolve_priority : ℤ → ℤ
resolve_priority p = if ltb_ℤ p (pos 1) then pos 5 else p

-- The fields of a new item at the pointer `a`.
abbrev pub set_item : ℕ → ℕ → String → ℤ → ℕ → PqItems → PqItems
set_item a r id p seq it = record {
  task = update it.task a r;
  task_id = update it.task_id a id;
  priority = update it.priority a p;
  seq = update it.seq a seq;
}

-- A new item for the task behind `r` is pushed and indexed: what `Enqueue` and `restoreFromStore` share.
unfoldable pub add_item : ℕ → String → ℤ → PriorityQueue → PriorityQueue
add_item r id p q =
    let it = set_item q.next r id p (q.seq + 1) q.items in
    record q {
      heap = heap_push it q.next q.heap;
      items = it;
      next = q.next + 1;
      seq = q.seq + 1;
      by_id = insert id q.next q.by_id;
    }

-- `restoreFromStore`: the priority is taken as it is, and the limit is not looked at.
unfoldable pub restore_from_store : (ℕ → Task) → ℕ → PriorityQueue → PriorityQueue
unfolding add_item
restore_from_store h r q = add_item r (h r).id (h r).priority q

unfoldable pub enqueue : (ℕ → Task) → ℕ → PriorityQueue → PriorityQueue × Bool
unfolding add_item resolve_priority
enqueue h r q =
    if leb q.max_len q.heap.len
    then (q, false)
    else (add_item r (h r).id (resolve_priority (h r).priority) q, true)

unfoldable pub dequeue : PriorityQueue → Option ℕ × PriorityQueue
dequeue q =
    let (h, a) = heap_pop q.items q.heap in
    if q.heap.len == 0
    then (none, q)
    else (some (q.items.task a), record q { heap = h; by_id = delete (q.items.task_id a) q.by_id })

unfoldable pub peek : PriorityQueue → Option ℕ
peek q = if q.heap.len == 0 then none else some (q.items.task (q.heap.slots 0))

unfoldable pub len : PriorityQueue → ℕ
len q = q.heap.len

-- The first `n` tasks in heap order.
unfoldable pub tasks_of : PqItems → (ℕ → ℕ) → ℕ → List ℕ
tasks_of it s zero = []
tasks_of it s (suc n) = tasks_of it s n ++ it.task (s n) ∷ []

unfoldable pub snapshot : PriorityQueue → List ℕ
unfolding tasks_of
snapshot q = tasks_of q.items q.heap.slots q.heap.len

abbrev pub matching : (Task → Bool) → (ℕ → Task) → List ℕ → List ℕ
matching p h [] = []
matching p h (r ∷ rs) = if p (h r) then r ∷ matching p h rs else matching p h rs

-- `Scan`
unfoldable pub scan : (Task → Bool) → (ℕ → Task) → PriorityQueue → List ℕ
unfolding snapshot
scan p h q = matching p h (snapshot q)

-- `heap.Remove` at an index of the heap, and the id forgotten.
abbrev removed : String → ℕ → PriorityQueue → Option (PriorityQueue × Bool)
removed id i q =
    if ltb i q.heap.len
    then some
        (record q { heap = (heap_remove q.items i q.heap).0; by_id = delete id q.by_id }, true)
    else none

unfoldable pub remove_by_id : String → PriorityQueue → Option (PriorityQueue × Bool)
remove_by_id id q = elim (lookup id q.by_id) [
  | none ↦ some (q, false)
  | some a ↦ elim (q.heap.index a) [ pos i ↦ removed id i q | negsuc i ↦ none ]
]

-- `Remove`
unfoldable pub remove : String → PriorityQueue → Option (PriorityQueue × Bool)
unfolding remove_by_id
remove id q = remove_by_id id q

-- The second loop of `Expire`, over the expired tasks.
unfoldable pub remove_all : (ℕ → Task) → List ℕ → PriorityQueue → Option PriorityQueue
unfolding remove_by_id
remove_all h [] q = some q
remove_all h (r ∷ rs) q = elim (remove_by_id (h r).id q) [
  | none ↦ none
  | some (q', found) ↦ remove_all h rs q'
]

unfoldable pub expire : ℕ → (ℕ → Task) → PriorityQueue → Option (List ℕ × PriorityQueue)
unfolding remove_all snapshot
expire now h q =
    let expired = matching (λ t. is_old (λ x. x.created_at) now q.max_age t) h (snapshot q) in
    elim (remove_all h expired q) [ none ↦ none | some q' ↦ some (expired, q') ]

-- `newPriority`, at most `maxPriority`
unfoldable pub boosted_priority : ℤ → ℤ → ℤ → ℤ
boosted_priority boost max_priority p =
    if ltb_ℤ max_priority (p +ℤ boost) then max_priority else p +ℤ boost

-- One round of `BoostStarvation` for the item `a`: the tasks, the queue, and whether it was boosted.
unfoldable pub boost_item :
    ℕ → ℕ → ℤ → ℤ → ℕ → (ℕ → Task) → PriorityQueue → Option ((ℕ → Task) × PriorityQueue × Bool)
unfolding boosted_priority
boost_item now threshold boost max_priority a h q =
    let r = q.items.task a in
    let p = boosted_priority boost max_priority (q.items.priority a) in
    let it = record q.items { priority = update q.items.priority a p } in
    if not (is_old (λ x. x.created_at) now threshold (h r))
    then some (h, q, false)
    else if eqb_ℤ p (q.items.priority a)
    then some (h, q, false)
    else elim (q.heap.index a) [
      | negsuc i ↦ none
      | pos i ↦ some (
        update h r (record (h r) { priority = p }),
        record q { items = it; heap = heap_fix it i q.heap },
        true,
      )
    ]

-- The loop over the indices from `i` on; the heap is read as it is by then.
unfoldable pub boost_from :
    ℕ → ℕ → ℤ → ℤ → ℕ → ℕ → (ℕ → Task) → PriorityQueue → Option ((ℕ → Task) × PriorityQueue × ℕ)
unfolding boost_item
boost_from now threshold boost max_priority i zero h q = some (h, q, 0)
boost_from now threshold boost max_priority i (suc rounds) h q =
    elim (boost_item now threshold boost max_priority (q.heap.slots i) h q) [
      | none ↦ none
      | some (h', q', boosted) ↦
          elim (boost_from now threshold boost max_priority (i + 1) rounds h' q') [
            | none ↦ none
            | some (h'', q'', n) ↦ some (h'', q'', (if boosted then n + 1 else n))
          ]
    ]

unfoldable pub boost_starvation :
    ℕ → ℕ → ℤ → ℤ → (ℕ → Task) → PriorityQueue → Option ((ℕ → Task) × PriorityQueue × ℕ)
unfolding boost_from
boost_starvation now threshold boost max_priority h q =
    boost_from now threshold boost max_priority 0 q.heap.len h q

unfoldable pub priority_ops : QueueOps PriorityQueue
unfolding enqueue dequeue peek len
priority_ops = record { enqueue = enqueue; dequeue = dequeue; peek = peek; len = len }
