-- ===== src/Tests/Priority.antt =====
-- Tests and witnesses about the priority queue.
use reef.Prelude.{ℕ, zero, suc, ◌≤◌, ◌<◌, ◌≡◌, refl, ◌⊎◌, none, some, true, false, arith, lookup}
use reef.Prelude.Int.{pos}
use reef.Task.Status.{TaskStatus}
use reef.Task.{Task}
use reef.Queue.Priority.Queue.{
  PriorityQueue, new_priority_queue, enqueue, dequeue, peek, remove_by_id, boost_starvation,
}
use reef.Queue.Priority.Removal.{Removed}
use reef.Queue.Priority.Invariant.{IsValid, new_priority_queue-IsValid}
use reef.Queue.Priority.Operations.{IsFirst, enqueue-IsValid, dequeue-IsFirst, remove_by_id_exact}
use reef.Queue.Priority.Boost.{boost_starvation-IsValid}
use reef.Tests.Samples.{task_of}

-- Two tasks; the second one has the higher priority.
abbrev pair : ℕ → Task
pair zero = task_of "low" TaskStatus.queued
pair (suc n) = record (task_of "high" TaskStatus.queued) { priority = pos 8 }

abbrev both : PriorityQueue
both = (enqueue pair 1 (enqueue pair 0 (new_priority_queue (pos 2) (pos 0))).0).0

both-IsValid : IsValid both
both-IsValid =
    enqueue-IsValid (enqueue pair 0 (new_priority_queue (pos 2) (pos 0))).0
      (enqueue-IsValid (new_priority_queue (pos 2) (pos 0))
        (new_priority_queue-IsValid (pos 2) (pos 0)) pair 0)
      pair 1

both_waiting : both.heap.len ≡ 2
unfolding enqueue new_priority_queue reef.Queue.Priority.heap_push reef.Queue.Priority.precedes
both_waiting = refl

-- The later task comes first.
both_order : (dequeue both).0 ≡ some 1
unfolding dequeue enqueue new_priority_queue reef.Queue.Priority.heap_push
    reef.Queue.Priority.precedes reef.Queue.Priority.heap_pop
both_order = refl

dequeue-IsFirst_example :
    (a : ℕ) × IsFirst both both-IsValid a
    × (peek both ≡ some (both.items.task a))
    × ((dequeue both).0 ≡ some (both.items.task a))
    × Removed both.items both.heap 0 (dequeue both).1.heap a
    × ((dequeue both).1.items ≡ both.items)
    × IsValid (dequeue both).1
dequeue-IsFirst_example = dequeue-IsFirst both both-IsValid (omega (arith, both_waiting))

remove_by_id_exact_example :
    ((lookup "low" both.by_id ≡ none) × (remove_by_id "low" both ≡ some (both, false)))
    ⊎ ((a i : ℕ) × (q' : PriorityQueue) × (lookup "low" both.by_id ≡ some a)
        × (remove_by_id "low" both ≡ some (q', true))
        × (i < both.heap.len)
        × Removed both.items both.heap i q'.heap a
        × (lookup "low" q'.by_id ≡ none)
        × IsValid q')
remove_by_id_exact_example = remove_by_id_exact both both-IsValid "low"

boost_starvation-IsValid_example :
    (h' : ℕ → Task) × (q' : PriorityQueue) × (n : ℕ) × (boost_starvation 900 50
        (pos 2)
        (pos 10)
        pair
        both
      ≡ some (h', q', n))
    × IsValid q'
    × (q'.heap.len ≡ both.heap.len)
    × (n ≤ both.heap.len)
boost_starvation-IsValid_example =
    boost_starvation-IsValid 900 50 (pos 2) (pos 10) pair both both-IsValid
