-- ===== src/Queue/Instances.antt =====
-- The FIFO queue of task pointers behind the interface of the scheduler
-- (pkg/reef/server/queue.go, queue_iface.go).
use reef.Prelude.{
  ℕ, ◌-◌, ◌≤◌, Bool, true, false, [], ◌∷◌, Option, none, some, arith, length, length-append, count,
  count-append,
}
use reef.Queue.{TaskQueue, enqueue, dequeue, peek, len}
use reef.Queue.Interface.{QueueOps, QueueLaws}

-- An error leaves the queue as it was.
abbrev accepted : TaskQueue ℕ → Option (TaskQueue ℕ) → TaskQueue ℕ × Bool
accepted q none = (q, false)
accepted q (some q') = (q', true)

unfoldable pub fifo_ops : QueueOps (TaskQueue ℕ)
unfolding enqueue dequeue peek len
fifo_ops = record {
  enqueue = λ h r q. accepted q (enqueue r q);
  dequeue = dequeue;
  peek = peek;
  len = len;
}

-- The queue keeps the promises that the scheduler relies on.
unfoldable pub fifo_laws : QueueLaws fifo_ops
unfolding fifo_ops
fifo_laws = record {
  IsValid = λ q. length q.tasks ≤ q.max_len;
  dequeue_valid = λ q v. ground arith;
  enqueue_valid = λ h r q v. ground (arith, length-append q.tasks (r ∷ []));
  occurs = λ r q. count r q.tasks;
  room = λ q. q.max_len - length q.tasks;
  dequeue_peek = λ q v. ground arith;
  dequeue_len = λ q r v e. ground arith;
  dequeue_room = λ q r v e. ground arith;
  dequeue_occurs = λ q r x v e. ground arith;
  peek_none = λ q x e. ground arith;
  enqueue_room = λ h r q v e. ground (arith, length-append q.tasks (r ∷ []));
  enqueue_occurs = λ h r x q v e. ground (arith, count-append x q.tasks (r ∷ []));
}
