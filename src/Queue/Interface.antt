-- ===== src/Queue/Interface.antt =====
-- pkg/reef/server/queue_iface.go: the `Queue` interface as the scheduler uses it. A queue holds task
-- pointers; `enqueue` may read the task behind the pointer, so it is given the store of tasks, and
-- the Boolean says whether the task was accepted. `Expire` is no part of it: the scheduler never
-- calls it.
use reef.Prelude.{ℕ, ◌+◌, ◌<◌, ◌≡◌, Bool, Option, none, some, ◌==◌, if◌then◌else◌}
use reef.Task.{Task}

pub record QueueOps (Q : Type 0) : Type 0 where
  pub enqueue : (ℕ → Task) → ℕ → Q → Q × Bool
  pub dequeue : Q → Option ℕ × Q
  pub peek : Q → Option ℕ
  pub len : Q → ℕ

-- What a queue promises its client, in a valid state: what it holds (`occurs r q` times the pointer `r`), that a
-- dequeue takes what a peek shows, and that it accepts a task while there is room.
pub record QueueLaws {Q : Type 0} (ops : QueueOps Q) : Type 1 where
  pub IsValid : Q → Type 0
  pub dequeue_valid : (q : Q) → IsValid q → IsValid (ops.dequeue q).1
  pub enqueue_valid : (h : ℕ → Task) (r : ℕ) (q : Q) → IsValid q → IsValid (ops.enqueue h r q).0
  pub occurs : ℕ → Q → ℕ
  pub room : Q → ℕ
  pub dequeue_peek : (q : Q) → IsValid q → (ops.dequeue q).0 ≡ ops.peek q
  pub dequeue_len :
      (q : Q) (r : ℕ) → IsValid q → ops.peek q ≡ some r → ops.len (ops.dequeue q).1 + 1 ≡ ops.len q
  pub dequeue_room :
      (q : Q) (r : ℕ) → IsValid q → ops.peek q ≡ some r → room (ops.dequeue q).1 ≡ room q + 1
  pub dequeue_occurs :
      (q : Q) (r x : ℕ)
      → IsValid q
      → ops.peek q ≡ some r
      → occurs x q ≡ occurs x (ops.dequeue q).1 + (if r == x then 1 else 0)
  pub peek_none : (q : Q) (x : ℕ) → ops.peek q ≡ none → occurs x q ≡ 0
  pub enqueue_room :
      (h : ℕ → Task) (r : ℕ) (q : Q)
      → IsValid q
      → 0 < room q
      → room (ops.enqueue h r q).0 + 1 ≡ room q
  pub enqueue_occurs :
      (h : ℕ → Task) (r x : ℕ) (q : Q)
      → IsValid q
      → 0 < room q
      → occurs x (ops.enqueue h r q).0 ≡ occurs x q + (if r == x then 1 else 0)
