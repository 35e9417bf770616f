-- ===== src/Queue.antt =====
-- pkg/reef/server/queue.go: the in-memory FIFO queue. The queue holds task pointers, so the
-- element type is left open; `created_at` reads a task's creation time through such a pointer.
-- The mutex makes each operation atomic, so each is one function. `none` from `enqueue` is
-- `ErrQueueFull`.
pub mod Fifo
pub mod Interface
pub mod Instances
pub mod Persistent
pub mod Priority
use reef.Prelude.{
  ℕ, ◌+◌, ◌-◌, ◌*◌, ◌≡◌, refl, Bool, true, false, List, [], ◌∷◌, ◌++◌, Option, none, some, length,
  ltb, leb, if◌then◌else◌,
}
use reef.Prelude.Int.{ℤ, pos, negsuc}

-- `if v <= 0 { v = d }`
unfoldable pub default_unless_positive : ℕ → ℤ → ℕ
default_unless_positive d (pos n) = if leb n 0 then d else n
default_unless_positive d (negsuc n) = d

-- 10 minutes in nanoseconds
abbrev pub default_max_age : ℕ
default_max_age = 600_000_000_000

pub record TaskQueue (A : Type 0) : Type 0 where
  pub tasks : List A
  pub max_len : ℕ
  pub max_age : ℕ

module _ {A : Type 0} where
  unfoldable pub new_task_queue : ℤ → ℤ → TaskQueue A
  unfolding default_unless_positive
  new_task_queue max_len max_age = record {
    tasks = [];
    max_len = default_unless_positive 1000 max_len;
    max_age = default_unless_positive default_max_age max_age;
  }

  unfoldable pub enqueue : A → TaskQueue A → Option (TaskQueue A)
  enqueue task q =
      if leb q.max_len (length q.tasks)
      then none
      else some (record q { tasks = q.tasks ++ task ∷ [] })

  unfoldable pub dequeue : TaskQueue A → Option A × TaskQueue A
  dequeue q = elim q.tasks [ [] ↦ (none, q) | task ∷ rest ↦ (some task, record q { tasks = rest }) ]

  unfoldable pub peek : TaskQueue A → Option A
  peek q = elim q.tasks [ [] ↦ none | task ∷ rest ↦ some task ]

  unfoldable pub len : TaskQueue A → ℕ
  len q = length q.tasks

  unfoldable pub snapshot : TaskQueue A → List A
  snapshot q = q.tasks

module _ {A : Type 0} (created_at : A → ℕ) where
  -- `now.Sub(t.CreatedAt) > q.maxAge`; a task from the future has not expired.
  abbrev pub is_old : ℕ → ℕ → A → Bool
  is_old now max_age t = ltb max_age (now - created_at t)

  -- The loop of `Expire`: the expired tasks, and those kept.
  unfoldable pub split_expired : ℕ → ℕ → List A → List A × List A
  split_expired now max_age [] = ([], [])
  split_expired now max_age (t ∷ ts) =
      let (expired, kept) = split_expired now max_age ts in
      if is_old now max_age t then (t ∷ expired, kept) else (expired, t ∷ kept)

  unfoldable pub expire : ℕ → TaskQueue A → List A × TaskQueue A
  unfolding split_expired
  expire now q =
      let (expired, kept) = split_expired now q.max_age q.tasks in
      (expired, record q { tasks = kept })
