-- ===== src/Scheduler.antt =====
-- pkg/reef/server/scheduler.go: the state of the scheduler and the helpers of its handlers. Tasks
-- are shared by pointers: a pointer is a number, `store` gives the task behind it, and both the
-- queue and the index `tasks` hold pointers. Each handler is one function, what a call does
-- with no other at work. Logging is left out.
pub mod Matching
pub mod Dispatch
pub mod Reports
pub mod Callers
pub mod Control
pub mod Proofs
use reef.Prelude.{
  ℕ, ◌≡◌, refl, inl, inr, Option-cases, Bool, true, false, List, [], ◌∷◌, Option, none, some,
  String, lookup, insert, update, if◌then◌else◌,
}
use reef.Prelude.Int.{ℤ, pos, negsuc}
use reef.Task.Status.{TaskStatus}
use reef.Task.{Task, TaskResult, TaskError, try_transition}
use reef.Registry.{Registry, decrement_load}
use reef.Strategy.{MatchStrategy}

-- What the scheduler does to the world outside, the hooks and goroutines of the source.
pub data Event : Type 0 where
  state_changed : Task → Event
  result_callback : Task → Option TaskResult → Option TaskError → Event
  alert : Task → Event
  go_try_dispatch : Event

pub data Error : Type 0 where
  not_found unexpected_state invalid_transition enqueue_failed : Error

-- How a handler ends: `deadlock` when it waits for a lock that it holds itself.
pub data Reply : Type 0 where
  ok : Reply
  err : Error → Reply
  deadlock : Reply

pub record Scheduler (Q : Type 0) : Type 0 where
  pub registry : Registry
  pub queue : Q
  pub store : ℕ → Task
  pub tasks : List (String × ℕ)
  pub max_escalations : ℕ
  pub match_strategy : Option MatchStrategy
  pub on_task_state_changed : Bool
  pub has_result_callback : Bool
  pub events : List Event

-- `if opts.MaxEscalations < 0 { opts.MaxEscalations = 2 }`
unfoldable pub escalation_limit : ℤ → ℕ
escalation_limit (pos n) = n
escalation_limit (negsuc n) = 2

-- The tasks of an index, read through its pointers.
unfoldable pub pointers : List (String × ℕ) → (ℕ → Task) → List Task
pointers [] h = []
pointers ((_, r) ∷ m) h = h r ∷ pointers m h

module _ {Q : Type 0} where
  unfoldable pub new_scheduler :
      Registry → Q → (ℕ → Task) → ℤ → Option MatchStrategy → Bool → Bool → Scheduler Q
  unfolding escalation_limit
  new_scheduler registry queue store max_escalations strategy changed result = record {
    registry = registry;
    queue = queue;
    store = store;
    tasks = [];
    max_escalations = escalation_limit max_escalations;
    match_strategy = strategy;
    on_task_state_changed = changed;
    has_result_callback = result;
    events = [];
  }

  -- A write through the pointer `r`.
  abbrev pub set_task : ℕ → Task → Scheduler Q → Scheduler Q
  set_task r t s = record s { store = update s.store r t }

  abbrev pub emit : Event → Scheduler Q → Scheduler Q
  emit e s = record s { events = e ∷ s.events }

  -- `if s.onTaskStateChanged != nil { s.onTaskStateChanged(task) }`
  abbrev pub notify_changed : ℕ → Scheduler Q → Scheduler Q
  notify_changed r s = if s.on_task_state_changed then emit (state_changed (s.store r)) s else s

  -- `if s.resultCallback != nil { s.resultCallback(task, result, taskErr) }`
  abbrev pub notify_result : ℕ → Option TaskResult → Option TaskError → Scheduler Q → Scheduler Q
  notify_result r result e s =
      if s.has_result_callback then emit (result_callback (s.store r) result e) s else s

  -- `s.registry.DecrementLoad(client)`
  abbrev pub release_client : String → Scheduler Q → Scheduler Q
  release_client client s = record s { registry = (decrement_load client s.registry).0 }

  unfoldable pub get_task : String → Scheduler Q → Option ℕ
  get_task id s = lookup id s.tasks

  -- `RegisterTask`
  unfoldable pub register_task : ℕ → Scheduler Q → Scheduler Q
  register_task r s = record s { tasks = insert (s.store r).id r s.tasks }

  -- `TasksSnapshot`
  unfoldable pub tasks_snapshot : Scheduler Q → List Task
  unfolding pointers
  tasks_snapshot s = pointers s.tasks s.store

  -- `task, ok := s.tasks[taskID]`, and the error of a handler for an unknown task.
  unfoldable pub with_task : String → Scheduler Q → (ℕ → Scheduler Q × Reply) → Scheduler Q × Reply
  with_task id s body = elim (lookup id s.tasks) [ none ↦ (s, err not_found) | some r ↦ body r ]

  -- What holds of the state as it is, and of the state after the body for the task found, holds
  -- after the handler.
  pub with_task_cases {ℓ} :
      (P : Scheduler Q → Type ℓ) (id : String) (s : Scheduler Q) (body : ℕ → Scheduler Q × Reply)
      → P s
      → ((r : ℕ) → lookup id s.tasks ≡ some r → P (body r).0)
      → P (with_task id s body).0
  unfolding with_task
  with_task_cases P id s body here found = elim (Option-cases (lookup id s.tasks)) [
    | inl e ↦ rw (e, with_task) here
    | inr (r, e) ↦ rw (e, with_task) (found r e)
  ]

  pub with_task-some :
      (id : String) (r : ℕ) (s : Scheduler Q) (body : ℕ → Scheduler Q × Reply)
      → lookup id s.tasks ≡ some r
      → with_task id s body ≡ body r
  unfolding with_task
  with_task-some id r s body e = rw (e, with_task) refl

  pub with_task-none :
      (id : String) (s : Scheduler Q) (body : ℕ → Scheduler Q × Reply)
      → lookup id s.tasks ≡ none
      → with_task id s body ≡ (s, err not_found)
  unfolding with_task
  with_task-none id s body e = rw (e, with_task) refl
