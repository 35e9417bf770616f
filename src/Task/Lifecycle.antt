-- ===== src/Task/Lifecycle.antt =====
-- What the transitions of a task guarantee (pkg/reef/task.go).
use reef.Prelude.{
  ℕ, if◌then◌else◌, Bool-cases, ◌||◌, ◌≡◌, refl, ◌≢◌, ◌⊎◌, inl, inr, Bool, true, false, List, [],
  ◌∷◌, none, some, arith, String,
}
use reef.Task.Status.{
  TaskStatus, created, queued, assigned, running, paused, blocked, recovering, aggregating,
  completed, failed, cancelled, escalated, same_status, is_terminal, can_transition_to,
}
use reef.Task.{Task, new_task, stamp, transition, try_transition}

-- When a status was entered is recorded.
pub record IsStamped (t : Task) : Type 0 where
  pub assigned_once : t.status ≡ assigned → t.assigned_at ≢ none
  pub running_started : t.status ≡ running → t.started_at ≢ none
  pub terminal_ended : is_terminal t.status ≡ true → t.completed_at ≢ none

pub new_task-IsStamped :
    (now : ℕ) (id instruction role : String) (skills : List String)
    → IsStamped (new_task now id instruction role skills)
unfolding new_task is_terminal
new_task-IsStamped now id instruction role skills = ground arith

pub try_transition-IsStamped :
    (to : TaskStatus) (now : ℕ) (t : Task) → IsStamped t → IsStamped (try_transition to now t)
unfolding try_transition is_terminal
try_transition-IsStamped to now t h = ground arith

stamp_fields :
    (to : TaskStatus) (now : ℕ) (t : Task)
    → some (stamp to now (record t { status = to }))
      ≡ some (record t {
        status = to;
        assigned_at = if same_status to assigned then some now else t.assigned_at;
        started_at = if same_status to running then some now else t.started_at;
        completed_at = if is_terminal to then some now else t.completed_at;
      })
unfolding stamp same_status is_terminal
stamp_fields to now t = ground arith

-- A transition succeeds exactly when the table allows it; it then sets the status and the one
-- timestamp of the status entered, and changes no other field.
pub transition-table :
    (to : TaskStatus) (now : ℕ) (t : Task)
    → ((can_transition_to t.status to ≡ false) × (transition to now t ≡ none))
      ⊎ ((can_transition_to t.status to ≡ true)
          × (transition to now t
              ≡ some (record t {
                status = to;
                assigned_at = if same_status to assigned then some now else t.assigned_at;
                started_at = if same_status to running then some now else t.started_at;
                completed_at = if is_terminal to then some now else t.completed_at;
              })))
unfolding transition same_status is_terminal
transition-table to now t = elim (Bool-cases (can_transition_to t.status to)) [
  | inl e ↦ inr (e, rw (e, transition) (stamp_fields to now t))
  | inr e ↦ inl (e, rw (e, transition) refl)
]

-- A history of requested transitions, with the time of each; a refused one changes nothing.
unfoldable pub run_transitions : List (TaskStatus × ℕ) → Task → Task
run_transitions [] t = t
run_transitions ((to, now) ∷ es) t = run_transitions es (try_transition to now t)

-- Whatever is requested of a task whose timestamps agree with its status, they agree afterwards:
-- a task is never running without a start time, nor in a terminal status without an end time.
pub run-IsStamped :
    (es : List (TaskStatus × ℕ)) (t : Task) → IsStamped t → IsStamped (run_transitions es t)
unfolding run_transitions
run-IsStamped [] t h = h
run-IsStamped ((to, now) ∷ es) t h =
    run-IsStamped es (try_transition to now t) (try_transition-IsStamped to now t h)

abbrev pub IsFinal : TaskStatus → Type 0
IsFinal s = (s ≡ completed) ⊎ (s ≡ cancelled)

try_transition-final :
    (to : TaskStatus) (now : ℕ) (t : Task) → IsFinal t.status → try_transition to now t ≡ t
unfolding try_transition
try_transition-final to now t h = ground arith

-- Completed and cancelled tasks are final: no request changes anything of them.
pub final_absorbs :
    (es : List (TaskStatus × ℕ)) (t : Task) → IsFinal t.status → run_transitions es t ≡ t
unfolding run_transitions
final_absorbs [] t h = refl
final_absorbs ((to, now) ∷ es) t h = rw (try_transition-final to now t h) (final_absorbs es t h)

-- Of the statuses called terminal, only a failed task can be moved on: it is queued again or
-- escalated.
pub terminal_moves :
    (s u : TaskStatus)
    → is_terminal s ≡ true
    → can_transition_to s u ≡ true
    → (s ≡ failed) × ((u ≡ queued) ⊎ (u ≡ escalated))
unfolding is_terminal can_transition_to
terminal_moves s u h e = ground arith

-- `to` was requested in the history.
unfoldable pub requested : TaskStatus → List (TaskStatus × ℕ) → Bool
requested s [] = false
requested s ((to, _) ∷ es) = same_status to s || requested s es

-- The task has done or is doing its work.
unfoldable pub has_worked : TaskStatus → Bool
has_worked running = true
has_worked paused = true
has_worked aggregating = true
has_worked completed = true
has_worked _ = false

try_transition_works :
    (to : TaskStatus) (now : ℕ) (t : Task)
    → has_worked t.status ≡ false
    → (same_status to running || same_status to aggregating ≡ true)
      ⊎ (has_worked (try_transition to now t).status ≡ false)
unfolding try_transition has_worked
try_transition_works to now t h = ground arith

-- A task that has done no work is completed only through a request to run it or to aggregate its
-- sub-tasks.
pub completed_needs_work :
    (es : List (TaskStatus × ℕ)) (t : Task)
    → has_worked t.status ≡ false
    → (run_transitions es t).status ≡ completed
    → (requested running es || requested aggregating es) ≡ true
unfolding run_transitions requested has_worked
completed_needs_work [] t h e = ground arith
completed_needs_work ((to, now) ∷ es) t h e = elim (try_transition_works to now t h) [
  | inl p ↦ ground arith
  | inr q ↦ ground (arith, completed_needs_work es (try_transition to now t) q e)
]

-- A way to completion from each status.
unfoldable pub completion_path : TaskStatus → List TaskStatus
completion_path created = queued ∷ assigned ∷ running ∷ completed ∷ []
completion_path queued = assigned ∷ running ∷ completed ∷ []
completion_path assigned = running ∷ completed ∷ []
completion_path running = completed ∷ []
completion_path paused = running ∷ completed ∷ []
completion_path blocked = queued ∷ assigned ∷ running ∷ completed ∷ []
completion_path recovering = queued ∷ assigned ∷ running ∷ completed ∷ []
completion_path aggregating = completed ∷ []
completion_path failed = queued ∷ assigned ∷ running ∷ completed ∷ []
completion_path escalated = queued ∷ assigned ∷ running ∷ completed ∷ []
completion_path _ = []

at_time : ℕ → List TaskStatus → List (TaskStatus × ℕ)
at_time now [] = []
at_time now (s ∷ ss) = (s, now) ∷ at_time now ss

path_completes :
    (s : TaskStatus) (now : ℕ) (t : Task)
    → t.status ≡ s
    → s ≢ cancelled
    → (run_transitions (at_time now (completion_path s)) t).status ≡ completed
unfolding run_transitions completion_path at_time try_transition
path_completes s now t e h = ground arith

-- From every status but cancelled a task can still be completed by some history of requests.
pub can_complete :
    (now : ℕ) (t : Task)
    → t.status ≢ cancelled
    → (es : List (TaskStatus × ℕ)) × ((run_transitions es t).status ≡ completed)
can_complete now t h =
    (at_time now (completion_path t.status), path_completes t.status now t refl h)

pub transition-status :
    (to : TaskStatus) (now : ℕ) (t u : Task) → transition to now t ≡ some u → u.status ≡ to
unfolding transition
transition-status to now t u e = ground arith

-- A running task is not assigned again.
pub not_running_of_assigned :
    (now : ℕ) (t u : Task) → transition assigned now t ≡ some u → t.status ≢ running
unfolding transition
not_running_of_assigned now t u e = ground arith
