-- ===== src/Scheduler/Proofs/Completion.antt =====
-- Reports of completion (pkg/reef/server/scheduler.go).
use reef.Prelude.{
  ℕ, ◌≡◌, refl, ap, ◌∙◌, ◌⊎◌, inl, inr, true, false, ◌||◌, none, some, String, arith, ◌==◌, lookup,
  if◌then◌else◌, Bool-cases,
}
use reef.Task.Status.{TaskStatus, running, paused, completed, failed, same_status, is_terminal}
use reef.Task.{transition, Task, TaskResult}
use reef.Registry.{decrement_load}
use reef.Scheduler.{
  Scheduler, with_task-some, with_task-none, emit, go_try_dispatch, ok, err, unexpected_state,
  not_found,
}
use reef.Scheduler.Reports.{complete, late_completion, completed_at, handle_task_completed}

-- A status in which a completion is taken: the task runs, or was given up too early.
abbrev pub Completable : TaskStatus → Type 0
Completable st = (st ≡ running) ⊎ (st ≡ failed) ⊎ (st ≡ paused)

-- The task `t`, completed at `now` with the result; a late report clears the error that was stored.
abbrev pub finished : ℕ → TaskResult → Task → Task
finished now result t = record t {
  status = completed;
  result = some result;
  completed_at = some now;
  error = if same_status t.status running then t.error else none;
}

early_tests :
    (st : TaskStatus)
    → ¬ Completable st
    → (same_status st running ≡ false) × ((same_status st failed || same_status st paused) ≡ false)
unfolding same_status
early_tests st n = ground arith

late_tests :
    (st : TaskStatus)
    → (st ≡ failed) ⊎ (st ≡ paused)
    → (same_status st running ≡ false) × ((same_status st failed || same_status st paused) ≡ true)
unfolding same_status
late_tests st e = ground arith

running_finishes :
    (now : ℕ) (result : TaskResult) (t : Task)
    → t.status ≡ running
    → transition completed now (record t { result = some result }) ≡ some (finished now result t)
unfolding transition same_status
running_finishes now result t e = ground arith

late_finishes :
    (now : ℕ) (result : TaskResult) (t : Task)
    → (t.status ≡ failed) ⊎ (t.status ≡ paused)
    → late_completion now result t ≡ finished now result t
unfolding late_completion transition
late_finishes now result t e = rw ((late_tests t.status e).0, finished) refl

module _ {Q : Type 0} where
  -- The task behind `r` is the old one, completed and with no client; the client that it had has
  -- one slot back; every other task and the rest of the scheduler but the events are as they were.
  pub record IsCompleted (now r : ℕ) (result : TaskResult) (s s' : Scheduler Q) : Type 0 where
    pub task : s'.store r ≡ record (finished now result (s.store r)) { assigned_client = "" }
    pub others : (x : ℕ) → s'.store x ≡ (if r == x then s'.store r else s.store x)
    pub rest : s' ≡ record s {
      registry = (decrement_load (s.store r).assigned_client s.registry).0;
      store = s'.store;
      events = s'.events;
    }

  complete-IsCompleted :
      (now r : ℕ) (result : TaskResult) (s : Scheduler Q)
      → IsCompleted now r result s (complete r result (finished now result (s.store r)) s)
  unfolding complete
  complete-IsCompleted now r result s = record {
    task = ground arith;
    others = λ x. ground arith;
    rest = ground arith;
  }

  completed_running :
      (now r : ℕ) (result : TaskResult) (u : Task) (s : Scheduler Q)
      → (s.store r).status ≡ running
      → transition completed now (record (s.store r) { result = some result }) ≡ some u
      → completed_at now r result s ≡ (emit go_try_dispatch (complete r result u s), ok)
  unfolding completed_at same_status
  completed_running now r result u s e p =
      let run : same_status (s.store r).status running ≡ true =
        ap (λ st. same_status st running) e in
      rw (run, completed_at) (rw p refl)

  completed_late :
      (now r : ℕ) (result : TaskResult) (s : Scheduler Q)
      → ((s.store r).status ≡ failed) ⊎ ((s.store r).status ≡ paused)
      → completed_at now r result s
        ≡ (complete r result (late_completion now result (s.store r)) s, ok)
  unfolding completed_at
  completed_late now r result s e =
      rw (late_tests (s.store r).status e).0 (rw (late_tests (s.store r).status e).1 refl)

  -- What the handler does with a completable task.
  completed_at_cases :
      (now r : ℕ) (result : TaskResult) (s : Scheduler Q)
      → Completable (s.store r).status
      → let s' = complete r result (finished now result (s.store r)) s in
        (completed_at now r result s ≡ (s', ok))
        ⊎ (completed_at now r result s ≡ (emit go_try_dispatch s', ok))
  completed_at_cases now r result s (inl e) =
      let t = s.store r in
      inr (
        completed_running now r result (finished now result t) s e
          (running_finishes now result t e))
  completed_at_cases now r result s (inr e) = inl (
      completed_late now r result s e
      ∙ ap (λ u. (complete r result u s, ok)) (late_finishes now result (s.store r) e))

  completed_at-IsCompleted :
      (now r : ℕ) (result : TaskResult) (s : Scheduler Q)
      → Completable (s.store r).status
      → IsCompleted now r result s (completed_at now r result s).0
        × ((completed_at now r result s).1 ≡ ok)
  completed_at-IsCompleted now r result s c =
      let done = complete-IsCompleted now r result s in
      elim (completed_at_cases now r result s c) [
        | inl p ↦ rw p (done, refl)
        | inr p ↦ rw p (
          record {
            task = done.task;
            others = done.others;
            rest =
                ap {A = Scheduler Q} {B = Scheduler Q}
                  (λ x. record x {
                    events =
                        (emit go_try_dispatch
                          (complete r result (finished now result (s.store r)) s)).events;
                  })
                  done.rest;
          },
          refl,
        )
      ]

  completed_found :
      (now r : ℕ) (id : String) (result : TaskResult) (s : Scheduler Q)
      → lookup id s.tasks ≡ some r
      → handle_task_completed now id result s ≡ completed_at now r result s
  unfolding handle_task_completed
  completed_found now r id result s e = with_task-some id r s (λ r. completed_at now r result s) e

  completed_at_refused :
      (now r : ℕ) (result : TaskResult) (s : Scheduler Q)
      → ¬ Completable (s.store r).status
      → completed_at now r result s
        ≡ (s, if is_terminal (s.store r).status then ok else err unexpected_state)
  unfolding completed_at
  completed_at_refused now r result s n =
      let (a, b) = early_tests (s.store r).status n in
      rw a (
        rw b (elim (Bool-cases (is_terminal (s.store r).status)) [
          | inl t ↦ rw t refl
          | inr t ↦ rw t refl
        ]))

  completed_at_again :
      (now r : ℕ) (result : TaskResult) (s : Scheduler Q)
      → (s.store r).status ≡ completed
      → completed_at now r result s ≡ (s, ok)
  unfolding completed_at same_status is_terminal
  completed_at_again now r result s e = rw (e, completed_at) refl

  -- A completion report for a running task completes it; one that comes late, when the task was
  -- already failed or paused, does so too, and clears its stored error. The result and the time are
  -- stored, the task loses its client, which has one slot back, and nothing else of the task and of
  -- the scheduler changes but the events. A second report is accepted and changes nothing.
  pub handle_task_completed-IsCompleted :
      (now later r : ℕ) (id : String) (result again : TaskResult) (s : Scheduler Q)
      → lookup id s.tasks ≡ some r
      → Completable (s.store r).status
      → let (s', reply) = handle_task_completed now id result s in
        (reply ≡ ok)
        × IsCompleted now r result s s'
        × (handle_task_completed later id again s' ≡ (s', ok))
  handle_task_completed-IsCompleted now later r id result again s found c =
      let (done, replied) = completed_at-IsCompleted now r result s c in
      let s' : Scheduler Q = (completed_at now r result s).0 in
      let known : lookup id s'.tasks ≡ some r = ap (λ x. lookup id x.tasks) done.rest ∙ found in
      let second : handle_task_completed later id again s' ≡ (s', ok) =
        completed_found later r id again s' known
        ∙ completed_at_again later r again s' (ap (λ t. t.status) done.task) in
      rw (completed_found now r id result s found) (replied, done, second)

  -- In every other status a completion report changes nothing: it is ignored for a task that is
  -- completed or cancelled, and refused with an error for one that was not started, is blocked, is
  -- aggregating or is escalated.
  pub completed_refused :
      (now r : ℕ) (id : String) (result : TaskResult) (s : Scheduler Q)
      → lookup id s.tasks ≡ some r
      → ¬ Completable (s.store r).status
      → handle_task_completed now id result s
        ≡ (s, if is_terminal (s.store r).status then ok else err unexpected_state)
  completed_refused now r id result s found n =
      completed_found now r id result s found ∙ completed_at_refused now r result s n

  -- A report for an unknown task changes nothing and is an error.
  pub completed_unknown :
      (now : ℕ) (id : String) (result : TaskResult) (s : Scheduler Q)
      → lookup id s.tasks ≡ none
      → handle_task_completed now id result s ≡ (s, err not_found)
  unfolding handle_task_completed
  completed_unknown now id result s e = with_task-none id s (λ r. completed_at now r result s) e
