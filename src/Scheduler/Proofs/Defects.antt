-- ===== src/Scheduler/Proofs/Defects.antt =====
-- Behaviour of the scheduler that its comments do not promise (pkg/reef/server/scheduler.go).
use reef.Prelude.{
  ℕ, suc, ◌≡◌, refl, ap, ◌∙◌, Bool, true, false, not, List, [], Option, none, some, String, arith,
  lookup, if◌then◌else◌,
}
use reef.Task.Status.{TaskStatus, running, paused, cancelled, queued, same_status, is_terminal}
use reef.Task.{Task, TaskResult, TaskError, AttemptRecord, transition, try_transition}
use reef.Client.{ClientInfo}
use reef.Queue.Interface.{QueueOps}
use reef.Scheduler.{Scheduler, ok, err, unexpected_state, with_task-some}
use reef.Scheduler.Matching.{exclude_id, match_client}
use reef.Scheduler.Dispatch.{dispatch, settle, round, dispatch_loop, try_dispatch, drop_head}
use reef.Scheduler.Reports.{handle_task_completed, failed_at, handle_task_failed}
use reef.Scheduler.Control.{
  resumed_at, handle_task_resumed, cancelled_at, handle_task_cancelled, if_running, timed_out_at,
  handle_task_timed_out,
}
use reef.Scheduler.Proofs.Completion.{Completable, completed_refused}

-- A paused task is not queued by a transition, and not assigned.
paused_moves :
    (now : ℕ) (t : Task)
    → t.status ≡ paused
    → (try_transition queued now t ≡ t) × (transition TaskStatus.assigned now t ≡ none)
unfolding transition try_transition
paused_moves now t e = (ground arith, ground arith)

cancel_running :
    (now : ℕ) (t : Task)
    → t.status ≡ running
    → transition cancelled now t ≡ some (record t { status = cancelled; completed_at = some now })
unfolding transition
cancel_running now t e = ground arith

cancelled_tests : (st : TaskStatus) → st ≡ cancelled → (¬ Completable st) × (is_terminal st ≡ true)
unfolding is_terminal
cancelled_tests st e = (λ c. ground arith, ground arith)

is_paused : (st : TaskStatus) → st ≡ paused → same_status st paused ≡ true
unfolding same_status
is_paused st e = ground arith

module _ {Q : Type 0} (ops : QueueOps Q) where
  resumed_found :
      (now r : ℕ) (id : String) (s : Scheduler Q)
      → lookup id s.tasks ≡ some r
      → handle_task_resumed ops now id s ≡ resumed_at ops now r s
  unfolding handle_task_resumed
  resumed_found now r id s found = with_task-some id r s (λ x. resumed_at ops now x s) found

  resumed_at_paused :
      (now r : ℕ) (s : Scheduler Q)
      → (s.store r).status ≡ paused
      → let (s', reply) = resumed_at ops now r s in
        (reply ≡ ok)
        × ((s'.store r).status ≡ paused)
        × (s'.queue ≡ (ops.enqueue s'.store r s.queue).0)
  unfolding resumed_at
  resumed_at_paused now r s e =
      let test : same_status (s.store r).status paused ≡ true = is_paused (s.store r).status e in
      rw test (rw (paused_moves now (s.store r) e).0 (ground arith, ground arith, ground arith))

  -- Resuming a paused task does not make it queued: it stays paused, while its pointer is offered to
  -- the queue with Enqueue, whose refusal is ignored, and the caller is told that all is well.
  pub resume_stays_paused :
      (now r : ℕ) (id : String) (s : Scheduler Q)
      → lookup id s.tasks ≡ some r
      → (s.store r).status ≡ paused
      → let (s', reply) = handle_task_resumed ops now id s in
        (reply ≡ ok)
        × ((s'.store r).status ≡ paused)
        × (s'.queue ≡ (ops.enqueue s'.store r s.queue).0)
  resume_stays_paused now r id s found e =
      rw (resumed_found now r id s found) (resumed_at_paused now r s e)

  dispatch_paused :
      (send : Option (Task → String → Bool)) (now r : ℕ) (c : ClientInfo) (s : Scheduler Q)
      → (s.store r).status ≡ paused
      → dispatch send now r c s ≡ (s, false)
  unfolding dispatch
  dispatch_paused send now r c s e = rw ((paused_moves now (s.store r) e).1, dispatch) refl

  settled :
      (r : ℕ) (s : Scheduler Q)
      → ◌≡◌ {A = Scheduler Q × List ℕ × Bool}
          ((settle ops r (s, false)).0, [], (settle ops r (s, false)).1)
          (record s { queue = (ops.enqueue s.store r s.queue).0 }, [], false)
  unfolding settle
  settled r s = refl

  loop_stopped :
      (fuel : ℕ) (send : Option (Task → String → Bool)) (now r : ℕ) (s s' : Scheduler Q)
      → ops.peek s.queue ≡ some r
      → round ops send now r [] s ≡ (s', [], false)
      → dispatch_loop (suc fuel) ops send now [] s ≡ some (s', [])
  unfolding dispatch_loop
  loop_stopped fuel send now r s s' head stop =
      rw (head, dispatch_loop)
        (ap
          (λ p. elim p.2 [
            | true ↦ dispatch_loop fuel ops send now p.1 p.0
            | false ↦ some (p.0, p.1)
          ])
          stop)

  -- A paused task at the head of the queue that some client could take stops `TryDispatch`: it is
  -- put back, nothing is assigned, and no task behind it is looked at.
  pub paused_head_blocks :
      (send : Option (Task → String → Bool)) (now r : ℕ) (c : ClientInfo) (s : Scheduler Q)
      → ops.peek s.queue ≡ some r
      → (s.store r).status ≡ paused
      → match_client s (s.store r) (exclude_id (s.store r)) ≡ some c
      → try_dispatch ops send now s
        ≡ some (record s { queue = (ops.enqueue s.store r (ops.dequeue s.queue).1).0 })
  unfolding round try_dispatch
  paused_head_blocks send now r c s head e m =
      let s' : Scheduler Q = record s {
        queue = (ops.enqueue s.store r (ops.dequeue s.queue).1).0;
      } in
      let stop : round ops send now r [] s ≡ (s', [], false) =
        rw (m, round)
          (ap (λ p. ((settle ops r p).0, [], (settle ops r p).1))
              (dispatch_paused send now r c (drop_head ops s) e)
            ∙ settled r (drop_head ops s)) in
      rw (loop_stopped (ops.len s.queue) send now r s s' head stop, try_dispatch) refl

  cancelled_found :
      (now r : ℕ) (id : String) (s : Scheduler Q)
      → lookup id s.tasks ≡ some r
      → handle_task_cancelled now id s ≡ cancelled_at now r s
  unfolding handle_task_cancelled
  cancelled_found now r id s found = with_task-some id r s (λ x. cancelled_at now x s) found

  cancelled_at_running :
      (now r : ℕ) (s : Scheduler Q)
      → (s.store r).status ≡ running
      → let (s', reply) = cancelled_at now r s in
        (reply ≡ ok)
        × ((s'.store r).status ≡ cancelled)
        × (s'.registry ≡ s.registry)
        × (s'.tasks ≡ s.tasks)
  unfolding cancelled_at
  cancelled_at_running now r s run =
      rw (cancel_running now (s.store r) run, cancelled_at)
        (ground arith, ground arith, ground arith, ground arith)

  completed_ignored :
      (now r : ℕ) (id : String) (result : TaskResult) (s : Scheduler Q)
      → lookup id s.tasks ≡ some r
      → (s.store r).status ≡ cancelled
      → handle_task_completed now id result s ≡ (s, ok)
  completed_ignored now r id result s found c =
      completed_refused now r id result s found (cancelled_tests (s.store r).status c).0
      ∙ rw (cancelled_tests (s.store r).status c).1 refl

  failed_ignored :
      (now r : ℕ) (id : String) (e : TaskError) (attempts : List AttemptRecord) (s : Scheduler Q)
      → lookup id s.tasks ≡ some r
      → (s.store r).status ≡ cancelled
      → handle_task_failed ops now id e attempts s ≡ (s, ok)
  unfolding handle_task_failed failed_at
  failed_ignored now r id e attempts s found c =
      with_task-some id r s (λ x. failed_at ops now x e attempts s) found
      ∙ rw (cancelled_tests (s.store r).status c).1 refl

  timed_out_ignored :
      (now r : ℕ) (id elapsed : String) (s : Scheduler Q)
      → lookup id s.tasks ≡ some r
      → (s.store r).status ≡ cancelled
      → handle_task_timed_out now id elapsed s ≡ (s, ok)
  unfolding handle_task_timed_out if_running
  timed_out_ignored now r id elapsed s found c =
      with_task-some id r s
        (λ x.
          if is_terminal (s.store x).status
          then (s, ok)
          else if not (same_status (s.store x).status running)
          then (s, err unexpected_state)
          else timed_out_at now elapsed x s)
        found
      ∙ rw (cancelled_tests (s.store r).status c).1 refl

  -- Cancelling a running task succeeds and releases no slot of its client; from then on completions,
  -- failures and timeouts reported for it are accepted without effect, so the slot is never released.
  pub cancel_keeps_slot :
      (now later r : ℕ) (id elapsed : String) (result : TaskResult) (e : TaskError)
      (attempts : List AttemptRecord) (s : Scheduler Q)
      → lookup id s.tasks ≡ some r
      → (s.store r).status ≡ running
      → let (s', reply) = handle_task_cancelled now id s in
        (reply ≡ ok)
        × ((s'.store r).status ≡ cancelled)
        × (s'.registry ≡ s.registry)
        × (handle_task_completed later id result s' ≡ (s', ok))
        × (handle_task_failed ops later id e attempts s' ≡ (s', ok))
        × (handle_task_timed_out later id elapsed s' ≡ (s', ok))
  cancel_keeps_slot now later r id elapsed result e attempts s found run =
      let (replied, status, registry, index) = cancelled_at_running now r s run in
      let s' : Scheduler Q = (cancelled_at now r s).0 in
      let known : lookup id s'.tasks ≡ some r = ap (lookup id) index ∙ found in
      rw (cancelled_found now r id s found) (
        replied,
        status,
        registry,
        completed_ignored later r id result s' known status,
        failed_ignored later r id e attempts s' known status,
        timed_out_ignored later r id elapsed s' known status,
      )
