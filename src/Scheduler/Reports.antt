-- ===== src/Scheduler/Reports.antt =====
-- pkg/reef/server/scheduler.go: the handlers of what clients and scanners report of a running task.
-- `go s.TryDispatch()` is an event; the goroutine is a later step.
use reef.Prelude.{
  ℕ, ◌+◌, not, ◌||◌, List, [], ◌∷◌, ◌++◌, Option, none, some, String, str_eq, length, leb,
  if◌then◌else◌,
}
use reef.Task.Status.{TaskStatus, same_status, is_terminal}
use reef.Task.{Task, TaskResult, TaskError, AttemptRecord, transition, try_transition}
use reef.Queue.Interface.{QueueOps}
use reef.Client.{ClientInfo}
use reef.Scheduler.{
  Scheduler, Reply, ok, err, deadlock, unexpected_state, invalid_transition, go_try_dispatch, alert,
  set_task, emit, notify_changed, notify_result, release_client, with_task,
}
use reef.Scheduler.Matching.{held, match_client_in}
use reef.Scheduler.Dispatch.{enqueue_task}

-- `task.AssignedClient = ""`
abbrev cleared : Task → Task
cleared t = record t { assigned_client = "" }

-- Late completion: `Queued → Completed` is tried, and forced where it is refused.
unfoldable pub late_completion : ℕ → TaskResult → Task → Task
late_completion now result t =
    let t' = record t { result = some result; error = none; status = TaskStatus.queued } in
    elim (transition TaskStatus.completed now t') [
      | none ↦ record t' { status = TaskStatus.completed; completed_at = some now }
      | some u ↦ u
    ]

module _ {Q : Type 0} where
  -- What both successful paths of `HandleTaskCompleted` do last.
  unfoldable pub complete : ℕ → TaskResult → Task → Scheduler Q → Scheduler Q
  complete r result t s =
      notify_result r (some result) none
        (notify_changed r (set_task r (cleared t) (release_client t.assigned_client s)))

  unfoldable pub completed_at : ℕ → ℕ → TaskResult → Scheduler Q → Scheduler Q × Reply
  unfolding complete late_completion
  completed_at now r result s =
      let t = s.store r in
      if same_status t.status TaskStatus.running
      then (elim (transition TaskStatus.completed now (record t { result = some result })) [
        | none ↦ (set_task r (record t { result = some result }) s, err invalid_transition)
        | some u ↦ (emit go_try_dispatch (complete r result u s), ok)
      ])
      else if same_status t.status TaskStatus.failed || same_status t.status TaskStatus.paused
      then (complete r result (late_completion now result t) s, ok)
      else if is_terminal t.status
      then (s, ok)
      else (s, err unexpected_state)

  unfoldable pub handle_task_completed : ℕ → String → TaskResult → Scheduler Q → Scheduler Q × Reply
  unfolding with_task completed_at
  handle_task_completed now id result s = with_task id s (λ r. completed_at now r result s)

-- `if attemptHistory[i].ClientID == "" { attemptHistory[i].ClientID = failedClient }`
unfoldable pub fill_client : String → List AttemptRecord → List AttemptRecord
fill_client client [] = []
fill_client client (a ∷ rest) =
    (if str_eq a.client_id "" then record a { client_id = client } else a) ∷ fill_client client rest

-- The attempts to record for a failure.
unfoldable pub attempts_of_failure : ℕ → Task → TaskError → List AttemptRecord → List AttemptRecord
unfolding fill_client
attempts_of_failure now t e [] =
    record {
      attempt_number = length t.attempt_history + 1;
      started_at = now;
      ended_at = now;
      status = "failed";
      error_message = e.message;
      client_id = t.assigned_client;
    }
    ∷ []
attempts_of_failure now t e (a ∷ rest) = fill_client t.assigned_client (a ∷ rest)

-- The task as it is after the failure, before the decision.
unfoldable pub failed_task : ℕ → Task → TaskError → List AttemptRecord → Task
unfolding attempts_of_failure
failed_task now t e attempts = try_transition TaskStatus.failed now (record t {
  error = some e;
  attempt_history = t.attempt_history ++ attempts_of_failure now t e attempts;
})

pub data EscalationDecision : Type 0 where
  reassign terminate to_admin : EscalationDecision

-- `EscalationReassign` for a client, `EscalationTerminate` for none
abbrev pub answer : Option (Option ClientInfo) → Option EscalationDecision
answer none = none
answer (some none) = some terminate
answer (some (some c)) = some reassign

module _ {Q : Type 0} where
  -- `escalate`, whose caller holds the lock: `none` is a call that never returns.
  unfoldable pub escalate : Scheduler Q → Task → Option EscalationDecision
  unfolding match_client_in
  escalate s t =
      if leb s.max_escalations t.escalation_count
      then some to_admin
      else answer (match_client_in held s t t.assigned_client)

  -- The `switch` on the decision and what follows it, for the failed task `t`.
  unfoldable pub after_failure :
      QueueOps Q → ℕ → ℕ → Task → TaskError → EscalationDecision → Scheduler Q → Scheduler Q
  after_failure ops now r t e reassign s =
      let t' = record t { escalation_count = t.escalation_count + 1; assigned_client = "" } in
      let s' = set_task r (try_transition TaskStatus.queued now t') s in
      notify_result r none (some e)
        (notify_changed r (emit go_try_dispatch (enqueue_task ops r s').0))
  after_failure ops now r t e terminate s =
      notify_result r none (some e) (notify_changed r (set_task r t s))
  after_failure ops now r t e to_admin s =
      let t' = try_transition TaskStatus.escalated now t in
      notify_result r none (some e) (notify_changed r (emit (alert t') (set_task r t' s)))

  -- `escalate` and the `switch` on its answer.
  unfoldable pub decide_failure :
      QueueOps Q → ℕ → ℕ → TaskError → Task → Scheduler Q → Scheduler Q × Reply
  unfolding after_failure
  decide_failure ops now r e t s = elim (escalate s t) [
    | none ↦ (s, deadlock)
    | some decision ↦ (after_failure ops now r t e decision s, ok)
  ]

  unfoldable pub failed_at :
      QueueOps Q → ℕ → ℕ → TaskError → List AttemptRecord → Scheduler Q → Scheduler Q × Reply
  unfolding failed_task decide_failure
  failed_at ops now r e attempts s =
      let t = s.store r in
      if is_terminal t.status
      then (s, ok)
      else if not (same_status t.status TaskStatus.running)
      then (s, err unexpected_state)
      else (let u = failed_task now t e attempts in
          decide_failure ops now r e u (set_task r u (release_client t.assigned_client s)))

  unfoldable pub handle_task_failed :
      QueueOps Q → ℕ → String → TaskError → List AttemptRecord → Scheduler Q → Scheduler Q × Reply
  unfolding with_task failed_at
  handle_task_failed ops now id e attempts s =
      with_task id s (λ r. failed_at ops now r e attempts s)
