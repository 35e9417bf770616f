-- ===== src/Scheduler/Control.antt =====
-- pkg/reef/server/scheduler.go: timeouts, pauses, cancellation, resumption and progress.
use reef.Prelude.{ℕ, not, none, some, String, str_append, lookup, if◌then◌else◌}
use reef.Prelude.Int.{ℤ}
use reef.Task.Status.{TaskStatus, same_status, is_terminal}
use reef.Task.{TaskError, transition, try_transition}
use reef.Queue.Interface.{QueueOps}
use reef.Scheduler.{
  Scheduler, Reply, ok, err, unexpected_state, invalid_transition, go_try_dispatch, set_task, emit,
  notify_changed, notify_result, release_client, with_task,
}
use reef.Scheduler.Dispatch.{enqueue_task}

-- The error of a timeout; `elapsed` is the duration as the library prints it.
abbrev pub timeout_error : String → TaskError
timeout_error elapsed = record {
  type = "timeout";
  message = "task exceeded timeout";
  detail = str_append "elapsed: " elapsed;
}

module _ {Q : Type 0} where
  -- The guards that the handlers for a running task share.
  unfoldable pub if_running : String → Scheduler Q → (ℕ → Scheduler Q × Reply) → Scheduler Q × Reply
  unfolding with_task
  if_running id s body = with_task id s (λ r.
      if is_terminal (s.store r).status
      then (s, ok)
      else if not (same_status (s.store r).status TaskStatus.running)
      then (s, err unexpected_state)
      else body r)

  unfoldable pub timed_out_at : ℕ → String → ℕ → Scheduler Q → Scheduler Q × Reply
  timed_out_at now elapsed r s =
      let t = s.store r in
      let e = timeout_error elapsed in
      let u = try_transition TaskStatus.failed now (record t { error = some e }) in
      let s' =
        set_task r (record u { assigned_client = "" }) (release_client t.assigned_client s) in
      (emit go_try_dispatch (notify_result r none (some e) (notify_changed r s')), ok)

  unfoldable pub handle_task_timed_out : ℕ → String → String → Scheduler Q → Scheduler Q × Reply
  unfolding if_running timed_out_at
  handle_task_timed_out now id elapsed s = if_running id s (λ r. timed_out_at now elapsed r s)

  unfoldable pub paused_at : ℕ → String → ℕ → Scheduler Q → Scheduler Q × Reply
  paused_at now reason r s =
      let u = try_transition TaskStatus.paused now (s.store r) in
      (notify_changed r (set_task r (record u { pause_reason = reason }) s), ok)

  unfoldable pub handle_task_paused : ℕ → String → String → Scheduler Q → Scheduler Q × Reply
  unfolding if_running paused_at
  handle_task_paused now id reason s = if_running id s (λ r. paused_at now reason r s)

  unfoldable pub handle_client_available : String → Scheduler Q → Scheduler Q
  handle_client_available client_id s = emit go_try_dispatch s

  unfoldable pub handle_task_progress : String → ℤ → Scheduler Q → Scheduler Q
  handle_task_progress id percent s = elim (lookup id s.tasks) [
    | none ↦ s
    | some r ↦ notify_changed r (set_task r (record (s.store r) { progress_percent = percent }) s)
  ]

  unfoldable pub cancelled_at : ℕ → ℕ → Scheduler Q → Scheduler Q × Reply
  cancelled_at now r s = elim (transition TaskStatus.cancelled now (s.store r)) [
    | none ↦ (s, err invalid_transition)
    | some t ↦ (notify_changed r (set_task r t s), ok)
  ]

  unfoldable pub handle_task_cancelled : ℕ → String → Scheduler Q → Scheduler Q × Reply
  unfolding with_task cancelled_at
  handle_task_cancelled now id s = with_task id s (λ r. cancelled_at now r s)

  -- The refusals of the transition and of the queue are both dropped.
  unfoldable pub resumed_at : QueueOps Q → ℕ → ℕ → Scheduler Q → Scheduler Q × Reply
  resumed_at ops now r s =
      let t = s.store r in
      if not (same_status t.status TaskStatus.paused)
      then (s, err unexpected_state)
      else (let u = record (try_transition TaskStatus.queued now t) { pause_reason = "" } in
          let s' = notify_changed r (set_task r u s) in
          (emit go_try_dispatch (enqueue_task ops r s').0, ok))

  unfoldable pub handle_task_resumed : QueueOps Q → ℕ → String → Scheduler Q → Scheduler Q × Reply
  unfolding with_task resumed_at
  handle_task_resumed ops now id s = with_task id s (λ r. resumed_at ops now r s)
