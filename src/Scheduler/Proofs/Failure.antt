-- ===== src/Scheduler/Proofs/Failure.antt =====
-- Reports of failure: reassignment, termination, escalation (pkg/reef/server/scheduler.go).
use reef.Prelude.{
  ℕ, ◌+◌, ◌≡◌, refl, ap, ◌∙◌, false, not, List, ◌++◌, Option, none, some, String, arith, ◌==◌,
  lookup, update, if◌then◌else◌,
}
use reef.Task.Status.{TaskStatus, running, failed, queued, escalated, same_status, is_terminal}
use reef.Task.{Task, TaskResult, TaskError, AttemptRecord, try_transition}
use reef.Registry.{decrement_load}
use reef.Queue.Interface.{QueueOps}
use reef.Scheduler.{
  Scheduler, Event, ok, with_task-some, set_task, release_client, notify_changed, notify_result,
  emit,
}
use reef.Scheduler.Reports.{
  attempts_of_failure, failed_task, EscalationDecision, reassign, terminate, to_admin, escalate,
  after_failure, decide_failure, failed_at, handle_task_failed,
}

-- How a decision leaves the task that failed as `t`.
unfoldable pub decided : EscalationDecision → Task → Task
decided reassign t = record t {
  status = queued;
  escalation_count = t.escalation_count + 1;
  assigned_client = "";
}
decided terminate t = t
decided to_admin t = record t { status = escalated }

-- The running task `t` with its failure recorded.
abbrev pub recorded : ℕ → TaskError → List AttemptRecord → Task → Task
recorded now e attempts t = record t {
  status = failed;
  error = some e;
  attempt_history = t.attempt_history ++ attempts_of_failure now t e attempts;
  completed_at = some now;
}

fail_running :
    (now : ℕ) (t : Task)
    → t.status ≡ running
    → try_transition failed now t ≡ record t { status = failed; completed_at = some now }
unfolding try_transition
fail_running now t h = ground arith

failed_task_running :
    (now : ℕ) (t : Task) (e : TaskError) (attempts : List AttemptRecord)
    → t.status ≡ running
    → failed_task now t e attempts ≡ recorded now e attempts t
unfolding failed_task
failed_task_running now t e attempts h =
    let u : Task = record t {
      error = some e;
      attempt_history = t.attempt_history ++ attempts_of_failure now t e attempts;
    } in
    fail_running now u h

running_tests :
    (st : TaskStatus)
    → st ≡ running
    → (is_terminal st ≡ false) × (not (same_status st running) ≡ false)
unfolding is_terminal same_status
running_tests st e = ground arith

requeue_failed :
    (now : ℕ) (t : Task)
    → t.status ≡ failed
    → try_transition queued now t ≡ record t { status = queued }
unfolding try_transition
requeue_failed now t h = ground arith

escalate_failed :
    (now : ℕ) (t : Task)
    → t.status ≡ failed
    → try_transition escalated now t ≡ record t { status = escalated }
unfolding try_transition
escalate_failed now t h = ground arith

update_self : (h : ℕ → Task) (r : ℕ) (t : Task) → update h r t r ≡ t
update_self h r t = ground arith

update_twice :
    (h : ℕ → Task) (r : ℕ) (t u : Task) (x : ℕ)
    → update (update h r t) r u x ≡ (if r == x then update (update h r t) r u r else h x)
update_twice h r t u x = ground arith

-- What the queue holds after a decision.
abbrev pub requeued {ℓ} : {Q : Type ℓ} → EscalationDecision → Q → Q → Q
requeued reassign with_task without = with_task
requeued _ with_task without = without

module _ {Q : Type 0} (ops : QueueOps Q) where
  -- The state after a failure of the running task `t` and the decision `d`: the failure is on the
  -- task, one slot of its client is released, and only a reassigned task is offered to the queue.
  pub record IsDecided (now r : ℕ) (e : TaskError) (attempts : List AttemptRecord)
      (d : EscalationDecision) (s s' : Scheduler Q) : Type 0 where
    pub task : s'.store r ≡ decided d (recorded now e attempts (s.store r))
    pub others : (x : ℕ) → s'.store x ≡ (if r == x then s'.store r else s.store x)
    pub released : s'.registry ≡ (decrement_load (s.store r).assigned_client s.registry).0
    pub queued_if : s'.queue ≡ requeued d (ops.enqueue s'.store r s.queue).0 s.queue
    pub index_same : s'.tasks ≡ s.tasks

  -- The state in which the decision is made.
  abbrev pub undecided : ℕ → ℕ → TaskError → List AttemptRecord → Scheduler Q → Scheduler Q
  undecided now r e attempts s =
      set_task r (recorded now e attempts (s.store r))
        (release_client (s.store r).assigned_client s)

  decided_as :
      (now r : ℕ) (e : TaskError) (t : Task) (d : EscalationDecision) (s : Scheduler Q)
      → escalate s t ≡ some d
      → decide_failure ops now r e t s ≡ (after_failure ops now r t e d s, ok)
  unfolding decide_failure
  decided_as now r e t d s p = rw (p, decide_failure) refl

  record SameButEvents (s t : Scheduler Q) : Type 0 where
    store_same : t.store ≡ s.store
    registry_same : t.registry ≡ s.registry
    queue_same : t.queue ≡ s.queue
    index_same : t.tasks ≡ s.tasks

  notified :
      (r : ℕ) (result : Option TaskResult) (e : Option TaskError) (s : Scheduler Q)
      → SameButEvents s (notify_result r result e (notify_changed r s))
  notified r result e s = record {
    store_same = ground arith;
    registry_same = ground arith;
    queue_same = ground arith;
    index_same = ground arith;
  }

  -- An event more or less makes no difference.
  emitted : {ev : Event} {s t : Scheduler Q} → SameButEvents (emit ev s) t → SameButEvents s t
  emitted same = record {
    store_same = same.store_same;
    registry_same = same.registry_same;
    queue_same = same.queue_same;
    index_same = same.index_same;
  }

  -- A state that is as decided, up to the events, is as decided.
  IsDecided-notified :
      (now r : ℕ) (e : TaskError) (attempts : List AttemptRecord) (d : EscalationDecision)
      (s t u : Scheduler Q)
      → IsDecided now r e attempts d s t
      → SameButEvents t u
      → IsDecided now r e attempts d s u
  IsDecided-notified now r e attempts d s t u v same = record {
    task = ap (λ h. h r) same.store_same ∙ v.task;
    others = λ x. rw same.store_same (v.others x);
    released = same.registry_same ∙ v.released;
    queued_if = rw same.store_same (same.queue_same ∙ v.queued_if);
    index_same = same.index_same ∙ v.index_same;
  }

  after_failure-IsDecided :
      (now r : ℕ) (e : TaskError) (attempts : List AttemptRecord) (d : EscalationDecision)
      (s : Scheduler Q)
      → IsDecided now r e attempts d s (
          after_failure ops now r
            (recorded now e attempts (s.store r))
            e
            d
            (undecided now r e attempts s))
  unfolding after_failure decided
  after_failure-IsDecided now r e attempts reassign s =
      let t : Task = recorded now e attempts (s.store r) in
      let u : Task = record t { escalation_count = t.escalation_count + 1; assigned_client = "" } in
      let base : Scheduler Q = undecided now r e attempts s in
      let h : (ℕ → Task) = update base.store r (try_transition queued now u) in
      IsDecided-notified now r e attempts reassign s
        (record base { store = h; queue = (ops.enqueue h r s.queue).0 }) _
        (record {
          task = update_self base.store r (try_transition queued now u) ∙ requeue_failed now u refl;
          others = λ x. update_twice s.store r t (try_transition queued now u) x;
          released = refl;
          queued_if = refl;
          index_same = refl;
        })
        (emitted (notified r none (some e) _))
  after_failure-IsDecided now r e attempts terminate s =
      let t : Task = recorded now e attempts (s.store r) in
      let base : Scheduler Q = undecided now r e attempts s in
      IsDecided-notified now r e attempts terminate s
        (record base { store = update base.store r t }) _
        (record {
          task = update_self base.store r t;
          others = λ x. update_twice s.store r t t x;
          released = refl;
          queued_if = refl;
          index_same = refl;
        })
        (notified r none (some e) _)
  after_failure-IsDecided now r e attempts to_admin s =
      let t : Task = recorded now e attempts (s.store r) in
      let base : Scheduler Q = undecided now r e attempts s in
      let h : (ℕ → Task) = update base.store r (try_transition escalated now t) in
      IsDecided-notified now r e attempts to_admin s (record base { store = h }) _
        (record {
          task =
              update_self base.store r (try_transition escalated now t)
              ∙ escalate_failed now t refl;
          others = λ x. update_twice s.store r t (try_transition escalated now t) x;
          released = refl;
          queued_if = refl;
          index_same = refl;
        })
        (emitted (notified r none (some e) _))

  pub failed_at_running :
      (now r : ℕ) (e : TaskError) (attempts : List AttemptRecord) (s : Scheduler Q)
      → (s.store r).status ≡ running
      → failed_at ops now r e attempts s
        ≡ decide_failure ops now r e
            (recorded now e attempts (s.store r))
            (undecided now r e attempts s)
  unfolding failed_at
  failed_at_running now r e attempts s run =
      let (a, b) = running_tests (s.store r).status run in
      rw a (
        rw b (
          ap
            (λ u.
              decide_failure ops now r e u
                (set_task r u (release_client (s.store r).assigned_client s)))
            (failed_task_running now (s.store r) e attempts run)))

  failed_at_cases :
      (now r : ℕ) (e : TaskError) (attempts : List AttemptRecord) (d : EscalationDecision)
      (s : Scheduler Q)
      → (s.store r).status ≡ running
      → escalate (undecided now r e attempts s) (recorded now e attempts (s.store r)) ≡ some d
      → failed_at ops now r e attempts s ≡ (
        after_failure ops now r
            (recorded now e attempts (s.store r))
            e
            d
            (undecided now r e attempts s),
        ok,
      )
  failed_at_cases now r e attempts d s run p =
      failed_at_running now r e attempts s run
      ∙ decided_as now r e (recorded now e attempts (s.store r)) d (undecided now r e attempts s) p

  -- A failure report for a running task, for which the escalation comes to a decision, is
  -- accepted and recorded, releases one slot of the client, and ends as decided: the task gets
  -- the status queued and is offered to the queue with Enqueue, whose refusal is ignored, or it stays
  -- failed, or it is escalated; the last two leave the queue as it was.
  pub handle_task_failed-IsDecided :
      (now r : ℕ) (id : String) (e : TaskError) (attempts : List AttemptRecord)
      (d : EscalationDecision) (s : Scheduler Q)
      → lookup id s.tasks ≡ some r
      → (s.store r).status ≡ running
      → escalate (undecided now r e attempts s) (recorded now e attempts (s.store r)) ≡ some d
      → (s' : Scheduler Q) × (handle_task_failed ops now id e attempts s ≡ (s', ok))
        × IsDecided now r e attempts d s s'
  unfolding handle_task_failed
  handle_task_failed-IsDecided now r id e attempts d s found run p = (
    after_failure ops now r (recorded now e attempts (s.store r)) e d
        (undecided now r e attempts s),
    with_task-some id r s (λ x. failed_at ops now x e attempts s) found
        ∙ failed_at_cases now r e attempts d s run p,
    after_failure-IsDecided now r e attempts d s,
  )
