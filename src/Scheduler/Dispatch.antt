-- ===== src/Scheduler/Dispatch.antt =====
-- pkg/reef/server/scheduler.go: assigning queued tasks to clients. `send` is the `onDispatch` hook,
-- if there is one: it hands the task to the client over the connection, and answers false where
-- the hook returns an error. `now` is the time of the step.
use reef.Prelude.{
  ℕ, zero, suc, Bool, true, false, not, List, [], ◌∷◌, ◌++◌, Option, none, some, String, update,
  if◌then◌else◌,
}
use reef.Task.Status.{TaskStatus, same_status}
use reef.Task.{Task, transition, try_transition}
use reef.Client.{ClientInfo}
use reef.Registry.{increment_load}
use reef.Queue.Interface.{QueueOps}
use reef.Scheduler.{
  Scheduler, Reply, ok, err, invalid_transition, enqueue_failed, set_task, release_client,
  register_task,
}
use reef.Scheduler.Matching.{exclude_id, match_client}

-- `if s.onDispatch != nil { s.onDispatch(task, client.ID) }`
abbrev pub sends : Option (Task → String → Bool) → Task → String → Bool
sends none t client = true
sends (some send) t client = send t client

module _ {Q : Type 0} where
  -- The part of `dispatch` behind the two transitions, with the task `t` now running.
  unfoldable pub hand_over :
      Option (Task → String → Bool) → ℕ → ℕ → Task → String → Scheduler Q → Scheduler Q × Bool
  hand_over send now r t client s =
      let t' = record t { assigned_client = client } in
      let s' = record s {
        store = update s.store r t';
        registry = (increment_load client s.registry).0;
      } in
      if sends send t' client then (s', true) else (
        set_task r (try_transition TaskStatus.queued now (record t' { assigned_client = "" }))
            (release_client client s'),
        false,
      )

  -- `dispatch`: false is the error. A transition that fails leaves what the one before it wrote.
  unfoldable pub dispatch :
      Option (Task → String → Bool) → ℕ → ℕ → ClientInfo → Scheduler Q → Scheduler Q × Bool
  unfolding hand_over
  dispatch send now r client s = elim (transition TaskStatus.assigned now (s.store r)) [
    | none ↦ (s, false)
    | some t ↦ elim (transition TaskStatus.running now t) [
      | none ↦ (set_task r t s, false)
      | some u ↦ hand_over send now r u client.id s
    ]
  ]

  abbrev pub enqueue_task : QueueOps Q → ℕ → Scheduler Q → Scheduler Q × Bool
  enqueue_task ops r s =
      let (q, accepted) = ops.enqueue s.store r s.queue in (record s { queue = q }, accepted)

  abbrev pub drop_head : QueueOps Q → Scheduler Q → Scheduler Q
  drop_head ops s = record s { queue = (ops.dequeue s.queue).1 }

  -- After a dispatch: a failed one puts the task back and stops the loop.
  unfoldable pub settle : QueueOps Q → ℕ → Scheduler Q × Bool → Scheduler Q × Bool
  settle ops r (s, true) = (s, true)
  settle ops r (s, false) = ((enqueue_task ops r s).0, false)

  -- One round of the loop for the task `r` at the head of the queue. The Boolean says whether the
  -- loop goes on, the list holds the unmatchable tasks, oldest first.
  unfoldable pub round :
      QueueOps Q
      → Option (Task → String → Bool)
      → ℕ
      → ℕ
      → List ℕ
      → Scheduler Q
      → Scheduler Q × List ℕ × Bool
  unfolding settle dispatch
  round ops send now r unmatchable s = elim (match_client s (s.store r) (exclude_id (s.store r))) [
    | none ↦ (drop_head ops s, unmatchable ++ r ∷ [], true)
    | some client ↦
        let (s', go) = settle ops r (dispatch send now r client (drop_head ops s)) in
        (s', unmatchable, go)
  ]

  -- The `for` loop. It ends when the queue is empty or a dispatch fails; `none` means that the fuel
  -- ran out.
  unfoldable pub dispatch_loop :
      ℕ
      → QueueOps Q
      → Option (Task → String → Bool)
      → ℕ
      → List ℕ
      → Scheduler Q
      → Option (Scheduler Q × List ℕ)
  unfolding round
  dispatch_loop zero ops send now unmatchable s = none
  dispatch_loop (suc fuel) ops send now unmatchable s = elim (ops.peek s.queue) [
    | none ↦ some (s, unmatchable)
    | some r ↦
        let (s', held, go) = round ops send now r unmatchable s in
        elim go [ true ↦ dispatch_loop fuel ops send now held s' | false ↦ some (s', held) ]
  ]

  -- The loop that puts the unmatchable tasks back; a refusal is ignored.
  unfoldable pub put_back : QueueOps Q → List ℕ → Scheduler Q → Scheduler Q
  put_back ops [] s = s
  put_back ops (r ∷ rs) s = put_back ops rs (enqueue_task ops r s).0

  -- `TryDispatch`, with fuel for every task of the queue.
  unfoldable pub try_dispatch :
      QueueOps Q → Option (Task → String → Bool) → ℕ → Scheduler Q → Option (Scheduler Q)
  unfolding dispatch_loop put_back
  try_dispatch ops send now s = elim (dispatch_loop (suc (ops.len s.queue)) ops send now [] s) [
    | none ↦ none
    | some (s', unmatchable) ↦ some (put_back ops unmatchable s')
  ]

  abbrev pub then_reply : Reply → Option (Scheduler Q) → Option (Scheduler Q × Reply)
  then_reply reply none = none
  then_reply reply (some s) = some (s, reply)

  -- The second half of `Submit`, with a queued task.
  unfoldable pub submit_queued :
      QueueOps Q
      → Option (Task → String → Bool)
      → ℕ
      → ℕ
      → Scheduler Q
      → Option (Scheduler Q × Reply)
  unfolding try_dispatch
  submit_queued ops send now r s =
      let (s', accepted) = enqueue_task ops r s in
      if accepted
      then then_reply ok (try_dispatch ops send now s')
      else some (s', err enqueue_failed)

  -- `Submit` of the new task behind `r`
  unfoldable pub submit :
      QueueOps Q
      → Option (Task → String → Bool)
      → ℕ
      → ℕ
      → Scheduler Q
      → Option (Scheduler Q × Reply)
  unfolding register_task submit_queued
  submit ops send now r s =
      let s' = register_task r s in
      if not (same_status (s.store r).status TaskStatus.queued)
      then (elim (transition TaskStatus.queued now (s.store r)) [
        | none ↦ some (s', err invalid_transition)
        | some t ↦ submit_queued ops send now r (set_task r t s')
      ])
      else submit_queued ops send now r s'
