-- ===== src/Tests/Scheduling.antt =====
-- Tests and witnesses about the scheduler.
use reef.Prelude.{
  ℕ, suc, ◌-◌, ◌≤◌, ◌<◌, ◌≡◌, refl, ◌≢◌, ◌⊎◌, inl, inr, Bool, true, false, List, [], ◌∷◌, none,
  some, Option, String, arith, In, All, length, eq_iff, lookup, UniqueKeys, count,
}
use reef.Task.Status.{TaskStatus, queued, running, paused, failed}
use reef.Task.{Task, TaskResult, TaskError}
use reef.Client.{ClientState, ClientInfo, remaining_capacity}
use reef.Registry.{list, decrement_load}
use reef.Queue.{TaskQueue}
use reef.Queue.Instances.{fifo_ops, fifo_laws}
use reef.Strategy.{MatchStrategy, affinity_strategy}
use reef.Scheduler.{Scheduler, ok, err, deadlock, unexpected_state, tasks_snapshot, new_scheduler}
use reef.Scheduler.Matching.{match_client, exclude_id}
use reef.Scheduler.Dispatch.{try_dispatch}
use reef.Scheduler.Reports.{
  handle_task_completed, handle_task_failed, escalate, reassign, terminate,
}
use reef.Scheduler.Control.{handle_task_resumed, handle_task_cancelled}
use reef.Scheduler.Proofs.Matches.{CanTake, match_client-CanTake, CanTake-match_client}
use reef.Scheduler.Proofs.Capacity.{LoadsFit, try_dispatch-LoadsFit}
use reef.Scheduler.Proofs.Rounds.{IsRunning}
use reef.Scheduler.Proofs.Conservation.{try_dispatch_keeps}
use reef.Scheduler.Proofs.Completion.{IsCompleted, handle_task_completed-IsCompleted}
use reef.Scheduler.Proofs.Failure.{IsDecided, handle_task_failed-IsDecided}
use reef.Scheduler.Proofs.Escalation.{Justified, escalate-Justified}
use reef.Scheduler.Proofs.Defects.{resume_stays_paused, cancel_keeps_slot}
use reef.Scheduler.Proofs.Releases.{late_completion_releases_twice, affinity_deadlock}
use reef.Tests.Samples.{task_of, client_of, two_clients, one_client, state_of, done, broken}

abbrev start : Scheduler (TaskQueue ℕ)
start = state_of two_clients (0 ∷ []) queued none

abbrev busy : Scheduler (TaskQueue ℕ)
busy = state_of two_clients [] running none

-- The status and the client of the first task, and the queue.
abbrev summary : Option (Scheduler (TaskQueue ℕ)) → Option (TaskStatus × String × List ℕ)
summary none = none
summary (some s) = some ((s.store 0).status, (s.store 0).assigned_client, s.queue.tasks)

dispatched_to_bob : summary (try_dispatch fifo_ops none 9 start) ≡ some (running, "bob", [])
unfolding try_dispatch fifo_ops match_client exclude_id list reef.Client.is_available
    reef.Client.matches reef.Strategy.select reef.Scheduler.Matching.strategy_or_default
    reef.Task.transition
dispatched_to_bob = refl

refused_by_bob :
    summary (try_dispatch fifo_ops (some (λ t c. false)) 9 start) ≡ some (queued, "", 0 ∷ [])
unfolding try_dispatch fifo_ops match_client exclude_id list reef.Client.is_available
    reef.Client.matches reef.Strategy.select reef.Scheduler.Matching.strategy_or_default
    reef.Task.transition reef.Task.try_transition
refused_by_bob = refl

try_dispatch_keeps_example :
    (s : Scheduler (TaskQueue ℕ)) × (try_dispatch fifo_ops none 9 start ≡ some s)
    × (count 0 s.queue.tasks ≤ 1)
    × ((count 0 s.queue.tasks ≡ 1) ⊎ IsRunning 0 s)
unfolding fifo_laws
try_dispatch_keeps_example = try_dispatch_keeps fifo_ops fifo_laws none 9 0 start (omega arith)

start-LoadsFit : LoadsFit start
unfolding lookup
start-LoadsFit = record {
  unique = (refl, (refl, tt));
  fits = ((refl, omega arith), ((refl, omega arith), tt));
}

try_dispatch-LoadsFit_example :
    (s' : Scheduler (TaskQueue ℕ)) × (try_dispatch fifo_ops none 9 start ≡ some s') × LoadsFit s'
unfolding fifo_laws
try_dispatch-LoadsFit_example =
    try_dispatch-LoadsFit fifo_ops fifo_laws none 9 start (omega arith) start-LoadsFit

-- The tasks 0 and 1 wait, and both are like the first one.
abbrev crowded : Scheduler (TaskQueue ℕ)
crowded = state_of two_clients (0 ∷ 1 ∷ []) queued none

found : lookup "t0" busy.tasks ≡ some 0
unfolding lookup
found = refl

handle_task_completed-IsCompleted_example :
    IsCompleted 9 0 done busy (handle_task_completed 9 "t0" done busy).0
handle_task_completed-IsCompleted_example =
    (handle_task_completed-IsCompleted 9 10 0 "t0" done done busy found (inl refl)).1

abbrev waiting : Scheduler (TaskQueue ℕ)
waiting = state_of two_clients [] queued none

found_waiting : lookup "t0" waiting.tasks ≡ some 0
unfolding lookup
found_waiting = refl

match_client-CanTake_example : CanTake (task_of "t0" queued) "alice" (client_of "bob" 0)
unfolding match_client list reef.Client.is_available reef.Client.matches reef.Strategy.select
    reef.Scheduler.Matching.strategy_or_default
match_client-CanTake_example =
    (match_client-CanTake start (task_of "t0" queued) "alice" (client_of "bob" 0) refl).1

bob_can : CanTake (task_of "t0" queued) "alice" (client_of "bob" 0)
unfolding remaining_capacity
bob_can = record {
  not_excluded = λ e. ground (arith, eq_iff "bob" "alice");
  is_connected = refl;
  has_capacity = omega arith;
  has_role = refl;
  has_skills = (inr (inl refl), tt);
}

CanTake-match_client_example :
    (r : ClientInfo) × (match_client start (task_of "t0" queued) "alice" ≡ some r)
unfolding tasks_snapshot list
CanTake-match_client_example =
    CanTake-match_client start (task_of "t0" queued) "alice" (client_of "bob" 0) (omega arith)
      (inr (inl refl)) bob_can

-- Bob can take over what Alice fails; without Bob nobody can.
abbrev lonely : Scheduler (TaskQueue ℕ)
lonely = state_of one_client [] running none

handle_task_failed-IsDecided_example :
    (s' : Scheduler (TaskQueue ℕ)) × (handle_task_failed fifo_ops 9 "t0" broken [] busy ≡ (s', ok))
    × IsDecided fifo_ops 9 0 broken [] reassign busy s'
unfolding escalate match_client list decrement_load lookup reef.Prelude.insert
    reef.Client.is_available reef.Client.matches reef.Scheduler.Matching.match_client_in
    reef.Scheduler.Matching.strategy_or_default reef.Strategy.select
handle_task_failed-IsDecided_example =
    handle_task_failed-IsDecided fifo_ops 9 0 "t0" broken [] reassign busy found refl refl

escalate-Justified_example : Justified lonely (task_of "t0" failed) terminate
unfolding escalate match_client tasks_snapshot list
escalate-Justified_example =
    escalate-Justified lonely (task_of "t0" failed) terminate (omega arith) refl

abbrev held_up : Scheduler (TaskQueue ℕ)
held_up = state_of two_clients (0 ∷ []) paused none

found_paused : lookup "t0" held_up.tasks ≡ some 0
unfolding lookup
found_paused = refl

resume_stays_paused_example :
    ((handle_task_resumed fifo_ops 9 "t0" held_up).0.store 0).status ≡ paused
resume_stays_paused_example = (resume_stays_paused fifo_ops 9 0 "t0" held_up found_paused refl).1

cancel_keeps_slot_example : (handle_task_cancelled 9 "t0" busy).0.registry ≡ two_clients
cancel_keeps_slot_example =
    (cancel_keeps_slot fifo_ops 9 10 0 "t0" "1s" done broken [] busy found refl).2

late_completion_releases_twice_example :
    (handle_task_completed 10 "t0" done
      (handle_task_failed fifo_ops 9 "t0" broken [] lonely).0).0.registry
    ≡ (decrement_load "alice" (decrement_load "alice" one_client).0).0
unfolding escalate match_client lookup list decrement_load reef.Prelude.insert
late_completion_releases_twice_example =
    late_completion_releases_twice fifo_ops 9 10 0 "t0" broken [] done lonely refl refl refl

abbrev partial_to_history : Scheduler (TaskQueue ℕ)
partial_to_history = state_of two_clients [] running (some affinity_strategy)

bob_takes_over : CanTake (task_of "t0" running) "alice" (client_of "bob" 0)
bob_takes_over = record {
  not_excluded = bob_can.not_excluded;
  is_connected = bob_can.is_connected;
  has_capacity = bob_can.has_capacity;
  has_role = bob_can.has_role;
  has_skills = bob_can.has_skills;
}

affinity_deadlock_example :
    (handle_task_failed fifo_ops 9 "t0" broken [] partial_to_history).1 ≡ deadlock
unfolding lookup decrement_load list reef.Prelude.insert
affinity_deadlock_example =
    affinity_deadlock fifo_ops 9 0 "t0" broken [] (client_of "bob" 0) partial_to_history refl refl
      refl (omega arith) (inr (inl refl)) bob_takes_over
