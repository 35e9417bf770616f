-- ===== src/Scheduler/Proofs/Releases.antt =====
-- A slot released twice, and a failure report that never returns (pkg/reef/server/scheduler.go).
use reef.Prelude.{
  ℕ, ◌<◌, ◌≡◌, refl, ap, ◌∙◌, inl, inr, false, List, [], ◌∷◌, none, some, String, arith, leb, In,
  lookup,
}
use reef.Task.Status.{running}
use reef.Task.{Task, TaskResult, TaskError, AttemptRecord}
use reef.Client.{ClientInfo}
use reef.Registry.{list, decrement_load}
use reef.Strategy.{affinity_strategy}
use reef.Queue.Interface.{QueueOps}
use reef.Scheduler.{Scheduler, deadlock, with_task-some}
use reef.Scheduler.Matching.{
  held, locking, eligible, strategy_or_default, select_any_from, select_from, match_client_in,
}
use reef.Scheduler.Reports.{
  terminate, escalate, decide_failure, failed_at, handle_task_completed, handle_task_failed,
}
use reef.Scheduler.Proofs.Matches.{CanTake, In-eligible, CanTake-is_eligible}
use reef.Scheduler.Proofs.Completion.{handle_task_completed-IsCompleted}
use reef.Scheduler.Proofs.Failure.{
  recorded, decided, undecided, handle_task_failed-IsDecided, failed_at_running,
}

waits_for_someone :
    (c : ClientInfo) (cs : List ClientInfo)
    → In c cs
    → select_any_from affinity_strategy none cs ≡ none
unfolding select_any_from select_from
waits_for_someone c [] i = absurd i
waits_for_someone c (d ∷ cs) i = refl

module _ {Q : Type 0} (ops : QueueOps Q) where
  -- When a running task failed and was given up, a completion that is reported afterwards
  -- releases a slot of its client for the second time.
  pub late_completion_releases_twice :
      (now later r : ℕ) (id : String) (e : TaskError) (attempts : List AttemptRecord)
      (result : TaskResult) (s : Scheduler Q)
      → lookup id s.tasks ≡ some r
      → (s.store r).status ≡ running
      → escalate (undecided ops now r e attempts s) (recorded now e attempts (s.store r))
        ≡ some terminate
      → let client = (s.store r).assigned_client in
        let s' = (handle_task_failed ops now id e attempts s).0 in
        (handle_task_completed later id result s').0.registry
        ≡ (decrement_load client (decrement_load client s.registry).0).0
  unfolding decided
  late_completion_releases_twice now later r id e attempts result s found run d =
      let (s', p, v) =
        handle_task_failed-IsDecided ops now r id e attempts terminate s found run d in
      let known : lookup id s'.tasks ≡ some r = ap (lookup id) v.index_same ∙ found in
      let (_, done, _) =
        handle_task_completed-IsCompleted later later r id result result s' known
          (inr (inl (ap (λ t. t.status) v.task))) in
      rw p (
        ap (λ x. x.registry) done.rest
        ∙ ap (λ t. (decrement_load t.assigned_client s'.registry).0) v.task
        ∙ ap (λ g. (decrement_load (s.store r).assigned_client g).0) v.released)

  waits :
      (s : Scheduler Q) (t : Task) (c : ClientInfo)
      → s.match_strategy ≡ some affinity_strategy
      → In c (list s.registry)
      → CanTake t t.assigned_client c
      → match_client_in held s t t.assigned_client ≡ none
  unfolding match_client_in strategy_or_default locking
  waits s t c a i can =
      let cs = eligible t t.assigned_client (list s.registry) in
      ap (λ m. select_any_from (strategy_or_default m) none cs) a
      ∙ waits_for_someone c cs (
          In-eligible t t.assigned_client c (list s.registry) i
            (CanTake-is_eligible t t.assigned_client c can))

  escalate_waits :
      (s : Scheduler Q) (t : Task)
      → t.escalation_count < s.max_escalations
      → match_client_in held s t t.assigned_client ≡ none
      → escalate s t ≡ none
  unfolding escalate
  escalate_waits s t more w =
      let below : leb s.max_escalations t.escalation_count ≡ false = ground arith in
      rw (below, escalate) (rw w refl)

  undecided_waits :
      (now r : ℕ) (e : TaskError) (t : Task) (s : Scheduler Q)
      → escalate s t ≡ none
      → decide_failure ops now r e t s ≡ (s, deadlock)
  unfolding decide_failure
  undecided_waits now r e t s p = rw (p, decide_failure) refl

  failed_found :
      (now r : ℕ) (id : String) (e : TaskError) (attempts : List AttemptRecord) (s : Scheduler Q)
      → lookup id s.tasks ≡ some r
      → handle_task_failed ops now id e attempts s ≡ failed_at ops now r e attempts s
  unfolding handle_task_failed
  failed_found now r id e attempts s found =
      with_task-some id r s (λ x. failed_at ops now x e attempts s) found

  -- With the affinity strategy, a failure report for a running task that may be escalated and that
  -- another registered client could take never returns: the handler holds the scheduler's lock when
  -- the strategy asks for the tasks, and reading them takes the lock again.
  pub affinity_deadlock :
      (now r : ℕ) (id : String) (e : TaskError) (attempts : List AttemptRecord) (c : ClientInfo)
      (s : Scheduler Q)
      → lookup id s.tasks ≡ some r
      → (s.store r).status ≡ running
      → s.match_strategy ≡ some affinity_strategy
      → (s.store r).escalation_count < s.max_escalations
      → In c (list (decrement_load (s.store r).assigned_client s.registry).0)
      → CanTake (s.store r) (s.store r).assigned_client c
      → (handle_task_failed ops now id e attempts s).1 ≡ deadlock
  affinity_deadlock now r id e attempts c s found run a more i can =
      let t : Task = recorded now e attempts (s.store r) in
      let s' : Scheduler Q = undecided ops now r e attempts s in
      let can' : CanTake t t.assigned_client c = record {
        not_excluded = can.not_excluded;
        is_connected = can.is_connected;
        has_capacity = can.has_capacity;
        has_role = can.has_role;
        has_skills = can.has_skills;
      } in
      ap (λ p. p.1)
        (failed_found now r id e attempts s found
          ∙ failed_at_running ops now r e attempts s run
          ∙ undecided_waits now r e t s' (escalate_waits s' t more (waits s' t c a i can')))
