-- ===== src/Tests/Tasks.antt =====
-- Tests and witnesses about tasks, clients and strategies.
use reef.Prelude.{ℕ, ◌≡◌, refl, List, [], ◌∷◌, some, arith, In, All, UniqueKeys, lookup}
use reef.Task.Status.{TaskStatus, created, queued, assigned, running, completed, failed}
use reef.Task.{Task, new_task, try_transition}
use reef.Task.Lifecycle.{IsStamped, run_transitions, run-IsStamped, new_task-IsStamped}
use reef.Client.{ClientInfo}
use reef.Strategy.{affinity, score}
use reef.Strategy.Affinity.{NotBetter, affinity-NotBetter}
use reef.Tests.Samples.{task_of, client_of, two_clients}

abbrev happy : List (TaskStatus × ℕ)
happy = (queued, 1) ∷ (assigned, 2) ∷ (running, 3) ∷ (completed, 4) ∷ (failed, 5) ∷ []

happy_completes : (run_transitions happy (task_of "t" created)).status ≡ completed
unfolding run_transitions try_transition
happy_completes = refl

run-IsStamped_example : IsStamped (run_transitions happy (new_task 0 "t" "test" "coder" []))
run-IsStamped_example =
    run-IsStamped happy (new_task 0 "t" "test" "coder" [])
      (new_task-IsStamped 0 "t" "test" "coder" [])

two_clients_unique : UniqueKeys two_clients.clients
unfolding lookup
two_clients_unique = (refl, (refl, tt))

abbrev two_done : List Task
two_done = task_of "a" completed ∷ task_of "b" failed ∷ []

affinity-NotBetter_example :
    (r : ClientInfo) × (affinity two_done (client_of "alice" 1 ∷ client_of "bob" 0 ∷ []) ≡ some r)
    × In r (client_of "alice" 1 ∷ client_of "bob" 0 ∷ [])
    × All (λ d. NotBetter (score two_done) r d) (client_of "alice" 1 ∷ client_of "bob" 0 ∷ [])
affinity-NotBetter_example =
    affinity-NotBetter two_done (client_of "alice" 1) (client_of "bob" 0 ∷ []) (omega arith)
