-- ===== src/Tests/Dags.antt =====
-- Witnesses about the DAG engine: a parent `p` with a completed sub-task `a` and one that waits for it.
use reef.Prelude.{
  ℕ, lookup, ◌≡◌, refl, ◌⊎◌, List, [], ◌∷◌, none, some, true, String, ◌&&◌, false, All, ◌≢◌, arith,
}
use reef.Task.Status.{completed, blocked, queued, running, same_status}
use reef.Task.{Task}
use reef.Store.{get_sub_task_ids}
use reef.Queue.{TaskQueue}
use reef.Dag.{DagEngine, Located, find, unblock_one, task_at}
use reef.Dag.Unblock.{unblock_one_exact, IsDone}
use reef.Tests.Samples.{task_of, two_clients, state_of}

abbrev waiting : Task
waiting = record (task_of "b" blocked) { dependencies = "a" ∷ [] }

abbrev engine : DagEngine (TaskQueue ℕ)
engine = record {
  store = record {
    tasks = ("a", task_of "a" completed) ∷ ("b", waiting) ∷ [];
    attempts = [];
    relations = ("p", "a" ∷ "b" ∷ []) ∷ ("q", "a" ∷ []) ∷ [];
    parent_of = ("a", "p") ∷ ("b", "p") ∷ [];
  };
  scheduler = state_of two_clients [] running none;
  next = 1;
}

unblock_one_exact_example :
    ((unblock_one 9 "b" engine ≡ (engine, []))
      × ((find "b" engine ≡ none)
          ⊎ ((t : Task) × (find "b" engine ≡ some t)
              × (¬ ((t.status ≡ blocked) × All (IsDone engine) t.dependencies)))))
    ⊎ ((t : Task) × (l : Located) × (find "b" engine ≡ some t)
        × (t.status ≡ blocked)
        × All (IsDone engine) t.dependencies
        × ((unblock_one 9 "b" engine).1 ≡ l ∷ [])
        × (task_at l (unblock_one 9 "b" engine).0 ≡ record t { status = queued }))
unblock_one_exact_example = unblock_one_exact engine 9 "b"

unblocked_b :
    (unblock_one 9 "b" engine).1 ≡ Located.copied (record waiting { status = queued }) ∷ []
unfolding unblock_one reef.Prelude.lookup reef.Store.get_task same_status reef.Task.try_transition
unblocked_b = refl
