-- ===== src/Tests/Stores.antt =====
-- Witnesses about the stores, the persistent queue and the timeout scanner.
use reef.Prelude.{ℕ, ◌≡◌, refl, ◌⊎◌, inl, inr, true, false, [], ◌∷◌, none, some, arith, In, lookup}
use reef.Prelude.Int.{pos, sub_ℕ}
use reef.Task.Status.{queued, running, assigned, paused}
use reef.Task.{Task}
use reef.Store.{MemoryStore, new_memory_store, get_task}
use reef.Queue.Persistent.{PersistentQueue, enqueue, new_persistent_queue, persistent_ops}
use reef.Queue.Persistent.Saved.{grown_queue, enqueue_fresh}
use reef.Queue.Persistent.Restart.{restart_restores}
use reef.Registry.{list}
use reef.Scheduler.{Scheduler, ok}
use reef.Scheduler.Dispatch.{submit}
use reef.Scheduler.Matching.{eligible}
use reef.Scheduler.Proofs.Lost.{submitted_is_lost}
use reef.Timeouts.{scan}
use reef.Timeouts.Scan.{PastDeadline, scan_times_out, timed_out}
use reef.Queue.{TaskQueue}
use reef.Tests.Samples.{task_of, two_clients, state_of}

abbrev saved : MemoryStore
saved = record new_memory_store { tasks = ("t0", task_of "t0" running) ∷ [] }

held : get_task "t0" saved ≡ some (task_of "t0" running)
unfolding get_task lookup
held = refl

restart_restores_example :
    let t = task_of "t0" running in
    let (h', q) = new_persistent_queue 5 (λ r. task_of "t9" queued) saved (pos 0) (pos 0) in
    (r : ℕ) × In r q.cache
    × ((((t.status ≡ queued) ⊎ (t.status ≡ paused)) × (h' r ≡ t))
        ⊎ (((t.status ≡ running) ⊎ (t.status ≡ assigned)) × (h' r ≡ record t { status = queued })))
unfolding lookup
restart_restores_example =
    restart_restores 5 (λ r. task_of "t9" queued) saved (pos 0) (pos 0) "t0" (task_of "t0" running)
      (refl, tt) held (inr (inl refl))

abbrev empty_queue : PersistentQueue
empty_queue = record { store = new_memory_store; cache = []; max_len = 3; max_age = 1000 }

abbrev waiting : ℕ → Task
waiting r = task_of "t0" queued

accepted : enqueue waiting 0 empty_queue ≡ (grown_queue waiting 0 empty_queue, true)
unfolding get_task lookup
accepted = enqueue_fresh waiting 0 empty_queue (omega arith) refl

-- Nobody is connected.
abbrev deserted : Scheduler PersistentQueue
deserted = record {
  registry = record { clients = []; on_stale = false; stale_calls = [] };
  queue = empty_queue;
  store = waiting;
  tasks = [];
  max_escalations = 2;
  match_strategy = none;
  on_task_state_changed = false;
  has_result_callback = false;
  events = [];
}

submitted_is_lost_example :
    (s' : Scheduler PersistentQueue) × (submit persistent_ops none 9 0 deserted ≡ some (s', ok))
    × (s'.queue.cache ≡ [])
    × (s'.store 0 ≡ task_of "t0" queued)
unfolding get_task lookup eligible list
submitted_is_lost_example = submitted_is_lost none 9 0 deserted refl (omega arith) refl refl refl

abbrev busy : Scheduler (TaskQueue ℕ)
busy = state_of two_clients [] running none

-- Ten minutes of 10^9 nanoseconds have passed since the start at 110.
scan_times_out_example :
    let t = task_of "t0" running in
    let s' = (scan (λ d. "600s") 600_000_000_111 (busy, none)).0 in
    (((start : ℕ) × PastDeadline (λ d. "600s") 600_000_000_111 start t
        × (s'.store 0 ≡ timed_out (λ d. "600s") 600_000_000_111 (sub_ℕ 600_000_000_111 start) t))
      ⊎ (((start : ℕ) → ¬ PastDeadline (λ d. "600s") 600_000_000_111 start t) × (s'.store 0 ≡ t)))
    × (s'.tasks ≡ busy.tasks)
unfolding lookup
scan_times_out_example =
    scan_times_out (λ d. "600s") 600_000_000_111 "t0" 0 busy none (refl, tt) (refl, tt) refl
