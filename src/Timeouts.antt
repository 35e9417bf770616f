-- ===== src/Timeouts.antt =====
-- pkg/reef/server/timeout_scanner.go: one tick of the scanner. `Run` and `Stop`, the ticker and its
-- cancellation, are the runtime's. Logging is left out. `show` is the library's print of a duration;
-- a `TaskStore` is here the one in memory. The scan reads tasks through the snapshot's pointers while
-- the handler changes them.
pub mod Scan
use reef.Prelude.{
  ℕ, ◌+◌, ◌-◌, ◌*◌, ◌%◌, ◌^◌, Bool, true, false, not, List, [], ◌∷◌, Option, none, some, String,
  lookup, ltb, leb, if◌then◌else◌, suc,
}
use reef.Prelude.Int.{ℤ, pos, negsuc, ◌+ℤ◌, ltb_ℤ, sub_ℕ}
use reef.Task.Status.{TaskStatus, same_status}
use reef.Task.{Task}
use reef.Store.{MemoryStore, update_task}
use reef.Scheduler.{Scheduler, Reply, ok, err, deadlock}
use reef.Scheduler.Control.{handle_task_timed_out}

-- The value of `a - b` as an `int64`, two's complement.
unfoldable pub to_int64 : ℕ → ℕ → ℤ
to_int64 a b =
    let m = (a + (2 ^ 64 - b % 2 ^ 64)) % 2 ^ 64 in
    if ltb m (2 ^ 63) then pos m else negsuc (2 ^ 64 - m - 1)

-- `time.Duration(ms) * time.Millisecond`, in nanoseconds
unfoldable pub duration_of_ms : ℤ → ℤ
unfolding to_int64
duration_of_ms (pos n) = to_int64 (n * 1_000_000) 0
duration_of_ms (negsuc n) = to_int64 0 (suc n * 1_000_000)

-- The tests of the loop: a running task whose deadline lies before `now`; the time that it ran.
unfoldable pub overdue : ℕ → Task → Option ℤ
unfolding duration_of_ms
overdue now t = if not (same_status t.status TaskStatus.running) then none else elim t.started_at [
  | none ↦ none
  | some start ↦
      if ltb_ℤ (pos start +ℤ duration_of_ms t.timeout_ms) (pos now)
      then some (sub_ℕ now start)
      else none
]

-- The pointers of `TasksSnapshot`.
abbrev pub snapshot_pointers : List (String × ℕ) → List ℕ
snapshot_pointers [] = []
snapshot_pointers ((_, r) ∷ m) = r ∷ snapshot_pointers m

module _ {Q : Type 0} where
  -- `if ts.store != nil { ... }`: the task is read back by its id; an update that fails is ignored.
  unfoldable pub persist : String → Scheduler Q → Option MemoryStore → Option MemoryStore
  persist id s none = none
  persist id s (some m) = elim (lookup id s.tasks) [
    | none ↦ some m
    | some r ↦ elim (update_task (s.store r) m) [ none ↦ some m | some m' ↦ some m' ]
  ]

  abbrev persist_unless_error :
      String → Scheduler Q × Reply → Option MemoryStore → Scheduler Q × Option MemoryStore
  persist_unless_error id (s, ok) m = (s, persist id s m)
  persist_unless_error id (s, err e) m = (s, m)
  persist_unless_error id (s, deadlock) m = (s, m)

  -- The body of the loop for the task behind `r`.
  unfoldable pub scan_task :
      (ℤ → String) → ℕ → ℕ → Scheduler Q × Option MemoryStore → Scheduler Q × Option MemoryStore
  unfolding overdue persist
  scan_task show now r (s, m) = elim (overdue now (s.store r)) [
    | none ↦ (s, m)
    | some elapsed ↦
        let id = (s.store r).id in
        persist_unless_error id (handle_task_timed_out now id (show elapsed) s) m
  ]

  unfoldable pub scan_tasks :
      (ℤ → String)
      → ℕ
      → List ℕ
      → Scheduler Q × Option MemoryStore
      → Scheduler Q × Option MemoryStore
  unfolding scan_task
  scan_tasks show now [] sm = sm
  scan_tasks show now (r ∷ rs) sm = scan_tasks show now rs (scan_task show now r sm)

  unfoldable pub scan :
      (ℤ → String) → ℕ → Scheduler Q × Option MemoryStore → Scheduler Q × Option MemoryStore
  unfolding scan_tasks
  scan show now (s, m) = scan_tasks show now (snapshot_pointers s.tasks) (s, m)
