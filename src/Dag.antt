-- ===== src/Dag.antt =====
-- pkg/reef/server/dag_engine.go: the decomposition of a task into sub-tasks, their dependencies and
-- the collection of their results. The engine holds its lock for the whole of each function. The
-- store is the one in memory. A task that the store hands out is a copy of its own: it stands behind
-- a fresh pointer, `next`, once it is shared with the scheduler. `number` prints a number (fmt), and
-- `submit` is the scheduler's, with the queue and the hook left open. Logging is left out, and an
-- error of `Submit` is only logged.
pub mod Handlers
pub mod Unblock
use reef.Prelude.{
  ℕ, ◌+◌, ◌≡◌, Bool, true, false, not, ◌&&◌, List, [], ◌∷◌, ◌++◌, Option, none, some, String,
  str_eq, str_append, lookup, length, has, if◌then◌else◌, map, leb,
}
use reef.Prelude.Int.{ℤ, pos, ltb_ℤ}
use reef.Task.Status.{TaskStatus, same_status, is_terminal, is_blocked}
use reef.Task.{Task, TaskError, new_task, try_transition}
use reef.Store.{
  MemoryStore, save_task, get_task, update_task, save_relation, get_sub_task_ids,
  get_parent_task_id,
}
use reef.Queue.Persistent.{updated}
use reef.Scheduler.{Scheduler, set_task, register_task}

pub record SubTaskPlan : Type 0 where
  pub instruction : String
  pub role : String
  pub skills : List String
  pub model_hint : String
  pub timeout_ms : ℤ
  pub depends_on : List String

unfoldable pub has_dependencies : SubTaskPlan → Bool
has_dependencies p = elim p.depends_on [ [] ↦ false | d ∷ ds ↦ true ]

-- `next` is the next pointer without an object.
pub record DagEngine (Q : Type 0) : Type 0 where
  pub store : MemoryStore
  pub scheduler : Scheduler Q
  pub next : ℕ

-- A task as the engine sees it: the scheduler's, behind its pointer, or a copy from the store.
pub data Located : Type 0 where
  shared : ℕ → Located
  copied : Task → Located

-- The sub-task of a plan, number `n` of its parent.
unfoldable pub planned : (ℕ → String) → ℕ → Task → ℕ → SubTaskPlan → Task
unfolding has_dependencies
planned number now parent n plan =
    let id = str_append parent.id (str_append "-sub-" (number n)) in
    let t = record (new_task now id plan.instruction plan.role plan.skills) {
      priority = parent.priority;
      parent_task_id = parent.id;
      dependencies = plan.depends_on;
      model_hint = plan.model_hint;
      timeout_ms = if ltb_ℤ (pos 0) plan.timeout_ms then plan.timeout_ms else parent.timeout_ms;
    } in
    if has_dependencies plan then try_transition TaskStatus.blocked now t else t

-- The loop over the plans: the sub-tasks, or `none` when one cannot be saved, and the store either way.
unfoldable pub save_plans :
    (ℕ → String) → ℕ → Task → ℕ → List SubTaskPlan → MemoryStore → MemoryStore × Option (List Task)
unfolding planned
save_plans number now parent n [] m = (m, some [])
save_plans number now parent n (p ∷ ps) m =
    let sub = planned number now parent n p in
    elim (save_task sub m) [
      | none ↦ (m, none)
      | some m' ↦
          let (m'', subs) =
            save_plans number now parent (n + 1) ps (save_relation parent.id sub.id m') in
          (m'', (elim subs [ none ↦ none | some ts ↦ some (sub ∷ ts) ]))
    ]

abbrev pub task_ids : List Task → List String
task_ids [] = []
task_ids (t ∷ ts) = t.id ∷ task_ids ts

module _ {Q : Type 0} (submit : ℕ → Scheduler Q → Scheduler Q) where
  -- `RegisterTask` and `Submit` of a task that is not shared yet
  unfoldable pub hand_in : Task → DagEngine Q → DagEngine Q
  hand_in t d = record d {
    scheduler = submit d.next (register_task d.next (set_task d.next t d.scheduler));
    next = d.next + 1;
  }

  unfoldable pub hand_in_ready : List Task → DagEngine Q → DagEngine Q
  unfolding hand_in
  hand_in_ready [] d = d
  hand_in_ready (t ∷ ts) d = hand_in_ready ts (if not (is_blocked t.status) then hand_in t d else d)

  -- `CreateSubTasks` for the task behind `r`; false is an error.
  unfoldable pub create_sub_tasks :
      (ℕ → String) → ℕ → ℕ → List SubTaskPlan → DagEngine Q → DagEngine Q × Bool
  unfolding save_plans hand_in_ready
  create_sub_tasks number now r [] d = (d, false)
  create_sub_tasks number now r (p ∷ ps) d =
      let parent = d.scheduler.store r in
      let (m, subs) = save_plans number now parent 1 (p ∷ ps) d.store in
      elim subs [
        | none ↦ (record d { store = m }, false)
        | some ts ↦
            let parent' = record parent { sub_task_ids = task_ids ts } in
            (
              hand_in_ready ts (record d {
                store = updated parent' m;
                scheduler = set_task r parent' d.scheduler;
              }),
              true,
            )
      ]

module _ {Q : Type 0} where
  -- `d.scheduler.GetTask(id)`, and failing that `d.Store.GetTask(id)`
  unfoldable pub locate : String → DagEngine Q → Option Located
  locate id d = elim (lookup id d.scheduler.tasks) [
    | some r ↦ some (Located.shared r)
    | none ↦ elim (get_task id d.store) [ none ↦ none | some t ↦ some (Located.copied t) ]
  ]

  abbrev pub task_at : Located → DagEngine Q → Task
  task_at (Located.shared r) d = d.scheduler.store r
  task_at (Located.copied t) d = t

  unfoldable pub find : String → DagEngine Q → Option Task
  unfolding locate
  find id d = elim (locate id d) [ none ↦ none | some l ↦ some (task_at l d) ]

  -- The changed task, and `_ = d.Store.UpdateTask(task)`
  unfoldable pub write : Located → Task → DagEngine Q → DagEngine Q
  write (Located.shared r) t d = record d {
    scheduler = set_task r t d.scheduler;
    store = updated t d.store;
  }
  write (Located.copied u) t d = record d { store = updated t d.store }

  -- The loop of `allSubTasksDone`; `none` is the error of a sub-task that is not found.
  unfoldable pub all_terminal : List String → DagEngine Q → Option Bool
  unfolding find
  all_terminal [] d = some true
  all_terminal (id ∷ ids) d =
      let rest = all_terminal ids d in
      elim (find id d) [
        | none ↦ none
        | some t ↦ if not (is_terminal t.status) then some false else rest
      ]

  unfoldable pub all_sub_tasks_done : String → DagEngine Q → Option Bool
  unfolding all_terminal
  all_sub_tasks_done parent d = elim (get_sub_task_ids parent d.store) [
    | [] ↦ some false
    | id ∷ ids ↦ all_terminal (id ∷ ids) d
  ]

  -- The loop over the dependencies in `checkUnblock`.
  unfoldable pub deps_met : List String → DagEngine Q → Bool
  unfolding find
  deps_met [] d = true
  deps_met (id ∷ ids) d =
      let rest = deps_met ids d in
      elim (find id d) [
        | none ↦ false
        | some t ↦ if not (same_status t.status TaskStatus.completed) then false else rest
      ]

  -- The body of the loop of `checkUnblock`: the engine, and the task if it is no longer blocked.
  unfoldable pub unblock_one : ℕ → String → DagEngine Q → DagEngine Q × List Located
  unfolding locate deps_met write
  unblock_one now id d = elim (locate id d) [
    | none ↦ (d, [])
    | some (Located.shared r) ↦
        let t = d.scheduler.store r in
        if same_status t.status TaskStatus.blocked && deps_met t.dependencies d
        then (
          write (Located.shared r) (try_transition TaskStatus.queued now t) d,
          Located.shared r ∷ [],
        )
        else (d, [])
    | some (Located.copied t) ↦
        let u = try_transition TaskStatus.queued now t in
        if same_status t.status TaskStatus.blocked && deps_met t.dependencies d
        then (write (Located.copied t) u d, Located.copied u ∷ [])
        else (d, [])
  ]

  unfoldable pub unblock_all : ℕ → List String → DagEngine Q → DagEngine Q × List Located
  unfolding unblock_one
  unblock_all now [] d = (d, [])
  unblock_all now (id ∷ ids) d =
      let (d', out) = unblock_one now id d in
      let (d'', more) = unblock_all now ids d' in (d'', out ++ more)

  unfoldable pub check_unblock : ℕ → String → DagEngine Q → DagEngine Q × List Located
  unfolding unblock_all
  check_unblock now parent d = unblock_all now (get_sub_task_ids parent d.store) d
