-- ===== src/Dag/Handlers.antt =====
-- pkg/reef/server/dag_engine.go: what the engine does when a sub-task ends, and the message that
-- collects the results.
use reef.Prelude.{
  ℕ, Bool, true, false, List, [], ◌∷◌, ◌++◌, Option, none, some, String, str_eq, str_append, has,
  if◌then◌else◌,
}
use reef.Task.Status.{TaskStatus}
use reef.Task.{Task, TaskError, try_transition}
use reef.Store.{get_parent_task_id, get_sub_task_ids}
use reef.Scheduler.{Scheduler, register_task, get_task}
use reef.Dag.{
  DagEngine, Located, hand_in, locate, task_at, find, write, all_sub_tasks_done, check_unblock,
}

module _ {Q : Type 0} (submit : ℕ → Scheduler Q → Scheduler Q) where
  unfoldable pub hand_in_located : Located → DagEngine Q → DagEngine Q
  unfolding hand_in
  hand_in_located (Located.shared r) d = record d {
    scheduler = submit r (register_task r d.scheduler);
  }
  hand_in_located (Located.copied t) d = hand_in submit t d

  unfoldable pub hand_in_all : List Located → DagEngine Q → DagEngine Q
  unfolding hand_in_located
  hand_in_all [] d = d
  hand_in_all (l ∷ ls) d = hand_in_all ls (hand_in_located l d)

  -- `if parentTask := d.scheduler.GetTask(parentID); parentTask != nil { ... }`
  unfoldable pub start_aggregation : ℕ → String → DagEngine Q → DagEngine Q
  unfolding write
  start_aggregation now parent d = elim (get_task parent d.scheduler) [
    | none ↦ d
    | some r ↦
        write (Located.shared r) (try_transition TaskStatus.aggregating now (d.scheduler.store r)) d
  ]

  -- `OnSubTaskCompleted`: whether the parent's sub-tasks are all done; `none` is an error.
  unfoldable pub on_sub_task_completed : ℕ → String → DagEngine Q → DagEngine Q × Option Bool
  unfolding all_sub_tasks_done check_unblock hand_in_all start_aggregation
  on_sub_task_completed now id d =
      let parent = get_parent_task_id id d.store in
      if str_eq parent "" then (d, some false) else elim (all_sub_tasks_done parent d) [
        | none ↦ (d, none)
        | some true ↦ (start_aggregation now parent d, some true)
        | some false ↦ let (d', ls) = check_unblock now parent d in (hand_in_all ls d', some false)
      ]

abbrev pub dependency_failed : String → TaskError
dependency_failed id = record {
  type = "dependency_failed";
  message = str_append "dependency task " (str_append id " failed");
  detail = "";
}

-- The `switch` of `BuildAggregationMessage`: the line for one sub-task, if it has one.
unfoldable pub result_line : String → Task → List String
result_line id t = elim t.status [
  | TaskStatus.completed ↦ elim t.result [
    | none ↦ []
    | some r ↦ str_append "[" (str_append id (str_append "]: " r.text)) ∷ []
  ]
  | TaskStatus.failed ↦ elim t.error [
    | none ↦ []
    | some e ↦ str_append "[" (str_append id (str_append "] FAILED: " e.message)) ∷ []
  ]
  | _ ↦ []
]

abbrev pub bullets : List String → String
bullets [] = ""
bullets (r ∷ rs) = str_append "- " (str_append r (str_append "\n" (bullets rs)))

module _ {Q : Type 0} where
  -- The body of the loop of `OnSubTaskFailed` for one sibling.
  unfoldable pub fail_dependent : ℕ → String → String → DagEngine Q → DagEngine Q
  unfolding locate write
  fail_dependent now id sib d = if str_eq sib id then d else elim (locate sib d) [
    | none ↦ d
    | some l ↦
        let t = task_at l d in
        if has id t.dependencies
        then write l
            (try_transition TaskStatus.failed now
              (record t { error = some (dependency_failed id) }))
            d
        else d
  ]

  unfoldable pub fail_dependents : ℕ → String → List String → DagEngine Q → DagEngine Q
  unfolding fail_dependent
  fail_dependents now id [] d = d
  fail_dependents now id (sib ∷ sibs) d = fail_dependents now id sibs (fail_dependent now id sib d)

  unfoldable pub on_sub_task_failed : ℕ → String → DagEngine Q → DagEngine Q
  unfolding fail_dependents
  on_sub_task_failed now id d =
      let parent = get_parent_task_id id d.store in
      if str_eq parent "" then d else fail_dependents now id (get_sub_task_ids parent d.store) d

  unfoldable pub result_lines : List String → DagEngine Q → List String
  unfolding find result_line
  result_lines [] d = []
  result_lines (id ∷ ids) d =
      (elim (find id d) [ none ↦ [] | some t ↦ result_line id t ]) ++ result_lines ids d

  unfoldable pub build_aggregation_message : String → DagEngine Q → String
  unfolding result_lines
  build_aggregation_message parent d = elim (result_lines (get_sub_task_ids parent d.store) d) [
    | [] ↦ "All sub-tasks completed with no output."
    | r ∷ rs ↦ str_append "Sub-task results:\n" (bullets (r ∷ rs))
  ]
