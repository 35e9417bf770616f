-- ===== src/Store.antt =====
-- pkg/reef/server/store: the interface `TaskStore` (store.go), the filter (filter.go) and the store in
-- memory (memory.go). Every operation holds the mutex for its whole body, so each is one function.
-- The store keeps a copy of a task, here the record itself. `none` is the operation's one error:
-- the task exists already (`SaveTask`) or is not found (the others); a task is never nil here. Go
-- ranges over a map in no fixed order, here in the order of the entries.
pub mod Laws
use reef.Prelude.{
  ℕ, zero, suc, Bool, true, false, not, ◌&&◌, ◌||◌, List, [], ◌∷◌, ◌++◌, Option, none, some, String,
  str_eq, lookup, insert, delete, length, keep_if, has, ltb, leb, if◌then◌else◌,
}
use reef.Prelude.Int.{ℤ, pos, negsuc}
use reef.Task.Status.{TaskStatus, any_status}
use reef.Task.{Task, AttemptRecord}

pub record TaskFilter : Type 0 where
  pub statuses : List TaskStatus
  pub roles : List String
  pub limit : ℤ
  pub offset : ℤ

pub record MemoryStore : Type 0 where
  pub tasks : List (String × Task)
  pub attempts : List (String × List AttemptRecord)
  pub relations : List (String × List String)
  pub parent_of : List (String × String)

-- `NewMemoryStore`, and the state after `Close`
abbrev pub new_memory_store : MemoryStore
new_memory_store = record { tasks = []; attempts = []; relations = []; parent_of = [] }

unfoldable pub save_task : Task → MemoryStore → Option MemoryStore
save_task task m = elim (lookup task.id m.tasks) [
  | some old ↦ none
  | none ↦ some (record m { tasks = insert task.id task m.tasks })
]

unfoldable pub get_task : String → MemoryStore → Option Task
get_task id m = lookup id m.tasks

unfoldable pub update_task : Task → MemoryStore → Option MemoryStore
update_task task m = elim (lookup task.id m.tasks) [
  | none ↦ none
  | some old ↦ some (record m { tasks = insert task.id task m.tasks })
]

unfoldable pub delete_task : String → MemoryStore → Option MemoryStore
delete_task id m = elim (lookup id m.tasks) [
  | none ↦ none
  | some old ↦ some (record m { tasks = delete id m.tasks; attempts = delete id m.attempts })
]

-- `len(set) > 0 && !set[x]`, where the loop over the tasks continues
abbrev pub wants_status : TaskFilter → Task → Bool
wants_status f t = elim f.statuses [ [] ↦ true | s ∷ ss ↦ any_status t.status (s ∷ ss) ]

abbrev pub wants_role : TaskFilter → Task → Bool
wants_role f t = elim f.roles [ [] ↦ true | r ∷ rs ↦ has t.required_role (r ∷ rs) ]

unfoldable pub wanted : TaskFilter → Task → Bool
wanted f t = wants_status f t && wants_role f t

unfoldable pub drop : ℕ → List Task → List Task
drop zero ts = ts
drop (suc n) [] = []
drop (suc n) (t ∷ ts) = drop n ts

unfoldable pub take : ℕ → List Task → List Task
take zero ts = []
take (suc n) [] = []
take (suc n) (t ∷ ts) = t ∷ take n ts

-- `matched[filter.Offset:]`, all of it at a negative offset, nothing at an offset past the end
unfoldable pub from_offset : ℤ → List Task → List Task
from_offset (negsuc n) ts = ts
from_offset (pos n) ts =
    if ltb 0 n && ltb n (length ts) then drop n ts else (if leb (length ts) n then [] else ts)

unfoldable pub up_to_limit : ℤ → List Task → List Task
up_to_limit (negsuc n) ts = ts
up_to_limit (pos n) ts = if ltb 0 n && ltb n (length ts) then take n ts else ts

abbrev pub task_values : List (String × Task) → List Task
task_values [] = []
task_values ((id, t) ∷ m) = t ∷ task_values m

unfoldable pub list_tasks : TaskFilter → MemoryStore → List Task
list_tasks f m =
    up_to_limit f.limit (from_offset f.offset (keep_if (wanted f) (task_values m.tasks)))

-- `m[k]` where a missing key reads as nil
abbrev pub entries {ℓ} : {V : Type ℓ} → String → List (String × List V) → List V
entries k m = elim (lookup k m) [ none ↦ [] | some vs ↦ vs ]

unfoldable pub save_attempt : String → AttemptRecord → MemoryStore → Option MemoryStore
save_attempt id a m = elim (lookup id m.tasks) [
  | none ↦ none
  | some t ↦ some (record m { attempts = insert id (entries id m.attempts ++ a ∷ []) m.attempts })
]

unfoldable pub get_attempts : String → MemoryStore → Option (List AttemptRecord)
get_attempts id m = elim (lookup id m.tasks) [ none ↦ none | some t ↦ some (entries id m.attempts) ]

-- `SaveRelation`; the dependency is not kept.
unfoldable pub save_relation : String → String → MemoryStore → MemoryStore
save_relation parent child m = record m {
  relations = insert parent (entries parent m.relations ++ child ∷ []) m.relations;
  parent_of = insert child parent m.parent_of;
}

unfoldable pub get_sub_task_ids : String → MemoryStore → List String
get_sub_task_ids parent m = entries parent m.relations

-- A child without a parent reads as the empty name.
unfoldable pub get_parent_task_id : String → MemoryStore → String
get_parent_task_id child m = elim (lookup child m.parent_of) [ none ↦ "" | some parent ↦ parent ]
