-- ===== src/Store/Laws.antt =====
-- What the store in memory gives back (pkg/reef/server/store/memory.go).
use reef.Prelude.{
  ◌≡◌, refl, ◌⊎◌, inl, inr, true, List, [], ◌∷◌, ◌++◌, none, some, String, str_eq, eq_iff, lookup,
  lookup-insert, lookup-delete, insert, delete, if◌then◌else◌, Option-cases, arith, ap, In,
  In-keep_if, keep_if-In, ◌↔◌, keep_if, UniqueKeys, In_of_lookup, lookup_of_In,
}
use reef.Prelude.Int.{pos}
use reef.Task.{Task, AttemptRecord}
use reef.Store.{
  MemoryStore, TaskFilter, save_task, get_task, update_task, delete_task, save_attempt,
  get_attempts, save_relation, get_sub_task_ids, get_parent_task_id, entries, wanted, from_offset,
  up_to_limit, list_tasks, task_values,
}

-- A task is saved exactly when the store has none of its id; from then on its id reads as that task
-- and every other id as before.
pub save_then_get :
    (t : Task) (j : String) (m : MemoryStore)
    → ((old : Task) × (get_task t.id m ≡ some old) × (save_task t m ≡ none))
      ⊎ ((m' : MemoryStore) × (get_task t.id m ≡ none)
          × (save_task t m ≡ some m')
          × (get_task j m' ≡ (if str_eq t.id j then some t else get_task j m)))
unfolding save_task get_task
save_then_get t j m = elim (Option-cases (lookup t.id m.tasks)) [
  | inl e ↦ inr (
    record m { tasks = insert t.id t m.tasks },
    e,
    rw (e, save_task) refl,
    lookup-insert t.id j t m.tasks,
  )
  | inr (old, e) ↦ inl (old, e, rw (e, save_task) refl)
]

-- A task is updated exactly when the store has one of its id; from then on its id reads as the new
-- task and every other id as before.
pub update_then_get :
    (t : Task) (j : String) (m : MemoryStore)
    → ((get_task t.id m ≡ none) × (update_task t m ≡ none))
      ⊎ ((old : Task) × (m' : MemoryStore) × (get_task t.id m ≡ some old)
          × (update_task t m ≡ some m')
          × (get_task j m' ≡ (if str_eq t.id j then some t else get_task j m)))
unfolding update_task get_task
update_then_get t j m = elim (Option-cases (lookup t.id m.tasks)) [
  | inl e ↦ inl (e, rw (e, update_task) refl)
  | inr (old, e) ↦ inr (
    old,
    record m { tasks = insert t.id t m.tasks },
    e,
    rw (e, update_task) refl,
    lookup-insert t.id j t m.tasks,
  )
]

-- A deleted task is gone with its attempts, and no other task is touched; its place among the
-- relations stays.
pub delete_then_get :
    (id j : String) (t : Task) (m : MemoryStore)
    → get_task id m ≡ some t
    → (m' : MemoryStore) × (delete_task id m ≡ some m')
      × (get_task j m' ≡ (if str_eq id j then none else get_task j m))
      × (get_attempts j m' ≡ (if str_eq id j then none else get_attempts j m))
      × (get_sub_task_ids j m' ≡ get_sub_task_ids j m)
      × (get_parent_task_id j m' ≡ get_parent_task_id j m)
unfolding delete_task get_task get_attempts get_sub_task_ids get_parent_task_id
delete_then_get id j t m e = (
  record m { tasks = delete id m.tasks; attempts = delete id m.attempts },
  rw (e, delete_task) refl,
  lookup-delete id j m.tasks,
  ground (arith, lookup-delete id j m.tasks, lookup-delete id j m.attempts),
  refl,
  refl,
)

-- A saved attempt is the last of its task's attempts; the attempts of the other tasks are as before.
pub save_attempt_appends :
    (id j : String) (t : Task) (a : AttemptRecord) (m : MemoryStore)
    → get_task id m ≡ some t
    → (m' : MemoryStore) × (save_attempt id a m ≡ some m')
      × (get_attempts j m'
          ≡ (if str_eq id j then some (entries id m.attempts ++ a ∷ []) else get_attempts j m))
unfolding save_attempt get_task get_attempts
save_attempt_appends id j t a m e = (
  record m { attempts = insert id (entries id m.attempts ++ a ∷ []) m.attempts },
  rw (e, save_attempt) refl,
  ground (arith, eq_iff id j, lookup-insert id j (entries id m.attempts ++ a ∷ []) m.attempts),
)

-- A recorded relation is the last child of its parent, and the child's parent; the other tasks'
-- children and parents are as before.
pub save_relation_links :
    (parent child p c : String) (m : MemoryStore)
    → (get_sub_task_ids p (save_relation parent child m) ≡ (
        if str_eq parent p then get_sub_task_ids parent m ++ child ∷ [] else get_sub_task_ids p m))
      × (get_parent_task_id c (save_relation parent child m)
          ≡ (if str_eq child c then parent else get_parent_task_id c m))
unfolding save_relation get_sub_task_ids get_parent_task_id
save_relation_links parent child p c m = (
  ground (arith, lookup-insert parent p (entries parent m.relations ++ child ∷ []) m.relations),
  ground (arith, lookup-insert child c parent m.parent_of),
)

In-task_values :
    (id : String) (t : Task) (m : List (String × Task)) → In (id, t) m → In t (task_values m)
In-task_values id t [] i = absurd i
In-task_values id t ((j, u) ∷ m) (inl e) = inl (ap (λ p. p.1) e)
In-task_values id t ((j, u) ∷ m) (inr i) = inr (In-task_values id t m i)

task_values-In :
    (t : Task) (m : List (String × Task)) → In t (task_values m) → (id : String) × In (id, t) m
task_values-In t [] i = absurd i
task_values-In t ((j, u) ∷ m) (inl e) = (j, inl (ap (λ v. (j, v)) e))
task_values-In t ((j, u) ∷ m) (inr i) = let (id, k) = task_values-In t m i in (id, inr k)

from_start : (ts : List Task) → from_offset (pos 0) ts ≡ ts
unfolding from_offset
from_start [] = refl
from_start (t ∷ ts) = ground arith

all_listed :
    (f : TaskFilter) (m : MemoryStore)
    → f.offset ≡ pos 0
    → f.limit ≡ pos 0
    → list_tasks f m ≡ keep_if (wanted f) (task_values m.tasks)
unfolding list_tasks up_to_limit wanted
all_listed f m o l = simp (o, l) (from_start (keep_if (wanted f) (task_values m.tasks)))

-- Without offset and limit, from a store with one entry for each id, the listed tasks are exactly
-- the store's tasks that the filter wants.
pub list_tasks-wanted :
    (f : TaskFilter) (t : Task) (m : MemoryStore)
    → UniqueKeys m.tasks
    → f.offset ≡ pos 0
    → f.limit ≡ pos 0
    → In t (list_tasks f m) ↔ ((id : String) × (get_task id m ≡ some t) × (wanted f t ≡ true))
unfolding get_task
list_tasks-wanted f t m u o l =
    let e = all_listed f m o l in
    (
      λ i.
          let (k, w) = In-keep_if (wanted f) t (task_values m.tasks) (rw e at i) in
          let (id, k') = task_values-In t m.tasks k in (id, lookup_of_In id t m.tasks u k', w),
      λ (id, g, w). rw e (
          keep_if-In (wanted f) t (task_values m.tasks)
            (In-task_values id t m.tasks (In_of_lookup id t m.tasks g)) w),
    )
