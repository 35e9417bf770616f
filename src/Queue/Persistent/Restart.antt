-- ===== src/Queue/Persistent/Restart.antt =====
-- What a restart brings back (pkg/reef/server/queue_persistent.go, `restore`).
use reef.Prelude.{
  ℕ, ◌+◌, ◌<◌, ◌≡◌, refl, ◌⊎◌, inl, inr, true, List, [], ◌∷◌, ◌++◌, some, String, arith, In,
  UniqueKeys, update, In-append_left, In-append_right, if◌then◌else◌, ◌∙◌, ap,
}
use reef.Prelude.Int.{ℤ}
use reef.Task.Status.{queued, paused, running, assigned, same_status, any_status}
use reef.Task.{Task}
use reef.Store.{MemoryStore, get_task, list_tasks, wanted}
use reef.Store.Laws.{list_tasks-wanted}
use reef.Queue.{default_unless_positive, default_max_age}
use reef.Queue.Persistent.{
  PersistentQueue, restore_tasks, restore, new_persistent_queue, unfinished, is_interrupted,
  requeued, updated,
}

-- A restored task: one that was with a client waits again.
abbrev pub restored : Task → Task
restored t = if is_interrupted t then requeued t else t

abbrev next_queue : ℕ → Task → PersistentQueue → PersistentQueue
next_queue base t q = record q {
  store = if is_interrupted t then updated (requeued t) q.store else q.store;
  cache = q.cache ++ base ∷ [];
}

-- The pointers in use before keep their objects.
below_base :
    (r base : ℕ) (ts : List Task) (h : ℕ → Task) (q : PersistentQueue)
    → r < base
    → (restore_tasks base ts h q).0 r ≡ h r
unfolding restore_tasks
below_base r base [] h q l = refl
below_base r base (t ∷ ts) h q l =
    ground (arith, below_base r (base + 1) ts (update h base (restored t)) (next_queue base t q))

cached_stays :
    (r base : ℕ) (ts : List Task) (h : ℕ → Task) (q : PersistentQueue)
    → In r q.cache
    → In r (restore_tasks base ts h q).1.cache
unfolding restore_tasks
cached_stays r base [] h q i = i
cached_stays r base (t ∷ ts) h q i =
    cached_stays r (base + 1) ts (update h base (restored t)) (next_queue base t q)
      (In-append_left r q.cache (base ∷ []) i)

listed_restored :
    (t : Task) (base : ℕ) (ts : List Task) (h : ℕ → Task) (q : PersistentQueue)
    → In t ts
    → (r : ℕ) × In r (restore_tasks base ts h q).1.cache
      × ((restore_tasks base ts h q).0 r ≡ restored t)
unfolding restore_tasks
listed_restored t base [] h q i = absurd i
listed_restored t base (u ∷ ts) h q (inl e) = (
  base,
  cached_stays base (base + 1) ts (update h base (restored u)) (next_queue base u q)
      (In-append_right base q.cache (base ∷ []) (inl refl)),
  below_base base (base + 1) ts (update h base (restored u)) (next_queue base u q) (omega arith)
      ∙ (ground arith)
      ∙ ap restored e,
)
listed_restored t base (u ∷ ts) h q (inr i) =
    listed_restored t (base + 1) ts (update h base (restored u)) (next_queue base u q) i

is_wanted :
    (t : Task)
    → ((t.status ≡ queued) ⊎ (t.status ≡ paused)) ⊎ ((t.status ≡ running) ⊎ (t.status ≡ assigned))
    → wanted unfinished t ≡ true
unfolding wanted any_status same_status
is_wanted t e = ground arith

waiting_stays : (t : Task) → (t.status ≡ queued) ⊎ (t.status ≡ paused) → restored t ≡ t
unfolding same_status
waiting_stays t e = ground arith

interrupted_waits :
    (t : Task)
    → (t.status ≡ running) ⊎ (t.status ≡ assigned)
    → restored t ≡ record t { status = queued }
unfolding same_status
interrupted_waits t e = ground arith

-- A task that the store, with one entry for each id, holds as queued, assigned, running or paused
-- waits in the queue again after a restart: its pointer is in the cache. The pointer shows the
-- saved task where it was queued or paused, and that task with the status queued where it was
-- assigned or running.
pub restart_restores :
    (base : ℕ) (h : ℕ → Task) (m : MemoryStore) (max_len max_age : ℤ) (id : String) (t : Task)
    → UniqueKeys m.tasks
    → get_task id m ≡ some t
    → ((t.status ≡ queued) ⊎ (t.status ≡ paused)) ⊎ ((t.status ≡ running) ⊎ (t.status ≡ assigned))
    → let (h', q) = new_persistent_queue base h m max_len max_age in
      (r : ℕ) × In r q.cache
      × ((((t.status ≡ queued) ⊎ (t.status ≡ paused)) × (h' r ≡ t))
          ⊎ (((t.status ≡ running) ⊎ (t.status ≡ assigned))
              × (h' r ≡ record t { status = queued })))
unfolding new_persistent_queue restore
restart_restores base h m max_len max_age id t u g c =
    let (r, i, e) =
      listed_restored t base (list_tasks unfinished m) h
        record {
          store = m;
          cache = [];
          max_len = default_unless_positive 1000 max_len;
          max_age = default_unless_positive default_max_age max_age;
        }
        ((list_tasks-wanted unfinished t m u refl refl).1 (id, g, is_wanted t c)) in
    (
      r,
      i,
      elim c [
        | inl w ↦ inl (w, e ∙ waiting_stays t w)
        | inr w ↦ inr (w, e ∙ interrupted_waits t w)
      ],
    )
