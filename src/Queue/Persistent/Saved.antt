-- ===== src/Queue/Persistent/Saved.antt =====
-- The persistent queue refuses what it has saved before (pkg/reef/server/queue_persistent.go,
-- `Enqueue`), also where the scheduler hands a task back (scheduler.go, `TryDispatch`).
use reef.Prelude.{
  ℕ, ◌+◌, ◌≤◌, ◌<◌, ◌≡◌, refl, true, false, [], ◌∷◌, ◌++◌, none, some, arith, lookup, length, leb,
  eq_refl, lookup-insert, insert, Option-cases, inl, inr, Bool-cases, length-append, ap, sym, ◌∙◌,
}
use reef.Task.{Task}
use reef.Store.{get_task, save_task}
use reef.Queue.Persistent.{PersistentQueue, enqueue, dequeue, len}

module _ (h : ℕ → Task) (r : ℕ) (q : PersistentQueue) where
  pub saved_refused :
      (t : Task) → lookup (h r).id q.store.tasks ≡ some t → enqueue h r q ≡ (q, false)
  unfolding enqueue save_task
  saved_refused t e = ground arith

  abbrev pub grown_queue : PersistentQueue
  grown_queue = record q {
    store = record q.store { tasks = insert (h r).id (h r) q.store.tasks };
    cache = q.cache ++ r ∷ [];
  }

  pub enqueue_fresh :
      length q.cache < q.max_len
      → get_task (h r).id q.store ≡ none
      → enqueue h r q ≡ (grown_queue, true)
  unfolding enqueue save_task get_task
  enqueue_fresh f l = ground arith

  -- An accepted task is last in the cache, and the store holds it under its id, so that a restart
  -- can bring it back; the length is raised by one and stays within the limit.
  pub enqueue_saves :
      (q' : PersistentQueue)
      → enqueue h r q ≡ (q', true)
      → (q'.cache ≡ q.cache ++ r ∷ [])
        × (get_task (h r).id q.store ≡ none)
        × (get_task (h r).id q'.store ≡ some (h r))
        × (len q' ≡ len q + 1)
        × (len q' ≤ q'.max_len)
  unfolding enqueue save_task get_task len
  enqueue_saves q' e = elim (Bool-cases (leb q.max_len (length q.cache))) [
    | inl f ↦ absurd (ground arith)
    | inr f ↦ elim (Option-cases (lookup (h r).id q.store.tasks)) [
      | inr (t, l) ↦ absurd (ground (arith, saved_refused t l))
      | inl l ↦
          let written = lookup-insert (h r).id (h r).id (h r) q.store.tasks in
          let grown = length-append q.cache (r ∷ []) in
          let opened = enqueue_fresh (ground arith) l in
          let same : grown_queue ≡ q' = ap (λ p. p.0) (sym opened ∙ e) in
          rw (← same) (refl, l, ground (arith, eq_refl (h r).id), ground arith, ground arith)
    ]
  ]

module _ (h : ℕ → Task) (r : ℕ) (q : PersistentQueue) where
  -- A task that was accepted once is refused for good: taken off the queue it cannot go back, whatever
  -- it has become meanwhile, since the store still has its id.
  pub taken_cannot_return :
      (h' : ℕ → Task) (q' : PersistentQueue)
      → enqueue h r q ≡ (q', true)
      → (h' r).id ≡ (h r).id
      → enqueue h' r (dequeue q').1 ≡ ((dequeue q').1, false)
  unfolding dequeue get_task
  taken_cannot_return h' q' e i =
      let (_, _, held, _, _) = enqueue_saves h r q q' e in
      let kept : lookup (h' r).id (dequeue q').1.store.tasks ≡ some (h r) = ground arith in
      saved_refused h' r (dequeue q').1 (h r) kept
