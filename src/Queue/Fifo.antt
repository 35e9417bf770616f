-- ===== src/Queue/Fifo.antt =====
-- The FIFO queue as a bounded sequence (pkg/reef/server/queue.go).
use reef.Prelude.{
  ℕ, zero, suc, ◌+◌, ◌-◌, ◌≤◌, ◌<◌, ◌≡◌, refl, ◌⊎◌, inl, inr, not, List, [], ◌∷◌, ◌++◌, append-nil,
  append_assoc, Option, none, some, arith, length, length-append, keep_if, ltb, Bool-cases, ◌∙◌, ap,
  sym,
}
use reef.Prelude.Int.{ℤ}
use reef.Queue.{
  TaskQueue, new_task_queue, enqueue, dequeue, peek, len, snapshot, is_old, split_expired, expire,
}

module _ {A : Type 0} where
  -- Enqueueing the tasks one by one; `none` when one of them is refused.
  unfoldable pub enqueue_all : List A → TaskQueue A → Option (TaskQueue A)
  enqueue_all [] q = some q
  enqueue_all (t ∷ ts) q = elim (enqueue t q) [ none ↦ none | some q' ↦ enqueue_all ts q' ]

  -- Dequeueing `n` times; what came out, in order.
  unfoldable pub dequeue_all : ℕ → TaskQueue A → List (Option A) × TaskQueue A
  dequeue_all zero q = ([], q)
  dequeue_all (suc n) q =
      let (t, q') = dequeue q in let (ts, q'') = dequeue_all n q' in (t ∷ ts, q'')

  abbrev pub all_some : List A → List (Option A)
  all_some [] = []
  all_some (t ∷ ts) = some t ∷ all_some ts

  enqueue_all_tasks :
      (ts : List A) (q : TaskQueue A)
      → length q.tasks + length ts ≤ q.max_len
      → enqueue_all ts q ≡ some (record q { tasks = q.tasks ++ ts })
  unfolding enqueue_all enqueue
  enqueue_all_tasks [] q h = rw (append-nil q.tasks)
  enqueue_all_tasks (t ∷ ts) q h = elim (Bool-cases (ltb (length q.tasks) q.max_len)) [
    | inl e ↦
        let q' : TaskQueue A = record q { tasks = q.tasks ++ t ∷ [] } in
        let step : enqueue t q ≡ some q' = ground arith in
        rw (step, enqueue_all)
          (enqueue_all_tasks ts q' (omega (arith, length-append q.tasks (t ∷ [])))
            ∙ ap (λ xs. some (record q { tasks = xs })) (append_assoc q.tasks (t ∷ []) ts))
    | inr e ↦ absurd (ground arith)
  ]

  dequeue_all_tasks :
      (ts : List A) (q : TaskQueue A) (rest : List A)
      → q.tasks ≡ ts ++ rest
      → dequeue_all (length ts) q ≡ (all_some ts, record q { tasks = rest })
  unfolding dequeue_all dequeue
  dequeue_all_tasks [] q rest e = ground arith
  dequeue_all_tasks (t ∷ ts) q rest e =
      ground (arith, dequeue_all_tasks ts (record q { tasks = ts ++ rest }) rest refl)

  -- First in, first out: when the queue has room for the tasks, they are all accepted, and they
  -- come out behind those that waited before, in the order in which they went in; the queue is
  -- then empty, with the limits it had.
  pub fifo_order :
      (ts : List A) (q : TaskQueue A)
      → length q.tasks + length ts ≤ q.max_len
      → (q' : TaskQueue A) × (enqueue_all ts q ≡ some q')
        × (dequeue_all (length (q.tasks ++ ts)) q'
            ≡ (all_some (q.tasks ++ ts), record q { tasks = [] }))
  fifo_order ts q h = (
    record q { tasks = q.tasks ++ ts },
    enqueue_all_tasks ts q h,
    dequeue_all_tasks (q.tasks ++ ts) _ [] (sym (append-nil _)),
  )

  -- A task is refused exactly when the queue is full; an accepted one raises the length by one, and
  -- the length never passes the limit.
  pub enqueue_bounded :
      (t : A) (q : TaskQueue A)
      → len q ≤ q.max_len
      → ((q.max_len ≡ len q) × (enqueue t q ≡ none))
        ⊎ ((q' : TaskQueue A) × (enqueue t q ≡ some q')
            × (len q' ≡ len q + 1)
            × (len q' ≤ q'.max_len))
  unfolding enqueue len
  enqueue_bounded t q h = elim (Bool-cases (ltb (length q.tasks) q.max_len)) [
    | inl e ↦
        let grown = length-append q.tasks (t ∷ []) in
        inr
          (record q { tasks = q.tasks ++ t ∷ [] }, ground arith, omega arith, ground (arith, grown))
    | inr e ↦ inl (ground arith, ground arith)
  ]

  -- A peek shows the task that the next dequeue takes; it is `none` exactly when the queue is empty.
  pub peek-dequeue :
      (q : TaskQueue A)
      → (peek q ≡ (dequeue q).0)
        × (snapshot q ≡ (elim (peek q) [ none ↦ [] | some t ↦ t ∷ snapshot (dequeue q).1 ]))
  unfolding peek dequeue snapshot
  peek-dequeue q = ground arith

module _ {A : Type 0} (created_at : A → ℕ) where
  split_expired-keep_if :
      (now max_age : ℕ) (ts : List A)
      → split_expired created_at now max_age ts ≡ (
        keep_if (is_old created_at now max_age) ts,
        keep_if (λ t. not (is_old created_at now max_age t)) ts,
      )
  unfolding split_expired
  split_expired-keep_if now max_age [] = refl
  split_expired-keep_if now max_age (t ∷ ts) = ground (arith, split_expired-keep_if now max_age ts)

  -- `Expire` hands out exactly the tasks older than the limit and keeps exactly the others, both in
  -- their order, and leaves the limits alone.
  pub expire_splits :
      (now : ℕ) (q : TaskQueue A)
      → expire created_at now q ≡ (
        keep_if (λ t. ltb q.max_age (now - created_at t)) q.tasks,
        record q { tasks = keep_if (λ t. not (ltb q.max_age (now - created_at t))) q.tasks },
      )
  unfolding expire
  expire_splits now q = ground (arith, split_expired-keep_if now q.max_age q.tasks)

-- A new queue has a positive capacity and age limit, whatever was configured.
pub new_queue_usable :
    (A : Type 0) (max_len max_age : ℤ)
    → let q : TaskQueue A = new_task_queue max_len max_age in
      (0 < q.max_len) × (0 < q.max_age) × (len q ≡ 0)
unfolding new_task_queue len
new_queue_usable A max_len max_age = (ground arith, ground arith, refl)
