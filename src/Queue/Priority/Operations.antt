-- ===== src/Queue/Priority/Operations.antt =====
-- What enqueueing, dequeueing, removal and expiry do to a valid priority queue
-- (pkg/reef/server/priority_queue.go).
use reef.Prelude.{
  ℕ, zero, suc, ◌-◌, ◌≤◌, ◌<◌, ◌≡◌, refl, ◌⊎◌, inl, inr, true, false, List, [], ◌∷◌, none, some,
  String, arith, ltb, leb, ◌==◌, Bool-cases, Option-cases, subst, sym, lookup, delete, eq_refl,
  lookup-delete, ap, ◌∙◌, lt→ltb,
}
use reef.Prelude.Int.{pos, eqb_ℤ, ltb_ℤ}
use reef.Task.{Task}
use reef.Queue.Priority.{PqItems, precedes, parent, heap_pop, heap_remove}
use reef.Queue.Priority.Order.{IsHeap, Ordered, precedes_neg_trans, precedes_asym}
use reef.Queue.Priority.Removal.{Removed, heap_pop-Removed, heap_remove-Removed}
use reef.Queue.Priority.Queue.{
  PriorityQueue, resolve_priority, enqueue, dequeue, peek, remove_by_id, remove_all, expire,
  snapshot, matching,
}
use reef.Queue.Priority.Invariant.{IsValid, add_item-IsValid, removal-IsValid}

-- The root of a heap is behind none of its items.
root_first_below :
    (it : PqItems) (s : ℕ → ℕ) (n k i : ℕ) → IsHeap it s n → i < k → i < n → Ordered it s 0 i
root_first_below it s n zero i h b p = absurd (omega arith)
root_first_below it s n (suc k) i h b p = elim (Bool-cases (i == 0)) [
  | inl e ↦
      let never : precedes it (s i) (s 0) ≡ false = elim (Bool-cases (precedes it (s i) (s 0))) [
        | inl f ↦ absurd (ground (arith, precedes_asym it (s i) (s 0)))
        | inr f ↦ f
      ] in
      never
  | inr e ↦
      precedes_neg_trans it (s 0) (s (parent i)) (s i)
        (root_first_below it s n k (parent i) h (ground arith) (ground arith))
        (h i (ground arith) p)
]

pub root_first : (it : PqItems) (s : ℕ → ℕ) (n i : ℕ) → IsHeap it s n → i < n → Ordered it s 0 i
root_first it s n i h p = root_first_below it s n (suc i) i h (omega arith) p

not_above_of :
    (it : PqItems) (a b : ℕ)
    → precedes it b a ≡ false
    → ltb_ℤ (it.priority a) (it.priority b) ≡ false
unfolding precedes
not_above_of it a b h = ground arith

not_before_of :
    (it : PqItems) (a b : ℕ)
    → precedes it b a ≡ false
    → eqb_ℤ (it.priority b) (it.priority a) ≡ true
    → it.seq a ≤ it.seq b
unfolding precedes
not_before_of it a b h e = ground arith

module _ (q : PriorityQueue) (v : IsValid q) where
  pub enqueue-IsValid : (h : ℕ → Task) (r : ℕ) → IsValid (enqueue h r q).0
  unfolding enqueue
  enqueue-IsValid h r = elim (Bool-cases (leb q.max_len q.heap.len)) [
    | inl e ↦ rw e v
    | inr e ↦ rw e (add_item-IsValid q v r (h r).id (resolve_priority (h r).priority))
  ]

  pub dequeued :
      0 < q.heap.len
      → Removed q.items q.heap 0 (heap_pop q.items q.heap).0 (heap_pop q.items q.heap).1
  dequeued p = heap_pop-Removed q.items q.heap v.indexed v.is_heap p

  pub dequeue-IsValid : IsValid (dequeue q).1
  unfolding dequeue
  dequeue-IsValid = elim (Bool-cases (q.heap.len == 0)) [
    | inl e ↦ rw e v
    | inr e ↦
        let p : 0 < q.heap.len = ground arith in
        let a = (heap_pop q.items q.heap).1 in
        rw e (
          removal-IsValid q v 0 a (q.items.task_id a) (heap_pop q.items q.heap).0 p (dequeued p)
            refl)
  ]

  -- `a` is an item of the queue behind which stands no other: none has a higher priority, and of those
  -- with its priority none was inserted earlier.
  pub record IsFirst (a : ℕ) : Type 0 where
    pub inside : (k : ℕ) × (k < q.heap.len) × (q.heap.slots k ≡ a)
    pub not_above :
        (k : ℕ)
        → k < q.heap.len
        → ltb_ℤ (q.items.priority a) (q.items.priority (q.heap.slots k)) ≡ false
    pub not_before :
        (k : ℕ)
        → k < q.heap.len
        → eqb_ℤ (q.items.priority (q.heap.slots k)) (q.items.priority a) ≡ true
        → q.items.seq a ≤ q.items.seq (q.heap.slots k)

  -- A queue with tasks in it hands out, and shows before, the task whose item comes first: none waits with
  -- a higher priority, and of those with the same priority it was inserted first. Exactly the item at the
  -- root leaves the heap, every other item stays in with its data, and the queue stays valid.
  pub dequeue-IsFirst :
      0 < q.heap.len
      → (a : ℕ) × IsFirst a
        × (peek q ≡ some (q.items.task a))
        × ((dequeue q).0 ≡ some (q.items.task a))
        × Removed q.items q.heap 0 (dequeue q).1.heap a
        × ((dequeue q).1.items ≡ q.items)
        × IsValid (dequeue q).1
  unfolding dequeue peek
  dequeue-IsFirst p =
      let d = dequeued p in
      let e : (q.heap.len == 0) ≡ false = ground arith in
      let first : (k : ℕ) → k < q.heap.len → Ordered q.items q.heap.slots 0 k =
        λ k b. root_first q.items q.heap.slots q.heap.len k v.is_heap b in
      (
        q.heap.slots 0,
        record {
          inside = (0, p, refl);
          not_above = λ k b. not_above_of q.items (q.heap.slots 0) (q.heap.slots k) (first k b);
          not_before = λ k b. not_before_of q.items (q.heap.slots 0) (q.heap.slots k) (first k b);
        },
        rw e refl,
        rw e (ap (λ a. some (q.items.task a)) d.is_at),
        rw e (subst (Removed q.items q.heap 0 (heap_pop q.items q.heap).0) d.is_at d),
        rw e refl,
        dequeue-IsValid,
      )

  -- Removal by id never panics. An id that is not indexed is not found, and nothing changes; otherwise exactly the
  -- item indexed under it leaves the heap, the id is forgotten, and the queue stays valid.
  pub remove_by_id_exact :
      (id : String)
      → ((lookup id q.by_id ≡ none) × (remove_by_id id q ≡ some (q, false)))
        ⊎ ((a i : ℕ) × (q' : PriorityQueue) × (lookup id q.by_id ≡ some a)
            × (remove_by_id id q ≡ some (q', true))
            × (i < q.heap.len)
            × Removed q.items q.heap i q'.heap a
            × (lookup id q'.by_id ≡ none)
            × IsValid q')
  unfolding remove_by_id
  remove_by_id_exact id = elim (Option-cases (lookup id q.by_id)) [
    | inl e ↦ inl (e, rw (e, remove_by_id) refl)
    | inr (a, e) ↦
        let (n, i, p, f) = v.named id a e in
        let at : q.heap.index a ≡ pos i = ap q.heap.index (sym f) ∙ v.indexed i p in
        let g = (heap_remove q.items i q.heap).0 in
        let q' : PriorityQueue = record q { heap = g; by_id = delete id q.by_id } in
        let d = heap_remove-Removed q.items q.heap v.indexed v.is_heap i p in
        let out : (heap_remove q.items i q.heap).1 ≡ a = d.is_at ∙ f in
        let d' : Removed q.items q.heap i g a = subst (Removed q.items q.heap i g) out d in
        inr (
          a,
          i,
          q',
          e,
          rw (e, remove_by_id) (rw at (rw (lt→ltb i q.heap.len p) refl)),
          p,
          d',
          ground (arith, lookup-delete id id q.by_id, eq_refl id),
          removal-IsValid q v i a id g p d' n,
        )
  ]

module _ (h : ℕ → Task) where
  -- The removals of `Expire` never panic, and keep the queue valid.
  pub remove_all-IsValid :
      (rs : List ℕ) (q : PriorityQueue)
      → IsValid q
      → (q' : PriorityQueue) × (remove_all h rs q ≡ some q')
        × IsValid q'
        × (q'.heap.len ≤ q.heap.len)
  unfolding remove_all
  remove_all-IsValid [] q v = (q, refl, v, omega arith)
  remove_all-IsValid (r ∷ rs) q v = elim (remove_by_id_exact q v (h r).id) [
    | inl (e, f) ↦
        let (q₂, g₂, v₂, l) = remove_all-IsValid rs q v in (q₂, rw (f, remove_all) g₂, v₂, l)
    | inr (a, i, q₁, e, f, p, d, g, v₁) ↦
        let (q₂, g₂, v₂, l) = remove_all-IsValid rs q₁ v₁ in
        (q₂, rw (f, remove_all) g₂, v₂, omega (arith, l, d.shorter))
  ]

  -- `Expire` never panics: it hands out exactly the tasks that have waited too long, in heap order, and leaves a
  -- valid queue that is no longer.
  pub expire-IsValid :
      (now : ℕ) (q : PriorityQueue)
      → IsValid q
      → (q' : PriorityQueue) × (expire now h q
          ≡ some (matching (λ t. ltb q.max_age (now - t.created_at)) h (snapshot q), q'))
        × IsValid q'
        × (q'.heap.len ≤ q.heap.len)
  unfolding expire
  expire-IsValid now q v =
      let rs = matching (λ t. ltb q.max_age (now - t.created_at)) h (snapshot q) in
      let (q', e, w, l) = remove_all-IsValid rs q v in (q', rw (e, expire) refl, w, l)
