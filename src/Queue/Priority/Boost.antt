-- ===== src/Queue/Priority/Boost.antt =====
-- Boosting the tasks that have waited long (pkg/reef/server/priority_queue.go, `BoostStarvation`).
use reef.Prelude.{
  ℕ, zero, suc, ◌+◌, ◌≤◌, ◌<◌, ◌≡◌, refl, ◌≢◌, inl, inr, Bool, true, false, some, arith,
  if◌then◌else◌, Bool-cases, update, ◌∙◌,
}
use reef.Prelude.Int.{ℤ, pos, eqb_ℤ}
use reef.Task.{Task}
use reef.Queue.{is_old}
use reef.Queue.Priority.{PqItems, precedes, parent, heap_fix}
use reef.Queue.Priority.Order.{IsFlawed, Ordered, IsFlawed-of_heap}
use reef.Queue.Priority.Sift.{sift-IsHeap}
use reef.Queue.Priority.Same.{SameItems, sift-SameItems}
use reef.Queue.Priority.Queue.{
  PriorityQueue, boosted_priority, boost_item, boost_from, boost_starvation,
}
use reef.Queue.Priority.Invariant.{IsValid}

-- A new priority for the item `a`.
abbrev pub with_priority : ℕ → ℤ → PqItems → PqItems
with_priority a p it = record it { priority = update it.priority a p }

abbrev refixed : ℕ → ℕ → ℤ → PriorityQueue → PriorityQueue
refixed a i p q = record q {
  items = with_priority a p q.items;
  heap = heap_fix (with_priority a p q.items) i q.heap;
}

module _ (q : PriorityQueue) (v : IsValid q) (i a : ℕ) (p : ℤ) (inside : i < q.heap.len)
    (at : q.heap.slots i ≡ a) where
  other_item : (k : ℕ) → k < q.heap.len → k ≢ i → q.heap.slots k ≢ a
  other_item k b d e = ground (arith, v.indexed k b, v.indexed i inside)

  unmoved :
      (k l : ℕ)
      → k < q.heap.len
      → l < q.heap.len
      → k ≢ i
      → l ≢ i
      → Ordered q.items q.heap.slots k l
      → Ordered (with_priority a p q.items) q.heap.slots k l
  unfolding precedes
  unmoved k l b c d e o = ground (arith, other_item k b d, other_item l c e)

  changed-IsFlawed : IsFlawed (with_priority a p q.items) q.heap.slots q.heap.len i
  changed-IsFlawed =
      let all = IsFlawed-of_heap q.items q.heap.slots q.heap.len i v.is_heap in
      record {
        edges = λ c b r d e. unmoved (parent c) c (omega arith) r e d (v.is_heap c b r);
        bridged = λ c b r e o.
            unmoved (parent i) c (omega arith) r (omega arith) (omega arith)
              (all.bridged c b r e o);
      }

  pub refixed-SameItems :
      SameItems q.heap.len q.heap (heap_fix (with_priority a p q.items) i q.heap)
  unfolding heap_fix
  refixed-SameItems =
      sift-SameItems (with_priority a p q.items) q.heap.len q.heap v.indexed i inside

  pub refixed-IsValid : IsValid (refixed a i p q)
  unfolding heap_fix
  refixed-IsValid =
      let s = refixed-SameItems in
      let it = with_priority a p q.items in
      record {
        is_heap = rw s.same_len (sift-IsHeap it q.heap.len i q.heap inside changed-IsFlawed);
        indexed = rw s.same_len s.indexed;
        fresh = λ k b.
            let (j, c, e) = s.from k (omega (arith, s.same_len)) in omega (arith, e, v.fresh j c);
        counted =
            λ k b. let (j, c, e) = s.from k (omega (arith, s.same_len)) in rw e (v.counted j c);
        named = λ id b e.
            let (n, k, c, f) = v.named id b e in
            let (j, d, g) = s.into k c in (n, j, omega (arith, s.same_len), g ∙ f);
      }

module _ (now threshold : ℕ) (boost max_priority : ℤ) where
  -- One round never panics, keeps the queue valid and its length.
  boost_item-IsValid :
      (i : ℕ) (h : ℕ → Task) (q : PriorityQueue)
      → IsValid q
      → i < q.heap.len
      → (h' : ℕ → Task) × (q' : PriorityQueue) × (b : Bool) × (boost_item now threshold boost
            max_priority
            (q.heap.slots i)
            h
            q
          ≡ some (h', q', b))
        × IsValid q'
        × (q'.heap.len ≡ q.heap.len)
  unfolding boost_item
  boost_item-IsValid i h q v p =
      let a = q.heap.slots i in
      let r = q.items.task a in
      let prio = boosted_priority boost max_priority (q.items.priority a) in
      let at : q.heap.index a ≡ pos i = v.indexed i p in
      elim (Bool-cases (is_old (λ x. x.created_at) now threshold (h r))) [
        | inr e ↦ (h, q, false, ground arith, v, refl)
        | inl e ↦ elim (Bool-cases (eqb_ℤ prio (q.items.priority a))) [
          | inl f ↦ (h, q, false, ground arith, v, refl)
          | inr f ↦ (
            update h r (record (h r) { priority = prio }),
            refixed a i prio q,
            true,
            rw (e, boost_item) (rw f (rw at refl)),
            refixed-IsValid q v i a prio p refl,
            (refixed-SameItems q v i a prio p refl).same_len,
          )
        ]
      ]

  boost_from-IsValid :
      (i rounds : ℕ) (h : ℕ → Task) (q : PriorityQueue)
      → IsValid q
      → i + rounds ≤ q.heap.len
      → (h' : ℕ → Task) × (q' : PriorityQueue) × (n : ℕ) × (boost_from now threshold boost
            max_priority i rounds h q
          ≡ some (h', q', n))
        × IsValid q'
        × (q'.heap.len ≡ q.heap.len)
        × (n ≤ rounds)
  unfolding boost_from
  boost_from-IsValid i zero h q v p = (h, q, 0, refl, v, refl, omega arith)
  boost_from-IsValid i (suc rounds) h q v p =
      let (h₁, q₁, b, e, v₁, s) = boost_item-IsValid i h q v (omega arith) in
      let (h₂, q₂, n, f, v₂, t, l) =
        boost_from-IsValid (i + 1) rounds h₁ q₁ v₁ (omega (arith, s)) in
      (
        h₂,
        q₂,
        (if b then n + 1 else n),
        rw (e, boost_from) (rw f refl),
        v₂,
        t ∙ s,
        ground (arith, l),
      )

  -- A boost of a valid queue never panics, although it reorders the heap that it goes through; it leaves
  -- the queue valid, with as many tasks as before, and boosts at most that many.
  pub boost_starvation-IsValid :
      (h : ℕ → Task) (q : PriorityQueue)
      → IsValid q
      → (h' : ℕ → Task) × (q' : PriorityQueue) × (n : ℕ) × (boost_starvation now threshold boost
            max_priority h q
          ≡ some (h', q', n))
        × IsValid q'
        × (q'.heap.len ≡ q.heap.len)
        × (n ≤ q.heap.len)
  unfolding boost_starvation
  boost_starvation-IsValid h q v = boost_from-IsValid 0 q.heap.len h q v (omega arith)
