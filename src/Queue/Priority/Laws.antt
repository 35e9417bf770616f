-- ===== src/Queue/Priority/Laws.antt =====
-- The priority queue keeps the promises that the scheduler relies on
-- (pkg/reef/server/priority_queue.go, queue_iface.go).
use reef.Prelude.{
  ℕ, zero, suc, ◌+◌, ◌-◌, ◌≤◌, ◌<◌, ◌≡◌, refl, inl, inr, true, false, none, some, arith, ltb, ◌==◌,
  if◌then◌else◌, Bool-cases, Option-cases, delete, sym, ap, ◌∙◌,
}
use reef.Task.{Task}
use reef.Queue.Interface.{QueueLaws}
use reef.Queue.Priority.{PqItems, heap_pop}
use reef.Queue.Priority.Content.{tally}
use reef.Queue.Priority.Queue.{
  PriorityQueue, add_item, set_item, resolve_priority, enqueue, dequeue, peek, len, priority_ops,
}
use reef.Queue.Priority.Invariant.{IsValid, unused, add_item-Added}
use reef.Queue.Priority.Operations.{enqueue-IsValid, dequeue-IsValid, dequeued}

-- A valid queue within its limit.
abbrev pub IsBounded : PriorityQueue → Type 0
IsBounded q = IsValid q × (q.heap.len ≤ q.max_len)

-- One for an item of the task behind `x`.
abbrev pub weight : PqItems → ℕ → ℕ → ℕ
weight it x a = if it.task a == x then 1 else 0

-- How often the task behind `x` is queued.
abbrev pub occurs : ℕ → PriorityQueue → ℕ
occurs x q = tally (weight q.items x) q.heap.slots q.heap.len

tally_same :
    (w u : ℕ → ℕ) (s : ℕ → ℕ) (n : ℕ)
    → ((k : ℕ) → k < n → w (s k) ≡ u (s k))
    → tally w s n ≡ tally u s n
tally_same w u s zero h = refl
tally_same w u s (suc n) h =
    omega (arith, h n (omega arith), tally_same w u s n (λ k p. h k (omega arith)))

module _ (q : PriorityQueue) where
  nonempty : (r : ℕ) → peek q ≡ some r → (0 < q.heap.len) × (q.items.task (q.heap.slots 0) ≡ r)
  unfolding peek
  nonempty r e = (ground arith, ground arith)

  pub empty : peek q ≡ none → q.heap.len ≡ 0
  unfolding peek
  empty e = ground arith

  -- A dequeue of a queue with tasks in it, spelled out.
  taken :
      0 < q.heap.len
      → dequeue q ≡ (
        some (q.items.task (heap_pop q.items q.heap).1),
        record q {
          heap = (heap_pop q.items q.heap).0;
          by_id = delete (q.items.task_id (heap_pop q.items q.heap).1) q.by_id;
        },
      )
  unfolding dequeue
  taken p = let e : (q.heap.len == 0) ≡ false = ground arith in rw e refl

  left_alone : q.heap.len ≡ 0 → dequeue q ≡ (none, q)
  unfolding dequeue
  left_alone z = let e : (q.heap.len == 0) ≡ true = ground arith in rw e refl

  module _ (v : IsValid q) (r : ℕ) (e : peek q ≡ some r) where
    abbrev filled : 0 < q.heap.len
    filled = (nonempty r e).0

    peeked : (dequeue q).0 ≡ some r
    peeked =
        rw (taken filled)
          (ap (λ a. some (q.items.task a)) (dequeued q v filled).is_at ∙ ap some (nonempty r e).1)

    pub shorter : len (dequeue q).1 + 1 ≡ len q
    unfolding len
    shorter = rw (taken filled) (dequeued q v filled).shorter

    same_limit : (dequeue q).1.max_len ≡ q.max_len
    same_limit = rw (taken filled) refl

    pub one_less : (x : ℕ) → occurs x q ≡ occurs x (dequeue q).1 + (if r == x then 1 else 0)
    one_less x =
        let d = dequeued q v filled in
        let out : q.items.task (heap_pop q.items q.heap).1 ≡ r =
          ap q.items.task d.is_at ∙ (nonempty r e).1 in
        let g = (heap_pop q.items q.heap).0 in
        rw (taken filled) (
          sym (d.rest (weight q.items x))
          ∙ ap (λ t. tally (weight q.items x) g.slots g.len + (if t == x then 1 else 0)) out)

  pub dequeue-IsBounded : IsBounded q → IsBounded (dequeue q).1
  unfolding len
  dequeue-IsBounded (v, l) = (
    dequeue-IsValid q v,
    elim (Option-cases (peek q)) [
      | inl e ↦ rw (left_alone (empty e)) l
      | inr (r, e) ↦ omega (arith, shorter v r e, same_limit v r e)
    ],
  )

  module _ (v : IsValid q) (h : ℕ → Task) (r : ℕ) (free : q.heap.len < q.max_len) where
    abbrev grown : PriorityQueue
    grown = add_item r (h r).id (resolve_priority (h r).priority) q

    accepted : enqueue h r q ≡ (grown, true)
    unfolding enqueue
    accepted = ground arith

    longer : grown.heap.len ≡ q.heap.len + 1
    longer = (add_item-Added q v r (h r).id (resolve_priority (h r).priority)).longer

    same_max : grown.max_len ≡ q.max_len
    unfolding add_item
    same_max = refl

    one_more : (x : ℕ) → occurs x grown ≡ occurs x q + (if r == x then 1 else 0)
    unfolding add_item
    one_more x =
        let id = (h r).id in
        let p = resolve_priority (h r).priority in
        let it = set_item q.next r id p (q.seq + 1) q.items in
        let others : tally (weight it x) q.heap.slots q.heap.len ≡ occurs x q =
          tally_same (weight it x) (weight q.items x) q.heap.slots q.heap.len
            (λ k b. ground (arith, unused q v k b)) in
        let new : weight it x q.next ≡ (if r == x then 1 else 0) = ground arith in
        (add_item-Added q v r id p).with_it (weight it x) ∙ omega (arith, others, new)

  refused : (h : ℕ → Task) (r : ℕ) → q.max_len ≤ q.heap.len → enqueue h r q ≡ (q, false)
  unfolding enqueue
  refused h r f = ground arith

  pub enqueue-IsBounded : (h : ℕ → Task) (r : ℕ) → IsBounded q → IsBounded (enqueue h r q).0
  enqueue-IsBounded h r (v, l) = (
    enqueue-IsValid q v h r,
    elim (Bool-cases (ltb q.heap.len q.max_len)) [
      | inl e ↦
          let free : q.heap.len < q.max_len = ground arith in
          rw (accepted v h r free) (omega (arith, free, longer v h r free, same_max v h r free))
      | inr e ↦ rw (refused h r (ground arith)) l
    ],
  )

module _ (q : PriorityQueue) where
  pub dequeue_peek : IsValid q → (dequeue q).0 ≡ peek q
  dequeue_peek v = elim (Option-cases (peek q)) [
    | inl e ↦ rw (left_alone q (empty q e)) (sym e)
    | inr (r, e) ↦ peeked q v r e ∙ sym e
  ]

  pub dequeue_room :
      IsBounded q
      → (r : ℕ) → peek q ≡ some r
      → (dequeue q).1.max_len - (dequeue q).1.heap.len ≡ q.max_len - q.heap.len + 1
  unfolding len
  dequeue_room (v, l) r e = omega (arith, shorter q v r e, same_limit q v r e, l)

  pub enqueue_room :
      IsBounded q
      → (h : ℕ → Task) (r : ℕ) → 0 < q.max_len - q.heap.len
      → (enqueue h r q).0.max_len - (enqueue h r q).0.heap.len + 1 ≡ q.max_len - q.heap.len
  enqueue_room (v, l) h r p =
      let free : q.heap.len < q.max_len = omega arith in
      rw (accepted q v h r free) (omega (arith, longer q v h r free, same_max q v h r free))

  pub enqueue_occurs :
      IsValid q
      → (h : ℕ → Task) (r : ℕ) → 0 < q.max_len - q.heap.len
      → (x : ℕ) → occurs x (enqueue h r q).0 ≡ occurs x q + (if r == x then 1 else 0)
  enqueue_occurs v h r p x =
      let free : q.heap.len < q.max_len = omega arith in
      rw (accepted q v h r free) (one_more q v h r free x)

-- The priority queue may stand behind the interface of the scheduler.
unfoldable pub priority_laws : QueueLaws priority_ops
unfolding priority_ops len
priority_laws = record {
  IsValid = IsBounded;
  dequeue_valid = dequeue-IsBounded;
  enqueue_valid = λ h r q b. enqueue-IsBounded q h r b;
  occurs = occurs;
  room = λ q. q.max_len - q.heap.len;
  dequeue_peek = λ q b. dequeue_peek q b.0;
  dequeue_len = λ q r b e. shorter q b.0 r e;
  dequeue_room = λ q r b e. dequeue_room q b r e;
  dequeue_occurs = λ q r x b e. one_less q b.0 r e x;
  peek_none = λ q x e. ap (tally (weight q.items x) q.heap.slots) (empty q e);
  enqueue_room = λ h r q b p. enqueue_room q b h r p;
  enqueue_occurs = λ h r x q b p. enqueue_occurs q b.0 h r p x;
}
