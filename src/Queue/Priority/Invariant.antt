-- ===== src/Queue/Priority/Invariant.antt =====
-- The invariant of the priority queue, and that its operations keep it and never panic
-- (pkg/reef/server/priority_queue.go).
use reef.Prelude.{
  ℕ, ◌+◌, ◌≤◌, ◌<◌, ◌≡◌, ◌≢◌, inl, inr, false, some, String, arith, Bool-cases, lookup, insert,
  delete, eq_iff, lookup-insert, lookup-delete, ap, ◌∙◌, str_eq,
}
use reef.Prelude.Int.{ℤ}
use reef.Queue.Priority.{PriorityHeap}
use reef.Queue.Priority.Order.{IsHeap}
use reef.Queue.Priority.Content.{IsIndexed}
use reef.Queue.Priority.Removal.{Removed}
use reef.Queue.Priority.Insertion.{Added, heap_push-Added, set_item-IsHeap}
use reef.Queue.Priority.Queue.{PriorityQueue, new_priority_queue, add_item, set_item}

-- The heap is in order, each item knows its index, the pointers in use and the sequence numbers are behind the
-- counters, and the index by id leads to an item of that id in the heap.
pub record IsValid (q : PriorityQueue) : Type 0 where
  pub is_heap : IsHeap q.items q.heap.slots q.heap.len
  pub indexed : IsIndexed q.heap.len q.heap
  pub fresh : (k : ℕ) → k < q.heap.len → q.heap.slots k < q.next
  pub counted : (k : ℕ) → k < q.heap.len → q.items.seq (q.heap.slots k) ≤ q.seq
  pub named :
      (id : String) (a : ℕ)
      → lookup id q.by_id ≡ some a
      → (q.items.task_id a ≡ id) × (k : ℕ) × (k < q.heap.len) × (q.heap.slots k ≡ a)

pub new_priority_queue-IsValid :
    (max_len max_age : ℤ) → IsValid (new_priority_queue max_len max_age)
unfolding new_priority_queue lookup
new_priority_queue-IsValid max_len max_age = record {
  is_heap = λ c p q. absurd (omega arith);
  indexed = λ k p. absurd (omega arith);
  fresh = λ k p. absurd (omega arith);
  counted = λ k p. absurd (omega arith);
  named = λ id a e. absurd (ground arith);
}

module _ (q : PriorityQueue) (v : IsValid q) where
  pub unused : (k : ℕ) → k < q.heap.len → q.heap.slots k ≢ q.next
  unused k p e = omega (arith, v.fresh k p, e)

  module _ (r : ℕ) (id : String) (p : ℤ) where
    pub add_item-Added :
        Added (set_item q.next r id p (q.seq + 1) q.items) q.heap q.next (add_item r id p q).heap
    unfolding add_item
    add_item-Added =
        let it = set_item q.next r id p (q.seq + 1) q.items in
        heap_push-Added it q.heap q.next unused v.indexed (
          set_item-IsHeap q.items q.heap.slots q.heap.len q.next r id p (q.seq + 1) unused
            v.is_heap)

    add_item_named :
        (key : String) (a : ℕ)
        → lookup key (insert id q.next q.by_id) ≡ some a
        → ((set_item q.next r id p (q.seq + 1) q.items).task_id a ≡ key)
          × (k : ℕ) × (k < (add_item r id p q).heap.len)
          × ((add_item r id p q).heap.slots k ≡ a)
    add_item_named key a e = elim (Bool-cases (str_eq id key)) [
      | inl s ↦
          let same : q.next ≡ a = ground (arith, lookup-insert id key q.next q.by_id) in
          let (j, b, f) = add_item-Added.held in (ground (arith, eq_iff id key), j, b, f ∙ same)
      | inr d ↦
          let old : lookup key q.by_id ≡ some a =
            ground (arith, lookup-insert id key q.next q.by_id) in
          let (n, k, b, f) = v.named key a old in
          let (j, c, g) = add_item-Added.into k b in (ground (arith, v.fresh k b), j, c, g ∙ f)
    ]

    pub add_item-IsValid : IsValid (add_item r id p q)
    unfolding add_item
    add_item-IsValid =
        let d = add_item-Added in
        record {
          is_heap = d.is_heap;
          indexed = d.indexed;
          fresh = λ k b. elim (d.from k b) [
            | inl e ↦ omega (arith, e)
            | inr (j, c, e) ↦ omega (arith, e, v.fresh j c)
          ];
          counted = λ k b. elim (d.from k b) [
            | inl e ↦ ground (arith, e)
            | inr (j, c, e) ↦ ground (arith, e, v.fresh j c, v.counted j c)
          ];
          named = add_item_named;
        }

  -- The queue without the item `a` at `i`.
  pub removal-IsValid :
      (i a : ℕ) (id : String) (g : PriorityHeap)
      → i < q.heap.len
      → Removed q.items q.heap i g a
      → q.items.task_id a ≡ id
      → IsValid (record q { heap = g; by_id = delete id q.by_id })
  removal-IsValid i a id g p d n = record {
    is_heap = d.is_heap;
    indexed = d.indexed;
    fresh = λ k b. let (j, c, e) = d.from k b in omega (arith, e, v.fresh j c);
    counted = λ k b. let (j, c, e) = d.from k b in rw e (v.counted j c);
    named = λ key b e.
        let other : str_eq id key ≡ false = ground (arith, lookup-delete id key q.by_id) in
        let old : lookup key q.by_id ≡ some b = ground (arith, lookup-delete id key q.by_id) in
        let (m, k, c, f) = v.named key b old in
        let (j, l, h) =
          d.into k c (λ s. ground (arith, eq_iff id key, d.is_at, ap q.heap.slots s)) in
        (m, j, l, h ∙ f);
  }
