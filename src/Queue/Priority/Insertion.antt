-- ===== src/Queue/Priority/Insertion.antt =====
-- What a new item does to the heap: `heap.Push`, as pkg/reef/server/priority_queue.go calls it.
use reef.Prelude.{ℕ, ◌+◌, ◌<◌, ◌≡◌, ◌≢◌, ◌⊎◌, inl, inr, arith, ◌==◌, String, Bool-cases, ap, ◌∙◌}
use reef.Prelude.Int.{ℤ}
use reef.Queue.Priority.{PqItems, PriorityHeap, precedes, parent, append, heap_push}
use reef.Queue.Priority.Order.{IsHeap, IsFlawed, Ordered-by}
use reef.Queue.Priority.Sift.{up-IsHeap}
use reef.Queue.Priority.Content.{tally, tally-append, IsIndexed}
use reef.Queue.Priority.Same.{up-SameItems}
use reef.Queue.Priority.Queue.{set_item}

-- `g` is the heap `h` with the item `a` added.
pub record Added (it : PqItems) (h : PriorityHeap) (a : ℕ) (g : PriorityHeap) : Type 0 where
  pub longer : g.len ≡ h.len + 1
  pub indexed : IsIndexed g.len g
  pub is_heap : IsHeap it g.slots g.len
  pub with_it : (w : ℕ → ℕ) → tally w g.slots g.len ≡ tally w h.slots h.len + w a
  pub from :
      (k : ℕ) → k < g.len → (g.slots k ≡ a) ⊎ ((j : ℕ) × (j < h.len) × (g.slots k ≡ h.slots j))
  pub into : (k : ℕ) → k < h.len → (j : ℕ) × (j < g.len) × (g.slots j ≡ h.slots k)
  pub held : (j : ℕ) × (j < g.len) × (g.slots j ≡ a)

module _ (it : PqItems) (h : PriorityHeap) (a : ℕ) (fresh : (k : ℕ) → k < h.len → h.slots k ≢ a)
    (x : IsIndexed h.len h) where
  append-IsIndexed : IsIndexed (h.len + 1) (append a h)
  unfolding append
  append-IsIndexed k p = ground (arith, fresh k, x k)

  append-IsFlawed : IsHeap it h.slots h.len → IsFlawed it (append a h).slots (h.len + 1) h.len
  unfolding append
  append-IsFlawed heap = record {
    edges = λ c b q d e.
        Ordered-by it (append a h).slots (parent c) c (h.slots (parent c)) (h.slots c)
          (ground arith) (ground arith) (heap c b (omega arith));
    bridged = λ c b q e r. absurd (omega arith);
  }

  pub heap_push-Added : IsHeap it h.slots h.len → Added it h a (heap_push it a h)
  unfolding heap_push append
  heap_push-Added heap =
      let n = h.len + 1 in
      let s = up-SameItems it n (append a h) append-IsIndexed h.len (omega arith) in
      let last : (append a h).slots h.len ≡ a = ground arith in
      let before : (k : ℕ) → k < h.len → (append a h).slots k ≡ h.slots k = λ k p. ground arith in
      record {
        longer = s.same_len;
        indexed = rw s.same_len s.indexed;
        is_heap = rw s.same_len (
            up-IsHeap it n h.len (append a h) (omega arith) (append-IsFlawed heap)
              (λ c b q e. absurd (omega arith)));
        with_it =
            λ w. rw s.same_len (omega (arith, s.same_tally w, tally-append w h.slots a h.len));
        from = λ k p.
            let (j, b, e) = s.from k (omega (arith, s.same_len)) in
            elim (Bool-cases (j == h.len)) [
              | inl f ↦ inl (e ∙ ap (append a h).slots (ground arith) ∙ last)
              | inr f ↦ inr (j, ground arith, e ∙ before j (ground arith))
            ];
        into = λ k p.
            let (j, b, e) = s.into k (omega arith) in
            (j, omega (arith, s.same_len), e ∙ before k p);
        held =
            let (j, b, e) = s.into h.len (omega arith) in (j, omega (arith, s.same_len), e ∙ last);
      }

-- A new item leaves the order of the others alone.
pub set_item-IsHeap :
    (it : PqItems) (s : ℕ → ℕ) (n a r : ℕ) (id : String) (p : ℤ) (seq : ℕ)
    → ((k : ℕ) → k < n → s k ≢ a)
    → IsHeap it s n
    → IsHeap (set_item a r id p seq it) s n
unfolding precedes
set_item-IsHeap it s n a r id p seq f h c b q = ground (arith, f c q, f (parent c), h c b q)
