-- ===== src/Queue/Priority/Removal.antt =====
-- What taking an item out of the heap does: `heap.Pop` and `heap.Remove`, as
-- pkg/reef/server/priority_queue.go calls them.
use reef.Prelude.{
  ℕ, zero, suc, ◌+◌, ◌-◌, ◌<◌, ◌≡◌, refl, ◌≢◌, inl, inr, arith, ◌==◌, if◌then◌else◌, Bool-cases,
  subst, sym, ap, ◌∙◌,
}
use reef.Queue.Priority.{
  PqItems, PriorityHeap, exchange, parent, swap, drop_last, down, sift, heap_pop, heap_remove,
}
use reef.Queue.Priority.Order.{IsHeap, IsFlawed, IsFlawed-of_heap, Ordered-by}
use reef.Queue.Priority.Sift.{sift-IsHeap, down-IsHeap}
use reef.Queue.Priority.Content.{tally, IsIndexed, down_keeps, sift_keeps}
use reef.Queue.Priority.Same.{SameItems, SameItems-refl, swap-SameItems}

-- `g` is the heap `h` without its item at `i`, which is `a`.
pub record Removed (it : PqItems) (h : PriorityHeap) (i : ℕ) (g : PriorityHeap) (a : ℕ)
    : Type 0 where
  pub is_at : a ≡ h.slots i
  pub shorter : g.len + 1 ≡ h.len
  pub indexed : IsIndexed g.len g
  pub is_heap : IsHeap it g.slots g.len
  pub rest : (w : ℕ → ℕ) → tally w g.slots g.len + w a ≡ tally w h.slots h.len
  pub from : (k : ℕ) → k < g.len → (j : ℕ) × (j < h.len) × (g.slots k ≡ h.slots j)
  pub into : (k : ℕ) → k < h.len → k ≢ i → (j : ℕ) × (j < g.len) × (g.slots j ≡ h.slots k)

module _ (it : PqItems) (n : ℕ) (h : PriorityHeap) (size : h.len ≡ suc n)
    (x : IsIndexed (suc n) h) where
  -- The last item is dropped once the item at `i` has got there and the others are in order.
  drop_last-Removed :
      (i : ℕ) (g : PriorityHeap)
      → i < suc n
      → SameItems (suc n) h g
      → g.slots n ≡ h.slots i
      → IsHeap it g.slots n
      → Removed it h i (drop_last g).0 (drop_last g).1
  unfolding drop_last
  drop_last-Removed i g p s last heap =
      let short : g.len - 1 ≡ n = omega (arith, s.same_len) in
      let before : (j k : ℕ)
          → j < suc n
          → g.slots j ≡ h.slots k
          → k < suc n
          → k ≢ i
          → j < g.len - 1 =
        λ j k b e q d. elim (Bool-cases (j == n)) [
          | inl f ↦ absurd (ground (arith, x k q, x i p, last, e))
          | inr f ↦ ground (arith, short)
        ] in
      record {
        is_at = ap g.slots short ∙ last;
        shorter = omega (arith, s.same_len);
        indexed = λ k q.
            ground
              (arith, s.indexed k (omega (arith, s.same_len)), s.indexed n (omega arith), short);
        is_heap = λ c b q. heap c b (omega (arith, short));
        rest = λ w. rw (short, size) (omega (arith, s.same_tally w));
        from = λ k q. let (j, b, e) = s.from k (omega (arith, short)) in (j, omega arith, e);
        into = λ k q d.
            let (j, b, e) = s.into k (omega arith) in (j, before j k b e (omega arith) d, e);
      }

  moved-IsFlawed :
      (i : ℕ) → i < suc n → IsHeap it h.slots (suc n) → IsFlawed it (exchange i n h.slots) n i
  moved-IsFlawed i p heap =
      let s = h.slots in
      let all = IsFlawed-of_heap it s (suc n) i heap in
      record {
        edges = λ c b q d e.
            Ordered-by it (exchange i n s) (parent c) c (s (parent c)) (s c) (ground arith)
              (ground arith) (heap c b (omega arith));
        bridged = λ c b q e r.
            Ordered-by it (exchange i n s) (parent i) c (s (parent i)) (s c) (ground arith)
              (ground arith) (all.bridged c b (omega arith) e r);
      }

  -- The item at `i` changes places with the last one, and stays there while the others are sifted.
  abbrev SetAside : ℕ → PriorityHeap → Type 0
  SetAside i g = SameItems (suc n) h g × (g.slots n ≡ h.slots i)

  set_aside : (i : ℕ) → i < suc n → SetAside i (swap i n h)
  unfolding swap
  set_aside i p =
      (swap-SameItems (suc n) i n h h p (omega arith) (SameItems-refl (suc n) h x), ground arith)

  SetAside-keeps :
      (i j k : ℕ) (g : PriorityHeap) → j < n → k < n → SetAside i g → SetAside i (swap j k g)
  unfolding swap
  SetAside-keeps i j k g p q (s, e) =
      (swap-SameItems (suc n) j k h g (omega arith) (omega arith) s, ground arith)

  down_nothing : (m : ℕ) (g : PriorityHeap) → m ≡ 0 → (down it 0 m g).0 ≡ g
  unfolding down
  down_nothing zero g e = refl
  down_nothing (suc m) g e = absurd (omega arith)

  pop-Removed-suc :
      IsHeap it h.slots (suc n)
      → let g = (down it 0 n (swap 0 n h)).0 in Removed it h 0 (drop_last g).0 (drop_last g).1
  unfolding swap
  pop-Removed-suc heap =
      let aside = set_aside 0 (omega arith) in
      let flawed = moved-IsFlawed 0 (omega arith) heap in
      let (s, e) = popped_aside aside in
      drop_last-Removed 0 (down it 0 n (swap 0 n h)).0 (omega arith) s e
        (down-IsHeap it n 0 (swap 0 n h) flawed (λ b. absurd (omega arith)))
    where
      popped_aside : SetAside 0 (swap 0 n h) → SetAside 0 (down it 0 n (swap 0 n h)).0
      popped_aside a = elim (Bool-cases (n == 0)) [
        | inl e ↦ subst (SetAside 0) (sym (down_nothing n (swap 0 n h) (ground arith))) a
        | inr e ↦ down_keeps (SetAside 0) it n (SetAside-keeps 0) 0 (swap 0 n h) (ground arith) a
      ]

  remove-Removed-suc :
      (i : ℕ)
      → i < suc n
      → IsHeap it h.slots (suc n)
      → let g = if n == i then h else sift it i n (swap i n h) in
        Removed it h i (drop_last g).0 (drop_last g).1
  unfolding swap
  remove-Removed-suc i p heap = elim (Bool-cases (n == i)) [
    | inl e ↦ rw e (
        drop_last-Removed i h p (SameItems-refl (suc n) h x) (ground arith)
          (λ c b q. heap c b (omega arith)))
    | inr e ↦
        let inside : i < n = ground arith in
        let (s, l) =
          sift_keeps (SetAside i) it n (SetAside-keeps i) i (swap i n h) inside (set_aside i p) in
        rw e (
          drop_last-Removed i (sift it i n (swap i n h)) p s l
            (sift-IsHeap it n i (swap i n h) inside (moved-IsFlawed i p heap)))
  ]

module _ (it : PqItems) (h : PriorityHeap) (x : IsIndexed h.len h)
    (heap : IsHeap it h.slots h.len) where
  -- `heap.Pop` takes out the item at the root.
  pub heap_pop-Removed : 0 < h.len → Removed it h 0 (heap_pop it h).0 (heap_pop it h).1
  unfolding heap_pop
  heap_pop-Removed p =
      let size : h.len ≡ suc (h.len - 1) = omega arith in
      pop-Removed-suc it (h.len - 1) h size (subst (λ l. IsIndexed l h) size x)
        (subst (IsHeap it h.slots) size heap)

  -- `heap.Remove` takes out the item at the index.
  pub heap_remove-Removed :
      (i : ℕ) → i < h.len → Removed it h i (heap_remove it i h).0 (heap_remove it i h).1
  unfolding heap_remove
  heap_remove-Removed i p =
      let size : h.len ≡ suc (h.len - 1) = omega arith in
      remove-Removed-suc it (h.len - 1) h size (subst (λ l. IsIndexed l h) size x) i (omega arith)
        (subst (IsHeap it h.slots) size heap)
