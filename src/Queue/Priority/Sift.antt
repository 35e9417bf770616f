-- ===== src/Queue/Priority/Sift.antt =====
-- The loops that restore the heap order (container/heap, as pkg/reef/server/priority_queue.go calls it).
use reef.Prelude.{
  ℕ, zero, suc, ◌+◌, ◌*◌, ◌≤◌, ◌<◌, ◌≡◌, refl, ◌⊎◌, inl, inr, true, false, not, ◌||◌, none, some,
  arith, ltb, ◌==◌, Bool-cases, Option-cases, subst, sym, lt→ltb,
}
use reef.Queue.Priority.{
  PqItems, PriorityHeap, precedes, parent, sinks_to, swap, up_loop, up, down_loop, down, sift,
}
use reef.Queue.Priority.Order.{
  Ordered, IsHeap, IsFlawed, ChildrenOrdered, ParentOrdered, IsHeap-of_flawed, precedes_asym,
  precedes_neg_trans, rise-IsFlawed, rise_children, sink-IsFlawed, sink_parent,
}

-- What a round of `down` exchanges the item at `i` with: the first of its children, which comes before it.
pub record SinksTo (it : PqItems) (n i j : ℕ) (s : ℕ → ℕ) : Type 0 where
  pub below : 0 < j
  pub inside : j < n
  pub child : parent j ≡ i
  pub ahead : precedes it (s j) (s i) ≡ true
  pub first : (c : ℕ) → 0 < c → c < n → parent c ≡ i → Ordered it s j c

module _ (it : PqItems) (n i : ℕ) (s : ℕ → ℕ) where
  never_ahead : (a : ℕ) → precedes it a a ≡ false
  never_ahead a = elim (Bool-cases (precedes it a a)) [ inl e ↦ precedes_asym it a a e | inr e ↦ e ]

  child_cases : (c : ℕ) → 0 < c → parent c ≡ i → (c ≡ 2 * i + 1) ⊎ (c ≡ 2 * i + 1 + 1)
  child_cases c p e = elim (Bool-cases (c == 2 * i + 1)) [
    | inl g ↦ inl (ground arith)
    | inr g ↦ inr (ground arith)
  ]

  pub settles : sinks_to it n i s ≡ none → ChildrenOrdered it s n i
  unfolding sinks_to
  settles h c p q e =
      let l = 2 * i + 1 in
      let order = precedes_neg_trans it (s i) (s (l + 1)) (s l) in
      let order' = precedes_neg_trans it (s i) (s l) (s (l + 1)) in
      let strict = precedes_asym it (s (l + 1)) (s l) in
      elim (child_cases c p e) [
        | inl g ↦ subst (λ x. Ordered it s i x) (sym g) (ground (arith, order, strict))
        | inr g ↦ subst (λ x. Ordered it s i x) (sym g) (ground (arith, order', strict))
      ]

  pub sinks : (j : ℕ) → sinks_to it n i s ≡ some j → SinksTo it n i j s
  unfolding sinks_to
  sinks j h = record {
    below = ground arith;
    inside = ground arith;
    child = ground arith;
    ahead = ground arith;
    first = λ c p q e. elim (child_cases c p e) [
      | inl g ↦
          subst (λ x. Ordered it s j x) (sym g)
            (ground (
              arith,
              never_ahead (s (2 * i + 1)),
              precedes_asym it (s (2 * i + 1 + 1)) (s (2 * i + 1)),
            ))
      | inr g ↦
          subst (λ x. Ordered it s j x) (sym g) (ground (arith, never_ahead (s (2 * i + 1 + 1))))
    ];
  }

module _ (it : PqItems) (n : ℕ) where
  -- A heap in which one item may come before its parent is a heap after `up`.
  up_loop-IsHeap :
      (fuel j : ℕ) (h : PriorityHeap)
      → j < fuel
      → j < n
      → IsFlawed it h.slots n j
      → ChildrenOrdered it h.slots n j
      → IsHeap it (up_loop fuel it j h).slots n
  unfolding up_loop swap
  up_loop-IsHeap zero j h f p w d = absurd (omega arith)
  up_loop-IsHeap (suc fuel) j h f p w d =
      elim (Bool-cases (parent j == j || not (precedes it (h.slots j) (h.slots (parent j))))) [
        | inl e ↦ rw e (IsHeap-of_flawed it h.slots n j w d (λ b. ground arith))
        | inr e ↦
            let b : 0 < j = ground arith in
            let behind : precedes it (h.slots j) (h.slots (parent j)) ≡ true = ground arith in
            rw e (
              up_loop-IsHeap fuel (parent j) (swap (parent j) j h) (omega arith) (omega arith)
                (rise-IsFlawed it h.slots n j w p b behind)
                (rise_children it h.slots n j w p b behind))
      ]

  -- A heap in which one item may come behind its children is a heap after `down`.
  down_loop-IsHeap :
      (fuel i : ℕ) (h : PriorityHeap)
      → n ≤ fuel + i
      → IsFlawed it h.slots n i
      → ParentOrdered it h.slots i
      → IsHeap it (down_loop fuel it n i h).0.slots n
  unfolding down_loop swap
  down_loop-IsHeap zero i h f w u =
      IsHeap-of_flawed it h.slots n i w (λ c p q e. absurd (omega arith)) u
  down_loop-IsHeap (suc fuel) i h f w u = elim (Option-cases (sinks_to it n i h.slots)) [
    | inl e ↦ rw (e, down_loop) (IsHeap-of_flawed it h.slots n i w (settles it n i h.slots e) u)
    | inr (j, e) ↦
        let t = sinks it n i h.slots j e in
        rw (e, down_loop)
          (down_loop-IsHeap fuel j (swap i j h) (omega (arith, t.child, t.below))
            (sink-IsFlawed it h.slots n i w j t.below t.inside t.child t.ahead t.first)
            (sink_parent it h.slots n i w j t.below t.inside t.child t.ahead t.first))
  ]

  down_loop-le : (fuel i : ℕ) (h : PriorityHeap) → i ≤ (down_loop fuel it n i h).1
  unfolding down_loop
  down_loop-le zero i h = omega arith
  down_loop-le (suc fuel) i h = elim (Option-cases (sinks_to it n i h.slots)) [
    | inl e ↦ rw (e, down_loop) (omega arith)
    | inr (j, e) ↦
        let t = sinks it n i h.slots j e in
        rw (e, down_loop) (omega (arith, t.child, t.below, down_loop-le fuel j (swap i j h)))
  ]

  down_loop-none :
      (fuel i : ℕ) (h : PriorityHeap)
      → sinks_to it n i h.slots ≡ none
      → down_loop fuel it n i h ≡ (h, i)
  unfolding down_loop
  down_loop-none zero i h e = refl
  down_loop-none (suc fuel) i h e = rw (e, down_loop) refl

  -- One exchange downwards leaves nothing to mend above.
  down_moves :
      (fuel i j : ℕ) (h : PriorityHeap)
      → i < n
      → n ≤ fuel + i
      → IsFlawed it h.slots n i
      → sinks_to it n i h.slots ≡ some j
      → IsHeap it (down_loop fuel it n i h).0.slots n × (i < (down_loop fuel it n i h).1)
  unfolding down_loop swap
  down_moves zero i j h p f w e = absurd (omega arith)
  down_moves (suc fuel) i j h p f w e =
      let t = sinks it n i h.slots j e in
      rw (e, down_loop)
        (
          down_loop-IsHeap fuel j (swap i j h) (omega (arith, t.child, t.below))
              (sink-IsFlawed it h.slots n i w j t.below t.inside t.child t.ahead t.first)
              (sink_parent it h.slots n i w j t.below t.inside t.child t.ahead t.first),
          omega (arith, t.child, t.below, down_loop-le fuel j (swap i j h)),
        )

  -- A heap with one flawed item is a heap after it is sifted, whichever way it has to go.
  pub sift-IsHeap :
      (i : ℕ) (h : PriorityHeap)
      → i < n
      → IsFlawed it h.slots n i
      → IsHeap it (sift it i n h).slots n
  unfolding sift down up
  sift-IsHeap i h p w = elim (Option-cases (sinks_to it n i h.slots)) [
    | inl e ↦
        let stays : down_loop n it n i h ≡ (h, i) = down_loop-none n i h e in
        let still : ltb i i ≡ false = ground arith in
        rw (stays, still) (up_loop-IsHeap (i + 1) i h (omega arith) p w (settles it n i h.slots e))
    | inr (j, e) ↦
        let (heap, far) = down_moves n i j h p (omega arith) w e in
        let moved : ltb i (down_loop n it n i h).1 ≡ true = lt→ltb i (down_loop n it n i h).1 far in
        rw moved heap
  ]

  pub down-IsHeap :
      (i : ℕ) (h : PriorityHeap)
      → IsFlawed it h.slots n i
      → ParentOrdered it h.slots i
      → IsHeap it (down it i n h).0.slots n
  unfolding down
  down-IsHeap i h w u = down_loop-IsHeap n i h (omega arith) w u

  pub up-IsHeap :
      (j : ℕ) (h : PriorityHeap)
      → j < n
      → IsFlawed it h.slots n j
      → ChildrenOrdered it h.slots n j
      → IsHeap it (up it j h).slots n
  unfolding up
  up-IsHeap j h p w d = up_loop-IsHeap (j + 1) j h (omega arith) p w d
