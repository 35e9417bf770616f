-- ===== src/Queue/Priority/Order.antt =====
-- The heap order of the priority queue (pkg/reef/server/priority_queue.go, `Less`), and how one exchange
-- along an edge moves a flaw up or down.
use reef.Prelude.{ℕ, ◌<◌, ◌≡◌, refl, ◌≢◌, inl, inr, true, false, arith, ◌==◌, subst, Bool-cases}
use reef.Queue.Priority.{PqItems, precedes, exchange, parent}

module _ (it : PqItems) where
  pub precedes_asym : (a b : ℕ) → precedes it a b ≡ true → precedes it b a ≡ false
  unfolding precedes
  precedes_asym a b h = ground arith

  pub precedes_neg_trans :
      (a b c : ℕ) → precedes it b a ≡ false → precedes it c b ≡ false → precedes it c a ≡ false
  unfolding precedes
  precedes_neg_trans a b c h k = ground arith

  -- The item at `p` is not behind the one at `c`.
  abbrev pub Ordered : (ℕ → ℕ) → ℕ → ℕ → Type 0
  Ordered s p c = precedes it (s c) (s p) ≡ false

  -- No item comes before its parent.
  abbrev pub IsHeap : (ℕ → ℕ) → ℕ → Type 0
  IsHeap s n = (c : ℕ) → 0 < c → c < n → Ordered s (parent c) c

  -- Every edge is in order but those at `i`, and those are bridged.
  pub record IsFlawed (s : ℕ → ℕ) (n i : ℕ) : Type 0 where
    pub edges : (c : ℕ) → 0 < c → c < n → c ≢ i → parent c ≢ i → Ordered s (parent c) c
    pub bridged : (c : ℕ) → 0 < c → c < n → parent c ≡ i → 0 < i → Ordered s (parent i) c

  -- The edges from `i` down are in order, the one above it is, or both.
  abbrev pub ChildrenOrdered : (ℕ → ℕ) → ℕ → ℕ → Type 0
  ChildrenOrdered s n i = (c : ℕ) → 0 < c → c < n → parent c ≡ i → Ordered s i c

  abbrev pub ParentOrdered : (ℕ → ℕ) → ℕ → Type 0
  ParentOrdered s i = 0 < i → Ordered s (parent i) i

  pub IsHeap-of_flawed :
      (s : ℕ → ℕ) (n i : ℕ)
      → IsFlawed s n i
      → ChildrenOrdered s n i
      → ParentOrdered s i
      → IsHeap s n
  IsHeap-of_flawed s n i f d u c p q = elim (Bool-cases (c == i)) [
    | inl e ↦ ground (arith, u)
    | inr e ↦ elim (Bool-cases (parent c == i)) [
      | inl g ↦ ground (arith, d c)
      | inr g ↦ f.edges c p q (ground arith) (ground arith)
    ]
  ]

  pub IsFlawed-of_heap : (s : ℕ → ℕ) (n i : ℕ) → IsHeap s n → IsFlawed s n i
  IsFlawed-of_heap s n i h = record {
    edges = λ c p q d e. h c p q;
    bridged = λ c p q e r.
        precedes_neg_trans (s (parent i)) (s i) (s c) (h i r (omega arith))
          (ground (arith, h c p q));
  }

  -- The exchanged elements.
  at_left : (s : ℕ → ℕ) (i j : ℕ) → exchange i j s i ≡ s j
  at_left s i j = ground arith

  at_right : (s : ℕ → ℕ) (i j : ℕ) → exchange i j s j ≡ s i
  at_right s i j = ground arith

  elsewhere : (s : ℕ → ℕ) (i j c : ℕ) → c ≢ i → c ≢ j → exchange i j s c ≡ s c
  elsewhere s i j c d e = ground arith

  pub Ordered-by :
      (s : ℕ → ℕ) (a c x y : ℕ) → s a ≡ x → s c ≡ y → precedes it y x ≡ false → Ordered s a c
  Ordered-by s a c x y e g h = rw (e, g) h

  module _ (s : ℕ → ℕ) (n i : ℕ) (f : IsFlawed s n i) where
    -- The element at `i` changes places with its parent, which is behind it.
    module _ (inside : i < n) (below : 0 < i)
        (behind : precedes it (s i) (s (parent i)) ≡ true) where
      abbrev risen : ℕ → ℕ
      risen = exchange (parent i) i s

      abbrev top : risen (parent i) ≡ s i
      top = at_left s (parent i) i

      risen_before : precedes it (s (parent i)) (s i) ≡ false
      risen_before = precedes_asym (s i) (s (parent i)) behind

      beside : (c : ℕ) → 0 < c → c < n → parent c ≡ parent i → c ≢ i → Ordered s (parent i) c
      beside c p q e d = subst (λ x. Ordered s x c) e (f.edges c p q d (omega arith))

      above : 0 < parent i → Ordered s (parent (parent i)) (parent i)
      above r = f.edges (parent i) r (omega arith) (omega arith) (omega arith)

      pub rise_children : ChildrenOrdered risen n (parent i)
      rise_children c p q e = elim (Bool-cases (c == i)) [
        | inl g ↦
            let h : risen c ≡ s (parent i) = ground (arith, at_right s (parent i) i) in
            Ordered-by risen (parent i) c (s i) (s (parent i)) top h risen_before
        | inr g ↦
            let h = elsewhere s (parent i) i c (omega arith) (ground arith) in
            Ordered-by risen (parent i) c (s i) (s c) top h (
              precedes_neg_trans (s i) (s (parent i)) (s c) risen_before
                (beside c p q e (ground arith)))
      ]

      rise_edges :
          (c : ℕ) → 0 < c → c < n → c ≢ parent i → parent c ≢ parent i → Ordered risen (parent c) c
      rise_edges c p q d e =
          let h = elsewhere s (parent i) i c d (λ g. e (rw g refl)) in
          elim (Bool-cases (parent c == i)) [
            | inl g ↦
                let k : risen (parent c) ≡ s (parent i) = ground (arith, at_right s (parent i) i) in
                Ordered-by risen (parent c) c (s (parent i)) (s c) k h
                  (f.bridged c p q (ground arith) below)
            | inr g ↦
                let k = elsewhere s (parent i) i (parent c) e (ground arith) in
                Ordered-by risen (parent c) c (s (parent c)) (s c) k h
                  (f.edges c p q (λ w. e (rw w refl)) (ground arith))
          ]

      rise_bridged :
          (c : ℕ)
          → 0 < c
          → c < n
          → parent c ≡ parent i
          → 0 < parent i
          → Ordered risen (parent (parent i)) c
      rise_bridged c p q e r =
          let far = elsewhere s (parent i) i (parent (parent i)) (omega arith) (omega arith) in
          elim (Bool-cases (c == i)) [
            | inl g ↦
                let h : risen c ≡ s (parent i) = ground (arith, at_right s (parent i) i) in
                Ordered-by risen (parent (parent i)) c (s (parent (parent i))) (s (parent i)) far h
                  (above r)
            | inr g ↦
                let h = elsewhere s (parent i) i c (omega arith) (ground arith) in
                Ordered-by risen (parent (parent i)) c (s (parent (parent i))) (s c) far h (
                  precedes_neg_trans (s (parent (parent i))) (s (parent i)) (s c) (above r)
                    (beside c p q e (ground arith)))
          ]

      pub rise-IsFlawed : IsFlawed risen n (parent i)
      rise-IsFlawed = record { edges = rise_edges; bridged = rise_bridged }

    -- The element at `i` changes places with its first child, which comes before it.
    module _ (j : ℕ) (below : 0 < j) (inside : j < n) (child : parent j ≡ i)
        (ahead : precedes it (s j) (s i) ≡ true)
        (first : (c : ℕ) → 0 < c → c < n → parent c ≡ i → Ordered s j c) where
      abbrev sunk : ℕ → ℕ
      sunk = exchange i j s

      pub sink_parent : ParentOrdered sunk j
      sink_parent p =
          Ordered-by sunk (parent j) j (s j) (s i) (rw child (at_left s i j)) (at_right s i j)
            (precedes_asym (s j) (s i) ahead)

      sink_edges : (c : ℕ) → 0 < c → c < n → c ≢ j → parent c ≢ j → Ordered sunk (parent c) c
      sink_edges c p q d e = elim (Bool-cases (c == i)) [
        | inl g ↦
            let h : sunk c ≡ s j = ground (arith, at_left s i j) in
            let k = elsewhere s i j (parent c) (ground arith) e in
            Ordered-by sunk (parent c) c (s (parent c)) (s j) k h
              (ground (arith, f.bridged j below inside child))
        | inr g ↦
            let h = elsewhere s i j c (ground arith) d in
            elim (Bool-cases (parent c == i)) [
              | inl w ↦
                  let k : sunk (parent c) ≡ s j = ground (arith, at_left s i j) in
                  Ordered-by sunk (parent c) c (s j) (s c) k h (first c p q (ground arith))
              | inr w ↦
                  let k = elsewhere s i j (parent c) (ground arith) e in
                  Ordered-by sunk (parent c) c (s (parent c)) (s c) k h
                    (f.edges c p q (ground arith) (ground arith))
            ]
      ]

      sink_bridged : (c : ℕ) → 0 < c → c < n → parent c ≡ j → 0 < j → Ordered sunk (parent j) c
      sink_bridged c p q e r =
          let h = elsewhere s i j c (omega arith) (omega arith) in
          let k : sunk (parent j) ≡ s j = rw child (at_left s i j) in
          Ordered-by sunk (parent j) c (s j) (s c) k h
            (subst (λ x. Ordered s x c) e (f.edges c p q (omega arith) (omega arith)))

      pub sink-IsFlawed : IsFlawed sunk n j
      sink-IsFlawed = record { edges = sink_edges; bridged = sink_bridged }
