-- ===== src/Queue/Priority/Same.antt =====
-- The items of a heap before and after it is sifted (pkg/reef/server/priority_queue.go).
use reef.Prelude.{ℕ, ◌≤◌, ◌<◌, ◌≡◌, refl, inl, inr, arith, ◌==◌, Bool-cases, ◌∙◌}
use reef.Queue.Priority.{PqItems, PriorityHeap, exchange, swap, up, down, sift}
use reef.Queue.Priority.Content.{
  tally, tally-exchange, IsIndexed, swap-IsIndexed, up_keeps, down_keeps, sift_keeps,
}

-- The first `n` elements of `g` are those of `h` in another order; the length and the later ones are the same.
pub record SameItems (n : ℕ) (h g : PriorityHeap) : Type 0 where
  pub same_len : g.len ≡ h.len
  pub same_tally : (w : ℕ → ℕ) → tally w g.slots n ≡ tally w h.slots n
  pub same_rest : (k : ℕ) → n ≤ k → g.slots k ≡ h.slots k
  pub indexed : IsIndexed n g
  pub into : (k : ℕ) → k < n → (j : ℕ) × (j < n) × (g.slots j ≡ h.slots k)
  pub from : (k : ℕ) → k < n → (j : ℕ) × (j < n) × (g.slots k ≡ h.slots j)

pub SameItems-refl : (n : ℕ) (h : PriorityHeap) → IsIndexed n h → SameItems n h h
SameItems-refl n h x = record {
  same_len = refl;
  same_tally = λ w. refl;
  same_rest = λ k p. refl;
  indexed = x;
  into = λ k p. (k, p, refl);
  from = λ k p. (k, p, refl);
}

-- Where an exchange takes an element, and where it takes it from.
exchange_into :
    (s : ℕ → ℕ) (n i j k : ℕ) → i < n → j < n → k < n → (l : ℕ) × (l < n) × (exchange i j s l ≡ s k)
exchange_into s n i j k p q r = elim (Bool-cases (k == j)) [
  | inl e ↦ (i, p, ground arith)
  | inr e ↦ elim (Bool-cases (k == i)) [
    | inl f ↦ (j, q, ground arith)
    | inr f ↦ (k, r, ground arith)
  ]
]

exchange_from :
    (s : ℕ → ℕ) (n i j k : ℕ) → i < n → j < n → k < n → (l : ℕ) × (l < n) × (exchange i j s k ≡ s l)
exchange_from s n i j k p q r = elim (Bool-cases (k == j)) [
  | inl e ↦ (i, p, ground arith)
  | inr e ↦ elim (Bool-cases (k == i)) [
    | inl f ↦ (j, q, ground arith)
    | inr f ↦ (k, r, ground arith)
  ]
]

pub swap-SameItems :
    (n i j : ℕ) (h g : PriorityHeap) → i < n → j < n → SameItems n h g → SameItems n h (swap i j g)
unfolding swap
swap-SameItems n i j h g p q s = record {
  same_len = s.same_len;
  same_tally = λ w. tally-exchange w g.slots i j n p q ∙ s.same_tally w;
  same_rest = λ k r. ground (arith, s.same_rest k r);
  indexed = swap-IsIndexed n i j g p q s.indexed;
  into = λ k r.
      let (l, a, e) = s.into k r in
      let (m, b, g) = exchange_into g.slots n i j l p q a in (m, b, g ∙ e);
  from = λ k r.
      let (l, a, e) = exchange_from g.slots n i j k p q r in
      let (m, b, f) = s.from l a in (m, b, e ∙ f);
}

module _ (it : PqItems) (n : ℕ) (h : PriorityHeap) (x : IsIndexed n h) where
  pub up-SameItems : (j : ℕ) → j < n → SameItems n h (up it j h)
  up-SameItems j p =
      up_keeps (SameItems n h) it n (λ i k g q r. swap-SameItems n i k h g q r) j h p
        (SameItems-refl n h x)

  pub down-SameItems : (i : ℕ) → i < n → SameItems n h (down it i n h).0
  down-SameItems i p =
      down_keeps (SameItems n h) it n (λ j k g q r. swap-SameItems n j k h g q r) i h p
        (SameItems-refl n h x)

  pub sift-SameItems : (i : ℕ) → i < n → SameItems n h (sift it i n h)
  sift-SameItems i p =
      sift_keeps (SameItems n h) it n (λ j k g q r. swap-SameItems n j k h g q r) i h p
        (SameItems-refl n h x)
