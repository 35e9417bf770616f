-- ===== src/Queue/Priority/Content.antt =====
-- What the loops of container/heap leave alone: the items of the heap, and that each item knows its index
-- (pkg/reef/server/priority_queue.go, `Swap`).
use reef.Prelude.{
  ℕ, zero, suc, ◌+◌, ◌≤◌, ◌<◌, ◌≡◌, refl, inl, inr, not, ◌||◌, arith, ◌==◌, Bool-cases,
  Option-cases, update,
}
use reef.Prelude.Int.{pos}
use reef.Queue.Priority.{
  PqItems, PriorityHeap, precedes, exchange, parent, sinks_to, swap, up_loop, up, down_loop, down,
  sift,
}
use reef.Queue.Priority.Sift.{sinks}

-- The sum of a weight over the first `n` elements.
abbrev pub tally : (ℕ → ℕ) → (ℕ → ℕ) → ℕ → ℕ
tally w s zero = 0
tally w s (suc n) = tally w s n + w (s n)

module _ (w : ℕ → ℕ) where
  tally-update_outside : (s : ℕ → ℕ) (i a n : ℕ) → n ≤ i → tally w (update s i a) n ≡ tally w s n
  tally-update_outside s i a zero h = refl
  tally-update_outside s i a (suc n) h = ground (arith, tally-update_outside s i a n)

  tally-update :
      (s : ℕ → ℕ) (i a n : ℕ) → i < n → tally w (update s i a) n + w (s i) ≡ tally w s n + w a
  tally-update s i a zero h = absurd (omega arith)
  tally-update s i a (suc n) h = elim (Bool-cases (i == n)) [
    | inl e ↦ ground (arith, tally-update_outside s i a n)
    | inr e ↦ ground (arith, tally-update s i a n)
  ]

  pub tally-exchange :
      (s : ℕ → ℕ) (i j n : ℕ) → i < n → j < n → tally w (exchange i j s) n ≡ tally w s n
  tally-exchange s i j n p q =
      ground (arith, tally-update s i (s j) n, tally-update (update s i (s j)) j (s i) n)

  pub tally-append : (s : ℕ → ℕ) (a n : ℕ) → tally w (update s n a) (n + 1) ≡ tally w s n + w a
  tally-append s a n = ground (arith, tally-update_outside s n a n)

-- Each of the first `n` items knows its index.
abbrev pub IsIndexed : ℕ → PriorityHeap → Type 0
IsIndexed n h = (k : ℕ) → k < n → h.index (h.slots k) ≡ pos k

pub swap-IsIndexed :
    (n i j : ℕ) (h : PriorityHeap) → i < n → j < n → IsIndexed n h → IsIndexed n (swap i j h)
unfolding swap
swap-IsIndexed n i j h p q x k r = ground (arith, x i p, x j q, x k r)

-- What every exchange among the first `n` elements keeps, sifting keeps.
module _ {ℓ} (P : PriorityHeap → Type ℓ) (it : PqItems) (n : ℕ)
    (step : (i j : ℕ) (h : PriorityHeap) → i < n → j < n → P h → P (swap i j h)) where
  up_loop_keeps : (fuel j : ℕ) (h : PriorityHeap) → j < n → P h → P (up_loop fuel it j h)
  unfolding up_loop
  up_loop_keeps zero j h p v = v
  up_loop_keeps (suc fuel) j h p v =
      elim (Bool-cases (parent j == j || not (precedes it (h.slots j) (h.slots (parent j))))) [
        | inl e ↦ rw e v
        | inr e ↦ rw e (
            up_loop_keeps fuel (parent j) (swap (parent j) j h) (omega arith)
              (step (parent j) j h (omega arith) p v))
      ]

  down_loop_keeps : (fuel i : ℕ) (h : PriorityHeap) → i < n → P h → P (down_loop fuel it n i h).0
  unfolding down_loop
  down_loop_keeps zero i h p v = v
  down_loop_keeps (suc fuel) i h p v = elim (Option-cases (sinks_to it n i h.slots)) [
    | inl e ↦ rw (e, down_loop) v
    | inr (j, e) ↦
        let t = sinks it n i h.slots j e in
        rw (e, down_loop) (down_loop_keeps fuel j (swap i j h) t.inside (step i j h p t.inside v))
  ]

  pub up_keeps : (j : ℕ) (h : PriorityHeap) → j < n → P h → P (up it j h)
  unfolding up
  up_keeps j h p v = up_loop_keeps (j + 1) j h p v

  pub down_keeps : (i : ℕ) (h : PriorityHeap) → i < n → P h → P (down it i n h).0
  unfolding down
  down_keeps i h p v = down_loop_keeps n i h p v

  pub sift_keeps : (i : ℕ) (h : PriorityHeap) → i < n → P h → P (sift it i n h)
  unfolding sift
  sift_keeps i h p v = elim (Bool-cases (down it i n h).1) [
    | inl e ↦ rw e (down_keeps i h p v)
    | inr e ↦ rw e (up_keeps i (down it i n h).0 p (down_keeps i h p v))
  ]
