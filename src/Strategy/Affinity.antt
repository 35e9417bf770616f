-- ===== src/Strategy/Affinity.antt =====
-- The affinity strategy (pkg/reef/server/strategy.go).
use reef.Prelude.{
  ◌+◌, ◌≤◌, ◌≡◌, refl, sym, ◌⊎◌, inl, inr, true, false, List, [], ◌∷◌, Option, none, some, String,
  arith, In, All, length,
}
use reef.Prelude.Int.{ℤ, pos, neg_part, ◌+ℤ◌, ◌<ℤ◌, eq_of_parts, +ℤ_parts}
use reef.Task.Status.{TaskStatus}
use reef.Task.{Task}
use reef.Client.{ClientInfo}
use reef.Strategy.{score_of_status, score_from, score, is_better, best_from, least_score, affinity}

-- `d` does not beat `r`: its score is lower, or the same with no lower load.
abbrev pub NotBetter : (String → ℤ) → ClientInfo → ClientInfo → Type 0
NotBetter scores r d =
    (scores d.id <ℤ scores r.id) ⊎ ((scores d.id ≡ scores r.id) × (r.current_load ≤ d.current_load))

NotBetter-trans :
    (scores : String → ℤ) (a b c : ClientInfo)
    → NotBetter scores b a
    → NotBetter scores c b
    → NotBetter scores c a
NotBetter-trans scores a b c h k = ground arith

-- What the loop promises once it holds a best candidate.
abbrev Best : (String → ℤ) → ClientInfo → List ClientInfo → Option ClientInfo → Type 0
Best scores best cs o =
    (r : ClientInfo) × (o ≡ some r)
    × ((r ≡ best) ⊎ In r cs)
    × NotBetter scores r best
    × All (λ d. NotBetter scores r d) cs

Best-lower :
    (scores : String → ℤ) (best c : ClientInfo) (cs : List ClientInfo) (o : Option ClientInfo)
    → NotBetter scores c best
    → Best scores c cs o
    → Best scores best (c ∷ cs) o
Best-lower scores best c cs o h (r, e, inl s, n, a) =
    (r, e, inr (inl (sym s)), NotBetter-trans scores best c r h n, (n, a))
Best-lower scores best c cs o h (r, e, inr i, n, a) =
    (r, e, inr (inr i), NotBetter-trans scores best c r h n, (n, a))

Best-keep :
    (scores : String → ℤ) (best c : ClientInfo) (cs : List ClientInfo) (o : Option ClientInfo)
    → NotBetter scores best c
    → Best scores best cs o
    → Best scores best (c ∷ cs) o
Best-keep scores best c cs o h (r, e, inl s, n, a) =
    (r, e, inl s, n, (NotBetter-trans scores c best r h n, a))
Best-keep scores best c cs o h (r, e, inr i, n, a) =
    (r, e, inr (inr i), n, (NotBetter-trans scores c best r h n, a))

is_better-NotBetter :
    (scores : String → ℤ) (best c : ClientInfo)
    → ((is_better (some best) (scores best.id) c (scores c.id) ≡ true) × NotBetter scores c best)
      ⊎ ((is_better (some best) (scores best.id) c (scores c.id) ≡ false) × NotBetter scores best c)
unfolding is_better
is_better-NotBetter scores best c = ground (arith, eq_of_parts (scores c.id) (scores best.id))

best_from-Best :
    (scores : String → ℤ) (best : ClientInfo) (cs : List ClientInfo)
    → Best scores best cs (best_from scores (some best) (scores best.id) cs)
unfolding best_from
best_from-Best scores best [] = (best, refl, inl refl, inr (refl, omega arith), tt)
best_from-Best scores best (c ∷ cs) = elim (is_better-NotBetter scores best c) [
  | inl (e, n) ↦ rw (e, best_from) (Best-lower scores best c cs _ n (best_from-Best scores c cs))
  | inr (e, n) ↦ rw (e, best_from) (Best-keep scores best c cs _ n (best_from-Best scores best cs))
]

score_of_status_bound : (s : TaskStatus) → neg_part (score_of_status s) ≤ 1
unfolding score_of_status
score_of_status_bound s = ground arith

+ℤ_neg : (a b : ℤ) → neg_part (a +ℤ b) ≤ neg_part a + neg_part b
unfolding ◌+ℤ◌
+ℤ_neg a b = ground arith

-- Each task of the history costs at most half a point.
score_from-le :
    (acc : ℤ) (id : String) (ts : List Task)
    → neg_part (score_from acc id ts) ≤ neg_part acc + length ts
unfolding score_from
score_from-le acc id [] = omega arith
score_from-le acc id (t ∷ ts) = ground (
  arith,
  score_from-le acc id ts,
  score_from-le (acc +ℤ score_of_status t.status) id ts,
  +ℤ_parts acc (score_of_status t.status),
  score_of_status_bound t.status,
  +ℤ_neg acc (score_of_status t.status),
)

first_is_better :
    (history : List Task) (c : ClientInfo)
    → length history ≤ 19998
    → is_better none least_score c (score history c.id) ≡ true
unfolding is_better score
first_is_better history c h = ground (arith, score_from-le (pos 0) c.id history)

-- With a history of at most 19998 tasks, the strategy chooses a client whenever there is a
-- candidate: one of the candidates, such that every candidate has a lower score in the history, or
-- the same score and no lower load.
pub affinity-NotBetter :
    (history : List Task) (c : ClientInfo) (cs : List ClientInfo)
    → length history ≤ 19998
    → (r : ClientInfo) × (affinity history (c ∷ cs) ≡ some r)
      × In r (c ∷ cs)
      × All (λ d. NotBetter (score history) r d) (c ∷ cs)
unfolding affinity
affinity-NotBetter history c cs h =
    rw (first_is_better history c h, best_from) (chosen (best_from-Best (score history) c cs))
  where
    chosen :
        {o : Option ClientInfo}
        → Best (score history) c cs o
        → (r : ClientInfo) × (o ≡ some r)
          × In r (c ∷ cs)
          × All (λ d. NotBetter (score history) r d) (c ∷ cs)
    chosen (r, e, inl s, n, a) = (r, e, inl (sym s), (n, a))
    chosen (r, e, inr i, n, a) = (r, e, inr i, (n, a))
