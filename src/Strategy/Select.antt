-- ===== src/Strategy/Select.antt =====
-- What every strategy promises the scheduler (pkg/reef/server/strategy.go).
use reef.Prelude.{
  ◌≤◌, ◌≡◌, refl, sym, subst, ◌⊎◌, inl, inr, List, [], ◌∷◌, Option, none, some, String, arith, In,
  In-append_right, length, Bool-cases,
}
use reef.Prelude.Int.{ℤ}
use reef.Task.{Task}
use reef.Client.{ClientInfo}
use reef.Strategy.{
  MatchStrategy, least_score, select, least_load, insert_sorted, sort_slice, round_robin, is_better,
  best_from, score, affinity,
}
use reef.Strategy.Affinity.{affinity-NotBetter}
use reef.Strategy.LeastLoad.{least_load-IsFirstLeast}
use reef.Strategy.RoundRobin.{round_robin-Lowest}

least_load-In : (cs : List ClientInfo) (r : ClientInfo) → least_load cs ≡ some r → In r cs
least_load-In [] r e = absurd (unfold least_load in cc)
least_load-In (c ∷ cs) r e =
    let (r', found, first) = least_load-IsFirstLeast c cs in
    let (before, after, split, _, _) = first in
    let same : r' ≡ r = cc in
    subst (λ x. In x (c ∷ cs)) same
      (subst (In r') (sym split) (In-append_right r' before (r' ∷ after) (inl refl)))

insert_sorted-In :
    (r c : ClientInfo) (cs : List ClientInfo) → In r (insert_sorted c cs) → In r (c ∷ cs)
unfolding insert_sorted
insert_sorted-In r c [] i = i
insert_sorted-In r c (d ∷ ds) i = ground (arith, insert_sorted-In r c ds)

sort_slice-In : (r : ClientInfo) (cs : List ClientInfo) → In r (sort_slice cs) → In r cs
unfolding sort_slice
sort_slice-In r [] i = i
sort_slice-In r (c ∷ cs) i =
    ground (arith, insert_sorted-In r c (sort_slice cs) i, sort_slice-In r cs)

head_In :
    (r : ClientInfo) (cs : List ClientInfo)
    → (elim cs [ [] ↦ none | c ∷ _ ↦ some c ]) ≡ some r
    → In r cs
head_In r [] e = cc
head_In r (c ∷ cs) e = inl (ground arith)

best_from-In :
    (scores : String → ℤ) (best : Option ClientInfo) (s : ℤ) (cs : List ClientInfo) (r : ClientInfo)
    → best_from scores best s cs ≡ some r
    → (best ≡ some r) ⊎ In r cs
unfolding best_from
best_from-In scores best s [] r e = inl e
best_from-In scores best s (c ∷ cs) r e = elim (Bool-cases (is_better best s c (scores c.id))) [
  | inl b ↦ taken (best_from-In scores (some c) (scores c.id) cs r (rw (b, best_from) at e))
  | inr b ↦ left (best_from-In scores best s cs r (rw (b, best_from) at e))
]
  where
    taken : (some c ≡ some r) ⊎ In r cs → (best ≡ some r) ⊎ In r (c ∷ cs)
    taken (inl p) = inr (inl (cc))
    taken (inr i) = inr (inr i)

    left : (best ≡ some r) ⊎ In r cs → (best ≡ some r) ⊎ In r (c ∷ cs)
    left (inl p) = inl p
    left (inr i) = inr (inr i)

affinity-In :
    (history : List Task) (cs : List ClientInfo) (r : ClientInfo)
    → affinity history cs ≡ some r
    → In r cs
unfolding affinity
affinity-In history [] r e = cc
affinity-In history (c ∷ cs) r e =
    elim (best_from-In (score history) none least_score (c ∷ cs) r e) [ inl p ↦ cc | inr i ↦ i ]

-- Whatever strategy is configured, the client it selects is one of the candidates.
pub select-In :
    (m : MatchStrategy) (history : List Task) (cs : List ClientInfo) (r : ClientInfo)
    → select m history cs ≡ some r
    → In r cs
unfolding select
select-In MatchStrategy.least_load_strategy history cs r e = least_load-In cs r e
select-In MatchStrategy.round_robin_strategy history cs r e =
    sort_slice-In r cs (head_In r (sort_slice cs) (unfold round_robin in e))
select-In MatchStrategy.affinity_strategy history cs r e = affinity-In history cs r e

-- With a history of at most 19998 tasks every strategy selects someone when there is a candidate.
pub select-some :
    (m : MatchStrategy) (history : List Task) (c : ClientInfo) (cs : List ClientInfo)
    → length history ≤ 19998
    → (r : ClientInfo) × (select m history (c ∷ cs) ≡ some r)
unfolding select
select-some MatchStrategy.least_load_strategy history c cs h =
    let (r, e, _) = least_load-IsFirstLeast c cs in (r, e)
select-some MatchStrategy.round_robin_strategy history c cs h =
    let (r, _, e, _, _) = round_robin-Lowest c cs in (r, e)
select-some MatchStrategy.affinity_strategy history c cs h =
    let (r, e, _, _) = affinity-NotBetter history c cs h in (r, e)
