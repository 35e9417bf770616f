-- ===== src/Strategy.antt =====
-- pkg/reef/server/strategy.go: how one of the eligible clients is chosen. The scores of the affinity
-- strategy are multiples of 0.5, which a float holds exactly: they are counted in halves.
-- `sort.Slice` is an insertion sort by the source's comparison.
pub mod LeastLoad
pub mod RoundRobin
pub mod Affinity
pub mod Select
use reef.Prelude.{
  ℕ, ◌+◌, ◌≡◌, refl, Bool, true, false, not, ◌&&◌, ◌||◌, List, [], ◌∷◌, Option, none, some, String,
  str_eq, ltb, ◌==◌, if◌then◌else◌,
}
use reef.Prelude.Int.{ℤ, pos, negsuc, ◌+ℤ◌, ltb_ℤ, eqb_ℤ}
use reef.Prelude.Texts.{str_lt}
use reef.Client.{ClientInfo}
use reef.Task.Status.{TaskStatus}
use reef.Task.{Task}

-- The loop over `candidates[1:]`.
unfoldable pub least_load_from : ClientInfo → List ClientInfo → ClientInfo
least_load_from best [] = best
least_load_from best (c ∷ cs) =
    least_load_from (if ltb c.current_load best.current_load then c else best) cs

unfoldable pub least_load : List ClientInfo → Option ClientInfo
unfolding least_load_from
least_load [] = none
least_load (c ∷ cs) = some (least_load_from c cs)

-- The comparison of the round-robin sort.
unfoldable pub less : ClientInfo → ClientInfo → Bool
less a b =
    if not (a.current_load == b.current_load)
    then ltb a.current_load b.current_load
    else str_lt a.id b.id

unfoldable pub insert_sorted : ClientInfo → List ClientInfo → List ClientInfo
insert_sorted c [] = c ∷ []
insert_sorted c (d ∷ ds) = if less d c then d ∷ insert_sorted c ds else c ∷ d ∷ ds

unfoldable pub sort_slice : List ClientInfo → List ClientInfo
unfolding insert_sorted
sort_slice [] = []
sort_slice (c ∷ cs) = insert_sorted c (sort_slice cs)

unfoldable pub round_robin : List ClientInfo → Option ClientInfo
unfolding sort_slice
round_robin candidates = elim (sort_slice candidates) [ [] ↦ none | c ∷ _ ↦ some c ]

-- What one task of the history adds to the score of its client, in halves.
unfoldable pub score_of_status : TaskStatus → ℤ
score_of_status TaskStatus.completed = pos 2
score_of_status TaskStatus.failed = negsuc 0
score_of_status TaskStatus.escalated = negsuc 0
score_of_status _ = pos 0

-- `scores[id]` after the loop over the history.
unfoldable pub score_from : ℤ → String → List Task → ℤ
unfolding score_of_status
score_from acc id [] = acc
score_from acc id (t ∷ ts) =
    score_from
      (if str_eq t.assigned_client ""
        then acc
        else if str_eq t.assigned_client id
        then acc +ℤ score_of_status t.status
        else acc)
      id ts

unfoldable pub score : List Task → String → ℤ
unfolding score_from
score history id = score_from (pos 0) id history

-- `best == nil || c.CurrentLoad < best.CurrentLoad`
unfoldable pub breaks_tie : Option ClientInfo → ClientInfo → Bool
breaks_tie none c = true
breaks_tie (some best) c = ltb c.current_load best.current_load

-- The condition of the loop, for a candidate with score `s`.
unfoldable pub is_better : Option ClientInfo → ℤ → ClientInfo → ℤ → Bool
unfolding breaks_tie
is_better best best_score c s = ltb_ℤ best_score s || (eqb_ℤ s best_score && breaks_tie best c)

-- The loop over the candidates, with `best` and `bestScore`.
unfoldable pub best_from :
    (String → ℤ) → Option ClientInfo → ℤ → List ClientInfo → Option ClientInfo
unfolding is_better
best_from scores best best_score [] = best
best_from scores best best_score (c ∷ cs) =
    let s = scores c.id in
    let better = is_better best best_score c s in
    best_from scores (if better then some c else best) (if better then s else best_score) cs

-- -9999.0
abbrev pub least_score : ℤ
least_score = negsuc 19997

unfoldable pub affinity : List Task → List ClientInfo → Option ClientInfo
unfolding best_from score
affinity history [] = none
affinity history (c ∷ cs) = best_from (score history) none least_score (c ∷ cs)

-- A strategy with the history that it reads.
pub data MatchStrategy : Type 0 where
  least_load_strategy round_robin_strategy affinity_strategy : MatchStrategy

-- `Select`
unfoldable pub select : MatchStrategy → List Task → List ClientInfo → Option ClientInfo
unfolding least_load round_robin affinity
select MatchStrategy.least_load_strategy history = least_load
select MatchStrategy.round_robin_strategy history = round_robin
select MatchStrategy.affinity_strategy history = affinity history
