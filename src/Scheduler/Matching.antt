-- ===== src/Scheduler/Matching.antt =====
-- pkg/reef/server/scheduler.go: which client takes a task.
use mathlib.Core.List.{reverse}
use reef.Prelude.{
  Bool, true, false, not, ◌&&◌, List, [], ◌∷◌, Option, none, some, String, str_eq, if◌then◌else◌,
}
use reef.Task.{Task, AttemptRecord}
use reef.Client.{ClientInfo, is_available, matches}
use reef.Registry.{list}
use reef.Strategy.{MatchStrategy, select}
use reef.Scheduler.{Scheduler, tasks_snapshot}

-- The loop of `TryDispatch` over the attempts, from the last one back.
unfoldable pub failed_client : List AttemptRecord → String
failed_client [] = ""
failed_client (a ∷ earlier) =
    if str_eq a.status "failed" && not (str_eq a.client_id "")
    then a.client_id
    else failed_client earlier

unfoldable pub exclude_id : Task → String
unfolding failed_client
exclude_id task = failed_client (reverse task.attempt_history)

-- The tests of the loop in `matchClient`.
unfoldable pub is_eligible : Task → String → ClientInfo → Bool
is_eligible task exclude c =
    if str_eq c.id exclude
    then false
    else if not (is_available c)
    then false
    else if not (matches c task.required_role task.required_skills)
    then false
    else true

unfoldable pub eligible : Task → String → List ClientInfo → List ClientInfo
unfolding is_eligible
eligible task exclude [] = []
eligible task exclude (c ∷ cs) =
    let rest = eligible task exclude cs in if is_eligible task exclude c then c ∷ rest else rest

-- `if strategy == nil { strategy = &LeastLoadStrategy{} }`
unfoldable pub strategy_or_default : Option MatchStrategy → MatchStrategy
strategy_or_default none = MatchStrategy.least_load_strategy
strategy_or_default (some m) = m

-- `strategy.Select(eligible)`, unless there is nobody to select from.
unfoldable pub select_any : MatchStrategy → List Task → List ClientInfo → Option ClientInfo
select_any strategy history [] = none
select_any strategy history (c ∷ cs) = select strategy history (c ∷ cs)

-- What the caller of a method does with the lock `s.mu`.
pub data Mutex : Type 0 where
  free held : Mutex

-- `s.mu.RLock()` before the body of a method: it never returns to a caller that holds the lock.
unfoldable pub locking {ℓ} : {A : Type ℓ} → Mutex → A → Option A
locking free a = some a
locking held a = none

-- `Select` of a strategy, where the history is what its source of tasks returns, if it returns; only the
-- affinity strategy calls it. The outer `none` is a call that never returns.
unfoldable pub select_from :
    MatchStrategy → Option (List Task) → List ClientInfo → Option (Option ClientInfo)
select_from MatchStrategy.least_load_strategy history cs =
    some (select MatchStrategy.least_load_strategy [] cs)
select_from MatchStrategy.round_robin_strategy history cs =
    some (select MatchStrategy.round_robin_strategy [] cs)
select_from MatchStrategy.affinity_strategy none cs = none
select_from MatchStrategy.affinity_strategy (some history) cs =
    some (select MatchStrategy.affinity_strategy history cs)

-- As `select_any`
unfoldable pub select_any_from :
    MatchStrategy → Option (List Task) → List ClientInfo → Option (Option ClientInfo)
unfolding select_from
select_any_from strategy history [] = some none
select_any_from strategy history (c ∷ cs) = select_from strategy history (c ∷ cs)

module _ {Q : Type 0} where
  unfoldable pub match_client : Scheduler Q → Task → String → Option ClientInfo
  unfolding eligible select_any
  match_client s task exclude =
      select_any (strategy_or_default s.match_strategy) (tasks_snapshot s)
        (eligible task exclude (list s.registry))

  -- `matchClient` for a caller that holds the lock or does not; the history is `TasksSnapshot`, which locks.
  -- `match_client` is what it returns when it returns.
  unfoldable pub match_client_in : Mutex → Scheduler Q → Task → String → Option (Option ClientInfo)
  unfolding eligible select_any_from locking
  match_client_in m s task exclude =
      select_any_from (strategy_or_default s.match_strategy) (locking m (tasks_snapshot s))
        (eligible task exclude (list s.registry))
