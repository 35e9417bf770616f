-- ===== src/Scheduler/Proofs/Matches.antt =====
-- `matchClient`: whom a task may go to (pkg/reef/server/scheduler.go).
use reef.Prelude.{
  ◌≤◌, ◌<◌, ◌≡◌, refl, ◌≢◌, true, List, [], ◌∷◌, some, String, eq_iff, arith, In, In-keep_if,
  keep_if-In, keep_if, All, length,
}
use reef.Task.{Task}
use reef.Client.{ClientState, ClientInfo, remaining_capacity}
use reef.Client.Match.{matches_iff, available_iff}
use reef.Registry.{list}
use reef.Strategy.Select.{select-In, select-some}
use reef.Scheduler.{Scheduler, tasks_snapshot}
use reef.Scheduler.Matching.{is_eligible, eligible, strategy_or_default, select_any, match_client}

-- `c` may be given the task: it is not the excluded client, it is connected with capacity to spare,
-- and it has the role and the skills that the task requires.
pub record CanTake (task : Task) (exclude : String) (c : ClientInfo) : Type 0 where
  pub not_excluded : c.id ≢ exclude
  pub is_connected : c.state ≡ ClientState.connected
  pub has_capacity : 0 < remaining_capacity c
  pub has_role : c.role ≡ task.required_role
  pub has_skills : All (λ r. In r c.skills) task.required_skills

pub is_eligible-CanTake :
    (task : Task) (exclude : String) (c : ClientInfo)
    → is_eligible task exclude c ≡ true
    → CanTake task exclude c
unfolding is_eligible
is_eligible-CanTake task exclude c e = record {
  not_excluded = λ s. ground (arith, (eq_iff c.id exclude).1 s);
  is_connected = ((available_iff c).0 (ground arith)).0;
  has_capacity = ((available_iff c).0 (ground arith)).1;
  has_role = ((matches_iff c task.required_role task.required_skills).0 (ground arith)).0;
  has_skills = ((matches_iff c task.required_role task.required_skills).0 (ground arith)).1;
}

pub CanTake-is_eligible :
    (task : Task) (exclude : String) (c : ClientInfo)
    → CanTake task exclude c
    → is_eligible task exclude c ≡ true
unfolding is_eligible
CanTake-is_eligible task exclude c h = ground (
  arith,
  eq_iff c.id exclude,
  (available_iff c).1 (h.is_connected, h.has_capacity),
  (matches_iff c task.required_role task.required_skills).1 (h.has_role, h.has_skills),
)

eligible-keep_if :
    (task : Task) (exclude : String) (cs : List ClientInfo)
    → eligible task exclude cs ≡ keep_if (is_eligible task exclude) cs
unfolding eligible
eligible-keep_if task exclude [] = refl
eligible-keep_if task exclude (c ∷ cs) = rw (eligible-keep_if task exclude cs)

eligible-In :
    (task : Task) (exclude : String) (c : ClientInfo) (cs : List ClientInfo)
    → In c (eligible task exclude cs)
    → In c cs × (is_eligible task exclude c ≡ true)
eligible-In task exclude c cs i =
    In-keep_if (is_eligible task exclude) c cs (rw (eligible-keep_if task exclude cs) at i)

pub In-eligible :
    (task : Task) (exclude : String) (c : ClientInfo) (cs : List ClientInfo)
    → In c cs
    → is_eligible task exclude c ≡ true
    → In c (eligible task exclude cs)
In-eligible task exclude c cs i e =
    rw (eligible-keep_if task exclude cs) (keep_if-In (is_eligible task exclude) c cs i e)

module _ {Q : Type 0} where
  select_any-In :
      (s : Scheduler Q) (task : Task) (exclude : String) (c : ClientInfo)
      → match_client s task exclude ≡ some c
      → In c (eligible task exclude (list s.registry))
  unfolding match_client
  select_any-In s task exclude c e = go (eligible task exclude (list s.registry)) e
    where
      go :
          (cs : List ClientInfo)
          → select_any (strategy_or_default s.match_strategy) (tasks_snapshot s) cs ≡ some c
          → In c cs
      go [] e = absurd (unfold select_any in cc)
      go (d ∷ ds) e =
          select-In (strategy_or_default s.match_strategy) (tasks_snapshot s) (d ∷ ds) c
            (unfold select_any in e)

  -- A task only goes to a registered client that can take it, whatever the strategy.
  pub match_client-CanTake :
      (s : Scheduler Q) (task : Task) (exclude : String) (c : ClientInfo)
      → match_client s task exclude ≡ some c
      → In c (list s.registry) × CanTake task exclude c
  match_client-CanTake s task exclude c e =
      let (i, ok) =
        eligible-In task exclude c (list s.registry) (select_any-In s task exclude c e) in
      (i, is_eligible-CanTake task exclude c ok)

  -- When a registered client can take the task, some client is found, as long as the index holds at
  -- most 19998 tasks.
  pub CanTake-match_client :
      (s : Scheduler Q) (task : Task) (exclude : String) (c : ClientInfo)
      → length (tasks_snapshot s) ≤ 19998
      → In c (list s.registry)
      → CanTake task exclude c
      → (r : ClientInfo) × (match_client s task exclude ≡ some r)
  unfolding match_client
  CanTake-match_client s task exclude c short i h =
      go (eligible task exclude (list s.registry))
        (In-eligible task exclude c (list s.registry) i (CanTake-is_eligible task exclude c h))
    where
      go :
          (cs : List ClientInfo)
          → In c cs
          → (r : ClientInfo) × (select_any
                (strategy_or_default s.match_strategy)
                (tasks_snapshot s)
                cs
              ≡ some r)
      go [] i = absurd i
      go (d ∷ ds) i =
          let (r, e) =
            select-some (strategy_or_default s.match_strategy) (tasks_snapshot s) d ds short in
          (r, unfold select_any in e)
