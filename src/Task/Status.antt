-- ===== src/Task/Status.antt =====
-- pkg/reef/task.go: the statuses of a task and the table of transitions.
use reef.Prelude.{Bool, true, false, ◌||◌, List, [], ◌∷◌, ◌≡◌, arith}

pub data TaskStatus : Type 0 where
  created queued assigned running paused blocked recovering aggregating : TaskStatus
  completed failed cancelled escalated : TaskStatus

pub TaskStatus-discrete : Discrete TaskStatus
TaskStatus-discrete = hlevel

-- `==` on statuses, by their place in the list of constants.
unfoldable pub same_status : TaskStatus → TaskStatus → Bool
same_status created created = true
same_status queued queued = true
same_status assigned assigned = true
same_status running running = true
same_status paused paused = true
same_status blocked blocked = true
same_status recovering recovering = true
same_status aggregating aggregating = true
same_status completed completed = true
same_status failed failed = true
same_status cancelled cancelled = true
same_status escalated escalated = true
same_status _ _ = false

pub same_status_iff : (s t : TaskStatus) → same_status s t ≡ true → s ≡ t
unfolding same_status
same_status_iff s t h = ground arith

pub same_status_refl : (s : TaskStatus) → same_status s s ≡ true
unfolding same_status
same_status_refl s = ground arith

unfoldable pub is_terminal : TaskStatus → Bool
is_terminal completed = true
is_terminal failed = true
is_terminal cancelled = true
is_terminal _ = false

unfoldable pub is_blocked : TaskStatus → Bool
unfolding same_status
is_blocked s = same_status s blocked

-- The rows of the map `valid`.
unfoldable pub valid : TaskStatus → List TaskStatus
valid created = queued ∷ assigned ∷ failed ∷ blocked ∷ aggregating ∷ cancelled ∷ []
valid queued = assigned ∷ failed ∷ aggregating ∷ []
valid assigned = running ∷ failed ∷ queued ∷ []
valid running = completed ∷ failed ∷ paused ∷ cancelled ∷ queued ∷ []
valid paused = running ∷ failed ∷ cancelled ∷ []
valid blocked = queued ∷ failed ∷ cancelled ∷ recovering ∷ []
valid recovering = queued ∷ failed ∷ cancelled ∷ blocked ∷ []
valid aggregating = completed ∷ failed ∷ cancelled ∷ []
valid completed = []
valid failed = queued ∷ escalated ∷ []
valid escalated = queued ∷ failed ∷ cancelled ∷ []
valid cancelled = []

-- The loop over the allowed targets.
unfoldable pub any_status : TaskStatus → List TaskStatus → Bool
unfolding same_status
any_status target [] = false
any_status target (a ∷ allowed) = same_status a target || any_status target allowed

unfoldable pub can_transition_to : TaskStatus → TaskStatus → Bool
unfolding valid any_status
can_transition_to s target = any_status target (valid s)
