-- ===== src/Scheduler/Callers.antt =====
-- pkg/reef/server/scheduler.go: two callers of `TryDispatch` side by side. `TryDispatch` takes no lock of
-- the scheduler, and most of its callers start it with `go`; the queue and the registry lock
-- themselves for one call. So others come between the calls: a turn of a caller goes from one
-- call of the queue to the next, with `matchClient`, or `dispatch` and what follows it, as one turn.
use reef.Prelude.{ℕ, Bool, List, [], ◌∷◌, ◌++◌, Option, none, some, String, if◌then◌else◌}
use reef.Task.{Task}
use reef.Client.{ClientInfo}
use reef.Queue.Interface.{QueueOps}
use reef.Scheduler.{Scheduler}
use reef.Scheduler.Matching.{exclude_id, match_client}
use reef.Scheduler.Dispatch.{dispatch, settle, drop_head, enqueue_task}

-- Where a caller stands in `TryDispatch`, with its local variables; the list holds `unmatchable`.
pub data Caller : Type 0 where
  looking : List ℕ → Caller  -- before `Peek`
  matching : ℕ → List ℕ → Caller  -- before `matchClient`
  setting_aside : ℕ → List ℕ → Caller  -- no client: before `Dequeue`
  taking : ℕ → ClientInfo → List ℕ → Caller  -- a client: before `Dequeue`
  dispatching : ℕ → ClientInfo → List ℕ → Caller  -- before `dispatch`
  putting_back : List ℕ → Caller  -- in the last loop

pub data Who : Type 0 where
  first second : Who

module _ {Q : Type 0} where
  unfoldable pub turn :
      QueueOps Q → Option (Task → String → Bool) → ℕ → Caller → Scheduler Q → Scheduler Q × Caller
  unfolding dispatch settle
  turn ops send now (looking held) s = elim (ops.peek s.queue) [
    | none ↦ (s, putting_back held)
    | some r ↦ (s, matching r held)
  ]
  turn ops send now (matching r held) s =
      elim (match_client s (s.store r) (exclude_id (s.store r))) [
        | none ↦ (s, setting_aside r held)
        | some c ↦ (s, taking r c held)
      ]
  turn ops send now (setting_aside r held) s = (drop_head ops s, looking (held ++ r ∷ []))
  turn ops send now (taking r c held) s = (drop_head ops s, dispatching r c held)
  turn ops send now (dispatching r c held) s =
      let (s', go) = settle ops r (dispatch send now r c s) in
      (s', if go then looking held else putting_back held)
  turn ops send now (putting_back []) s = (s, putting_back [])
  turn ops send now (putting_back (r ∷ rs)) s = ((enqueue_task ops r s).0, putting_back rs)

  -- The turns of the two callers, in the order in which they are taken.
  unfoldable pub turns :
      QueueOps Q
      → Option (Task → String → Bool)
      → ℕ
      → List Who
      → Caller
      → Caller
      → Scheduler Q
      → Scheduler Q
  unfolding turn
  turns ops send now [] one two s = s
  turns ops send now (first ∷ ws) one two s =
      let (s', c) = turn ops send now one s in turns ops send now ws c two s'
  turns ops send now (second ∷ ws) one two s =
      let (s', c) = turn ops send now two s in turns ops send now ws one c s'
