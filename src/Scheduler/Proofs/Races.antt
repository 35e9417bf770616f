-- ===== src/Scheduler/Proofs/Races.antt =====
-- Two calls of `TryDispatch` side by side (pkg/reef/server/scheduler.go).
use reef.Prelude.{ℕ, ◌≡◌, refl, Bool, List, [], ◌∷◌, Option, some, String, update}
use reef.Task.{Task}
use reef.Client.{ClientInfo}
use reef.Registry.{increment_load}
use reef.Queue.Interface.{QueueOps}
use reef.Scheduler.{Scheduler}
use reef.Scheduler.Matching.{exclude_id, match_client}
use reef.Scheduler.Callers.{matching, taking, Who, first, second, turn}

-- Both callers look at the same task and find a client for it before either takes a task out; then
-- the first takes and dispatches, and the second.
abbrev pub both_look_first : List Who
both_look_first = first ∷ first ∷ second ∷ second ∷ first ∷ first ∷ second ∷ second ∷ []

module _ {Q : Type 0} (ops : QueueOps Q) (send : Option (Task → String → Bool)) (now : ℕ) where
  matches :
      (r : ℕ) (c : ClientInfo) (held : List ℕ) (s : Scheduler Q)
      → match_client s (s.store r) (exclude_id (s.store r)) ≡ some c
      → turn ops send now (matching r held) s ≡ (s, taking r c held)
  unfolding turn
  matches r c held s e = rw (e, turn) refl

  -- A queued task runs after its dispatch, and has been sent to the client.
  abbrev pub handed : ℕ → Task → String → Scheduler Q → Scheduler Q
  handed r u client s = record s {
    store = update s.store r u;
    registry = (increment_load client s.registry).0;
  }
