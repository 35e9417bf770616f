-- ===== src/Scheduler/Proofs/Rounds.antt =====
-- What one round of the dispatch loop does to the queue and to the tasks
-- (pkg/reef/server/scheduler.go).
use reef.Prelude.{
  ℕ, ◌≡◌, refl, ap, ◌≢◌, inl, inr, Bool, true, false, List, [], ◌∷◌, ◌++◌, Option, String, arith,
  Option-cases,
}
use reef.Task.Status.{TaskStatus}
use reef.Task.{Task, transition}
use reef.Task.Lifecycle.{transition-status, not_running_of_assigned}
use reef.Client.{ClientInfo}
use reef.Queue.Interface.{QueueOps}
use reef.Scheduler.{Scheduler}
use reef.Scheduler.Matching.{exclude_id, match_client}
use reef.Scheduler.Dispatch.{hand_over, dispatch, settle, round, drop_head}

module _ {Q : Type 0} where
  abbrev pub IsRunning : ℕ → Scheduler Q → Type 0
  IsRunning x s = (s.store x).status ≡ TaskStatus.running

  -- The effect of dispatching the task `r`: the queue is left alone, as are the other tasks; success
  -- leaves the task running, and a task that runs already goes on running.
  pub record Effect (r : ℕ) (s : Scheduler Q) (p : Scheduler Q × Bool) : Type 0 where
    pub queue_same : p.0.queue ≡ s.queue
    pub others : (x : ℕ) → r ≢ x → p.0.store x ≡ s.store x
    pub runs : p.1 ≡ true → IsRunning r p.0
    pub goes_on : IsRunning r s → IsRunning r p.0

  hand_over-Effect :
      (send : Option (Task → String → Bool)) (now r : ℕ) (t : Task) (client : String)
      (s : Scheduler Q)
      → t.status ≡ TaskStatus.running
      → (s.store r).status ≢ TaskStatus.running
      → Effect r s (hand_over send now r t client s)
  unfolding hand_over
  hand_over-Effect send now r t client s e n = record {
    queue_same = ground arith;
    others = λ x d. ground arith;
    runs = λ b. ground arith;
    goes_on = λ h. absurd (n h);
  }

  dispatch-Effect :
      (send : Option (Task → String → Bool)) (now r : ℕ) (c : ClientInfo) (s : Scheduler Q)
      → Effect r s (dispatch send now r c s)
  unfolding dispatch
  dispatch-Effect send now r c s =
      elim (Option-cases (transition TaskStatus.assigned now (s.store r))) [
        | inl e ↦
            rw (e, dispatch)
              (record { queue_same = refl; others = λ x d. refl; runs = λ b. cc; goes_on = λ h. h })
        | inr (t, e) ↦
            let n = not_running_of_assigned now (s.store r) t e in
            elim (Option-cases (transition TaskStatus.running now t)) [
              | inl e' ↦
                  rw (e, dispatch)
                    (rw e' (record {
                      queue_same = refl;
                      others = λ x d. ground arith;
                      runs = λ b. cc;
                      goes_on = λ h. absurd (n h);
                    }))
              | inr (u, e') ↦
                  rw (e, dispatch)
                    (rw e' (
                      hand_over-Effect send now r u c.id s
                        (transition-status TaskStatus.running now t u e') n))
            ]
      ]

  -- The three ways in which a round for the head `r` of the queue can end: the task is held back,
  -- it is running, or it is put back and the loop stops.
  pub data Outcome (ops : QueueOps Q) (r : ℕ) (held : List ℕ) (s : Scheduler Q)
      : Scheduler Q × List ℕ × Bool → Type 0 where
    holds :
        (s' : Scheduler Q)
        → s'.queue ≡ (ops.dequeue s.queue).1
        → ((x : ℕ) → s'.store x ≡ s.store x)
        → Outcome ops r held s (s', held ++ r ∷ [], true)
    starts :
        (s' : Scheduler Q)
        → s'.queue ≡ (ops.dequeue s.queue).1
        → ((x : ℕ) → r ≢ x → s'.store x ≡ s.store x)
        → IsRunning r s'
        → Outcome ops r held s (s', held, true)
    stops :
        (s' : Scheduler Q) (h : ℕ → Task)
        → s'.queue ≡ (ops.enqueue h r (ops.dequeue s.queue).1).0
        → ((x : ℕ) → r ≢ x → s'.store x ≡ s.store x)
        → (IsRunning r s → IsRunning r s')
        → Outcome ops r held s (s', held, false)

  settle-Outcome :
      (ops : QueueOps Q) (r : ℕ) (held : List ℕ) (s : Scheduler Q) (p : Scheduler Q × Bool)
      → Effect r (drop_head ops s) p
      → Outcome ops r held s ((settle ops r p).0, held, (settle ops r p).1)
  unfolding settle
  settle-Outcome ops r held s (s', true) f = starts s' f.queue_same f.others (f.runs refl)
  settle-Outcome ops r held s (s', false) f =
      stops _ s'.store (ap (λ q. (ops.enqueue s'.store r q).0) f.queue_same) f.others f.goes_on

  pub round-Outcome :
      (ops : QueueOps Q) (send : Option (Task → String → Bool)) (now r : ℕ) (held : List ℕ)
      (s : Scheduler Q)
      → Outcome ops r held s (round ops send now r held s)
  unfolding round
  round-Outcome ops send now r held s =
      elim (Option-cases (match_client s (s.store r) (exclude_id (s.store r)))) [
        | inl e ↦ rw (e, round) (holds (drop_head ops s) refl (λ x. refl))
        | inr (c, e) ↦
            rw (e, round)
              (settle-Outcome ops r held s _ (dispatch-Effect send now r c (drop_head ops s)))
      ]
