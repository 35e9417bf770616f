-- ===== src/Scheduler/Proofs/Capacity.antt =====
-- The loads that the scheduler keeps (pkg/reef/server/scheduler.go).
use reef.Prelude.{
  ℕ, zero, suc, ◌<◌, ◌≡◌, inl, inr, Bool, true, false, List, [], ◌∷◌, Option, some, String, arith,
  In, Bool-cases, Option-cases,
}
use reef.Task.Status.{TaskStatus}
use reef.Task.{Task, transition}
use reef.Client.{ClientInfo, remaining_capacity}
use reef.Registry.{list}
use reef.Registry.Loads.{RegistryFits, decrement_load-Fits, increment_load-Fits}
use reef.Queue.Interface.{QueueOps, QueueLaws}
use reef.Scheduler.{Scheduler}
use reef.Scheduler.Matching.{exclude_id, match_client}
use reef.Scheduler.Dispatch.{
  sends, hand_over, dispatch, settle, round, dispatch_loop, put_back, try_dispatch, drop_head,
}
use reef.Scheduler.Proofs.Conservation.{try_dispatch_keeps}
use reef.Scheduler.Proofs.Matches.{match_client-CanTake}

has_room : (c : ClientInfo) → 0 < remaining_capacity c → c.current_load < c.capacity
unfolding remaining_capacity
has_room c h = omega arith

module _ {Q : Type 0} where
  -- Every registered client is within its capacity.
  abbrev pub LoadsFit : Scheduler Q → Type 0
  LoadsFit s = RegistryFits s.registry

  hand_over-LoadsFit :
      (send : Option (Task → String → Bool)) (now r : ℕ) (t : Task) (c : ClientInfo)
      (s : Scheduler Q)
      → LoadsFit s
      → In c (list s.registry)
      → c.current_load < c.capacity
      → LoadsFit (hand_over send now r t c.id s).0
  unfolding hand_over
  hand_over-LoadsFit send now r t c s v i h =
      let taken = increment_load-Fits c s.registry v i h in
      elim (Bool-cases (sends send (record t { assigned_client = c.id }) c.id)) [
        | inl e ↦ rw e taken
        | inr e ↦ rw e (decrement_load-Fits c.id _ taken)
      ]

  dispatch-LoadsFit :
      (send : Option (Task → String → Bool)) (now r : ℕ) (c : ClientInfo) (s : Scheduler Q)
      → LoadsFit s
      → In c (list s.registry)
      → c.current_load < c.capacity
      → LoadsFit (dispatch send now r c s).0
  unfolding dispatch
  dispatch-LoadsFit send now r c s v i h =
      elim (Option-cases (transition TaskStatus.assigned now (s.store r))) [
        | inl e ↦ rw (e, dispatch) v
        | inr (t, e) ↦ elim (Option-cases (transition TaskStatus.running now t)) [
          | inl e' ↦ rw (e, dispatch) (rw e' v)
          | inr (u, e') ↦ rw (e, dispatch) (rw e' (hand_over-LoadsFit send now r u c s v i h))
        ]
      ]

  settle-LoadsFit :
      (ops : QueueOps Q) (r : ℕ) (p : Scheduler Q × Bool)
      → LoadsFit p.0
      → LoadsFit (settle ops r p).0
  unfolding settle
  settle-LoadsFit ops r (s, true) v = v
  settle-LoadsFit ops r (s, false) v = v

  round-LoadsFit :
      (ops : QueueOps Q) (send : Option (Task → String → Bool)) (now r : ℕ) (held : List ℕ)
      (s : Scheduler Q)
      → LoadsFit s
      → LoadsFit (round ops send now r held s).0
  unfolding round
  round-LoadsFit ops send now r held s v =
      elim (Option-cases (match_client s (s.store r) (exclude_id (s.store r)))) [
        | inl e ↦ rw (e, round) v
        | inr (c, e) ↦
            let (i, ok) = match_client-CanTake s (s.store r) (exclude_id (s.store r)) c e in
            rw (e, round)
              (settle-LoadsFit ops r _
                (dispatch-LoadsFit send now r c (drop_head ops s) v i (has_room c ok.has_capacity)))
      ]

  loop-LoadsFit :
      (fuel : ℕ) (ops : QueueOps Q) (send : Option (Task → String → Bool)) (now : ℕ) (held : List ℕ)
      (s s' : Scheduler Q) (held' : List ℕ)
      → LoadsFit s
      → dispatch_loop fuel ops send now held s ≡ some (s', held')
      → LoadsFit s'
  unfolding dispatch_loop
  loop-LoadsFit zero ops send now held s s' held' v e = cc
  loop-LoadsFit (suc fuel) ops send now held s s' held' v e =
      elim (Option-cases (ops.peek s.queue)) [
        | inl p ↦ ground arith
        | inr (r, p) ↦ ground (
          arith,
          round-LoadsFit ops send now r held s v,
          loop-LoadsFit fuel ops send now (round ops send now r held s).1
              (round ops send now r held s).0 s' held',
        )
      ]

  put_back-LoadsFit :
      (ops : QueueOps Q) (rs : List ℕ) (s : Scheduler Q) → LoadsFit s → LoadsFit (put_back ops rs s)
  unfolding put_back
  put_back-LoadsFit ops [] s v = v
  put_back-LoadsFit ops (r ∷ rs) s v = put_back-LoadsFit ops rs _ v

  dispatched-LoadsFit :
      (ops : QueueOps Q) (send : Option (Task → String → Bool)) (now : ℕ) (s s' : Scheduler Q)
      → LoadsFit s
      → try_dispatch ops send now s ≡ some s'
      → LoadsFit s'
  unfolding try_dispatch
  dispatched-LoadsFit ops send now s s' v e =
      elim (Option-cases (dispatch_loop (suc (ops.len s.queue)) ops send now [] s)) [
        | inl p ↦ ground arith
        | inr ((t, held), p) ↦
            let kept =
              put_back-LoadsFit ops held t
                (loop-LoadsFit (suc (ops.len s.queue)) ops send now [] s t held v p) in
            ground arith
      ]

module _ {Q : Type 0} (ops : QueueOps Q) (laws : QueueLaws ops) where
  -- When a call of `TryDispatch`, beside which no other call is at work, starts with every client
  -- registered once, under its own id, and within its capacity, a number that is not negative,
  -- then it ends, over a queue that keeps its promises, with every client so, whatever is sent and
  -- whichever strategy is set.
  pub try_dispatch-LoadsFit :
      (send : Option (Task → String → Bool)) (now : ℕ) (s : Scheduler Q)
      → laws.IsValid s.queue
      → LoadsFit s
      → (s' : Scheduler Q) × (try_dispatch ops send now s ≡ some s') × LoadsFit s'
  try_dispatch-LoadsFit send now s v fits =
      let (s', e, _, _) = try_dispatch_keeps ops laws send now 0 s v in
      (s', e, dispatched-LoadsFit ops send now s s' fits e)
