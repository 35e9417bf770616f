-- ===== src/Scheduler/Proofs/Escalation.antt =====
-- What an escalation decision means (pkg/reef/server/scheduler.go).
use reef.Prelude.{
  ◌≤◌, ◌<◌, ◌≡◌, refl, subst, ◌⊎◌, inl, inr, List, [], ◌∷◌, String, Option, none, some, arith, leb,
  In, length, Bool-cases, Option-cases,
}
use reef.Task.{Task}
use reef.Client.{ClientInfo}
use reef.Registry.{list}
use reef.Scheduler.{Scheduler, tasks_snapshot}
use reef.Strategy.{MatchStrategy, select}
use reef.Scheduler.Matching.{
  held, locking, eligible, strategy_or_default, select_any, select_from, select_any_from,
  match_client, match_client_in,
}
use reef.Scheduler.Reports.{EscalationDecision, reassign, terminate, to_admin, escalate}
use reef.Scheduler.Proofs.Matches.{CanTake, match_client-CanTake, CanTake-match_client}

module _ {Q : Type 0} where
  -- Why a decision is right for the failed task `t`, whose client is still assigned.
  pub data Justified (s : Scheduler Q) (t : Task) : EscalationDecision → Type 0 where
    used_up : s.max_escalations ≤ t.escalation_count → Justified s t to_admin
    another :
        (c : ClientInfo)
        → t.escalation_count < s.max_escalations
        → In c (list s.registry)
        → CanTake t t.assigned_client c
        → Justified s t reassign
    nobody :
        t.escalation_count < s.max_escalations
        → ((c : ClientInfo) → In c (list s.registry) → ¬ CanTake t t.assigned_client c)
        → Justified s t terminate

  data Cases (s : Scheduler Q) (t : Task) (o : Option EscalationDecision) : Type 0 where
    full : s.max_escalations ≤ t.escalation_count → o ≡ some to_admin → Cases s t o
    stuck : o ≡ none → Cases s t o
    none_left :
        t.escalation_count < s.max_escalations
        → match_client s t t.assigned_client ≡ none
        → o ≡ some terminate
        → Cases s t o
    some_left :
        (c : ClientInfo)
        → t.escalation_count < s.max_escalations
        → match_client s t t.assigned_client ≡ some c
        → o ≡ some reassign
        → Cases s t o

  -- What a caller with the lock gets is what a caller without it gets.
  held_or_waits :
      (s : Scheduler Q) (t : Task) (exclude : String)
      → (match_client_in held s t exclude ≡ none)
        ⊎ (match_client_in held s t exclude ≡ some (match_client s t exclude))
  unfolding match_client_in match_client select_any_from select_any select_from locking select
  held_or_waits s t exclude =
      go (strategy_or_default s.match_strategy) (eligible t exclude (list s.registry))
    where
      go :
          (m : MatchStrategy) (cs : List ClientInfo)
          → (select_any_from m none cs ≡ none)
            ⊎ (select_any_from m none cs ≡ some (select_any m (tasks_snapshot s) cs))
      go m [] = inr refl
      go MatchStrategy.least_load_strategy (c ∷ cs) = inr refl
      go MatchStrategy.round_robin_strategy (c ∷ cs) = inr refl
      go MatchStrategy.affinity_strategy (c ∷ cs) = inl refl

  escalate-Cases : (s : Scheduler Q) (t : Task) → Cases s t (escalate s t)
  unfolding escalate
  escalate-Cases s t = elim (Bool-cases (leb s.max_escalations t.escalation_count)) [
    | inl e ↦ full (ground arith) (rw (e, escalate) refl)
    | inr e ↦ elim (held_or_waits s t t.assigned_client) [
      | inl w ↦ stuck (rw (e, escalate) (rw w refl))
      | inr w ↦ elim (Option-cases (match_client s t t.assigned_client)) [
        | inl m ↦ none_left (ground arith) m (rw (e, escalate) (rw w (rw m refl)))
        | inr (c, m) ↦ some_left c (ground arith) m (rw (e, escalate) (rw w (rw m refl)))
      ]
    ]
  ]

  -- A decision that the escalation comes to is justified, as long as the index holds at most
  -- 19998 tasks: a task goes to the administrator when its escalations are used up, is
  -- reassigned only when some other registered client can take it, and is given up only when no
  -- other one can.
  pub escalate-Justified :
      (s : Scheduler Q) (t : Task) (d : EscalationDecision)
      → length (tasks_snapshot s) ≤ 19998
      → escalate s t ≡ some d
      → Justified s t d
  escalate-Justified s t d short e = justify (escalate-Cases s t)
    where
      justify : Cases s t (escalate s t) → Justified s t d
      justify (full le p) = subst (Justified s t) (cc) (used_up le)
      justify (stuck p) = cc
      justify (none_left lt m p) = subst (Justified s t) (cc) (
          nobody lt (λ c i can.
            let (r, found) = CanTake-match_client s t t.assigned_client c short i can in cc))
      justify (some_left c lt m p) =
          let (i, can) = match_client-CanTake s t t.assigned_client c m in
          subst (Justified s t) (cc) (another c lt i can)
