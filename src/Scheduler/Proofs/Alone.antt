-- ===== src/Scheduler/Proofs/Alone.antt =====
-- The turns of one caller of `TryDispatch`, with no other at work (pkg/reef/server/scheduler.go).
use reef.Prelude.{
  ℕ, zero, suc, ◌≡◌, refl, ◌∙◌, sym, subst, inl, inr, Bool, true, false, List, [], ◌∷◌, ◌++◌,
  Option, none, some, String, arith, Option-cases, if◌then◌else◌,
}
use reef.Task.{Task}
use reef.Client.{ClientInfo}
use reef.Queue.Interface.{QueueOps}
use reef.Scheduler.{Scheduler}
use reef.Scheduler.Matching.{exclude_id, match_client}
use reef.Scheduler.Dispatch.{
  dispatch, settle, round, dispatch_loop, put_back, try_dispatch, drop_head,
}
use reef.Scheduler.Callers.{Caller, looking, matching, taking, setting_aside, putting_back, turn}

module _ {Q : Type 0} (ops : QueueOps Q) (send : Option (Task → String → Bool)) (now : ℕ) where
  -- A caller gets by turns of its own from a place and a state to `c'` and `s'`.
  pub data Leads (c' : Caller) (s' : Scheduler Q) : Caller → Scheduler Q → Type 0 where
    there : Leads c' s' c' s'
    onward :
        {c d : Caller} {s t : Scheduler Q}
        → turn ops send now c s ≡ (t, d)
        → Leads c' s' d t
        → Leads c' s' c s

  put_back-Leads :
      (rs : List ℕ) (s : Scheduler Q)
      → Leads (putting_back []) (put_back ops rs s) (putting_back rs) s
  unfolding turn put_back
  put_back-Leads [] s = there
  put_back-Leads (r ∷ rs) s = onward refl (put_back-Leads rs _)

  -- A round's end: where the caller then stands.
  abbrev After : Caller → Scheduler Q → Scheduler Q × List ℕ × Bool → Type 0
  After c' s' p = Leads c' s' (if p.2 then looking p.1 else putting_back p.1) p.0

  round_aside :
      (r : ℕ) (held : List ℕ) (s : Scheduler Q)
      → match_client s (s.store r) (exclude_id (s.store r)) ≡ none
      → round ops send now r held s ≡ (drop_head ops s, held ++ r ∷ [], true)
  unfolding round
  round_aside r held s m = rw (m, round) refl

  round_sent :
      (r : ℕ) (held : List ℕ) (c : ClientInfo) (s : Scheduler Q)
      → match_client s (s.store r) (exclude_id (s.store r)) ≡ some c
      → round ops send now r held s ≡ (
        (settle ops r (dispatch send now r c (drop_head ops s))).0,
        held,
        (settle ops r (dispatch send now r c (drop_head ops s))).1,
      )
  unfolding round
  round_sent r held c s m = rw (m, round) refl

  round-Leads :
      (r : ℕ) (held : List ℕ) (s : Scheduler Q) (c' : Caller) (s' : Scheduler Q)
      → ops.peek s.queue ≡ some r
      → After c' s' (round ops send now r held s)
      → Leads c' s' (looking held) s
  unfolding turn
  round-Leads r held s c' s' p rest =
      let look : turn ops send now (looking held) s ≡ (s, matching r held) = rw (p, turn) refl in
      elim (Option-cases (match_client s (s.store r) (exclude_id (s.store r)))) [
        | inl m ↦
            let nobody : turn ops send now (matching r held) s ≡ (s, setting_aside r held) =
              rw (m, turn) refl in
            onward look
              (onward nobody (onward refl (subst (After c' s') (round_aside r held s m) rest)))
        | inr (c, m) ↦
            let found : turn ops send now (matching r held) s ≡ (s, taking r c held) =
              rw (m, turn) refl in
            onward look (
              onward found
                (onward refl (onward refl (subst (After c' s') (round_sent r held c s m) rest))))
      ]

  -- What the loop does after a round.
  abbrev next_round : ℕ → Scheduler Q × List ℕ × Bool → Option (Scheduler Q × List ℕ)
  next_round fuel p = elim p.2 [
    | true ↦ dispatch_loop fuel ops send now p.1 p.0
    | false ↦ some (p.0, p.1)
  ]

  -- As after the loop
  abbrev Ended : Caller → Scheduler Q → Option (Scheduler Q × List ℕ) → Type 0
  Ended c' s' none = Unit
  Ended c' s' (some (t, held)) = Leads c' s' (putting_back held) t

  next-After :
      (fuel : ℕ) (c' : Caller) (s' : Scheduler Q) (o : Option (Scheduler Q × List ℕ))
      (d : Scheduler Q × List ℕ × Bool)
      → Ended c' s' o
      → next_round fuel d ≡ o
      → (dispatch_loop fuel ops send now d.1 d.0 ≡ o → Leads c' s' (looking d.1) d.0)
      → After c' s' d
  next-After fuel c' s' o (x, h, true) rest e ih = ih e
  next-After fuel c' s' o (x, h, false) rest e ih = subst (Ended c' s') (sym e) rest

  loop-Leads :
      (fuel : ℕ) (held held' : List ℕ) (s t : Scheduler Q) (c' : Caller) (s' : Scheduler Q)
      → dispatch_loop fuel ops send now held s ≡ some (t, held')
      → Leads c' s' (putting_back held') t
      → Leads c' s' (looking held) s
  unfolding dispatch_loop turn
  loop-Leads zero held held' s t c' s' e rest = cc
  loop-Leads (suc fuel) held held' s t c' s' e rest = elim (Option-cases (ops.peek s.queue)) [
    | inl p ↦
        let over : turn ops send now (looking held) s ≡ (s, putting_back held) =
          rw (p, turn) refl in
        let result : dispatch_loop (suc fuel) ops send now held s ≡ some (s, held) =
          rw (p, dispatch_loop) refl in
        onward over (subst (Ended c' s') (sym e ∙ result) rest)
    | inr (r, p) ↦
        let d = round ops send now r held s in
        let result : dispatch_loop (suc fuel) ops send now held s ≡ next_round fuel d =
          rw (p, dispatch_loop) refl in
        round-Leads r held s c' s' p (
          next-After fuel c' s' (some (t, held')) d rest (sym result ∙ e)
            (λ n. loop-Leads fuel d.1 held' d.0 t c' s' n rest))
  ]

  -- A call of `TryDispatch` that nobody disturbs is a sequence of turns of its caller.
  pub try_dispatch-Leads :
      (s s' : Scheduler Q)
      → try_dispatch ops send now s ≡ some s'
      → Leads (putting_back []) s' (looking []) s
  unfolding try_dispatch
  try_dispatch-Leads s s' e =
      elim (Option-cases (dispatch_loop (suc (ops.len s.queue)) ops send now [] s)) [
        | inl p ↦ ground arith
        | inr ((t, held), p) ↦
            let back : put_back ops held t ≡ s' = ground arith in
            loop-Leads (suc (ops.len s.queue)) [] held s t (putting_back []) s' p (
              subst (λ x. Leads (putting_back []) x (putting_back held) t) back
                (put_back-Leads held t))
      ]
