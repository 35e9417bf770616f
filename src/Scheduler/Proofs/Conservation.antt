-- ===== src/Scheduler/Proofs/Conservation.antt =====
-- `TryDispatch` ends and loses no task (pkg/reef/server/scheduler.go).
use reef.Prelude.{
  ℕ, zero, suc, ◌+◌, ◌≤◌, ◌<◌, ◌≡◌, refl, sym, ap, ◌∙◌, subst, ◌⊎◌, inl, inr, Bool, true, List, [],
  ◌∷◌, Option, some, String, arith, length, length-append, count, count-append, Bool-cases,
  Option-cases,
}
use native.Mathlib.Decide.{ℕ_discrete}
use reef.Task.{Task}
use reef.Queue.Interface.{QueueOps, QueueLaws}
use reef.Scheduler.{Scheduler}
use reef.Scheduler.Dispatch.{enqueue_task, round, dispatch_loop, put_back, try_dispatch}
use reef.Scheduler.Proofs.Rounds.{IsRunning, Outcome, round-Outcome}

module _ {Q : Type 0} (ops : QueueOps Q) (laws : QueueLaws ops) where
  open laws use {occurs, room, IsValid}

  -- How often the task `x` is queued or held back.
  abbrev waiting : ℕ → Scheduler Q → List ℕ → ℕ
  waiting x s held = occurs x s.queue + count x held

  -- From one point of the loop to another, a task that waits goes on waiting or runs, no task is
  -- queued that was not waiting, and there is room for what is held back.
  record Kept (x : ℕ) (s : Scheduler Q) (held : List ℕ) (s' : Scheduler Q) (held' : List ℕ)
      : Type 0 where
    not_more : waiting x s' held' ≤ waiting x s held
    waits_or_runs : (waiting x s' held' ≡ waiting x s held) ⊎ IsRunning x s'
    goes_on : IsRunning x s → IsRunning x s'
    has_room : length held' ≤ room s'.queue
    valid : IsValid s'.queue

  Kept-trans :
      (x : ℕ) (s t u : Scheduler Q) (hs ht hu : List ℕ)
      → Kept x s hs t ht
      → Kept x t ht u hu
      → Kept x s hs u hu
  Kept-trans x s t u hs ht hu a b = record {
    not_more = omega (arith, a.not_more, b.not_more);
    waits_or_runs = joined a.waits_or_runs b.waits_or_runs;
    goes_on = λ h. b.goes_on (a.goes_on h);
    has_room = b.has_room;
    valid = b.valid;
  }
    where
      joined :
          (waiting x t ht ≡ waiting x s hs) ⊎ IsRunning x t
          → (waiting x u hu ≡ waiting x t ht) ⊎ IsRunning x u
          → (waiting x u hu ≡ waiting x s hs) ⊎ IsRunning x u
      joined (inr p) _ = inr (b.goes_on p)
      joined (inl p) (inl q) = inl (q ∙ p)
      joined (inl p) (inr q) = inr q

  Outcome-Kept :
      (x r : ℕ) (s : Scheduler Q) (held : List ℕ) (p : Scheduler Q × List ℕ × Bool)
      → ops.peek s.queue ≡ some r
      → length held ≤ room s.queue
      → IsValid s.queue
      → Outcome ops r held s p
      → Kept x s held p.0 p.1
  Outcome-Kept x r s held p e h v (Outcome.holds s' q o) =
      let seen = laws.dequeue_occurs s.queue r x v e in
      let same = ap (occurs x) q in
      record {
        not_more = omega (arith, seen, same, count-append x held (r ∷ []));
        waits_or_runs = inl (omega (arith, seen, same, count-append x held (r ∷ [])));
        goes_on = λ run. ap (λ t. t.status) (o x) ∙ run;
        has_room =
            omega (arith, length-append held (r ∷ []), ap room q, laws.dequeue_room s.queue r v e);
        valid = subst IsValid (sym q) (laws.dequeue_valid s.queue v);
      }
  Outcome-Kept x r s held p e h v (Outcome.starts s' q o run) =
      let seen = laws.dequeue_occurs s.queue r x v e in
      let same = ap (occurs x) q in
      elim (ℕ_discrete r x) [
        | yes p ↦ record {
          not_more = omega (arith, seen, same);
          waits_or_runs = inr (subst (λ y. IsRunning y s') p run);
          goes_on = λ _. subst (λ y. IsRunning y s') p run;
          has_room = omega (arith, ap room q, laws.dequeue_room s.queue r v e);
          valid = subst IsValid (sym q) (laws.dequeue_valid s.queue v);
        }
        | no n ↦ record {
          not_more = omega (arith, seen, same);
          waits_or_runs = inl (ground (arith, seen, same));
          goes_on = λ g. ap (λ t. t.status) (o x n) ∙ g;
          has_room = omega (arith, ap room q, laws.dequeue_room s.queue r v e);
          valid = subst IsValid (sym q) (laws.dequeue_valid s.queue v);
        }
      ]
  Outcome-Kept x r s held p e h v (Outcome.stops s' store q o run) =
      let freed = laws.dequeue_room s.queue r v e in
      let q₀ : Q = (ops.dequeue s.queue).1 in
      let seen = laws.dequeue_occurs s.queue r x v e in
      let back =
        laws.enqueue_occurs store r x q₀ (laws.dequeue_valid s.queue v) (omega (arith, freed)) in
      let same = ap (occurs x) q in
      record {
        not_more = omega (arith, seen, same, back);
        waits_or_runs = inl (omega (arith, seen, same, back));
        goes_on = still (ℕ_discrete r x);
        has_room = omega (
          arith,
          ap room q,
          freed,
          laws.enqueue_room store r q₀ (laws.dequeue_valid s.queue v) (omega (arith, freed)),
        );
        valid =
            subst IsValid (sym q) (laws.enqueue_valid store r q₀ (laws.dequeue_valid s.queue v));
      }
    where
      still : Dec (r ≡ x) → IsRunning x s → IsRunning x s'
      still (yes p) g = subst (λ y. IsRunning y s') p (run (subst (λ y. IsRunning y s) (sym p) g))
      still (no n) g = ap (λ t. t.status) (o x n) ∙ g

  Outcome-shorter :
      (r : ℕ) (s : Scheduler Q) (held : List ℕ) (p : Scheduler Q × List ℕ × Bool)
      → ops.peek s.queue ≡ some r
      → IsValid s.queue
      → p.2 ≡ true
      → Outcome ops r held s p
      → ops.len p.0.queue + 1 ≡ ops.len s.queue
  Outcome-shorter r s held p e v g (Outcome.holds s' q o) =
      omega (arith, ap ops.len q, laws.dequeue_len s.queue r v e)
  Outcome-shorter r s held p e v g (Outcome.starts s' q o run) =
      omega (arith, ap ops.len q, laws.dequeue_len s.queue r v e)
  Outcome-shorter r s held p e v g (Outcome.stops s' store q o run) = cc

  -- With more fuel than tasks in the queue the loop ends, and keeps every task.
  loop_ends :
      (fuel : ℕ) (send : Option (Task → String → Bool)) (now x : ℕ) (s : Scheduler Q)
      (held : List ℕ)
      → ops.len s.queue < fuel
      → length held ≤ room s.queue
      → IsValid s.queue
      → (s' : Scheduler Q) × (held' : List ℕ) × (dispatch_loop fuel ops send now held s
          ≡ some (s', held'))
        × Kept x s held s' held'
  unfolding dispatch_loop
  loop_ends zero send now x s held h room_enough v = absurd (omega arith)
  loop_ends (suc fuel) send now x s held h enough v = elim (Option-cases (ops.peek s.queue)) [
    | inl e ↦ (
      s,
      held,
      rw (e, dispatch_loop) refl,
      record {
        not_more = omega arith;
        waits_or_runs = inl refl;
        goes_on = λ g. g;
        has_room = enough;
        valid = v;
      },
    )
    | inr (r, e) ↦
        let o = round-Outcome ops send now r held s in
        let p = round ops send now r held s in
        let kept = Outcome-Kept x r s held p e enough v o in
        elim (Bool-cases p.2) [
          | inl g ↦
              let (s', held', found, kept') =
                loop_ends fuel send now x p.0 p.1
                  (omega (arith, Outcome-shorter r s held p e v g o)) kept.has_room kept.valid in
              (
                s',
                held',
                rw (e, dispatch_loop) (rw g found),
                Kept-trans x s p.0 s' held p.1 held' kept kept',
              )
          | inr g ↦ (p.0, p.1, rw (e, dispatch_loop) (rw g refl), kept)
        ]
  ]

  -- Putting the tasks back queues them all.
  put_back_all :
      (rs : List ℕ) (x : ℕ) (s : Scheduler Q)
      → length rs ≤ room s.queue
      → IsValid s.queue
      → (occurs x (put_back ops rs s).queue ≡ occurs x s.queue + count x rs)
        × ((put_back ops rs s).store ≡ s.store)
  unfolding put_back
  put_back_all [] x s h v = (omega arith, refl)
  put_back_all (r ∷ rs) x s h v =
      let s' : Scheduler Q = (enqueue_task ops r s).0 in
      let spent = laws.enqueue_room s.store r s.queue v (omega arith) in
      let (a, b) =
        put_back_all rs x s' (omega (arith, spent)) (laws.enqueue_valid s.store r s.queue v) in
      (omega (arith, a, laws.enqueue_occurs s.store r x s.queue v (omega arith)), b)

  -- A call of `TryDispatch` beside which no other is at work always ends. Over a queue that keeps
  -- its promises, in a valid state, it loses no task and makes none up: afterwards each task is
  -- queued as often as before, unless it is now running, and never more often.
  pub try_dispatch_keeps :
      (send : Option (Task → String → Bool)) (now x : ℕ) (s : Scheduler Q)
      → IsValid s.queue
      → (s' : Scheduler Q) × (try_dispatch ops send now s ≡ some s')
        × (occurs x s'.queue ≤ occurs x s.queue)
        × ((occurs x s'.queue ≡ occurs x s.queue) ⊎ IsRunning x s')
  unfolding try_dispatch
  try_dispatch_keeps send now x s v =
      let (t, held, found, kept) =
        loop_ends (suc (ops.len s.queue)) send now x s [] (omega arith) (omega arith) v in
      let (back, same) = put_back_all held x t kept.has_room kept.valid in
      let still : (IsRunning x t → IsRunning x (put_back ops held t)) =
        λ g. ap (λ h. (h x).status) same ∙ g in
      (
        put_back ops held t,
        rw (found, try_dispatch) refl,
        omega (arith, back, kept.not_more),
        elim kept.waits_or_runs [ inl e ↦ inl (omega (arith, back, e)) | inr g ↦ inr (still g) ],
      )
