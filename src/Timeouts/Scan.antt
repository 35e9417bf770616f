-- ===== src/Timeouts/Scan.antt =====
-- What a scan does to a task (pkg/reef/server/timeout_scanner.go, `scan`).
use reef.Prelude.{
  ℕ, ◌≡◌, refl, ◌⊎◌, inl, inr, Bool, true, false, List, [], ◌∷◌, Option, none, some, String, arith,
  lookup, In, All, UniqueKeys, lookup_of_In, In_of_lookup, update, if◌then◌else◌, Option-cases,
  Bool-cases, ◌==◌, ap, sym, ◌∙◌,
}
use reef.Prelude.Int.{ℤ, pos, ◌+ℤ◌, ◌<ℤ◌, ltb_ℤ, sub_ℕ}
use reef.Task.Status.{
  same_status, running, failed, is_terminal, same_status_iff, can_transition_to, valid, any_status,
}
use reef.Task.{Task, transition, try_transition, stamp}
use reef.Store.{MemoryStore}
use reef.Scheduler.{Scheduler, ok, with_task-some}
use reef.Scheduler.Control.{handle_task_timed_out, timed_out_at, timeout_error, if_running}
use reef.Timeouts.{duration_of_ms, overdue, scan_task, scan_tasks, scan, snapshot_pointers}

-- The tasks of the index stand under their own ids.
abbrev pub IsIndexed : (ℕ → Task) → List (String × ℕ) → Type 0
IsIndexed h m = All (λ (k, r). (h r).id ≡ k) m

abbrev pointed : ℕ → List ℕ → Bool
pointed q [] = false
pointed q (r ∷ rs) = if r == q then true else pointed q rs

All-map {ℓ} :
    {A : Type ℓ} (P R : A → Type 0) (xs : List A) → ((x : A) → P x → R x) → All P xs → All R xs
All-map P R [] f h = tt
All-map P R (x ∷ xs) f h = (f x h.0, All-map P R xs f h.1)

pointed_of_In :
    (k : String) (r : ℕ) (m : List (String × ℕ))
    → In (k, r) m
    → pointed r (snapshot_pointers m) ≡ true
pointed_of_In k r [] i = absurd i
pointed_of_In k r ((j, q) ∷ m) (inl e) = ground (arith, ap (λ p. p.1) e)
pointed_of_In k r ((j, q) ∷ m) (inr i) = ground (arith, pointed_of_In k r m i)

module _ (show : ℤ → String) (now : ℕ) where
  -- A task that a scan has timed out.
  abbrev pub timed_out : ℤ → Task → Task
  timed_out elapsed t = record t {
    status = failed;
    completed_at = some now;
    error = some (timeout_error (show elapsed));
    assigned_client = "";
  }

  -- The task runs, has started at `start`, and its timeout has passed since.
  abbrev pub PastDeadline : ℕ → Task → Type 0
  PastDeadline start t =
      (t.status ≡ running)
      × (t.started_at ≡ some start)
      × (pos start +ℤ duration_of_ms t.timeout_ms <ℤ pos now)

  -- What a scan makes of a task.
  unfoldable pub scanned : Task → Task
  scanned t = elim (overdue now t) [ none ↦ t | some elapsed ↦ timed_out elapsed t ]

  overdue_runs : (t : Task) (e : ℤ) → overdue now t ≡ some e → t.status ≡ running
  unfolding overdue
  overdue_runs t e o = elim (Bool-cases (same_status t.status running)) [
    | inl b ↦ same_status_iff t.status running b
    | inr b ↦ absurd (ground arith)
  ]

  overdue-PastDeadline :
      (t : Task) (e : ℤ)
      → overdue now t ≡ some e
      → (start : ℕ) × PastDeadline start t × (e ≡ sub_ℕ now start)
  unfolding overdue
  overdue-PastDeadline t e o = elim (Option-cases t.started_at) [
    | inl none_start ↦ absurd (ground (arith, overdue_runs t e o))
    | inr (start, b) ↦
        elim (Bool-cases (ltb_ℤ (pos start +ℤ duration_of_ms t.timeout_ms) (pos now))) [
          | inl l ↦
              (start, (overdue_runs t e o, b, ground arith), ground (arith, overdue_runs t e o))
          | inr l ↦ absurd (ground (arith, overdue_runs t e o))
        ]
  ]

  in_time : (t : Task) (start : ℕ) → overdue now t ≡ none → ¬ PastDeadline start t
  unfolding overdue same_status
  in_time t start o (c, b, l) = ground arith

  scanned_id : (t : Task) → (scanned t).id ≡ t.id
  unfolding scanned
  scanned_id t = ground arith

  -- A task that is not overdue stays, one that is gets timed out.
  unoverdue : (t : Task) → overdue now t ≡ none → scanned t ≡ t
  unfolding scanned
  unoverdue t o = rw (o, scanned) refl

  was_overdue : (t : Task) (e : ℤ) → overdue now t ≡ some e → scanned t ≡ timed_out e t
  unfolding scanned
  was_overdue t e o = rw (o, scanned) refl

  stays_out : (t : Task) (e : ℤ) → overdue now (timed_out e t) ≡ none
  unfolding overdue same_status
  stays_out t e = refl

  scanned_again : (t : Task) → scanned (scanned t) ≡ scanned t
  scanned_again t = elim (Option-cases (overdue now t)) [
    | inl o ↦ ap scanned (unoverdue t o)
    | inr (e, o) ↦
        let w = was_overdue t e o in
        ap scanned w ∙ unoverdue (timed_out e t) (stays_out t e) ∙ sym w
  ]

  twice :
      (r q : ℕ) (b : Bool) (t u v : Task)
      → u ≡ (if r == q then scanned t else v)
      → (r ≡ q → t ≡ v)
      → (if b then scanned u else u) ≡ (if (if r == q then true else b) then scanned v else v)
  twice r q b t u v e f = ground (arith, scanned_again t)

  module _ {Q : Type 0} where
    handled :
        (k : String) (r : ℕ) (e : ℤ) (s : Scheduler Q)
        → lookup k s.tasks ≡ some r
        → (s.store r).status ≡ running
        → handle_task_timed_out now k (show e) s ≡ timed_out_at now (show e) r s
    unfolding handle_task_timed_out if_running lookup same_status is_terminal
    handled k r e s l c = with_task-some k r s _ l ∙ simp c refl

    timed_out_store :
        (r q : ℕ) (e : ℤ) (s : Scheduler Q)
        → (s.store r).status ≡ running
        → ((timed_out_at now (show e) r s).0.store q ≡ update s.store r (timed_out e (s.store r)) q)
          × ((timed_out_at now (show e) r s).0.tasks ≡ s.tasks)
          × ((timed_out_at now (show e) r s).1 ≡ ok)
    unfolding timed_out_at try_transition transition can_transition_to valid any_status stamp
        same_status
    timed_out_store r q e s c = ground arith

    scan_task_lem :
        (r q : ℕ) (s : Scheduler Q) (m : Option MemoryStore)
        → lookup (s.store r).id s.tasks ≡ some r
        → ((scan_task show now r (s, m)).0.store q ≡ update s.store r (scanned (s.store r)) q)
          × ((scan_task show now r (s, m)).0.tasks ≡ s.tasks)
    unfolding scan_task
    scan_task_lem r q s m l = elim (Option-cases (overdue now (s.store r))) [
      | inl o ↦ ground (arith, unoverdue (s.store r) o)
      | inr (e, o) ↦
          let c = overdue_runs (s.store r) e o in
          let h = handled (s.store r).id r e s l c in
          let (a, b, d) = timed_out_store r q e s c in
          let w = was_overdue (s.store r) e o in ground arith
    ]

    abbrev Found : Scheduler Q → ℕ → Type 0
    Found s r = lookup (s.store r).id s.tasks ≡ some r

    scan_rest :
        (rs : List ℕ) (r q : ℕ) (s s' : Scheduler Q) (m' : Option MemoryStore)
        → (All (Found s') rs
            → ((scan_tasks show now rs (s', m')).0.store q
                ≡ (if pointed q rs then scanned (s'.store q) else s'.store q))
              × ((scan_tasks show now rs (s', m')).0.tasks ≡ s'.tasks))
        → All (Found s) rs
        → ((x : ℕ) → (s'.store x ≡ update s.store r (scanned (s.store r)) x) × (s'.tasks ≡ s.tasks))
        → ((scan_tasks show now rs (s', m')).0.store q
            ≡ (if pointed q (r ∷ rs) then scanned (s.store q) else s.store q))
          × ((scan_tasks show now rs (s', m')).0.tasks ≡ s.tasks)
    scan_rest rs r q s s' m' ih h f =
        let same_id : (x : ℕ) → (s'.store x).id ≡ (s.store x).id =
          λ x. ground (arith, (f x).0, scanned_id (s.store r)) in
        let still : All (Found s') rs =
          All-map (Found s) (Found s') rs
            (λ x g.
              ap (λ i. lookup i s'.tasks) (same_id x) ∙ ap (lookup (s.store x).id) (f q).1 ∙ g)
            h in
        let (a, b) = ih still in
        (
          a
              ∙ twice r q (pointed q rs) (s.store r) (s'.store q) (s.store q) (f q).0
                  (λ e. ap s.store e),
          b ∙ (f q).1,
        )

    scan_tasks_lem :
        (rs : List ℕ) (q : ℕ) (s : Scheduler Q) (m : Option MemoryStore)
        → All (Found s) rs
        → ((scan_tasks show now rs (s, m)).0.store q
            ≡ (if pointed q rs then scanned (s.store q) else s.store q))
          × ((scan_tasks show now rs (s, m)).0.tasks ≡ s.tasks)
    unfolding scan_tasks
    scan_tasks_lem [] q s m h = (refl, refl)
    scan_tasks_lem (r ∷ rs) q s m h =
        scan_rest rs r q s (scan_task show now r (s, m)).0 (scan_task show now r (s, m)).1
          (scan_tasks_lem rs q (scan_task show now r (s, m)).0 (scan_task show now r (s, m)).1) h.1
          (λ x. scan_task_lem r x s m h.0)

    Found-of_index :
        (s : Scheduler Q) (m : List (String × ℕ))
        → ((k : String) (r : ℕ) → In (k, r) m → lookup k s.tasks ≡ some r)
        → IsIndexed s.store m
        → All (Found s) (snapshot_pointers m)
    Found-of_index s [] f i = tt
    Found-of_index s ((k, r) ∷ m) f i = (
      ap (λ x. lookup x s.tasks) i.0 ∙ f k r (inl refl),
      Found-of_index s m (λ j q n. f j q (inr n)) i.1,
    )

    scan_gives :
        (k : String) (r : ℕ) (s : Scheduler Q) (m : Option MemoryStore)
        → UniqueKeys s.tasks
        → IsIndexed s.store s.tasks
        → lookup k s.tasks ≡ some r
        → ((scan show now (s, m)).0.store r ≡ scanned (s.store r))
          × ((scan show now (s, m)).0.tasks ≡ s.tasks)
    unfolding scan
    scan_gives k r s m u i l =
        let found = Found-of_index s s.tasks (λ j q n. lookup_of_In j q s.tasks u n) i in
        let (a, b) = scan_tasks_lem (snapshot_pointers s.tasks) r s m found in
        (ground (arith, a, pointed_of_In k r s.tasks (In_of_lookup k r s.tasks l)), b)

    -- In a scan of a scheduler whose index holds each task once, under its own id, every task
    -- of the index that runs, and for which start plus timeout lies before the time of the scan,
    -- fails with the timeout and loses its client, every other one stays as it was, and the
    -- index does not change.
    pub scan_times_out :
        (k : String) (r : ℕ) (s : Scheduler Q) (m : Option MemoryStore)
        → UniqueKeys s.tasks
        → IsIndexed s.store s.tasks
        → lookup k s.tasks ≡ some r
        → let s' = (scan show now (s, m)).0 in
          (((start : ℕ) × PastDeadline start (s.store r)
              × (s'.store r ≡ timed_out (sub_ℕ now start) (s.store r)))
            ⊎ (((start : ℕ) → ¬ PastDeadline start (s.store r)) × (s'.store r ≡ s.store r)))
          × (s'.tasks ≡ s.tasks)
    scan_times_out k r s m u i l =
        let (a, b) = scan_gives k r s m u i l in
        let t = s.store r in
        elim (Option-cases (overdue now t)) [
          | inl o ↦ (inr (λ start. in_time t start o, a ∙ unoverdue t o), b)
          | inr (e, o) ↦
              let (start, p, d) = overdue-PastDeadline t e o in
              (inl (start, p, a ∙ was_overdue t e o ∙ ap (λ x. timed_out x t) d), b)
        ]
