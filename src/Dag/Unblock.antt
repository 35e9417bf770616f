-- ===== src/Dag/Unblock.antt =====
-- Which sub-tasks the engine lets run, and when a parent is done (pkg/reef/server/dag_engine.go,
-- `checkUnblock` and `allSubTasksDone`).
use reef.Prelude.{
  ℕ, ◌≡◌, ◌≢◌, refl, ◌⊎◌, ◌↔◌, inl, inr, true, false, ◌&&◌, List, [], ◌∷◌, none, some, String,
  arith, All, Option-cases, Bool-cases, lookup,
}
use reef.Task.Status.{
  blocked, queued, completed, same_status, same_status_iff, same_status_refl, is_terminal,
  can_transition_to, valid, any_status,
}
use reef.Task.{Task, transition, try_transition, stamp}
use reef.Store.{get_sub_task_ids, get_task}
use reef.Dag.{
  DagEngine, Located, locate, task_at, find, write, deps_met, unblock_one, all_terminal,
  all_sub_tasks_done,
}

module _ {Q : Type 0} (d : DagEngine Q) where
  -- The task of the id is found, and completed.
  abbrev pub IsDone : String → Type 0
  IsDone id = (t : Task) × (find id d ≡ some t) × (t.status ≡ completed)

  -- The task of the id is found, and in a terminal status.
  abbrev pub IsOver : String → Type 0
  IsOver id = (t : Task) × (find id d ≡ some t) × (is_terminal t.status ≡ true)

  pub deps_met-IsDone : (ids : List String) → deps_met ids d ≡ true → All IsDone ids
  unfolding deps_met
  deps_met-IsDone [] h = tt
  deps_met-IsDone (id ∷ ids) h = elim (Option-cases (find id d)) [
    | inl e ↦ absurd (ground arith)
    | inr (t, e) ↦ elim (Bool-cases (same_status t.status completed)) [
      | inl c ↦ ((t, e, same_status_iff t.status completed c), deps_met-IsDone ids (ground arith))
      | inr c ↦ absurd (ground arith)
    ]
  ]

  pub IsDone-deps_met : (ids : List String) → All IsDone ids → deps_met ids d ≡ true
  unfolding deps_met
  IsDone-deps_met [] h = refl
  IsDone-deps_met (id ∷ ids) ((t, e, c), h) =
      let s : same_status t.status completed ≡ true = rw c (same_status_refl completed) in
      ground (arith, e, s, IsDone-deps_met ids h)

  all_terminal-IsOver : (ids : List String) → all_terminal ids d ≡ some true → All IsOver ids
  unfolding all_terminal
  all_terminal-IsOver [] h = tt
  all_terminal-IsOver (id ∷ ids) h = elim (Option-cases (find id d)) [
    | inl e ↦ absurd (ground arith)
    | inr (t, e) ↦ elim (Bool-cases (is_terminal t.status)) [
      | inl c ↦ ((t, e, c), all_terminal-IsOver ids (ground arith))
      | inr c ↦ absurd (ground arith)
    ]
  ]

  IsOver-all_terminal : (ids : List String) → All IsOver ids → all_terminal ids d ≡ some true
  unfolding all_terminal
  IsOver-all_terminal [] h = refl
  IsOver-all_terminal (id ∷ ids) ((t, e, c), h) = ground (arith, e, c, IsOver-all_terminal ids h)

  -- The sub-tasks of a parent count as done exactly when it has some, and each of them is found and
  -- in a terminal status.
  pub all_done_iff :
      (parent : String)
      → (all_sub_tasks_done parent d ≡ some true)
        ↔ ((get_sub_task_ids parent d.store ≢ []) × All IsOver (get_sub_task_ids parent d.store))
  unfolding all_sub_tasks_done
  all_done_iff parent = of_list (get_sub_task_ids parent d.store)
    where
      of_list :
          (ids : List String)
          → ((elim ids [ [] ↦ some false | i ∷ is ↦ all_terminal (i ∷ is) d ]) ≡ some true)
            ↔ ((ids ≢ []) × All IsOver ids)
      of_list [] = (λ h. absurd (ground arith), λ (n, a). absurd (n refl))
      of_list (i ∷ is) = (
        λ h. (λ e. ground arith, all_terminal-IsOver (i ∷ is) h),
        λ (n, a). IsOver-all_terminal (i ∷ is) a,
      )

  was_blocked :
      (t : Task) (ids : List String)
      → (same_status t.status blocked && deps_met ids d) ≡ true
      → (t.status ≡ blocked) × All IsDone ids
  was_blocked t ids h =
      (same_status_iff t.status blocked (ground arith), deps_met-IsDone ids (ground arith))

  stays_blocked :
      (t : Task) (ids : List String)
      → (same_status t.status blocked && deps_met ids d) ≡ false
      → ¬ ((t.status ≡ blocked) × All IsDone ids)
  stays_blocked t ids h (c, a) =
      let b : same_status t.status blocked ≡ true = rw c (same_status_refl blocked) in
      ground (arith, h, b, IsDone-deps_met ids a)

  unblocked :
      (now : ℕ) (t : Task)
      → t.status ≡ blocked
      → try_transition queued now t ≡ record t { status = queued }
  unfolding try_transition transition can_transition_to valid any_status same_status stamp
  unblocked now t e = ground arith

  -- A sub-task is let go in exactly one case: it is found, is blocked, and each of its dependencies
  -- is found and completed; then it alone is handed on, and is queued. In the other cases nothing
  -- changes: it is not found, or it is found and it is false that it is blocked and that each of its
  -- dependencies is found and completed.
  pub unblock_one_exact :
      (now : ℕ) (id : String)
      → ((unblock_one now id d ≡ (d, []))
          × ((find id d ≡ none)
              ⊎ ((t : Task) × (find id d ≡ some t)
                  × (¬ ((t.status ≡ blocked) × All IsDone t.dependencies)))))
        ⊎ ((t : Task) × (l : Located) × (find id d ≡ some t)
            × (t.status ≡ blocked)
            × All IsDone t.dependencies
            × ((unblock_one now id d).1 ≡ l ∷ [])
            × (task_at l (unblock_one now id d).0 ≡ record t { status = queued }))
  unfolding unblock_one find write locate
  unblock_one_exact now id = elim (Option-cases (lookup id d.scheduler.tasks)) [
    | inr (r, e) ↦
        let t = d.scheduler.store r in
        elim (Bool-cases (same_status t.status blocked && deps_met t.dependencies d)) [
          | inl b ↦
              let (c, a) = was_blocked t t.dependencies b in
              inr (
                t,
                Located.shared r,
                ground arith,
                c,
                a,
                ground arith,
                ground (arith, unblocked now t c),
              )
          | inr b ↦ inl (ground arith, inr (t, ground arith, stays_blocked t t.dependencies b))
        ]
    | inl e ↦ elim (Option-cases (get_task id d.store)) [
      | inl f ↦ inl (ground arith, inl (ground arith))
      | inr (t, f) ↦ elim (Bool-cases (same_status t.status blocked && deps_met t.dependencies d)) [
        | inl b ↦
            let (c, a) = was_blocked t t.dependencies b in
            inr (
              t,
              Located.copied (try_transition queued now t),
              ground arith,
              c,
              a,
              ground arith,
              ground (arith, unblocked now t c),
            )
        | inr b ↦ inl (ground arith, inr (t, ground arith, stays_blocked t t.dependencies b))
      ]
    ]
  ]
