-- ===== src/Runner/Retries.antt =====
-- How the attempts of a task end (pkg/reef/client/task_runner.go).
use reef.Prelude.{
  ℕ, zero, suc, ◌+◌, ◌-◌, ◌/◌, ◌≤◌, ◌<◌, ◌≡◌, ◌⊎◌, Bool, true, false, List, [], ◌∷◌, ◌++◌, Option,
  some, String,
}
use reef.Prelude.Int.{ℤ}
use reef.Task.{AttemptRecord}
use reef.Runner.Errors.{GoError, is_retryable}
use reef.Runner.{
  succeeded, erred, Attempt, RunningTask, Report, Finished, delay_after, record_of, Verdict, done,
  stop, again, retry_from,
}

-- The waits after `c` attempts from `n` on.
abbrev pub delays : ℕ → ℕ → ℕ → List ℤ
delays base n zero = []
delays base n (suc c) = delay_after base n ∷ delays base (n + 1) c

module _ (lower : String → String) (attempts : ℕ → Attempt) where
  -- The records of `c` attempts from `n` on.
  abbrev pub records : ℕ → ℕ → List AttemptRecord
  records n zero = []
  records n (suc c) = record_of n (attempts n) ∷ records (n + 1) c

  -- After this attempt there is another one.
  abbrev pub GoesOn : Attempt → Type 0
  GoesOn a =
      (a.cancelled ≡ false)
      × ((e : GoError) × (a.outcome ≡ erred e) × (is_retryable lower (some e) ≡ true))

  -- The attempt `k` is the last one, and `f` is what it ends in.
  abbrev pub EndsAt : ℕ → ℕ → Finished → Type 0
  EndsAt limit k f =
      ((text : String) × ((attempts k).outcome ≡ succeeded text)
        × (f.task.status ≡ "completed")
        × (f.task.result ≡ text)
        × (f.report
            ≡ Report.completed text
                (((attempts k).ended_at - (attempts k).started_at) / 1_000_000)))
      ⊎ ((e : GoError) × ((attempts k).outcome ≡ erred e)
          × (((attempts k).cancelled ≡ true)
              ⊎ ((k ≡ limit) ⊎ (is_retryable lower (some e) ≡ false)))
          × (f.task.status ≡ "failed")
          × (f.task.error ≡ some e)
          × (f.report ≡ Report.failed e.message f.task.attempts))

  -- What the loop from the attempt `n` on comes to.
  abbrev Ends : ℕ → ℕ → ℕ → List ℤ → RunningTask → Option Finished → Type 0
  Ends base rounds n waits t r =
      (f : Finished) × (c k : ℕ) × (r ≡ some f)
      × (k ≡ n + c)
      × (c < rounds)
      × ((m : ℕ) → n ≤ m → m < k → GoesOn (attempts m))
      × EndsAt (n + rounds - 1) k f
      × (f.waits ≡ waits ++ delays base n c)
      × (f.task.attempts ≡ t.attempts ++ records n (suc c))

  -- The verdict tells the outcome and why there is no further attempt, or that there is one.
  Justified : Bool → Attempt → Verdict → Type 0
  Justified more a (done text) = a.outcome ≡ succeeded text
  Justified more a (stop e) =
      (a.outcome ≡ erred e)
      × ((a.cancelled ≡ true) ⊎ ((more ≡ false) ⊎ (is_retryable lower (some e) ≡ false)))
  Justified more a again = GoesOn a × (more ≡ true)

  -- What the rounds after the one at `n` come to, if there are any.
  Later : ℕ → ℕ → ℕ → List ℤ → RunningTask → Type 0
  Later base zero n waits t = Unit
  Later base (suc rounds) n waits t =
      Ends base (suc rounds) n waits t (retry_from lower base attempts (suc rounds) n waits t)
