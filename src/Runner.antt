-- ===== src/Runner.antt =====
-- pkg/reef/client/task_runner.go: the task runner of a client, with the classifier of errors of
-- pkg/reef/error_classifier.go. What happens in one attempt is an input: when it starts and ends, what the
-- execution returns, and whether the task's context is cancelled right after it. Tool calls, pauses and
-- progress reports are left out.
pub mod Errors
pub mod Delays
pub mod Retries
use reef.Prelude.{
  ℕ, zero, suc, ◌+◌, ◌-◌, ◌*◌, ◌/◌, ◌%◌, ◌^◌, Bool, true, false, not, List, [], ◌∷◌, ◌++◌, Option,
  none, some, String, ltb, if◌then◌else◌,
}
use reef.Prelude.Int.{or_default, ℤ, pos, negsuc, ltb_ℤ}
use reef.Task.{AttemptRecord}
use reef.Runner.Errors.{GoError, is_retryable}

-- What an execution returns.
pub data Outcome : Type 0 where
  succeeded : String → Outcome
  erred : GoError → Outcome

pub record Attempt : Type 0 where
  pub started_at : ℕ
  pub ended_at : ℕ
  pub outcome : Outcome
  pub cancelled : Bool

pub record RunningTask : Type 0 where
  pub task_id : String
  pub instruction : String
  pub status : String
  pub result : String
  pub error : Option GoError
  pub attempts : List AttemptRecord

pub record TaskRunner : Type 0 where
  pub max_retries : ℕ
  pub retry_delay : ℕ

-- `NewTaskRunner`
unfoldable pub new_task_runner : ℤ → ℤ → TaskRunner
new_task_runner max_retries retry_delay = record {
  max_retries = or_default 3 max_retries;
  retry_delay = or_default 1_000_000_000 retry_delay;
}

-- The integer of a 64-bit word.
unfoldable pub signed : ℕ → ℤ
signed n = let w = n % 2 ^ 64 in if ltb w (2 ^ 63) then pos w else negsuc (2 ^ 64 - 1 - w)

-- `1<<attempt` as an `int64`
unfoldable pub shift_one : ℕ → ℕ
shift_one attempt = if ltb attempt 64 then 2 ^ attempt else 0

-- The wait before the next attempt, at most thirty seconds; a wait that is not positive is none.
unfoldable pub delay_after : ℕ → ℕ → ℤ
unfolding signed shift_one
delay_after base attempt =
    let delay = signed (shift_one attempt * base) in
    if ltb_ℤ (pos 30_000_000_000) delay then pos 30_000_000_000 else delay

-- What is reported to the server at the end.
pub data Report : Type 0 where
  completed : String → ℕ → Report
  failed : String → List AttemptRecord → Report

pub record Finished : Type 0 where
  pub task : RunningTask
  pub waits : List ℤ
  pub report : Report

unfoldable pub record_of : ℕ → Attempt → AttemptRecord
record_of n a = record {
  attempt_number = n;
  started_at = a.started_at;
  ended_at = a.ended_at;
  status = elim a.outcome [ succeeded text ↦ "success" | erred e ↦ "failed" ];
  error_message = elim a.outcome [ succeeded text ↦ "" | erred e ↦ e.message ];
  client_id = "";
}

abbrev pub logged : ℕ → Attempt → RunningTask → RunningTask
logged n a t = record t { attempts = t.attempts ++ record_of n a ∷ [] }

unfoldable pub complete : String → Attempt → List ℤ → RunningTask → Finished
complete text a waits t = record {
  task = record t { status = "completed"; result = text };
  waits = waits;
  report = Report.completed text ((a.ended_at - a.started_at) / 1_000_000);
}

unfoldable pub give_up : GoError → List ℤ → RunningTask → Finished
give_up e waits t = record {
  task = record t { status = "failed"; error = some e };
  waits = waits;
  report = Report.failed e.message t.attempts;
}

-- What follows an attempt.
pub data Verdict : Type 0 where
  done : String → Verdict
  stop : GoError → Verdict
  again : Verdict

-- The tests after an attempt; `more` is `attempt < maxRetries`.
unfoldable pub next_step : (String → String) → Bool → Attempt → Verdict
unfolding is_retryable
next_step lower more a = elim a.outcome [
  | succeeded text ↦ done text
  | erred e ↦
      if a.cancelled
      then stop e
      else if not more
      then stop e
      else if not (is_retryable lower (some e))
      then stop e
      else again
]

module _ (lower : String → String) (base : ℕ) (attempts : ℕ → Attempt) where
  -- The loop of `runWithRetry`, with the rounds that are left. `none` is the panic of a loop that is never
  -- entered, where there is no last error.
  unfoldable pub retry_from : ℕ → ℕ → List ℤ → RunningTask → Option Finished
  unfolding next_step complete give_up
  retry_from zero n waits t = none
  retry_from (suc rounds) n waits t = elim (next_step lower (ltb 0 rounds) (attempts n)) [
    | done text ↦ some (complete text (attempts n) waits (logged n (attempts n) t))
    | stop e ↦ some (give_up e waits (logged n (attempts n) t))
    | again ↦ retry_from rounds (n + 1) (waits ++ delay_after base n ∷ []) (logged n (attempts n) t)
  ]

unfoldable pub new_running_task : String → String → RunningTask
new_running_task id instruction = record {
  task_id = id;
  instruction = instruction;
  status = "running";
  result = "";
  error = none;
  attempts = [];
}

-- `StartTask`, to the end of its goroutine
unfoldable pub start_task :
    (String → String) → (ℕ → Attempt) → TaskRunner → String → String → ℤ → Option Finished
unfolding retry_from new_running_task
start_task lower attempts r id instruction max_retries =
    retry_from lower r.retry_delay attempts (or_default r.max_retries max_retries + 1) 0 []
      (new_running_task id instruction)
