-- ===== src/Task.antt =====
-- pkg/reef/task.go: the task record, its construction and its transitions. Times are nanoseconds
-- since an epoch. Left out: `Quality` (a float that only the evolution recorder sets), the
-- result's `Metadata` (arbitrary JSON), and the channels and cancel function of `TaskContext`.
pub mod Status
pub mod Lifecycle
use reef.Prelude.{
  ℕ, ◌≡◌, refl, Bool, true, false, not, ◌&&◌, ◌||◌, List, [], ◌∷◌, ◌++◌, Option, none, some, String,
  str_eq, if◌then◌else◌,
}
use reef.Prelude.Int.{ℤ, pos}
use Status.{TaskStatus, can_transition_to}

pub record TaskResult : Type 0 where
  pub text : String
  pub files : List String

pub record TaskError : Type 0 where
  pub type : String
  pub message : String
  pub detail : String

pub record BlockReport : Type 0 where
  pub type : String
  pub message : String
  pub context : String

-- `BlockReport.IsValid`
unfoldable pub block_report_is_valid : BlockReport → Bool
block_report_is_valid br =
    if str_eq br.type "" || str_eq br.message ""
    then false
    else (str_eq br.type "tool_error"
        || (str_eq br.type "context_corruption"
            || (str_eq br.type "resource_unavailable" || str_eq br.type "unknown")))

pub record AttemptRecord : Type 0 where
  pub attempt_number : ℕ
  pub started_at : ℕ
  pub ended_at : ℕ
  pub status : String
  pub error_message : String
  pub client_id : String

pub record ReplyToContext : Type 0 where
  pub channel : String
  pub chat_id : String
  pub user_id : String

pub record Task : Type 0 where
  pub id : String
  pub status : TaskStatus
  pub instruction : String
  pub required_role : String
  pub required_skills : List String
  pub max_retries : ℤ
  pub timeout_ms : ℤ
  pub model_hint : String
  pub priority : ℤ
  pub parent_task_id : String
  pub sub_task_ids : List String
  pub dependencies : List String
  pub reply_to : Option ReplyToContext
  pub assigned_client : String
  pub result : Option TaskResult
  pub error : Option TaskError
  pub attempt_history : List AttemptRecord
  pub created_at : ℕ
  pub assigned_at : Option ℕ
  pub started_at : Option ℕ
  pub completed_at : Option ℕ
  pub escalation_count : ℕ
  pub pause_reason : String
  pub progress_percent : ℤ
  pub block_report : Option BlockReport

-- `NewTask` at time `now`
unfoldable pub new_task : ℕ → String → String → String → List String → Task
new_task now id instruction required_role required_skills = record {
  id = id;
  status = TaskStatus.created;
  instruction = instruction;
  required_role = required_role;
  required_skills = required_skills;
  max_retries = pos 3;
  timeout_ms = pos 600_000;
  model_hint = "";
  priority = pos 5;
  parent_task_id = "";
  sub_task_ids = [];
  dependencies = [];
  reply_to = none;
  assigned_client = "";
  result = none;
  error = none;
  attempt_history = [];
  created_at = now;
  assigned_at = none;
  started_at = none;
  completed_at = none;
  escalation_count = 0;
  pause_reason = "";
  progress_percent = pos 0;
  block_report = none;
}

-- The `switch` that records when a status was entered.
unfoldable pub stamp : TaskStatus → ℕ → Task → Task
stamp TaskStatus.assigned now t = record t { assigned_at = some now }
stamp TaskStatus.running now t = record t { started_at = some now }
stamp TaskStatus.completed now t = record t { completed_at = some now }
stamp TaskStatus.failed now t = record t { completed_at = some now }
stamp TaskStatus.cancelled now t = record t { completed_at = some now }
stamp _ now t = t

-- `Transition`: `none` is the error, and then the task is as it was.
unfoldable pub transition : TaskStatus → ℕ → Task → Option Task
unfolding can_transition_to stamp
transition to now t =
    if not (can_transition_to t.status to)
    then none
    else some (stamp to now (record t { status = to }))

-- `_ = t.Transition(to)`: a caller that drops the error.
abbrev pub keep_on_error : Task → Option Task → Task
keep_on_error t none = t
keep_on_error t (some t') = t'

unfoldable pub try_transition : TaskStatus → ℕ → Task → Task
unfolding transition
try_transition to now t = keep_on_error t (transition to now t)

-- `AddAttempt`
unfoldable pub add_attempt : AttemptRecord → Task → Task
add_attempt a t = record t { attempt_history = t.attempt_history ++ a ∷ [] }
