-- ===== src/Tests/Samples.antt =====
-- Tasks, clients and scheduler states to evaluate the model on.
use reef.Prelude.{ℕ, List, [], ◌∷◌, none, some, false, true, Option, String}
use reef.Prelude.Int.{pos}
use reef.Raft.Fsm.{Gene}
use reef.Task.Status.{TaskStatus}
use reef.Task.{Task, TaskResult, TaskError}
use reef.Client.{ClientState, ClientInfo}
use reef.Registry.{Registry}
use reef.Strategy.{MatchStrategy}
use reef.Queue.{TaskQueue}
use reef.Scheduler.{Scheduler}

abbrev pub task_of : String → TaskStatus → Task
task_of id status = record {
  id = id;
  status = status;
  instruction = "write the tests";
  required_role = "coder";
  required_skills = "go" ∷ [];
  max_retries = pos 3;
  timeout_ms = pos 600_000;
  model_hint = "";
  priority = pos 5;
  parent_task_id = "";
  sub_task_ids = [];
  dependencies = [];
  reply_to = none;
  assigned_client = "alice";
  result = none;
  error = none;
  attempt_history = [];
  created_at = 100;
  assigned_at = some 110;
  started_at = some 110;
  completed_at = none;
  escalation_count = 0;
  pause_reason = "";
  progress_percent = pos 0;
  block_report = none;
}

abbrev pub client_of : String → ℕ → ClientInfo
client_of id load = record {
  id = id;
  role = "coder";
  skills = "sql" ∷ "go" ∷ [];
  providers = [];
  capacity = 2;
  current_load = load;
  last_heartbeat = 100;
  state = ClientState.connected;
}

abbrev pub two_clients : Registry
two_clients = record {
  clients = ("alice", client_of "alice" 1) ∷ ("bob", client_of "bob" 0) ∷ [];
  on_stale = true;
  stale_calls = [];
}

abbrev pub one_client : Registry
one_client = record {
  clients = ("alice", client_of "alice" 1) ∷ [];
  on_stale = false;
  stale_calls = [];
}

abbrev pub queue_of : List ℕ → TaskQueue ℕ
queue_of tasks = record { tasks = tasks; max_len = 3; max_age = 1000 }

abbrev pub state_of :
    Registry → List ℕ → TaskStatus → Option MatchStrategy → Scheduler (TaskQueue ℕ)
state_of registry tasks status strategy = record {
  registry = registry;
  queue = queue_of tasks;
  store = λ r. task_of "t0" status;
  tasks = ("t0", 0) ∷ [];
  max_escalations = 2;
  match_strategy = strategy;
  on_task_state_changed = true;
  has_result_callback = true;
  events = [];
}

abbrev pub done : TaskResult
done = record { text = "done"; files = [] }

abbrev pub broken : TaskError
broken = record { type = "exit"; message = "exit status 1"; detail = "" }

abbrev pub gene_of : String → String → Gene
gene_of id status = record {
  id = id;
  strategy_name = "innovate";
  role = "coder";
  skills = [];
  match_condition = "";
  control_signal = "run the tests first";
  failure_warnings = [];
  source_events = [];
  source_client_id = "";
  version = pos 1;
  status = status;
  stagnation_count = pos 0;
  use_count = pos 0;
  created_at = 1;
  updated_at = 1;
  approved_at = none;
}
