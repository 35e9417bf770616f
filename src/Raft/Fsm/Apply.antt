-- ===== src/Raft/Fsm/Apply.antt =====
-- pkg/reef/raft/types.go, `Apply`: one function for each `case` of the `switch`.
use reef.Prelude.{
  ℕ, ◌+◌, ◌*◌, Bool, true, false, not, ◌&&◌, List, [], ◌∷◌, ◌++◌, Option, none, some, String,
  str_eq, lookup, insert, delete, if◌then◌else◌,
}
use reef.Task.{Task, TaskResult, TaskError, AttemptRecord}
use reef.Client.{ClientState}
use reef.Raft.Commands.{RaftCommand, CommandKind, kind_of}
use reef.Raft.Fsm.{
  ReplicatedTask, Gene, SkillDraft, DagNode, FsmSnapshot, ReefFsm, EnqueuePayload, DagPayload, Json,
  ApplyError, Entry, EntryType,
}

-- The maps after a command, and the error if it was refused.
abbrev pub Outcome : Type 0
Outcome = FsmSnapshot × Option ApplyError

-- `if err := json.Unmarshal(...); err != nil { return err }`
abbrev pub decoded : {A : Type 0} → Option A → FsmSnapshot → (A → Outcome) → Outcome
decoded none m body = (m, some ApplyError.bad_json)
decoded (some a) m body = body a

-- `task, ok := fsm.Tasks[id]; if !ok { return ... }`, and the writes to the task that follow
unfoldable pub change_task : String → (ReplicatedTask → ReplicatedTask) → FsmSnapshot → Outcome
change_task id change m = elim (lookup id m.tasks) [
  | none ↦ (m, some (ApplyError.not_found id))
  | some t ↦ (record m { tasks = insert id (change t) m.tasks }, none)
]

abbrev put_task : ReplicatedTask → FsmSnapshot → FsmSnapshot
put_task t m = record m { tasks = insert t.task.id t m.tasks }

-- The task of the first format, whose data may be missing.
abbrev pub of_data : Json → EnqueuePayload → Option ReplicatedTask → FsmSnapshot → Outcome
of_data json p none m = (m, some ApplyError.bad_json)
of_data json p (some t) m =
    let status = if str_eq t.status "" then "Created" else t.status in
    (put_task record { status = status; task = record t.task { id = p.task_id } } m, none)

-- The task behind an unset variable, `var task reef.Task`.
abbrev pub unset_task : ReplicatedTask
unset_task = record {
  status = "";
  task = record {
    id = "";
    status = reef.Task.Status.TaskStatus.created;
    instruction = "";
    required_role = "";
    required_skills = [];
    max_retries = reef.Prelude.Int.pos 0;
    timeout_ms = reef.Prelude.Int.pos 0;
    model_hint = "";
    priority = reef.Prelude.Int.pos 0;
    parent_task_id = "";
    sub_task_ids = [];
    dependencies = [];
    reply_to = none;
    assigned_client = "";
    result = none;
    error = none;
    attempt_history = [];
    created_at = 0;
    assigned_at = none;
    started_at = none;
    completed_at = none;
    escalation_count = 0;
    pause_reason = "";
    progress_percent = reef.Prelude.Int.pos 0;
    block_report = none;
  };
}

-- `CmdTaskEnqueue`: the first format if it has a task id, else the payload is the task.
unfoldable pub apply_enqueue : Json → String → FsmSnapshot → Outcome
apply_enqueue json payload m =
    let direct = decoded (json.task payload) m (λ t. (put_task t m, none)) in
    elim (json.enqueue payload) [
      | none ↦ direct
      | some p ↦
          if str_eq p.task_id ""
          then direct
          else if str_eq p.task_data ""
          then of_data json p (some unset_task) m
          else of_data json p (json.task p.task_data) m
    ]

-- The writes of each command to its task.
abbrev pub assign_to : String → ℕ → ReplicatedTask → ReplicatedTask
assign_to client ts t = record {
  status = "Running";
  task = record t.task { assigned_client = client; started_at = some ts };
}

abbrev pub start : ℕ → ReplicatedTask → ReplicatedTask
start ts t = record { status = "Running"; task = record t.task { started_at = some ts } }

abbrev pub complete : Option TaskResult → ℕ → ReplicatedTask → ReplicatedTask
complete result ts t = record {
  status = "Completed";
  task = record t.task { result = result; completed_at = some ts };
}

abbrev pub fail : Option TaskError → List AttemptRecord → ReplicatedTask → ReplicatedTask
fail e attempts t = record {
  status = "Failed";
  task = record t.task { error = e; attempt_history = t.task.attempt_history ++ attempts };
}

abbrev pub cancel : ℕ → ReplicatedTask → ReplicatedTask
cancel ts t = record { status = "Cancelled"; task = record t.task { completed_at = some ts } }

abbrev pub escalate : ReplicatedTask → ReplicatedTask
escalate t = record {
  status = "Failed";
  task = record t.task { escalation_count = t.task.escalation_count + 1 };
}

abbrev pub time_out : ReplicatedTask → ReplicatedTask
time_out t = record {
  status = "Failed";
  task = record t.task {
    error = some record { type = "TIMEOUT"; message = "task timed out"; detail = "" };
  };
}

abbrev pub claim : String → ReplicatedTask → ReplicatedTask
claim client t = record { status = "Running"; task = record t.task { assigned_client = client } }

abbrev pub unclaim : ReplicatedTask → ReplicatedTask
unclaim t = record { status = "Queued"; task = record t.task { assigned_client = "" } }

-- `CmdClientStale`: an unknown client is no error.
unfoldable pub apply_stale : String → FsmSnapshot → Outcome
apply_stale id m = elim (lookup id m.clients) [
  | none ↦ (m, none)
  | some c ↦
      (record m { clients = insert id (record c { state = ClientState.stale }) m.clients }, none)
]

unfoldable pub change_gene : String → (Gene → Gene) → FsmSnapshot → Outcome
change_gene id change m = elim (lookup id m.genes) [
  | none ↦ (m, some (ApplyError.not_found id))
  | some g ↦ (record m { genes = insert id (change g) m.genes }, none)
]

unfoldable pub change_draft : String → (SkillDraft → SkillDraft) → FsmSnapshot → Outcome
change_draft id change m = elim (lookup id m.drafts) [
  | none ↦ (m, some (ApplyError.not_found id))
  | some d ↦ (record m { drafts = insert id (change d) m.drafts }, none)
]

-- `CmdClaimPost`: a task that exists stays as it is.
unfoldable pub apply_claim_post : Json → EnqueuePayload → FsmSnapshot → Outcome
apply_claim_post json p m = elim (lookup p.task_id m.tasks) [
  | some t ↦ (m, none)
  | none ↦ decoded (json.task p.task_data) m (λ t.
      (put_task record { status = t.status; task = record t.task { id = p.task_id } } m, none))
]

-- `CmdDagUpdate`: an unknown node is made.
unfoldable pub apply_dag_update : DagPayload → ℕ → FsmSnapshot → Outcome
apply_dag_update p ts m =
    let node : DagNode = elim (lookup p.node_id m.dag_nodes) [
      | some n ↦ n
      | none ↦ record {
        id = p.node_id;
        parent_id = "";
        status = "";
        output = "";
        updated_at = 0;
        created_at = ts;
      }
    ] in
    let node' = record node { status = p.status; output = p.output; updated_at = ts } in
    (record m { dag_nodes = insert p.node_id node' m.dag_nodes }, none)

-- The `switch` for a known command.
unfoldable pub apply_kind : Json → CommandKind → String → ℕ → FsmSnapshot → Outcome
unfolding apply_enqueue change_task apply_stale change_gene change_draft apply_claim_post
    apply_dag_update
apply_kind json CommandKind.task_enqueue p ts m = apply_enqueue json p m
apply_kind json CommandKind.task_assign p ts m =
    decoded (json.task_and_client p) m (λ (id, client). change_task id (assign_to client ts) m)
apply_kind json CommandKind.task_start p ts m =
    decoded (json.task_and_client p) m (λ (id, client). change_task id (start ts) m)
apply_kind json CommandKind.task_complete p ts m =
    decoded (json.completion p) m (λ (id, result). change_task id (complete result ts) m)
apply_kind json CommandKind.task_failed p ts m =
    decoded (json.failure p) m (λ (id, e, attempts). change_task id (fail e attempts) m)
apply_kind json CommandKind.task_cancel p ts m =
    decoded (json.cancelled_task p) m (λ id. change_task id (cancel ts) m)
apply_kind json CommandKind.task_escalate p ts m =
    decoded (json.escalated_task p) m (λ id. change_task id escalate m)
apply_kind json CommandKind.task_timed_out p ts m =
    decoded (json.timed_out_task p) m (λ id. change_task id time_out m)
apply_kind json CommandKind.client_register p ts m =
    decoded (json.client p) m (λ c. (record m { clients = insert c.id c m.clients }, none))
apply_kind json CommandKind.client_unregister p ts m =
    decoded (json.client_id p) m (λ id. (record m { clients = delete id m.clients }, none))
apply_kind json CommandKind.client_stale p ts m =
    decoded (json.client_id p) m (λ id. apply_stale id m)
apply_kind json CommandKind.gene_submit p ts m =
    decoded (json.gene p) m (λ g. (record m { genes = insert g.id g m.genes }, none))
apply_kind json CommandKind.gene_approve p ts m =
    decoded (json.approved_gene p) m
      (λ id. change_gene id (λ g. record g { status = "approved"; approved_at = some ts }) m)
apply_kind json CommandKind.gene_reject p ts m =
    decoded (json.rejected_gene p) m
      (λ id. change_gene id (λ g. record g { status = "rejected" }) m)
apply_kind json CommandKind.skill_draft p ts m =
    decoded (json.draft p) m (λ d. (record m { drafts = insert d.id d m.drafts }, none))
apply_kind json CommandKind.skill_approve p ts m =
    decoded (json.approved_draft p) m
      (λ id. change_draft id (λ d. record d { status = "approved"; reviewed_at = some ts }) m)
apply_kind json CommandKind.skill_reject p ts m =
    decoded (json.rejected_draft p) m
      (λ id. change_draft id (λ d. record d { status = "rejected"; reviewed_at = some ts }) m)
apply_kind json CommandKind.claim_post p ts m =
    decoded (json.enqueue p) m (λ c. apply_claim_post json c m)
apply_kind json CommandKind.claim_assign p ts m =
    decoded (json.task_and_client p) m (λ (id, client). change_task id (claim client) m)
apply_kind json CommandKind.claim_expire p ts m =
    decoded (json.expired_claim p) m (λ id. change_task id unclaim m)
apply_kind json CommandKind.dag_update p ts m =
    decoded (json.dag p) m (λ d. apply_dag_update d ts m)

-- The `switch`; an unknown command is ignored.
unfoldable pub apply_command : Json → RaftCommand → FsmSnapshot → Outcome
unfolding apply_kind
apply_command json c m = elim (kind_of c.type) [
  | none ↦ (m, none)
  | some k ↦ apply_kind json k c.payload (c.timestamp * 1_000_000) m
]

unfoldable pub apply : Json → Entry → ReefFsm → ReefFsm × Option ApplyError
unfolding apply_command
apply json e f = elim e.type [
  | EntryType.other ↦ (f, none)
  | EntryType.normal ↦ elim (json.command e.content) [
    | none ↦ (f, some ApplyError.bad_json)
    | some c ↦
        let (m, r) = apply_command json c f.maps in
        (record f { maps = m; applied_index = e.index }, r)
  ]
]

-- The entries that are committed, in order; the node goes on after one that is refused.
unfoldable pub apply_all : Json → List Entry → ReefFsm → ReefFsm
unfolding apply
apply_all json [] f = f
apply_all json (e ∷ es) f = apply_all json es (apply json e f).0
