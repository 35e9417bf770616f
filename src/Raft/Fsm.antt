-- ===== src/Raft/Fsm.antt =====
-- pkg/reef/raft/types.go: the replicated state (`Fsmsnapshot`, `ReefFSM`) and what a committed command does
-- to it (`Apply`). A status that comes over the wire may be any text, so it stands beside the task, whose
-- own field `status` is not used. Times are nanoseconds; a command carries milliseconds. Left out: the
-- success rate of a gene (a float), and the database behind the machine.
pub mod Apply
pub mod Invariant
pub mod Replicas
pub mod Effects
use reef.Prelude.{
  ℕ, ◌+◌, ◌-◌, ◌*◌, ◌%◌, ◌^◌, Bool, true, false, not, ◌&&◌, List, [], ◌∷◌, ◌++◌, Option, none, some,
  String, str_eq, lookup, insert, delete, ltb, ◌==◌, if◌then◌else◌,
}
use reef.Prelude.Int.{ℤ}
use reef.Task.{Task, TaskResult, TaskError, AttemptRecord}
use reef.Client.{ClientInfo}
use reef.Raft.Commands.{RaftCommand}

pub record ReplicatedTask : Type 0 where
  pub status : String
  pub task : Task

-- pkg/reef/evolution/gene.go
pub record Gene : Type 0 where
  pub id : String
  pub strategy_name : String
  pub role : String
  pub skills : List String
  pub match_condition : String
  pub control_signal : String
  pub failure_warnings : List String
  pub source_events : List String
  pub source_client_id : String
  pub version : ℤ
  pub status : String
  pub stagnation_count : ℤ
  pub use_count : ℤ
  pub created_at : ℕ
  pub updated_at : ℕ
  pub approved_at : Option ℕ

-- pkg/reef/evolution/skill_draft.go
pub record SkillDraft : Type 0 where
  pub id : String
  pub role : String
  pub skill_name : String
  pub content : String
  pub source_gene_ids : List String
  pub status : String
  pub review_comment : String
  pub created_at : ℕ
  pub reviewed_at : Option ℕ
  pub published_at : Option ℕ

-- pkg/reef/dag.go
pub record DagNode : Type 0 where
  pub id : String
  pub parent_id : String
  pub status : String
  pub output : String
  pub updated_at : ℕ
  pub created_at : ℕ

-- `Fsmsnapshot`: the five maps
pub record FsmSnapshot : Type 0 where
  pub tasks : List (String × ReplicatedTask)
  pub clients : List (String × ClientInfo)
  pub genes : List (String × Gene)
  pub drafts : List (String × SkillDraft)
  pub dag_nodes : List (String × DagNode)

-- `ReefFSM`; the maps are one field.
pub record ReefFsm : Type 0 where
  pub maps : FsmSnapshot
  pub applied_index : ℕ
  pub snapshot_index : ℕ
  pub compact_thresh : ℕ

abbrev pub no_maps : FsmSnapshot
no_maps = record { tasks = []; clients = []; genes = []; drafts = []; dag_nodes = [] }

unfoldable pub new_reef_fsm : ReefFsm
new_reef_fsm = record {
  maps = no_maps;
  applied_index = 0;
  snapshot_index = 0;
  compact_thresh = 10_000;
}

-- A payload of `CmdTaskEnqueue` in its first format.
pub record EnqueuePayload : Type 0 where
  pub task_id : String
  pub task_data : String

pub record DagPayload : Type 0 where
  pub node_id : String
  pub status : String
  pub output : String

-- `json.Unmarshal` into each type that `Apply` reads. A pair is two named texts of an object, an id and the
-- field beside it.
pub record Json : Type 0 where
  pub command : String → Option RaftCommand
  pub enqueue : String → Option EnqueuePayload
  pub task : String → Option ReplicatedTask
  pub client : String → Option ClientInfo
  pub gene : String → Option Gene
  pub draft : String → Option SkillDraft
  pub dag : String → Option DagPayload
  pub cancelled_task : String → Option String
  pub escalated_task : String → Option String
  pub timed_out_task : String → Option String
  pub expired_claim : String → Option String
  pub task_and_client : String → Option (String × String)
  pub client_id : String → Option String
  pub approved_gene : String → Option String
  pub rejected_gene : String → Option String
  pub approved_draft : String → Option String
  pub rejected_draft : String → Option String
  pub completion : String → Option (String × Option TaskResult)
  pub failure : String → Option (String × Option TaskError × List AttemptRecord)

-- Why an entry was refused.
pub data ApplyError : Type 0 where
  bad_json : ApplyError
  not_found : String → ApplyError

pub data EntryType : Type 0 where
  normal other : EntryType

-- `raftpb.Entry`
pub record Entry : Type 0 where
  pub type : EntryType
  pub index : ℕ
  pub content : String

-- `LastApplied`
unfoldable pub last_applied : ReefFsm → ℕ
last_applied f = f.applied_index

-- `ShouldCompact`; the difference of the two `uint64` wraps around.
unfoldable pub should_compact : ReefFsm → Bool
should_compact f =
    if f.compact_thresh == 0
    then false
    else ltb f.compact_thresh ((f.applied_index + (2 ^ 64 - f.snapshot_index)) % 2 ^ 64)

unfoldable pub set_compact_threshold : ℕ → ReefFsm → ReefFsm
set_compact_threshold n f = record f { compact_thresh = n }

-- `Snapshot`, with `json.Marshal` of the maps as an argument
unfoldable pub snapshot : (FsmSnapshot → String) → ReefFsm → ReefFsm × String
snapshot encode f = (record f { snapshot_index = f.applied_index }, encode f.maps)

-- `Restore`: false is an error. The indices are left alone.
unfoldable pub restore : (String → Option FsmSnapshot) → String → ReefFsm → ReefFsm × Bool
restore decode text f =
    if str_eq text ""
    then (record f { maps = no_maps }, true)
    else elim (decode text) [ none ↦ (f, false) | some maps ↦ (record f { maps = maps }, true) ]
