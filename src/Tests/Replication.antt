-- ===== src/Tests/Replication.antt =====
-- Tests and witnesses about the replicated state machine, the log, the leader and the pool.
use reef.Prelude.{
  ℕ, ◌≡◌, refl, inl, inr, Option, none, some, true, false, not, arith, lookup, [], ◌∷◌, ◌++◌, List,
  String, str_eq, if◌then◌else◌, leb, ◌==◌, keep_if, Bool-cases,
}
use reef.Prelude.Int.{pos}
use reef.Task.Status.{TaskStatus}
use reef.Raft.Commands.{RaftCommand}
use reef.Raft.Fsm.{
  ReplicatedTask, FsmSnapshot, Json, Entry, EntryType, ApplyError, new_reef_fsm, no_maps, snapshot,
  restore,
}
use reef.Raft.Fsm.Apply.{apply, apply_all}
use reef.Raft.Fsm.Invariant.{IsValid, apply_all-IsValid}
use reef.Raft.Fsm.Replicas.{equal, snapshot-restore}
use reef.Raft.Log.{
  LogBucket, Node, handle_ready, handle_snapshot, restart, put_in_order, save_entries, load_entries,
}
use reef.Raft.Log.Restart.{in_range}
use reef.Raft.Log.Recovery.{
  restart_applies_uncommitted, restart_forgets_snapshot, restart_recovers, load-save,
}
use reef.Raft.Fsm.Effects.{IsUnassigned}
use reef.Raft.Leader.Scanners.{heartbeat_lost, timed_out, claim_expired, scan}
use reef.Raft.Leader.Settling.{claims_never_expire}
use reef.Tests.Samples.{task_of, client_of}

-- A decoder that knows one text
abbrev only : {A : Type 0} → String → A → String → Option A
only key a text = if str_eq text key then some a else none

abbrev nothing : {A : Type 0} → String → Option A
nothing text = none

abbrev queued_task : ReplicatedTask
queued_task = record { status = "Queued"; task = task_of "t1" TaskStatus.queued }

abbrev command_of : ℕ → String → RaftCommand
command_of n payload = record { type = pos n; payload = payload; timestamp = 7; proposer = "n1" }

-- Three commands: to enqueue the task, to assign it, and to assign an unknown one
abbrev json : Json
json = record {
  command = λ text.
      if str_eq text "enqueue"
      then some (command_of 1 "task")
      else if str_eq text "assign"
      then some (command_of 2 "alice")
      else if str_eq text "lost"
      then some (command_of 2 "nobody")
      else none;
  enqueue = nothing;
  task = only "task" queued_task;
  client = nothing;
  gene = nothing;
  draft = nothing;
  dag = nothing;
  cancelled_task = nothing;
  escalated_task = nothing;
  timed_out_task = nothing;
  expired_claim = nothing;
  task_and_client =
      λ text. if str_eq text "alice" then some ("t1", "alice") else some ("t2", "bob");
  client_id = nothing;
  approved_gene = nothing;
  rejected_gene = nothing;
  approved_draft = nothing;
  rejected_draft = nothing;
  completion = nothing;
  failure = nothing;
}

abbrev entry_at : ℕ → String → Entry
entry_at i content = record { type = EntryType.normal; index = i; content = content }

abbrev first_entries : List Entry
first_entries = entry_at 1 "enqueue" ∷ entry_at 2 "assign" ∷ []

no_maps-IsValid : IsValid no_maps
no_maps-IsValid = ((tt, tt), (tt, tt), (tt, tt), (tt, tt), (tt, tt))

apply_all-IsValid_example : IsValid (apply_all json first_entries new_reef_fsm).maps
unfolding new_reef_fsm
apply_all-IsValid_example = apply_all-IsValid json first_entries new_reef_fsm no_maps-IsValid

lost_refused : (apply json (entry_at 3 "lost") new_reef_fsm).1 ≡ some (ApplyError.not_found "t2")
unfolding apply reef.Raft.Commands.kind_of lookup new_reef_fsm
lost_refused = refl

-- An encoder that knows the maps of one state, and its decoder
abbrev reached : FsmSnapshot
reached = (apply_all json first_entries new_reef_fsm).maps

abbrev encode : FsmSnapshot → String
encode m = "saved"

abbrev decode : String → Option FsmSnapshot
decode text = if str_eq text "saved" then some reached else none

snapshot-restore_example :
    let h =
      restore decode (snapshot encode (apply_all json first_entries new_reef_fsm)).1 new_reef_fsm in
    (h.1 ≡ true)
    × ((apply_all json (entry_at 3 "lost" ∷ []) h.0).maps
        ≡ (apply_all json (first_entries ++ (entry_at 3 "lost" ∷ [])) new_reef_fsm).maps)
    × (equal encode
          (apply_all json (entry_at 3 "lost" ∷ []) h.0)
          (apply_all json (first_entries ++ (entry_at 3 "lost" ∷ [])) new_reef_fsm)
        ≡ true)
snapshot-restore_example =
    snapshot-restore json encode decode first_entries (entry_at 3 "lost" ∷ []) new_reef_fsm
      new_reef_fsm refl refl

-- A bucket that is the list of its entries
abbrev list_bucket : LogBucket (List Entry)
list_bucket = record {
  put = put_in_order;
  remove = λ n. keep_if (λ e. not (e.index == n));
  walk = λ b. b;
  walk_put = λ e b. refl;
  walk_remove = λ n b. refl;
}

abbrev node : Node (List Entry)
node = record {
  log = entry_at 1 "enqueue" ∷ [];
  fsm = (apply json (entry_at 1 "enqueue") new_reef_fsm).0;
}

abbrev assignment : List Entry
assignment = entry_at 2 "assign" ∷ []

load-save_example :
    load_entries list_bucket 2 9 (save_entries list_bucket assignment (entry_at 1 "enqueue" ∷ []))
    ≡ keep_if (in_range 2 9) (entry_at 1 "enqueue" ∷ assignment)
load-save_example =
    load-save list_bucket (entry_at 1 "enqueue" ∷ []) assignment 2 9
      (omega arith, (omega arith, tt))

restart_applies_uncommitted_example :
    let later =
      handle_ready list_bucket json decode
        record { entries = assignment; committed_entries = []; snapshot = none }
        node in
    (later.fsm ≡ node.fsm)
    × ((restart list_bucket json decode new_reef_fsm later).fsm
        ≡ apply_all json (entry_at 1 "enqueue" ∷ assignment) new_reef_fsm)
restart_applies_uncommitted_example =
    restart_applies_uncommitted list_bucket json decode assignment node new_reef_fsm
      (omega arith, (omega arith, tt)) (omega arith, (omega arith, tt))

restart_forgets_snapshot_example :
    let later =
      handle_snapshot list_bucket json decode record { index = 1; content = "saved" } node in
    (later.fsm.maps ≡ reached)
    × ((restart list_bucket json decode new_reef_fsm later).fsm
        ≡ apply_all json
            (keep_if (λ e. not (leb e.index 1)) (entry_at 1 "enqueue" ∷ []))
            new_reef_fsm)
restart_forgets_snapshot_example =
    restart_forgets_snapshot list_bucket json decode record { index = 1; content = "saved" } reached
      node new_reef_fsm refl refl (omega arith, tt) (omega arith, tt)

restart_recovers_example :
    let later =
      handle_ready list_bucket json decode
        record { entries = assignment; committed_entries = assignment; snapshot = none }
        node in
    (restart list_bucket json decode new_reef_fsm later).fsm.maps ≡ later.fsm.maps
unfolding apply_all apply
restart_recovers_example =
    restart_recovers list_bucket json decode assignment node new_reef_fsm refl
      (omega arith, (omega arith, tt)) (omega arith, (omega arith, tt)) refl

-- A client that was silent for more than a minute, and a task that ran for more than ten
abbrev late_maps : FsmSnapshot
late_maps = record no_maps {
  tasks = ("t1", record { status = "Running"; task = task_of "t1" TaskStatus.running }) ∷ [];
  clients = ("bob", client_of "bob" 0) ∷ [];
}

both_late :
    (scan (heartbeat_lost 600_002_000_000) late_maps.clients ≡ "bob" ∷ [])
    × (scan (timed_out 600_002_000_000) late_maps.tasks ≡ "t1" ∷ [])
unfolding scan heartbeat_lost reef.Client.is_connected timed_out
both_late = (refl, refl)

task_queued : (t : ReplicatedTask) → some queued_task ≡ some t → str_eq t.status "Assigned" ≡ false
task_queued t k = let same : queued_task ≡ t = cc in rw (← same) refl

nothing_assigned : (payload : String) → IsUnassigned json payload
nothing_assigned payload = (
  (λ t h. elim (Bool-cases (str_eq payload "task")) [
    | inl e ↦ task_queued t (rw e at h)
    | inr n ↦ absurd (ground (arith, rw n at h))
  ]),
  (λ e t h k. absurd (ground (arith, h))),
)

claims_never_expire_example :
    scan (claim_expired 90_000_000_000) (apply_all json first_entries new_reef_fsm).maps.tasks ≡ []
claims_never_expire_example =
    claims_never_expire json first_entries 90_000_000_000
      ((λ c e. nothing_assigned c.payload), ((λ c e. nothing_assigned c.payload), tt))
