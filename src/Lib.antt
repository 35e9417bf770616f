-- ===== src/Lib.antt =====
-- A model of reef, a server that distributes tasks to agent clients, replicates its state with raft and
-- shares what the clients learn, and the theorems about it. Times are natural numbers of nanoseconds.
--
-- The parts, and the code (from the repository's root) that each models:
--   Task, Task/Status       pkg/reef/task.go: the task record, the twelve statuses, the table of
--                           transitions; `transition` is Transition, `add_attempt` AddAttempt.
--   Client                  pkg/reef/client_info.go: ClientInfo, IsAvailable, Matches.
--   Queue                   pkg/reef/server/queue.go: the bounded FIFO queue. Queue/Interface is the
--                           Queue interface of queue_iface.go as the scheduler uses it: a record of
--                           operations, and the laws that the scheduler's proofs rely on; Queue/Instances
--                           shows that the FIFO queue keeps them.
--   Store                   pkg/reef/server/store/memory.go and filter.go: the task store in memory.
--   Queue/Persistent        pkg/reef/server/queue_persistent.go: the queue that saves its tasks in a
--                           store and restores them after a restart.
--   Registry                pkg/reef/server/registry.go: the clients, their loads and heartbeats.
--   Strategy                pkg/reef/server/strategy.go: least load, round robin, affinity.
--   Scheduler               pkg/reef/server/scheduler.go. Scheduler/Matching is matchClient with the
--                           excluded client, Scheduler/Dispatch Submit, TryDispatch and dispatch,
--                           Scheduler/Reports the reports of completion and failure with escalate,
--                           Scheduler/Control timeouts, pauses, resumption, cancellation and progress,
--                           Scheduler/Callers two calls of TryDispatch side by side. Scheduler/Proofs
--                           has the theorems.
--   Timeouts                pkg/reef/server/timeout_scanner.go: one scan.
--   Dag                     pkg/reef/server/dag_engine.go: CreateSubTasks with its loops, allSubTasksDone and
--                           checkUnblock; Dag/Handlers the two handlers for a sub-task's end and the
--                           aggregation message.
--   Queue/Priority          pkg/reef/server/priority_queue.go: the queue ordered by priority, over the heap of
--                           container/heap, with its index by id, removal, expiry and boosting;
--                           Queue/Priority/Persistent is queue_persistent_prio.go. The queue keeps the laws of
--                           Queue/Interface too (Queue/Priority/Laws).
--   Raft/Commands           pkg/reef/raft/types.go and commands.go: the commands and their routing.
--   Raft/Fsm                pkg/reef/raft/types.go: ReefFSM, the five replicated maps; Raft/Fsm/Apply is Apply.
--   Raft/Log                pkg/reef/raft/types.go and node.go: the log in its bucket, one turn of the ready
--                           loop, the restart.
--   Raft/Leader             pkg/reef/raft/leadered.go: the leadership gate, proposals and the scanners.
--   Raft/Pool               pkg/reef/raft/pool.go: the servers that a client knows, and its waits.
--   Runner                  pkg/reef/client/task_runner.go and pkg/reef/error_classifier.go: the attempts of a
--                           task on a client, with the waits and reports.
--   Evolution               pkg/reef/evolution/gene.go: what a client submits. Evolution/Hub, Gatekeeper and
--                           Broadcaster are hub.go, gate.go and broadcaster.go of
--                           pkg/reef/evolution/server; Evolution/Store is the interface GeneStore,
--                           Evolution/Similarity the measures of gate.go.
--                           Evolution/Merger is skill_merger.go, and Evolution/Merger/Draft skill_draft.go.
--   Evolution/Client        pkg/reef/evolution/client: gate.go, with Submitter, Evolver and Recorder for the files
--                           of these names.
--   Tests                   concrete inputs, and each theorem at one of them.
--
-- How they interact: a client registers (Registry.register) and the server reacts with TryDispatch.
-- Submit indexes a task, enqueues it and dispatches; dispatching peeks at the queue, asks the strategy
-- for one of the eligible clients of the registry, raises that client's load and sends the task through
-- the hook `onDispatch`, here a function from the task and the client to success. Reports lower the load
-- again and may enqueue the task for another attempt. The scanner reports timeouts to the scheduler.
-- On a client the runner makes the attempts that the reports are about. Committed entries of the raft log
-- change the replicated maps, which the leader's scanners read to propose further entries. A submitted
-- gene goes through the hub, which asks the gatekeeper, writes to the gene store and hands an approved
-- gene to the broadcaster and its role to the merger. On a client the recorder's triggers start the cycles
-- of the evolver, which gives the submitter what the local gatekeeper lets through.
--
-- Conventions. A task is shared through pointers: a pointer is a number, and `store` maps it to its
-- task; the index of the scheduler maps an id to a pointer. A handler is one
-- function of the state: what a call does while no other call is at work. The handlers of reports hold
-- the scheduler's lock; TryDispatch and most of Submit do not, so two calls of TryDispatch can interleave,
-- which Scheduler/Callers models turn by turn. A handler returns the state and a `Reply`: `ok`, `err`, or
-- `deadlock` where it waits for the lock it holds (Scheduler/Matching, `locking`).
-- Callbacks are recorded as `events`, newest first. Go maps are association lists with at most one
-- entry per key; Go ranges over a map in no fixed order, here in the order of the entries. Priorities,
-- timeouts, retries and progress are integers; a duration computed from milliseconds wraps around at
-- 64 bits. Loads and capacities are naturals: the registry never lowers a load below zero;
-- a negative capacity, which the handshake would accept, is left out.
--
-- Fuel. The loop of TryDispatch runs on one unit of fuel more than the queue is long. Each round takes
-- one task off the queue and puts none back while the loop goes on, so the fuel is enough; the theorem
-- on TryDispatch includes that it returns. The function up of container/heap runs on one unit of fuel more
-- than the index it starts from, which falls in every round, and down on the length of the heap, below
-- which the index rises in every round. The retry loop counts the attempts that are left. All other loops are recursion on a list or a number.
--
-- Parameters. What `onDispatch` answers, and how the library prints a duration, are arguments. So are JSON (a
-- decoder for each type), the bucket of the bbolt library with the laws of a sorted map, the raft library
-- (what a turn of its loop brings), strings.ToLower, floats, regular expressions, the language model,
-- and what sends, writes to files and executions answer.
--
-- Not modelled: the observer of the evolution client, the prompts, the wire formats, SQLite, HTTP and
-- WebSocket transport, notifications and logging, which are texts or input and output; of a task its
-- quality score, of a result its metadata, of a gene its success rate.
mod Prelude
pub mod Task
pub mod Client
pub mod Queue
pub mod Store
pub mod Registry
pub mod Strategy
pub mod Scheduler
pub mod Timeouts
pub mod Dag
pub mod Raft
pub mod Runner
pub mod Evolution
mod Tests
