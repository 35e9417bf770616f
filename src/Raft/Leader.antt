-- ===== src/Raft/Leader.antt =====
-- pkg/reef/raft/leadered.go (`LeaderedServer`) and the leadership part of node.go (`RaftNode`): who is
-- the leader, what a proposal does, and the callbacks of proposals. The scanners of the leader are started
-- and stopped together; how many sets of them run is a number.
pub mod Proposals
pub mod Scanners
pub mod Settling
use reef.Prelude.{
  ℕ, ◌+◌, ◌-◌, Bool, true, false, not, ◌&&◌, List, [], ◌∷◌, Option, none, some, String, ltb, ◌==◌,
  if◌then◌else◌, keep_if,
}

-- `LeaderedServer` with its `RaftNode`; the callbacks are known by their keys.
pub record LeaderedServer : Type 0 where
  pub node_id : ℕ
  pub leader_id : ℕ
  pub is_leader : Bool
  pub scanners : ℕ
  pub pending_callbacks : List ℕ

-- `onBecomeLeader`
unfoldable pub on_become_leader : LeaderedServer → LeaderedServer
on_become_leader s =
    if s.is_leader then s else record s { is_leader = true; scanners = s.scanners + 1 }

-- `onLoseLeadership`: the channel of the scanners is closed.
unfoldable pub on_lose_leadership : LeaderedServer → LeaderedServer
on_lose_leadership s =
    if s.is_leader then record s { is_leader = false; scanners = s.scanners - 1 } else s

-- `RaftNode.IsLeader`
unfoldable pub node_is_leader : LeaderedServer → Bool
node_is_leader s = s.leader_id == s.node_id

-- `NewLeaderedServer` for a node that knows the leader `leader_id`
unfoldable pub new_leadered_server : ℕ → ℕ → LeaderedServer
unfolding on_become_leader node_is_leader
new_leadered_server node_id leader_id =
    let s : LeaderedServer = record {
      node_id = node_id;
      leader_id = leader_id;
      is_leader = false;
      scanners = 0;
      pending_callbacks = [];
    } in
    if node_is_leader s then on_become_leader s else s

-- `trackLeadership`: the leader that the raft library reports, if its soft state changed
unfoldable pub track_leadership : Option ℕ → LeaderedServer → LeaderedServer
unfolding on_become_leader on_lose_leadership
track_leadership none s = s
track_leadership (some new_leader) s =
    let old_leader = s.leader_id in
    let s1 : LeaderedServer = record s { leader_id = new_leader } in
    let s2 =
      if not (old_leader == s.node_id) && (new_leader == s.node_id)
      then on_become_leader s1
      else s1 in
    let s3 =
      if (old_leader == s.node_id) && not (new_leader == s.node_id)
      then on_lose_leadership s2
      else s2 in
    if old_leader == new_leader then s else s3

unfoldable pub track_all : List (Option ℕ) → LeaderedServer → LeaderedServer
unfolding track_leadership
track_all [] s = s
track_all (l ∷ ls) s = track_all ls (track_leadership l s)

-- Where a proposal goes.
pub data Proposed : Type 0 where
  not_leader : Proposed
  to_own_node : String → Proposed
  forwarded : ℕ → String → Proposed

-- `RaftNode.Propose`
unfoldable pub node_propose : String → LeaderedServer → Proposed
unfolding node_is_leader
node_propose content s =
    if node_is_leader s
    then Proposed.to_own_node content
    else if s.leader_id == 0
    then Proposed.not_leader
    else Proposed.forwarded s.leader_id content

-- `LeaderedServer.Propose`, with the command encoded
unfoldable pub propose : String → LeaderedServer → Proposed
unfolding node_propose
propose content s = if s.is_leader then node_propose content s else Proposed.not_leader

-- `pendingCallbacks.Store`
abbrev pub remember : ℕ → List ℕ → List ℕ
remember key keys = key ∷ keep_if (λ k. not (k == key)) keys

-- `ProposeWithCallback` at `now` (`UnixNano`); `accepted` is what the raft library answers.
unfoldable pub propose_with_callback : ℕ → Bool → LeaderedServer → LeaderedServer
propose_with_callback now accepted s =
    let stored = remember now s.pending_callbacks in
    if not s.is_leader
    then s
    else if accepted
    then record s { pending_callbacks = stored }
    else record s { pending_callbacks = keep_if (λ k. not (k == now)) stored }

-- `OnCommit`: the number of callbacks that run
unfoldable pub on_commit : ℕ → LeaderedServer → LeaderedServer × ℕ
on_commit index s =
    let rest = keep_if (λ k. not (k == index)) s.pending_callbacks in
    let found = reef.Prelude.length (keep_if (λ k. k == index) s.pending_callbacks) in
    (record s { pending_callbacks = rest }, found)

-- The cleanup of `runSnapshotTicker` at `now` (`UnixMilli`)
unfoldable pub clean_callbacks : ℕ → LeaderedServer → LeaderedServer
clean_callbacks now s = record s {
  pending_callbacks = keep_if (λ k. not (ltb 30_000 (now - k))) s.pending_callbacks;
}

-- What happens to the callbacks, in order
pub data CallbackEvent : Type 0 where
  proposes : ℕ → Bool → CallbackEvent
  commits : ℕ → CallbackEvent
  cleans : ℕ → CallbackEvent

-- The server after the events, and how many callbacks have run
unfoldable pub run_events : List CallbackEvent → LeaderedServer → LeaderedServer × ℕ
run_events [] s = (s, 0)
run_events (CallbackEvent.proposes now accepted ∷ es) s =
    run_events es (propose_with_callback now accepted s)
run_events (CallbackEvent.commits index ∷ es) s =
    let (s1, ran) = on_commit index s in let (s2, later) = run_events es s1 in (s2, ran + later)
run_events (CallbackEvent.cleans now ∷ es) s = run_events es (clean_callbacks now s)
