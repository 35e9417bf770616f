-- ===== src/Raft/Leader/Scanners.antt =====
-- pkg/reef/raft/leadered.go, the scanners: which commands they propose at the time `now`. A map is walked in
-- the order of its list, where Go's order is free.
use reef.Prelude.{
  ℕ, ◌-◌, ◌/◌, Bool, false, not, ◌&&◌, List, [], ◌∷◌, map, Option, none, some, String, str_eq, ltb,
  keep_if,
}
use reef.Prelude.Int.{ℤ, pos, ltb_ℤ}
use reef.Client.{ClientInfo, is_connected}
use reef.Raft.Fsm.{ReplicatedTask, FsmSnapshot}
use reef.Raft.Fsm.Apply.{change_task, time_out, apply_stale}

-- `runHeartbeatScanner`: no sign of life for a minute
unfoldable pub heartbeat_lost : ℕ → ClientInfo → Bool
heartbeat_lost now c = is_connected c.state && ltb 60_000_000_000 (now - c.last_heartbeat)

-- The time since `since` in whole milliseconds is above the limit.
abbrev over : ℕ → ℤ → Option ℕ → Bool
over now limit none = false
over now limit (some since) = ltb_ℤ limit (pos ((now - since) / 1_000_000))

-- `runTimeoutScanner`
unfoldable pub timed_out : ℕ → ReplicatedTask → Bool
timed_out now t =
    str_eq t.status "Running"
    && ltb_ℤ (pos 0) t.task.timeout_ms
    && over now t.task.timeout_ms t.task.started_at

-- `runClaimExpiryScanner`
unfoldable pub claim_expired : ℕ → ReplicatedTask → Bool
claim_expired now t =
    str_eq t.status "Assigned"
    && not (str_eq t.task.assigned_client "")
    && elim t.task.assigned_at [ none ↦ false | some since ↦ ltb 30_000_000_000 (now - since) ]

-- The ids that a scanner collects
unfoldable pub scan {ℓ} : {V : Type ℓ} → (V → Bool) → List (String × V) → List String
scan test entries = map (λ e. e.0) (keep_if (λ e. test e.1) entries)

-- A round of a scanner whose proposals are all committed
unfoldable pub commit_stale : List String → FsmSnapshot → FsmSnapshot
commit_stale [] m = m
commit_stale (id ∷ ids) m = commit_stale ids (apply_stale id m).0

unfoldable pub commit_time_outs : List String → FsmSnapshot → FsmSnapshot
commit_time_outs [] m = m
commit_time_outs (id ∷ ids) m = commit_time_outs ids (change_task id time_out m).0
