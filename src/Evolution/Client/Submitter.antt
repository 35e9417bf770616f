-- ===== src/Evolution/Client/Submitter.antt =====
-- pkg/reef/evolution/client/submitter.go: how a client submits genes, and the queue for the time that it is not
-- connected. Whether a write to the connection succeeds is an input, write by write; a gene is
-- always encoded. The connection does not change while the queue is drained, and no gene is submitted
-- meanwhile. The time is given by the number of writes. `none` is the panic of an index out of range.
pub mod Draining
use reef.Prelude.{
  ℕ, zero, suc, ◌+◌, Bool, true, false, List, [], ◌∷◌, ◌++◌, Option, none, some, String, str_eq,
  leb, ltb, if◌then◌else◌, length,
}
use reef.Prelude.Int.{ℤ, or_default}
use reef.Raft.Fsm.{Gene}

pub record GeneSubmitter : Type 0 where
  pub connected : Bool
  pub offline_queue : List Gene
  pub max_queue_size : ℕ
  pub max_retries : ℕ

-- `NewGeneSubmitter` with the defaults
unfoldable pub new_gene_submitter : ℤ → ℤ → GeneSubmitter
new_gene_submitter max_queue_size max_retries = record {
  connected = false;
  offline_queue = [];
  max_queue_size = or_default 10 max_queue_size;
  max_retries = or_default 3 max_retries;
}

abbrev without_first : List Gene → List Gene
without_first [] = []
without_first (g ∷ gs) = gs

-- The queue with one more gene; at the limit the oldest one is dropped.
unfoldable pub pushed : ℕ → Gene → List Gene → List Gene
pushed limit g gs = (if leb limit (length gs) then without_first gs else gs) ++ g ∷ []

unfoldable pub enqueue : Gene → GeneSubmitter → GeneSubmitter
unfolding pushed
enqueue g s = record s { offline_queue = pushed s.max_queue_size g s.offline_queue }

abbrev pub submitted_at : ℕ → Gene → Gene
submitted_at now g = record g { status = "submitted"; updated_at = now }

-- `Submit`: the submitter and the gene as it is afterwards. `written` is whether the write succeeds.
unfoldable pub submit : ℕ → Bool → Gene → GeneSubmitter → GeneSubmitter × Gene
unfolding enqueue
submit now written g s =
    if str_eq g.status "stagnant"
    then (s, g)
    else if s.connected
    then (if written then (s, submitted_at now g) else (enqueue g s, g))
    else (enqueue g s, g)

-- What `submitWithRetry` comes to: success or not, with the number of writes so far
pub record Tried : Type 0 where
  pub accepted : Bool
  pub writes : ℕ

module _ (written : ℕ → Bool) where
  -- The loop of `submitWithRetry`: `rounds` attempts are left. The three waits are indexed by the attempt.
  unfoldable pub try_from : ℕ → ℕ → ℕ → Option Tried
  try_from zero attempt n = some (record { accepted = false; writes = n })
  try_from (suc rounds) attempt n =
      let next = try_from rounds (attempt + 1) (n + 1) in
      if written n
      then some (record { accepted = true; writes = n + 1 })
      else if ltb 0 rounds
      then (if ltb attempt 3 then next else none)
      else some (record { accepted = false; writes = n + 1 })

  unfoldable pub submit_with_retry : GeneSubmitter → ℕ → Option Tried
  unfolding try_from
  submit_with_retry s n =
      if s.connected
      then try_from (s.max_retries + 1) 0 n
      else some (record { accepted = false; writes = n })

  module _ (clock : ℕ → ℕ) where
    -- The loop of `drainQueue`: the submitter and the genes that got through, as they are then, in order
    unfoldable pub drain_from : List Gene → ℕ → GeneSubmitter → Option (GeneSubmitter × List Gene)
    unfolding submit_with_retry enqueue
    drain_from [] n s = some (s, [])
    drain_from (g ∷ gs) n s = elim (submit_with_retry s n) [
      | none ↦ none
      | some tried ↦ elim (drain_from gs tried.writes (if tried.accepted then s else enqueue g s)) [
        | none ↦ none
        | some (s', sent) ↦
            some (s', if tried.accepted then submitted_at (clock tried.writes) g ∷ sent else sent)
      ]
    ]

    unfoldable pub drain_queue : GeneSubmitter → Option (GeneSubmitter × List Gene)
    unfolding drain_from
    drain_queue s = drain_from s.offline_queue 0 (record s { offline_queue = [] })

    -- `OnReconnect`, to the end of its goroutine
    unfoldable pub on_reconnect : GeneSubmitter → Option (GeneSubmitter × List Gene)
    unfolding drain_queue
    on_reconnect s = drain_queue (record s { connected = true })

-- The loop of `RestoreQueue`, over the entries of the file; `none` is an entry that cannot be read.
unfoldable pub restore_queue : List (Option Gene) → GeneSubmitter → GeneSubmitter
unfolding enqueue
restore_queue [] s = s
restore_queue (none ∷ es) s = restore_queue es s
restore_queue (some g ∷ es) s = restore_queue es (enqueue g s)
