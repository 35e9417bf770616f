-- ===== src/Raft/Log.antt =====
-- pkg/reef/raft/types.go (`BoltStore`) and node.go: the log on disk, the loop that handles what the raft
-- library is ready with, and the restart. The database is go.etcd.io/bbolt: a bucket keeps its keys in order. The
-- keys of the log are indices of twenty digits, so their order is that of the indices; the bucket is an
-- argument, and a value in it is the entry that was encoded.
pub mod Restart
pub mod Recovery
use reef.Prelude.{
  ℕ, ◌+◌, ◌-◌, ◌%◌, ◌^◌, ◌≡◌, Bool, true, false, not, List, [], ◌∷◌, Option, none, some, String,
  str_eq, ltb, leb, ◌==◌, if◌then◌else◌, keep_if,
}
use reef.Raft.Fsm.{FsmSnapshot, ReefFsm, Json, Entry, EntryType, last_applied, restore}
use reef.Raft.Fsm.Apply.{apply, apply_all}

-- An entry among others by index; one with its index is replaced.
unfoldable pub put_in_order : Entry → List Entry → List Entry
put_in_order e [] = e ∷ []
put_in_order e (x ∷ xs) =
    if ltb e.index x.index
    then e ∷ x ∷ xs
    else if e.index == x.index
    then e ∷ xs
    else x ∷ put_in_order e xs

-- What bbolt documents of a bucket: a `Put` replaces the value of the key, a cursor walks the keys in order.
pub record LogBucket (B : Type 0) : Type 0 where
  pub put : Entry → B → B
  pub remove : ℕ → B → B
  pub walk : B → List Entry
  pub walk_put : (e : Entry) (b : B) → walk (put e b) ≡ put_in_order e (walk b)
  pub walk_remove : (n : ℕ) (b : B) → walk (remove n b) ≡ keep_if (λ e. not (e.index == n)) (walk b)

-- The loop of `LoadEntries`: the cursor starts at `lo` and stops behind `hi`.
unfoldable pub seek : ℕ → List Entry → List Entry
seek lo [] = []
seek lo (e ∷ es) = if ltb e.index lo then seek lo es else e ∷ es

unfoldable pub up_to : ℕ → List Entry → List Entry
up_to hi [] = []
up_to hi (e ∷ es) = let rest = up_to hi es in if ltb hi e.index then [] else e ∷ rest

module _ {B : Type 0} (bucket : LogBucket B) where
  -- `SaveEntries`
  unfoldable pub save_entries : List Entry → B → B
  save_entries [] b = b
  save_entries (e ∷ es) b = save_entries es (bucket.put e b)

  -- `LoadEntries`
  unfoldable pub load_entries : ℕ → ℕ → B → List Entry
  load_entries lo hi b = up_to hi (seek lo (bucket.walk b))

  -- The loop over the cursor that deletes the keys that pass a test
  unfoldable pub delete_where : (ℕ → Bool) → List Entry → B → B
  delete_where test [] b = b
  delete_where test (e ∷ es) b =
      delete_where test es (if test e.index then bucket.remove e.index b else b)

  -- `CompactLog`
  unfoldable pub compact_log : ℕ → B → B
  compact_log hi b = delete_where (λ i. leb i hi) (bucket.walk b) b

  -- `TruncateEntries`
  unfoldable pub truncate_entries : ℕ → B → B
  truncate_entries hi b = delete_where (λ i. ltb hi i) (bucket.walk b) b

  -- `replayEntries`: `appliedIndex+1` wraps around at the last index.
  unfoldable pub replay_entries : Json → ℕ → B → ReefFsm → ReefFsm
  replay_entries json applied b f =
      apply_all json (load_entries ((applied + 1) % 2 ^ 64) (2 ^ 64 - 1) b) f

-- `readyLoop`, step 4: an entry without content is a marker of the commit.
unfoldable pub apply_committed : Json → List Entry → ReefFsm → ReefFsm
apply_committed json [] f = f
apply_committed json (e ∷ es) f =
    apply_committed json es (if str_eq e.content "" then f else (apply json e f).0)

-- A raft snapshot and what one turn of `readyLoop` is given
pub record NodeSnapshot : Type 0 where
  pub index : ℕ
  pub content : String

pub record Ready : Type 0 where
  pub entries : List Entry
  pub committed_entries : List Entry
  pub snapshot : Option NodeSnapshot

-- The parts of a node that a restart is about: the log on disk and the state machine in memory
pub record Node (B : Type 0) : Type 0 where
  pub log : B
  pub fsm : ReefFsm

module _ {B : Type 0} (bucket : LogBucket B) (json : Json)
    (decode : String → Option FsmSnapshot) where
  -- `handleSnapshot`: after an error the log stays as it is.
  unfoldable pub handle_snapshot : NodeSnapshot → Node B → Node B
  handle_snapshot s n =
      let (f, ok) = restore decode s.content n.fsm in
      record { log = (if ok then compact_log bucket s.index n.log else n.log); fsm = f }

  -- `readyLoop`: steps 2, 4 and 5 of one turn
  unfoldable pub handle_ready : Ready → Node B → Node B
  handle_ready rd n =
      let n1 : Node B = record {
        log = save_entries bucket rd.entries n.log;
        fsm = apply_committed json rd.committed_entries n.fsm;
      } in
      elim rd.snapshot [ none ↦ n1 | some s ↦ handle_snapshot s n1 ]

  unfoldable pub run : List Ready → Node B → Node B
  run [] n = n
  run (rd ∷ rest) n = run rest (handle_ready rd n)

  -- `NewRestartNode`: a new process has the log on disk and the state machine that it is given.
  unfoldable pub restart : ReefFsm → Node B → Node B
  restart fresh n = record { log = n.log; fsm = replay_entries bucket json 0 n.log fresh }
