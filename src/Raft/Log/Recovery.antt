-- ===== src/Raft/Log/Recovery.antt =====
-- pkg/reef/raft/node.go, `readyLoop`, `handleSnapshot` and `NewRestartNode`: the state machine before and
-- after a restart.
use reef.Prelude.{
  ℕ, ◌-◌, ◌^◌, ◌≤◌, ◌<◌, ◌≡◌, ◌∙◌, refl, sym, ap, inl, inr, Bool, true, false, not, List, [], ◌∷◌,
  ◌++◌, Option, none, some, String, str_eq, eq_iff, ltb, leb, keep_if, Bool-cases, arith, All,
  All-keep_if,
}
use reef.Raft.Fsm.{FsmSnapshot, ReefFsm, Json, Entry}
use reef.Raft.Fsm.Apply.{apply, apply_all}
use reef.Raft.Fsm.Invariant.{EntryType-cases}
use reef.Raft.Fsm.Replicas.{apply_all-maps, apply_all-append, restore-decode}
use reef.Raft.Log.{
  LogBucket, NodeSnapshot, Node, save_entries, load_entries, compact_log, truncate_entries,
  replay_entries, apply_committed, handle_snapshot, handle_ready, restart,
}
use reef.Raft.Log.Restart.{
  IsAscending, in_range, load_entries_lem, save_entries_append, delete_where_walk,
}

-- The indices are machine words.
abbrev pub AreWords : List Entry → Type 0
AreWords = All (λ e. e.index < 2 ^ 64)

all_in_range :
    (n : ℕ) (es : List Entry)
    → IsAscending n es
    → AreWords es
    → keep_if (in_range 1 (2 ^ 64 - 1)) es ≡ es
all_in_range n [] h w = refl
all_in_range n (e ∷ es) h w =
    let rest = all_in_range e.index es h.1 w.1 in ground (arith, h.0, w.0, rest)

IsAscending-weaken : (m n : ℕ) (es : List Entry) → n ≤ m → IsAscending m es → IsAscending n es
IsAscending-weaken m n [] k h = tt
IsAscending-weaken m n (e ∷ es) k h = (omega (arith, h.0, k), h.1)

keep_if-IsAscending :
    (p : Entry → Bool) (n : ℕ) (es : List Entry) → IsAscending n es → IsAscending n (keep_if p es)
keep_if-IsAscending p n [] h = tt
keep_if-IsAscending p n (e ∷ es) h =
    let rest = keep_if-IsAscending p e.index es h.1 in
    elim (Bool-cases (p e)) [
      | inl t ↦ rw t (h.0, rest)
      | inr f ↦ rw f (IsAscending-weaken e.index n (keep_if p es) (omega (arith, h.0)) rest)
    ]

-- An entry without content changes no map.
no_content :
    (json : Json) (e : Entry) (f : ReefFsm)
    → json.command "" ≡ none
    → str_eq e.content "" ≡ true
    → (apply json e f).0.maps ≡ f.maps
unfolding apply
no_content json e f d s = elim (EntryType-cases e.type) [
  | inl o ↦ rw (o, apply) refl
  | inr r ↦ rw (r, apply, (eq_iff e.content "").0 s, d) refl
]

apply_committed-maps :
    (json : Json) (es : List Entry) (f : ReefFsm)
    → json.command "" ≡ none
    → (apply_committed json es f).maps ≡ (apply_all json es f).maps
unfolding apply_committed apply_all
apply_committed-maps json [] f d = refl
apply_committed-maps json (e ∷ es) f d = elim (Bool-cases (str_eq e.content "")) [
  | inl s ↦
      rw (apply_committed, s)
        (apply_committed-maps json es f d
          ∙ apply_all-maps json es f (apply json e f).0 (sym (no_content json e f d s)))
  | inr s ↦ rw (apply_committed, s) (apply_committed-maps json es (apply json e f).0 d)
]

module _ {B : Type 0} (bucket : LogBucket B) where
  -- After new entries, whose indices rise above those of the log, `LoadEntries` gives the old and the new ones
  -- with an index between its bounds, in order.
  pub load-save :
      (b : B) (es : List Entry) (lo hi : ℕ)
      → IsAscending 0 (bucket.walk b ++ es)
      → load_entries bucket lo hi (save_entries bucket es b)
        ≡ keep_if (in_range lo hi) (bucket.walk b ++ es)
  load-save b es lo hi h =
      let saved = save_entries_append bucket (bucket.walk b) es b refl h in
      load_entries_lem bucket lo hi (save_entries bucket es b) (rw saved h)
      ∙ ap (keep_if (in_range lo hi)) saved

  -- `CompactLog` deletes the entries up to an index, and `TruncateEntries` those after it; all others stay.
  pub compact-truncate :
      (hi : ℕ) (b : B)
      → (bucket.walk (compact_log bucket hi b)
          ≡ keep_if (λ e. not (leb e.index hi)) (bucket.walk b))
        × (bucket.walk (truncate_entries bucket hi b)
            ≡ keep_if (λ e. not (ltb hi e.index)) (bucket.walk b))
  unfolding compact_log truncate_entries
  compact-truncate hi b =
      (delete_where_walk bucket (λ i. leb i hi) b, delete_where_walk bucket (λ i. ltb hi i) b)

  replay_walk :
      (json : Json) (b : B) (f : ReefFsm)
      → IsAscending 0 (bucket.walk b)
      → AreWords (bucket.walk b)
      → replay_entries bucket json 0 b f ≡ apply_all json (bucket.walk b) f
  unfolding replay_entries
  replay_walk json b f h w =
      ap (λ es. apply_all json es f)
        (load_entries_lem bucket 1 (2 ^ 64 - 1) b h ∙ all_in_range 0 (bucket.walk b) h w)

  -- A restart applies entries that were never committed: after a turn that only brings entries, the state
  -- machine is as before, but that of the restarted process has applied the whole log with the new
  -- entries. The indices are machine words that rise from 1.
  pub restart_applies_uncommitted :
      (json : Json) (decode : String → Option FsmSnapshot) (es : List Entry) (n : Node B)
      (fresh : ReefFsm)
      → IsAscending 0 (bucket.walk n.log ++ es)
      → AreWords (bucket.walk n.log ++ es)
      → let later =
          handle_ready bucket json decode
            record { entries = es; committed_entries = []; snapshot = none }
            n in
        (later.fsm ≡ n.fsm)
        × ((restart bucket json decode fresh later).fsm
            ≡ apply_all json (bucket.walk n.log ++ es) fresh)
  unfolding handle_ready restart apply_committed
  restart_applies_uncommitted json decode es n fresh h w =
      let saved = save_entries_append bucket (bucket.walk n.log) es n.log refl h in
      let log = save_entries bucket es n.log in
      (
        refl,
        replay_walk json log fresh (rw saved h) (rw saved w)
            ∙ ap (λ es. apply_all json es fresh) saved,
      )

  -- A restart does not read the snapshot: after the raft library has sent one, which is read, the maps are
  -- those of the snapshot, but those of the restarted process are made from the entries after it alone. The
  -- indices of the log are machine words that rise from 1.
  pub restart_forgets_snapshot :
      (json : Json) (decode : String → Option FsmSnapshot) (s : NodeSnapshot) (m : FsmSnapshot)
      (n : Node B) (fresh : ReefFsm)
      → decode s.content ≡ some m
      → str_eq s.content "" ≡ false
      → IsAscending 0 (bucket.walk n.log)
      → AreWords (bucket.walk n.log)
      → let later = handle_snapshot bucket json decode s n in
        (later.fsm.maps ≡ m)
        × ((restart bucket json decode fresh later).fsm
            ≡ apply_all json (keep_if (λ e. not (leb e.index s.index)) (bucket.walk n.log)) fresh)
  unfolding handle_snapshot restart
  restart_forgets_snapshot json decode s m n fresh d t h w =
      let kept = keep_if (λ e. not (leb e.index s.index)) (bucket.walk n.log) in
      let log = compact_log bucket s.index n.log in
      let compacted = (compact-truncate s.index n.log).0 in
      let asc = keep_if-IsAscending _ 0 (bucket.walk n.log) h in
      let words = All-keep_if _ (λ e. not (leb e.index s.index)) (bucket.walk n.log) w in
      rw (restore-decode decode s.content m n.fsm d t) (
        refl,
        replay_walk json log fresh (rw compacted asc) (rw compacted words)
            ∙ ap (λ es. apply_all json es fresh) compacted,
      )

  -- A restart recovers the state machine when all that the log holds was applied, and stays able to after a
  -- turn that commits what it brings, without a snapshot. The indices are machine words that rise from 1, and
  -- an empty text is no command.
  pub restart_recovers :
      (json : Json) (decode : String → Option FsmSnapshot) (es : List Entry) (n : Node B)
      (fresh : ReefFsm)
      → json.command "" ≡ none
      → IsAscending 0 (bucket.walk n.log ++ es)
      → AreWords (bucket.walk n.log ++ es)
      → n.fsm.maps ≡ (apply_all json (bucket.walk n.log) fresh).maps
      → let later =
          handle_ready bucket json decode
            record { entries = es; committed_entries = es; snapshot = none }
            n in
        (restart bucket json decode fresh later).fsm.maps ≡ later.fsm.maps
  unfolding handle_ready restart
  restart_recovers json decode es n fresh d h w same =
      let saved = save_entries_append bucket (bucket.walk n.log) es n.log refl h in
      let log = save_entries bucket es n.log in
      ap (λ f. f.maps)
        (replay_walk json log fresh (rw saved h) (rw saved w)
          ∙ ap (λ es. apply_all json es fresh) saved
          ∙ apply_all-append json (bucket.walk n.log) es fresh)
      ∙ apply_all-maps json es (apply_all json (bucket.walk n.log) fresh) n.fsm (sym same)
      ∙ sym (apply_committed-maps json es n.fsm d)
