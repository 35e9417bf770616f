-- ===== src/Raft/Leader/Proposals.antt =====
-- pkg/reef/raft/leadered.go and node.go: leadership and proposals, and what becomes of the callbacks.
use reef.Prelude.{
  ℕ, ◌≤◌, ◌<◌, ◌≡◌, refl, ap, inl, inr, Bool, true, false, not, List, [], ◌∷◌, Option, none, some,
  String, ◌==◌, if◌then◌else◌, keep_if, Bool-cases, arith, All, All-In, All-keep_if, In, keep_if-In,
  ◌⊎◌, length,
}
use reef.Raft.Leader.{
  LeaderedServer, on_become_leader, on_lose_leadership, node_is_leader, new_leadered_server,
  track_leadership, track_all, Proposed, node_propose, propose, remember, propose_with_callback,
  on_commit, clean_callbacks, CallbackEvent, run_events,
}

-- The server knows what its node knows, and the scanners of a leader run once.
abbrev pub IsValid : LeaderedServer → Type 0
IsValid s = (s.is_leader ≡ node_is_leader s) × (s.scanners ≡ (if s.is_leader then 1 else 0))

track_leadership-IsValid :
    (l : Option ℕ) (s : LeaderedServer) → IsValid s → IsValid (track_leadership l s)
unfolding track_leadership on_become_leader on_lose_leadership node_is_leader
track_leadership-IsValid none s h = h
track_leadership-IsValid (some l) s h = ground (arith, h.0, h.1)

track_all-IsValid :
    (ls : List (Option ℕ)) (s : LeaderedServer) → IsValid s → IsValid (track_all ls s)
unfolding track_all
track_all-IsValid [] s h = h
track_all-IsValid (l ∷ ls) s h =
    track_all-IsValid ls (track_leadership l s) (track_leadership-IsValid l s h)

-- From its start and through any changes of the leader, the server is the leader exactly if its node is, and
-- runs its scanners once as the leader and not at all otherwise.
pub new_leadered_server-IsValid :
    (node_id leader_id : ℕ) (ls : List (Option ℕ))
    → IsValid (track_all ls (new_leadered_server node_id leader_id))
unfolding new_leadered_server on_become_leader node_is_leader
new_leadered_server-IsValid node_id leader_id ls =
    track_all-IsValid ls (new_leadered_server node_id leader_id) new_valid
  where
    new_valid : IsValid (new_leadered_server node_id leader_id)
    new_valid = ground arith

propose_own :
    (content : String) (s : LeaderedServer)
    → IsValid s
    → propose content s
      ≡ (if s.leader_id == s.node_id then Proposed.to_own_node content else Proposed.not_leader)
unfolding propose node_propose node_is_leader
propose_own content s h = ground (arith, h.0)

-- A proposal to the server goes to its own raft node if it is the leader and is refused otherwise: the
-- node's forwarding to another leader is never reached.
pub propose_never_forwards :
    (content : String) (node_id leader_id : ℕ) (ls : List (Option ℕ))
    → let s = track_all ls (new_leadered_server node_id leader_id) in
      propose content s
      ≡ (if s.leader_id == s.node_id then Proposed.to_own_node content else Proposed.not_leader)
propose_never_forwards content node_id leader_id ls =
    propose_own content (track_all ls (new_leadered_server node_id leader_id))
      (new_leadered_server-IsValid node_id leader_id ls)

-- The keys of callbacks are nanoseconds, above `bound`; the indices and the milliseconds stay below it. No
-- proposal with the key `key` is turned down.
abbrev pub IsSpread : ℕ → ℕ → CallbackEvent → Type 0
IsSpread bound key (CallbackEvent.proposes now accepted) =
    (bound ≤ now) × ((accepted ≡ true) ⊎ ((now == key) ≡ false))
IsSpread bound key (CallbackEvent.commits index) = index < bound
IsSpread bound key (CallbackEvent.cleans now) = now ≤ bound

-- The callbacks have keys above `bound`, and one of them is `key`.
abbrev pub AwaitsCall : ℕ → ℕ → LeaderedServer → Type 0
AwaitsCall bound key s = All (λ k. bound ≤ k) s.pending_callbacks × In key s.pending_callbacks

none_found :
    (bound index : ℕ) (keys : List ℕ)
    → index < bound
    → All (λ k. bound ≤ k) keys
    → length (keep_if (λ k. k == index) keys) ≡ 0
none_found bound index [] h a = refl
none_found bound index (k ∷ keys) h a =
    let later = none_found bound index keys h a.1 in ground (arith, h, a.0, later)

remembered : (key now : ℕ) (keys : List ℕ) → In key keys → In key (remember now keys)
remembered key now keys i = elim (Bool-cases (key == now)) [
  | inl e ↦ inl (ground (arith, e))
  | inr n ↦ inr (keep_if-In (λ k. not (k == now)) key keys i (ap not n))
]

module _ (bound key : ℕ) (s : LeaderedServer) (awaits : AwaitsCall bound key s) where
  propose-AwaitsCall :
      (now : ℕ) (accepted : Bool)
      → IsSpread bound key (CallbackEvent.proposes now accepted)
      → AwaitsCall bound key (propose_with_callback now accepted s)
  unfolding propose_with_callback
  propose-AwaitsCall now accepted h = elim (Bool-cases s.is_leader) [
    | inr n ↦ rw (propose_with_callback, n) awaits
    | inl l ↦ elim (Bool-cases accepted) [
      | inl ok ↦
          rw (propose_with_callback, l, ok)
            (stored, remembered key now s.pending_callbacks awaits.1)
      | inr bad ↦
          rw (propose_with_callback, l, bad)
            (
              All-keep_if _ (λ k. not (k == now)) (remember now s.pending_callbacks) stored,
              keep_if-In (λ k. not (k == now)) key (remember now s.pending_callbacks)
                  (remembered key now s.pending_callbacks awaits.1) (ground (arith, h.1, bad)),
            )
    ]
  ]
    where
      stored : All (λ k. bound ≤ k) (remember now s.pending_callbacks)
      stored = (h.0, All-keep_if _ _ s.pending_callbacks awaits.0)

  on_commit-AwaitsCall :
      (index : ℕ)
      → index < bound
      → AwaitsCall bound key (on_commit index s).0 × ((on_commit index s).1 ≡ 0)
  unfolding on_commit
  on_commit-AwaitsCall index h = (
    (
      All-keep_if _ _ s.pending_callbacks awaits.0,
      keep_if-In _ key s.pending_callbacks awaits.1 (ground (arith, h, above)),
    ),
    none_found bound index s.pending_callbacks h awaits.0,
  )
    where
      above : bound ≤ key
      above = All-In (λ k. bound ≤ k) key s.pending_callbacks awaits.0 awaits.1

  clean_callbacks-AwaitsCall :
      (now : ℕ) → now ≤ bound → AwaitsCall bound key (clean_callbacks now s)
  unfolding clean_callbacks
  clean_callbacks-AwaitsCall now h = (
    All-keep_if _ _ s.pending_callbacks awaits.0,
    keep_if-In _ key s.pending_callbacks awaits.1 (ground (arith, h, above)),
  )
    where
      above : bound ≤ key
      above = All-In (λ k. bound ≤ k) key s.pending_callbacks awaits.0 awaits.1

-- The callback of a proposal is never called and never given up: through any events with keys above `bound`
-- and indices and cleanup times up to it, no callback runs and a key that waits stays, if the raft library
-- turns down no proposal of that key.
pub callbacks_never_run :
    (bound key : ℕ) (es : List CallbackEvent) (s : LeaderedServer)
    → AwaitsCall bound key s
    → All (IsSpread bound key) es
    → ((run_events es s).1 ≡ 0) × In key (run_events es s).0.pending_callbacks
unfolding run_events
callbacks_never_run bound key [] s a h = (refl, a.1)
callbacks_never_run bound key (CallbackEvent.proposes now accepted ∷ es) s a h =
    callbacks_never_run bound key es (propose_with_callback now accepted s)
      (propose-AwaitsCall bound key s a now accepted h.0) h.1
callbacks_never_run bound key (CallbackEvent.commits index ∷ es) s a h =
    let (kept, none_ran) = on_commit-AwaitsCall bound key s a index h.0 in
    let (later, stays) = callbacks_never_run bound key es (on_commit index s).0 kept h.1 in
    (omega (arith, none_ran, later), stays)
callbacks_never_run bound key (CallbackEvent.cleans now ∷ es) s a h =
    callbacks_never_run bound key es (clean_callbacks now s)
      (clean_callbacks-AwaitsCall bound key s a now h.0) h.1
