-- ===== src/Raft/Leader/Settling.antt =====
-- pkg/reef/raft/leadered.go, the scanners against the state machine: what a scan finds after a round whose
-- commands are committed.
use reef.Prelude.{
  ℕ, ◌≡◌, ◌∙◌, refl, ap, inl, inr, Bool, true, false, List, [], ◌∷◌, map, none, some, String,
  str_eq, eq_iff, keep_if, keep_if-In, lookup, lookup-insert, insert, UniqueKeys, insert-UniqueKeys,
  lookup_of_In, In_of_lookup, In, Bool-cases, Option-cases, arith, All, All-In, has,
}
use reef.Client.{ClientInfo, ClientState, is_connected}
use reef.Raft.Fsm.{ReplicatedTask, FsmSnapshot, Json, Entry, new_reef_fsm}
use reef.Raft.Fsm.Apply.{change_task, time_out, apply_stale, apply_all}
use reef.Raft.Fsm.Invariant.{AreUnassigned, apply_all-NoneAssigned, IsValid}
use reef.Raft.Leader.Scanners.{
  heartbeat_lost, timed_out, claim_expired, scan, commit_stale, commit_time_outs,
}

-- Writes to some keys
module _ {V : Type 0} (change : V → V) where
  mark : String → List (String × V) → List (String × V)
  mark k m = elim (lookup k m) [ none ↦ m | some v ↦ insert k (change v) m ]

  mark_all : List String → List (String × V) → List (String × V)
  mark_all [] m = m
  mark_all (k ∷ ks) m = mark_all ks (mark k m)

module _ {V : Type 0} (test : V → Bool) where
  scan_nothing :
      (m : List (String × V))
      → ((k : String) (v : V) → In (k, v) m → test v ≡ false)
      → scan test m ≡ []
  unfolding scan
  scan_nothing [] h = refl
  scan_nothing ((k, v) ∷ m) h =
      let fails = h k v (inl refl) in
      let rest = scan_nothing m (λ j w i. h j w (inr i)) in rw (scan, fails) rest

  scan_finds :
      (k : String) (v : V) (m : List (String × V))
      → In (k, v) m
      → test v ≡ true
      → In k (scan test m)
  unfolding scan
  scan_finds k v m i t = ids (keep_if (λ e. test e.1) m) (keep_if-In (λ e. test e.1) (k, v) m i t)
    where
      ids : (es : List (String × V)) → In (k, v) es → In k (map (λ e. e.0) es)
      ids [] i = absurd i
      ids (e ∷ es) (inl s) = inl (ap (λ e. e.0) s)
      ids (e ∷ es) (inr r) = inr (ids es r)

  -- The written values fail the test.
  module _ (change : V → V) (fails : (v : V) → test (change v) ≡ false) where
    mark_other :
        (j k : String) (v : V) (m : List (String × V))
        → test v ≡ true
        → lookup j (mark change k m) ≡ some v
        → (lookup j m ≡ some v) × (str_eq k j ≡ false)
    unfolding mark
    mark_other j k v m t e = elim (Option-cases (lookup k m)) [
      | inl n ↦
          let kept = rw (mark, n) at e in
          (
            kept,
            elim (Bool-cases (str_eq k j)) [
              | inr f ↦ f
              | inl s ↦ absurd (ground (arith, eq_iff k j, s, n, kept))
            ],
          )
      | inr (w, s) ↦
          let written = rw (mark, s, lookup-insert k j (change w) m) at e in
          elim (Bool-cases (str_eq k j)) [
            | inr f ↦ (rw f at written, f)
            | inl r ↦ absurd (ground (arith, rw r at written, fails w, t))
          ]
    ]

    mark_all_other :
        (j : String) (ks : List String) (v : V) (m : List (String × V))
        → test v ≡ true
        → lookup j (mark_all change ks m) ≡ some v
        → (lookup j m ≡ some v) × (has j ks ≡ false)
    unfolding mark_all
    mark_all_other j [] v m t e = (e, refl)
    mark_all_other j (k ∷ ks) v m t e =
        let (marked, absent) = mark_all_other j ks v (mark change k m) t e in
        let (before, differs) = mark_other j k v m t marked in
        (before, ground (arith, absent, differs))

    mark_all-UniqueKeys :
        (ks : List String) (m : List (String × V))
        → UniqueKeys m
        → UniqueKeys (mark_all change ks m)
    unfolding mark_all mark
    mark_all-UniqueKeys [] m u = u
    mark_all-UniqueKeys (k ∷ ks) m u =
        mark_all-UniqueKeys ks (mark change k m) (elim (Option-cases (lookup k m)) [
          | inl n ↦ rw (mark, n) u
          | inr (w, s) ↦ rw (mark, s) (insert-UniqueKeys k (change w) m u)
        ])

    settles :
        (m : List (String × V)) → UniqueKeys m → scan test (mark_all change (scan test m) m) ≡ []
    settles m u = scan_nothing (mark_all change (scan test m) m) (λ k v i.
        elim (Bool-cases (test v)) [
          | inr f ↦ f
          | inl t ↦
              let found =
                lookup_of_In k v (mark_all change (scan test m) m)
                  (mark_all-UniqueKeys (scan test m) m u) i in
              let (before, absent) = mark_all_other k (scan test m) v m t found in
              absurd
                (listed k (scan test m) (scan_finds k v m (In_of_lookup k v m before) t) absent)
        ])
      where
        listed : (k : String) (ks : List String) → In k ks → has k ks ≡ false → ⊥
        listed k [] i a = i
        listed k (j ∷ ks) (inl s) a = ground (arith, s, a, eq_iff j k)
        listed k (j ∷ ks) (inr i) a = let later = listed k ks i in ground (arith, a, later)

-- The maps after the commands are those writes.
stale_clients :
    (ids : List String) (m : FsmSnapshot)
    → (commit_stale ids m).clients
      ≡ mark_all (λ c. record c { state = ClientState.stale }) ids m.clients
unfolding commit_stale mark_all mark apply_stale
stale_clients [] m = refl
stale_clients (id ∷ ids) m = elim (Option-cases (lookup id m.clients)) [
  | inl n ↦ rw (commit_stale, mark_all, mark, apply_stale, n) (stale_clients ids m)
  | inr (c, e) ↦ rw (commit_stale, mark_all, mark, apply_stale, e) (stale_clients ids _)
]

timed_out_tasks :
    (ids : List String) (m : FsmSnapshot)
    → (commit_time_outs ids m).tasks ≡ mark_all time_out ids m.tasks
unfolding commit_time_outs mark_all mark change_task
timed_out_tasks [] m = refl
timed_out_tasks (id ∷ ids) m = elim (Option-cases (lookup id m.tasks)) [
  | inl n ↦ rw (commit_time_outs, mark_all, mark, change_task, n) (timed_out_tasks ids m)
  | inr (t, e) ↦ rw (commit_time_outs, mark_all, mark, change_task, e) (timed_out_tasks ids _)
]

stale_settles :
    (now : ℕ) (c : ClientInfo) → heartbeat_lost now (record c { state = ClientState.stale }) ≡ false
unfolding heartbeat_lost is_connected
stale_settles now c = refl

time_out_settles : (now : ℕ) (t : ReplicatedTask) → timed_out now (time_out t) ≡ false
unfolding timed_out
time_out_settles now t = refl

-- A round of the heartbeat scanner and one of the timeout scanner, whose commands are all committed, leave
-- nothing for a second scan at the same time, if the maps have one entry to a key.
pub scans_settle :
    (now : ℕ) (m : FsmSnapshot)
    → IsValid m
    → (scan (heartbeat_lost now) (commit_stale (scan (heartbeat_lost now) m.clients) m).clients
        ≡ [])
      × (scan (timed_out now) (commit_time_outs (scan (timed_out now) m.tasks) m).tasks ≡ [])
scans_settle now m h = (
  ap (scan (heartbeat_lost now)) (stale_clients (scan (heartbeat_lost now) m.clients) m)
      ∙ settles (heartbeat_lost now) _ (stale_settles now) m.clients h.1.0,
  ap (scan (timed_out now)) (timed_out_tasks (scan (timed_out now) m.tasks) m)
      ∙ settles (timed_out now) _ (time_out_settles now) m.tasks h.0.0,
)

claims_need_Assigned :
    (now : ℕ) (tasks : List (String × ReplicatedTask))
    → All (λ p. str_eq p.1.status "Assigned" ≡ false) tasks
    → scan (claim_expired now) tasks ≡ []
unfolding claim_expired
claims_need_Assigned now tasks h = scan_nothing (claim_expired now) tasks (λ k t i.
    rw (claim_expired, All-In (λ p. str_eq p.1.status "Assigned" ≡ false) (k, t) tasks h i) refl)

-- The scanner of claims never finds one: the state machine from its start, through any entries that submit no
-- task with the status "Assigned", holds no claim that a scan at any time takes for expired.
pub claims_never_expire :
    (json : Json) (es : List Entry) (now : ℕ)
    → AreUnassigned json es
    → scan (claim_expired now) (apply_all json es new_reef_fsm).maps.tasks ≡ []
unfolding new_reef_fsm
claims_never_expire json es now h =
    claims_need_Assigned now (apply_all json es new_reef_fsm).maps.tasks
      (apply_all-NoneAssigned json es new_reef_fsm h tt)
