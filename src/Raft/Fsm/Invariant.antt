-- ===== src/Raft/Fsm/Invariant.antt =====
-- pkg/reef/raft/types.go, `Apply`: what holds of the maps of every replica, whatever it is sent.
use reef.Prelude.{
  ◌≡◌, ◌≢◌, refl, ◌∙◌, ◌⊎◌, inl, inr, false, none, some, String, str_eq, lookup, lookup-insert, ◌*◌,
  insert, delete, List, ◌∷◌, [], All, All-In, In_of_lookup, UniqueKeys, insert-UniqueKeys,
  delete-UniqueKeys, Option-cases, Bool-cases,
}
use reef.Raft.Commands.{RaftCommand, kind_of}
use reef.Raft.Fsm.{ReplicatedTask, FsmSnapshot, ReefFsm, Json, ApplyError, Entry, EntryType}
use reef.Raft.Fsm.Apply.{Outcome, apply_command, apply, apply_all}
use reef.Raft.Fsm.Effects.{Change, IsUnassigned, apply_kind-Change}

module _ {V : Type 0} where
  insert-All :
      (P : String × V → Type 0) (k : String) (v : V) (m : List (String × V))
      → All P m
      → P (k, v)
      → All P (insert k v m)
  unfolding insert
  insert-All P k v [] h p = (p, tt)
  insert-All P k v ((j, w) ∷ m) h p = elim (Bool-cases (str_eq j k)) [
    | inl e ↦ rw (e, insert) (p, h.1)
    | inr e ↦ rw (e, insert) (h.0, insert-All P k v m h.1 p)
  ]

  delete-All :
      (P : String × V → Type 0) (k : String) (m : List (String × V)) → All P m → All P (delete k m)
  unfolding delete
  delete-All P k [] h = tt
  delete-All P k ((j, w) ∷ m) h = elim (Bool-cases (str_eq j k)) [
    | inl e ↦ rw (e, delete) (delete-All P k m h.1)
    | inr e ↦ rw (e, delete) (h.0, delete-All P k m h.1)
  ]

  -- A map in which every value stands under its own id.
  abbrev pub IsKeyed : (V → String) → List (String × V) → Type 0
  IsKeyed id m = UniqueKeys m × All (λ p. id p.1 ≡ p.0) m

  insert-IsKeyed :
      (id : V → String) (v : V) (m : List (String × V))
      → IsKeyed id m
      → IsKeyed id (insert (id v) v m)
  insert-IsKeyed id v m h =
      (insert-UniqueKeys (id v) v m h.0, insert-All (λ p. id p.1 ≡ p.0) (id v) v m h.1 refl)

  change-IsKeyed :
      (id : V → String) (k : String) (v v' : V) (m : List (String × V))
      → lookup k m ≡ some v
      → id v' ≡ id v
      → IsKeyed id m
      → IsKeyed id (insert k v' m)
  change-IsKeyed id k v v' m e i h =
      let found = All-In (λ p. id p.1 ≡ p.0) (k, v) m h.1 (In_of_lookup k v m e) in
      (insert-UniqueKeys k v' m h.0, insert-All (λ p. id p.1 ≡ p.0) k v' m h.1 (i ∙ found))

-- Five maps with one entry to a key, each entry under its own id.
abbrev pub IsValid : FsmSnapshot → Type 0
IsValid m =
    IsKeyed (λ t. t.task.id) m.tasks
    × IsKeyed (λ c. c.id) m.clients
    × IsKeyed (λ g. g.id) m.genes
    × IsKeyed (λ d. d.id) m.drafts
    × IsKeyed (λ n. n.id) m.dag_nodes

-- No task has the status "Assigned".
abbrev pub NoneAssigned : FsmSnapshot → Type 0
NoneAssigned m = All (λ p. str_eq p.1.status "Assigned" ≡ false) m.tasks

-- The map has the task.
abbrev pub HasTask : String → FsmSnapshot → Type 0
HasTask id m = (t : ReplicatedTask) × (lookup id m.tasks ≡ some t)

insert-present :
    (other key : String) (t : ReplicatedTask) (m : List (String × ReplicatedTask))
    → (s : ReplicatedTask) × (lookup other m ≡ some s)
    → (s : ReplicatedTask) × (lookup other (insert key t m) ≡ some s)
insert-present other key t m (s, h) = elim (Bool-cases (str_eq key other)) [
  | inl e ↦ (t, rw (lookup-insert key other t m, e) refl)
  | inr e ↦ (s, rw (lookup-insert key other t m, e) h)
]

module _ {U : Type 0} {m : FsmSnapshot} where
  Change-refused : {o : Outcome} → Change U m o → (o.1 ≡ none) ⊎ (o.0 ≡ m)
  Change-refused (Change.refused e) = inr refl
  Change-refused c = inl refl

  Change-IsValid : {o : Outcome} → Change U m o → IsValid m → IsValid o.0
  Change-IsValid (Change.refused e) h = h
  Change-IsValid Change.ignored h = h
  Change-IsValid (Change.task_submitted t s) (a, b, c, d, n) =
      (insert-IsKeyed (λ t. t.task.id) t m.tasks a, b, c, d, n)
  Change-IsValid (Change.task_changed id t t' e i s) (a, b, c, d, n) =
      (change-IsKeyed (λ t. t.task.id) id t t' m.tasks e i a, b, c, d, n)
  Change-IsValid (Change.client_put x) (a, b, c, d, n) =
      (a, insert-IsKeyed (λ x. x.id) x m.clients b, c, d, n)
  Change-IsValid (Change.client_removed id) (a, b, c, d, n) = (
    a,
    (delete-UniqueKeys id m.clients b.0, delete-All (λ p. p.1.id ≡ p.0) id m.clients b.1),
    c,
    d,
    n,
  )
  Change-IsValid (Change.client_changed id x x' e i) (a, b, c, d, n) =
      (a, change-IsKeyed (λ x. x.id) id x x' m.clients e i b, c, d, n)
  Change-IsValid (Change.gene_put g) (a, b, c, d, n) =
      (a, b, insert-IsKeyed (λ g. g.id) g m.genes c, d, n)
  Change-IsValid (Change.gene_changed id g g' e i) (a, b, c, d, n) =
      (a, b, change-IsKeyed (λ g. g.id) id g g' m.genes e i c, d, n)
  Change-IsValid (Change.draft_put x) (a, b, c, d, n) =
      (a, b, c, insert-IsKeyed (λ d. d.id) x m.drafts d, n)
  Change-IsValid (Change.draft_changed id x x' e i) (a, b, c, d, n) =
      (a, b, c, change-IsKeyed (λ d. d.id) id x x' m.drafts e i d, n)
  Change-IsValid (Change.node_put x) (a, b, c, d, n) =
      (a, b, c, d, insert-IsKeyed (λ n. n.id) x m.dag_nodes n)
  Change-IsValid (Change.node_changed id x x' e i) (a, b, c, d, n) =
      (a, b, c, d, change-IsKeyed (λ n. n.id) id x x' m.dag_nodes e i n)

  Change-NoneAssigned : {o : Outcome} → Change U m o → U → NoneAssigned m → NoneAssigned o.0
  Change-NoneAssigned (Change.task_submitted t s) u h =
      insert-All (λ p. str_eq p.1.status "Assigned" ≡ false) t.task.id t m.tasks h (s u)
  Change-NoneAssigned (Change.task_changed id t t' e i s) u h =
      insert-All (λ p. str_eq p.1.status "Assigned" ≡ false) id t' m.tasks h s
  Change-NoneAssigned c u h = h

  -- A task that stands in the map stays in it.
  Change-kept : {o : Outcome} → Change U m o → (id : String) → HasTask id m → HasTask id o.0
  Change-kept (Change.task_submitted t s) id h = insert-present id t.task.id t m.tasks h
  Change-kept (Change.task_changed k t t' e i s) id h = insert-present id k t' m.tasks h
  Change-kept c id h = h

pub EntryType-cases : (t : EntryType) → (t ≡ EntryType.other) ⊎ (t ≡ EntryType.normal)
EntryType-cases EntryType.other = inl refl
EntryType-cases EntryType.normal = inr refl

-- The command of an entry, unless nothing is done with it
module _ (json : Json) (U : Type 0) where
  apply_command-Change :
      (c : RaftCommand) (m : FsmSnapshot)
      → (U → IsUnassigned json c.payload)
      → Change U m (apply_command json c m)
  unfolding apply_command
  apply_command-Change c m known = elim (Option-cases (kind_of c.type)) [
    | inl e ↦ rw (e, apply_command) Change.ignored
    | inr (k, e) ↦
        rw (e, apply_command)
          (apply_kind-Change U json c.payload m known k (c.timestamp * 1_000_000))
  ]

  pub apply-Change :
      (e : Entry) (f : ReefFsm)
      → (U → (c : RaftCommand) → json.command e.content ≡ some c → IsUnassigned json c.payload)
      → Change U f.maps ((apply json e f).0.maps, (apply json e f).1)
  unfolding apply
  apply-Change e f known = elim (EntryType-cases e.type) [
    | inl o ↦ rw (o, apply) Change.ignored
    | inr r ↦ elim (Option-cases (json.command e.content)) [
      | inl n ↦ rw (r, apply, n) (Change.refused ApplyError.bad_json)
      | inr (c, s) ↦ rw (r, apply, s) (apply_command-Change c f.maps (λ u. known u c s))
    ]
  ]

-- No entry submits a task whose status is "Assigned".
abbrev pub AreUnassigned : Json → List Entry → Type 0
AreUnassigned json =
    All (λ e. (c : RaftCommand) → json.command e.content ≡ some c → IsUnassigned json c.payload)

-- What one change keeps, all the entries keep.
module _ (json : Json) (U : Type 0) (P : FsmSnapshot → Type 0) where
  preserved :
      ((m : FsmSnapshot) (o : Outcome) → Change U m o → P m → P o.0)
      → (es : List Entry) (f : ReefFsm) → (U → AreUnassigned json es)
      → P f.maps
      → P (apply_all json es f).maps
  unfolding apply_all
  preserved keeps [] f known p = p
  preserved keeps (e ∷ es) f known p =
      preserved keeps es (apply json e f).0 (λ u. (known u).1)
        (keeps f.maps _ (apply-Change json U e f (λ u. (known u).0)) p)

-- An entry that is refused leaves the five maps as they were.
pub refused_unchanged :
    (json : Json) (e : Entry) (f : ReefFsm)
    → (apply json e f).1 ≢ none
    → (apply json e f).0.maps ≡ f.maps
refused_unchanged json e f h = elim (Change-refused (apply-Change json ⊥ e f (λ u. absurd u))) [
  | inl n ↦ absurd (h n)
  | inr k ↦ k
]

-- Committed entries, whatever they hold, keep every map with one entry to a key and each entry under its id.
pub apply_all-IsValid :
    (json : Json) (es : List Entry) (f : ReefFsm)
    → IsValid f.maps
    → IsValid (apply_all json es f).maps
apply_all-IsValid json es f h =
    preserved json ⊥ IsValid (λ m o c. Change-IsValid c) es f (λ u. absurd u) h

-- No sequence of entries removes a task from the map.
pub apply_all_keeps_tasks :
    (json : Json) (es : List Entry) (f : ReefFsm) (id : String)
    → HasTask id f.maps
    → HasTask id (apply_all json es f).maps
apply_all_keeps_tasks json es f id h =
    preserved json ⊥ (HasTask id) (λ m o c. Change-kept c id) es f (λ u. absurd u) h

-- No command gives a task the status "Assigned": without a submitted task that has it, no task has it.
pub apply_all-NoneAssigned :
    (json : Json) (es : List Entry) (f : ReefFsm)
    → AreUnassigned json es
    → NoneAssigned f.maps
    → NoneAssigned (apply_all json es f).maps
apply_all-NoneAssigned json es f known h =
    preserved json Unit NoneAssigned (λ m o c. Change-NoneAssigned c tt) es f (λ u. known) h
