-- ===== src/Raft/Commands.antt =====
-- pkg/reef/raft/types.go and commands.go: the types of commands, their domains and where they are sent.
use reef.Prelude.{
  ℕ, ◌≡◌, refl, Bool, true, false, not, ◌&&◌, ◌||◌, List, [], ◌∷◌, Option, none, some, String,
  str_eq, arith, leb, ◌==◌, if◌then◌else◌, ◌∙◌,
}
use reef.Prelude.Int.{ℤ, pos, negsuc}

-- The constants of `RaftCommandType`.
pub data CommandKind : Type 0 where
  task_enqueue task_assign task_start task_complete task_failed task_cancel : CommandKind
  task_escalate task_timed_out : CommandKind
  client_register client_unregister client_stale : CommandKind
  gene_submit gene_approve gene_reject skill_draft skill_approve skill_reject : CommandKind
  claim_post claim_assign claim_expire dag_update : CommandKind

unfoldable pub code : CommandKind → ℕ
code task_enqueue = 1
code task_assign = 2
code task_start = 3
code task_complete = 4
code task_failed = 5
code task_cancel = 6
code task_escalate = 7
code task_timed_out = 8
code client_register = 20
code client_unregister = 21
code client_stale = 22
code gene_submit = 30
code gene_approve = 31
code gene_reject = 32
code skill_draft = 33
code skill_approve = 34
code skill_reject = 35
code claim_post = 40
code claim_assign = 41
code claim_expire = 42
code dag_update = 50

abbrev pub kinds : List CommandKind
kinds =
    task_enqueue ∷ task_assign ∷ task_start ∷ task_complete ∷ task_failed ∷ task_cancel
    ∷ task_escalate ∷ task_timed_out ∷ client_register ∷ client_unregister ∷ client_stale
    ∷ gene_submit ∷ gene_approve ∷ gene_reject ∷ skill_draft ∷ skill_approve ∷ skill_reject
    ∷ claim_post ∷ claim_assign ∷ claim_expire ∷ dag_update ∷ []

-- The `case` of a `switch` on the number, over the constants.
unfoldable pub find_kind : ℕ → List CommandKind → Option CommandKind
unfolding code
find_kind n [] = none
find_kind n (k ∷ ks) = if code k == n then some k else find_kind n ks

unfoldable pub kind_of : ℤ → Option CommandKind
unfolding find_kind
kind_of (pos n) = find_kind n kinds
kind_of (negsuc n) = none

-- `t >= lo && t <= hi`
abbrev pub between : ℕ → ℕ → ℤ → Bool
between lo hi (pos n) = leb lo n && leb n hi
between lo hi (negsuc n) = false

unfoldable pub is_task_op : ℤ → Bool
is_task_op t = between 1 8 t

unfoldable pub is_client_op : ℤ → Bool
is_client_op t = between 20 22 t

unfoldable pub is_evolution_op : ℤ → Bool
is_evolution_op t = between 30 35 t

unfoldable pub is_claim_op : ℤ → Bool
is_claim_op t = between 40 42 t

unfoldable pub is_dag_op : ℤ → Bool
is_dag_op t = between 50 50 t

unfoldable pub domain : ℤ → String
unfolding is_task_op is_client_op is_evolution_op is_claim_op is_dag_op
domain t =
    if is_task_op t
    then "task"
    else if is_client_op t
    then "client"
    else if is_evolution_op t
    then "evolution"
    else if is_claim_op t
    then "claim"
    else if is_dag_op t
    then "dag"
    else "unknown"

pub record RaftCommand : Type 0 where
  pub type : ℤ
  pub payload : String
  pub timestamp : ℕ
  pub proposer : String

-- `Validate`, with the library's test that a text is JSON
unfoldable pub validate : (String → Bool) → RaftCommand → Bool
unfolding domain
validate is_json c =
    if str_eq (domain c.type) "unknown"
    then false
    else if not (str_eq c.payload "")
    then is_json c.payload
    else true

unfoldable pub is_consensus : RaftCommand → Bool
unfolding domain
is_consensus c = not (str_eq (domain c.type) "unknown")

pub data DispatchTarget : Type 0 where
  consensus non_consensus : DispatchTarget

-- `GetDispatchTarget`: the table has an entry for each constant, all of them for consensus.
unfoldable pub get_dispatch_target : ℤ → DispatchTarget
unfolding kind_of
get_dispatch_target t = elim (kind_of t) [ none ↦ non_consensus | some k ↦ consensus ]

unfoldable pub dispatches_to_consensus : ℤ → Bool
unfolding get_dispatch_target
dispatches_to_consensus t = elim (get_dispatch_target t) [
  | consensus ↦ true
  | non_consensus ↦ false
]

in_ranges : ℕ → Bool
in_ranges n =
    between 1 8 (pos n)
    || (between 20 22 (pos n)
        || (between 30 35 (pos n) || (between 40 42 (pos n) || between 50 50 (pos n))))

known_iff_in_range : (n : ℕ) → dispatches_to_consensus (pos n) ≡ in_ranges n
unfolding dispatches_to_consensus in_ranges
known_iff_in_range n = ground arith

named_iff :
    (a b c d e : Bool)
    → (a || (b || (c || (d || e))))
      ≡ not (
          str_eq
            (if a
              then "task"
              else if b
              then "client"
              else if c
              then "evolution"
              else if d
              then "claim"
              else if e
              then "dag"
              else "unknown")
            "unknown")
named_iff true b c d e = refl
named_iff false true c d e = refl
named_iff false false true d e = refl
named_iff false false false true e = refl
named_iff false false false false true = refl
named_iff false false false false false = refl

dispatches_iff : (t : ℤ) → dispatches_to_consensus t ≡ not (str_eq (domain t) "unknown")
unfolding dispatches_to_consensus in_ranges domain
dispatches_iff (pos n) =
    known_iff_in_range n
    ∙ named_iff (between 1 8 (pos n)) (between 20 22 (pos n)) (between 30 35 (pos n))
        (between 40 42 (pos n)) (between 50 50 (pos n))
dispatches_iff (negsuc n) = refl

-- The three lists of commands agree, for every number: a command is routed to consensus exactly when
-- `IsConsensus` holds, and that is when `Validate` accepts it with an empty payload.
pub dispatches-is_consensus :
    (is_json : String → Bool) (c : RaftCommand)
    → (dispatches_to_consensus c.type ≡ is_consensus c)
      × (validate is_json (record c { payload = "" }) ≡ is_consensus c)
unfolding is_consensus validate
dispatches-is_consensus is_json c = (dispatches_iff c.type, ground arith)
