-- ===== src/Raft/Fsm/Effects.antt =====
-- pkg/reef/raft/types.go, `Apply`: what a command can do to the five maps, as a relation, and what follows
-- from it for one command.
use reef.Prelude.{
  ℕ, ◌≡◌, refl, inl, inr, false, Bool-cases, Option, none, some, String, str_eq, Option-cases,
  lookup, insert, delete,
}
use reef.Client.{ClientInfo, ClientState}
use reef.Raft.Commands.{CommandKind}
use reef.Raft.Fsm.{
  ReplicatedTask, Gene, SkillDraft, DagNode, FsmSnapshot, EnqueuePayload, DagPayload, Json,
  ApplyError,
}
use reef.Raft.Fsm.Apply.{
  Outcome, decoded, of_data, change_task, unset_task, apply_enqueue, apply_stale, change_gene,
  change_draft, apply_claim_post, apply_dag_update, apply_kind, assign_to, start, complete, fail,
  cancel, escalate, time_out, claim, unclaim,
}

-- No task that the payload submits has the status "Assigned".
abbrev pub IsUnassigned : Json → String → Type 0
IsUnassigned json p =
    ((t : ReplicatedTask) → json.task p ≡ some t → str_eq t.status "Assigned" ≡ false)
    × ((e : EnqueuePayload) (t : ReplicatedTask)
        → json.enqueue p ≡ some e
        → json.task e.task_data ≡ some t
        → str_eq t.status "Assigned" ≡ false)

module _ (U : Type 0) (m : FsmSnapshot) where
  -- The outcomes that are possible from `m`; `U` is what the caller knows of the tasks that are submitted.
  pub data Change : Outcome → Type 0 where
    refused : (e : ApplyError) → Change (m, some e)
    ignored : Change (m, none)
    task_submitted :
        (t : ReplicatedTask)
        → (U → str_eq t.status "Assigned" ≡ false)
        → Change (record m { tasks = insert t.task.id t m.tasks }, none)
    task_changed :
        (id : String) (t t' : ReplicatedTask)
        → lookup id m.tasks ≡ some t
        → t'.task.id ≡ t.task.id
        → str_eq t'.status "Assigned" ≡ false
        → Change (record m { tasks = insert id t' m.tasks }, none)
    client_put : (c : ClientInfo) → Change (record m { clients = insert c.id c m.clients }, none)
    client_removed : (id : String) → Change (record m { clients = delete id m.clients }, none)
    client_changed :
        (id : String) (c c' : ClientInfo)
        → lookup id m.clients ≡ some c
        → c'.id ≡ c.id
        → Change (record m { clients = insert id c' m.clients }, none)
    gene_put : (g : Gene) → Change (record m { genes = insert g.id g m.genes }, none)
    gene_changed :
        (id : String) (g g' : Gene)
        → lookup id m.genes ≡ some g
        → g'.id ≡ g.id
        → Change (record m { genes = insert id g' m.genes }, none)
    draft_put : (d : SkillDraft) → Change (record m { drafts = insert d.id d m.drafts }, none)
    draft_changed :
        (id : String) (d d' : SkillDraft)
        → lookup id m.drafts ≡ some d
        → d'.id ≡ d.id
        → Change (record m { drafts = insert id d' m.drafts }, none)
    node_put : (n : DagNode) → Change (record m { dag_nodes = insert n.id n m.dag_nodes }, none)
    node_changed :
        (id : String) (n n' : DagNode)
        → lookup id m.dag_nodes ≡ some n
        → n'.id ≡ n.id
        → Change (record m { dag_nodes = insert id n' m.dag_nodes }, none)

  decoded-Change :
      {A : Type 0} (x : Option A) (body : A → Outcome)
      → ((a : A) → x ≡ some a → Change (body a))
      → Change (decoded x m body)
  decoded-Change none body h = refused ApplyError.bad_json
  decoded-Change (some a) body h = h a refl

  change_task-Change :
      (id : String) (change : ReplicatedTask → ReplicatedTask)
      → ((t : ReplicatedTask) → (change t).task.id ≡ t.task.id)
      → ((t : ReplicatedTask) → str_eq (change t).status "Assigned" ≡ false)
      → Change (change_task id change m)
  unfolding change_task
  change_task-Change id change h k = elim (Option-cases (lookup id m.tasks)) [
    | inl e ↦ rw (e, change_task) (refused (ApplyError.not_found id))
    | inr (t, e) ↦ rw (e, change_task) (task_changed id t (change t) e (h t) (k t))
  ]

  apply_stale-Change : (id : String) → Change (apply_stale id m)
  unfolding apply_stale
  apply_stale-Change id = elim (Option-cases (lookup id m.clients)) [
    | inl e ↦ rw (e, apply_stale) ignored
    | inr (c, e) ↦
        rw (e, apply_stale) (client_changed id c (record c { state = ClientState.stale }) e refl)
  ]

  change_gene-Change :
      (id : String) (change : Gene → Gene)
      → ((g : Gene) → (change g).id ≡ g.id)
      → Change (change_gene id change m)
  unfolding change_gene
  change_gene-Change id change h = elim (Option-cases (lookup id m.genes)) [
    | inl e ↦ rw (e, change_gene) (refused (ApplyError.not_found id))
    | inr (g, e) ↦ rw (e, change_gene) (gene_changed id g (change g) e (h g))
  ]

  change_draft-Change :
      (id : String) (change : SkillDraft → SkillDraft)
      → ((d : SkillDraft) → (change d).id ≡ d.id)
      → Change (change_draft id change m)
  unfolding change_draft
  change_draft-Change id change h = elim (Option-cases (lookup id m.drafts)) [
    | inl e ↦ rw (e, change_draft) (refused (ApplyError.not_found id))
    | inr (d, e) ↦ rw (e, change_draft) (draft_changed id d (change d) e (h d))
  ]

  apply_dag_update-Change : (p : DagPayload) (ts : ℕ) → Change (apply_dag_update p ts m)
  unfolding apply_dag_update
  apply_dag_update-Change p ts = elim (Option-cases (lookup p.node_id m.dag_nodes)) [
    | inl e ↦ rw (e, apply_dag_update) (node_put _)
    | inr (n, e) ↦ rw (e, apply_dag_update) (node_changed p.node_id n _ e refl)
  ]

module _ (U : Type 0) (json : Json) (p : String) (m : FsmSnapshot)
    (known : U → IsUnassigned json p) where
  direct-Change :
      Change U m
        (decoded (json.task p) m (λ t. (record m { tasks = insert t.task.id t m.tasks }, none)))
  direct-Change =
      decoded-Change U m (json.task p) _ (λ t e. task_submitted t (λ u. (known u).0 t e))

  -- The first format, with what is known of the task in it
  with_data-Change :
      (e : EnqueuePayload) (t : ReplicatedTask)
      → (U → str_eq t.status "Assigned" ≡ false)
      → Change U m (of_data json e (some t) m)
  with_data-Change e t h =
      task_submitted _
        (λ u. elim (Bool-cases (str_eq t.status "")) [ inl b ↦ rw b refl | inr b ↦ rw b (h u) ])

  submitted-Change :
      (e : EnqueuePayload) (x : Option ReplicatedTask)
      → (U → (t : ReplicatedTask) → x ≡ some t → str_eq t.status "Assigned" ≡ false)
      → Change U m (of_data json e x m)
  submitted-Change e none h = refused ApplyError.bad_json
  submitted-Change e (some t) h = with_data-Change e t (λ u. h u t refl)

  apply_enqueue-Change : Change U m (apply_enqueue json p m)
  unfolding apply_enqueue
  apply_enqueue-Change = elim (Option-cases (json.enqueue p)) [
    | inl n ↦ rw (n, apply_enqueue) direct-Change
    | inr (e, h) ↦ elim (Bool-cases (str_eq e.task_id "")) [
      | inl b ↦ rw (h, apply_enqueue, b) direct-Change
      | inr b ↦ elim (Bool-cases (str_eq e.task_data "")) [
        | inl d ↦ rw (h, apply_enqueue, b, d) (with_data-Change e unset_task (λ u. refl))
        | inr d ↦
            rw (h, apply_enqueue, b, d)
              (submitted-Change e (json.task e.task_data) (λ u t k. (known u).1 e t h k))
      ]
    ]
  ]

  claim_post-Change :
      (e : EnqueuePayload) → json.enqueue p ≡ some e → Change U m (apply_claim_post json e m)
  unfolding apply_claim_post
  claim_post-Change e h = elim (Option-cases (lookup e.task_id m.tasks)) [
    | inl n ↦
        rw (n, apply_claim_post)
          (decoded-Change U m (json.task e.task_data) _ (λ t k.
            task_submitted record { status = t.status; task = record t.task { id = e.task_id } }
              (λ u. (known u).1 e t h k)))
    | inr (t, k) ↦ rw (k, apply_claim_post) ignored
  ]

  pub apply_kind-Change : (k : CommandKind) (ts : ℕ) → Change U m (apply_kind json k p ts m)
  unfolding apply_kind
  apply_kind-Change CommandKind.task_enqueue ts = apply_enqueue-Change
  apply_kind-Change CommandKind.task_assign ts =
      decoded-Change U m (json.task_and_client p) _
        (λ (id, client) e. change_task-Change U m id (assign_to client ts) (λ t. refl) (λ t. refl))
  apply_kind-Change CommandKind.task_start ts =
      decoded-Change U m (json.task_and_client p) _
        (λ (id, client) e. change_task-Change U m id (start ts) (λ t. refl) (λ t. refl))
  apply_kind-Change CommandKind.task_complete ts =
      decoded-Change U m (json.completion p) _
        (λ (id, result) e. change_task-Change U m id (complete result ts) (λ t. refl) (λ t. refl))
  apply_kind-Change CommandKind.task_failed ts =
      decoded-Change U m (json.failure p) _ (λ (id, error, attempts) e.
        change_task-Change U m id (fail error attempts) (λ t. refl) (λ t. refl))
  apply_kind-Change CommandKind.task_cancel ts =
      decoded-Change U m (json.cancelled_task p) _
        (λ id e. change_task-Change U m id (cancel ts) (λ t. refl) (λ t. refl))
  apply_kind-Change CommandKind.task_escalate ts =
      decoded-Change U m (json.escalated_task p) _
        (λ id e. change_task-Change U m id (escalate) (λ t. refl) (λ t. refl))
  apply_kind-Change CommandKind.task_timed_out ts =
      decoded-Change U m (json.timed_out_task p) _
        (λ id e. change_task-Change U m id (time_out) (λ t. refl) (λ t. refl))
  apply_kind-Change CommandKind.client_register ts =
      decoded-Change U m (json.client p) _ (λ c e. client_put c)
  apply_kind-Change CommandKind.client_unregister ts =
      decoded-Change U m (json.client_id p) _ (λ id e. client_removed id)
  apply_kind-Change CommandKind.client_stale ts =
      decoded-Change U m (json.client_id p) _ (λ id e. apply_stale-Change U m id)
  apply_kind-Change CommandKind.gene_submit ts =
      decoded-Change U m (json.gene p) _ (λ g e. gene_put g)
  apply_kind-Change CommandKind.gene_approve ts =
      decoded-Change U m (json.approved_gene p) _ (λ id e. change_gene-Change U m id _ (λ g. refl))
  apply_kind-Change CommandKind.gene_reject ts =
      decoded-Change U m (json.rejected_gene p) _ (λ id e. change_gene-Change U m id _ (λ g. refl))
  apply_kind-Change CommandKind.skill_draft ts =
      decoded-Change U m (json.draft p) _ (λ d e. draft_put d)
  apply_kind-Change CommandKind.skill_approve ts =
      decoded-Change U m (json.approved_draft p) _
        (λ id e. change_draft-Change U m id _ (λ d. refl))
  apply_kind-Change CommandKind.skill_reject ts =
      decoded-Change U m (json.rejected_draft p) _
        (λ id e. change_draft-Change U m id _ (λ d. refl))
  apply_kind-Change CommandKind.claim_post ts =
      decoded-Change U m (json.enqueue p) _ (λ e h. claim_post-Change e h)
  apply_kind-Change CommandKind.claim_assign ts =
      decoded-Change U m (json.task_and_client p) _
        (λ (id, client) e. change_task-Change U m id (claim client) (λ t. refl) (λ t. refl))
  apply_kind-Change CommandKind.claim_expire ts =
      decoded-Change U m (json.expired_claim p) _
        (λ id e. change_task-Change U m id (unclaim) (λ t. refl) (λ t. refl))
  apply_kind-Change CommandKind.dag_update ts =
      decoded-Change U m (json.dag p) _ (λ d e. apply_dag_update-Change U m d ts)
