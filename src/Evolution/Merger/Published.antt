-- ===== src/Evolution/Merger/Published.antt =====
-- pkg/reef/evolution/server/skill_merger.go: a published skill stands in a file.
use reef.Prelude.{
  ℕ, ◌≡◌, refl, sym, subst, ◌⊎◌, inl, inr, Bool, true, false, List, [], ◌∷◌, Option, none, some,
  String, str_eq, arith, In, Bool-cases, Option-cases,
}
use reef.Raft.Fsm.{Gene, SkillDraft}
use reef.Evolution.Merger.Draft.{transition_to, stamped}
use reef.Evolution.Merger.{
  MergerStore, SkillTexts, SkillMerger, generate_skill, derive_skill_name, new_draft, merge,
  publish, approve, turn_down, reject,
}

-- The laws of a table of drafts. `kept d` is how the table keeps `d`, for instance with its times in seconds.
pub record DraftLaws {S : Type 0} (ops : MergerStore S) : Type 0 where
  pub rows : S → List SkillDraft
  pub kept : SkillDraft → SkillDraft
  pub kept_status : (d : SkillDraft) → (kept d).status ≡ d.status
  pub kept_role : (d : SkillDraft) → (kept d).role ≡ d.role
  pub kept_skill_name : (d : SkillDraft) → (kept d).skill_name ≡ d.skill_name
  pub kept_content : (d : SkillDraft) → (kept d).content ≡ d.content
  pub save_rows :
      (d x : SkillDraft) (s : S)
      → In x (rows (ops.save_skill_draft d s).0)
      → (x ≡ kept d) ⊎ In x (rows s)
  pub update_rows :
      (d x : SkillDraft) (s : S)
      → In x (rows (ops.update_skill_draft d s).0)
      → (x ≡ kept d) ⊎ In x (rows s)

-- The calls that reach a merger, each with what it meets
pub data MergerCall : Type 0 where
  merges : Option (List Gene → Option String) → Bool → String → ℕ → String → MergerCall
  approves : Bool → Bool → ℕ → String → MergerCall
  rejects : ℕ → String → String → MergerCall

module _ {S : Type 0} (ops : MergerStore S) (t : SkillTexts)
    (path_of : String → String → String) where
  abbrev pub call : MergerCall → SkillMerger S → SkillMerger S
  call (merges llm cancelled id now role) m = merge ops t llm cancelled id now role m
  call (approves has_directory writes now id) m =
      (approve ops path_of has_directory writes now id m).0
  call (rejects now id reason) m = (reject ops now id reason m).0

  pub calls : List MergerCall → SkillMerger S → SkillMerger S
  calls [] m = m
  calls (c ∷ cs) m = calls cs (call c m)

-- A move keeps what the draft says, and reaches its target.
transition_keeps :
    (now : ℕ) (target : String) (d d' : SkillDraft)
    → transition_to now target d ≡ some d'
    → (d'.status ≡ target)
      × (d'.role ≡ d.role)
      × (d'.skill_name ≡ d.skill_name)
      × (d'.content ≡ d.content)
unfolding transition_to stamped
transition_keeps now target d d' e = ground (arith, e)

module _ {S : Type 0} (ops : MergerStore S) (laws : DraftLaws ops)
    (path_of : String → String → String) where
  -- If the draft is published, its content was written to its path.
  abbrev pub Written : List (String × String) → SkillDraft → Type 0
  Written files x =
      str_eq x.status "published" ≡ true → In (path_of x.role x.skill_name, x.content) files

  abbrev pub AllWritten : SkillMerger S → Type 0
  AllWritten m = (x : SkillDraft) → In x (laws.rows m.store) → Written m.files x

  kept-Written :
      (files : List (String × String)) (d : SkillDraft)
      → Written files d
      → Written files (laws.kept d)
  kept-Written files d w e =
      rw (laws.kept_role d, laws.kept_skill_name d, laws.kept_content d)
        (w (rw (laws.kept_status d) at e))

  saved-Written :
      (d : SkillDraft) (m : SkillMerger S)
      → AllWritten m
      → Written m.files d
      → AllWritten (record m { store = (ops.save_skill_draft d m.store).0 })
  saved-Written d m a w x i = elim (laws.save_rows d x m.store i) [
    | inl e ↦ subst (Written m.files) (sym e) (kept-Written m.files d w)
    | inr j ↦ a x j
  ]

  updated-Written :
      (d : SkillDraft) (m : SkillMerger S)
      → AllWritten m
      → Written m.files d
      → AllWritten (record m { store = (ops.update_skill_draft d m.store).0 })
  updated-Written d m a w x i = elim (laws.update_rows d x m.store i) [
    | inl e ↦ subst (Written m.files) (sym e) (kept-Written m.files d w)
    | inr j ↦ a x j
  ]

  publish-AllWritten :
      (now : ℕ) (d : SkillDraft) (m : SkillMerger S)
      → AllWritten m
      → In (path_of d.role d.skill_name, d.content) m.files
      → AllWritten (publish ops now d m).0
  unfolding publish
  publish-AllWritten now d m a i = elim (Option-cases (transition_to now "approved" d)) [
    | inl e ↦ rw (e, publish) a
    | inr (d1, e) ↦ elim (Option-cases (transition_to now "published" d1)) [
      | inl f ↦ rw (e, publish, f) a
      | inr (d2, f) ↦
          let (s1, r1, n1, c1) = transition_keeps now "approved" d d1 e in
          let (s2, r2, n2, c2) = transition_keeps now "published" d1 d2 f in
          let w : Written m.files d2 = λ p. rw (r2, r1, n2, n1, c2, c1) i in
          elim (Bool-cases (ops.update_skill_draft d2 m.store).1) [
            | inl u ↦ rw (e, publish, f, u) (updated-Written d2 m a w)
            | inr u ↦ rw (e, publish, f, u) (updated-Written d2 m a w)
          ]
    ]
  ]

  approve-AllWritten :
      (has_directory writes : Bool) (now : ℕ) (id : String) (m : SkillMerger S)
      → AllWritten m
      → AllWritten (approve ops path_of has_directory writes now id m).0
  unfolding approve
  approve-AllWritten has_directory writes now id m a =
      elim (Option-cases (ops.get_skill_draft id m.store)) [
        | inl e ↦ rw (e, approve) a
        | inr (none, e) ↦ rw (e, approve) a
        | inr (some d, e) ↦ elim (Bool-cases (str_eq d.status "pending_review")) [
          | inr p ↦ rw (e, approve, p) a
          | inl p ↦ elim (Bool-cases has_directory) [
            | inr q ↦ rw (e, approve, p, q) a
            | inl q ↦ elim (Bool-cases writes) [
              | inr r ↦ rw (e, approve, p, q, r) a
              | inl r ↦
                  rw (e, approve, p, q, r)
                    (publish-AllWritten now d
                      (record m { files = (path_of d.role d.skill_name, d.content) ∷ m.files })
                      (λ x i s. inr (a x i s)) (inl refl))
            ]
          ]
        ]
      ]

  turn_down-AllWritten :
      (now : ℕ) (reason : String) (d : SkillDraft) (m : SkillMerger S)
      → AllWritten m
      → AllWritten (turn_down ops now reason d m).0
  unfolding turn_down
  turn_down-AllWritten now reason d m a = elim (Option-cases (transition_to now "rejected" d)) [
    | inl f ↦ rw (f, turn_down) a
    | inr (d1, f) ↦
        let d2 : SkillDraft = record d1 { review_comment = reason } in
        let w : Written m.files d2 =
          λ s. absurd (ground (arith, rw (transition_keeps now "rejected" d d1 f).0 at s)) in
        elim (Bool-cases (ops.update_skill_draft d2 m.store).1) [
          | inl u ↦ rw (f, turn_down, u) (updated-Written d2 m a w)
          | inr u ↦ rw (f, turn_down, u) (updated-Written d2 m a w)
        ]
  ]

  reject-AllWritten :
      (now : ℕ) (id reason : String) (m : SkillMerger S)
      → AllWritten m
      → AllWritten (reject ops now id reason m).0
  unfolding reject
  reject-AllWritten now id reason m a = elim (Option-cases (ops.get_skill_draft id m.store)) [
    | inl e ↦ rw (e, reject) a
    | inr (none, e) ↦ rw (e, reject) a
    | inr (some d, e) ↦ elim (Bool-cases (str_eq d.status "pending_review")) [
      | inr p ↦ rw (e, reject, p) a
      | inl p ↦ rw (e, reject, p) (turn_down-AllWritten now reason d m a)
    ]
  ]

  module _ (t : SkillTexts) where
    merge-AllWritten :
        (llm : Option (List Gene → Option String)) (cancelled : Bool) (id : String) (now : ℕ)
        (role : String) (m : SkillMerger S)
        → AllWritten m
        → AllWritten (merge ops t llm cancelled id now role m)
    unfolding merge
    merge-AllWritten llm true id now role m a = a
    merge-AllWritten llm false id now role m a =
        elim (Option-cases (ops.get_approved_genes role m.max_genes_per_merge m.store)) [
          | inl e ↦ rw (merge, e) a
          | inr ([], e) ↦ rw (merge, e) a
          | inr (g ∷ gs, e) ↦ elim (Option-cases (generate_skill t llm (g ∷ gs))) [
            | inl f ↦ rw (merge, e, f) a
            | inr (content, f) ↦
                let d = new_draft id now role (derive_skill_name t (g ∷ gs)) content (g ∷ gs) in
                let w : Written m.files d = λ s. absurd (ground (arith, s)) in
                elim (Bool-cases (ops.save_skill_draft d m.store).1) [
                  | inl u ↦ rw (merge, e, f, u) (saved-Written d m a w)
                  | inr u ↦ rw (merge, e, f, u) (saved-Written d m a w)
                ]
          ]
        ]

    -- Whatever is merged, approved and rejected, in whatever order and whichever writes fail: if the content of
    -- every published draft in the store was written to the path of its role and name, this is so
    -- afterwards.
    pub calls-AllWritten :
        (cs : List MergerCall) (m : SkillMerger S)
        → AllWritten m
        → AllWritten (calls ops t path_of cs m)
    unfolding calls
    calls-AllWritten [] m a = a
    calls-AllWritten (merges llm cancelled id now role ∷ cs) m a =
        calls-AllWritten cs _ (merge-AllWritten llm cancelled id now role m a)
    calls-AllWritten (approves has_directory writes now id ∷ cs) m a =
        calls-AllWritten cs _ (approve-AllWritten has_directory writes now id m a)
    calls-AllWritten (rejects now id reason ∷ cs) m a =
        calls-AllWritten cs _ (reject-AllWritten now id reason m a)
