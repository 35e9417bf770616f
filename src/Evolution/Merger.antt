-- ===== src/Evolution/Merger.antt =====
-- pkg/reef/evolution/server/skill_merger.go: how approved genes become a skill. The store is behind an interface;
-- the answer of the language model, whether the directory and the file can be written, the new id and
-- the times are inputs. The prompts are left out: the model is asked about genes. Messages to the
-- administrator are recorded, newest first; so are the files. Rollback only calls git.
pub mod Draft
pub mod Published
use Prim.Native.Char.{Char, code}
use Prim.Native.String
use reef.Prelude.{
  ℕ, ◌+◌, Bool, true, false, not, ◌||◌, List, [], ◌∷◌, ◌++◌, Option, none, some, String, str_eq,
  str_append, lookup, insert, ltb, ◌==◌, if◌then◌else◌, length, map,
}
use reef.Prelude.Int.{ℤ, pos}
use reef.Prelude.Texts.{codes, starts_with, byte_len}
use reef.Raft.Fsm.{Gene, SkillDraft}
use reef.Evolution.Merger.Draft.{transition_to}

-- `MergerStore`: an operation that fails is `none`, or false where it changes the store.
pub record MergerStore (S : Type 0) : Type 0 where
  pub count_approved_genes : String → S → Option ℕ
  pub get_approved_genes : String → ℕ → S → Option (List Gene)
  pub save_skill_draft : SkillDraft → S → S × Bool
  pub get_skill_draft : String → S → Option (Option SkillDraft)
  pub update_skill_draft : SkillDraft → S → S × Bool

-- The functions of the libraries on texts: the rest of a text of 100000 bytes, and the classes of characters.
pub record SkillTexts : Type 0 where
  pub to_lower : String → String
  pub trim_space : String → String
  pub trim_dashes : String → String
  pub cut : String → String
  pub is_letter : Char → Bool
  pub is_digit : Char → Bool
  pub lower_char : Char → Char

pub record SkillMerger (S : Type 0) : Type 0 where
  pub store : S
  pub merge_threshold : ℕ
  pub max_genes_per_merge : ℕ
  pub files : List (String × String)
  pub notes : List (String × String)

-- How a call returns.
pub data Reply : Type 0 where
  ok : Reply
  err : String → Reply

-- The loop of `sanitizeSkillName`; the flag is whether the last character written is a dash.
unfoldable pub sanitize_from : SkillTexts → Bool → String → String
sanitize_from t dash String.[] = String.[]
sanitize_from t dash (String.◌∷◌ c s) =
    let skipped = sanitize_from t dash s in
    let word = sanitize_from t false s in
    let next = sanitize_from t true s in
    if t.is_letter c || t.is_digit c
    then String.◌∷◌ (t.lower_char c) word
    else if code c == 32 || (code c == 95 || code c == 45)
    then (if dash then skipped else str_append "-" next)
    else skipped

unfoldable pub sanitize_skill_name : SkillTexts → String → String
unfolding sanitize_from
sanitize_skill_name t name =
    let result = t.trim_dashes (sanitize_from t false name) in
    if str_eq result "" then "merged-skill" else result

-- The first loop of `deriveSkillName`
unfoldable pub count_names : SkillTexts → List Gene → List (String × ℕ) → List (String × ℕ)
count_names t [] counts = counts
count_names t (g ∷ gs) counts =
    let name = t.to_lower g.strategy_name in
    count_names t gs (insert name (elim (lookup name counts) [ none ↦ 1 | some n ↦ n + 1 ]) counts)

-- The second loop: the name with the greatest count, the first one of several
unfoldable pub most_common : List (String × ℕ) → String × ℕ → String × ℕ
most_common [] best = best
most_common ((name, n) ∷ counts) (top, most) =
    most_common counts (if ltb most n then (name, n) else (top, most))

unfoldable pub derive_skill_name : SkillTexts → List Gene → String
unfolding sanitize_skill_name count_names most_common
derive_skill_name t genes =
    let (top, most) = most_common (count_names t genes []) ("", 0) in
    if str_eq top "" || most == 0 then "merged-skill" else sanitize_skill_name t top

-- `generateSKILL`: no model, no genes, and a failed or empty answer are errors.
unfoldable pub generate_skill :
    SkillTexts → Option (List Gene → Option String) → List Gene → Option String
unfolding derive_skill_name starts_with byte_len
generate_skill t none genes = none
generate_skill t (some chat) [] = none
generate_skill t (some chat) (g ∷ gs) = elim (chat (g ∷ gs)) [
  | none ↦ none
  | some response ↦
      if str_eq response ""
      then none
      else let content = if ltb 100_000 (byte_len response) then t.cut response else response in
        some (
          if starts_with (codes (t.trim_space content)) (codes "#")
          then content
          else str_append "# "
              (str_append (derive_skill_name t (g ∷ gs)) (str_append "\n\n" content)))
]

abbrev pub new_draft : String → ℕ → String → String → String → List Gene → SkillDraft
new_draft id now role name content genes = record {
  id = id;
  role = role;
  skill_name = name;
  content = content;
  source_gene_ids = map (λ (g : Gene). g.id) genes;
  status = "pending_review";
  review_comment = "";
  created_at = now;
  reviewed_at = none;
  published_at = none;
}

module _ {S : Type 0} (ops : MergerStore S) where
  -- `CheckAndMerge`: whether a merge is started
  unfoldable pub check_and_merge : String → SkillMerger S → Bool
  check_and_merge role m =
      if str_eq role "" then false else elim (ops.count_approved_genes role m.store) [
        | none ↦ false
        | some n ↦ not (ltb n m.merge_threshold)
      ]

  abbrev pub with_store : S → SkillMerger S → SkillMerger S
  with_store s m = record m { store = s }

  abbrev pub note : String → String → SkillMerger S → SkillMerger S
  note type id m = record m { notes = (type, id) ∷ m.notes }

  -- `merge`; `cancelled` is whether its context is cancelled when it starts.
  unfoldable pub merge :
      SkillTexts
      → Option (List Gene → Option String)
      → Bool
      → String
      → ℕ
      → String
      → SkillMerger S
      → SkillMerger S
  unfolding generate_skill derive_skill_name
  merge t llm cancelled id now role m =
      if cancelled then m else elim (ops.get_approved_genes role m.max_genes_per_merge m.store) [
        | none ↦ m
        | some [] ↦ m
        | some (g ∷ gs) ↦ elim (generate_skill t llm (g ∷ gs)) [
          | none ↦ m
          | some content ↦
              let draft = new_draft id now role (derive_skill_name t (g ∷ gs)) content (g ∷ gs) in
              let (s, saved) = ops.save_skill_draft draft m.store in
              if saved then note "skill_draft_ready" id (with_store s m) else with_store s m
        ]
      ]

  -- The end of `Approve`, for the draft as it was when its file was written
  unfoldable pub publish : ℕ → SkillDraft → SkillMerger S → SkillMerger S × Reply
  unfolding transition_to
  publish now d m = elim (transition_to now "approved" d) [
    | none ↦ (m, err "transition draft")
    | some d1 ↦ elim (transition_to now "published" d1) [
      | none ↦ (m, err "transition to published")
      | some d2 ↦
          let (s, updated) = ops.update_skill_draft d2 m.store in
          if updated
          then (note "skill_approved" d2.id (with_store s m), ok)
          else (with_store s m, err "update draft status")
    ]
  ]

  -- `Approve`; `path_of` joins the role and the name, and the two flags are whether the directory
  -- and the file can be written.
  unfoldable pub approve :
      (String → String → String) → Bool → Bool → ℕ → String → SkillMerger S → SkillMerger S × Reply
  unfolding publish
  approve path_of has_directory writes now id m = elim (ops.get_skill_draft id m.store) [
    | none ↦ (m, err "get draft")
    | some none ↦ (m, err "draft not found")
    | some (some d) ↦
        if not (str_eq d.status "pending_review")
        then (m, err "draft not in pending_review state")
        else if not has_directory
        then (m, err "create directory")
        else if not writes
        then (m, err "write file")
        else publish now d (record m { files = (path_of d.role d.skill_name, d.content) ∷ m.files })
  ]

  -- The end of `Reject`
  unfoldable pub turn_down : ℕ → String → SkillDraft → SkillMerger S → SkillMerger S × Reply
  unfolding transition_to
  turn_down now reason d m = elim (transition_to now "rejected" d) [
    | none ↦ (m, err "transition draft")
    | some d1 ↦
        let (s, updated) = ops.update_skill_draft (record d1 { review_comment = reason }) m.store in
        if updated
        then (note "skill_rejected" d1.id (with_store s m), ok)
        else (with_store s m, err "update draft status")
  ]

  -- `Reject`
  unfoldable pub reject : ℕ → String → String → SkillMerger S → SkillMerger S × Reply
  unfolding turn_down
  reject now id reason m = elim (ops.get_skill_draft id m.store) [
    | none ↦ (m, err "get draft")
    | some none ↦ (m, err "draft not found")
    | some (some d) ↦
        if not (str_eq d.status "pending_review")
        then (m, err "draft not in pending_review state")
        else turn_down now reason d m
  ]
