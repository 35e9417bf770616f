-- ===== src/Evolution/Merger/Draft.antt =====
-- pkg/reef/evolution/skill_draft.go: the checks of a draft and the moves of its status. A draft is the record of
-- Raft/Fsm. `none` is an error.
pub mod Dates
use reef.Prelude.{
  ℕ, Bool, false, ◌||◌, List, [], ◌∷◌, ◌++◌, Option, none, some, String, str_eq, if◌then◌else◌,
  length, leb,
}
use reef.Raft.Fsm.{SkillDraft}

-- `Validate`: the errors, in order
unfoldable pub validate : SkillDraft → List String
validate d =
    (if str_eq d.id "" then "id required" ∷ [] else [])
    ++ ((if str_eq d.role "" then "role required" ∷ [] else [])
        ++ ((if str_eq d.skill_name "" then "skill_name required" ∷ [] else [])
            ++ ((if str_eq d.content "" then "content required" ∷ [] else [])
                ++ (if leb (length d.source_gene_ids) 0
                    then "at least one source_gene_id required" ∷ []
                    else []))))

-- `CanTransitionTo`, of the two statuses
unfoldable pub can_transition_to : String → String → Bool
can_transition_to status target =
    if str_eq status "pending_review"
    then str_eq target "approved" || str_eq target "rejected"
    else if str_eq status "approved"
    then str_eq target "published"
    else if str_eq status "rejected"
    then str_eq target "pending_review"
    else false

-- The times that a move sets
unfoldable pub stamped : ℕ → String → SkillDraft → SkillDraft
stamped now target d =
    if str_eq target "approved" || str_eq target "rejected"
    then record d { reviewed_at = some now }
    else if str_eq target "published"
    then record d { published_at = some now }
    else d

-- `TransitionTo`
unfoldable pub transition_to : ℕ → String → SkillDraft → Option SkillDraft
unfolding can_transition_to stamped
transition_to now target d =
    if can_transition_to d.status target
    then some (record (stamped now target d) { status = target })
    else none

-- A move that is refused leaves the draft as it was.
unfoldable pub move : ℕ × String → SkillDraft → SkillDraft
unfolding transition_to
move (now, target) d = elim (transition_to now target d) [ none ↦ d | some d' ↦ d' ]

unfoldable pub moves : List (ℕ × String) → SkillDraft → SkillDraft
unfolding move
moves [] d = d
moves (m ∷ ms) d = moves ms (move m d)
