-- ===== src/Evolution/Merger/Draft/Dates.antt =====
-- pkg/reef/evolution/skill_draft.go: what the status of a draft says about its dates.
use reef.Prelude.{
  ℕ, ◌≡◌, refl, ◌∙◌, ◌⊎◌, inl, inr, false, List, [], ◌∷◌, Option, none, some, String, str_eq,
  eq_iff, arith, Bool-cases, if◌then◌else◌,
}
use reef.Raft.Fsm.{SkillDraft}
use reef.Evolution.Merger.Draft.{can_transition_to, stamped, transition_to, move, moves}

abbrev IsGiven : Option ℕ → Type 0
IsGiven o = (n : ℕ) × (o ≡ some n)

-- A draft that was decided on has the date of the review, and a published one that of the publication too, which no
-- other draft has.
abbrev pub IsDated : SkillDraft → Type 0
IsDated d =
    ((d.status ≡ "pending_review") × (d.published_at ≡ none))
    ⊎ (((d.status ≡ "approved") × (d.published_at ≡ none) × IsGiven d.reviewed_at)
        ⊎ (((d.status ≡ "rejected") × (d.published_at ≡ none) × IsGiven d.reviewed_at)
            ⊎ ((d.status ≡ "published") × IsGiven d.published_at × IsGiven d.reviewed_at)))

move_lem :
    (now : ℕ) (target : String) (d : SkillDraft)
    → move (now, target) d ≡ (
        if can_transition_to d.status target
        then record (stamped now target d) { status = target }
        else d)
unfolding move transition_to
move_lem now target d = ground arith

-- A refused move
stays :
    (now : ℕ) (target : String) (d : SkillDraft)
    → can_transition_to d.status target ≡ false
    → IsDated d
    → IsDated (move (now, target) d)
stays now target d r v = rw (move_lem now target d, r) v

move-IsDated :
    (now : ℕ) (target : String) (d : SkillDraft) → IsDated d → IsDated (move (now, target) d)
unfolding can_transition_to stamped
move-IsDated now target d (inl (e, p)) = elim (Bool-cases (str_eq target "approved")) [
  | inl a ↦
      let t : target ≡ "approved" = (eq_iff target "approved").0 a in
      rw (move_lem now target d, e, t) (inr (inl (refl, p, (now, refl))))
  | inr a ↦ elim (Bool-cases (str_eq target "rejected")) [
    | inl b ↦
        let t : target ≡ "rejected" = (eq_iff target "rejected").0 b in
        rw (move_lem now target d, e, t) (inr (inr (inl (refl, p, (now, refl)))))
    | inr b ↦ stays now target d (rw (e, a, b) refl) (inl (e, p))
  ]
]
move-IsDated now target d (inr (inl (e, p, q))) = elim (Bool-cases (str_eq target "published")) [
  | inl a ↦
      let t : target ≡ "published" = (eq_iff target "published").0 a in
      rw (move_lem now target d, e, t) (inr (inr (inr (refl, (now, refl), q))))
  | inr a ↦ stays now target d (rw (e, a) refl) (inr (inl (e, p, q)))
]
move-IsDated now target d (inr (inr (inl (e, p, q)))) =
    elim (Bool-cases (str_eq target "pending_review")) [
      | inl a ↦
          let t : target ≡ "pending_review" = (eq_iff target "pending_review").0 a in
          rw (move_lem now target d, e, t) (inl (refl, p))
      | inr a ↦ stays now target d (rw (e, a) refl) (inr (inr (inl (e, p, q))))
    ]
move-IsDated now target d (inr (inr (inr (e, p, q)))) =
    stays now target d (rw e refl) (inr (inr (inr (e, p, q))))

-- Whatever moves are tried, in whatever order, the dates of a draft fit its status.
pub moves-IsDated : (ms : List (ℕ × String)) (d : SkillDraft) → IsDated d → IsDated (moves ms d)
unfolding moves
moves-IsDated [] d v = v
moves-IsDated ((now, target) ∷ ms) d v =
    moves-IsDated ms (move (now, target) d) (move-IsDated now target d v)

-- No move leads out of a published draft.
pub published_stays :
    (ms : List (ℕ × String)) (d : SkillDraft) → d.status ≡ "published" → moves ms d ≡ d
unfolding moves can_transition_to
published_stays [] d e = refl
published_stays ((now, target) ∷ ms) d e =
    let same : move (now, target) d ≡ d = move_lem now target d ∙ rw e refl in
    rw same (published_stays ms d e)
