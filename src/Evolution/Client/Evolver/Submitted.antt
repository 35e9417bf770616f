-- ===== src/Evolution/Client/Evolver/Submitted.antt =====
-- pkg/reef/evolution/client/evolver.go: which genes a cycle submits.
use reef.Prelude.{
  ◌≡◌, refl, ◌⊎◌, inl, inr, Bool, true, List, [], ◌∷◌, Option, none, some, In, if_either,
  Bool-cases, Option-cases,
}
use reef.Prelude.Int.{pos, ltb_ℤ, ◌+ℤ◌}
use reef.Raft.Fsm.{Gene}
use reef.Evolution.Client.Evolver.{
  LocalGeneEvolver, Cycle, Cuts, EvolutionEvent, Evolved, gave, publish, check_and_publish,
  stagnate, watch, evolve_target, evolve, find_similar_gene, generate_gene, mutate_gene,
  has_improved, select_target, split_by_type, as_draft, as_rejected, mark, nothing,
}

module _ (gate : Option (Gene → Bool)) where
  -- The gene is a draft of one that the gate lets through, if there is a gate.
  abbrev pub Passed : Gene → Type 0
  Passed x =
      (g : Gene) × (x ≡ as_draft g)
      × ((gate ≡ none) ⊎ ((check : Gene → Bool) × (gate ≡ some check) × (check g ≡ true)))

  -- What is submitted was so before, or is the gene that the cycle gives: it passed and is saved.
  abbrev pub SubmitsPassed : LocalGeneEvolver → LocalGeneEvolver × Evolved → Type 0
  SubmitsPassed e r =
      (x : Gene)
      → In x r.0.submitted
      → In x e.submitted ⊎ (Passed x × In x r.0.saved × (r.1 ≡ gave x))

  module _ (y : Cycle) (events : List EvolutionEvent) where
    publish-SubmitsPassed :
        (g : Gene) (e : LocalGeneEvolver)
        → ((gate ≡ none) ⊎ ((check : Gene → Bool) × (gate ≡ some check) × (check g ≡ true)))
        → SubmitsPassed e (publish gate y events g e)
    unfolding publish
    publish-SubmitsPassed g e p = elim (Bool-cases (y.can_save (as_draft g))) [
      | inr s ↦ rw (publish, s) (λ x i. inl i)
      | inl s ↦ elim (Bool-cases e.has_submitter) [
        | inr h ↦ rw (publish, s, h) (λ x i. inl i)
        | inl h ↦
            rw (publish, s, h)
              (λ x i. elim i [
                | inl same ↦ rw (← same) (inr ((g, refl, p), inl refl, refl))
                | inr j ↦ inl j
              ])
      ]
    ]

module _ (y : Cycle) (events : List EvolutionEvent) where
  check-SubmitsPassed :
      (gate : Option (Gene → Bool)) (g : Gene) (e : LocalGeneEvolver)
      → SubmitsPassed gate e (check_and_publish gate y events g e)
  unfolding check_and_publish
  check-SubmitsPassed none g e = publish-SubmitsPassed none y events g e (inl refl)
  check-SubmitsPassed (some check) g e = elim (Bool-cases (check g)) [
    | inl c ↦
        rw (check_and_publish, c)
          (publish-SubmitsPassed (some check) y events g e (inr (check, refl, c)))
    | inr c ↦
        rw (check_and_publish, c)
          (if_either
            (λ (e' : LocalGeneEvolver). SubmitsPassed (some check) e (e', gave (as_rejected g)))
            (y.can_save (as_rejected g)) _ _ (λ x i. inl i) (λ x i. inl i))
  ]

  module _ (gate : Option (Gene → Bool)) where
    stagnate-SubmitsPassed :
        (g : Gene) (e : LocalGeneEvolver) → SubmitsPassed gate e (stagnate gate y events g e)
    unfolding stagnate
    stagnate-SubmitsPassed g e =
        if_either (λ (e' : LocalGeneEvolver). SubmitsPassed gate e (mark events g e', gave g))
          (y.can_save g) _ _ (λ x i. inl i) (λ x i. inl i)

    watch-SubmitsPassed :
        (target : List EvolutionEvent) (old g : Gene) (e : LocalGeneEvolver)
        → SubmitsPassed gate e (watch gate y events target old g e)
    unfolding watch
    watch-SubmitsPassed target old g e =
        if_either (SubmitsPassed gate e) (has_improved old g target) _ _
          (check-SubmitsPassed gate _ e)
          (if_either (SubmitsPassed gate e)
            (ltb_ℤ (old.stagnation_count +ℤ pos 1) (pos e.stagnation_threshold)) _ _
            (check-SubmitsPassed gate _ e) (stagnate-SubmitsPassed _ e))

    target-SubmitsPassed :
        (c : Cuts) (target : List EvolutionEvent) (e : LocalGeneEvolver)
        → SubmitsPassed gate e (evolve_target gate y events c target e)
    unfolding evolve_target
    target-SubmitsPassed c target e = elim (Option-cases (find_similar_gene y.top_genes)) [
      | inl n ↦ elim (Option-cases (generate_gene c e y target)) [
        | inl m ↦ rw (evolve_target, n, m) (λ x i. inl i)
        | inr (g, m) ↦ rw (evolve_target, n, m) (check-SubmitsPassed gate g e)
      ]
      | inr (old, n) ↦ elim (Option-cases (mutate_gene c e y old target)) [
        | inl m ↦ rw (evolve_target, n, m) (λ x i. inl i)
        | inr (g, m) ↦ rw (evolve_target, n, m) (watch-SubmitsPassed target old g e)
      ]
    ]

-- A cycle submits at most the gene that it gives, and only if the gate lets it through and it is saved: never a
-- stagnant gene or a rejected one, whatever status the language model wrote into it.
pub evolve-SubmitsPassed :
    (gate : Option (Gene → Bool)) (c : Cuts) (y : Cycle) (e : LocalGeneEvolver)
    → SubmitsPassed gate e (evolve gate c y e)
unfolding evolve
evolve-SubmitsPassed gate c y e = elim (Option-cases y.events) [
  | inl n ↦ rw (evolve, n) (λ x i. inl i)
  | inr (events, n) ↦
      rw (evolve, n)
        (of_target events (
          select_target y.below_repair y.below_novel (split_by_type events).0
            (split_by_type events).1))
]
  where
    of_target :
        (events target : List EvolutionEvent)
        → SubmitsPassed gate e
            (elim target [ [] ↦ (e, nothing) | v ∷ vs ↦ evolve_target gate y events c (v ∷ vs) e ])
    of_target events [] = λ x i. inl i
    of_target events (v ∷ vs) = target-SubmitsPassed y events gate c (v ∷ vs) e
