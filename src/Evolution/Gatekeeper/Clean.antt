-- ===== src/Evolution/Gatekeeper/Clean.antt =====
-- pkg/reef/evolution/server/gate.go: a gene that passes the first layer has no pattern in its texts.
use reef.Prelude.{
  ◌≡◌, refl, inl, inr, Bool, true, false, List, [], ◌∷◌, Option, none, some, String, arith, In,
  Bool-cases, Option-cases,
}
use reef.Raft.Fsm.{Gene}
use reef.Evolution.Similarity.{Floats, Texts}
use reef.Evolution.Gatekeeper.{
  Gatekeeper, Surroundings, first_match, either_reason, found, review_layer1, review,
}

first_match-none :
    (matches : String → String → Bool) (text p : String) (ps : List String)
    → first_match matches text ps ≡ none
    → In p ps
    → matches p text ≡ false
unfolding first_match
first_match-none matches text p [] e i = absurd i
first_match-none matches text p (q ∷ qs) e i = elim (Bool-cases (matches q text)) [
  | inl m ↦ absurd (ground (arith, m, e))
  | inr m ↦ elim i [ inl s ↦ rw (← s) m | inr j ↦ first_match-none matches text p qs (rw m at e) j ]
]

found-none :
    (matches : String → String → Bool) (label text p : String) (ps : List String)
    → found matches label text ps ≡ none
    → In p ps
    → matches p text ≡ false
found-none matches label text p ps e i = elim (Option-cases (first_match matches text ps)) [
  | inl n ↦ first_match-none matches text p ps n i
  | inr (q, s) ↦ absurd (ground (arith, s, e))
]

either-none : (a b : Option String) → either_reason a b ≡ none → (a ≡ none) × (b ≡ none)
either-none none b e = (refl, e)
either-none (some r) b e = absurd (ground (arith, e))

module _ {F : Type 0} (fl : Floats F) (t : Texts) (k : Gatekeeper F) (w : Surroundings) where
  passed_layer1 :
      (g : Gene)
      → k.enable_layer1 ≡ true
      → (review fl t k w g).passed ≡ true
      → review_layer1 fl t k w g ≡ none
  unfolding review
  passed_layer1 g on p = elim (Option-cases (review_layer1 fl t k w g)) [
    | inl n ↦ n
    | inr (r, e) ↦ absurd (ground (arith, on, e, p))
  ]

  -- While the first layer is on, no dangerous pattern matches the control signal or the match condition of a
  -- gene that the review passes, whatever the other layers say.
  pub passed_is_clean :
      (g : Gene) (pattern : String)
      → k.enable_layer1 ≡ true
      → (review fl t k w g).passed ≡ true
      → In pattern k.compiled_patterns
      → (w.matches pattern g.control_signal ≡ false) × (w.matches pattern g.match_condition ≡ false)
  unfolding review_layer1
  passed_is_clean g pattern on p i =
      let (a, b) = either-none _ _ (passed_layer1 g on p) in
      (
        found-none w.matches "dangerous pattern detected: " g.control_signal pattern
            k.compiled_patterns a i,
        found-none w.matches "dangerous pattern detected in match_condition: " g.match_condition
            pattern k.compiled_patterns b i,
      )
