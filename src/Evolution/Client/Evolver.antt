-- ===== src/Evolution/Client/Evolver.antt =====
-- pkg/reef/evolution/client/evolver.go: one cycle of the evolver. What the store, the random numbers and the
-- language model give is an input of the cycle; the answer of the model is a gene, if it could be read. What
-- is saved, marked and submitted is recorded, newest first. The prompts are left out, and of an event its
-- signal, cause and importance.
pub mod Submitted
use reef.Prelude.{
  ℕ, zero, suc, ◌+◌, ◌-◌, ◌*◌, Bool, true, false, not, ◌&&◌, ◌||◌, List, [], ◌∷◌, ◌++◌, Option,
  none, some, String, str_eq, ltb, leb, ◌==◌, if◌then◌else◌, keep_if, map, has,
}
use reef.Prelude.Int.{ℤ, pos, ◌+ℤ◌, ltb_ℤ}
use reef.Prelude.Texts.{byte_len, line_count}
use reef.Raft.Fsm.{Gene}

pub record EvolutionEvent : Type 0 where
  pub id : String
  pub client_id : String
  pub event_type : String
  pub gene_id : String

pub record LocalGeneEvolver : Type 0 where
  pub stagnation_threshold : ℕ
  pub max_gene_lines : ℕ
  pub max_control_signal_chars : ℕ
  pub has_submitter : Bool
  pub saved : List Gene
  pub marked : List (List String × String)
  pub stagnated : List Gene
  pub submitted : List Gene

-- What a cycle meets; `none` is an error. `below_repair` and `below_novel` compare the random number with the weight
-- of a repair and with the sum of that and the weight of an innovation.
pub record Cycle : Type 0 where
  pub events : Option (List EvolutionEvent)
  pub below_repair : Bool
  pub below_novel : Bool
  pub top_genes : Option (List Gene)
  pub answer : Option Gene
  pub new_id : String
  pub now : ℕ
  pub can_save : Gene → Bool

-- How a cycle returns.
pub data Evolved : Type 0 where
  nothing : Evolved
  err : String → Evolved
  gave : Gene → Evolved

abbrev is_success : EvolutionEvent → Bool
is_success e = str_eq e.event_type "success_pattern"

abbrev is_failure : EvolutionEvent → Bool
is_failure e = str_eq e.event_type "failure_pattern" || str_eq e.event_type "blocking_pattern"

abbrev is_novel : EvolutionEvent → Bool
is_novel e = str_eq e.gene_id ""

-- `splitByType`
unfoldable pub split_by_type : List EvolutionEvent → List EvolutionEvent × List EvolutionEvent
split_by_type events = (keep_if is_success events, keep_if is_failure events)

-- The first list that is not empty
unfoldable pub first_filled : List (List EvolutionEvent) → List EvolutionEvent
first_filled [] = []
first_filled ([] ∷ lists) = first_filled lists
first_filled ((e ∷ es) ∷ lists) = e ∷ es

-- `selectTarget`; no target is the empty list.
unfoldable pub select_target :
    Bool → Bool → List EvolutionEvent → List EvolutionEvent → List EvolutionEvent
unfolding first_filled
select_target below_repair below_novel successes failures = first_filled (
    (if below_repair then failures else [])
    ∷ (if below_novel then keep_if is_novel successes else [])
    ∷ keep_if (λ e. not (is_novel e)) successes
    ∷ failures
    ∷ [])

-- `findSimilarGene`
unfoldable pub find_similar_gene : Option (List Gene) → Option Gene
find_similar_gene none = none
find_similar_gene (some []) = none
find_similar_gene (some (g ∷ gs)) =
    if str_eq g.status "stagnant" || str_eq g.status "retired" then none else some g

-- The library's cuts of a text: to its first bytes, and to its first lines
pub record Cuts : Type 0 where
  pub first_bytes : ℕ → String → String
  pub first_lines : ℕ → String → String

abbrev take : ℕ → List String → List String
take zero xs = []
take (suc n) [] = []
take (suc n) (x ∷ xs) = x ∷ take n xs

-- `truncateControlSignal`
unfoldable pub truncate_control_signal : Cuts → LocalGeneEvolver → Gene → Gene
unfolding byte_len line_count
truncate_control_signal c e g =
    let cut =
      if ltb e.max_control_signal_chars (byte_len g.control_signal)
      then c.first_bytes e.max_control_signal_chars g.control_signal
      else g.control_signal in
    record g {
      control_signal =
          if ltb e.max_gene_lines (line_count cut) then c.first_lines e.max_gene_lines cut else cut;
      failure_warnings = take 20 g.failure_warnings;
    }

abbrev first_client : String → List EvolutionEvent → String
first_client old [] = old
first_client old (e ∷ es) = e.client_id

-- `generateGene`, from the answer that was read
unfoldable pub generate_gene : Cuts → LocalGeneEvolver → Cycle → List EvolutionEvent → Option Gene
unfolding truncate_control_signal
generate_gene c e y target = elim y.answer [
  | none ↦ none
  | some g ↦
      if str_eq g.strategy_name ""
      then none
      else some (
          truncate_control_signal c e record g {
            id = y.new_id;
            version = pos 1;
            created_at = y.now;
            updated_at = y.now;
            source_events = map (λ (v : EvolutionEvent). v.id) target;
            source_client_id = first_client g.source_client_id target;
            status = "draft";
          })
]

-- The ids that are not there yet, one after the other
unfoldable pub add_new : List String → List String → List String
add_new seen [] = seen
add_new seen (id ∷ ids) = add_new (if has id seen then seen else seen ++ id ∷ []) ids

-- `mutateGene`
unfoldable pub mutate_gene :
    Cuts → LocalGeneEvolver → Cycle → Gene → List EvolutionEvent → Option Gene
unfolding truncate_control_signal add_new
mutate_gene c e y old target = elim y.answer [
  | none ↦ none
  | some g ↦ some (
      truncate_control_signal c e record g {
        id = old.id;
        version = old.version +ℤ pos 1;
        created_at = old.created_at;
        updated_at = y.now;
        source_client_id = old.source_client_id;
        source_events = add_new [] (old.source_events ++ map (λ (v : EvolutionEvent). v.id) target);
      })
]

abbrev all_success : List EvolutionEvent → Bool
all_success [] = true
all_success (e ∷ es) = is_success e && all_success es

-- `hasImproved` for an existing gene: more than a tenth
unfoldable pub has_improved : Gene → Gene → List EvolutionEvent → Bool
unfolding byte_len
has_improved old g target =
    let before = byte_len old.control_signal in
    let after = byte_len g.control_signal in
    if all_success target
    then true
    else if before == 0
    then ltb 0 after
    else ltb before (10 * ((after - before) + (before - after)))

abbrev save : Gene → LocalGeneEvolver → LocalGeneEvolver
save g e = record e { saved = g ∷ e.saved }

abbrev try_save : Cycle → Gene → LocalGeneEvolver → LocalGeneEvolver
try_save y g e = if y.can_save g then save g e else e

abbrev mark : List EvolutionEvent → Gene → LocalGeneEvolver → LocalGeneEvolver
mark events g e = record e { marked = (map (λ (v : EvolutionEvent). v.id) events, g.id) ∷ e.marked }

abbrev as_draft : Gene → Gene
as_draft g = record g { status = "draft" }

abbrev as_rejected : Gene → Gene
as_rejected g = record g { status = "rejected" }

module _ (gate : Option (Gene → Bool)) (y : Cycle) (events : List EvolutionEvent) where
  -- The steps 8 and 9 of `Evolve`
  unfoldable pub publish : Gene → LocalGeneEvolver → LocalGeneEvolver × Evolved
  publish g e =
      let e1 = mark events (as_draft g) (save (as_draft g) e) in
      if y.can_save (as_draft g)
      then (
        (if e1.has_submitter then record e1 { submitted = as_draft g ∷ e1.submitted } else e1),
        gave (as_draft g),
      )
      else (e, err "save gene")

  -- The steps 7 to 9
  unfoldable pub check_and_publish : Gene → LocalGeneEvolver → LocalGeneEvolver × Evolved
  unfolding publish
  check_and_publish g e = elim gate [
    | none ↦ publish g e
    | some check ↦
        if check g then publish g e else (try_save y (as_rejected g) e, gave (as_rejected g))
  ]

  -- The branch of step 6 that ends the cycle
  unfoldable pub stagnate : Gene → LocalGeneEvolver → LocalGeneEvolver × Evolved
  stagnate g e =
      let e1 = try_save y g (record e { stagnated = g ∷ e.stagnated }) in (mark events g e1, gave g)

  -- Step 6 for a gene that changes an existing one
  unfoldable pub watch :
      List EvolutionEvent → Gene → Gene → LocalGeneEvolver → LocalGeneEvolver × Evolved
  unfolding has_improved check_and_publish stagnate
  watch target old g e =
      let tired : Gene = record g { stagnation_count = old.stagnation_count +ℤ pos 1 } in
      let fresh : Gene = record g {
        stagnation_count = pos 0;
        status = if str_eq g.status "stagnant" then "draft" else g.status;
      } in
      if has_improved old g target
      then check_and_publish fresh e
      else if ltb_ℤ tired.stagnation_count (pos e.stagnation_threshold)
      then check_and_publish tired e
      else stagnate (record tired { status = "stagnant" }) e

  -- The steps 4 to 9, for a target
  unfoldable pub evolve_target :
      Cuts → List EvolutionEvent → LocalGeneEvolver → LocalGeneEvolver × Evolved
  unfolding find_similar_gene generate_gene mutate_gene watch
  evolve_target c target e = elim (find_similar_gene y.top_genes) [
    | none ↦ elim (generate_gene c e y target) [
      | none ↦ (e, err "gene generation failed")
      | some g ↦ check_and_publish g e
    ]
    | some old ↦ elim (mutate_gene c e y old target) [
      | none ↦ (e, err "gene generation failed")
      | some g ↦ watch target old g e
    ]
  ]

-- `Evolve`
unfoldable pub evolve :
    Option (Gene → Bool) → Cuts → Cycle → LocalGeneEvolver → LocalGeneEvolver × Evolved
unfolding split_by_type select_target evolve_target
evolve gate c y e = elim y.events [
  | none ↦ (e, err "query events")
  | some events ↦
      let (successes, failures) = split_by_type events in
      elim (select_target y.below_repair y.below_novel successes failures) [
        | [] ↦ (e, nothing)
        | v ∷ vs ↦ evolve_target gate y events c (v ∷ vs) e
      ]
]
